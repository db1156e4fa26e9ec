-- ===== src/ScholarshipDisbursements/Challenges.antt =====
-- contracts/scholarship-disbursements/src/lib.rs: what the hash of a wallet challenge commits to.
use chain_verse_onchain.Common.{ℕ, List, ◌++◌}
use chain_verse_onchain.Signing.{Crypto}
use chain_verse_onchain.Signing.Bytes.{to_be_bytes}
use chain_verse_onchain.ScholarshipDisbursements.{WalletChallenge}

-- The body of a challenge between its tag and its expiry.
abbrev parties : Crypto → WalletChallenge → List ℕ
parties crypto k =
    to_be_bytes 8 k.id ++ crypto.address_xdr k.recipient ++ crypto.address_xdr k.wallet
