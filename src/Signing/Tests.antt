-- ===== src/Signing/Tests.antt =====
-- The signing envelope at concrete domains, over a toy hash.
use chain_verse_onchain.Common.{ℕ, ◌%◌, ◌^◌, ◌≡◌, refl, List, [], ◌∷◌, length, err}
use chain_verse_onchain.Signing.{
  Crypto, SigningDomain, unsupported_version, payout_wallet_proof, signing_payload, preimage,
  canonical_preimage,
}
use chain_verse_onchain.Signing.Bytes.{to_be_bytes, from_be_bytes}

-- A checksum of 32 bytes in the place of the hash.
checksum : List ℕ → ℕ
unfolding from_be_bytes
checksum l = from_be_bytes 0 l % 256 ^ 32

abbrev crypto : Crypto
crypto = record { sha256 = checksum; address_xdr = λ a. a ∷ []; symbol_xdr = λ l. l }

abbrev domain : SigningDomain
domain = record { version = 1; network_id = 77; contract = 5; message_type = payout_wallet_proof }

layout :
    (length (preimage crypto domain 9) ≡ 150)
    × (signing_payload crypto (record domain { version = 2 }) 9 ≡ err unsupported_version)
    × (to_be_bytes 4 1000 ≡ 0 ∷ 0 ∷ 3 ∷ 232 ∷ [])
unfolding to_be_bytes signing_payload canonical_preimage
layout = (refl, refl, refl)

abbrev body_hash : ℕ
body_hash = 9
