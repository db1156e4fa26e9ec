-- ===== src/Signing.antt =====
-- contracts/shared/src/signing.rs: the bytes that an off-chain signature commits to. A `BytesN<32>` is a number
-- below 256 ^ 32, a symbol the list of its characters.
pub mod Bytes
pub mod Binding
mod Tests
use chain_verse_onchain.Common.{
  ℕ, ◌≡◌, Bool, not, List, [], ◌∷◌, ◌++◌, ◌==◌, if◌then◌else◌, Result, ok, err,
}
use chain_verse_onchain.Signing.Bytes.{to_be_bytes, to_array}

-- The host functions the envelope uses: the hash, and the encodings of an address and of a symbol.
pub record Crypto : Type 0 where
  pub sha256 : List ℕ → ℕ
  pub address_xdr : ℕ → List ℕ
  pub symbol_xdr : List ℕ → List ℕ

abbrev pub domain_tag : List ℕ
domain_tag =
    67 ∷ 104 ∷ 97 ∷ 105 ∷ 110 ∷ 86 ∷ 101 ∷ 114 ∷ 115 ∷ 101 ∷ 46 ∷ 76 ∷ 105 ∷ 98 ∷ 114 ∷ 97 ∷ 114
    ∷ 121 ∷ []

abbrev pub envelope_version : ℕ
envelope_version = 1

pub data SigningError : Type 0 where
  unsupported_version domain_mismatch : SigningError

pub data MessageType : Type 0 where
  issuer_offer membership_claim fine_assessment delegated_session debt_settlement : MessageType
  payout_wallet_proof : MessageType

abbrev pub tag : MessageType → List ℕ
tag issuer_offer = 105 ∷ 115 ∷ 115 ∷ 117 ∷ 101 ∷ 114 ∷ 95 ∷ 111 ∷ 102 ∷ 102 ∷ 101 ∷ 114 ∷ []
tag membership_claim =
    109 ∷ 101 ∷ 109 ∷ 98 ∷ 101 ∷ 114 ∷ 115 ∷ 104 ∷ 105 ∷ 112 ∷ 95 ∷ 99 ∷ 108 ∷ 97 ∷ 105 ∷ 109 ∷ []
tag fine_assessment =
    102 ∷ 105 ∷ 110 ∷ 101 ∷ 95 ∷ 97 ∷ 115 ∷ 115 ∷ 101 ∷ 115 ∷ 115 ∷ 109 ∷ 101 ∷ 110 ∷ 116 ∷ []
tag delegated_session =
    100 ∷ 101 ∷ 108 ∷ 101 ∷ 103 ∷ 97 ∷ 116 ∷ 101 ∷ 100 ∷ 95 ∷ 115 ∷ 101 ∷ 115 ∷ 115 ∷ 105 ∷ 111
    ∷ 110 ∷ []
tag debt_settlement =
    100 ∷ 101 ∷ 98 ∷ 116 ∷ 95 ∷ 115 ∷ 101 ∷ 116 ∷ 116 ∷ 108 ∷ 101 ∷ 109 ∷ 101 ∷ 110 ∷ 116 ∷ []
tag payout_wallet_proof =
    112 ∷ 97 ∷ 121 ∷ 111 ∷ 117 ∷ 116 ∷ 95 ∷ 119 ∷ 97 ∷ 108 ∷ 108 ∷ 101 ∷ 116 ∷ 95 ∷ 112 ∷ 114 ∷ 111
    ∷ 111 ∷ 102 ∷ []

pub record SigningDomain : Type 0 where
  pub version : ℕ
  pub network_id : ℕ
  pub contract : ℕ
  pub message_type : MessageType

abbrev pub check_version : SigningDomain → Result SigningError (Unit {0})
check_version domain =
    if not (domain.version == envelope_version) then err unsupported_version else ok tt

module _ (crypto : Crypto) where
  abbrev pub network_id : (passphrase : List ℕ) → ℕ
  network_id passphrase = crypto.sha256 passphrase

  -- The fields of the preimage, once the version is checked.
  abbrev pub preimage : SigningDomain → (body_hash : ℕ) → List ℕ
  preimage domain body_hash =
      domain_tag
      ++ to_be_bytes 4 domain.version
      ++ to_array domain.network_id
      ++ to_array (crypto.sha256 (crypto.address_xdr domain.contract))
      ++ to_array (crypto.sha256 (crypto.symbol_xdr (tag domain.message_type)))
      ++ to_array body_hash

  unfoldable pub canonical_preimage : SigningDomain → (body_hash : ℕ) → Result SigningError (List ℕ)
  canonical_preimage domain body_hash = elim (check_version domain) [
    | ok u ↦ ok (preimage domain body_hash)
    | err e ↦ err e
  ]

  unfoldable pub signing_payload : SigningDomain → (body_hash : ℕ) → Result SigningError ℕ
  signing_payload domain body_hash = elim (canonical_preimage domain body_hash) [
    | ok bytes ↦ ok (crypto.sha256 bytes)
    | err e ↦ err e
  ]

  unfoldable pub assert_payload :
      SigningDomain → (body_hash presented : ℕ) → Result SigningError (Unit {0})
  assert_payload domain body_hash presented = elim (signing_payload domain body_hash) [
    | ok payload ↦ if not (payload == presented) then err domain_mismatch else ok tt
    | err e ↦ err e
  ]
