-- ===== src/Signing/Binding.antt =====
-- contracts/shared/src/signing.rs: what a signing payload commits to.
use chain_verse_onchain.Common.{
  ℕ, ◌^◌, ◌<◌, ◌≡◌, sym, ◌∙◌, inl, inr, ◌⊎◌, ◌≢◌, arith, List, [], ◌∷◌, ◌++◌, ◌==◌, ==_iff,
  if◌then◌else◌, length, ok, err,
}
use chain_verse_onchain.Signing.{
  Crypto, SigningDomain, domain_mismatch, MessageType, issuer_offer, membership_claim,
  fine_assessment, delegated_session, debt_settlement, payout_wallet_proof, signing_payload,
  assert_payload,
}
use chain_verse_onchain.Signing.Bytes.{
  to_array, to_be_bytes-injective, length-to_be_bytes, split_prefix, same_bytes,
}

-- The message type that a tag names, by its first letter and its length.
abbrev of_letter : (first len : ℕ) → MessageType
of_letter i n =
    if i == 105
    then issuer_offer
    else (if i == 109
        then membership_claim
        else (if i == 102
            then fine_assessment
            else (if i == 112
                then payout_wallet_proof
                else (if n == 15 then debt_settlement else delegated_session))))

abbrev of_tag : List ℕ → MessageType
of_tag [] = issuer_offer
of_tag (i ∷ l) = of_letter i (length (i ∷ l))

module _ (crypto : Crypto) where
  -- Two different byte strings with the same hash.
  abbrev pub Collision : Type 0
  Collision = (a : List ℕ) × (b : List ℕ) × (a ≢ b) × (crypto.sha256 a ≡ crypto.sha256 b)

  -- Equal hashes are of equal bytes, or show a collision.
  pub hashed : (a b : List ℕ) → crypto.sha256 a ≡ crypto.sha256 b → (a ≡ b) ⊎ Collision
  hashed a b h = elim (same_bytes a b) [ inl p ↦ inl p | inr n ↦ inr (a, b, n, h) ]

  -- A digest of 32 bytes and the rest of a byte string.
  pub split_array :
      (m n : ℕ) (c d : List ℕ)
      → m < 256 ^ 32
      → n < 256 ^ 32
      → to_array m ++ c ≡ to_array n ++ d
      → (m ≡ n) × (c ≡ d)
  split_array m n c d lm ln h =
      let (p, q) =
        split_prefix (to_array m) (to_array n) c d
          (length-to_be_bytes 32 m ∙ sym (length-to_be_bytes 32 n)) h in
      (to_be_bytes-injective 32 m n lm ln p, q)

  -- `assert_payload` accepts the payload that the domain and the body produce, and no other.
  pub assert_payload_exact :
      (domain : SigningDomain) (body_hash presented payload : ℕ)
      → signing_payload crypto domain body_hash ≡ ok payload
      → assert_payload crypto domain body_hash presented
        ≡ (if presented == payload then ok tt else err domain_mismatch)
  unfolding assert_payload
  assert_payload_exact domain body_hash presented payload h =
      ground (arith, ==_iff payload presented, ==_iff presented payload)
