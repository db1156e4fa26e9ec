-- ===== src/ScholarshipDisbursements/Creation.antt =====
-- contracts/scholarship-disbursements/src/lib.rs: `create_intent`, and the id it derives.
use chain_verse_onchain.Common.{
  ℕ, ◌^◌, ◌≡◌, ◌<◌, refl, sym, ◌∙◌, ◌⊎◌, inl, inr, arith, true, none, some, ◌∷◌, ℤ, pos, ◌≤ℤ◌,
  lookup, lookup-insert, nat_eq, ==_iff, Option-cases, if◌then◌else◌, Env, done, fail,
}
use chain_verse_onchain.Signing.{Crypto}
use chain_verse_onchain.Signing.Bytes.{
  to_be_bytes, length-to_be_bytes, to_be_bytes-injective, split_prefix, split_suffix,
}
use chain_verse_onchain.Signing.Binding.{Collision, hashed, split_array}
use chain_verse_onchain.ScholarshipDisbursements.{
  intent_conflict, PayoutWallet, DisbursementIntent, intentnw, intent_domain_tag, load_binding,
  get_intent, save_intent, intent_preimage, derive_intent_id,
}
use chain_verse_onchain.ScholarshipDisbursements.Calls.{create_intent, new_intent, agrees}
use chain_verse_onchain.ScholarshipDisbursements.Effects.{State, Entrusted}

module _ (crypto : Crypto) where
  module _ (env : Env) (a g r n : ℕ) (x : ℤ) where
    pub found :
        (c : State) (id : ℕ) (d : State)
        → create_intent crypto env a g r x n c ≡ done (id, d)
        → (b' : PayoutWallet) × (load_binding r c.store ≡ some b')
    unfolding create_intent
    found c id d h = elim (Option-cases (load_binding r c.store)) [
      | inl z ↦ absurd (ground arith)
      | inr (b', p) ↦ (b', p)
    ]

  module _ (env : Env) (a g r n : ℕ) (x : ℤ) (b : PayoutWallet) where
    abbrev key : ℕ
    key = derive_intent_id crypto g r n

    pub create_new :
        (c : State) (id : ℕ) (d : State)
        → load_binding r c.store ≡ some b
        → get_intent key c.store ≡ none
        → create_intent crypto env a g r x n c ≡ done (id, d)
        → (pos 1 ≤ℤ x)
          × (id ≡ key)
          × (d ≡ record {
            tokens = c.tokens;
            store = save_intent (new_intent crypto env a g r x n b) key c.store;
            events = intentnw key r x ∷ c.events;
          })
    unfolding create_intent
    create_new c id d p q h = ground arith

    pub create_same :
        (c : State) (id : ℕ) (d : State) (i : DisbursementIntent)
        → load_binding r c.store ≡ some b
        → get_intent key c.store ≡ some i
        → create_intent crypto env a g r x n c ≡ done (id, d)
        → (pos 1 ≤ℤ x) × (agrees i g r b.wallet x n ≡ true) × (id ≡ key) × (d ≡ c)
    unfolding create_intent
    create_same c id d i p q h = ground arith

    create-Entrusted :
        (c : State) (id : ℕ) (d : State)
        → create_intent crypto env a g r x n c ≡ done (id, d)
        → Entrusted env a c
    unfolding create_intent
    create-Entrusted c id d h = elim (Option-cases c.store.admin) [
      | inl z ↦ absurd (ground arith)
      | inr (m, is) ↦
          let u : env.authorized a ≡ true = ground arith in
          let e : (a ≡ m) ⊎ (lookup a c.store.creators ≡ some true) = ground arith in (u, m, is, e)
    ]

    -- What a creation does where an intent is stored.
    kept :
        (c : State) (i : DisbursementIntent)
        → Entrusted env a c
        → pos 1 ≤ℤ x
        → load_binding r c.store ≡ some b
        → get_intent key c.store ≡ some i
        → create_intent crypto env a g r x n c
          ≡ (if agrees i g r b.wallet x n then done (key, c) else fail intent_conflict)
    unfolding create_intent
    kept c i (u, m, is, inl e) lo p q = ground arith
    kept c i (u, m, is, inr e) lo p q = ground arith

    agrees_itself : agrees (new_intent crypto env a g r x n b) g r b.wallet x n ≡ true
    agrees_itself = ground (arith, ==_iff g g, ==_iff r r, ==_iff b.wallet b.wallet, ==_iff n n)

    -- What a creation stores answers it when it is repeated.
    repeated :
        (c d : State) (id : ℕ)
        → load_binding r c.store ≡ some b
        → pos 1 ≤ℤ x
        → id ≡ key
        → d ≡ record {
          tokens = c.tokens;
          store = save_intent (new_intent crypto env a g r x n b) key c.store;
          events = intentnw key r x ∷ c.events;
        }
        → Entrusted env a c
        → create_intent crypto env a g r x n d ≡ done (id, d)
    repeated c d id p lo same now e =
        let stored : get_intent key d.store ≡ some (new_intent crypto env a g r x n b) =
          rw
            (
              now,
              lookup-insert key key (new_intent crypto env a g r x n b) c.store.intents,
              (==_iff key key).1 refl,
            )
            refl in
        let bound : load_binding r d.store ≡ some b = rw now p in
        let trusted : Entrusted env a d = rw now e in
        rw (kept d (new_intent crypto env a g r x n b) trusted lo bound stored, agrees_itself, same)
          refl

  -- A creation that succeeds can be repeated: with the same arguments it gives the same id and changes
  -- nothing.
  pub create_intent_again :
      (env : Env) (a g r n : ℕ) (x : ℤ) (c d : State) (id : ℕ)
      → create_intent crypto env a g r x n c ≡ done (id, d)
      → create_intent crypto env a g r x n d ≡ done (id, d)
  create_intent_again env a g r n x c d id h =
      let (b, p) = found env a g r n x c id d h in
      elim (Option-cases (get_intent (derive_intent_id crypto g r n) c.store)) [
        | inl q ↦
            let (lo, i, e) = create_new env a g r n x b c id d p q h in
            repeated env a g r n x b c d id p lo i e (create-Entrusted env a g r n x b c id d h)
        | inr (i, q) ↦
            let (_, _, _, e) = create_same env a g r n x b c id d i p q h in rw e (rw e at h)
      ]

  -- Two installments with the same intent id are the same installment of the same award for the same
  -- recipient, or they show a collision of the hash, where program ids are 32 bytes long, installments
  -- 4 bytes, and the encoding of addresses is injective.
  pub derive_intent_id-binds :
      (g g' r r' n n' : ℕ)
      → ((y z : ℕ) → crypto.address_xdr y ≡ crypto.address_xdr z → y ≡ z)
      → g < 256 ^ 32
      → g' < 256 ^ 32
      → n < 256 ^ 4
      → n' < 256 ^ 4
      → derive_intent_id crypto g r n ≡ derive_intent_id crypto g' r' n'
      → ((g ≡ g') × (r ≡ r') × (n ≡ n')) ⊎ Collision crypto
  unfolding to_be_bytes
  derive_intent_id-binds g g' r r' n n' addresses lg lg' ln ln' h =
      elim (hashed crypto (intent_preimage crypto g r n) (intent_preimage crypto g' r' n') h) [
        | inr k ↦ inr k
        | inl same ↦
            let (_, h1) = split_prefix intent_domain_tag intent_domain_tag _ _ refl same in
            let (p, h2) = split_array crypto g g' _ _ lg lg' h1 in
            let (q, s) =
              split_suffix (crypto.address_xdr r) (crypto.address_xdr r') (to_be_bytes 4 n)
                (to_be_bytes 4 n') (length-to_be_bytes 4 n ∙ sym (length-to_be_bytes 4 n')) h2 in
            inl (p, addresses r r' q, to_be_bytes-injective 4 n n' ln ln' s)
      ]
