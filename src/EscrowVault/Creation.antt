-- ===== src/EscrowVault/Creation.antt =====
-- contracts/escrow-vault/src/lib.rs: `create_vault`, and the calls of the administrator.
use chain_verse_onchain.Common.{
  ℕ, ◌+◌, ◌≤◌, ◌<◌, ◌≡◌, refl, sym, ◌∙◌, inl, inr, arith, Option, true, false, none, some, List,
  length, ◌==◌, Bool-cases, ==_iff, lookup, insert, lookup-insert, sum_by-insert, nat_eq, ℤ, pos,
  ◌≤ℤ◌, int_laws, TokenClient, Env, done, pay_out_bound, pay_in_exact,
}
use chain_verse_onchain.EscrowVault.{pending, cancelled, Vault, contains, has_duplicate, load_vault}
use chain_verse_onchain.EscrowVault.Calls.{new_vault, create_vault, emergency_cancel}
use chain_verse_onchain.EscrowVault.Votes.{voted, votes_of-none, deduplicate_lem}
use chain_verse_onchain.EscrowVault.Invariant.{
  held, Decided, WellFormed, State, IsSound, Replaces, no_clash,
}

-- What is read after a vault was stored, under its id and elsewhere.
inserted_same :
    (id j : ℕ) (v u : Vault) (m : List (ℕ × Vault))
    → (id == j) ≡ true
    → lookup j (insert id v m) ≡ some u
    → (u ≡ v) × (j ≡ id)
inserted_same id j v u m p h =
    let e : some v ≡ some u = rw (lookup-insert id j v m, p) at h in
    (ground arith, ground (arith, p))

inserted_other :
    (id j : ℕ) (v : Vault) (m : List (ℕ × Vault))
    → (id == j) ≡ false
    → lookup j (insert id v m) ≡ lookup j m
inserted_other id j v m p = rw (lookup-insert id j v m, p) refl

module _ (client : TokenClient) (vault_id : (nonce timestamp depositor : ℕ) → ℕ) (env : Env) where
  open client use {transfer}

  abbrev Self : Type 0
  Self = State client vault_id env.current_contract

  -- The administrator is set and has signed.
  abbrev pub Signed : Option ℕ → Type 0
  Signed none = ⊥
  Signed (some admin) = env.authorized admin ≡ true

  -- A cancellation that succeeds is signed by the administrator, of a pending vault. It pays the whole
  -- amount back to the depositor, cancels the vault, and changes nothing else of the storage.
  pub cancel_refunds :
      (id reason : ℕ) (c d : Self) (v : Vault)
      → load_vault id c.store ≡ some v
      → emergency_cancel client vault_id env id reason c ≡ done (tt, d)
      → Signed c.store.admin
        × (v.status ≡ pending)
        × (transfer c.tokens v.token env.current_contract v.depositor v.amount ≡ some d.tokens)
        × (d.store ≡ record (c.store) {
          vaults = insert id (record v { status = cancelled }) c.store.vaults;
        })
  unfolding emergency_cancel
  cancel_refunds id reason c d v was h = ground arith

  pending_lacks :
      (v : Vault)
      → v.status ≡ pending
      → Decided v.status v.approvals v.threshold
      → v.approvals < v.threshold
  pending_lacks v p h = rw p at h

  pub cancel-Replaces :
      (id reason : ℕ) (c d : Self) (v : Vault)
      → IsSound client vault_id env.current_contract c
      → load_vault id c.store ≡ some v
      → emergency_cancel client vault_id env id reason c ≡ done (tt, d)
      → Replaces client vault_id env.current_contract c d id v (record v { status = cancelled })
  cancel-Replaces id reason c d v s was h =
      let (_, p, paid, now) = cancel_refunds id reason c d v was h in
      let w = s.well_formed id v was in
      record {
        was = was;
        now = rw now refl;
        count = rw now refl;
        others = λ j a n. rw now refl;
        tallies = λ j list n. rw now refl;
        agrees = record {
          positive = w.positive;
          reachable = w.reachable;
          distinct = w.distinct;
          impartial = w.impartial;
          counted = rw now w.counted;
          decided = pending_lacks v p w.decided;
        };
        voters = λ a k. s.listed id v a was (rw now at k);
        covered = λ t. rw p (
            grind (
              int_laws,
              pay_out_bound client c.tokens d.tokens v.token env.current_contract v.depositor
                  v.amount t paid,
            ));
      }

  -- A creation that succeeds is signed by the depositor, of a positive amount, with distinct approvers
  -- of whom neither party is one, and a threshold from one to their number. It takes the amount from
  -- the depositor and stores a pending vault with all these approvers under the id of the next nonce.
  pub create_deposits :
      (depositor recipient token : ℕ) (amount : ℤ) (approvers : List ℕ) (threshold id : ℕ)
      (c d : Self)
      → create_vault client vault_id env depositor recipient token amount approvers threshold c
        ≡ done (id, d)
      → (env.authorized depositor ≡ true)
        × (pos 1 ≤ℤ amount)
        × (has_duplicate approvers ≡ false)
        × (contains depositor approvers ≡ false)
        × (contains recipient approvers ≡ false)
        × (1 ≤ threshold)
        × (threshold ≤ length approvers)
        × (id ≡ vault_id (c.store.vault_count + 1) env.timestamp depositor)
        × (transfer c.tokens token depositor env.current_contract amount ≡ some d.tokens)
        × (d.store ≡ record (c.store) {
          vault_count = c.store.vault_count + 1;
          vaults =
              insert id
                (record (new_vault depositor recipient token amount approvers threshold) {
                  approvers = approvers;
                })
                c.store.vaults;
        })
  unfolding create_vault
  create_deposits depositor recipient token amount approvers threshold id c d h =
      ground (arith, deduplicate_lem approvers)

  later_nonce : (m n : ℕ) → m + 1 < n → n ≡ m + 1 → ⊥
  later_nonce m n h k = omega (arith, h, k)

  -- With ids that differ for different nonces, a creation keeps the promise.
  pub create-IsSound :
      (depositor recipient token : ℕ) (amount : ℤ) (approvers : List ℕ) (threshold id : ℕ)
      (c d : Self)
      → env.authorized env.current_contract ≡ false
      → ((m n u v a b : ℕ) → vault_id m u a ≡ vault_id n v b → m ≡ n)
      → IsSound client vault_id env.current_contract c
      → create_vault client vault_id env depositor recipient token amount approvers threshold c
        ≡ done (id, d)
      → IsSound client vault_id env.current_contract d
  create-IsSound depositor recipient token amount approvers threshold id c d self inj s h =
      let (u, lo, distinct, no_d, no_r, one, le, e, paid, now) =
        create_deposits depositor recipient token amount approvers threshold id c d h in
      let made : Vault = record (new_vault depositor recipient token amount approvers threshold) {
        approvers = approvers;
      } in
      let free : load_vault id c.store ≡ none =
        rw e (s.fresh (c.store.vault_count + 1) env.timestamp depositor (omega arith)) in
      let born : WellFormed id made c.store.votes = record {
        positive = lo;
        reachable = (one, le);
        distinct = distinct;
        impartial = (no_d, no_r);
        counted = sym (votes_of-none id approvers c.store.votes (λ a. s.unborn id a free));
        decided = one;
      } in
      record {
        solvent = λ t. rw now (
            grind (
              int_laws,
              sum_by-insert (held t) id made c.store.vaults,
              free,
              s.solvent t,
              pay_in_exact client c.tokens d.tokens token depositor env.current_contract amount t
                  (ground (arith, ==_iff depositor env.current_contract)) paid,
            ));
        well_formed = λ j v k. elim (Bool-cases (id == j)) [
          | inl p ↦
              let (same, i) = inserted_same id j made v c.store.vaults p (rw now at k) in
              rw (same, i, now) born
          | inr p ↦
              rw now (s.well_formed j v (rw (now, inserted_other id j made c.store.vaults p) at k))
        ];
        listed = λ j v a k l. elim (Bool-cases (id == j)) [
          | inl p ↦
              let (same, i) = inserted_same id j made v c.store.vaults p (rw now at k) in
              let none_yet = s.unborn id a free in
              let cast : voted id a c.store.votes ≡ true = rw (now, i) at l in absurd (ground arith)
          | inr p ↦
              s.listed j v a (rw (now, inserted_other id j made c.store.vaults p) at k)
                (rw now at l)
        ];
        unborn = λ j a k. elim (Bool-cases (id == j)) [
          | inl p ↦ absurd (ground (arith, now, lookup-insert id j made c.store.vaults))
          | inr p ↦ rw now (s.unborn j a (rw (now, inserted_other id j made c.store.vaults p) at k))
        ];
        fresh = λ n w a k.
            let past : c.store.vault_count + 1 < n = rw now at k in
            elim (Bool-cases (id == vault_id n w a)) [
              | inl p ↦ absurd (
                  later_nonce c.store.vault_count n past (
                    inj n (c.store.vault_count + 1) w env.timestamp a depositor
                      (sym ((==_iff id (vault_id n w a)).0 p) ∙ e)))
              | inr p ↦
                  rw (now, inserted_other id (vault_id n w a) made c.store.vaults p)
                    (s.fresh n w a (omega (arith, past)))
            ];
      }

  -- A creation leaves the vaults that there are.
  pub create_keeps :
      (depositor recipient token : ℕ) (amount : ℤ) (approvers : List ℕ) (threshold id : ℕ)
      (c d : Self)
      → IsSound client vault_id env.current_contract c
      → create_vault client vault_id env depositor recipient token amount approvers threshold c
        ≡ done (id, d)
      → (j : ℕ) (v : Vault) → load_vault j c.store ≡ some v
      → load_vault j d.store ≡ some v
  create_keeps depositor recipient token amount approvers threshold id c d s h j v was =
      let (_, _, _, _, _, _, _, e, _, now) =
        create_deposits depositor recipient token amount approvers threshold id c d h in
      let free : load_vault id c.store ≡ none =
        rw e (s.fresh (c.store.vault_count + 1) env.timestamp depositor (omega arith)) in
      elim (Bool-cases (j == id)) [
        | inl p ↦ no_clash j id v c.store p was free
        | inr p ↦ rw (now, inserted_other id j _ c.store.vaults (ground (arith, p))) was
      ]
