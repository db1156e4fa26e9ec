-- ===== src/LibraryDeposits/Locks.antt =====
-- contracts/library-deposits/src/lib.rs: `lock_deposit` takes a deposit.
use chain_verse_onchain.Common.{
  ℕ, ◌+◌, ◌<◌, ◌≡◌, sym, ◌∙◌, inl, inr, arith, true, false, none, some, ◌∷◌, ◌==◌, ==_iff,
  Bool-cases, insert, lookup-insert, lookup-insert_here, lookup-insert_there, nat_eq, sum_by-insert,
  ℤ, pos, ◌≤ℤ◌, int_laws, TokenClient, Env, done, pay_in_exact,
}
use chain_verse_onchain.LibraryDeposits.{load_deposit, dep_lock}
use chain_verse_onchain.LibraryDeposits.Calls
use chain_verse_onchain.LibraryDeposits.Calls.{Call, new_deposit}
use chain_verse_onchain.LibraryDeposits.Invariant.{State, IsBacked, held}

module _ (client : TokenClient) (deposit_id : (nonce timestamp loan_id patron : ℕ) → ℕ) where
  -- Hashes of different nonces differ.
  abbrev pub Distinct : Type 0
  Distinct = (m n u v a b x y : ℕ) → deposit_id m u a x ≡ deposit_id n v b y → m ≡ n

  module _ (env : Env) where
    abbrev Self : Type 0
    Self = State client deposit_id env.current_contract

    -- A lock that succeeds is signed by the patron and of a positive amount, which it takes from the
    -- patron; it stores the deposit, locked and whole, under the id of the next nonce.
    pub lock_paid :
        (patron loan token : ℕ) (x : ℤ) (id : ℕ) (c d : Self)
        → Calls.lock_deposit client deposit_id env patron loan token x c ≡ done (id, d)
        → (env.authorized patron ≡ true)
          × (pos 1 ≤ℤ x)
          × (id ≡ deposit_id (c.store.deposit_count + 1) env.timestamp loan patron)
          × (client.transfer c.tokens token patron env.current_contract x ≡ some d.tokens)
          × (d.events ≡ dep_lock id loan patron x ∷ c.events)
          × (d.store ≡ record (c.store) {
            deposit_count = c.store.deposit_count + 1;
            deposits = insert id (new_deposit patron loan token x) c.store.deposits;
          })
    unfolding Calls.lock_deposit
    lock_paid patron loan token x id c d h = ground arith

    later_nonce : (m n : ℕ) → m + 1 < n → n ≡ m + 1 → ⊥
    later_nonce m n h k = omega (arith, h, k)

    pub lock-IsBacked :
        (patron loan token : ℕ) (x : ℤ) (id : ℕ) (c d : Self)
        → env.authorized env.current_contract ≡ false
        → Distinct
        → IsBacked client deposit_id env.current_contract c
        → Calls.lock_deposit client deposit_id env patron loan token x c ≡ done (id, d)
        → IsBacked client deposit_id env.current_contract d
    lock-IsBacked patron loan token x id c d self inj s h =
        let (u, lo, e, t, v, now) = lock_paid patron loan token x id c d h in
        let new = new_deposit patron loan token x in
        let free : load_deposit id c.store ≡ none =
          rw e (s.fresh (c.store.deposit_count + 1) env.timestamp loan patron (omega arith)) in
        record {
          solvent = λ k. rw now (
              grind (
                int_laws,
                sum_by-insert (held k) id new c.store.deposits,
                free,
                s.solvent k,
                pay_in_exact client c.tokens d.tokens token patron env.current_contract x k
                    (ground (arith, ==_iff patron env.current_contract)) t,
              ));
          fits = λ j w k. elim (Bool-cases (id == j)) [
            | inl p ↦
                let (q, i) = lookup-insert_here id j new w c.store.deposits p (rw now at k) in
                rw q (omega (arith, lo), omega arith)
            | inr p ↦ s.fits j w (rw (now, lookup-insert_there id j new c.store.deposits p) at k)
          ];
          accounted = λ j w k. elim (Bool-cases (id == j)) [
            | inl p ↦
                let (q, i) = lookup-insert_here id j new w c.store.deposits p (rw now at k) in
                rw (q, i, v) (grind (int_laws, s.unpaid id free))
            | inr p ↦
                rw v
                  (s.accounted j w (rw (now, lookup-insert_there id j new c.store.deposits p) at k))
          ];
          unpaid = λ j k. elim (Bool-cases (id == j)) [
            | inl p ↦ absurd (ground (arith, now, lookup-insert id j new c.store.deposits))
            | inr p ↦
                rw v (s.unpaid j (rw (now, lookup-insert_there id j new c.store.deposits p) at k))
          ];
          fresh = λ n w l a k.
              let past : c.store.deposit_count + 1 < n = rw now at k in
              elim (Bool-cases (id == deposit_id n w l a)) [
                | inl p ↦ absurd (
                    later_nonce c.store.deposit_count n past (
                      inj n (c.store.deposit_count + 1) w env.timestamp l loan a patron
                        (sym ((==_iff id (deposit_id n w l a)).0 p) ∙ e)))
                | inr p ↦
                    rw (now, lookup-insert_there id (deposit_id n w l a) new c.store.deposits p)
                      (s.fresh n w l a (omega (arith, past)))
              ];
        }
