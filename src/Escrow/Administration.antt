-- ===== src/Escrow/Administration.antt =====
-- contracts/escrow/src/lib.rs: the calls of the administrator.
use chain_verse_onchain.Common.{
  ℕ, ◌≡◌, refl, Bool, true, false, some, List, arith, ℤ, pos, ◌+ℤ◌, ◌-ℤ◌, ◌≤ℤ◌, int_laws, lookup,
  insert, nat_eq, lookup-insert, sum_by, ◌==◌, fit_i128, if◌then◌else◌, TokenClient, Env, done,
  or_default, pay_out_bound,
}
use chain_verse_onchain.Escrow.Storage.{get_protocol_fee}
use chain_verse_onchain.Escrow.Calls.{
  withdraw_fees, set_admin, whitelist_token, set_arbiter, set_protocol_fee_bps, upgrade,
}
use chain_verse_onchain.Escrow.Invariant.{State, IsValid, locked}

withdrawn_fee :
    (k t : ℕ) (fee : ℤ) (m : List (ℕ × ℤ))
    → or_default (pos 0) (lookup t (insert k (or_default (pos 0) (lookup k m) -ℤ fee) m))
      ≡ or_default (pos 0) (lookup t m) -ℤ (if k == t then fee else pos 0)
withdrawn_fee k t fee m =
    grind (int_laws, lookup-insert k t (or_default (pos 0) (lookup k m) -ℤ fee) m)

-- The books after a fee withdrawal.
withdrawn_books : (s f b b' x : ℤ) → b ≤ℤ b' +ℤ x → s +ℤ f ≤ℤ b → s +ℤ (f -ℤ x) ≤ℤ b'
withdrawn_books s f b b' x p q = omega int_laws

-- The pool of a token covers what is withdrawn of it.
covered_fee :
    (b : Bool) (f g x : ℤ)
    → pos 0 ≤ℤ g
    → (b ≡ true → f ≡ g)
    → x ≤ℤ f
    → pos 0 ≤ℤ g -ℤ (if b then x else pos 0)
covered_fee true f g x h e le = let k : f ≡ g = e refl in grind int_laws
covered_fee false f g x h e le = grind int_laws

module _ (client : TokenClient) (env : Env) where
  open client use {transfer}

  abbrev Self : Type 0
  Self = State client env.current_contract

  -- A withdrawal that succeeds was made by the administrator, of no more than has accrued in that
  -- token; it pays the recipient, lowers that token's pool by the amount, and changes nothing else of
  -- the storage.
  pub withdraw_fees_paid :
      (caller token recipient : ℕ) (amount : ℤ) (c d : Self)
      → withdraw_fees client env caller token recipient amount c ≡ done (tt, d)
      → (c.store.admin ≡ some caller)
        × (env.authorized caller ≡ true)
        × (pos 1 ≤ℤ amount)
        × (amount ≤ℤ get_protocol_fee token c.store)
        × (transfer c.tokens token env.current_contract recipient amount ≡ some d.tokens)
        × (d.store ≡ record (c.store) {
          protocol_fees =
              insert token (get_protocol_fee token c.store -ℤ amount) c.store.protocol_fees;
        })
  unfolding withdraw_fees fit_i128
  withdraw_fees_paid caller token recipient amount c d h = ground arith

  pub withdraw_fees-IsValid :
      (caller token recipient : ℕ) (amount : ℤ) (c d : Self)
      → IsValid client env.current_contract c
      → withdraw_fees client env caller token recipient amount c ≡ done (tt, d)
      → IsValid client env.current_contract d
  withdraw_fees-IsValid caller token recipient amount c d v h =
      let (_, _, lo, hi, t, s) = withdraw_fees_paid caller token recipient amount c d h in
      record {
        solvent = λ k.
            rw (s, withdrawn_fee token k amount c.store.protocol_fees)
              (withdrawn_books (sum_by (locked k) c.store.escrows) (get_protocol_fee k c.store) _ _
                _
                (pay_out_bound client c.tokens d.tokens token env.current_contract recipient amount
                  k t)
                (v.solvent k));
        fees_nonneg = λ k.
            rw (s, withdrawn_fee token k amount c.store.protocol_fees)
              (covered_fee (token == k) (get_protocol_fee token c.store)
                (get_protocol_fee k c.store) amount (v.fees_nonneg k) (λ p. ground arith) hi);
        well_formed = λ j e k. v.well_formed j e (rw s at k);
        fresh = λ j k. rw s (v.fresh j (rw s at k));
      }

  -- The parts of the state that the invariant speaks of are the same.
  SameBooks-IsValid :
      (c d : Self)
      → d.tokens ≡ c.tokens
      → d.store.escrows ≡ c.store.escrows
      → d.store.protocol_fees ≡ c.store.protocol_fees
      → d.store.escrow_count ≡ c.store.escrow_count
      → IsValid client env.current_contract c
      → IsValid client env.current_contract d
  SameBooks-IsValid c d t m f n v = record {
    solvent = λ k. rw (m, f, t) (v.solvent k);
    fees_nonneg = λ k. rw f (v.fees_nonneg k);
    well_formed = λ j e k. v.well_formed j e (rw m at k);
    fresh = λ j k. rw m (v.fresh j (rw n at k));
  }

  pub set_admin-IsValid :
      (admin : ℕ) (c d : Self)
      → IsValid client env.current_contract c
      → set_admin client env admin c ≡ done (tt, d)
      → IsValid client env.current_contract d
  unfolding set_admin
  set_admin-IsValid admin c d v h =
      SameBooks-IsValid c d (ground arith) (ground arith) (ground arith) (ground arith) v

  pub whitelist_token-IsValid :
      (admin token : ℕ) (c d : Self)
      → IsValid client env.current_contract c
      → whitelist_token client env admin token c ≡ done (tt, d)
      → IsValid client env.current_contract d
  unfolding whitelist_token
  whitelist_token-IsValid admin token c d v h =
      SameBooks-IsValid c d (ground arith) (ground arith) (ground arith) (ground arith) v

  pub set_arbiter-IsValid :
      (admin arbiter : ℕ) (c d : Self)
      → IsValid client env.current_contract c
      → set_arbiter client env admin arbiter c ≡ done (tt, d)
      → IsValid client env.current_contract d
  unfolding set_arbiter
  set_arbiter-IsValid admin arbiter c d v h =
      SameBooks-IsValid c d (ground arith) (ground arith) (ground arith) (ground arith) v

  pub set_protocol_fee_bps-IsValid :
      (admin bps : ℕ) (c d : Self)
      → IsValid client env.current_contract c
      → set_protocol_fee_bps client env admin bps c ≡ done (tt, d)
      → IsValid client env.current_contract d
  unfolding set_protocol_fee_bps
  set_protocol_fee_bps-IsValid admin bps c d v h =
      SameBooks-IsValid c d (ground arith) (ground arith) (ground arith) (ground arith) v

  pub upgrade-IsValid :
      (hash : ℕ) (c d : Self)
      → IsValid client env.current_contract c
      → upgrade client env hash c ≡ done (tt, d)
      → IsValid client env.current_contract d
  unfolding upgrade
  upgrade-IsValid hash c d v h =
      SameBooks-IsValid c d (ground arith) (ground arith) (ground arith) (ground arith) v

  pub set_admin_escrows :
      (admin : ℕ) (c d : Self)
      → set_admin client env admin c ≡ done (tt, d)
      → d.store.escrows ≡ c.store.escrows
  unfolding set_admin
  set_admin_escrows admin c d h = ground arith

  pub whitelist_token_escrows :
      (admin token : ℕ) (c d : Self)
      → whitelist_token client env admin token c ≡ done (tt, d)
      → d.store.escrows ≡ c.store.escrows
  unfolding whitelist_token
  whitelist_token_escrows admin token c d h = ground arith

  pub set_arbiter_escrows :
      (admin arbiter : ℕ) (c d : Self)
      → set_arbiter client env admin arbiter c ≡ done (tt, d)
      → d.store.escrows ≡ c.store.escrows
  unfolding set_arbiter
  set_arbiter_escrows admin arbiter c d h = ground arith

  pub set_protocol_fee_bps_escrows :
      (admin bps : ℕ) (c d : Self)
      → set_protocol_fee_bps client env admin bps c ≡ done (tt, d)
      → d.store.escrows ≡ c.store.escrows
  unfolding set_protocol_fee_bps
  set_protocol_fee_bps_escrows admin bps c d h = ground arith

  pub withdraw_fees_escrows :
      (caller token recipient : ℕ) (amount : ℤ) (c d : Self)
      → withdraw_fees client env caller token recipient amount c ≡ done (tt, d)
      → d.store.escrows ≡ c.store.escrows
  unfolding withdraw_fees
  withdraw_fees_escrows caller token recipient amount c d h = ground arith

  pub upgrade_escrows :
      (hash : ℕ) (c d : Self)
      → upgrade client env hash c ≡ done (tt, d)
      → d.store.escrows ≡ c.store.escrows
  unfolding upgrade
  upgrade_escrows hash c d h = ground arith
