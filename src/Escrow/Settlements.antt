-- ===== src/Escrow/Settlements.antt =====
-- contracts/escrow/src/fund.rs, dispute.rs and refund.rs: each settles the escrow.
use chain_verse_onchain.Common.{
  ℕ, ◌≤◌, ◌<◌, ◌≡◌, refl, true, false, inl, inr, some, arith, pos, ◌+ℤ◌, ◌-ℤ◌, int_laws, insert,
  nat_eq, ◌==◌, fit_i128, TokenClient, Env, done, Option-cases, pay_out_bound, pay_in_exact,
}
use chain_verse_onchain.Escrow.Types.{created, funded, cancelled, disputed, Escrow}
use chain_verse_onchain.Escrow.Storage.{load_escrow}
use chain_verse_onchain.Escrow.Calls.{fund_escrow, dispute, refund_escrow}
use chain_verse_onchain.Escrow.Invariant.{State, IsValid, Settles, Settled, WellFormed}

module _ (client : TokenClient) (env : Env) where
  open client use {World, transfer, balance}

  abbrev Self : Type 0
  Self = State client env.current_contract

  dispute-Settles :
      (caller id : ℕ) (c d : Self) (e : Escrow)
      → load_escrow id c.store ≡ some e
      → WellFormed e
      → dispute client env caller id c ≡ done (tt, d)
      → Settles client env.current_contract c d id e
          (record e { status = disputed })
          (pos 0)
          (pos 0)
  unfolding dispute
  dispute-Settles caller id c d e was wf h = record {
    was = was;
    now = ground arith;
    count = ground arith;
    moves = ground arith;
    fee_nonneg = omega arith;
    fees = λ t. grind int_laws;
    paid = λ t. grind int_laws;
    covered = grind int_laws;
    keeps = ground arith;
  }

  -- A refund that succeeds was asked for by the buyer of a funded escrow at or after its deadline. It pays
  -- the buyer what remains, cancels the escrow with nothing left, and changes nothing else of the storage.
  pub refund_paid :
      (caller id : ℕ) (c d : Self) (e : Escrow)
      → load_escrow id c.store ≡ some e
      → refund_escrow client env caller id c ≡ done (tt, d)
      → (e.status ≡ funded)
        × (caller ≡ e.buyer)
        × (env.authorized caller ≡ true)
        × (e.expiration ≤ env.timestamp)
        × (transfer c.tokens e.token env.current_contract e.buyer e.amount ≡ some d.tokens)
        × (d.store ≡ record (c.store) {
          escrows = insert id (record e { status = cancelled; amount = pos 0 }) c.store.escrows;
        })
  unfolding refund_escrow
  refund_paid caller id c d e was h = ground arith

  refund-Settles :
      (caller id : ℕ) (c d : Self) (e : Escrow)
      → load_escrow id c.store ≡ some e
      → WellFormed e
      → refund_escrow client env caller id c ≡ done (tt, d)
      → Settles client env.current_contract c d id e
          (record e { status = cancelled; amount = pos 0 })
          (pos 0)
          e.amount
  refund-Settles caller id c d e was wf h =
      let (f, _, _, _, t, s) = refund_paid caller id c d e was h in
      record {
        was = was;
        now = rw s;
        count = rw s;
        moves = ground arith;
        fee_nonneg = omega arith;
        fees = λ t. rw s (grind int_laws);
        paid = λ k.
            pay_out_bound client c.tokens d.tokens e.token env.current_contract e.buyer e.amount k
              t;
        covered = rw f (omega int_laws);
        keeps = (refl, wf.1, wf.2);
      }

  -- A funding that succeeds was asked for by the buyer, who signed it, of an unfunded escrow before its
  -- deadline. It takes the escrow's amount from the buyer, adds it to the total volume, and marks the
  -- escrow funded; fees and ids stay.
  pub fund_paid :
      (caller id : ℕ) (c d : Self) (e : Escrow)
      → load_escrow id c.store ≡ some e
      → fund_escrow client env caller id c ≡ done (tt, d)
      → (e.status ≡ created)
        × (env.authorized e.buyer ≡ true)
        × (caller ≡ e.buyer)
        × (env.timestamp < e.expiration)
        × (d.store.total_volume ≡ c.store.total_volume +ℤ e.amount)
        × (transfer c.tokens e.token e.buyer env.current_contract e.amount ≡ some d.tokens)
        × (d.store.escrows ≡ insert id (record e { status = funded }) c.store.escrows)
        × (d.store.escrow_count ≡ c.store.escrow_count)
        × (d.store.protocol_fees ≡ c.store.protocol_fees)
  unfolding fund_escrow fit_i128
  fund_paid caller id c d e was h = ground arith

  not_self :
      (a : ℕ)
      → env.authorized env.current_contract ≡ false
      → env.authorized a ≡ true
      → (a == env.current_contract) ≡ false
  not_self a n h = ground arith

  fund-Settles :
      (caller id : ℕ) (c d : Self) (e : Escrow)
      → env.authorized env.current_contract ≡ false
      → load_escrow id c.store ≡ some e
      → WellFormed e
      → fund_escrow client env caller id c ≡ done (tt, d)
      → Settles client env.current_contract c d id e
          (record e { status = funded })
          (pos 0)
          (pos 0 -ℤ e.amount)
  fund-Settles caller id c d e n was wf h =
      let (s, a, _, _, _, t, m, k, f) = fund_paid caller id c d e was h in
      record {
        was = was;
        now = m;
        count = k;
        moves = ground arith;
        fee_nonneg = omega arith;
        fees = λ t. rw f (grind int_laws);
        paid = λ j. grind (
          int_laws,
          pay_in_exact client c.tokens d.tokens e.token e.buyer env.current_contract e.amount j
              (not_self e.buyer n a) t,
        );
        covered = rw s (omega int_laws);
        keeps = grind int_laws;
      }

  pub dispute-Settled :
      (caller id : ℕ) (c d : Self)
      → IsValid client env.current_contract c
      → dispute client env caller id c ≡ done (tt, d)
      → Settled client env.current_contract c d
  unfolding dispute
  dispute-Settled caller id c d v h = elim (Option-cases (load_escrow id c.store)) [
    | inl missing ↦ absurd (ground arith)
    | inr (e, was) ↦
        (id, e, _, _, _, (dispute-Settles caller id c d e was (v.well_formed id e was) h))
  ]

  pub refund-Settled :
      (caller id : ℕ) (c d : Self)
      → IsValid client env.current_contract c
      → refund_escrow client env caller id c ≡ done (tt, d)
      → Settled client env.current_contract c d
  unfolding refund_escrow
  refund-Settled caller id c d v h = elim (Option-cases (load_escrow id c.store)) [
    | inl missing ↦ absurd (ground arith)
    | inr (e, was) ↦
        (id, e, _, _, _, (refund-Settles caller id c d e was (v.well_formed id e was) h))
  ]

  pub fund-Settled :
      (caller id : ℕ) (c d : Self)
      → env.authorized env.current_contract ≡ false
      → IsValid client env.current_contract c
      → fund_escrow client env caller id c ≡ done (tt, d)
      → Settled client env.current_contract c d
  unfolding fund_escrow
  fund-Settled caller id c d n v h = elim (Option-cases (load_escrow id c.store)) [
    | inl missing ↦ absurd (ground arith)
    | inr (e, was) ↦
        (id, e, _, _, _, (fund-Settles caller id c d e n was (v.well_formed id e was) h))
  ]
