-- ===== src/Escrow/Resolutions.antt =====
-- contracts/escrow/src/resolve.rs: a resolution settles the escrow, and what it leaves behind.
use chain_verse_onchain.Common.{
  ℕ, ◌≡◌, refl, Bool, true, false, inl, inr, some, arith, ℤ, pos, ◌+ℤ◌, ◌≤ℤ◌, int_laws, lookup,
  insert, nat_eq, ◌==◌, fit_i128, ltb_ℤ, List, or_default, ◌∙◌, if◌then◌else◌, TokenClient, Env,
  done, done-cases, Option-cases, Bool-cases, pay_out_bound,
}
use chain_verse_onchain.Escrow.Types.{completed, disputed, Escrow}
use chain_verse_onchain.Escrow.Storage.{load_escrow, get_protocol_fee}
use chain_verse_onchain.Escrow.Calls.{resolve_dispute, pay_positive}
use chain_verse_onchain.Escrow.Invariant.{
  State, IsValid, Settles, Settled, WellFormed, fee_after, locked_amount, liabilities,
  Settles-liabilities,
}

resolved_books :
    (l l' : ℤ) (e : Escrow) (fee : ℤ)
    → e.status ≡ disputed
    → l +ℤ locked_amount e ≡ l' +ℤ pos 0 +ℤ fee
    → l +ℤ e.amount ≡ l' +ℤ fee
resolved_books l l' e fee f h = grind int_laws

own_payment : (t : ℕ) (x k m : ℤ) → k ≤ℤ m +ℤ (if t == t then x else pos 0) → k ≤ℤ m +ℤ x
own_payment t x k m h = ground arith

module _ (client : TokenClient) (env : Env) where
  open client use {World, transfer, balance}

  abbrev Self : Type 0
  Self = State client env.current_contract

  -- A positive payment, or none.
  pay_positive-bound :
      (token to : ℕ) (x : ℤ) (c d : Self) (t : ℕ)
      → pay_positive client env token to x c ≡ done (tt, d)
      → (d.store ≡ c.store)
        × (balance c.tokens t env.current_contract
            ≤ℤ balance d.tokens t env.current_contract
              +ℤ (if token == t then (if ltb_ℤ (pos 0) x then x else pos 0) else pos 0))
  unfolding pay_positive
  pay_positive-bound token to x c d t h = elim (Bool-cases (ltb_ℤ (pos 0) x)) [
    | inl p ↦ rw p (
      ground arith,
      pay_out_bound client c.tokens d.tokens token env.current_contract to x t (ground arith),
    )
    | inr p ↦ rw p (ground arith, grind int_laws)
  ]

  resolve_paid :
      (arbiter id hash : ℕ) (x y fee : ℤ) (c b s d : Self) (e : Escrow)
      → load_escrow id c.store ≡ some e
      → resolve_dispute client env arbiter id x y fee hash c ≡ done (tt, d)
      → pay_positive client env e.token e.buyer x c ≡ done (tt, b)
      → pay_positive client env e.token e.seller y b ≡ done (tt, s)
      → s.store ≡ c.store
      → (e.status ≡ disputed)
        × (pos 0 ≤ℤ x)
        × (pos 0 ≤ℤ y)
        × (pos 0 ≤ℤ fee)
        × (x +ℤ y +ℤ fee ≤ℤ e.amount)
        × (d.tokens ≡ s.tokens)
        × (d.store.escrows
            ≡ insert id (record e { status = completed; amount = pos 0 }) c.store.escrows)
        × (d.store.escrow_count ≡ c.store.escrow_count)
        × (d.store.protocol_fees ≡ (
            if ltb_ℤ (pos 0) fee
            then insert e.token (get_protocol_fee e.token c.store +ℤ fee) c.store.protocol_fees
            else c.store.protocol_fees))
  unfolding resolve_dispute fit_i128
  resolve_paid arbiter id hash x y fee c b s d e was h p q k = ground arith

  -- Two payments bound what leaves the contract by their sum.
  two_payments :
      (b : Bool) (x y k m n : ℤ)
      → pos 0 ≤ℤ x
      → pos 0 ≤ℤ y
      → k ≤ℤ m +ℤ (if b then (if ltb_ℤ (pos 0) x then x else pos 0) else pos 0)
      → m ≤ℤ n +ℤ (if b then (if ltb_ℤ (pos 0) y then y else pos 0) else pos 0)
      → k ≤ℤ n +ℤ (if b then x +ℤ y else pos 0)
  two_payments true x y k m n hx hy p q = grind int_laws
  two_payments false x y k m n hx hy p q = grind int_laws

  resolved_fees :
      (k t : ℕ) (fee : ℤ) (m : List (ℕ × ℤ))
      → pos 0 ≤ℤ fee
      → or_default (pos 0) (
          lookup t
            (if ltb_ℤ (pos 0) fee then insert k (or_default (pos 0) (lookup k m) +ℤ fee) m else m))
        ≡ or_default (pos 0) (lookup t m) +ℤ (if k == t then fee else pos 0)
  resolved_fees k t fee m h = elim (Bool-cases (ltb_ℤ (pos 0) fee)) [
    | inl p ↦ rw p (fee_after k t fee m)
    | inr p ↦ rw p (grind int_laws)
  ]

  resolve-Settles :
      (arbiter id hash : ℕ) (x y fee : ℤ) (c b s d : Self) (e : Escrow)
      → load_escrow id c.store ≡ some e
      → WellFormed e
      → resolve_dispute client env arbiter id x y fee hash c ≡ done (tt, d)
      → pay_positive client env e.token e.buyer x c ≡ done (tt, b)
      → pay_positive client env e.token e.seller y b ≡ done (tt, s)
      → Settles client env.current_contract c d id e
          (record e { status = completed; amount = pos 0 })
          fee
          (x +ℤ y)
  resolve-Settles arbiter id hash x y fee c b s d e was wf h p q =
      let same : s.store ≡ c.store =
        (pay_positive-bound e.token e.seller y b s 0 q).0
        ∙ (pay_positive-bound e.token e.buyer x c b 0 p).0 in
      let (f, hx, hy, hf, room, tokens, now, count, fees) =
        resolve_paid arbiter id hash x y fee c b s d e was h p q same in
      record {
        was = was;
        now = now;
        count = count;
        moves = ground arith;
        fee_nonneg = hf;
        fees = λ t. rw fees (resolved_fees e.token t fee c.store.protocol_fees hf);
        paid = λ t. rw tokens (
            two_payments (e.token == t) x y (balance c.tokens t env.current_contract)
              (balance b.tokens t env.current_contract) (balance s.tokens t env.current_contract) hx
              hy (pay_positive-bound e.token e.buyer x c b t p).1
              (pay_positive-bound e.token e.seller y b s t q).1);
        covered = rw f (omega int_laws);
        keeps = (refl, wf.1, wf.2);
      }

  pub resolve-Settled :
      (arbiter id hash : ℕ) (x y fee : ℤ) (c d : Self)
      → IsValid client env.current_contract c
      → resolve_dispute client env arbiter id x y fee hash c ≡ done (tt, d)
      → Settled client env.current_contract c d
  unfolding resolve_dispute
  resolve-Settled arbiter id hash x y fee c d v h = elim (Option-cases (load_escrow id c.store)) [
    | inl missing ↦ absurd (ground arith)
    | inr (e, was) ↦ elim (done-cases (pay_positive client env e.token e.buyer x c)) [
      | inr unpaid ↦ absurd (ground arith)
      | inl (b, p) ↦ elim (done-cases (pay_positive client env e.token e.seller y b)) [
        | inr unpaid ↦ absurd (ground arith)
        | inl (s, q) ↦ (
          id,
          e,
          _,
          _,
          _,
          (resolve-Settles arbiter id hash x y fee c b s d e was (v.well_formed id e was) h p q),
        )
      ]
    ]
  ]

  -- A resolution of a well-formed escrow that succeeds was made of a disputed one by a split within what
  -- remains. It takes the whole remaining amount off the contract's liabilities and adds the fee, while
  -- at most the two payments leave: the rest of the amount stays in the contract and is owed to nobody.
  pub resolve_remainder :
      (arbiter id hash : ℕ) (x y fee : ℤ) (c d : Self) (e : Escrow)
      → load_escrow id c.store ≡ some e
      → WellFormed e
      → resolve_dispute client env arbiter id x y fee hash c ≡ done (tt, d)
      → (e.status ≡ disputed)
        × (x +ℤ y +ℤ fee ≤ℤ e.amount)
        × (liabilities e.token d.store +ℤ e.amount ≡ liabilities e.token c.store +ℤ fee)
        × (balance c.tokens e.token env.current_contract
            ≤ℤ balance d.tokens e.token env.current_contract +ℤ (x +ℤ y))
  unfolding resolve_dispute
  resolve_remainder arbiter id hash x y fee c d e was wf h =
      elim (done-cases (pay_positive client env e.token e.buyer x c)) [
        | inr unpaid ↦ absurd (ground arith)
        | inl (b, p) ↦ elim (done-cases (pay_positive client env e.token e.seller y b)) [
          | inr unpaid ↦ absurd (ground arith)
          | inl (s, q) ↦
              let settles = resolve-Settles arbiter id hash x y fee c b s d e was wf h p q in
              let same : s.store ≡ c.store =
                (pay_positive-bound e.token e.seller y b s 0 q).0
                ∙ (pay_positive-bound e.token e.buyer x c b 0 p).0 in
              let paid = resolve_paid arbiter id hash x y fee c b s d e was h p q same in
              (
                paid.0,
                paid.4,
                resolved_books (liabilities e.token d.store) _ e fee paid.0
                    (Settles-liabilities client env.current_contract c d id e _ fee _ settles),
                own_payment e.token (x +ℤ y) _ _ (settles.paid e.token),
              )
        ]
      ]
