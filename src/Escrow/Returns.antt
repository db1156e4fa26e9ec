-- ===== src/Escrow/Returns.antt =====
-- contracts/escrow/src: when a call is sure to succeed.
use chain_verse_onchain.Common.{
  ℕ, ◌*◌, ◌^◌, ◌≤◌, ◌<◌, ◌≡◌, true, inl, inr, some, arith, ℤ, pos, pos_part, ◌+ℤ◌, ◌-ℤ◌, ◌≤ℤ◌,
  i128_max, i128_min, fit_i128-some, int_laws, TokenClient, Env, done, done-cases,
}
use chain_verse_onchain.Escrow.Types.{Escrow, funded}
use chain_verse_onchain.Escrow.Storage.{load_escrow, get_protocol_fee, get_protocol_fee_bps}
use chain_verse_onchain.Escrow.Fees.{fee_of, compute_fee_and_payout-ok}
use chain_verse_onchain.Escrow.Calls.{release_escrow, refund_escrow}
use chain_verse_onchain.Escrow.Invariant.{State, IsValid, WellFormed}

amount_nonneg : (e : Escrow) → e.status ≡ funded → WellFormed e → pos 0 ≤ℤ e.amount
amount_nonneg e f wf = grind int_laws

amount_fits : (e : Escrow) → e.status ≡ funded → WellFormed e → e.amount ≤ℤ i128_max
amount_fits e f wf = grind int_laws

sum_low : (f x : ℤ) → pos 0 ≤ℤ f → pos 0 ≤ℤ x → i128_min ≤ℤ f +ℤ x
sum_low f x h k = omega int_laws

module _ (client : TokenClient) (env : Env) where
  open client use {World, transfer}

  abbrev Self : Type 0
  Self = State client env.current_contract

  -- In a valid state the buyer of a funded escrow can release it before its deadline: with a fee of at
  -- most 100 %, a product of amount and rate that fits a `u128`, a fee pool with room for the fee, and a
  -- token that accepts the payment, the call succeeds.
  pub release_returns :
      (id : ℕ) (c : Self) (e : Escrow) (w : World)
      → IsValid client env.current_contract c
      → load_escrow id c.store ≡ some e
      → e.status ≡ funded
      → env.authorized e.buyer ≡ true
      → env.timestamp < e.expiration
      → get_protocol_fee_bps c.store ≤ 10_000
      → pos_part e.amount * get_protocol_fee_bps c.store < 2 ^ 128
      → get_protocol_fee e.token c.store +ℤ fee_of e.amount (get_protocol_fee_bps c.store)
        ≤ℤ i128_max
      → transfer c.tokens e.token env.current_contract e.seller
          (e.amount -ℤ fee_of e.amount (get_protocol_fee_bps c.store))
        ≡ some w
      → (d : Self) × (release_escrow client env e.buyer id c ≡ done (tt, d))
  unfolding release_escrow
  release_returns id c e w v was f signed time bps small room paid =
      let fee = fee_of e.amount (get_protocol_fee_bps c.store) in
      let wf = v.well_formed id e was in
      let split =
        compute_fee_and_payout-ok e.amount (get_protocol_fee_bps c.store) (amount_nonneg e f wf)
          (amount_fits e f wf) bps small in
      let sum =
        fit_i128-some (get_protocol_fee e.token c.store +ℤ fee)
          (sum_low (get_protocol_fee e.token c.store) fee (v.fees_nonneg e.token) (omega arith))
          room in
      elim (done-cases (release_escrow client env e.buyer id c)) [
        | inl (d, k) ↦ (d, k)
        | inr stops ↦ absurd (ground (arith, split, sum))
      ]

  -- The buyer of a funded escrow can reclaim it from its deadline on, if the token accepts the payment.
  pub refund_returns :
      (id : ℕ) (c : Self) (e : Escrow) (w : World)
      → load_escrow id c.store ≡ some e
      → e.status ≡ funded
      → env.authorized e.buyer ≡ true
      → e.expiration ≤ env.timestamp
      → transfer c.tokens e.token env.current_contract e.buyer e.amount ≡ some w
      → (d : Self) × (refund_escrow client env e.buyer id c ≡ done (tt, d))
  unfolding refund_escrow
  refund_returns id c e w was f signed time paid =
      elim (done-cases (refund_escrow client env e.buyer id c)) [
        | inl (d, k) ↦ (d, k)
        | inr stops ↦ absurd (ground arith)
      ]
