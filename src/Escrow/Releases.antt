-- ===== src/Escrow/Releases.antt =====
-- contracts/escrow/src/release.rs: a release settles the escrow.
use chain_verse_onchain.Common.{
  ℕ, ◌<◌, ◌≡◌, refl, true, ◌⊎◌, inl, inr, some, eq_ℤ, if◌then◌else◌, [], ◌∷◌, ◌++◌, arith, ℤ, pos,
  ◌+ℤ◌, ◌-ℤ◌, ◌≤ℤ◌, i128_max, int_laws, insert, nat_eq, fit_i128, TokenClient, Env, done, Result,
  ok, err, Option-cases, pay_out_bound,
}
use chain_verse_onchain.Escrow.Types.{funded, completed, Escrow}
use chain_verse_onchain.Escrow.Storage.{load_escrow, get_protocol_fee, get_protocol_fee_bps}
use chain_verse_onchain.Escrow.Fees.{compute_fee_and_payout, compute_fee_and_payout-sum}
use chain_verse_onchain.Escrow.Calls.{release_escrow, partial_release, after_partial}
use chain_verse_onchain.Escrow.Invariant.{
  State, IsValid, Moves, Settles, Settled, WellFormed, fee_after, locked_amount,
}

Result-cases :
    {E A B : Type 0} (r : Result E (A × B))
    → ((e : E) × (r ≡ err e)) ⊎ ((a : A) × (b : B) × (r ≡ ok (a, b)))
Result-cases (ok (a, b)) = inr (a, b, refl)
Result-cases (err e) = inl (e, refl)

-- What is locked fits an `i128`.
fits : (e : Escrow) → e.status ≡ funded → WellFormed e → e.amount ≤ℤ i128_max
fits e f wf = grind int_laws

fits_below : (e : Escrow) (x : ℤ) → e.status ≡ funded → WellFormed e → x ≤ℤ e.amount → x ≤ℤ i128_max
fits_below e x f wf h = grind int_laws

module _ (client : TokenClient) (env : Env) where
  open client use {World, transfer}

  abbrev Self : Type 0
  Self = State client env.current_contract

  -- A successful payout: made in time, by the buyer or the administrator; the fee and the net amount of
  -- `gross`, the payment made, the fee accrued, and the escrow replaced by `e'`.
  pub record PaysOut (caller : ℕ) (c d : Self) (id : ℕ) (e e' : Escrow) (gross fee out : ℤ)
      (w : World) : Type 0 where
    pub was_funded : e.status ≡ funded
    pub in_time : env.timestamp < e.expiration
    pub signed : env.authorized caller ≡ true
    pub releaser : (caller ≡ e.buyer) ⊎ (c.store.admin ≡ some caller)
    pub split : compute_fee_and_payout gross (get_protocol_fee_bps c.store) ≡ ok (fee, out)
    pub payment : transfer c.tokens e.token env.current_contract e.seller out ≡ some w
    pub tokens : d.tokens ≡ w
    pub now : d.store.escrows ≡ insert id e' c.store.escrows
    pub count : d.store.escrow_count ≡ c.store.escrow_count
    pub fees :
        d.store.protocol_fees
        ≡ insert e.token (get_protocol_fee e.token c.store +ℤ fee) c.store.protocol_fees
    pub recorded :
        d.store.fee_history
        ≡ c.store.fee_history
          ++ (record { escrow_id = id; token = e.token; amount = fee; timestamp = env.timestamp }
              ∷ [])

  abbrev pub after_release : Escrow → Escrow
  after_release e = record e { status = completed; amount = pos 0 }

  release_at :
      (caller id : ℕ) (c d : Self) (e : Escrow) (fee out : ℤ) (w : World)
      → load_escrow id c.store ≡ some e
      → release_escrow client env caller id c ≡ done (tt, d)
      → compute_fee_and_payout e.amount (get_protocol_fee_bps c.store) ≡ ok (fee, out)
      → transfer c.tokens e.token env.current_contract e.seller out ≡ some w
      → PaysOut caller c d id e (after_release e) e.amount fee out w
  unfolding release_escrow fit_i128
  release_at caller id c d e fee out w was h k t = ground arith

  -- A release that succeeds was made of a funded escrow before its deadline, by its buyer or the
  -- administrator. It pays the seller the remaining amount less the protocol fee, accrues and records
  -- the fee, leaves nothing in the escrow and completes it.
  pub release_paid :
      (caller id : ℕ) (c d : Self) (e : Escrow)
      → load_escrow id c.store ≡ some e
      → release_escrow client env caller id c ≡ done (tt, d)
      → (fee out : ℤ) × (w : World) × PaysOut caller c d id e (after_release e) e.amount fee out w
  unfolding release_escrow
  release_paid caller id c d e was h =
      elim (Result-cases (compute_fee_and_payout e.amount (get_protocol_fee_bps c.store))) [
        | inl (x, k) ↦ absurd (ground arith)
        | inr (fee, out, k) ↦
            elim (Option-cases (transfer c.tokens e.token env.current_contract e.seller out)) [
              | inl t ↦ absurd (ground arith)
              | inr (w, t) ↦ (fee, out, w, release_at caller id c d e fee out w was h k t)
            ]
      ]

  -- The escrow of which `amount` is released: that much less, and complete if nothing is left.
  abbrev pub lowered : Escrow → ℤ → Escrow
  lowered e amount = record e {
    amount = e.amount -ℤ amount;
    status = if eq_ℤ e.amount amount then completed else funded;
  }

  nothing_left : (a x : ℤ) → eq_ℤ (a -ℤ x) (pos 0) ≡ eq_ℤ a x
  nothing_left a x = grind int_laws

  lowered_lem :
      (e : Escrow) (x : ℤ)
      → e.status ≡ funded
      → after_partial client e (e.amount -ℤ x) ≡ lowered e x
  lowered_lem e x f = rw (nothing_left e.amount x, f) refl

  partial_at :
      (caller id : ℕ) (amount : ℤ) (c d : Self) (e : Escrow) (fee out : ℤ) (w : World)
      → load_escrow id c.store ≡ some e
      → partial_release client env caller id amount c ≡ done (tt, d)
      → compute_fee_and_payout amount (get_protocol_fee_bps c.store) ≡ ok (fee, out)
      → transfer c.tokens e.token env.current_contract e.seller out ≡ some w
      → PaysOut caller c d id e (lowered e amount) amount fee out w
        × (pos 1 ≤ℤ amount)
        × (amount ≤ℤ e.amount)
  unfolding partial_release fit_i128
  partial_at caller id amount c d e fee out w was h k t =
      let f : e.status ≡ funded = ground arith in
      let l = lowered_lem e amount f in ground (arith, l)

  PaysOut-Settles :
      (caller : ℕ) (c d : Self) (id : ℕ) (e e' : Escrow) (gross fee out : ℤ) (w : World)
      → PaysOut caller c d id e e' gross fee out w
      → load_escrow id c.store ≡ some e
      → Moves e e'
      → WellFormed e
      → WellFormed e'
      → gross ≤ℤ i128_max
      → locked_amount e' +ℤ gross ≤ℤ e.amount
      → Settles client env.current_contract c d id e e' fee out
  PaysOut-Settles caller c d id e e' gross fee out w p was moves wf wf' fits room =
      let (fee_ok, out_ok, total) =
        compute_fee_and_payout-sum gross fee out (get_protocol_fee_bps c.store) fits p.split in
      record {
        was = was;
        now = p.now;
        count = p.count;
        moves = moves;
        fee_nonneg = fee_ok;
        fees = λ t. rw p.fees (fee_after e.token t fee c.store.protocol_fees);
        paid = λ t.
            rw p.tokens (
              pay_out_bound client c.tokens w e.token env.current_contract e.seller out t
                p.payment);
        covered = rw p.was_funded (grind int_laws);
        keeps = wf';
      }

  -- A partial release that succeeds was made of a funded escrow before its deadline, by its buyer or the
  -- administrator, of a positive amount that is not more than what remains. It pays the seller that
  -- amount less the fee, accrues and records the fee, leaves the escrow that amount less, and completes it
  -- exactly when nothing is left.
  pub partial_paid :
      (caller id : ℕ) (amount : ℤ) (c d : Self) (e : Escrow)
      → load_escrow id c.store ≡ some e
      → partial_release client env caller id amount c ≡ done (tt, d)
      → (fee out : ℤ) × (w : World) × PaysOut caller c d id e (lowered e amount) amount fee out w
        × (pos 1 ≤ℤ amount)
        × (amount ≤ℤ e.amount)
  unfolding partial_release
  partial_paid caller id amount c d e was h =
      elim (Result-cases (compute_fee_and_payout amount (get_protocol_fee_bps c.store))) [
        | inl (x, k) ↦ absurd (ground arith)
        | inr (fee, out, k) ↦
            elim (Option-cases (transfer c.tokens e.token env.current_contract e.seller out)) [
              | inl t ↦ absurd (ground arith)
              | inr (w, t) ↦
                  let (p, lo, hi) = partial_at caller id amount c d e fee out w was h k t in
                  (fee, out, w, p, lo, hi)
            ]
      ]

  after_partial-WellFormed :
      (e : Escrow) (x : ℤ)
      → e.status ≡ funded
      → WellFormed e
      → pos 1 ≤ℤ x
      → x ≤ℤ e.amount
      → WellFormed (lowered e x)
  after_partial-WellFormed e x f wf lo hi = grind int_laws

  after_partial-room :
      (e : Escrow) (x : ℤ) → e.status ≡ funded → locked_amount (lowered e x) +ℤ x ≤ℤ e.amount
  after_partial-room e x f = grind int_laws

  release-Moves : (e : Escrow) → e.status ≡ funded → WellFormed e → Moves e (after_release e)
  release-Moves e f wf = ground arith

  partial-Moves : (e : Escrow) (x : ℤ) → e.status ≡ funded → pos 1 ≤ℤ x → Moves e (lowered e x)
  partial-Moves e x f lo = grind int_laws

  -- A release that succeeds settles the escrow.
  pub release-Settled :
      (caller id : ℕ) (c d : Self)
      → IsValid client env.current_contract c
      → release_escrow client env caller id c ≡ done (tt, d)
      → Settled client env.current_contract c d
  unfolding release_escrow
  release-Settled caller id c d v h = elim (Option-cases (load_escrow id c.store)) [
    | inl missing ↦ absurd (ground arith)
    | inr (e, was) ↦
        let wf = v.well_formed id e was in
        let (fee, out, w, p) = release_paid caller id c d e was h in
        (
          id,
          e,
          _,
          fee,
          out,
          (PaysOut-Settles caller c d id e (after_release e) e.amount fee out w p was
              (release-Moves e p.was_funded wf) wf (refl, wf.1, wf.2) (fits e p.was_funded wf)
              (omega int_laws)),
        )
  ]

  -- A partial release that succeeds settles the escrow.
  pub partial-Settled :
      (caller id : ℕ) (amount : ℤ) (c d : Self)
      → IsValid client env.current_contract c
      → partial_release client env caller id amount c ≡ done (tt, d)
      → Settled client env.current_contract c d
  unfolding partial_release
  partial-Settled caller id amount c d v h = elim (Option-cases (load_escrow id c.store)) [
    | inl missing ↦ absurd (ground arith)
    | inr (e, was) ↦
        let wf = v.well_formed id e was in
        let (fee, out, w, p, lo, hi) = partial_paid caller id amount c d e was h in
        (
          id,
          e,
          _,
          fee,
          out,
          (PaysOut-Settles caller c d id e (lowered e amount) amount fee out w p was
              (partial-Moves e amount p.was_funded lo) wf
              (after_partial-WellFormed e amount p.was_funded wf lo hi)
              (fits_below e amount p.was_funded wf hi) (after_partial-room e amount p.was_funded)),
        )
  ]
