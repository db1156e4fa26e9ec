-- ===== src/Payment/Effects.antt =====
-- contracts/payment/src/lib.rs: what the entry points do when they succeed.
use chain_verse_onchain.Common.{
  ℕ, ◌+◌, ◌≤◌, ◌≡◌, arith, true, none, some, ◌∷◌, ℤ, pos, ◌+ℤ◌, ◌-ℤ◌, ◌*ℤ◌, div_ℤ, ◌≤ℤ◌, fit_i128,
  lookup, lookup-insert, ==_iff, insert, erase, nat_eq, pair_eq, Env, Chain, TokenClient, done,
  fail,
}
use chain_verse_onchain.Payment.{
  insufficient_balance, PaymentRecord, Store, Event, payment_recorded, refund_issued, read_token,
  read_fee_percent, read_refund_window_seconds, is_enrolled, read_payment_record,
  read_instructor_balance,
}
use chain_verse_onchain.Payment.Calls.{pay_for_course, refund, withdraw_earnings, calculate_fee}

-- The fee on an amount, as a formula.
abbrev pub fee_of : (amount : ℤ) → (fee_percent : ℕ) → ℤ
fee_of amount fee_percent = div_ℤ (amount *ℤ pos fee_percent) (pos 10000)

module _ (client : TokenClient) (zero_address : ℕ) where
  open client use {World, balance, transfer}

  abbrev pub State : Type 0
  State = Chain World Store Event

  -- A payment that succeeds.
  pub record Pays (env : Env) (student course_id instructor : ℕ) (amount : ℤ) (c d : State)
      : Type 0 where
    pub signed : env.authorized student ≡ true
    pub positive : pos 1 ≤ℤ amount
    pub new : lookup (student, course_id) c.store.enrollments ≡ none
    pub capped : read_fee_percent c.store ≤ 2000
    pub moved :
        transfer c.tokens (read_token zero_address c.store) student env.current_contract amount
        ≡ some d.tokens
    pub stored : d.store ≡ record (c.store) {
      enrollments = insert (student, course_id) true c.store.enrollments;
      payment_records =
          insert
            (student, course_id)
            (record {
              student = student;
              course_id = course_id;
              amount = amount;
              paid_at = env.timestamp;
            })
            c.store.payment_records;
      instructor_balances =
          insert instructor
            (read_instructor_balance instructor c.store
              +ℤ (amount -ℤ fee_of amount (read_fee_percent c.store)))
            c.store.instructor_balances;
    }
    pub told : d.events ≡ payment_recorded student course_id amount instructor ∷ c.events

  module _ (env : Env) (student course_id : ℕ) (c d : State) where
    -- A payment that succeeds is signed by the student, who was not enrolled. It moves the whole amount
    -- to the contract, enrolls the student, records the payment, and credits the instructor with the
    -- amount less the fee.
    pub pay_for_course-Pays :
        (instructor : ℕ) (amount : ℤ)
        → pay_for_course client zero_address env student course_id instructor amount c
          ≡ done (tt, d)
        → Pays env student course_id instructor amount c d
    unfolding pay_for_course calculate_fee fit_i128
    pay_for_course-Pays instructor amount h = record {
      signed = ground arith;
      positive = ground arith;
      new = ground arith;
      capped = ground arith;
      moved = ground arith;
      stored = ground arith;
      told = ground arith;
    }

    -- A refund that succeeds is signed by the administrator within the window after the payment. It
    -- pays the student the whole amount and ends the enrollment, and leaves everything else stored as
    -- it is, what the contract owes the instructors included.
    pub refund_returns :
        (admin : ℕ) (r : PaymentRecord)
        → c.store.admin ≡ some admin
        → read_payment_record student course_id c.store ≡ some r
        → refund client zero_address env student course_id c ≡ done (tt, d)
        → (env.authorized admin ≡ true)
          × (is_enrolled student course_id c.store ≡ true)
          × (env.timestamp ≤ r.paid_at + read_refund_window_seconds c.store)
          × (transfer c.tokens
                (read_token zero_address c.store)
                env.current_contract
                student
                r.amount
              ≡ some d.tokens)
          × (d.store
              ≡ record (c.store) { enrollments = erase (student, course_id) c.store.enrollments })
          × (d.events ≡ refund_issued student course_id r.amount ∷ c.events)
    unfolding refund
    refund_returns admin r a p h = ground arith

  -- Somebody who is owed nothing cannot withdraw.
  nothing_owed :
      (env : Env) (instructor : ℕ) (d : State)
      → env.authorized instructor ≡ true
      → read_instructor_balance instructor d.store ≡ pos 0
      → withdraw_earnings client zero_address env instructor d ≡ fail insufficient_balance
  unfolding withdraw_earnings
  nothing_owed env instructor d u z = ground arith

  withdrawn :
      (env : Env) (instructor : ℕ) (c d : State)
      → withdraw_earnings client zero_address env instructor c ≡ done (tt, d)
      → (env.authorized instructor ≡ true)
        × (pos 1 ≤ℤ read_instructor_balance instructor c.store)
        × (transfer c.tokens
              (read_token zero_address c.store)
              env.current_contract
              instructor
              (read_instructor_balance instructor c.store)
            ≡ some d.tokens)
        × (d.store ≡ record (c.store) {
          instructor_balances = insert instructor (pos 0) c.store.instructor_balances;
        })
  unfolding withdraw_earnings
  withdrawn env instructor c d h = ground arith

  -- A withdrawal that succeeds is signed by the instructor, who is paid all that is owed, and a
  -- second withdrawal fails.
  pub withdraw_earnings_drains :
      (env : Env) (instructor : ℕ) (c d : State)
      → withdraw_earnings client zero_address env instructor c ≡ done (tt, d)
      → (env.authorized instructor ≡ true)
        × (pos 1 ≤ℤ read_instructor_balance instructor c.store)
        × (transfer c.tokens
              (read_token zero_address c.store)
              env.current_contract
              instructor
              (read_instructor_balance instructor c.store)
            ≡ some d.tokens)
        × (d.store ≡ record (c.store) {
          instructor_balances = insert instructor (pos 0) c.store.instructor_balances;
        })
        × (withdraw_earnings client zero_address env instructor d ≡ fail insufficient_balance)
  withdraw_earnings_drains env instructor c d h =
      let (u, lo, t, now) = withdrawn env instructor c d h in
      let empty : read_instructor_balance instructor d.store ≡ pos 0 =
        rw (now, lookup-insert instructor instructor (pos 0) c.store.instructor_balances)
          (grind (arith, ==_iff instructor instructor)) in
      (u, lo, t, now, nothing_owed env instructor d u empty)
