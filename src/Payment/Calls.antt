-- ===== src/Payment/Calls.antt =====
-- contracts/payment/src/lib.rs and fee.rs: the entry points.
use chain_verse_onchain.Common.{
  ℕ, ◌+◌, not, some, ℤ, pos, ◌+ℤ◌, ◌-ℤ◌, ◌*ℤ◌, div_ℤ, leb_ℤ, ltb, u64_max, fit_i128, is_some, ◌==◌,
  Env, Contract, TokenClient, pure, gets, modify, emit, raise_if, panic_if, ok_or, or_panic,
  require_auth, token_transfer, ◌>>=◌, ◌>>◌,
}
use chain_verse_onchain.Payment.{
  ContractError, already_initialized, not_admin, not_initialized, invalid_fee, already_enrolled,
  not_enrolled, payment_failed, refund_window_expired, insufficient_balance, invalid_amount, Store,
  Event, payment_recorded, refund_issued, fee_set, withdrawal_processed, read_token,
  read_fee_percent, read_refund_window_seconds, is_enrolled, set_enrollment, remove_enrollment,
  read_payment_record, write_payment_record, read_instructor_balance, write_instructor_balance,
}

module _ (client : TokenClient) (zero_address : ℕ) where
  abbrev pub Call : Type 0 → Type 0
  Call A = Contract client.World Store Event ContractError A

  unfoldable pub calculate_fee : (amount : ℤ) → (fee_percent : ℕ) → Call ℤ
  calculate_fee amount fee_percent = do
    raise_if (ltb 2000 fee_percent) invalid_fee
    product ← or_panic (fit_i128 (amount *ℤ pos fee_percent))
    pure (div_ℤ product (pos 10000))

  unfoldable pub calculate_instructor_amount : (amount : ℤ) → (fee_percent : ℕ) → Call ℤ
  calculate_instructor_amount amount fee_percent = do
    fee ← calculate_fee amount fee_percent
    or_panic (fit_i128 (amount -ℤ fee))

  unfoldable pub initialize :
      Env → (admin token fee_percent refund_window_seconds : ℕ) → Call (Unit {0})
  initialize env admin token fee_percent refund_window_seconds = do
    require_auth env admin
    stored ← gets (λ s. s.admin)
    raise_if (is_some stored) already_initialized
    raise_if (ltb 2000 fee_percent) invalid_fee
    modify (λ s. record s { admin = some admin })
    modify (λ s. record s { token = some token })
    modify (λ s. record s { fee_percent = some fee_percent })
    modify (λ s. record s { refund_window_seconds = some refund_window_seconds })

  unfoldable pub set_fee : Env → (caller fee_percent : ℕ) → Call (Unit {0})
  set_fee env caller fee_percent = do
    stored ← gets (λ s. s.admin)
    admin ← ok_or stored not_initialized
    raise_if (not (caller == admin)) not_admin
    require_auth env caller
    raise_if (ltb 2000 fee_percent) invalid_fee
    modify (λ s. record s { fee_percent = some fee_percent })
    emit (fee_set fee_percent)

  unfoldable pub pay_for_course :
      Env → (student course_id instructor : ℕ) → (amount : ℤ) → Call (Unit {0})
  pay_for_course env student course_id instructor amount = do
    require_auth env student
    raise_if (leb_ℤ amount (pos 0)) invalid_amount
    enrolled ← gets (is_enrolled student course_id)
    raise_if enrolled already_enrolled
    token ← gets (read_token zero_address)
    fee_percent ← gets read_fee_percent
    fee ← calculate_fee amount fee_percent
    instructor_amount ← or_panic (fit_i128 (amount -ℤ fee))
    token_transfer client token student env.current_contract amount
    modify (set_enrollment student course_id)
    modify (
        write_payment_record (record {
          student = student;
          course_id = course_id;
          amount = amount;
          paid_at = env.timestamp;
        }))
    current_balance ← gets (read_instructor_balance instructor)
    new_balance ← or_panic (fit_i128 (current_balance +ℤ instructor_amount))
    modify (write_instructor_balance instructor new_balance)
    emit (payment_recorded student course_id amount instructor)

  unfoldable pub refund : Env → (student course_id : ℕ) → Call (Unit {0})
  refund env student course_id = do
    stored ← gets (λ s. s.admin)
    admin ← ok_or stored not_initialized
    require_auth env admin
    enrolled ← gets (is_enrolled student course_id)
    raise_if (not enrolled) not_enrolled
    found ← gets (read_payment_record student course_id)
    payment ← ok_or found payment_failed
    refund_window ← gets read_refund_window_seconds
    panic_if (ltb u64_max (payment.paid_at + refund_window))
    raise_if (ltb (payment.paid_at + refund_window) env.timestamp) refund_window_expired
    modify (remove_enrollment student course_id)
    token ← gets (read_token zero_address)
    token_transfer client token env.current_contract student payment.amount
    emit (refund_issued student course_id payment.amount)

  unfoldable pub withdraw_earnings : Env → (instructor : ℕ) → Call (Unit {0})
  withdraw_earnings env instructor = do
    require_auth env instructor
    balance ← gets (read_instructor_balance instructor)
    raise_if (leb_ℤ balance (pos 0)) insufficient_balance
    modify (write_instructor_balance instructor (pos 0))
    token ← gets (read_token zero_address)
    token_transfer client token env.current_contract instructor balance
    emit (withdrawal_processed instructor balance)
