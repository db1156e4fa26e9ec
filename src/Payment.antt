-- ===== src/Payment.antt =====
-- contracts/payment/src: students pay for courses, the contract keeps its fee and an account of what it
-- owes each instructor, who withdraws it; the administrator refunds within a window.
-- storage.rs, errors.rs, events.rs and course.rs stand here. Extensions of a time to live are left out.
pub mod Calls
pub mod Effects
pub mod Solvency
pub mod Histories
mod Tests
use chain_verse_onchain.Common.{
  ℕ, Bool, true, false, Option, none, List, ℤ, pos, lookup, insert, erase, nat_eq, pair_eq,
  or_default, is_some,
}

pub data ContractError : Type 0 where
  already_initialized not_admin not_initialized invalid_fee course_not_found course_inactive :
      ContractError
  already_enrolled not_enrolled payment_failed refund_window_expired : ContractError
  insufficient_balance transfer_failed invalid_amount invalid_token unauthorized_caller :
      ContractError

pub record PaymentRecord : Type 0 where
  pub student : ℕ
  pub course_id : ℕ
  pub amount : ℤ
  pub paid_at : ℕ

-- One field for each `DataKey`; enrollments and payment records are keyed by student and course.
pub record Store : Type 0 where
  pub admin : Option ℕ
  pub token : Option ℕ
  pub fee_percent : Option ℕ
  pub refund_window_seconds : Option ℕ
  pub enrollments : List ((ℕ × ℕ) × Bool)
  pub payment_records : List ((ℕ × ℕ) × PaymentRecord)
  pub instructor_balances : List (ℕ × ℤ)

pub data Event : Type 0 where
  payment_recorded : (student course_id : ℕ) (amount : ℤ) (instructor : ℕ) → Event
  refund_issued : (student course_id : ℕ) (amount : ℤ) → Event
  fee_set : (fee_percent : ℕ) → Event
  withdrawal_processed : (instructor : ℕ) (amount : ℤ) → Event

-- The token, or the default address where none is stored.
abbrev pub read_token : (zero_address : ℕ) → Store → ℕ
read_token zero_address s = or_default zero_address s.token

abbrev pub read_fee_percent : Store → ℕ
read_fee_percent s = or_default 0 s.fee_percent

abbrev pub read_refund_window_seconds : Store → ℕ
read_refund_window_seconds s = or_default 86400 s.refund_window_seconds

abbrev pub is_enrolled : (student course_id : ℕ) → Store → Bool
is_enrolled student course_id s = is_some (lookup (student, course_id) s.enrollments)

abbrev pub set_enrollment : (student course_id : ℕ) → Store → Store
set_enrollment student course_id s = record s {
  enrollments = insert (student, course_id) true s.enrollments;
}

abbrev pub remove_enrollment : (student course_id : ℕ) → Store → Store
remove_enrollment student course_id s = record s {
  enrollments = erase (student, course_id) s.enrollments;
}

abbrev pub read_payment_record : (student course_id : ℕ) → Store → Option PaymentRecord
read_payment_record student course_id s = lookup (student, course_id) s.payment_records

abbrev pub write_payment_record : PaymentRecord → Store → Store
write_payment_record r s = record s {
  payment_records = insert (r.student, r.course_id) r s.payment_records;
}

abbrev pub read_instructor_balance : (instructor : ℕ) → Store → ℤ
read_instructor_balance instructor s = or_default (pos 0) (lookup instructor s.instructor_balances)

abbrev pub write_instructor_balance : (instructor : ℕ) → ℤ → Store → Store
write_instructor_balance instructor x s = record s {
  instructor_balances = insert instructor x s.instructor_balances;
}

pub record Course : Type 0 where
  pub id : ℕ
  pub instructor : ℕ
  pub price : ℤ
  pub is_active : Bool

abbrev pub register_course : Course → Course
register_course course = course

abbrev pub deactivate_course : Course → Course
deactivate_course course = record course { is_active = false }
