-- ===== src/LibraryDeposits.antt =====
-- contracts/library-deposits/src/lib.rs: refundable deposits for physical loans. The hash that names a
-- deposit is a parameter, of the nonce, the timestamp, the loan and the patron that it is taken of.
pub mod Calls
pub mod Invariant
pub mod Payments
pub mod Locks
pub mod Histories
mod Tests
use chain_verse_onchain.Common.{ℕ, Bool, true, false, Option, List, ℤ, lookup, insert, nat_eq}

pub data DepositError : Type 0 where
  not_initialized already_initialized unauthorized not_found invalid_amount : DepositError
  already_closed insufficient_balance overflow : DepositError

pub data DepositStatus : Type 0 where
  locked released charged : DepositStatus

-- `status == DepositStatus::Locked`
abbrev pub is_locked : DepositStatus → Bool
is_locked locked = true
is_locked _ = false

pub record Deposit : Type 0 where
  pub loan_id : ℕ
  pub patron : ℕ
  pub token : ℕ
  pub original_amount : ℤ
  pub remaining_amount : ℤ
  pub status : DepositStatus

-- One field for each `DataKey`; the count is zero while it is unset.
pub record Store : Type 0 where
  pub admin : Option ℕ
  pub treasury : Option ℕ
  pub deposit_count : ℕ
  pub deposits : List (ℕ × Deposit)

pub data Event : Type 0 where
  dep_lock : (id loan_id patron : ℕ) (amount : ℤ) → Event
  dep_rel : (deposit_id : ℕ) (refund : ℤ) → Event
  dep_chg : (deposit_id : ℕ) (charge : ℤ) → Event

-- `load_deposit` fails with `NotFound` on `none`.
abbrev pub load_deposit : ℕ → Store → Option Deposit
load_deposit id s = lookup id s.deposits

abbrev pub save_deposit : ℕ → Deposit → Store → Store
save_deposit id d s = record s { deposits = insert id d s.deposits }
