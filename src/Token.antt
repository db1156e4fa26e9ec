-- ===== src/Token.antt =====
-- contracts/token/src/lib.rs and royalty.rs: a fungible token with allowances, a pause and a royalty on
-- each transfer. Balances that an earlier version kept in instance storage are `legacy_balances`.
pub mod Calls
pub mod Royalties
pub mod Transfers
pub mod Supply
pub mod Spending
pub mod Histories
pub mod Client
mod Tests
use chain_verse_onchain.Common.{
  ℕ, ◌^◌, ◌*◌, Bool, true, false, Option, none, some, List, [], ◌∷◌, ℤ, pos, ltb, lookup, insert,
  erase, nat_eq, pair_eq, or_default, if◌then◌else◌,
}

abbrev pub max_supply : ℤ
max_supply = pos (1_000_000_000 * 10 ^ 7)

pub data TokenError : Type 0 where
  already_initialized not_initialized insufficient_balance insufficient_allowance : TokenError
  allowance_not_found allowance_expired invalid_amount unauthorized : TokenError
  royalty_bps_too_high arithmetic_overflow contract_paused no_pending_admin : TokenError
  supply_cap_exceeded : TokenError

pub record Allowance : Type 0 where
  pub amount : ℤ
  pub expires_at : Option ℕ

pub record RoyaltyConfig : Type 0 where
  pub recipient : ℕ
  pub bps : ℕ

-- One field for each `DataKey`, and the code that the contract runs. An allowance is keyed by its owner
-- and its spender.
pub record Store : Type 0 where
  pub admin : Option ℕ
  pub balances : List (ℕ × ℤ)
  pub legacy_balances : List (ℕ × ℤ)
  pub total_supply : Option ℤ
  pub initialized : Bool
  pub pending_admin : Option ℕ
  pub paused : Bool
  pub royalty : Option RoyaltyConfig
  pub allowances : List ((ℕ × ℕ) × Allowance)
  pub wasm_hash : ℕ

pub data Event : Type 0 where
  init : (admin : ℕ) (total_supply : ℤ) → Event
  transferred : (from to : ℕ) (amount : ℤ) → Event
  approval : (owner spender : ℕ) (amount : ℤ) (expires_at : Option ℕ) → Event
  allowance_revoked : (owner spender : ℕ) → Event
  paused_by unpaused_by : (admin : ℕ) → Event
  adm_prop : (current_admin new_admin : ℕ) → Event
  adm_new : (new_admin : ℕ) → Event
  upgraded : (new_wasm_hash : ℕ) → Event

abbrev pub balance : ℕ → Store → ℤ
balance user s = or_default (pos 0) (lookup user s.balances)

abbrev pub set_balance : ℕ → ℤ → Store → Store
set_balance user x s = record s { balances = insert user x s.balances }

-- `env.ledger().timestamp() > exp`, where there is an expiry.
abbrev pub is_expired : (timestamp : ℕ) → Option ℕ → Bool
is_expired now none = false
is_expired now (some exp) = ltb exp now

-- What an allowance is worth now.
abbrev allowed_now : (timestamp : ℕ) → Option Allowance → ℤ
allowed_now now none = pos 0
allowed_now now (some a) = if is_expired now a.expires_at then pos 0 else a.amount

abbrev pub allowance : (timestamp owner spender : ℕ) → Store → ℤ
allowance now owner spender s = allowed_now now (lookup (owner, spender) s.allowances)

-- The loop of `migrate_balances`.
abbrev pub migrate : List ℕ → Store → Store
migrate [] s = s
migrate (holder ∷ holders) s =
    migrate holders
      (elim (lookup holder s.legacy_balances) [ none ↦ s | some x ↦ set_balance holder x s ])
