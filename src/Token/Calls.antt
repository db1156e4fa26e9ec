-- ===== src/Token/Calls.antt =====
-- contracts/token/src/lib.rs and royalty.rs: the entry points.
use chain_verse_onchain.Common.{
  ℕ, Bool, true, false, not, ◌&&◌, Option, none, some, List, ℤ, pos, ◌+ℤ◌, ◌-ℤ◌, ◌*ℤ◌, div_ℤ, leb_ℤ,
  ltb_ℤ, eq_ℤ, ltb, fit_i128, lookup, insert, erase, nat_eq, pair_eq, ◌==◌, if◌then◌else◌, Env,
  Contract, Result, ok, err, pure, gets, modify, emit, raise_if, ok_or, lift, when, require_auth,
  ◌>>=◌, ◌>>◌,
}
use chain_verse_onchain.Token.{
  max_supply, TokenError, already_initialized, not_initialized, insufficient_balance,
  insufficient_allowance, allowance_not_found, allowance_expired, invalid_amount, unauthorized,
  royalty_bps_too_high, arithmetic_overflow, contract_paused, no_pending_admin, supply_cap_exceeded,
  Allowance, RoyaltyConfig, Store, Event, balance, set_balance, is_expired, migrate,
}

abbrev pub Call : Type 0 → Type 0
Call A = Contract (Unit {0}) Store Event TokenError A

abbrev pub require_admin : Env → (admin : ℕ) → Call (Unit {0})
require_admin env admin = do
  stored ← gets (λ s. s.admin)
  configured_admin ← ok_or stored not_initialized
  raise_if (not (configured_admin == admin)) unauthorized
  require_auth env admin

unfoldable pub initialize : Env → (admin : ℕ) → (total_supply : ℤ) → Call (Unit {0})
initialize env admin total_supply = do
  initialized ← gets (λ s. s.initialized)
  raise_if initialized already_initialized
  raise_if (leb_ℤ total_supply (pos 0)) invalid_amount
  raise_if (ltb_ℤ max_supply total_supply) supply_cap_exceeded
  require_auth env admin
  modify (λ s. record s { admin = some admin })
  modify (λ s. record s { total_supply = some total_supply })
  modify (set_balance admin total_supply)
  modify (λ s. record s { paused = false })
  modify (λ s. record s { initialized = true })
  emit (Event.init admin total_supply)

-- `o.ok_or(TokenError::ArithmeticOverflow)`
abbrev or_overflow : Option ℤ → Result TokenError ℤ
or_overflow none = err arithmetic_overflow
or_overflow (some x) = ok x

abbrev scale : Result TokenError ℤ → Result TokenError ℤ
scale (ok x) = ok (div_ℤ x (pos 10_000))
scale (err e) = err e

-- What the royalty takes of an amount.
unfoldable pub royalty_amount : Option RoyaltyConfig → ℤ → Result TokenError ℤ
royalty_amount none amount = ok (pos 0)
royalty_amount (some config) amount = scale (or_overflow (fit_i128 (amount *ℤ pos config.bps)))

-- `recipient.as_ref() == Some(&to)`
abbrev pub is_recipient : Option RoyaltyConfig → ℕ → Bool
is_recipient none to = false
is_recipient (some config) to = config.recipient == to

-- The credit of the royalty to its recipient.
unfoldable pub pay_royalty : Option RoyaltyConfig → (to : ℕ) → (royalty : ℤ) → Call (Unit {0})
pay_royalty none to royalty = pure tt
pay_royalty (some config) to royalty =
    when (ltb_ℤ (pos 0) royalty && not (config.recipient == to)) (do
      recipient_balance ← gets (balance config.recipient)
      recipient_after ← ok_or (fit_i128 (recipient_balance +ℤ royalty)) arithmetic_overflow
      modify (set_balance config.recipient recipient_after))

unfoldable pub apply_transfer : (from to : ℕ) → (amount : ℤ) → Call (Unit {0})
apply_transfer from to amount = do
  raise_if (leb_ℤ amount (pos 0)) invalid_amount
  raise_if (ltb_ℤ max_supply amount) supply_cap_exceeded
  raise_if (from == to) invalid_amount
  from_balance ← gets (balance from)
  raise_if (ltb_ℤ from_balance amount) insufficient_balance
  royalty ← gets (λ s. s.royalty)
  taken ← lift (royalty_amount royalty amount)
  proceeds ← ok_or (fit_i128 (amount -ℤ taken)) arithmetic_overflow
  from_after ← ok_or (fit_i128 (from_balance -ℤ amount)) arithmetic_overflow
  to_balance ← gets (balance to)
  to_after ←
      ok_or (fit_i128 (to_balance +ℤ (if is_recipient royalty to then amount else proceeds)))
        arithmetic_overflow
  modify (set_balance from from_after)
  modify (set_balance to to_after)
  pay_royalty royalty to taken
  emit (Event.transferred from to amount)

unfoldable pub transfer : Env → (from to : ℕ) → (amount : ℤ) → Call (Unit {0})
transfer env from to amount = do
  paused ← gets (λ s. s.paused)
  raise_if paused contract_paused
  require_auth env from
  apply_transfer from to amount

unfoldable pub set_paused : Env → (admin : ℕ) → Bool → Event → Call (Unit {0})
set_paused env admin b event = do
  require_admin env admin
  modify (λ s. record s { paused = b })
  emit event

abbrev pub pause : Env → (admin : ℕ) → Call (Unit {0})
pause env admin = set_paused env admin true (Event.paused_by admin)

abbrev pub unpause : Env → (admin : ℕ) → Call (Unit {0})
unpause env admin = set_paused env admin false (Event.unpaused_by admin)

unfoldable pub propose_admin : Env → (current_admin new_admin : ℕ) → Call (Unit {0})
propose_admin env current_admin new_admin = do
  require_admin env current_admin
  modify (λ s. record s { pending_admin = some new_admin })
  emit (Event.adm_prop current_admin new_admin)

unfoldable pub accept_admin : Env → (new_admin : ℕ) → Call (Unit {0})
accept_admin env new_admin = do
  stored ← gets (λ s. s.pending_admin)
  pending ← ok_or stored no_pending_admin
  raise_if (not (pending == new_admin)) unauthorized
  require_auth env new_admin
  modify (λ s. record s { admin = some new_admin })
  modify (λ s. record s { pending_admin = none })
  emit (Event.adm_new new_admin)

unfoldable pub upgrade : Env → (admin new_wasm_hash : ℕ) → Call (Unit {0})
upgrade env admin new_wasm_hash = do
  require_admin env admin
  modify (λ s. record s { wasm_hash = new_wasm_hash })
  emit (Event.upgraded new_wasm_hash)

unfoldable pub migrate_balances : Env → (admin : ℕ) → (holders : List ℕ) → Call (Unit {0})
migrate_balances env admin holders = do require_admin env admin; modify (migrate holders)

unfoldable pub set_royalty : Env → (admin recipient bps : ℕ) → Call (Unit {0})
set_royalty env admin recipient bps = do
  require_admin env admin
  raise_if (ltb 10_000 bps) royalty_bps_too_high
  modify (λ s. record s { royalty = some (record { recipient = recipient; bps = bps }) })

unfoldable pub approve :
    Env → (owner spender : ℕ) → (amount : ℤ) → (expires_at : Option ℕ) → Call (Unit {0})
approve env owner spender amount expires_at = do
  raise_if (leb_ℤ amount (pos 0)) invalid_amount
  raise_if (ltb_ℤ max_supply amount) supply_cap_exceeded
  require_auth env owner
  modify (λ s. record s {
    allowances =
        insert (owner, spender) (record { amount = amount; expires_at = expires_at }) s.allowances;
  })
  emit (Event.approval owner spender amount expires_at)

-- What is left of an allowance: a removed entry, or a smaller one.
unfoldable pub spend : (from spender : ℕ) → Allowance → ℤ → Store → Store
spend from spender allow amount s = record s {
  allowances =
      if eq_ℤ (allow.amount -ℤ amount) (pos 0)
      then erase (from, spender) s.allowances
      else insert (from, spender) (record allow { amount = allow.amount -ℤ amount }) s.allowances;
}

unfoldable pub transfer_from : Env → (spender from to : ℕ) → (amount : ℤ) → Call (Unit {0})
transfer_from env spender from to amount = do
  paused ← gets (λ s. s.paused)
  raise_if paused contract_paused
  require_auth env spender
  stored ← gets (λ s. lookup (from, spender) s.allowances)
  allow ← ok_or stored allowance_not_found
  raise_if (is_expired env.timestamp allow.expires_at) allowance_expired
  raise_if (ltb_ℤ allow.amount amount) insufficient_allowance
  apply_transfer from to amount
  modify (spend from spender allow amount)

unfoldable pub revoke_allowance : Env → (owner spender : ℕ) → Call (Unit {0})
revoke_allowance env owner spender = do
  require_auth env owner
  modify (λ s. record s { allowances = erase (owner, spender) s.allowances })
  emit (Event.allowance_revoked owner spender)
