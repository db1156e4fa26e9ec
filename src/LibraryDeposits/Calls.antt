-- ===== src/LibraryDeposits/Calls.antt =====
-- contracts/library-deposits/src/lib.rs: the entry points.
use chain_verse_onchain.Common.{
  ℕ, ◌+◌, not, ◌&&◌, some, ℤ, pos, ◌-ℤ◌, leb_ℤ, ltb_ℤ, ltb, u64_max, fit_i128, is_some, ◌==◌, Env,
  Contract, TokenClient, pure, gets, modify, emit, raise_if, ok_or, require_auth, token_transfer,
  ◌>>=◌, ◌>>◌,
}
use chain_verse_onchain.LibraryDeposits.{
  DepositError, not_initialized, already_initialized, unauthorized, not_found, invalid_amount,
  already_closed, insufficient_balance, overflow, locked, released, charged, is_locked, Deposit,
  Store, Event, dep_lock, dep_rel, dep_chg, load_deposit, save_deposit,
}

-- The deposit that a lock stores, and the deposit once it is released or charged in full.
abbrev pub new_deposit : (patron loan_id token : ℕ) → (amount : ℤ) → Deposit
new_deposit patron loan_id token amount = record {
  loan_id = loan_id;
  patron = patron;
  token = token;
  original_amount = amount;
  remaining_amount = amount;
  status = locked;
}

module _ (client : TokenClient) (deposit_id : (nonce timestamp loan_id patron : ℕ) → ℕ) where
  abbrev pub Call : Type 0 → Type 0
  Call A = Contract client.World Store Event DepositError A

  abbrev require_admin : Env → (caller : ℕ) → Call (Unit {0})
  require_admin env caller = do
    stored ← gets (λ s. s.admin)
    admin ← ok_or stored not_initialized
    raise_if (not (caller == admin)) unauthorized
    require_auth env caller

  abbrev get_treasury : Call ℕ
  get_treasury = do stored ← gets (λ s. s.treasury); ok_or stored not_initialized

  abbrev next_deposit_id : Env → (loan_id patron : ℕ) → Call ℕ
  next_deposit_id env loan_id patron = do
    n ← gets (λ s. s.deposit_count)
    raise_if (ltb u64_max (n + 1)) overflow
    modify (λ s. record s { deposit_count = n + 1 })
    pure (deposit_id (n + 1) env.timestamp loan_id patron)

  unfoldable pub initialize : Env → (admin treasury : ℕ) → Call (Unit {0})
  initialize env admin treasury = do
    stored ← gets (λ s. s.admin)
    raise_if (is_some stored) already_initialized
    require_auth env admin
    modify (λ s. record s { admin = some admin })
    modify (λ s. record s { treasury = some treasury })

  unfoldable pub lock_deposit : Env → (patron loan_id token : ℕ) → (amount : ℤ) → Call ℕ
  lock_deposit env patron loan_id token amount = do
    stored ← gets (λ s. s.admin)
    ok_or stored not_initialized
    raise_if (leb_ℤ amount (pos 0)) invalid_amount
    require_auth env patron
    token_transfer client token patron env.current_contract amount
    id ← next_deposit_id env loan_id patron
    modify (save_deposit id (new_deposit patron loan_id token amount))
    emit (dep_lock id loan_id patron amount)
    pure id

  unfoldable pub release_deposit : Env → (caller deposit_id : ℕ) → Call (Unit {0})
  release_deposit env caller id = do
    found ← gets (load_deposit id)
    deposit ← ok_or found not_found
    raise_if (not (is_locked deposit.status)) already_closed
    stored ← gets (λ s. s.admin)
    admin ← ok_or stored not_initialized
    raise_if (not (caller == admin) && not (caller == deposit.patron)) unauthorized
    require_auth env caller
    token_transfer client deposit.token env.current_contract deposit.patron deposit.remaining_amount
    modify (save_deposit id (record deposit { remaining_amount = pos 0; status = released }))
    emit (dep_rel id deposit.remaining_amount)

  unfoldable pub partial_charge :
      Env → (caller deposit_id : ℕ) → (charge_amount : ℤ) → Call (Unit {0})
  partial_charge env caller id charge_amount = do
    require_admin env caller
    raise_if (leb_ℤ charge_amount (pos 0)) invalid_amount
    found ← gets (load_deposit id)
    deposit ← ok_or found not_found
    raise_if (not (is_locked deposit.status)) already_closed
    raise_if (ltb_ℤ deposit.remaining_amount charge_amount) insufficient_balance
    treasury ← get_treasury
    token_transfer client deposit.token env.current_contract treasury charge_amount
    remaining ← ok_or (fit_i128 (deposit.remaining_amount -ℤ charge_amount)) overflow
    modify (save_deposit id (record deposit { remaining_amount = remaining }))
    emit (dep_chg id charge_amount)

  unfoldable pub full_charge : Env → (caller deposit_id : ℕ) → Call (Unit {0})
  full_charge env caller id = do
    require_admin env caller
    found ← gets (load_deposit id)
    deposit ← ok_or found not_found
    raise_if (not (is_locked deposit.status)) already_closed
    raise_if (leb_ℤ deposit.remaining_amount (pos 0)) invalid_amount
    treasury ← get_treasury
    token_transfer client deposit.token env.current_contract treasury deposit.remaining_amount
    modify (save_deposit id (record deposit { remaining_amount = pos 0; status = charged }))
    emit (dep_chg id deposit.remaining_amount)
