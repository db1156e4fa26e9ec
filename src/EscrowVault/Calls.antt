-- ===== src/EscrowVault/Calls.antt =====
-- contracts/escrow-vault/src/lib.rs: the entry points.
use chain_verse_onchain.Common.{
  ℕ, ◌+◌, ◌-◌, not, ◌||◌, some, List, ℤ, pos, leb_ℤ, leb, ltb, u32_max, u64_max, length, is_some,
  ◌==◌, if◌then◌else◌, Env, Contract, TokenClient, pure, gets, modify, emit, raise_if, panic_if,
  when, ok_or, require_auth, token_transfer, ◌>>=◌, ◌>>◌,
}
use chain_verse_onchain.EscrowVault.{
  VaultError, not_found, not_pending, unauthorized, already_voted, empty_approvers,
  duplicate_approver, invalid_amount, already_initialized, not_initialized, conflict_of_interest,
  not_voted, invalid_threshold, threshold_exceeds_approvers, pending, released, cancelled,
  is_pending, Vault, Store, Event, upgraded, vault_new, emrg_cncl, contains, has_duplicate,
  deduplicate, load_vault, save_vault, has_voted, set_vote, remove_vote,
}

-- The vault that a creation stores.
abbrev pub new_vault :
    (depositor recipient token : ℕ) (amount : ℤ) (approvers : List ℕ) (threshold : ℕ) → Vault
new_vault depositor recipient token amount approvers threshold = record {
  depositor = depositor;
  recipient = recipient;
  token = token;
  amount = amount;
  approvers = deduplicate approvers;
  approvals = 0;
  threshold = threshold;
  status = pending;
}

-- The vault with one approval more, released at the threshold, and with one less.
abbrev pub approved : Vault → Vault
approved v = record v {
  approvals = v.approvals + 1;
  status = if leb v.threshold (v.approvals + 1) then released else v.status;
}

abbrev pub revoked : Vault → Vault
revoked v = record v { approvals = v.approvals - 1 }

module _ (client : TokenClient) (vault_id : (nonce timestamp depositor : ℕ) → ℕ) where
  abbrev pub Call : Type 0 → Type 0
  Call A = Contract client.World Store Event VaultError A

  unfoldable pub set_admin : Env → (admin : ℕ) → Call (Unit {0})
  set_admin env admin = do
    stored ← gets (λ s. s.admin)
    raise_if (is_some stored) already_initialized
    require_auth env admin
    modify (λ s. record s { admin = some admin })

  abbrev require_admin : Env → Call (Unit {0})
  require_admin env = do
    stored ← gets (λ s. s.admin)
    admin ← ok_or stored not_initialized
    require_auth env admin

  unfoldable pub upgrade : Env → (new_wasm_hash : ℕ) → Call (Unit {0})
  upgrade env new_wasm_hash = do
    require_admin env
    modify (λ s. record s { wasm_hash = new_wasm_hash })
    emit (upgraded new_wasm_hash)

  abbrev next_vault_nonce : Call ℕ
  next_vault_nonce = do
    nonce ← gets (λ s. s.vault_count)
    panic_if (ltb u64_max (nonce + 1))
    modify (λ s. record s { vault_count = nonce + 1 })
    pure (nonce + 1)

  unfoldable pub create_vault :
      Env
      → (depositor recipient token : ℕ) → (amount : ℤ) → (approvers : List ℕ) → (threshold : ℕ)
      → Call ℕ
  create_vault env depositor recipient token amount approvers threshold = do
    raise_if (length approvers == 0) empty_approvers
    raise_if (has_duplicate approvers) duplicate_approver
    raise_if (contains depositor approvers || contains recipient approvers) conflict_of_interest
    raise_if (leb_ℤ amount (pos 0)) invalid_amount
    raise_if (threshold == 0) invalid_threshold
    raise_if (ltb (length (deduplicate approvers)) threshold) threshold_exceeds_approvers
    require_auth env depositor
    token_transfer client token depositor env.current_contract amount
    nonce ← next_vault_nonce
    modify (
        save_vault (vault_id nonce env.timestamp depositor)
          (new_vault depositor recipient token amount approvers threshold))
    emit (vault_new (vault_id nonce env.timestamp depositor) depositor amount)
    pure (vault_id nonce env.timestamp depositor)

  unfoldable pub approve_vault : Env → (id caller : ℕ) → Call (Unit {0})
  approve_vault env id caller = do
    require_auth env caller
    found ← gets (load_vault id)
    vault ← ok_or found not_found
    raise_if (not (is_pending vault.status)) not_pending
    raise_if ((caller == vault.depositor) || (caller == vault.recipient)) conflict_of_interest
    raise_if (not (contains caller vault.approvers)) unauthorized
    voted ← gets (has_voted id caller)
    raise_if voted already_voted
    modify (set_vote id caller)
    panic_if (ltb u32_max (vault.approvals + 1))
    when (leb vault.threshold (vault.approvals + 1))
        (token_transfer client vault.token env.current_contract vault.recipient vault.amount)
    modify (save_vault id (approved vault))

  unfoldable pub revoke_approval : Env → (id caller : ℕ) → Call (Unit {0})
  revoke_approval env id caller = do
    require_auth env caller
    found ← gets (load_vault id)
    vault ← ok_or found not_found
    raise_if (not (is_pending vault.status)) not_pending
    voted ← gets (has_voted id caller)
    raise_if (not voted) not_voted
    modify (remove_vote id caller)
    modify (save_vault id (revoked vault))

  unfoldable pub emergency_cancel : Env → (vault_id reason : ℕ) → Call (Unit {0})
  emergency_cancel env id reason = do
    require_admin env
    found ← gets (load_vault id)
    vault ← ok_or found not_found
    raise_if (not (is_pending vault.status)) not_pending
    modify (save_vault id (record vault { status = cancelled }))
    token_transfer client vault.token env.current_contract vault.depositor vault.amount
    emit (emrg_cncl id reason)
