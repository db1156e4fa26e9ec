-- ===== src/Escrow/Types.antt =====
-- contracts/escrow/src/types.rs, errors.rs, events.rs and the keys of storage.rs.
use chain_verse_onchain.Common.{ℕ, Bool, true, false, Option, List, ℤ}

pub data EscrowStatus : Type 0 where
  created funded completed cancelled disputed : EscrowStatus

-- The derived `==`.
abbrev pub status_eq : EscrowStatus → EscrowStatus → Bool
status_eq created created = true
status_eq funded funded = true
status_eq completed completed = true
status_eq cancelled cancelled = true
status_eq disputed disputed = true
status_eq _ _ = false

pub record Escrow : Type 0 where
  pub buyer : ℕ
  pub seller : ℕ
  pub token : ℕ
  pub amount : ℤ
  pub original_amount : ℤ
  pub status : EscrowStatus
  pub expiration : ℕ

pub record FeeRecord : Type 0 where
  pub escrow_id : ℕ
  pub token : ℕ
  pub amount : ℤ
  pub timestamp : ℕ

pub data EscrowError : Type 0 where
  not_found not_pending expired unauthorized token_not_allowed : EscrowError
  not_expired already_released invalid_amount invalid_recipient : EscrowError
  invalid_expiration already_disputed dispute_resolution_not_implemented : EscrowError
  no_fees_available contract_paused invalid_escrow_state no_arbiter_configured : EscrowError
  not_disputed invalid_allocation : EscrowError

-- What `env.events().publish` is given, one constructor for each function of events.rs; the last two
-- are published by lib.rs.
pub data Event : Type 0 where
  escrow_created : (escrow_id buyer seller token : ℕ) (amount : ℤ) → Event
  escrow_released : (escrow_id seller : ℕ) (amount : ℤ) → Event
  escrow_funded : (escrow_id actor token : ℕ) (amount : ℤ) (result : EscrowStatus) → Event
  dispute_opened : (escrow_id actor token : ℕ) (amount : ℤ) (result : EscrowStatus) → Event
  partial_released : (escrow_id actor token : ℕ) (amount : ℤ) (result : EscrowStatus) → Event
  escrow_resolved :
      (escrow_id arbiter : ℕ) (buyer_amount seller_amount fee_amount : ℤ) (reason_hash : ℕ) → Event
  escrow_refunded : (escrow_id buyer : ℕ) (amount : ℤ) → Event
  fee_collected : (escrow_id token : ℕ) (amount : ℤ) → Event
  fee_withdrawn : (recipient token : ℕ) (amount : ℤ) → Event
  admin_changed : (old : Option ℕ) (new : ℕ) → Event
  upgraded : (new_wasm_hash : ℕ) → Event

-- The contract's storage, one field for each `DataKey`. A key that reads as a default while it is
-- unset is held at that default.
pub record Store : Type 0 where
  pub admin : Option ℕ
  pub arbiter : Option ℕ
  pub escrows : List (ℕ × Escrow)
  pub escrow_count : ℕ
  pub total_volume : ℤ
  pub whitelisted_tokens : List (ℕ × Bool)
  pub protocol_fees : List (ℕ × ℤ)
  pub token_index : List (ℕ × List ℕ)
  pub buyer_index : List (ℕ × List ℕ)
  pub seller_index : List (ℕ × List ℕ)
  pub fee_history : List FeeRecord
  pub fee_bps : Option ℕ
  pub paused : Bool
  pub wasm_hash : ℕ
