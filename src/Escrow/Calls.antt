-- ===== src/Escrow/Calls.antt =====
-- contracts/escrow/src: the entry points of lib.rs, each with the body that it delegates to
-- (create.rs, fund.rs, release.rs, dispute.rs, resolve.rs, refund.rs, escrow_state.rs).
use chain_verse_onchain.Common.{
  ℕ, Bool, false, not, Option, none, some, ℤ, pos, ◌+ℤ◌, ◌-ℤ◌, ltb_ℤ, leb_ℤ, eq_ℤ, ltb, leb, ◌||◌,
  fit_i128, ◌==◌, if◌then◌else◌, Env, TokenClient, Result, ok, err, pure, gets, modify, emit,
  raise_if, when, or_panic, ok_or, lift, require_auth, token_transfer, ◌>>=◌, ◌>>◌,
}
use chain_verse_onchain.Escrow.Types.{
  EscrowStatus, created, funded, completed, cancelled, disputed, status_eq, Escrow, EscrowError,
  not_found, expired, unauthorized, token_not_allowed, not_expired, already_released,
  invalid_amount, invalid_recipient, invalid_expiration, already_disputed, no_fees_available,
  invalid_escrow_state, no_arbiter_configured, not_disputed, invalid_allocation, Event,
}
use chain_verse_onchain.Escrow.Storage
use chain_verse_onchain.Escrow.Storage.{
  Action, get_admin, get_arbiter, load_escrow, save_escrow, is_token_whitelisted,
  append_to_token_index, append_to_buyer_index, append_to_seller_index, get_protocol_fee,
  get_protocol_fee_bps, append_fee_record, require_admin, require_admin_addr, next_escrow_id,
  add_to_total_volume, accumulate_protocol_fee, decrement_protocol_fee,
}
use chain_verse_onchain.Escrow.Fees.{compute_fee_and_payout}

-- escrow_state.rs: whether the table of transitions lists `to` beside `from`.
abbrev pub transition_allowed : EscrowStatus → EscrowStatus → Bool
transition_allowed created to = status_eq to funded || status_eq to cancelled
transition_allowed funded to =
    status_eq to completed || status_eq to cancelled || status_eq to disputed
transition_allowed disputed to = status_eq to completed || status_eq to cancelled
transition_allowed _ to = false

abbrev pub assert_transition_allowed : EscrowStatus → EscrowStatus → Result EscrowError (Unit {0})
assert_transition_allowed from to =
    if transition_allowed from to then ok tt else err invalid_escrow_state

-- `o == Some(a)`
abbrev is_some_of : ℕ → Option ℕ → Bool
is_some_of a none = false
is_some_of a (some b) = b == a

module _ (client : TokenClient) where
  abbrev pub Call : Type 0 → Type 0
  Call A = Action client.World A

  unfoldable pub create_escrow :
      Env → (buyer seller token : ℕ) → (amount : ℤ) → (expiration : ℕ) → Call ℕ
  create_escrow env buyer seller token amount expiration = do
    raise_if (leb_ℤ amount (pos 0)) invalid_amount
    raise_if (leb expiration env.timestamp) invalid_expiration
    raise_if (buyer == seller) invalid_recipient
    require_auth env buyer
    listed ← gets (is_token_whitelisted token)
    raise_if (not listed) token_not_allowed
    escrow_id ← next_escrow_id
    modify (
        save_escrow escrow_id (record {
          buyer = buyer;
          seller = seller;
          token = token;
          amount = amount;
          original_amount = amount;
          status = created;
          expiration = expiration;
        }))
    modify (append_to_token_index token escrow_id)
    modify (append_to_buyer_index buyer escrow_id)
    modify (append_to_seller_index seller escrow_id)
    emit (Event.escrow_created escrow_id buyer seller token amount)
    pure escrow_id

  unfoldable pub fund_escrow : Env → (caller escrow_id : ℕ) → Call (Unit {0})
  fund_escrow env caller escrow_id = do
    require_auth env caller
    found ← gets (load_escrow escrow_id)
    escrow ← ok_or found not_found
    raise_if (not (caller == escrow.buyer)) unauthorized
    raise_if (not (status_eq escrow.status created)) invalid_escrow_state
    raise_if (leb escrow.expiration env.timestamp) expired
    token_transfer client escrow.token escrow.buyer env.current_contract escrow.amount
    modify (save_escrow escrow_id (record escrow { status = funded }))
    add_to_total_volume escrow.amount
    emit (Event.escrow_funded escrow_id caller escrow.token escrow.amount funded)

  unfoldable pub authorize_releaser : Env → (caller buyer : ℕ) → Call (Unit {0})
  authorize_releaser env caller buyer = do
    require_auth env caller
    admin ← gets get_admin
    raise_if (not (caller == buyer || is_some_of caller admin)) unauthorized

  -- `accumulate_protocol_fee`, `append_fee_record` and `fee_collected`, as both releases make them.
  unfoldable pub collect_fee : Env → (escrow_id token : ℕ) → (fee : ℤ) → Call (Unit {0})
  collect_fee env escrow_id token fee = do
    accumulate_protocol_fee token fee
    modify (
        append_fee_record (record {
          escrow_id = escrow_id;
          token = token;
          amount = fee;
          timestamp = env.timestamp;
        }))
    emit (Event.fee_collected escrow_id token fee)

  unfoldable pub release_escrow : Env → (caller escrow_id : ℕ) → Call (Unit {0})
  unfolding authorize_releaser collect_fee
  release_escrow env caller escrow_id = do
    found ← gets (load_escrow escrow_id)
    escrow ← ok_or found not_found
    authorize_releaser env caller escrow.buyer
    raise_if (leb escrow.expiration env.timestamp) expired
    raise_if (status_eq escrow.status completed) already_released
    raise_if (not (status_eq escrow.status funded)) invalid_escrow_state
    fee_bps ← gets get_protocol_fee_bps
    (fee_amount, seller_amount) ← lift (compute_fee_and_payout escrow.amount fee_bps)
    token_transfer client escrow.token env.current_contract escrow.seller seller_amount
    collect_fee env escrow_id escrow.token fee_amount
    modify (save_escrow escrow_id (record escrow { status = completed; amount = pos 0 }))
    emit (Event.escrow_released escrow_id escrow.seller seller_amount)

  -- `escrow.amount -= release_amount`, and `Completed` when nothing is left.
  abbrev pub after_partial : Escrow → ℤ → Escrow
  after_partial e rest = record e {
    amount = rest;
    status = if eq_ℤ rest (pos 0) then completed else e.status;
  }

  unfoldable pub partial_release :
      Env → (caller escrow_id : ℕ) → (release_amount : ℤ) → Call (Unit {0})
  unfolding authorize_releaser collect_fee
  partial_release env caller escrow_id release_amount = do
    raise_if (leb_ℤ release_amount (pos 0)) invalid_amount
    found ← gets (load_escrow escrow_id)
    escrow ← ok_or found not_found
    raise_if (status_eq escrow.status completed) already_released
    raise_if (not (status_eq escrow.status funded)) invalid_escrow_state
    authorize_releaser env caller escrow.buyer
    raise_if (leb escrow.expiration env.timestamp) expired
    raise_if (ltb_ℤ escrow.amount release_amount) invalid_amount
    fee_bps ← gets get_protocol_fee_bps
    (fee_amount, seller_amount) ← lift (compute_fee_and_payout release_amount fee_bps)
    token_transfer client escrow.token env.current_contract escrow.seller seller_amount
    collect_fee env escrow_id escrow.token fee_amount
    rest ← or_panic (fit_i128 (escrow.amount -ℤ release_amount))
    modify (save_escrow escrow_id (after_partial escrow rest))
    emit (Event.escrow_released escrow_id escrow.seller seller_amount)
    emit (
        Event.partial_released escrow_id caller escrow.token release_amount
          (after_partial escrow rest).status)

  unfoldable pub dispute : Env → (caller escrow_id : ℕ) → Call (Unit {0})
  dispute env caller escrow_id = do
    require_auth env caller
    found ← gets (load_escrow escrow_id)
    escrow ← ok_or found not_found
    raise_if (not (caller == escrow.buyer)) unauthorized
    raise_if (status_eq escrow.status disputed) already_disputed
    raise_if (not (status_eq escrow.status funded)) invalid_escrow_state
    lift (assert_transition_allowed escrow.status disputed)
    modify (save_escrow escrow_id (record escrow { status = disputed }))
    emit (Event.dispute_opened escrow_id caller escrow.token escrow.amount disputed)

  -- `if amount > 0 { token_client.transfer(…) }`
  unfoldable pub pay_positive : Env → (token to : ℕ) → (amount : ℤ) → Call (Unit {0})
  pay_positive env token to amount =
      when (ltb_ℤ (pos 0) amount) (token_transfer client token env.current_contract to amount)

  unfoldable pub resolve_dispute :
      Env
      → (arbiter escrow_id : ℕ) → (buyer_amount seller_amount fee_amount : ℤ) → (reason_hash : ℕ)
      → Call (Unit {0})
  resolve_dispute env arbiter escrow_id buyer_amount seller_amount fee_amount reason_hash = do
    stored ← gets get_arbiter
    configured ← ok_or stored no_arbiter_configured
    raise_if (not (configured == arbiter)) unauthorized
    require_auth env arbiter
    found ← gets (load_escrow escrow_id)
    escrow ← ok_or found not_found
    raise_if (not (status_eq escrow.status disputed)) not_disputed
    lift (assert_transition_allowed escrow.status completed)
    raise_if (ltb_ℤ buyer_amount (pos 0) || ltb_ℤ seller_amount (pos 0) || ltb_ℤ fee_amount (pos 0))
        invalid_allocation
    part ← ok_or (fit_i128 (buyer_amount +ℤ seller_amount)) invalid_allocation
    total ← ok_or (fit_i128 (part +ℤ fee_amount)) invalid_allocation
    raise_if (ltb_ℤ escrow.amount total) invalid_allocation
    pay_positive env escrow.token escrow.buyer buyer_amount
    pay_positive env escrow.token escrow.seller seller_amount
    when (ltb_ℤ (pos 0) fee_amount) (accumulate_protocol_fee escrow.token fee_amount)
    modify (save_escrow escrow_id (record escrow { status = completed; amount = pos 0 }))
    emit (Event.escrow_resolved escrow_id arbiter buyer_amount seller_amount fee_amount reason_hash)

  unfoldable pub refund_escrow : Env → (caller escrow_id : ℕ) → Call (Unit {0})
  refund_escrow env caller escrow_id = do
    require_auth env caller
    found ← gets (load_escrow escrow_id)
    escrow ← ok_or found not_found
    raise_if (not (caller == escrow.buyer)) unauthorized
    raise_if (not (status_eq escrow.status funded)) invalid_escrow_state
    raise_if (ltb env.timestamp escrow.expiration) not_expired
    token_transfer client escrow.token env.current_contract escrow.buyer escrow.amount
    lift (assert_transition_allowed escrow.status cancelled)
    modify (save_escrow escrow_id (record escrow { status = cancelled; amount = pos 0 }))
    emit (Event.escrow_refunded escrow_id escrow.buyer escrow.amount)

  unfoldable pub withdraw_fees : Env → (caller token recipient : ℕ) → (amount : ℤ) → Call (Unit {0})
  withdraw_fees env caller token recipient amount = do
    require_admin_addr env caller
    raise_if (leb_ℤ amount (pos 0)) invalid_amount
    accrued ← gets (get_protocol_fee token)
    raise_if (ltb_ℤ accrued amount) no_fees_available
    token_transfer client token env.current_contract recipient amount
    decrement_protocol_fee token amount
    emit (Event.fee_withdrawn recipient token amount)

  unfoldable pub set_admin : Env → ℕ → Call (Unit {0})
  set_admin env admin = do
    old_admin ← gets get_admin
    elim old_admin [ none ↦ require_auth env admin | some current ↦ require_auth env current ]
    modify (Storage.set_admin admin)
    emit (Event.admin_changed old_admin admin)

  unfoldable pub whitelist_token : Env → (admin token : ℕ) → Call (Unit {0})
  whitelist_token env admin token = do
    require_admin_addr env admin
    modify (Storage.whitelist_token token)

  unfoldable pub set_arbiter : Env → (admin arbiter : ℕ) → Call (Unit {0})
  set_arbiter env admin arbiter = do
    require_admin_addr env admin
    modify (Storage.set_arbiter arbiter)

  unfoldable pub set_protocol_fee_bps : Env → (admin bps : ℕ) → Call (Unit {0})
  set_protocol_fee_bps env admin bps = do
    require_admin_addr env admin
    raise_if (ltb 5_000 bps) unauthorized
    modify (Storage.set_protocol_fee_bps bps)

  unfoldable pub upgrade : Env → (new_wasm_hash : ℕ) → Call (Unit {0})
  upgrade env new_wasm_hash = do
    require_admin env
    modify (λ s. record s { wasm_hash = new_wasm_hash })
    emit (Event.upgraded new_wasm_hash)
