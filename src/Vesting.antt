-- ===== src/Vesting.antt =====
-- contracts/common/vesting.rs: rewards that vest linearly after a cliff. The keys of the persistent
-- storage are the fields of the store; the fields of the published events are their arguments.
pub mod Amounts
pub mod Claims
mod Tests
use chain_verse_onchain.Common.{
  ℕ, ◌+◌, ◌-◌, ◌*◌, ◌/◌, ◌^◌, Bool, true, false, not, Option, none, some, List, [], ◌∷◌, ℤ, pos,
  negsuc, leb_ℤ, ltb_ℤ, eq_ℤ, ltb, leb, u64_max, lookup, insert, nat_eq, or_default, ◌==◌,
  if◌then◌else◌, Env, Contract, TokenClient, done, pure, gets, modify, emit, raise_if, panic_if,
  ok_or, or_panic, require_auth, token_transfer, is_some, ◌>>=◌, ◌>>◌,
}

pub record VestingSchedule : Type 0 where
  pub beneficiary : ℕ
  pub amount : ℤ
  pub start_time : ℕ
  pub cliff : ℕ
  pub duration : ℕ
  pub claimed : Bool
  pub revoked : Bool
  pub revoke_time : ℕ

pub data VestingError : Type 0 where
  unauthorized not_vested already_claimed invalid_schedule insufficient_balance : VestingError
  grant_not_found grant_revoked invalid_timelock not_enough_time_for_revoke : VestingError

pub data Event : Type 0 where
  grant_event credential_issued :
      (grant_id beneficiary : ℕ) (amount : ℤ) (start_time cliff duration granted_at granted_by : ℕ)
      → Event
  claim_event vesting_claimed : (grant_id beneficiary : ℕ) (amount : ℤ) (claimed_at : ℕ) → Event
  revoke_event : (grant_id beneficiary revoked_at revoked_by : ℕ) → Event

pub record Store : Type 0 where
  pub initialized : Bool
  pub admin : Option ℕ
  pub token : Option ℕ
  pub governance : Option ℕ
  pub counter : Option ℕ
  pub schedules : List (ℕ × VestingSchedule)

-- `n as u128` of an `i128`, and `n as i128` of a `u128`.
abbrev as_u128 : ℤ → ℕ
as_u128 (pos n) = n
as_u128 (negsuc n) = 2 ^ 128 - n - 1

abbrev as_i128 : ℕ → ℤ
as_i128 n = if ltb n (2 ^ 127) then pos n else negsuc (2 ^ 128 - n - 1)

-- Linear vesting after the cliff, for a time from the cliff on and before the end; `none` is an
-- overflow.
unfoldable pub vested_part : VestingSchedule → (current_time : ℕ) → Option ℤ
vested_part s now =
    if s.duration - s.cliff == 0
    then some s.amount
    else if ltb (2 ^ 128 - 1) (as_u128 s.amount * (now - (s.start_time + s.cliff)))
    then none
    else some
        (as_i128 (as_u128 s.amount * (now - (s.start_time + s.cliff)) / (s.duration - s.cliff)))

-- It returns no error; `none` is an overflow.
unfoldable pub calculate_vested_amount : VestingSchedule → (current_time : ℕ) → Option ℤ
unfolding vested_part
calculate_vested_amount s now =
    if ltb now s.start_time
    then some (pos 0)
    else if ltb u64_max (s.start_time + s.cliff)
    then none
    else if ltb now (s.start_time + s.cliff)
    then some (pos 0)
    else if ltb u64_max (s.start_time + s.duration)
    then none
    else if leb (s.start_time + s.duration) now
    then some s.amount
    else vested_part s now

module _ (client : TokenClient) where
  abbrev pub Call : Type 0 → Type 0
  Call A = Contract client.World Store Event VestingError A

  unfoldable pub init : (admin reward_token governance : ℕ) → Call (Unit {0})
  init admin reward_token governance = do
    initialized ← gets (λ s. s.initialized)
    raise_if initialized unauthorized
    modify (λ s. record s {
      initialized = true;
      admin = some admin;
      token = some reward_token;
      governance = some governance;
      counter = some 0;
    })

  abbrev require_admin : Env → (admin : ℕ) → Call (Unit {0})
  require_admin env admin = do
    require_auth env admin
    stored ← gets (λ s. s.admin)
    current ← ok_or stored unauthorized
    raise_if (not (admin == current)) unauthorized

  unfoldable pub grant_vesting :
      Env → (admin beneficiary : ℕ) → (amount : ℤ) → (start_time cliff duration : ℕ) → Call ℕ
  grant_vesting env admin beneficiary amount start_time cliff duration = do
    require_admin env admin
    raise_if (leb_ℤ amount (pos 0)) invalid_schedule
    raise_if (ltb duration cliff) invalid_schedule
    grant_id ← gets (λ s. or_default 0 s.counter)
    panic_if (ltb u64_max (grant_id + 1))
    modify (λ s. record s {
      schedules =
          insert (grant_id + 1)
            (record {
              beneficiary = beneficiary;
              amount = amount;
              start_time = start_time;
              cliff = cliff;
              duration = duration;
              claimed = false;
              revoked = false;
              revoke_time = 0;
            })
            s.schedules;
    })
    modify (λ s. record s { counter = some (grant_id + 1) })
    emit (
        Event.grant_event (grant_id + 1) beneficiary amount start_time cliff duration env.timestamp
          admin)
    emit (
        Event.credential_issued (grant_id + 1) beneficiary amount start_time cliff duration
          env.timestamp admin)
    pure (grant_id + 1)

  unfoldable pub claim : Env → (grant_id beneficiary : ℕ) → Call ℤ
  claim env grant_id beneficiary = do
    require_auth env beneficiary
    found ← gets (λ s. lookup grant_id s.schedules)
    schedule ← ok_or found grant_not_found
    raise_if (not (schedule.beneficiary == beneficiary)) unauthorized
    raise_if schedule.claimed already_claimed
    raise_if schedule.revoked grant_revoked
    vested_amount ← or_panic (calculate_vested_amount schedule env.timestamp)
    raise_if (eq_ℤ vested_amount (pos 0)) not_vested
    stored ← gets (λ s. s.token)
    token ← ok_or stored unauthorized
    short ←
        (λ c. done (ltb_ℤ (client.balance c.tokens token env.current_contract) vested_amount, c))
    raise_if short insufficient_balance
    modify (λ s. record s {
      schedules = insert grant_id (record schedule { claimed = true }) s.schedules;
    })
    token_transfer client token env.current_contract beneficiary vested_amount
    emit (Event.claim_event grant_id beneficiary vested_amount env.timestamp)
    emit (Event.vesting_claimed grant_id beneficiary vested_amount env.timestamp)
    pure vested_amount

  unfoldable pub revoke : Env → (grant_id admin revoke_delay : ℕ) → Call (Unit {0})
  revoke env grant_id admin revoke_delay = do
    require_admin env admin
    found ← gets (λ s. lookup grant_id s.schedules)
    schedule ← ok_or found grant_not_found
    raise_if schedule.claimed already_claimed
    raise_if schedule.revoked grant_revoked
    raise_if (ltb revoke_delay 3600) invalid_timelock
    panic_if (ltb u64_max (schedule.start_time + revoke_delay))
    raise_if (ltb env.timestamp (schedule.start_time + revoke_delay)) not_enough_time_for_revoke
    modify (λ s. record s {
      schedules =
          insert grant_id (record schedule { revoked = true; revoke_time = env.timestamp })
            s.schedules;
    })
    emit (Event.revoke_event grant_id schedule.beneficiary env.timestamp admin)
