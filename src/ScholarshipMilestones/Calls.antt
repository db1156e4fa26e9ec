-- ===== src/ScholarshipMilestones/Calls.antt =====
-- contracts/scholarship-milestones/src/lib.rs: the entry points.
use chain_verse_onchain.Common.{
  ℕ, ◌+◌, true, false, not, some, List, ℤ, pos, ◌-ℤ◌, ltb, u32_max, fit_i128, is_some, ◌==◌, Env,
  Contract, gets, modify, emit, raise_if, ok_or, lift, require_auth, ◌>>=◌, ◌>>◌,
}
use chain_verse_onchain.ScholarshipMilestones.{
  ContractError, not_initialized, already_initialized, not_admin, schedule_not_found,
  schedule_already_exists, schedule_inactive, schedule_already_active, milestone_index_out_of_range,
  invalid_amount, milestone_not_verified, milestone_already_verified, milestone_already_released,
  schedule_locked_after_disbursement, version_overflow, MilestoneInput, Store, Event, msdef, msact,
  msamd, msvrf, msrel, put_schedule, load_schedule, get, set, build_milestones, some_released,
  check_earlier, add_released,
}

abbrev pub Call : Type 0 → Type 0
Call A = Contract (Unit {0}) Store Event ContractError A

unfoldable pub initialize : Env → (admin : ℕ) → Call (Unit {0})
initialize env admin = do
  stored ← gets (λ s. s.admin)
  raise_if (is_some stored) already_initialized
  require_auth env admin
  modify (λ s. record s { admin = some admin })

abbrev pub require_admin : Env → (caller : ℕ) → Call (Unit {0})
require_admin env caller = do
  stored ← gets (λ s. s.admin)
  admin ← ok_or stored not_initialized
  raise_if (not (caller == admin)) not_admin
  require_auth env caller

unfoldable pub define_schedule :
    Env
    → (admin award_id : ℕ) → (total_amount : ℤ) → (currency : ℕ) → List MilestoneInput
    → Call (Unit {0})
define_schedule env admin award_id total_amount currency inputs = do
  require_admin env admin
  stored ← gets (load_schedule award_id)
  raise_if (is_some stored) schedule_already_exists
  milestones ← lift (build_milestones total_amount inputs)
  modify (
      put_schedule (record {
        award_id = award_id;
        total_amount = total_amount;
        currency = currency;
        version = 1;
        active = false;
        created_at = env.timestamp;
        activated_at = 0;
        amended_at = 0;
        milestones = milestones;
      }))
  emit (msdef award_id)

unfoldable pub activate_schedule : Env → (admin award_id : ℕ) → Call (Unit {0})
activate_schedule env admin award_id = do
  require_admin env admin
  stored ← gets (load_schedule award_id)
  schedule ← ok_or stored schedule_not_found
  raise_if schedule.active schedule_already_active
  modify (put_schedule (record schedule { active = true; activated_at = env.timestamp }))
  emit (msact award_id)

unfoldable pub amend_schedule :
    Env
    → (admin award_id : ℕ) → (total_amount : ℤ) → (currency : ℕ) → List MilestoneInput
    → Call (Unit {0})
amend_schedule env admin award_id total_amount currency inputs = do
  require_admin env admin
  stored ← gets (load_schedule award_id)
  schedule ← ok_or stored schedule_not_found
  raise_if (not schedule.active) schedule_inactive
  raise_if (some_released schedule.milestones) schedule_locked_after_disbursement
  milestones ← lift (build_milestones total_amount inputs)
  raise_if (ltb u32_max (schedule.version + 1)) version_overflow
  modify (
      put_schedule (record schedule {
        total_amount = total_amount;
        currency = currency;
        milestones = milestones;
        version = schedule.version + 1;
        amended_at = env.timestamp;
      }))
  emit (msamd award_id)

unfoldable pub verify_milestone : Env → (admin award_id index : ℕ) → Call (Unit {0})
verify_milestone env admin award_id index = do
  require_admin env admin
  stored ← gets (load_schedule award_id)
  schedule ← ok_or stored schedule_not_found
  raise_if (not schedule.active) schedule_inactive
  milestone ← ok_or (get schedule.milestones index) milestone_index_out_of_range
  raise_if milestone.verified milestone_already_verified
  modify (
      put_schedule (record schedule {
        milestones = set schedule.milestones index (record milestone { verified = true });
      }))
  emit (msvrf award_id index)

unfoldable pub release_milestone : Env → (admin award_id index : ℕ) → Call (Unit {0})
release_milestone env admin award_id index = do
  require_admin env admin
  stored ← gets (load_schedule award_id)
  schedule ← ok_or stored schedule_not_found
  raise_if (not schedule.active) schedule_inactive
  milestone ← ok_or (get schedule.milestones index) milestone_index_out_of_range
  raise_if milestone.released milestone_already_released
  raise_if (not milestone.verified) milestone_not_verified
  lift (check_earlier index schedule.milestones)
  modify (
      put_schedule (record schedule {
        milestones = set schedule.milestones index (record milestone { released = true });
      }))
  emit (msrel award_id index)

unfoldable pub released_total : (award_id : ℕ) → Call ℤ
released_total award_id = do
  stored ← gets (load_schedule award_id)
  schedule ← ok_or stored schedule_not_found
  lift (add_released (pos 0) schedule.milestones)

unfoldable pub remaining_amount : (award_id : ℕ) → Call ℤ
remaining_amount award_id = do
  stored ← gets (load_schedule award_id)
  schedule ← ok_or stored schedule_not_found
  released ← released_total schedule.award_id
  ok_or (fit_i128 (schedule.total_amount -ℤ released)) invalid_amount
