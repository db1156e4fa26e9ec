-- ===== src/ScholarshipMilestones.antt =====
-- contracts/scholarship-milestones/src/lib.rs: an award that is split into milestones, which are verified and
-- released in order. Extensions of a time to live are left out.
pub mod Calls
pub mod Amounts
pub mod Schedules
pub mod Effects
pub mod Histories
pub mod Growth
pub mod Releases
mod Tests
use chain_verse_onchain.Common.{
  ℕ, zero, suc, ◌+◌, Bool, true, false, not, ◌&&◌, ◌||◌, Option, none, some, List, [], ◌∷◌, length,
  ℤ, pos, ◌+ℤ◌, ◌-ℤ◌, ◌*ℤ◌, div_ℤ, leb_ℤ, ltb, leb, u32_max, fit_i128, lookup, insert, nat_eq, ◌==◌,
  if◌then◌else◌, Result, ok, err,
}

abbrev pub max_milestones : ℕ
max_milestones = 16

abbrev pub bps_denom : ℕ
bps_denom = 10_000

pub data ContractError : Type 0 where
  not_initialized already_initialized not_admin schedule_not_found schedule_already_exists :
      ContractError
  invalid_milestone_count percentages_do_not_sum_to_100 dates_not_ordered invalid_amount :
      ContractError
  schedule_inactive schedule_already_active milestone_index_out_of_range : ContractError
  milestone_not_verified milestone_already_verified milestone_already_released : ContractError
  out_of_order_release schedule_locked_after_disbursement version_overflow : ContractError

pub data MilestoneKind : Type 0 where
  enrollment attendance coursework completion custom : MilestoneKind

pub record MilestoneInput : Type 0 where
  pub kind : MilestoneKind
  pub label_hash : ℕ
  pub percentage_bps : ℕ
  pub due_at : ℕ

pub record Milestone : Type 0 where
  pub index : ℕ
  pub kind : MilestoneKind
  pub label_hash : ℕ
  pub percentage_bps : ℕ
  pub amount : ℤ
  pub due_at : ℕ
  pub verified : Bool
  pub released : Bool

pub record MilestoneSchedule : Type 0 where
  pub award_id : ℕ
  pub total_amount : ℤ
  pub currency : ℕ
  pub version : ℕ
  pub active : Bool
  pub created_at : ℕ
  pub activated_at : ℕ
  pub amended_at : ℕ
  pub milestones : List Milestone

-- One field for each `DataKey`.
pub record Store : Type 0 where
  pub admin : Option ℕ
  pub schedules : List (ℕ × MilestoneSchedule)

pub data Event : Type 0 where
  msdef msact msamd : (award_id : ℕ) → Event
  msvrf msrel : (award_id index : ℕ) → Event

abbrev pub put_schedule : MilestoneSchedule → Store → Store
put_schedule schedule s = record s { schedules = insert schedule.award_id schedule s.schedules }

abbrev pub load_schedule : (award_id : ℕ) → Store → Option MilestoneSchedule
load_schedule award_id s = lookup award_id s.schedules

-- `Vec::get` and `Vec::set`.
abbrev pub get : List Milestone → ℕ → Option Milestone
get [] i = none
get (m ∷ l) zero = some m
get (m ∷ l) (suc i) = get l i

abbrev pub set : List Milestone → ℕ → Milestone → List Milestone
set [] i x = []
set (m ∷ l) zero x = x ∷ l
set (m ∷ l) (suc i) x = m ∷ set l i x

-- The first pass of `build_milestones`, from input `i` on.
unfoldable pub validate : (i bps_sum prev_due : ℕ) → List MilestoneInput → Result ContractError ℕ
validate i bps_sum prev_due [] = ok bps_sum
validate i bps_sum prev_due (x ∷ l) =
    let rest = validate (i + 1) (bps_sum + x.percentage_bps) x.due_at l in
    if ltb u32_max (bps_sum + x.percentage_bps)
    then err percentages_do_not_sum_to_100
    else (if ltb 0 i && leb x.due_at prev_due then err dates_not_ordered else rest)

-- The amount of a milestone that `rest` follows.
abbrev pub floored : Option ℤ → Option ℤ
floored none = none
floored (some x) = some (div_ℤ x (pos bps_denom))

unfoldable pub amount_of : (total_amount allocated : ℤ) → List MilestoneInput → (bps : ℕ) → Option ℤ
amount_of total_amount allocated [] bps = fit_i128 (total_amount -ℤ allocated)
amount_of total_amount allocated (y ∷ rest) bps = floored (fit_i128 (total_amount *ℤ pos bps))

abbrev pub new_milestone : (i : ℕ) → MilestoneInput → ℤ → Milestone
new_milestone i input amount = record {
  index = i;
  kind = input.kind;
  label_hash = input.label_hash;
  percentage_bps = input.percentage_bps;
  amount = amount;
  due_at = input.due_at;
  verified = false;
  released = false;
}

abbrev pub prepend :
    Milestone → Result ContractError (List Milestone) → Result ContractError (List Milestone)
prepend m (ok l) = ok (m ∷ l)
prepend m (err e) = err e

-- One milestone of the second pass, before the rest of it.
abbrev pub allot :
    Option ℤ
    → (ℤ → Option ℤ)
    → (i : ℕ) → MilestoneInput
    → (ℤ → Result ContractError (List Milestone))
    → Result ContractError (List Milestone)
allot none add i x go = err invalid_amount
allot (some amount) add i x go = elim (add amount) [
  | none ↦ err invalid_amount
  | some allocated ↦ prepend (new_milestone i x amount) (go allocated)
]

-- The second pass, from input `i` on.
unfoldable pub derive :
    (total_amount allocated : ℤ)
    → (i : ℕ) → List MilestoneInput
    → Result ContractError (List Milestone)
derive total_amount allocated i [] = ok []
derive total_amount allocated i (x ∷ l) =
    allot (amount_of total_amount allocated l x.percentage_bps)
      (λ amount. fit_i128 (allocated +ℤ amount)) i x
      (λ so_far. derive total_amount so_far (i + 1) l)

-- The end of `build_milestones`: the sum of the first pass, and the second pass.
abbrev pub reconciled :
    Result ContractError ℕ
    → Result ContractError (List Milestone)
    → Result ContractError (List Milestone)
reconciled (err e) milestones = err e
reconciled (ok bps_sum) milestones =
    if not (bps_sum == bps_denom) then err percentages_do_not_sum_to_100 else milestones

unfoldable pub build_milestones :
    (total_amount : ℤ) → List MilestoneInput → Result ContractError (List Milestone)
build_milestones total_amount inputs =
    if (length inputs == 0) || ltb max_milestones (length inputs)
    then err invalid_milestone_count
    else (if leb_ℤ total_amount (pos 0)
        then err invalid_amount
        else reconciled (validate 0 0 0 inputs) (derive total_amount (pos 0) 0 inputs))

-- Whether some milestone has been released.
abbrev pub some_released : List Milestone → Bool
some_released [] = false
some_released (m ∷ l) = m.released || some_released l

-- The loop of `release_milestone` over the milestones before `index`.
unfoldable pub check_earlier : (index : ℕ) → List Milestone → Result ContractError (Unit {0})
check_earlier zero l = ok tt
check_earlier (suc j) [] = err milestone_index_out_of_range
check_earlier (suc j) (m ∷ l) =
    let rest = check_earlier j l in if not m.released then err out_of_order_release else rest

-- The loop of `released_total`.
unfoldable pub add_released : (total : ℤ) → List Milestone → Result ContractError ℤ
add_released total [] = ok total
add_released total (m ∷ l) =
    if m.released
    then elim (fit_i128 (total +ℤ m.amount)) [
      | none ↦ err invalid_amount
      | some t ↦ add_released t l
    ]
    else add_released total l
