-- ===== src/ScholarshipMilestones/Tests.antt =====
-- The milestone contract run on a concrete award, and its theorems at those states.
use chain_verse_onchain.Common.{
  ℕ, ◌<◌, ◌≡◌, refl, arith, true, false, none, some, List, [], ◌∷◌, pos, ◌+ℤ◌, ◌-ℤ◌, ◌*ℤ◌, div_ℤ,
  ◌≤ℤ◌, fit_i128, Env, Outcome, done, fail, trap, ok,
}
use chain_verse_onchain.ScholarshipMilestones.{
  ContractError, milestone_not_verified, schedule_locked_after_disbursement, dates_not_ordered,
  MilestoneInput, Milestone, MilestoneSchedule, enrollment, coursework, completion, get,
  load_schedule, validate, amount_of, derive, build_milestones, check_earlier, add_released,
  new_milestone,
}
use chain_verse_onchain.ScholarshipMilestones.Calls
use chain_verse_onchain.ScholarshipMilestones.Amounts.{Reconciles, build_milestones-Reconciles}
use chain_verse_onchain.ScholarshipMilestones.Schedules.{released_sum}
use chain_verse_onchain.ScholarshipMilestones.Effects.{State}
use chain_verse_onchain.ScholarshipMilestones.Releases.{release_milestone_adds}
use chain_verse_onchain.ScholarshipMilestones.Growth.{Reach-released_sum}
use chain_verse_onchain.ScholarshipMilestones.Histories.{
  Request, apply, IsReconciled, Step, Reach, Reach-IsReconciled, remaining_amount-released_total,
}

-- Everybody signs; the administrator is 1.
abbrev env : Env
env = record { timestamp = 100; sequence = 7; current_contract = 0; authorized = λ a. true }

abbrev deployed : State
deployed = record { tokens = tt; store = record { admin = none; schedules = [] }; events = [] }

abbrev first : MilestoneInput
first = record { kind = enrollment; label_hash = 11; percentage_bps = 3333; due_at = 50 }

abbrev second : MilestoneInput
second = record { kind = coursework; label_hash = 12; percentage_bps = 3333; due_at = 500 }

abbrev third : MilestoneInput
third = record { kind = completion; label_hash = 13; percentage_bps = 3334; due_at = 900 }

abbrev inputs : List MilestoneInput
inputs = first ∷ second ∷ third ∷ []

abbrev result : State → Outcome ContractError (Unit {0} × State) → State
result c (done (_, d)) = d
result c (fail e) = c
result c trap = c

after : Request → State → State
unfolding apply Calls.initialize Calls.define_schedule Calls.activate_schedule Calls.amend_schedule
    Calls.verify_milestone Calls.release_milestone build_milestones validate derive amount_of
    check_earlier fit_i128 ◌+ℤ◌ ◌-ℤ◌ ◌*ℤ◌ div_ℤ
after r c = result c (apply env r c)

opened : State
unfolding after
opened = after (Request.initialize 1) deployed

defined : State
unfolding opened
defined = after (Request.define_schedule 1 9 (pos 1000) 5 inputs) opened

active : State
unfolding defined
active = after (Request.activate_schedule 1 9) defined

verified : State
unfolding active
verified = after (Request.verify_milestone 1 9 0) active

released : State
unfolding verified
released = after (Request.release_milestone 1 9 0) verified

abbrev milestones : List Milestone
milestones =
    new_milestone 0 first (pos 333)
    ∷ new_milestone 1 second (pos 333)
    ∷ new_milestone 2 third (pos 334)
    ∷ []

abbrev schedule : MilestoneSchedule
schedule = record {
  award_id = 9;
  total_amount = pos 1000;
  currency = 5;
  version = 1;
  active = true;
  created_at = 100;
  activated_at = 100;
  amended_at = 0;
  milestones =
      record (new_milestone 0 first (pos 333)) { verified = true }
      ∷ new_milestone 1 second (pos 333)
      ∷ new_milestone 2 third (pos 334)
      ∷ [];
}

books :
    (build_milestones (pos 1000) inputs ≡ ok milestones)
    × (load_schedule 9 verified.store ≡ some schedule)
    × (Calls.released_total 9 released ≡ done (pos 333, released))
    × (Calls.remaining_amount 9 released ≡ done (pos 667, released))
    × (apply env (Request.release_milestone 1 9 1) released ≡ fail milestone_not_verified)
    × (apply env (Request.amend_schedule 1 9 (pos 500) 5 inputs) released
        ≡ fail schedule_locked_after_disbursement)
    × (apply env (Request.define_schedule 1 8 (pos 500) 5 (second ∷ first ∷ third ∷ [])) released
        ≡ fail dates_not_ordered)
unfolding released Calls.released_total Calls.remaining_amount add_released
books = (refl, refl, refl, refl, refl, refl, refl)

build_milestones-Reconciles_example : Reconciles (pos 1000) inputs milestones
build_milestones-Reconciles_example =
    let (h, _, _, _, _, _, _) = books in build_milestones-Reconciles (pos 1000) inputs milestones h

deployed-IsReconciled : IsReconciled deployed.store
deployed-IsReconciled w m h = absurd (ground arith)

history : Reach deployed verified
unfolding verified apply
history =
    Reach.next
      (Reach.next
        (Reach.next
          (Reach.next Reach.here (Step.request env (Request.initialize 1) deployed opened refl))
          (Step.request env (Request.define_schedule 1 9 (pos 1000) 5 inputs) opened defined refl))
        (Step.request env (Request.activate_schedule 1 9) defined active refl))
      (Step.request env (Request.verify_milestone 1 9 0) active verified refl)

Reach-IsReconciled_example : IsReconciled verified.store
Reach-IsReconciled_example = Reach-IsReconciled deployed-IsReconciled history

remaining_amount-released_total_example :
    (pos 0 ≤ℤ released_sum schedule.milestones)
    × (released_sum schedule.milestones ≤ℤ pos 1000)
    × (Calls.released_total 9 verified ≡ done (released_sum schedule.milestones, verified))
    × (Calls.remaining_amount 9 verified
        ≡ done (pos 1000 -ℤ released_sum schedule.milestones, verified))
unfolding verified
remaining_amount-released_total_example =
    remaining_amount-released_total 9 schedule verified
      (Reach-IsReconciled deployed-IsReconciled history) refl

step : Reach verified released
unfolding released apply
step =
    Reach.next Reach.here
      (Step.request env (Request.release_milestone 1 9 0) verified released refl)

Reach-released_sum_example :
    (n : MilestoneSchedule) × (load_schedule 9 released.store ≡ some n)
    × (released_sum schedule.milestones ≤ℤ released_sum n.milestones)
unfolding verified
Reach-released_sum_example =
    Reach-released_sum 9 schedule (Reach-IsReconciled deployed-IsReconciled history) step refl

-- The second milestone, which is due at time 500, is verified and released at time 100.
ready : State
unfolding released
ready = after (Request.verify_milestone 1 9 1) released

released_two : State
unfolding ready
released_two = after (Request.release_milestone 1 9 1) ready

abbrev schedule_ready : MilestoneSchedule
schedule_ready = record schedule {
  milestones =
      record (new_milestone 0 first (pos 333)) { verified = true; released = true }
      ∷ record (new_milestone 1 second (pos 333)) { verified = true }
      ∷ new_milestone 2 third (pos 334)
      ∷ [];
}

history_ready : Reach deployed ready
unfolding ready apply
history_ready =
    Reach.next
      (Reach.next history
        (Step.request env (Request.release_milestone 1 9 0) verified released refl))
      (Step.request env (Request.verify_milestone 1 9 1) released ready refl)

release_milestone_adds_example :
    (env.authorized 1 ≡ true)
    × (ready.store.admin ≡ some 1)
    × (schedule_ready.active ≡ true)
    × (x : Milestone) × (get schedule_ready.milestones 1 ≡ some x)
    × (x.verified ≡ true)
    × (x.released ≡ false)
    × ((j : ℕ) (y : Milestone)
        → j < 1
        → get schedule_ready.milestones j ≡ some y
        → y.released ≡ true)
    × (n : MilestoneSchedule) × (load_schedule 9 released_two.store ≡ some n)
    × (n ≡ record schedule_ready { milestones = n.milestones })
    × (released_sum n.milestones ≡ released_sum schedule_ready.milestones +ℤ x.amount)
unfolding released_two
release_milestone_adds_example =
    release_milestone_adds env 1 9 1 ready released_two schedule_ready
      (Reach-IsReconciled deployed-IsReconciled history_ready) refl refl
