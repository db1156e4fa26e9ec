-- ===== src/ScholarshipMilestones/Effects.antt =====
-- contracts/scholarship-milestones/src/lib.rs: what the entry points do when they succeed.
use chain_verse_onchain.Common.{
  ℕ, ◌+◌, ◌≡◌, refl, ◌⊎◌, inl, inr, arith, true, false, some, List, ℤ, insert, nat_eq, Option-cases,
  none, Env, Chain, Result, ok, err, done,
}
use chain_verse_onchain.ScholarshipMilestones.{
  ContractError, MilestoneInput, Milestone, MilestoneSchedule, Store, Event, put_schedule,
  load_schedule, get, set, build_milestones, some_released, check_earlier,
}
use chain_verse_onchain.ScholarshipMilestones.Calls
use chain_verse_onchain.ScholarshipMilestones.Calls.{Call}

abbrev pub State : Type 0
State = Chain (Unit {0}) Store Event

List-cases :
    (o : Result ContractError (List Milestone))
    → ((l : List Milestone) × (o ≡ ok l)) ⊎ ((e : ContractError) × (o ≡ err e))
List-cases (ok l) = inl (l, refl)
List-cases (err e) = inr (e, refl)

module _ (env : Env) (c d : State) where
  pub define_parts :
      (a w k : ℕ) (t : ℤ) (l : List MilestoneInput)
      → Calls.define_schedule env a w t k l c ≡ done (tt, d)
      → (ms : List Milestone) × (build_milestones t l ≡ ok ms)
        × (load_schedule w c.store ≡ none)
        × (d.store.schedules
            ≡ insert w
                (record {
                  award_id = w;
                  total_amount = t;
                  currency = k;
                  version = 1;
                  active = false;
                  created_at = env.timestamp;
                  activated_at = 0;
                  amended_at = 0;
                  milestones = ms;
                })
                c.store.schedules)
  unfolding Calls.define_schedule
  define_parts a w k t l h = elim (List-cases (build_milestones t l)) [
    | inl (ms, p) ↦
        let new : load_schedule w c.store ≡ none = ground arith in (ms, p, new, ground arith)
    | inr (e, p) ↦ absurd (ground arith)
  ]

  pub amend_parts :
      (a w k : ℕ) (t : ℤ) (l : List MilestoneInput)
      → Calls.amend_schedule env a w t k l c ≡ done (tt, d)
      → (m : MilestoneSchedule) × (ms : List Milestone) × (load_schedule w c.store ≡ some m)
        × (m.active ≡ true)
        × (some_released m.milestones ≡ false)
        × (build_milestones t l ≡ ok ms)
        × (d.store.schedules
            ≡ insert m.award_id
                (record m {
                  total_amount = t;
                  currency = k;
                  milestones = ms;
                  version = m.version + 1;
                  amended_at = env.timestamp;
                })
                c.store.schedules)
  unfolding Calls.amend_schedule
  amend_parts a w k t l h = elim (Option-cases (load_schedule w c.store)) [
    | inl p ↦ absurd (ground arith)
    | inr (m, p) ↦ elim (List-cases (build_milestones t l)) [
      | inl (ms, q) ↦ (m, ms, p, ground arith, ground arith, q, ground arith)
      | inr (e, q) ↦ absurd (ground arith)
    ]
  ]

  pub activate_parts :
      (a w : ℕ)
      → Calls.activate_schedule env a w c ≡ done (tt, d)
      → (m : MilestoneSchedule) × (load_schedule w c.store ≡ some m)
        × (m.active ≡ false)
        × (d.store.schedules
            ≡ insert m.award_id
                (record m { active = true; activated_at = env.timestamp })
                c.store.schedules)
  unfolding Calls.activate_schedule
  activate_parts a w h = elim (Option-cases (load_schedule w c.store)) [
    | inl p ↦ absurd (ground arith)
    | inr (m, p) ↦ (m, p, ground arith, ground arith)
  ]

  pub verify_parts :
      (a w i : ℕ)
      → Calls.verify_milestone env a w i c ≡ done (tt, d)
      → (m : MilestoneSchedule) × (x : Milestone) × (load_schedule w c.store ≡ some m)
        × (get m.milestones i ≡ some x)
        × (m.active ≡ true)
        × (d.store.schedules
            ≡ insert m.award_id
                (record m { milestones = set m.milestones i (record x { verified = true }) })
                c.store.schedules)
  unfolding Calls.verify_milestone
  verify_parts a w i h = elim (Option-cases (load_schedule w c.store)) [
    | inl p ↦ absurd (ground arith)
    | inr (m, p) ↦ elim (Option-cases (get m.milestones i)) [
      | inl q ↦ absurd (ground arith)
      | inr (x, q) ↦ (m, x, p, q, ground arith, ground arith)
    ]
  ]

  -- A release that succeeds is by the administrator, of a milestone of an active schedule that is
  -- verified and not released yet, after all milestones before it. It marks the milestone released and
  -- changes nothing else.
  pub release_milestone_releases :
      (a w i : ℕ)
      → Calls.release_milestone env a w i c ≡ done (tt, d)
      → (env.authorized a ≡ true)
        × (c.store.admin ≡ some a)
        × (m : MilestoneSchedule) × (x : Milestone) × (load_schedule w c.store ≡ some m)
        × (get m.milestones i ≡ some x)
        × (m.active ≡ true)
        × (x.verified ≡ true)
        × (x.released ≡ false)
        × (check_earlier i m.milestones ≡ ok tt)
        × (d.store
            ≡ put_schedule
                (record m { milestones = set m.milestones i (record x { released = true }) })
                c.store)
  unfolding Calls.release_milestone
  release_milestone_releases a w i h = elim (Option-cases (load_schedule w c.store)) [
    | inl p ↦ absurd (ground arith)
    | inr (m, p) ↦ elim (Option-cases (get m.milestones i)) [
      | inl q ↦ absurd (ground arith)
      | inr (x, q) ↦
          let u : env.authorized a ≡ true = ground arith in
          let is : c.store.admin ≡ some a = ground arith in
          let checked : check_earlier i m.milestones ≡ ok tt = ground arith in
          (u, is, m, x, p, q, ground arith, ground arith, ground arith, checked, ground arith)
    ]
  ]
