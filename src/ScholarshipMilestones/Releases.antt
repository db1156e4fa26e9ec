-- ===== src/ScholarshipMilestones/Releases.antt =====
-- contracts/scholarship-milestones/src/lib.rs: `release_milestone` adds one amount to what is released.
use mathlib.Core.Option.{some-injective}
use chain_verse_onchain.Common.{
  ℕ, zero, suc, ◌<◌, ◌≡◌, refl, sym, ◌∙◌, arith, true, false, some, List, [], ◌∷◌, ok, ◌+ℤ◌,
  int_laws, lookup, lookup-insert, ==_iff, nat_eq, insert, Env, done,
}
use chain_verse_onchain.ScholarshipMilestones.{
  Milestone, MilestoneSchedule, load_schedule, get, set, check_earlier,
}
use chain_verse_onchain.ScholarshipMilestones.Schedules.{released_sum}
use chain_verse_onchain.ScholarshipMilestones.Calls.{release_milestone}
use chain_verse_onchain.ScholarshipMilestones.Effects.{State, release_milestone_releases}
use chain_verse_onchain.ScholarshipMilestones.Histories.{IsReconciled}

earlier_released :
    (i : ℕ) (l : List Milestone)
    → check_earlier i l ≡ ok tt
    → (j : ℕ) (y : Milestone) → j < i
    → get l j ≡ some y
    → y.released ≡ true
unfolding check_earlier
earlier_released zero l h j y lt g = absurd (omega (arith, lt))
earlier_released (suc i) [] h j y lt g = absurd (ground arith)
earlier_released (suc i) (m ∷ l) h zero y lt g =
    let now : m.released ≡ true = ground arith in rw (some-injective _ _ g) at now
earlier_released (suc i) (m ∷ l) h (suc j) y lt g =
    let rest : check_earlier i l ≡ ok tt = ground arith in
    earlier_released i l rest j y (omega (arith, lt)) g

added :
    (l : List Milestone) (i : ℕ) (x : Milestone)
    → get l i ≡ some x
    → x.released ≡ false
    → released_sum (set l i (record x { released = true })) ≡ released_sum l +ℤ x.amount
added [] i x g r = absurd (ground arith)
added (k ∷ l) zero x g r = let it : k ≡ x = some-injective _ _ g in rw (it, r) (omega int_laws)
added (k ∷ l) (suc i) x g r = let rest = added l i x g r in grind (int_laws, rest)

stored_at :
    (k w : ℕ) (n : MilestoneSchedule) (l : List (ℕ × MilestoneSchedule))
    → k ≡ w
    → lookup w (insert k n l) ≡ some n
stored_at k w n l e = rw (lookup-insert k w n l, (==_iff k w).1 e) refl

-- A release that succeeds in a reconciled state is by the administrator, of a milestone of an active
-- schedule that is verified and not released yet, when all milestones before it are released. It adds
-- the milestone's amount to what has been released of the award, and of the schedule changes only the
-- milestones.
pub release_milestone_adds :
    (env : Env) (a w i : ℕ) (c d : State) (m : MilestoneSchedule)
    → IsReconciled c.store
    → load_schedule w c.store ≡ some m
    → release_milestone env a w i c ≡ done (tt, d)
    → (env.authorized a ≡ true)
      × (c.store.admin ≡ some a)
      × (m.active ≡ true)
      × (x : Milestone) × (get m.milestones i ≡ some x)
      × (x.verified ≡ true)
      × (x.released ≡ false)
      × ((j : ℕ) (y : Milestone) → j < i → get m.milestones j ≡ some y → y.released ≡ true)
      × (n : MilestoneSchedule) × (load_schedule w d.store ≡ some n)
      × (n ≡ record m { milestones = n.milestones })
      × (released_sum n.milestones ≡ released_sum m.milestones +ℤ x.amount)
release_milestone_adds env a w i c d m s h k =
    let (u, is, o, x, p, g, on, v, r, checked, e) = release_milestone_releases env c d a w i k in
    let same : o ≡ m = some-injective _ _ (sym p ∙ h) in
    let f = s w m h in
    let n : MilestoneSchedule = record m {
      milestones = set m.milestones i (record x { released = true });
    } in
    let stored : load_schedule w d.store ≡ some n =
      rw (e, same) (stored_at m.award_id w n c.store.schedules f.keyed) in
    (
      u,
      is,
      rw same at on,
      x,
      rw same at g,
      v,
      r,
      earlier_released i m.milestones (rw same at checked),
      n,
      stored,
      refl,
      added m.milestones i x (rw same at g) r,
    )
