-- ===== src/ScholarshipMilestones/Growth.antt =====
-- contracts/scholarship-milestones/src/lib.rs: what has been released of an award never falls.
use mathlib.Core.Option.{some-injective}
use chain_verse_onchain.Common.{
  ℕ, zero, suc, ◌≡◌, refl, sym, ◌∙◌, ◌⊎◌, inl, inr, arith, true, false, none, some, List, [], ◌∷◌,
  pos, ◌≤ℤ◌, int_laws, lookup-insert, lookup-insert_there, lookup_clash, insert, nat_eq, ◌==◌,
  ==_iff, Bool-cases, Env, done,
}
use chain_verse_onchain.ScholarshipMilestones.{
  Milestone, MilestoneSchedule, Store, load_schedule, get, set, some_released,
}
use chain_verse_onchain.ScholarshipMilestones.Amounts.{Nonneg, build_milestones-Reconciles}
use chain_verse_onchain.ScholarshipMilestones.Schedules.{released_sum, released_sum_bounds}
use chain_verse_onchain.ScholarshipMilestones.Effects.{
  State, define_parts, amend_parts, activate_parts, verify_parts, release_milestone_releases,
}
use chain_verse_onchain.ScholarshipMilestones.Histories.{
  Request, apply, IsReconciled, Step, Reach, initialize_keeps, Reach-IsReconciled,
}

none_released : (l : List Milestone) → some_released l ≡ false → released_sum l ≡ pos 0
none_released [] h = refl
none_released (m ∷ l) h =
    let here : m.released ≡ false = ground arith in
    let rest : some_released l ≡ false = ground arith in
    rw (here, none_released l rest) (omega int_laws)

-- A milestone that is replaced by one that is released, or released as it was.
replaced_grows :
    (x : Milestone) (l : List Milestone) (i : ℕ) (m : Milestone)
    → get l i ≡ some m
    → x.amount ≡ m.amount
    → (x.released ≡ true) ⊎ (x.released ≡ m.released)
    → Nonneg l
    → released_sum l ≤ℤ released_sum (set l i x)
replaced_grows x [] i m h e r n = omega arith
replaced_grows x (k ∷ l) zero m h e r (n, ns) =
    let it : k ≡ m = some-injective _ _ h in
    let same : x.amount ≡ k.amount = rw it e in
    let kept : (x.released ≡ true) ⊎ (x.released ≡ k.released) = rw it r in
    grind (int_laws, same, kept, n)
replaced_grows x (k ∷ l) (suc i) m h e r (n, ns) =
    let rest = replaced_grows x l i m h e r ns in omega (int_laws, rest)

-- From `c` to `d` no award has less released.
abbrev Grows : (c d : Store) → Type 0
Grows c d =
    (w : ℕ) (m : MilestoneSchedule)
    → load_schedule w c ≡ some m
    → (n : MilestoneSchedule) × (load_schedule w d ≡ some n)
      × (released_sum m.milestones ≤ℤ released_sum n.milestones)

put-Grows :
    (c d : Store) (r o : MilestoneSchedule)
    → d.schedules ≡ insert r.award_id r c.schedules
    → load_schedule r.award_id c ≡ some o
    → released_sum o.milestones ≤ℤ released_sum r.milestones
    → Grows c d
put-Grows c d r o e was le w m h = elim (Bool-cases (r.award_id == w)) [
  | inl p ↦
      let same = (==_iff r.award_id w).0 p in
      let it : m ≡ o = some-injective _ _ (sym h ∙ rw same at was) in
      (r, rw (e, lookup-insert r.award_id w r c.schedules, p) refl, rw it le)
  | inr p ↦ (m, rw (e, lookup-insert_there r.award_id w r c.schedules p) h, omega arith)
]

new-Grows :
    (c d : Store) (r : MilestoneSchedule)
    → d.schedules ≡ insert r.award_id r c.schedules
    → load_schedule r.award_id c ≡ none
    → Grows c d
new-Grows c d r e new w m h = elim (Bool-cases (r.award_id == w)) [
  | inl p ↦
      let same = (==_iff r.award_id w).0 p in
      lookup_clash w r.award_id m c.schedules ((==_iff w r.award_id).1 (sym same)) h new
  | inr p ↦ (m, rw (e, lookup-insert_there r.award_id w r c.schedules p) h, omega arith)
]

apply-Grows :
    (env : Env) (q : Request) (c d : State)
    → apply env q c ≡ done (tt, d)
    → IsReconciled c.store
    → Grows c.store d.store
unfolding apply
apply-Grows env (Request.initialize a) c d h s =
    λ w m k. (m, rw (initialize_keeps env c d a h) k, omega arith)
apply-Grows env (Request.define_schedule a w t k l) c d h s =
    let (ms, p, new, e) = define_parts env c d a w k t l h in new-Grows c.store d.store _ e new
apply-Grows env (Request.amend_schedule a w t k l) c d h s =
    let (m, ms, p, _, z, b, e) = amend_parts env c d a w k t l h in
    let f = s w m p in
    let r = build_milestones-Reconciles t l ms b in
    let (lo, _) = released_sum_bounds ms r.nonneg in
    let nothing = none_released m.milestones z in
    put-Grows c.store d.store _ m e (rw f.keyed p) (rw nothing lo)
apply-Grows env (Request.activate_schedule a w) c d h s =
    let (m, p, _, e) = activate_parts env c d a w h in
    let f = s w m p in put-Grows c.store d.store _ m e (rw f.keyed p) (omega arith)
apply-Grows env (Request.verify_milestone a w i) c d h s =
    let (m, x, p, g, o, e) = verify_parts env c d a w i h in
    let f = s w m p in
    put-Grows c.store d.store _ m e (rw f.keyed p)
      (replaced_grows (record x { verified = true }) m.milestones i x g refl (inr refl) f.nonneg)
apply-Grows env (Request.release_milestone a w i) c d h s =
    let (_, _, m, x, p, g, o, v, _, checked, e) = release_milestone_releases env c d a w i h in
    let f = s w m p in
    put-Grows c.store d.store
      (record m { milestones = set m.milestones i (record x { released = true }) }) m (rw e refl)
      (rw f.keyed p)
      (replaced_grows (record x { released = true }) m.milestones i x g refl (inl refl) f.nonneg)

-- In every state that is reached from a reconciled one, by requests of anybody in any order, a schedule
-- that was stored is stored, and what has been released of its award has not become less.
pub Reach-released_sum :
    {c d : State} (w : ℕ) (m : MilestoneSchedule)
    → IsReconciled c.store
    → Reach c d
    → load_schedule w c.store ≡ some m
    → (n : MilestoneSchedule) × (load_schedule w d.store ≡ some n)
      × (released_sum m.milestones ≤ℤ released_sum n.milestones)
Reach-released_sum w m s Reach.here h = (m, h, omega arith)
Reach-released_sum w m s (Reach.next r (Step.request env q c d k)) h =
    let (n, p, le) = Reach-released_sum w m s r h in
    let (o, p', le') = apply-Grows env q c d k (Reach-IsReconciled s r) w n p in
    (o, p', omega (arith, le, le'))
