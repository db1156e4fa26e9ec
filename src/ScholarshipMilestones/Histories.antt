-- ===== src/ScholarshipMilestones/Histories.antt =====
-- contracts/scholarship-milestones/src/lib.rs: whole histories of requests, and the totals in between.
use chain_verse_onchain.Common.{
  ℕ, ◌+◌, ◌≡◌, refl, ◌∙◌, inl, inr, arith, Bool, true, false, some, List, ℤ, pos, ◌-ℤ◌, ◌≤ℤ◌,
  fit_i128-some, int_laws, lookup-insert_here, lookup-insert_there, insert, nat_eq, ◌==◌,
  Bool-cases, Env, ok, done,
}
use chain_verse_onchain.ScholarshipMilestones.{
  MilestoneInput, Milestone, MilestoneSchedule, Store, load_schedule, get, set, build_milestones,
  add_released,
}
use chain_verse_onchain.ScholarshipMilestones.Calls
use chain_verse_onchain.ScholarshipMilestones.Calls.{Call}
use chain_verse_onchain.ScholarshipMilestones.Amounts.{build_milestones-Reconciles}
use chain_verse_onchain.ScholarshipMilestones.Schedules.{
  InOrder, Fits, released_sum, sum-set, set-Nonneg, set-Dated, verified-InOrder, released-InOrder,
  Fresh-InOrder, released_sum_bounds, add_released-sum, zero_left,
}
use chain_verse_onchain.ScholarshipMilestones.Effects.{
  State, define_parts, amend_parts, activate_parts, verify_parts, release_milestone_releases,
}

-- The entry points that change the contract's state, with their arguments.
pub data Request : Type 0 where
  initialize : (admin : ℕ) → Request
  define_schedule amend_schedule :
      (admin award_id : ℕ) (total_amount : ℤ) (currency : ℕ) (inputs : List MilestoneInput)
      → Request
  activate_schedule : (admin award_id : ℕ) → Request
  verify_milestone release_milestone : (admin award_id index : ℕ) → Request

-- The dispatch of a request.
unfoldable pub apply : Env → Request → Call (Unit {0})
apply env (Request.initialize a) = Calls.initialize env a
apply env (Request.define_schedule a w t k l) = Calls.define_schedule env a w t k l
apply env (Request.amend_schedule a w t k l) = Calls.amend_schedule env a w t k l
apply env (Request.activate_schedule a w) = Calls.activate_schedule env a w
apply env (Request.verify_milestone a w i) = Calls.verify_milestone env a w i
apply env (Request.release_milestone a w i) = Calls.release_milestone env a w i

-- Every schedule fits the award it is stored for.
abbrev pub IsReconciled : Store → Type 0
IsReconciled s = (w : ℕ) (m : MilestoneSchedule) → load_schedule w s ≡ some m → Fits w m

put-IsReconciled :
    (c d : Store) (m : MilestoneSchedule)
    → d.schedules ≡ insert m.award_id m c.schedules
    → Fits m.award_id m
    → IsReconciled c
    → IsReconciled d
put-IsReconciled c d m e f s w n h = elim (Bool-cases (m.award_id == w)) [
  | inl p ↦
      let (is, at) = lookup-insert_here m.award_id w m n c.schedules p (rw e at h) in rw (is, at) f
  | inr p ↦ s w n (rw (e, lookup-insert_there m.award_id w m c.schedules p) at h)
]

define-Fits :
    (w k a v u b : ℕ) (t : ℤ) (l : List MilestoneInput) (ms : List Milestone)
    (r : MilestoneSchedule) (o : Bool)
    → build_milestones t l ≡ ok ms
    → r ≡ record {
      award_id = w;
      total_amount = t;
      currency = k;
      version = v;
      active = o;
      created_at = a;
      activated_at = u;
      amended_at = b;
      milestones = ms;
    }
    → Fits w r
define-Fits w k a v u b t l ms r o h e =
    let s = build_milestones-Reconciles t l ms h in
    let (order, none_yet) = Fresh-InOrder ms s.fresh in
    rw e (record {
      keyed = refl;
      positive = s.positive;
      bounded = s.fits;
      exact = s.exact;
      nonneg = s.nonneg;
      dated = s.dated;
      ordered = order;
      closed = inr none_yet;
    })

-- A milestone that is replaced in an active schedule by one of the same amount and date.
replaced-Fits :
    (w i : ℕ) (m : MilestoneSchedule) (x y : Milestone)
    → Fits w m
    → get m.milestones i ≡ some x
    → m.active ≡ true
    → y.amount ≡ x.amount
    → y.due_at ≡ x.due_at
    → InOrder (set m.milestones i y)
    → Fits m.award_id (record m { milestones = set m.milestones i y })
replaced-Fits w i m x y f g o e d order = record {
  keyed = refl;
  positive = f.positive;
  bounded = f.bounded;
  exact = sum-set y m.milestones i x g e ∙ f.exact;
  nonneg = set-Nonneg y m.milestones i x g e f.nonneg;
  dated = set-Dated y m.milestones i x g d f.dated;
  ordered = order;
  closed = inl o;
}

pub initialize_keeps :
    (env : Env) (c d : State) (a : ℕ)
    → Calls.initialize env a c ≡ done (tt, d)
    → d.store.schedules ≡ c.store.schedules
unfolding Calls.initialize
initialize_keeps env c d a h = ground arith

pub apply-IsReconciled :
    (env : Env) (q : Request) (c d : State)
    → apply env q c ≡ done (tt, d)
    → IsReconciled c.store
    → IsReconciled d.store
unfolding apply
apply-IsReconciled env (Request.initialize a) c d h s =
    λ w n k. s w n (rw (initialize_keeps env c d a h) at k)
apply-IsReconciled env (Request.define_schedule a w t k l) c d h s =
    let (ms, p, _, e) = define_parts env c d a w k t l h in
    put-IsReconciled c.store d.store _ e (define-Fits w k env.timestamp 1 0 0 t l ms _ false p refl)
      s
apply-IsReconciled env (Request.amend_schedule a w t k l) c d h s =
    let (m, ms, _, _, _, p, e) = amend_parts env c d a w k t l h in
    put-IsReconciled c.store d.store _ e
      (define-Fits m.award_id k m.created_at (m.version + 1) m.activated_at env.timestamp t l ms _
        m.active p refl)
      s
apply-IsReconciled env (Request.activate_schedule a w) c d h s =
    let (m, p, _, e) = activate_parts env c d a w h in
    let f = s w m p in
    put-IsReconciled c.store d.store _ e
      (record {
        keyed = refl;
        positive = f.positive;
        bounded = f.bounded;
        exact = f.exact;
        nonneg = f.nonneg;
        dated = f.dated;
        ordered = f.ordered;
        closed = inl refl;
      })
      s
apply-IsReconciled env (Request.verify_milestone a w i) c d h s =
    let (m, x, p, g, o, e) = verify_parts env c d a w i h in
    let f = s w m p in
    let y : Milestone = record x { verified = true } in
    put-IsReconciled c.store d.store _ e
      (replaced-Fits w i m x y f g o refl refl
        (verified-InOrder y m.milestones i x g refl refl f.ordered))
      s
apply-IsReconciled env (Request.release_milestone a w i) c d h s =
    let (_, _, m, x, p, g, o, v, _, checked, e) = release_milestone_releases env c d a w i h in
    let f = s w m p in
    let y : Milestone = record x { released = true } in
    put-IsReconciled c.store d.store _ (rw e refl)
      (replaced-Fits w i m x y f g o refl refl
        (released-InOrder y m.milestones i checked refl v f.ordered))
      s

-- One step: a request that succeeds. A request that fails is rolled back and is no step.
pub data Step : State → State → Type 0 where
  request : (env : Env) (q : Request) (c d : State) → apply env q c ≡ done (tt, d) → Step c d

pub data Reach (c : State) : State → Type 0 where
  here : Reach c c
  next : {d e : State} → Reach c d → Step d e → Reach c e

-- In every state that is reached from a reconciled one, by requests of anybody in any order, each
-- schedule has a positive total that its amounts, none of them negative, add up to exactly; its dates
-- increase strictly; its released milestones come first and are verified; and nothing of it is released
-- before it is active.
pub Reach-IsReconciled : {c d : State} → IsReconciled c.store → Reach c d → IsReconciled d.store
Reach-IsReconciled s here = s
Reach-IsReconciled s (next r (request env q c d h)) =
    apply-IsReconciled env q c d h (Reach-IsReconciled s r)

-- In a reconciled state both totals of a stored schedule are computed without an error: what has been
-- released is between nothing and the award, and what remains is the rest of the award.
pub remaining_amount-released_total :
    (w : ℕ) (m : MilestoneSchedule) (c : State)
    → IsReconciled c.store
    → load_schedule w c.store ≡ some m
    → (pos 0 ≤ℤ released_sum m.milestones)
      × (released_sum m.milestones ≤ℤ m.total_amount)
      × (Calls.released_total w c ≡ done (released_sum m.milestones, c))
      × (Calls.remaining_amount w c ≡ done (m.total_amount -ℤ released_sum m.milestones, c))
unfolding Calls.released_total Calls.remaining_amount
remaining_amount-released_total w m c s h =
    let f = s w m h in
    let (lo, hi) = released_sum_bounds m.milestones f.nonneg in
    let le : released_sum m.milestones ≤ℤ m.total_amount = rw f.exact at hi in
    let total =
      add_released-sum m.milestones (pos 0) (omega arith) (rw f.exact (omega (int_laws, f.bounded)))
        f.nonneg in
    let total' : add_released (pos 0) m.milestones ≡ ok (released_sum m.milestones) =
      rw (zero_left (released_sum m.milestones)) at total in
    let fits =
      fit_i128-some (m.total_amount -ℤ released_sum m.milestones) (omega (int_laws, le))
        (omega (int_laws, lo, f.bounded)) in
    (lo, le, ground (arith, h, total'), ground (arith, h, f.keyed, total', fits))
