-- ===== src/ScholarshipMilestones/Amounts.antt =====
-- contracts/scholarship-milestones/src/lib.rs: what `build_milestones` derives from its inputs.
use chain_verse_onchain.Common.{
  ℕ, ◌+◌, ◌*◌, ◌/◌, ◌≤◌, ◌<◌, ◌≡◌, refl, ◌∙◌, ◌⊎◌, inl, inr, arith, false, some, List, [], ◌∷◌,
  length, ℤ, pos, negsuc, *ℤ_pos, +ℤ_pos, ◌+ℤ◌, ◌-ℤ◌, ◌*ℤ◌, div_ℤ, ◌≤ℤ◌, fit_i128, i128_max,
  int_laws, ==_iff, Option-cases, Result, ok, err,
}
use chain_verse_onchain.ScholarshipMilestones.{
  bps_denom, ContractError, MilestoneInput, Milestone, validate, amount_of, new_milestone, derive,
  reconciled, build_milestones,
}

-- The sum of the amounts, and of the percentages.
abbrev pub sum : List Milestone → ℤ
sum [] = pos 0
sum (m ∷ l) = m.amount +ℤ sum l

abbrev pub percentages : List MilestoneInput → ℕ
percentages [] = 0
percentages (x ∷ l) = x.percentage_bps + percentages l

-- What the percentages ask of a total, in ten-thousandths.
abbrev asked : ℕ → List MilestoneInput → ℕ
asked n [] = 0
asked n (x ∷ l) = n * x.percentage_bps + asked n l

-- No amount is negative.
abbrev pub Nonneg : List Milestone → Type 0
Nonneg [] = Unit
Nonneg (m ∷ l) = (pos 0 ≤ℤ m.amount) × Nonneg l

-- The dates increase strictly, from the one after `d` on.
abbrev pub After : (d : ℕ) → List Milestone → Type 0
After d [] = Unit
After d (m ∷ l) = (d < m.due_at) × After m.due_at l

abbrev pub Dated : List Milestone → Type 0
Dated [] = Unit
Dated (m ∷ l) = After m.due_at l

-- Nothing has been verified or released.
abbrev pub Fresh : List Milestone → Type 0
Fresh [] = Unit
Fresh (m ∷ l) = (m.verified ≡ false) × (m.released ≡ false) × Fresh l

List-cases :
    (o : Result ContractError (List Milestone))
    → ((l : List Milestone) × (o ≡ ok l)) ⊎ ((e : ContractError) × (o ≡ err e))
List-cases (ok l) = inl (l, refl)
List-cases (err e) = inr (e, refl)

-- The parts of a derivation that succeeds.
derived :
    (t a : ℤ) (i : ℕ) (x : MilestoneInput) (l : List MilestoneInput) (ms : List Milestone)
    → derive t a i (x ∷ l) ≡ ok ms
    → (y : ℤ) × (ms' : List Milestone) × (amount_of t a l x.percentage_bps ≡ some y)
      × (derive t (a +ℤ y) (i + 1) l ≡ ok ms')
      × (ms ≡ new_milestone i x y ∷ ms')
unfolding derive fit_i128
derived t a i x l ms h = elim (Option-cases (amount_of t a l x.percentage_bps)) [
  | inl n ↦ absurd (ground arith)
  | inr (y, p) ↦ elim (List-cases (derive t (a +ℤ y) (i + 1) l)) [
    | inl (ms', q) ↦ let e : ms ≡ new_milestone i x y ∷ ms' = ground arith in (y, ms', p, q, e)
    | inr (e, q) ↦ absurd (ground arith)
  ]
]

derived_end : (t a : ℤ) (i : ℕ) (ms : List Milestone) → derive t a i [] ≡ ok ms → ms ≡ []
unfolding derive
derived_end t a i ms h = ground arith

last_amount : (t a y : ℤ) (b : ℕ) → amount_of t a [] b ≡ some y → y ≡ t -ℤ a
unfolding amount_of fit_i128
last_amount t a y b h = ground arith

other_amount :
    (t a y : ℤ) (b : ℕ) (x : MilestoneInput) (l : List MilestoneInput)
    → amount_of t a (x ∷ l) b ≡ some y
    → y ≡ div_ℤ (t *ℤ pos b) (pos bps_denom)
unfolding amount_of fit_i128
other_amount t a y b x l h = ground arith

-- The last milestone takes what is left, so that the amounts add up to the total.
derive-sum :
    (t a : ℤ) (i : ℕ) (x : MilestoneInput) (l : List MilestoneInput) (ms : List Milestone)
    → derive t a i (x ∷ l) ≡ ok ms
    → sum ms ≡ t -ℤ a
derive-sum t a i x [] ms h =
    let (y, ms', p, q, e) = derived t a i x [] ms h in
    rw (e, derived_end t (a +ℤ y) (i + 1) ms' q, last_amount t a y x.percentage_bps p)
      (omega int_laws)
derive-sum t a i x (z ∷ l) ms h =
    let (y, ms', p, q, e) = derived t a i x (z ∷ l) ms h in
    rw (e, derive-sum t (a +ℤ y) (i + 1) z l ms' q) (omega int_laws)

floored_pos : (n b : ℕ) → div_ℤ (pos n *ℤ pos b) (pos bps_denom) ≡ pos (n * b / 10000)
unfolding div_ℤ
floored_pos n b = rw (*ℤ_pos n b) refl

-- Each amount but the last is rounded down, so that what is left for the last is not negative.
derive-Nonneg :
    (n m i : ℕ) (x : MilestoneInput) (l : List MilestoneInput) (ms : List Milestone)
    → m * 10000 + asked n (x ∷ l) ≤ n * 10000
    → derive (pos n) (pos m) i (x ∷ l) ≡ ok ms
    → Nonneg ms
derive-Nonneg n m i x [] ms le h =
    let (y, ms', p, q, e) = derived (pos n) (pos m) i x [] ms h in
    let less : m ≤ n = omega (arith, le) in
    rw (e, derived_end (pos n) (pos m +ℤ y) (i + 1) ms' q)
      (rw (last_amount (pos n) (pos m) y x.percentage_bps p) (omega (int_laws, less)), tt)
derive-Nonneg n m i x (z ∷ l) ms le h =
    let (y, ms', p, q, e) = derived (pos n) (pos m) i x (z ∷ l) ms h in
    let is : y ≡ pos (n * x.percentage_bps / 10000) =
      other_amount (pos n) (pos m) y x.percentage_bps z l p ∙ floored_pos n x.percentage_bps in
    let so_far : pos m +ℤ y ≡ pos (m + n * x.percentage_bps / 10000) =
      rw is (+ℤ_pos m (n * x.percentage_bps / 10000)) in
    rw e (
      rw is (omega arith),
      derive-Nonneg n (m + n * x.percentage_bps / 10000) (i + 1) z l ms' (omega (arith, le))
          (rw so_far at q),
    )

derive-Fresh :
    (t a : ℤ) (i : ℕ) (l : List MilestoneInput) (ms : List Milestone)
    → derive t a i l ≡ ok ms
    → Fresh ms
derive-Fresh t a i [] ms h = rw (derived_end t a i ms h) tt
derive-Fresh t a i (x ∷ l) ms h =
    let (y, ms', p, q, e) = derived t a i x l ms h in
    rw e (refl, refl, derive-Fresh t (a +ℤ y) (i + 1) l ms' q)

-- The first pass adds up the percentages.
validate_sum :
    (i b d z : ℕ) (l : List MilestoneInput) → validate i b d l ≡ ok z → z ≡ b + percentages l
unfolding validate
validate_sum i b d z [] h = ground arith
validate_sum i b d z (x ∷ l) h =
    let rest : validate (i + 1) (b + x.percentage_bps) x.due_at l ≡ ok z = ground arith in
    let is = validate_sum (i + 1) (b + x.percentage_bps) x.due_at z l rest in omega (arith, is)

asked-percentages : (n : ℕ) (l : List MilestoneInput) → asked n l ≡ n * percentages l
asked-percentages n [] = omega arith
asked-percentages n (x ∷ l) = rw (asked-percentages n l) (grind arith)

-- The first pass admits only dates that increase strictly.
derive-After :
    (t a : ℤ) (i j b d z : ℕ) (l : List MilestoneInput) (ms : List Milestone)
    → 1 ≤ j
    → validate j b d l ≡ ok z
    → derive t a i l ≡ ok ms
    → After d ms
unfolding validate
derive-After t a i j b d z [] ms lo v h = rw (derived_end t a i ms h) tt
derive-After t a i j b d z (x ∷ l) ms lo v h =
    let (y, ms', p, q, e) = derived t a i x l ms h in
    let rest : validate (j + 1) (b + x.percentage_bps) x.due_at l ≡ ok z = ground arith in
    let later : d < x.due_at = ground arith in
    rw e (
      later,
      derive-After t (a +ℤ y) (i + 1) (j + 1) (b + x.percentage_bps) x.due_at z l ms' (omega arith)
          rest q,
    )

derive-Dated :
    (t a : ℤ) (i z : ℕ) (l : List MilestoneInput) (ms : List Milestone)
    → validate 0 0 0 l ≡ ok z
    → derive t a i l ≡ ok ms
    → Dated ms
unfolding validate
derive-Dated t a i z [] ms v h = rw (derived_end t a i ms h) tt
derive-Dated t a i z (x ∷ l) ms v h =
    let (y, ms', p, q, e) = derived t a i x l ms h in
    let rest : validate 1 x.percentage_bps x.due_at l ≡ ok z = ground arith in
    rw e (derive-After t (a +ℤ y) (i + 1) 1 x.percentage_bps x.due_at z l ms' (omega arith) rest q)

added_fits :
    (t a y : ℤ) (i : ℕ) (x : MilestoneInput) (l : List MilestoneInput) (ms : List Milestone)
    → amount_of t a l x.percentage_bps ≡ some y
    → derive t a i (x ∷ l) ≡ ok ms
    → a +ℤ y ≤ℤ i128_max
unfolding derive fit_i128
added_fits t a y i x l ms p h = ground arith

-- A total that is split fits an `i128`.
derive_fits :
    (t a : ℤ) (i : ℕ) (x : MilestoneInput) (l : List MilestoneInput) (ms : List Milestone)
    → derive t a i (x ∷ l) ≡ ok ms
    → t ≤ℤ i128_max
derive_fits t a i x [] ms h =
    let (y, ms', p, q, e) = derived t a i x [] ms h in
    let le = added_fits t a y i x [] ms p h in
    let is = last_amount t a y x.percentage_bps p in
    let at_end : a +ℤ (t -ℤ a) ≤ℤ i128_max = rw is at le in omega (int_laws, at_end)
derive_fits t a i x (z ∷ l) ms h =
    let (y, ms', p, q, e) = derived t a i x (z ∷ l) ms h in derive_fits t (a +ℤ y) (i + 1) z l ms' q

-- What `build_milestones` gives for a total.
pub record Reconciles (t : ℤ) (inputs : List MilestoneInput) (ms : List Milestone) : Type 0 where
  pub positive : pos 1 ≤ℤ t
  pub fits : t ≤ℤ i128_max
  pub whole : percentages inputs ≡ 10000
  pub exact : sum ms ≡ t
  pub nonneg : Nonneg ms
  pub dated : Dated ms
  pub fresh : Fresh ms
  pub bounded : (1 ≤ length inputs) × (length inputs ≤ 16)

reconciled_ok :
    (o : Result ContractError ℕ) (k : Result ContractError (List Milestone)) (ms : List Milestone)
    → reconciled o k ≡ ok ms
    → (o ≡ ok 10000) × (k ≡ ok ms)
reconciled_ok (err e) k ms h = absurd (ground arith)
reconciled_ok (ok n) k ms h = ground (arith, ==_iff n bps_denom)

build_parts :
    (t : ℤ) (l : List MilestoneInput) (ms : List Milestone)
    → build_milestones t l ≡ ok ms
    → (pos 1 ≤ℤ t)
      × ((1 ≤ length l) × (length l ≤ 16))
      × (validate 0 0 0 l ≡ ok 10000)
      × (derive t (pos 0) 0 l ≡ ok ms)
unfolding build_milestones
build_parts t l ms h =
    let (lo, b, r) : (pos 1 ≤ℤ t)
        × ((1 ≤ length l) × (length l ≤ 16))
        × (reconciled (validate 0 0 0 l) (derive t (pos 0) 0 l) ≡ ok ms) =
      ground arith in
    let (v, d) = reconciled_ok (validate 0 0 0 l) (derive t (pos 0) 0 l) ms r in (lo, b, v, d)

-- A schedule is built only of one to sixteen milestones whose percentages add up to the whole and whose
-- dates increase strictly, for a positive total. The amounts are not negative and add up to the total
-- exactly, and nothing is verified or released.
pub build_milestones-Reconciles :
    (t : ℤ) (l : List MilestoneInput) (ms : List Milestone)
    → build_milestones t l ≡ ok ms
    → Reconciles t l ms
build_milestones-Reconciles t [] ms h =
    let (_, (lo, _), _, _) = build_parts t [] ms h in absurd (omega (arith, lo))
build_milestones-Reconciles (negsuc n) (x ∷ l) ms h =
    let (lo, _, _, _) = build_parts (negsuc n) (x ∷ l) ms h in absurd (omega (arith, lo))
build_milestones-Reconciles (pos n) (x ∷ l) ms h =
    let (lo, b, v, d) = build_parts (pos n) (x ∷ l) ms h in
    let all = validate_sum 0 0 0 10000 (x ∷ l) v in
    let all' : percentages (x ∷ l) ≡ 10000 = omega (arith, all) in
    record {
      positive = lo;
      fits = derive_fits (pos n) (pos 0) 0 x l ms d;
      whole = all';
      exact = rw (derive-sum (pos n) (pos 0) 0 x l ms d) (omega int_laws);
      nonneg = derive-Nonneg n 0 0 x l ms (rw (asked-percentages n (x ∷ l), all') (omega arith)) d;
      dated = derive-Dated (pos n) (pos 0) 0 10000 (x ∷ l) ms v d;
      fresh = derive-Fresh (pos n) (pos 0) 0 (x ∷ l) ms d;
      bounded = b;
    }
