-- ===== src/ScholarshipMilestones/Schedules.antt =====
-- contracts/scholarship-milestones/src/lib.rs: what holds of a schedule, and how a milestone that is verified or
-- released keeps it.
use chain_verse_onchain.Common.{
  ℕ, zero, suc, ◌≡◌, refl, ◌⊎◌, inl, inr, arith, true, false, some, List, [], ◌∷◌, ℤ, pos, ◌+ℤ◌,
  ◌≤ℤ◌, fit_i128, fit_i128-some, i128_max, Bool-cases, int_laws, ok, if◌then◌else◌,
}
use chain_verse_onchain.ScholarshipMilestones.{
  Milestone, MilestoneSchedule, get, set, some_released, check_earlier, add_released,
}
use chain_verse_onchain.ScholarshipMilestones.Amounts.{sum, Nonneg, After, Dated, Fresh}

-- The milestones that are released come before the others, and each of them is verified.
abbrev pub InOrder : List Milestone → Type 0
InOrder [] = Unit
InOrder (m ∷ l) =
    ((m.released ≡ false) ⊎ (m.verified ≡ true))
    × ((m.released ≡ true) ⊎ (some_released l ≡ false))
    × InOrder l

-- What has been released together.
abbrev pub released_sum : List Milestone → ℤ
released_sum [] = pos 0
released_sum (m ∷ l) = (if m.released then m.amount else pos 0) +ℤ released_sum l

-- What holds of the schedule that is stored for an award.
pub record Fits (award_id : ℕ) (s : MilestoneSchedule) : Type 0 where
  pub keyed : s.award_id ≡ award_id
  pub positive : pos 1 ≤ℤ s.total_amount
  pub bounded : s.total_amount ≤ℤ i128_max
  pub exact : sum s.milestones ≡ s.total_amount
  pub nonneg : Nonneg s.milestones
  pub dated : Dated s.milestones
  pub ordered : InOrder s.milestones
  pub closed : (s.active ≡ true) ⊎ (some_released s.milestones ≡ false)

-- Another milestone with the same amount and date in the place of one.
module _ (x : Milestone) where
  pub sum-set :
      (l : List Milestone) (i : ℕ) (m : Milestone)
      → get l i ≡ some m
      → x.amount ≡ m.amount
      → sum (set l i x) ≡ sum l
  sum-set [] i m h e = refl
  sum-set (k ∷ l) zero m h e = ground arith
  sum-set (k ∷ l) (suc i) m h e = rw (sum-set l i m h e) refl

  pub set-Nonneg :
      (l : List Milestone) (i : ℕ) (m : Milestone)
      → get l i ≡ some m
      → x.amount ≡ m.amount
      → Nonneg l
      → Nonneg (set l i x)
  set-Nonneg [] i m h e n = n
  set-Nonneg (k ∷ l) zero m h e (n, ns) = (ground arith, ns)
  set-Nonneg (k ∷ l) (suc i) m h e (n, ns) = (n, set-Nonneg l i m h e ns)

  set-After :
      (d : ℕ) (l : List Milestone) (i : ℕ) (m : Milestone)
      → get l i ≡ some m
      → x.due_at ≡ m.due_at
      → After d l
      → After d (set l i x)
  set-After d [] i m h e a = a
  set-After d (k ∷ l) zero m h e (a, ds) =
      let same : x.due_at ≡ k.due_at = ground arith in (rw same a, rw same ds)
  set-After d (k ∷ l) (suc i) m h e (a, ds) = (a, set-After k.due_at l i m h e ds)

  pub set-Dated :
      (l : List Milestone) (i : ℕ) (m : Milestone)
      → get l i ≡ some m
      → x.due_at ≡ m.due_at
      → Dated l
      → Dated (set l i x)
  set-Dated [] i m h e a = a
  set-Dated (k ∷ l) zero m h e a = let same : x.due_at ≡ k.due_at = ground arith in rw same a
  set-Dated (k ∷ l) (suc i) m h e a = set-After k.due_at l i m h e a

  some_released-set :
      (l : List Milestone) (i : ℕ) (m : Milestone)
      → get l i ≡ some m
      → x.released ≡ m.released
      → some_released (set l i x) ≡ some_released l
  some_released-set [] i m h e = refl
  some_released-set (k ∷ l) zero m h e = ground arith
  some_released-set (k ∷ l) (suc i) m h e = rw (some_released-set l i m h e) refl

  -- A milestone that is verified.
  pub verified-InOrder :
      (l : List Milestone) (i : ℕ) (m : Milestone)
      → get l i ≡ some m
      → x.released ≡ m.released
      → x.verified ≡ true
      → InOrder l
      → InOrder (set l i x)
  verified-InOrder [] i m h e v o = o
  verified-InOrder (k ∷ l) zero m h e v (a, b, o) =
      let same : x.released ≡ k.released = ground arith in (inr v, rw same b, o)
  verified-InOrder (k ∷ l) (suc i) m h e v (a, b, o) =
      (a, rw (some_released-set l i m h e) b, verified-InOrder l i m h e v o)

  -- A verified milestone that is released when all before it are.
  pub released-InOrder :
      (l : List Milestone) (i : ℕ)
      → check_earlier i l ≡ ok tt
      → x.released ≡ true
      → x.verified ≡ true
      → InOrder l
      → InOrder (set l i x)
  unfolding check_earlier
  released-InOrder [] i c e v o = o
  released-InOrder (k ∷ l) zero c e v (a, b, o) = (inr v, inl e, o)
  released-InOrder (k ∷ l) (suc i) c e v (a, b, o) =
      let here : k.released ≡ true = ground arith in
      let rest : check_earlier i l ≡ ok tt = ground arith in
      (a, inl here, released-InOrder l i rest e v o)

pub Fresh-InOrder : (l : List Milestone) → Fresh l → InOrder l × (some_released l ≡ false)
Fresh-InOrder [] f = (tt, refl)
Fresh-InOrder (m ∷ l) (v, r, f) =
    let (o, n) = Fresh-InOrder l f in ((inl r, inr n, o), rw (r, n) refl)

pub released_sum_bounds :
    (l : List Milestone) → Nonneg l → (pos 0 ≤ℤ released_sum l) × (released_sum l ≤ℤ sum l)
released_sum_bounds [] n = (omega arith, omega arith)
released_sum_bounds (m ∷ l) (n, ns) =
    let (lo, hi) = released_sum_bounds l ns in (grind (int_laws, lo, n), grind (int_laws, hi, n))

zero_right : (t : ℤ) → t +ℤ pos 0 ≡ t
zero_right t = omega int_laws

pub zero_left : (t : ℤ) → pos 0 +ℤ t ≡ t
zero_left t = omega int_laws

+ℤ_assoc : (a b c : ℤ) → a +ℤ b +ℤ c ≡ a +ℤ (b +ℤ c)
+ℤ_assoc a b c = omega int_laws

-- The loop of `released_total` does not overflow.
pub add_released-sum :
    (l : List Milestone) (t : ℤ)
    → pos 0 ≤ℤ t
    → t +ℤ sum l ≤ℤ i128_max
    → Nonneg l
    → add_released t l ≡ ok (t +ℤ released_sum l)
unfolding add_released
add_released-sum [] t lo hi n = rw (zero_right t) refl
add_released-sum (m ∷ l) t lo hi (n, ns) =
    let (z, le) = released_sum_bounds l ns in
    elim (Bool-cases m.released) [
      | inl p ↦
          let fits : fit_i128 (t +ℤ m.amount) ≡ some (t +ℤ m.amount) =
            fit_i128-some (t +ℤ m.amount) (omega (int_laws, lo, n)) (omega (int_laws, hi, z, le)) in
          let rest =
            add_released-sum l (t +ℤ m.amount) (omega (int_laws, lo, n)) (omega (int_laws, hi))
              ns in
          rw (p, fits, rest, +ℤ_assoc t m.amount (released_sum l)) refl
      | inr p ↦
          let rest = add_released-sum l t lo (omega (int_laws, hi, n)) ns in
          rw (p, rest, zero_left (released_sum l)) refl
    ]
