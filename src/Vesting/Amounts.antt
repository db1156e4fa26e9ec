-- ===== src/Vesting/Amounts.antt =====
-- contracts/common/vesting.rs: the vested amount as a function of time.
use chain_verse_onchain.Common.{
  ℕ, ◌+◌, ◌-◌, ◌*◌, ◌/◌, ◌^◌, ◌≤◌, ◌<◌, ◌≡◌, arith, refl, ◌⊎◌, some, ℤ, pos, negsuc, ◌≤ℤ◌, i128_max,
  inl, inr, if◌then◌else◌, ltb, leb,
}
use chain_verse_onchain.Vesting.{VestingSchedule, vested_part, calculate_vested_amount}

share_le : (a v r : ℕ) → v ≤ r → 1 ≤ r → a * v / r ≤ a
share_le a v r h k = grind arith

share_mono : (a v w r : ℕ) → v ≤ w → a * v / r ≤ a * w / r
share_mono a v w r h = grind arith

-- A schedule that `grant_vesting` admits, with an amount that is an `i128`.
pub record IsSchedule (s : VestingSchedule) : Type 0 where
  pub positive : pos 1 ≤ℤ s.amount
  pub fits : s.amount ≤ℤ i128_max
  pub cliff_first : s.cliff ≤ s.duration

-- The linear part before the end is the truncated share of the time after the cliff.
part_share :
    (s : VestingSchedule) (a t : ℕ) (x : ℤ)
    → s.amount ≡ pos a
    → a ≤ 2 ^ 127 - 1
    → s.start_time + s.cliff ≤ t
    → t < s.start_time + s.duration
    → vested_part s t ≡ some x
    → x ≡ pos (a * (t - (s.start_time + s.cliff)) / (s.duration - s.cliff))
unfolding vested_part
part_share s a t x e le lo hi h =
    ground (arith, e, share_le a (t - (s.start_time + s.cliff)) (s.duration - s.cliff))

-- What has vested of `a` units at time `t`: nothing before the cliff, all at the end, and in between
-- the truncated share of the time after the cliff.
abbrev pub vested_at : VestingSchedule → (a t : ℕ) → ℕ
vested_at s a t =
    if ltb t (s.start_time + s.cliff)
    then 0
    else if leb (s.start_time + s.duration) t
    then a
    else a * (t - (s.start_time + s.cliff)) / (s.duration - s.cliff)

-- A computation that does not overflow gives the linear schedule.
pub calculate_vested_amount-vested_at :
    (s : VestingSchedule) (a t : ℕ) (x : ℤ)
    → s.amount ≡ pos a
    → IsSchedule s
    → calculate_vested_amount s t ≡ some x
    → x ≡ pos (vested_at s a t)
unfolding calculate_vested_amount
calculate_vested_amount-vested_at s a t x e w h =
    let le : a ≤ 2 ^ 127 - 1 = ground (arith, e, w.fits) in
    ground (arith, e, w.cliff_first, part_share s a t x e le)

vested_at-le : (s : VestingSchedule) (a t : ℕ) → s.cliff ≤ s.duration → vested_at s a t ≤ a
vested_at-le s a t h =
    ground (arith, share_le a (t - (s.start_time + s.cliff)) (s.duration - s.cliff))

vested_at_mono :
    (s : VestingSchedule) (a t u : ℕ)
    → s.cliff ≤ s.duration
    → t ≤ u
    → vested_at s a t ≤ vested_at s a u
vested_at_mono s a t u h k = ground (
  arith,
  share_le a (t - (s.start_time + s.cliff)) (s.duration - s.cliff),
  share_mono a (t - (s.start_time + s.cliff)) (u - (s.start_time + s.cliff)) (s.duration - s.cliff),
)

ℤ-cases : (x : ℤ) → ((a : ℕ) × (x ≡ pos a)) ⊎ ((n : ℕ) × (x ≡ negsuc n))
ℤ-cases (pos a) = inl (a, refl)
ℤ-cases (negsuc n) = inr (n, refl)

amount_of : (s : VestingSchedule) → IsSchedule s → (a : ℕ) × (s.amount ≡ pos a)
amount_of s w = elim (ℤ-cases s.amount) [
  | inl (a, e) ↦ (a, e)
  | inr (n, e) ↦ let lo : pos 1 ≤ℤ negsuc n = rw e at w.positive in absurd (omega (arith, lo))
]

-- Of an admitted schedule the vested amount is never negative and never more than the grant.
pub vested_bounds :
    (s : VestingSchedule) (t : ℕ) (x : ℤ)
    → IsSchedule s
    → calculate_vested_amount s t ≡ some x
    → (pos 0 ≤ℤ x) × (x ≤ℤ s.amount)
vested_bounds s t x w h =
    let (a, e) = amount_of s w in
    let is = calculate_vested_amount-vested_at s a t x e w h in
    let le = vested_at-le s a t w.cliff_first in rw (is, e) (omega arith, omega (arith, le))

-- Of an admitted schedule the vested amount never falls as time passes.
pub vested_grows :
    (s : VestingSchedule) (t u : ℕ) (x y : ℤ)
    → IsSchedule s
    → t ≤ u
    → calculate_vested_amount s t ≡ some x
    → calculate_vested_amount s u ≡ some y
    → x ≤ℤ y
vested_grows s t u x y w le h k =
    let (a, e) = amount_of s w in
    let first = calculate_vested_amount-vested_at s a t x e w h in
    let second = calculate_vested_amount-vested_at s a u y e w k in
    let grows = vested_at_mono s a t u w.cliff_first le in rw (first, second) (omega (arith, grows))
