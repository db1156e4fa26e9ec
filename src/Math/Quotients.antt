-- ===== src/Math/Quotients.antt =====
-- contracts/shared/src/math.rs: what `mul_div` and `basis_points` compute, on every branch.
use chain_verse_onchain.Common.{
  ℕ, ◌+◌, ◌-◌, ◌*◌, ◌^◌, fit_i128-none, subst, ◌/◌, ◌%◌, ◌≤◌, ◌<◌, ◌≡◌, refl, arith, ℤ, pos, negsuc,
  ◌*ℤ◌, ◌≤ℤ◌, div_ℤ, rem_ℤ, i128_max, ok, err, int_laws, ◌+ℤ◌, zero, suc, ◌==◌, if◌then◌else◌,
  +ℤ_pos, *ℤ_pos, fit_i128_pos, Bool-cases, inl, inr, dec_le, ◌⊎◌,
}
use chain_verse_onchain.Math.{
  MathError, Rounding, down, up, mul_div, round, overflow, divide_by_zero, negative_amount,
  mul_i128, add_i128, basis_points,
}

-- An independent description of rounding: `q` is the quotient of `n` by `d`, from below or above.
abbrev pub Rounds : Rounding → ℕ → ℕ → ℕ → Type 0
Rounds down n d q = (q * d ≤ n) × (n < (q + 1) * d)
Rounds up n d q = (n ≤ q * d) × (q * d < n + d)

-- The division by 1 is exact, and a larger divisor leaves room for the unit that is added.
div_room : (n d : ℕ) → 0 < d → (n % d ≡ 0 → ⊥) → n / d + 1 ≤ n
div_room n zero h inexact = elim h [ ]
div_room n (suc zero) h inexact = absurd (inexact (omega arith))
div_room n (suc (suc d)) h inexact = grind arith

rounded : Rounding → ℕ → ℕ → ℕ
rounded down n d = n / d
rounded up n d = if n % d == 0 then n / d else n / d + 1

rounded-Rounds : (r : Rounding) (n d : ℕ) → 0 < d → Rounds r n d (rounded r n d)
unfolding rounded
rounded-Rounds down n d h = (grind arith, grind arith)
rounded-Rounds up n d h = elim (Bool-cases (n % d == 0)) [
  | inl e ↦ rw e (grind arith, grind arith)
  | inr e ↦ rw e (grind arith, grind arith)
]

round_lem :
    (r : Rounding) (n d : ℕ)
    → 0 < d
    → pos n ≤ℤ i128_max
    → round r (pos n) (pos d) ≡ ok (pos (rounded r n d))
unfolding round div_ℤ rem_ℤ rounded add_i128
round_lem down n d h fits = refl
round_lem up n d h fits = ground (arith, div_room n d h, +ℤ_pos (n / d) 1, fit_i128_pos (n / d + 1))

mul_i128_pos : (a b : ℕ) → pos (a * b) ≤ℤ i128_max → mul_i128 (pos a) (pos b) ≡ ok (pos (a * b))
unfolding mul_i128
mul_i128_pos a b fits = rw (*ℤ_pos a b, fit_i128_pos (a * b) fits)

-- With valid inputs and a product in range `mul_div` returns, and its result is the quotient rounded
-- as asked; adding the unit never overflows.
pub mul_div-Rounds :
    (a b d : ℕ) (r : Rounding)
    → 0 < d
    → pos (a * b) ≤ℤ i128_max
    → (q : ℕ) × (mul_div (pos a) (pos b) (pos d) r ≡ ok (pos q)) × Rounds r (a * b) d q
unfolding mul_div
mul_div-Rounds a b d r h fits = (
  rounded r (a * b) d,
  ground (arith, mul_i128_pos a b fits, round_lem r (a * b) d h fits),
  rounded-Rounds r (a * b) d h,
)

-- Why `mul_div` refuses: each error names a fault of its inputs.
abbrev pub Refuses : MathError → ℤ → ℤ → ℤ → Type 0
Refuses overflow a b d = i128_max +ℤ pos 1 ≤ℤ a *ℤ b
Refuses divide_by_zero a b d = d ≡ pos 0
Refuses negative_amount a b d = (a ≤ℤ negsuc 0) ⊎ (b ≤ℤ negsuc 0) ⊎ (d ≤ℤ negsuc 0)
Refuses _ a b d = ⊥

-- Two readings of one refusal agree.
same_refusal :
    (a b d : ℤ) (r : Rounding) (e f : MathError)
    → mul_div a b d r ≡ err e
    → mul_div a b d r ≡ err f
    → Refuses f a b d
    → Refuses e a b d
same_refusal a b d r e f h k t = subst (λ x. Refuses x a b d) (cc) t

too_large :
    (a b d : ℕ) (r : Rounding)
    → 2 ^ 127 ≤ a * b
    → mul_div (pos a) (pos b) (pos (suc d)) r ≡ err overflow
unfolding mul_div
too_large a b d r h = ground (arith, *ℤ_pos a b, fit_i128-none (a * b) h)

Refuses-pos :
    (a b d : ℕ) (r : Rounding) (e : MathError)
    → mul_div (pos a) (pos b) (pos d) r ≡ err e
    → Refuses e (pos a) (pos b) (pos d)
unfolding mul_div
Refuses-pos a b zero r e h =
    same_refusal (pos a) (pos b) (pos 0) r e divide_by_zero h (ground arith) refl
Refuses-pos a b (suc d) r e h = elim (dec_le (a * b) (2 ^ 127 - 1)) [
  | yes fits ↦ absurd (ground (arith, mul_div-Rounds a b (suc d) r (omega arith) (omega arith)))
  | no over ↦
      same_refusal (pos a) (pos b) (pos (suc d)) r e overflow h (too_large a b d r (omega arith))
        (rw *ℤ_pos (omega int_laws))
]

-- An error of `mul_div` tells the truth: `overflow` that the product exceeds an `i128`,
-- `divide_by_zero` that the denominator is zero, `negative_amount` that an input is negative; no
-- other error is returned.
pub mul_div-Refuses :
    (a b d : ℤ) (r : Rounding) (e : MathError) → mul_div a b d r ≡ err e → Refuses e a b d
unfolding mul_div
mul_div-Refuses (pos a) (pos b) (pos d) r e h = Refuses-pos a b d r e h
mul_div-Refuses (pos a) (pos b) (negsuc d) r e h =
    same_refusal (pos a) (pos b) (negsuc d) r e negative_amount h (ground arith)
      (inr (inr (omega arith)))
mul_div-Refuses (pos a) (negsuc b) d r e h =
    same_refusal (pos a) (negsuc b) d r e negative_amount h (ground arith) (inr (inl (omega arith)))
mul_div-Refuses (negsuc a) b d r e h =
    same_refusal (negsuc a) b d r e negative_amount h (ground arith) (inl (omega arith))

at_most : (r : Rounding) (n k q : ℕ) → k ≤ 10_000 → Rounds r (n * k) 10_000 q → q ≤ n
at_most down n k q h (lo, hi) = grind arith
at_most up n k q h (lo, hi) = grind arith

-- What `basis_points` charges on an amount never exceeds the amount, at a rate of at most 100 %.
pub basis_points-le :
    (amount bps : ℕ) (r : Rounding)
    → bps ≤ 10_000
    → pos (amount * bps) ≤ℤ i128_max
    → (q : ℕ) × (basis_points (pos amount) (pos bps) r ≡ ok (pos q)) × (q ≤ amount)
unfolding basis_points
basis_points-le amount bps r h fits =
    let (q, e, rounds) = mul_div-Rounds amount bps 10_000 r (omega arith) fits in
    (q, e, at_most r amount bps q h rounds)
