-- ===== src/Math.antt =====
-- contracts/shared/src/math.rs, first half: the checked primitives, and multiply-then-divide with an
-- explicit rounding mode. A `u32` or `u64` is a natural number and an `i128` an integer; each checked
-- operation tests the range of its type.
pub mod Debt
pub mod Quotients
mod Tests
use chain_verse_onchain.Common.{
  ℕ, ◌+◌, ◌-◌, ◌≡◌, Bool, true, false, Option, none, some, ℤ, pos, ◌+ℤ◌, ◌-ℤ◌, ◌*ℤ◌, div_ℤ, rem_ℤ,
  ltb_ℤ, leb_ℤ, eq_ℤ, leb, u32_max, u64_max, fit_i128, if◌then◌else◌, Result, ok, err,
}

pub data MathError : Type 0 where
  overflow underflow divide_by_zero negative_result negative_amount : MathError

pub data Rounding : Type 0 where
  down up : Rounding

infixl 5 ◌>>=◌ ◌>>◌
abbrev pub ◌>>=◌ :
    {A B : Type 0} → Result MathError A → (A → Result MathError B) → Result MathError B
ok a >>= f = f a
err e >>= f = err e

abbrev pub ◌>>◌ : {A B : Type 0} → Result MathError A → Result MathError B → Result MathError B
ok a >> k = k
err e >> k = err e

-- `o.ok_or(e)`
abbrev pub ok_or : {A : Type 0} → Option A → MathError → Result MathError A
ok_or none e = err e
ok_or (some a) e = ok a

unfoldable pub add_u32 : ℕ → ℕ → Result MathError ℕ
add_u32 a b = if leb (a + b) u32_max then ok (a + b) else err overflow

unfoldable pub sub_u32 : ℕ → ℕ → Result MathError ℕ
sub_u32 a b = if leb b a then ok (a - b) else err underflow

unfoldable pub add_u64 : ℕ → ℕ → Result MathError ℕ
add_u64 a b = if leb (a + b) u64_max then ok (a + b) else err overflow

unfoldable pub sub_u64 : ℕ → ℕ → Result MathError ℕ
sub_u64 a b = if leb b a then ok (a - b) else err underflow

unfoldable pub add_i128 : ℤ → ℤ → Result MathError ℤ
unfolding fit_i128
add_i128 a b = ok_or (fit_i128 (a +ℤ b)) overflow

unfoldable pub sub_i128 : ℤ → ℤ → Result MathError ℤ
unfolding fit_i128
sub_i128 a b = ok_or (fit_i128 (a -ℤ b)) underflow

unfoldable pub mul_i128 : ℤ → ℤ → Result MathError ℤ
unfolding fit_i128
mul_i128 a b = ok_or (fit_i128 (a *ℤ b)) overflow

unfoldable pub div_i128 : ℤ → ℤ → Result MathError ℤ
unfolding fit_i128
div_i128 a b = if eq_ℤ b (pos 0) then err divide_by_zero else ok_or (fit_i128 (div_ℤ a b)) overflow

unfoldable pub require_non_negative : ℤ → Result MathError ℤ
require_non_negative amount = if ltb_ℤ amount (pos 0) then err negative_amount else ok amount

-- `if denominator <= 0 { … }`
unfoldable pub require_denominator : ℤ → Result MathError ℤ
require_denominator d =
    if leb_ℤ d (pos 0)
    then err (if eq_ℤ d (pos 0) then divide_by_zero else negative_amount)
    else ok d

-- `match rounding { … }`
unfoldable pub round : Rounding → ℤ → ℤ → Result MathError ℤ
unfolding add_i128
round down product d = ok (div_ℤ product d)
round up product d =
    if eq_ℤ (rem_ℤ product d) (pos 0)
    then ok (div_ℤ product d)
    else add_i128 (div_ℤ product d) (pos 1)

unfoldable pub mul_div : ℤ → ℤ → ℤ → Rounding → Result MathError ℤ
unfolding require_non_negative require_denominator mul_i128 round
mul_div a b d rounding = do
  require_non_negative a
  require_non_negative b
  require_denominator d
  product ← mul_i128 a b
  round rounding product d

unfoldable pub basis_points : ℤ → ℤ → Rounding → Result MathError ℤ
unfolding mul_div
basis_points amount bps rounding = mul_div amount bps (pos 10_000) rounding
