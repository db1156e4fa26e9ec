-- ===== src/Math/Debt.antt =====
-- contracts/shared/src/math.rs, second half: `DebtAccount`. A method returns its result and the
-- account as it is left, also when it fails half-way.
pub mod Laws
use chain_verse_onchain.Common.{
  Bool, true, false, ℤ, pos, ltb_ℤ, leb_ℤ, ◌&&◌, ◌||◌, if◌then◌else◌, Result, ok, err,
}
use chain_verse_onchain.Math.{MathError, negative_result, add_i128, sub_i128, require_non_negative}

pub record DebtAccount : Type 0 where
  pub deposit : ℤ
  pub outstanding : ℤ

-- A method of `&mut self` that may fail.
abbrev pub Method : Type 0 → Type 0
Method A = DebtAccount → Result MathError A × DebtAccount

infixl 5 ◌>>=◌ ◌>>◌
abbrev pub ◌>>=◌ : {A B : Type 0} → Method A → (A → Method B) → Method B
◌>>=◌ m f s = let (r, t) = m s in elim r [ ok a ↦ f a t | err e ↦ (err e, t) ]

abbrev pub ◌>>◌ : {A B : Type 0} → Method A → Method B → Method B
m >> k = m >>= λ _. k

-- `r?`, of a value computed from the account.
abbrev try : {A : Type 0} → (DebtAccount → Result MathError A) → Method A
try r s = (r s, s)

abbrev raise_if : (DebtAccount → Bool) → MathError → Method (Unit {0})
raise_if b e s = (if b s then err e else ok tt, s)

abbrev set_deposit : ℤ → Method (Unit {0})
set_deposit x s = (ok tt, record s { deposit = x })

abbrev set_outstanding : ℤ → Method (Unit {0})
set_outstanding x s = (ok tt, record s { outstanding = x })

abbrev return : {A : Type 0} → A → Method A
return a s = (ok a, s)

unfoldable pub new : DebtAccount
new = record { deposit = pos 0; outstanding = pos 0 }

unfoldable pub deposit : ℤ → Method (Unit {0})
unfolding require_non_negative add_i128
deposit amount = do
  try (λ _. require_non_negative amount)
  sum ← try (λ s. add_i128 s.deposit amount)
  set_deposit sum

unfoldable pub charge : ℤ → Method (Unit {0})
unfolding require_non_negative add_i128
charge amount = do
  try (λ _. require_non_negative amount)
  sum ← try (λ s. add_i128 s.outstanding amount)
  set_outstanding sum

unfoldable pub pay : ℤ → Method (Unit {0})
unfolding require_non_negative sub_i128
pay amount = do
  try (λ _. require_non_negative amount)
  raise_if (λ s. ltb_ℤ s.outstanding amount) negative_result
  rest ← try (λ s. sub_i128 s.outstanding amount)
  set_outstanding rest

unfoldable pub waive : ℤ → Method (Unit {0})
unfolding require_non_negative sub_i128
waive amount = do
  try (λ _. require_non_negative amount)
  raise_if (λ s. ltb_ℤ s.outstanding amount) negative_result
  rest ← try (λ s. sub_i128 s.outstanding amount)
  set_outstanding rest

unfoldable pub pay_from_deposit : ℤ → Method ℤ
unfolding require_non_negative sub_i128
pay_from_deposit amount = do
  try (λ _. require_non_negative amount)
  raise_if (λ s. ltb_ℤ s.outstanding amount || ltb_ℤ s.deposit amount) negative_result
  rest ← try (λ s. sub_i128 s.deposit amount)
  set_deposit rest
  owed ← try (λ s. sub_i128 s.outstanding amount)
  set_outstanding owed
  return amount

unfoldable pub withdraw : ℤ → Method (Unit {0})
unfolding require_non_negative sub_i128
withdraw amount = do
  try (λ _. require_non_negative amount)
  raise_if (λ s. ltb_ℤ (pos 0) s.outstanding) negative_result
  raise_if (λ s. ltb_ℤ s.deposit amount) negative_result
  rest ← try (λ s. sub_i128 s.deposit amount)
  set_deposit rest

unfoldable pub is_well_formed : DebtAccount → Bool
is_well_formed s = leb_ℤ (pos 0) s.deposit && leb_ℤ (pos 0) s.outstanding
