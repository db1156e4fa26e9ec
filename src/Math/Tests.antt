-- ===== src/Math/Tests.antt =====
-- The arithmetic helpers at concrete inputs, the extrema of the source's tests among them.
use chain_verse_onchain.Common.{
  ℕ, ◌-◌, ◌^◌, ◌≡◌, refl, List, [], ◌∷◌, arith, pos, negsuc, ◌+ℤ◌, ◌-ℤ◌, ◌*ℤ◌, div_ℤ, rem_ℤ,
  i128_min, ok, err,
}
use chain_verse_onchain.Math.{
  overflow, underflow, negative_amount, down, up, add_u32, sub_u32, add_i128, sub_i128, mul_i128,
  div_i128, mul_div,
}
use chain_verse_onchain.Math.Quotients.{Rounds, Refuses, mul_div-Rounds, mul_div-Refuses}
use chain_verse_onchain.Math.Debt.{
  DebtAccount, new, deposit, charge, pay, pay_from_deposit, withdraw,
}
use chain_verse_onchain.Math.Debt.Laws.{
  Call, deposits, charges, pays, pays_from_deposit, withdraws, apply, IsValid, run, nothing,
  Reconciles, run-new-Reconciles,
}

extrema :
    (add_u32 (2 ^ 32 - 1) 1 ≡ err overflow)
    × (sub_u32 0 1 ≡ err underflow)
    × (add_i128 i128_min (negsuc 0) ≡ err overflow)
    × (sub_i128 i128_min (pos 1) ≡ err underflow)
    × (mul_i128 i128_min (negsuc 0) ≡ err overflow)
    × (div_i128 i128_min (negsuc 0) ≡ err overflow)
    × (div_i128 (negsuc 6) (pos 2) ≡ ok (negsuc 2))
unfolding add_u32 sub_u32 add_i128 sub_i128 mul_i128 div_i128 ◌+ℤ◌ ◌-ℤ◌ ◌*ℤ◌ div_ℤ
extrema = (refl, refl, refl, refl, refl, refl, refl)

seven_times_three :
    (mul_div (pos 7) (pos 3) (pos 10) down ≡ ok (pos 2))
    × (mul_div (pos 7) (pos 3) (pos 10) up ≡ ok (pos 3))
unfolding mul_div ◌+ℤ◌ ◌*ℤ◌ div_ℤ rem_ℤ
seven_times_three = (refl, refl)

mul_div-Rounds_example :
    (q : ℕ) × (mul_div (pos 7) (pos 3) (pos 10) up ≡ ok (pos q)) × Rounds up 21 10 q
mul_div-Rounds_example = mul_div-Rounds 7 3 10 up (omega arith) (omega arith)

mul_div-Refuses_example : Refuses negative_amount (negsuc 0) (pos 1) (pos 1)
unfolding mul_div
mul_div-Refuses_example = mul_div-Refuses (negsuc 0) (pos 1) (pos 1) down negative_amount refl

abbrev account : DebtAccount
account = record { deposit = pos 50; outstanding = pos 30 }

account-IsValid : IsValid account
account-IsValid = omega arith

-- The withdrawal fails while 10 are owed, and succeeds when they are paid.
abbrev history : List Call
history =
    deposits (pos 100)
    ∷ charges (pos 30)
    ∷ pays_from_deposit (pos 20)
    ∷ withdraws (pos 5)
    ∷ pays (pos 10)
    ∷ withdraws (pos 5)
    ∷ []

history_ends : (run history new nothing).0 ≡ record { deposit = pos 75; outstanding = pos 0 }
unfolding run new apply deposit charge pay pay_from_deposit withdraw ◌+ℤ◌ ◌-ℤ◌
history_ends = refl

run-new-Reconciles_example : let (s, t) = run history new nothing in Reconciles s t
run-new-Reconciles_example = run-new-Reconciles history
