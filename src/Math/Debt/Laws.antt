-- ===== src/Math/Debt/Laws.antt =====
-- `DebtAccount`: every method is all-or-nothing, keeps both balances in range, and the balances
-- reconcile with what was deposited, charged, paid, waived and withdrawn.
use chain_verse_onchain.Common.{
  ◌≡◌, sym, subst, true, List, [], ◌∷◌, arith, ℤ, pos, ◌+ℤ◌, ◌-ℤ◌, ◌≤ℤ◌, i128_max, fit_i128,
  int_laws, Result, ok, err,
}
use chain_verse_onchain.Math.{MathError}
use chain_verse_onchain.Math.Debt.{
  DebtAccount, new, deposit, charge, pay, waive, pay_from_deposit, withdraw, is_well_formed,
}

-- Both balances are amounts that an `i128` holds and that are not negative.
pub record IsValid (s : DebtAccount) : Type 0 where
  pub deposit_nonneg : pos 0 ≤ℤ s.deposit
  pub deposit_fits : s.deposit ≤ℤ i128_max
  pub outstanding_nonneg : pos 0 ≤ℤ s.outstanding
  pub outstanding_fits : s.outstanding ≤ℤ i128_max

-- What a call moved: the amounts deposited, charged, paid, waived, paid from the deposit, withdrawn.
pub data Call : Type 0 where
  deposits charges pays waives pays_from_deposit withdraws : ℤ → Call

-- A call of a method, its result forgotten.
abbrev forget :
    {A : Type 0} → Result MathError A × DebtAccount → Result MathError (Unit {0}) × DebtAccount
forget (ok a, s) = (ok tt, s)
forget (err e, s) = (err e, s)

unfoldable pub apply : Call → DebtAccount → Result MathError (Unit {0}) × DebtAccount
apply (deposits x) s = deposit x s
apply (charges x) s = charge x s
apply (pays x) s = pay x s
apply (waives x) s = waive x s
apply (pays_from_deposit x) s = forget (pay_from_deposit x s)
apply (withdraws x) s = withdraw x s

-- What a successful call does to the two balances, written independently of the methods.
abbrev pub deposit_change : Call → ℤ
deposit_change (deposits x) = x
deposit_change (pays_from_deposit x) = pos 0 -ℤ x
deposit_change (withdraws x) = pos 0 -ℤ x
deposit_change _ = pos 0

abbrev pub outstanding_change : Call → ℤ
outstanding_change (charges x) = x
outstanding_change (pays x) = pos 0 -ℤ x
outstanding_change (waives x) = pos 0 -ℤ x
outstanding_change (pays_from_deposit x) = pos 0 -ℤ x
outstanding_change _ = pos 0

abbrev pub Effect : Call → DebtAccount → Result MathError (Unit {0}) × DebtAccount → Type 0
Effect c s (ok _, t) =
    IsValid t
    × (t.deposit ≡ s.deposit +ℤ deposit_change c)
    × (t.outstanding ≡ s.outstanding +ℤ outstanding_change c)
Effect c s (err e, t) = t ≡ s

deposit-Effect : (x : ℤ) (s : DebtAccount) → IsValid s → Effect (deposits x) s (deposit x s)
unfolding deposit fit_i128
deposit-Effect x s v = grind int_laws

charge-Effect : (x : ℤ) (s : DebtAccount) → IsValid s → Effect (charges x) s (charge x s)
unfolding charge fit_i128
charge-Effect x s v = grind int_laws

pay-Effect : (x : ℤ) (s : DebtAccount) → IsValid s → Effect (pays x) s (pay x s)
unfolding pay fit_i128
pay-Effect x s v = grind int_laws

waive-Effect : (x : ℤ) (s : DebtAccount) → IsValid s → Effect (waives x) s (waive x s)
unfolding waive fit_i128
waive-Effect x s v = grind int_laws

withdraw-Effect : (x : ℤ) (s : DebtAccount) → IsValid s → Effect (withdraws x) s (withdraw x s)
unfolding withdraw fit_i128
withdraw-Effect x s v = grind int_laws

pay_from_deposit-Effect :
    (x : ℤ) (s : DebtAccount)
    → IsValid s
    → Effect (pays_from_deposit x) s (forget (pay_from_deposit x s))
unfolding pay_from_deposit fit_i128
pay_from_deposit-Effect x s v = grind int_laws

-- Each method is all-or-nothing on a valid account: it fails and leaves the account as it was, or it
-- succeeds, changes each balance by exactly the amounts of the call, and leaves the account valid.
pub apply-Effect : (c : Call) (s : DebtAccount) → IsValid s → Effect c s (apply c s)
unfolding apply
apply-Effect (deposits x) s v = deposit-Effect x s v
apply-Effect (charges x) s v = charge-Effect x s v
apply-Effect (pays x) s v = pay-Effect x s v
apply-Effect (waives x) s v = waive-Effect x s v
apply-Effect (pays_from_deposit x) s v = pay_from_deposit-Effect x s v
apply-Effect (withdraws x) s v = withdraw-Effect x s v

-- What the successful calls of a history moved.
pub record Totals : Type 0 where
  pub deposited : ℤ
  pub charged : ℤ
  pub paid : ℤ
  pub waived : ℤ
  pub paid_from_deposit : ℤ
  pub withdrawn : ℤ

abbrev pub nothing : Totals
nothing = record {
  deposited = pos 0;
  charged = pos 0;
  paid = pos 0;
  waived = pos 0;
  paid_from_deposit = pos 0;
  withdrawn = pos 0;
}

abbrev tally : Call → Totals → Totals
tally (deposits x) t = record t { deposited = t.deposited +ℤ x }
tally (charges x) t = record t { charged = t.charged +ℤ x }
tally (pays x) t = record t { paid = t.paid +ℤ x }
tally (waives x) t = record t { waived = t.waived +ℤ x }
tally (pays_from_deposit x) t = record t {
  paid = t.paid +ℤ x;
  paid_from_deposit = t.paid_from_deposit +ℤ x;
}
tally (withdraws x) t = record t { withdrawn = t.withdrawn +ℤ x }

abbrev tally_ok : Call → Result MathError (Unit {0}) → Totals → Totals
tally_ok c (ok _) t = tally c t
tally_ok c (err _) t = t

-- A history of calls, the failed ones included.
unfoldable pub run : List Call → DebtAccount → Totals → DebtAccount × Totals
run [] s t = (s, t)
run (c ∷ cs) s t = let (r, s') = apply c s in run cs s' (tally_ok c r t)

pub record Reconciles (s : DebtAccount) (t : Totals) : Type 0 where
  pub valid : IsValid s
  pub owed : s.outstanding ≡ t.charged -ℤ t.paid -ℤ t.waived
  pub held : s.deposit ≡ t.deposited -ℤ t.withdrawn -ℤ t.paid_from_deposit

tally-Reconciles :
    (c : Call) (s u : DebtAccount) (t : Totals)
    → Reconciles s t
    → IsValid u
    → u.deposit ≡ s.deposit +ℤ deposit_change c
    → u.outstanding ≡ s.outstanding +ℤ outstanding_change c
    → Reconciles u (tally c t)
tally-Reconciles (deposits x) s u t h v d o = record {
  valid = v;
  owed = grind int_laws;
  held = grind int_laws;
}
tally-Reconciles (charges x) s u t h v d o = record {
  valid = v;
  owed = grind int_laws;
  held = grind int_laws;
}
tally-Reconciles (pays x) s u t h v d o = record {
  valid = v;
  owed = grind int_laws;
  held = grind int_laws;
}
tally-Reconciles (waives x) s u t h v d o = record {
  valid = v;
  owed = grind int_laws;
  held = grind int_laws;
}
tally-Reconciles (pays_from_deposit x) s u t h v d o = record {
  valid = v;
  owed = grind int_laws;
  held = grind int_laws;
}
tally-Reconciles (withdraws x) s u t h v d o = record {
  valid = v;
  owed = grind int_laws;
  held = grind int_laws;
}

step-Reconciles :
    (c : Call) (s u : DebtAccount) (t : Totals) (r : Result MathError (Unit {0}))
    → Reconciles s t
    → Effect c s (r, u)
    → Reconciles u (tally_ok c r t)
step-Reconciles c s u t (ok _) h (v, d, o) = tally-Reconciles c s u t h v d o
step-Reconciles c s u t (err e) h same = subst (λ x. Reconciles x t) (sym same) h

run-Reconciles :
    (cs : List Call) (s : DebtAccount) (t : Totals)
    → Reconciles s t
    → let (s', t') = run cs s t in Reconciles s' t'
unfolding run
run-Reconciles [] s t h = h
run-Reconciles (c ∷ cs) s t h =
    let (r, s') = apply c s in
    run-Reconciles cs s' (tally_ok c r t) (step-Reconciles c s s' t r h (apply-Effect c s h.valid))

-- After any history of calls on a new account, failed calls included, both balances are non-negative
-- and fit an `i128`, what is owed is what was charged less what was paid and waived, and the deposit
-- is what was deposited less what was withdrawn and paid from it.
pub run-new-Reconciles : (cs : List Call) → let (s, t) = run cs new nothing in Reconciles s t
unfolding new
run-new-Reconciles cs =
    run-Reconciles cs _ nothing
      (record { valid = omega arith; owed = omega int_laws; held = omega int_laws })

-- `is_well_formed` answers true after any history of calls on a new account.
pub run-new-is_well_formed : (cs : List Call) → is_well_formed (run cs new nothing).0 ≡ true
unfolding is_well_formed
run-new-is_well_formed cs =
    let h : IsValid (run cs new nothing).0 = (run-new-Reconciles cs).valid in ground (arith, h)
