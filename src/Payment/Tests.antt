-- ===== src/Payment/Tests.antt =====
-- The payment contract run on a concrete ledger, and its theorems at those states.
use chain_verse_onchain.Common.{
  ℕ, ◌≡◌, refl, arith, not, ◌&&◌, ◌||◌, none, [], pos, ◌+ℤ◌, ◌-ℤ◌, ◌*ℤ◌, div_ℤ, fit_i128, ◌==◌,
  if◌then◌else◌, Env, Outcome, done, fail, trap, nat_eq, pair_eq,
}
use chain_verse_onchain.Common.Ledger.{ledger}
use chain_verse_onchain.Payment.{
  ContractError, refund_window_expired, already_enrolled, PaymentRecord, read_fee_percent,
  read_instructor_balance,
}
use chain_verse_onchain.Payment.Calls
use chain_verse_onchain.Payment.Effects.{State, fee_of}
use chain_verse_onchain.Payment.Solvency.{owed, refund-pay_for_course}
use chain_verse_onchain.Payment.Histories.{Request, apply, IsCovered, Step, Reach, Reach-IsCovered}

-- The contract has address 0, the administrator 1, the students 2 and 3, the instructor 4.
abbrev env : Env
env = record { timestamp = 100; sequence = 7; current_contract = 0; authorized = λ a. not (a == 0) }

abbrev late_env : Env
late_env = record env { timestamp = 201 }

abbrev deployed : State ledger 0
deployed = record {
  tokens = λ t a. if (t == 10) && ((a == 2) || (a == 3)) then pos 5000 else pos 0;
  store = record {
    admin = none;
    token = none;
    fee_percent = none;
    refund_window_seconds = none;
    enrollments = [];
    payment_records = [];
    instructor_balances = [];
  };
  events = [];
}

abbrev result : State ledger 0 → Outcome ContractError (Unit {0} × State ledger 0) → State ledger 0
result c (done (_, d)) = d
result c (fail e) = c
result c trap = c

after : Request → State ledger 0 → State ledger 0
unfolding apply Calls.initialize Calls.set_fee Calls.pay_for_course Calls.calculate_fee Calls.refund
    Calls.withdraw_earnings fit_i128 ◌+ℤ◌ ◌-ℤ◌ ◌*ℤ◌ div_ℤ
after r c = result c (apply ledger 0 env r c)

opened : State ledger 0
unfolding after
opened = after (Request.initialize 1 10 500 100) deployed

bought : State ledger 0
unfolding opened
bought = after (Request.pay_for_course 2 77 4 (pos 1000)) opened

both : State ledger 0
unfolding bought
both = after (Request.pay_for_course 3 77 4 (pos 1000)) bought

returned : State ledger 0
unfolding both
returned = after (Request.refund 3 77) both

withdrawn : State ledger 0
unfolding bought
withdrawn = after (Request.withdraw_earnings 4) bought

books :
    (read_instructor_balance 4 both.store ≡ pos 1900)
    × (both.tokens 10 0 ≡ pos 2000)
    × (returned.tokens 10 0 ≡ pos 1000)
    × (returned.tokens 10 3 ≡ pos 5000)
    × (read_instructor_balance 4 returned.store ≡ pos 1900)
    × (withdrawn.tokens 10 4 ≡ pos 950)
    × (apply ledger 0 env (Request.pay_for_course 2 77 4 (pos 1000)) bought ≡ fail already_enrolled)
    × (apply ledger 0 late_env (Request.refund 2 77) bought ≡ fail refund_window_expired)
    × (apply ledger 0 env (Request.withdraw_earnings 4) returned ≡ trap)
unfolding both returned withdrawn
books = (refl, refl, refl, refl, refl, refl, refl, refl, refl)

opened-IsCovered : IsCovered ledger 0 0 opened
unfolding opened
opened-IsCovered = record { opened = refl; enough = ground arith }

history : Reach ledger 0 0 opened returned
unfolding returned apply
history =
    Reach.next
      (Reach.next
        (Reach.next Reach.here (
          Step.request env (Request.pay_for_course 2 77 4 (pos 1000)) opened bought refl refl refl))
        (Step.request env (Request.pay_for_course 3 77 4 (pos 1000)) bought both refl refl refl))
      (Step.request env (Request.refund 3 77) both returned refl refl refl)

Reach-IsCovered_example : IsCovered ledger 0 0 returned
Reach-IsCovered_example = Reach-IsCovered ledger 0 0 opened-IsCovered history

refund-pay_for_course_example :
    ((t a : ℕ) → returned.tokens t a ≡ bought.tokens t a)
    × (owed returned.store
        ≡ owed bought.store +ℤ (pos 1000 -ℤ fee_of (pos 1000) (read_fee_percent bought.store)))
unfolding returned
refund-pay_for_course_example =
    refund-pay_for_course ledger 0 env env 3 77 4 1 (pos 1000) bought both returned refl refl refl
      refl

abbrev payment : PaymentRecord
payment = record { student = 3; course_id = 77; amount = pos 1000; paid_at = 100 }
