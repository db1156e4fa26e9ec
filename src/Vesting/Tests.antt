-- ===== src/Vesting/Tests.antt =====
-- The vesting contract run on a concrete ledger, and its theorems at those states.
use chain_verse_onchain.Common.{
  ℕ, ◌≡◌, refl, arith, true, false, not, ◌&&◌, some, [], ◌==◌, pos, ◌+ℤ◌, ◌-ℤ◌, ◌≤ℤ◌, insert,
  nat_eq, if◌then◌else◌, Env, Outcome, done, fail, trap,
}
use chain_verse_onchain.Common.Ledger.{ledger}
use chain_verse_onchain.Vesting.{
  VestingSchedule, VestingError, calculate_vested_amount, grant_vesting, claim, revoke,
}
use chain_verse_onchain.Vesting.Amounts.{IsSchedule, vested_grows}
use chain_verse_onchain.Vesting.Claims.{State, claim_pays}

abbrev at : ℕ → Env
at t = record { timestamp = t; sequence = 7; current_contract = 0; authorized = λ a. not (a == 0) }

-- 1000 units over a day, of which an hour is the cliff.
abbrev schedule : VestingSchedule
schedule = record {
  beneficiary = 2;
  amount = pos 1000;
  start_time = 0;
  cliff = 3600;
  duration = 86_400;
  claimed = false;
  revoked = false;
  revoke_time = 0;
}

schedule-IsSchedule : IsSchedule schedule
schedule-IsSchedule = record {
  positive = omega arith;
  fits = omega arith;
  cliff_first = omega arith;
}

abbrev deployed : State ledger
deployed = record {
  tokens = λ t a. if (t == 10) && (a == 0) then pos 5000 else pos 0;
  store = record {
    initialized = true;
    admin = some 1;
    token = some 10;
    governance = some 4;
    counter = some 0;
    schedules = [];
  };
  events = [];
}

abbrev result : {A : Type 0} → State ledger → Outcome VestingError (A × State ledger) → State ledger
result c (done (_, d)) = d
result c (fail e) = c
result c trap = c

given : State ledger
unfolding grant_vesting
given = result deployed (grant_vesting ledger (at 0) 1 2 (pos 1000) 0 3600 86_400 deployed)

claimed_half : State ledger
unfolding given claim calculate_vested_amount ◌+ℤ◌ ◌-ℤ◌
claimed_half = result given (claim ledger (at 45_000) 1 2 given)

taken : State ledger
unfolding given revoke
taken = result given (revoke ledger (at 5000) 1 1 3600 given)

-- Half way between the cliff and the end half of the grant is paid, and the rest never.
claims :
    (claimed_half.tokens 10 2 ≡ pos 500)
    × (claim ledger (at 90_000) 1 2 claimed_half ≡ fail VestingError.already_claimed)
    × (claim ledger (at 3599) 1 2 given ≡ fail VestingError.not_vested)
unfolding claimed_half
claims = (refl, refl, refl)

vested_grows_example : pos 500 ≤ℤ pos 1000
unfolding calculate_vested_amount
vested_grows_example =
    vested_grows schedule 45_000 86_400 (pos 500) (pos 1000) schedule-IsSchedule (omega arith) refl
      refl

claim_pays_example :
    ((at 45_000).authorized 2 ≡ true)
    × (schedule.beneficiary ≡ 2)
    × (schedule.claimed ≡ false)
    × (schedule.revoked ≡ false)
    × (calculate_vested_amount schedule 45_000 ≡ some (pos 500))
    × (pos 1 ≤ℤ pos 500)
    × (pos 500 ≤ℤ pos 1000)
    × (ledger.transfer given.tokens 10 0 2 (pos 500) ≡ some claimed_half.tokens)
    × (claimed_half.store ≡ record (given.store) {
      schedules = insert 1 (record schedule { claimed = true }) given.store.schedules;
    })
unfolding claimed_half
claim_pays_example =
    claim_pays ledger (at 45_000) 1 2 (pos 500) given claimed_half schedule 10 schedule-IsSchedule
      refl refl refl
