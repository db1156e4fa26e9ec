-- ===== src/LibraryDeposits/Tests.antt =====
-- The deposit contract run on a concrete ledger, and its theorems at those states.
use chain_verse_onchain.Common.{
  ℕ, ◌≡◌, refl, arith, not, ◌&&◌, some, [], pos, ◌+ℤ◌, ◌-ℤ◌, fit_i128, ◌==◌, if◌then◌else◌, Env,
  Outcome, done, fail, trap, nat_eq,
}
use chain_verse_onchain.Common.Ledger.{ledger}
use chain_verse_onchain.LibraryDeposits.{DepositError, locked, Deposit}
use chain_verse_onchain.LibraryDeposits.Calls
use chain_verse_onchain.LibraryDeposits.Calls.{new_deposit}
use chain_verse_onchain.LibraryDeposits.Invariant.{State, IsBacked}
use chain_verse_onchain.LibraryDeposits.Locks.{Distinct}
use chain_verse_onchain.LibraryDeposits.Histories.{Request, apply, Step, Reach, Reach-IsBacked}

abbrev ids : ℕ → ℕ → ℕ → ℕ → ℕ
ids nonce timestamp loan patron = nonce

distinct : Distinct ledger ids
distinct m n u v a b x y h = h

-- The contract has address 0, the administrator 1, the patron 2 and the treasury 9.
abbrev env : Env
env = record { timestamp = 100; sequence = 7; current_contract = 0; authorized = λ a. not (a == 0) }

abbrev deployed : State ledger ids 0
deployed = record {
  tokens = λ t a. if (t == 10) && (a == 2) then pos 5000 else pos 0;
  store = record { admin = some 1; treasury = some 9; deposit_count = 0; deposits = [] };
  events = [];
}

abbrev result :
    State ledger ids 0 → Outcome DepositError (Unit {0} × State ledger ids 0) → State ledger ids 0
result c (done (_, d)) = d
result c (fail e) = c
result c trap = c

after : Request → State ledger ids 0 → State ledger ids 0
unfolding apply Calls.lock_deposit Calls.release_deposit Calls.partial_charge Calls.full_charge
    fit_i128 ◌+ℤ◌ ◌-ℤ◌
after r c = result c (apply ledger ids env r c)

opened : State ledger ids 0
unfolding after
opened = after (Request.lock_deposit 2 77 10 (pos 500)) deployed

billed : State ledger ids 0
unfolding opened
billed = after (Request.partial_charge 1 1 (pos 120)) opened

returned : State ledger ids 0
unfolding billed
returned = after (Request.release_deposit 2 1) billed

kept : State ledger ids 0
unfolding billed
kept = after (Request.full_charge 1 1) billed

abbrev deposit : Deposit
deposit = record {
  loan_id = 77;
  patron = 2;
  token = 10;
  original_amount = pos 500;
  remaining_amount = pos 500;
  status = locked;
}

abbrev billed_deposit : Deposit
billed_deposit = record deposit { remaining_amount = pos 380 }

books :
    (returned.tokens 10 2 ≡ pos 4880)
    × (returned.tokens 10 9 ≡ pos 120)
    × (returned.tokens 10 0 ≡ pos 0)
    × (kept.tokens 10 9 ≡ pos 500)
    × (Calls.partial_charge ledger ids env 1 1 (pos 381) billed
        ≡ fail DepositError.insufficient_balance)
    × (Calls.release_deposit ledger ids env 2 1 returned ≡ fail DepositError.already_closed)
unfolding returned kept
books = (refl, refl, refl, refl, refl, refl)

deployed-IsBacked : IsBacked ledger ids 0 deployed
deployed-IsBacked = record {
  solvent = λ t. ground arith;
  fits = λ id e h. absurd (ground arith);
  accounted = λ id e h. absurd (ground arith);
  unpaid = λ id h. refl;
  fresh = λ n u l a h. refl;
}

history : Reach ledger ids 0 deployed returned
unfolding returned apply
history =
    Reach.next
      (Reach.next
        (Reach.next Reach.here (
          Step.request env (Request.lock_deposit 2 77 10 (pos 500)) deployed opened refl refl refl))
        (Step.request env (Request.partial_charge 1 1 (pos 120)) opened billed refl refl refl))
      (Step.request env (Request.release_deposit 2 1) billed returned refl refl refl)

Reach-IsBacked_example : IsBacked ledger ids 0 returned
Reach-IsBacked_example = Reach-IsBacked ledger ids 0 distinct deployed-IsBacked history
