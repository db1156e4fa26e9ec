-- ===== src/Composition/Tests.antt =====
-- A deposit that is locked in a token contract of this repository.
use chain_verse_onchain.Common.{
  ℕ, ◌≡◌, refl, arith, true, false, not, none, some, [], ◌∷◌, pos, ◌+ℤ◌, ◌-ℤ◌, ◌*ℤ◌, div_ℤ, ◌≤ℤ◌,
  fit_i128, sum_by, nat_eq, ◌==◌, Env, Outcome, done, fail, trap,
}
use chain_verse_onchain.Token.{balance}
use chain_verse_onchain.Token.Calls
use chain_verse_onchain.Token.Client.{Plain, token_client}
use chain_verse_onchain.LibraryDeposits.{DepositError}
use chain_verse_onchain.LibraryDeposits.Calls.{lock_deposit}
use chain_verse_onchain.LibraryDeposits.Invariant.{State, IsBacked, held}
use chain_verse_onchain.LibraryDeposits.Locks.{Distinct}
use chain_verse_onchain.LibraryDeposits.Histories.{Request, apply, Step, Reach}
use chain_verse_onchain.Composition.{deposits_covered}

abbrev env : Env
env = record { timestamp = 100; sequence = 7; current_contract = 0; authorized = λ a. not (a == 0) }

abbrev ids : ℕ → ℕ → ℕ → ℕ → ℕ
ids nonce timestamp loan patron = nonce

-- Each token contract, in which the patron 2 has 5000.
abbrev token : Plain
token = record {
  state = record {
    tokens = tt;
    store = record {
      admin = some 1;
      balances = (2, pos 5000) ∷ [];
      legacy_balances = [];
      total_supply = some (pos 5000);
      initialized = true;
      pending_admin = none;
      paused = false;
      royalty = none;
      allowances = [];
      wasm_hash = 0;
    };
    events = [];
  };
  plain = refl;
}

abbrev deployed : State (token_client env) ids 0
deployed = record {
  tokens = λ t. token;
  store = record { admin = some 1; treasury = some 9; deposit_count = 0; deposits = [] };
  events = [];
}

abbrev result :
    Outcome DepositError (Unit {0} × State (token_client env) ids 0)
    → State (token_client env) ids 0
result (done (_, d)) = d
result (fail e) = deployed
result trap = deployed

locked : State (token_client env) ids 0
unfolding apply lock_deposit Calls.transfer Calls.apply_transfer Calls.royalty_amount
    Calls.pay_royalty fit_i128 ◌+ℤ◌ ◌-ℤ◌ ◌*ℤ◌ div_ℤ
locked = result (apply (token_client env) ids env (Request.lock_deposit 2 77 10 (pos 500)) deployed)

books :
    (balance 2 (locked.tokens 10).state.store ≡ pos 4500)
    × (balance 0 (locked.tokens 10).state.store ≡ pos 500)
    × (balance 2 (locked.tokens 11).state.store ≡ pos 5000)
unfolding locked
books = (refl, refl, refl)

distinct : Distinct (token_client env) ids
distinct m n u v a b x y h = h

deployed-IsBacked : IsBacked (token_client env) ids 0 deployed
deployed-IsBacked = record {
  solvent = λ t. ground arith;
  fits = λ id e h. absurd (ground arith);
  accounted = λ id e h. absurd (ground arith);
  unpaid = λ id h. refl;
  fresh = λ n u l a h. refl;
}

history : Reach (token_client env) ids 0 deployed locked
unfolding locked
history =
    Reach.next Reach.here
      (Step.request env (Request.lock_deposit 2 77 10 (pos 500)) deployed locked refl refl refl)

deposits_covered_example :
    sum_by (held 10) locked.store.deposits ≤ℤ balance 0 (locked.tokens 10).state.store
deposits_covered_example =
    deposits_covered env ids 0 deployed locked distinct deployed-IsBacked history 10
