-- ===== src/Token/Tests.antt =====
-- The token run on a concrete ledger, and its theorems at those states.
use chain_verse_onchain.Common.{
  ◌≡◌, ◌≤◌, refl, ◌⊎◌, arith, true, false, none, some, [], pos, ◌+ℤ◌, ◌-ℤ◌, ◌*ℤ◌, div_ℤ, ◌≤ℤ◌,
  fit_i128, Env, Outcome, done, fail, trap,
}
use chain_verse_onchain.Token.{TokenError, contract_paused, Allowance, balance}
use chain_verse_onchain.Token.Calls
use chain_verse_onchain.Token.Royalties.{State}
use chain_verse_onchain.Token.Transfers.{Moves}
use chain_verse_onchain.Token.Supply.{IsSupplied}
use chain_verse_onchain.Token.Spending.{transfer-Moves, transfer_from_spends, left}
use chain_verse_onchain.Token.Histories.{
  Request, apply, Step, Reach, Reach-IsSupplied, Entitled, apply-Entitled,
}

-- Everybody signs; the administrator is 1.
abbrev env : Env
env = record { timestamp = 100; sequence = 7; current_contract = 0; authorized = λ a. true }

abbrev deployed : State
deployed = record {
  tokens = tt;
  store = record {
    admin = none;
    balances = [];
    legacy_balances = [];
    total_supply = none;
    initialized = false;
    pending_admin = none;
    paused = false;
    royalty = none;
    allowances = [];
    wasm_hash = 0;
  };
  events = [];
}

abbrev result : State → Outcome TokenError (Unit {0} × State) → State
result c (done (_, d)) = d
result c (fail e) = c
result c trap = c

after : Request → State → State
unfolding apply Calls.initialize Calls.transfer Calls.apply_transfer Calls.royalty_amount
    Calls.pay_royalty Calls.set_paused Calls.set_royalty Calls.approve Calls.transfer_from
    Calls.spend fit_i128 ◌+ℤ◌ ◌-ℤ◌ ◌*ℤ◌ div_ℤ
after r c = result c (apply env r c)

opened : State
unfolding after
opened = after (Request.initialize 1 (pos 1000)) deployed

given : State
unfolding opened
given = after (Request.transfer 1 2 (pos 300)) opened

taxed : State
unfolding given
taxed = after (Request.set_royalty 1 9 500) given

sold : State
unfolding taxed
sold = after (Request.transfer 2 3 (pos 100)) taxed

approved : State
unfolding sold
approved = after (Request.approve 2 5 (pos 60) (some 150)) sold

spent : State
unfolding approved
spent = after (Request.transfer_from 5 2 4 (pos 60)) approved

stopped : State
unfolding opened
stopped = after (Request.pause 1) opened

books :
    (balance 1 spent.store ≡ pos 700)
    × (balance 2 spent.store ≡ pos 140)
    × (balance 3 spent.store ≡ pos 95)
    × (balance 4 spent.store ≡ pos 57)
    × (balance 9 spent.store ≡ pos 8)
    × (spent.store.allowances ≡ [])
    × (apply env (Request.transfer 1 2 (pos 5)) stopped ≡ fail contract_paused)
unfolding spent stopped
books = (refl, refl, refl, refl, refl, refl, refl)

deployed-IsSupplied : IsSupplied deployed.store
deployed-IsSupplied = record {
  exact = refl;
  nonneg = λ q. ground arith;
  capped = tt;
  migrated = refl;
  unused = λ h. refl;
}

history : Reach deployed sold
unfolding sold apply
history =
    Reach.next
      (Reach.next
        (Reach.next
          (Reach.next Reach.here
            (Step.request env (Request.initialize 1 (pos 1000)) deployed opened refl))
          (Step.request env (Request.transfer 1 2 (pos 300)) opened given refl))
        (Step.request env (Request.set_royalty 1 9 500) given taxed refl))
      (Step.request env (Request.transfer 2 3 (pos 100)) taxed sold refl)

Reach-IsSupplied_example : IsSupplied sold.store
Reach-IsSupplied_example = Reach-IsSupplied deployed-IsSupplied history

transfer-Moves_example :
    (env.authorized 2 ≡ true) × (taxed.store.paused ≡ false) × Moves 2 3 (pos 100) taxed sold
unfolding sold
transfer-Moves_example = transfer-Moves env 2 3 (pos 100) taxed sold refl

abbrev granted : Allowance
granted = record { amount = pos 60; expires_at = some 150 }

transfer_from_spends_example :
    (env.authorized 5 ≡ true)
    × (approved.store.paused ≡ false)
    × (100 ≤ 150)
    × (pos 60 ≤ℤ granted.amount)
    × (e : State) × Moves 2 4 (pos 60) approved e
    × (spent.store
        ≡ record (e.store) { allowances = left 2 5 granted (pos 60) approved.store.allowances })
unfolding spent
transfer_from_spends_example =
    transfer_from_spends env 5 2 4 (pos 60) approved spent granted refl refl

apply-Entitled_example :
    (balance 2 approved.store ≤ℤ balance 2 spent.store) ⊎ Entitled env 2 approved spent
unfolding spent approved
apply-Entitled_example =
    apply-Entitled env (Request.transfer_from 5 2 4 (pos 60)) approved spent 2
      (Reach-IsSupplied deployed-IsSupplied (
        Reach.next history
          (Step.request env (Request.approve 2 5 (pos 60) (some 150)) sold approved refl)))
      refl
