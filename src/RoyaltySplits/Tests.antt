-- ===== src/RoyaltySplits/Tests.antt =====
-- The royalty-split contract run on concrete states, and its theorems at those states.
use chain_verse_onchain.Common.{
  ◌*◌, ◌+◌, ◌≤◌, ◌≡◌, refl, arith, true, not, ◌⊎◌, some, [], ◌∷◌, lookup, nat_eq, pair_eq, ◌==◌,
  Env, Outcome, done, fail, trap, pos, ◌+ℤ◌, ◌-ℤ◌, ◌*ℤ◌, div_ℤ, ◌≤ℤ◌, fit_i128,
}
use chain_verse_onchain.RoyaltySplits
use chain_verse_onchain.RoyaltySplits.{
  ContractError, SplitManifest, State, Store, Event, split_new, create_manifest, distribute,
  withdraw, get_asset_ledger, get_balance,
}
use chain_verse_onchain.RoyaltySplits.Manifests.{IsManifest}
use chain_verse_onchain.RoyaltySplits.Distribution.{
  Distributes, distribute_credits, last_share_rounds,
}
use chain_verse_onchain.RoyaltySplits.Histories.{
  Request, apply, IsValid, Step, Reach, Reach-reconciles, apply-protects, apply-immutable,
}

-- Everybody but address 0 has signed.
abbrev env : Env
env = record { timestamp = 100; sequence = 7; current_contract = 0; authorized = λ a. not (a == 0) }

abbrev deployed : State
deployed = record {
  tokens = tt;
  store = record { admin = some 1; manifests = []; balances = []; asset_ledgers = [] };
  events = [];
}

abbrev result : {A : Type 0} → State → Outcome ContractError (A × State) → State
result c (done (_, d)) = d
result c (fail e) = c
result c trap = c

-- A manifest for three recipients, a distribution of 100 units of asset 9, and a withdrawal.
after_creation : State
unfolding create_manifest RoyaltySplits.sum_shares
after_creation =
    result deployed (create_manifest env 1 5 (2 ∷ 3 ∷ 4 ∷ []) (3333 ∷ 3333 ∷ 3334 ∷ []) deployed)

after_distribution : State
unfolding distribute RoyaltySplits.distribute_shares RoyaltySplits.share_of fit_i128 after_creation
    ◌+ℤ◌ ◌*ℤ◌ div_ℤ ◌-ℤ◌
after_distribution = result after_creation (distribute env 1 5 9 (pos 100) after_creation)

after_withdrawal : State
unfolding withdraw after_distribution
after_withdrawal = result after_distribution (withdraw env 2 9 after_distribution)

-- The shares of 100 units are 33, 33 and 34.
distributed_books :
    (get_balance 2 9 after_distribution.store ≡ pos 33)
    × (get_balance 3 9 after_distribution.store ≡ pos 33)
    × (get_balance 4 9 after_distribution.store ≡ pos 34)
    × (get_balance 2 9 after_withdrawal.store ≡ pos 0)
    × (RoyaltySplits.get_outstanding_liability 9 after_withdrawal.store ≡ some (pos 67))
unfolding after_withdrawal
distributed_books = (refl, refl, refl, refl, refl)

deployed-IsValid : IsValid deployed.store
unfolding ◌-ℤ◌
deployed-IsValid = record {
  reconciles = λ a. refl;
  balances_nonneg = λ q a. omega arith;
  admitted = λ id m h. absurd (ground arith);
}

-- A manifest cannot be replaced, and nobody withdraws for another.
rejections :
    (create_manifest env 1 5 (2 ∷ []) (10_000 ∷ []) after_creation
      ≡ fail ContractError.manifest_already_exists)
    × (create_manifest env 1 6 (2 ∷ 3 ∷ []) (5000 ∷ 4999 ∷ []) after_creation
        ≡ fail ContractError.invalid_bps)
    × (withdraw (record env { authorized = λ a. a == 1 }) 2 9 after_distribution ≡ trap)
unfolding after_distribution create_manifest RoyaltySplits.sum_shares withdraw
rejections = (refl, refl, refl)

shares_123 : IsManifest (2 ∷ 3 ∷ 4 ∷ []) (3333 ∷ 3333 ∷ 3334 ∷ [])
shares_123 = record {
  not_empty = omega arith;
  bounded = omega arith;
  matched = refl;
  shares_positive = refl;
  whole = refl;
}

abbrev manifest : SplitManifest
manifest = record { recipients = 2 ∷ 3 ∷ 4 ∷ []; bps = 3333 ∷ 3333 ∷ 3334 ∷ []; created_at = 100 }

last_share_of_100 : (100 * 3334 ≤ 34 * 10_000) × (34 * 10_000 ≤ 100 * 3334 + 2 * 10_000)
last_share_of_100 = last_share_rounds 100 2 (3 ∷ 4 ∷ []) (3333 ∷ 3333 ∷ 3334 ∷ []) shares_123

after_creation-IsValid : IsValid after_creation.store
unfolding after_creation apply
after_creation-IsValid = Reach-reconciles deployed-IsValid (
    Reach.next Reach.here (
      Step.request env (Request.create_manifest 1 5 (2 ∷ 3 ∷ 4 ∷ []) (3333 ∷ 3333 ∷ 3334 ∷ []))
        deployed after_creation refl))

history : Reach after_creation after_withdrawal
unfolding apply after_withdrawal
history =
    Reach.next
      (Reach.next Reach.here (
        Step.request env (Request.distribute 1 5 9 (pos 100)) after_creation after_distribution
          refl))
      (Step.request env (Request.withdraw 2 9) after_distribution after_withdrawal refl)

Reach-reconciles_example : IsValid after_withdrawal.store
Reach-reconciles_example = Reach-reconciles after_creation-IsValid history

after_distribution-IsValid : IsValid after_distribution.store
unfolding apply after_distribution
after_distribution-IsValid = Reach-reconciles after_creation-IsValid (
    Reach.next Reach.here (
      Step.request env (Request.distribute 1 5 9 (pos 100)) after_creation after_distribution refl))

distribute_credits_example :
    (after_creation.store.admin ≡ some 1)
    × (env.authorized 1 ≡ true)
    × (pos 1 ≤ℤ pos 100)
    × (m : SplitManifest) × (lookup 5 after_creation.store.manifests ≡ some m)
    × Distributes 9 (pos 100) m after_creation after_distribution
unfolding after_distribution
distribute_credits_example =
    distribute_credits env 1 5 9 (pos 100) after_creation after_distribution
      (after_creation-IsValid.admitted) refl

apply-protects_example :
    (get_balance 2 9 after_distribution.store ≤ℤ get_balance 2 9 after_withdrawal.store)
    ⊎ ((Request.withdraw 2 9 ≡ Request.withdraw 2 9)
        × (env.authorized 2 ≡ true)
        × (withdraw env 2 9 after_distribution
            ≡ done (get_balance 2 9 after_distribution.store, after_withdrawal)))
unfolding apply after_withdrawal
apply-protects_example =
    apply-protects env (Request.withdraw 2 9) after_distribution after_withdrawal 2 9
      after_distribution-IsValid refl

-- A second manifest for the same recipients leaves the first.
after_addition : State
unfolding create_manifest RoyaltySplits.sum_shares after_distribution
after_addition =
    result after_distribution
      (create_manifest env 1 6 (2 ∷ 3 ∷ []) (5000 ∷ 5000 ∷ []) after_distribution)

apply-immutable_example : lookup 5 after_addition.store.manifests ≡ some manifest
unfolding apply after_addition
apply-immutable_example =
    apply-immutable env (Request.create_manifest 1 6 (2 ∷ 3 ∷ []) (5000 ∷ 5000 ∷ []))
      after_distribution after_addition 5 manifest after_distribution-IsValid refl refl
