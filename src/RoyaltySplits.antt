-- ===== src/RoyaltySplits.antt =====
-- contracts/royalty-splits/src/lib.rs: immutable revenue splits. The contract keeps books and calls
-- no token contract. The loops over indices are recursion on what is left of the lists.
pub mod Shares
pub mod Manifests
pub mod Credits
pub mod Distribution
pub mod Withdrawal
pub mod Histories
pub mod Progress
mod Tests
use chain_verse_onchain.Common.{
  ℕ, ◌+◌, Bool, not, Option, none, some, List, [], ◌∷◌, ℤ, pos, ◌+ℤ◌, ◌-ℤ◌, ◌*ℤ◌, div_ℤ, leb_ℤ, ltb,
  u32_max, fit_i128, lookup, insert, nat_eq, pair_eq, or_default, is_some, length, ◌==◌,
  if◌then◌else◌, Env, Chain, Contract, Result, ok, err, pure, gets, modify, emit, raise_if, ok_or,
  lift, require_auth, ◌>>=◌, ◌>>◌,
}

abbrev pub total_bps : ℕ
total_bps = 10_000

abbrev pub max_recipients : ℕ
max_recipients = 20

pub data ContractError : Type 0 where
  not_initialized already_initialized not_admin manifest_already_exists : ContractError
  manifest_not_found empty_manifest too_many_recipients mismatched_lengths : ContractError
  invalid_bps invalid_amount nothing_to_withdraw overflow : ContractError

pub record SplitManifest : Type 0 where
  pub recipients : List ℕ
  pub bps : List ℕ
  pub created_at : ℕ

pub record AssetLedger : Type 0 where
  pub total_distributed : ℤ
  pub total_withdrawn : ℤ

-- One field for each `DataKey`; a balance is keyed by its recipient and its asset.
pub record Store : Type 0 where
  pub admin : Option ℕ
  pub manifests : List (ℕ × SplitManifest)
  pub balances : List ((ℕ × ℕ) × ℤ)
  pub asset_ledgers : List (ℕ × AssetLedger)

pub data Event : Type 0 where
  split_new : (manifest_id : ℕ) → Event
  split_dst : (manifest_id asset : ℕ) (amount : ℤ) → Event
  split_wd : (recipient asset : ℕ) (balance : ℤ) → Event

abbrev pub State : Type 0
State = Chain (Unit {0}) Store Event

abbrev pub Call : Type 0 → Type 0
Call A = Contract (Unit {0}) Store Event ContractError A

-- `o.ok_or(e)`
abbrev pub or_err : {A : Type 0} → Option A → ContractError → Result ContractError A
or_err none e = err e
or_err (some a) e = ok a

abbrev pub get_manifest : ℕ → Store → Result ContractError SplitManifest
get_manifest id s = or_err (lookup id s.manifests) manifest_not_found

abbrev pub get_balance : (recipient asset : ℕ) → Store → ℤ
get_balance r a s = or_default (pos 0) (lookup (r, a) s.balances)

abbrev pub empty_ledger : AssetLedger
empty_ledger = record { total_distributed = pos 0; total_withdrawn = pos 0 }

abbrev pub get_asset_ledger : ℕ → Store → AssetLedger
get_asset_ledger a s = or_default empty_ledger (lookup a s.asset_ledgers)

-- The checked subtraction of `get_outstanding_liability` is exact while it fits an `i128`.
abbrev pub get_outstanding_liability : ℕ → Store → Option ℤ
get_outstanding_liability a s =
    fit_i128 ((get_asset_ledger a s).total_distributed -ℤ (get_asset_ledger a s).total_withdrawn)

unfoldable pub initialize : Env → (admin : ℕ) → Call (Unit {0})
initialize env admin = do
  stored ← gets (λ s. s.admin)
  raise_if (is_some stored) already_initialized
  require_auth env admin
  modify (λ s. record s { admin = some admin })

abbrev pub require_admin : Env → (caller : ℕ) → Call (Unit {0})
require_admin env caller = do
  stored ← gets (λ s. s.admin)
  admin ← ok_or stored not_initialized
  raise_if (not (caller == admin)) not_admin
  require_auth env caller

-- The loop of `create_manifest` over the shares, with the sum so far.
unfoldable pub sum_shares : ℕ → List ℕ → Result ContractError ℕ
sum_shares total [] = ok total
sum_shares total (share ∷ bps) =
    if share == 0
    then err invalid_bps
    else if ltb u32_max (total + share)
    then err overflow
    else sum_shares (total + share) bps

unfoldable pub create_manifest :
    Env → (admin manifest_id : ℕ) → (recipients bps : List ℕ) → Call (Unit {0})
create_manifest env admin manifest_id recipients bps = do
  require_admin env admin
  stored ← gets (λ s. lookup manifest_id s.manifests)
  raise_if (is_some stored) manifest_already_exists
  raise_if (length recipients == 0) empty_manifest
  raise_if (ltb max_recipients (length recipients)) too_many_recipients
  raise_if (not (length recipients == length bps)) mismatched_lengths
  total ← lift (sum_shares 0 bps)
  raise_if (not (total == total_bps)) invalid_bps
  modify (λ s. record s {
    manifests =
        insert manifest_id
          (record { recipients = recipients; bps = bps; created_at = env.timestamp }) s.manifests;
  })
  emit (split_new manifest_id)

abbrev scale : ℤ → ℤ
scale raw = div_ℤ raw (pos total_bps)

abbrev map_ok : {A : Type 0} → (A → A) → Result ContractError A → Result ContractError A
map_ok f (ok a) = ok (f a)
map_ok f (err e) = err e

-- The share of the recipient at the head: what remains of the amount for the last one, and else its
-- basis points of the amount. `others` are the recipients after it, `bps` the shares from its own on.
unfoldable pub share_of :
    (amount distributed_so_far : ℤ) → (others bps : List ℕ) → Result ContractError ℤ
share_of amount so_far [] bps = or_err (fit_i128 (amount -ℤ so_far)) overflow
share_of amount so_far (_ ∷ _) [] = err manifest_not_found
share_of amount so_far (_ ∷ _) (share_bps ∷ _) =
    map_ok scale (or_err (fit_i128 (amount *ℤ pos share_bps)) overflow)

abbrev pub tail : List ℕ → List ℕ
tail [] = []
tail (x ∷ xs) = xs

abbrev pub credit : (recipient asset : ℕ) → (share : ℤ) → Call (Unit {0})
credit recipient asset share = do
  current ← gets (get_balance recipient asset)
  new_balance ← ok_or (fit_i128 (current +ℤ share)) overflow
  modify (λ s. record s { balances = insert (recipient, asset) new_balance s.balances })

-- The loop of `distribute`, over the recipients and shares that are left.
unfoldable pub distribute_shares :
    (asset : ℕ) → (amount distributed_so_far : ℤ) → (recipients bps : List ℕ) → Call (Unit {0})
distribute_shares asset amount so_far [] bps = pure tt
distribute_shares asset amount so_far (recipient ∷ others) bps = do
  share ← lift (share_of amount so_far others bps)
  sum ← ok_or (fit_i128 (so_far +ℤ share)) overflow
  credit recipient asset share
  distribute_shares asset amount sum others (tail bps)

unfoldable pub distribute : Env → (admin manifest_id asset : ℕ) → (amount : ℤ) → Call (Unit {0})
distribute env admin manifest_id asset amount = do
  require_admin env admin
  raise_if (leb_ℤ amount (pos 0)) invalid_amount
  found ← gets (get_manifest manifest_id)
  manifest ← lift found
  distribute_shares asset amount (pos 0) manifest.recipients manifest.bps
  ledger ← gets (get_asset_ledger asset)
  total ← ok_or (fit_i128 (ledger.total_distributed +ℤ amount)) overflow
  modify (λ s. record s {
    asset_ledgers = insert asset (record ledger { total_distributed = total }) s.asset_ledgers;
  })
  emit (split_dst manifest_id asset amount)

unfoldable pub withdraw : Env → (recipient asset : ℕ) → Call ℤ
withdraw env recipient asset = do
  require_auth env recipient
  balance ← gets (get_balance recipient asset)
  raise_if (leb_ℤ balance (pos 0)) nothing_to_withdraw
  modify (λ s. record s { balances = insert (recipient, asset) (pos 0) s.balances })
  stored ← gets (λ s. lookup asset s.asset_ledgers)
  ledger ← ok_or stored nothing_to_withdraw
  total ← ok_or (fit_i128 (ledger.total_withdrawn +ℤ balance)) overflow
  modify (λ s. record s {
    asset_ledgers = insert asset (record ledger { total_withdrawn = total }) s.asset_ledgers;
  })
  emit (split_wd recipient asset balance)
  pure balance
