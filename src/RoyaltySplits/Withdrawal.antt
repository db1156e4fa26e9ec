-- ===== src/RoyaltySplits/Withdrawal.antt =====
-- contracts/royalty-splits/src/lib.rs: what `withdraw` pays.
use chain_verse_onchain.Common.{
  ℕ, ◌≡◌, refl, arith, true, ◌&&◌, List, ◌==◌, lookup, insert, nat_eq, pair_eq, pair_beq_iff,
  lookup-insert, sum_by, sum_by-insert, or_default, if◌then◌else◌, Env, done, ℤ, pos, ◌+ℤ◌, ◌-ℤ◌,
  ◌≤ℤ◌, fit_i128, int_laws,
}
use chain_verse_onchain.RoyaltySplits.{AssetLedger, State, get_asset_ledger, get_balance, withdraw}
use chain_verse_onchain.RoyaltySplits.Credits.{held, outstanding}

-- The ledger of an asset, with another amount withdrawn.
abbrev pub withdrawn : ℤ → AssetLedger → AssetLedger
withdrawn x l = record l { total_withdrawn = l.total_withdrawn +ℤ x }

-- A withdrawal that succeeds is signed by the recipient and returns its whole balance in the asset,
-- which was positive. It sets that balance to zero and adds it to the asset's total withdrawn, and
-- changes nothing else of the storage.
pub withdraw_paid :
    (env : Env) (recipient asset : ℕ) (x : ℤ) (c d : State)
    → withdraw env recipient asset c ≡ done (x, d)
    → (env.authorized recipient ≡ true)
      × (x ≡ get_balance recipient asset c.store)
      × (pos 1 ≤ℤ x)
      × (d.store ≡ record (c.store) {
        balances = insert (recipient, asset) (pos 0) c.store.balances;
        asset_ledgers =
            insert asset (withdrawn x (get_asset_ledger asset c.store)) c.store.asset_ledgers;
      })
unfolding withdraw fit_i128
withdraw_paid env r a x c d h = ground arith

zeroed_balance :
    (r s q a : ℕ) (m : List ((ℕ × ℕ) × ℤ))
    → or_default (pos 0) (lookup (q, a) (insert (r, s) (pos 0) m))
      ≡ (if (s == a) && (r == q) then pos 0 else or_default (pos 0) (lookup (q, a) m))
zeroed_balance r s q a m =
    rw (lookup-insert (r, s) (q, a) (pos 0) m) (grind (int_laws, pair_beq_iff (r, s) (q, a)))

zeroed_total :
    (r s a : ℕ) (m : List ((ℕ × ℕ) × ℤ))
    → sum_by (held a) (insert (r, s) (pos 0) m)
      ≡ sum_by (held a) m -ℤ (if s == a then or_default (pos 0) (lookup (r, s) m) else pos 0)
zeroed_total r s a m = grind (int_laws, sum_by-insert (held a) (r, s) (pos 0) m)

-- A withdrawal leaves every other balance.
pub withdraw_balance :
    (env : Env) (recipient asset : ℕ) (x : ℤ) (c d : State) (q a : ℕ)
    → withdraw env recipient asset c ≡ done (x, d)
    → get_balance q a d.store
      ≡ (if (asset == a) && (recipient == q) then pos 0 else get_balance q a c.store)
withdraw_balance env r s x c d q a h =
    let (_, _, _, now) = withdraw_paid env r s x c d h in
    rw (now, zeroed_balance r s q a c.store.balances) refl

pub withdraw_total :
    (env : Env) (recipient asset : ℕ) (x : ℤ) (c d : State) (a : ℕ)
    → withdraw env recipient asset c ≡ done (x, d)
    → outstanding a d.store ≡ outstanding a c.store -ℤ (if asset == a then x else pos 0)
withdraw_total env r s x c d a h =
    let (_, e, _, now) = withdraw_paid env r s x c d h in
    rw (now, e, zeroed_total r s a c.store.balances) refl
