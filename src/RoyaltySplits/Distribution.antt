-- ===== src/RoyaltySplits/Distribution.antt =====
-- contracts/royalty-splits/src/lib.rs: what `distribute` does to the books.
use chain_verse_onchain.Common.{
  ℕ, ◌+◌, ◌*◌, ◌≤◌, ◌≡◌, ap, inl, inr, done-cases, arith, true, List, [], ◌∷◌, some, length, ◌==◌,
  Option-cases, lookup, insert, nat_eq, pair_eq, if◌then◌else◌, Env, done, ℤ, pos, negsuc, pos_part,
  ◌+ℤ◌, ◌≤ℤ◌, fit_i128,
}
use chain_verse_onchain.RoyaltySplits.{
  AssetLedger, get_asset_ledger, SplitManifest, State, Store, distribute_shares, distribute,
  get_balance,
}
use chain_verse_onchain.RoyaltySplits.Shares.{sum, shares, due, shares-sum, shares-last, last}
use chain_verse_onchain.RoyaltySplits.Credits.{outstanding, Credits, distribute_shares-Credits}
use chain_verse_onchain.RoyaltySplits.Manifests.{IsManifest}

-- The ledger of an asset, with another amount distributed.
abbrev pub distributed : ℤ → AssetLedger → AssetLedger
distributed x l = record l { total_distributed = l.total_distributed +ℤ x }

-- The guards of a distribution that succeeds, the state after its loop and the books after it.
distribute_parts :
    (env : Env) (admin id asset : ℕ) (amount : ℤ) (c d : State)
    → distribute env admin id asset amount c ≡ done (tt, d)
    → (m : SplitManifest) × (e : State) × (lookup id c.store.manifests ≡ some m)
      × (c.store.admin ≡ some admin)
      × (env.authorized admin ≡ true)
      × (pos 1 ≤ℤ amount)
      × (distribute_shares asset amount (pos 0) m.recipients m.bps c ≡ done (tt, e))
      × (d.store ≡ record (e.store) {
        asset_ledgers =
            insert asset
              (distributed amount (get_asset_ledger asset e.store))
              e.store.asset_ledgers;
      })
unfolding distribute fit_i128
distribute_parts env admin id asset amount c d h =
    elim (Option-cases (lookup id c.store.manifests)) [
      | inl p ↦ absurd (ground arith)
      | inr (m, p) ↦
          elim (done-cases (distribute_shares asset amount (pos 0) m.recipients m.bps c)) [
            | inl (e, q) ↦
                let (a, u, lo, now) : (c.store.admin ≡ some admin)
                    × (env.authorized admin ≡ true)
                    × (pos 1 ≤ℤ amount)
                    × (d.store ≡ record (e.store) {
                      asset_ledgers =
                          insert asset (distributed amount (get_asset_ledger asset e.store))
                            e.store.asset_ledgers;
                    }) =
                  ground arith in
                (m, e, p, a, u, lo, q, now)
            | inr (inl (e, q)) ↦ absurd (ground arith)
            | inr (inr q) ↦ absurd (ground arith)
          ]
    ]

-- The loop over a manifest shares out the whole amount.
whole_loop :
    (asset n : ℕ) (rs bps : List ℕ) (c e : State)
    → IsManifest rs bps
    → distribute_shares asset (pos n) (pos 0) rs bps c ≡ done (tt, e)
    → Credits asset rs (shares n 0 rs bps) c e × (sum (shares n 0 rs bps) ≡ n)
whole_loop asset n [] bps c e m h = absurd (omega (arith, m.not_empty))
whole_loop asset n (r ∷ rs) bps c e m h = (
  distribute_shares-Credits asset n 0 0 r rs bps c e m.matched (omega arith)
      (omega (arith, m.whole)) h,
  omega (arith, shares-sum n 0 0 r rs bps m.matched (omega arith) (omega (arith, m.whole))),
)

-- Of a manifest that can be persisted, the last recipient's share of an amount is its basis points of
-- the amount rounded up, by at most one unit for each of the other recipients.
pub last_share_rounds :
    (n r : ℕ) (rs bps : List ℕ)
    → IsManifest (r ∷ rs) bps
    → (n * last 0 bps ≤ last 0 (shares n 0 (r ∷ rs) bps) * 10_000)
      × (last 0 (shares n 0 (r ∷ rs) bps) * 10_000 ≤ n * last 0 bps + length rs * 10_000)
last_share_rounds n r rs bps m =
    let (lo, hi) =
      shares-last n 0 0 0 r 0 0 rs bps m.matched (omega arith) (omega arith)
        (omega (arith, m.whole)) in
    (lo, omega (arith, hi))

-- Every manifest in the storage is one that `create_manifest` admits.
abbrev pub Admitted : Store → Type 0
Admitted s =
    (id : ℕ) (m : SplitManifest) → lookup id s.manifests ≡ some m → IsManifest m.recipients m.bps

-- What a distribution of `amount` under manifest `m` leaves.
pub record Distributes (asset : ℕ) (amount : ℤ) (m : SplitManifest) (c d : State) : Type 0 where
  pub balance :
      (q a : ℕ)
      → get_balance q a d.store
        ≡ get_balance q a c.store
          +ℤ (if asset == a
              then pos (due q m.recipients (shares (pos_part amount) 0 m.recipients m.bps))
              else pos 0)
  pub nothing_lost : pos (sum (shares (pos_part amount) 0 m.recipients m.bps)) ≡ amount
  pub total :
      (a : ℕ)
      → outstanding a d.store ≡ outstanding a c.store +ℤ (if asset == a then amount else pos 0)
  pub books : d.store ≡ record (c.store) {
    balances = d.store.balances;
    asset_ledgers =
        insert asset (distributed amount (get_asset_ledger asset c.store)) c.store.asset_ledgers;
  }

-- A distribution that succeeds, where every stored manifest is well-formed, was made by the
-- administrator, of a positive amount, under a manifest in the storage. Each recipient's balance in the asset grows by its shares of the amount, every other
-- balance stays, the shares add up to the amount exactly, and the asset's total distributed grows by
-- the amount.
pub distribute_credits :
    (env : Env) (admin id asset : ℕ) (amount : ℤ) (c d : State)
    → Admitted c.store
    → distribute env admin id asset amount c ≡ done (tt, d)
    → (c.store.admin ≡ some admin)
      × (env.authorized admin ≡ true)
      × (pos 1 ≤ℤ amount)
      × (m : SplitManifest) × (lookup id c.store.manifests ≡ some m)
      × Distributes asset amount m c d
distribute_credits env admin id asset (negsuc n) c d v h =
    let (m, e, p, a, u, lo, q, now) = distribute_parts env admin id asset (negsuc n) c d h in
    absurd (omega (arith, lo))
distribute_credits env admin id asset (pos n) c d v h =
    let (m, e, p, a, u, lo, q, now) = distribute_parts env admin id asset (pos n) c d h in
    let (k, s) = whole_loop asset n m.recipients m.bps c e (v id m p) q in
    (
      a,
      u,
      lo,
      m,
      p,
      record {
        balance = λ q a. rw now (k.balance q a);
        nothing_lost = ap pos s;
        total = λ a. rw now (rw s at (k.total a));
        books = ground (arith, now, k.rest);
      },
    )
