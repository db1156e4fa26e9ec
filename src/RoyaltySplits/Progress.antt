-- ===== src/RoyaltySplits/Progress.antt =====
-- contracts/royalty-splits/src/lib.rs: `distribute` and `withdraw` do not fail on amounts that fit.
use chain_verse_onchain.Common.{
  ℕ, ◌+◌, ◌-◌, ◌*◌, ◌/◌, ◌^◌, ◌≤◌, ◌≡◌, refl, ◌∙◌, done-cases, inl, inr, arith, true, List, [], ◌∷◌,
  some, length, lookup, insert, nat_eq, pair_eq, Env, done, ok, ℤ, pos, ◌+ℤ◌, ◌-ℤ◌, ◌≤ℤ◌, fit_i128,
  fit_i128-some, int_laws, *ℤ_pos, +ℤ_pos, div_ℤ, i128_max,
}
use chain_verse_onchain.RoyaltySplits.{
  get_asset_ledger, SplitManifest, State, share_of, credit, tail, distribute_shares, distribute,
  get_balance,
}
use chain_verse_onchain.RoyaltySplits.Shares.{sum, step_up, at_most}
use chain_verse_onchain.RoyaltySplits.Credits.{distribute_shares-Credits, inserted_balance}
use chain_verse_onchain.RoyaltySplits.Manifests.{IsManifest}

-- No balance in the asset is negative or would overflow by another `n` units.
abbrev pub Room : (asset n : ℕ) → State → Type 0
Room asset n c =
    (q : ℕ)
    → (pos 0 ≤ℤ get_balance q asset c.store) × (get_balance q asset c.store +ℤ pos n ≤ℤ i128_max)

last_fits :
    (n f : ℕ) (bps : List ℕ)
    → f ≤ n
    → n * 10_000 ≤ 2 ^ 127 - 1
    → share_of (pos n) (pos f) [] bps ≡ ok (pos (n - f))
unfolding share_of fit_i128 ◌-ℤ◌
last_fits n f bps le h = ground arith

small_share : (n b : ℕ) → b ≤ 10_000 → n * b ≤ n * 10_000
small_share n b h = grind arith

next_fits :
    (n f o b : ℕ) (os bps : List ℕ)
    → b ≤ 10_000
    → n * 10_000 ≤ 2 ^ 127 - 1
    → share_of (pos n) (pos f) (o ∷ os) (b ∷ bps) ≡ ok (pos (n * b / 10_000))
unfolding share_of fit_i128 div_ℤ
next_fits n f o b os bps h k = ground (arith, *ℤ_pos n b, small_share n b h)

-- One credit within the room succeeds, and leaves room for the rest.
credit_fits :
    (r asset x m : ℕ) (c : State)
    → x ≤ m
    → Room asset m c
    → (e : State) × (credit r asset (pos x) c ≡ done (tt, e)) × Room asset (m - x) e
credit_fits r asset x m c le room =
    let e : fit_i128 (get_balance r asset c.store +ℤ pos x)
        ≡ some (get_balance r asset c.store +ℤ pos x) =
      fit_i128-some (get_balance r asset c.store +ℤ pos x) (grind (int_laws, room r))
        (grind (int_laws, room r)) in
    (
      record c {
        store = record (c.store) {
          balances = insert (r, asset) (get_balance r asset c.store +ℤ pos x) c.store.balances;
        };
      },
      ground (arith, e),
      λ q.
          rw (inserted_balance r asset q asset (pos x) c.store.balances) (grind (int_laws, room q)),
    )

-- A round whose share is computed and whose credit succeeds goes on to the next.
run_round :
    (asset r : ℕ) (n f x : ℕ) (rs bps : List ℕ) (c e : State)
    → f + x ≤ 2 ^ 127 - 1
    → share_of (pos n) (pos f) rs bps ≡ ok (pos x)
    → credit r asset (pos x) c ≡ done (tt, e)
    → distribute_shares asset (pos n) (pos f) (r ∷ rs) bps c
      ≡ distribute_shares asset (pos n) (pos (f + x)) rs (tail bps) e
unfolding distribute_shares fit_i128
run_round asset r n f x rs bps c e fits p q = ground (arith, p, q, +ℤ_pos f x)

loop_ends :
    (asset : ℕ) (x y : ℤ) (bps : List ℕ) (c : State)
    → distribute_shares asset x y [] bps c ≡ done (tt, c)
unfolding distribute_shares
loop_ends asset x y bps c = refl

loop_succeeds :
    (asset n f p r : ℕ) (rs bps : List ℕ) (c : State)
    → length (r ∷ rs) ≡ length bps
    → f * 10_000 ≤ n * p
    → p + sum bps ≡ 10_000
    → n * 10_000 ≤ 2 ^ 127 - 1
    → Room asset (n - f) c
    → (d : State) × (distribute_shares asset (pos n) (pos f) (r ∷ rs) bps c ≡ done (tt, d))
loop_succeeds asset n f p r rs [] c len lo t fits room = absurd (omega (arith, len))
loop_succeeds asset n f p r [] (b ∷ bps) c len lo t fits room =
    let le = at_most n f p (sum (b ∷ bps)) lo t in
    let (e, q, _) = credit_fits r asset (n - f) (n - f) c (omega arith) room in
    (
      e,
      run_round asset r n f (n - f) [] (b ∷ bps) c e (omega (arith, le, fits))
            (last_fits n f (b ∷ bps) le fits) q
          ∙ loop_ends asset _ _ bps e,
    )
loop_succeeds asset n f p r (s ∷ rs) (b ∷ bps) c len lo t fits room =
    let up = step_up n f p b lo in
    let le = at_most n (f + n * b / 10_000) (p + b) (sum bps) up (omega (arith, t)) in
    let (e, q, left) = credit_fits r asset (n * b / 10_000) (n - f) c (omega (arith, le)) room in
    let (d, k) =
      loop_succeeds asset n (f + n * b / 10_000) (p + b) s rs bps e (omega (arith, len)) up
        (omega (arith, t)) fits (λ y. grind (int_laws, left y)) in
    (
      d,
      run_round asset r n f (n * b / 10_000) (s ∷ rs) (b ∷ bps) c e (omega (arith, le, fits))
            (next_fits n f s b rs bps (omega (arith, t)) fits) q
          ∙ k,
    )

whole_loop_succeeds :
    (asset n : ℕ) (rs bps : List ℕ) (c : State)
    → IsManifest rs bps
    → n * 10_000 ≤ 2 ^ 127 - 1
    → Room asset n c
    → (e : State) × (distribute_shares asset (pos n) (pos 0) rs bps c ≡ done (tt, e))
      × (e.store.asset_ledgers ≡ c.store.asset_ledgers)
whole_loop_succeeds asset n [] bps c m fits room = absurd (omega (arith, m.not_empty))
whole_loop_succeeds asset n (r ∷ rs) bps c m fits room =
    let (e, h) =
      loop_succeeds asset n 0 0 r rs bps c m.matched (omega arith) (omega (arith, m.whole)) fits
        (λ q. grind (int_laws, room q)) in
    let k =
      distribute_shares-Credits asset n 0 0 r rs bps c e m.matched (omega arith)
        (omega (arith, m.whole)) h in
    (e, h, rw k.rest refl)

-- A distribution by the administrator, under a manifest that `create_manifest` admits, succeeds
-- whenever the amount times 10,000 fits an `i128` and no balance or total can overflow by it.
pub distribute_succeeds :
    (env : Env) (admin id asset n : ℕ) (m : SplitManifest) (c : State)
    → c.store.admin ≡ some admin
    → env.authorized admin ≡ true
    → lookup id c.store.manifests ≡ some m
    → IsManifest m.recipients m.bps
    → 1 ≤ n
    → n * 10_000 ≤ 2 ^ 127 - 1
    → Room asset n c
    → pos 0 ≤ℤ (get_asset_ledger asset c.store).total_distributed
    → (get_asset_ledger asset c.store).total_distributed +ℤ pos n ≤ℤ i128_max
    → (d : State) × (distribute env admin id asset (pos n) c ≡ done (tt, d))
unfolding distribute
distribute_succeeds env admin id asset n m c a u found ok_m one fits room lo hi =
    let (e, h, same) = whole_loop_succeeds asset n m.recipients m.bps c ok_m fits room in
    let total : fit_i128 ((get_asset_ledger asset e.store).total_distributed +ℤ pos n)
        ≡ some ((get_asset_ledger asset e.store).total_distributed +ℤ pos n) =
      fit_i128-some _ (rw same (grind (int_laws, lo))) (rw same hi) in
    elim (done-cases (distribute env admin id asset (pos n) c)) [
      | inl (d, k) ↦ (d, k)
      | inr (inl (x, k)) ↦ absurd (ground arith)
      | inr (inr k) ↦ absurd (ground arith)
    ]
