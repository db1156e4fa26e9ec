-- ===== src/RoyaltySplits/Credits.antt =====
-- contracts/royalty-splits/src/lib.rs: what the loop of `distribute` credits.
use chain_verse_onchain.Common.{
  ℕ, ◌+◌, ◌-◌, ◌*◌, ◌/◌, ◌≤◌, ◌≡◌, refl, ◌⊎◌, inl, inr, done-cases, arith, Bool, ◌&&◌, List, [],
  ◌∷◌, length, ◌==◌, lookup, insert, nat_eq, pair_eq, lookup-insert, sum_by, sum_by-insert,
  pair_beq_iff, or_default, if◌then◌else◌, done, ok, err, Result, ℤ, pos, ◌+ℤ◌, ◌-ℤ◌, fit_i128,
  int_laws, *ℤ_pos, +ℤ_pos, div_ℤ,
}
use chain_verse_onchain.RoyaltySplits.{
  ContractError, State, Store, share_of, credit, tail, distribute_shares, get_balance,
}
use chain_verse_onchain.RoyaltySplits.Shares.{sum, shares, due, step_up, at_most}

-- What an entry counts for in asset `a`.
abbrev pub held : (a : ℕ) → ℕ × ℕ → ℤ → ℤ
held a (q, b) v = if b == a then v else pos 0

-- The sum of all balances in an asset.
abbrev pub outstanding : ℕ → Store → ℤ
outstanding a s = sum_by (held a) s.balances

-- What shares credit: to each recipient what it is due, of that asset only.
pub record Credits (asset : ℕ) (recipients parts : List ℕ) (c d : State) : Type 0 where
  pub balance :
      (q a : ℕ)
      → get_balance q a d.store
        ≡ get_balance q a c.store +ℤ (if asset == a then pos (due q recipients parts) else pos 0)
  pub total :
      (a : ℕ)
      → outstanding a d.store
        ≡ outstanding a c.store +ℤ (if asset == a then pos (sum parts) else pos 0)
  pub rest : d.store ≡ record (c.store) { balances = d.store.balances }

-- The share of the last recipient, and of one before it.
last_share_of :
    (n f : ℕ) (bps : List ℕ) (x : ℤ)
    → f ≤ n
    → share_of (pos n) (pos f) [] bps ≡ ok x
    → x ≡ pos (n - f)
unfolding share_of fit_i128 ◌-ℤ◌
last_share_of n f bps x le h = ground arith

next_share_of :
    (n f o b : ℕ) (os bps : List ℕ) (x : ℤ)
    → share_of (pos n) (pos f) (o ∷ os) (b ∷ bps) ≡ ok x
    → x ≡ pos (n * b / 10_000)
unfolding share_of fit_i128 div_ℤ
next_share_of n f o b os bps x h = ground (arith, *ℤ_pos n b)

pub inserted_balance :
    (r s q a : ℕ) (v : ℤ) (m : List ((ℕ × ℕ) × ℤ))
    → or_default
        (pos 0)
        (lookup (q, a) (insert (r, s) (or_default (pos 0) (lookup (r, s) m) +ℤ v) m))
      ≡ or_default (pos 0) (lookup (q, a) m) +ℤ (if (s == a) && (r == q) then v else pos 0)
inserted_balance r s q a v m =
    let l = lookup-insert (r, s) (q, a) (or_default (pos 0) (lookup (r, s) m) +ℤ v) m in
    rw l (grind (int_laws, pair_beq_iff (r, s) (q, a)))

inserted_total :
    (r s a : ℕ) (v : ℤ) (m : List ((ℕ × ℕ) × ℤ))
    → sum_by (held a) (insert (r, s) (or_default (pos 0) (lookup (r, s) m) +ℤ v) m)
      ≡ sum_by (held a) m +ℤ (if s == a then v else pos 0)
inserted_total r s a v m =
    grind (int_laws, sum_by-insert (held a) (r, s) (or_default (pos 0) (lookup (r, s) m) +ℤ v) m)

-- One credit of the loop.
pub credited :
    (r asset : ℕ) (x : ℤ) (c d : State)
    → credit r asset x c ≡ done (tt, d)
    → d.store ≡ record (c.store) {
      balances = insert (r, asset) (get_balance r asset c.store +ℤ x) c.store.balances;
    }
unfolding fit_i128
credited r asset x c d h = ground arith

-- How a share was computed.
Result-cases :
    (o : Result ContractError ℤ) → ((x : ℤ) × (o ≡ ok x)) ⊎ ((e : ContractError) × (o ≡ err e))
Result-cases (ok x) = inl (x, refl)
Result-cases (err e) = inr (e, refl)

-- One round of the loop.
round :
    (asset r : ℕ) (amount so_far : ℤ) (rs bps : List ℕ) (c d : State)
    → distribute_shares asset amount so_far (r ∷ rs) bps c ≡ done (tt, d)
    → (x : ℤ) × (e : State) × (share_of amount so_far rs bps ≡ ok x)
      × (credit r asset x c ≡ done (tt, e))
      × (distribute_shares asset amount (so_far +ℤ x) rs (tail bps) e ≡ done (tt, d))
unfolding distribute_shares fit_i128
round asset r amount so_far rs bps c d h = elim (Result-cases (share_of amount so_far rs bps)) [
  | inl (x, p) ↦ elim (done-cases (credit r asset x c)) [
    | inl (e, q) ↦ (x, e, p, q, ground arith)
    | inr (inl (e, q)) ↦ absurd (ground arith)
    | inr (inr q) ↦ absurd (ground arith)
  ]
  | inr (e, p) ↦ absurd (ground arith)
]

add_if :
    (p q : Bool) (b : ℤ) (x y : ℕ)
    → (b +ℤ (if p && q then pos x else pos 0)) +ℤ (if p then pos y else pos 0)
      ≡ b +ℤ (if p then pos ((if q then x else 0) + y) else pos 0)
add_if p q b x y = grind int_laws

add_all :
    (p : Bool) (b : ℤ) (x y : ℕ)
    → (b +ℤ (if p then pos x else pos 0)) +ℤ (if p then pos y else pos 0)
      ≡ b +ℤ (if p then pos (x + y) else pos 0)
add_all p b x y = grind int_laws

-- The shares that are left, credited after the first one.
then_rest :
    (asset r : ℕ) (x : ℕ) (rs parts : List ℕ) (c e d : State)
    → credit r asset (pos x) c ≡ done (tt, e)
    → Credits asset rs parts e d
    → Credits asset (r ∷ rs) (x ∷ parts) c d
then_rest asset r x rs parts c e d h k =
    let s = credited r asset (pos x) c e h in
    record {
      balance = λ q a.
          rw (k.balance q a, s, inserted_balance r asset q a (pos x) c.store.balances)
            (add_if (asset == a) (r == q) (get_balance q a c.store) x (due q rs parts));
      total = λ a.
          rw (k.total a, s, inserted_total r asset a (pos x) c.store.balances)
            (add_all (asset == a) (outstanding a c.store) x (sum parts));
      rest = ground (arith, k.rest, s);
    }

nothing_left :
    (asset : ℕ) (amount so_far : ℤ) (bps : List ℕ) (c d : State)
    → distribute_shares asset amount so_far [] bps c ≡ done (tt, d)
    → d ≡ c
unfolding distribute_shares
nothing_left asset amount so_far bps c d h = ground arith

no_shares : (asset : ℕ) (c : State) → Credits asset [] [] c c
no_shares asset c = record {
  balance = λ q a. grind int_laws;
  total = λ a. grind int_laws;
  rest = refl;
}

-- The loop credits the shares that are left of the amount.
pub distribute_shares-Credits :
    (asset n f p r : ℕ) (rs bps : List ℕ) (c d : State)
    → length (r ∷ rs) ≡ length bps
    → f * 10_000 ≤ n * p
    → p + sum bps ≡ 10_000
    → distribute_shares asset (pos n) (pos f) (r ∷ rs) bps c ≡ done (tt, d)
    → Credits asset (r ∷ rs) (shares n f (r ∷ rs) bps) c d
distribute_shares-Credits asset n f p r rs [] c d len lo t h = absurd (omega (arith, len))
distribute_shares-Credits asset n f p r [] (b ∷ bps) c d len lo t h =
    let (x, e, p1, p2, p3) = round asset r (pos n) (pos f) [] (b ∷ bps) c d h in
    let q = last_share_of n f (b ∷ bps) x (at_most n f p (sum (b ∷ bps)) lo t) p1 in
    let same = nothing_left asset (pos n) (pos f +ℤ x) bps e d p3 in
    then_rest asset r (n - f) [] [] c e d (rw q at p2) (rw same (no_shares asset e))
distribute_shares-Credits asset n f p r (s ∷ rs) (b ∷ bps) c d len lo t h =
    let (x, e, p1, p2, p3) = round asset r (pos n) (pos f) (s ∷ rs) (b ∷ bps) c d h in
    let q = next_share_of n f s b rs bps x p1 in
    then_rest asset r (n * b / 10_000) (s ∷ rs) (shares n (f + n * b / 10_000) (s ∷ rs) bps) c e d
      (rw q at p2)
      (distribute_shares-Credits asset n (f + n * b / 10_000) (p + b) s rs bps e d
        (omega (arith, len)) (step_up n f p b lo) (omega (arith, t)) (rw (q, +ℤ_pos) at p3))
