-- ===== src/RoyaltySplits/Shares.antt =====
-- The shares of a distribution, apart from the storage: the whole amount is shared out, and the last
-- recipient's share differs from its own basis points by less than one unit for each recipient.
use chain_verse_onchain.Common.{
  ℕ, ◌+◌, ◌-◌, ◌*◌, ◌/◌, ◌≤◌, ◌≡◌, ap, arith, List, [], ◌∷◌, length, ◌==◌, if◌then◌else◌,
}

abbrev pub sum : List ℕ → ℕ
sum [] = 0
sum (x ∷ xs) = x + sum xs

-- The shares of `n`, of which `f` is given out already.
abbrev pub shares : (n f : ℕ) → (recipients bps : List ℕ) → List ℕ
shares n f [] bps = []
shares n f (r ∷ []) bps = (n - f) ∷ []
shares n f (r ∷ s ∷ rs) [] = []
shares n f (r ∷ s ∷ rs) (b ∷ bps) = n * b / 10_000 ∷ shares n (f + n * b / 10_000) (s ∷ rs) bps

-- What recipient `q` is due: a recipient who is listed twice is due both shares.
abbrev pub due : (q : ℕ) → (recipients parts : List ℕ) → ℕ
due q [] parts = 0
due q (r ∷ rs) [] = 0
due q (r ∷ rs) (x ∷ parts) = (if r == q then x else 0) + due q rs parts

-- The last of a list, `d` of the empty one.
abbrev pub last : ℕ → List ℕ → ℕ
last d [] = d
last d (x ∷ xs) = last x xs

pub step_up : (n f p b : ℕ) → f * 10_000 ≤ n * p → (f + n * b / 10_000) * 10_000 ≤ n * (p + b)
step_up n f p b h = grind arith

step_down :
    (n f p b k : ℕ)
    → n * p ≤ f * 10_000 + k * 10_000
    → n * (p + b) ≤ (f + n * b / 10_000) * 10_000 + (k + 1) * 10_000
step_down n f p b k h = grind arith

pub at_most : (n f p q : ℕ) → f * 10_000 ≤ n * p → p + q ≡ 10_000 → f ≤ n
at_most n f p q h t = grind arith

-- The shares add up to the amount, when what is given out so far is within its basis points.
pub shares-sum :
    (n f p r : ℕ) (rs bps : List ℕ)
    → length (r ∷ rs) ≡ length bps
    → f * 10_000 ≤ n * p
    → p + sum bps ≡ 10_000
    → f + sum (shares n f (r ∷ rs) bps) ≡ n
shares-sum n f p r [] bps h k t = ground (arith, at_most n f p (sum bps) k t)
shares-sum n f p r (s ∷ rs) [] h k t = absurd (omega (arith, h))
shares-sum n f p r (s ∷ rs) (b ∷ bps) h k t = omega (
  arith,
  shares-sum n (f + n * b / 10_000) (p + b) s rs bps (omega (arith, h)) (step_up n f p b k)
      (omega (arith, t)),
)

last_share :
    (n f p b k : ℕ)
    → f * 10_000 ≤ n * p
    → n * p ≤ f * 10_000 + k * 10_000
    → p + b ≡ 10_000
    → (n * b ≤ (n - f) * 10_000) × ((n - f) * 10_000 ≤ n * b + k * 10_000)
last_share n f p b k lo hi t =
    let e : n * (p + b) ≡ n * 10_000 = ap (λ x. n * x) t in
    let s : n * (p + b) ≡ n * p + n * b = grind arith in omega (arith, lo, hi, e, s)

-- The last share is its basis points of the amount, rounded up by at most one unit for each recipient
-- before it.
pub shares-last :
    (n f p k r d e : ℕ) (rs bps : List ℕ)
    → length (r ∷ rs) ≡ length bps
    → f * 10_000 ≤ n * p
    → n * p ≤ f * 10_000 + k * 10_000
    → p + sum bps ≡ 10_000
    → (n * last d bps ≤ last e (shares n f (r ∷ rs) bps) * 10_000)
      × (last e (shares n f (r ∷ rs) bps) * 10_000 ≤ n * last d bps + (k + length rs) * 10_000)
shares-last n f p k r d e rs [] h lo hi t = absurd (omega (arith, h))
shares-last n f p k r d e [] (b ∷ []) h lo hi t =
    ground (arith, last_share n f p b k lo hi (omega (arith, t)))
shares-last n f p k r d e [] (b ∷ c ∷ bps) h lo hi t = absurd (omega (arith, h))
shares-last n f p k r d e (s ∷ rs) (b ∷ bps) h lo hi t =
    let (l, u) =
      shares-last n (f + n * b / 10_000) (p + b) (k + 1) s b (n * b / 10_000) rs bps
        (omega (arith, h)) (step_up n f p b lo) (step_down n f p b k hi) (omega (arith, t)) in
    (l, omega (arith, u))
