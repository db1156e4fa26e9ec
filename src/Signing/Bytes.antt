-- ===== src/Signing/Bytes.antt =====
-- Rust's `to_be_bytes`, which contracts/shared/src/signing.rs and its callers use, and lists of bytes of a
-- fixed width.
use chain_verse_onchain.Common.{
  ℕ, zero, suc, ◌+◌, ◌*◌, ◌/◌, ◌%◌, ◌^◌, ◌<◌, ◌≡◌, refl, ap, sym, ◌∙◌, inl, inr, ◌⊎◌, ◌≢◌, arith,
  List, [], ◌∷◌, ◌++◌, length, ◌==◌, ==_iff, Bool-cases,
}

-- The last `w` bytes of a number, the highest first.
unfoldable pub to_be_bytes : (w n : ℕ) → List ℕ
to_be_bytes zero n = []
to_be_bytes (suc w) n = to_be_bytes w (n / 256) ++ n % 256 ∷ []

abbrev pub to_array : ℕ → List ℕ
to_array n = to_be_bytes 32 n

-- The number that bytes stand for, after those that `acc` stands for.
unfoldable pub from_be_bytes : (acc : ℕ) → List ℕ → ℕ
from_be_bytes acc [] = acc
from_be_bytes acc (b ∷ l) = from_be_bytes (acc * 256 + b) l

from_be_bytes-snoc :
    (acc b : ℕ) (l : List ℕ) → from_be_bytes acc (l ++ b ∷ []) ≡ from_be_bytes acc l * 256 + b
unfolding from_be_bytes
from_be_bytes-snoc acc b [] = refl
from_be_bytes-snoc acc b (c ∷ l) = from_be_bytes-snoc (acc * 256 + c) b l

-- Bytes read back give the number they were written from, when it has at most that many bytes.
pub from_be_bytes-to_be_bytes : (w n : ℕ) → n < 256 ^ w → from_be_bytes 0 (to_be_bytes w n) ≡ n
unfolding to_be_bytes from_be_bytes
from_be_bytes-to_be_bytes zero n h = omega (arith, h)
from_be_bytes-to_be_bytes (suc w) n h =
    let k : 256 ^ suc w ≡ 256 * 256 ^ w = grind arith in
    let less : n / 256 < 256 ^ w = omega (arith, h, k) in
    rw
      (
        from_be_bytes-snoc 0 (n % 256) (to_be_bytes w (n / 256)),
        from_be_bytes-to_be_bytes w (n / 256) less,
      )
      (omega arith)

pub to_be_bytes-injective :
    (w m n : ℕ) → m < 256 ^ w → n < 256 ^ w → to_be_bytes w m ≡ to_be_bytes w n → m ≡ n
to_be_bytes-injective w m n lm ln h =
    sym (from_be_bytes-to_be_bytes w m lm)
    ∙ ap (from_be_bytes 0) h
    ∙ from_be_bytes-to_be_bytes w n ln

length-snoc : (l : List ℕ) (b : ℕ) → length (l ++ b ∷ []) ≡ suc (length l)
length-snoc [] b = refl
length-snoc (c ∷ l) b = ap suc (length-snoc l b)

pub length-to_be_bytes : (w n : ℕ) → length (to_be_bytes w n) ≡ w
unfolding to_be_bytes
length-to_be_bytes zero n = refl
length-to_be_bytes (suc w) n =
    length-snoc (to_be_bytes w (n / 256)) (n % 256) ∙ ap suc (length-to_be_bytes w (n / 256))

-- Fields of the same width in equal byte strings are equal, and so is what follows.
pub split_prefix : (a b c d : List ℕ) → length a ≡ length b → a ++ c ≡ b ++ d → (a ≡ b) × (c ≡ d)
split_prefix [] [] c d e h = (refl, h)
split_prefix [] (y ∷ b) c d e h = absurd (omega (arith, e))
split_prefix (x ∷ a) [] c d e h = absurd (omega (arith, e))
split_prefix (x ∷ a) (y ∷ b) c d e h =
    let (p, q) = split_prefix a b c d (omega (arith, e)) cc in (cc, q)

length-++ : (a c : List ℕ) → length (a ++ c) ≡ length a + length c
length-++ [] c = omega arith
length-++ (x ∷ a) c = omega (arith, length-++ a c)

-- The same for what stands before fields of the same width.
pub split_suffix : (a b c d : List ℕ) → length c ≡ length d → a ++ c ≡ b ++ d → (a ≡ b) × (c ≡ d)
split_suffix a b c d e h =
    let l : length a + length c ≡ length b + length d =
      sym (length-++ a c) ∙ ap length h ∙ length-++ b d in
    split_prefix a b c d (omega (arith, e, l)) h

-- Equal lists of bytes can be told.
pub same_bytes : (a b : List ℕ) → (a ≡ b) ⊎ (a ≢ b)
same_bytes [] [] = inl refl
same_bytes [] (y ∷ b) = inr (λ h. cc)
same_bytes (x ∷ a) [] = inr (λ h. cc)
same_bytes (x ∷ a) (y ∷ b) = elim (Bool-cases (x == y)) [
  | inl p ↦
      let i = (==_iff x y).0 p in elim (same_bytes a b) [ inl q ↦ inl cc | inr n ↦ inr (λ h. n cc) ]
  | inr p ↦ inr (λ h. absurd (ground arith))
]
