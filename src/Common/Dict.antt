-- ===== src/Common/Dict.antt =====
-- Storage maps as association lists; a key that is set again keeps its place.
use Prim.Native.Nat.{ℕ}
use mathlib.Core.Path.{◌≡◌, refl, sym, subst}
use mathlib.Core.Logic.{◌↔◌}
use mathlib.Core.Bool.{Bool, true, false, ◌&&◌}
use mathlib.Core.Option.{Option, none, some}
use mathlib.Core.List.{List, [], ◌∷◌}
use native.Mathlib.Omega.{arith}
use chain_verse_onchain.Common.Tests.{◌==◌, ==_iff, if◌then◌else◌}
use chain_verse_onchain.Common.Int.{ℤ, pos, ◌+ℤ◌, int_laws}

-- Equality of keys.
pub record Eq {ℓ} (K : Type ℓ) : Type ℓ where
  pub beq : K → K → Bool
  pub beq_iff : (a b : K) → (beq a b ≡ true) ↔ (a ≡ b)

instance abbrev pub nat_eq : Eq ℕ
nat_eq = record { beq = ◌==◌; beq_iff = ==_iff }

abbrev pub pair_beq : ℕ × ℕ → ℕ × ℕ → Bool
pair_beq (a, b) (c, d) = (a == c) && (b == d)

pub pair_beq_iff : (p q : ℕ × ℕ) → (pair_beq p q ≡ true) ↔ (p ≡ q)
pair_beq_iff (a, b) (c, d) = (λ h. ground arith, λ h. ground arith)

instance abbrev pub pair_eq : Eq (ℕ × ℕ)
pair_eq = record { beq = pair_beq; beq_iff = pair_beq_iff }

module _ {ℓ κ} {K : Type ℓ} {V : Type κ} ⦃e : Eq K⦄ where
  abbrev pub lookup : K → List (K × V) → Option V
  lookup k [] = none
  lookup k ((j, v) ∷ m) = if e.beq j k then some v else lookup k m

  abbrev pub insert : K → V → List (K × V) → List (K × V)
  insert k v [] = (k, v) ∷ []
  insert k v ((j, w) ∷ m) = if e.beq j k then (k, v) ∷ m else (j, w) ∷ insert k v m

  abbrev pub erase : K → List (K × V) → List (K × V)
  erase k [] = []
  erase k ((j, w) ∷ m) = if e.beq j k then erase k m else (j, w) ∷ erase k m

  -- A read after a write.
  pub lookup-insert :
      (k j : K) (v : V) (m : List (K × V))
      → lookup j (insert k v m) ≡ (if e.beq k j then some v else lookup j m)
  lookup-insert k j v [] = refl
  lookup-insert k j v ((i, w) ∷ m) =
      ground (arith, e.beq_iff k j, e.beq_iff i k, e.beq_iff i j, lookup-insert k j v m)

  -- A read after a removal.
  pub lookup-erase :
      (k j : K) (m : List (K × V)) → lookup j (erase k m) ≡ (if e.beq k j then none else lookup j m)
  lookup-erase k j [] = ground arith
  lookup-erase k j ((i, w) ∷ m) =
      ground (arith, e.beq_iff k j, e.beq_iff i k, e.beq_iff i j, lookup-erase k j m)

  -- A read at the key that was written, at another one, and at one that is equal to it.
  pub lookup-insert_here :
      (k j : K) (v u : V) (m : List (K × V))
      → e.beq k j ≡ true
      → lookup j (insert k v m) ≡ some u
      → (u ≡ v) × (j ≡ k)
  lookup-insert_here k j v u m p h =
      let q : some v ≡ some u = rw (lookup-insert k j v m, p) at h in
      (ground arith, sym ((e.beq_iff k j).0 p))

  pub lookup-insert_there :
      (k j : K) (v : V) (m : List (K × V))
      → e.beq k j ≡ false
      → lookup j (insert k v m) ≡ lookup j m
  lookup-insert_there k j v m p = rw (lookup-insert k j v m, p) refl

  pub lookup_clash :
      {A : Type 0} (k j : K) (v : V) (m : List (K × V))
      → e.beq k j ≡ true
      → lookup k m ≡ some v
      → lookup j m ≡ none
      → A
  lookup_clash k j v m p h n =
      let q : lookup j m ≡ some v =
        subst (λ (x : K). lookup x m ≡ some v) ((e.beq_iff k j).0 p) h in
      absurd (ground arith)

  -- What the entries add up to, by a weight.
  abbrev pub sum_by : (K → V → ℤ) → List (K × V) → ℤ
  sum_by f [] = pos 0
  sum_by f ((k, v) ∷ m) = f k v +ℤ sum_by f m

  -- The weight of one key's entry.
  abbrev pub weight : (K → V → ℤ) → K → Option V → ℤ
  weight f k none = pos 0
  weight f k (some v) = f k v

  -- A write changes the sum by the entry's change.
  pub sum_by-insert :
      (f : K → V → ℤ) (k : K) (v : V) (m : List (K × V))
      → sum_by f (insert k v m) +ℤ weight f k (lookup k m) ≡ sum_by f m +ℤ f k v
  sum_by-insert f k v [] = omega int_laws
  sum_by-insert f k v ((j, w) ∷ m) = grind (int_laws, e.beq_iff j k, sum_by-insert f k v m)
