-- ===== src/Common/Ledger.antt =====
-- A token ledger: a concrete client that behaves as `TokenClient` asks.
use Prim.Native.Nat.{ℕ}
use mathlib.Core.Path.{◌≡◌}
use mathlib.Core.Bool.{Bool, true, false, ◌||◌, ◌&&◌}
use mathlib.Core.Option.{Option, none, some, some-injective}
use chain_verse_onchain.Common.Tests.{◌==◌, if◌then◌else◌}
use chain_verse_onchain.Common.Int.{ℤ, pos, ◌+ℤ◌, ◌-ℤ◌, ◌≤ℤ◌, ltb_ℤ, int_laws}
use chain_verse_onchain.Common.Host.{TokenClient}

-- The balance of each address in each token.
abbrev pub Balances : Type 0
Balances = ℕ → ℕ → ℤ

abbrev pub move : Balances → (t a b : ℕ) → ℤ → Balances
move w t a b x s c =
    w s c
    -ℤ (if (t == s) && (a == c) then x else pos 0)
    +ℤ (if (t == s) && (b == c) then x else pos 0)

abbrev pub move_checked : Balances → (t a b : ℕ) → ℤ → Option Balances
move_checked w t a b x = if ltb_ℤ x (pos 0) || ltb_ℤ (w t a) x then none else some (move w t a b x)

pub move_nonneg :
    (w v : Balances) (t a b : ℕ) (x : ℤ) → move_checked w t a b x ≡ some v → pos 0 ≤ℤ x
move_nonneg w v t a b x h = grind int_laws

moved :
    (w v : Balances) (t a b : ℕ) (x : ℤ)
    → (refused : Bool) → (if refused then none else some (move w t a b x)) ≡ some v
    → move w t a b x ≡ v
moved w v t a b x true h = cc
moved w v t a b x false h = some-injective _ _ h

pub move_moves :
    (w v : Balances) (t a b : ℕ) (x : ℤ) (s c : ℕ)
    → move_checked w t a b x ≡ some v
    → v s c +ℤ (if (t == s) && (a == c) then x else pos 0)
      ≡ w s c +ℤ (if (t == s) && (b == c) then x else pos 0)
move_moves w v t a b x s c h =
    rw (← moved w v t a b x (ltb_ℤ x (pos 0) || ltb_ℤ (w t a) x) h) (omega int_laws)

abbrev pub ledger : TokenClient
ledger = record {
  World = Balances;
  balance = λ w. w;
  transfer = move_checked;
  transfer_nonneg = move_nonneg;
  transfer_moves = move_moves;
}
