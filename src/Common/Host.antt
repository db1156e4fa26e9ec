-- ===== src/Common/Host.antt =====
-- The Soroban host as a contract sees it: the ledger's time, who has authorised the call, the
-- outcome of an invocation, and the client of a token contract.
--
-- An invocation that returns an error or panics is rolled back by the host, so an outcome carries a
-- state only when it succeeds. Addresses, identifiers and symbols are only compared and are numbers.
use Prim.Native.Nat.{ℕ}
use mathlib.Core.Path.{◌≡◌, refl}
use mathlib.Core.Logic.{◌⊎◌, inl, inr}
use mathlib.Core.Bool.{Bool, true, false, not, ◌&&◌}
use mathlib.Core.Option.{Option, none, some}
use mathlib.Core.List.{List, ◌∷◌}
use chain_verse_onchain.Common.Tests.{◌==◌, if◌then◌else◌}
use chain_verse_onchain.Common.Int.{ℤ, pos, ◌+ℤ◌, ◌≤ℤ◌, int_laws}

-- `Env`: the timestamp and sequence number of the ledger, the address of the running contract, and
-- the addresses whose authorisation the call carries.
pub record Env : Type 0 where
  pub timestamp : ℕ
  pub sequence : ℕ
  pub current_contract : ℕ
  pub authorized : ℕ → Bool

-- A checked value or a typed error: Rust's `Result`.
pub data Result {ℓ κ} (E : Type ℓ) (A : Type κ) : Type (ℓ ⊔ κ) where
  ok : A → Result E A
  err : E → Result E A

-- How an invocation ends; `trap` is a panic, a failed `require_auth` or an arithmetic overflow.
pub data Outcome {ℓ κ} (E : Type ℓ) (A : Type κ) : Type (ℓ ⊔ κ) where
  done : A → Outcome E A
  fail : E → Outcome E A
  trap : Outcome E A

-- The contract's own storage, the state of the token contracts, and the events published, newest
-- first.
pub record Chain (W S V : Type 0) : Type 0 where
  pub tokens : W
  pub store : S
  pub events : List V

abbrev pub Contract : (W S V E A : Type 0) → Type 0
Contract W S V E A = Chain W S V → Outcome E (A × Chain W S V)

module _ {W S V E A : Type 0} where
  abbrev pub pure : A → Contract W S V E A
  pure a c = done (a, c)

  -- `return Err(e)`
  abbrev pub raise : E → Contract W S V E A
  raise e c = fail e

  abbrev pub panic : Contract W S V E A
  panic c = trap

  abbrev pub gets : (S → A) → Contract W S V E A
  gets f c = done (f c.store, c)

  -- `o.ok_or(e)?`
  abbrev pub ok_or : Option A → E → Contract W S V E A
  ok_or none e c = fail e
  ok_or (some a) e c = done (a, c)

  -- Arithmetic under `overflow-checks`.
  abbrev pub or_panic : Option A → Contract W S V E A
  or_panic none c = trap
  or_panic (some a) c = done (a, c)

  -- `r?`
  abbrev pub lift : Result E A → Contract W S V E A
  lift (ok a) c = done (a, c)
  lift (err e) c = fail e

module _ {W S V E A B : Type 0} where
  infixl 5 ◌>>=◌ ◌>>◌
  abbrev pub ◌>>=◌ : Contract W S V E A → (A → Contract W S V E B) → Contract W S V E B
  ◌>>=◌ m f c = elim (m c) [ done (a, d) ↦ f a d | fail e ↦ fail e | trap ↦ trap ]

  abbrev pub ◌>>◌ : Contract W S V E A → Contract W S V E B → Contract W S V E B
  ◌>>◌ m k c = elim (m c) [ done (a, d) ↦ k d | fail e ↦ fail e | trap ↦ trap ]

module _ {W S V E : Type 0} where
  -- `if b { return Err(e) }`
  abbrev pub raise_if : Bool → E → Contract W S V E (Unit {0})
  raise_if true e c = fail e
  raise_if false e c = done (tt, c)

  abbrev pub panic_if : Bool → Contract W S V E (Unit {0})
  panic_if true c = trap
  panic_if false c = done (tt, c)

  -- `if b { m }`
  abbrev pub when : Bool → Contract W S V E (Unit {0}) → Contract W S V E (Unit {0})
  when true m c = m c
  when false m c = done (tt, c)

  -- `address.require_auth()`
  abbrev pub require_auth : Env → ℕ → Contract W S V E (Unit {0})
  require_auth env a = panic_if (not (env.authorized a))

  abbrev pub modify : (S → S) → Contract W S V E (Unit {0})
  modify f c = done (tt, record c { store = f c.store })

  abbrev pub emit : V → Contract W S V E (Unit {0})
  emit v c = done (tt, record c { events = v ∷ c.events })

-- How an invocation ended.
pub done-cases :
    {W S V E : Type 0} (o : Outcome E (Unit {0} × Chain W S V))
    → ((d : Chain W S V) × (o ≡ done (tt, d))) ⊎ ((e : E) × (o ≡ fail e)) ⊎ (o ≡ trap)
done-cases (done (tt, d)) = inl (d, refl)
done-cases (fail e) = inr (inl (e, refl))
done-cases trap = inr (inr refl)

-- A call whose result is dropped succeeded.
pub dropped-done :
    {W S V E A : Type 0} (o : Outcome E (A × Chain W S V)) (d : Chain W S V)
    → ◌≡◌ {A = Outcome E (Unit {0} × Chain W S V)}
        (elim o [ done (a, c) ↦ done (tt, c) | fail e ↦ fail e | trap ↦ trap ])
        (done (tt, d))
    → (a : A) × (o ≡ done (a, d))
dropped-done (done (a, c)) d h = (a, cc)
dropped-done (fail e) d h = cc
dropped-done trap d h = cc

-- The client of the token contracts (SEP-41), which the contracts call and do not implement. A
-- transfer that fails panics. One that succeeds has moved its amount, which is not negative, and
-- nothing else.
pub record TokenClient : Type 1 where
  pub World : Type 0
  pub balance : World → ℕ → ℕ → ℤ
  pub transfer : World → ℕ → ℕ → ℕ → ℤ → Option World
  pub transfer_nonneg : (w v : World) (t a b : ℕ) (x : ℤ) → transfer w t a b x ≡ some v → pos 0 ≤ℤ x
  pub transfer_moves :
      (w v : World) (t a b : ℕ) (x : ℤ) (s c : ℕ)
      → transfer w t a b x ≡ some v
      → balance v s c +ℤ (if (t == s) && (a == c) then x else pos 0)
        ≡ balance w s c +ℤ (if (t == s) && (b == c) then x else pos 0)

module _ (client : TokenClient) where
  open client use {World, balance, transfer, transfer_nonneg, transfer_moves}

  -- `TokenClient::new(env, token).transfer(from, to, amount)`
  abbrev pub token_transfer : {S V E : Type 0} → ℕ → ℕ → ℕ → ℤ → Contract World S V E (Unit {0})
  token_transfer t a b x c = elim (transfer c.tokens t a b x) [
    | none ↦ trap
    | some w ↦ done (tt, record c { tokens = w })
  ]

  -- A payment from `self` lowers what `self` holds of that token by at most the amount, and leaves
  -- its other tokens.
  pub pay_out_bound :
      (w v : World) (t self b : ℕ) (x : ℤ) (s : ℕ)
      → transfer w t self b x ≡ some v
      → balance w s self ≤ℤ balance v s self +ℤ (if t == s then x else pos 0)
  pay_out_bound w v t self b x s h =
      grind (int_laws, transfer_moves w v t self b x s self h, transfer_nonneg w v t self b x h)

  -- A payment from another address to `self` raises what `self` holds by exactly the amount.
  pub pay_in_exact :
      (w v : World) (t a self : ℕ) (x : ℤ) (s : ℕ)
      → (a == self) ≡ false
      → transfer w t a self x ≡ some v
      → balance v s self ≡ balance w s self +ℤ (if t == s then x else pos 0)
  pay_in_exact w v t a self x s ne h = grind (int_laws, transfer_moves w v t a self x s self h)
