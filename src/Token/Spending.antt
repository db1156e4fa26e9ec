-- ===== src/Token/Spending.antt =====
-- contracts/token/src/lib.rs: transfers by the owner and by a spender, and what a request can take.
use chain_verse_onchain.Common.{
  ℕ, ◌≡◌, refl, arith, inl, inr, true, false, Option, none, some, ◌≤◌, List, if◌then◌else◌, insert,
  erase, nat_eq, pair_eq, lookup, ℤ, pos, ◌-ℤ◌, ◌≤ℤ◌, eq_ℤ, Env, done, done-cases,
}
use chain_verse_onchain.Token.{Allowance, is_expired}
use chain_verse_onchain.Token.Calls.{transfer, transfer_from, apply_transfer, spend}
use chain_verse_onchain.Token.Royalties.{State}
use chain_verse_onchain.Token.Transfers.{Moves, apply_transfer-Moves}

-- An allowance is in force: up to its expiry, if it has one.
abbrev pub Live : (now : ℕ) → Option ℕ → Type 0
Live now none = Unit
Live now (some exp) = now ≤ exp

not_expired : (now : ℕ) (exp : Option ℕ) → is_expired now exp ≡ false → Live now exp
not_expired now none h = tt
not_expired now (some exp) h = ground arith

signed :
    (env : Env) (from to : ℕ) (amount : ℤ) (c d : State)
    → transfer env from to amount c ≡ done (tt, d)
    → (env.authorized from ≡ true)
      × (c.store.paused ≡ false)
      × (apply_transfer from to amount c ≡ done (tt, d))
unfolding transfer
signed env from to amount c d h = ground arith

allowed :
    (env : Env) (spender from to : ℕ) (amount : ℤ) (c d : State) (a : Allowance)
    → lookup (from, spender) c.store.allowances ≡ some a
    → transfer_from env spender from to amount c ≡ done (tt, d)
    → (env.authorized spender ≡ true)
      × (c.store.paused ≡ false)
      × Live env.timestamp a.expires_at
      × (amount ≤ℤ a.amount)
      × (e : State) × (apply_transfer from to amount c ≡ done (tt, e))
      × (d.store ≡ spend from spender a amount e.store)
unfolding transfer_from
allowed env spender from to amount c d a has h =
    elim (done-cases (apply_transfer from to amount c)) [
      | inl (e, p) ↦
          let (u, q, x, le, now) : (env.authorized spender ≡ true)
              × (c.store.paused ≡ false)
              × (is_expired env.timestamp a.expires_at ≡ false)
              × (amount ≤ℤ a.amount)
              × (d.store ≡ spend from spender a amount e.store) =
            ground arith in
          (u, q, not_expired env.timestamp a.expires_at x, le, e, p, now)
      | inr (inl (e, p)) ↦ absurd (ground arith)
      | inr (inr p) ↦ absurd (ground arith)
    ]

-- A transfer that succeeds is signed by the sender while the contract is not paused. It takes the
-- amount from the sender, who has it, gives the receiver the amount less the royalty and the royalty's
-- recipient the royalty, leaves every other balance and the supply, and changes nothing else.
pub transfer-Moves :
    (env : Env) (from to : ℕ) (amount : ℤ) (c d : State)
    → transfer env from to amount c ≡ done (tt, d)
    → (env.authorized from ≡ true) × (c.store.paused ≡ false) × Moves from to amount c d
transfer-Moves env from to amount c d h =
    let (u, p, k) = signed env from to amount c d h in
    (u, p, apply_transfer-Moves from to amount c d k)

-- What a spender's transfer leaves of the allowance: nothing, or the amount less.
abbrev pub left :
    (from spender : ℕ) → Allowance → ℤ → List ((ℕ × ℕ) × Allowance) → List ((ℕ × ℕ) × Allowance)
left from spender a amount m =
    if eq_ℤ (a.amount -ℤ amount) (pos 0)
    then erase (from, spender) m
    else insert (from, spender) (record a { amount = a.amount -ℤ amount }) m

-- A transfer by a spender that succeeds is signed by the spender, who has an allowance of the owner that
-- covers the amount and whose expiry, if it has one, has not passed. It moves the balances as a transfer
-- of the owner does and takes the amount off the allowance, which is removed when nothing of it is left.
pub transfer_from_spends :
    (env : Env) (spender from to : ℕ) (amount : ℤ) (c d : State) (a : Allowance)
    → lookup (from, spender) c.store.allowances ≡ some a
    → transfer_from env spender from to amount c ≡ done (tt, d)
    → (env.authorized spender ≡ true)
      × (c.store.paused ≡ false)
      × Live env.timestamp a.expires_at
      × (amount ≤ℤ a.amount)
      × (e : State) × Moves from to amount c e
      × (d.store ≡ record (e.store) { allowances = left from spender a amount c.store.allowances })
unfolding spend
transfer_from_spends env spender from to amount c d a has h =
    let (u, p, x, le, e, k, now) = allowed env spender from to amount c d a has h in
    let m = apply_transfer-Moves from to amount c e k in
    (u, p, x, le, e, m, rw now (rw m.rest refl))
