-- ===== src/Token/Client.antt =====
-- contracts/token/src/lib.rs as the token that the other contracts call: while no royalty is set, its
-- transfers are those of the standard interface.
use mathlib.Core.Option.{some-injective}
use chain_verse_onchain.Common.{
  ℕ, ◌≡◌, refl, inl, inr, arith, ◌&&◌, Option, none, some, ◌==◌, ==_iff, Bool-cases, if◌then◌else◌,
  ℤ, pos, ◌+ℤ◌, ◌-ℤ◌, ◌≤ℤ◌, int_laws, Env, Outcome, done, fail, trap, TokenClient,
}
use chain_verse_onchain.Token.{TokenError, balance}
use chain_verse_onchain.Token.Calls
use chain_verse_onchain.Token.Royalties.{State}
use chain_verse_onchain.Token.Transfers.{gain}
use chain_verse_onchain.Token.Spending.{transfer-Moves}

-- The abstract view of a token: what everybody has, and a movement between two.
abbrev pub Holdings : Type 0
Holdings = ℕ → ℤ

abbrev pub view : State → Holdings
view c q = balance q c.store

abbrev pub moved : (from to : ℕ) → ℤ → Holdings → Holdings
moved from to x f q = f q +ℤ (if to == q then x else pos 0) -ℤ (if from == q then x else pos 0)

no_share : (from to q : ℕ) (x b : ℤ) → b +ℤ gain none from to q x ≡ moved from to x (λ (p : ℕ). b) q
no_share from to q x b = grind int_laws

moved_at :
    (env : Env) (from to : ℕ) (x : ℤ) (c d : State) (q : ℕ)
    → c.store.royalty ≡ none
    → Calls.transfer env from to x c ≡ done (tt, d)
    → view d q ≡ moved from to x (view c) q
moved_at env from to x c d q n h =
    let (_, _, m) = transfer-Moves env from to x c d h in
    rw (m.moved q, n) (no_share from to q x (balance q c.store))

-- A token contract in which no royalty is set.
pub record Plain : Type 0 where
  pub state : State
  pub plain : state.store.royalty ≡ none

-- The token contracts of a ledger, by their addresses, and one of them replaced.
abbrev pub Tokens : Type 0
Tokens = ℕ → Plain

abbrev pub put : Tokens → ℕ → Plain → Tokens
put w t p s = if t == s then p else w s

-- What a call to the token at `t` leaves of the ledger, if it succeeds.
abbrev pub settle :
    (w : Tokens) (t : ℕ) (o : Outcome TokenError (Unit {0} × State))
    → ((d : State) → o ≡ done (tt, d) → d.store.royalty ≡ none)
    → Option Tokens
settle w t (done (_, d)) stays = some (put w t (record { state = d; plain = stays d refl }))
settle w t (fail e) stays = none
settle w t trap stays = none

settled :
    (w v : Tokens) (t : ℕ) (o : Outcome TokenError (Unit {0} × State))
    → (stays : (d : State) → o ≡ done (tt, d) → d.store.royalty ≡ none)
    → settle w t o stays ≡ some v
    → (d : State) × (o ≡ done (tt, d))
      × ((s q : ℕ) → view (v s).state q ≡ (if t == s then view d q else view (w s).state q))
settled w v t (done (_, d)) stays h =
    let e = some-injective _ _ h in
    (
      d,
      refl,
      λ s q. rw (← e) (elim (Bool-cases (t == s)) [ inl p ↦ rw p refl | inr p ↦ rw p refl ]),
    )
settled w v t (fail e) stays h = absurd (ground arith)
settled w v t trap stays h = absurd (ground arith)

module _ (env : Env) where
  pub stays_plain :
      (a b : ℕ) (x : ℤ) (p : Plain) (d : State)
      → Calls.transfer env a b x p.state ≡ done (tt, d)
      → d.store.royalty ≡ none
  stays_plain a b x p d h =
      let (_, _, m) = transfer-Moves env a b x p.state d h in rw m.rest p.plain

  abbrev pub send : Tokens → (t a b : ℕ) → ℤ → Option Tokens
  send w t a b x =
      settle w t (Calls.transfer env a b x (w t).state) (λ d h. stays_plain a b x (w t) d h)

  pub send_nonneg : (w v : Tokens) (t a b : ℕ) (x : ℤ) → send w t a b x ≡ some v → pos 0 ≤ℤ x
  send_nonneg w v t a b x h =
      let (d, e, _) = settled w v t _ _ h in
      let (_, _, m) = transfer-Moves env a b x (w t).state d e in omega (arith, m.positive)

  pub send_moves :
      (w v : Tokens) (t a b : ℕ) (x : ℤ) (s q : ℕ)
      → send w t a b x ≡ some v
      → view (v s).state q +ℤ (if (t == s) && (a == q) then x else pos 0)
        ≡ view (w s).state q +ℤ (if (t == s) && (b == q) then x else pos 0)
  send_moves w v t a b x s q h =
      let (d, e, after) = settled w v t _ _ h in
      let at = moved_at env a b x (w t).state d q (w t).plain e in
      elim (Bool-cases (t == s)) [
        | inl p ↦
            let same = (==_iff t s).0 p in
            let is : view (v s).state q ≡ view d q = rw (after s q, p) refl in
            let was : view (w t).state q ≡ view (w s).state q = rw same refl in
            rw (is, at, was, p) (grind int_laws)
        | inr p ↦
            let is : view (v s).state q ≡ view (w s).state q = rw (after s q, p) refl in
            rw (is, p) refl
      ]

  -- The token contract is a client of the kind that the other contracts ask for.
  abbrev pub token_client : TokenClient
  token_client = record {
    World = Tokens;
    balance = λ w t q. view (w t).state q;
    transfer = send;
    transfer_nonneg = send_nonneg;
    transfer_moves = send_moves;
  }
