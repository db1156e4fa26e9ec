-- ===== src/Payment/Histories.antt =====
-- Whole histories of the payment contract: requests in any order, by anyone, while others move tokens.
use chain_verse_onchain.Common.{
  ℕ, ◌≡◌, refl, sym, subst, inl, inr, arith, true, false, some, List, [], ◌∷◌, ◌==◌, ==_iff,
  Option-cases, is_some, nat_eq, pair_eq, ℤ, pos, ◌≤ℤ◌, ◌+ℤ◌, ◌-ℤ◌, int_laws, TokenClient, Env,
  done, pay_out_bound,
}
use chain_verse_onchain.Payment.{
  PaymentRecord, Event, payment_recorded, refund_issued, fee_set, withdrawal_processed, read_token,
  read_payment_record,
}
use chain_verse_onchain.Payment.Calls
use chain_verse_onchain.Payment.Calls.{Call}
use chain_verse_onchain.Payment.Effects.{
  State, pay_for_course-Pays, refund_returns, withdraw_earnings_drains,
}
use chain_verse_onchain.Payment.Solvency.{owed, slack, Pays-slack, withdraw-slack}

-- The entry points that change the contract's state, with their arguments.
pub data Request : Type 0 where
  initialize : (admin token fee_percent refund_window_seconds : ℕ) → Request
  set_fee : (caller fee_percent : ℕ) → Request
  pay_for_course : (student course_id instructor : ℕ) (amount : ℤ) → Request
  refund : (student course_id : ℕ) → Request
  withdraw_earnings : (instructor : ℕ) → Request

-- What the events show as refunded.
abbrev pub refunded : List Event → ℤ
refunded [] = pos 0
refunded (payment_recorded s k x i ∷ l) = refunded l
refunded (refund_issued s k x ∷ l) = x +ℤ refunded l
refunded (fee_set p ∷ l) = refunded l
refunded (withdrawal_processed i x ∷ l) = refunded l

module _ (client : TokenClient) (zero_address : ℕ) where
  open client use {World, balance, transfer}

  -- The dispatch of a request.
  unfoldable pub apply : Env → Request → Call client zero_address (Unit {0})
  apply env (Request.initialize a t p w) = Calls.initialize client zero_address env a t p w
  apply env (Request.set_fee a p) = Calls.set_fee client zero_address env a p
  apply env (Request.pay_for_course a k i x) = Calls.pay_for_course client zero_address env a k i x
  apply env (Request.refund a k) = Calls.refund client zero_address env a k
  apply env (Request.withdraw_earnings i) = Calls.withdraw_earnings client zero_address env i

  -- What the contract holds beyond what it owes, had it not refunded anything.
  abbrev pub covered : (self : ℕ) → State client zero_address → ℤ
  covered self c = slack client zero_address self c +ℤ refunded c.events

  -- The contract is initialized, and holds what it owes but for what it refunded.
  pub record IsCovered (self : ℕ) (c : State client zero_address) : Type 0 where
    pub opened : is_some c.store.admin ≡ true
    pub enough : pos 0 ≤ℤ covered self c

  module _ (env : Env) (c d : State client zero_address) where
    never_again :
        (a t p w : ℕ)
        → is_some c.store.admin ≡ true
        → Calls.initialize client zero_address env a t p w c ≡ done (tt, d)
        → ⊥
    unfolding Calls.initialize
    never_again a t p w o h = ground arith

    set_fee_books :
        (a p : ℕ)
        → Calls.set_fee client zero_address env a p c ≡ done (tt, d)
        → (d.tokens ≡ c.tokens)
          × (d.store ≡ record (c.store) { fee_percent = some p })
          × (d.events ≡ fee_set p ∷ c.events)
    unfolding Calls.set_fee
    set_fee_books a p h = ground arith

    withdraw_event :
        (i : ℕ)
        → Calls.withdraw_earnings client zero_address env i c ≡ done (tt, d)
        → refunded d.events ≡ refunded c.events
    unfolding Calls.withdraw_earnings
    withdraw_event i h = ground arith

    refund_found :
        (a k : ℕ)
        → Calls.refund client zero_address env a k c ≡ done (tt, d)
        → ((m : ℕ) × (c.store.admin ≡ some m))
          × ((r : PaymentRecord) × (read_payment_record a k c.store ≡ some r))
    unfolding Calls.refund
    refund_found a k h = (
      elim (Option-cases c.store.admin) [ inl p ↦ absurd (ground arith) | inr (e, p) ↦ (e, p) ],
      elim (Option-cases (read_payment_record a k c.store)) [
        | inl p ↦ absurd (ground arith)
        | inr (e, p) ↦ (e, p)
      ],
    )

    refund-covered :
        (a k : ℕ)
        → Calls.refund client zero_address env a k c ≡ done (tt, d)
        → (is_some d.store.admin ≡ is_some c.store.admin)
          × (covered env.current_contract c ≤ℤ covered env.current_contract d)
    refund-covered a k h =
        let ((m, is), (r, found)) = refund_found a k h in
        let (_, _, _, p, now, told) =
          refund_returns client zero_address env a k c d m r is found h in
        let t = read_token zero_address c.store in
        let less = pay_out_bound client c.tokens d.tokens t env.current_contract a r.amount t p in
        let le : balance c.tokens t env.current_contract
            ≤ℤ balance d.tokens t env.current_contract +ℤ r.amount =
          rw ((==_iff t t).1 refl) at less in
        (rw now refl, rw (now, told) (omega (int_laws, le)))

    set_fee-covered :
        (a p : ℕ)
        → Calls.set_fee client zero_address env a p c ≡ done (tt, d)
        → (is_some d.store.admin ≡ is_some c.store.admin)
          × (covered env.current_contract c ≤ℤ covered env.current_contract d)
    set_fee-covered a p h =
        let (w, now, told) = set_fee_books a p h in
        (rw now refl, rw (w, now, told) (omega int_laws))

    withdraw-covered :
        (i : ℕ)
        → Calls.withdraw_earnings client zero_address env i c ≡ done (tt, d)
        → (is_some d.store.admin ≡ is_some c.store.admin)
          × (covered env.current_contract c ≤ℤ covered env.current_contract d)
    withdraw-covered i h =
        let (_, _, _, now, _) = withdraw_earnings_drains client zero_address env i c d h in
        let le = withdraw-slack client zero_address env c d i h in
        (rw now refl, rw (withdraw_event i h) (omega (int_laws, le)))

    pay-covered :
        (a k i : ℕ) (x : ℤ)
        → env.authorized env.current_contract ≡ false
        → Calls.pay_for_course client zero_address env a k i x c ≡ done (tt, d)
        → (is_some d.store.admin ≡ is_some c.store.admin)
          × (covered env.current_contract c ≤ℤ covered env.current_contract d)
    pay-covered a k i x alone h =
        let p = pay_for_course-Pays client zero_address env a k c d i x h in
        let ne : (a == env.current_contract) ≡ false = ground (arith, p.signed) in
        let (_, le) = Pays-slack client zero_address env c d a k i x ne p in
        (rw p.stored refl, rw p.told (omega (int_laws, le)))

    apply-covered :
        (r : Request)
        → env.authorized env.current_contract ≡ false
        → is_some c.store.admin ≡ true
        → apply env r c ≡ done (tt, d)
        → (is_some d.store.admin ≡ is_some c.store.admin)
          × (covered env.current_contract c ≤ℤ covered env.current_contract d)
    unfolding apply
    apply-covered (Request.initialize a t p w) alone o h = absurd (never_again a t p w o h)
    apply-covered (Request.set_fee a p) alone o h = set_fee-covered a p h
    apply-covered (Request.pay_for_course a k i x) alone o h = pay-covered a k i x alone h
    apply-covered (Request.refund a k) alone o h = refund-covered a k h
    apply-covered (Request.withdraw_earnings i) alone o h = withdraw-covered i h

    apply-IsCovered :
        (r : Request)
        → env.authorized env.current_contract ≡ false
        → apply env r c ≡ done (tt, d)
        → IsCovered env.current_contract c
        → IsCovered env.current_contract d
    apply-IsCovered r alone h s =
        let (same, le) = apply-covered r alone s.opened h in
        record { opened = rw same s.opened; enough = omega (arith, le, s.enough) }

  module _ (self : ℕ) where
    -- One step: a request that succeeds, or an act of others, which cannot take the contract's tokens.
    -- A request that fails is rolled back and is no step.
    pub data Step : State client zero_address → State client zero_address → Type 0 where
      request :
          (env : Env) (r : Request) (c d : State client zero_address)
          → env.current_contract ≡ self
          → env.authorized self ≡ false
          → apply env r c ≡ done (tt, d)
          → Step c d
      others :
          (w : World) (c : State client zero_address)
          → ((t : ℕ) → balance c.tokens t self ≤ℤ balance w t self)
          → Step c (record c { tokens = w })

    pub data Reach (c : State client zero_address) : State client zero_address → Type 0 where
      here : Reach c c
      next : {d e : State client zero_address} → Reach c d → Step d e → Reach c e

    more_covered :
        (w : World) (c : State client zero_address)
        → ((t : ℕ) → balance c.tokens t self ≤ℤ balance w t self)
        → pos 0 ≤ℤ covered self c
        → pos 0 ≤ℤ covered self (record c { tokens = w })
    more_covered w c more le =
        let gain = more (read_token zero_address c.store) in
        let was : pos 0
            ≤ℤ balance c.tokens (read_token zero_address c.store) self
              -ℤ owed c.store
              +ℤ refunded c.events =
          le in
        omega (int_laws, gain, was)

    Step-IsCovered :
        {c d : State client zero_address} → Step c d → IsCovered self c → IsCovered self d
    Step-IsCovered (request env r c d at_self n h) s =
        let s' = subst (λ (x : ℕ). IsCovered x c) (sym at_self) s in
        subst (λ (x : ℕ). IsCovered x d) at_self (apply-IsCovered env c d r (rw at_self n) h s')
    Step-IsCovered (others w c more) s = record {
      opened = s.opened;
      enough = more_covered w c more s.enough;
    }

    -- In every state that is reached from an initialized one in which the contract holds what it owes
    -- its instructors, by requests of anybody in any order and by acts of others that do not take the
    -- contract's tokens, where no caller has the contract's own authority: what the contract holds
    -- falls short of what it owes by no more than what the events show as refunded.
    pub Reach-IsCovered :
        {c d : State client zero_address} → IsCovered self c → Reach c d → IsCovered self d
    Reach-IsCovered s here = s
    Reach-IsCovered s (next r q) = Step-IsCovered q (Reach-IsCovered s r)
