-- ===== src/LibraryDeposits/Histories.antt =====
-- Whole histories of the deposit contract: requests in any order, by anyone, while others move tokens.
use chain_verse_onchain.Common.{
  ℕ, ◌≡◌, sym, subst, inl, inr, arith, false, some, Option-cases, nat_eq, ℤ, ◌≤ℤ◌, TokenClient, Env,
  done, dropped-done, pure, ◌>>◌,
}
use chain_verse_onchain.LibraryDeposits.{Deposit, load_deposit}
use chain_verse_onchain.LibraryDeposits.Calls
use chain_verse_onchain.LibraryDeposits.Calls.{Call, new_deposit}
use chain_verse_onchain.LibraryDeposits.Invariant.{State, IsBacked, PaysOut-IsBacked}
use chain_verse_onchain.LibraryDeposits.Locks.{Distinct, lock-IsBacked}
use chain_verse_onchain.LibraryDeposits.Payments.{
  release-PaysOut, partial_charge-PaysOut, full_charge-PaysOut,
}

-- The entry points that change the contract's state, with their arguments.
pub data Request : Type 0 where
  initialize : (admin treasury : ℕ) → Request
  lock_deposit : (patron loan_id token : ℕ) (amount : ℤ) → Request
  release_deposit : (caller deposit_id : ℕ) → Request
  partial_charge : (caller deposit_id : ℕ) (charge_amount : ℤ) → Request
  full_charge : (caller deposit_id : ℕ) → Request

module _ (client : TokenClient) (deposit_id : (nonce timestamp loan_id patron : ℕ) → ℕ) where
  -- The dispatch of a request; the id that a lock returns is dropped.
  unfoldable pub apply : Env → Request → Call client deposit_id (Unit {0})
  apply env (Request.initialize a t) = Calls.initialize client deposit_id env a t
  apply env (Request.lock_deposit a l t x) =
      Calls.lock_deposit client deposit_id env a l t x >> pure tt
  apply env (Request.release_deposit a id) = Calls.release_deposit client deposit_id env a id
  apply env (Request.partial_charge a id x) = Calls.partial_charge client deposit_id env a id x
  apply env (Request.full_charge a id) = Calls.full_charge client deposit_id env a id

  module _ (env : Env) where
    abbrev Self : Type 0
    Self = State client deposit_id env.current_contract

    release_found :
        (a id : ℕ) (c d : Self)
        → Calls.release_deposit client deposit_id env a id c ≡ done (tt, d)
        → (e : Deposit) × (load_deposit id c.store ≡ some e)
    unfolding Calls.release_deposit
    release_found a id c d h = elim (Option-cases (load_deposit id c.store)) [
      | inl p ↦ absurd (ground arith)
      | inr (e, p) ↦ (e, p)
    ]

    partial_charge_found :
        (a id : ℕ) (x : ℤ) (c d : Self)
        → Calls.partial_charge client deposit_id env a id x c ≡ done (tt, d)
        → ((e : Deposit) × (load_deposit id c.store ≡ some e))
          × ((t : ℕ) × (c.store.treasury ≡ some t))
    unfolding Calls.partial_charge
    partial_charge_found a id x c d h = (
      elim (Option-cases (load_deposit id c.store)) [
        | inl p ↦ absurd (ground arith)
        | inr (e, p) ↦ (e, p)
      ],
      elim (Option-cases c.store.treasury) [ inl p ↦ absurd (ground arith) | inr (e, p) ↦ (e, p) ],
    )

    full_charge_found :
        (a id : ℕ) (c d : Self)
        → Calls.full_charge client deposit_id env a id c ≡ done (tt, d)
        → ((e : Deposit) × (load_deposit id c.store ≡ some e))
          × ((t : ℕ) × (c.store.treasury ≡ some t))
    unfolding Calls.full_charge
    full_charge_found a id c d h = (
      elim (Option-cases (load_deposit id c.store)) [
        | inl p ↦ absurd (ground arith)
        | inr (e, p) ↦ (e, p)
      ],
      elim (Option-cases c.store.treasury) [ inl p ↦ absurd (ground arith) | inr (e, p) ↦ (e, p) ],
    )

    initialized :
        (a t : ℕ) (c d : Self)
        → Calls.initialize client deposit_id env a t c ≡ done (tt, d)
        → (d.tokens ≡ c.tokens)
          × (d.events ≡ c.events)
          × (d.store ≡ record (c.store) { admin = some a; treasury = some t })
    unfolding Calls.initialize
    initialized a t c d h = ground arith

    initialize-IsBacked :
        (a t : ℕ) (c d : Self)
        → IsBacked client deposit_id env.current_contract c
        → Calls.initialize client deposit_id env a t c ≡ done (tt, d)
        → IsBacked client deposit_id env.current_contract d
    initialize-IsBacked a t c d s h =
        let (e, v, now) = initialized a t c d h in
        record {
          solvent = λ k. rw (now, e) (s.solvent k);
          fits = λ j w k. s.fits j w (rw now at k);
          accounted = λ j w k. rw v (s.accounted j w (rw now at k));
          unpaid = λ j k. rw v (s.unpaid j (rw now at k));
          fresh = λ n w l b k. rw now (s.fresh n w l b (rw now at k));
        }

    locked_done :
        (a l t : ℕ) (x : ℤ) (c d : Self)
        → (Calls.lock_deposit client deposit_id env a l t x >> pure tt) c ≡ done (tt, d)
        → (id : ℕ) × (Calls.lock_deposit client deposit_id env a l t x c ≡ done (id, d))
    locked_done a l t x c d h =
        dropped-done (Calls.lock_deposit client deposit_id env a l t x c) d h

    apply-IsBacked :
        (r : Request) (c d : Self)
        → env.authorized env.current_contract ≡ false
        → Distinct client deposit_id
        → IsBacked client deposit_id env.current_contract c
        → apply env r c ≡ done (tt, d)
        → IsBacked client deposit_id env.current_contract d
    unfolding apply
    apply-IsBacked (Request.initialize a t) c d n i s h = initialize-IsBacked a t c d s h
    apply-IsBacked (Request.lock_deposit a l t x) c d n i s h =
        let (id, k) = locked_done a l t x c d h in
        lock-IsBacked client deposit_id env a l t x id c d n i s k
    apply-IsBacked (Request.release_deposit a id) c d n i s h =
        let (e, was) = release_found a id c d h in
        PaysOut-IsBacked client deposit_id env.current_contract c d id e _ e.remaining_amount
          (release-PaysOut client deposit_id env a id c d e was h) s
    apply-IsBacked (Request.partial_charge a id x) c d n i s h =
        let ((e, was), (t, stored)) = partial_charge_found a id x c d h in
        PaysOut-IsBacked client deposit_id env.current_contract c d id e _ x
          (partial_charge-PaysOut client deposit_id env a id x c d e t (s.fits id e was) was stored
            h)
          s
    apply-IsBacked (Request.full_charge a id) c d n i s h =
        let ((e, was), (t, stored)) = full_charge_found a id c d h in
        PaysOut-IsBacked client deposit_id env.current_contract c d id e _ e.remaining_amount
          (full_charge-PaysOut client deposit_id env a id c d e t was stored h) s

  module _ (self : ℕ) where
    -- One step: a request that succeeds, or an act of others, which cannot take the contract's tokens.
    -- A request that fails is rolled back and is no step.
    pub data Step : State client deposit_id self → State client deposit_id self → Type 0 where
      request :
          (env : Env) (r : Request) (c d : State client deposit_id self)
          → env.current_contract ≡ self
          → env.authorized self ≡ false
          → apply env r c ≡ done (tt, d)
          → Step c d
      others :
          (w : client.World) (c : State client deposit_id self)
          → ((t : ℕ) → client.balance c.tokens t self ≤ℤ client.balance w t self)
          → Step c (record c { tokens = w })

    pub data Reach (c : State client deposit_id self) : State client deposit_id self → Type 0 where
      here : Reach c c
      next : {d e : State client deposit_id self} → Reach c d → Step d e → Reach c e

    Step-IsBacked :
        {c d : State client deposit_id self}
        → Distinct client deposit_id
        → Step c d
        → IsBacked client deposit_id self c
        → IsBacked client deposit_id self d
    Step-IsBacked i (request env r c d at_self n h) s =
        let s' = subst (λ (x : ℕ). IsBacked client deposit_id x c) (sym at_self) s in
        subst (λ (x : ℕ). IsBacked client deposit_id x d) at_self
          (apply-IsBacked env r c d (rw at_self n) i s' h)
    Step-IsBacked i (others w c more) s = record {
      solvent = λ t. omega (arith, s.solvent t, more t);
      fits = s.fits;
      accounted = s.accounted;
      unpaid = s.unpaid;
      fresh = s.fresh;
    }

    -- In every state that is reached from a backed one, by requests of anybody in any order and by acts
    -- of others that do not take the contract's tokens, where the hashes of different nonces differ
    -- and no caller has the contract's own authority: the contract holds of each token at least what
    -- remains of its deposits, a closed deposit holds nothing, and of each deposit what remains and what
    -- the events show as charged and refunded add up to what was locked.
    pub Reach-IsBacked :
        {c d : State client deposit_id self}
        → Distinct client deposit_id
        → IsBacked client deposit_id self c
        → Reach c d
        → IsBacked client deposit_id self d
    Reach-IsBacked i s here = s
    Reach-IsBacked i s (next r t) = Step-IsBacked i t (Reach-IsBacked i s r)
