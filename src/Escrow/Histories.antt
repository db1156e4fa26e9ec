-- ===== src/Escrow/Histories.antt =====
-- Whole histories of the escrow contract: requests in any order, by anyone, while others move tokens.
use chain_verse_onchain.Common.{
  ℕ, ◌≡◌, refl, sym, true, false, ◌⊎◌, inl, inr, none, some, List, [], arith, ℤ, pos, ◌≤ℤ◌,
  i128_max, int_laws, lookup, insert, lookup-insert, nat_eq, ◌==◌, TokenClient, Env, done,
  dropped-done, Bool-cases, subst, ==_iff, pure, ◌>>◌,
}
use chain_verse_onchain.Escrow.Types.{Escrow}
use chain_verse_onchain.Escrow.Storage.{load_escrow}
use chain_verse_onchain.Escrow.Calls
use chain_verse_onchain.Escrow.Calls.{Call}
use chain_verse_onchain.Escrow.Invariant.{State, IsValid, Settled, Settled-IsValid, Moves}
use chain_verse_onchain.Escrow.Releases.{release-Settled, partial-Settled}
use chain_verse_onchain.Escrow.Settlements.{fund-Settled, dispute-Settled, refund-Settled}
use chain_verse_onchain.Escrow.Resolutions.{resolve-Settled}
use chain_verse_onchain.Escrow.Creation.{create-IsValid, create_opens}
use chain_verse_onchain.Escrow.Administration

-- The entry points that change the contract's state, with their arguments.
pub data Request : Type 0 where
  set_admin : (admin : ℕ) → Request
  whitelist_token : (admin token : ℕ) → Request
  create_escrow : (buyer seller token : ℕ) (amount : ℤ) (expiration : ℕ) → Request
  fund_escrow : (caller escrow_id : ℕ) → Request
  release_escrow : (caller escrow_id : ℕ) → Request
  partial_release : (caller escrow_id : ℕ) (amount : ℤ) → Request
  dispute_escrow : (caller escrow_id : ℕ) → Request
  set_arbiter : (admin arbiter : ℕ) → Request
  resolve_dispute :
      (arbiter escrow_id : ℕ) (buyer_amount seller_amount fee_amount : ℤ) (reason_hash : ℕ)
      → Request
  refund_escrow : (caller escrow_id : ℕ) → Request
  set_protocol_fee_bps : (admin bps : ℕ) → Request
  withdraw_fees : (caller token recipient : ℕ) (amount : ℤ) → Request
  upgrade : (new_wasm_hash : ℕ) → Request

-- The amount that a creation is given is an `i128`; the other amounts are tested by the code.
abbrev pub InRange : Request → Type 0
InRange (Request.create_escrow buyer seller token amount expiration) = amount ≤ℤ i128_max
InRange _ = Unit

no_entry : (id : ℕ) (x : Escrow) (m : List (ℕ × Escrow)) → m ≡ [] → lookup id m ≡ some x → ⊥
no_entry id x m e h = cc (rw e at h)

module _ (client : TokenClient) where
  -- The dispatch of a request; the id that a creation returns is dropped.
  unfoldable pub apply : Env → Request → Call client (Unit {0})
  apply env (Request.set_admin a) = Calls.set_admin client env a
  apply env (Request.whitelist_token a t) = Calls.whitelist_token client env a t
  apply env (Request.create_escrow b s t x u) = Calls.create_escrow client env b s t x u >> pure tt
  apply env (Request.fund_escrow a id) = Calls.fund_escrow client env a id
  apply env (Request.release_escrow a id) = Calls.release_escrow client env a id
  apply env (Request.partial_release a id x) = Calls.partial_release client env a id x
  apply env (Request.dispute_escrow a id) = Calls.dispute client env a id
  apply env (Request.set_arbiter a b) = Calls.set_arbiter client env a b
  apply env (Request.resolve_dispute a id x y fee hash) =
      Calls.resolve_dispute client env a id x y fee hash
  apply env (Request.refund_escrow a id) = Calls.refund_escrow client env a id
  apply env (Request.set_protocol_fee_bps a bps) = Calls.set_protocol_fee_bps client env a bps
  apply env (Request.withdraw_fees a t to x) = Calls.withdraw_fees client env a t to x
  apply env (Request.upgrade hash) = Calls.upgrade client env hash

  module _ (env : Env) where
    abbrev Self : Type 0
    Self = State client env.current_contract

    created_done :
        (b s t : ℕ) (x : ℤ) (u : ℕ) (c d : Self)
        → (Calls.create_escrow client env b s t x u >> pure tt) c ≡ done (tt, d)
        → (id : ℕ) × (Calls.create_escrow client env b s t x u c ≡ done (id, d))
    created_done b s t x u c d h = dropped-done (Calls.create_escrow client env b s t x u c) d h

    -- What a request that succeeds does to the escrows: it settles one, opens one or changes none.
    data Change (c d : Self) : Type 0 where
      settled : Settled client env.current_contract c d → Change c d
      opened :
          (id : ℕ) (e : Escrow)
          → load_escrow id c.store ≡ none
          → d.store.escrows ≡ insert id e c.store.escrows
          → Change c d
      unchanged : d.store.escrows ≡ c.store.escrows → Change c d

    apply-Change :
        (r : Request) (c d : Self)
        → env.authorized env.current_contract ≡ false
        → IsValid client env.current_contract c
        → apply env r c ≡ done (tt, d)
        → Change c d
    unfolding apply
    apply-Change (Request.set_admin a) c d n v h =
        unchanged (Administration.set_admin_escrows client env a c d h)
    apply-Change (Request.whitelist_token a t) c d n v h =
        unchanged (Administration.whitelist_token_escrows client env a t c d h)
    apply-Change (Request.create_escrow b s t x u) c d n v h =
        let (id, k) = created_done b s t x u c d h in
        let (new, m) = create_opens client env b s t x u id c d v k in opened id _ new m
    apply-Change (Request.fund_escrow a id) c d n v h =
        settled (fund-Settled client env a id c d n v h)
    apply-Change (Request.release_escrow a id) c d n v h =
        settled (release-Settled client env a id c d v h)
    apply-Change (Request.partial_release a id x) c d n v h =
        settled (partial-Settled client env a id x c d v h)
    apply-Change (Request.dispute_escrow a id) c d n v h =
        settled (dispute-Settled client env a id c d v h)
    apply-Change (Request.set_arbiter a b) c d n v h =
        unchanged (Administration.set_arbiter_escrows client env a b c d h)
    apply-Change (Request.resolve_dispute a id x y fee hash) c d n v h =
        settled (resolve-Settled client env a id hash x y fee c d v h)
    apply-Change (Request.refund_escrow a id) c d n v h =
        settled (refund-Settled client env a id c d v h)
    apply-Change (Request.set_protocol_fee_bps a bps) c d n v h =
        unchanged (Administration.set_protocol_fee_bps_escrows client env a bps c d h)
    apply-Change (Request.withdraw_fees a t to x) c d n v h =
        unchanged (Administration.withdraw_fees_escrows client env a t to x c d h)
    apply-Change (Request.upgrade hash) c d n v h =
        unchanged (Administration.upgrade_escrows client env hash c d h)

    settling-IsValid :
        (c d : Self)
        → IsValid client env.current_contract c
        → Settled client env.current_contract c d
        → IsValid client env.current_contract d
    settling-IsValid c d v s = Settled-IsValid client env.current_contract c d s v

    -- Every request that succeeds keeps the contract solvent in every token, its fee pools non-negative,
    -- each escrow's amounts fitted to its state, and the ids above the counter free, provided that no
    -- caller acts with the authority of the contract itself and that a creation's amount is an `i128`.
    pub apply-IsValid :
        (r : Request) (c d : Self)
        → env.authorized env.current_contract ≡ false
        → InRange r
        → IsValid client env.current_contract c
        → apply env r c ≡ done (tt, d)
        → IsValid client env.current_contract d
    unfolding apply
    apply-IsValid (Request.set_admin a) c d n i v h =
        Administration.set_admin-IsValid client env a c d v h
    apply-IsValid (Request.whitelist_token a t) c d n i v h =
        Administration.whitelist_token-IsValid client env a t c d v h
    apply-IsValid (Request.create_escrow b s t x u) c d n i v h =
        let (id, k) = created_done b s t x u c d h in
        create-IsValid client env b s t x u id c d i v k
    apply-IsValid (Request.fund_escrow a id) c d n i v h =
        settling-IsValid c d v (fund-Settled client env a id c d n v h)
    apply-IsValid (Request.release_escrow a id) c d n i v h =
        settling-IsValid c d v (release-Settled client env a id c d v h)
    apply-IsValid (Request.partial_release a id x) c d n i v h =
        settling-IsValid c d v (partial-Settled client env a id x c d v h)
    apply-IsValid (Request.dispute_escrow a id) c d n i v h =
        settling-IsValid c d v (dispute-Settled client env a id c d v h)
    apply-IsValid (Request.set_arbiter a b) c d n i v h =
        Administration.set_arbiter-IsValid client env a b c d v h
    apply-IsValid (Request.resolve_dispute a id x y fee hash) c d n i v h =
        settling-IsValid c d v (resolve-Settled client env a id hash x y fee c d v h)
    apply-IsValid (Request.refund_escrow a id) c d n i v h =
        settling-IsValid c d v (refund-Settled client env a id c d v h)
    apply-IsValid (Request.set_protocol_fee_bps a bps) c d n i v h =
        Administration.set_protocol_fee_bps-IsValid client env a bps c d v h
    apply-IsValid (Request.withdraw_fees a t to x) c d n i v h =
        Administration.withdraw_fees-IsValid client env a t to x c d v h
    apply-IsValid (Request.upgrade hash) c d n i v h =
        Administration.upgrade-IsValid client env hash c d v h

    same_entry :
        (j id : ℕ) (f e : Escrow) (c : Self)
        → (j == id) ≡ true
        → load_escrow j c.store ≡ some f
        → load_escrow id c.store ≡ some e
        → f ≡ e
    same_entry j id f e c p was has =
        let at_id : load_escrow id c.store ≡ some f =
          subst (λ (k : ℕ). load_escrow k c.store ≡ some f) ((==_iff j id).0 p) was in
        cc

    -- An escrow that is neither settled nor opened is as it was.
    evolves :
        (id : ℕ) (e : Escrow) (c d : Self)
        → load_escrow id c.store ≡ some e
        → Change c d
        → (e' : Escrow) × (load_escrow id d.store ≡ some e') × ((e' ≡ e) ⊎ Moves e e')
    evolves id e c d was (settled (j, f, f', fee, out, s)) = elim (Bool-cases (j == id)) [
      | inl p ↦ (
        f',
        rw (s.now, lookup-insert j id f' c.store.escrows, p),
        inr (subst (λ x. Moves x f') (same_entry j id f e c p s.was was) s.moves),
      )
      | inr p ↦ (e, rw (s.now, lookup-insert j id f' c.store.escrows, p) was, inl refl)
    ]
    evolves id e c d was (opened j f new now) =
        (e, ground (arith, now, lookup-insert j id f c.store.escrows), inl refl)
    evolves id e c d was (unchanged now) = (e, rw now was, inl refl)

    -- A request that succeeds on a valid state, without the contract's own authority, loses no escrow. Each is left as it was, or its state moves along the state
    -- graph of the README, its amount does not grow, and its buyer, seller, token, original amount and
    -- deadline stay.
    pub apply-evolves :
        (r : Request) (id : ℕ) (e : Escrow) (c d : Self)
        → env.authorized env.current_contract ≡ false
        → IsValid client env.current_contract c
        → load_escrow id c.store ≡ some e
        → apply env r c ≡ done (tt, d)
        → (e' : Escrow) × (load_escrow id d.store ≡ some e') × ((e' ≡ e) ⊎ Moves e e')
    apply-evolves r id e c d n v was h = evolves id e c d was (apply-Change r c d n v h)

  module _ (self : ℕ) where
    -- One step: a request that succeeds, or an act of others, which cannot take the contract's tokens.
    -- A request that fails is rolled back and is no step.
    pub data Step : State client self → State client self → Type 0 where
      request :
          (env : Env) (r : Request) (c d : State client self)
          → env.current_contract ≡ self
          → env.authorized self ≡ false
          → InRange r
          → apply env r c ≡ done (tt, d)
          → Step c d
      others :
          (w : client.World) (c : State client self)
          → ((t : ℕ) → client.balance c.tokens t self ≤ℤ client.balance w t self)
          → Step c (record c { tokens = w })

    pub data Reach (c : State client self) : State client self → Type 0 where
      here : Reach c c
      next : {d e : State client self} → Reach c d → Step d e → Reach c e

    Step-IsValid :
        {c d : State client self} → Step c d → IsValid client self c → IsValid client self d
    Step-IsValid (request env r c d at_self n i h) v =
        subst (λ (s : ℕ). IsValid client s d) at_self
          (apply-IsValid env r c d (rw at_self n) i
            (subst (λ (s : ℕ). IsValid client s c) (sym at_self) v) h)
    Step-IsValid (others w c more) v = record {
      solvent = λ t. omega (arith, v.solvent t, more t);
      fees_nonneg = v.fees_nonneg;
      well_formed = v.well_formed;
      fresh = v.fresh;
    }

    -- In every state that is reached from a valid one, by requests of anybody in any order and by acts of
    -- others that do not take the contract's tokens, where no caller has the contract's own authority
    -- and created amounts are `i128`s, the contract holds of every token at least the sum of its locked escrows and accrued
    -- fees, and the rest of the invariant holds.
    pub Reach-IsValid :
        {c d : State client self} → IsValid client self c → Reach c d → IsValid client self d
    Reach-IsValid v here = v
    Reach-IsValid v (next r s) = Step-IsValid s (Reach-IsValid v r)

    -- The storage of a contract that was just deployed is valid, whatever tokens it holds.
    pub deployed-IsValid :
        (c : State client self)
        → c.store.escrows ≡ []
        → c.store.protocol_fees ≡ []
        → ((t : ℕ) → pos 0 ≤ℤ client.balance c.tokens t self)
        → IsValid client self c
    deployed-IsValid c e f b = record {
      solvent = λ t. rw (e, f) (omega (int_laws, b t));
      fees_nonneg = λ t. rw f (omega arith);
      well_formed = λ id x h. absurd (no_entry id x c.store.escrows e h);
      fresh = λ id h. rw e;
    }
