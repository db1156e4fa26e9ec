-- ===== src/ScholarshipDisbursements/Histories.antt =====
-- contracts/scholarship-disbursements/src/lib.rs: requests, and what each of them changes of wallets and
-- intents.
use chain_verse_onchain.Common.{
  ℕ, ◌+◌, ◌≡◌, refl, inl, inr, arith, true, false, none, some, ℤ, pos, ◌≤ℤ◌, insert, nat_eq,
  Option-cases, Env, done, dropped-done, pure, ◌>>◌,
}
use chain_verse_onchain.Signing.{Crypto}
use chain_verse_onchain.ScholarshipDisbursements.{
  PayoutWallet, WalletChallenge, IntentStatus, pending, executed, cancelled, DisbursementIntent,
  Ed25519, load_binding, load_challenge, get_intent, derive_intent_id,
}
use chain_verse_onchain.ScholarshipDisbursements.Calls
use chain_verse_onchain.ScholarshipDisbursements.Calls.{Call, epoch_of, new_intent}
use chain_verse_onchain.ScholarshipDisbursements.Effects.{State, execution_parts, confirm_parts}
use chain_verse_onchain.ScholarshipDisbursements.Creation.{found, create_new, create_same}

-- The entry points that change the contract's state, with their arguments.
pub data Request : Type 0 where
  initialize : (admin network_id : ℕ) → Request
  add_creator remove_creator : (admin creator : ℕ) → Request
  register_wallet_key : (wallet pubkey : ℕ) → Request
  set_payout_wallet : (recipient wallet : ℕ) → Request
  open_wallet_challenge : (recipient wallet ttl_seconds : ℕ) → Request
  confirm_wallet_challenge : (challenge_id pubkey signature : ℕ) → Request
  create_intent : (creator program_id recipient : ℕ) (amount : ℤ) (installment : ℕ) → Request
  record_execution : (executor intent_id : ℕ) → Request
  cancel_intent : (caller intent_id : ℕ) → Request

-- What one request changes of the wallets and the intents.
pub data Change (crypto : Crypto) (c d : State) : Type 0 where
  nothing :
      d.store.intents ≡ c.store.intents
      → d.store.wallet_bindings ≡ c.store.wallet_bindings
      → Change crypto c d
  rebind :
      (r w t : ℕ)
      → d.store.intents ≡ c.store.intents
      → d.store.wallet_bindings
        ≡ insert r
            (record {
              wallet = w;
              verified = false;
              epoch = epoch_of (load_binding r c.store) + 1;
              updated_at = t;
            })
            c.store.wallet_bindings
      → Change crypto c d
  confirm :
      (r t : ℕ) (b : PayoutWallet)
      → load_binding r c.store ≡ some b
      → d.store.intents ≡ c.store.intents
      → d.store.wallet_bindings
        ≡ insert r (record b { verified = true; updated_at = t }) c.store.wallet_bindings
      → Change crypto c d
  create :
      (env : Env) (a g r n : ℕ) (x : ℤ) (b : PayoutWallet)
      → pos 1 ≤ℤ x
      → load_binding r c.store ≡ some b
      → get_intent (derive_intent_id crypto g r n) c.store ≡ none
      → d.store.intents
        ≡ insert (derive_intent_id crypto g r n) (new_intent crypto env a g r x n b) c.store.intents
      → d.store.wallet_bindings ≡ c.store.wallet_bindings
      → Change crypto c d
  close :
      (id t : ℕ) (s : IntentStatus) (i : DisbursementIntent)
      → get_intent id c.store ≡ some i
      → i.status ≡ pending
      → d.store.intents ≡ insert id (record i { status = s; executed_at = t }) c.store.intents
      → d.store.wallet_bindings ≡ c.store.wallet_bindings
      → Change crypto c d

module _ (crypto : Crypto) (scheme : Ed25519) where
  -- The dispatch of a request; the ids that calls return are dropped.
  unfoldable pub apply : Env → Request → Call (Unit {0})
  apply env (Request.initialize a n) = Calls.initialize env a n
  apply env (Request.add_creator a u) = Calls.add_creator env a u
  apply env (Request.remove_creator a u) = Calls.remove_creator env a u
  apply env (Request.register_wallet_key w k) = Calls.register_wallet_key env w k
  apply env (Request.set_payout_wallet r w) = Calls.set_payout_wallet env r w
  apply env (Request.open_wallet_challenge r w t) = Calls.open_wallet_challenge env r w t >> pure tt
  apply env (Request.confirm_wallet_challenge id k sig) =
      Calls.confirm_wallet_challenge crypto scheme env id k sig
  apply env (Request.create_intent a g r x n) = Calls.create_intent crypto env a g r x n >> pure tt
  apply env (Request.record_execution a id) = Calls.record_execution env a id
  apply env (Request.cancel_intent a id) = Calls.cancel_intent env a id

  module _ (env : Env) (c d : State) where
    initialize-Change : (a n : ℕ) → Calls.initialize env a n c ≡ done (tt, d) → Change crypto c d
    unfolding Calls.initialize
    initialize-Change a n h =
        let (p, q) : (d.store.intents ≡ c.store.intents)
            × (d.store.wallet_bindings ≡ c.store.wallet_bindings) =
          ground arith in
        Change.nothing p q

    add_creator-Change : (a u : ℕ) → Calls.add_creator env a u c ≡ done (tt, d) → Change crypto c d
    unfolding Calls.add_creator
    add_creator-Change a u h = Change.nothing (ground arith) (ground arith)

    remove_creator-Change :
        (a u : ℕ) → Calls.remove_creator env a u c ≡ done (tt, d) → Change crypto c d
    unfolding Calls.remove_creator
    remove_creator-Change a u h = Change.nothing (ground arith) (ground arith)

    register-Change :
        (w k : ℕ) → Calls.register_wallet_key env w k c ≡ done (tt, d) → Change crypto c d
    unfolding Calls.register_wallet_key
    register-Change w k h = Change.nothing (ground arith) (ground arith)

    set_payout_wallet-Change :
        (r w : ℕ) → Calls.set_payout_wallet env r w c ≡ done (tt, d) → Change crypto c d
    unfolding Calls.set_payout_wallet
    set_payout_wallet-Change r w h = Change.rebind r w env.timestamp (ground arith) (ground arith)

    open-Change :
        (r w t id : ℕ) → Calls.open_wallet_challenge env r w t c ≡ done (id, d) → Change crypto c d
    unfolding Calls.open_wallet_challenge
    open-Change r w t id h = Change.nothing (ground arith) (ground arith)

    confirm_found :
        (id k sig : ℕ)
        → Calls.confirm_wallet_challenge crypto scheme env id k sig c ≡ done (tt, d)
        → (q : WalletChallenge) × (b : PayoutWallet) × (n : ℕ) × (load_challenge id c.store
            ≡ some q)
          × (load_binding q.recipient c.store ≡ some b)
          × (c.store.network_id ≡ some n)
    unfolding Calls.confirm_wallet_challenge
    confirm_found id k sig h = elim (Option-cases (load_challenge id c.store)) [
      | inl z ↦ absurd (ground arith)
      | inr (q, p) ↦ elim (Option-cases (load_binding q.recipient c.store)) [
        | inl z ↦ absurd (ground arith)
        | inr (b, p') ↦ elim (Option-cases c.store.network_id) [
          | inl z ↦ absurd (ground arith)
          | inr (n, p'') ↦ (q, b, n, p, p', p'')
        ]
      ]
    ]

    confirm-Change :
        (id k sig : ℕ)
        → Calls.confirm_wallet_challenge crypto scheme env id k sig c ≡ done (tt, d)
        → Change crypto c d
    confirm-Change id k sig h =
        let (q, b, n, p, p', p'') = confirm_found id k sig h in
        let (_, _, _, _, _, _, _, now) =
          confirm_parts env c d crypto scheme id k sig q b n p p' p'' h in
        Change.confirm q.recipient env.timestamp b p' (rw now refl) (rw now refl)

    create-Change :
        (a g r n id : ℕ) (x : ℤ)
        → Calls.create_intent crypto env a g r x n c ≡ done (id, d)
        → Change crypto c d
    create-Change a g r n id x h =
        let (b, p) = found crypto env a g r n x c id d h in
        elim (Option-cases (get_intent (derive_intent_id crypto g r n) c.store)) [
          | inl q ↦
              let (lo, _, now) = create_new crypto env a g r n x b c id d p q h in
              Change.create env a g r n x b lo p q (rw now refl) (rw now refl)
          | inr (i, q) ↦
              let (_, _, _, now) = create_same crypto env a g r n x b c id d i p q h in
              Change.nothing (rw now refl) (rw now refl)
        ]

    execution-Change :
        (a id : ℕ) → Calls.record_execution env a id c ≡ done (tt, d) → Change crypto c d
    unfolding Calls.record_execution
    execution-Change a id h = elim (Option-cases (get_intent id c.store)) [
      | inl z ↦ absurd (ground arith)
      | inr (i, p) ↦
          let (_, s, _, now) = execution_parts env c d a id i p h in
          Change.close id env.timestamp executed i p s (rw now refl) (rw now refl)
    ]

    cancel-Change : (a id : ℕ) → Calls.cancel_intent env a id c ≡ done (tt, d) → Change crypto c d
    unfolding Calls.cancel_intent
    cancel-Change a id h = elim (Option-cases (get_intent id c.store)) [
      | inl z ↦ absurd (ground arith)
      | inr (i, p) ↦
          let s : i.status ≡ pending = ground arith in
          Change.close id i.executed_at cancelled i p s (ground arith) (ground arith)
    ]

  pub apply-Change :
      (env : Env) (q : Request) (c d : State) → apply env q c ≡ done (tt, d) → Change crypto c d
  unfolding apply
  apply-Change env (Request.initialize a n) c d h = initialize-Change env c d a n h
  apply-Change env (Request.add_creator a u) c d h = add_creator-Change env c d a u h
  apply-Change env (Request.remove_creator a u) c d h = remove_creator-Change env c d a u h
  apply-Change env (Request.register_wallet_key w k) c d h = register-Change env c d w k h
  apply-Change env (Request.set_payout_wallet r w) c d h = set_payout_wallet-Change env c d r w h
  apply-Change env (Request.open_wallet_challenge r w t) c d h =
      let (id, p) = dropped-done (Calls.open_wallet_challenge env r w t c) d h in
      open-Change env c d r w t id p
  apply-Change env (Request.confirm_wallet_challenge id k sig) c d h =
      confirm-Change env c d id k sig h
  apply-Change env (Request.create_intent a g r x n) c d h =
      let (id, p) = dropped-done (Calls.create_intent crypto env a g r x n c) d h in
      create-Change env c d a g r n id x p
  apply-Change env (Request.record_execution a id) c d h = execution-Change env c d a id h
  apply-Change env (Request.cancel_intent a id) c d h = cancel-Change env c d a id h

  -- One step: a request that succeeds. A request that fails is rolled back and is no step.
  pub data Step : State → State → Type 0 where
    request : (env : Env) (q : Request) (c d : State) → apply env q c ≡ done (tt, d) → Step c d

  pub data Reach (c : State) : State → Type 0 where
    here : Reach c c
    next : {d e : State} → Reach c d → Step d e → Reach c e
