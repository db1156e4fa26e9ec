-- ===== src/EscrowVault/Histories.antt =====
-- Whole histories of the vault contract: requests in any order, by anyone, while others move tokens.
use chain_verse_onchain.Common.{
  ℕ, ◌≡◌, refl, sym, subst, inl, inr, arith, false, some, List, ◌==◌, Bool-cases, ==_iff,
  Option-cases, lookup-insert, nat_eq, ℤ, ◌≤ℤ◌, TokenClient, Env, done, dropped-done, pure, ◌>>◌,
}
use chain_verse_onchain.EscrowVault.{pending, is_pending, Vault, load_vault}
use chain_verse_onchain.EscrowVault.Calls
use chain_verse_onchain.EscrowVault.Calls.{Call, approved, revoked}
use chain_verse_onchain.EscrowVault.Invariant.{State, IsSound, Replaces, Replaces-IsSound}
use chain_verse_onchain.EscrowVault.Approvals.{
  approve_paid, revoke_undone, approve-Replaces, revoke-Replaces,
}
use chain_verse_onchain.EscrowVault.Creation.{
  cancel_refunds, cancel-Replaces, create_keeps, create-IsSound,
}

-- The entry points that change the contract's state, with their arguments.
pub data Request : Type 0 where
  set_admin : (admin : ℕ) → Request
  upgrade : (new_wasm_hash : ℕ) → Request
  create_vault :
      (depositor recipient token : ℕ) (amount : ℤ) (approvers : List ℕ) (threshold : ℕ) → Request
  approve_vault : (id caller : ℕ) → Request
  revoke_approval : (id caller : ℕ) → Request
  emergency_cancel : (vault_id reason : ℕ) → Request

module _ (client : TokenClient) (vault_id : (nonce timestamp depositor : ℕ) → ℕ) where
  -- The dispatch of a request; the id that a creation returns is dropped.
  unfoldable pub apply : Env → Request → Call client vault_id (Unit {0})
  apply env (Request.set_admin a) = Calls.set_admin client vault_id env a
  apply env (Request.upgrade hash) = Calls.upgrade client vault_id env hash
  apply env (Request.create_vault a b t x list n) =
      Calls.create_vault client vault_id env a b t x list n >> pure tt
  apply env (Request.approve_vault id a) = Calls.approve_vault client vault_id env id a
  apply env (Request.revoke_approval id a) = Calls.revoke_approval client vault_id env id a
  apply env (Request.emergency_cancel id r) = Calls.emergency_cancel client vault_id env id r

  -- Hashes of different nonces differ.
  abbrev pub Distinct : Type 0
  Distinct = (m n u v a b : ℕ) → vault_id m u a ≡ vault_id n v b → m ≡ n

  module _ (env : Env) where
    abbrev Self : Type 0
    Self = State client vault_id env.current_contract

    approve_found :
        (id a : ℕ) (c d : Self)
        → Calls.approve_vault client vault_id env id a c ≡ done (tt, d)
        → (v : Vault) × (load_vault id c.store ≡ some v)
    unfolding Calls.approve_vault
    approve_found id a c d h = elim (Option-cases (load_vault id c.store)) [
      | inl p ↦ absurd (ground arith)
      | inr (v, p) ↦ (v, p)
    ]

    revoke_found :
        (id a : ℕ) (c d : Self)
        → Calls.revoke_approval client vault_id env id a c ≡ done (tt, d)
        → (v : Vault) × (load_vault id c.store ≡ some v)
    unfolding Calls.revoke_approval
    revoke_found id a c d h = elim (Option-cases (load_vault id c.store)) [
      | inl p ↦ absurd (ground arith)
      | inr (v, p) ↦ (v, p)
    ]

    cancel_found :
        (id r : ℕ) (c d : Self)
        → Calls.emergency_cancel client vault_id env id r c ≡ done (tt, d)
        → (v : Vault) × (load_vault id c.store ≡ some v)
    unfolding Calls.emergency_cancel
    cancel_found id r c d h = elim (Option-cases (load_vault id c.store)) [
      | inl p ↦ absurd (ground arith)
      | inr (v, p) ↦ (v, p)
    ]

    set_admin_books :
        (a : ℕ) (c d : Self)
        → Calls.set_admin client vault_id env a c ≡ done (tt, d)
        → (d.tokens ≡ c.tokens) × (d.store ≡ record (c.store) { admin = some a })
    unfolding Calls.set_admin
    set_admin_books a c d h = ground arith

    upgrade_books :
        (hash : ℕ) (c d : Self)
        → Calls.upgrade client vault_id env hash c ≡ done (tt, d)
        → (d.tokens ≡ c.tokens) × (d.store ≡ record (c.store) { wasm_hash = hash })
    unfolding Calls.upgrade
    upgrade_books hash c d h = ground arith

    created_done :
        (a b t : ℕ) (x : ℤ) (list : List ℕ) (n : ℕ) (c d : Self)
        → (Calls.create_vault client vault_id env a b t x list n >> pure tt) c ≡ done (tt, d)
        → (id : ℕ) × (Calls.create_vault client vault_id env a b t x list n c ≡ done (id, d))
    created_done a b t x list n c d h =
        dropped-done (Calls.create_vault client vault_id env a b t x list n c) d h

    -- What a request that succeeds does to the vaults: it replaces a pending one, makes one, or leaves
    -- vaults, votes and tokens.
    data Change (c d : Self) : Type 0 where
      replaced :
          (id : ℕ) (v v' : Vault)
          → v.status ≡ pending
          → Replaces client vault_id env.current_contract c d id v v'
          → Change c d
      made :
          ((j : ℕ) (v : Vault) → load_vault j c.store ≡ some v → load_vault j d.store ≡ some v)
          → IsSound client vault_id env.current_contract d
          → Change c d
      unchanged :
          d.tokens ≡ c.tokens
          → (d.store.vaults ≡ c.store.vaults)
            × (d.store.votes ≡ c.store.votes)
            × (d.store.vault_count ≡ c.store.vault_count)
          → Change c d

    apply-Change :
        (r : Request) (c d : Self)
        → env.authorized env.current_contract ≡ false
        → Distinct
        → IsSound client vault_id env.current_contract c
        → apply env r c ≡ done (tt, d)
        → Change c d
    unfolding apply
    apply-Change (Request.set_admin a) c d n i s h =
        let (t, e) = set_admin_books a c d h in unchanged t (rw e (refl, refl, refl))
    apply-Change (Request.upgrade hash) c d n i s h =
        let (t, e) = upgrade_books hash c d h in unchanged t (rw e (refl, refl, refl))
    apply-Change (Request.create_vault a b t x list m) c d n i s h =
        let (id, k) = created_done a b t x list m c d h in
        made (create_keeps client vault_id env a b t x list m id c d s k)
          (create-IsSound client vault_id env a b t x list m id c d n i s k)
    apply-Change (Request.approve_vault id a) c d n i s h =
        let (v, was) = approve_found id a c d h in
        let (_, p, _, _, _, _, _, _) = approve_paid client vault_id env id a c d v was h in
        replaced id v (approved v) p (approve-Replaces client vault_id env id a c d v s was h)
    apply-Change (Request.revoke_approval id a) c d n i s h =
        let (v, was) = revoke_found id a c d h in
        let (_, p, _, _, _) = revoke_undone client vault_id env id a c d v was h in
        replaced id v (revoked v) p (revoke-Replaces client vault_id env id a c d v s was h)
    apply-Change (Request.emergency_cancel id r) c d n i s h =
        let (v, was) = cancel_found id r c d h in
        let (_, p, _, _) = cancel_refunds client vault_id env id r c d v was h in
        replaced id v _ p (cancel-Replaces client vault_id env id r c d v s was h)

    unchanged-IsSound :
        (c d : Self)
        → d.tokens ≡ c.tokens
        → (d.store.vaults ≡ c.store.vaults)
          × (d.store.votes ≡ c.store.votes)
          × (d.store.vault_count ≡ c.store.vault_count)
        → IsSound client vault_id env.current_contract c
        → IsSound client vault_id env.current_contract d
    unchanged-IsSound c d t (e, f, g) s = record {
      solvent = λ k. rw (e, t) (s.solvent k);
      well_formed = λ j v h. rw f (s.well_formed j v (rw e at h));
      listed = λ j v a h k. s.listed j v a (rw e at h) (rw f at k);
      unborn = λ j a h. rw f (s.unborn j a (rw e at h));
      fresh = λ n u a h. rw e (s.fresh n u a (rw g at h));
    }

    changed-IsSound :
        (c d : Self)
        → IsSound client vault_id env.current_contract c
        → Change c d
        → IsSound client vault_id env.current_contract d
    changed-IsSound c d s (replaced id v v' p r) =
        Replaces-IsSound client vault_id env.current_contract c d id v v' r s
    changed-IsSound c d s (made keeps sound) = sound
    changed-IsSound c d s (unchanged t e) = unchanged-IsSound c d t e s

    kept :
        (id : ℕ) (v : Vault) (c d : Self)
        → load_vault id c.store ≡ some v
        → is_pending v.status ≡ false
        → Change c d
        → load_vault id d.store ≡ some v
    kept id v c d was over (replaced j u u' p r) = elim (Bool-cases (j == id)) [
      | inl q ↦
          let e : load_vault j c.store ≡ some v =
            subst (λ (k : ℕ). load_vault k c.store ≡ some v) (sym ((==_iff j id).0 q)) was in
          absurd (ground (arith, r.was))
      | inr q ↦ rw (r.now, lookup-insert j id u' c.store.vaults, q) was
    ]
    kept id v c d was over (made keeps sound) = keeps id v was
    kept id v c d was over (unchanged t (e, _, _)) = rw e was

    -- A released or cancelled vault of a sound state is neither changed nor removed by a request, where
    -- the hashes of different nonces differ and no caller has the contract's own authority.
    pub apply-final :
        (r : Request) (id : ℕ) (v : Vault) (c d : Self)
        → env.authorized env.current_contract ≡ false
        → Distinct
        → IsSound client vault_id env.current_contract c
        → load_vault id c.store ≡ some v
        → is_pending v.status ≡ false
        → apply env r c ≡ done (tt, d)
        → load_vault id d.store ≡ some v
    apply-final r id v c d n i s was over h = kept id v c d was over (apply-Change r c d n i s h)

  module _ (self : ℕ) where
    -- One step: a request that succeeds, or an act of others, which cannot take the contract's tokens.
    -- A request that fails is rolled back and is no step.
    pub data Step : State client vault_id self → State client vault_id self → Type 0 where
      request :
          (env : Env) (r : Request) (c d : State client vault_id self)
          → env.current_contract ≡ self
          → env.authorized self ≡ false
          → apply env r c ≡ done (tt, d)
          → Step c d
      others :
          (w : client.World) (c : State client vault_id self)
          → ((t : ℕ) → client.balance c.tokens t self ≤ℤ client.balance w t self)
          → Step c (record c { tokens = w })

    pub data Reach (c : State client vault_id self) : State client vault_id self → Type 0 where
      here : Reach c c
      next : {d e : State client vault_id self} → Reach c d → Step d e → Reach c e

    Step-IsSound :
        {c d : State client vault_id self}
        → Distinct
        → Step c d
        → IsSound client vault_id self c
        → IsSound client vault_id self d
    Step-IsSound i (request env r c d at_self n h) s =
        let s' = subst (λ (x : ℕ). IsSound client vault_id x c) (sym at_self) s in
        subst (λ (x : ℕ). IsSound client vault_id x d) at_self
          (changed-IsSound env c d s' (apply-Change env r c d (rw at_self n) i s' h))
    Step-IsSound i (others w c more) s = record {
      solvent = λ t. omega (arith, s.solvent t, more t);
      well_formed = s.well_formed;
      listed = s.listed;
      unborn = s.unborn;
      fresh = s.fresh;
    }

    -- In every state that is reached from a sound one, by requests of anybody in any order and by acts
    -- of others that do not take the contract's tokens, where the hashes of different nonces differ
    -- and no caller has the contract's own authority: the contract holds of each token at least its
    -- pending vaults, each vault's approvals are the recorded votes of its distinct approvers, none of
    -- them its depositor or recipient, and a vault is released only with as many of them as its
    -- threshold asks.
    pub Reach-IsSound :
        {c d : State client vault_id self}
        → Distinct
        → IsSound client vault_id self c
        → Reach c d
        → IsSound client vault_id self d
    Reach-IsSound i s here = s
    Reach-IsSound i s (next r t) = Step-IsSound i t (Reach-IsSound i s r)
