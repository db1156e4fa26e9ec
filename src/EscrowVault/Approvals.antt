-- ===== src/EscrowVault/Approvals.antt =====
-- contracts/escrow-vault/src/lib.rs: `approve_vault` and `revoke_approval`.
use chain_verse_onchain.Common.{
  ℕ, ◌+◌, ◌<◌, ◌≡◌, refl, inl, inr, arith, Bool, true, false, some, ◌==◌, Bool-cases, if◌then◌else◌,
  ==_iff, leb, insert, erase, nat_eq, pair_eq, ◌+ℤ◌, ◌≤ℤ◌, int_laws, TokenClient, Env, done,
  pay_out_bound,
}
use chain_verse_onchain.EscrowVault.{pending, released, Vault, contains, load_vault, has_voted}
use chain_verse_onchain.EscrowVault.Calls.{approved, revoked, approve_vault, revoke_approval}
use chain_verse_onchain.EscrowVault.Votes.{
  Recorded, voted, voted-insert, voted-erase, votes_of-insert, votes_of-erase, votes_of-insert_out,
  votes_of-erase_out, same_contains,
}
use chain_verse_onchain.EscrowVault.Invariant.{held, Decided, State, IsSound, Replaces}

module _ (client : TokenClient) (vault_id : (nonce timestamp depositor : ℕ) → ℕ) (env : Env) where
  open client use {transfer}

  abbrev Self : Type 0
  Self = State client vault_id env.current_contract

  -- Whether the vault's amount is paid to its recipient.
  abbrev pub Pays : Bool → Vault → Self → Self → Type 0
  Pays true v c d =
      transfer c.tokens v.token env.current_contract v.recipient v.amount ≡ some d.tokens
  Pays false v c d = d.tokens ≡ c.tokens

  pub approve_paid :
      (id caller : ℕ) (c d : Self) (v : Vault)
      → load_vault id c.store ≡ some v
      → approve_vault client vault_id env id caller c ≡ done (tt, d)
      → (env.authorized caller ≡ true)
        × (v.status ≡ pending)
        × ((caller == v.depositor) ≡ false)
        × ((caller == v.recipient) ≡ false)
        × (contains caller v.approvers ≡ true)
        × (has_voted id caller c.store ≡ false)
        × Pays (leb v.threshold (v.approvals + 1)) v c d
        × (d.store ≡ record (c.store) {
          votes = insert (id, caller) true c.store.votes;
          vaults =
              insert id
                (record v {
                  approvals = v.approvals + 1;
                  status = if leb v.threshold (v.approvals + 1) then released else v.status;
                })
                c.store.vaults;
        })
  unfolding approve_vault
  approve_paid id caller c d v was h = ground arith

  -- A revocation that succeeds is signed by an approver whose vote on a pending vault is recorded, and
  -- removes that vote and its count; no tokens move.
  pub revoke_undone :
      (id caller : ℕ) (c d : Self) (v : Vault)
      → load_vault id c.store ≡ some v
      → revoke_approval client vault_id env id caller c ≡ done (tt, d)
      → (env.authorized caller ≡ true)
        × (v.status ≡ pending)
        × (has_voted id caller c.store ≡ true)
        × (d.tokens ≡ c.tokens)
        × (d.store ≡ record (c.store) {
          votes = erase (id, caller) c.store.votes;
          vaults = insert id (revoked v) c.store.vaults;
        })
  unfolding revoke_approval
  revoke_undone id caller c d v was h = ground arith

  approved-Decided :
      (v : Vault)
      → v.status ≡ pending
      → v.approvals < v.threshold
      → Decided (approved v).status (v.approvals + 1) v.threshold
  approved-Decided v p h = elim (Bool-cases (leb v.threshold (v.approvals + 1))) [
    | inl q ↦ rw q (ground arith)
    | inr q ↦ rw (q, p) (ground arith)
  ]

  pending_lacks :
      (v : Vault)
      → v.status ≡ pending
      → Decided v.status v.approvals v.threshold
      → v.approvals < v.threshold
  pending_lacks v p h = rw p at h

  approved_voters :
      (id caller a : ℕ) (v : Vault) (m : Recorded)
      → contains caller v.approvers ≡ true
      → (voted id a m ≡ true → contains a v.approvers ≡ true)
      → voted id a (insert (id, caller) true m) ≡ true
      → contains a v.approvers ≡ true
  approved_voters id caller a v m h old k = elim (Bool-cases (caller == a)) [
    | inl p ↦ rw (same_contains caller a v.approvers p) h
    | inr p ↦ old (ground (arith, voted-insert id caller id a m))
  ]

  -- What a payment of the vault's amount leaves.
  approved_covered :
      (c d : Self) (v : Vault) (t : ℕ)
      → v.status ≡ pending
      → Pays (leb v.threshold (v.approvals + 1)) v c d
      → client.balance c.tokens t env.current_contract +ℤ held t 0 (approved v)
        ≤ℤ client.balance d.tokens t env.current_contract +ℤ held t 0 v
  approved_covered c d v t p h = elim (Bool-cases (leb v.threshold (v.approvals + 1))) [
    | inl q ↦
        let paid : transfer c.tokens v.token env.current_contract v.recipient v.amount
            ≡ some d.tokens =
          rw q at h in
        let b =
          pay_out_bound client c.tokens d.tokens v.token env.current_contract v.recipient v.amount t
            paid in
        rw (q, p) (grind (int_laws, b))
    | inr q ↦ let same : d.tokens ≡ c.tokens = rw q at h in rw (q, p, same) (grind int_laws)
  ]

  pub approve-Replaces :
      (id caller : ℕ) (c d : Self) (v : Vault)
      → IsSound client vault_id env.current_contract c
      → load_vault id c.store ≡ some v
      → approve_vault client vault_id env id caller c ≡ done (tt, d)
      → Replaces client vault_id env.current_contract c d id v (approved v)
  approve-Replaces id caller c d v s was h =
      let (_, p, _, _, listed, new, pays, now) = approve_paid id caller c d v was h in
      let w = s.well_formed id v was in
      record {
        was = was;
        now = rw now refl;
        count = rw now refl;
        others = λ j a n. rw now (ground (arith, voted-insert id caller j a c.store.votes));
        tallies =
            λ j list n. rw now (votes_of-insert_out id caller j list c.store.votes (ground arith));
        agrees = record {
          positive = w.positive;
          reachable = w.reachable;
          distinct = w.distinct;
          impartial = w.impartial;
          counted = rw now (
              ground (
                arith,
                w.counted,
                (==_iff id id).1 refl,
                votes_of-insert id caller id v.approvers c.store.votes w.distinct new,
              ));
          decided = approved-Decided v p (pending_lacks v p w.decided);
        };
        voters = λ a k.
            approved_voters id caller a v c.store.votes listed (s.listed id v a was) (rw now at k);
        covered = λ t. approved_covered c d v t p pays;
      }

  pub revoke-Replaces :
      (id caller : ℕ) (c d : Self) (v : Vault)
      → IsSound client vault_id env.current_contract c
      → load_vault id c.store ≡ some v
      → revoke_approval client vault_id env id caller c ≡ done (tt, d)
      → Replaces client vault_id env.current_contract c d id v (revoked v)
  revoke-Replaces id caller c d v s was h =
      let (_, p, old, same, now) = revoke_undone id caller c d v was h in
      let w = s.well_formed id v was in
      let listed = s.listed id v caller was old in
      let tally = votes_of-erase id caller id v.approvers c.store.votes w.distinct old in
      record {
        was = was;
        now = rw now refl;
        count = rw now refl;
        others = λ j a n. rw now (ground (arith, voted-erase id caller j a c.store.votes));
        tallies =
            λ j list n. rw now (votes_of-erase_out id caller j list c.store.votes (ground arith));
        agrees = record {
          positive = w.positive;
          reachable = w.reachable;
          distinct = w.distinct;
          impartial = w.impartial;
          counted = rw now (ground (arith, w.counted, (==_iff id id).1 refl, tally, listed));
          decided = rw p (omega (arith, pending_lacks v p w.decided));
        };
        voters = λ a k.
            s.listed id v a was
              (ground (arith, rw now at k, voted-erase id caller id a c.store.votes));
        covered = λ t. rw same (omega int_laws);
      }
