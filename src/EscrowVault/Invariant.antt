-- ===== src/EscrowVault/Invariant.antt =====
-- What holds of the vault contract between calls, and how a call that replaces one vault keeps it.
use chain_verse_onchain.Common.{
  ℕ, ◌≤◌, ◌<◌, ◌≡◌, refl, subst, inl, inr, arith, true, false, ◌&&◌, none, some, List, length, ◌==◌,
  ==_iff, Bool-cases, if◌then◌else◌, insert, nat_eq, lookup-insert, sum_by, sum_by-insert, ℤ, pos,
  ◌+ℤ◌, ◌≤ℤ◌, int_laws, Chain, TokenClient,
}
use chain_verse_onchain.EscrowVault.{
  VaultStatus, pending, released, cancelled, is_pending, Vault, Store, Event, contains,
  has_duplicate, load_vault,
}
use chain_verse_onchain.EscrowVault.Votes.{Recorded, voted, votes_of}

-- What a vault holds, of the token `t`.
abbrev pub held : ℕ → ℕ → Vault → ℤ
held t id v = if (v.token == t) && is_pending v.status then v.amount else pos 0

-- A pending or cancelled vault lacks approvals; a released one has just the approvals it needs.
abbrev pub Decided : VaultStatus → ℕ → ℕ → Type 0
Decided pending approvals threshold = approvals < threshold
Decided released approvals threshold = approvals ≡ threshold
Decided cancelled approvals threshold = approvals < threshold

-- A vault agrees with the recorded votes.
pub record WellFormed (id : ℕ) (v : Vault) (m : Recorded) : Type 0 where
  pub positive : pos 1 ≤ℤ v.amount
  pub reachable : (1 ≤ v.threshold) × (v.threshold ≤ length v.approvers)
  pub distinct : has_duplicate v.approvers ≡ false
  pub impartial :
      (contains v.depositor v.approvers ≡ false) × (contains v.recipient v.approvers ≡ false)
  pub counted : v.approvals ≡ votes_of id v.approvers m
  pub decided : Decided v.status v.approvals v.threshold

pub no_clash :
    {A : Type 0} (i j : ℕ) (v : Vault) (s : Store)
    → (i == j) ≡ true
    → load_vault i s ≡ some v
    → load_vault j s ≡ none
    → A
no_clash i j v s p h k =
    let e : load_vault j s ≡ some v =
      subst (λ (x : ℕ). load_vault x s ≡ some v) ((==_iff i j).0 p) h in
    absurd (ground arith)

module _ (client : TokenClient) (vault_id : (nonce timestamp depositor : ℕ) → ℕ) (self : ℕ) where
  open client use {World, balance}

  abbrev pub State : Type 0
  State = Chain World Store Event

  -- The contract holds of each token what its pending vaults hold; every vault agrees with the votes;
  -- only approvers have voted, on vaults that exist; and no id of a later nonce is in use.
  pub record IsSound (c : State) : Type 0 where
    pub solvent : (t : ℕ) → sum_by (held t) c.store.vaults ≤ℤ balance c.tokens t self
    pub well_formed :
        (id : ℕ) (v : Vault) → load_vault id c.store ≡ some v → WellFormed id v c.store.votes
    pub listed :
        (id : ℕ) (v : Vault) (a : ℕ)
        → load_vault id c.store ≡ some v
        → voted id a c.store.votes ≡ true
        → contains a v.approvers ≡ true
    pub unborn : (id a : ℕ) → load_vault id c.store ≡ none → voted id a c.store.votes ≡ false
    pub fresh : (n u a : ℕ) → c.store.vault_count < n → load_vault (vault_id n u a) c.store ≡ none

  -- From `c` to `d` vault `id` changes from `v` to `v'`, and the votes on other vaults stay.
  pub record Replaces (c d : State) (id : ℕ) (v v' : Vault) : Type 0 where
    pub was : load_vault id c.store ≡ some v
    pub now : d.store.vaults ≡ insert id v' c.store.vaults
    pub count : d.store.vault_count ≡ c.store.vault_count
    pub others : (j a : ℕ) → (id == j) ≡ false → voted j a d.store.votes ≡ voted j a c.store.votes
    pub tallies :
        (j : ℕ) (list : List ℕ)
        → (id == j) ≡ false
        → votes_of j list d.store.votes ≡ votes_of j list c.store.votes
    pub agrees : WellFormed id v' d.store.votes
    pub voters : (a : ℕ) → voted id a d.store.votes ≡ true → contains a v'.approvers ≡ true
    pub covered :
        (t : ℕ) → balance c.tokens t self +ℤ held t id v' ≤ℤ balance d.tokens t self +ℤ held t id v

  -- What is stored after the change, at the changed id and elsewhere.
  module _ (c d : State) (id : ℕ) (v v' : Vault) (r : Replaces c d id v v') where
    pub stored_same :
        (j : ℕ) (u : Vault) → (id == j) ≡ true → load_vault j d.store ≡ some u → (u ≡ v') × (j ≡ id)
    stored_same j u p h =
        let e : some v' ≡ some u = rw (r.now, lookup-insert id j v' c.store.vaults, p) at h in
        (ground arith, ground (arith, p))

    pub stored_other : (j : ℕ) → (id == j) ≡ false → load_vault j d.store ≡ load_vault j c.store
    stored_other j p = rw (r.now, lookup-insert id j v' c.store.vaults, p) refl

  other_agrees :
      (j : ℕ) (u : Vault) (m n : Recorded)
      → votes_of j u.approvers n ≡ votes_of j u.approvers m
      → WellFormed j u m
      → WellFormed j u n
  other_agrees j u m n e w = record {
    positive = w.positive;
    reachable = w.reachable;
    distinct = w.distinct;
    impartial = w.impartial;
    counted = ground (arith, w.counted, e);
    decided = w.decided;
  }

  pub Replaces-IsSound :
      (c d : State) (id : ℕ) (v v' : Vault) → Replaces c d id v v' → IsSound c → IsSound d
  Replaces-IsSound c d id v v' r s = record {
    solvent = λ t. rw r.now (
        grind
          (int_laws, sum_by-insert (held t) id v' c.store.vaults, r.was, r.covered t, s.solvent t));
    well_formed = λ j u h. elim (Bool-cases (id == j)) [
      | inl p ↦ let (e, i) = stored_same c d id v v' r j u p h in rw (e, i) r.agrees
      | inr p ↦
          other_agrees j u c.store.votes d.store.votes (r.tallies j u.approvers p)
            (s.well_formed j u (rw (stored_other c d id v v' r j p) at h))
    ];
    listed = λ j u a h k. elim (Bool-cases (id == j)) [
      | inl p ↦ let (e, i) = stored_same c d id v v' r j u p h in rw e (r.voters a (rw i at k))
      | inr p ↦ s.listed j u a (rw (stored_other c d id v v' r j p) at h) (rw (r.others j a p) at k)
    ];
    unborn = λ j a h. elim (Bool-cases (id == j)) [
      | inl p ↦ absurd (ground (arith, r.now, lookup-insert id j v' c.store.vaults))
      | inr p ↦ rw (r.others j a p) (s.unborn j a (rw (stored_other c d id v v' r j p) at h))
    ];
    fresh = λ n u a h. elim (Bool-cases (id == vault_id n u a)) [
      | inl p ↦ no_clash id (vault_id n u a) v c.store p r.was (s.fresh n u a (rw r.count at h))
      | inr p ↦ rw (stored_other c d id v v' r (vault_id n u a) p) (s.fresh n u a (rw r.count at h))
    ];
  }
