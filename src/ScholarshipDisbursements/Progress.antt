-- ===== src/ScholarshipDisbursements/Progress.antt =====
-- contracts/scholarship-disbursements/src/lib.rs: how intents and wallets progress over whole histories.
use chain_verse_onchain.Common.{
  ℕ, ◌≡◌, refl, sym, ◌∙◌, ◌⊎◌, inl, inr, some, nat_eq, ◌==◌, ==_iff, lookup-insert,
  lookup-insert_there, lookup_clash, Bool-cases,
}
use mathlib.Core.Option.{some-injective}
use chain_verse_onchain.Signing.{Crypto}
use chain_verse_onchain.ScholarshipDisbursements.{
  pending, DisbursementIntent, Ed25519, get_intent, derive_intent_id,
}
use chain_verse_onchain.ScholarshipDisbursements.Calls.{new_intent}
use chain_verse_onchain.ScholarshipDisbursements.Effects.{State}
use chain_verse_onchain.ScholarshipDisbursements.Histories.{Change, apply-Change, Step, Reach}

-- What an intent can become: only its status and the time of its execution change, and only while it is
-- pending.
pub record Later (i j : DisbursementIntent) : Type 0 where
  pub fixed : j ≡ record i { status = j.status; executed_at = j.executed_at }
  pub final : (i.status ≡ pending) ⊎ (j ≡ i)

Later-itself : (i : DisbursementIntent) → Later i i
Later-itself i = record { fixed = refl; final = inr refl }

Later-trans : (i j k : DisbursementIntent) → Later i j → Later j k → Later i k
Later-trans i j k p q = record {
  fixed = cc;
  final = elim p.final [ inl s ↦ inl s | inr e ↦ elim q.final [ inl s ↦ inl cc | inr f ↦ inr cc ] ];
}

module _ (crypto : Crypto) where
  Change-Later :
      (c d : State) (id : ℕ) (i : DisbursementIntent)
      → Change crypto c d
      → get_intent id c.store ≡ some i
      → (j : DisbursementIntent) × (get_intent id d.store ≡ some j) × Later i j
  Change-Later c d id i (Change.nothing p q) h = (i, rw p h, Later-itself i)
  Change-Later c d id i (Change.rebind r w t p q) h = (i, rw p h, Later-itself i)
  Change-Later c d id i (Change.confirm r t b l p q) h = (i, rw p h, Later-itself i)
  Change-Later c d id i (Change.create env a g r n x b lo l m p q) h =
      let k : ℕ = derive_intent_id crypto g r n in
      elim (Bool-cases (k == id)) [
        | inl e ↦
            let same = (==_iff k id).0 e in
            lookup_clash id k i c.store.intents ((==_iff id k).1 (sym same)) h m
        | inr e ↦ (
          i,
          rw (p, lookup-insert_there k id (new_intent crypto env a g r x n b) c.store.intents e) h,
          Later-itself i,
        )
      ]
  Change-Later c d id i (Change.close k t s j l u p q) h = elim (Bool-cases (k == id)) [
    | inl e ↦
        let same = (==_iff k id).0 e in
        let it : i ≡ j = some-injective _ _ (sym h ∙ rw same at l) in
        let stored : get_intent id d.store ≡ some (record j { status = s; executed_at = t }) =
          rw (p, lookup-insert k id (record j { status = s; executed_at = t }) c.store.intents, e)
            refl in
        (
          record j { status = s; executed_at = t },
          stored,
          rw it (record { fixed = refl; final = inl u }),
        )
    | inr e ↦ (
      i,
      rw (p, lookup-insert_there k id (record j { status = s; executed_at = t }) c.store.intents e)
          h,
      Later-itself i,
    )
  ]

module _ (crypto : Crypto) (scheme : Ed25519) where
  -- In every state that is reached, by requests of anybody in any order, an intent that was stored is
  -- stored, with the fields it was created with: only its status and the time of its execution have
  -- changed, and if it was executed or cancelled before, nothing has.
  pub Reach-Later :
      {c d : State} (id : ℕ) (i : DisbursementIntent)
      → Reach crypto scheme c d
      → get_intent id c.store ≡ some i
      → (j : DisbursementIntent) × (get_intent id d.store ≡ some j) × Later i j
  Reach-Later id i Reach.here h = (i, h, Later-itself i)
  Reach-Later id i (Reach.next r (Step.request env q c d k)) h =
      let (j, p, l) = Reach-Later id i r h in
      let (j', p', l') = Change-Later crypto c d id j (apply-Change crypto scheme env q c d k) p in
      (j', p', Later-trans i j j' l l')
