-- ===== src/ScholarshipDisbursements/Soundness.antt =====
-- contracts/scholarship-disbursements/src/lib.rs: intents and the wallets they target.
use chain_verse_onchain.Common.{
  ℕ, ◌+◌, ◌≤◌, ◌<◌, ◌≡◌, refl, sym, ◌∙◌, inl, inr, arith, some, pos, ◌≤ℤ◌, insert, nat_eq, ◌==◌,
  ==_iff, lookup-insert, lookup-insert_here, lookup-insert_there, Bool-cases,
}
use mathlib.Core.Option.{some-injective}
use chain_verse_onchain.Signing.{Crypto}
use chain_verse_onchain.ScholarshipDisbursements.{
  PayoutWallet, DisbursementIntent, Store, Ed25519, load_binding, get_intent, derive_intent_id,
}
use chain_verse_onchain.ScholarshipDisbursements.Calls.{epoch_of, new_intent}
use chain_verse_onchain.ScholarshipDisbursements.Effects.{State}
use chain_verse_onchain.ScholarshipDisbursements.Histories.{Change, apply-Change, Step, Reach}

-- What holds of an intent that is stored: its id is the one of its installment, its amount is positive,
-- its recipient has a wallet, and that is the intent's wallet unless the epoch has moved on.
pub record FitsWallet (crypto : Crypto) (s : Store) (id : ℕ) (i : DisbursementIntent) : Type 0 where
  pub keyed : id ≡ derive_intent_id crypto i.program_id i.recipient i.installment
  pub positive : pos 1 ≤ℤ i.amount
  pub owner : PayoutWallet
  pub bound : load_binding i.recipient s ≡ some owner
  pub past : i.wallet_epoch ≤ owner.epoch
  pub current : owner.epoch ≡ i.wallet_epoch → owner.wallet ≡ i.wallet

abbrev pub IsConsistent : Crypto → Store → Type 0
IsConsistent crypto s =
    (id : ℕ) (i : DisbursementIntent) → get_intent id s ≡ some i → FitsWallet crypto s id i

module _ (crypto : Crypto) where
  -- The epoch of a wallet that is set moves on, or the wallet stays.
  abbrev Follows : (s : Store) (r : ℕ) → PayoutWallet → Type 0
  Follows s r b =
      (o : PayoutWallet)
      → load_binding r s ≡ some o
      → (o.epoch ≤ b.epoch) × (o.epoch ≡ b.epoch → o.wallet ≡ b.wallet)

  rebound :
      (c d : State) (r : ℕ) (b : PayoutWallet)
      → d.store.intents ≡ c.store.intents
      → d.store.wallet_bindings ≡ insert r b c.store.wallet_bindings
      → Follows c.store r b
      → IsConsistent crypto c.store
      → IsConsistent crypto d.store
  rebound c d r b p q f s id i h =
      let v = s id i (rw p at h) in
      elim (Bool-cases (r == i.recipient)) [
        | inl e ↦
            let same = (==_iff r i.recipient).0 e in
            let (le, kept) = f v.owner (rw (sym same) at v.bound) in
            record {
              keyed = v.keyed;
              positive = v.positive;
              owner = b;
              bound = rw (q, lookup-insert r i.recipient b c.store.wallet_bindings, e) refl;
              past = omega (arith, le, v.past);
              current = λ z.
                  let level : v.owner.epoch ≡ b.epoch = omega (arith, le, v.past, z) in
                  sym (kept level) ∙ v.current (level ∙ z);
            }
        | inr e ↦ record {
          keyed = v.keyed;
          positive = v.positive;
          owner = v.owner;
          bound = rw (q, lookup-insert_there r i.recipient b c.store.wallet_bindings e) v.bound;
          past = v.past;
          current = v.current;
        }
      ]

  -- A wallet that does not change, and intents that do.
  kept_wallets :
      (c d : State) (id : ℕ) (i k : DisbursementIntent)
      → d.store.wallet_bindings ≡ c.store.wallet_bindings
      → k ≡ record i { status = k.status; executed_at = k.executed_at }
      → FitsWallet crypto c.store id i
      → FitsWallet crypto d.store id k
  kept_wallets c d id i k q e v = rw e (record {
    keyed = v.keyed;
    positive = v.positive;
    owner = v.owner;
    bound = rw q v.bound;
    past = v.past;
    current = v.current;
  })

  Change-IsConsistent :
      (c d : State) → Change crypto c d → IsConsistent crypto c.store → IsConsistent crypto d.store
  Change-IsConsistent c d (Change.nothing p q) s id i h =
      kept_wallets c d id i i q refl (s id i (rw p at h))
  Change-IsConsistent c d (Change.rebind r w t p q) s id i h =
      rebound c d r _ p q
        (λ o l.
          let le : o.epoch < epoch_of (load_binding r c.store) + 1 = rw l (omega arith) in
          (omega (arith, le), λ z. absurd (omega (arith, le, z))))
        s id i h
  Change-IsConsistent c d (Change.confirm r t b l p q) s id i h =
      rebound c d r _ p q
        (λ o m.
          let e : o ≡ b = some-injective _ _ (sym m ∙ l) in (rw e (omega arith), λ z. rw e refl))
        s id i h
  Change-IsConsistent c d (Change.create env a g r n x b lo l m p q) s id i h =
      let k : ℕ = derive_intent_id crypto g r n in
      let new : DisbursementIntent = new_intent crypto env a g r x n b in
      elim (Bool-cases (k == id)) [
        | inl e ↦
            let (is, at) = lookup-insert_here k id new i c.store.intents e (rw p at h) in
            rw (is, at)
              (record {
                keyed = refl;
                positive = lo;
                owner = b;
                bound = rw q l;
                past = omega arith;
                current = λ z. refl;
              })
        | inr e ↦
            kept_wallets c d id i i q refl
              (s id i (rw (p, lookup-insert_there k id new c.store.intents e) at h))
      ]
  Change-IsConsistent c d (Change.close k t z j l u p q) s id i h =
      let new : DisbursementIntent = record j { status = z; executed_at = t } in
      elim (Bool-cases (k == id)) [
        | inl e ↦
            let (is, at) = lookup-insert_here k id new i c.store.intents e (rw p at h) in
            rw at (kept_wallets c d k j i q (rw is refl) (s k j l))
        | inr e ↦
            kept_wallets c d id i i q refl
              (s id i (rw (p, lookup-insert_there k id new c.store.intents e) at h))
      ]

module _ (crypto : Crypto) (scheme : Ed25519) where
  -- In every state that is reached from a consistent one, by requests of anybody in any order, each
  -- intent has the id of its installment, a positive amount and a recipient with a wallet, and while the
  -- epoch of that wallet is the intent's, the wallet is the intent's.
  pub Reach-IsConsistent :
      {c d : State}
      → IsConsistent crypto c.store
      → Reach crypto scheme c d
      → IsConsistent crypto d.store
  Reach-IsConsistent s Reach.here = s
  Reach-IsConsistent s (Reach.next r (Step.request env q c d k)) =
      Change-IsConsistent crypto c d (apply-Change crypto scheme env q c d k)
        (Reach-IsConsistent s r)
