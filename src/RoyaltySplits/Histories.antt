-- ===== src/RoyaltySplits/Histories.antt =====
-- Whole histories of the royalty-split contract: requests in any order, by anyone.
use chain_verse_onchain.Common.{
  ℕ, ◌≡◌, refl, sym, ◌⊎◌, inl, inr, arith, true, ◌&&◌, List, some, ◌==◌, Bool-cases, lookup, insert,
  nat_eq, lookup-insert, or_default, if◌then◌else◌, Env, done, pure, ◌>>◌, dropped-done, ℤ, pos,
  ◌+ℤ◌, ◌-ℤ◌, ◌≤ℤ◌, int_laws,
}
use chain_verse_onchain.RoyaltySplits
use chain_verse_onchain.RoyaltySplits.{
  ContractError, SplitManifest, AssetLedger, State, Store, Call, empty_ledger, get_asset_ledger,
  get_balance,
}
use chain_verse_onchain.RoyaltySplits.Manifests.{IsManifest, create_manifest_stored}
use chain_verse_onchain.RoyaltySplits.Credits.{outstanding}
use chain_verse_onchain.RoyaltySplits.Distribution.{Admitted, distributed, distribute_credits}
use chain_verse_onchain.RoyaltySplits.Withdrawal.{
  withdrawn, withdraw_paid, withdraw_balance, withdraw_total,
}

-- The entry points that change the contract's state, with their arguments.
pub data Request : Type 0 where
  initialize : (admin : ℕ) → Request
  create_manifest : (admin manifest_id : ℕ) (recipients bps : List ℕ) → Request
  distribute : (admin manifest_id asset : ℕ) (amount : ℤ) → Request
  withdraw : (recipient asset : ℕ) → Request

-- The dispatch of a request; the amount that a withdrawal returns is dropped.
unfoldable pub apply : Env → Request → Call (Unit {0})
apply env (Request.initialize a) = RoyaltySplits.initialize env a
apply env (Request.create_manifest a id rs bps) = RoyaltySplits.create_manifest env a id rs bps
apply env (Request.distribute a id s x) = RoyaltySplits.distribute env a id s x
apply env (Request.withdraw r s) = RoyaltySplits.withdraw env r s >> pure tt

-- The liability of an asset by its ledger: what was distributed less what was withdrawn.
abbrev pub liability : ℕ → Store → ℤ
liability a s = (get_asset_ledger a s).total_distributed -ℤ (get_asset_ledger a s).total_withdrawn

-- The ledger of `b` among the entries `m`.
abbrev entry : ℕ → List (ℕ × AssetLedger) → AssetLedger
entry b m = or_default empty_ledger (lookup b m)

distributed_liability :
    (s b : ℕ) (x : ℤ) (m : List (ℕ × AssetLedger))
    → (entry b (insert s (distributed x (entry s m)) m)).total_distributed
        -ℤ (entry b (insert s (distributed x (entry s m)) m)).total_withdrawn
      ≡ ((entry b m).total_distributed -ℤ (entry b m).total_withdrawn)
        +ℤ (if s == b then x else pos 0)
distributed_liability s b x m =
    rw (lookup-insert s b (distributed x (entry s m)) m) (grind int_laws)

withdrawn_liability :
    (s b : ℕ) (x : ℤ) (m : List (ℕ × AssetLedger))
    → (entry b (insert s (withdrawn x (entry s m)) m)).total_distributed
        -ℤ (entry b (insert s (withdrawn x (entry s m)) m)).total_withdrawn
      ≡ ((entry b m).total_distributed -ℤ (entry b m).total_withdrawn)
        -ℤ (if s == b then x else pos 0)
withdrawn_liability s b x m = rw (lookup-insert s b (withdrawn x (entry s m)) m) (grind int_laws)

-- The contract's promise: in every asset the ledger's liability is the sum of the balances, no balance
-- is negative, and every stored manifest is well-formed.
pub record IsValid (s : Store) : Type 0 where
  pub reconciles : (a : ℕ) → liability a s ≡ outstanding a s
  pub balances_nonneg : (q a : ℕ) → pos 0 ≤ℤ get_balance q a s
  pub admitted : Admitted s

initialized :
    (env : Env) (a : ℕ) (c d : State)
    → RoyaltySplits.initialize env a c ≡ done (tt, d)
    → d.store ≡ record (c.store) { admin = some a }
unfolding RoyaltySplits.initialize
initialized env a c d h = ground arith

initialize-IsValid :
    (env : Env) (a : ℕ) (c d : State)
    → IsValid c.store
    → RoyaltySplits.initialize env a c ≡ done (tt, d)
    → IsValid d.store
initialize-IsValid env a c d v h = rw (initialized env a c d h) (record {
  reconciles = v.reconciles;
  balances_nonneg = v.balances_nonneg;
  admitted = v.admitted;
})

admit :
    (id : ℕ) (m : SplitManifest) (s : Store)
    → IsManifest m.recipients m.bps
    → Admitted s
    → Admitted (record s { manifests = insert id m s.manifests })
admit id m s new v j k h = elim (Bool-cases (id == j)) [
  | inl p ↦ let e : k ≡ m = ground (arith, lookup-insert id j m s.manifests) in rw e new
  | inr p ↦ v j k (rw (lookup-insert id j m s.manifests, p) at h)
]

create_manifest-IsValid :
    (env : Env) (a id : ℕ) (rs bps : List ℕ) (c d : State)
    → IsValid c.store
    → RoyaltySplits.create_manifest env a id rs bps c ≡ done (tt, d)
    → IsValid d.store
create_manifest-IsValid env a id rs bps c d v h =
    let (m, _, _, _, now) = create_manifest_stored env a id rs bps c d h in
    rw now (record {
      reconciles = v.reconciles;
      balances_nonneg = v.balances_nonneg;
      admitted =
          admit id (record { recipients = rs; bps = bps; created_at = env.timestamp }) c.store m
            v.admitted;
    })

distribute-IsValid :
    (env : Env) (a id s : ℕ) (x : ℤ) (c d : State)
    → IsValid c.store
    → RoyaltySplits.distribute env a id s x c ≡ done (tt, d)
    → IsValid d.store
distribute-IsValid env a id s x c d v h =
    let (_, _, _, m, _, k) = distribute_credits env a id s x c d v.admitted h in
    record {
      reconciles = λ b.
          rw (k.total b, k.books, distributed_liability s b x c.store.asset_ledgers, v.reconciles b)
            refl;
      balances_nonneg = λ q b. grind (int_laws, k.balance q b, v.balances_nonneg q b);
      admitted = λ j n p. v.admitted j n (rw k.books at p);
    }

withdraw-IsValid :
    (env : Env) (r s : ℕ) (x : ℤ) (c d : State)
    → IsValid c.store
    → RoyaltySplits.withdraw env r s c ≡ done (x, d)
    → IsValid d.store
withdraw-IsValid env r s x c d v h =
    let (_, e, lo, now) = withdraw_paid env r s x c d h in
    record {
      reconciles = λ b.
          rw
            (
              withdraw_total env r s x c d b h,
              now,
              withdrawn_liability s b x c.store.asset_ledgers,
              v.reconciles b,
            )
            refl;
      balances_nonneg =
          λ q b. grind (int_laws, withdraw_balance env r s x c d q b h, v.balances_nonneg q b);
      admitted = λ j n p. v.admitted j n (rw now at p);
    }

-- One step: a request that succeeds. A request that fails is rolled back and is no step.
pub data Step : State → State → Type 0 where
  request : (env : Env) (r : Request) (c d : State) → apply env r c ≡ done (tt, d) → Step c d

pub data Reach (c : State) : State → Type 0 where
  here : Reach c c
  next : {d e : State} → Reach c d → Step d e → Reach c e

-- A withdrawal whose amount is dropped.
withdraw_done :
    (env : Env) (r s : ℕ) (c d : State)
    → apply env (Request.withdraw r s) c ≡ done (tt, d)
    → (x : ℤ) × (RoyaltySplits.withdraw env r s c ≡ done (x, d))
unfolding apply
withdraw_done env r s c d h = dropped-done (RoyaltySplits.withdraw env r s c) d h

apply-IsValid :
    (env : Env) (r : Request) (c d : State)
    → IsValid c.store
    → apply env r c ≡ done (tt, d)
    → IsValid d.store
unfolding apply
apply-IsValid env (Request.initialize a) c d v h = initialize-IsValid env a c d v h
apply-IsValid env (Request.create_manifest a id rs bps) c d v h =
    create_manifest-IsValid env a id rs bps c d v h
apply-IsValid env (Request.distribute a id s x) c d v h = distribute-IsValid env a id s x c d v h
apply-IsValid env (Request.withdraw r s) c d v h =
    let (x, k) = withdraw_done env r s c d h in withdraw-IsValid env r s x c d v k

-- In every state that is reached from a valid one by requests of anybody in any order, what the
-- ledger of each asset shows as distributed less withdrawn is the sum of all balances in that asset,
-- no balance is negative, and every stored manifest is well-formed.
pub Reach-reconciles : {c d : State} → IsValid c.store → Reach c d → IsValid d.store
Reach-reconciles v here = v
Reach-reconciles v (next r (request env q c d h)) = apply-IsValid env q c d (Reach-reconciles v r) h

distribute_protects :
    (env : Env) (a id s : ℕ) (x : ℤ) (c d : State) (q b : ℕ)
    → IsValid c.store
    → RoyaltySplits.distribute env a id s x c ≡ done (tt, d)
    → get_balance q b c.store ≤ℤ get_balance q b d.store
distribute_protects env a id s x c d q b v h =
    let (_, _, _, m, _, k) = distribute_credits env a id s x c d v.admitted h in
    grind (int_laws, k.balance q b)

whole_paid :
    (env : Env) (r s q a : ℕ) (c d : State)
    → (r ≡ q) × (s ≡ a)
    → env.authorized r ≡ true
    → RoyaltySplits.withdraw env r s c ≡ done (get_balance r s c.store, d)
    → (Request.withdraw r s ≡ Request.withdraw q a)
      × (env.authorized q ≡ true)
      × (RoyaltySplits.withdraw env q a c ≡ done (get_balance q a c.store, d))
whole_paid env r s q a c d (e, f) u paid = (cc, cc, rw (sym e, sym f) paid)

-- A request that succeeds on a valid state lowers a recipient's balance in an asset only to pay it out whole, to that
-- recipient, who has signed.
pub apply-protects :
    (env : Env) (r : Request) (c d : State) (q a : ℕ)
    → IsValid c.store
    → apply env r c ≡ done (tt, d)
    → (get_balance q a c.store ≤ℤ get_balance q a d.store)
      ⊎ ((r ≡ Request.withdraw q a)
          × (env.authorized q ≡ true)
          × (RoyaltySplits.withdraw env q a c ≡ done (get_balance q a c.store, d)))
unfolding apply
apply-protects env (Request.initialize n) c d q a v h =
    inl (rw (initialized env n c d h) (omega arith))
apply-protects env (Request.create_manifest n id rs bps) c d q a v h =
    let (_, _, _, _, now) = create_manifest_stored env n id rs bps c d h in
    inl (rw now (omega arith))
apply-protects env (Request.distribute n id s x) c d q a v h =
    inl (distribute_protects env n id s x c d q a v h)
apply-protects env (Request.withdraw r s) c d q a v h =
    let (x, k) = withdraw_done env r s c d h in
    let (u, e, _, _) = withdraw_paid env r s x c d k in
    let b = withdraw_balance env r s x c d q a k in
    elim (Bool-cases ((s == a) && (r == q))) [
      | inr p ↦ inl (rw (b, p) (omega arith))
      | inl p ↦
          let same : (r ≡ q) × (s ≡ a) = ground arith in
          let paid : RoyaltySplits.withdraw env r s c ≡ done (get_balance r s c.store, d) =
            rw e at k in
          inr (whole_paid env r s q a c d same u paid)
    ]

-- A request that succeeds on a valid state neither changes nor removes a manifest in the storage.
pub apply-immutable :
    (env : Env) (r : Request) (c d : State) (id : ℕ) (m : SplitManifest)
    → IsValid c.store
    → lookup id c.store.manifests ≡ some m
    → apply env r c ≡ done (tt, d)
    → lookup id d.store.manifests ≡ some m
unfolding apply
apply-immutable env (Request.initialize n) c d id m v was h = rw (initialized env n c d h) was
apply-immutable env (Request.create_manifest n j rs bps) c d id m v was h =
    let (_, _, _, free, now) = create_manifest_stored env n j rs bps c d h in
    ground (
      arith,
      now,
      lookup-insert j id (record { recipients = rs; bps = bps; created_at = env.timestamp })
          c.store.manifests,
    )
apply-immutable env (Request.distribute n j s x) c d id m v was h =
    let (_, _, _, _, _, k) = distribute_credits env n j s x c d v.admitted h in rw k.books was
apply-immutable env (Request.withdraw r s) c d id m v was h =
    let (x, k) = withdraw_done env r s c d h in
    let (_, _, _, now) = withdraw_paid env r s x c d k in rw now was
