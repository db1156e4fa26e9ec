-- ===== src/Token/Histories.antt =====
-- Whole histories of the token contract: requests in any order, by anyone.
use chain_verse_onchain.Common.{
  ℕ, ◌≡◌, refl, arith, ◌⊎◌, inl, inr, Bool-cases, ==_iff, true, false, Option, some, List, [], ◌==◌,
  insert, nat_eq, pair_eq, lookup, ℤ, pos, ◌+ℤ◌, ◌≤ℤ◌, int_laws, Env, done, Option-cases,
}
use chain_verse_onchain.Token.{Allowance, balance}
use chain_verse_onchain.Token.Calls
use chain_verse_onchain.Token.Calls.{Call}
use chain_verse_onchain.Token.Royalties.{State, Capped, taken_nonneg, taken_le}
use chain_verse_onchain.Token.Transfers.{Moves}
use chain_verse_onchain.Token.Supply.{
  gain_of_others, loss_of_sender, IsSupplied, Moves-IsSupplied, SameBooks, SameBooks-IsSupplied,
  migrate_nothing,
}
use chain_verse_onchain.Token.Spending.{Live, transfer-Moves, transfer_from_spends}

-- The entry points that change the contract's state, with their arguments.
pub data Request : Type 0 where
  initialize : (admin : ℕ) (total_supply : ℤ) → Request
  transfer : (from to : ℕ) (amount : ℤ) → Request
  pause unpause : (admin : ℕ) → Request
  propose_admin : (current_admin new_admin : ℕ) → Request
  accept_admin : (new_admin : ℕ) → Request
  upgrade : (admin new_wasm_hash : ℕ) → Request
  migrate_balances : (admin : ℕ) (holders : List ℕ) → Request
  set_royalty : (admin recipient bps : ℕ) → Request
  approve : (owner spender : ℕ) (amount : ℤ) (expires_at : Option ℕ) → Request
  transfer_from : (spender from to : ℕ) (amount : ℤ) → Request
  revoke_allowance : (owner spender : ℕ) → Request

unfoldable pub apply : Env → Request → Call (Unit {0})
apply env (Request.initialize a x) = Calls.initialize env a x
apply env (Request.transfer a b x) = Calls.transfer env a b x
apply env (Request.pause a) = Calls.pause env a
apply env (Request.unpause a) = Calls.unpause env a
apply env (Request.propose_admin a b) = Calls.propose_admin env a b
apply env (Request.accept_admin a) = Calls.accept_admin env a
apply env (Request.upgrade a hash) = Calls.upgrade env a hash
apply env (Request.migrate_balances a holders) = Calls.migrate_balances env a holders
apply env (Request.set_royalty a b bps) = Calls.set_royalty env a b bps
apply env (Request.approve a b x exp) = Calls.approve env a b x exp
apply env (Request.transfer_from s a b x) = Calls.transfer_from env s a b x
apply env (Request.revoke_allowance a b) = Calls.revoke_allowance env a b

-- What the requests that move no balance leave alone.
initialized :
    (env : Env) (a : ℕ) (x : ℤ) (c d : State)
    → Calls.initialize env a x c ≡ done (tt, d)
    → (c.store.initialized ≡ false)
      × (pos 1 ≤ℤ x)
      × (d.store ≡ record (c.store) {
        admin = some a;
        total_supply = some x;
        balances = insert a x c.store.balances;
        paused = false;
        initialized = true;
      })
unfolding Calls.initialize
initialized env a x c d h = ground arith

initialize-IsSupplied :
    (env : Env) (a : ℕ) (x : ℤ) (c d : State)
    → IsSupplied c.store
    → Calls.initialize env a x c ≡ done (tt, d)
    → IsSupplied d.store
initialize-IsSupplied env a x c d v h =
    let (n, lo, now) = initialized env a x c d h in
    let none_yet = v.unused n in
    record {
      exact = rw (now, none_yet) (omega int_laws);
      nonneg = λ q. rw (now, none_yet) (ground (arith, lo));
      capped = rw now v.capped;
      migrated = rw now v.migrated;
      unused = λ k. absurd (ground (arith, now));
    }

paused_books :
    (env : Env) (a : ℕ) (c d : State)
    → (Calls.pause env a c ≡ done (tt, d)) ⊎ (Calls.unpause env a c ≡ done (tt, d))
    → SameBooks c.store d.store × (d.store.royalty ≡ c.store.royalty)
unfolding Calls.set_paused
paused_books env a c d (inl h) = (ground arith, ground arith)
paused_books env a c d (inr h) = (ground arith, ground arith)

propose_books :
    (env : Env) (a b : ℕ) (c d : State)
    → Calls.propose_admin env a b c ≡ done (tt, d)
    → SameBooks c.store d.store × (d.store.royalty ≡ c.store.royalty)
unfolding Calls.propose_admin
propose_books env a b c d h = (ground arith, ground arith)

accept_books :
    (env : Env) (a : ℕ) (c d : State)
    → Calls.accept_admin env a c ≡ done (tt, d)
    → SameBooks c.store d.store × (d.store.royalty ≡ c.store.royalty)
unfolding Calls.accept_admin
accept_books env a c d h = (ground arith, ground arith)

upgrade_books :
    (env : Env) (a hash : ℕ) (c d : State)
    → Calls.upgrade env a hash c ≡ done (tt, d)
    → SameBooks c.store d.store × (d.store.royalty ≡ c.store.royalty)
unfolding Calls.upgrade
upgrade_books env a hash c d h = (ground arith, ground arith)

approve_books :
    (env : Env) (a b : ℕ) (x : ℤ) (exp : Option ℕ) (c d : State)
    → Calls.approve env a b x exp c ≡ done (tt, d)
    → SameBooks c.store d.store × (d.store.royalty ≡ c.store.royalty)
unfolding Calls.approve
approve_books env a b x exp c d h = (ground arith, ground arith)

revoke_books :
    (env : Env) (a b : ℕ) (c d : State)
    → Calls.revoke_allowance env a b c ≡ done (tt, d)
    → SameBooks c.store d.store × (d.store.royalty ≡ c.store.royalty)
unfolding Calls.revoke_allowance
revoke_books env a b c d h = (ground arith, ground arith)

royalty_books :
    (env : Env) (a b bps : ℕ) (c d : State)
    → Calls.set_royalty env a b bps c ≡ done (tt, d)
    → SameBooks c.store d.store × Capped d.store.royalty
unfolding Calls.set_royalty
royalty_books env a b bps c d h = (ground arith, ground arith)

migrate_books :
    (env : Env) (a : ℕ) (holders : List ℕ) (c d : State)
    → c.store.legacy_balances ≡ []
    → Calls.migrate_balances env a holders c ≡ done (tt, d)
    → d.store ≡ c.store
unfolding Calls.migrate_balances
migrate_books env a holders c d e h = ground (arith, migrate_nothing holders c.store e)

keeps :
    (c d : State)
    → SameBooks c.store d.store × (d.store.royalty ≡ c.store.royalty)
    → IsSupplied c.store
    → IsSupplied d.store
keeps c d (b, r) v = SameBooks-IsSupplied c.store d.store b (rw r v.capped) v

allowance_found :
    (env : Env) (s a b : ℕ) (x : ℤ) (c d : State)
    → Calls.transfer_from env s a b x c ≡ done (tt, d)
    → (w : Allowance) × (lookup (a, s) c.store.allowances ≡ some w)
unfolding Calls.transfer_from
allowance_found env s a b x c d h = elim (Option-cases (lookup (a, s) c.store.allowances)) [
  | inl p ↦ absurd (ground arith)
  | inr (w, p) ↦ (w, p)
]

pub apply-IsSupplied :
    (env : Env) (r : Request) (c d : State)
    → IsSupplied c.store
    → apply env r c ≡ done (tt, d)
    → IsSupplied d.store
unfolding apply
apply-IsSupplied env (Request.initialize a x) c d v h = initialize-IsSupplied env a x c d v h
apply-IsSupplied env (Request.transfer a b x) c d v h =
    let (_, _, m) = transfer-Moves env a b x c d h in Moves-IsSupplied a b x c d m v
apply-IsSupplied env (Request.pause a) c d v h = keeps c d (paused_books env a c d (inl h)) v
apply-IsSupplied env (Request.unpause a) c d v h = keeps c d (paused_books env a c d (inr h)) v
apply-IsSupplied env (Request.propose_admin a b) c d v h = keeps c d (propose_books env a b c d h) v
apply-IsSupplied env (Request.accept_admin a) c d v h = keeps c d (accept_books env a c d h) v
apply-IsSupplied env (Request.upgrade a hash) c d v h = keeps c d (upgrade_books env a hash c d h) v
apply-IsSupplied env (Request.migrate_balances a l) c d v h =
    rw (migrate_books env a l c d v.migrated h) v
apply-IsSupplied env (Request.set_royalty a b bps) c d v h =
    let (b', k) = royalty_books env a b bps c d h in SameBooks-IsSupplied c.store d.store b' k v
apply-IsSupplied env (Request.approve a b x exp) c d v h =
    keeps c d (approve_books env a b x exp c d h) v
apply-IsSupplied env (Request.transfer_from s a b x) c d v h =
    let (w, has) = allowance_found env s a b x c d h in
    let (_, _, _, _, e, m, now) = transfer_from_spends env s a b x c d w has h in
    let v' = Moves-IsSupplied a b x c e m v in
    SameBooks-IsSupplied e.store d.store
      (record {
        balances = rw now refl;
        total = rw now refl;
        legacy = rw now refl;
        flag = rw now refl;
      })
      (rw now v'.capped) v'
apply-IsSupplied env (Request.revoke_allowance a b) c d v h =
    keeps c d (revoke_books env a b c d h) v

-- One step: a request that succeeds. A request that fails is rolled back and is no step.
pub data Step : State → State → Type 0 where
  request : (env : Env) (r : Request) (c d : State) → apply env r c ≡ done (tt, d) → Step c d

pub data Reach (c : State) : State → Type 0 where
  here : Reach c c
  next : {d e : State} → Reach c d → Step d e → Reach c e

-- In every state that is reached from one whose books are in order, with no balance left to migrate, by
-- requests of anybody in any order, the balances add up to the total supply and none is negative.
pub Reach-IsSupplied : {c d : State} → IsSupplied c.store → Reach c d → IsSupplied d.store
Reach-IsSupplied v here = v
Reach-IsSupplied v (next r (request env q c d h)) =
    apply-IsSupplied env q c d (Reach-IsSupplied v r) h

-- What may lower a balance: the owner's signature, or an allowance of the owner that is in force and
-- covers the loss, with the signature of the one it was given to.
abbrev pub Entitled : Env → (q : ℕ) → State → State → Type 0
Entitled env q c d =
    (env.authorized q ≡ true)
    ⊎ ((s : ℕ) × (w : Allowance) × (env.authorized s ≡ true)
        × (lookup (q, s) c.store.allowances ≡ some w)
        × Live env.timestamp w.expires_at
        × (balance q c.store ≤ℤ balance q d.store +ℤ w.amount))

-- A transfer by somebody else does not lower a balance.
not_debited :
    (from to q : ℕ) (x : ℤ) (c d : State)
    → Moves from to x c d
    → Capped c.store.royalty
    → (from == q) ≡ false
    → balance q c.store ≤ℤ balance q d.store
not_debited from to q x c d m k n = rw (m.moved q) (
    gain_of_others c.store.royalty from to q x (balance q c.store)
      (taken_nonneg c.store.royalty x m.positive) (taken_le c.store.royalty x k m.positive) n)

debited :
    (from to : ℕ) (x : ℤ) (c d : State)
    → Moves from to x c d
    → Capped c.store.royalty
    → balance from c.store ≤ℤ balance from d.store +ℤ x
debited from to x c d m k = rw (m.moved from) (
    loss_of_sender c.store.royalty from to from x (balance from c.store)
      (taken_nonneg c.store.royalty x m.positive) (taken_le c.store.royalty x k m.positive)
      m.distinct)

unmoved :
    (q : ℕ) (c d : State)
    → SameBooks c.store d.store × (d.store.royalty ≡ c.store.royalty)
    → balance q c.store ≤ℤ balance q d.store
unmoved q c d (b, r) = rw b.balances (omega arith)

-- Where the books are in order and no balance is left to migrate, a request that succeeds lowers a
-- balance only by the owner's signature, or within an allowance that the owner gave to the one who signs
-- and whose expiry, if it has one, has not passed.
pub apply-Entitled :
    (env : Env) (r : Request) (c d : State) (q : ℕ)
    → IsSupplied c.store
    → apply env r c ≡ done (tt, d)
    → (balance q c.store ≤ℤ balance q d.store) ⊎ Entitled env q c d
unfolding apply
apply-Entitled env (Request.initialize a x) c d q v h =
    let (n, lo, now) = initialized env a x c d h in inl (rw (now, v.unused n) (ground (arith, lo)))
apply-Entitled env (Request.transfer a b x) c d q v h =
    let (u, _, m) = transfer-Moves env a b x c d h in
    elim (Bool-cases (a == q)) [
      | inl p ↦ inr (inl (rw ((==_iff a q).0 p) at u))
      | inr p ↦ inl (not_debited a b q x c d m v.capped p)
    ]
apply-Entitled env (Request.pause a) c d q v h =
    inl (unmoved q c d (paused_books env a c d (inl h)))
apply-Entitled env (Request.unpause a) c d q v h =
    inl (unmoved q c d (paused_books env a c d (inr h)))
apply-Entitled env (Request.propose_admin a b) c d q v h =
    inl (unmoved q c d (propose_books env a b c d h))
apply-Entitled env (Request.accept_admin a) c d q v h =
    inl (unmoved q c d (accept_books env a c d h))
apply-Entitled env (Request.upgrade a hash) c d q v h =
    inl (unmoved q c d (upgrade_books env a hash c d h))
apply-Entitled env (Request.migrate_balances a l) c d q v h =
    inl (rw (migrate_books env a l c d v.migrated h) (omega arith))
apply-Entitled env (Request.set_royalty a b bps) c d q v h =
    let (b', k) = royalty_books env a b bps c d h in inl (rw b'.balances (omega arith))
apply-Entitled env (Request.approve a b x exp) c d q v h =
    inl (unmoved q c d (approve_books env a b x exp c d h))
apply-Entitled env (Request.transfer_from s a b x) c d q v h =
    let (w, has) = allowance_found env s a b x c d h in
    let (u, _, live, le, e, m, now) = transfer_from_spends env s a b x c d w has h in
    elim (Bool-cases (a == q)) [
      | inl p ↦
          let i = (==_iff a q).0 p in
          let loss = debited a b x c e m v.capped in
          let bound : balance a c.store ≤ℤ balance a d.store +ℤ w.amount =
            rw now (omega (int_laws, loss, le)) in
          inr (inr (s, w, u, rw i at has, live, rw i at bound))
      | inr p ↦ inl (rw now (not_debited a b q x c e m v.capped p))
    ]
apply-Entitled env (Request.revoke_allowance a b) c d q v h =
    inl (unmoved q c d (revoke_books env a b c d h))
