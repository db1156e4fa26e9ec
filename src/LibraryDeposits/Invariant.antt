-- ===== src/LibraryDeposits/Invariant.antt =====
-- What holds of the deposit contract between calls, and how a payment out of a deposit keeps it.
use chain_verse_onchain.Common.{
  ℕ, ◌<◌, ◌≡◌, refl, inl, inr, arith, none, some, List, [], ◌∷◌, ◌==◌, ==_iff, Bool-cases,
  if◌then◌else◌, insert, nat_eq, lookup-insert, lookup-insert_here, lookup-insert_there,
  lookup_clash, sum_by, sum_by-insert, ℤ, pos, ◌+ℤ◌, ◌-ℤ◌, ◌≤ℤ◌, int_laws, Chain, TokenClient,
}
use chain_verse_onchain.LibraryDeposits.{
  DepositStatus, locked, released, charged, Deposit, Store, Event, dep_lock, dep_rel, dep_chg,
  load_deposit,
}

-- What a deposit holds of the token `t`.
abbrev pub held : ℕ → ℕ → Deposit → ℤ
held t id e = if e.token == t then e.remaining_amount else pos 0

-- What the events show as paid out of a deposit: its charges and its refund.
abbrev pub paid : ℕ → List Event → ℤ
paid id [] = pos 0
paid id (dep_lock j loan patron x ∷ l) = paid id l
paid id (dep_rel j x ∷ l) = (if j == id then x else pos 0) +ℤ paid id l
paid id (dep_chg j x ∷ l) = (if j == id then x else pos 0) +ℤ paid id l

-- A locked deposit holds at most what was locked; a closed one holds nothing.
abbrev pub Holds : DepositStatus → (remaining original : ℤ) → Type 0
Holds locked r o = (pos 0 ≤ℤ r) × (r ≤ℤ o)
Holds released r o = r ≡ pos 0
Holds charged r o = r ≡ pos 0

module _ (client : TokenClient) (deposit_id : (nonce timestamp loan_id patron : ℕ) → ℕ)
    (self : ℕ) where
  open client use {World, balance}

  abbrev pub State : Type 0
  State = Chain World Store Event

  -- The contract holds of each token what remains of its deposits; a deposit fits its status and is
  -- accounted for: what remains and what was paid out add up to what was locked. No id of a later
  -- nonce is in use, and none that is not in use was paid from.
  pub record IsBacked (c : State) : Type 0 where
    pub solvent : (t : ℕ) → sum_by (held t) c.store.deposits ≤ℤ balance c.tokens t self
    pub fits :
        (id : ℕ) (e : Deposit)
        → load_deposit id c.store ≡ some e
        → Holds e.status e.remaining_amount e.original_amount
    pub accounted :
        (id : ℕ) (e : Deposit)
        → load_deposit id c.store ≡ some e
        → e.remaining_amount +ℤ paid id c.events ≡ e.original_amount
    pub unpaid : (id : ℕ) → load_deposit id c.store ≡ none → paid id c.events ≡ pos 0
    pub fresh :
        (n u l a : ℕ) → c.store.deposit_count < n → load_deposit (deposit_id n u l a) c.store ≡ none

  -- From `c` to `d` the amount `x` is paid out of deposit `id`, which becomes `e'`.
  pub record PaysOut (c d : State) (id : ℕ) (e e' : Deposit) (x : ℤ) : Type 0 where
    pub was : load_deposit id c.store ≡ some e
    pub now : d.store.deposits ≡ insert id e' c.store.deposits
    pub count : d.store.deposit_count ≡ c.store.deposit_count
    pub less : e'.remaining_amount ≡ e.remaining_amount -ℤ x
    pub same : (e'.token ≡ e.token) × (e'.original_amount ≡ e.original_amount)
    pub fits_after : Holds e'.status e'.remaining_amount e'.original_amount
    pub told : (j : ℕ) → paid j d.events ≡ (if id == j then x else pos 0) +ℤ paid j c.events
    pub covered :
        (t : ℕ)
        → balance c.tokens t self ≤ℤ balance d.tokens t self +ℤ (if e.token == t then x else pos 0)

  module _ (c d : State) (id : ℕ) (e e' : Deposit) (x : ℤ) (r : PaysOut c d id e e' x) where
    pub PaysOut-IsBacked : IsBacked c → IsBacked d
    PaysOut-IsBacked s = record {
      solvent = λ t. rw r.now (
          grind (
            int_laws,
            sum_by-insert (held t) id e' c.store.deposits,
            r.was,
            r.covered t,
            s.solvent t,
            r.less,
            r.same,
          ));
      fits = λ j u h. elim (Bool-cases (id == j)) [
        | inl p ↦
            let (q, i) = lookup-insert_here id j e' u c.store.deposits p (rw r.now at h) in
            rw q r.fits_after
        | inr p ↦ s.fits j u (rw (r.now, lookup-insert_there id j e' c.store.deposits p) at h)
      ];
      accounted = λ j u h. elim (Bool-cases (id == j)) [
        | inl p ↦
            let (q, i) = lookup-insert_here id j e' u c.store.deposits p (rw r.now at h) in
            let was = s.accounted id e r.was in
            rw (q, i) (grind (int_laws, r.told id, (==_iff id id).1 refl, was, r.less, r.same))
        | inr p ↦
            let was =
              s.accounted j u (rw (r.now, lookup-insert_there id j e' c.store.deposits p) at h) in
            grind (int_laws, r.told j, p, was)
      ];
      unpaid = λ j h. elim (Bool-cases (id == j)) [
        | inl p ↦ absurd (ground (arith, r.now, lookup-insert id j e' c.store.deposits))
        | inr p ↦
            let none_yet =
              s.unpaid j (rw (r.now, lookup-insert_there id j e' c.store.deposits p) at h) in
            grind (int_laws, r.told j, p, none_yet)
      ];
      fresh = λ n u l a h. elim (Bool-cases (id == deposit_id n u l a)) [
        | inl p ↦
            lookup_clash id (deposit_id n u l a) e c.store.deposits p r.was
              (s.fresh n u l a (rw r.count at h))
        | inr p ↦
            rw (r.now, lookup-insert_there id (deposit_id n u l a) e' c.store.deposits p)
              (s.fresh n u l a (rw r.count at h))
      ];
    }
