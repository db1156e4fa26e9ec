-- ===== src/Token/Transfers.antt =====
-- contracts/token/src/lib.rs: how `apply_transfer` moves balances.
use chain_verse_onchain.Common.{
  ℕ, ◌≡◌, refl, sym, ◌⊎◌, inl, inr, arith, false, Option, none, some, ◌∷◌, ◌==◌, ==_iff,
  if◌then◌else◌, nat_eq, ℤ, pos, ◌+ℤ◌, ◌-ℤ◌, ◌≤ℤ◌, fit_i128, int_laws, Result, ok, err, done,
  done-cases,
}
use chain_verse_onchain.Token.{
  max_supply, TokenError, RoyaltyConfig, Store, Event, balance, set_balance,
}
use chain_verse_onchain.Token.Royalties.{
  State, supply, taken, share, full_share, taken_nonneg, royalty_amount-taken, added, added_supply,
  subtracted, subtracted_supply, pay_royalty-PaysRoyalty,
}
use chain_verse_onchain.Token.Calls.{royalty_amount, is_recipient, pay_royalty, apply_transfer}

-- What the receiver is credited: the whole amount where it is the royalty's recipient too.
abbrev credit : Option RoyaltyConfig → (to : ℕ) → ℤ → ℤ
credit r to amount = if is_recipient r to then amount else amount -ℤ taken r amount

-- The state before the royalty is paid.
abbrev settled : Option RoyaltyConfig → (from to : ℕ) → ℤ → State → State
settled r from to amount c = record c {
  store =
      set_balance to (balance to c.store +ℤ credit r to amount)
        (set_balance from (balance from c.store -ℤ amount) c.store);
}

Result-cases : (o : Result TokenError ℤ) → ((x : ℤ) × (o ≡ ok x)) ⊎ ((e : TokenError) × (o ≡ err e))
Result-cases (ok x) = inl (x, refl)
Result-cases (err e) = inr (e, refl)

-- A transfer that succeeds has computed its royalty.
royalty_computed :
    (from to : ℕ) (amount : ℤ) (c d : State)
    → apply_transfer from to amount c ≡ done (tt, d)
    → royalty_amount c.store.royalty amount ≡ ok (taken c.store.royalty amount)
unfolding apply_transfer
royalty_computed from to amount c d h =
    elim (Result-cases (royalty_amount c.store.royalty amount)) [
      | inl (x, p) ↦ rw (sym (royalty_amount-taken c.store.royalty amount x p)) p
      | inr (x, p) ↦ absurd (ground arith)
    ]

-- The guards of a transfer, and the state in which its royalty is paid.
transfer_parts :
    (from to : ℕ) (amount : ℤ) (c d : State)
    → royalty_amount c.store.royalty amount ≡ ok (taken c.store.royalty amount)
    → apply_transfer from to amount c ≡ done (tt, d)
    → (pos 1 ≤ℤ amount)
      × (amount ≤ℤ max_supply)
      × ((from == to) ≡ false)
      × (amount ≤ℤ balance from c.store)
      × (e : State) × (pay_royalty c.store.royalty to
            (taken c.store.royalty amount)
            (settled c.store.royalty from to amount c)
          ≡ done (tt, e))
      × (d ≡ record e { events = Event.transferred from to amount ∷ e.events })
unfolding apply_transfer fit_i128
transfer_parts from to amount c d r h =
    elim (done-cases (
      pay_royalty c.store.royalty to (taken c.store.royalty amount)
        (settled c.store.royalty from to amount c))) [
          | inl (e, p) ↦
              let (a, b, n, g, z) : (pos 1 ≤ℤ amount)
                  × (amount ≤ℤ max_supply)
                  × ((from == to) ≡ false)
                  × (amount ≤ℤ balance from c.store)
                  × (d ≡ record e { events = Event.transferred from to amount ∷ e.events }) =
                ground arith in
              (a, b, n, g, e, p, z)
          | inr (inl (e, p)) ↦ absurd (ground arith)
          | inr (inr p) ↦ absurd (ground arith)
        ]

-- What the three parties gain or lose by a transfer.
abbrev pub gain : Option RoyaltyConfig → (from to q : ℕ) → ℤ → ℤ
gain r from to q amount =
    (if to == q then amount -ℤ taken r amount else pos 0)
    +ℤ share r q (taken r amount)
    -ℤ (if from == q then amount else pos 0)

-- How a transfer changes the token's books.
pub record Moves (from to : ℕ) (amount : ℤ) (c d : State) : Type 0 where
  pub positive : pos 1 ≤ℤ amount
  pub bounded : amount ≤ℤ max_supply
  pub distinct : (from == to) ≡ false
  pub enough : amount ≤ℤ balance from c.store
  pub moved :
      (q : ℕ) → balance q d.store ≡ balance q c.store +ℤ gain c.store.royalty from to q amount
  pub conserved : supply d.store ≡ supply c.store
  pub rest : d.store ≡ record (c.store) { balances = d.store.balances }

swapped : (a x y : ℤ) → a -ℤ x +ℤ y ≡ a +ℤ y -ℤ x
swapped a x y = omega int_laws

balance-settled :
    (r : Option RoyaltyConfig) (from to q : ℕ) (amount : ℤ) (c : State)
    → (from == to) ≡ false
    → balance q (settled r from to amount c).store
      ≡ balance q c.store
        +ℤ (if to == q then credit r to amount else pos 0)
        -ℤ (if from == q then amount else pos 0)
balance-settled r from to q amount c n =
    let s : Store = set_balance from (balance from c.store -ℤ amount) c.store in
    let back : balance to c.store ≡ balance to s =
      rw (subtracted from to amount c.store, n) (omega int_laws) in
    rw (back, added to q (credit r to amount) s, subtracted from q amount c.store)
      (swapped (balance q c.store) _ _)

supply-settled :
    (r : Option RoyaltyConfig) (from to : ℕ) (amount : ℤ) (c : State)
    → (from == to) ≡ false
    → supply (settled r from to amount c).store ≡ supply c.store +ℤ credit r to amount -ℤ amount
supply-settled r from to amount c n =
    let s : Store = set_balance from (balance from c.store -ℤ amount) c.store in
    let back : balance to c.store ≡ balance to s =
      rw (subtracted from to amount c.store, n) (omega int_laws) in
    let m = added_supply to (credit r to amount) s in
    let k = subtracted_supply from amount c.store in rw back (grind (int_laws, m, k))

-- With the royalty the parties' gains are as stated, and they cancel.
gains :
    (r : Option RoyaltyConfig) (from to q : ℕ) (amount b : ℤ)
    → (b
          +ℤ (if to == q then credit r to amount else pos 0)
          -ℤ (if from == q then amount else pos 0))
        +ℤ (if is_recipient r to then pos 0 else share r q (taken r amount))
      ≡ b +ℤ gain r from to q amount
gains none from to q amount b = grind int_laws
gains (some config) from to q amount b =
    grind (int_laws, ==_iff config.recipient to, ==_iff config.recipient q, ==_iff to q)

gains_cancel :
    (r : Option RoyaltyConfig) (to : ℕ) (amount s : ℤ)
    → (s +ℤ credit r to amount -ℤ amount)
        +ℤ (if is_recipient r to then pos 0 else full_share r (taken r amount))
      ≡ s
gains_cancel none to amount s = grind int_laws
gains_cancel (some config) to amount s = grind int_laws

pub apply_transfer-Moves :
    (from to : ℕ) (amount : ℤ) (c d : State)
    → apply_transfer from to amount c ≡ done (tt, d)
    → Moves from to amount c d
apply_transfer-Moves from to amount c d h =
    let r = c.store.royalty in
    let (lo, hi, n, le, e, p, z) =
      transfer_parts from to amount c d (royalty_computed from to amount c d h) h in
    let w =
      pay_royalty-PaysRoyalty r to (taken r amount) (settled r from to amount c) e
        (taken_nonneg r amount lo) p in
    let at_end : d.store ≡ e.store = rw z refl in
    record {
      positive = lo;
      bounded = hi;
      distinct = n;
      enough = le;
      moved = λ q.
          rw (at_end, w.balances q, balance-settled r from to q amount c n)
            (gains r from to q amount (balance q c.store));
      conserved =
          rw (at_end, w.total, supply-settled r from to amount c n)
            (gains_cancel r to amount (supply c.store));
      rest = rw (at_end, w.rest) refl;
    }
