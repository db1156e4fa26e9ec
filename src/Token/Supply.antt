-- ===== src/Token/Supply.antt =====
-- contracts/token/src/lib.rs: the supply over whole histories of requests.
use chain_verse_onchain.Common.{
  ℕ, ◌≡◌, refl, arith, true, false, Option, none, some, List, [], ◌∷◌, ◌==◌, ==_iff, nat_eq,
  or_default, ℤ, pos, ◌+ℤ◌, ◌≤ℤ◌, int_laws,
}
use chain_verse_onchain.Token.{RoyaltyConfig, Store, balance, migrate}
use chain_verse_onchain.Token.Royalties.{State, supply, taken, Capped, taken_nonneg, taken_le}
use chain_verse_onchain.Token.Transfers.{gain, Moves}

-- The balances add up to the total supply and none is negative, the royalty is at most the whole, no
-- balance waits for migration, and before the initialization there is none.
pub record IsSupplied (s : Store) : Type 0 where
  pub exact : supply s ≡ or_default (pos 0) s.total_supply
  pub nonneg : (q : ℕ) → pos 0 ≤ℤ balance q s
  pub capped : Capped s.royalty
  pub migrated : s.legacy_balances ≡ []
  pub unused : s.initialized ≡ false → s.balances ≡ []

-- Nobody falls below zero by a transfer that the sender can afford.
gain_nonneg :
    (r : Option RoyaltyConfig) (from to q : ℕ) (amount b f : ℤ)
    → pos 0 ≤ℤ taken r amount
    → taken r amount ≤ℤ amount
    → pos 0 ≤ℤ b
    → amount ≤ℤ f
    → ((from == q) ≡ true → b ≡ f)
    → pos 0 ≤ℤ b +ℤ gain r from to q amount
gain_nonneg none from to q amount b f lo hi p e k = grind (int_laws, k)
gain_nonneg (some config) from to q amount b f lo hi p e k = grind (int_laws, k)

pub gain_of_others :
    (r : Option RoyaltyConfig) (from to q : ℕ) (amount b : ℤ)
    → pos 0 ≤ℤ taken r amount
    → taken r amount ≤ℤ amount
    → (from == q) ≡ false
    → b ≤ℤ b +ℤ gain r from to q amount
gain_of_others none from to q amount b lo hi n = grind int_laws
gain_of_others (some config) from to q amount b lo hi n = grind int_laws

pub loss_of_sender :
    (r : Option RoyaltyConfig) (from to q : ℕ) (amount b : ℤ)
    → pos 0 ≤ℤ taken r amount
    → taken r amount ≤ℤ amount
    → (from == to) ≡ false
    → b ≤ℤ b +ℤ gain r from to q amount +ℤ amount
loss_of_sender none from to q amount b lo hi n = grind int_laws
loss_of_sender (some config) from to q amount b lo hi n = grind int_laws

no_balance :
    (q : ℕ) (amount : ℤ) (s : Store)
    → s.balances ≡ []
    → pos 1 ≤ℤ amount
    → amount ≤ℤ balance q s
    → s.initialized ≡ true
no_balance q amount s e lo hi =
    let z : amount ≤ℤ pos 0 = rw e at hi in absurd (omega (arith, lo, z))

same_balance : (from q : ℕ) (s : Store) → (from == q) ≡ true → balance q s ≡ balance from s
same_balance from q s p = rw ((==_iff from q).0 p) refl

pub Moves-IsSupplied :
    (from to : ℕ) (amount : ℤ) (c d : State)
    → Moves from to amount c d
    → IsSupplied c.store
    → IsSupplied d.store
Moves-IsSupplied from to amount c d m v = record {
  exact = rw (m.conserved, m.rest) v.exact;
  nonneg = λ q. rw (m.moved q) (
      gain_nonneg c.store.royalty from to q amount (balance q c.store) (balance from c.store)
        (taken_nonneg c.store.royalty amount m.positive)
        (taken_le c.store.royalty amount v.capped m.positive) (v.nonneg q) m.enough
        (same_balance from q c.store));
  capped = rw m.rest v.capped;
  migrated = rw m.rest v.migrated;
  unused = λ n.
      let before : c.store.initialized ≡ false = rw m.rest at n in
      let used = no_balance from amount c.store (v.unused before) m.positive m.enough in
      absurd (ground arith);
}

-- A store that differs in other fields only.
pub record SameBooks (s t : Store) : Type 0 where
  pub balances : t.balances ≡ s.balances
  pub total : t.total_supply ≡ s.total_supply
  pub legacy : t.legacy_balances ≡ s.legacy_balances
  pub flag : t.initialized ≡ s.initialized

pub SameBooks-IsSupplied :
    (s t : Store) → SameBooks s t → Capped t.royalty → IsSupplied s → IsSupplied t
SameBooks-IsSupplied s t b k v = record {
  exact = rw (b.balances, b.total) v.exact;
  nonneg = λ q. rw b.balances (v.nonneg q);
  capped = k;
  migrated = rw b.legacy v.migrated;
  unused = λ n. rw b.balances (v.unused (rw b.flag at n));
}

pub migrate_nothing :
    (holders : List ℕ) (s : Store) → s.legacy_balances ≡ [] → migrate holders s ≡ s
migrate_nothing [] s e = refl
migrate_nothing (h ∷ holders) s e = ground (arith, e, migrate_nothing holders s e)
