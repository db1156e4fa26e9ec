-- ===== src/Token/Royalties.antt =====
-- contracts/token/src/lib.rs: the royalty on a transfer, and additions to single balances.
use chain_verse_onchain.Common.{
  ℕ, ◌*◌, ◌/◌, ◌≤◌, ◌≡◌, refl, inl, inr, arith, not, ◌&&◌, Option, none, some, ◌==◌, ==_iff,
  Bool-cases, if◌then◌else◌, nat_eq, lookup-insert, sum_by, sum_by-insert, ℤ, pos, negsuc, *ℤ_pos,
  ◌+ℤ◌, ◌-ℤ◌, ◌*ℤ◌, div_ℤ, ltb_ℤ, ◌≤ℤ◌, fit_i128, int_laws, Chain, ok, done,
}
use chain_verse_onchain.Token.{RoyaltyConfig, Store, Event, balance, set_balance}
use chain_verse_onchain.Token.Calls.{royalty_amount, is_recipient, pay_royalty}

abbrev pub State : Type 0
State = Chain (Unit {0}) Store Event

-- The sum of all balances.
abbrev pub whole : ℕ → ℤ → ℤ
whole q x = x

abbrev pub supply : Store → ℤ
supply s = sum_by whole s.balances

-- What a royalty takes of an amount, as a formula.
abbrev pub taken : Option RoyaltyConfig → ℤ → ℤ
taken none amount = pos 0
taken (some config) amount = div_ℤ (amount *ℤ pos config.bps) (pos 10_000)

pub royalty_amount-taken :
    (r : Option RoyaltyConfig) (amount x : ℤ) → royalty_amount r amount ≡ ok x → x ≡ taken r amount
unfolding royalty_amount fit_i128
royalty_amount-taken none amount x h = ground arith
royalty_amount-taken (some config) amount x h = ground arith

-- An addition to one balance, and what it does to the supply.
pub added :
    (u q : ℕ) (y : ℤ) (s : Store)
    → balance q (set_balance u (balance u s +ℤ y) s) ≡ balance q s +ℤ (if u == q then y else pos 0)
added u q y s = rw (lookup-insert u q (balance u s +ℤ y) s.balances) (grind (int_laws, ==_iff u q))

pub added_supply :
    (u : ℕ) (y : ℤ) (s : Store) → supply (set_balance u (balance u s +ℤ y) s) ≡ supply s +ℤ y
added_supply u y s = grind (int_laws, sum_by-insert whole u (balance u s +ℤ y) s.balances)

pub subtracted :
    (u q : ℕ) (y : ℤ) (s : Store)
    → balance q (set_balance u (balance u s -ℤ y) s) ≡ balance q s -ℤ (if u == q then y else pos 0)
subtracted u q y s =
    rw (lookup-insert u q (balance u s -ℤ y) s.balances) (grind (int_laws, ==_iff u q))

pub subtracted_supply :
    (u : ℕ) (y : ℤ) (s : Store) → supply (set_balance u (balance u s -ℤ y) s) ≡ supply s -ℤ y
subtracted_supply u y s = grind (int_laws, sum_by-insert whole u (balance u s -ℤ y) s.balances)

-- What a royalty of `x` brings to `q`, and to everybody.
abbrev pub share : Option RoyaltyConfig → (q : ℕ) → ℤ → ℤ
share none q x = pos 0
share (some config) q x = if config.recipient == q then x else pos 0

abbrev pub full_share : Option RoyaltyConfig → ℤ → ℤ
full_share none x = pos 0
full_share (some config) x = x

-- The payment of a royalty: none where the receiver is its recipient, and has it already.
pub record PaysRoyalty (r : Option RoyaltyConfig) (to : ℕ) (x : ℤ) (e d : State) : Type 0 where
  pub balances :
      (q : ℕ)
      → balance q d.store ≡ balance q e.store +ℤ (if is_recipient r to then pos 0 else share r q x)
  pub total :
      supply d.store ≡ supply e.store +ℤ (if is_recipient r to then pos 0 else full_share r x)
  pub rest : d.store ≡ record (e.store) { balances = d.store.balances }

paid_store :
    (config : RoyaltyConfig) (to : ℕ) (x : ℤ) (e d : State)
    → pay_royalty (some config) to x e ≡ done (tt, d)
    → d.store ≡ (
        if ltb_ℤ (pos 0) x && not (config.recipient == to)
        then set_balance config.recipient (balance config.recipient e.store +ℤ x) e.store
        else e.store)
unfolding pay_royalty fit_i128
paid_store config to x e d h = ground arith

unpaid_store :
    (to : ℕ) (x : ℤ) (e d : State) → pay_royalty none to x e ≡ done (tt, d) → d.store ≡ e.store
unfolding pay_royalty
unpaid_store to x e d h = ground arith

pub pay_royalty-PaysRoyalty :
    (r : Option RoyaltyConfig) (to : ℕ) (x : ℤ) (e d : State)
    → pos 0 ≤ℤ x
    → pay_royalty r to x e ≡ done (tt, d)
    → PaysRoyalty r to x e d
pay_royalty-PaysRoyalty none to x e d lo h =
    let s = unpaid_store to x e d h in
    record {
      balances = λ q. rw s (omega int_laws);
      total = rw s (omega int_laws);
      rest = rw s refl;
    }
pay_royalty-PaysRoyalty (some config) to x e d lo h =
    let s = paid_store config to x e d h in
    elim (Bool-cases (ltb_ℤ (pos 0) x && not (config.recipient == to))) [
      | inl p ↦
          let now : d.store
              ≡ set_balance config.recipient (balance config.recipient e.store +ℤ x) e.store =
            rw p at s in
          record {
            balances = λ q. rw now (grind (int_laws, added config.recipient q x e.store, p));
            total = rw now (grind (int_laws, added_supply config.recipient x e.store, p));
            rest = rw now refl;
          }
      | inr p ↦
          let now : d.store ≡ e.store = rw p at s in
          record {
            balances = λ q. rw now (grind (int_laws, p));
            total = rw now (grind (int_laws, p));
            rest = rw now refl;
          }
    ]

royalty_le : (n b : ℕ) → b ≤ 10_000 → n * b / 10_000 ≤ n
royalty_le n b h = grind arith

taken_pos :
    (config : RoyaltyConfig) (n : ℕ) → taken (some config) (pos n) ≡ pos (n * config.bps / 10_000)
unfolding div_ℤ
taken_pos config n = rw (*ℤ_pos n config.bps) refl

pub taken_nonneg :
    (r : Option RoyaltyConfig) (amount : ℤ) → pos 1 ≤ℤ amount → pos 0 ≤ℤ taken r amount
taken_nonneg none amount h = omega arith
taken_nonneg (some config) (pos n) h = rw (taken_pos config n) (omega arith)
taken_nonneg (some config) (negsuc n) h = absurd (omega (arith, h))

-- A royalty that `set_royalty` admits.
abbrev pub Capped : Option RoyaltyConfig → Type 0
Capped none = Unit
Capped (some config) = config.bps ≤ 10_000

pub taken_le :
    (r : Option RoyaltyConfig) (amount : ℤ) → Capped r → pos 1 ≤ℤ amount → taken r amount ≤ℤ amount
taken_le none amount k h = omega (arith, h)
taken_le (some config) (pos n) k h =
    let le = royalty_le n config.bps k in rw (taken_pos config n) (omega (arith, le))
taken_le (some config) (negsuc n) k h = absurd (omega (arith, h))
