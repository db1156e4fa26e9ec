-- ===== src/Escrow/Invariant.antt =====
-- The invariant of the escrow contract, and why a settlement keeps it.
use chain_verse_onchain.Common.{
  ℕ, ◌<◌, ◌≡◌, refl, Bool, true, false, List, or_default, none, some, arith, ℤ, pos, ◌+ℤ◌, ◌≤ℤ◌,
  i128_max, int_laws, lookup, insert, nat_eq, sum_by, sum_by-insert, lookup-insert, ◌==◌,
  if◌then◌else◌, Chain, TokenClient,
}
use chain_verse_onchain.Escrow.Types.{
  EscrowStatus, created, funded, completed, cancelled, disputed, Escrow, Store, Event,
}
use chain_verse_onchain.Escrow.Storage.{load_escrow, get_protocol_fee}

-- Whether the contract holds the tokens of an escrow in this state.
abbrev pub is_locked : EscrowStatus → Bool
is_locked funded = true
is_locked disputed = true
is_locked _ = false

-- What an escrow locks, and what it locks of the token `t`.
abbrev pub locked_amount : Escrow → ℤ
locked_amount e = if is_locked e.status then e.amount else pos 0

abbrev pub locked : ℕ → ℕ → Escrow → ℤ
locked t id e = if e.token == t then locked_amount e else pos 0

-- What the contract owes in the token `t`: the locked amounts and the accrued fees.
abbrev pub liabilities : ℕ → Store → ℤ
liabilities t s = sum_by (locked t) s.escrows +ℤ get_protocol_fee t s

-- An escrow's amounts fit its state.
abbrev pub AmountFits : EscrowStatus → ℤ → ℤ → Type 0
AmountFits created a o = a ≡ o
AmountFits funded a o = (pos 1 ≤ℤ a) × (a ≤ℤ o)
AmountFits disputed a o = (pos 1 ≤ℤ a) × (a ≤ℤ o)
AmountFits completed a o = a ≡ pos 0
AmountFits cancelled a o = a ≡ pos 0

abbrev pub WellFormed : Escrow → Type 0
WellFormed e =
    AmountFits e.status e.amount e.original_amount
    × (pos 1 ≤ℤ e.original_amount)
    × (e.original_amount ≤ℤ i128_max)

-- The sum over the books: `l` is released from the locked amounts, and covers the fee and the
-- payment.
books_balance :
    (s s' l l' f f' b b' fee out : ℤ)
    → s' +ℤ l ≡ s +ℤ l'
    → f' ≡ f +ℤ fee
    → b ≤ℤ b' +ℤ out
    → l' +ℤ fee +ℤ out ≤ℤ l
    → s +ℤ f ≤ℤ b
    → s' +ℤ f' ≤ℤ b'
books_balance s s' l l' f f' b b' fee out p q r u h = grind int_laws

-- The same books as an equation.
regroup :
    (s s' l l' f f' fee : ℤ)
    → s' +ℤ l ≡ s +ℤ l'
    → f' ≡ f +ℤ fee
    → s' +ℤ f' +ℤ l ≡ s +ℤ f +ℤ l' +ℤ fee
regroup s s' l l' f f' fee p q = grind int_laws

own_token :
    (t id : ℕ) (e e' : Escrow) (m : List (ℕ × Escrow))
    → e.token ≡ t
    → e'.token ≡ e.token
    → lookup id m ≡ some e
    → sum_by (locked t) (insert id e' m) +ℤ locked_amount e
      ≡ sum_by (locked t) m +ℤ locked_amount e'
own_token t id e e' m p q was =
    let sums : sum_by (locked t) (insert id e' m) +ℤ locked t id e
        ≡ sum_by (locked t) m +ℤ locked t id e' =
      rw was at (sum_by-insert (locked t) id e' m) in
    ground (arith, sums)

own_fee : (t : ℕ) (fee f g : ℤ) → g ≡ f +ℤ (if t == t then fee else pos 0) → g ≡ f +ℤ fee
own_fee t fee f g h = ground arith

-- Cover in the escrow's own token is cover in every token.
covered_if :
    (b : Bool) (x fee out y : ℤ)
    → x +ℤ fee +ℤ out ≤ℤ y
    → (if b then x else pos 0) +ℤ (if b then fee else pos 0) +ℤ (if b then out else pos 0)
      ≤ℤ (if b then y else pos 0)
covered_if true x fee out y h = h
covered_if false x fee out y h = omega int_laws

-- The fee pools after `fee` is accrued in the token `k`.
pub fee_after :
    (k t : ℕ) (fee : ℤ) (m : List (ℕ × ℤ))
    → or_default (pos 0) (lookup t (insert k (or_default (pos 0) (lookup k m) +ℤ fee) m))
      ≡ or_default (pos 0) (lookup t m) +ℤ (if k == t then fee else pos 0)
fee_after k t fee m = grind (int_laws, lookup-insert k t (or_default (pos 0) (lookup k m) +ℤ fee) m)

-- The moves of the state graph in contracts/escrow/README.md. A partial release may leave an escrow
-- funded.
abbrev pub Allowed : EscrowStatus → EscrowStatus → Type 0
Allowed created funded = Unit
Allowed funded funded = Unit
Allowed funded completed = Unit
Allowed funded disputed = Unit
Allowed funded cancelled = Unit
Allowed disputed completed = Unit
Allowed _ _ = ⊥

-- From `e` to `e'` the state moves along the graph, the locked amount does not grow, and the parties,
-- the token, the original amount and the deadline stay.
pub record Moves (e e' : Escrow) : Type 0 where
  pub allowed : Allowed e.status e'.status
  pub shrinks : e'.amount ≤ℤ e.amount
  pub same_buyer : e'.buyer ≡ e.buyer
  pub same_seller : e'.seller ≡ e.seller
  pub same_token : e'.token ≡ e.token
  pub same_original : e'.original_amount ≡ e.original_amount
  pub same_expiration : e'.expiration ≡ e.expiration

module _ (client : TokenClient) (self : ℕ) where
  open client use {World, balance}

  abbrev pub State : Type 0
  State = Chain World Store Event

  pub record IsValid (c : State) : Type 0 where
    pub solvent : (t : ℕ) → liabilities t c.store ≤ℤ balance c.tokens t self
    pub fees_nonneg : (t : ℕ) → pos 0 ≤ℤ get_protocol_fee t c.store
    pub well_formed : (id : ℕ) (e : Escrow) → load_escrow id c.store ≡ some e → WellFormed e
    pub fresh : (id : ℕ) → c.store.escrow_count < id → load_escrow id c.store ≡ none

  -- From `c` to `d` the escrow `id` changes from `e` to `e'`, `fee` is accrued in its token and at
  -- most `out` leaves the contract.
  pub record Settles (c d : State) (id : ℕ) (e e' : Escrow) (fee out : ℤ) : Type 0 where
    pub was : load_escrow id c.store ≡ some e
    pub now : d.store.escrows ≡ insert id e' c.store.escrows
    pub count : d.store.escrow_count ≡ c.store.escrow_count
    pub moves : Moves e e'
    pub fee_nonneg : pos 0 ≤ℤ fee
    pub fees :
        (t : ℕ)
        → get_protocol_fee t d.store
          ≡ get_protocol_fee t c.store +ℤ (if e.token == t then fee else pos 0)
    pub paid :
        (t : ℕ)
        → balance c.tokens t self
          ≤ℤ balance d.tokens t self +ℤ (if e.token == t then out else pos 0)
    pub covered : locked_amount e' +ℤ fee +ℤ out ≤ℤ locked_amount e
    pub keeps : WellFormed e'

  Settles-solvent :
      (c d : State) (id : ℕ) (e e' : Escrow) (fee out : ℤ)
      → Settles c d id e e' fee out
      → (t : ℕ) → liabilities t c.store ≤ℤ balance c.tokens t self
      → liabilities t d.store ≤ℤ balance d.tokens t self
  Settles-solvent c d id e e' fee out s t h =
      books_balance (sum_by (locked t) c.store.escrows) _ (locked t id e) (locked t id e')
        (get_protocol_fee t c.store) _ (balance c.tokens t self) _ _ _
        (rw s.now (rw s.was at (sum_by-insert (locked t) id e' c.store.escrows))) (s.fees t)
        (s.paid t)
        (rw s.moves.same_token
          (covered_if (e.token == t) (locked_amount e') fee out (locked_amount e) s.covered))
        h

  -- What a settlement takes off the books of the escrow's token.
  pub Settles-liabilities :
      (c d : State) (id : ℕ) (e e' : Escrow) (fee out : ℤ)
      → Settles c d id e e' fee out
      → liabilities e.token d.store +ℤ locked_amount e
        ≡ liabilities e.token c.store +ℤ locked_amount e' +ℤ fee
  Settles-liabilities c d id e e' fee out s =
      regroup (sum_by (locked e.token) c.store.escrows) (sum_by (locked e.token) d.store.escrows) _
        _ (get_protocol_fee e.token c.store) (get_protocol_fee e.token d.store) fee
        (rw s.now (own_token e.token id e e' c.store.escrows refl s.moves.same_token s.was))
        (own_fee e.token fee _ _ (s.fees e.token))

  Settles-fees :
      (c d : State) (id : ℕ) (e e' : Escrow) (fee out : ℤ)
      → Settles c d id e e' fee out
      → (t : ℕ) → pos 0 ≤ℤ get_protocol_fee t c.store
      → pos 0 ≤ℤ get_protocol_fee t d.store
  Settles-fees c d id e e' fee out s t h = grind (int_laws, s.fees t, s.fee_nonneg)

  -- A settlement keeps the invariant.
  pub Settles-IsValid :
      (c d : State) (id : ℕ) (e e' : Escrow) (fee out : ℤ)
      → Settles c d id e e' fee out
      → IsValid c
      → IsValid d
  Settles-IsValid c d id e e' fee out s v = record {
    solvent = λ t. Settles-solvent c d id e e' fee out s t (v.solvent t);
    fees_nonneg = λ t. Settles-fees c d id e e' fee out s t (v.fees_nonneg t);
    well_formed = λ j f h.
        ground (arith, s.now, s.keeps, lookup-insert id j e' c.store.escrows, v.well_formed j f);
    fresh = λ j h.
        ground (arith, s.now, s.count, s.was, lookup-insert id j e' c.store.escrows, v.fresh j);
  }

  -- One escrow was settled, and nothing else.
  abbrev pub Settled : State → State → Type 0
  Settled c d = (id : ℕ) × (e e' : Escrow) × (fee out : ℤ) × Settles c d id e e' fee out

  pub Settled-IsValid : (c d : State) → Settled c d → IsValid c → IsValid d
  Settled-IsValid c d (id, e, e', fee, out, s) v = Settles-IsValid c d id e e' fee out s v
