-- ===== src/Escrow/Creation.antt =====
-- contracts/escrow/src/create.rs: a new escrow, and its place in the indexes.
use chain_verse_onchain.Common.{
  ℕ, ◌+◌, ◌≡◌, none, some, List, [], ◌∷◌, ◌++◌, arith, ℤ, pos, ◌≤ℤ◌, i128_max, int_laws, lookup,
  insert, nat_eq, lookup-insert, sum_by, sum_by-insert, ◌==◌, if◌then◌else◌, TokenClient, Env, done,
  or_default,
}
use chain_verse_onchain.Escrow.Types.{created, Escrow}
use chain_verse_onchain.Escrow.Storage.{
  load_escrow, get_token_index, get_buyer_index, get_seller_index,
}
use chain_verse_onchain.Escrow.Calls.{create_escrow}
use chain_verse_onchain.Escrow.Invariant.{State, IsValid, locked}

pushed :
    (a k id : ℕ) (m : List (ℕ × List ℕ))
    → or_default [] (lookup k (insert a (or_default [] (lookup a m) ++ (id ∷ [])) m))
      ≡ (if a == k then or_default [] (lookup k m) ++ (id ∷ []) else or_default [] (lookup k m))
pushed a k id m = ground (arith, lookup-insert a k (or_default [] (lookup a m) ++ (id ∷ [])) m)

module _ (client : TokenClient) (env : Env) where
  open client use {balance}

  abbrev Self : Type 0
  Self = State client env.current_contract

  module _ (buyer seller token : ℕ) (amount : ℤ) (expiration : ℕ) where
    abbrev pub new_escrow : Escrow
    new_escrow = record {
      buyer = buyer;
      seller = seller;
      token = token;
      amount = amount;
      original_amount = amount;
      status = created;
      expiration = expiration;
    }

    created_as :
        (id : ℕ) (c d : Self)
        → create_escrow client env buyer seller token amount expiration c ≡ done (id, d)
        → (id ≡ c.store.escrow_count + 1)
          × (d.store.escrow_count ≡ c.store.escrow_count + 1)
          × (d.store.escrows ≡ insert id new_escrow c.store.escrows)
          × (d.store.protocol_fees ≡ c.store.protocol_fees)
          × (d.tokens ≡ c.tokens)
          × (pos 1 ≤ℤ amount)
    unfolding create_escrow
    created_as id c d h = ground arith

    -- An unfunded escrow locks nothing.
    created_sum :
        (t id : ℕ) (m : List (ℕ × Escrow))
        → lookup id m ≡ none
        → sum_by (locked t) (insert id new_escrow m) ≡ sum_by (locked t) m
    created_sum t id m h = grind (int_laws, sum_by-insert (locked t) id new_escrow m)

    -- A creation that succeeds keeps the invariant, for an amount that is an `i128`.
    pub create-IsValid :
        (id : ℕ) (c d : Self)
        → amount ≤ℤ i128_max
        → IsValid client env.current_contract c
        → create_escrow client env buyer seller token amount expiration c ≡ done (id, d)
        → IsValid client env.current_contract d
    create-IsValid id c d fits v h =
        let (i, n, m, f, w, lo) = created_as id c d h in
        let new : load_escrow id c.store ≡ none = v.fresh id (omega arith) in
        record {
          solvent = λ t. rw (m, f, w, created_sum t id c.store.escrows new) (v.solvent t);
          fees_nonneg = λ t. rw f (v.fees_nonneg t);
          well_formed = λ j e k.
              ground (arith, m, lookup-insert id j new_escrow c.store.escrows, v.well_formed j e);
          fresh = λ j k.
              ground (arith, m, n, i, lookup-insert id j new_escrow c.store.escrows, v.fresh j);
        }

    -- What a creation that succeeds adds to the escrows.
    pub create_opens :
        (id : ℕ) (c d : Self)
        → IsValid client env.current_contract c
        → create_escrow client env buyer seller token amount expiration c ≡ done (id, d)
        → (load_escrow id c.store ≡ none) × (d.store.escrows ≡ insert id new_escrow c.store.escrows)
    create_opens id c d v h =
        let (i, n, m, f, w, lo) = created_as id c d h in (v.fresh id (omega arith), m)

    created_indexes :
        (id : ℕ) (c d : Self)
        → create_escrow client env buyer seller token amount expiration c ≡ done (id, d)
        → (d.store.token_index
            ≡ insert token (get_token_index token c.store ++ (id ∷ [])) c.store.token_index)
          × (d.store.buyer_index
              ≡ insert buyer (get_buyer_index buyer c.store ++ (id ∷ [])) c.store.buyer_index)
          × (d.store.seller_index
              ≡ insert seller (get_seller_index seller c.store ++ (id ∷ [])) c.store.seller_index)
    unfolding create_escrow
    created_indexes id c d h = ground arith

    -- A creation that succeeds returns an id that was not in use, stores the escrow under it as it was
    -- asked for and unfunded, leaves every other escrow, adds the id at the end of its token's, its
    -- buyer's and its seller's index, and leaves every other index.
    pub create_indexed :
        (id j k : ℕ) (c d : Self)
        → IsValid client env.current_contract c
        → create_escrow client env buyer seller token amount expiration c ≡ done (id, d)
        → (load_escrow id c.store ≡ none)
          × (load_escrow j d.store ≡ (if id == j then some new_escrow else load_escrow j c.store))
          × (get_token_index k d.store ≡ (
              if token == k
              then get_token_index k c.store ++ (id ∷ [])
              else get_token_index k c.store))
          × (get_buyer_index k d.store ≡ (
              if buyer == k
              then get_buyer_index k c.store ++ (id ∷ [])
              else get_buyer_index k c.store))
          × (get_seller_index k d.store ≡ (
              if seller == k
              then get_seller_index k c.store ++ (id ∷ [])
              else get_seller_index k c.store))
    create_indexed id j k c d v h =
        let (i, n, m, f, w, lo) = created_as id c d h in
        let (t, b, s) = created_indexes id c d h in
        (
          v.fresh id (omega arith),
          rw m (lookup-insert id j new_escrow c.store.escrows),
          rw t (pushed token k id c.store.token_index),
          rw b (pushed buyer k id c.store.buyer_index),
          rw s (pushed seller k id c.store.seller_index),
        )
