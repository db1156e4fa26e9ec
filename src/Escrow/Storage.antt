-- ===== src/Escrow/Storage.antt =====
-- contracts/escrow/src/storage.rs: reads are functions of the store, and writes return the new one;
-- a write that can panic is a call. Entries do not expire here: `extend_ttl` keeps them alive.
use chain_verse_onchain.Common.{
  ℕ, ◌+◌, Bool, true, false, not, Option, some, List, [], ◌∷◌, ◌++◌, ℤ, pos, ◌+ℤ◌, ◌-ℤ◌, ltb_ℤ, ltb,
  u64_max, fit_i128, lookup, insert, nat_eq, or_default, ◌==◌, Env, Contract, pure, gets, modify,
  raise_if, panic_if, or_panic, ok_or, require_auth, ◌>>=◌, ◌>>◌,
}
use chain_verse_onchain.Escrow.Types.{Escrow, FeeRecord, EscrowError, unauthorized, Event, Store}

abbrev pub default_protocol_fee_bps : ℕ
default_protocol_fee_bps = 100

abbrev pub get_admin : Store → Option ℕ
get_admin s = s.admin

abbrev pub set_admin : ℕ → Store → Store
set_admin a s = record s { admin = some a }

abbrev pub get_arbiter : Store → Option ℕ
get_arbiter s = s.arbiter

abbrev pub set_arbiter : ℕ → Store → Store
set_arbiter a s = record s { arbiter = some a }

abbrev pub is_paused : Store → Bool
is_paused s = s.paused

abbrev pub set_paused : Bool → Store → Store
set_paused b s = record s { paused = b }

abbrev pub save_escrow : ℕ → Escrow → Store → Store
save_escrow id e s = record s { escrows = insert id e s.escrows }

abbrev pub load_escrow : ℕ → Store → Option Escrow
load_escrow id s = lookup id s.escrows

abbrev pub is_token_whitelisted : ℕ → Store → Bool
is_token_whitelisted t s = or_default false (lookup t s.whitelisted_tokens)

abbrev pub whitelist_token : ℕ → Store → Store
whitelist_token t s = record s { whitelisted_tokens = insert t true s.whitelisted_tokens }

abbrev pub get_protocol_fee : ℕ → Store → ℤ
get_protocol_fee t s = or_default (pos 0) (lookup t s.protocol_fees)

abbrev pub set_protocol_fee : ℕ → ℤ → Store → Store
set_protocol_fee t x s = record s { protocol_fees = insert t x s.protocol_fees }

abbrev pub clear_protocol_fee : ℕ → Store → Store
clear_protocol_fee t s = set_protocol_fee t (pos 0) s

-- `ids.push_back(id)`
abbrev push_id : ℕ → ℕ → List (ℕ × List ℕ) → List (ℕ × List ℕ)
push_id k id m = insert k (or_default [] (lookup k m) ++ (id ∷ [])) m

abbrev pub append_to_token_index : ℕ → ℕ → Store → Store
append_to_token_index t id s = record s { token_index = push_id t id s.token_index }

abbrev pub get_token_index : ℕ → Store → List ℕ
get_token_index t s = or_default [] (lookup t s.token_index)

abbrev pub append_to_buyer_index : ℕ → ℕ → Store → Store
append_to_buyer_index b id s = record s { buyer_index = push_id b id s.buyer_index }

abbrev pub get_buyer_index : ℕ → Store → List ℕ
get_buyer_index b s = or_default [] (lookup b s.buyer_index)

abbrev pub append_to_seller_index : ℕ → ℕ → Store → Store
append_to_seller_index b id s = record s { seller_index = push_id b id s.seller_index }

abbrev pub get_seller_index : ℕ → Store → List ℕ
get_seller_index b s = or_default [] (lookup b s.seller_index)

abbrev pub get_protocol_fee_bps : Store → ℕ
get_protocol_fee_bps s = or_default default_protocol_fee_bps s.fee_bps

abbrev pub set_protocol_fee_bps : ℕ → Store → Store
set_protocol_fee_bps b s = record s { fee_bps = some b }

abbrev pub append_fee_record : FeeRecord → Store → Store
append_fee_record r s = record s { fee_history = s.fee_history ++ (r ∷ []) }

-- The calls that read, test and write, over any token world.
module _ (W : Type 0) where
  abbrev pub Action : Type 0 → Type 0
  Action A = Contract W Store Event EscrowError A

module _ {W : Type 0} where
  abbrev pub require_admin : Env → Action W ℕ
  require_admin env = do
    admin ← gets get_admin
    a ← ok_or admin unauthorized
    require_auth env a
    pure a

  abbrev pub require_admin_addr : Env → ℕ → Action W (Unit {0})
  require_admin_addr env admin = do
    stored ← gets get_admin
    current ← ok_or stored unauthorized
    raise_if (not (current == admin)) unauthorized
    require_auth env admin

  abbrev pub next_escrow_id : Action W ℕ
  next_escrow_id = do
    count ← gets (λ s. s.escrow_count)
    panic_if (ltb u64_max (count + 1))
    modify (λ s. record s { escrow_count = count + 1 })
    pure (count + 1)

  abbrev pub add_to_total_volume : ℤ → Action W (Unit {0})
  add_to_total_volume amount = do
    volume ← gets (λ s. s.total_volume)
    sum ← or_panic (fit_i128 (volume +ℤ amount))
    modify (λ s. record s { total_volume = sum })

  abbrev pub accumulate_protocol_fee : ℕ → ℤ → Action W (Unit {0})
  accumulate_protocol_fee t fee = do
    current ← gets (get_protocol_fee t)
    sum ← or_panic (fit_i128 (current +ℤ fee))
    modify (set_protocol_fee t sum)

  abbrev pub decrement_protocol_fee : ℕ → ℤ → Action W ℤ
  decrement_protocol_fee t fee = do
    current ← gets (get_protocol_fee t)
    panic_if (ltb_ℤ current fee)
    remaining ← or_panic (fit_i128 (current -ℤ fee))
    modify (set_protocol_fee t remaining)
    pure remaining
