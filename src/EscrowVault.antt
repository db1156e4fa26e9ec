-- ===== src/EscrowVault.antt =====
-- contracts/escrow-vault/src/lib.rs: vaults that a threshold of approvers releases. The hash that
-- names a vault is a parameter, of the nonce, the timestamp and the depositor that it is taken of.
pub mod Votes
pub mod Calls
pub mod Invariant
pub mod Approvals
pub mod Creation
pub mod Histories
mod Tests
use chain_verse_onchain.Common.{
  ℕ, ◌+◌, ◌-◌, Bool, true, false, ◌||◌, Option, none, some, List, [], ◌∷◌, ℤ, leb, u64_max, ltb,
  lookup, insert, erase, nat_eq, pair_eq, is_some, ◌==◌, if◌then◌else◌,
}

pub data VaultError : Type 0 where
  not_found not_pending unauthorized already_voted empty_approvers : VaultError
  duplicate_approver invalid_amount already_initialized not_initialized : VaultError
  conflict_of_interest not_voted invalid_threshold threshold_exceeds_approvers : VaultError

pub data VaultStatus : Type 0 where
  pending released cancelled : VaultStatus

abbrev pub is_pending : VaultStatus → Bool
is_pending pending = true
is_pending _ = false

pub record Vault : Type 0 where
  pub depositor : ℕ
  pub recipient : ℕ
  pub token : ℕ
  pub amount : ℤ
  pub approvers : List ℕ
  pub approvals : ℕ
  pub threshold : ℕ
  pub status : VaultStatus

-- One field for each `DataKey` and for `VotedKey`, and the code that the contract runs.
pub record Store : Type 0 where
  pub admin : Option ℕ
  pub vaults : List (ℕ × Vault)
  pub vault_count : ℕ
  pub votes : List ((ℕ × ℕ) × Bool)
  pub wasm_hash : ℕ

pub data Event : Type 0 where
  upgraded : (new_wasm_hash : ℕ) → Event
  vault_new : (id depositor : ℕ) (amount : ℤ) → Event
  emrg_cncl : (vault_id reason : ℕ) → Event

-- `list.contains(&a)`
abbrev pub contains : ℕ → List ℕ → Bool
contains a [] = false
contains a (b ∷ list) = (b == a) || contains a list

-- The test of `create_vault` that compares every two approvers.
abbrev pub has_duplicate : List ℕ → Bool
has_duplicate [] = false
has_duplicate (a ∷ list) = contains a list || has_duplicate list

-- The loop of `deduplicate`, with the addresses seen so far.
abbrev pub unseen : (seen list : List ℕ) → List ℕ
unseen seen [] = []
unseen seen (a ∷ list) = elim (contains a seen) [
  | true ↦ unseen seen list
  | false ↦ a ∷ unseen (a ∷ seen) list
]

abbrev pub deduplicate : List ℕ → List ℕ
deduplicate list = unseen [] list

abbrev pub load_vault : ℕ → Store → Option Vault
load_vault id s = lookup id s.vaults

abbrev pub save_vault : ℕ → Vault → Store → Store
save_vault id v s = record s { vaults = insert id v s.vaults }

-- `has(&VotedKey::Voted(id, a))`
abbrev pub has_voted : (id a : ℕ) → Store → Bool
has_voted id a s = is_some (lookup (id, a) s.votes)

abbrev pub set_vote : (id a : ℕ) → Store → Store
set_vote id a s = record s { votes = insert (id, a) true s.votes }

abbrev pub remove_vote : (id a : ℕ) → Store → Store
remove_vote id a s = record s { votes = erase (id, a) s.votes }
