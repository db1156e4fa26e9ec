-- ===== src/ScholarshipDisbursements.antt =====
-- contracts/scholarship-disbursements/src/lib.rs: payment intents for the installments of an award, and proofs
-- that a recipient controls the payout wallet. Extensions of a time to live are left out.
pub mod Calls
pub mod Effects
pub mod Creation
pub mod Challenges
pub mod Histories
pub mod Soundness
pub mod Progress
mod Tests
use chain_verse_onchain.Common.{
  ℕ, Bool, true, false, ◌&&◌, Option, none, some, List, [], ◌∷◌, ◌++◌, ℤ, ◌==◌, lookup, insert,
  nat_eq, or_default, Result, ok, err, if◌then◌else◌,
}
use chain_verse_onchain.Signing.{Crypto}
use chain_verse_onchain.Signing.Bytes.{to_be_bytes, to_array}

abbrev pub max_challenge_ttl_seconds : ℕ
max_challenge_ttl_seconds = 86_400

abbrev pub intent_domain_tag : List ℕ
intent_domain_tag =
    67 ∷ 104 ∷ 97 ∷ 105 ∷ 110 ∷ 86 ∷ 101 ∷ 114 ∷ 115 ∷ 101 ∷ 46 ∷ 83 ∷ 99 ∷ 104 ∷ 111 ∷ 108 ∷ 97
    ∷ 114 ∷ 115 ∷ 104 ∷ 105 ∷ 112 ∷ 46 ∷ 68 ∷ 105 ∷ 115 ∷ 98 ∷ 117 ∷ 114 ∷ 115 ∷ 101 ∷ 109 ∷ 101
    ∷ 110 ∷ 116 ∷ 73 ∷ 110 ∷ 116 ∷ 101 ∷ 110 ∷ 116 ∷ []

abbrev pub wallet_proof_domain_tag : List ℕ
wallet_proof_domain_tag =
    67 ∷ 104 ∷ 97 ∷ 105 ∷ 110 ∷ 86 ∷ 101 ∷ 114 ∷ 115 ∷ 101 ∷ 46 ∷ 83 ∷ 99 ∷ 104 ∷ 111 ∷ 108 ∷ 97
    ∷ 114 ∷ 115 ∷ 104 ∷ 105 ∷ 112 ∷ 46 ∷ 80 ∷ 97 ∷ 121 ∷ 111 ∷ 117 ∷ 116 ∷ 87 ∷ 97 ∷ 108 ∷ 108 ∷ 101
    ∷ 116 ∷ []

pub data ContractError : Type 0 where
  not_initialized already_initialized not_admin not_authorized_creator invalid_amount :
      ContractError
  wallet_not_found wallet_key_not_found challenge_not_found challenge_expired : ContractError
  challenge_already_used challenge_wallet_mismatch invalid_signature intent_not_found :
      ContractError
  intent_conflict already_executed intent_on_hold wallet_mismatch wallet_key_mismatch :
      ContractError
  invalid_challenge_ttl overflow already_cancelled : ContractError

pub record PayoutWallet : Type 0 where
  pub wallet : ℕ
  pub verified : Bool
  pub epoch : ℕ
  pub updated_at : ℕ

pub record WalletChallenge : Type 0 where
  pub id : ℕ
  pub recipient : ℕ
  pub wallet : ℕ
  pub expires_at : ℕ
  pub used : Bool
  pub created_at : ℕ

pub data IntentStatus : Type 0 where
  pending executed cancelled : IntentStatus

pub record DisbursementIntent : Type 0 where
  pub id : ℕ
  pub program_id : ℕ
  pub recipient : ℕ
  pub wallet : ℕ
  pub amount : ℤ
  pub installment : ℕ
  pub wallet_epoch : ℕ
  pub created_at : ℕ
  pub created_by : ℕ
  pub status : IntentStatus
  pub executed_at : ℕ

-- One field for each `DataKey`.
pub record Store : Type 0 where
  pub admin : Option ℕ
  pub network_id : Option ℕ
  pub creators : List (ℕ × Bool)
  pub wallet_keys : List (ℕ × ℕ)
  pub wallet_bindings : List (ℕ × PayoutWallet)
  pub challenge_counter : Option ℕ
  pub challenges : List (ℕ × WalletChallenge)
  pub intents : List (ℕ × DisbursementIntent)

pub data Event : Type 0 where
  wallkey : (wallet : ℕ) → Event
  wallset : (recipient wallet epoch : ℕ) → Event
  wchalnge : (id recipient wallet expires_at : ℕ) → Event
  wallverf : (challenge_id recipient wallet : ℕ) → Event
  intentnw : (id recipient : ℕ) (amount : ℤ) → Event
  intentex : (id : ℕ) → Event
  intentcn : (id : ℕ) → Event

-- The signature scheme: a key read from its bytes, and the strict check of a signature.
pub record Ed25519 : Type 1 where
  pub VerifyingKey : Type 0
  pub from_bytes : ℕ → Option VerifyingKey
  pub verify_strict : VerifyingKey → (payload signature : ℕ) → Bool

unfoldable pub verify_ed25519 :
    (scheme : Ed25519) → (pubkey payload signature : ℕ) → Result ContractError (Unit {0})
verify_ed25519 scheme pubkey payload signature = elim (scheme.from_bytes pubkey) [
  | none ↦ err invalid_signature
  | some k ↦ if scheme.verify_strict k payload signature then ok tt else err invalid_signature
]

abbrev pub is_authorized_creator : (creator : ℕ) → Store → Bool
is_authorized_creator creator s = or_default false (lookup creator s.creators)

abbrev pub load_binding : (recipient : ℕ) → Store → Option PayoutWallet
load_binding recipient s = lookup recipient s.wallet_bindings

abbrev pub save_binding : (recipient : ℕ) → PayoutWallet → Store → Store
save_binding recipient binding s = record s {
  wallet_bindings = insert recipient binding s.wallet_bindings;
}

abbrev pub load_challenge : (challenge_id : ℕ) → Store → Option WalletChallenge
load_challenge challenge_id s = lookup challenge_id s.challenges

abbrev pub get_intent : (intent_id : ℕ) → Store → Option DisbursementIntent
get_intent intent_id s = lookup intent_id s.intents

abbrev pub save_intent : DisbursementIntent → (intent_id : ℕ) → Store → Store
save_intent intent intent_id s = record s { intents = insert intent_id intent s.intents }

abbrev pub is_pending : IntentStatus → Bool
is_pending pending = true
is_pending executed = false
is_pending cancelled = false

-- The wallet of a binding is the verified target of an intent.
abbrev pub targets : DisbursementIntent → Option PayoutWallet → Bool
targets i none = false
targets i (some b) = b.verified && (b.epoch == i.wallet_epoch) && (b.wallet == i.wallet)

abbrev pub is_executable : Option DisbursementIntent → Store → Bool
is_executable none s = false
is_executable (some i) s = is_pending i.status && targets i (load_binding i.recipient s)

abbrev pub is_intent_executable : (intent_id : ℕ) → Store → Bool
is_intent_executable intent_id s = is_executable (get_intent intent_id s) s

abbrev pub challenge_body : Crypto → WalletChallenge → List ℕ
challenge_body crypto challenge =
    wallet_proof_domain_tag
    ++ to_be_bytes 8 challenge.id
    ++ crypto.address_xdr challenge.recipient
    ++ crypto.address_xdr challenge.wallet
    ++ to_be_bytes 8 challenge.expires_at

abbrev pub challenge_body_hash : Crypto → WalletChallenge → ℕ
challenge_body_hash crypto challenge = crypto.sha256 (challenge_body crypto challenge)

abbrev pub intent_preimage : Crypto → (program_id recipient installment : ℕ) → List ℕ
intent_preimage crypto program_id recipient installment =
    intent_domain_tag
    ++ to_array program_id
    ++ crypto.address_xdr recipient
    ++ to_be_bytes 4 installment

abbrev pub derive_intent_id : Crypto → (program_id recipient installment : ℕ) → ℕ
derive_intent_id crypto program_id recipient installment =
    crypto.sha256 (intent_preimage crypto program_id recipient installment)
