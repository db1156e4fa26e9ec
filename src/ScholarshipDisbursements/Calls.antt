-- ===== src/ScholarshipDisbursements/Calls.antt =====
-- contracts/scholarship-disbursements/src/lib.rs: the entry points.
use chain_verse_onchain.Common.{
  ℕ, ◌+◌, Bool, true, false, not, ◌&&◌, ◌||◌, Option, none, some, ℤ, pos, leb_ℤ, eq_ℤ, ltb, leb,
  u64_max, u32_max, is_some, or_default, insert, lookup, nat_eq, ◌==◌, Env, Contract, Result, ok,
  err, pure, gets, modify, emit, raise_if, ok_or, lift, require_auth, ◌>>=◌, ◌>>◌,
}
use chain_verse_onchain.Signing.{
  Crypto, SigningDomain, envelope_version, payout_wallet_proof, signing_payload,
}
use chain_verse_onchain.ScholarshipDisbursements.{
  max_challenge_ttl_seconds, ContractError, not_initialized, already_initialized, not_admin,
  not_authorized_creator, invalid_amount, wallet_not_found, wallet_key_not_found,
  challenge_not_found, challenge_expired, challenge_already_used, challenge_wallet_mismatch,
  invalid_signature, intent_not_found, intent_conflict, already_executed, intent_on_hold,
  wallet_mismatch, wallet_key_mismatch, invalid_challenge_ttl, overflow, already_cancelled,
  PayoutWallet, IntentStatus, pending, executed, cancelled, DisbursementIntent, Store, Event,
  wallkey, wallset, wchalnge, wallverf, intentnw, intentex, intentcn, Ed25519, verify_ed25519,
  is_authorized_creator, load_binding, save_binding, load_challenge, get_intent, save_intent,
  is_intent_executable, challenge_body_hash, derive_intent_id,
}

abbrev pub Call : Type 0 → Type 0
Call A = Contract (Unit {0}) Store Event ContractError A

unfoldable pub initialize : Env → (admin network_id : ℕ) → Call (Unit {0})
initialize env admin network_id = do
  stored ← gets (λ s. s.admin)
  raise_if (is_some stored) already_initialized
  require_auth env admin
  modify (λ s. record s { admin = some admin })
  modify (λ s. record s { network_id = some network_id })

abbrev pub require_admin : Env → (caller : ℕ) → Call (Unit {0})
require_admin env caller = do
  stored ← gets (λ s. s.admin)
  admin ← ok_or stored not_initialized
  raise_if (not (caller == admin)) not_admin
  require_auth env caller

abbrev pub require_creator_or_admin : Env → (caller : ℕ) → Call (Unit {0})
require_creator_or_admin env caller = do
  stored ← gets (λ s. s.admin)
  admin ← ok_or stored not_initialized
  is_creator ← gets (is_authorized_creator caller)
  raise_if (not ((caller == admin) || is_creator)) not_authorized_creator
  require_auth env caller

unfoldable pub add_creator : Env → (admin creator : ℕ) → Call (Unit {0})
add_creator env admin creator = do
  require_admin env admin
  modify (λ s. record s { creators = insert creator true s.creators })

unfoldable pub remove_creator : Env → (admin creator : ℕ) → Call (Unit {0})
remove_creator env admin creator = do
  require_admin env admin
  modify (λ s. record s { creators = insert creator false s.creators })

unfoldable pub register_wallet_key : Env → (wallet pubkey : ℕ) → Call (Unit {0})
register_wallet_key env wallet pubkey = do
  require_auth env wallet
  modify (λ s. record s { wallet_keys = insert wallet pubkey s.wallet_keys })
  emit (wallkey wallet)

abbrev pub epoch_of : Option PayoutWallet → ℕ
epoch_of none = 0
epoch_of (some b) = b.epoch

unfoldable pub set_payout_wallet : Env → (recipient wallet : ℕ) → Call (Unit {0})
set_payout_wallet env recipient wallet = do
  require_auth env recipient
  old ← gets (load_binding recipient)
  raise_if (ltb u32_max (epoch_of old + 1)) overflow
  modify (
      save_binding recipient (record {
        wallet = wallet;
        verified = false;
        epoch = epoch_of old + 1;
        updated_at = env.timestamp;
      }))
  emit (wallset recipient wallet (epoch_of old + 1))

abbrev wallet_proof_domain : Env → Call SigningDomain
wallet_proof_domain env = do
  stored ← gets (λ s. s.network_id)
  network_id ← ok_or stored not_initialized
  pure (record {
    version = envelope_version;
    network_id = network_id;
    contract = env.current_contract;
    message_type = payout_wallet_proof;
  })

unfoldable pub open_wallet_challenge : Env → (recipient wallet ttl_seconds : ℕ) → Call ℕ
open_wallet_challenge env recipient wallet ttl_seconds = do
  require_auth env recipient
  raise_if ((ttl_seconds == 0) || ltb max_challenge_ttl_seconds ttl_seconds) invalid_challenge_ttl
  found ← gets (load_binding recipient)
  binding ← ok_or found wallet_not_found
  raise_if (not (binding.wallet == wallet)) wallet_mismatch
  raise_if (ltb u64_max (env.timestamp + ttl_seconds)) overflow
  counter ← gets (λ s. s.challenge_counter)
  raise_if (ltb u64_max (or_default 0 counter + 1)) overflow
  modify (λ s. record s { challenge_counter = some (or_default 0 counter + 1) })
  modify (λ s. record s {
    challenges =
        insert (or_default 0 counter)
          (record {
            id = or_default 0 counter;
            recipient = recipient;
            wallet = wallet;
            expires_at = env.timestamp + ttl_seconds;
            used = false;
            created_at = env.timestamp;
          })
          s.challenges;
  })
  emit (wchalnge (or_default 0 counter) recipient wallet (env.timestamp + ttl_seconds))
  pure (or_default 0 counter)

-- `.map_err(|_| ContractError::InvalidSignature)`
abbrev or_invalid_signature : {E : Type 0} → Result E ℕ → Result ContractError ℕ
or_invalid_signature (ok payload) = ok payload
or_invalid_signature (err e) = err invalid_signature

module _ (crypto : Crypto) (scheme : Ed25519) where
  unfoldable pub confirm_wallet_challenge :
      Env → (challenge_id pubkey signature : ℕ) → Call (Unit {0})
  confirm_wallet_challenge env challenge_id pubkey signature = do
    found ← gets (load_challenge challenge_id)
    challenge ← ok_or found challenge_not_found
    raise_if challenge.used challenge_already_used
    raise_if (leb challenge.expires_at env.timestamp) challenge_expired
    bound ← gets (load_binding challenge.recipient)
    binding ← ok_or bound wallet_not_found
    raise_if (not (binding.wallet == challenge.wallet)) challenge_wallet_mismatch
    key ← gets (λ s. lookup challenge.wallet s.wallet_keys)
    registered ← ok_or key wallet_key_not_found
    raise_if (not (registered == pubkey)) wallet_key_mismatch
    domain ← wallet_proof_domain env
    payload ← lift (
        or_invalid_signature (signing_payload crypto domain (challenge_body_hash crypto challenge)))
    lift (verify_ed25519 scheme pubkey payload signature)
    modify (λ s. record s {
      challenges = insert challenge_id (record challenge { used = true }) s.challenges;
    })
    modify (
        save_binding challenge.recipient
          (record binding { verified = true; updated_at = env.timestamp }))
    emit (wallverf challenge_id challenge.recipient challenge.wallet)

-- An intent that is stored has the fields that are asked for.
abbrev pub agrees :
    DisbursementIntent → (program_id recipient wallet : ℕ) → (amount : ℤ) → (installment : ℕ) → Bool
agrees existing program_id recipient wallet amount installment =
    (existing.program_id == program_id)
    && (existing.recipient == recipient)
    && (existing.wallet == wallet)
    && eq_ℤ existing.amount amount
    && (existing.installment == installment)

-- The end of `create_intent`: the intent that is stored is kept, or a new one is stored.
abbrev pub settle :
    Option DisbursementIntent
    → (recipient : ℕ) → (amount : ℤ) → Bool
    → DisbursementIntent
    → (id : ℕ) → Call ℕ
settle none recipient amount same intent id = do
  modify (save_intent intent id)
  emit (intentnw id recipient amount)
  pure id
settle (some existing) recipient amount same intent id = do
  raise_if (not same) intent_conflict
  pure id

abbrev pub same_intent :
    Option DisbursementIntent
    → (program_id recipient wallet : ℕ) → (amount : ℤ) → (installment : ℕ) → Bool
same_intent none program_id recipient wallet amount installment = false
same_intent (some existing) program_id recipient wallet amount installment =
    agrees existing program_id recipient wallet amount installment

module _ (crypto : Crypto) where
  -- The intent that a creation stores.
  abbrev pub new_intent :
      Env
      → (creator program_id recipient : ℕ) → (amount : ℤ) → (installment : ℕ) → PayoutWallet
      → DisbursementIntent
  new_intent env creator program_id recipient amount installment binding = record {
    id = derive_intent_id crypto program_id recipient installment;
    program_id = program_id;
    recipient = recipient;
    wallet = binding.wallet;
    amount = amount;
    installment = installment;
    wallet_epoch = binding.epoch;
    created_at = env.timestamp;
    created_by = creator;
    status = pending;
    executed_at = 0;
  }

  unfoldable pub create_intent :
      Env → (creator program_id recipient : ℕ) → (amount : ℤ) → (installment : ℕ) → Call ℕ
  create_intent env creator program_id recipient amount installment = do
    require_creator_or_admin env creator
    raise_if (leb_ℤ amount (pos 0)) invalid_amount
    found ← gets (load_binding recipient)
    binding ← ok_or found wallet_not_found
    existing ← gets (get_intent (derive_intent_id crypto program_id recipient installment))
    settle existing recipient amount
        (same_intent existing program_id recipient binding.wallet amount installment)
        (new_intent env creator program_id recipient amount installment binding)
        (derive_intent_id crypto program_id recipient installment)

-- `match intent.status` with its early returns.
abbrev pub check_pending : IntentStatus → Result ContractError (Unit {0})
check_pending pending = ok tt
check_pending executed = err already_executed
check_pending cancelled = err already_cancelled

unfoldable pub record_execution : Env → (executor intent_id : ℕ) → Call (Unit {0})
record_execution env executor intent_id = do
  require_creator_or_admin env executor
  found ← gets (get_intent intent_id)
  intent ← ok_or found intent_not_found
  lift (check_pending intent.status)
  executable ← gets (is_intent_executable intent_id)
  raise_if (not executable) intent_on_hold
  modify (save_intent (record intent { status = executed; executed_at = env.timestamp }) intent_id)
  emit (intentex intent_id)

unfoldable pub cancel_intent : Env → (caller intent_id : ℕ) → Call (Unit {0})
cancel_intent env caller intent_id = do
  require_creator_or_admin env caller
  found ← gets (get_intent intent_id)
  intent ← ok_or found intent_not_found
  lift (check_pending intent.status)
  modify (save_intent (record intent { status = cancelled }) intent_id)
  emit (intentcn intent_id)
