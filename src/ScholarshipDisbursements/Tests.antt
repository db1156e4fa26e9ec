-- ===== src/ScholarshipDisbursements/Tests.antt =====
-- The disbursement contract run on a concrete state, over a toy hash and a toy signature scheme, and its
-- theorems at those states.
use chain_verse_onchain.Common.{
  ℕ, ◌+◌, ◌%◌, ◌^◌, ◌<◌, ◌≡◌, refl, ◌⊎◌, arith, true, false, none, some, List, [], ◌∷◌, pos, ◌==◌,
  lookup, insert, ◌++◌, nat_eq, Env, Outcome, done, fail, trap, ok,
}
use chain_verse_onchain.Signing.{
  Crypto, payout_wallet_proof, envelope_version, signing_payload, canonical_preimage,
}
use chain_verse_onchain.Signing.Bytes.{to_be_bytes, from_be_bytes}
use chain_verse_onchain.Signing.Binding.{Collision}
use chain_verse_onchain.ScholarshipDisbursements.{
  ContractError, wallet_proof_domain_tag, intent_conflict, intent_on_hold, already_executed,
  challenge_already_used, PayoutWallet, WalletChallenge, pending, executed, DisbursementIntent,
  Ed25519, verify_ed25519, load_binding, get_intent, is_intent_executable, challenge_body_hash,
  derive_intent_id,
}
use chain_verse_onchain.ScholarshipDisbursements.Calls
use chain_verse_onchain.ScholarshipDisbursements.Effects.{
  State, Entrusted, IsTarget, confirm_proves, record_execution_once,
}
use chain_verse_onchain.ScholarshipDisbursements.Creation.{
  create_intent_again, derive_intent_id-binds,
}
use chain_verse_onchain.ScholarshipDisbursements.Histories.{Request, apply, Step, Reach}
use chain_verse_onchain.ScholarshipDisbursements.Progress.{Later, Reach-Later}
use chain_verse_onchain.ScholarshipDisbursements.Soundness.{IsConsistent, Reach-IsConsistent}

checksum : List ℕ → ℕ
unfolding from_be_bytes
checksum l = from_be_bytes 0 l % 256 ^ 32

abbrev crypto : Crypto
crypto = record { sha256 = checksum; address_xdr = λ a. a ∷ []; symbol_xdr = λ l. l }

abbrev scheme : Ed25519
scheme = record { VerifyingKey = ℕ; from_bytes = some; verify_strict = λ k p s. s == p + k }

-- Everybody signs. The administrator is 1, the recipient 2, the wallets 30 and 31, the contract 0.
abbrev env : Env
env = record { timestamp = 100; sequence = 7; current_contract = 0; authorized = λ a. true }

abbrev deployed : State
deployed = record {
  tokens = tt;
  store = record {
    admin = none;
    network_id = none;
    creators = [];
    wallet_keys = [];
    wallet_bindings = [];
    challenge_counter = none;
    challenges = [];
    intents = [];
  };
  events = [];
}

abbrev result : State → Outcome ContractError (Unit {0} × State) → State
result c (done (_, d)) = d
result c (fail e) = c
result c trap = c

after : Request → State → State
unfolding apply Calls.initialize Calls.register_wallet_key Calls.set_payout_wallet
    Calls.open_wallet_challenge Calls.confirm_wallet_challenge Calls.create_intent
    Calls.record_execution Calls.cancel_intent verify_ed25519 signing_payload canonical_preimage
    to_be_bytes checksum from_be_bytes
after r c = result c (apply crypto scheme env r c)

opened : State
unfolding after
opened = after (Request.initialize 1 77) deployed

bound : State
unfolding opened
bound = after (Request.set_payout_wallet 2 30) (after (Request.register_wallet_key 30 5) opened)

challenged : State
unfolding bound
challenged = after (Request.open_wallet_challenge 2 30 60) bound

abbrev challenge : WalletChallenge
challenge = record {
  id = 0;
  recipient = 2;
  wallet = 30;
  expires_at = 160;
  used = false;
  created_at = 100;
}

-- The signature of the payload by key 5: the checksum keeps the last 32 bytes, the hash of the body.
signature : ℕ
unfolding checksum to_be_bytes from_be_bytes
signature = challenge_body_hash crypto challenge + 5

proved : State
unfolding challenged signature
proved = after (Request.confirm_wallet_challenge 0 5 signature) challenged

intended : State
unfolding proved
intended = after (Request.create_intent 1 9 2 (pos 400) 1) proved

id : ℕ
unfolding checksum to_be_bytes from_be_bytes
id = derive_intent_id crypto 9 2 1

paid : State
unfolding intended id
paid = after (Request.record_execution 1 id) intended

moved : State
unfolding intended
moved = after (Request.set_payout_wallet 2 31) intended

abbrev intent : DisbursementIntent
intent = record {
  id = id;
  program_id = 9;
  recipient = 2;
  wallet = 30;
  amount = pos 400;
  installment = 1;
  wallet_epoch = 1;
  created_at = 100;
  created_by = 1;
  status = pending;
  executed_at = 0;
}

books :
    (is_intent_executable id intended.store ≡ true)
    × (is_intent_executable id moved.store ≡ false)
    × (get_intent id intended.store ≡ some intent)
    × (get_intent id paid.store ≡ some (record intent { status = executed; executed_at = 100 }))
    × (apply crypto scheme env (Request.record_execution 1 id) moved ≡ fail intent_on_hold)
    × (apply crypto scheme env (Request.create_intent 1 9 2 (pos 400) 1) moved
        ≡ fail intent_conflict)
unfolding paid moved
books = (refl, refl, refl, refl, refl, refl)

deployed-IsConsistent : IsConsistent crypto deployed.store
deployed-IsConsistent j i h = absurd (ground arith)

history : Reach crypto scheme deployed intended
unfolding intended apply
history =
    Reach.next
      (Reach.next
        (Reach.next
          (Reach.next
            (Reach.next
              (Reach.next Reach.here
                (Step.request env (Request.initialize 1 77) deployed opened refl))
              (Step.request env (Request.register_wallet_key 30 5) opened _ refl))
            (Step.request env (Request.set_payout_wallet 2 30) _ bound refl))
          (Step.request env (Request.open_wallet_challenge 2 30 60) bound challenged refl))
        (Step.request env (Request.confirm_wallet_challenge 0 5 signature) challenged proved refl))
      (Step.request env (Request.create_intent 1 9 2 (pos 400) 1) proved intended refl)

Reach-IsConsistent_example : IsConsistent crypto intended.store
Reach-IsConsistent_example = Reach-IsConsistent crypto scheme deployed-IsConsistent history

execution : Reach crypto scheme intended paid
unfolding paid apply
execution =
    Reach.next Reach.here (Step.request env (Request.record_execution 1 id) intended paid refl)

Reach-Later_example :
    (j : DisbursementIntent) × (get_intent id paid.store ≡ some j) × Later intent j
unfolding intended id
Reach-Later_example = Reach-Later crypto scheme id intent execution refl

-- The old wallet is set, challenged and confirmed again.
back : State
unfolding moved
back = after (Request.open_wallet_challenge 2 30 60) (after (Request.set_payout_wallet 2 30) moved)

signature_again : ℕ
unfolding checksum to_be_bytes from_be_bytes
signature_again = challenge_body_hash crypto (record challenge { id = 1 }) + 5

again : State
unfolding back signature_again
again = after (Request.confirm_wallet_challenge 1 5 signature_again) back

verified_again :
    load_binding 2 again.store
    ≡ some (record { wallet = 30; verified = true; epoch = 3; updated_at = 100 })
unfolding again
verified_again = refl

record_execution_once_example :
    Entrusted env 1 intended
    × (pending ≡ pending)
    × IsTarget intent intended.store
    × (paid.store ≡ record (intended.store) {
      intents =
          insert id (record intent { status = executed; executed_at = 100 }) intended.store.intents;
    })
    × (Calls.record_execution env 1 id paid ≡ fail already_executed)
unfolding paid
record_execution_once_example = record_execution_once env intended paid 1 id intent refl refl

abbrev wallet : PayoutWallet
wallet = record { wallet = 30; verified = false; epoch = 1; updated_at = 100 }

confirm_proves_example :
    (challenge.used ≡ false)
    × (env.timestamp < challenge.expires_at)
    × (wallet.wallet ≡ challenge.wallet)
    × (lookup 30 challenged.store.wallet_keys ≡ some 5)
    × (payload : ℕ) × (signing_payload crypto
          (record {
            version = envelope_version;
            network_id = 77;
            contract = 0;
            message_type = payout_wallet_proof;
          })
          (crypto.sha256 (
            wallet_proof_domain_tag
            ++ to_be_bytes 8 0
            ++ crypto.address_xdr 2
            ++ crypto.address_xdr 30
            ++ to_be_bytes 8 160))
        ≡ ok payload)
    × (vk : ℕ) × (scheme.from_bytes 5 ≡ some vk)
    × (scheme.verify_strict vk payload signature ≡ true)
    × (load_binding 2 proved.store ≡ some (record wallet { verified = true; updated_at = 100 }))
    × (Calls.confirm_wallet_challenge crypto scheme env 0 5 signature proved
        ≡ fail challenge_already_used)
unfolding proved
confirm_proves_example =
    confirm_proves env challenged proved crypto scheme 0 5 signature challenge wallet 77 refl refl
      refl refl

create_intent_again_example :
    Calls.create_intent crypto env 1 9 2 (pos 400) 1 intended ≡ done (id, intended)
unfolding intended id
create_intent_again_example =
    create_intent_again crypto env 1 9 2 1 (pos 400) proved intended id refl

abbrev program : ℕ
program = 9

derive_intent_id-binds_example :
    ((program ≡ program) × (env.timestamp ≡ 100) × (env.sequence ≡ 7)) ⊎ Collision crypto
unfolding id
derive_intent_id-binds_example =
    derive_intent_id-binds crypto program program 100 100 7 7 (λ y z h. cc) (omega arith)
      (omega arith) (omega arith) (omega arith) refl
