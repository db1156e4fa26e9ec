-- ===== src/ScholarshipDisbursements/Effects.antt =====
-- contracts/scholarship-disbursements/src/lib.rs: what the entry points do when they succeed.
use chain_verse_onchain.Common.{
  ℕ, ◌<◌, ◌≡◌, ◌++◌, refl, ◌⊎◌, inl, inr, arith, true, false, some, lookup, lookup-insert, insert,
  nat_eq, ==_iff, Option-cases, Env, Chain, ok, done, fail,
}
use chain_verse_onchain.Signing.{Crypto, envelope_version, payout_wallet_proof, signing_payload}
use chain_verse_onchain.Signing.Bytes.{to_be_bytes}
use chain_verse_onchain.ScholarshipDisbursements.{
  wallet_proof_domain_tag, already_executed, challenge_already_used, PayoutWallet, WalletChallenge,
  pending, executed, DisbursementIntent, Store, Event, Ed25519, verify_ed25519, load_binding,
  load_challenge, get_intent, save_intent, targets, challenge_body_hash,
}
use chain_verse_onchain.ScholarshipDisbursements.Calls.{confirm_wallet_challenge, record_execution}

abbrev pub State : Type 0
State = Chain (Unit {0}) Store Event

-- The administrator or a creator on the list, who signs.
abbrev pub Entrusted : Env → (caller : ℕ) → State → Type 0
Entrusted env caller c =
    (env.authorized caller ≡ true)
    × (admin : ℕ) × (c.store.admin ≡ some admin)
    × ((caller ≡ admin) ⊎ (lookup caller c.store.creators ≡ some true))

-- The wallet of an intent is the one that its recipient has now, verified, and not changed since.
pub record IsTarget (i : DisbursementIntent) (s : Store) : Type 0 where
  pub owner : PayoutWallet
  pub bound : lookup i.recipient s.wallet_bindings ≡ some owner
  pub proved : owner.verified ≡ true
  pub unchanged : owner.epoch ≡ i.wallet_epoch
  pub same : owner.wallet ≡ i.wallet

pub targets-IsTarget :
    (i : DisbursementIntent) (s : Store)
    → targets i (load_binding i.recipient s) ≡ true
    → IsTarget i s
targets-IsTarget i s h = elim (Option-cases (load_binding i.recipient s)) [
  | inl n ↦ absurd (ground (arith, n))
  | inr (b, p) ↦
      let (v, e, w) : (b.verified ≡ true) × (b.epoch ≡ i.wallet_epoch) × (b.wallet ≡ i.wallet) =
        ground (arith, p, ==_iff b.epoch i.wallet_epoch, ==_iff b.wallet i.wallet) in
      record { owner = b; bound = p; proved = v; unchanged = e; same = w }
]

-- A key that can be read, whose strict check accepts the signature.
verified_lem :
    (scheme : Ed25519) (key payload sig : ℕ)
    → verify_ed25519 scheme key payload sig ≡ ok tt
    → (vk : scheme.VerifyingKey) × (scheme.from_bytes key ≡ some vk)
      × (scheme.verify_strict vk payload sig ≡ true)
unfolding verify_ed25519
verified_lem scheme key payload sig h = elim (Option-cases (scheme.from_bytes key)) [
  | inl n ↦ absurd (ground arith)
  | inr (vk, p) ↦ (vk, p, ground arith)
]

-- An execution that is recorded already is refused.
again :
    (env : Env) (d : State) (a id : ℕ) (i : DisbursementIntent)
    → Entrusted env a d
    → get_intent id d.store ≡ some i
    → i.status ≡ executed
    → record_execution env a id d ≡ fail already_executed
unfolding record_execution
again env d a id i (u, m, is, inl e) p x = ground arith
again env d a id i (u, m, is, inr e) p x = ground arith

module _ (env : Env) (c d : State) where
  pub execution_parts :
      (a id : ℕ) (i : DisbursementIntent)
      → get_intent id c.store ≡ some i
      → record_execution env a id c ≡ done (tt, d)
      → (env.authorized a ≡ true)
        × (i.status ≡ pending)
        × (targets i (load_binding i.recipient c.store) ≡ true)
        × (d.store
            ≡ save_intent (record i { status = executed; executed_at = env.timestamp }) id c.store)
  unfolding record_execution
  execution_parts a id i p h = ground arith

  entrusted : (a id : ℕ) → record_execution env a id c ≡ done (tt, d) → Entrusted env a c
  unfolding record_execution
  entrusted a id h = elim (Option-cases c.store.admin) [
    | inl n ↦ absurd (ground arith)
    | inr (m, is) ↦
        let u : env.authorized a ≡ true = ground arith in
        let r : (a ≡ m) ⊎ (lookup a c.store.creators ≡ some true) = ground arith in (u, m, is, r)
  ]

  pub confirm_parts :
      (crypto : Crypto) (scheme : Ed25519) (id key sig : ℕ) (k : WalletChallenge) (b : PayoutWallet)
      (n : ℕ)
      → load_challenge id c.store ≡ some k
      → load_binding k.recipient c.store ≡ some b
      → c.store.network_id ≡ some n
      → confirm_wallet_challenge crypto scheme env id key sig c ≡ done (tt, d)
      → (k.used ≡ false)
        × (env.timestamp < k.expires_at)
        × (b.wallet ≡ k.wallet)
        × (lookup k.wallet c.store.wallet_keys ≡ some key)
        × (payload : ℕ) × (signing_payload crypto
              (record {
                version = envelope_version;
                network_id = n;
                contract = env.current_contract;
                message_type = payout_wallet_proof;
              })
              (challenge_body_hash crypto k)
            ≡ ok payload)
        × (verify_ed25519 scheme key payload sig ≡ ok tt)
        × (d.store ≡ record (c.store) {
          challenges = insert id (record k { used = true }) c.store.challenges;
          wallet_bindings =
              insert k.recipient
                (record b { verified = true; updated_at = env.timestamp })
                c.store.wallet_bindings;
        })
  unfolding confirm_wallet_challenge
  confirm_parts crypto scheme id key sig k b n p q r h = ground arith

  -- A wallet that is confirmed was challenged and proved: the challenge was open and unused, its wallet
  -- is the recipient's wallet of now, and the key is the one registered for that wallet. The strict
  -- check accepts the signature, by that key, of the payload for this network, this contract and the
  -- hash of the challenge's id, recipient, wallet and expiry. The binding is verified now, and the
  -- challenge is used up, so that it cannot be confirmed again.
  pub confirm_proves :
      (crypto : Crypto) (scheme : Ed25519) (id key sig : ℕ) (k : WalletChallenge) (b : PayoutWallet)
      (n : ℕ)
      → load_challenge id c.store ≡ some k
      → load_binding k.recipient c.store ≡ some b
      → c.store.network_id ≡ some n
      → confirm_wallet_challenge crypto scheme env id key sig c ≡ done (tt, d)
      → (k.used ≡ false)
        × (env.timestamp < k.expires_at)
        × (b.wallet ≡ k.wallet)
        × (lookup k.wallet c.store.wallet_keys ≡ some key)
        × (payload : ℕ) × (signing_payload crypto
              (record {
                version = envelope_version;
                network_id = n;
                contract = env.current_contract;
                message_type = payout_wallet_proof;
              })
              (crypto.sha256 (
                wallet_proof_domain_tag
                ++ to_be_bytes 8 k.id
                ++ crypto.address_xdr k.recipient
                ++ crypto.address_xdr k.wallet
                ++ to_be_bytes 8 k.expires_at))
            ≡ ok payload)
        × (vk : scheme.VerifyingKey) × (scheme.from_bytes key ≡ some vk)
        × (scheme.verify_strict vk payload sig ≡ true)
        × (load_binding k.recipient d.store
            ≡ some (record b { verified = true; updated_at = env.timestamp }))
        × (confirm_wallet_challenge crypto scheme env id key sig d ≡ fail challenge_already_used)
  unfolding confirm_wallet_challenge
  confirm_proves crypto scheme id key sig k b n p q r h =
      let (u, t, w, l, payload, made, ok_sig, now) =
        confirm_parts crypto scheme id key sig k b n p q r h in
      let spent : load_challenge id d.store ≡ some (record k { used = true }) =
        rw
          (
            now,
            lookup-insert id id (record k { used = true }) c.store.challenges,
            (==_iff id id).1 refl,
          )
          refl in
      let confirmed : load_binding k.recipient d.store
          ≡ some (record b { verified = true; updated_at = env.timestamp }) =
        rw
          (
            now,
            lookup-insert k.recipient k.recipient
                (record b { verified = true; updated_at = env.timestamp }) c.store.wallet_bindings,
            (==_iff k.recipient k.recipient).1 refl,
          )
          refl in
      let (vk, read, accepted) = verified_lem scheme key payload sig ok_sig in
      (u, t, w, l, payload, made, vk, read, accepted, confirmed, ground (arith, spent))

  -- An execution that is recorded is signed by the administrator or a creator on the list. The intent
  -- was pending, and its wallet and epoch are those of the recipient's wallet of now, which is
  -- verified. Only the intent changes, which is executed now, so that recording it again fails.
  pub record_execution_once :
      (a id : ℕ) (i : DisbursementIntent)
      → get_intent id c.store ≡ some i
      → record_execution env a id c ≡ done (tt, d)
      → Entrusted env a c
        × (i.status ≡ pending)
        × IsTarget i c.store
        × (d.store ≡ record (c.store) {
          intents =
              insert id
                (record i { status = executed; executed_at = env.timestamp })
                c.store.intents;
        })
        × (record_execution env a id d ≡ fail already_executed)
  unfolding record_execution
  record_execution_once a id i p h =
      let (_, s, t, now) = execution_parts a id i p h in
      let (u, m, is, e) = entrusted a id h in
      let kept : get_intent id d.store
          ≡ some (record i { status = executed; executed_at = env.timestamp }) =
        rw
          (
            now,
            lookup-insert id id (record i { status = executed; executed_at = env.timestamp })
                c.store.intents,
            (==_iff id id).1 refl,
          )
          refl in
      let is_after : d.store.admin ≡ some m = rw now is in
      let same_creators : d.store.creators ≡ c.store.creators = rw now refl in
      let e_after : (a ≡ m) ⊎ (lookup a d.store.creators ≡ some true) = rw same_creators e in
      (
        (u, m, is, e),
        s,
        targets-IsTarget i c.store t,
        now,
        again env d a id _ (u, m, is_after, e_after) kept refl,
      )
