-- ===== src/Escrow/Tests.antt =====
-- The escrow contract run on a concrete ledger, and its theorems at those states.
use chain_verse_onchain.Common.{
  ℕ, ◌≡◌, refl, true, false, not, ◌&&◌, ◌⊎◌, none, some, [], ◌∷◌, arith, ℤ, pos, ◌+ℤ◌, ◌-ℤ◌, ◌≤ℤ◌,
  fit_i128, ◌==◌, if◌then◌else◌, Env, Outcome, done, fail, trap, nat_eq,
}
use chain_verse_onchain.Common.Ledger.{ledger}
use chain_verse_onchain.Escrow.Types.{created, funded, disputed, Escrow, EscrowError}
use chain_verse_onchain.Escrow.Storage.{load_escrow, get_protocol_fee}
use chain_verse_onchain.Escrow.Fees.{compute_fee_and_payout}
use chain_verse_onchain.Escrow.Calls
use chain_verse_onchain.Escrow.Invariant.{State, IsValid, Moves, liabilities}
use chain_verse_onchain.Escrow.Histories.{
  Request, apply, apply-IsValid, apply-evolves, Step, Reach, Reach-IsValid, deployed-IsValid,
}
use chain_verse_onchain.Escrow.Releases.{
  PaysOut, after_release, release_paid, lowered, partial_paid,
}
use chain_verse_onchain.Escrow.Resolutions.{resolve_remainder}
use chain_verse_onchain.Escrow.Returns.{release_returns}

-- The contract has address 0, the administrator 1, the buyer 2, the seller 3 and the arbiter 5.
abbrev env : Env
env = record { timestamp = 100; sequence = 7; current_contract = 0; authorized = λ a. not (a == 0) }

-- The same after the deadline.
abbrev late : Env
late = record env { timestamp = 5000 }

abbrev start : State ledger 0
start = record {
  tokens = λ t a. if (t == 10) && (a == 2) then pos 5000 else pos 0;
  store = record {
    admin = some 1;
    arbiter = some 5;
    escrows = [];
    escrow_count = 0;
    total_volume = pos 0;
    whitelisted_tokens = (10, true) ∷ [];
    protocol_fees = [];
    token_index = [];
    buyer_index = [];
    seller_index = [];
    fee_history = [];
    fee_bps = none;
    paused = false;
    wasm_hash = 0;
  };
  events = [];
}

abbrev result : State ledger 0 → Outcome EscrowError (Unit {0} × State ledger 0) → State ledger 0
result c (done (_, d)) = d
result c (fail e) = c
result c trap = c

after : Env → Request → State ledger 0 → State ledger 0
unfolding apply Calls.create_escrow Calls.fund_escrow Calls.partial_release Calls.release_escrow
    Calls.dispute Calls.resolve_dispute Calls.refund_escrow compute_fee_and_payout ◌+ℤ◌ ◌-ℤ◌
    fit_i128 Calls.pay_positive Calls.withdraw_fees
after e r c = result c (apply ledger e r c)

abbrev creation : Request
creation = Request.create_escrow 2 3 10 (pos 1000) 1000

opened : State ledger 0
unfolding after
opened = after env creation start

paid_in : State ledger 0
unfolding opened
paid_in = after env (Request.fund_escrow 2 1) opened

halved : State ledger 0
unfolding paid_in
halved = after env (Request.partial_release 2 1 (pos 400)) paid_in

contested : State ledger 0
unfolding halved
contested = after env (Request.dispute_escrow 2 1) halved

ruled : State ledger 0
unfolding contested
ruled = after env (Request.resolve_dispute 5 1 (pos 300) (pos 200) (pos 50) 0) contested

-- After the release of 400 the fee of 1 % is in the pool, 600 remain and the seller has 396.
halved_books :
    (load_escrow 1 halved.store
      ≡ some (record {
        buyer = 2;
        seller = 3;
        token = 10;
        amount = pos 600;
        original_amount = pos 1000;
        status = funded;
        expiration = 1000;
      }))
    × (get_protocol_fee 10 halved.store ≡ pos 4)
    × (halved.tokens 10 0 ≡ pos 604)
    × (halved.tokens 10 3 ≡ pos 396)
unfolding halved
halved_books = (refl, refl, refl, refl)

-- A resolution of 550 of the 600 leaves 50 in the contract that it owes to nobody.
ruled_books : (liabilities 10 ruled.store ≡ pos 54) × (ruled.tokens 10 0 ≡ pos 104)
unfolding ruled
ruled_books = (refl, refl)

no_tokens_owed : (t : ℕ) → pos 0 ≤ℤ start.tokens t 0
no_tokens_owed t = ground arith

start-IsValid : IsValid ledger 0 start
start-IsValid = deployed-IsValid ledger 0 start refl refl no_tokens_owed

opened-IsValid : IsValid ledger 0 opened
unfolding opened
opened-IsValid =
    apply-IsValid ledger env creation start opened refl (omega arith) start-IsValid refl

paid_in-IsValid : IsValid ledger 0 paid_in
unfolding paid_in
paid_in-IsValid =
    apply-IsValid ledger env (Request.fund_escrow 2 1) opened paid_in refl tt opened-IsValid refl

halved-IsValid : IsValid ledger 0 halved
unfolding halved
halved-IsValid =
    apply-IsValid ledger env (Request.partial_release 2 1 (pos 400)) paid_in halved refl tt
      paid_in-IsValid refl

contested-IsValid : IsValid ledger 0 contested
unfolding contested
contested-IsValid =
    apply-IsValid ledger env (Request.dispute_escrow 2 1) halved contested refl tt halved-IsValid
      refl

history : Reach ledger 0 start halved
unfolding halved
history =
    Reach.next
      (Reach.next
        (Reach.next Reach.here
          (Step.request env creation start opened refl refl (omega arith) refl))
        (Step.request env (Request.fund_escrow 2 1) opened paid_in refl refl tt refl))
      (Step.request env (Request.partial_release 2 1 (pos 400)) paid_in halved refl refl tt refl)

Reach-IsValid_example : IsValid ledger 0 halved
Reach-IsValid_example = Reach-IsValid ledger 0 start-IsValid history

ruled-IsValid : IsValid ledger 0 ruled
unfolding ruled
ruled-IsValid =
    apply-IsValid ledger env (Request.resolve_dispute 5 1 (pos 300) (pos 200) (pos 50) 0) contested
      ruled refl tt contested-IsValid refl

abbrev entry : Escrow
entry = record {
  buyer = 2;
  seller = 3;
  token = 10;
  amount = pos 1000;
  original_amount = pos 1000;
  status = funded;
  expiration = 1000;
}

apply-evolves_example :
    (e' : Escrow) × (load_escrow 1 halved.store ≡ some e') × ((e' ≡ entry) ⊎ Moves entry e')
unfolding halved
apply-evolves_example =
    apply-evolves ledger env (Request.partial_release 2 1 (pos 400)) 1 entry paid_in halved refl
      paid_in-IsValid refl refl

released : State ledger 0
unfolding paid_in
released = after env (Request.release_escrow 2 1) paid_in

refunded : State ledger 0
unfolding paid_in
refunded = after late (Request.refund_escrow 2 1) paid_in

skimmed : State ledger 0
unfolding halved
skimmed = after env (Request.withdraw_fees 1 10 9 (pos 4)) halved

unfunded : Escrow
unfunded = record entry { status = created }

release_paid_example :
    (fee out : ℤ) × (w : ℕ → ℕ → ℤ) × PaysOut ledger env 2 paid_in released 1 entry
      (after_release ledger env entry)
      (pos 1000)
      fee
      out
      w
unfolding released
release_paid_example = release_paid ledger env 2 1 paid_in released entry refl refl

partial_paid_example :
    (fee out : ℤ) × (w : ℕ → ℕ → ℤ) × PaysOut ledger env 2 paid_in halved 1 entry
      (lowered ledger env entry (pos 400))
      (pos 400)
      fee
      out
      w
    × (pos 1 ≤ℤ pos 400)
    × (pos 400 ≤ℤ pos 1000)
unfolding halved
partial_paid_example = partial_paid ledger env 2 1 (pos 400) paid_in halved entry refl refl

abbrev disputed_entry : Escrow
disputed_entry = record entry { amount = pos 600; status = disputed }

resolve_remainder_example :
    (disputed ≡ disputed)
    × (pos 300 +ℤ pos 200 +ℤ pos 50 ≤ℤ pos 600)
    × (liabilities 10 ruled.store +ℤ pos 600 ≡ liabilities 10 contested.store +ℤ pos 50)
    × (contested.tokens 10 0 ≤ℤ ruled.tokens 10 0 +ℤ (pos 300 +ℤ pos 200))
unfolding ruled
resolve_remainder_example =
    resolve_remainder ledger env 5 1 0 (pos 300) (pos 200) (pos 50) contested ruled disputed_entry
      refl (omega arith) refl

release_returns_example :
    (d : State ledger 0) × (Calls.release_escrow ledger env 2 1 paid_in ≡ done (tt, d))
unfolding released
release_returns_example =
    release_returns ledger env 1 paid_in entry released.tokens paid_in-IsValid refl refl refl
      (omega arith) (omega arith) (omega arith) (omega arith) refl
