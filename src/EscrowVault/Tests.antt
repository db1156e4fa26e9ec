-- ===== src/EscrowVault/Tests.antt =====
-- The vault contract run on a concrete ledger, and its theorems at those states.
use chain_verse_onchain.Common.{
  ℕ, ◌≡◌, refl, arith, not, ◌&&◌, some, [], ◌∷◌, pos, ◌+ℤ◌, ◌-ℤ◌, ◌==◌, if◌then◌else◌, Env, Outcome,
  done, fail, trap, nat_eq, pair_eq,
}
use chain_verse_onchain.Common.Ledger.{ledger}
use chain_verse_onchain.EscrowVault.{VaultError, pending, released, Vault, load_vault}
use chain_verse_onchain.EscrowVault.Calls
use chain_verse_onchain.EscrowVault.Calls.{new_vault, approved, revoked}
use chain_verse_onchain.EscrowVault.Invariant.{State, IsSound}
use chain_verse_onchain.EscrowVault.Histories.{
  Request, apply, Distinct, apply-final, Step, Reach, Reach-IsSound,
}

-- Ids that differ for different nonces.
abbrev ids : ℕ → ℕ → ℕ → ℕ
ids nonce timestamp depositor = nonce

distinct : Distinct ledger ids
distinct m n u v a b h = h

-- The contract has address 0, the administrator 1, the depositor 2, the recipient 3; 4 to 6 approve.
abbrev env : Env
env = record { timestamp = 100; sequence = 7; current_contract = 0; authorized = λ a. not (a == 0) }

abbrev deployed : State ledger ids 0
deployed = record {
  tokens = λ t a. if (t == 10) && (a == 2) then pos 5000 else pos 0;
  store = record { admin = some 1; vaults = []; vault_count = 0; votes = []; wasm_hash = 0 };
  events = [];
}

abbrev result :
    State ledger ids 0 → Outcome VaultError (Unit {0} × State ledger ids 0) → State ledger ids 0
result c (done (_, d)) = d
result c (fail e) = c
result c trap = c

after : Request → State ledger ids 0 → State ledger ids 0
unfolding apply Calls.create_vault Calls.approve_vault Calls.revoke_approval Calls.emergency_cancel
    ◌+ℤ◌ ◌-ℤ◌
after r c = result c (apply ledger ids env r c)

abbrev creation : Request
creation = Request.create_vault 2 3 10 (pos 1000) (4 ∷ 5 ∷ 6 ∷ []) 2

opened : State ledger ids 0
unfolding after
opened = after creation deployed

once : State ledger ids 0
unfolding opened
once = after (Request.approve_vault 1 4) opened

twice : State ledger ids 0
unfolding once
twice = after (Request.approve_vault 1 5) once

taken_back : State ledger ids 0
unfolding once
taken_back = after (Request.revoke_approval 1 4) once

stopped : State ledger ids 0
unfolding once
stopped = after (Request.emergency_cancel 1 0) once

abbrev made : Vault
made = record {
  depositor = 2;
  recipient = 3;
  token = 10;
  amount = pos 1000;
  approvers = 4 ∷ 5 ∷ 6 ∷ [];
  approvals = 0;
  threshold = 2;
  status = pending;
}

abbrev approved_once : Vault
approved_once = record made { approvals = 1 }

abbrev paid_out : Vault
paid_out = record made { approvals = 2; status = released }

-- The second of three approvers releases the vault; a repeated vote and a party's vote are refused.
balances :
    (once.tokens 10 0 ≡ pos 1000)
    × (twice.tokens 10 3 ≡ pos 1000)
    × (load_vault 1 twice.store ≡ some paid_out)
    × (Calls.approve_vault ledger ids env 1 4 once ≡ fail VaultError.already_voted)
    × (Calls.approve_vault ledger ids env 1 2 once ≡ fail VaultError.conflict_of_interest)
    × (stopped.tokens 10 2 ≡ pos 5000)
unfolding twice stopped Calls.approve_vault
balances = (refl, refl, refl, refl, refl, refl)

-- Approvers that repeat are refused, and not reduced to the distinct ones.
repeated :
    Calls.create_vault ledger ids env 2 3 10 (pos 1000) (4 ∷ 4 ∷ 5 ∷ []) 2 deployed
    ≡ fail VaultError.duplicate_approver
unfolding Calls.create_vault
repeated = refl

deployed-IsSound : IsSound ledger ids 0 deployed
deployed-IsSound = record {
  solvent = λ t. ground arith;
  well_formed = λ id v h. absurd (ground arith);
  listed = λ id v a h k. absurd (ground arith);
  unborn = λ id a h. refl;
  fresh = λ n u a h. refl;
}

to_once : Reach ledger ids 0 deployed once
unfolding once apply
to_once =
    Reach.next (Reach.next Reach.here (Step.request env creation deployed opened refl refl refl))
      (Step.request env (Request.approve_vault 1 4) opened once refl refl refl)

to_twice : Reach ledger ids 0 deployed twice
unfolding twice apply
to_twice =
    Reach.next to_once (Step.request env (Request.approve_vault 1 5) once twice refl refl refl)

Reach-IsSound_example : IsSound ledger ids 0 twice
Reach-IsSound_example = Reach-IsSound ledger ids 0 distinct deployed-IsSound to_twice

reopened : State ledger ids 0
unfolding twice
reopened = after creation twice

apply-final_example : load_vault 1 reopened.store ≡ some paid_out
unfolding reopened apply
apply-final_example =
    apply-final ledger ids env creation 1 paid_out twice reopened refl distinct
      (Reach-IsSound ledger ids 0 distinct deployed-IsSound to_twice) refl refl refl
