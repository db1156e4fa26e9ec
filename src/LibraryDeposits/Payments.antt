-- ===== src/LibraryDeposits/Payments.antt =====
-- contracts/library-deposits/src/lib.rs: refunds and charges pay out of a deposit.
use chain_verse_onchain.Common.{
  ℕ, ◌≡◌, refl, ◌⊎◌, arith, true, some, ◌∷◌, insert, nat_eq, ℤ, pos, ◌-ℤ◌, ◌≤ℤ◌, fit_i128, int_laws,
  TokenClient, Env, done, pay_out_bound,
}
use chain_verse_onchain.LibraryDeposits.{
  locked, released, charged, Deposit, dep_rel, dep_chg, load_deposit,
}
use chain_verse_onchain.LibraryDeposits.Calls.{release_deposit, partial_charge, full_charge}
use chain_verse_onchain.LibraryDeposits.Invariant.{State, PaysOut, Holds}

module _ (client : TokenClient) (deposit_id : (nonce timestamp loan_id patron : ℕ) → ℕ)
    (env : Env) where
  open client use {transfer, balance}

  abbrev Self : Type 0
  Self = State client deposit_id env.current_contract

  -- A release that succeeds is signed by its caller, the administrator or the patron, of a locked
  -- deposit. It refunds the patron what remains, closes the deposit with nothing left, and changes
  -- nothing else of the storage.
  pub release_refunds :
      (caller id : ℕ) (c d : Self) (e : Deposit)
      → load_deposit id c.store ≡ some e
      → release_deposit client deposit_id env caller id c ≡ done (tt, d)
      → (e.status ≡ locked)
        × (env.authorized caller ≡ true)
        × ((c.store.admin ≡ some caller) ⊎ (caller ≡ e.patron))
        × (transfer c.tokens e.token env.current_contract e.patron e.remaining_amount
            ≡ some d.tokens)
        × (d.events ≡ dep_rel id e.remaining_amount ∷ c.events)
        × (d.store ≡ record (c.store) {
          deposits =
              insert id (record e { remaining_amount = pos 0; status = released }) c.store.deposits;
        })
  unfolding release_deposit
  release_refunds caller id c d e was h = ground arith

  -- A charge that succeeds is signed by the administrator, of a positive amount that is not more than
  -- what remains of a locked deposit. It pays the treasury that amount and takes it off the deposit,
  -- which stays locked, and changes nothing else of the storage.
  pub partial_charge_paid :
      (caller id : ℕ) (x : ℤ) (c d : Self) (e : Deposit) (treasury : ℕ)
      → load_deposit id c.store ≡ some e
      → c.store.treasury ≡ some treasury
      → partial_charge client deposit_id env caller id x c ≡ done (tt, d)
      → (e.status ≡ locked)
        × (env.authorized caller ≡ true)
        × (c.store.admin ≡ some caller)
        × (pos 1 ≤ℤ x)
        × (x ≤ℤ e.remaining_amount)
        × (transfer c.tokens e.token env.current_contract treasury x ≡ some d.tokens)
        × (d.events ≡ dep_chg id x ∷ c.events)
        × (d.store ≡ record (c.store) {
          deposits =
              insert id (record e { remaining_amount = e.remaining_amount -ℤ x }) c.store.deposits;
        })
  unfolding partial_charge fit_i128
  partial_charge_paid caller id x c d e treasury was stored h = ground arith

  -- A full charge that succeeds is signed by the administrator, of a locked deposit of which something
  -- remains. It pays the treasury all of that and closes the deposit, and changes nothing else.
  pub full_charge_paid :
      (caller id : ℕ) (c d : Self) (e : Deposit) (treasury : ℕ)
      → load_deposit id c.store ≡ some e
      → c.store.treasury ≡ some treasury
      → full_charge client deposit_id env caller id c ≡ done (tt, d)
      → (e.status ≡ locked)
        × (env.authorized caller ≡ true)
        × (c.store.admin ≡ some caller)
        × (pos 1 ≤ℤ e.remaining_amount)
        × (transfer c.tokens e.token env.current_contract treasury e.remaining_amount
            ≡ some d.tokens)
        × (d.events ≡ dep_chg id e.remaining_amount ∷ c.events)
        × (d.store ≡ record (c.store) {
          deposits =
              insert id (record e { remaining_amount = pos 0; status = charged }) c.store.deposits;
        })
  unfolding full_charge
  full_charge_paid caller id c d e treasury was stored h = ground arith

  pub release-PaysOut :
      (caller id : ℕ) (c d : Self) (e : Deposit)
      → load_deposit id c.store ≡ some e
      → release_deposit client deposit_id env caller id c ≡ done (tt, d)
      → PaysOut client deposit_id env.current_contract c d id e
          (record e { remaining_amount = pos 0; status = released })
          e.remaining_amount
  release-PaysOut caller id c d e was h =
      let (_, _, _, t, v, s) = release_refunds caller id c d e was h in
      record {
        was = was;
        now = rw s refl;
        count = rw s refl;
        less = omega int_laws;
        same = (refl, refl);
        fits_after = refl;
        told = λ j. rw v refl;
        covered = λ k.
            pay_out_bound client c.tokens d.tokens e.token env.current_contract e.patron
              e.remaining_amount k t;
      }

  locked_holds :
      (e : Deposit)
      → e.status ≡ locked
      → Holds e.status e.remaining_amount e.original_amount
      → (pos 0 ≤ℤ e.remaining_amount) × (e.remaining_amount ≤ℤ e.original_amount)
  locked_holds e p h = rw p at h

  pub partial_charge-PaysOut :
      (caller id : ℕ) (x : ℤ) (c d : Self) (e : Deposit) (treasury : ℕ)
      → Holds e.status e.remaining_amount e.original_amount
      → load_deposit id c.store ≡ some e
      → c.store.treasury ≡ some treasury
      → partial_charge client deposit_id env caller id x c ≡ done (tt, d)
      → PaysOut client deposit_id env.current_contract c d id e
          (record e { remaining_amount = e.remaining_amount -ℤ x })
          x
  partial_charge-PaysOut caller id x c d e treasury holds was stored h =
      let (p, _, _, lo, hi, t, v, s) =
        partial_charge_paid caller id x c d e treasury was stored h in
      let (a, b) = locked_holds e p holds in
      record {
        was = was;
        now = rw s refl;
        count = rw s refl;
        less = refl;
        same = (refl, refl);
        fits_after = rw p (omega (int_laws, a, b, lo, hi), omega (int_laws, a, b, lo, hi));
        told = λ j. rw v refl;
        covered =
            λ k. pay_out_bound client c.tokens d.tokens e.token env.current_contract treasury x k t;
      }

  pub full_charge-PaysOut :
      (caller id : ℕ) (c d : Self) (e : Deposit) (treasury : ℕ)
      → load_deposit id c.store ≡ some e
      → c.store.treasury ≡ some treasury
      → full_charge client deposit_id env caller id c ≡ done (tt, d)
      → PaysOut client deposit_id env.current_contract c d id e
          (record e { remaining_amount = pos 0; status = charged })
          e.remaining_amount
  full_charge-PaysOut caller id c d e treasury was stored h =
      let (_, _, _, _, t, v, s) = full_charge_paid caller id c d e treasury was stored h in
      record {
        was = was;
        now = rw s refl;
        count = rw s refl;
        less = omega int_laws;
        same = (refl, refl);
        fits_after = refl;
        told = λ j. rw v refl;
        covered = λ k.
            pay_out_bound client c.tokens d.tokens e.token env.current_contract treasury
              e.remaining_amount k t;
      }
