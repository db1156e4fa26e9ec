-- ===== src/Vesting/Claims.antt =====
-- contracts/common/vesting.rs: what `grant_vesting`, `claim` and `revoke` do.
use chain_verse_onchain.Common.{
  ℕ, ◌+◌, ◌≤◌, ◌≡◌, ◌≢◌, refl, arith, true, false, some, ℤ, pos, ◌≤ℤ◌, i128_max, lookup, insert,
  lookup-insert, nat_eq, ==_iff, or_default, Env, TokenClient, Chain, done, int_laws,
}
use chain_verse_onchain.Vesting.{
  VestingSchedule, Store, Event, calculate_vested_amount, grant_vesting, claim, revoke,
}
use chain_verse_onchain.Vesting.Amounts.{IsSchedule, vested_bounds}

module _ (client : TokenClient) where
  open client use {World, transfer, balance}

  abbrev pub State : Type 0
  State = Chain World Store Event

  module _ (env : Env) where
    -- A grant that succeeds is made by the administrator, of an `i128` amount and a cliff that form an
    -- admitted schedule, and stores that schedule, neither claimed nor revoked, under the next id.
    pub grant_stored :
        (admin beneficiary : ℕ) (amount : ℤ) (start_time cliff duration id : ℕ) (c d : State)
        → amount ≤ℤ i128_max
        → grant_vesting client env admin beneficiary amount start_time cliff duration c
          ≡ done (id, d)
        → (c.store.admin ≡ some admin)
          × (env.authorized admin ≡ true)
          × (id ≡ or_default 0 c.store.counter + 1)
          × (pos 1 ≤ℤ amount)
          × (cliff ≤ duration)
          × (d.tokens ≡ c.tokens)
          × (d.store ≡ record (c.store) {
            counter = some id;
            schedules =
                insert id
                  (record {
                    beneficiary = beneficiary;
                    amount = amount;
                    start_time = start_time;
                    cliff = cliff;
                    duration = duration;
                    claimed = false;
                    revoked = false;
                    revoke_time = 0;
                  })
                  c.store.schedules;
          })
    unfolding grant_vesting
    grant_stored admin beneficiary amount start_time cliff duration id c d fits h = ground arith

    claim_parts :
        (id beneficiary : ℕ) (x : ℤ) (c d : State) (s : VestingSchedule) (token : ℕ)
        → lookup id c.store.schedules ≡ some s
        → c.store.token ≡ some token
        → claim client env id beneficiary c ≡ done (x, d)
        → (env.authorized beneficiary ≡ true)
          × (s.beneficiary ≡ beneficiary)
          × (s.claimed ≡ false)
          × (s.revoked ≡ false)
          × (calculate_vested_amount s env.timestamp ≡ some x)
          × (x ≢ pos 0)
          × (x ≤ℤ balance c.tokens token env.current_contract)
          × (transfer c.tokens token env.current_contract beneficiary x ≡ some d.tokens)
          × (d.store ≡ record (c.store) {
            schedules = insert id (record s { claimed = true }) c.store.schedules;
          })
    unfolding claim
    claim_parts id beneficiary x c d s token was stored h = ground arith

    -- A claim that succeeds is signed by the beneficiary of a schedule that is neither claimed nor
    -- revoked. It pays the beneficiary what has vested by now, which for an admitted schedule is
    -- positive and at most the grant, and marks the schedule claimed.
    pub claim_pays :
        (id beneficiary : ℕ) (x : ℤ) (c d : State) (s : VestingSchedule) (token : ℕ)
        → IsSchedule s
        → lookup id c.store.schedules ≡ some s
        → c.store.token ≡ some token
        → claim client env id beneficiary c ≡ done (x, d)
        → (env.authorized beneficiary ≡ true)
          × (s.beneficiary ≡ beneficiary)
          × (s.claimed ≡ false)
          × (s.revoked ≡ false)
          × (calculate_vested_amount s env.timestamp ≡ some x)
          × (pos 1 ≤ℤ x)
          × (x ≤ℤ s.amount)
          × (transfer c.tokens token env.current_contract beneficiary x ≡ some d.tokens)
          × (d.store ≡ record (c.store) {
            schedules = insert id (record s { claimed = true }) c.store.schedules;
          })
    claim_pays id beneficiary x c d s token w was stored h =
        let (u, b, n, r, v, nz, _, t, now) =
          claim_parts id beneficiary x c d s token was stored h in
        let (lo, hi) = vested_bounds s env.timestamp x w v in
        (u, b, n, r, v, grind (int_laws, lo, nz), hi, t, now)

    -- A revocation that succeeds is made by the administrator, of a schedule that is neither claimed
    -- nor revoked, no sooner than the given delay, of an hour at least, after its start; it marks the
    -- schedule revoked and moves no tokens.
    pub revoke_closes :
        (id admin delay : ℕ) (c d : State) (s : VestingSchedule)
        → lookup id c.store.schedules ≡ some s
        → revoke client env id admin delay c ≡ done (tt, d)
        → (c.store.admin ≡ some admin)
          × (env.authorized admin ≡ true)
          × (s.claimed ≡ false)
          × (s.revoked ≡ false)
          × (s.start_time + 3600 ≤ env.timestamp)
          × (d.tokens ≡ c.tokens)
          × (d.store ≡ record (c.store) {
            schedules =
                insert id
                  (record s { revoked = true; revoke_time = env.timestamp })
                  c.store.schedules;
          })
    unfolding revoke
    revoke_closes id admin delay c d s was h = ground arith

    closed_refuses :
        (id beneficiary : ℕ) (x : ℤ) (c d : State) (s : VestingSchedule)
        → lookup id c.store.schedules ≡ some s
        → s.claimed ≡ true
        → claim client env id beneficiary c ≡ done (x, d)
        → ⊥
    unfolding claim
    closed_refuses id beneficiary x c d s was over h = ground arith

  -- A schedule is claimed once: no claim of it, by anybody at any time, succeeds in the state that a
  -- claim leaves.
  pub claim_once :
      (first second : Env) (id a b : ℕ) (x y : ℤ) (c d e : State) (s : VestingSchedule) (token : ℕ)
      → lookup id c.store.schedules ≡ some s
      → c.store.token ≡ some token
      → claim client first id a c ≡ done (x, d)
      → ¬ (claim client second id b d ≡ done (y, e))
  claim_once first second id a b x y c d e s token was stored h k =
      let (_, _, _, _, _, _, _, _, now) = claim_parts first id a x c d s token was stored h in
      closed_refuses second id b y d e (record s { claimed = true })
        (rw now (
          ground (
            arith,
            lookup-insert id id (record s { claimed = true }) c.store.schedules,
            (==_iff id id).1 refl,
          )))
        refl k
