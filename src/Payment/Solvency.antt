-- ===== src/Payment/Solvency.antt =====
-- contracts/payment/src/lib.rs: what the contract owes its instructors, and whether it holds it.
use chain_verse_onchain.Common.{
  ℕ, ◌*◌, ◌/◌, ◌≤◌, ◌≡◌, refl, arith, false, some, ℤ, pos, negsuc, *ℤ_pos, ◌+ℤ◌, ◌-ℤ◌, ◌*ℤ◌, div_ℤ,
  ◌≤ℤ◌, int_laws, lookup-insert, insert, nat_eq, pair_eq, sum_by, sum_by-insert, ◌==◌, ==_iff, Env,
  TokenClient, done, pay_out_bound, pay_in_exact,
}
use chain_verse_onchain.Payment.{
  PaymentRecord, Store, read_token, read_fee_percent, read_payment_record, read_instructor_balance,
}
use chain_verse_onchain.Payment.Calls
use chain_verse_onchain.Payment.Effects.{
  State, fee_of, Pays, pay_for_course-Pays, refund_returns, withdraw_earnings_drains,
}

abbrev whole : ℕ → ℤ → ℤ
whole i x = x

-- What the contract owes its instructors together.
abbrev pub owed : Store → ℤ
owed s = sum_by whole s.instructor_balances

fee_pos : (n p : ℕ) → fee_of (pos n) p ≡ pos (n * p / 10000)
unfolding div_ℤ
fee_pos n p = rw (*ℤ_pos n p) refl

fifth : (n p : ℕ) → p ≤ 2000 → n * p / 10000 * 5 ≤ n
fifth n p h = grind arith

-- The fee on a positive amount is not negative, and five times the fee is at most the amount.
pub fee_of_bounds :
    (amount : ℤ) (p : ℕ)
    → pos 1 ≤ℤ amount
    → p ≤ 2000
    → (pos 0 ≤ℤ fee_of amount p) × (fee_of amount p *ℤ pos 5 ≤ℤ amount)
fee_of_bounds (pos n) p lo hi =
    let le = fifth n p hi in
    rw (fee_pos n p, *ℤ_pos (n * p / 10000) 5) (omega arith, omega (arith, le))
fee_of_bounds (negsuc n) p lo hi = absurd (omega (arith, lo))

owed-insert :
    (i : ℕ) (x : ℤ) (s : Store)
    → sum_by whole (insert i x s.instructor_balances) ≡ owed s -ℤ read_instructor_balance i s +ℤ x
owed-insert i x s = grind (int_laws, sum_by-insert whole i x s.instructor_balances)

module _ (client : TokenClient) (zero_address : ℕ) where
  open client use {World, balance, transfer, transfer_moves}

  -- What the contract holds of its token beyond what it owes.
  abbrev pub slack : (self : ℕ) → State client zero_address → ℤ
  slack self c = balance c.tokens (read_token zero_address c.store) self -ℤ owed c.store

  module _ (env : Env) (c d : State client zero_address) where
    -- A payment adds to what is owed the amount less the fee.
    Pays-owed :
        (student course_id instructor : ℕ) (amount : ℤ)
        → Pays client zero_address env student course_id instructor amount c d
        → owed d.store ≡ owed c.store +ℤ (amount -ℤ fee_of amount (read_fee_percent c.store))
    Pays-owed student course_id instructor amount p =
        rw
          (
            p.stored,
            owed-insert instructor
                (read_instructor_balance instructor c.store
                  +ℤ (amount -ℤ fee_of amount (read_fee_percent c.store)))
                c.store,
          )
          (omega int_laws)

  module _ (env : Env) (c d : State client zero_address) where
    -- A payment by somebody else raises the slack by the fee, which is not negative.
    pub Pays-slack :
        (student course_id instructor : ℕ) (amount : ℤ)
        → (student == env.current_contract) ≡ false
        → Pays client zero_address env student course_id instructor amount c d
        → (slack env.current_contract d
            ≡ slack env.current_contract c +ℤ fee_of amount (read_fee_percent c.store))
          × (slack env.current_contract c ≤ℤ slack env.current_contract d)
    Pays-slack student course_id instructor amount ne p =
        let t = read_token zero_address c.store in
        let o = Pays-owed env c d student course_id instructor amount p in
        let (lo, _) = fee_of_bounds amount (read_fee_percent c.store) p.positive p.capped in
        let m =
          pay_in_exact client c.tokens d.tokens t student env.current_contract amount t ne
            p.moved in
        let same : read_token zero_address d.store ≡ t = rw p.stored refl in
        let now : slack env.current_contract d
            ≡ slack env.current_contract c +ℤ fee_of amount (read_fee_percent c.store) =
          rw (same, o, m, (==_iff t t).1 refl) (omega int_laws) in
        (now, rw now (omega (int_laws, lo)))

    -- A withdrawal takes no more from the slack than it pays off.
    pub withdraw-slack :
        (instructor : ℕ)
        → Calls.withdraw_earnings client zero_address env instructor c ≡ done (tt, d)
        → slack env.current_contract c ≤ℤ slack env.current_contract d
    withdraw-slack instructor h =
        let t = read_token zero_address c.store in
        let x = read_instructor_balance instructor c.store in
        let (_, _, p, now, _) = withdraw_earnings_drains client zero_address env instructor c d h in
        let m = pay_out_bound client c.tokens d.tokens t env.current_contract instructor x t p in
        let le : balance c.tokens t env.current_contract
            ≤ℤ balance d.tokens t env.current_contract +ℤ x =
          rw ((==_iff t t).1 refl) at m in
        rw (now, owed-insert instructor (pos 0) c.store) (omega (int_laws, le))

  -- A payment is settled and then refunded within the window: every balance of every token is as it was
  -- before the payment, while the contract still owes the instructor the amount less the fee.
  pub refund-pay_for_course :
      (env env' : Env) (student course_id instructor admin : ℕ) (amount : ℤ)
      (c d e : State client zero_address)
      → env'.current_contract ≡ env.current_contract
      → c.store.admin ≡ some admin
      → Calls.pay_for_course client zero_address env student course_id instructor amount c
        ≡ done (tt, d)
      → Calls.refund client zero_address env' student course_id d ≡ done (tt, e)
      → ((t a : ℕ) → balance e.tokens t a ≡ balance c.tokens t a)
        × (owed e.store ≡ owed c.store +ℤ (amount -ℤ fee_of amount (read_fee_percent c.store)))
  refund-pay_for_course env env' student course_id instructor admin amount c d e same a h k =
      let p =
        pay_for_course-Pays client zero_address env student course_id c d instructor amount h in
      let k0 : ℕ × ℕ = (student, course_id) in
      let r : PaymentRecord = record {
        student = student;
        course_id = course_id;
        amount = amount;
        paid_at = env.timestamp;
      } in
      let found : read_payment_record student course_id d.store ≡ some r =
        rw (p.stored, lookup-insert k0 k0 r c.store.payment_records, (pair_eq.beq_iff k0 k0).1 refl)
          refl in
      let admin_still : d.store.admin ≡ some admin = rw p.stored a in
      let (_, _, _, m, now, _) =
        refund_returns client zero_address env' student course_id d e admin r admin_still found k in
      let t0 = read_token zero_address c.store in
      let same_token : read_token zero_address d.store ≡ t0 = rw p.stored refl in
      let back : transfer d.tokens t0 env.current_contract student amount ≡ some e.tokens =
        rw (same_token, same) at m in
      (
        λ t b.
            let there =
              transfer_moves c.tokens d.tokens t0 student env.current_contract amount t b p.moved in
            let here =
              transfer_moves d.tokens e.tokens t0 env.current_contract student amount t b back in
            grind (int_laws, there, here),
        rw now (Pays-owed env c d student course_id instructor amount p),
      )
