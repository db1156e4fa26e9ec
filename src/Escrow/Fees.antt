-- ===== src/Escrow/Fees.antt =====
-- contracts/escrow/src/release.rs: the protocol fee and the net payout of a release.
use chain_verse_onchain.Common.{
  ℕ, ◌-◌, ◌*◌, ◌/◌, ◌^◌, ◌≤◌, ◌<◌, ◌≡◌, arith, ℤ, pos, negsuc, pos_part, ◌+ℤ◌, ◌-ℤ◌, ◌≤ℤ◌, i128_max,
  ltb_ℤ, ltb, if◌then◌else◌, Result, ok, err,
}
use chain_verse_onchain.Escrow.Types.{EscrowError, invalid_amount}

-- `n as i128`, of a `u128`.
abbrev as_i128 : ℕ → ℤ
as_i128 n = if ltb n (2 ^ 127) then pos n else negsuc (2 ^ 128 - n - 1)

unfoldable pub compute_fee_and_payout : ℤ → ℕ → Result EscrowError (ℤ × ℤ)
compute_fee_and_payout amount fee_bps =
    if ltb_ℤ amount (pos 0)
    then err invalid_amount
    else if ltb (2 ^ 128 - 1) (pos_part amount * fee_bps)
    then err invalid_amount
    else if ltb (pos_part amount) (pos_part amount * fee_bps / 10_000)
    then err invalid_amount
    else ok (
      as_i128 (pos_part amount * fee_bps / 10_000),
      as_i128 (pos_part amount - pos_part amount * fee_bps / 10_000),
    )

-- The fee and the payout are not negative and add up to the amount, so nothing is lost in rounding.
pub compute_fee_and_payout-sum :
    (amount fee payout : ℤ) (fee_bps : ℕ)
    → amount ≤ℤ i128_max
    → compute_fee_and_payout amount fee_bps ≡ ok (fee, payout)
    → (pos 0 ≤ℤ fee) × (pos 0 ≤ℤ payout) × (fee +ℤ payout ≡ amount)
unfolding compute_fee_and_payout ◌+ℤ◌
compute_fee_and_payout-sum amount fee payout bps fits h = ground arith

-- The fee as a formula.
abbrev pub fee_of : ℤ → ℕ → ℤ
fee_of amount fee_bps = pos (pos_part amount * fee_bps / 10_000)

fee_le : (n bps : ℕ) → bps ≤ 10_000 → n * bps / 10_000 ≤ n
fee_le n bps h = grind arith

-- For an amount that is not negative, a rate of at most 100 % and a product that fits a `u128` the
-- computation does not fail, and gives the truncated fee and the rest.
pub compute_fee_and_payout-ok :
    (amount : ℤ) (fee_bps : ℕ)
    → pos 0 ≤ℤ amount
    → amount ≤ℤ i128_max
    → fee_bps ≤ 10_000
    → pos_part amount * fee_bps < 2 ^ 128
    → compute_fee_and_payout amount fee_bps
      ≡ ok (fee_of amount fee_bps, amount -ℤ fee_of amount fee_bps)
unfolding compute_fee_and_payout ◌-ℤ◌
compute_fee_and_payout-ok (pos n) bps lo hi h small = ground (arith, fee_le n bps h)
compute_fee_and_payout-ok (negsuc n) bps lo hi h small = absurd (omega arith)
