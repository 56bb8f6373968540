-- ===== src/Fees/Bounds.antt =====
-- The fees of src/state.rs: when they are computed, what they are, and how they are bounded.
use coinflip_program.Base.{
  ℕ, ◌+◌, ◌*◌, ◌/◌, ◌^◌, ◌≤◌, ◌<◌, ◌≡◌, Fits, arith, refl, checked-Fits, mul_mono, checked_overflow,
}
use coinflip_program.Error.{ok, err, coinflip, arithmetic_overflow}
use coinflip_program.State.{max_fee_bps, trade_fee_bps, bps_denominator}
use coinflip_program.Fees.{pot_fee, trade_fee, max_swap_in_after_fee, min_swap_out_before_fee}

-- A share of at most the whole of a u64 fits a u64, and the product fits a u128.
product-Fits : (n bps : ℕ) → Fits 64 n → bps ≤ bps_denominator → Fits 128 (n * bps)
product-Fits n bps h k = omega (arith, mul_mono n bps (2 ^ 64) bps_denominator (omega arith) k)

share-le : (n bps : ℕ) → bps ≤ bps_denominator → n * bps / bps_denominator ≤ n
share-le n bps k = omega (arith, mul_mono n bps n bps_denominator)

pub pot_fee-ok :
    (amount fee_bps : ℕ)
    → Fits 63 amount
    → fee_bps ≤ bps_denominator
    → pot_fee amount fee_bps ≡ ok (amount * 2 * fee_bps / bps_denominator)
unfolding pot_fee
pot_fee-ok amount fee_bps h k =
    rw
      (
        checked-Fits 64 (amount * 2) (omega arith),
        checked-Fits 128 (amount * 2 * fee_bps) (product-Fits (amount * 2) fee_bps (omega arith) k),
        checked-Fits 64 (amount * 2 * fee_bps / bps_denominator)
            (omega (arith, share-le (amount * 2) fee_bps k)),
      )
      refl

-- A pot that overflows a u64 has no fee: the computation fails.
pub pot_fee_overflow :
    (amount fee_bps : ℕ)
    → 2 ^ 63 ≤ amount
    → pot_fee amount fee_bps ≡ err (coinflip arithmetic_overflow)
unfolding pot_fee
pot_fee_overflow amount fee_bps h = rw (checked_overflow 64 (amount * 2) (omega arith))

pub trade_fee-ok :
    (amount fee_bps : ℕ)
    → Fits 64 amount
    → fee_bps ≤ bps_denominator
    → trade_fee amount fee_bps ≡ ok (amount * fee_bps / bps_denominator)
unfolding trade_fee
trade_fee-ok amount fee_bps h k = rw (
  checked-Fits 128 (amount * fee_bps) (product-Fits amount fee_bps h k),
  checked-Fits 64 (amount * fee_bps / bps_denominator) (omega (arith, share-le amount fee_bps k)),
)

pub max_swap_in_after_fee-ok :
    (max_pay : ℕ) → Fits 64 max_pay → max_swap_in_after_fee max_pay ≡ ok (max_pay * 9900 / 10000)
unfolding max_swap_in_after_fee
max_swap_in_after_fee-ok max_pay h = rw (
  checked-Fits 128 (max_pay * 9900) (product-Fits max_pay 9900 h (omega arith)),
  checked-Fits 64 (max_pay * 9900 / 10000) (omega arith),
)

pub min_swap_out_before_fee_value :
    (min_out gross : ℕ)
    → Fits 64 min_out
    → min_swap_out_before_fee min_out ≡ ok gross
    → gross ≡ (min_out * 10000 + 9899) / 9900
unfolding min_swap_out_before_fee
min_swap_out_before_fee_value min_out gross h e = ground arith

-- When the pot fits a u64 and the rate is within the program's cap, the fee is computed, is the
-- floor of the rate's share, and takes at most 5% of the pot.
pub pot_fee_capped :
    (amount fee_bps : ℕ)
    → Fits 63 amount
    → fee_bps ≤ max_fee_bps
    → (fee : ℕ) × (pot_fee amount fee_bps ≡ ok fee)
      × (fee * 10000 ≤ amount * 2 * fee_bps)
      × (amount * 2 * fee_bps < (fee + 1) * 10000)
      × (fee * 20 ≤ amount * 2)
pot_fee_capped amount fee_bps h k = (
  amount * 2 * fee_bps / 10000,
  pot_fee-ok amount fee_bps h (omega arith),
  omega arith,
  omega arith,
  omega (arith, mul_mono (amount * 2) fee_bps (amount * 2) 500 (omega arith) k),
)

-- A buyer who swaps at most what `max_swap_in_after_fee` allows never pays more than `max_pay`, a
-- u64, the trade fee included.
pub spent-le-max_pay :
    (max_pay max_in spent fee : ℕ)
    → Fits 64 max_pay
    → max_swap_in_after_fee max_pay ≡ ok max_in
    → spent ≤ max_in
    → trade_fee spent trade_fee_bps ≡ ok fee
    → spent + fee ≤ max_pay
unfolding max_swap_in_after_fee trade_fee
spent-le-max_pay max_pay max_in spent fee h e le f = ground arith

-- A seller who receives at least what `min_swap_out_before_fee` asks for keeps `min_out` at least,
-- after the trade fee.
pub min_out-le-net :
    (min_out gross received fee : ℕ)
    → min_swap_out_before_fee min_out ≡ ok gross
    → gross ≤ received
    → trade_fee received trade_fee_bps ≡ ok fee
    → min_out + fee ≤ received
unfolding min_swap_out_before_fee trade_fee
min_out-le-net min_out gross received fee e le f = ground arith
