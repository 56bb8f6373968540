-- ===== src/Fees.antt =====
-- The fee arithmetic of src/state.rs, in u64 and u128 with every overflow an error.
pub mod Bounds
mod Tests
use coinflip_program.Base.{
  ℕ, ◌+◌, ◌-◌, ◌*◌, ◌/◌, checked, checked_add, checked_mul, checked_sub, u64_width, u128_width,
}
use coinflip_program.Error.{Result, ok_or, arithmetic_overflow, ◌>>=◌}
use coinflip_program.State.{bps_denominator, trade_fee_bps}

-- `u64::try_from`
abbrev to_u64 : ℕ → Result ℕ
to_u64 n = ok_or (checked u64_width n) arithmetic_overflow

unfoldable pub pot_fee : ℕ → ℕ → Result ℕ
pot_fee amount fee_bps = do
  pot ← ok_or (checked_mul u64_width amount 2) arithmetic_overflow
  product ← ok_or (checked_mul u128_width pot fee_bps) arithmetic_overflow
  to_u64 (product / bps_denominator)

unfoldable pub trade_fee : ℕ → ℕ → Result ℕ
trade_fee amount fee_bps = do
  product ← ok_or (checked_mul u128_width amount fee_bps) arithmetic_overflow
  to_u64 (product / bps_denominator)

unfoldable pub max_swap_in_after_fee : ℕ → Result ℕ
max_swap_in_after_fee max_pay = do
  keep ← ok_or (checked_sub bps_denominator trade_fee_bps) arithmetic_overflow
  product ← ok_or (checked_mul u128_width max_pay keep) arithmetic_overflow
  to_u64 (product / bps_denominator)

unfoldable pub min_swap_out_before_fee : ℕ → Result ℕ
min_swap_out_before_fee min_out = do
  keep ← ok_or (checked_sub bps_denominator trade_fee_bps) arithmetic_overflow
  product ← ok_or (checked_mul u128_width min_out bps_denominator) arithmetic_overflow
  sum ← ok_or (checked_add u128_width product (keep - 1)) arithmetic_overflow
  to_u64 (sum / keep)
