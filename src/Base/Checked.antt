-- ===== src/Base/Checked.antt =====
-- Rust's unsigned integers as native numbers: the checked and saturating operations of a width.
use Prim.Native.Nat.{ℕ, ◌+◌, ◌-◌, ◌*◌, ◌^◌, ◌≤◌, ◌<◌}
use mathlib.Core.Path.{◌≡◌}
use native.Mathlib.Omega.{arith}
use mathlib.Core.Option.{Option, none, some}
use coinflip_program.Base.Tests.{ltb, leb, if◌then◌else◌}

abbrev pub u16_width : ℕ
u16_width = 16

abbrev pub u64_width : ℕ
u64_width = 64

abbrev pub u128_width : ℕ
u128_width = 128

abbrev pub u64_max : ℕ
u64_max = 2 ^ 64 - 1

-- `n` is a value of the unsigned type of `w` bits.
abbrev pub Fits : ℕ → ℕ → Type 0
Fits w n = n < 2 ^ w

-- `checked_add`, `checked_mul` and `try_from` at a width.
abbrev pub checked : ℕ → ℕ → Option ℕ
checked w n = if ltb n (2 ^ w) then some n else none

abbrev pub checked_add : ℕ → ℕ → ℕ → Option ℕ
checked_add w a b = checked w (a + b)

abbrev pub checked_mul : ℕ → ℕ → ℕ → Option ℕ
checked_mul w a b = checked w (a * b)

abbrev pub checked_sub : ℕ → ℕ → Option ℕ
checked_sub a b = if leb b a then some (a - b) else none

abbrev pub saturating_mul : ℕ → ℕ → ℕ → ℕ
saturating_mul w a b = if ltb (a * b) (2 ^ w) then a * b else 2 ^ w - 1

-- Truncated subtraction on ℕ is `saturating_sub`.
abbrev pub saturating_sub : ℕ → ℕ → ℕ
saturating_sub a b = a - b

pub checked-Fits : (w n : ℕ) → Fits w n → checked w n ≡ some n
checked-Fits w n h = ground arith

pub checked_overflow : (w n : ℕ) → 2 ^ w ≤ n → checked w n ≡ none
checked_overflow w n h = ground arith

pub mul_mono : (a b c d : ℕ) → a ≤ c → b ≤ d → a * b ≤ c * d
mul_mono a b c d h k = grind arith
