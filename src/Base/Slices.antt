-- ===== src/Base/Slices.antt =====
-- Slices of byte strings that are put together from parts, and the round trip of little-endian
-- integers.
use Prim.Native.Nat.{ℕ, zero, suc, ◌+◌, ◌-◌, ◌*◌, ◌/◌, ◌^◌, ◌<◌}
use mathlib.Core.Path.{◌≡◌, refl, ap}
use mathlib.Core.List.{[], ◌∷◌, ◌++◌}
use native.Mathlib.Omega.{arith}
use native.Mathlib.Nat.{pow-suc}
use coinflip_program.Base.ByteStrings.{Bytes, length, take, drop, slice, to_le_bytes, from_le_bytes}

pub take-append : (xs ys : Bytes) → take (length xs) (xs ++ ys) ≡ xs
take-append [] ys = refl
take-append (x ∷ xs) ys = ap (λ t. x ∷ t) (take-append xs ys)

pub drop-append : (xs ys : Bytes) → drop (length xs) (xs ++ ys) ≡ ys
drop-append [] ys = refl
drop-append (x ∷ xs) ys = drop-append xs ys

-- A part in the middle is found at its place.
pub slice_middle :
    (before middle after : Bytes) (from to : ℕ)
    → from ≡ length before
    → to ≡ from + length middle
    → slice (before ++ (middle ++ after)) from to ≡ middle
slice_middle before middle after from to a b =
    let width : to - from ≡ length middle = omega arith in
    rw (width, a) (rw drop-append (take-append middle after))

pub from_le-to_le : (n v : ℕ) → v < 256 ^ n → from_le_bytes (to_le_bytes n v) ≡ v
unfolding from_le_bytes to_le_bytes
from_le-to_le zero v h = omega arith
from_le-to_le (suc n) v h =
    let smaller : v < 256 ^ n * 256 = rw (← pow-suc) h in
    omega (arith, from_le-to_le n (v / 256) (omega arith))
