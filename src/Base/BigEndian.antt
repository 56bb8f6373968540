-- ===== src/Base/BigEndian.antt =====
-- Numbers as bytes with the most significant byte first, and bytes that are all zeros.
use Prim.Native.Nat.{ℕ, zero, suc, ◌*◌, ◌/◌, ◌%◌, ◌^◌, ◌<◌}
use mathlib.Core.Path.{◌≡◌, refl, ap, ◌∙◌}
use mathlib.Core.Bool.{Bool, true, ◌&&◌}
use mathlib.Core.List.{[], ◌∷◌}
use native.Mathlib.Omega.{arith}
use native.Mathlib.Nat.{pow-suc}
use coinflip_program.Base.Tests.{◌==◌}
use coinflip_program.Base.ByteStrings.{
  Bytes, replicate, to_be_loop, from_be_loop, to_be_bytes, from_be_bytes, to_le_bytes,
}

from_be_loop-to_be_loop :
    (n v : ℕ) (out : Bytes) → v < 256 ^ n → from_be_loop 0 (to_be_loop n v out) ≡ from_be_loop v out
unfolding from_be_loop to_be_loop
from_be_loop-to_be_loop zero v out h = ap (λ a. from_be_loop a out) (omega arith)
from_be_loop-to_be_loop (suc n) v out h =
    let smaller : v < 256 ^ n * 256 = rw (← pow-suc) h in
    from_be_loop-to_be_loop n (v / 256) (v % 256 ∷ out) (omega arith)
    ∙ ap (λ a. from_be_loop a out) (omega arith)

pub from_be-to_be : (n v : ℕ) → v < 256 ^ n → from_be_bytes (to_be_bytes n v) ≡ v
unfolding from_be_bytes to_be_bytes from_be_loop
from_be-to_be n v h = from_be_loop-to_be_loop n v [] h

pub all_zero : Bytes → Bool
all_zero [] = true
all_zero (b ∷ bs) = b == 0 && all_zero bs

pub all_zero-replicate : (n : ℕ) → all_zero (replicate n 0) ≡ true
unfolding all_zero
all_zero-replicate zero = refl
all_zero-replicate (suc n) = all_zero-replicate n

to_be_loop-zero :
    (n v : ℕ) (out : Bytes)
    → v < 256 ^ n
    → all_zero (to_be_loop n v out) ≡ true
    → (v ≡ 0) × (all_zero out ≡ true)
unfolding to_be_loop all_zero
to_be_loop-zero zero v out h z = (omega arith, z)
to_be_loop-zero (suc n) v out h z =
    let smaller : v < 256 ^ n * 256 = rw (← pow-suc) h in
    let (high, low) = to_be_loop-zero n (v / 256) (v % 256 ∷ out) (omega arith) z in
    ground (arith, high, low)

pub to_be_bytes-zero : (n v : ℕ) → v < 256 ^ n → to_be_bytes n v ≡ replicate n 0 → v ≡ 0
unfolding to_be_bytes
to_be_bytes-zero n v h e = (to_be_loop-zero n v [] h (ap all_zero e ∙ all_zero-replicate n)).0

pub to_le_bytes-zero : (n v : ℕ) → v < 256 ^ n → to_le_bytes n v ≡ replicate n 0 → v ≡ 0
unfolding to_le_bytes
to_le_bytes-zero zero v h e = omega arith
to_le_bytes-zero (suc n) v h e =
    let smaller : v < 256 ^ n * 256 = rw (← pow-suc) h in
    let (low, high) = cons_parts e in
    omega (arith, to_le_bytes-zero n (v / 256) (omega arith) high, low)
  where
    cons_parts : {a b : ℕ} {xs ys : Bytes} → a ∷ xs ≡ b ∷ ys → (a ≡ b) × (xs ≡ ys)
    cons_parts e = (cc, cc)
