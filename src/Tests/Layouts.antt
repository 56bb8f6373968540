-- ===== src/Tests/Layouts.antt =====
-- In the world of the tests, a configuration's data decodes to it, and longer data is padded.
use coinflip_program.Base.{
  ℕ, ◌^◌, ◌<◌, ◌≡◌, refl, arith, ap, Bool, true, false, Bytes, ◌++◌, some, slice, get_or, ◌==◌,
  to_be_bytes, to_le_bytes, from_be_bytes, from_le_bytes, from_be-to_be, from_le-to_le,
}
use coinflip_program.State.{Config, key_bytes}
use coinflip_program.Admin.Migration.Layout.{
  config_front, config_fields, bool_byte, AreInRange, LayoutLaw, ReallocLaw,
}
use coinflip_program.Tests.World.{discriminator, read_config, runtime}
use coinflip_program.Tests.Laws.{same_ledger}

abbrev encoded : Config → Bytes
encoded c = discriminator ++ config_fields c

-- The slices of an encoding, by their offsets.
module _ (c : Config) where
  authority_bytes : slice (encoded c) 8 40 ≡ key_bytes c.authority
  unfolding config_front to_be_bytes to_le_bytes
  authority_bytes = refl

  resolver_bytes : slice (encoded c) 40 72 ≡ key_bytes c.resolver
  unfolding config_front to_be_bytes to_le_bytes
  resolver_bytes = refl

  fee_bps_bytes : slice (encoded c) 72 74 ≡ to_le_bytes 2 c.fee_bps
  unfolding config_front to_be_bytes to_le_bytes
  fee_bps_bytes = refl

  usdc_mint_bytes : slice (encoded c) 76 108 ≡ key_bytes c.usdc_mint
  unfolding config_front to_be_bytes to_le_bytes
  usdc_mint_bytes = refl

  sol_usdc_pool_bytes : slice (encoded c) 108 140 ≡ key_bytes c.sol_usdc_pool
  unfolding config_front to_be_bytes to_le_bytes
  sol_usdc_pool_bytes = refl

  sol_min_amount_bytes : slice (encoded c) 140 148 ≡ to_le_bytes 8 c.sol_min_amount
  unfolding config_front to_be_bytes to_le_bytes
  sol_min_amount_bytes = refl

  vrf_program_bytes : slice (encoded c) 148 180 ≡ key_bytes c.vrf_program
  unfolding config_front to_be_bytes to_le_bytes
  vrf_program_bytes = refl

  sol_max_amount_bytes : slice (encoded c) 180 188 ≡ to_le_bytes 8 c.sol_max_amount
  unfolding config_front to_be_bytes to_le_bytes
  sol_max_amount_bytes = refl

  flag_bytes : (get_or (encoded c) 74 0 ≡ bool_byte c.paused) × (get_or (encoded c) 75 0 ≡ c.bump)
  unfolding config_front to_be_bytes to_le_bytes
  flag_bytes = (refl, refl)

byte_flag : (b : Bool) → bool_byte b == 1 ≡ b
byte_flag true = refl
byte_flag false = refl

key_read : (k : ℕ) → k < 2 ^ 256 → from_be_bytes (key_bytes k) ≡ k
key_read k h = from_be-to_be 32 k (omega arith)

u64_read : (n : ℕ) → n < 2 ^ 64 → from_le_bytes (to_le_bytes 8 n) ≡ n
u64_read n h = from_le-to_le 8 n (omega arith)

read_config-encoded : (c : Config) → AreInRange c → read_config (encoded c) ≡ c
unfolding read_config
read_config-encoded c h =
    rw
      (
        authority_bytes c,
        resolver_bytes c,
        fee_bps_bytes c,
        (flag_bytes c).0,
        (flag_bytes c).1,
        usdc_mint_bytes c,
        sol_usdc_pool_bytes c,
        sol_min_amount_bytes c,
        vrf_program_bytes c,
        sol_max_amount_bytes c,
        byte_flag c.paused,
        key_read c.authority h.authority,
        key_read c.resolver h.resolver,
        from_le-to_le 2 c.fee_bps (omega (arith, h.fee_bps)),
        key_read c.usdc_mint h.usdc_mint,
        key_read c.sol_usdc_pool h.sol_usdc_pool,
        u64_read c.sol_min_amount h.sol_min_amount,
        key_read c.vrf_program h.vrf_program,
        u64_read c.sol_max_amount h.sol_max_amount,
      )
      refl

pub runtime-LayoutLaw : LayoutLaw runtime
unfolding runtime
runtime-LayoutLaw = record {
  discriminator = discriminator;
  eight = refl;
  encodes = λ c. refl;
  decodes = λ c h. ap some (read_config-encoded c h);
}

pub runtime-ReallocLaw : ReallocLaw runtime
unfolding runtime
runtime-ReallocLaw = record { pads = λ k n s s' short h. let e = same_ledger h in cc }
