-- ===== src/Admin/Migration/Encoding.antt =====
-- The encoding of a configuration: its length, its authority's place, and filling its new fields.
use coinflip_program.Base.{
  ℕ, ◌^◌, ◌<◌, ◌≡◌, refl, sym, ◌∙◌, arith, Bytes, ◌∷◌, ◌++◌, length, slice, to_le_bytes,
  length-append, length-to_le_bytes, length-to_be_bytes, slice_middle, from_be_bytes, from_be-to_be,
}
use mathlib.Core.List.{append_assoc}
use coinflip_program.State.{Config, key_bytes, default_sol_min_amount, default_sol_max_amount}
use coinflip_program.Vrf.{orao_vrf_id}
use coinflip_program.Runtime.{Runtime}
use coinflip_program.Admin.Migration.{config_space, fill_config}
use coinflip_program.Admin.Migration.Layout.{AreInRange, LayoutLaw, config_front, bool_byte}
use coinflip_program.Admin.Migration.Filling.{fill_config-append, or_default, pick_u64, pick_key}

abbrev pub filled : Config → Config
filled c = record c {
  sol_min_amount = or_default default_sol_min_amount c.sol_min_amount;
  vrf_program = or_default orao_vrf_id c.vrf_program;
  sol_max_amount = or_default default_sol_max_amount c.sol_max_amount;
}

or_default_fits : (default n bound : ℕ) → default < bound → n < bound → or_default default n < bound
or_default_fits default n bound h k = ground arith

pub filled-AreInRange : (c : Config) → AreInRange c → AreInRange (filled c)
filled-AreInRange c h = record {
  authority = h.authority;
  resolver = h.resolver;
  fee_bps = h.fee_bps;
  bump = h.bump;
  usdc_mint = h.usdc_mint;
  sol_usdc_pool = h.sol_usdc_pool;
  sol_min_amount =
      or_default_fits default_sol_min_amount c.sol_min_amount (2 ^ 64) (omega arith)
        h.sol_min_amount;
  vrf_program = or_default_fits orao_vrf_id c.vrf_program (2 ^ 256) (omega arith) h.vrf_program;
  sol_max_amount =
      or_default_fits default_sol_max_amount c.sol_max_amount (2 ^ 64) (omega arith)
        h.sol_max_amount;
}

-- 132 bytes: four keys, two bytes of the fee, and one each for the switch and the bump.
front_tail : Config → Bytes
front_tail c =
    key_bytes c.resolver
    ++ (to_le_bytes 2 c.fee_bps
        ++ (bool_byte c.paused ∷ c.bump ∷ (key_bytes c.usdc_mint ++ key_bytes c.sol_usdc_pool)))

config_front-authority : (c : Config) → config_front c ≡ key_bytes c.authority ++ front_tail c
unfolding config_front front_tail
config_front-authority c = refl

length-front_tail : (c : Config) → length (front_tail c) ≡ 100
unfolding front_tail
length-front_tail c =
    let keys = key_bytes c.usdc_mint ++ key_bytes c.sol_usdc_pool in
    omega (
      arith,
      length-append (key_bytes c.resolver)
          (to_le_bytes 2 c.fee_bps ++ (bool_byte c.paused ∷ c.bump ∷ keys)),
      length-append (to_le_bytes 2 c.fee_bps) (bool_byte c.paused ∷ c.bump ∷ keys),
      length-append (key_bytes c.usdc_mint) (key_bytes c.sol_usdc_pool),
      length-to_be_bytes 32 c.resolver,
      length-to_be_bytes 32 c.usdc_mint,
      length-to_be_bytes 32 c.sol_usdc_pool,
      length-to_le_bytes 2 c.fee_bps,
    )

length-config_front : (c : Config) → length (config_front c) ≡ 132
length-config_front c = rw (config_front-authority c) (
    omega (
      arith,
      length-append (key_bytes c.authority) (front_tail c),
      length-to_be_bytes 32 c.authority,
      length-front_tail c,
    ))

config_front-filled : (c : Config) → config_front (filled c) ≡ config_front c
unfolding config_front
config_front-filled c = refl

module _ (r : Runtime) (layout : LayoutLaw r) (c : Config) where
  split_front :
      r.encode_config c
      ≡ (layout.discriminator ++ config_front c)
        ++ (to_le_bytes 8 c.sol_min_amount
            ++ (key_bytes c.vrf_program ++ to_le_bytes 8 c.sol_max_amount))
  split_front = layout.encodes c ∙ sym (append_assoc layout.discriminator (config_front c) _)

  length-front : length (layout.discriminator ++ config_front c) ≡ 140
  length-front = omega (
    arith,
    length-append layout.discriminator (config_front c),
    layout.eight,
    length-config_front c,
  )

module _ (r : Runtime) (layout : LayoutLaw r) (c : Config) (h : AreInRange c) where
  -- Filling the encoding of a configuration encodes the filled one.
  pub fill_config-encode_config : fill_config (r.encode_config c) ≡ r.encode_config (filled c)
  fill_config-encode_config =
      rw
        (
          split_front r layout c,
          split_front r layout (filled c),
          config_front-filled c,
          fill_config-append (layout.discriminator ++ config_front c)
              (to_le_bytes 8 c.sol_min_amount) (key_bytes c.vrf_program)
              (to_le_bytes 8 c.sol_max_amount) (length-front r layout c)
              (length-to_le_bytes 8 c.sol_min_amount) (length-to_be_bytes 32 c.vrf_program)
              (length-to_le_bytes 8 c.sol_max_amount),
          pick_u64 default_sol_min_amount c.sol_min_amount h.sol_min_amount,
          pick_key orao_vrf_id c.vrf_program h.vrf_program,
          pick_u64 default_sol_max_amount c.sol_max_amount h.sol_max_amount,
        )
        refl

  pub length-encode_config : length (r.encode_config c) ≡ config_space
  length-encode_config = rw (split_front r layout c) (
      omega (
        arith,
        length-append (layout.discriminator ++ config_front c) (
            to_le_bytes 8 c.sol_min_amount
            ++ (key_bytes c.vrf_program ++ to_le_bytes 8 c.sol_max_amount)),
        length-append (to_le_bytes 8 c.sol_min_amount)
            (key_bytes c.vrf_program ++ to_le_bytes 8 c.sol_max_amount),
        length-append (key_bytes c.vrf_program) (to_le_bytes 8 c.sol_max_amount),
        length-front r layout c,
        length-to_le_bytes 8 c.sol_min_amount,
        length-to_be_bytes 32 c.vrf_program,
        length-to_le_bytes 8 c.sol_max_amount,
      ))

  pub authority_read : from_be_bytes (slice (r.encode_config c) 8 40) ≡ c.authority
  authority_read =
      rw
        (
          layout.encodes c,
          config_front-authority c,
          append_assoc (key_bytes c.authority) (front_tail c) _,
          slice_middle layout.discriminator (key_bytes c.authority) _ 8 40 (sym layout.eight)
              (rw (length-to_be_bytes) refl),
        )
        (from_be-to_be 32 c.authority (omega (arith, h.authority)))
