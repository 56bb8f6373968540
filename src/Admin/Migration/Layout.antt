-- ===== src/Admin/Migration/Layout.antt =====
-- The layout of a configuration's account, and what is documented of lengthening one.
use coinflip_program.Base.{
  ℕ, ◌-◌, ◌^◌, ◌≤◌, ◌<◌, ◌≡◌, Bool, true, false, Bytes, ◌∷◌, ◌++◌, some, length, replicate, update,
  to_le_bytes,
}
use coinflip_program.Error.{ok}
use coinflip_program.State.{Pubkey, Config, key_bytes}
use coinflip_program.Runtime.{Ledger, Runtime}

abbrev pub bool_byte : Bool → ℕ
bool_byte true = 1
bool_byte false = 0

-- The fields before the three that a migration fills.
unfoldable pub config_front : Config → Bytes
config_front c =
    key_bytes c.authority
    ++ (key_bytes c.resolver
        ++ (to_le_bytes 2 c.fee_bps
            ++ (bool_byte c.paused
                ∷ c.bump
                ∷ (key_bytes c.usdc_mint ++ key_bytes c.sol_usdc_pool))))

-- The fields in the order of their declaration, integers with the least significant byte first.
abbrev pub config_fields : Config → Bytes
config_fields c =
    config_front c
    ++ (to_le_bytes 8 c.sol_min_amount
        ++ (key_bytes c.vrf_program ++ to_le_bytes 8 c.sol_max_amount))

-- What the fields' types ask of the numbers that stand for them.
pub record AreInRange (c : Config) : Type 0 where
  pub authority : c.authority < 2 ^ 256
  pub resolver : c.resolver < 2 ^ 256
  pub fee_bps : c.fee_bps < 2 ^ 16
  pub bump : c.bump < 256
  pub usdc_mint : c.usdc_mint < 2 ^ 256
  pub sol_usdc_pool : c.sol_usdc_pool < 2 ^ 256
  pub sol_min_amount : c.sol_min_amount < 2 ^ 64
  pub vrf_program : c.vrf_program < 2 ^ 256
  pub sol_max_amount : c.sol_max_amount < 2 ^ 64

-- An account is a discriminator of eight bytes and the fields, and such bytes decode.
pub record LayoutLaw (r : Runtime) : Type 0 where
  pub discriminator : Bytes
  pub eight : length discriminator ≡ 8
  pub encodes : (c : Config) → r.encode_config c ≡ discriminator ++ config_fields c
  pub decodes : (c : Config) → AreInRange c → r.decode_config (r.encode_config c) ≡ some c

-- Lengthening appends zeros.
abbrev pub padded : ℕ → Bytes → Bytes
padded n bytes = bytes ++ replicate (n - length bytes) 0

pub record ReallocLaw (r : Runtime) : Type 0 where
  pub pads :
      (k : Pubkey) (n : ℕ) (s s' : Ledger)
      → length (s.bytes k) ≤ n
      → r.realloc k n s ≡ ok s'
      → s' ≡ record s { bytes = update s.bytes k (padded n (s.bytes k)) }
