-- ===== src/Admin/Migration.antt =====
-- The two migrations of src/instructions/admin.rs: accounts of an older layout are lengthened, and
-- the configuration's new fields get their defaults. They work on the accounts' bytes.
pub mod Layout
pub mod Filling
pub mod Encoding
pub mod Resizing
pub mod Outcome
pub mod Again
pub mod Valid
use coinflip_program.Base.{
  ℕ, ◌+◌, ◌-◌, Bool, true, false, Bytes, [], ◌∷◌, ◌++◌, ◌==◌, leb, ltb, if◌then◌else◌, length, take,
  drop, slice, replicate, bytes_eq, update, to_le_bytes, from_be_bytes, saturating_sub, u64_width,
}
use coinflip_program.Error.{Result, ok, check, require, seeds, unauthorized, ◌>>=◌, ◌>>◌}
use coinflip_program.State.{
  Pubkey, config_seed, token_seed, key_bytes, program_id, default_sol_min_amount,
  default_sol_max_amount,
}
use coinflip_program.Runtime.{Ledger, Runtime}
use coinflip_program.Accounts.{require_signer, require_keys_eq}
use coinflip_program.Vrf.{orao_vrf_id}

pub record MigrateConfig : Type 0 where
  pub config : Pubkey
  pub authority : Pubkey

pub record MigrateTokenConfig : Type 0 where
  pub config : Pubkey
  pub token_config : Pubkey
  pub authority : Pubkey

-- `8 + Config::INIT_SPACE` and `8 + TokenConfig::INIT_SPACE`
abbrev pub config_space : ℕ
config_space = 188

abbrev token_config_space : ℕ
token_config_space = 123

-- The offsets of the configuration's last three fields.
abbrev pub sol_max_off : ℕ
sol_max_off = 180

abbrev pub vrf_off : ℕ
vrf_off = 148

abbrev pub sol_off : ℕ
sol_off = 140

unfoldable pub require_config_authority : (config authority : Pubkey) → Ledger → Result (Unit {0})
require_config_authority config authority s = do
  let bytes = s.bytes config
  require (leb 40 (length bytes)) unauthorized
  require_keys_eq (from_be_bytes (slice bytes 8 40)) authority unauthorized

-- A field that is all zeros takes its default.
unfoldable pub fill : (off : ℕ) → Bytes → Bytes → Bytes
fill off default bytes =
    let end = off + length default in
    if bytes_eq (slice bytes off end) (replicate (length default) 0)
    then take off bytes ++ (default ++ drop end bytes)
    else bytes

unfoldable pub fill_config : Bytes → Bytes
fill_config bytes = fill sol_max_off (to_le_bytes 8 default_sol_max_amount) (
    fill vrf_off (key_bytes orao_vrf_id)
      (fill sol_off (to_le_bytes 8 default_sol_min_amount) bytes))

unfoldable pub init_new_config_fields : Pubkey → Ledger → Result Ledger
init_new_config_fields config s = do
  require (leb (sol_max_off + 8) (length (s.bytes config))) unauthorized
  ok (record s { bytes = update s.bytes config (fill_config (s.bytes config)) })

module _ (r : Runtime) where
  -- The account is paid up to the longer data's rent and lengthened.
  unfoldable pub lengthen : (account payer : Pubkey) → ℕ → Ledger → Result Ledger
  lengthen account payer new_len s = do
    let extra = saturating_sub (r.minimum_balance new_len) (s.lamports account)
    s1 ← if ltb 0 extra then r.transfer payer account extra s else ok s
    r.realloc account new_len s1

  unfoldable pub resize_owned_account : (account payer : Pubkey) → ℕ → Ledger → Result Ledger
  resize_owned_account account payer new_len s = do
    require_keys_eq (s.owner account) program_id unauthorized
    if leb new_len (length (s.bytes account)) then ok s else lengthen account payer new_len s

  -- The typed accounts are what their bytes decode to.
  abbrev pub follow_config : Pubkey → Ledger → Ledger
  follow_config k s = record s { configs = update s.configs k (r.decode_config (s.bytes k)) }

  abbrev pub follow_token_config : Pubkey → Ledger → Ledger
  follow_token_config k s = record s {
    token_configs = update s.token_configs k (r.decode_token_config (s.bytes k));
  }

  unfoldable pub migrate_config : MigrateConfig → Ledger → Result Ledger
  migrate_config acc s = do
    require_signer acc.authority s
    check (acc.config == (r.find_program_address (config_seed ∷ []) program_id).0) seeds
    s1 ← resize_owned_account acc.config acc.authority config_space s
    require_config_authority acc.config acc.authority s1
    s2 ← init_new_config_fields acc.config s1
    ok (follow_config acc.config s2)

  unfoldable pub migrate_token_config :
      MigrateTokenConfig → (mint : Pubkey) → Ledger → Result Ledger
  migrate_token_config acc mint s = do
    require_signer acc.authority s
    check (acc.config == (r.find_program_address (config_seed ∷ []) program_id).0) seeds
    check
        (acc.token_config
          == (r.find_program_address (token_seed ∷ key_bytes mint ∷ []) program_id).0)
        seeds
    require_config_authority acc.config acc.authority s
    s1 ← resize_owned_account acc.token_config acc.authority token_config_space s
    ok (follow_token_config acc.token_config s1)
