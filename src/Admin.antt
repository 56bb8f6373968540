-- ===== src/Admin.antt =====
-- src/instructions/admin.rs: what the house may set. The two migrations are `Migration`.
pub mod Settings
pub mod Listing
pub mod Migration
use coinflip_program.Base.{
  ℕ, Bool, true, false, Option, some, none, [], ◌∷◌, ◌==◌, ◌&&◌, ◌||◌, not, leb, ltb, if◌then◌else◌,
}
use coinflip_program.Error.{
  Result, ok, check, require, seeds, unauthorized, invalid_fee_bps, invalid_min_amount,
  invalid_max_amount, pool_required, invalid_quote_mint, invalid_mint, ◌>>=◌, ◌>>◌,
}
use coinflip_program.State.{
  Pubkey, Config, TokenConfig, default_key, max_fee_bps, is_sol_mint, token_seed, key_bytes,
  program_id,
}
use coinflip_program.Runtime.{Ledger, Runtime}
use coinflip_program.Accounts.{
  load_config, require_signer, check_config_seeds, require_keys_eq, store_config,
  store_token_config,
}

-- The accounts of every instruction that changes the configuration.
pub record ConfigAccounts : Type 0 where
  pub config : Pubkey
  pub authority : Pubkey

pub record EnableToken : Type 0 where
  pub config : Pubkey
  pub token_config : Pubkey
  pub authority : Pubkey

pub record EnableTokenArgs : Type 0 where
  pub mint : Pubkey
  pub min_amount : ℕ  -- u64
  pub max_amount : ℕ  -- u64
  pub is_enabled : Bool
  pub pool : Pubkey
  pub quote_mint : Pubkey
  pub cross_disabled : Bool

-- The changes, on the configuration alone.
unfoldable pub set_authority : Pubkey → Config → Result Config
set_authority authority config = do
  require (not (authority == default_key)) unauthorized
  ok (record config { authority = authority })

unfoldable pub set_paused : Bool → Config → Result Config
set_paused paused config = ok (record config { paused = paused })

unfoldable pub set_fee_bps : ℕ → Config → Result Config
set_fee_bps fee_bps config = do
  require (leb fee_bps max_fee_bps) invalid_fee_bps
  ok (record config { fee_bps = fee_bps })

unfoldable pub set_sol_usdc_pool : (usdc_mint pool : Pubkey) → Config → Result Config
set_sol_usdc_pool usdc_mint pool config = do
  require (not (usdc_mint == default_key)) invalid_mint
  require (not (pool == default_key)) pool_required
  ok (record config { usdc_mint = usdc_mint; sol_usdc_pool = pool })

unfoldable pub set_sol_min_amount : ℕ → Config → Result Config
set_sol_min_amount sol_min_amount config = do
  require (ltb 0 sol_min_amount) invalid_min_amount
  let max = config.sol_max_amount
  if ltb 0 max then require (leb sol_min_amount max) invalid_max_amount else ok tt
  ok (record config { sol_min_amount = sol_min_amount })

unfoldable pub set_sol_max_amount : ℕ → Config → Result Config
set_sol_max_amount sol_max_amount config = do
  require (ltb 0 sol_max_amount) invalid_max_amount
  require (leb config.sol_min_amount sol_max_amount) invalid_max_amount
  ok (record config { sol_max_amount = sol_max_amount })

-- The handler's tests, and the account that it writes.
unfoldable pub token_settings : Config → EnableTokenArgs → ℕ → Result TokenConfig
token_settings config args bump = do
  let quote_ok =
      is_sol_mint args.quote_mint
      || (not (config.usdc_mint == default_key) && args.quote_mint == config.usdc_mint)
  if args.is_enabled
      then (do
        require (ltb 0 args.min_amount) invalid_min_amount
        require (leb args.min_amount args.max_amount) invalid_max_amount
        require (not (args.pool == default_key)) pool_required
        require quote_ok invalid_quote_mint)
      else ok tt
  ok (record {
    mint = args.mint;
    min_amount = args.min_amount;
    is_enabled = args.is_enabled;
    bump = bump;
    pool = args.pool;
    quote_mint = args.quote_mint;
    cross_disabled = args.cross_disabled;
    max_amount = args.max_amount;
  })

-- `init_if_needed`: an account that is there is kept.
abbrev pub init_if_needed : Option TokenConfig → Result Ledger → Ledger → Result Ledger
init_if_needed (some t) made s = ok s
init_if_needed none made s = made

-- The six instructions on the configuration, as one: what is asked for is the change.
pub data Setting : Type 0 where
  authority : Pubkey → Setting
  paused : Bool → Setting
  fee_bps : ℕ → Setting
  sol_usdc_pool : Pubkey → Pubkey → Setting
  sol_min_amount : ℕ → Setting
  sol_max_amount : ℕ → Setting

abbrev pub apply_setting : Setting → Config → Result Config
apply_setting (authority k) = set_authority k
apply_setting (paused b) = set_paused b
apply_setting (fee_bps n) = set_fee_bps n
apply_setting (sol_usdc_pool mint pool) = set_sol_usdc_pool mint pool
apply_setting (sol_min_amount n) = set_sol_min_amount n
apply_setting (sol_max_amount n) = set_sol_max_amount n

module _ (r : Runtime) where
  -- `seeds`, `bump` and `has_one = authority @ Unauthorized`
  unfoldable pub load_admin : (config authority : Pubkey) → Ledger → Result Config
  unfolding check_config_seeds
  load_admin config_key authority_key s = do
    config ← load_config config_key s
    require_signer authority_key s
    check_config_seeds r config_key config
    require_keys_eq config.authority authority_key unauthorized
    ok config

  unfoldable pub configure : ConfigAccounts → Setting → Ledger → Result Ledger
  configure acc setting s = do
    config ← load_admin acc.config acc.authority s
    config' ← apply_setting setting config
    ok (store_config r acc.config config' s)

  unfoldable pub enable_token : EnableToken → EnableTokenArgs → Ledger → Result Ledger
  unfolding check_config_seeds
  enable_token acc args s = do
    config ← load_config acc.config s
    require_signer acc.authority s
    let address = r.find_program_address (token_seed ∷ key_bytes args.mint ∷ []) program_id
    check (acc.token_config == address.0) seeds
    s1 ←
        init_if_needed (s.token_configs acc.token_config) (r.init acc.authority acc.token_config s)
          s
    check_config_seeds r acc.config config
    require_keys_eq config.authority acc.authority unauthorized
    token_config ← token_settings config args address.1
    ok (store_token_config r acc.token_config token_config s1)
