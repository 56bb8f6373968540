-- ===== src/Pools.antt =====
-- The choice of pools for a payment in SOL or USDC: `allowed_pools` of src/instructions/participate.rs
-- and `trade_pools` of src/instructions/trade.rs. A second pool means two hops over the SOL-USDC pool.
pub mod Routes
use coinflip_program.Base.{
  ℕ, Bool, true, false, Option, some, none, ◌==◌, ◌&&◌, ◌||◌, not, if◌then◌else◌,
}
use coinflip_program.Error.{
  Result, ok, require, ok_or, invalid_pay_mint, sol_usdc_pool_not_set, token_not_enabled,
  invalid_mint, pool_required, invalid_quote_mint, ◌>>=◌, ◌>>◌,
}
use coinflip_program.State.{Pubkey, Config, TokenConfig, default_key, is_sol_mint, effective_mint}
use coinflip_program.Accounts.{Account, require_keys_eq}

abbrev pub Route : Type 0
Route = Pubkey × Option Pubkey

abbrev is_set : Pubkey → Bool
is_set k = not (k == default_key)

abbrev sol_usdc_route : Config → Result Route
sol_usdc_route config = do
  require (is_set config.sol_usdc_pool) sol_usdc_pool_not_set
  ok (config.sol_usdc_pool, none)

unfoldable pub allowed_pools :
    Config → Option TokenConfig → (game_mint pay_mint : Pubkey) → Result Route
allowed_pools config token_config game_mint pay_mint =
    let usdc = config.usdc_mint in
    if is_sol_mint game_mint
    then (do require (is_set usdc && pay_mint == usdc) invalid_pay_mint; sol_usdc_route config)
    else if is_set usdc && game_mint == usdc && is_sol_mint pay_mint
    then sol_usdc_route config
    else (do
      t ← ok_or token_config token_not_enabled
      require t.is_enabled token_not_enabled
      require_keys_eq t.mint game_mint invalid_mint
      require (not t.cross_disabled) invalid_pay_mint
      require (is_set t.pool) pool_required
      let via_usdc = pay_mint == usdc && is_sol_mint t.quote_mint
      let via_sol = is_sol_mint pay_mint && t.quote_mint == usdc
      if effective_mint pay_mint == effective_mint t.quote_mint then ok (t.pool, none) else (do
        require (via_usdc || via_sol) invalid_pay_mint
        require (is_set config.sol_usdc_pool) sol_usdc_pool_not_set
        ok (config.sol_usdc_pool, some t.pool)))

unfoldable pub trade_pools :
    Config → TokenConfig → (counter_mint : Pubkey) (buy : Bool) → Result Route
trade_pools config t counter_mint buy = do
  let quote = effective_mint t.quote_mint
  let counter = effective_mint counter_mint
  let via_usdc = counter == config.usdc_mint && is_sol_mint quote
  let via_sol = is_sol_mint counter && quote == config.usdc_mint
  require (is_sol_mint quote || quote == config.usdc_mint) invalid_quote_mint
  if counter == quote then ok (t.pool, none) else (do
    require (not t.cross_disabled) invalid_pay_mint
    require (via_usdc || via_sol) invalid_pay_mint
    require (is_set config.sol_usdc_pool) sol_usdc_pool_not_set
    ok (if buy then (config.sol_usdc_pool, some t.pool) else (t.pool, some config.sol_usdc_pool)))
