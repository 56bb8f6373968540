-- ===== src/Trade.antt =====
-- src/instructions/trade.rs: buying and selling a listed token for SOL or USDC, with the 1% fee for
-- the house. The two instructions have the same accounts: what is paid on a purchase is received on
-- a sale, and `counter` stands for both here.
pub mod Hops
pub mod Buy
pub mod Sell
use coinflip_program.Base.{
  ℕ, ◌≡◌, Bool, true, false, List, Option, some, none, ◌==◌, ◌&&◌, ◌||◌, not, leb, ltb,
  if◌then◌else◌, length, checked_sub,
}
use coinflip_program.Error.{
  Result, ok, require, ok_or, unauthorized, arithmetic_overflow, invalid_pay_mint, invalid_mint,
  invalid_swap_accounts, token_not_enabled, pool_required, amount_below_minimum,
  amount_above_maximum, token_account_mismatch, token_account_required, ◌>>=◌, ◌>>◌,
}
use coinflip_program.State.{
  Pubkey, Config, TokenConfig, default_key, is_sol_mint, effective_mint, wsol_mint,
}
use coinflip_program.Runtime.{Ledger, Runtime, Mint, TokenAccount}
use coinflip_program.Accounts.{
  Account, load_optional, load_config, load_mint, load_token, load_token_config, require_signer,
  check_token_program, check_config_seeds, check_token_seeds, require_keys_eq,
}
use coinflip_program.TokenUtils.{transfer_tokens}
use coinflip_program.Swap.{hop_fixed, hop_key, token_amount}
use coinflip_program.Participate.{token_keg}

-- `BuyToken` and `SellToken`.
pub record Trade : Type 0 where
  pub config : Pubkey
  pub token_config : Pubkey
  pub mint_account : Pubkey
  pub counter_mint_account : Pubkey
  pub user_token : Pubkey
  pub user_counter_token : Pubkey
  pub fee_recipient : Pubkey
  pub fee_recipient_counter_token : Pubkey
  pub wsol_account : Option Pubkey
  pub token_program : Pubkey
  pub raydium_program : Pubkey
  pub user : Pubkey
  pub remaining : List Pubkey

pub record LoadedTrade : Type 0 where
  pub config : Config
  pub token_config : TokenConfig
  pub counter_mint : Mint
  pub user_token : TokenAccount
  pub user_counter_token : TokenAccount
  pub fee_recipient_counter_token : TokenAccount
  pub wsol_account : Option (Account TokenAccount)

unfoldable pub require_hop_atas : List Pubkey → (input output : Pubkey) → Result (Unit {0})
require_hop_atas hop input output = do
  require (leb hop_fixed (length hop)) invalid_swap_accounts
  require_keys_eq (hop_key hop 2) input token_account_mismatch
  require_keys_eq (hop_key hop 3) output token_account_mismatch

unfoldable pub require_two_hop_atas :
    (hop1 hop2 : List Pubkey) (first_in last_out : Pubkey) → Result (Unit {0})
require_two_hop_atas hop1 hop2 first_in last_out = do
  require (leb hop_fixed (length hop1) && leb hop_fixed (length hop2)) invalid_swap_accounts
  require_keys_eq (hop_key hop1 2) first_in token_account_mismatch
  require_keys_eq (hop_key hop1 3) (hop_key hop2 2) token_account_mismatch
  require_keys_eq (hop_key hop2 3) last_out token_account_mismatch

unfoldable pub validate_enabled_trade :
    TokenConfig → Pubkey → (amount : ℕ) (enforce_min : Bool) → Result (Unit {0})
validate_enabled_trade t mint amount enforce_min = do
  require t.is_enabled token_not_enabled
  require_keys_eq t.mint mint invalid_mint
  require (not (t.pool == default_key)) pool_required
  if enforce_min then require (leb t.min_amount amount) amount_below_minimum else ok tt
  if ltb 0 t.max_amount then require (leb amount t.max_amount) amount_above_maximum else ok tt

unfoldable pub require_pay_or_receive_mint : Config → Pubkey → Result (Unit {0})
require_pay_or_receive_mint config mint =
    if is_sol_mint mint
    then ok tt
    else require (not (config.usdc_mint == default_key) && mint == config.usdc_mint)
        invalid_pay_mint

-- The keys' tests that both handlers make one after another.
unfoldable pub require_trade_accounts : Trade → LoadedTrade → Pubkey → Result (Unit {0})
require_trade_accounts acc l counter = do
  let mint = effective_mint counter
  require_keys_eq acc.counter_mint_account mint invalid_mint
  require_keys_eq l.user_token.mint l.token_config.mint invalid_mint
  require_keys_eq l.user_token.owner acc.user token_account_mismatch
  require_keys_eq l.user_counter_token.mint mint invalid_mint
  require_keys_eq l.user_counter_token.owner acc.user token_account_mismatch
  require_keys_eq l.fee_recipient_counter_token.mint mint invalid_mint
  require_keys_eq l.fee_recipient_counter_token.owner acc.fee_recipient token_account_mismatch

module _ (r : Runtime) where
  unfoldable pub load_trade : Trade → Ledger → Result LoadedTrade
  unfolding check_config_seeds check_token_seeds
  load_trade acc s = do
    config ← load_config acc.config s
    token_config ← load_token_config s acc.token_config
    mint ← load_mint r s acc.mint_account
    counter_mint ← load_mint r s acc.counter_mint_account
    user_token ← load_token r s acc.user_token
    user_counter_token ← load_token r s acc.user_counter_token
    fee_recipient_counter_token ← load_token r s acc.fee_recipient_counter_token
    wsol_account ← load_optional (load_token r s) acc.wsol_account
    check_token_program r (some acc.token_program)
    require_signer acc.user s
    check_config_seeds r acc.config config
    check_token_seeds r acc.token_config token_config
    require_keys_eq acc.fee_recipient config.authority unauthorized
    ok (record {
      config = config;
      token_config = token_config;
      counter_mint = counter_mint;
      user_token = user_token;
      user_counter_token = user_counter_token;
      fee_recipient_counter_token = fee_recipient_counter_token;
      wsol_account = wsol_account;
    })

  unfoldable pub balance_increase : Pubkey → ℕ → Ledger → Result ℕ
  unfolding token_amount
  balance_increase account before s = do
    now ← token_amount r account s
    ok_or (checked_sub now before) arithmetic_overflow

  abbrev pub trade_keg : Trade → Result Pubkey
  trade_keg acc = token_keg (some acc.token_program) acc.remaining

  -- The fee goes to the house through the SPL token program.
  unfoldable pub pay_trade_fee : Trade → LoadedTrade → ℕ → Ledger → Result Ledger
  unfolding transfer_tokens
  pay_trade_fee acc l fee s =
      if ltb 0 fee
      then (do
        program ← trade_keg acc
        transfer_tokens r program acc.user_counter_token acc.counter_mint_account
            acc.fee_recipient_counter_token acc.user fee l.counter_mint.decimals s)
      else ok s

  abbrev close_wsol : Trade → Pubkey → Ledger → Result Ledger
  close_wsol acc wsol s = do
    program ← trade_keg acc
    r.close_account program
        (record { account = wsol; destination = acc.user; authority = acc.user }) none s

  unfoldable pub wrap_sol_buy : Trade → LoadedTrade → ℕ → Ledger → Result Ledger
  wrap_sol_buy acc l lamports s = do
    wsol ← ok_or l.wsol_account token_account_required
    require_keys_eq wsol.value.mint wsol_mint invalid_mint
    require_keys_eq wsol.value.owner acc.user token_account_mismatch
    require_keys_eq wsol.key acc.user_counter_token token_account_mismatch
    s1 ← r.transfer acc.user wsol.key lamports s
    program ← trade_keg acc
    r.sync_native program wsol.key s1

  unfoldable pub unwrap_wsol_buy : Trade → LoadedTrade → Ledger → Result Ledger
  unwrap_wsol_buy acc l s = do
    wsol ← ok_or l.wsol_account token_account_required
    require_keys_eq wsol.value.mint wsol_mint invalid_mint
    close_wsol acc wsol.key s

  unfoldable pub unwrap_wsol_sell : Trade → LoadedTrade → Ledger → Result Ledger
  unwrap_wsol_sell acc l s = do
    wsol ← ok_or l.wsol_account token_account_required
    require_keys_eq wsol.value.mint wsol_mint invalid_mint
    require_keys_eq wsol.key acc.user_counter_token token_account_mismatch
    close_wsol acc wsol.key s
