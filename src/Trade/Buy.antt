-- ===== src/Trade/Buy.antt =====
-- `buy_token` of src/instructions/trade.rs: an exact amount of a token, for at most `max_pay`.
pub mod Steps
pub mod Cost
use coinflip_program.Base.{
  ℕ, Bool, true, false, List, Option, some, none, ◌&&◌, not, leb, ltb, if◌then◌else◌, checked_sub,
}
use coinflip_program.Error.{
  Result, ok, require, ok_or, paused, invalid_amount, invalid_swap_accounts, slippage_exceeded,
  arithmetic_overflow, ◌>>=◌, ◌>>◌,
}
use coinflip_program.State.{Pubkey, is_sol_mint, trade_fee_bps}
use coinflip_program.Fees.{trade_fee, max_swap_in_after_fee}
use coinflip_program.Runtime.{Ledger, Runtime}
use coinflip_program.Swap.{hop_key, is_nil, split_hops, swap_exact_out, token_amount}
use coinflip_program.Pools.{Route, trade_pools}
use coinflip_program.Trade.{
  Trade, LoadedTrade, load_trade, require_hop_atas, require_two_hop_atas, validate_enabled_trade,
  require_pay_or_receive_mint, require_trade_accounts, balance_increase, pay_trade_fee,
  wrap_sol_buy, unwrap_wsol_buy,
}

pub record BuyArgs : Type 0 where
  pub amount_out : ℕ  -- u64
  pub pay_mint : Pubkey
  pub max_pay : ℕ  -- u64
  pub quote_out : ℕ  -- u64
  pub hop1_len : ℕ  -- u8

unfoldable pub buy_guards : Trade → LoadedTrade → BuyArgs → Result (Unit {0})
unfolding validate_enabled_trade require_pay_or_receive_mint require_trade_accounts
buy_guards acc l args = do
  require (not l.config.paused) paused
  require (ltb 0 args.amount_out && ltb 0 args.max_pay) invalid_amount
  validate_enabled_trade l.token_config acc.mint_account args.amount_out true
  require_pay_or_receive_mint l.config args.pay_mint
  require_trade_accounts acc l args.pay_mint

module _ (r : Runtime) where
  -- The swaps along a route, from the user's paying account into the token account.
  unfoldable pub buy_swaps : Trade → Route → BuyArgs → ℕ → Ledger → Result Ledger
  unfolding require_hop_atas require_two_hop_atas split_hops swap_exact_out token_amount
  buy_swaps acc (first_pool, some second_pool) args max_swap_in s = do
    require (ltb 0 args.quote_out && ltb 0 args.hop1_len) invalid_swap_accounts
    (hop1, hop2) ← split_hops acc.remaining args.hop1_len
    require_two_hop_atas hop1 hop2 acc.user_counter_token acc.user_token
    s1 ← swap_exact_out r acc.raydium_program acc.user hop1 first_pool max_swap_in args.quote_out s
    quote ← token_amount r (hop_key hop2 2) s1
    swap_exact_out r acc.raydium_program acc.user hop2 second_pool quote args.amount_out s1
  buy_swaps acc (first_pool, none) args max_swap_in s = do
    (hop, rest) ← split_hops acc.remaining 0
    require (is_nil rest) invalid_swap_accounts
    require_hop_atas hop acc.user_counter_token acc.user_token
    swap_exact_out r acc.raydium_program acc.user hop first_pool max_swap_in args.amount_out s

  -- What the swaps took from the paying account.
  unfoldable pub spent_since : Trade → ℕ → Ledger → Result ℕ
  unfolding token_amount
  spent_since acc pay_before s = do
    pay_after ← token_amount r acc.user_counter_token s
    ok_or (checked_sub pay_before pay_after) arithmetic_overflow

  unfoldable pub buy_token : Trade → BuyArgs → Ledger → Result Ledger
  buy_token acc args s = do
    l ← load_trade r acc s
    buy_guards acc l args
    max_swap_in ← max_swap_in_after_fee args.max_pay
    require (ltb 0 max_swap_in) invalid_amount
    route ← trade_pools l.config l.token_config args.pay_mint true
    s1 ← if is_sol_mint args.pay_mint then wrap_sol_buy r acc l args.max_pay s else ok s
    pay_before ← token_amount r acc.user_counter_token s1
    token_before ← token_amount r acc.user_token s1
    s2 ← buy_swaps acc route args max_swap_in s1
    bought ← balance_increase r acc.user_token token_before s2
    require (leb args.amount_out bought) slippage_exceeded
    spent ← spent_since acc pay_before s2
    fee ← trade_fee spent trade_fee_bps
    s3 ← pay_trade_fee r acc l fee s2
    if is_sol_mint args.pay_mint then unwrap_wsol_buy r acc l s3 else ok s3
