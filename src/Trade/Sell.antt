-- ===== src/Trade/Sell.antt =====
-- `sell_token` of src/instructions/trade.rs: an exact amount of a token, for `min_out` at least.
pub mod Proceeds
use coinflip_program.Base.{
  ℕ, Bool, true, false, List, Option, some, none, ◌&&◌, not, leb, ltb, if◌then◌else◌, checked_sub,
}
use coinflip_program.Error.{
  Result, ok, require, ok_or, paused, invalid_amount, invalid_swap_accounts, slippage_exceeded,
  arithmetic_overflow, ◌>>=◌, ◌>>◌,
}
use coinflip_program.State.{Pubkey, is_sol_mint, trade_fee_bps}
use coinflip_program.Fees.{trade_fee, min_swap_out_before_fee}
use coinflip_program.Runtime.{Ledger, Runtime}
use coinflip_program.Swap.{hop_key, is_nil, split_hops, swap_exact_in, token_amount}
use coinflip_program.Pools.{Route, trade_pools}
use coinflip_program.Trade.{
  Trade, LoadedTrade, load_trade, require_hop_atas, require_two_hop_atas, validate_enabled_trade,
  require_pay_or_receive_mint, require_trade_accounts, balance_increase, pay_trade_fee,
  unwrap_wsol_sell,
}

pub record SellArgs : Type 0 where
  pub amount_in : ℕ  -- u64
  pub receive_mint : Pubkey
  pub min_out : ℕ  -- u64
  pub min_quote_out : ℕ  -- u64
  pub hop1_len : ℕ  -- u8

unfoldable pub sell_guards : Trade → LoadedTrade → SellArgs → Result (Unit {0})
unfolding validate_enabled_trade require_pay_or_receive_mint require_trade_accounts
sell_guards acc l args = do
  require (not l.config.paused) paused
  require (ltb 0 args.amount_in && ltb 0 args.min_out) invalid_amount
  validate_enabled_trade l.token_config acc.mint_account args.amount_in false
  require_pay_or_receive_mint l.config args.receive_mint
  require_trade_accounts acc l args.receive_mint

module _ (r : Runtime) where
  unfoldable pub sell_swaps : Trade → Route → SellArgs → ℕ → Ledger → Result Ledger
  unfolding require_hop_atas require_two_hop_atas split_hops swap_exact_in token_amount
      balance_increase
  sell_swaps acc (first_pool, some second_pool) args min_swap_out s = do
    require (ltb 0 args.hop1_len) invalid_swap_accounts
    (hop1, hop2) ← split_hops acc.remaining args.hop1_len
    require_two_hop_atas hop1 hop2 acc.user_token acc.user_counter_token
    let hop1_min = if ltb 0 args.min_quote_out then args.min_quote_out else 1
    before ← token_amount r (hop_key hop2 2) s
    s1 ← swap_exact_in r acc.raydium_program acc.user hop1 first_pool args.amount_in hop1_min s
    amount_in ← balance_increase r (hop_key hop2 2) before s1
    require (ltb 0 amount_in) invalid_amount
    swap_exact_in r acc.raydium_program acc.user hop2 second_pool amount_in min_swap_out s1
  sell_swaps acc (first_pool, none) args min_swap_out s = do
    (hop, rest) ← split_hops acc.remaining 0
    require (is_nil rest) invalid_swap_accounts
    require_hop_atas hop acc.user_token acc.user_counter_token
    swap_exact_in r acc.raydium_program acc.user hop first_pool args.amount_in min_swap_out s

  unfoldable pub sell_token : Trade → SellArgs → Ledger → Result Ledger
  sell_token acc args s = do
    l ← load_trade r acc s
    sell_guards acc l args
    min_swap_out ← min_swap_out_before_fee args.min_out
    route ← trade_pools l.config l.token_config args.receive_mint false
    before ← token_amount r acc.user_counter_token s
    s1 ← sell_swaps acc route args min_swap_out s
    received ← balance_increase r acc.user_counter_token before s1
    fee ← trade_fee received trade_fee_bps
    net ← ok_or (checked_sub received fee) arithmetic_overflow
    require (leb args.min_out net) slippage_exceeded
    s2 ← pay_trade_fee r acc l fee s1
    if is_sol_mint args.receive_mint then unwrap_wsol_sell r acc l s2 else ok s2
