-- ===== src/Solvency/Trading.antt =====
-- Trades and changes of the configuration do not touch a game.
use coinflip_program.Base.{ℕ, none, some}
use coinflip_program.Runtime.{Ledger, Runtime}
use coinflip_program.Runtime.Laws.{OwnershipLaw}
use coinflip_program.Pools.{Route}
use coinflip_program.Trade.{
  Trade, LoadedTrade, pay_trade_fee, wrap_sol_buy, unwrap_wsol_buy, unwrap_wsol_sell,
}
use coinflip_program.Trade.Buy.{BuyArgs, buy_swaps, buy_token}
use coinflip_program.Trade.Sell.{SellArgs, sell_swaps, sell_token}
use coinflip_program.Solvency.Safe.{Safe, safe_rules}
use coinflip_program.Solvency.Calls.{Safe-invoke_swap_v2}

module _ (r : Runtime) (own : OwnershipLaw r) where
  Safe-pay_trade_fee :
      (acc : Trade) (l : LoadedTrade) (fee : ℕ) (s : Ledger) → Safe s (pay_trade_fee r acc l fee s)
  unfolding pay_trade_fee
  Safe-pay_trade_fee acc l fee s = search safe_rules depth 12

  Safe-wrap_sol_buy :
      (acc : Trade) (l : LoadedTrade) (n : ℕ) (s : Ledger) → Safe s (wrap_sol_buy r acc l n s)
  unfolding wrap_sol_buy
  Safe-wrap_sol_buy acc l n s = search safe_rules depth 12

  Safe-unwrap_wsol_buy :
      (acc : Trade) (l : LoadedTrade) (s : Ledger) → Safe s (unwrap_wsol_buy r acc l s)
  unfolding unwrap_wsol_buy
  Safe-unwrap_wsol_buy acc l s = search safe_rules depth 12

  Safe-unwrap_wsol_sell :
      (acc : Trade) (l : LoadedTrade) (s : Ledger) → Safe s (unwrap_wsol_sell r acc l s)
  unfolding unwrap_wsol_sell
  Safe-unwrap_wsol_sell acc l s = search safe_rules depth 12

  Safe-buy_swaps :
      (acc : Trade) (route : Route) (args : BuyArgs) (max_in : ℕ) (s : Ledger)
      → Safe s (buy_swaps r acc route args max_in s)
  unfolding buy_swaps
  Safe-buy_swaps acc (first, some second) args max_in s =
      search (safe_rules, Safe-invoke_swap_v2) depth 20
  Safe-buy_swaps acc (first, none) args max_in s = search (safe_rules, Safe-invoke_swap_v2) depth 20

  Safe-sell_swaps :
      (acc : Trade) (route : Route) (args : SellArgs) (min_out : ℕ) (s : Ledger)
      → Safe s (sell_swaps r acc route args min_out s)
  unfolding sell_swaps
  Safe-sell_swaps acc (first, some second) args min_out s =
      search (safe_rules, Safe-invoke_swap_v2) depth 20
  Safe-sell_swaps acc (first, none) args min_out s =
      search (safe_rules, Safe-invoke_swap_v2) depth 20

  pub Safe-buy_token : (acc : Trade) (args : BuyArgs) (s : Ledger) → Safe s (buy_token r acc args s)
  unfolding buy_token
  Safe-buy_token acc args s =
      search
        (safe_rules, Safe-wrap_sol_buy, Safe-buy_swaps, Safe-pay_trade_fee, Safe-unwrap_wsol_buy)
        depth 24

  pub Safe-sell_token :
      (acc : Trade) (args : SellArgs) (s : Ledger) → Safe s (sell_token r acc args s)
  unfolding sell_token
  Safe-sell_token acc args s =
      search (safe_rules, Safe-sell_swaps, Safe-pay_trade_fee, Safe-unwrap_wsol_sell) depth 24
