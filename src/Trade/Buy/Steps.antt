-- ===== src/Trade/Buy/Steps.antt =====
-- The steps of a purchase that succeeded.
use coinflip_program.Base.{ℕ, ◌≤◌, ◌≡◌, true, if◌then◌else◌, ltb, leb, leb→le}
use coinflip_program.Error.{
  ok, >>=-eq-ok, require, require-eq-ok, invalid_amount, slippage_exceeded,
}
use coinflip_program.State.{is_sol_mint, trade_fee_bps}
use coinflip_program.Fees.{trade_fee, max_swap_in_after_fee}
use coinflip_program.Runtime.{Ledger, Runtime}
use coinflip_program.Swap.{token_amount}
use coinflip_program.Pools.{Route, trade_pools}
use coinflip_program.Trade.{
  Trade, LoadedTrade, load_trade, balance_increase, wrap_sol_buy, pay_trade_fee,
}
use coinflip_program.Trade.Buy.{BuyArgs, buy_guards, buy_swaps, spent_since, buy_token}

pub record Bought (r : Runtime) (acc : Trade) (args : BuyArgs) (s s' : Ledger) : Type 0 where
  pub l : LoadedTrade
  pub max_swap_in : ℕ
  pub route : Route
  pub s1 : Ledger
  pub pay_before : ℕ
  pub token_before : ℕ
  pub s2 : Ledger
  pub bought : ℕ
  pub spent : ℕ
  pub fee : ℕ
  pub s3 : Ledger
  pub loading : load_trade r acc s ≡ ok l
  pub guarded : buy_guards acc l args ≡ ok tt
  pub reserving : max_swap_in_after_fee args.max_pay ≡ ok max_swap_in
  pub routing : trade_pools l.config l.token_config args.pay_mint true ≡ ok route
  pub reading : token_amount r acc.user_counter_token s1 ≡ ok pay_before
  pub counting : token_amount r acc.user_token s1 ≡ ok token_before
  pub swapping : buy_swaps r acc route args max_swap_in s1 ≡ ok s2
  pub receiving : balance_increase r acc.user_token token_before s2 ≡ ok bought
  pub enough : args.amount_out ≤ bought
  pub spending : spent_since r acc pay_before s2 ≡ ok spent
  pub charging : trade_fee spent trade_fee_bps ≡ ok fee
  pub paying : pay_trade_fee r acc l fee s2 ≡ ok s3

pub buy_token-Bought :
    (r : Runtime) (acc : Trade) (args : BuyArgs) (s s' : Ledger)
    → buy_token r acc args s ≡ ok s'
    → Bought r acc args s s'
unfolding buy_token
buy_token-Bought r acc args s s' h =
    let (l, loading, h1) = >>=-eq-ok (load_trade r acc s) _ h in
    let (u, guarded, h2) = >>=-eq-ok (buy_guards acc l args) _ h1 in
    let (max_swap_in, reserving, h3) = >>=-eq-ok (max_swap_in_after_fee args.max_pay) _ h2 in
    let (_, _, h4) = >>=-eq-ok (require (ltb 0 max_swap_in) invalid_amount) _ h3 in
    let (route, routing, h5) =
      >>=-eq-ok (trade_pools l.config l.token_config args.pay_mint true) _ h4 in
    let (s1, _, h6) =
      >>=-eq-ok (if is_sol_mint args.pay_mint then wrap_sol_buy r acc l args.max_pay s else ok s) _
        h5 in
    let (pay_before, reading, h7) = >>=-eq-ok (token_amount r acc.user_counter_token s1) _ h6 in
    let (token_before, counting, h8) = >>=-eq-ok (token_amount r acc.user_token s1) _ h7 in
    let (s2, swapping, h9) = >>=-eq-ok (buy_swaps r acc route args max_swap_in s1) _ h8 in
    let (bought, receiving, h10) =
      >>=-eq-ok (balance_increase r acc.user_token token_before s2) _ h9 in
    let (_, enough, h11) =
      >>=-eq-ok (require (leb args.amount_out bought) slippage_exceeded) _ h10 in
    let (spent, spending, h12) = >>=-eq-ok (spent_since r acc pay_before s2) _ h11 in
    let (fee, charging, h13) = >>=-eq-ok (trade_fee spent trade_fee_bps) _ h12 in
    let (s3, paying, _) = >>=-eq-ok (pay_trade_fee r acc l fee s2) _ h13 in
    record {
      l = l;
      max_swap_in = max_swap_in;
      route = route;
      s1 = s1;
      pay_before = pay_before;
      token_before = token_before;
      s2 = s2;
      bought = bought;
      spent = spent;
      fee = fee;
      s3 = s3;
      loading = loading;
      guarded = guarded;
      reserving = reserving;
      routing = routing;
      reading = reading;
      counting = counting;
      swapping = swapping;
      receiving = receiving;
      enough = leb→le _ _ (require-eq-ok _ slippage_exceeded enough);
      spending = spending;
      charging = charging;
      paying = paying;
    }
