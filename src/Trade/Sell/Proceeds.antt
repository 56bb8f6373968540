-- ===== src/Trade/Sell/Proceeds.antt =====
-- What a sale brings in.
use coinflip_program.Base.{
  ℕ, ◌+◌, ◌*◌, ◌≤◌, ◌<◌, ◌≡◌, false, arith, checked_sub, leb, leb→le, if◌then◌else◌,
}
use coinflip_program.Error.{
  ok, ok_or, require, >>=-eq-ok, require-eq-ok, arithmetic_overflow, slippage_exceeded,
}
use coinflip_program.State.{Pubkey, is_sol_mint, trade_fee_bps}
use coinflip_program.Fees.{trade_fee, min_swap_out_before_fee}
use coinflip_program.Runtime.{Ledger, Runtime}
use coinflip_program.Runtime.Laws.{balance}
use coinflip_program.Swap.{token_amount}
use coinflip_program.Swap.Laws.{token_amount-balance}
use coinflip_program.Pools.{Route, trade_pools}
use coinflip_program.Trade.{
  Trade, LoadedTrade, load_trade, balance_increase, pay_trade_fee, unwrap_wsol_sell,
}
use coinflip_program.Trade.Sell.{SellArgs, sell_guards, sell_swaps, sell_token}

-- The steps of a sale that succeeded.
pub record Sold (r : Runtime) (acc : Trade) (args : SellArgs) (s s' : Ledger) : Type 0 where
  pub l : LoadedTrade
  pub min_swap_out : ℕ
  pub route : Route
  pub before : ℕ
  pub s1 : Ledger
  pub received : ℕ
  pub fee : ℕ
  pub net : ℕ
  pub s2 : Ledger
  pub loading : load_trade r acc s ≡ ok l
  pub guarded : sell_guards acc l args ≡ ok tt
  pub asking : min_swap_out_before_fee args.min_out ≡ ok min_swap_out
  pub routing : trade_pools l.config l.token_config args.receive_mint false ≡ ok route
  pub reading : token_amount r acc.user_counter_token s ≡ ok before
  pub swapping : sell_swaps r acc route args min_swap_out s ≡ ok s1
  pub receiving : balance_increase r acc.user_counter_token before s1 ≡ ok received
  pub charging : trade_fee received trade_fee_bps ≡ ok fee
  pub keeping : ok_or (checked_sub received fee) arithmetic_overflow ≡ ok net
  pub enough : args.min_out ≤ net
  pub paying : pay_trade_fee r acc l fee s1 ≡ ok s2
  pub leaving :
      (if is_sol_mint args.receive_mint then unwrap_wsol_sell r acc l s2 else ok s2) ≡ ok s'

pub sell_token-Sold :
    (r : Runtime) (acc : Trade) (args : SellArgs) (s s' : Ledger)
    → sell_token r acc args s ≡ ok s'
    → Sold r acc args s s'
unfolding sell_token
sell_token-Sold r acc args s s' h =
    let (l, loading, h1) = >>=-eq-ok (load_trade r acc s) _ h in
    let (u, guarded, h2) = >>=-eq-ok (sell_guards acc l args) _ h1 in
    let (min_swap_out, asking, h3) = >>=-eq-ok (min_swap_out_before_fee args.min_out) _ h2 in
    let (route, routing, h4) =
      >>=-eq-ok (trade_pools l.config l.token_config args.receive_mint false) _ h3 in
    let (before, reading, h5) = >>=-eq-ok (token_amount r acc.user_counter_token s) _ h4 in
    let (s1, swapping, h6) = >>=-eq-ok (sell_swaps r acc route args min_swap_out s) _ h5 in
    let (received, receiving, h7) =
      >>=-eq-ok (balance_increase r acc.user_counter_token before s1) _ h6 in
    let (fee, charging, h8) = >>=-eq-ok (trade_fee received trade_fee_bps) _ h7 in
    let (net, keeping, h9) =
      >>=-eq-ok (ok_or (checked_sub received fee) arithmetic_overflow) _ h8 in
    let (_, enough, h10) = >>=-eq-ok (require (leb args.min_out net) slippage_exceeded) _ h9 in
    let (s2, paying, leaving) = >>=-eq-ok (pay_trade_fee r acc l fee s1) _ h10 in
    record {
      l = l;
      min_swap_out = min_swap_out;
      route = route;
      before = before;
      s1 = s1;
      received = received;
      fee = fee;
      net = net;
      s2 = s2;
      loading = loading;
      guarded = guarded;
      asking = asking;
      routing = routing;
      reading = reading;
      swapping = swapping;
      receiving = receiving;
      charging = charging;
      keeping = keeping;
      enough = leb→le _ _ (require-eq-ok _ slippage_exceeded enough);
      paying = paying;
      leaving = leaving;
    }

increase_facts :
    (before after received : ℕ)
    → ok_or (checked_sub after before) arithmetic_overflow ≡ ok received
    → before + received ≡ after
increase_facts before after received h = ground arith

received_facts :
    (r : Runtime) (k : Pubkey) (before received : ℕ) (s s1 : Ledger)
    → token_amount r k s ≡ ok before
    → balance_increase r k before s1 ≡ ok received
    → balance s k + received ≡ balance s1 k
unfolding balance_increase
received_facts r k before received s s1 a b =
    let (after, e, d) = >>=-eq-ok (token_amount r k s1) _ b in
    omega (
      arith,
      increase_facts before after received d,
      token_amount-balance r k s before a,
      token_amount-balance r k s1 after e,
    )

net_facts :
    (received fee net min_out : ℕ)
    → ok_or (checked_sub received fee) arithmetic_overflow ≡ ok net
    → min_out ≤ net
    → min_out + fee ≤ received
net_facts received fee net min_out h le = ground arith

fee_floor :
    (received fee : ℕ)
    → trade_fee received trade_fee_bps ≡ ok fee
    → (fee * 100 ≤ received) × (received < (fee + 1) * 100)
unfolding trade_fee
fee_floor received fee h = ground arith

-- A sale that succeeds has raised the seller's receiving account, across the swaps alone, by an
-- amount that covers `min_out` and the fee that goes to the house, and the fee is 1% of that
-- amount, rounded down. This asks nothing of the pools.
pub sell_token_proceeds :
    (r : Runtime) (acc : Trade) (args : SellArgs) (s s' : Ledger)
    → sell_token r acc args s ≡ ok s'
    → (sold : Sold r acc args s s') × (balance s acc.user_counter_token + sold.received
        ≡ balance sold.s1 acc.user_counter_token)
      × (args.min_out + sold.fee ≤ sold.received)
      × (sold.fee * 100 ≤ sold.received)
      × (sold.received < (sold.fee + 1) * 100)
sell_token_proceeds r acc args s s' h =
    let sold = sell_token-Sold r acc args s s' h in
    let (low, high) = fee_floor sold.received sold.fee sold.charging in
    (
      sold,
      received_facts r acc.user_counter_token sold.before sold.received s sold.s1 sold.reading
          sold.receiving,
      net_facts sold.received sold.fee sold.net args.min_out sold.keeping sold.enough,
      low,
      high,
    )
