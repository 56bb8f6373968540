-- ===== src/Tests/Trading.antt =====
-- A purchase over two hops and a sale over one, in a token, 40, that is quoted in SOL.
use coinflip_program.TokenUtils.{transfer_tokens}
use coinflip_program.Accounts.{check_token_seeds, check_config_seeds}
use coinflip_program.Base.{
  to_le_bytes, from_le_bytes, from_be_bytes, to_be_bytes, ℕ, ◌+◌, ◌*◌, ◌≤◌, ◌<◌, ◌≡◌, ◌⊎◌, refl,
  arith, true, false, Bytes, List, [], ◌∷◌, ◌++◌, some, none, replicate, update, length,
}
use coinflip_program.Error.{ok, is_ok}
use coinflip_program.State.{
  Pubkey, TokenConfig, wsol_mint, key_bytes, token_program_id, raydium_clmm, trade_fee_bps,
}
use coinflip_program.Fees.{min_swap_out_before_fee, max_swap_in_after_fee, trade_fee}
use coinflip_program.Runtime.{Ledger}
use coinflip_program.Runtime.Laws.{balance}
use coinflip_program.Swap.{
  swap_exact_in, swap_exact_out, invoke_swap_v2, swap_instruction, token_amount, split_hops,
  hop_fixed,
}
use coinflip_program.Swap.Laws.{split_hops-append}
use coinflip_program.Pools.{trade_pools}
use coinflip_program.Pools.Routes.{reversed, map_route, trade_pools-reversed}
use coinflip_program.Trade.{
  unwrap_wsol_sell, require_hop_atas, validate_enabled_trade, require_two_hop_atas,
  require_trade_accounts, require_pay_or_receive_mint, pay_trade_fee, balance_increase, load_trade,
  Trade,
}
use coinflip_program.Trade.Buy.{spent_since, buy_swaps, buy_guards, BuyArgs, buy_token}
use coinflip_program.Trade.Buy.Steps.{Bought}
use coinflip_program.Trade.Buy.Cost.{buy_token_cost}
use coinflip_program.Trade.Sell.{sell_swaps, sell_guards, SellArgs, sell_token}
use coinflip_program.Trade.Sell.Proceeds.{Sold, sell_token_proceeds}
use coinflip_program.Tests.World.{
  transfer_checked, write_balance, credit, debit, invoke, sum_all, unpack_token, runtime,
}
use coinflip_program.Tests.Pools.{runtime-SwapLaw}
use coinflip_program.Tests.Plays.{config, empty_ledger, outcome, ran}

abbrev listed : TokenConfig
listed = record {
  mint = 40;
  min_amount = 10;
  is_enabled = true;
  bump = 255;
  pool = 33;
  quote_mint = wsol_mint;
  cross_disabled = false;
  max_amount = 5000;
}

-- A token account: mint, owner, and an amount of two bytes.
abbrev pub account : (mint owner low high : ℕ) → Bytes
account mint owner low high = key_bytes mint ++ (key_bytes owner ++ (low ∷ high ∷ replicate 6 0))

-- 50 is the buyer's account of the token, 51 of USDC, 53 of wrapped SOL, 52 the house's of USDC.
abbrev market : Ledger
market = record empty_ledger {
  bytes =
      update
        (update
          (update
            (update (update (update (λ k. []) 50 (account 40 12 100 0)) 51 (account 21 12 136 19))
              52 (account 21 11 0 0))
            53 (account wsol_mint 12 0 0))
          54 (account wsol_mint 11 0 0))
        55 [];
  token_configs = update (λ k. none) 1840 (some listed);
}

abbrev first_hop : List Pubkey
first_hop = 60 ∷ 31 ∷ 51 ∷ 53 ∷ 61 ∷ 62 ∷ 63 ∷ 64 ∷ 65 ∷ 66 ∷ 67 ∷ 68 ∷ []

abbrev second_hop : List Pubkey
second_hop = 60 ∷ 33 ∷ 53 ∷ 50 ∷ 71 ∷ 72 ∷ 73 ∷ 74 ∷ 75 ∷ 76 ∷ 77 ∷ 78 ∷ []

abbrev buy_accounts : Trade
buy_accounts = record {
  config = 1885;
  token_config = 1840;
  mint_account = 40;
  counter_mint_account = 21;
  user_token = 50;
  user_counter_token = 51;
  fee_recipient = 11;
  fee_recipient_counter_token = 52;
  wsol_account = none;
  token_program = token_program_id;
  raydium_program = raydium_clmm;
  user = 12;
  remaining = first_hop ++ second_hop;
}

abbrev buy_args : BuyArgs
buy_args = record { amount_out = 20; pay_mint = 21; max_pay = 1000; quote_out = 300; hop1_len = 12 }

abbrev bought_ledger : Ledger
bought_ledger = outcome (buy_token runtime buy_accounts buy_args market)

buy_ok : is_ok (buy_token runtime buy_accounts buy_args market) ≡ true
unfolding buy_token runtime load_trade unpack_token to_be_bytes sum_all buy_guards from_be_bytes
    max_swap_in_after_fee trade_pools token_amount buy_swaps invoke swap_instruction debit
    from_le_bytes to_le_bytes credit write_balance check_config_seeds check_token_seeds trade_fee
    invoke_swap_v2 split_hops swap_exact_out transfer_checked transfer_tokens spent_since
    balance_increase pay_trade_fee require_pay_or_receive_mint require_trade_accounts
    require_two_hop_atas validate_enabled_trade
buy_ok = refl

buy_token_cost_example :
    (b : Bought runtime buy_accounts buy_args market bought_ledger) × (20 ≤ b.bought)
    × (balance b.s2 51 + b.spent ≡ balance b.s1 51)
    × (trade_fee b.spent trade_fee_bps ≡ ok b.fee)
    × (b.spent + b.fee ≤ 1000)
buy_token_cost_example =
    buy_token_cost runtime runtime-SwapLaw buy_accounts buy_args market bought_ledger (omega arith)
      (λ h. omega arith) (λ h. omega arith) (ran _ buy_ok)

-- The sale's way, over the token's pool alone, into wrapped SOL that stays wrapped in 54's place.
abbrev sell_accounts : Trade
sell_accounts = record buy_accounts {
  user_counter_token = 53;
  counter_mint_account = wsol_mint;
  fee_recipient_counter_token = 54;
  wsol_account = some 53;
  remaining = 60 ∷ 33 ∷ 50 ∷ 53 ∷ 71 ∷ 72 ∷ 73 ∷ 74 ∷ 75 ∷ 76 ∷ 77 ∷ 78 ∷ [];
}

abbrev sell_args : SellArgs
sell_args = record {
  amount_in = 400;
  receive_mint = wsol_mint;
  min_out = 60;
  min_quote_out = 0;
  hop1_len = 0;
}

abbrev sold_ledger : Ledger
sold_ledger = outcome (sell_token runtime sell_accounts sell_args market)

sell_ok : is_ok (sell_token runtime sell_accounts sell_args market) ≡ true
unfolding sell_token runtime load_trade unpack_token to_be_bytes sum_all sell_guards from_be_bytes
    min_swap_out_before_fee trade_pools token_amount sell_swaps invoke swap_instruction debit
    from_le_bytes to_le_bytes credit write_balance check_config_seeds check_token_seeds trade_fee
    invoke_swap_v2 split_hops swap_exact_in transfer_checked transfer_tokens balance_increase
    pay_trade_fee require_hop_atas require_pay_or_receive_mint require_trade_accounts
    unwrap_wsol_sell validate_enabled_trade
sell_ok = refl

sell_token_proceeds_example :
    (sold : Sold runtime sell_accounts sell_args market sold_ledger) × (balance market 53
        + sold.received
      ≡ balance sold.s1 53)
    × (60 + sold.fee ≤ sold.received)
    × (sold.fee * 100 ≤ sold.received)
    × (sold.received < (sold.fee + 1) * 100)
sell_token_proceeds_example =
    sell_token_proceeds runtime sell_accounts sell_args market sold_ledger (ran _ sell_ok)

trade_pools-reversed_example :
    trade_pools config listed 21 false ≡ map_route reversed (trade_pools config listed 21 true)
trade_pools-reversed_example = trade_pools-reversed config listed 21

split_ok : split_hops (first_hop ++ second_hop) 12 ≡ ok (first_hop, second_hop)
unfolding split_hops
split_ok = refl

split_hops-append_example :
    (first_hop ++ second_hop ≡ buy_accounts.remaining)
    × (hop_fixed ≤ length first_hop)
    × ((buy_args.hop1_len ≡ 0) × (second_hop ≡ [])
        ⊎ (length first_hop ≡ buy_args.hop1_len) × (hop_fixed ≤ length second_hop))
split_hops-append_example =
    split_hops-append (first_hop ++ second_hop) first_hop second_hop 12 split_ok
