-- ===== src/Trade/Buy/Cost.antt =====
-- What a purchase costs.
use coinflip_program.Base.{
  ==_iff, subst, ap, ◌∙◌, ◌<◌, ℕ, ◌+◌, ◌≤◌, ◌≡◌, ◌≢◌, false, List, none, some, ◌&&◌, length,
  checked_sub, Fits, arith, drop, ltb, leb,
}
use coinflip_program.Error.{
  require-eq-ok, ok, >>=-eq-ok, require, invalid_amount, ok_or, arithmetic_overflow,
  invalid_swap_accounts, invalid_pool,
}
use coinflip_program.Accounts.{require_keys_eq}
use coinflip_program.State.{raydium_clmm, Pubkey, trade_fee_bps}
use coinflip_program.Fees.{trade_fee}
use coinflip_program.Fees.Bounds.{spent-le-max_pay}
use coinflip_program.Runtime.{Ledger, Runtime}
use coinflip_program.Runtime.Laws.{balance}
use coinflip_program.Swap.{
  hop_key, hop_fixed, is_nil, is_clmm_program, token_amount, swap_exact_out, split_hops,
  swap_instruction,
}
use coinflip_program.Swap.Laws.{SwapLaw, token_amount-balance}
use coinflip_program.Pools.{Route}
use coinflip_program.Trade.{Trade, require_hop_atas, require_two_hop_atas}
use coinflip_program.Trade.Hops.{hop_atas-ok, two_hop_atas-ok, second_hop}
use coinflip_program.Trade.Buy.{BuyArgs, buy_swaps, spent_since, buy_token}
use coinflip_program.Trade.Buy.Steps.{Bought, buy_token-Bought}

difference_facts :
    (before after spent : ℕ)
    → ok_or (checked_sub before after) arithmetic_overflow ≡ ok spent
    → after + spent ≡ before
difference_facts before after spent h = ground arith

spent_facts :
    (r : Runtime) (acc : Trade) (before spent : ℕ) (s1 s2 : Ledger)
    → token_amount r acc.user_counter_token s1 ≡ ok before
    → spent_since r acc before s2 ≡ ok spent
    → balance s2 acc.user_counter_token + spent ≡ balance s1 acc.user_counter_token
unfolding spent_since
spent_facts r acc before spent s1 s2 a b =
    let (after, e, d) = >>=-eq-ok (token_amount r acc.user_counter_token s2) _ b in
    let pay = acc.user_counter_token in
    omega (
      arith,
      difference_facts before after spent d,
      token_amount-balance r pay s1 before a,
      token_amount-balance r pay s2 after e,
    )

-- One exact-out swap.
swap_bounded :
    (r : Runtime) (law : SwapLaw r) (clmm owner : Pubkey) (hop : List Pubkey) (pool : Pubkey)
    (max_in out : ℕ) (s s' : Ledger)
    → swap_exact_out r clmm owner hop pool max_in out s ≡ ok s'
    → (balance s (hop_key hop 2) ≤ balance s' (hop_key hop 2) + max_in)
      × ((k : Pubkey) → k ≢ hop_key hop 2 → k ≢ hop_key hop 5 → balance s k ≤ balance s' k)
unfolding swap_exact_out
swap_bounded r law clmm owner hop pool max_in out s s' h =
    let (_, _, h1) = >>=-eq-ok (require (leb hop_fixed (length hop)) invalid_swap_accounts) _ h in
    let (_, pools, h2) = >>=-eq-ok (require (is_clmm_program clmm) invalid_swap_accounts) _ h1 in
    let known : clmm ≡ raydium_clmm =
      (==_iff _ _).0 (require-eq-ok _ invalid_swap_accounts pools) in
    let (_, _, h3) = >>=-eq-ok (require_keys_eq (hop_key hop 1) pool invalid_pool) _ h2 in
    let (_, _, h4) = >>=-eq-ok (require (ltb 0 out) invalid_amount) _ h3 in
    let (_, _, h5) = >>=-eq-ok (require (ltb 0 max_in) invalid_amount) _ h4 in
    let swapped =
      subst (λ p. r.invoke (swap_instruction p owner hop out max_in false) s ≡ ok s') known h5 in
    (
      law.bounded owner hop out max_in s s' swapped,
      λ k a b. law.apart owner hop out max_in false k s s' a b swapped,
    )

one_hop :
    (r : Runtime) (law : SwapLaw r) (clmm owner : Pubkey) (hop : List Pubkey) (pool : Pubkey)
    (max_in out : ℕ) (pay : Pubkey) (s s' : Ledger)
    → hop_key hop 2 ≡ pay
    → swap_exact_out r clmm owner hop pool max_in out s ≡ ok s'
    → balance s pay ≤ balance s' pay + max_in
one_hop r law clmm owner hop pool max_in out pay s s' key h =
    subst (λ k. balance s k ≤ balance s' k + max_in) key
      (swap_bounded r law clmm owner hop pool max_in out s s' h).0

given_len :
    (quote hop1_len : ℕ) {u : Unit {0}}
    → require (ltb 0 quote && ltb 0 hop1_len) invalid_swap_accounts ≡ ok u
    → 0 < hop1_len
given_len quote hop1_len h = ground arith

-- The second of two hops takes nothing from an account that it does not name as its input or as the
-- vault that it is paid from.
second_apart :
    (r : Runtime) (law : SwapLaw r) (clmm owner : Pubkey) (hop rest : List Pubkey) (pool : Pubkey)
    (quote out : ℕ) (pay : Pubkey) (s s' : Ledger)
    → hop ≡ rest
    → pay ≢ hop_key rest 2
    → pay ≢ hop_key rest 5
    → swap_exact_out r clmm owner hop pool quote out s ≡ ok s'
    → balance s pay ≤ balance s' pay
second_apart r law clmm owner hop rest pool quote out pay s s' e a b h =
    (swap_bounded r law clmm owner hop pool quote out s s' h).1 pay
      (λ x. a (x ∙ ap (λ t. hop_key t 2) e)) (λ x. b (x ∙ ap (λ t. hop_key t 5) e))

le_trans_add : (a b c m : ℕ) → a ≤ b + m → b ≤ c → a ≤ c + m
le_trans_add a b c m h k = omega arith

-- The swaps of a purchase take at most what they are allowed from the paying account, if a second
-- hop does not name that account as its input or its vault.
buy_swaps_bounded :
    (r : Runtime) (law : SwapLaw r) (acc : Trade) (route : Route) (args : BuyArgs) (max_in : ℕ)
    (s s' : Ledger)
    → (0 < args.hop1_len → acc.user_counter_token ≢ hop_key (drop args.hop1_len acc.remaining) 2)
    → (0 < args.hop1_len → acc.user_counter_token ≢ hop_key (drop args.hop1_len acc.remaining) 5)
    → buy_swaps r acc route args max_in s ≡ ok s'
    → balance s acc.user_counter_token ≤ balance s' acc.user_counter_token + max_in
unfolding buy_swaps
buy_swaps_bounded r law acc (first, some second) args max_in s s' a b h =
    let (_, given, h1) =
      >>=-eq-ok (require (ltb 0 args.quote_out && ltb 0 args.hop1_len) invalid_swap_accounts) _ h in
    let (hops, split, h2) = >>=-eq-ok (split_hops acc.remaining args.hop1_len) _ h1 in
    let (hop1, hop2) = hops in
    let (_, atas, h3) =
      >>=-eq-ok (require_two_hop_atas hop1 hop2 acc.user_counter_token acc.user_token) _ h2 in
    let (s1, first_swap, h4) =
      >>=-eq-ok (swap_exact_out r acc.raydium_program acc.user hop1 first max_in args.quote_out s) _
        h3 in
    let (quote, _, second_swap) = >>=-eq-ok (token_amount r (hop_key hop2 2) s1) _ h4 in
    let pay = acc.user_counter_token in
    let len = given_len args.quote_out args.hop1_len given in
    le_trans_add (balance s pay) (balance s1 pay) (balance s' pay) max_in
      (one_hop r law _ _ hop1 first max_in args.quote_out pay s s1
        (two_hop_atas-ok hop1 hop2 _ _ atas).0 first_swap)
      (second_apart r law _ _ hop2 (drop args.hop1_len acc.remaining) second quote args.amount_out
        pay s1 s' (second_hop acc.remaining hop1 hop2 args.hop1_len len split) (a len) (b len)
        second_swap)
buy_swaps_bounded r law acc (first, none) args max_in s s' a b h =
    let (hops, split, h1) = >>=-eq-ok (split_hops acc.remaining 0) _ h in
    let (hop, rest) = hops in
    let (_, _, h2) = >>=-eq-ok (require (is_nil rest) invalid_swap_accounts) _ h1 in
    let (_, atas, swap) =
      >>=-eq-ok (require_hop_atas hop acc.user_counter_token acc.user_token) _ h2 in
    one_hop r law _ _ hop first max_in args.amount_out acc.user_counter_token s s'
      (hop_atas-ok hop _ _ atas).0 swap

spent-le :
    (before after spent max_in : ℕ)
    → after + spent ≡ before
    → before ≤ after + max_in
    → spent ≤ max_in
spent-le before after spent max_in e h = omega arith

-- A purchase that succeeds has bought at least the amount asked for, and what the swaps took from
-- the paying account makes, with the 1% fee on it, at most `max_pay`. `max_pay` is a
-- u64, Raydium's swaps stay below their thresholds, and a second hop, where there is one, does not
-- name the paying account as its input or its vault.
pub buy_token_cost :
    (r : Runtime) (law : SwapLaw r) (acc : Trade) (args : BuyArgs) (s s' : Ledger)
    → Fits 64 args.max_pay
    → (0 < args.hop1_len → acc.user_counter_token ≢ hop_key (drop args.hop1_len acc.remaining) 2)
    → (0 < args.hop1_len → acc.user_counter_token ≢ hop_key (drop args.hop1_len acc.remaining) 5)
    → buy_token r acc args s ≡ ok s'
    → (b : Bought r acc args s s') × (args.amount_out ≤ b.bought)
      × (balance b.s2 acc.user_counter_token + b.spent ≡ balance b.s1 acc.user_counter_token)
      × (trade_fee b.spent trade_fee_bps ≡ ok b.fee)
      × (b.spent + b.fee ≤ args.max_pay)
buy_token_cost r law acc args s s' fits input vault h =
    let b = buy_token-Bought r acc args s s' h in
    let pay = acc.user_counter_token in
    let taken = spent_facts r acc b.pay_before b.spent b.s1 b.s2 b.reading b.spending in
    let bounded =
      buy_swaps_bounded r law acc b.route args b.max_swap_in b.s1 b.s2 input vault b.swapping in
    (
      b,
      b.enough,
      taken,
      b.charging,
      spent-le-max_pay args.max_pay b.max_swap_in b.spent b.fee fits b.reserving
          (spent-le (balance b.s1 pay) (balance b.s2 pay) b.spent b.max_swap_in taken bounded)
          b.charging,
    )
