-- ===== src/Participate.antt =====
-- src/instructions/participate.rs: joining a game while paying in another mint. The payment is
-- swapped for the stake first; then the game is joined as in `join`.
pub mod Steps
pub mod Outcome
use coinflip_program.Base.{
  ℕ, Bool, true, false, List, [], ◌∷◌, Option, some, none, ◌==◌, ◌&&◌, ◌||◌, not, leb, ltb,
  if◌then◌else◌,
}
use coinflip_program.Error.{
  Result, ok, require, ok_or, invalid_amount, invalid_swap_accounts, cannot_join_own_game,
  token_account_required, token_account_mismatch, invalid_mint, ◌>>=◌, ◌>>◌,
}
use coinflip_program.State.{
  Pubkey, Config, Game, TokenConfig, is_native_sol, is_sol_mint, effective_mint, wsol_mint,
  token_program_id,
}
use coinflip_program.Runtime.{Ledger, Runtime, Mint, TokenAccount}
use coinflip_program.Accounts.{
  Account, load_optional, load_config, load_game, load_mint, load_token, load_token_config,
  require_signer, check_token_program, check_config_seeds, check_game_seeds, require_keys_eq,
  store_game,
}
use coinflip_program.Swap.{hop_key, is_nil, split_hops, swap_exact_out, token_amount}
use coinflip_program.Pools.{Route, allowed_pools}
use coinflip_program.Join.{
  JoinArgs, VrfAccounts, apply_join, join_guards, join_deposit_tokens, request_join_vrf,
}

pub record Participate : Type 0 where
  pub config : Pubkey
  pub game : Pubkey
  pub game_token_config : Option Pubkey
  pub mint_account : Option Pubkey
  pub joiner_token : Option Pubkey
  pub joiner_pay_token : Option Pubkey
  pub vault : Option Pubkey
  pub wsol_account : Option Pubkey
  pub token_program : Option Pubkey
  pub raydium_program : Option Pubkey
  pub joiner : Pubkey
  pub vrf : VrfAccounts
  pub remaining : List Pubkey

pub record ParticipateArgs : Type 0 where
  pub joining : JoinArgs
  pub pay_mint : Pubkey
  pub max_pay : ℕ  -- u64
  pub quote_out : ℕ  -- u64
  pub hop1_len : ℕ  -- u8

pub record LoadedParticipate : Type 0 where
  pub config : Config
  pub game : Game
  pub game_token_config : Option (Account TokenConfig)
  pub mint_account : Option (Account Mint)
  pub joiner_token : Option (Account TokenAccount)
  pub vault : Option (Account TokenAccount)
  pub wsol_account : Option (Account TokenAccount)

abbrev pub contains : List Pubkey → Pubkey → Bool
contains [] k = false
contains (x ∷ xs) k = x == k || contains xs k

abbrev pub is_token_keg : Option Pubkey → Bool
is_token_keg none = false
is_token_keg (some k) = k == token_program_id

-- The SPL token program among the accounts.
abbrev pub token_keg : Option Pubkey → List Pubkey → Result Pubkey
token_keg program remaining =
    if is_token_keg program || contains remaining token_program_id
    then ok token_program_id
    else ok_or none token_account_required

abbrev config_value : Option (Account TokenConfig) → Option TokenConfig
config_value none = none
config_value (some t) = some t.value

module _ (r : Runtime) where
  unfoldable pub load_participate : Participate → Ledger → Result LoadedParticipate
  unfolding check_config_seeds check_game_seeds
  load_participate acc s = do
    config ← load_config acc.config s
    game ← load_game acc.game s
    game_token_config ← load_optional (load_token_config s) acc.game_token_config
    mint_account ← load_optional (load_mint r s) acc.mint_account
    joiner_token ← load_optional (load_token r s) acc.joiner_token
    pay_token ← load_optional (load_token r s) acc.joiner_pay_token
    vault ← load_optional (load_token r s) acc.vault
    wsol_account ← load_optional (load_token r s) acc.wsol_account
    check_token_program r acc.token_program
    require_signer acc.joiner s
    check_config_seeds r acc.config config
    check_game_seeds r acc.game game
    require (not (acc.joiner == game.creator)) cannot_join_own_game
    ok (record {
      config = config;
      game = game;
      game_token_config = game_token_config;
      mint_account = mint_account;
      joiner_token = joiner_token;
      vault = vault;
      wsol_account = wsol_account;
    })

  unfoldable pub wrap_sol : Participate → LoadedParticipate → ℕ → Ledger → Result Ledger
  wrap_sol acc l lamports s = do
    wsol ← ok_or l.wsol_account token_account_required
    require_keys_eq wsol.value.mint wsol_mint invalid_mint
    require_keys_eq wsol.value.owner acc.joiner token_account_mismatch
    s1 ← r.transfer acc.joiner wsol.key lamports s
    program ← token_keg acc.token_program acc.remaining
    r.sync_native program wsol.key s1

  unfoldable pub unwrap_wsol_to_joiner : Participate → LoadedParticipate → Ledger → Result Ledger
  unwrap_wsol_to_joiner acc l s = do
    wsol ← ok_or l.wsol_account token_account_required
    require_keys_eq wsol.value.mint wsol_mint invalid_mint
    program ← token_keg acc.token_program acc.remaining
    r.close_account program
        (record { account = wsol.key; destination = acc.joiner; authority = acc.joiner }) none s

  -- The swaps along a route: two exact-out hops, or one.
  unfoldable pub swap_route :
      (clmm owner : Pubkey)
      → Route
      → (remaining : List Pubkey) (amount_out max_pay quote_out hop1_len : ℕ) → Ledger
      → Result Ledger
  unfolding swap_exact_out split_hops token_amount
  swap_route clmm owner (first_pool, some second_pool) remaining amount_out max_pay quote_out
        hop1_len s =
      do
        require (ltb 0 quote_out && ltb 0 hop1_len) invalid_swap_accounts
        (hop1, hop2) ← split_hops remaining hop1_len
        s1 ← swap_exact_out r clmm owner hop1 first_pool max_pay quote_out s
        quote ← token_amount r (hop_key hop2 2) s1
        swap_exact_out r clmm owner hop2 second_pool quote amount_out s1
  swap_route clmm owner (first_pool, none) remaining amount_out max_pay quote_out hop1_len s = do
    (hop, rest) ← split_hops remaining 0
    require (is_nil rest) invalid_swap_accounts
    swap_exact_out r clmm owner hop first_pool max_pay amount_out s

  unfoldable pub run_swaps :
      Participate → LoadedParticipate → ParticipateArgs → Ledger → Result Ledger
  unfolding wrap_sol swap_route allowed_pools
  run_swaps acc l args s = do
    require (ltb 0 args.max_pay) invalid_amount
    clmm ← ok_or acc.raydium_program invalid_swap_accounts
    route ← allowed_pools l.config (config_value l.game_token_config) l.game.mint args.pay_mint
    s1 ← if is_sol_mint args.pay_mint then wrap_sol acc l args.max_pay s else ok s
    swap_route clmm acc.joiner route acc.remaining args.joining.amount args.max_pay args.quote_out
        args.hop1_len s1

  -- The payment's way to the stake.
  unfoldable pub pay_stake :
      Participate → LoadedParticipate → ParticipateArgs → Ledger → Result Ledger
  unfolding run_swaps unwrap_wsol_to_joiner
  pay_stake acc l args s =
      if effective_mint l.game.mint == effective_mint args.pay_mint
      then (do require (leb args.joining.amount args.max_pay) invalid_amount; ok s)
      else (do
        s1 ← run_swaps acc l args s
        if is_sol_mint l.game.mint then unwrap_wsol_to_joiner acc l s1 else ok s1)

  unfoldable pub participate_deposit :
      Participate → LoadedParticipate → Game → ℕ → Ledger → Result Ledger
  unfolding join_deposit_tokens
  participate_deposit acc l game amount s =
      if is_native_sol game.mint
      then r.transfer acc.joiner acc.game amount s
      else join_deposit_tokens r acc.game acc.joiner l.mint_account l.joiner_token l.vault
          acc.token_program game amount s

  unfoldable pub participate : Participate → ParticipateArgs → Ledger → Result Ledger
  participate acc args s = do
    l ← load_participate acc s
    join_guards l.config l.game acc.joiner
    s1 ← pay_stake acc l args s
    game ← apply_join l.game acc.joiner args.joining s.slot
    s2 ← participate_deposit acc l game args.joining.amount s1
    s3 ← request_join_vrf r acc.vrf acc.joiner acc.game l.config game s2
    ok (store_game acc.game game s3)
