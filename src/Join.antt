-- ===== src/Join.antt =====
-- src/instructions/join.rs: a second player takes the other side, pays the same stake and asks the
-- oracle for randomness.
pub mod Pairing
pub mod Outcome
pub mod Acceptance
pub mod Steps
use coinflip_program.Base.{
  ℕ, Bool, true, false, Bytes, Option, some, none, ◌==◌, not, if◌then◌else◌,
}
use coinflip_program.Error.{
  Result, ok, require, ok_or, paused, house_only, already_joined, amount_mismatch, invalid_side,
  cannot_join_own_game, token_account_required, invalid_mint, ◌>>=◌, ◌>>◌,
}
use coinflip_program.State.{
  Pubkey, Side, heads, tails, open_side, ready, open_status, Config, Game, side_eq, status_eq,
  opposite, default_key, is_native_sol, house, require_nonzero_entropy,
}
use coinflip_program.Runtime.{Ledger, Runtime, Mint, TokenAccount}
use coinflip_program.Accounts.{
  Account, load_optional, load_config, load_game, load_mint, load_token, require_signer,
  check_token_program, check_config_seeds, check_game_seeds, constrain_token, require_keys_eq,
  store_game,
}
use coinflip_program.TokenUtils.{require_token_program, require_vault_ata, transfer_tokens}
use coinflip_program.Vrf.{vrf_seed, request_randomness}

-- The four accounts of a randomness request.
pub record VrfAccounts : Type 0 where
  pub vrf_program : Pubkey
  pub vrf_network : Pubkey
  pub vrf_treasury : Pubkey
  pub vrf_request : Pubkey

pub record Join : Type 0 where
  pub config : Pubkey
  pub game : Pubkey
  pub mint_account : Option Pubkey
  pub joiner_token : Option Pubkey
  pub vault : Option Pubkey
  pub token_program : Option Pubkey
  pub joiner : Pubkey
  pub vrf : VrfAccounts

pub record JoinArgs : Type 0 where
  pub joiner_side : Side
  pub joiner_entropy : Bytes  -- [u8; 32]
  pub amount : ℕ  -- u64

pub record LoadedJoin : Type 0 where
  pub config : Config
  pub game : Game
  pub mint_account : Option (Account Mint)
  pub joiner_token : Option (Account TokenAccount)
  pub vault : Option (Account TokenAccount)

-- The match on `game.creator_side`: the sides of creator and joiner.
abbrev pub paired_sides : Side → Side → Result (Side × Side)
paired_sides open_side joiner_side = do
  require (not (side_eq joiner_side open_side)) invalid_side
  creator_side ← opposite joiner_side
  ok (creator_side, joiner_side)
paired_sides locked joiner_side = do
  if side_eq joiner_side open_side
      then ok tt
      else require (not (side_eq joiner_side locked)) invalid_side
  other ← opposite locked
  ok (locked, other)

-- `slot` is `Clock::get()?.slot`. The new game carries the mint and the decimals that the source
-- returns beside it.
unfoldable pub apply_join : Game → Pubkey → JoinArgs → ℕ → Result Game
unfolding require_nonzero_entropy
apply_join game joiner args slot = do
  require (status_eq game.status open_status) already_joined
  require (args.amount == game.amount) amount_mismatch
  require_nonzero_entropy args.joiner_entropy
  (creator_side, joiner_side) ← paired_sides game.creator_side args.joiner_side
  ok (record game {
    creator_side = creator_side;
    joiner_side = joiner_side;
    joiner = joiner;
    joiner_entropy = args.joiner_entropy;
    join_slot = slot;
    status = ready;
  })

-- The tests that stand before `apply_join`, here and in `participate`.
abbrev pub join_guards : Config → Game → Pubkey → Result (Unit {0})
join_guards config game joiner = do
  require (not config.paused) paused
  if game.house_only then require_keys_eq joiner (house config) house_only else ok tt

-- The stake's way into the vault of a token game.
unfoldable pub join_deposit_tokens :
    Runtime
    → (game_key joiner : Pubkey) (mint_account : Option (Account Mint))
      (joiner_token vault : Option (Account TokenAccount)) (token_program : Option Pubkey)
    → Game
    → ℕ
    → Ledger
    → Result Ledger
unfolding require_vault_ata transfer_tokens
join_deposit_tokens r game_key joiner mint_account joiner_token vault token_program game amount s =
    do
      mint ← ok_or mint_account token_account_required
      require_keys_eq mint.key game.mint invalid_mint
      from ← ok_or joiner_token token_account_required
      to ← ok_or vault token_account_required
      program ← require_token_program token_program
      require_vault_ata r to.key game_key game.mint program
      transfer_tokens r program from.key mint.key to.key joiner amount game.token_decimals s

module _ (r : Runtime) where
  unfoldable pub load_join : Join → Ledger → Result LoadedJoin
  unfolding check_config_seeds check_game_seeds
  load_join acc s = do
    config ← load_config acc.config s
    game ← load_game acc.game s
    mint_account ← load_optional (load_mint r s) acc.mint_account
    joiner_token ← load_optional (load_token r s) acc.joiner_token
    vault ← load_optional (load_token r s) acc.vault
    check_token_program r acc.token_program
    require_signer acc.joiner s
    check_config_seeds r acc.config config
    check_game_seeds r acc.game game
    constrain_token joiner_token game.mint acc.joiner
    constrain_token vault game.mint acc.game
    require (not (acc.joiner == game.creator)) cannot_join_own_game
    ok (record {
      config = config;
      game = game;
      mint_account = mint_account;
      joiner_token = joiner_token;
      vault = vault;
    })

  unfoldable pub join_deposit : Join → LoadedJoin → Game → ℕ → Ledger → Result Ledger
  unfolding join_deposit_tokens
  join_deposit acc l game amount s =
      if is_native_sol game.mint
      then r.transfer acc.joiner acc.game amount s
      else join_deposit_tokens r acc.game acc.joiner l.mint_account l.joiner_token l.vault
          acc.token_program game amount s

  unfoldable pub request_join_vrf :
      VrfAccounts → (payer game_key : Pubkey) → Config → Game → Ledger → Result Ledger
  unfolding request_randomness
  request_join_vrf vrf payer game_key config game s =
      request_randomness r vrf.vrf_program payer vrf.vrf_network vrf.vrf_treasury vrf.vrf_request
        default_key config.vrf_program (vrf_seed r game_key game.joiner game.joiner_entropy) s

  unfoldable pub join : Join → JoinArgs → Ledger → Result Ledger
  join acc args s = do
    l ← load_join acc s
    join_guards l.config l.game acc.joiner
    game ← apply_join l.game acc.joiner args s.slot
    s1 ← join_deposit acc l game args.amount s
    s2 ← request_join_vrf acc.vrf acc.joiner acc.game l.config game s1
    ok (store_game acc.game game s2)
