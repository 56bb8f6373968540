-- ===== src/Create.antt =====
-- src/instructions/create.rs: a creator opens a game and pays the stake into it.
pub mod Opening
pub mod Limits
pub mod Stakes
use coinflip_program.Base.{
  ℕ, Bool, true, false, Bytes, List, [], ◌∷◌, Option, some, none, ◌==◌, ◌&&◌, leb, ltb, not,
  if◌then◌else◌, update,
}
use coinflip_program.Error.{
  Result, ok, check, require, ok_or, seeds, paused, house_only_requires_side, invalid_fee_bps,
  invalid_amount, amount_below_minimum, amount_above_maximum, token_not_enabled,
  token_account_required, invalid_mint, ◌>>=◌, ◌>>◌,
}
use coinflip_program.State.{
  Pubkey, Side, open_side, open_status, Config, TokenConfig, Game, side_eq, default_key,
  is_native_sol, max_fee_bps, program_id, require_nonzero_entropy, zero_entropy,
}
use coinflip_program.Runtime.{Ledger, Runtime, Mint, TokenAccount}
use coinflip_program.Accounts.{
  Account, load_optional, load_config, load_token_config, load_mint, load_token, require_signer,
  check_token_program, check_config_seeds, constrain_token, require_keys_eq, game_seeds, store_game,
}
use coinflip_program.TokenUtils.{
  require_token_program, require_ata_program, require_enabled_token, require_vault_ata,
  create_ata_if_needed, transfer_tokens,
}

pub record Create : Type 0 where
  pub config : Pubkey
  pub game : Pubkey
  pub token_config : Option Pubkey
  pub mint_account : Option Pubkey
  pub creator_token : Option Pubkey
  pub vault : Option Pubkey
  pub token_program : Option Pubkey
  pub associated_token_program : Option Pubkey
  pub creator : Pubkey

pub record CreateArgs : Type 0 where
  pub amount : ℕ  -- u64
  pub side : Side
  pub creator_entropy : Bytes  -- [u8; 32]
  pub nonce : ℕ  -- u64
  pub mint : Pubkey
  pub house_only : Bool

-- The accounts after loading, and the bump of the game's address.
pub record LoadedCreate : Type 0 where
  pub config : Config
  pub token_config : Option (Account TokenConfig)
  pub mint_account : Option (Account Mint)
  pub creator_token : Option (Account TokenAccount)
  pub game_bump : ℕ

-- The source's tests before the token branch.
unfoldable pub create_guards : Config → CreateArgs → Result (Unit {0})
unfolding require_nonzero_entropy
create_guards config args = do
  require (not config.paused) paused
  if args.house_only
      then require (not (side_eq args.side open_side)) house_only_requires_side
      else ok tt
  require (leb config.fee_bps max_fee_bps) invalid_fee_bps
  require (ltb 0 args.amount) invalid_amount
  require_nonzero_entropy args.creator_entropy

abbrev pub require_max : Bool → ℕ → ℕ → Result (Unit {0})
require_max house_only amount max =
    if house_only && ltb 0 max then require (leb amount max) amount_above_maximum else ok tt

module _ (r : Runtime) where
  unfoldable pub load_create : Create → CreateArgs → Ledger → Result (LoadedCreate × Ledger)
  unfolding check_config_seeds
  load_create acc args s = do
    config ← load_config acc.config s
    token_config ← load_optional (load_token_config s) acc.token_config
    mint_account ← load_optional (load_mint r s) acc.mint_account
    creator_token ← load_optional (load_token r s) acc.creator_token
    check_token_program r acc.token_program
    require_signer acc.creator s
    let address = r.find_program_address (game_seeds acc.creator args.nonce) program_id
    check (acc.game == address.0) seeds
    s' ← r.init acc.creator acc.game s
    check_config_seeds r acc.config config
    constrain_token creator_token args.mint acc.creator
    ok (
      record {
        config = config;
        token_config = token_config;
        mint_account = mint_account;
        creator_token = creator_token;
        game_bump = address.1;
      },
      s',
    )

  -- The stake's limits, and the mint's decimals.
  unfoldable pub create_decimals : LoadedCreate → CreateArgs → Result ℕ
  unfolding require_enabled_token
  create_decimals l args =
      if is_native_sol args.mint
      then (do
        require (leb l.config.sol_min_amount args.amount) amount_below_minimum
        require_max args.house_only args.amount l.config.sol_max_amount
        ok 0)
      else (do
        token_config ← ok_or l.token_config token_not_enabled
        require_enabled_token r token_config args.mint args.amount
        require_max args.house_only args.amount token_config.value.max_amount
        mint_account ← ok_or l.mint_account token_account_required
        require_keys_eq mint_account.key args.mint invalid_mint
        ok mint_account.value.decimals)

  -- The stake's way into the vault of a token game.
  unfoldable pub create_deposit_tokens :
      Create → LoadedCreate → CreateArgs → ℕ → Ledger → Result Ledger
  unfolding require_vault_ata create_ata_if_needed transfer_tokens
  create_deposit_tokens acc l args decimals s = do
    mint_account ← ok_or l.mint_account token_account_required
    creator_token ← ok_or l.creator_token token_account_required
    vault ← ok_or acc.vault token_account_required
    token_program ← require_token_program acc.token_program
    ata_program ← require_ata_program acc.associated_token_program
    require_vault_ata r vault acc.game args.mint token_program
    s' ←
        create_ata_if_needed r acc.creator vault acc.game mint_account.key token_program ata_program
          s
    transfer_tokens r token_program creator_token.key mint_account.key vault acc.creator args.amount
        decimals s'

  unfoldable pub create_deposit : Create → LoadedCreate → CreateArgs → ℕ → Ledger → Result Ledger
  unfolding create_deposit_tokens
  create_deposit acc l args decimals s =
      if is_native_sol args.mint
      then r.transfer acc.creator acc.game args.amount s
      else create_deposit_tokens acc l args decimals s

-- The account that `create` writes.
unfoldable pub new_game : Pubkey → LoadedCreate → CreateArgs → ℕ → Game
new_game creator l args decimals = record {
  creator = creator;
  joiner = default_key;
  amount = args.amount;
  mint = args.mint;
  token_decimals = decimals;
  fee_bps = l.config.fee_bps;
  creator_side = args.side;
  joiner_side = open_side;
  creator_entropy = args.creator_entropy;
  joiner_entropy = zero_entropy;
  status = open_status;
  nonce = args.nonce;
  bump = l.game_bump;
  join_slot = 0;
  cancel_after_slot = 0;
  house_only = args.house_only;
}

unfoldable pub create : Runtime → Create → CreateArgs → Ledger → Result Ledger
create r acc args s = do
  (l, s1) ← load_create r acc args s
  create_guards l.config args
  decimals ← create_decimals r l args
  s2 ← create_deposit r acc l args decimals s1
  ok (store_game acc.game (new_game acc.creator l args decimals) s2)
