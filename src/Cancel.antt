-- ===== src/Cancel.antt =====
-- src/instructions/cancel.rs: an open game is closed and its stake goes back to the creator; the
-- house may do so too, once it has announced it and the delay is over.
pub mod Delay
pub mod Steps
use coinflip_program.Base.{
  ℕ, Bool, true, false, Option, some, none, ◌==◌, ◌||◌, ◌&&◌, not, leb, ltb, if◌then◌else◌,
  checked_add, u64_width,
}
use coinflip_program.Error.{
  Result, ok, require, ok_or, unauthorized, cancel_not_allowed, arithmetic_overflow,
  authority_cancel_not_initiated, authority_cancel_not_ready, token_account_required,
  token_account_mismatch, invalid_mint, ◌>>=◌, ◌>>◌,
}
use coinflip_program.State.{
  Pubkey, open_status, Config, Game, status_eq, is_native_sol, authority_cancel_delay_slots,
}
use coinflip_program.Runtime.{Ledger, Runtime, Mint, TokenAccount}
use coinflip_program.Accounts.{
  Account, load_optional, load_config, load_game, load_mint, load_token, require_signer,
  check_token_program, check_config_seeds, check_game_seeds, check_close, constrain_token,
  require_keys_eq, store_game,
}
use coinflip_program.TokenUtils.{
  require_token_program, require_vault_ata, transfer_tokens_from_game, close_vault_from_game,
}

pub record InitiateCancel : Type 0 where
  pub config : Pubkey
  pub game : Pubkey
  pub authority : Pubkey

pub record Cancel : Type 0 where
  pub config : Pubkey
  pub game : Pubkey
  pub mint_account : Option Pubkey
  pub vault : Option Pubkey
  pub creator_token : Option Pubkey
  pub token_program : Option Pubkey
  pub creator : Pubkey
  pub signer : Pubkey

pub record LoadedCancel : Type 0 where
  pub config : Config
  pub game : Game
  pub mint_account : Option (Account Mint)
  pub vault : Option (Account TokenAccount)
  pub creator_token : Option (Account TokenAccount)

-- The tests of the handler before the money moves.
unfoldable pub cancel_guards : Config → Game → (signer slot : ℕ) → Result (Unit {0})
cancel_guards config game signer slot = do
  require (status_eq game.status open_status) cancel_not_allowed
  require (signer == game.creator || signer == config.authority) unauthorized
  if signer == config.authority && not (signer == game.creator)
      then (do
        require (ltb 0 game.cancel_after_slot) authority_cancel_not_initiated
        require (leb game.cancel_after_slot slot) authority_cancel_not_ready)
      else ok tt

module _ (r : Runtime) where
  unfoldable pub initiate : InitiateCancel → Ledger → Result Ledger
  unfolding check_config_seeds check_game_seeds
  initiate acc s = do
    config ← load_config acc.config s
    game ← load_game acc.game s
    require_signer acc.authority s
    check_config_seeds r acc.config config
    check_game_seeds r acc.game game
    require_keys_eq acc.authority config.authority unauthorized
    require (status_eq game.status open_status) cancel_not_allowed
    after ← ok_or (checked_add u64_width s.slot authority_cancel_delay_slots) arithmetic_overflow
    ok (store_game acc.game (record game { cancel_after_slot = after }) s)

  unfoldable pub load_cancel : Cancel → Ledger → Result LoadedCancel
  unfolding check_config_seeds check_game_seeds
  load_cancel acc s = do
    config ← load_config acc.config s
    game ← load_game acc.game s
    mint_account ← load_optional (load_mint r s) acc.mint_account
    vault ← load_optional (load_token r s) acc.vault
    creator_token ← load_optional (load_token r s) acc.creator_token
    check_token_program r acc.token_program
    require_signer acc.signer s
    check_config_seeds r acc.config config
    check_game_seeds r acc.game game
    require_keys_eq acc.creator game.creator unauthorized
    check_close acc.game acc.creator
    constrain_token vault game.mint acc.game
    constrain_token creator_token game.mint acc.creator
    ok (record {
      config = config;
      game = game;
      mint_account = mint_account;
      vault = vault;
      creator_token = creator_token;
    })

  unfoldable pub cancel_tokens : Cancel → LoadedCancel → Ledger → Result Ledger
  unfolding require_vault_ata
  cancel_tokens acc l s = do
    let game = l.game
    mint ← ok_or l.mint_account token_account_required
    require_keys_eq mint.key game.mint invalid_mint
    vault ← ok_or l.vault token_account_required
    creator_token ← ok_or l.creator_token token_account_required
    program ← require_token_program acc.token_program
    require_vault_ata r vault.key acc.game game.mint program
    require (leb game.amount vault.value.amount) token_account_mismatch
    s1 ←
        transfer_tokens_from_game r program vault.key mint.key creator_token.key acc.game
          game.creator game.nonce game.bump vault.value.amount game.token_decimals s
    close_vault_from_game r program vault.key acc.creator acc.game game.creator game.nonce game.bump
        s1

  unfoldable pub cancel : Cancel → Ledger → Result Ledger
  cancel acc s = do
    l ← load_cancel acc s
    cancel_guards l.config l.game acc.signer s.slot
    s1 ← if is_native_sol l.game.mint then ok s else cancel_tokens acc l s
    r.close acc.game acc.creator s1
