-- ===== src/Resolve.antt =====
-- src/instructions/resolve.rs: with the oracle's answer, anyone settles a game: the fee goes to the
-- house and everything else to the winner.
pub mod Payout
pub mod Verdict
pub mod Steps
pub mod Tokens
pub mod TokenPayout
use coinflip_program.Base.{
  ℕ, Bool, true, false, Bytes, Option, some, none, ◌==◌, leb, ltb, if◌then◌else◌, checked_mul,
  checked_sub, u64_width,
}
use coinflip_program.Error.{
  Result, ok, require, ok_or, not_ready, invalid_winner, unauthorized, arithmetic_overflow,
  token_account_required, token_account_mismatch, invalid_mint, ◌>>=◌, ◌>>◌,
}
use coinflip_program.State.{Pubkey, ready, Config, Game, status_eq, is_native_sol}
use coinflip_program.Fees.{pot_fee}
use coinflip_program.Runtime.{Ledger, Runtime, Mint, TokenAccount}
use coinflip_program.Accounts.{
  Account, load_optional, load_config, load_game, load_mint, load_token, require_signer,
  check_token_program, check_config_seeds, check_game_seeds, check_close, constrain_token,
  require_keys_eq, pay_lamports,
}
use coinflip_program.TokenUtils.{
  require_token_program, require_vault_ata, transfer_tokens_from_game, close_vault_from_game,
}
use coinflip_program.Vrf.{vrf_seed, fulfilled_randomness, result_winner}

pub record Resolve : Type 0 where
  pub config : Pubkey
  pub game : Pubkey
  pub mint_account : Option Pubkey
  pub vault : Option Pubkey
  pub winner_token : Option Pubkey
  pub fee_recipient_token : Option Pubkey
  pub token_program : Option Pubkey
  pub winner : Pubkey
  pub fee_recipient : Pubkey
  pub settler : Pubkey
  pub vrf_request : Pubkey

pub record LoadedResolve : Type 0 where
  pub config : Config
  pub game : Game
  pub mint_account : Option (Account Mint)
  pub vault : Option (Account TokenAccount)
  pub winner_token : Option (Account TokenAccount)
  pub fee_recipient_token : Option (Account TokenAccount)

module _ (r : Runtime) where
  unfoldable pub load_resolve : Resolve → Ledger → Result LoadedResolve
  unfolding check_config_seeds check_game_seeds
  load_resolve acc s = do
    config ← load_config acc.config s
    game ← load_game acc.game s
    mint_account ← load_optional (load_mint r s) acc.mint_account
    vault ← load_optional (load_token r s) acc.vault
    winner_token ← load_optional (load_token r s) acc.winner_token
    fee_recipient_token ← load_optional (load_token r s) acc.fee_recipient_token
    check_token_program r acc.token_program
    require_signer acc.settler s
    check_config_seeds r acc.config config
    check_game_seeds r acc.game game
    check_close acc.game acc.winner
    constrain_token vault game.mint acc.game
    constrain_token winner_token game.mint acc.winner
    constrain_token fee_recipient_token game.mint acc.fee_recipient
    require_keys_eq acc.fee_recipient config.authority unauthorized
    ok (record {
      config = config;
      game = game;
      mint_account = mint_account;
      vault = vault;
      winner_token = winner_token;
      fee_recipient_token = fee_recipient_token;
    })

  -- Status, randomness and winner; the result is the winner that the randomness picks.
  unfoldable pub settled_winner : Resolve → LoadedResolve → Ledger → Result Pubkey
  unfolding fulfilled_randomness
  settled_winner acc l s = do
    require (status_eq l.game.status ready) not_ready
    let seed = vrf_seed r acc.game l.game.joiner l.game.joiner_entropy
    randomness ← fulfilled_randomness r acc.vrf_request l.config.vrf_program seed s
    let expected_winner = result_winner r l.game randomness
    require_keys_eq acc.winner expected_winner invalid_winner
    ok expected_winner

  unfoldable pub resolve_sol : Resolve → ℕ → Ledger → Result Ledger
  unfolding pay_lamports
  resolve_sol acc fee s = if ltb 0 fee then pay_lamports acc.game acc.fee_recipient fee s else ok s

  unfoldable pub resolve_tokens : Resolve → LoadedResolve → ℕ → Ledger → Result Ledger
  unfolding require_vault_ata
  resolve_tokens acc l fee s = do
    let game = l.game
    mint ← ok_or l.mint_account token_account_required
    require_keys_eq mint.key game.mint invalid_mint
    vault ← ok_or l.vault token_account_required
    winner_token ← ok_or l.winner_token token_account_required
    fee_token ← ok_or l.fee_recipient_token token_account_required
    program ← require_token_program acc.token_program
    require_vault_ata r vault.key acc.game game.mint program
    pot ← ok_or (checked_mul u64_width game.amount 2) arithmetic_overflow
    require (leb pot vault.value.amount) token_account_mismatch
    winner_amount ← ok_or (checked_sub vault.value.amount fee) arithmetic_overflow
    s1 ←
        transfer_tokens_from_game r program vault.key mint.key fee_token.key acc.game game.creator
          game.nonce game.bump fee game.token_decimals s
    s2 ←
        transfer_tokens_from_game r program vault.key mint.key winner_token.key acc.game
          game.creator game.nonce game.bump winner_amount game.token_decimals s1
    close_vault_from_game r program vault.key acc.winner acc.game game.creator game.nonce game.bump
        s2

  unfoldable pub resolve : Resolve → Ledger → Result Ledger
  resolve acc s = do
    l ← load_resolve acc s
    winner ← settled_winner acc l s
    fee ← pot_fee l.game.amount l.game.fee_bps
    s1 ← if is_native_sol l.game.mint then resolve_sol acc fee s else resolve_tokens acc l fee s
    r.close acc.game acc.winner s1
