-- ===== src/Refund.antt =====
-- src/instructions/refund.rs: a joined game whose randomness never came is undone, once the join
-- slot has left the SlotHashes sysvar: each player gets the stake back.
pub mod Expiry
pub mod Success
pub mod Steps
use coinflip_program.Base.{
  ℕ, Bool, true, false, Option, some, none, ◌==◌, not, leb, ltb, if◌then◌else◌, saturating_mul,
  saturating_sub, u64_width,
}
use coinflip_program.Error.{
  Result, ok, err, coinflip, check, require, ok_or, unauthorized, cancel_not_allowed, not_ready,
  slot_hash_not_ready, invalid_vrf_accounts, address, token_account_required,
  token_account_mismatch, invalid_mint, ◌>>=◌, ◌>>◌,
}
use coinflip_program.State.{Pubkey, ready, Config, Game, status_eq, is_native_sol}
use coinflip_program.Runtime.{Ledger, Runtime, Mint, TokenAccount}
use coinflip_program.Accounts.{
  Account, load_optional, load_config, load_game, load_mint, load_token, check_token_program,
  check_config_seeds, check_game_seeds, check_close, constrain_token, require_keys_eq, pay_lamports,
}
use coinflip_program.TokenUtils.{
  require_token_program, require_vault_ata, transfer_tokens_from_game, close_vault_from_game,
}
use coinflip_program.Vrf.{vrf_seed, randomness_address, is_request_fulfilled}
use coinflip_program.SlotHash
use coinflip_program.SlotHash.{SlotHashLookup, found, expired, lookup_join_slot_hash}

pub record RefundExpired : Type 0 where
  pub config : Pubkey
  pub game : Pubkey
  pub mint_account : Option Pubkey
  pub vault : Option Pubkey
  pub creator_token : Option Pubkey
  pub joiner_token : Option Pubkey
  pub token_program : Option Pubkey
  pub creator : Pubkey
  pub joiner : Pubkey
  pub slot_hashes : Pubkey
  pub vrf_request : Pubkey

pub record LoadedRefund : Type 0 where
  pub config : Config
  pub game : Game
  pub mint_account : Option (Account Mint)
  pub vault : Option (Account TokenAccount)
  pub creator_token : Option (Account TokenAccount)
  pub joiner_token : Option (Account TokenAccount)

-- The match on the lookup's result.
abbrev require_expired : SlotHashLookup → Result (Unit {0})
require_expired expired = ok tt
require_expired (found hash) = err (coinflip cancel_not_allowed)
require_expired SlotHashLookup.not_ready = err (coinflip slot_hash_not_ready)

module _ (r : Runtime) where
  unfoldable pub load_refund : RefundExpired → Ledger → Result LoadedRefund
  unfolding check_config_seeds check_game_seeds
  load_refund acc s = do
    config ← load_config acc.config s
    game ← load_game acc.game s
    mint_account ← load_optional (load_mint r s) acc.mint_account
    vault ← load_optional (load_token r s) acc.vault
    creator_token ← load_optional (load_token r s) acc.creator_token
    joiner_token ← load_optional (load_token r s) acc.joiner_token
    check_token_program r acc.token_program
    check_config_seeds r acc.config config
    check_game_seeds r acc.game game
    require_keys_eq acc.creator game.creator unauthorized
    check_close acc.game acc.creator
    constrain_token vault game.mint acc.game
    constrain_token creator_token game.mint acc.creator
    constrain_token joiner_token game.mint acc.joiner
    require_keys_eq acc.joiner game.joiner unauthorized
    check (acc.slot_hashes == r.slot_hashes_id) address
    require_keys_eq acc.vrf_request
        (randomness_address r config.vrf_program
          (vrf_seed r acc.game game.joiner game.joiner_entropy))
        invalid_vrf_accounts
    ok (record {
      config = config;
      game = game;
      mint_account = mint_account;
      vault = vault;
      creator_token = creator_token;
      joiner_token = joiner_token;
    })

  unfoldable pub refund_guards : RefundExpired → LoadedRefund → Ledger → Result (Unit {0})
  refund_guards acc l s = do
    require (status_eq l.game.status ready) not_ready
    require (ltb 0 l.game.join_slot) not_ready
    let seed = vrf_seed r acc.game l.game.joiner l.game.joiner_entropy
    fulfilled ← is_request_fulfilled r acc.vrf_request l.config.vrf_program seed s
    require (not fulfilled) cancel_not_allowed
    lookup ← lookup_join_slot_hash r acc.slot_hashes l.game.join_slot s
    require_expired lookup

  unfoldable pub refund_tokens : RefundExpired → LoadedRefund → Ledger → Result Ledger
  unfolding require_vault_ata
  refund_tokens acc l s = do
    let game = l.game
    mint ← ok_or l.mint_account token_account_required
    require_keys_eq mint.key game.mint invalid_mint
    vault ← ok_or l.vault token_account_required
    creator_token ← ok_or l.creator_token token_account_required
    joiner_token ← ok_or l.joiner_token token_account_required
    program ← require_token_program acc.token_program
    require_vault_ata r vault.key acc.game game.mint program
    let stake = game.amount
    require (leb (saturating_mul u64_width stake 2) vault.value.amount) token_account_mismatch
    let creator_amount = saturating_sub vault.value.amount stake
    s1 ←
        transfer_tokens_from_game r program vault.key mint.key joiner_token.key acc.game
          game.creator game.nonce game.bump stake game.token_decimals s
    s2 ←
        transfer_tokens_from_game r program vault.key mint.key creator_token.key acc.game
          game.creator game.nonce game.bump creator_amount game.token_decimals s1
    close_vault_from_game r program vault.key acc.creator acc.game game.creator game.nonce game.bump
        s2

  unfoldable pub refund_expired : RefundExpired → Ledger → Result Ledger
  unfolding pay_lamports
  refund_expired acc s = do
    l ← load_refund acc s
    refund_guards acc l s
    s1 ←
        if is_native_sol l.game.mint
        then pay_lamports acc.game acc.joiner l.game.amount s
        else refund_tokens acc l s
    r.close acc.game acc.creator s1
