-- ===== src/TokenUtils.antt =====
-- src/token_utils.rs.
pub mod Transfers
use coinflip_program.Base.{
  ℕ, Bool, true, false, Bytes, [], ◌∷◌, Option, some, none, ◌==◌, leb, if◌then◌else◌,
}
use coinflip_program.Error.{
  Result, ok, ok_or, require, invalid_mint, token_not_enabled, amount_below_minimum,
  token_account_mismatch, token_account_required, ◌>>◌,
}
use coinflip_program.State.{Pubkey, TokenConfig, token_seed, key_bytes, program_id}
use coinflip_program.Runtime.{Ledger, Runtime}
use coinflip_program.Accounts.{Account, require_keys_eq, game_signer_seeds}

-- `data_is_empty`
abbrev is_empty : Bytes → Bool
is_empty [] = true
is_empty (b ∷ bs) = false

-- The two of them: `require_token_program` and `require_ata_program`.
abbrev pub require_token_program : Option Pubkey → Result Pubkey
require_token_program k = ok_or k token_account_required

abbrev pub require_ata_program : Option Pubkey → Result Pubkey
require_ata_program k = ok_or k token_account_required

module _ (r : Runtime) where
  unfoldable pub require_enabled_token : Account TokenConfig → Pubkey → ℕ → Result (Unit {0})
  require_enabled_token token_config mint amount = do
    require_keys_eq token_config.key
        (r.find_program_address (token_seed ∷ key_bytes mint ∷ []) program_id).0 invalid_mint
    require_keys_eq token_config.value.mint mint invalid_mint
    require token_config.value.is_enabled token_not_enabled
    require (leb token_config.value.min_amount amount) amount_below_minimum

  -- vault, game, mint, token program
  unfoldable pub require_vault_ata : Pubkey → Pubkey → Pubkey → Pubkey → Result (Unit {0})
  require_vault_ata vault game mint token_program =
      require_keys_eq vault (r.associated_token_address game mint token_program)
        token_account_mismatch

  unfoldable pub create_ata_if_needed :
      (payer vault authority mint token_program ata_program : Pubkey) → Ledger → Result Ledger
  create_ata_if_needed payer vault authority mint token_program ata_program s =
      if is_empty (s.bytes vault)
      then r.create_ata ata_program token_program
          (record { payer = payer; associated_token = vault; authority = authority; mint = mint }) s
      else ok s

  unfoldable pub transfer_tokens :
      (token_program from mint to authority : Pubkey) (amount decimals : ℕ) → Ledger → Result Ledger
  transfer_tokens token_program from mint to authority amount decimals s =
      r.transfer_checked token_program
        (record { from = from; mint = mint; to = to; authority = authority }) amount decimals none s

  unfoldable pub transfer_tokens_from_game :
      (token_program from mint to game creator : Pubkey) (nonce bump amount decimals : ℕ)
      → Ledger
      → Result Ledger
  transfer_tokens_from_game token_program from mint to game creator nonce bump amount decimals s =
      if amount == 0
      then ok s
      else r.transfer_checked token_program
          (record { from = from; mint = mint; to = to; authority = game }) amount decimals
          (some (game_signer_seeds creator nonce bump)) s

  unfoldable pub close_vault_from_game :
      (token_program vault destination game creator : Pubkey) (nonce bump : ℕ)
      → Ledger
      → Result Ledger
  close_vault_from_game token_program vault destination game creator nonce bump s =
      r.close_account token_program
        (record { account = vault; destination = destination; authority = game })
        (some (game_signer_seeds creator nonce bump)) s
