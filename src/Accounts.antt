-- ===== src/Accounts.antt =====
-- What the `#[derive(Accounts)]` attributes of src/instructions ask for: loading typed accounts,
-- signatures, addresses derived from seeds, and the constraints that several instructions share.
pub mod Payments
use coinflip_program.Base.{
  ℕ, ◌≡◌, Bool, true, false, Bytes, List, [], ◌∷◌, Option, some, none, ◌==◌, not, to_le_bytes,
  update, checked_sub, checked_add, u64_width,
}
use coinflip_program.Error.{
  Result, ok, err, loaded, check, require, CoinflipError, not_signer, seeds, invalid_program_id,
  close, ok_or, arithmetic_overflow, invalid_mint, token_account_mismatch, ◌>>=◌, ◌>>◌,
}
use coinflip_program.State.{
  Pubkey, Config, Game, TokenConfig, config_seed, game_seed, token_seed, key_bytes, program_id,
}
use coinflip_program.Runtime.{Ledger, Runtime, TokenAccount, Mint}

-- An account that the instruction got, with its key.
pub record Account {ℓ} (A : Type ℓ) : Type ℓ where
  pub key : Pubkey
  pub value : A

-- `Option<Account<T>>`: an account that is left out loads as `none`.
abbrev pub load_optional {ℓ} :
    {A : Type ℓ} → (Pubkey → Result A) → Option Pubkey → Result (Option (Account A))
load_optional load none = ok none
load_optional load (some k) = do a ← load k; ok (some (record { key = k; value = a }))

-- `require_keys_eq!(a, b, e)`
abbrev pub require_keys_eq : Pubkey → Pubkey → CoinflipError → Result (Unit {0})
require_keys_eq a b e = require (a == b) e

-- A `Signer` field.
abbrev pub require_signer : Pubkey → Ledger → Result (Unit {0})
require_signer k s = check (s.signed k) not_signer

abbrev pub same_address : Option Pubkey → Pubkey → Bool
same_address none k = false
same_address (some a) k = a == k

-- The seeds of a game's address, without the bump.
abbrev pub game_seeds : Pubkey → ℕ → List Bytes
game_seeds creator nonce = game_seed ∷ key_bytes creator ∷ to_le_bytes 8 nonce ∷ []

abbrev pub game_signer_seeds : Pubkey → ℕ → ℕ → List Bytes
game_signer_seeds creator nonce bump =
    game_seed ∷ key_bytes creator ∷ to_le_bytes 8 nonce ∷ (bump ∷ []) ∷ []

abbrev pub load_config : Pubkey → Ledger → Result Config
load_config k s = loaded (s.configs k)

abbrev pub load_game : Pubkey → Ledger → Result Game
load_game k s = loaded (s.games k)

abbrev pub load_token_config : Ledger → Pubkey → Result TokenConfig
load_token_config s k = loaded (s.token_configs k)

module _ (r : Runtime) where
  -- `seeds = [CONFIG_SEED], bump = config.bump`
  unfoldable pub check_config_seeds : Pubkey → Config → Result (Unit {0})
  check_config_seeds k c =
      check
        (same_address (r.create_program_address (config_seed ∷ (c.bump ∷ []) ∷ []) program_id) k)
        seeds

  -- `seeds = [GAME_SEED, game.creator, game.nonce], bump = game.bump`
  unfoldable pub check_game_seeds : Pubkey → Game → Result (Unit {0})
  check_game_seeds k g =
      check
        (same_address
          (r.create_program_address (game_signer_seeds g.creator g.nonce g.bump) program_id) k)
        seeds

  -- `seeds = [TOKEN_SEED, token_config.mint], bump = token_config.bump`
  unfoldable pub check_token_seeds : Pubkey → TokenConfig → Result (Unit {0})
  check_token_seeds k t =
      check
        (same_address
          (r.create_program_address (token_seed ∷ key_bytes t.mint ∷ (t.bump ∷ []) ∷ []) program_id)
          k)
        seeds

  abbrev pub load_token : Ledger → Pubkey → Result TokenAccount
  load_token s k = loaded (r.unpack_token (s.bytes k))

  abbrev pub load_mint : Ledger → Pubkey → Result Mint
  load_mint s k = loaded (r.unpack_mint (s.bytes k))

  -- An `Interface<TokenInterface>` field, which may be left out.
  abbrev pub check_token_program : Option Pubkey → Result (Unit {0})
  check_token_program none = ok tt
  check_token_program (some k) = check (r.is_token_program k) invalid_program_id

-- `constraint = t.mint == mint @ InvalidMint, constraint = t.owner == owner @ TokenAccountMismatch`
abbrev pub constrain_token : Option (Account TokenAccount) → Pubkey → Pubkey → Result (Unit {0})
constrain_token none mint owner = ok tt
constrain_token (some t) mint owner = do
  require (t.value.mint == mint) invalid_mint
  require (t.value.owner == owner) token_account_mismatch

-- The account is written back when the instruction ends.
abbrev pub store_game : Pubkey → Game → Ledger → Ledger
store_game k g s = record s { games = update s.games k (some g) }

-- The settings' accounts are also read as bytes, by the migrations.
abbrev pub store_config : Runtime → Pubkey → Config → Ledger → Ledger
store_config r k c s = record s {
  configs = update s.configs k (some c);
  bytes = update s.bytes k (r.encode_config c);
}

abbrev pub store_token_config : Runtime → Pubkey → TokenConfig → Ledger → Ledger
store_token_config r k t s = record s {
  token_configs = update s.token_configs k (some t);
  bytes = update s.bytes k (r.encode_token_config t);
}

-- `close = destination` asks for two different accounts.
abbrev pub check_close : Pubkey → Pubkey → Result (Unit {0})
check_close account destination = check (not (account == destination)) close

-- Lamports paid from a game's account by the program itself: both balances are read first.
unfoldable pub pay_lamports : Pubkey → Pubkey → ℕ → Ledger → Result Ledger
pay_lamports from to amount s = do
  rest ← ok_or (checked_sub (s.lamports from) amount) arithmetic_overflow
  sum ← ok_or (checked_add u64_width (s.lamports to) amount) arithmetic_overflow
  ok (record s { lamports = update (update s.lamports from rest) to sum })
