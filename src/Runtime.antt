-- ===== src/Runtime.antt =====
-- What the program runs on. `Ledger` is the state that an instruction reads and changes: the clock,
-- the transaction's signatures and, for each key, the account's lamports, owner and data. Accounts
-- of the program's own types stand in it as Anchor deserialises them. `Runtime` holds the code that
-- the program calls and does not contain: hashing, address derivation, and the calls of the
-- system, token and associated token programs, of Anchor's account creation and closing, and of
-- any other program. `Runtime/Laws` states what is documented of them.
pub mod Laws
pub mod Tokens
use coinflip_program.Base.{ℕ, ◌+◌, ◌-◌, Bool, Bytes, List, Option, update}
use coinflip_program.Error.{Result}
use coinflip_program.State.{Pubkey, Config, TokenConfig, Game}

pub record Ledger : Type 0 where
  pub slot : ℕ
  pub signed : Pubkey → Bool
  pub lamports : Pubkey → ℕ
  pub owner : Pubkey → Pubkey
  pub bytes : Pubkey → Bytes
  pub configs : Pubkey → Option Config
  pub token_configs : Pubkey → Option TokenConfig
  pub games : Pubkey → Option Game

-- A token account and a mint, as `anchor_spl` unpacks them.
pub record TokenAccount : Type 0 where
  pub mint : Pubkey
  pub owner : Pubkey
  pub amount : ℕ  -- u64

pub record Mint : Type 0 where
  pub decimals : ℕ  -- u8

pub record AccountMeta : Type 0 where
  pub pubkey : Pubkey
  pub is_signer : Bool
  pub is_writable : Bool

pub record Instruction : Type 0 where
  pub program_id : Pubkey
  pub accounts : List AccountMeta
  pub data_bytes : Bytes

pub record TransferChecked : Type 0 where
  pub from : Pubkey
  pub mint : Pubkey
  pub to : Pubkey
  pub authority : Pubkey

pub record CloseAccount : Type 0 where
  pub account : Pubkey
  pub destination : Pubkey
  pub authority : Pubkey

pub record CreateAta : Type 0 where
  pub payer : Pubkey
  pub associated_token : Pubkey
  pub authority : Pubkey
  pub mint : Pubkey

pub record Runtime : Type 0 where
  pub hashv : List Bytes → Bytes
  -- An address and its bump, for seeds and a program.
  pub find_program_address : List Bytes → Pubkey → Pubkey × ℕ
  pub create_program_address : List Bytes → Pubkey → Option Pubkey
  -- Wallet, mint, token program.
  pub associated_token_address : Pubkey → Pubkey → Pubkey → Pubkey
  pub unpack_token : Bytes → Option TokenAccount
  pub unpack_mint : Bytes → Option Mint
  pub is_token_program : Pubkey → Bool
  pub slot_hashes_id : Pubkey
  -- Anchor's encoding of the program's settings as account data, and its decoding.
  pub encode_config : Config → Bytes
  pub decode_config : Bytes → Option Config
  pub encode_token_config : TokenConfig → Bytes
  pub decode_token_config : Bytes → Option TokenConfig
  -- The lamports that keep an account of this length.
  pub minimum_balance : ℕ → ℕ
  -- `AccountInfo::realloc` with zero filling: account, new length.
  pub realloc : Pubkey → ℕ → Ledger → Result Ledger
  -- The system program's transfer: from, to, lamports.
  pub transfer : Pubkey → Pubkey → ℕ → Ledger → Result Ledger
  -- Anchor's `init`: payer, account. It allocates the account and gives it to the program.
  pub init : Pubkey → Pubkey → Ledger → Result Ledger
  -- Anchor's `close = destination` at the instruction's end: account, destination.
  pub close : Pubkey → Pubkey → Ledger → Result Ledger
  -- Calls of a token program, with the seeds that the caller signs by, if it does.
  pub transfer_checked :
      Pubkey → TransferChecked → ℕ → ℕ → Option (List Bytes) → Ledger → Result Ledger
  pub close_account : Pubkey → CloseAccount → Option (List Bytes) → Ledger → Result Ledger
  pub sync_native : Pubkey → Pubkey → Ledger → Result Ledger
  -- The associated token program's `create`, for a token program.
  pub create_ata : Pubkey → Pubkey → CreateAta → Ledger → Result Ledger
  pub invoke : Instruction → Ledger → Result Ledger

-- `n` lamports move from one account to another.
abbrev pub move : (Pubkey → ℕ) → Pubkey → Pubkey → ℕ → Pubkey → ℕ
move l from to n = let l' = update l from (l from - n) in update l' to (l' to + n)
