-- ===== src/State.antt =====
-- src/state.rs: the constants, the accounts that the program owns, and the sides of a coin.
-- A public key is the number that its 32 bytes spell from the first byte on; `Pubkey::default()`
-- is 0. The fee arithmetic of the same file is `Fees`.
use coinflip_program.Base.{
  ℕ, ◌≡◌, refl, arith, Bool, Bytes, [], ◌∷◌, ◌||◌, ◌==◌, not, if◌then◌else◌, bytes_eq, replicate,
  to_be_bytes,
}
use coinflip_program.Error.{Result, ok, err, coinflip, invalid_side, entropy_all_zero, require}

abbrev pub Pubkey : Type 0
Pubkey = ℕ

abbrev pub default_key : Pubkey
default_key = 0

-- `Pubkey::as_ref`
abbrev pub key_bytes : Pubkey → Bytes
key_bytes k = to_be_bytes 32 k

abbrev pub config_seed : Bytes
config_seed = b'c' ∷ b'o' ∷ b'n' ∷ b'f' ∷ b'i' ∷ b'g' ∷ []

abbrev pub game_seed : Bytes
game_seed = b'g' ∷ b'a' ∷ b'm' ∷ b'e' ∷ []

abbrev pub token_seed : Bytes
token_seed = b't' ∷ b'o' ∷ b'k' ∷ b'e' ∷ b'n' ∷ []

-- "coinflip_p2p_v1"
abbrev pub result_prefix : Bytes
result_prefix =
    b'c' ∷ b'o' ∷ b'i' ∷ b'n' ∷ b'f' ∷ b'l' ∷ b'i' ∷ b'p' ∷ b'_' ∷ b'p' ∷ b'2' ∷ b'p' ∷ b'_' ∷ b'v'
    ∷ b'1' ∷ []

abbrev pub bps_denominator : ℕ
bps_denominator = 10_000

abbrev pub default_fee_bps : ℕ
default_fee_bps = 350

abbrev pub max_fee_bps : ℕ
max_fee_bps = 500

abbrev pub trade_fee_bps : ℕ
trade_fee_bps = 100

abbrev pub default_sol_min_amount : ℕ
default_sol_min_amount = 10_000_000

abbrev pub default_sol_max_amount : ℕ
default_sol_max_amount = 1_040_000_000

abbrev pub authority_cancel_delay_slots : ℕ
authority_cancel_delay_slots = 32

abbrev pub wsol_mint : Pubkey
wsol_mint = 0x69b8857feab8184fb687f634618c035dac439dc1aeb3b5598a0f00000000001

abbrev pub raydium_clmm : Pubkey
raydium_clmm = 0xa5d5ca9e04cf5db590b714ba2fe32cb159133fc1c192b72257fd07d39cb0401e

abbrev pub token_program_id : Pubkey
token_program_id = 0x6ddf6e1d765a193d9cbe146ceeb79ac1cb485ed5f5b37913a8cf5857eff00a9

-- `declare_id!` of src/lib.rs, the program's own key.
abbrev pub program_id : Pubkey
program_id = 0xd510efcdc228c1a16116eaf39e731b0213f20438b7b65314d773a3b5de61a945

pub data Side : Type 0 where
  heads tails open_side : Side

pub data GameStatus : Type 0 where
  open_status ready : GameStatus

pub record Config : Type 0 where
  pub authority : Pubkey
  pub resolver : Pubkey
  pub fee_bps : ℕ  -- u16
  pub paused : Bool
  pub bump : ℕ  -- u8
  pub usdc_mint : Pubkey
  pub sol_usdc_pool : Pubkey
  pub sol_min_amount : ℕ  -- u64
  pub vrf_program : Pubkey
  pub sol_max_amount : ℕ  -- u64

pub record TokenConfig : Type 0 where
  pub mint : Pubkey
  pub min_amount : ℕ  -- u64
  pub is_enabled : Bool
  pub bump : ℕ  -- u8
  pub pool : Pubkey
  pub quote_mint : Pubkey
  pub cross_disabled : Bool
  pub max_amount : ℕ  -- u64

pub record Game : Type 0 where
  pub creator : Pubkey
  pub joiner : Pubkey
  pub amount : ℕ  -- u64
  pub mint : Pubkey
  pub token_decimals : ℕ  -- u8
  pub fee_bps : ℕ  -- u16
  pub creator_side : Side
  pub joiner_side : Side
  pub creator_entropy : Bytes  -- [u8; 32]
  pub joiner_entropy : Bytes  -- [u8; 32]
  pub status : GameStatus
  pub nonce : ℕ  -- u64
  pub bump : ℕ  -- u8
  pub join_slot : ℕ  -- u64
  pub cancel_after_slot : ℕ  -- u64
  pub house_only : Bool

-- `Config::house`
abbrev pub house : Config → Pubkey
house c = c.authority

abbrev pub is_native_sol : Pubkey → Bool
is_native_sol mint = mint == default_key

abbrev pub is_sol_mint : Pubkey → Bool
is_sol_mint mint = is_native_sol mint || mint == wsol_mint

abbrev pub effective_mint : Pubkey → Pubkey
effective_mint mint = if is_native_sol mint then wsol_mint else mint

-- `==` on `Side` and on `GameStatus`
abbrev pub side_eq : Side → Side → Bool
side_eq heads heads = Bool.true
side_eq tails tails = Bool.true
side_eq open_side open_side = Bool.true
side_eq _ _ = Bool.false

abbrev pub status_eq : GameStatus → GameStatus → Bool
status_eq open_status open_status = Bool.true
status_eq ready ready = Bool.true
status_eq _ _ = Bool.false

-- `Side::opposite`
abbrev pub opposite : Side → Result Side
opposite heads = ok tails
opposite tails = ok heads
opposite open_side = err (coinflip invalid_side)

-- `Side::from_result_bit`
abbrev pub from_result_bit : ℕ → Side
from_result_bit bit = if bit == 0 then tails else heads

abbrev pub zero_entropy : Bytes
zero_entropy = replicate 32 0

unfoldable pub require_nonzero_entropy : Bytes → Result (Unit {0})
require_nonzero_entropy entropy = require (not (bytes_eq entropy zero_entropy)) entropy_all_zero

pub status_eq→eq : (a b : GameStatus) → status_eq a b ≡ Bool.true → a ≡ b
status_eq→eq open_status open_status h = refl
status_eq→eq ready ready h = refl
status_eq→eq open_status ready h = cc
status_eq→eq ready open_status h = cc

pub is_ready_ok : (t : GameStatus) → t ≡ ready → status_eq t ready ≡ Bool.true
is_ready_ok t h = ground arith

pub side_eq→eq : (a b : Side) → side_eq a b ≡ Bool.true → a ≡ b
side_eq→eq a b h = ground arith
