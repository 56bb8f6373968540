-- ===== src/Tests/World.antt =====
-- A runtime with simple stand-ins: addresses are sums of bytes, transfers move what is there, a new
-- account only changes hands, and the pools' program takes its threshold and pays the amount.
use coinflip_program.Base.{
  ℕ, ◌+◌, ◌-◌, ◌*◌, ◌%◌, ◌^◌, false, Bytes, List, [], ◌∷◌, ◌++◌, Option, some, none, ◌==◌, ◌&&◌,
  leb, ltb, if◌then◌else◌, length, take, drop, get_or, slice, replicate, update, to_le_bytes,
  from_le_bytes, from_be_bytes,
}
use coinflip_program.Error.{Result, ok, err, external, ◌>>=◌}
use coinflip_program.State.{Pubkey, Config, program_id, token_program_id, raydium_clmm, default_key}
use coinflip_program.Runtime.{
  Ledger, Runtime, AccountMeta, Instruction, TransferChecked, TokenAccount, move,
}
use coinflip_program.Runtime.Laws.{balance, closed, system_program}
use coinflip_program.Admin.Migration.Layout.{config_fields, padded}

sum_bytes : Bytes → ℕ
sum_bytes [] = 0
sum_bytes (b ∷ bs) = b + sum_bytes bs

unfoldable pub sum_all : List Bytes → ℕ
unfolding sum_bytes
sum_all [] = 0
sum_all (bs ∷ rest) = sum_bytes bs + sum_all rest

unfoldable pub write_balance : Pubkey → ℕ → Ledger → Ledger
write_balance k v s =
    let bs = s.bytes k in
    record s { bytes = update s.bytes k (take 64 bs ++ (to_le_bytes 8 v ++ drop 72 bs)) }

unfoldable pub debit : Pubkey → ℕ → Ledger → Result Ledger
debit k n s =
    if leb 72 (length (s.bytes k)) && leb n (balance s k) && ltb (balance s k) (2 ^ 64)
    then ok (write_balance k (balance s k - n) s)
    else err (external 1)

unfoldable pub credit : Pubkey → ℕ → Ledger → Result Ledger
credit k n s =
    if leb 72 (length (s.bytes k)) && ltb (balance s k + n) (2 ^ 64)
    then ok (write_balance k (balance s k + n) s)
    else err (external 1)

unfoldable pub transfer : Pubkey → Pubkey → ℕ → Ledger → Result Ledger
transfer from to n s =
    if s.owner from == system_program && leb n (s.lamports from)
    then ok (record s { lamports = move s.lamports from to n })
    else err (external 1)

unfoldable pub init : Pubkey → Pubkey → Ledger → Result Ledger
init payer account s =
    if s.owner account == system_program
    then ok (record s { owner = update s.owner account program_id })
    else err (external 0)

unfoldable pub transfer_checked :
    Pubkey → TransferChecked → ℕ → ℕ → Option (List Bytes) → Ledger → Result Ledger
transfer_checked program t amount decimals signer s =
    debit t.from amount s >>= λ s1. credit t.to amount s1

abbrev pub meta_key : List AccountMeta → ℕ → Pubkey
meta_key ms i =
    (get_or ms i (record { pubkey = default_key; is_signer = false; is_writable = false })).pubkey

unfoldable pub invoke : Instruction → Ledger → Result Ledger
invoke i s =
    if i.program_id == raydium_clmm
    then (debit (meta_key i.accounts 3) (from_le_bytes (slice i.data_bytes 16 24)) s >>= λ s1.
        credit (meta_key i.accounts 4) (from_le_bytes (slice i.data_bytes 8 16)) s1)
    else ok s

unfoldable pub unpack_token : Bytes → Option TokenAccount
unpack_token bs =
    if leb 72 (length bs)
    then some (record {
      mint = from_be_bytes (slice bs 0 32);
      owner = from_be_bytes (slice bs 32 64);
      amount = from_le_bytes (slice bs 64 72);
    })
    else none

-- The parts of an account's data.
abbrev pub discriminator : Bytes
discriminator = 155 ∷ 12 ∷ 170 ∷ 224 ∷ 30 ∷ 250 ∷ 204 ∷ 130 ∷ []

unfoldable pub read_config : Bytes → Config
read_config bs = record {
  authority = from_be_bytes (slice bs 8 40);
  resolver = from_be_bytes (slice bs 40 72);
  fee_bps = from_le_bytes (slice bs 72 74);
  paused = get_or bs 74 0 == 1;
  bump = get_or bs 75 0;
  usdc_mint = from_be_bytes (slice bs 76 108);
  sol_usdc_pool = from_be_bytes (slice bs 108 140);
  sol_min_amount = from_le_bytes (slice bs 140 148);
  vrf_program = from_be_bytes (slice bs 148 180);
  sol_max_amount = from_le_bytes (slice bs 180 188);
}

unfoldable pub runtime : Runtime
runtime = record {
  hashv = λ parts. sum_all parts % 256 ∷ replicate 31 7;
  find_program_address = λ seeds program. (1000 + sum_all seeds + 255, 255);
  create_program_address = λ seeds program. some (1000 + sum_all seeds);
  associated_token_address = λ wallet mint program. wallet + mint + program;
  unpack_token = unpack_token;
  unpack_mint = λ bs. some (record { decimals = get_or bs 44 6 });
  is_token_program = λ k. k == token_program_id;
  slot_hashes_id = 7;
  encode_config = λ c. discriminator ++ config_fields c;
  decode_config = λ bs. some (read_config bs);
  encode_token_config = λ t. [];
  decode_token_config = λ bs. none;
  minimum_balance = λ n. 10 * n;
  realloc = λ k n s. ok (record s { bytes = update s.bytes k (padded n (s.bytes k)) });
  transfer = transfer;
  init = init;
  close = λ account destination s. ok (closed account destination s);
  transfer_checked = transfer_checked;
  close_account = λ program c signer s. ok (record s { bytes = update s.bytes c.account [] });
  sync_native = λ program account s. ok s;
  create_ata = λ ata program c s.
      ok (record s { bytes = update s.bytes c.associated_token (replicate 165 0) });
  invoke = invoke;
}
