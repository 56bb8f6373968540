-- ===== src/Swap.antt =====
-- src/swap.rs: a Raydium CLMM swap over a list of remaining accounts, given by their keys. The
-- build without the `devnet` feature is modelled, which is the default.
pub mod Laws
use coinflip_program.Base.{
  ℕ, ◌+◌, ◌-◌, ◌≡◌, Bool, true, false, Bytes, List, [], ◌∷◌, ◌++◌, ◌&&◌, ◌||◌, not, ◌==◌, leb, ltb,
  if◌then◌else◌, length, take, drop, get_or, slice, to_le_bytes, from_le_bytes,
}
use coinflip_program.Error.{
  Result, ok, require, invalid_swap_accounts, invalid_pool, invalid_amount, ◌>>=◌, ◌>>◌,
}
use coinflip_program.State.{Pubkey, raydium_clmm, default_key}
use coinflip_program.Runtime.{Ledger, Runtime, AccountMeta, Instruction}
use coinflip_program.Accounts.{require_keys_eq}

abbrev pub hop_fixed : ℕ
hop_fixed = 12

abbrev swap_v2_discriminator : Bytes
swap_v2_discriminator = 43 ∷ 4 ∷ 237 ∷ 11 ∷ 26 ∷ 201 ∷ 30 ∷ 98 ∷ []

abbrev pub is_clmm_program : Pubkey → Bool
is_clmm_program program = program == raydium_clmm

-- `hop[i].key()`; the callers have tested the length.
abbrev pub hop_key : List Pubkey → ℕ → Pubkey
hop_key hop i = get_or hop i default_key

unfoldable pub split_hops : List Pubkey → ℕ → Result (List Pubkey × List Pubkey)
split_hops remaining hop1_len =
    if hop1_len == 0
    then (do require (leb hop_fixed (length remaining)) invalid_swap_accounts; ok (remaining, []))
    else (do
      require (leb hop_fixed hop1_len && ltb hop1_len (length remaining)) invalid_swap_accounts
      require (leb hop_fixed (length remaining - hop1_len)) invalid_swap_accounts
      ok (take hop1_len remaining, drop hop1_len remaining))

-- `rest.is_empty()`
abbrev pub is_nil : List Pubkey → Bool
is_nil [] = true
is_nil (x ∷ xs) = false

abbrev is_writable_index : ℕ → Bool
is_writable_index i =
    not (i == 0) && not (i == 7) && not (i == 8) && not (i == 9) && not (i == 10) && not (i == 11)

hop_metas : ℕ → List Pubkey → List AccountMeta
hop_metas i [] = []
hop_metas i (k ∷ hop) =
    (record { pubkey = k; is_signer = false; is_writable = is_writable_index i })
    ∷ hop_metas (i + 1) hop

abbrev bool_byte : Bool → ℕ
bool_byte true = 1
bool_byte false = 0

unfoldable pub swap_instruction : Pubkey → Pubkey → List Pubkey → ℕ → ℕ → Bool → Instruction
unfolding hop_metas
swap_instruction clmm owner hop amount other_amount_threshold is_base_input = record {
  program_id = clmm;
  accounts = (record { pubkey = owner; is_signer = true; is_writable = false }) ∷ hop_metas 0 hop;
  data_bytes =
      swap_v2_discriminator
      ++ (to_le_bytes 8 amount
          ++ (to_le_bytes 8 other_amount_threshold
              ++ (to_le_bytes 16 0 ++ (bool_byte is_base_input ∷ []))));
}

module _ (r : Runtime) where
  unfoldable pub invoke_swap_v2 :
      (clmm owner : Pubkey) (hop : List Pubkey) (expected_pool : Pubkey)
      (amount other_amount_threshold : ℕ)
      → Bool
      → Ledger
      → Result Ledger
  invoke_swap_v2 clmm owner hop expected_pool amount other_amount_threshold is_base_input s = do
    require (leb hop_fixed (length hop)) invalid_swap_accounts
    require (is_clmm_program clmm) invalid_swap_accounts
    require_keys_eq (hop_key hop 1) expected_pool invalid_pool
    require (ltb 0 amount) invalid_amount
    require (ltb 0 other_amount_threshold) invalid_amount
    r.invoke (swap_instruction clmm owner hop amount other_amount_threshold is_base_input) s

  unfoldable pub swap_exact_out :
      (clmm owner : Pubkey) (hop : List Pubkey) (expected_pool : Pubkey)
      (max_amount_in amount_out : ℕ)
      → Ledger
      → Result Ledger
  unfolding invoke_swap_v2
  swap_exact_out clmm owner hop expected_pool max_amount_in amount_out s =
      invoke_swap_v2 clmm owner hop expected_pool amount_out max_amount_in false s

  unfoldable pub swap_exact_in :
      (clmm owner : Pubkey) (hop : List Pubkey) (expected_pool : Pubkey)
      (amount_in min_amount_out : ℕ)
      → Ledger
      → Result Ledger
  unfolding invoke_swap_v2
  swap_exact_in clmm owner hop expected_pool amount_in min_amount_out s =
      invoke_swap_v2 clmm owner hop expected_pool amount_in min_amount_out true s

  unfoldable pub token_amount : Pubkey → Ledger → Result ℕ
  token_amount account s = do
    require (leb 72 (length (s.bytes account))) invalid_swap_accounts
    ok (from_le_bytes (slice (s.bytes account) 64 72))
