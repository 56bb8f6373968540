-- ===== src/Vrf.antt =====
-- src/vrf.rs: the seed of a game's randomness request, the request itself, reading the oracle's
-- answer, and the winner that it picks. The accounts are given by their keys.
pub mod Fulfilment
use coinflip_program.Base.{
  ℕ, ◌+◌, ◌%◌, ◌≡◌, Bool, true, false, Bytes, List, [], ◌∷◌, ◌++◌, ◌||◌, not, ◌==◌, leb, ltb,
  if◌then◌else◌, length, take, slice, get_or, bytes_eq,
}
use coinflip_program.Error.{
  Result, ok, require, invalid_vrf_program, invalid_vrf_accounts, vrf_not_fulfilled, ◌>>=◌, ◌>>◌,
}
use coinflip_program.State.{Pubkey, Game, Side, side_eq, from_result_bit, key_bytes, result_prefix}
use coinflip_program.Runtime.{Ledger, Runtime, AccountMeta, Instruction}
use coinflip_program.Accounts.{require_keys_eq}

abbrev pub orao_vrf_id : Pubkey
orao_vrf_id = 0x747b11afa91b4d1f922f27b0ebac1dab23b2129a4bef34f32a47b58f5cefc78

-- "orao-vrf-randomness-request"
abbrev pub randomness_account_seed : Bytes
randomness_account_seed =
    b'o' ∷ b'r' ∷ b'a' ∷ b'o' ∷ b'-' ∷ b'v' ∷ b'r' ∷ b'f' ∷ b'-' ∷ b'r' ∷ b'a' ∷ b'n' ∷ b'd' ∷ b'o'
    ∷ b'm' ∷ b'n' ∷ b'e' ∷ b's' ∷ b's' ∷ b'-' ∷ b'r' ∷ b'e' ∷ b'q' ∷ b'u' ∷ b'e' ∷ b's' ∷ b't' ∷ []

-- "orao-vrf-network-configuration"
abbrev pub config_account_seed : Bytes
config_account_seed =
    b'o' ∷ b'r' ∷ b'a' ∷ b'o' ∷ b'-' ∷ b'v' ∷ b'r' ∷ b'f' ∷ b'-' ∷ b'n' ∷ b'e' ∷ b't' ∷ b'w' ∷ b'o'
    ∷ b'r' ∷ b'k' ∷ b'-' ∷ b'c' ∷ b'o' ∷ b'n' ∷ b'f' ∷ b'i' ∷ b'g' ∷ b'u' ∷ b'r' ∷ b'a' ∷ b't'
    ∷ b'i' ∷ b'o' ∷ b'n' ∷ []

-- "coinflip_vrf_seed_v1"
abbrev pub vrf_seed_prefix : Bytes
vrf_seed_prefix =
    b'c' ∷ b'o' ∷ b'i' ∷ b'n' ∷ b'f' ∷ b'l' ∷ b'i' ∷ b'p' ∷ b'_' ∷ b'v' ∷ b'r' ∷ b'f' ∷ b'_' ∷ b's'
    ∷ b'e' ∷ b'e' ∷ b'd' ∷ b'_' ∷ b'v' ∷ b'1' ∷ []

abbrev request_v2_discriminator : Bytes
request_v2_discriminator = 38 ∷ 151 ∷ 209 ∷ 6 ∷ 195 ∷ 102 ∷ 28 ∷ 217 ∷ []

module _ (r : Runtime) where
  abbrev pub vrf_seed : Pubkey → Pubkey → Bytes → Bytes
  vrf_seed game joiner joiner_entropy =
      r.hashv (vrf_seed_prefix ∷ key_bytes game ∷ key_bytes joiner ∷ joiner_entropy ∷ [])

  abbrev pub randomness_address : Pubkey → Bytes → Pubkey
  randomness_address vrf_program seed =
      (r.find_program_address (randomness_account_seed ∷ seed ∷ []) vrf_program).0

  abbrev pub network_state_address : Pubkey → Pubkey
  network_state_address vrf_program =
      (r.find_program_address (config_account_seed ∷ []) vrf_program).0

  -- The side that the hash of both players' entropy and the oracle's first half picks.
  unfoldable pub winning_side : Game → Bytes → Side
  winning_side game randomness =
      let hash =
        r.hashv
          (result_prefix ∷ game.creator_entropy ∷ game.joiner_entropy ∷ take 32 randomness ∷ []) in
      from_result_bit (get_or hash 0 0 % 2)

  unfoldable pub result_winner : Game → Bytes → Pubkey
  result_winner game randomness =
      if side_eq game.creator_side (winning_side game randomness) then game.creator else game.joiner

  unfoldable pub fulfilled_randomness : Pubkey → Pubkey → Bytes → Ledger → Result Bytes
  fulfilled_randomness request vrf_program seed s = do
    require_keys_eq request (randomness_address vrf_program seed) invalid_vrf_accounts
    require_keys_eq (s.owner request) vrf_program vrf_not_fulfilled
    let bytes = s.bytes request
    require (leb (73 + 64) (length bytes)) vrf_not_fulfilled
    require (get_or bytes 8 0 == 1) vrf_not_fulfilled
    require (bytes_eq (slice bytes 41 73) seed) invalid_vrf_accounts
    ok (slice bytes 73 137)

  -- Of the right account: has the oracle answered in it?
  abbrev read_fulfilled : Bytes → Bytes → Result Bool
  read_fulfilled bytes seed =
      if ltb (length bytes) 137 || not (get_or bytes 8 0 == 1)
      then ok false
      else (do require (bytes_eq (slice bytes 41 73) seed) invalid_vrf_accounts; ok true)

  unfoldable pub is_request_fulfilled : Pubkey → Pubkey → Bytes → Ledger → Result Bool
  is_request_fulfilled request vrf_program seed s = do
    require_keys_eq request (randomness_address vrf_program seed) invalid_vrf_accounts
    if s.owner request == vrf_program then read_fulfilled (s.bytes request) seed else ok false

  abbrev writable : Pubkey → Bool → AccountMeta
  writable k signer = record { pubkey = k; is_signer = signer; is_writable = true }

  abbrev pub request_instruction :
      (payer network_state treasury request system_program expected_vrf : Pubkey)
      → Bytes
      → Instruction
  request_instruction payer network_state treasury request system_program expected_vrf seed =
      record {
        program_id = expected_vrf;
        accounts =
            writable payer true
            ∷ writable network_state false
            ∷ writable treasury false
            ∷ writable request false
            ∷ (record { pubkey = system_program; is_signer = false; is_writable = false })
            ∷ [];
        data_bytes = request_v2_discriminator ++ seed;
      }

  unfoldable pub request_randomness :
      (vrf_program payer network_state treasury request system_program expected_vrf : Pubkey)
      → Bytes
      → Ledger
      → Result Ledger
  unfolding is_request_fulfilled
  request_randomness vrf_program payer network_state treasury request system_program expected_vrf
        seed s =
      do
        require_keys_eq vrf_program expected_vrf invalid_vrf_program
        require_keys_eq network_state (network_state_address expected_vrf) invalid_vrf_accounts
        require_keys_eq request (randomness_address expected_vrf seed) invalid_vrf_accounts
        if s.owner request == expected_vrf
            then (do
              fulfilled ← is_request_fulfilled request expected_vrf seed s
              require (not fulfilled) invalid_vrf_accounts
              ok s)
            else r.invoke
                (request_instruction payer network_state treasury request system_program
                  expected_vrf seed)
                s
