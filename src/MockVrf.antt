-- ===== src/MockVrf.antt =====
-- mock-vrf/src/lib.rs: a stand-in for the oracle, a program of its own, whose answer to a request is
-- a hash of the request's seed. Its addresses' seeds are those of src/vrf.rs; its accounts are their data, a discriminator and the fields.
pub mod Answers
pub mod Service
use coinflip_program.Base.{
  ℕ, ◌+◌, Bytes, [], ◌∷◌, ◌++◌, ◌==◌, ◌&&◌, leb, length, take, drop, get_or, bytes_eq, update,
}
use coinflip_program.Error.{Result, ok, check, seeds, account_not_initialized, ◌>>=◌, ◌>>◌}
use coinflip_program.State.{Pubkey, key_bytes}
use coinflip_program.Runtime.{Ledger, Runtime}
use coinflip_program.Accounts.{require_signer}
use coinflip_program.Vrf.{randomness_account_seed, config_account_seed}

abbrev pub mock_vrf_id : Pubkey
mock_vrf_id = 0x6b3f3883f5f83d1f233c374e1bdb7d408519593f740195afbe4d0af39366b4c4

pub record NetworkState : Type 0 where
  pub bump : ℕ  -- u8

pub record RandomnessV2 : Type 0 where
  pub tag : ℕ  -- u8
  pub client : Pubkey
  pub seed : Bytes
  pub randomness : Bytes

-- The fields in the order of their declaration.
abbrev pub network_state_fields : NetworkState → Bytes
network_state_fields n = n.bump ∷ []

abbrev pub randomness_fields : RandomnessV2 → Bytes
randomness_fields q = q.tag ∷ key_bytes q.client ++ (q.seed ++ q.randomness)

-- What Anchor adds to this program: `init` for its accounts (payer, account, space), and the
-- discriminators of the two account types.
pub record Host : Type 0 where
  pub create : Pubkey → Pubkey → ℕ → Ledger → Result Ledger
  pub network_discriminator : Bytes
  pub randomness_discriminator : Bytes

pub record Initialize : Type 0 where
  pub payer : Pubkey
  pub network_state : Pubkey

pub record RequestV2 : Type 0 where
  pub payer : Pubkey
  pub network_state : Pubkey
  pub treasury : Pubkey
  pub request : Pubkey

-- "coinflip_mock_vrf"
abbrev pub mock_prefix : Bytes
mock_prefix =
    b'c' ∷ b'o' ∷ b'i' ∷ b'n' ∷ b'f' ∷ b'l' ∷ b'i' ∷ b'p' ∷ b'_' ∷ b'm' ∷ b'o' ∷ b'c' ∷ b'k' ∷ b'_'
    ∷ b'v' ∷ b'r' ∷ b'f' ∷ []

abbrev write_account : Pubkey → Bytes → Ledger → Ledger
write_account k bytes s = record s { bytes = update s.bytes k bytes }

module _ (r : Runtime) (host : Host) where
  -- The typed account, if it is this program's and has the type's discriminator.
  unfoldable pub load_network_state : Pubkey → Ledger → Result NetworkState
  load_network_state k s = do
    let bytes = s.bytes k
    check
        (s.owner k == mock_vrf_id
          && leb 9 (length bytes)
          && bytes_eq (take 8 bytes) host.network_discriminator)
        account_not_initialized
    ok (record { bump = get_or bytes 8 0 })

  unfoldable pub initialize : Initialize → Ledger → Result Ledger
  initialize acc s = do
    require_signer acc.payer s
    let address = r.find_program_address (config_account_seed ∷ []) mock_vrf_id
    check (acc.network_state == address.0) seeds
    s1 ← host.create acc.payer acc.network_state (8 + 1) s
    ok (
        write_account acc.network_state
          (host.network_discriminator ++ network_state_fields (record { bump = address.1 })) s1)

  -- The hash of the seed, written to both halves.
  unfoldable pub mock_randomness : Bytes → Bytes
  mock_randomness seed = let hashed = r.hashv (mock_prefix ∷ seed ∷ []) in hashed ++ hashed

  abbrev pub answer : (payer : Pubkey) → (seed : Bytes) → RandomnessV2
  answer payer seed = record {
    tag = 1;
    client = payer;
    seed = seed;
    randomness = mock_randomness seed;
  }

  unfoldable pub request_v2 : RequestV2 → (seed : Bytes) → Ledger → Result Ledger
  request_v2 acc seed s = do
    require_signer acc.payer s
    n ← load_network_state acc.network_state s
    check (acc.network_state == (r.find_program_address (config_account_seed ∷ []) mock_vrf_id).0)
        seeds
    check
        (acc.request
          == (r.find_program_address (randomness_account_seed ∷ seed ∷ []) mock_vrf_id).0)
        seeds
    s1 ← host.create acc.payer acc.request (8 + 1 + 32 + 32 + 64) s
    ok (
        write_account acc.request
          (host.randomness_discriminator ++ randomness_fields (answer acc.payer seed)) s1)
