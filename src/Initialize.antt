-- ===== src/Initialize.antt =====
-- src/instructions/initialize.rs: the configuration account is made, with the caller as the house.
pub mod Outcome
use coinflip_program.Base.{ℕ, false, [], ◌∷◌, ◌==◌, not}
use coinflip_program.Error.{Result, ok, check, require, seeds, invalid_vrf_program, ◌>>=◌, ◌>>◌}
use coinflip_program.State.{
  Pubkey, Config, default_key, config_seed, program_id, default_fee_bps, default_sol_min_amount,
  default_sol_max_amount,
}
use coinflip_program.Runtime.{Ledger, Runtime}
use coinflip_program.Accounts.{require_signer, store_config}

pub record Initialize : Type 0 where
  pub config : Pubkey
  pub authority : Pubkey

unfoldable pub initial_config : (authority vrf_program : Pubkey) (bump : ℕ) → Config
initial_config authority vrf_program bump = record {
  authority = authority;
  resolver = default_key;
  fee_bps = default_fee_bps;
  paused = false;
  bump = bump;
  usdc_mint = default_key;
  sol_usdc_pool = default_key;
  sol_min_amount = default_sol_min_amount;
  vrf_program = vrf_program;
  sol_max_amount = default_sol_max_amount;
}

unfoldable pub initialize : Runtime → Initialize → Pubkey → Ledger → Result Ledger
unfolding initial_config
initialize r acc vrf_program s = do
  require_signer acc.authority s
  let address = r.find_program_address (config_seed ∷ []) program_id
  check (acc.config == address.0) seeds
  s1 ← r.init acc.authority acc.config s
  require (not (vrf_program == default_key)) invalid_vrf_program
  ok (store_config r acc.config (initial_config acc.authority vrf_program address.1) s1)
