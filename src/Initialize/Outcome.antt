-- ===== src/Initialize/Outcome.antt =====
-- What `initialize` stores.
use coinflip_program.Base.{ℕ, ◌≡◌, ◌≢◌, true, [], ◌∷◌, some, not, ◌==◌, ==_iff, arith, refl}
use coinflip_program.Error.{
  ok, check, require, seeds, not_signer, invalid_vrf_program, check-eq-ok, >>=-eq-ok,
}
use coinflip_program.State.{Pubkey, Config, default_key, config_seed, program_id}
use coinflip_program.Runtime.{Ledger, Runtime}
use coinflip_program.Runtime.Laws.{InitLaw, system_program}
use coinflip_program.Accounts.{require_signer, store_config}
use coinflip_program.Admin.Settings.{IsValidConfig}
use coinflip_program.Initialize.{Initialize, initial_config, initialize}

-- The configuration that was asked for: the signer is the house, and the oracle is the one given.
pub record IsInitial (acc : Initialize) (vrf_program bump : ℕ) (c : Config) : Type 0 where
  pub authority : c.authority ≡ acc.authority
  pub oracle : c.vrf_program ≡ vrf_program
  pub some_oracle : vrf_program ≢ default_key
  pub bump_found : c.bump ≡ bump
  pub no_resolver : c.resolver ≡ default_key
  pub no_usdc : c.usdc_mint ≡ default_key
  pub no_pool : c.sol_usdc_pool ≡ default_key

initial_config-IsInitial :
    (acc : Initialize) (vrf_program bump : ℕ)
    → vrf_program ≢ default_key
    → IsInitial acc vrf_program bump (initial_config acc.authority vrf_program bump)
unfolding initial_config
initial_config-IsInitial acc vrf_program bump h = record {
  authority = refl;
  oracle = refl;
  some_oracle = h;
  bump_found = refl;
  no_resolver = refl;
  no_usdc = refl;
  no_pool = refl;
}

initial_config-IsValidConfig :
    (authority vrf_program : Pubkey) (bump : ℕ)
    → authority ≢ default_key
    → IsValidConfig (initial_config authority vrf_program bump)
unfolding initial_config
initial_config-IsValidConfig authority vrf_program bump h = ground arith

oracle_given :
    (k : Pubkey) {u : Unit {0}}
    → require (not (k == default_key)) invalid_vrf_program ≡ ok u
    → k ≢ default_key
oracle_given k h = ground arith

-- `initialize` stores a configuration at the address that its seed derives, where the program had no
-- account before: its house is the signer, its oracle the one given, which is not the default key, and
-- its bump that of the address; its token pool is not set. The account's data is its encoding, and it is
-- a valid configuration, if the signer's key is not the default key. Account creation does what is
-- documented.
pub initialize_stores :
    (r : Runtime) (make : InitLaw r) (acc : Initialize) (vrf_program : Pubkey) (s s' : Ledger)
    → acc.authority ≢ default_key
    → initialize r acc vrf_program s ≡ ok s'
    → (c : Config) × (s'.configs acc.config ≡ some c)
      × (s'.bytes acc.config ≡ r.encode_config c)
      × (s'.owner acc.config ≡ program_id)
      × (s.owner acc.config ≡ system_program)
      × (s.signed acc.authority ≡ true)
      × (acc.config ≡ (r.find_program_address (config_seed ∷ []) program_id).0)
      × IsInitial acc vrf_program (r.find_program_address (config_seed ∷ []) program_id).1 c
      × IsValidConfig c
unfolding initialize
initialize_stores r make acc vrf_program s s' someone h =
    let address = r.find_program_address (config_seed ∷ []) program_id in
    let (_, signed, h1) = >>=-eq-ok (require_signer acc.authority s) _ h in
    let (_, derived, h2) = >>=-eq-ok (check (acc.config == address.0) seeds) _ h1 in
    let (s1, made, h3) = >>=-eq-ok (r.init acc.authority acc.config s) _ h2 in
    let (_, given, storing) =
      >>=-eq-ok (require (not (vrf_program == default_key)) invalid_vrf_program) _ h3 in
    let c = initial_config acc.authority vrf_program address.1 in
    let stored : store_config r acc.config c s1 ≡ s' = cc in
    (
      c,
      rw (← stored) (ground arith),
      rw (← stored) (ground arith),
      rw (← stored) (make.owned acc.authority acc.config s s1 made),
      make.fresh acc.authority acc.config s s1 made,
      check-eq-ok _ not_signer signed,
      (==_iff _ _).0 (check-eq-ok _ seeds derived),
      initial_config-IsInitial acc vrf_program address.1 (oracle_given vrf_program given),
      initial_config-IsValidConfig acc.authority vrf_program address.1 someone,
    )
