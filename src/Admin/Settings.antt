-- ===== src/Admin/Settings.antt =====
-- The configuration's invariant under every change, and who may make one.
use coinflip_program.Base.{◌≡◌, ◌≢◌, ◌⊎◌, ◌≤◌, ◌<◌, true, some, arith}
use coinflip_program.Error.{ok, >>=-eq-ok}
use coinflip_program.State.{Pubkey, Config, default_key, max_fee_bps}
use coinflip_program.Runtime.{Ledger, Runtime}
use coinflip_program.Admin.{
  ConfigAccounts, Setting, apply_setting, set_authority, set_paused, set_fee_bps, set_sol_usdc_pool,
  set_sol_min_amount, set_sol_max_amount, load_admin, configure,
}

-- What holds of the configuration between two instructions. A maximum of 0 means no maximum.
pub record IsValidConfig (c : Config) : Type 0 where
  pub fee_capped : c.fee_bps ≤ max_fee_bps
  pub min_positive : 0 < c.sol_min_amount
  pub max_above_min : (c.sol_max_amount ≡ 0) ⊎ (c.sol_min_amount ≤ c.sol_max_amount)
  pub has_authority : c.authority ≢ default_key
  pub pool_with_mint : (c.usdc_mint ≡ default_key) ⊎ (c.sol_usdc_pool ≢ default_key)

pub apply_setting-IsValidConfig :
    (setting : Setting) (c c' : Config)
    → IsValidConfig c
    → apply_setting setting c ≡ ok c'
    → IsValidConfig c'
unfolding set_authority set_paused set_fee_bps set_sol_usdc_pool set_sol_min_amount
    set_sol_max_amount
apply_setting-IsValidConfig (Setting.authority k) c c' v h = ground arith
apply_setting-IsValidConfig (Setting.paused b) c c' v h = ground arith
apply_setting-IsValidConfig (Setting.fee_bps n) c c' v h = ground arith
apply_setting-IsValidConfig (Setting.sol_usdc_pool m p) c c' v h = ground arith
apply_setting-IsValidConfig (Setting.sol_min_amount n) c c' v h = ground arith
apply_setting-IsValidConfig (Setting.sol_max_amount n) c c' v h = ground arith

pub load_admin_house :
    (r : Runtime) (key authority : Pubkey) (s : Ledger) (c : Config)
    → load_admin r key authority s ≡ ok c
    → (s.configs key ≡ some c) × (c.authority ≡ authority) × (s.signed authority ≡ true)
unfolding load_admin
load_admin_house r key authority s c h = ground arith

-- A configuration change that goes through was signed by the house that the configuration named,
-- and leaves a valid configuration valid.
pub configure-IsValidConfig :
    (r : Runtime) (acc : ConfigAccounts) (setting : Setting) (s s' : Ledger) (c : Config)
    → s.configs acc.config ≡ some c
    → IsValidConfig c
    → configure r acc setting s ≡ ok s'
    → (c' : Config) × (s'.configs acc.config ≡ some c')
      × IsValidConfig c'
      × (c.authority ≡ acc.authority)
      × (s.signed acc.authority ≡ true)
unfolding configure
configure-IsValidConfig r acc setting s s' c e v h =
    let (c1, loading, h1) = >>=-eq-ok (load_admin r acc.config acc.authority s) _ h in
    let (c', changing, storing) = >>=-eq-ok (apply_setting setting c1) _ h1 in
    let (at, house, signed) = load_admin_house r acc.config acc.authority s c1 loading in
    let same : c1 ≡ c = cc in
    let changed : apply_setting setting c ≡ ok c' = rw (← same) changing in
    (
      c',
      ground (arith, storing),
      apply_setting-IsValidConfig setting c c' v changed,
      ground (arith, same, house),
      signed,
    )
