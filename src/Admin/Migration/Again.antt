-- ===== src/Admin/Migration/Again.antt =====
-- A second migration.
use coinflip_program.Base.{ℕ, ◌≡◌, ◌≢◌, refl, sym, ◌∙◌, arith}
use coinflip_program.Error.{ok}
use coinflip_program.State.{Config, default_sol_min_amount, default_sol_max_amount}
use coinflip_program.Vrf.{orao_vrf_id}
use coinflip_program.Runtime.{Ledger, Runtime}
use coinflip_program.Runtime.Laws.{TransferLaw}
use coinflip_program.Admin.Migration.{MigrateConfig, config_space, migrate_config}
use coinflip_program.Admin.Migration.Layout.{AreInRange, LayoutLaw, ReallocLaw, padded}
use coinflip_program.Admin.Migration.Filling.{or_default}
use coinflip_program.Admin.Migration.Encoding.{filled, filled-AreInRange, length-encode_config}
use coinflip_program.Admin.Migration.Resizing.{long_enough}
use coinflip_program.Admin.Migration.Outcome.{migrate_config_fills}

or_default_once :
    (default n : ℕ) → default ≢ 0 → or_default default (or_default default n) ≡ or_default default n
or_default_once default n h = ground arith

filled_once : (c : Config) → filled (filled c) ≡ filled c
filled_once c =
    rw
      (
        or_default_once default_sol_min_amount c.sol_min_amount (λ e. omega arith),
        or_default_once orao_vrf_id c.vrf_program (λ e. omega arith),
        or_default_once default_sol_max_amount c.sol_max_amount (λ e. omega arith),
      )
      refl

module _ (r : Runtime) (moving : TransferLaw r) (realloc : ReallocLaw r)
    (layout : LayoutLaw r) where
  -- Of a configuration that the first migration can read, as in `migrate_config_fills`, a second one
  -- changes neither the account's data nor the configuration that it reads as.
  pub migrate_config_again :
      (acc : MigrateConfig) (s s' s'' : Ledger) (c : Config)
      → AreInRange c
      → padded config_space (s.bytes acc.config) ≡ r.encode_config c
      → migrate_config r acc s ≡ ok s'
      → migrate_config r acc s' ≡ ok s''
      → (s''.bytes acc.config ≡ s'.bytes acc.config)
        × (s''.configs acc.config ≡ s'.configs acc.config)
  migrate_config_again acc s s' s'' c fits old first second =
      let (typed, data_bytes, _, _) =
        migrate_config_fills r moving realloc layout acc s s' c fits old first in
      let fits' = filled-AreInRange c fits in
      let full : padded config_space (s'.bytes acc.config) ≡ r.encode_config (filled c) =
        sym (
          long_enough config_space (s'.bytes acc.config)
            (rw data_bytes (omega (arith, length-encode_config r layout (filled c) fits'))))
        ∙ data_bytes in
      let (typed', bytes', _, _) =
        migrate_config_fills r moving realloc layout acc s' s'' (filled c) fits' full second in
      let once = filled_once c in (cc, cc)
