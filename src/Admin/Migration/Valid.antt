-- ===== src/Admin/Migration/Valid.antt =====
-- Whether a migration leaves a valid configuration.
use coinflip_program.Base.{◌≡◌, ◌≢◌, ◌≤◌, ◌⊎◌, ◌↔◌, arith, some}
use coinflip_program.Error.{ok}
use coinflip_program.State.{Config, default_sol_max_amount}
use coinflip_program.Runtime.{Ledger, Runtime}
use coinflip_program.Runtime.Laws.{TransferLaw}
use coinflip_program.Admin.Settings.{IsValidConfig}
use coinflip_program.Admin.Migration.{MigrateConfig, config_space, migrate_config}
use coinflip_program.Admin.Migration.Layout.{AreInRange, LayoutLaw, ReallocLaw, padded}
use coinflip_program.Admin.Migration.Encoding.{filled}
use coinflip_program.Admin.Migration.Outcome.{migrate_config_fills}

filled_valid :
    (c : Config)
    → IsValidConfig c
    → (c.sol_max_amount ≢ 0) ⊎ (c.sol_min_amount ≤ default_sol_max_amount)
    → IsValidConfig (filled c)
filled_valid c v h = record {
  fee_capped = v.fee_capped;
  min_positive = ground (arith, v.min_positive);
  max_above_min = ground (arith, v.min_positive, v.max_above_min);
  has_authority = v.has_authority;
  pool_with_mint = v.pool_with_mint;
}

filled_room :
    (c : Config)
    → IsValidConfig c
    → IsValidConfig (filled c)
    → (c.sol_max_amount ≢ 0) ⊎ (c.sol_min_amount ≤ default_sol_max_amount)
filled_room c v w = ground (arith, v.min_positive, w.max_above_min)

module _ (r : Runtime) (moving : TransferLaw r) (realloc : ReallocLaw r)
    (layout : LayoutLaw r) where
  -- Suppose that the account's data, padded with zeros to the length of the present layout, is the
  -- encoding of a valid configuration whose numbers fit their fields. A migration that succeeds leaves
  -- a valid configuration exactly if there was a maximum, or the minimum is at most the default maximum
  -- that the migration puts in. Transfers, lengthening and Anchor's layout are as documented.
  pub migrate_config_valid_iff :
      (acc : MigrateConfig) (s s' : Ledger) (c : Config)
      → AreInRange c
      → IsValidConfig c
      → padded config_space (s.bytes acc.config) ≡ r.encode_config c
      → migrate_config r acc s ≡ ok s'
      → (c' : Config) × (s'.configs acc.config ≡ some c')
        × (IsValidConfig c'
            ↔ ((c.sol_max_amount ≢ 0) ⊎ (c.sol_min_amount ≤ default_sol_max_amount)))
  migrate_config_valid_iff acc s s' c fits v old h =
      let (typed, _, _, _) = migrate_config_fills r moving realloc layout acc s s' c fits old h in
      (filled c, typed, (filled_room c v, filled_valid c v))
