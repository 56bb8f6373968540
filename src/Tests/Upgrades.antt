-- ===== src/Tests/Upgrades.antt =====
-- A configuration of the older layout, whose account ends before the three new fields.
use coinflip_program.Base.{
  ℕ, ◌<◌, ◌^◌, ◌≡◌, ◌≢◌, ◌≤◌, ◌⊎◌, ◌↔◌, refl, arith, true, Bytes, some, none, take, update,
  to_be_bytes, to_le_bytes, from_be_bytes, bytes_eq,
}
use coinflip_program.Error.{is_ok}
use coinflip_program.State.{Config, default_sol_max_amount}
use coinflip_program.Runtime.{Ledger}
use coinflip_program.Admin.Migration.{
  MigrateConfig, migrate_config, resize_owned_account, lengthen, require_config_authority,
  init_new_config_fields, fill_config, fill,
}
use coinflip_program.Admin.Migration.Layout.{config_front, AreInRange, padded}
use coinflip_program.Admin.Migration.Encoding.{filled}
use coinflip_program.Admin.Settings.{IsValidConfig}
use coinflip_program.Admin.Migration.Again.{migrate_config_again}
use coinflip_program.Admin.Migration.Valid.{migrate_config_valid_iff}
use coinflip_program.Admin.Migration.Outcome.{migrate_config_fills}
use coinflip_program.Tests.World.{sum_all, runtime}
use coinflip_program.Tests.Laws.{runtime-TransferLaw}
use coinflip_program.Tests.Layouts.{runtime-LayoutLaw, runtime-ReallocLaw}
use coinflip_program.Tests.Plays.{config, outcome, ran, empty_ledger}

abbrev old_config : Config
old_config = record config { sol_min_amount = 0; vrf_program = 0; sol_max_amount = 0 }

in_range : (n : ℕ) → n < 2 ^ 64 → AreInRange (record old_config { sol_min_amount = n })
in_range n h = record {
  authority = omega arith;
  resolver = omega arith;
  fee_bps = omega arith;
  bump = omega arith;
  usdc_mint = omega arith;
  sol_usdc_pool = omega arith;
  sol_min_amount = h;
  vrf_program = omega arith;
  sol_max_amount = omega arith;
}

old_bytes : Bytes
unfolding runtime
old_bytes = take 140 (runtime.encode_config old_config)

abbrev old_ledger : Ledger
old_ledger = record empty_ledger {
  bytes = update empty_ledger.bytes 1885 old_bytes;
  configs = λ k. none;
}

abbrev upgrade : MigrateConfig
upgrade = record { config = 1885; authority = 11 }

abbrev upgraded : Ledger
upgraded = outcome (migrate_config runtime upgrade old_ledger)

upgrade_ok : is_ok (migrate_config runtime upgrade old_ledger) ≡ true
unfolding migrate_config runtime sum_all resize_owned_account old_bytes config_front to_be_bytes
    to_le_bytes lengthen require_config_authority from_be_bytes init_new_config_fields
upgrade_ok = refl

old_padded : padded 188 (old_ledger.bytes 1885) ≡ runtime.encode_config old_config
unfolding runtime old_bytes config_front to_be_bytes to_le_bytes
old_padded = refl

migrate_config_fills_example :
    (upgraded.configs 1885 ≡ some (filled old_config))
    × (upgraded.bytes 1885 ≡ runtime.encode_config (filled old_config))
    × (upgrade.authority ≡ old_config.authority)
    × (old_ledger.signed upgrade.authority ≡ true)
migrate_config_fills_example =
    migrate_config_fills runtime runtime-TransferLaw runtime-ReallocLaw runtime-LayoutLaw upgrade
      old_ledger upgraded old_config (in_range 0 (omega arith)) old_padded (ran _ upgrade_ok)

abbrev upgraded_again : Ledger
upgraded_again = outcome (migrate_config runtime upgrade upgraded)

again_ok : is_ok (migrate_config runtime upgrade upgraded) ≡ true
unfolding migrate_config runtime sum_all resize_owned_account old_bytes config_front to_be_bytes
    to_le_bytes lengthen require_config_authority from_be_bytes init_new_config_fields fill_config
    fill bytes_eq
again_ok = refl

nothing_again :
    (upgraded_again.bytes 1885 ≡ upgraded.bytes 1885)
    × (upgraded_again.configs 1885 ≡ upgraded.configs 1885)
nothing_again =
    migrate_config_again runtime runtime-TransferLaw runtime-ReallocLaw runtime-LayoutLaw upgrade
      old_ledger upgraded upgraded_again old_config (in_range 0 (omega arith)) old_padded
      (ran _ upgrade_ok) (ran _ again_ok)

-- A minimum of 2 SOL, without a maximum.
abbrev large_config : Config
large_config = record old_config { sol_min_amount = 2_000_000_000 }

large_bytes : Bytes
unfolding runtime
large_bytes = take 180 (runtime.encode_config large_config)

abbrev large_ledger : Ledger
large_ledger = record old_ledger { bytes = update empty_ledger.bytes 1885 large_bytes }

abbrev large_upgraded : Ledger
large_upgraded = outcome (migrate_config runtime upgrade large_ledger)

large_ok : is_ok (migrate_config runtime upgrade large_ledger) ≡ true
unfolding migrate_config runtime sum_all resize_owned_account large_bytes config_front to_be_bytes
    to_le_bytes lengthen require_config_authority from_be_bytes init_new_config_fields
large_ok = refl

large_padded : padded 188 (large_ledger.bytes 1885) ≡ runtime.encode_config large_config
unfolding runtime large_bytes config_front to_be_bytes to_le_bytes
large_padded = refl

large_config-IsValidConfig : IsValidConfig large_config
large_config-IsValidConfig = ground arith

migrate_config_valid_iff_example :
    (c' : Config) × (large_upgraded.configs 1885 ≡ some c')
    × (IsValidConfig c' ↔ (
        (large_config.sol_max_amount ≢ 0) ⊎ (large_config.sol_min_amount ≤ default_sol_max_amount)))
migrate_config_valid_iff_example =
    migrate_config_valid_iff runtime runtime-TransferLaw runtime-ReallocLaw runtime-LayoutLaw
      upgrade large_ledger large_upgraded large_config (in_range 2_000_000_000 (omega arith))
      large_config-IsValidConfig large_padded (ran _ large_ok)
