-- ===== src/Tests/Rules.antt =====
-- The theorems on fees, settings, the sysvar's search and the cover of the games, at small inputs.
use coinflip_program.Base.{
  [], ◌∷◌, ◌⊎◌, bytes_eq, to_le_bytes, to_be_bytes, ℕ, ◌+◌, ◌*◌, ◌≤◌, ◌<◌, ◌≡◌, ◌↔◌, refl, arith,
  true, false, some, none,
}
use coinflip_program.Error.{ok, is_ok}
use coinflip_program.State.{
  token_seed, key_bytes, config_seed, Config, TokenConfig, program_id, wsol_mint, trade_fee_bps,
}
use coinflip_program.Fees.{pot_fee, trade_fee, max_swap_in_after_fee, min_swap_out_before_fee}
use coinflip_program.Fees.Bounds.{pot_fee_capped, spent-le-max_pay, min_out-le-net}
use coinflip_program.Runtime.{Ledger}
use coinflip_program.SlotHash.{expired, verdict, lookup_join_slot_hash}
use coinflip_program.SlotHash.Search.{encode, AreEntries, search_entries, lookup-encode}
use coinflip_program.SlotHash.Expiry.{AllAbove, lookup_expired_iff}
use coinflip_program.Initialize.{Initialize, initialize}
use coinflip_program.Initialize.Outcome.{IsInitial, initialize_stores}
use coinflip_program.Admin.{
  set_fee_bps, load_admin, ConfigAccounts, EnableTokenArgs, Setting, configure, token_settings,
  EnableToken, enable_token,
}
use coinflip_program.Admin.Settings.{IsValidConfig, configure-IsValidConfig}
use coinflip_program.Admin.Listing.{AreSettings, IsListed, enable_token_stores}
use coinflip_program.Runtime.Laws.{system_program}
use coinflip_program.Create.{
  new_game, create_deposit, create_decimals, create_guards, load_create, create,
}
use coinflip_program.Program.{Call}
use coinflip_program.Program.History.{Reach, called, here, next}
use coinflip_program.Solvency.Invariant.{IsSolvent, stake_due, store_game-IsSolvent}
use coinflip_program.Solvency.Reachable.{dispatch-IsSolvent, reachable_covered}
use coinflip_program.Tests.World.{transfer, init, sum_all, runtime}
use coinflip_program.Tests.Laws.{
  runtime-OwnershipLaw, runtime-TransferLaw, runtime-InitLaw, runtime-CloseLaw,
}
use coinflip_program.Tests.Plays.{
  config, empty_ledger, outcome, ran, opened, open_ledger, created, create_accounts, create_args,
  create_runs, join_accounts, join_args, joined, join_runs, unanswered, late_entries,
}

pot_fee_capped_example :
    (fee : ℕ) × (pot_fee 50_000_000 350 ≡ ok fee)
    × (fee * 10000 ≤ 50_000_000 * 2 * 350)
    × (50_000_000 * 2 * 350 < (fee + 1) * 10000)
    × (fee * 20 ≤ 50_000_000 * 2)
pot_fee_capped_example = pot_fee_capped 50_000_000 350 (omega arith) (omega arith)

max_in_run : max_swap_in_after_fee 101 ≡ ok 99
unfolding max_swap_in_after_fee
max_in_run = refl

fee_run : trade_fee 99 trade_fee_bps ≡ ok 0
unfolding trade_fee
fee_run = refl

spent-le-max_pay_example : 99 + 0 ≤ 101
spent-le-max_pay_example =
    spent-le-max_pay 101 99 99 0 (omega arith) max_in_run (omega arith) fee_run

min_out_run : min_swap_out_before_fee 990 ≡ ok 1000
unfolding min_swap_out_before_fee
min_out_run = refl

sale_fee_run : trade_fee 1000 trade_fee_bps ≡ ok 10
unfolding trade_fee
sale_fee_run = refl

min_out-le-net_example : 990 + 10 ≤ 1000
min_out-le-net_example = min_out-le-net 990 1000 1000 10 min_out_run (omega arith) sale_fee_run

-- The deployer's ledger, with no configuration.
abbrev bare : Ledger
bare = record empty_ledger { configs = λ k. none; owner = λ k. 0 }

abbrev first_accounts : Initialize
first_accounts = record { config = 1885; authority = 11 }

abbrev begun : Ledger
begun = outcome (initialize runtime first_accounts 14 bare)

initialize_ok : is_ok (initialize runtime first_accounts 14 bare) ≡ true
unfolding initialize runtime sum_all init
initialize_ok = refl

initialize_stores_example :
    (c : Config) × (begun.configs 1885 ≡ some c)
    × (begun.bytes 1885 ≡ runtime.encode_config c)
    × (begun.owner 1885 ≡ program_id)
    × (bare.owner 1885 ≡ system_program)
    × (bare.signed 11 ≡ true)
    × (1885 ≡ (runtime.find_program_address (config_seed ∷ []) program_id).0)
    × IsInitial first_accounts 14 (runtime.find_program_address (config_seed ∷ []) program_id).1 c
    × IsValidConfig c
initialize_stores_example =
    initialize_stores runtime runtime-InitLaw first_accounts 14 bare begun (λ e. omega arith)
      (ran _ initialize_ok)

config-valid : IsValidConfig config
config-valid = ground arith

abbrev admin : ConfigAccounts
admin = record { config = 1885; authority = 11 }

abbrev cheaper : Ledger
cheaper = outcome (configure runtime admin (Setting.fee_bps 100) empty_ledger)

configure_ok : is_ok (configure runtime admin (Setting.fee_bps 100) empty_ledger) ≡ true
unfolding configure runtime load_admin sum_all set_fee_bps
configure_ok = refl

configure-IsValidConfig_example :
    (c' : Config) × (cheaper.configs 1885 ≡ some c')
    × IsValidConfig c'
    × (config.authority ≡ admin.authority)
    × (empty_ledger.signed 11 ≡ true)
configure-IsValidConfig_example =
    configure-IsValidConfig runtime admin (Setting.fee_bps 100) empty_ledger cheaper config refl
      config-valid (ran _ configure_ok)

abbrev listing : EnableTokenArgs
listing = record {
  mint = 40;
  min_amount = 10;
  max_amount = 5000;
  is_enabled = true;
  pool = 33;
  quote_mint = wsol_mint;
  cross_disabled = false;
}

abbrev enable_accounts : EnableToken
enable_accounts = record { config = 1885; token_config = 1840; authority = 11 }

abbrev enabled : Ledger
enabled = outcome (enable_token runtime enable_accounts listing empty_ledger)

enable_ok : is_ok (enable_token runtime enable_accounts listing empty_ledger) ≡ true
unfolding enable_token runtime sum_all init token_settings to_be_bytes
enable_ok = refl

enable_token_stores_example :
    (c : Config) × (t : TokenConfig) × (empty_ledger.configs 1885 ≡ some c)
    × (c.authority ≡ 11)
    × (empty_ledger.signed 11 ≡ true)
    × (1840 ≡ (runtime.find_program_address (token_seed ∷ key_bytes 40 ∷ []) program_id).0)
    × (enabled.token_configs 1840 ≡ some t)
    × (enabled.bytes 1840 ≡ runtime.encode_token_config t)
    × AreSettings listing
        (runtime.find_program_address (token_seed ∷ key_bytes 40 ∷ []) program_id).1
        t
    × ((t.is_enabled ≡ false) ⊎ IsListed c t)
enable_token_stores_example =
    enable_token_stores runtime enable_accounts listing empty_ledger enabled (ran _ enable_ok)

late_layout : unanswered.bytes runtime.slot_hashes_id ≡ encode late_entries
unfolding runtime
late_layout = refl

late_entries-AreEntries : AreEntries late_entries
late_entries-AreEntries = (omega arith, refl, (omega arith, refl, tt))

lookup-encode_example :
    lookup_join_slot_hash runtime runtime.slot_hashes_id 500 unanswered
    ≡ ok (verdict (search_entries late_entries 500 500) 1100 2 500)
lookup-encode_example =
    lookup-encode runtime late_entries 500 unanswered late_layout late_entries-AreEntries
      (omega arith)

lookup_expired_iff_example :
    (lookup_join_slot_hash runtime runtime.slot_hashes_id 500 unanswered ≡ ok expired)
    ↔ ((500 < 1100) × AllAbove 500 late_entries)
lookup_expired_iff_example =
    lookup_expired_iff runtime late_entries 500 unanswered late_layout late_entries-AreEntries
      (omega arith) ((omega arith, tt), (tt, tt))

pub open_ledger-IsSolvent : IsSolvent open_ledger
open_ledger-IsSolvent =
    store_game-IsSolvent 1678 opened (record open_ledger { games = λ k. none })
      (record { owned = refl; covered = λ h. omega arith }) (record { holds = λ k g e. cc })

dispatch-IsSolvent_example : IsSolvent joined
dispatch-IsSolvent_example =
    dispatch-IsSolvent runtime runtime-OwnershipLaw runtime-TransferLaw runtime-InitLaw
      runtime-CloseLaw (Call.join join_accounts join_args) open_ledger joined open_ledger-IsSolvent
      join_runs

pub history : Reach runtime empty_ledger created
history = next here (called (Call.create create_accounts create_args) create_runs)

pub opened_stored : created.games 1678 ≡ some opened
unfolding create load_create runtime sum_all to_be_bytes to_le_bytes init create_guards bytes_eq
    create_decimals create_deposit transfer new_game
opened_stored = refl

reachable_covered_example :
    (created.owner 1678 ≡ program_id) × (stake_due opened ≤ created.lamports 1678)
reachable_covered_example =
    reachable_covered runtime runtime-OwnershipLaw runtime-TransferLaw runtime-InitLaw
      runtime-CloseLaw empty_ledger created 1678 opened (λ j. refl) history opened_stored refl
