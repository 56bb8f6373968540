-- ===== src/Tests/Ends.antt =====
-- A join by `participate`, and a refund that is due.
use coinflip_program.Base.{
  ◌≡◌, ◌≢◌, ◌≤◌, refl, arith, true, [], some, none, to_be_bytes, to_le_bytes, from_le_bytes,
  bytes_eq,
}
use coinflip_program.Error.{ok, is_ok}
use coinflip_program.State.{Config, Game, default_key, effective_mint}
use coinflip_program.Runtime.{Ledger}
use coinflip_program.Join.Pairing.{IsPaired}
use coinflip_program.Join.Steps.{IsAdmitted}
use coinflip_program.Join.{apply_join, request_join_vrf}
use coinflip_program.Participate.{
  Participate, ParticipateArgs, load_participate, pay_stake, participate_deposit, participate,
}
use coinflip_program.Participate.Outcome.{participate_pairs}
use coinflip_program.Refund.{LoadedRefund, load_refund, refund_expired}
use coinflip_program.Refund.Expiry.{IsExpired}
use coinflip_program.Refund.Success.{refund_goes_through}
use coinflip_program.Vrf.{is_request_fulfilled}
use coinflip_program.SlotHash.{lookup_join_slot_hash, scan}
use coinflip_program.SlotHash.Search.{encode, encode_entries}
use coinflip_program.Tests.World.{sum_all, transfer, invoke, runtime}
use coinflip_program.Tests.Laws.{runtime-CloseLaw}
use coinflip_program.Tests.Plays.{
  config, outcome, ran, join_accounts, join_args, open_ledger, paired, refund_accounts, unanswered,
}

abbrev participate_accounts : Participate
participate_accounts = record {
  config = 1885;
  game = 1678;
  game_token_config = none;
  mint_account = none;
  joiner_token = none;
  joiner_pay_token = none;
  vault = none;
  wsol_account = none;
  token_program = none;
  raydium_program = none;
  joiner = 13;
  vrf = join_accounts.vrf;
  remaining = [];
}

abbrev participate_args : ParticipateArgs
participate_args = record {
  joining = join_args;
  pay_mint = default_key;
  max_pay = 100_000_001;
  quote_out = 0;
  hop1_len = 0;
}

abbrev participated : Ledger
participated = outcome (participate runtime participate_accounts participate_args open_ledger)

participate_ok :
    is_ok (participate runtime participate_accounts participate_args open_ledger) ≡ true
unfolding participate load_participate pay_stake participate_deposit apply_join request_join_vrf
    runtime sum_all to_be_bytes to_le_bytes bytes_eq transfer invoke
participate_ok = refl

participate_pairs_example :
    (c : Config) × (g : Game) × (g' : Game) × (open_ledger.configs 1885 ≡ some c)
    × (open_ledger.games 1678 ≡ some g)
    × (participated.games 1678 ≡ some g')
    × IsPaired g g' 13 join_args 500
    × IsAdmitted c g 13
    × (open_ledger.signed 13 ≡ true)
    × (13 ≢ g.creator)
    × (effective_mint g.mint ≡ effective_mint default_key → join_args.amount ≤ 100_000_001)
participate_pairs_example =
    participate_pairs runtime participate_accounts participate_args open_ledger participated
      (ran _ participate_ok)

abbrev loaded_refund : LoadedRefund
loaded_refund = record {
  config = config;
  game = paired;
  mint_account = none;
  vault = none;
  creator_token = none;
  joiner_token = none;
}

load_refund_runs : load_refund runtime refund_accounts unanswered ≡ ok loaded_refund
unfolding load_refund runtime sum_all to_be_bytes to_le_bytes
load_refund_runs = refl

unanswered-IsExpired : IsExpired runtime refund_accounts loaded_refund unanswered
unfolding is_request_fulfilled runtime sum_all to_be_bytes to_le_bytes lookup_join_slot_hash encode
    encode_entries scan from_le_bytes
unanswered-IsExpired = record {
  is_ready = refl;
  joined = omega arith;
  unfulfilled = refl;
  gone = refl;
}

refund_goes_through_example :
    (s' : Ledger) × (refund_expired runtime refund_accounts unanswered ≡ ok s')
refund_goes_through_example =
    refund_goes_through runtime runtime-CloseLaw refund_accounts loaded_refund unanswered
      load_refund_runs unanswered-IsExpired refl (omega arith) (omega arith)
