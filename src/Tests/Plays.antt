-- ===== src/Tests/Plays.antt =====
-- A game in lamports, from its opening to each of its ends, as ledgers.
use coinflip_program.SlotHash.{scan, lookup_join_slot_hash}
use coinflip_program.Fees.{pot_fee}
use coinflip_program.Vrf.{is_request_fulfilled, winning_side, result_winner}
use coinflip_program.Base.{
  from_le_bytes, bytes_eq, to_le_bytes, to_be_bytes, ◌≡◌, refl, true, false, Bytes, List, [], ◌∷◌,
  ◌++◌, some, none, ◌==◌, if◌then◌else◌, replicate, update,
}
use coinflip_program.Error.{Result, ok, err, is_ok}
use coinflip_program.State.{
  Config, Game, heads, tails, open_side, ready, open_status, program_id, default_key, zero_entropy,
}
use coinflip_program.Runtime.{Ledger}
use coinflip_program.Create.{
  create_deposit, create_decimals, create_guards, load_create, Create, CreateArgs, create,
}
use coinflip_program.Join.{
  request_join_vrf, join_deposit, apply_join, load_join, Join, JoinArgs, join,
}
use coinflip_program.Resolve.{resolve_sol, settled_winner, load_resolve, Resolve, resolve}
use coinflip_program.Refund.{refund_guards, load_refund, RefundExpired, refund_expired}
use coinflip_program.Cancel.{cancel_guards, load_cancel, Cancel, InitiateCancel, cancel, initiate}
use coinflip_program.SlotHash.Search.{encode_entries, Entry, encode}
use coinflip_program.Tests.World.{invoke, transfer, init, sum_all, runtime}

abbrev pub config : Config
config = record {
  authority = 11;
  resolver = 0;
  fee_bps = 350;
  paused = false;
  bump = 255;
  usdc_mint = 21;
  sol_usdc_pool = 31;
  sol_min_amount = 10_000_000;
  vrf_program = 14;
  sol_max_amount = 1_040_000_000;
}

-- Everybody signs, and has two thousand million lamports but for addresses of the program.
abbrev pub empty_ledger : Ledger
empty_ledger = record {
  slot = 500;
  signed = λ k. true;
  lamports = λ k. if k == 1678 then 0 else 2_000_000_000;
  owner = λ k. if k == 1885 then program_id else 0;
  bytes = λ k. [];
  configs = update (λ k. none) 1885 (some config);
  token_configs = λ k. none;
  games = λ k. none;
}

abbrev pub create_accounts : Create
create_accounts = record {
  config = 1885;
  game = 1678;
  token_config = none;
  mint_account = none;
  creator_token = none;
  vault = none;
  token_program = none;
  associated_token_program = none;
  creator = 12;
}

abbrev pub create_args : CreateArgs
create_args = record {
  amount = 100_000_000;
  side = heads;
  creator_entropy = replicate 32 5;
  nonce = 1;
  mint = default_key;
  house_only = false;
}

abbrev pub outcome : Result Ledger → Ledger
outcome (ok s) = s
outcome (err e) = empty_ledger

pub ran : (m : Result Ledger) → is_ok m ≡ true → m ≡ ok (outcome m)
ran (ok s) h = refl
ran (err e) h = cc

-- The creator, 12, opens a game at 1678.
abbrev pub created : Ledger
created = outcome (create runtime create_accounts create_args empty_ledger)

create_ok : is_ok (create runtime create_accounts create_args empty_ledger) ≡ true
unfolding create runtime load_create sum_all to_be_bytes to_le_bytes init create_guards bytes_eq
    create_decimals create_deposit transfer
create_ok = refl

pub create_runs : create runtime create_accounts create_args empty_ledger ≡ ok created
create_runs = ran _ create_ok

abbrev pub join_accounts : Join
join_accounts = record {
  config = 1885;
  game = 1678;
  mint_account = none;
  joiner_token = none;
  vault = none;
  token_program = none;
  joiner = 13;
  vrf = record { vrf_program = 14; vrf_network = 4335; vrf_treasury = 15; vrf_request = 4433 };
}

abbrev pub join_args : JoinArgs
join_args = record {
  joiner_side = open_side;
  joiner_entropy = replicate 32 9;
  amount = 100_000_000;
}

-- The game that the creator opened, and the ledger with it.
abbrev pub opened : Game
opened = record {
  creator = 12;
  joiner = default_key;
  amount = 100_000_000;
  mint = default_key;
  token_decimals = 0;
  fee_bps = 350;
  creator_side = heads;
  joiner_side = open_side;
  creator_entropy = replicate 32 5;
  joiner_entropy = zero_entropy;
  status = open_status;
  nonce = 1;
  bump = 255;
  join_slot = 0;
  cancel_after_slot = 0;
  house_only = false;
}

abbrev pub open_ledger : Ledger
open_ledger = record empty_ledger {
  lamports = λ k. if k == 1678 then 102_000_000 else 2_000_000_000;
  owner = λ k. if k == 1885 then program_id else (if k == 1678 then program_id else 0);
  games = update (λ k. none) 1678 (some opened);
}

-- The joiner, 13, takes the other side.
abbrev pub joined : Ledger
joined = outcome (join runtime join_accounts join_args open_ledger)

join_ok : is_ok (join runtime join_accounts join_args open_ledger) ≡ true
unfolding join runtime load_join sum_all to_be_bytes to_le_bytes apply_join bytes_eq join_deposit
    transfer request_join_vrf invoke
join_ok = refl

pub join_runs : join runtime join_accounts join_args open_ledger ≡ ok joined
join_runs = ran _ join_ok

abbrev pub paired : Game
paired = record opened {
  joiner = 13;
  joiner_side = tails;
  joiner_entropy = replicate 32 9;
  status = ready;
  join_slot = 500;
}

-- The oracle's account, with the seed of the game's request and the answer behind it.
abbrev pub answer : Bytes
answer = replicate 8 0 ++ (1 ∷ replicate 32 0 ++ (200 ∷ replicate 31 7 ++ replicate 64 3))

abbrev pub ready_ledger : Ledger
ready_ledger = record open_ledger {
  lamports = λ k. if k == 1678 then 202_000_000 else 2_000_000_000;
  games = update (λ k. none) 1678 (some paired);
}

abbrev pub answered : Ledger
answered = record ready_ledger {
  bytes = update (λ k. []) 4433 answer;
  owner = update ready_ledger.owner 4433 14;
}

abbrev pub resolve_accounts : Resolve
resolve_accounts = record {
  config = 1885;
  game = 1678;
  mint_account = none;
  vault = none;
  winner_token = none;
  fee_recipient_token = none;
  token_program = none;
  winner = 12;
  fee_recipient = 11;
  settler = 99;
  vrf_request = 4433;
}

abbrev pub resolved : Ledger
resolved = outcome (resolve runtime resolve_accounts answered)

resolve_ok : is_ok (resolve runtime resolve_accounts answered) ≡ true
unfolding resolve runtime load_resolve sum_all to_be_bytes to_le_bytes settled_winner bytes_eq
    result_winner winning_side pot_fee resolve_sol
resolve_ok = refl

pub resolve_runs : resolve runtime resolve_accounts answered ≡ ok resolved
resolve_runs = ran _ resolve_ok

-- Two later entries are all that is left in the sysvar.
abbrev pub late_entries : List Entry
late_entries =
    record { slot = 1099; hash = replicate 32 1 }
    ∷ record { slot = 1098; hash = replicate 32 2 }
    ∷ []

abbrev pub unanswered : Ledger
unanswered = record ready_ledger { slot = 1100; bytes = update (λ k. []) 7 (encode late_entries) }

abbrev pub refund_accounts : RefundExpired
refund_accounts = record {
  config = 1885;
  game = 1678;
  mint_account = none;
  vault = none;
  creator_token = none;
  joiner_token = none;
  token_program = none;
  creator = 12;
  joiner = 13;
  slot_hashes = 7;
  vrf_request = 4433;
}

abbrev pub refunded : Ledger
refunded = outcome (refund_expired runtime refund_accounts unanswered)

refund_ok : is_ok (refund_expired runtime refund_accounts unanswered) ≡ true
unfolding refund_expired runtime load_refund sum_all to_be_bytes to_le_bytes refund_guards
    is_request_fulfilled lookup_join_slot_hash encode encode_entries scan from_le_bytes
refund_ok = refl

pub refund_runs : refund_expired runtime refund_accounts unanswered ≡ ok refunded
refund_runs = ran _ refund_ok

abbrev pub initiate_accounts : InitiateCancel
initiate_accounts = record { config = 1885; game = 1678; authority = 11 }

abbrev pub announced : Game
announced = record opened { cancel_after_slot = 532 }

abbrev pub initiated : Ledger
initiated = outcome (initiate runtime initiate_accounts open_ledger)

initiate_ok : is_ok (initiate runtime initiate_accounts open_ledger) ≡ true
unfolding initiate runtime sum_all to_be_bytes to_le_bytes
initiate_ok = refl

pub initiate_runs : initiate runtime initiate_accounts open_ledger ≡ ok initiated
initiate_runs = ran _ initiate_ok

abbrev pub cancel_accounts : Cancel
cancel_accounts = record {
  config = 1885;
  game = 1678;
  mint_account = none;
  vault = none;
  creator_token = none;
  token_program = none;
  creator = 12;
  signer = 11;
}

abbrev pub after_delay : Ledger
after_delay = record open_ledger { slot = 532; games = update (λ k. none) 1678 (some announced) }

abbrev pub cancelled : Ledger
cancelled = outcome (cancel runtime cancel_accounts after_delay)

cancel_ok : is_ok (cancel runtime cancel_accounts after_delay) ≡ true
unfolding cancel runtime load_cancel sum_all to_be_bytes to_le_bytes cancel_guards
cancel_ok = refl

pub cancel_runs : cancel runtime cancel_accounts after_delay ≡ ok cancelled
cancel_runs = ran _ cancel_ok
