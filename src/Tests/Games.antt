-- ===== src/Tests/Games.antt =====
-- The theorems on the life of a game, at the games of `Plays`.
use coinflip_program.Base.{
  to_le_bytes, to_be_bytes, bytes_eq, update, ◌++◌, ℕ, ◌+◌, ◌≤◌, ◌<◌, ◌≡◌, ◌≢◌, ◌⊎◌, ◌↔◌, inl, refl,
  arith, true, [], ◌∷◌, some, none, replicate, slice,
}
use coinflip_program.Error.{ok, err, coinflip, already_joined}
use coinflip_program.State.{
  program_id, Pubkey, Config, Game, heads, tails, open_status, default_key,
  authority_cancel_delay_slots,
}
use coinflip_program.Accounts.{game_seeds}
use coinflip_program.Runtime.{Ledger}
use coinflip_program.Create.Limits.{IsOpened, create_opens}
use coinflip_program.Create.Stakes.{IsWithin, IsListedStake}
use coinflip_program.Join.{apply_join, LoadedJoin, load_join, join}
use coinflip_program.Join.Pairing.{IsPaired, apply_join_once}
use coinflip_program.Join.Acceptance.{Accepts, GoesThrough, join_iff}
use coinflip_program.Join.Steps.{IsAdmitted}
use coinflip_program.Join.Outcome.{join_pairs}
use coinflip_program.Vrf.{
  winning_side, result_winner, is_request_fulfilled, fulfilled_randomness, vrf_seed,
}
use coinflip_program.Vrf.Fulfilment.{result_winner_side, is_request_fulfilled_iff}
use coinflip_program.Resolve.{Resolve, LoadedResolve, load_resolve, resolve}
use coinflip_program.Resolve.Payout.{IsPaid}
use coinflip_program.Resolve.Verdict.{IsVerdict, resolve-IsVerdict, resolve_goes_through}
use coinflip_program.Refund.Expiry.{IsRefunded, refund-IsRefunded, refund_excludes_resolve}
use coinflip_program.Cancel.{initiate, cancel_guards, initiate}
use coinflip_program.Cancel.Delay.{cancel_guards_iff, initiate_delays, cancel_returns}
use coinflip_program.Tests.World.{sum_all, runtime}
use coinflip_program.Tests.Laws.{runtime-CloseLaw}
use coinflip_program.Tests.Plays.{
  config, empty_ledger, outcome, create_accounts, create_args, created, create_runs, join_accounts,
  join_args, opened, open_ledger, joined, join_runs, paired, ready_ledger, answered,
  resolve_accounts, resolved, resolve_runs, unanswered, refund_accounts, refunded, refund_runs,
  initiate_accounts, announced, initiated, initiate_runs, cancel_accounts, after_delay, cancelled,
  cancel_runs,
}

create_opens_example :
    (c : Config) × (g : Game) × (empty_ledger.configs 1885 ≡ some c)
    × (created.games 1678 ≡ some g)
    × (empty_ledger.signed 12 ≡ true)
    × (runtime.find_program_address (game_seeds 12 create_args.nonce) program_id ≡ (1678, g.bump))
    × IsOpened c create_accounts create_args g
    × (((create_args.mint ≡ default_key)
          × (g.token_decimals ≡ 0)
          × IsWithin c.sol_min_amount c.sol_max_amount g)
        ⊎ ((create_args.mint ≢ default_key) × IsListedStake runtime empty_ledger create_args g))
create_opens_example =
    create_opens runtime create_accounts create_args empty_ledger created create_runs

join_pairs_example :
    (c : Config) × (g : Game) × (g' : Game) × (open_ledger.configs 1885 ≡ some c)
    × (open_ledger.games 1678 ≡ some g)
    × (joined.games 1678 ≡ some g')
    × IsPaired g g' 13 join_args 500
    × IsAdmitted c g 13
    × (open_ledger.signed 13 ≡ true)
    × (13 ≢ g.creator)
join_pairs_example = join_pairs runtime join_accounts join_args open_ledger joined join_runs

abbrev loaded_join : LoadedJoin
loaded_join = record {
  config = config;
  game = opened;
  mint_account = none;
  joiner_token = none;
  vault = none;
}

load_join_runs : load_join runtime join_accounts open_ledger ≡ ok loaded_join
unfolding load_join runtime sum_all to_be_bytes to_le_bytes
load_join_runs = refl

join_iff_example : ((s' : Ledger) × (join runtime join_accounts join_args open_ledger ≡ ok s')) ↔ (
    Accepts config opened 13 join_args
    × GoesThrough runtime join_accounts join_args open_ledger loaded_join)
join_iff_example = join_iff runtime join_accounts join_args open_ledger loaded_join load_join_runs

paired_ok : apply_join opened 13 join_args 500 ≡ ok paired
unfolding apply_join bytes_eq
paired_ok = refl

apply_join_once_example : apply_join paired 77 join_args 600 ≡ err (coinflip already_joined)
apply_join_once_example = apply_join_once opened paired 13 77 join_args join_args 500 600 paired_ok

result_winner_side_example :
    ((winning_side runtime paired (replicate 64 3) ≡ heads)
      × (result_winner runtime paired (replicate 64 3) ≡ 12))
    ⊎ ((winning_side runtime paired (replicate 64 3) ≡ tails)
        × (result_winner runtime paired (replicate 64 3) ≡ 13))
result_winner_side_example = result_winner_side runtime paired (replicate 64 3) (inl (refl, refl))

is_request_fulfilled_iff_example :
    (is_request_fulfilled runtime 4433 14 (200 ∷ replicate 31 7) answered ≡ ok true) ↔ (
      fulfilled_randomness runtime 4433 14 (200 ∷ replicate 31 7) answered
      ≡ ok (slice (answered.bytes 4433) 73 137))
is_request_fulfilled_iff_example =
    is_request_fulfilled_iff runtime 4433 14 (200 ∷ replicate 31 7) answered

resolve-IsVerdict_example :
    (c : Config) × (fee : ℕ) × IsVerdict runtime resolve_accounts answered c paired
    × IsPaid resolve_accounts answered resolved paired fee
resolve-IsVerdict_example =
    resolve-IsVerdict runtime runtime-CloseLaw resolve_accounts paired answered resolved refl
      (inl (refl, refl)) refl (λ e. omega arith) (λ e. omega arith) resolve_runs

abbrev loaded_resolve : LoadedResolve
loaded_resolve = record {
  config = config;
  game = paired;
  mint_account = none;
  vault = none;
  winner_token = none;
  fee_recipient_token = none;
}

load_resolve_runs : load_resolve runtime resolve_accounts answered ≡ ok loaded_resolve
unfolding load_resolve runtime sum_all to_be_bytes to_le_bytes
load_resolve_runs = refl

answer_read :
    fulfilled_randomness runtime 4433 14 (vrf_seed runtime 1678 13 (replicate 32 9)) answered
    ≡ ok (replicate 64 3)
unfolding fulfilled_randomness runtime sum_all to_be_bytes bytes_eq
answer_read = refl

winner_read : 12 ≡ result_winner runtime paired (replicate 64 3)
unfolding result_winner runtime winning_side sum_all
winner_read = refl

resolve_goes_through_example : (s' : Ledger) × (resolve runtime resolve_accounts answered ≡ ok s')
resolve_goes_through_example =
    resolve_goes_through runtime runtime-CloseLaw resolve_accounts loaded_resolve (replicate 64 3)
      answered load_resolve_runs refl refl answer_read winner_read (omega arith) (omega arith)
      (omega arith) (omega arith)

-- The house, 11, has joined the creator's tails and wins.
abbrev house_game : Game
house_game = record paired { creator_side = tails; joiner_side = heads; joiner = 11 }

abbrev house_answered : Ledger
house_answered = record answered {
  games = update (λ k. none) 1678 (some house_game);
  owner = update ready_ledger.owner 4431 14;
  bytes =
      update (λ k. []) 4431
        (replicate 8 0 ++ (1 ∷ replicate 32 0 ++ (198 ∷ replicate 31 7 ++ replicate 64 3)));
}

abbrev house_resolve : Resolve
house_resolve = record resolve_accounts { winner = 11; vrf_request = 4431 }

abbrev house_resolved : Ledger
house_resolved = outcome (resolve runtime house_resolve house_answered)

refund-IsRefunded_example : IsRefunded refund_accounts unanswered refunded paired
refund-IsRefunded_example =
    refund-IsRefunded runtime runtime-CloseLaw refund_accounts unanswered refunded paired refl refl
      (omega arith) (omega arith) refund_runs

refund_excludes_resolve_example : ¬ (resolve runtime resolve_accounts unanswered ≡ ok resolved)
refund_excludes_resolve_example =
    refund_excludes_resolve runtime refund_accounts resolve_accounts unanswered refunded resolved
      refl refl refund_runs

cancel_guards_iff_example : (cancel_guards config announced 11 532 ≡ ok tt) ↔ (
    (announced.status ≡ open_status)
    × ((11 ≡ announced.creator)
        ⊎ ((11 ≡ config.authority)
            × (0 < announced.cancel_after_slot)
            × (announced.cancel_after_slot ≤ 532))))
cancel_guards_iff_example = cancel_guards_iff config announced 11 532

announced_stored : initiated.games 1678 ≡ some announced
unfolding initiate runtime sum_all to_be_bytes to_le_bytes
announced_stored = refl

initiate_delays_example :
    ((11 ≡ announced.creator)
      ⊎ (open_ledger.slot + authority_cancel_delay_slots ≤ after_delay.slot))
    × (cancel_guards config announced 12 501 ≡ ok tt)
initiate_delays_example =
    initiate_delays runtime initiate_accounts cancel_accounts open_ledger after_delay initiated
      cancelled announced config 501 initiate_runs announced_stored refl cancel_runs

cancel_returns_example :
    (cancelled.games 1678 ≡ none)
    × (cancelled.lamports 1678 ≡ 0)
    × (cancelled.lamports 12 ≡ after_delay.lamports 12 + after_delay.lamports 1678)
    × ((k : Pubkey) → k ≢ 1678 → k ≢ 12 → cancelled.lamports k ≡ after_delay.lamports k)
cancel_returns_example =
    cancel_returns runtime runtime-CloseLaw cancel_accounts after_delay cancelled announced refl
      refl cancel_runs
