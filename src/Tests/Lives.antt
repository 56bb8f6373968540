-- ===== src/Tests/Lives.antt =====
-- A game from its opening to its settlement, as one history of calls and of the oracle.
use coinflip_program.Base.{
  ℕ, ◌≡◌, refl, arith, true, Bytes, some, update, bytes_eq, to_be_bytes, to_le_bytes,
}
use coinflip_program.Error.{is_ok}
use coinflip_program.State.{Pubkey, Config}
use coinflip_program.Runtime.{Ledger}
use coinflip_program.Runtime.Laws.{Respects}
use coinflip_program.Resolve.Verdict.{IsVerdict}
use coinflip_program.Resolve.Payout.{IsPaid}
use coinflip_program.Create.{
  create, load_create, create_guards, create_decimals, create_deposit, new_game,
}
use coinflip_program.Join.{join, load_join, apply_join, join_deposit, request_join_vrf}
use coinflip_program.Resolve.{resolve, load_resolve, settled_winner, resolve_sol}
use coinflip_program.Vrf.{result_winner, winning_side}
use coinflip_program.Fees.{pot_fee}
use coinflip_program.Tests.World.{runtime, sum_all, init, transfer, invoke}
use coinflip_program.Program.{Call}
use coinflip_program.Program.History.{called, outside, Reach, next}
use coinflip_program.Lifecycle.{Move, IsWellFormed}
use coinflip_program.Lifecycle.Verdicts.{dispatch-Move, reachable-IsWellFormed, reachable-IsVerdict}
use coinflip_program.Tests.Laws.{
  runtime-OwnershipLaw, runtime-TransferLaw, runtime-InitLaw, runtime-CloseLaw,
}
use coinflip_program.Tests.Plays.{
  outcome, ran, empty_ledger, created, open_ledger, opened, joined, join_accounts, join_args,
  join_runs, answer, resolve_accounts, paired,
}
use coinflip_program.Tests.Rules.{open_ledger-IsSolvent, history, opened_stored}

dispatch-Move_example : Move open_ledger.games joined.games
dispatch-Move_example =
    dispatch-Move runtime runtime-OwnershipLaw runtime-TransferLaw runtime-InitLaw runtime-CloseLaw
      (Call.join join_accounts join_args) open_ledger joined open_ledger-IsSolvent join_runs

reachable-IsWellFormed_example : IsWellFormed opened
reachable-IsWellFormed_example =
    reachable-IsWellFormed runtime runtime-OwnershipLaw runtime-TransferLaw runtime-InitLaw
      runtime-CloseLaw empty_ledger created 1678 opened (λ j. refl) history opened_stored

-- The joiner comes, the oracle answers, and the creator has won.
abbrev joined_next : Ledger
joined_next = outcome (join runtime join_accounts join_args created)

join_next_ok : is_ok (join runtime join_accounts join_args created) ≡ true
unfolding join load_join apply_join join_deposit request_join_vrf invoke create load_create
    create_guards create_decimals create_deposit new_game runtime sum_all to_be_bytes to_le_bytes
    init bytes_eq transfer
join_next_ok = refl

abbrev answered_next : Ledger
answered_next = record joined_next {
  bytes = update joined_next.bytes 4433 answer;
  owner = update joined_next.owner 4433 14;
}

oracle_free : joined_next.owner 4433 ≡ 0
unfolding join load_join apply_join join_deposit request_join_vrf invoke create load_create
    create_guards create_decimals create_deposit new_game runtime sum_all to_be_bytes to_le_bytes
    init bytes_eq transfer
oracle_free = refl

-- Another program may take an account of the system program and write to it.
taken :
    (s : Ledger) (k : Pubkey) (bytes : Bytes) (program : Pubkey)
    → s.owner k ≡ 0
    → Respects s (record s { bytes = update s.bytes k bytes; owner = update s.owner k program })
taken s k bytes program free = record {
  configs = refl;
  token_configs = refl;
  games = refl;
  owned = λ j o. ground arith;
  funded = λ j o. omega arith;
}

long_history : Reach runtime empty_ledger answered_next
long_history =
    next (next history (called (Call.join join_accounts join_args) (ran _ join_next_ok)))
      (outside (taken joined_next 4433 answer 14 oracle_free))

resolve_next_ok : is_ok (resolve runtime resolve_accounts answered_next) ≡ true
unfolding resolve load_resolve settled_winner result_winner winning_side pot_fee resolve_sol join
    load_join apply_join join_deposit request_join_vrf invoke create load_create create_guards
    create_decimals create_deposit new_game runtime sum_all to_be_bytes to_le_bytes init bytes_eq
    transfer
resolve_next_ok = refl

paired_stored : answered_next.games 1678 ≡ some paired
unfolding join load_join apply_join join_deposit request_join_vrf invoke create load_create
    create_guards create_decimals create_deposit new_game runtime sum_all to_be_bytes to_le_bytes
    init bytes_eq transfer
paired_stored = refl

reachable-IsVerdict_example :
    (c : Config) × (fee : ℕ) × IsVerdict runtime resolve_accounts answered_next c paired
    × IsPaid resolve_accounts answered_next
        (outcome (resolve runtime resolve_accounts answered_next))
        paired
        fee
reachable-IsVerdict_example =
    reachable-IsVerdict runtime runtime-OwnershipLaw runtime-TransferLaw runtime-InitLaw
      runtime-CloseLaw empty_ledger answered_next
      (outcome (resolve runtime resolve_accounts answered_next)) resolve_accounts paired (λ j. refl)
      long_history paired_stored refl (λ e. omega arith) (λ e. omega arith) (ran _ resolve_next_ok)
