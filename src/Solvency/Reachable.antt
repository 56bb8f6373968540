-- ===== src/Solvency/Reachable.antt =====
-- Every call keeps every game covered, so every reachable ledger has every game covered.
use coinflip_program.Base.{◌≤◌, ◌≡◌, some, none, arith}
use coinflip_program.Error.{ok}
use coinflip_program.State.{Pubkey, Game, default_key, program_id}
use coinflip_program.Runtime.{Ledger, Runtime}
use coinflip_program.Runtime.Laws.{OwnershipLaw, TransferLaw, InitLaw, CloseLaw}
use coinflip_program.Program.{Call, dispatch}
use coinflip_program.Program.History.{Step, called, outside, Reach, here, next}
use coinflip_program.Solvency.Invariant.{IsSolvent, stake_due, Respects-IsSolvent}
use coinflip_program.Solvency.Joining.{join-IsSolvent}
use coinflip_program.Solvency.Participating.{participate-IsSolvent}
use coinflip_program.Solvency.Creating.{create-IsSolvent}
use coinflip_program.Solvency.Settling.{
  resolve-IsSolvent, cancel-IsSolvent, refund_expired-IsSolvent, initiate-IsSolvent,
}
use coinflip_program.Solvency.Trading.{Safe-buy_token, Safe-sell_token}
use coinflip_program.Solvency.Configuring.{
  initialize-IsSolvent, configure-IsSolvent, enable_token-IsSolvent,
}
use coinflip_program.Solvency.Migrating.{migrate_config-IsSolvent, migrate_token_config-IsSolvent}

module _ (r : Runtime) (own : OwnershipLaw r) (law : TransferLaw r) (make : InitLaw r)
    (close : CloseLaw r) where
  -- Every call of the program that succeeds keeps every game covered: where each game in lamports had
  -- its stakes in an account of the program before the call, each has them after it. The programs that
  -- are called take nothing from accounts that they do not own, and transfers, account creation and
  -- closing do what is documented.
  pub dispatch-IsSolvent :
      (c : Call) (s s' : Ledger) → IsSolvent s → dispatch r c s ≡ ok s' → IsSolvent s'
  dispatch-IsSolvent (Call.initialize acc vrf) s s' v e =
      initialize-IsSolvent r own s v acc vrf s' e
  dispatch-IsSolvent (Call.configure acc t) s s' v e = configure-IsSolvent r own s v acc t s' e
  dispatch-IsSolvent (Call.enable_token acc args) s s' v e =
      enable_token-IsSolvent r own s v acc args s' e
  dispatch-IsSolvent (Call.migrate_config acc) s s' v e =
      migrate_config-IsSolvent r own acc s s' v e
  dispatch-IsSolvent (Call.migrate_token_config acc mint) s s' v e =
      migrate_token_config-IsSolvent r own acc mint s s' v e
  dispatch-IsSolvent (Call.create acc args) s s' v e =
      create-IsSolvent r own law make acc args s s' v e
  dispatch-IsSolvent (Call.join acc args) s s' v e = join-IsSolvent r own law acc args s s' v e
  dispatch-IsSolvent (Call.participate acc args) s s' v e =
      participate-IsSolvent r own law acc args s s' v e
  dispatch-IsSolvent (Call.buy_token acc args) s s' v e =
      Respects-IsSolvent s s' ((Safe-buy_token r own acc args s).respects s' e) v
  dispatch-IsSolvent (Call.sell_token acc args) s s' v e =
      Respects-IsSolvent s s' ((Safe-sell_token r own acc args s).respects s' e) v
  dispatch-IsSolvent (Call.resolve acc) s s' v e = resolve-IsSolvent r own close acc s s' v e
  dispatch-IsSolvent (Call.refund_expired acc) s s' v e =
      refund_expired-IsSolvent r own close acc s s' v e
  dispatch-IsSolvent (Call.initiate_cancel acc) s s' v e = initiate-IsSolvent r acc s s' v e
  dispatch-IsSolvent (Call.cancel acc) s s' v e = cancel-IsSolvent r own close acc s s' v e

  Step-IsSolvent : (s s' : Ledger) → IsSolvent s → Step r s s' → IsSolvent s'
  Step-IsSolvent s s' v (called c e) = dispatch-IsSolvent c s s' v e
  Step-IsSolvent s s' v (outside q) = Respects-IsSolvent s s' q v

  pub Reach-IsSolvent : {s s' : Ledger} → IsSolvent s → Reach r s s' → IsSolvent s'
  Reach-IsSolvent v here = v
  Reach-IsSolvent v (next {t} {u} h st) = Step-IsSolvent t u (Reach-IsSolvent v h) st

  -- From a ledger with no game, by any history of calls and of whatever other programs do, every
  -- game in lamports that exists stands in an account of the program which holds at least the stake
  -- while the game is open, and both stakes once it is joined. The programs that are called and those
  -- that run between the calls take nothing from accounts that they do not own, and transfers, account
  -- creation and closing do what is documented.
  pub reachable_covered :
      (s s' : Ledger) (k : Pubkey) (g : Game)
      → ((j : Pubkey) → s.games j ≡ none)
      → Reach r s s'
      → s'.games k ≡ some g
      → g.mint ≡ default_key
      → (s'.owner k ≡ program_id) × (stake_due g ≤ s'.lamports k)
  reachable_covered s s' k g empty h at native =
      let v : IsSolvent s = record { holds = λ j t e. let n = empty j in cc } in
      let held = (Reach-IsSolvent v h).holds k g at in
      (held.owned, held.covered (ground (arith, native)))
