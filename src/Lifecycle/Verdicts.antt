-- ===== src/Lifecycle/Verdicts.antt =====
-- The program against the machine: calls are moves, and histories keep every game well formed.
use coinflip_program.Base.{ℕ, ◌≢◌, ◌≡◌, none, some}
use coinflip_program.Error.{ok}
use coinflip_program.State.{Pubkey, Config, Game, default_key}
use coinflip_program.Runtime.{Ledger, Runtime}
use coinflip_program.Runtime.Laws.{OwnershipLaw, TransferLaw, InitLaw, CloseLaw}
use coinflip_program.Resolve.{Resolve, resolve}
use coinflip_program.Resolve.Payout.{IsPaid}
use coinflip_program.Resolve.Verdict.{IsVerdict, resolve-IsVerdict, resolve_ready}
use coinflip_program.Program.{Call, dispatch}
use coinflip_program.Program.History.{Step, called, outside, Reach, here, next}
use coinflip_program.Solvency.Invariant.{IsSolvent}
use coinflip_program.Solvency.Reachable.{Reach-IsSolvent}
use coinflip_program.Solvency.Trading.{Safe-buy_token, Safe-sell_token}
use coinflip_program.Lifecycle.{Move, kept, waiting, playing, IsWellFormed, AreWellFormed}
use coinflip_program.Lifecycle.Settings.{
  initialize-Keeps, configure-Keeps, enable_token-Keeps, migrate_config-Keeps,
  migrate_token_config-Keeps,
}
use coinflip_program.Lifecycle.Moves.{
  create-Move, join-Move, participate-Move, resolve-Move, refund_expired-Move, cancel-Move,
  initiate-Move,
}
use coinflip_program.Lifecycle.Phases.{Move-AreWellFormed}

module _ (r : Runtime) (own : OwnershipLaw r) (law : TransferLaw r) (make : InitLaw r)
    (close : CloseLaw r) where
  -- Every call that succeeds from a covered ledger is one move of the abstract machine: it leaves the
  -- games, opens one at a key that has none, joins an open one with opposed sides, announces the
  -- cancellation of an open one, settles or refunds a ready one, or cancels an open one. The programs
  -- that are called keep what they do not own, and transfers, account creation and closing do what is
  -- documented.
  pub dispatch-Move :
      (c : Call) (s s' : Ledger) → IsSolvent s → dispatch r c s ≡ ok s' → Move s.games s'.games
  dispatch-Move (Call.initialize acc vrf) s s' v e =
      kept ((initialize-Keeps r own s acc vrf).same s' e)
  dispatch-Move (Call.configure acc t) s s' v e = kept ((configure-Keeps r own s acc t).same s' e)
  dispatch-Move (Call.enable_token acc args) s s' v e =
      kept ((enable_token-Keeps r own s acc args).same s' e)
  dispatch-Move (Call.migrate_config acc) s s' v e =
      kept ((migrate_config-Keeps r own s acc).same s' e)
  dispatch-Move (Call.migrate_token_config acc mint) s s' v e =
      kept ((migrate_token_config-Keeps r own s acc mint).same s' e)
  dispatch-Move (Call.create acc args) s s' v e = create-Move r own make acc args s s' v e
  dispatch-Move (Call.join acc args) s s' v e = join-Move r own acc args s s' e
  dispatch-Move (Call.participate acc args) s s' v e = participate-Move r own acc args s s' e
  dispatch-Move (Call.buy_token acc args) s s' v e =
      kept ((Safe-buy_token r own acc args s).respects s' e).games
  dispatch-Move (Call.sell_token acc args) s s' v e =
      kept ((Safe-sell_token r own acc args s).respects s' e).games
  dispatch-Move (Call.resolve acc) s s' v e = resolve-Move r own close acc s s' e
  dispatch-Move (Call.refund_expired acc) s s' v e = refund_expired-Move r own close acc s s' e
  dispatch-Move (Call.initiate_cancel acc) s s' v e = initiate-Move r acc s s' e
  dispatch-Move (Call.cancel acc) s s' v e = cancel-Move r own close acc s s' e

  Step-AreWellFormed :
      (s s' : Ledger) → IsSolvent s → AreWellFormed s.games → Step r s s' → AreWellFormed s'.games
  Step-AreWellFormed s s' v w (called c e) =
      Move-AreWellFormed s.games s'.games (dispatch-Move c s s' v e) w
  Step-AreWellFormed s s' v w (outside q) = Move-AreWellFormed s.games s'.games (kept q.games) w

  Reach-AreWellFormed :
      {s s' : Ledger} → IsSolvent s → AreWellFormed s.games → Reach r s s' → AreWellFormed s'.games
  Reach-AreWellFormed v w here = w
  Reach-AreWellFormed v w (next {t} {u} h st) =
      Step-AreWellFormed t u (Reach-IsSolvent r own law make close v h) (Reach-AreWellFormed v w h)
        st

  -- From a ledger with no game, by any history of calls and of whatever other programs do, every game
  -- has a positive stake, a fee of at most 5% and entropy that is not all zeros, and it either waits
  -- for its second player or has two different players with opposed sides. The programs that run keep
  -- what they do not own, and transfers, account creation and closing do what is documented.
  pub reachable-IsWellFormed :
      (s s' : Ledger) (k : Pubkey) (g : Game)
      → ((j : Pubkey) → s.games j ≡ none)
      → Reach r s s'
      → s'.games k ≡ some g
      → IsWellFormed g
  reachable-IsWellFormed s s' k g empty h at =
      (Reach-AreWellFormed (record { holds = λ j t e. let n = empty j in cc })
          (record { each = λ j t e. let n = empty j in cc }) h).each
        k g at

  -- After any history of calls and of whatever other programs do, from a ledger with no game, a
  -- settlement of a game in lamports is of a ready game, on the answer of the configured oracle to that
  -- game's request, with the configured authority as the house. It pays the player whose side came up:
  -- that player receives all that the game's account holds but the fee, the house receives the fee,
  -- nobody else's lamports change, and the game is gone. The house is neither that player nor the
  -- game's account. The programs that run keep what they do not own, and transfers, account creation
  -- and closing do what is documented.
  pub reachable-IsVerdict :
      (s t t' : Ledger) (acc : Resolve) (g : Game)
      → ((j : Pubkey) → s.games j ≡ none)
      → Reach r s t
      → t.games acc.game ≡ some g
      → g.mint ≡ default_key
      → acc.fee_recipient ≢ acc.game
      → acc.fee_recipient ≢ acc.winner
      → resolve r acc t ≡ ok t'
      → (c : Config) × (fee : ℕ) × IsVerdict r acc t c g × IsPaid acc t t' g fee
  reachable-IsVerdict s t t' acc g empty h at native apart distinct e =
      elim ((reachable-IsWellFormed s t acc.game g empty h at).phase) [
        | playing is_ready opposed other ↦
            resolve-IsVerdict r close acc g t t' at opposed native apart distinct e
        | waiting is_open none_yet ↦ (let is_ready = resolve_ready r acc g t t' at e in cc)
      ]
