-- ===== src/Join/Outcome.antt =====
-- What a `join` or a `participate` that succeeded has done to the game.
use coinflip_program.Base.{◌≡◌, ◌≢◌, true, some, arith}
use coinflip_program.Error.{ok}
use coinflip_program.State.{Config, Game}
use coinflip_program.Runtime.{Ledger, Runtime}
use coinflip_program.Join.{Join, JoinArgs, join}
use coinflip_program.Join.Pairing.{IsPaired, apply_join-IsPaired}
use coinflip_program.Join.Steps.{IsAdmitted, join-Joined, load_join-IsLoaded}

-- A join turns the open game at its address into a ready one whose sides are opposed, for the same
-- stake and with everything else as it was; the joiner signed, is not the creator, is the house if
-- the game is for the house only, and the program is not paused.
pub join_pairs :
    (r : Runtime) (acc : Join) (args : JoinArgs) (s s' : Ledger)
    → join r acc args s ≡ ok s'
    → (c : Config) × (g : Game) × (g' : Game) × (s.configs acc.config ≡ some c)
      × (s.games acc.game ≡ some g)
      × (s'.games acc.game ≡ some g')
      × IsPaired g g' acc.joiner args s.slot
      × IsAdmitted c g acc.joiner
      × (s.signed acc.joiner ≡ true)
      × (acc.joiner ≢ g.creator)
join_pairs r acc args s s' e =
    let j = join-Joined r acc args s s' e in
    let l = load_join-IsLoaded r acc s j.l j.loading in
    (
      j.l.config,
      j.l.game,
      j.game,
      l.config,
      l.game,
      rw j.stored (ground arith),
      apply_join-IsPaired j.l.game acc.joiner args s.slot j.game j.pairing,
      j.admitted,
      l.signed,
      l.not_creator,
    )
