-- ===== src/Participate/Outcome.antt =====
-- What a `participate` that succeeded has done to the game.
use coinflip_program.Base.{◌≡◌, ◌≢◌, ◌≤◌, true, some, arith, ==_iff}
use coinflip_program.Error.{ok}
use coinflip_program.State.{Config, Game, effective_mint}
use coinflip_program.Runtime.{Ledger, Runtime}
use coinflip_program.Join.Pairing.{IsPaired, apply_join-IsPaired}
use coinflip_program.Join.Steps.{IsAdmitted}
use coinflip_program.Participate.{
  Participate, ParticipateArgs, LoadedParticipate, pay_stake, participate,
}
use coinflip_program.Participate.Steps.{participate-Participated, load_participate-IsLoaded}

-- Without a swap, the stake is within what the joiner will pay.
stake-le-max_pay :
    (r : Runtime) (acc : Participate) (l : LoadedParticipate) (args : ParticipateArgs)
    (s s1 : Ledger)
    → pay_stake r acc l args s ≡ ok s1
    → effective_mint l.game.mint ≡ effective_mint args.pay_mint
    → args.joining.amount ≤ args.max_pay
unfolding pay_stake
stake-le-max_pay r acc l args s s1 h same = let e = rw ((==_iff _ _).1 same) at h in ground arith

-- Joining with another currency turns the open game into a ready one whose sides are opposed, for
-- the same stake and with everything else as it was; the joiner signed, is not the creator, is the
-- house if the game is for the house only, and the program is not paused. If the joiner pays in the
-- game's own currency, the stake is at most `max_pay`.
pub participate_pairs :
    (r : Runtime) (acc : Participate) (args : ParticipateArgs) (s s' : Ledger)
    → participate r acc args s ≡ ok s'
    → (c : Config) × (g : Game) × (g' : Game) × (s.configs acc.config ≡ some c)
      × (s.games acc.game ≡ some g)
      × (s'.games acc.game ≡ some g')
      × IsPaired g g' acc.joiner args.joining s.slot
      × IsAdmitted c g acc.joiner
      × (s.signed acc.joiner ≡ true)
      × (acc.joiner ≢ g.creator)
      × (effective_mint g.mint ≡ effective_mint args.pay_mint → args.joining.amount ≤ args.max_pay)
participate_pairs r acc args s s' e =
    let j = participate-Participated r acc args s s' e in
    let l = load_participate-IsLoaded r acc s j.l j.loading in
    (
      j.l.config,
      j.l.game,
      j.game,
      l.config,
      l.game,
      rw j.stored (ground arith),
      apply_join-IsPaired j.l.game acc.joiner args.joining s.slot j.game j.pairing,
      j.admitted,
      l.signed,
      l.not_creator,
      stake-le-max_pay r acc j.l args s j.s1 j.swapping,
    )
