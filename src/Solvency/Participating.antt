-- ===== src/Solvency/Participating.antt =====
-- Joining through a swap leaves every game covered.
use coinflip_program.Base.{ℕ, ◌+◌, ◌≡◌, ◌∙◌, ap, true, some}
use coinflip_program.Error.{ok}
use coinflip_program.State.{Game, program_id, is_native_sol}
use coinflip_program.Runtime.{Ledger, Runtime}
use coinflip_program.Runtime.Laws.{OwnershipLaw, TransferLaw}
use coinflip_program.Participate.{
  Participate, ParticipateArgs, LoadedParticipate, participate_deposit, participate,
}
use coinflip_program.Participate.Steps.{participate-Participated, load_participate-IsLoaded}
use coinflip_program.Solvency.Calls.{
  Safe-participate_deposit, Safe-request_join_vrf, Safe-pay_stake,
}
use coinflip_program.Solvency.Invariant.{IsSolvent, Respects-IsSolvent}
use coinflip_program.Solvency.Joining.{transfer_arrives, joined-IsSolvent}

module _ (r : Runtime) (own : OwnershipLaw r) (law : TransferLaw r) where
  participate_deposit_arrives :
      (acc : Participate) (l : LoadedParticipate) (game : Game) (amount : ℕ) (s s1 : Ledger)
      → s.owner acc.game ≡ program_id
      → participate_deposit r acc l game amount s ≡ ok s1
      → is_native_sol game.mint ≡ true
      → s1.lamports acc.game ≡ s.lamports acc.game + amount
  unfolding participate_deposit
  participate_deposit_arrives acc l game amount s s1 o e n =
      transfer_arrives r law acc.joiner acc.game amount s s1 o (rw n at e)

  pub participate-IsSolvent :
      (acc : Participate) (args : ParticipateArgs) (s s' : Ledger)
      → IsSolvent s
      → participate r acc args s ≡ ok s'
      → IsSolvent s'
  participate-IsSolvent acc args s s' v e =
      let j = participate-Participated r acc args s s' e in
      let swapped = (Safe-pay_stake r own acc j.l args s).respects j.s1 j.swapping in
      let v1 = Respects-IsSolvent s j.s1 swapped v in
      let at : j.s1.games acc.game ≡ some j.l.game =
        ap (λ f. f acc.game) swapped.games
        ∙ (load_participate-IsLoaded r acc s j.l j.loading).game in
      let o = (v1.holds acc.game j.l.game at).owned in
      let amount = args.joining.amount in
      rw j.stored (
        joined-IsSolvent acc.game acc.joiner j.l.game j.game args.joining s.slot j.s1 j.s2 j.s3 v1
          at j.pairing (participate_deposit_arrives acc j.l j.game amount j.s1 j.s2 o j.paying)
          ((Safe-participate_deposit r own acc j.l j.game amount j.s1).respects j.s2 j.paying)
          ((Safe-request_join_vrf r own acc.vrf acc.joiner acc.game j.l.config j.game j.s2).respects
            j.s3 j.asking))
