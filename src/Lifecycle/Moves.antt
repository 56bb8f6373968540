-- ===== src/Lifecycle/Moves.antt =====
-- Every call of the program is one move of the machine.
use coinflip_program.Base.{◌≡◌, ◌∙◌, refl, ◌+◌}
use coinflip_program.Error.{ok}
use coinflip_program.State.{is_native_sol, authority_cancel_delay_slots}
use coinflip_program.Runtime.{Ledger, Runtime}
use coinflip_program.Runtime.Laws.{OwnershipLaw, InitLaw, CloseLaw}
use coinflip_program.Create.{Create, CreateArgs, new_game, create}
use coinflip_program.Create.Opening.{create-Created, load_create-IsLoaded}
use coinflip_program.Join.{Join, JoinArgs, join}
use coinflip_program.Join.Pairing.{apply_join-IsPaired}
use coinflip_program.Join.Steps.{join-Joined, load_join-IsLoaded}
use coinflip_program.Participate.{Participate, ParticipateArgs, participate}
use coinflip_program.Participate.Steps.{participate-Participated, load_participate-IsLoaded}
use coinflip_program.Resolve.{Resolve, resolve}
use coinflip_program.Resolve.Steps.{
  resolve-IsSettled, load_resolve-IsLoaded, settled_winner-IsJudged,
}
use coinflip_program.Refund.{RefundExpired, refund_expired}
use coinflip_program.Refund.Steps.{refund_expired-Refunded, load_refund-IsLoaded}
use coinflip_program.Refund.Expiry.{refund_guards-IsExpired}
use coinflip_program.Cancel.{Cancel, InitiateCancel, cancel, initiate}
use coinflip_program.Cancel.Steps.{
  cancel-Cancelled, load_cancel-IsLoaded, initiate-Initiated, initiate_found,
}
use coinflip_program.Cancel.Delay.{cancel_guards_iff}
use coinflip_program.Solvency.Calls.{
  Safe-create_deposit, Safe-join_deposit, Safe-participate_deposit, Safe-request_join_vrf,
  Safe-pay_stake,
}
use coinflip_program.Solvency.Settling.{Safe-resolve_tokens, Safe-cancel_tokens, Safe-refund_tokens}
use coinflip_program.Lifecycle.{Move, opened, joined, announced, settled, cancelled}
use coinflip_program.Solvency.Invariant.{IsSolvent}
use coinflip_program.Lifecycle.Stores.{
  fresh_key, new_game-IsFresh, stored_games, closed_games, pay_lamports-games, branch-games,
  resolve_sol-games,
}

module _ (r : Runtime) (own : OwnershipLaw r) where
  pub create-Move :
      (make : InitLaw r) (acc : Create) (args : CreateArgs) (s s' : Ledger)
      → IsSolvent s
      → create r acc args s ≡ ok s'
      → Move s.games s'.games
  create-Move make acc args s s' v e =
      let c = create-Created r acc args s s' e in
      let made = (load_create-IsLoaded r acc args s c.s1 c.l c.loading).made in
      let before = (own.init acc.creator acc.game s c.s1 made).games in
      let paid =
        ((Safe-create_deposit r own acc c.l args c.decimals c.s1).respects c.s2 c.paying).games in
      let g = new_game acc.creator c.l args c.decimals in
      opened acc.game g (fresh_key r make acc.creator acc.game s c.s1 v made)
        (new_game-IsFresh acc.creator c.l args c.decimals c.guarded)
        (stored_games acc.game g s c.s2 s' c.stored (paid ∙ before))

  pub join-Move :
      (acc : Join) (args : JoinArgs) (s s' : Ledger)
      → join r acc args s ≡ ok s'
      → Move s.games s'.games
  join-Move acc args s s' e =
      let j = join-Joined r acc args s s' e in
      let l = load_join-IsLoaded r acc s j.l j.loading in
      let paid =
        ((Safe-join_deposit r own acc j.l j.game args.amount s).respects j.s1 j.paying).games in
      let asked =
        ((Safe-request_join_vrf r own acc.vrf acc.joiner acc.game j.l.config j.game j.s1).respects
          j.s2 j.asking).games in
      joined acc.game j.l.game j.game acc.joiner args s.slot l.game l.not_creator
        (apply_join-IsPaired j.l.game acc.joiner args s.slot j.game j.pairing)
        (stored_games acc.game j.game s j.s2 s' j.stored (asked ∙ paid))

  pub participate-Move :
      (acc : Participate) (args : ParticipateArgs) (s s' : Ledger)
      → participate r acc args s ≡ ok s'
      → Move s.games s'.games
  participate-Move acc args s s' e =
      let j = participate-Participated r acc args s s' e in
      let l = load_participate-IsLoaded r acc s j.l j.loading in
      let swapped = ((Safe-pay_stake r own acc j.l args s).respects j.s1 j.swapping).games in
      let paid =
        ((Safe-participate_deposit r own acc j.l j.game args.joining.amount j.s1).respects j.s2
          j.paying).games in
      let asked =
        ((Safe-request_join_vrf r own acc.vrf acc.joiner acc.game j.l.config j.game j.s2).respects
          j.s3 j.asking).games in
      joined acc.game j.l.game j.game acc.joiner args.joining s.slot l.game l.not_creator
        (apply_join-IsPaired j.l.game acc.joiner args.joining s.slot j.game j.pairing)
        (stored_games acc.game j.game s j.s3 s' j.stored (asked ∙ paid ∙ swapped))

  module _ (law : CloseLaw r) where
    pub resolve-Move :
        (acc : Resolve) (s s' : Ledger) → resolve r acc s ≡ ok s' → Move s.games s'.games
    resolve-Move acc s s' e =
        let t = resolve-IsSettled r acc s s' e in
        let l = load_resolve-IsLoaded r acc s t.l t.loading in
        settled acc.game t.l.game l.game
          (settled_winner-IsJudged r acc s t.l t.winner t.judging).is_ready
          (closed_games r law acc.game acc.winner s t.s1 s' l.apart t.closing (
            branch-games (is_native_sol t.l.game.mint) _ _ s t.s1
              (resolve_sol-games r acc t.fee s t.s1) (Safe-resolve_tokens r own acc t.l t.fee s)
              t.paying))

    pub refund_expired-Move :
        (acc : RefundExpired) (s s' : Ledger)
        → refund_expired r acc s ≡ ok s'
        → Move s.games s'.games
    refund_expired-Move acc s s' e =
        let t = refund_expired-Refunded r acc s s' e in
        let l = load_refund-IsLoaded r acc s t.l t.loading in
        settled acc.game t.l.game l.game (refund_guards-IsExpired r acc t.l s t.guarded).is_ready (
          closed_games r law acc.game acc.creator s t.s1 s' l.apart t.closing (
            branch-games (is_native_sol t.l.game.mint) _ _ s t.s1
              (pay_lamports-games acc.game acc.joiner t.l.game.amount s t.s1)
              (Safe-refund_tokens r own acc t.l s) t.paying))

    pub cancel-Move :
        (acc : Cancel) (s s' : Ledger) → cancel r acc s ≡ ok s' → Move s.games s'.games
    cancel-Move acc s s' e =
        let t = cancel-Cancelled r acc s s' e in
        let l = load_cancel-IsLoaded r acc s t.l t.loading in
        cancelled acc.game t.l.game l.game
          ((cancel_guards_iff t.l.config t.l.game acc.signer s.slot).0 t.guarded).0
          (closed_games r law acc.game acc.creator s t.s1 s' l.apart t.closing (
            branch-games (is_native_sol t.l.game.mint) _ _ s t.s1
              (λ same. let e' : ok s ≡ ok t.s1 = same in cc) (Safe-cancel_tokens r own acc t.l s)
              t.paying))

pub initiate-Move :
    (r : Runtime) (acc : InitiateCancel) (s s' : Ledger)
    → initiate r acc s ≡ ok s'
    → Move s.games s'.games
initiate-Move r acc s s' e =
    let (c, g, a, b) = initiate_found r acc s s' e in
    let i = initiate-Initiated r acc s s' c g a b e in
    announced acc.game g (s.slot + authority_cancel_delay_slots) b i.is_open
      (stored_games acc.game _ s s s' i.stored refl)
