-- ===== src/Refund/Success.antt =====
-- A refund that is due goes through.
use coinflip_program.Base.{◌+◌, ◌-◌, ◌^◌, ◌≡◌, ◌≤◌, ◌<◌, refl, true, ltb, arith, update}
use coinflip_program.Error.{ok}
use coinflip_program.State.{is_ready_ok, default_key}
use coinflip_program.Runtime.{Ledger, Runtime}
use coinflip_program.Runtime.Laws.{CloseLaw, closed}
use coinflip_program.Accounts.Payments.{pay_lamports_total}
use coinflip_program.Refund.{
  RefundExpired, LoadedRefund, load_refund, refund_guards, refund_expired,
}
use coinflip_program.Refund.Steps.{load_refund-IsLoaded}
use coinflip_program.Refund.Expiry.{IsExpired}

refund_guards-ok :
    (r : Runtime) (acc : RefundExpired) (l : LoadedRefund) (s : Ledger)
    → IsExpired r acc l s
    → refund_guards r acc l s ≡ ok tt
unfolding refund_guards
refund_guards-ok r acc l s x =
    let joined : ltb 0 l.game.join_slot ≡ true = ground (arith, x.joined) in
    rw (is_ready_ok l.game.status x.is_ready, joined, x.unfulfilled, x.gone) refl

-- A ready game of lamports can be refunded: if its accounts load, its join slot has left the slot
-- hashes and the oracle has not answered, the game's account holds the stake, the joiner's balance
-- has room for it, and Anchor closes accounts as documented, then `refund_expired` succeeds.
pub refund_goes_through :
    (r : Runtime) (law : CloseLaw r) (acc : RefundExpired) (l : LoadedRefund) (s : Ledger)
    → load_refund r acc s ≡ ok l
    → IsExpired r acc l s
    → l.game.mint ≡ default_key
    → l.game.amount ≤ s.lamports acc.game
    → s.lamports acc.joiner + l.game.amount < 2 ^ 64
    → (s' : Ledger) × (refund_expired r acc s ≡ ok s')
unfolding refund_expired
refund_goes_through r law acc l s loading expired native covered room =
    let s1 = record s {
      lamports =
          update (update s.lamports acc.game (s.lamports acc.game - l.game.amount)) acc.joiner
            (s.lamports acc.joiner + l.game.amount);
    } in
    let loaded = load_refund-IsLoaded r acc s l loading in
    (
      closed acc.game acc.creator s1,
      rw
          (
            loading,
            refund_guards-ok r acc l s expired,
            native,
            pay_lamports_total acc.game acc.joiner l.game.amount s covered room,
            law.closes acc.game acc.creator s1 loaded.apart,
          )
          refl,
    )
