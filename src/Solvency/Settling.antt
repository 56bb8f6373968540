-- ===== src/Solvency/Settling.antt =====
-- Settling, cancelling or refunding a game takes lamports from that game alone, and closes it.
use coinflip_program.Base.{
  ℕ, ◌≡◌, ◌≢◌, Bool, true, false, arith, ltb, if◌then◌else◌, Bool-cases, inl, inr, subst,
}
use coinflip_program.Error.{Result, ok}
use coinflip_program.State.{Pubkey, is_native_sol}
use coinflip_program.Runtime.{Ledger, Runtime}
use coinflip_program.Runtime.Laws.{OwnershipLaw, CloseLaw, closed}
use coinflip_program.Resolve.{Resolve, LoadedResolve, resolve_sol, resolve_tokens, resolve}
use coinflip_program.Resolve.Steps.{resolve-IsSettled, load_resolve-IsLoaded}
use coinflip_program.Cancel.{Cancel, LoadedCancel, InitiateCancel, cancel_tokens, cancel, initiate}
use coinflip_program.Cancel.Steps.{
  cancel-Cancelled, load_cancel-IsLoaded, initiate-Initiated, initiate_found,
}
use coinflip_program.Refund.{RefundExpired, LoadedRefund, refund_tokens, refund_expired}
use coinflip_program.Refund.Steps.{refund_expired-Refunded, load_refund-IsLoaded}
use coinflip_program.Solvency.Safe.{Safe, safe_rules}
use coinflip_program.Solvency.Calls.{Safe-transfer_tokens_from_game, Safe-close_vault_from_game}
use coinflip_program.Solvency.Invariant.{
  IsSolvent, IsSolventBut, Respects-IsSolvent, IsSolvent-But, closed-IsSolvent,
  pay_lamports-IsSolventBut, store_game-IsSolvent,
}

module _ (r : Runtime) (own : OwnershipLaw r) where
  pub Safe-resolve_tokens :
      (acc : Resolve) (l : LoadedResolve) (fee : ℕ) (s : Ledger)
      → Safe s (resolve_tokens r acc l fee s)
  unfolding resolve_tokens
  Safe-resolve_tokens acc l fee s =
      search (safe_rules, Safe-transfer_tokens_from_game, Safe-close_vault_from_game) depth 20

  pub Safe-cancel_tokens :
      (acc : Cancel) (l : LoadedCancel) (s : Ledger) → Safe s (cancel_tokens r acc l s)
  unfolding cancel_tokens
  Safe-cancel_tokens acc l s =
      search (safe_rules, Safe-transfer_tokens_from_game, Safe-close_vault_from_game) depth 20

  pub Safe-refund_tokens :
      (acc : RefundExpired) (l : LoadedRefund) (s : Ledger) → Safe s (refund_tokens r acc l s)
  unfolding refund_tokens
  Safe-refund_tokens acc l s =
      search (safe_rules, Safe-transfer_tokens_from_game, Safe-close_vault_from_game) depth 20

  resolve_sol-IsSolventBut :
      (acc : Resolve) (fee : ℕ) (s s1 : Ledger)
      → IsSolvent s
      → resolve_sol r acc fee s ≡ ok s1
      → IsSolventBut acc.game s1
  unfolding resolve_sol
  resolve_sol-IsSolventBut acc fee s s1 v e = elim (Bool-cases (ltb 0 fee)) [
    | inl some_fee ↦
        pay_lamports-IsSolventBut acc.game acc.fee_recipient fee s s1 v (rw some_fee at e)
    | inr no_fee ↦
        let e' : ok s ≡ ok s1 = rw no_fee at e in
        let same : s ≡ s1 = cc in subst (IsSolventBut acc.game) same (IsSolvent-But acc.game s v)
  ]

  -- A branch on the kind of game, at each of its two ends.
  branch-IsSolventBut :
      (x : Pubkey) (native : Bool) (m n : Result Ledger) (s s1 : Ledger)
      → IsSolvent s
      → (m ≡ ok s1 → IsSolventBut x s1)
      → Safe s n
      → (if native then m else n) ≡ ok s1
      → IsSolventBut x s1
  branch-IsSolventBut x true m n s s1 v h k e = h e
  branch-IsSolventBut x false m n s s1 v h k e =
      IsSolvent-But x s1 (Respects-IsSolvent s s1 (k.respects s1 e) v)

  module _ (law : CloseLaw r) where
    close-IsSolvent :
        (x destination : Pubkey) (s s' : Ledger)
        → x ≢ destination
        → IsSolventBut x s
        → r.close x destination s ≡ ok s'
        → IsSolvent s'
    close-IsSolvent x destination s s' apart v e =
        let closing : s' ≡ closed x destination s =
          ground (arith, law.closes x destination s apart) in
        rw closing (closed-IsSolvent x destination s v)

    pub resolve-IsSolvent :
        (acc : Resolve) (s s' : Ledger) → IsSolvent s → resolve r acc s ≡ ok s' → IsSolvent s'
    resolve-IsSolvent acc s s' v e =
        let t = resolve-IsSettled r acc s s' e in
        close-IsSolvent acc.game acc.winner t.s1 s'
          (load_resolve-IsLoaded r acc s t.l t.loading).apart
          (branch-IsSolventBut acc.game (is_native_sol t.l.game.mint) _ _ s t.s1 v
            (resolve_sol-IsSolventBut acc t.fee s t.s1 v) (Safe-resolve_tokens acc t.l t.fee s)
            t.paying)
          t.closing

    pub cancel-IsSolvent :
        (acc : Cancel) (s s' : Ledger) → IsSolvent s → cancel r acc s ≡ ok s' → IsSolvent s'
    cancel-IsSolvent acc s s' v e =
        let t = cancel-Cancelled r acc s s' e in
        close-IsSolvent acc.game acc.creator t.s1 s'
          (load_cancel-IsLoaded r acc s t.l t.loading).apart
          (branch-IsSolventBut acc.game (is_native_sol t.l.game.mint) _ _ s t.s1 v
            (λ same.
              let kept : s ≡ t.s1 = cc in
              subst (IsSolventBut acc.game) kept (IsSolvent-But acc.game s v))
            (Safe-cancel_tokens acc t.l s) t.paying)
          t.closing

    pub refund_expired-IsSolvent :
        (acc : RefundExpired) (s s' : Ledger)
        → IsSolvent s
        → refund_expired r acc s ≡ ok s'
        → IsSolvent s'
    refund_expired-IsSolvent acc s s' v e =
        let t = refund_expired-Refunded r acc s s' e in
        close-IsSolvent acc.game acc.creator t.s1 s'
          (load_refund-IsLoaded r acc s t.l t.loading).apart
          (branch-IsSolventBut acc.game (is_native_sol t.l.game.mint) _ _ s t.s1 v
            (pay_lamports-IsSolventBut acc.game acc.joiner t.l.game.amount s t.s1 v)
            (Safe-refund_tokens acc t.l s) t.paying)
          t.closing

pub initiate-IsSolvent :
    (r : Runtime) (acc : InitiateCancel) (s s' : Ledger)
    → IsSolvent s
    → initiate r acc s ≡ ok s'
    → IsSolvent s'
initiate-IsSolvent r acc s s' v e =
    let (c, g, a, b) = initiate_found r acc s s' e in
    let h = v.holds acc.game g b in
    rw (initiate-Initiated r acc s s' c g a b e).stored
      (store_game-IsSolvent acc.game _ s (record { owned = h.owned; covered = h.covered }) v)
