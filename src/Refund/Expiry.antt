-- ===== src/Refund/Expiry.antt =====
-- When a refund is allowed, what it pays, and that it excludes a settlement.
use coinflip_program.Base.{◌+◌, ◌≡◌, ◌≢◌, ◌<◌, Bytes, false, some, none, ap, ◌∙◌, ==_iff, arith}
use coinflip_program.Error.{ok, >>=-eq-ok, require-eq-ok, invalid_vrf_accounts}
use coinflip_program.Accounts.{require_keys_eq}
use coinflip_program.State.{Pubkey, Game, ready, default_key}
use coinflip_program.Runtime.{Ledger, Runtime}
use coinflip_program.Vrf.{vrf_seed, is_request_fulfilled, randomness_address, fulfilled_randomness}
use coinflip_program.Vrf.Fulfilment.{fulfilled_of_randomness}
use coinflip_program.Runtime.Laws.{CloseLaw, closed}
use coinflip_program.Accounts.{pay_lamports}
use coinflip_program.Accounts.Payments.{pay_lamports_pays, paid_out_after, rest_after, others_after}
use coinflip_program.SlotHash.{expired, lookup_join_slot_hash}
use coinflip_program.Refund.{RefundExpired, LoadedRefund, refund_guards, refund_expired}
use coinflip_program.Refund.Steps.{refund_expired-Refunded, load_refund-IsLoaded}
use coinflip_program.Resolve.{Resolve, resolve}
use coinflip_program.Resolve.Steps.{
  resolve-IsSettled, load_resolve-IsLoaded, settled_winner-IsJudged,
}

-- What the tests of the handler leave.
pub record IsExpired (r : Runtime) (acc : RefundExpired) (l : LoadedRefund) (s : Ledger)
    : Type 0 where
  pub is_ready : l.game.status ≡ ready
  pub joined : 0 < l.game.join_slot
  pub unfulfilled :
      is_request_fulfilled r acc.vrf_request l.config.vrf_program
        (vrf_seed r acc.game l.game.joiner l.game.joiner_entropy)
        s
      ≡ ok false
  pub gone : lookup_join_slot_hash r acc.slot_hashes l.game.join_slot s ≡ ok expired

pub refund_guards-IsExpired :
    (r : Runtime) (acc : RefundExpired) (l : LoadedRefund) (s : Ledger)
    → refund_guards r acc l s ≡ ok tt
    → IsExpired r acc l s
unfolding refund_guards
refund_guards-IsExpired r acc l s h = ground arith

-- Both readings ask for the address that the game's seed gives.
address_of_unfulfilled :
    (r : Runtime) (request vrf : Pubkey) (seed : Bytes) (s : Ledger)
    → is_request_fulfilled r request vrf seed s ≡ ok false
    → request ≡ randomness_address r vrf seed
unfolding is_request_fulfilled
address_of_unfulfilled r request vrf seed s h = ground arith

address_of_randomness :
    (r : Runtime) (request vrf : Pubkey) (seed randomness : Bytes) (s : Ledger)
    → fulfilled_randomness r request vrf seed s ≡ ok randomness
    → request ≡ randomness_address r vrf seed
unfolding fulfilled_randomness
address_of_randomness r request vrf seed randomness s h =
    let (_, same, _) =
      >>=-eq-ok (require_keys_eq request (randomness_address r vrf seed) invalid_vrf_accounts) _
        h in
    (==_iff _ _).0 (require-eq-ok _ invalid_vrf_accounts same)

-- No ledger allows both a settlement and a refund of the same game under the same configuration,
-- whatever other accounts are given to the two instructions.
pub refund_excludes_resolve :
    (r : Runtime) (a : RefundExpired) (b : Resolve) (s s1 s2 : Ledger)
    → a.game ≡ b.game
    → a.config ≡ b.config
    → refund_expired r a s ≡ ok s1
    → ¬ (resolve r b s ≡ ok s2)
refund_excludes_resolve r a b s s1 s2 same_game same_config e f =
    let t = refund_expired-Refunded r a s s1 e in
    let u = resolve-IsSettled r b s s2 f in
    let x = refund_guards-IsExpired r a t.l s t.guarded in
    let j = settled_winner-IsJudged r b s u.l u.winner u.judging in
    let lt = load_refund-IsLoaded r a s t.l t.loading in
    let lu = load_resolve-IsLoaded r b s u.l u.loading in
    let game : t.l.game ≡ u.l.game = cc in
    let config : t.l.config ≡ u.l.config = cc in
    let request_a = address_of_unfulfilled r _ _ _ s x.unfulfilled in
    let request_b = address_of_randomness r _ _ _ j.randomness s j.fulfilled in
    let answered = fulfilled_of_randomness r _ _ _ s j.randomness j.fulfilled in cc

-- What a refund of lamports does to the balances.
pub record IsRefunded (acc : RefundExpired) (s s' : Ledger) (g : Game) : Type 0 where
  pub gone : s'.games acc.game ≡ none
  pub emptied : s'.lamports acc.game ≡ 0
  pub joiner_paid : s'.lamports g.joiner ≡ s.lamports g.joiner + g.amount
  pub creator_paid : s'.lamports g.creator + g.amount ≡ s.lamports g.creator + s.lamports acc.game
  pub others_kept :
      (k : Pubkey) → k ≢ acc.game → k ≢ g.joiner → k ≢ g.creator → s'.lamports k ≡ s.lamports k

-- A refund of a game in lamports gives the joiner the stake, and the creator everything else that
-- the game's account holds; nobody else's lamports change. The joiner is neither the creator nor
-- the game's own account, and Anchor closes accounts as documented.
pub refund-IsRefunded :
    (r : Runtime) (law : CloseLaw r) (acc : RefundExpired) (s s' : Ledger) (g : Game)
    → s.games acc.game ≡ some g
    → g.mint ≡ default_key
    → g.joiner ≢ acc.game
    → g.joiner ≢ g.creator
    → refund_expired r acc s ≡ ok s'
    → IsRefunded acc s s' g
refund-IsRefunded r law acc s s' g at native apart distinct e =
    let t = refund_expired-Refunded r acc s s' e in
    let l = load_refund-IsLoaded r acc s t.l t.loading in
    let same : t.l.game ≡ g = cc in
    let sol : t.l.game.mint ≡ default_key = ap Game.mint same ∙ native in
    let to_joiner : acc.joiner ≡ g.joiner = l.to_joiner ∙ ap Game.joiner same in
    let to_creator : acc.creator ≡ g.creator = l.to_creator ∙ ap Game.creator same in
    let amount : t.l.game.amount ≡ g.amount = ap Game.amount same in
    let paying : pay_lamports acc.game g.joiner g.amount s ≡ ok t.s1 =
      rw (← to_joiner, ← amount) (ground (arith, t.paying, sol)) in
    let pays = pay_lamports_pays acc.game g.joiner g.amount s t.s1 apart paying in
    let ends : acc.game ≢ g.creator = rw (← to_creator) l.apart in
    let closing : s' ≡ closed acc.game g.creator t.s1 =
      rw (← to_creator) (ground (arith, t.closing, law.closes acc.game acc.creator t.s1 l.apart)) in
    record {
      gone = rw closing (ground arith);
      emptied = rw closing (ground arith);
      joiner_paid = rw closing (paid_out_after _ _ _ g.amount s t.s1 ends apart distinct pays);
      creator_paid = rw closing (rest_after _ _ _ g.amount s t.s1 ends apart distinct pays);
      others_kept = λ k a b c.
          rw closing (others_after _ _ _ g.amount s t.s1 ends apart distinct pays k a b c);
    }
