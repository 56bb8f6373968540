-- ===== src/Resolve/Payout.antt =====
-- Where the money goes when a game of lamports is settled.
use coinflip_program.Base.{
  some, sym, subst, ap, ◌∙◌, ℕ, ◌+◌, ◌-◌, ◌*◌, ◌/◌, ◌≡◌, ◌≢◌, ◌≤◌, none, arith, if◌then◌else◌, ◌==◌,
}
use coinflip_program.Error.{ok}
use coinflip_program.State.{Pubkey, Game, default_key}
use coinflip_program.Fees.{pot_fee}
use coinflip_program.Runtime.{Ledger, Runtime}
use coinflip_program.Runtime.Laws.{CloseLaw, closed}
use coinflip_program.Accounts.Payments.{paid_out_after, rest_after, others_after}
use coinflip_program.Resolve.{Resolve, resolve_sol, resolve}
use coinflip_program.Resolve.Steps.{IsSettled, load_resolve-IsLoaded, resolve-IsSettled}

-- The account of the money in a settled game of lamports.
pub record IsPaid (acc : Resolve) (s s' : Ledger) (g : Game) (fee : ℕ) : Type 0 where
  pub floor_fee : fee ≡ g.amount * 2 * g.fee_bps / 10000
  pub gone : s'.games acc.game ≡ none
  pub emptied : s'.lamports acc.game ≡ 0
  pub house_paid : s'.lamports acc.fee_recipient ≡ s.lamports acc.fee_recipient + fee
  pub winner_paid : s'.lamports acc.winner + fee ≡ s.lamports acc.winner + s.lamports acc.game
  pub others_kept :
      (k : Pubkey)
      → k ≢ acc.game
      → k ≢ acc.fee_recipient
      → k ≢ acc.winner
      → s'.lamports k ≡ s.lamports k

-- The fee's payment, in one form for every fee.
resolve_sol_pays :
    (r : Runtime) (acc : Resolve) (fee : ℕ) (s s1 : Ledger) (k : Pubkey)
    → acc.fee_recipient ≢ acc.game
    → resolve_sol r acc fee s ≡ ok s1
    → (fee ≤ s.lamports acc.game)
      × (s1.lamports k ≡ (
          if k == acc.fee_recipient
          then s.lamports k + fee
          else (if k == acc.game then s.lamports k - fee else s.lamports k)))
unfolding resolve_sol
resolve_sol_pays r acc fee s s1 k apart h = ground arith

pub floor_of_pot_fee :
    (amount fee_bps fee : ℕ) → pot_fee amount fee_bps ≡ ok fee → fee ≡ amount * 2 * fee_bps / 10000
unfolding pot_fee
floor_of_pot_fee amount fee_bps fee h = ground arith

module _ (r : Runtime) (law : CloseLaw r) (acc : Resolve) (s s' : Ledger) where
  settled-IsPaid :
      (settled : IsSettled r acc s s')
      → settled.l.game.mint ≡ default_key
      → acc.fee_recipient ≢ acc.game
      → acc.fee_recipient ≢ acc.winner
      → IsPaid acc s s' settled.l.game settled.fee
  settled-IsPaid settled native apart distinct =
      let l = settled.l in
      let fee = settled.fee in
      let s1 = settled.s1 in
      let loaded = load_resolve-IsLoaded r acc s l settled.loading in
      let paying : resolve_sol r acc fee s ≡ ok s1 = ground (arith, settled.paying) in
      let closing : s' ≡ closed acc.game acc.winner s1 =
        ground (arith, settled.closing, law.closes acc.game acc.winner s1 loaded.apart) in
      let pays = λ (k : Pubkey). resolve_sol_pays r acc fee s s1 k apart paying in
      record {
        floor_fee = floor_of_pot_fee l.game.amount l.game.fee_bps fee settled.charging;
        gone = rw closing (ground arith);
        emptied = rw closing (ground arith);
        house_paid = rw closing (paid_out_after _ _ _ fee s s1 loaded.apart apart distinct pays);
        winner_paid = rw closing (rest_after _ _ _ fee s s1 loaded.apart apart distinct pays);
        others_kept = λ k a b c.
            rw closing (others_after _ _ _ fee s s1 loaded.apart apart distinct pays k a b c);
      }

  pub closed_after : (settled : IsSettled r acc s s') → s' ≡ closed acc.game acc.winner settled.s1
  closed_after settled = ground (
    arith,
    settled.closing,
    law.closes acc.game acc.winner settled.s1
        (load_resolve-IsLoaded r acc s settled.l settled.loading).apart,
  )

pub same_game : {g g' : Game} → some g ≡ some g' → g ≡ g'
same_game h = cc

pub resolve-IsPaid :
    (r : Runtime) (law : CloseLaw r) (acc : Resolve) (g : Game) (s s' : Ledger)
    → s.games acc.game ≡ some g
    → g.mint ≡ default_key
    → acc.fee_recipient ≢ acc.game
    → acc.fee_recipient ≢ acc.winner
    → resolve r acc s ≡ ok s'
    → (fee : ℕ) × IsPaid acc s s' g fee
resolve-IsPaid r law acc g s s' found native apart distinct h =
    let settled = resolve-IsSettled r acc s s' h in
    let loaded = load_resolve-IsLoaded r acc s settled.l settled.loading in
    let same : settled.l.game ≡ g = same_game (sym loaded.game ∙ found) in
    (
      settled.fee,
      subst (λ x. IsPaid acc s s' x settled.fee) same
          (settled-IsPaid r law acc s s' settled (ap Game.mint same ∙ native) apart distinct),
    )
