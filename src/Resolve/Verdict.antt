-- ===== src/Resolve/Verdict.antt =====
-- Whom a settlement pays, and when it goes through.
use coinflip_program.Base.{
  ℕ, ◌+◌, ◌*◌, ◌/◌, ◌≡◌, ◌≢◌, ◌⊎◌, ◌≤◌, ◌<◌, ◌^◌, Bytes, some, arith, sym, subst, ap, ◌∙◌, Fits,
  refl, ==_iff, update, ◌-◌, mul_mono, Bool-cases, inl, inr, ltb,
}
use coinflip_program.Error.{ok}
use coinflip_program.State.{
  is_ready_ok, Pubkey, Config, Game, heads, tails, ready, max_fee_bps, default_key,
}
use coinflip_program.Fees.Bounds.{pot_fee-ok}
use coinflip_program.Runtime.{Ledger, Runtime}
use coinflip_program.Runtime.Laws.{CloseLaw, closed}
use coinflip_program.Accounts.Payments.{pay_lamports_total}
use coinflip_program.Vrf.{fulfilled_randomness, vrf_seed, winning_side, result_winner}
use coinflip_program.Vrf.Fulfilment.{result_winner_side}
use coinflip_program.Resolve.{
  Resolve, LoadedResolve, load_resolve, settled_winner, resolve_sol, resolve,
}
use coinflip_program.Resolve.Payout.{same_game, IsPaid, resolve-IsPaid}
use coinflip_program.Resolve.Steps.{
  resolve-IsSettled, load_resolve-IsLoaded, settled_winner-IsJudged,
}

-- What a settlement pays out on: the configuration's oracle has answered the game's request, and
-- the account that is paid is that of the player whose side the answer names.
pub record IsVerdict (r : Runtime) (acc : Resolve) (s : Ledger) (c : Config) (g : Game)
    : Type 0 where
  pub config : s.configs acc.config ≡ some c
  pub is_ready : g.status ≡ ready
  pub to_house : acc.fee_recipient ≡ c.authority
  pub randomness : Bytes
  pub fulfilled :
      fulfilled_randomness r acc.vrf_request c.vrf_program
        (vrf_seed r acc.game g.joiner g.joiner_entropy)
        s
      ≡ ok randomness
  pub by_side :
      ((winning_side r g randomness ≡ g.creator_side) × (acc.winner ≡ g.creator))
      ⊎ ((winning_side r g randomness ≡ g.joiner_side) × (acc.winner ≡ g.joiner))

verdict_of :
    (r : Runtime) (g : Game) (randomness : Bytes) (winner : Pubkey)
    → winner ≡ result_winner r g randomness
    → ((g.creator_side ≡ heads) × (g.joiner_side ≡ tails))
      ⊎ ((g.creator_side ≡ tails) × (g.joiner_side ≡ heads))
    → ((winning_side r g randomness ≡ g.creator_side) × (winner ≡ g.creator))
      ⊎ ((winning_side r g randomness ≡ g.joiner_side) × (winner ≡ g.joiner))
verdict_of r g randomness winner picked opposed = elim (result_winner_side r g randomness opposed) [
  | inl a ↦ inl (a.0, picked ∙ a.1)
  | inr b ↦ inr (b.0, picked ∙ b.1)
]

pub resolve_ready :
    (r : Runtime) (acc : Resolve) (g : Game) (s s' : Ledger)
    → s.games acc.game ≡ some g
    → resolve r acc s ≡ ok s'
    → g.status ≡ ready
resolve_ready r acc g s s' found h =
    let settled = resolve-IsSettled r acc s s' h in
    let loaded = load_resolve-IsLoaded r acc s settled.l settled.loading in
    let same : settled.l.game ≡ g = same_game (sym loaded.game ∙ found) in
    ap Game.status (sym same)
    ∙ (settled_winner-IsJudged r acc s settled.l settled.winner settled.judging).is_ready

judged :
    (r : Runtime) (acc : Resolve) (g : Game) (s s' : Ledger)
    → s.games acc.game ≡ some g
    → ((g.creator_side ≡ heads) × (g.joiner_side ≡ tails))
      ⊎ ((g.creator_side ≡ tails) × (g.joiner_side ≡ heads))
    → resolve r acc s ≡ ok s'
    → (c : Config) × IsVerdict r acc s c g
judged r acc g s s' found opposed h =
    let settled = resolve-IsSettled r acc s s' h in
    let l = settled.l in
    let loaded = load_resolve-IsLoaded r acc s l settled.loading in
    let same : l.game ≡ g = same_game (sym loaded.game ∙ found) in
    let judged = settled_winner-IsJudged r acc s l settled.winner settled.judging in
    (
      l.config,
      record {
        config = loaded.config;
        is_ready = resolve_ready r acc g s s' found h;
        to_house = loaded.to_house;
        randomness = judged.randomness;
        fulfilled =
            subst
              (λ x.
                fulfilled_randomness r acc.vrf_request l.config.vrf_program
                  (vrf_seed r acc.game x.joiner x.joiner_entropy) s
                ≡ ok judged.randomness)
              same judged.fulfilled;
        by_side =
            verdict_of r g judged.randomness acc.winner
              (subst (λ x. acc.winner ≡ result_winner r x judged.randomness) same judged.picked)
              opposed;
      },
    )

-- A settlement of a game in lamports whose players' sides are opposed is of a ready game, on the
-- answer of the configured oracle to that game's request, with the configured authority as the house.
-- It pays the player whose side came up: that player receives all that the game's account holds but
-- the fee, the house receives the fee, the floor of the rate's share of the pot, nobody else's lamports
-- change, and the game is gone. The house is neither that player nor the game's account, and Anchor
-- closes accounts as documented.
pub resolve-IsVerdict :
    (r : Runtime) (law : CloseLaw r) (acc : Resolve) (g : Game) (s s' : Ledger)
    → s.games acc.game ≡ some g
    → ((g.creator_side ≡ heads) × (g.joiner_side ≡ tails))
      ⊎ ((g.creator_side ≡ tails) × (g.joiner_side ≡ heads))
    → g.mint ≡ default_key
    → acc.fee_recipient ≢ acc.game
    → acc.fee_recipient ≢ acc.winner
    → resolve r acc s ≡ ok s'
    → (c : Config) × (fee : ℕ) × IsVerdict r acc s c g × IsPaid acc s s' g fee
resolve-IsVerdict r law acc g s s' found opposed native apart distinct h =
    let (c, verdict) = judged r acc g s s' found opposed h in
    let (fee, paid) = resolve-IsPaid r law acc g s s' found native apart distinct h in
    (c, fee, verdict, paid)

settled_winner-ok :
    (r : Runtime) (acc : Resolve) (l : LoadedResolve) (randomness : Bytes) (s : Ledger)
    → l.game.status ≡ ready
    → fulfilled_randomness r acc.vrf_request l.config.vrf_program
        (vrf_seed r acc.game l.game.joiner l.game.joiner_entropy)
        s
      ≡ ok randomness
    → acc.winner ≡ result_winner r l.game randomness
    → settled_winner r acc l s ≡ ok (result_winner r l.game randomness)
unfolding settled_winner
settled_winner-ok r acc l randomness s is_ready fulfilled picked =
    rw (is_ready_ok l.game.status is_ready, fulfilled, (==_iff _ _).1 picked) refl

fee_paid :
    (r : Runtime) (acc : Resolve) (fee : ℕ) (s : Ledger)
    → fee ≤ s.lamports acc.game
    → s.lamports acc.fee_recipient + fee < 2 ^ 64
    → (s1 : Ledger) × (resolve_sol r acc fee s ≡ ok s1)
unfolding resolve_sol
fee_paid r acc fee s covered room = elim (Bool-cases (ltb 0 fee)) [
  | inl charged ↦ (
    record s {
      lamports =
          update (update s.lamports acc.game (s.lamports acc.game - fee)) acc.fee_recipient
            (s.lamports acc.fee_recipient + fee);
    },
    rw charged (pay_lamports_total acc.game acc.fee_recipient fee s covered room),
  )
  | inr free ↦ (s, rw free refl)
]

fee-le-pot :
    (amount fee_bps : ℕ) → fee_bps ≤ max_fee_bps → amount * 2 * fee_bps / 10000 ≤ amount * 2
fee-le-pot amount fee_bps h =
    omega (arith, mul_mono (amount * 2) fee_bps (amount * 2) 500 (omega arith) h)

-- A ready game of lamports can be settled: if its accounts load, the oracle has answered, the caller
-- names the player that the answer picks, the stake and the rate are within the program's bounds,
-- the game's account holds the pot, the house's balance has room for as much, and Anchor closes
-- accounts as documented, then `resolve` succeeds.
pub resolve_goes_through :
    (r : Runtime) (law : CloseLaw r) (acc : Resolve) (l : LoadedResolve) (randomness : Bytes)
    (s : Ledger)
    → load_resolve r acc s ≡ ok l
    → l.game.status ≡ ready
    → l.game.mint ≡ default_key
    → fulfilled_randomness r acc.vrf_request l.config.vrf_program
        (vrf_seed r acc.game l.game.joiner l.game.joiner_entropy)
        s
      ≡ ok randomness
    → acc.winner ≡ result_winner r l.game randomness
    → Fits 63 l.game.amount
    → l.game.fee_bps ≤ max_fee_bps
    → l.game.amount * 2 ≤ s.lamports acc.game
    → s.lamports acc.fee_recipient + l.game.amount * 2 < 2 ^ 64
    → (s' : Ledger) × (resolve r acc s ≡ ok s')
unfolding resolve
resolve_goes_through r law acc l randomness s loading is_ready native fulfilled picked fits capped
      covered room =
    let g = l.game in
    let fee = g.amount * 2 * g.fee_bps / 10000 in
    let small = fee-le-pot g.amount g.fee_bps capped in
    let (s1, paying) = fee_paid r acc fee s (omega (arith, small)) (omega (arith, small)) in
    let loaded = load_resolve-IsLoaded r acc s l loading in
    (
      closed acc.game acc.winner s1,
      rw
          (
            loading,
            settled_winner-ok r acc l randomness s is_ready fulfilled picked,
            pot_fee-ok g.amount g.fee_bps fits (omega arith),
            native,
            paying,
            law.closes acc.game acc.winner s1 loaded.apart,
          )
          refl,
    )
