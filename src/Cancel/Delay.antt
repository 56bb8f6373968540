-- ===== src/Cancel/Delay.antt =====
-- Who may cancel an open game, and when.
use coinflip_program.Base.{
  ℕ, ◌+◌, ◌≡◌, ◌≢◌, ◌≤◌, ◌<◌, ◌⊎◌, ◌↔◌, ◌∙◌, ap, sym, refl, inl, some, none, arith,
}
use coinflip_program.Error.{ok}
use coinflip_program.State.{
  Pubkey, Game, Config, default_key, open_status, authority_cancel_delay_slots,
}
use coinflip_program.Runtime.{Ledger, Runtime}
use coinflip_program.Runtime.Laws.{CloseLaw, closed}
use coinflip_program.Cancel.{Cancel, InitiateCancel, cancel_guards, initiate, cancel}
use coinflip_program.Cancel.Steps.{
  initiate-Initiated, initiate_found, cancel-Cancelled, load_cancel-IsLoaded,
}

module _ (config : Config) (game : Game) (signer slot : ℕ) where
  -- Cancelling is allowed exactly while the game is open, to its creator at any time, and to the
  -- house once a cancellation was announced and its slot has come.
  pub cancel_guards_iff : (cancel_guards config game signer slot ≡ ok tt) ↔ (
      (game.status ≡ open_status)
      × ((signer ≡ game.creator)
          ⊎ ((signer ≡ config.authority)
              × (0 < game.cancel_after_slot)
              × (game.cancel_after_slot ≤ slot))))
  unfolding cancel_guards
  cancel_guards_iff = (λ h. ground arith, λ h. ground arith)

-- After an announcement, and with the game left as it is, a cancellation that succeeds is its
-- creator's or at least 32 slots later, and the tests of `cancel` let the creator through in every
-- slot, under every configuration.
pub initiate_delays :
    (r : Runtime) (acc : InitiateCancel) (by : Cancel) (s t s' t' : Ledger) (g : Game) (c : Config)
    (slot : ℕ)
    → initiate r acc s ≡ ok s'
    → s'.games acc.game ≡ some g
    → t.games by.game ≡ some g
    → cancel r by t ≡ ok t'
    → ((by.signer ≡ g.creator) ⊎ (s.slot + authority_cancel_delay_slots ≤ t.slot))
      × (cancel_guards c g g.creator slot ≡ ok tt)
initiate_delays r acc by s t s' t' g config slot e at at' f =
    let (c, g0, a, b) = initiate_found r acc s s' e in
    let i = initiate-Initiated r acc s s' c g0 a b e in
    let k = cancel-Cancelled r by t t' f in
    let l = load_cancel-IsLoaded r by t k.l k.loading in
    let rules = (cancel_guards_iff k.l.config k.l.game by.signer t.slot).0 k.guarded in
    let same : k.l.game ≡ g = cc in
    let after : g.cancel_after_slot ≡ s.slot + authority_cancel_delay_slots =
      ground (arith, i.stored, at) in
    let is_open : g.status ≡ open_status = ap Game.status (sym same) ∙ rules.0 in
    (
      ground (arith, rules, same, after),
      (cancel_guards_iff config g g.creator slot).1 (is_open, inl refl),
    )

closed_facts :
    (game creator : Pubkey) (s : Ledger)
    → game ≢ creator
    → let s' = closed game creator s in
      (s'.games game ≡ none)
      × (s'.lamports game ≡ 0)
      × (s'.lamports creator ≡ s.lamports creator + s.lamports game)
      × ((k : Pubkey) → k ≢ game → k ≢ creator → s'.lamports k ≡ s.lamports k)
closed_facts game creator s apart =
    (ground arith, ground arith, ground arith, λ k a b. ground arith)

-- A cancelled game in lamports pays all that its account holds to the creator, and is gone; nobody
-- else's lamports change. Anchor closes accounts as documented.
pub cancel_returns :
    (r : Runtime) (law : CloseLaw r) (acc : Cancel) (s s' : Ledger) (g : Game)
    → s.games acc.game ≡ some g
    → g.mint ≡ default_key
    → cancel r acc s ≡ ok s'
    → (s'.games acc.game ≡ none)
      × (s'.lamports acc.game ≡ 0)
      × (s'.lamports g.creator ≡ s.lamports g.creator + s.lamports acc.game)
      × ((k : Pubkey) → k ≢ acc.game → k ≢ g.creator → s'.lamports k ≡ s.lamports k)
cancel_returns r law acc s s' g at native e =
    let c = cancel-Cancelled r acc s s' e in
    let l = load_cancel-IsLoaded r acc s c.l c.loading in
    let same : c.l.game ≡ g = cc in
    let to : acc.creator ≡ g.creator = l.to_creator ∙ ap Game.creator same in
    let sol : c.l.game.mint ≡ default_key = ap Game.mint same ∙ native in
    let kept : s ≡ c.s1 = ground (arith, c.paying, sol) in
    let closing : s' ≡ closed acc.game acc.creator s =
      ground (arith, c.closing, kept, law.closes acc.game acc.creator c.s1 l.apart) in
    let apart = l.apart in rw (closing, ← to) (closed_facts acc.game acc.creator s apart)
