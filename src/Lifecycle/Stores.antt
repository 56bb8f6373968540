-- ===== src/Lifecycle/Stores.antt =====
-- How opening, storing and closing change the games.
use coinflip_program.Base.{
  ℕ, ◌≡◌, ◌≢◌, Bool, true, false, none, some, sym, ap, ◌∙◌, refl, arith, update, if◌then◌else◌, ltb,
  Bool-cases, bytes_eq_refl, Option-cases, inl, inr,
}
use coinflip_program.Error.{Result, ok}
use coinflip_program.State.{Pubkey, Game, program_id, zero_entropy}
use coinflip_program.Runtime.{Ledger, Runtime}
use coinflip_program.Runtime.Laws.{InitLaw, CloseLaw, closed, system_program}
use coinflip_program.Accounts.{store_game, pay_lamports}
use coinflip_program.Accounts.Payments.{pay_lamports_moved}
use coinflip_program.Create.{CreateArgs, LoadedCreate, create_guards, new_game}
use coinflip_program.Resolve.{Resolve, resolve_sol}
use coinflip_program.Solvency.Safe.{Safe}
use coinflip_program.Lifecycle.{IsFresh}
use coinflip_program.Solvency.Invariant.{IsSolvent}

apart_keys : system_program ≢ program_id
apart_keys = omega arith

-- A new game stands where none was: its account belonged to the system program.
pub fresh_key :
    (r : Runtime) (make : InitLaw r) (payer k : Pubkey) (s s1 : Ledger)
    → IsSolvent s
    → r.init payer k s ≡ ok s1
    → s.games k ≡ none
fresh_key r make payer k s s1 v e = elim (Option-cases (s.games k)) [
  | inl empty ↦ empty
  | inr (g, at) ↦
      let owned = (v.holds k g at).owned in
      let free = make.fresh payer k s s1 e in absurd (apart_keys (sym free ∙ owned))
]

pub new_game-IsFresh :
    (creator : Pubkey) (l : LoadedCreate) (args : CreateArgs) (decimals : ℕ)
    → create_guards l.config args ≡ ok tt
    → IsFresh (new_game creator l args decimals)
unfolding create_guards new_game
new_game-IsFresh creator l args decimals h = record {
  is_open = refl;
  no_joiner = refl;
  stake_positive = ground arith;
  fee_capped = ground arith;
  entropy_nonzero = λ e. ground (arith, bytes_eq_refl zero_entropy);
  not_announced = refl;
}

-- How a store and a closing change the games, when the calls before them kept them.
pub stored_games :
    (k : Pubkey) (g : Game) (s t s' : Ledger)
    → s' ≡ store_game k g t
    → t.games ≡ s.games
    → s'.games ≡ update s.games k (some g)
stored_games k g s t s' e same = ap Ledger.games e ∙ ap (λ f. update f k (some g)) same

pub closed_games :
    (r : Runtime) (law : CloseLaw r) (k destination : Pubkey) (s t s' : Ledger)
    → k ≢ destination
    → r.close k destination t ≡ ok s'
    → t.games ≡ s.games
    → s'.games ≡ update s.games k none
closed_games r law k destination s t s' apart e same =
    let closing : s' ≡ closed k destination t = ground (arith, law.closes k destination t apart) in
    ap Ledger.games closing ∙ ap (λ f. update f k none) same

-- A payment by the program itself, or calls of other programs: either way the games stay.
pub pay_lamports-games :
    (from to : Pubkey) (n : ℕ) (s s' : Ledger)
    → pay_lamports from to n s ≡ ok s'
    → s'.games ≡ s.games
pay_lamports-games from to n s s' e = ap Ledger.games (pay_lamports_moved from to n s s' e)

pub branch-games :
    (native : Bool) (m n : Result Ledger) (s s1 : Ledger)
    → (m ≡ ok s1 → s1.games ≡ s.games)
    → Safe s n
    → (if native then m else n) ≡ ok s1
    → s1.games ≡ s.games
branch-games true m n s s1 h k e = h e
branch-games false m n s s1 h k e = (k.respects s1 e).games

pub resolve_sol-games :
    (r : Runtime) (acc : Resolve) (fee : ℕ) (s s1 : Ledger)
    → resolve_sol r acc fee s ≡ ok s1
    → s1.games ≡ s.games
unfolding resolve_sol
resolve_sol-games r acc fee s s1 e = elim (Bool-cases (ltb 0 fee)) [
  | inl charged ↦ pay_lamports-games acc.game acc.fee_recipient fee s s1 (rw charged at e)
  | inr free ↦ let same : ok s ≡ ok s1 = rw free at e in cc
]
