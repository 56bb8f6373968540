-- ===== src/Solvency/Invariant.antt =====
-- What every game owes to its players, and how the parts of the instructions keep it covered.
use coinflip_program.Base.{
  ℕ, ◌*◌, ◌≤◌, ◌≡◌, ◌≢◌, ap, sym, ◌∙◌, true, some, arith, ◌==◌, Bool-cases, inl, inr, ==_iff,
}
use mathlib.Core.Path.{subst₂}
use coinflip_program.Error.{ok}
use coinflip_program.State.{Pubkey, Game, GameStatus, open_status, ready, program_id, is_native_sol}
use coinflip_program.Runtime.{Ledger}
use coinflip_program.Runtime.Laws.{Respects, closed}
use coinflip_program.Accounts.{store_game, pay_lamports}
use coinflip_program.Accounts.Payments.{pay_lamports_moved}

-- One stake until a second player joins, then two.
abbrev pub stakes : GameStatus → ℕ
stakes open_status = 1
stakes ready = 2

abbrev pub stake_due : Game → ℕ
stake_due g = g.amount * stakes g.status

-- The game's account is the program's, and covers what the game owes in lamports.
pub record Holds (s : Ledger) (k : Pubkey) (g : Game) : Type 0 where
  pub owned : s.owner k ≡ program_id
  pub covered : is_native_sol g.mint ≡ true → stake_due g ≤ s.lamports k

-- Every game but the one at `x`, which is being settled.
pub record IsSolventBut (x : Pubkey) (s : Ledger) : Type 0 where
  pub holds : (k : Pubkey) (g : Game) → k ≢ x → s.games k ≡ some g → Holds s k g

pub record IsSolvent (s : Ledger) : Type 0 where
  pub holds : (k : Pubkey) (g : Game) → s.games k ≡ some g → Holds s k g

pub Respects-IsSolvent : (s s' : Ledger) → Respects s s' → IsSolvent s → IsSolvent s'
Respects-IsSolvent s s' q v = record {
  holds = λ k g e.
      let before : s.games k ≡ some g = ap (λ f. f k) (sym q.games) ∙ e in
      let h = v.holds k g before in
      record {
        owned = q.owned k h.owned;
        covered = λ n. omega (arith, h.covered n, q.funded k h.owned);
      };
}

pub store_game-IsSolvent :
    (k : Pubkey) (g : Game) (s : Ledger) → Holds s k g → IsSolvent s → IsSolvent (store_game k g s)
store_game-IsSolvent k g s h v = record {
  holds = λ j g' e. elim (Bool-cases (j == k)) [
    | inl same ↦
        let key : k ≡ j = sym ((==_iff j k).0 same) in
        let game : g ≡ g' = ground (arith, e, same) in
        subst₂ (λ i t. Holds (store_game k g s) i t) key game
          (record { owned = h.owned; covered = h.covered })
    | inr other ↦
        let h' = v.holds j g' (ground (arith, e, other)) in
        record { owned = h'.owned; covered = h'.covered }
  ];
}

pub closed-IsSolvent :
    (x destination : Pubkey) (s : Ledger) → IsSolventBut x s → IsSolvent (closed x destination s)
closed-IsSolvent x destination s v = record {
  holds = λ k g e. elim (Bool-cases (k == x)) [
    | inl same ↦ ground (arith, e, same)
    | inr other ↦
        let h = v.holds k g (ground (arith, other)) (ground (arith, e, other)) in
        record { owned = ground (arith, h.owned); covered = λ n. ground (arith, h.covered n) }
  ];
}

pub pay_lamports-IsSolventBut :
    (x to : Pubkey) (n : ℕ) (s s' : Ledger)
    → IsSolvent s
    → pay_lamports x to n s ≡ ok s'
    → IsSolventBut x s'
pay_lamports-IsSolventBut x to n s s' v e = rw (pay_lamports_moved x to n s s' e) (record {
  holds = λ k g ne at.
      let h = v.holds k g at in
      record { owned = h.owned; covered = λ nat. ground (arith, h.covered nat) };
})

pub IsSolvent-But : (x : Pubkey) (s : Ledger) → IsSolvent s → IsSolventBut x s
IsSolvent-But x s v = record { holds = λ k g ne e. v.holds k g e }
