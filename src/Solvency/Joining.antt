-- ===== src/Solvency/Joining.antt =====
-- Joining a game, by `join` or by `participate`, leaves every game covered.
use coinflip_program.Base.{ℕ, ◌+◌, ◌≡◌, true, some, arith}
use coinflip_program.Error.{ok}
use coinflip_program.State.{Pubkey, Game, program_id, is_native_sol}
use coinflip_program.Runtime.{Ledger, Runtime}
use coinflip_program.Runtime.Laws.{Respects, OwnershipLaw, TransferLaw}
use coinflip_program.Accounts.{store_game}
use coinflip_program.Join.{Join, JoinArgs, LoadedJoin, apply_join, join_deposit, join}
use coinflip_program.Join.Pairing.{apply_join-IsPaired}
use coinflip_program.Join.Steps.{join-Joined, load_join-IsLoaded}
use coinflip_program.Solvency.Safe.{Respects-trans}
use coinflip_program.Solvency.Calls.{Safe-join_deposit, Safe-request_join_vrf}
use coinflip_program.Solvency.Invariant.{IsSolvent, Respects-IsSolvent, store_game-IsSolvent}

-- A transfer into a game's account arrives: its payer is another account, which the system program
-- owns.
pub transfer_arrives :
    (r : Runtime) (law : TransferLaw r) (from game : Pubkey) (n : ℕ) (s s1 : Ledger)
    → s.owner game ≡ program_id
    → r.transfer from game n s ≡ ok s1
    → s1.lamports game ≡ s.lamports game + n
transfer_arrives r law from game n s s1 o e =
    ground (arith, law.moves from game n s s1 e, law.owned from game n s s1 e)

-- The shared end of both instructions: the deposit, the request and the store.
pub joined-IsSolvent :
    (key joiner : Pubkey) (g g' : Game) (args : JoinArgs) (slot : ℕ) (s s1 s2 : Ledger)
    → IsSolvent s
    → s.games key ≡ some g
    → apply_join g joiner args slot ≡ ok g'
    → (is_native_sol g'.mint ≡ true → s1.lamports key ≡ s.lamports key + args.amount)
    → Respects s s1
    → Respects s1 s2
    → IsSolvent (store_game key g' s2)
joined-IsSolvent key joiner g g' args slot s s1 s2 v at e paid a b =
    let h = v.holds key g at in
    let p = apply_join-IsPaired g joiner args slot g' e in
    let o1 = a.owned key h.owned in
    store_game-IsSolvent key g' s2
      (record {
        owned = b.owned key o1;
        covered = λ n. ground (arith, h.covered, paid n, b.funded key o1, p);
      })
      (Respects-IsSolvent s s2 (Respects-trans s s1 s2 a b) v)

module _ (r : Runtime) (own : OwnershipLaw r) (law : TransferLaw r) where
  join_deposit_arrives :
      (acc : Join) (l : LoadedJoin) (game : Game) (amount : ℕ) (s s1 : Ledger)
      → s.owner acc.game ≡ program_id
      → join_deposit r acc l game amount s ≡ ok s1
      → is_native_sol game.mint ≡ true
      → s1.lamports acc.game ≡ s.lamports acc.game + amount
  unfolding join_deposit
  join_deposit_arrives acc l game amount s s1 o e n =
      transfer_arrives r law acc.joiner acc.game amount s s1 o (rw n at e)

  pub join-IsSolvent :
      (acc : Join) (args : JoinArgs) (s s' : Ledger)
      → IsSolvent s
      → join r acc args s ≡ ok s'
      → IsSolvent s'
  join-IsSolvent acc args s s' v e =
      let j = join-Joined r acc args s s' e in
      let at = (load_join-IsLoaded r acc s j.l j.loading).game in
      let o = (v.holds acc.game j.l.game at).owned in
      rw j.stored (
        joined-IsSolvent acc.game acc.joiner j.l.game j.game args s.slot s j.s1 j.s2 v at j.pairing
          (join_deposit_arrives acc j.l j.game args.amount s j.s1 o j.paying)
          ((Safe-join_deposit r own acc j.l j.game args.amount s).respects j.s1 j.paying)
          ((Safe-request_join_vrf r own acc.vrf acc.joiner acc.game j.l.config j.game j.s1).respects
            j.s2 j.asking))
