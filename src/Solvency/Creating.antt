-- ===== src/Solvency/Creating.antt =====
-- Opening a game leaves every game covered, the new one included.
use coinflip_program.Base.{ℕ, ◌+◌, ◌≡◌, true, arith}
use coinflip_program.Error.{ok}
use coinflip_program.State.{Pubkey, program_id, is_native_sol}
use coinflip_program.Runtime.{Ledger, Runtime}
use coinflip_program.Runtime.Laws.{OwnershipLaw, TransferLaw, InitLaw}
use coinflip_program.Create.{Create, CreateArgs, LoadedCreate, create_deposit, new_game, create}
use coinflip_program.Create.Opening.{create-Created, load_create-IsLoaded}
use coinflip_program.Solvency.Safe.{Respects-trans}
use coinflip_program.Solvency.Calls.{Safe-create_deposit}
use coinflip_program.Solvency.Invariant.{
  IsSolvent, Respects-IsSolvent, store_game-IsSolvent, stake_due,
}
use coinflip_program.Solvency.Joining.{transfer_arrives}

new_game_facts :
    (creator : Pubkey) (l : LoadedCreate) (args : CreateArgs) (decimals : ℕ)
    → ((new_game creator l args decimals).mint ≡ args.mint)
      × (stake_due (new_game creator l args decimals) ≡ args.amount)
unfolding new_game
new_game_facts creator l args decimals = ground arith

module _ (r : Runtime) (own : OwnershipLaw r) (law : TransferLaw r) (make : InitLaw r) where
  create_deposit_arrives :
      (acc : Create) (l : LoadedCreate) (args : CreateArgs) (decimals : ℕ) (s s1 : Ledger)
      → s.owner acc.game ≡ program_id
      → create_deposit r acc l args decimals s ≡ ok s1
      → is_native_sol args.mint ≡ true
      → s1.lamports acc.game ≡ s.lamports acc.game + args.amount
  unfolding create_deposit
  create_deposit_arrives acc l args decimals s s1 o e n =
      transfer_arrives r law acc.creator acc.game args.amount s s1 o (rw n at e)

  pub create-IsSolvent :
      (acc : Create) (args : CreateArgs) (s s' : Ledger)
      → IsSolvent s
      → create r acc args s ≡ ok s'
      → IsSolvent s'
  create-IsSolvent acc args s s' v e =
      let c = create-Created r acc args s s' e in
      let made = (load_create-IsLoaded r acc args s c.s1 c.l c.loading).made in
      let o = make.owned acc.creator acc.game s c.s1 made in
      let paid = (Safe-create_deposit r own acc c.l args c.decimals c.s1).respects c.s2 c.paying in
      let arrives = create_deposit_arrives acc c.l args c.decimals c.s1 c.s2 o c.paying in
      let facts = new_game_facts acc.creator c.l args c.decimals in
      rw c.stored (
        store_game-IsSolvent acc.game (new_game acc.creator c.l args c.decimals) c.s2
          (record {
            owned = paid.owned acc.game o;
            covered = λ n. omega (arith, facts.1, arrives (rw facts.0 at n));
          })
          (Respects-IsSolvent s c.s2
            (Respects-trans s c.s1 c.s2 (own.init acc.creator acc.game s c.s1 made) paid) v))
