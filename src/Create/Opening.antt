-- ===== src/Create/Opening.antt =====
-- The steps of a `create` that succeeded, and the game that it opens.
use coinflip_program.Base.{ℕ, ◌≡◌, true, some, arith}
use coinflip_program.Error.{ok, >>=-eq-ok}
use coinflip_program.Runtime.{Ledger, Runtime}
use coinflip_program.Accounts.{store_game, game_seeds, load_optional, load_token_config, load_mint}
use coinflip_program.State.{program_id}
use coinflip_program.Create.{
  Create, CreateArgs, LoadedCreate, load_create, create_guards, create_decimals, create_deposit,
  new_game, create,
}

pub record Created (r : Runtime) (acc : Create) (args : CreateArgs) (s s' : Ledger) : Type 0 where
  pub l : LoadedCreate
  pub decimals : ℕ
  pub s1 : Ledger
  pub s2 : Ledger
  pub loading : load_create r acc args s ≡ ok (l, s1)
  pub guarded : create_guards l.config args ≡ ok tt
  pub listed : create_decimals r l args ≡ ok decimals
  pub paying : create_deposit r acc l args decimals s1 ≡ ok s2
  pub stored : s' ≡ store_game acc.game (new_game acc.creator l args decimals) s2

pub create-Created :
    (r : Runtime) (acc : Create) (args : CreateArgs) (s s' : Ledger)
    → create r acc args s ≡ ok s'
    → Created r acc args s s'
unfolding create
create-Created r acc args s s' h =
    let (loaded, loading, h1) = >>=-eq-ok (load_create r acc args s) _ h in
    let (l, s1) = loaded in
    let (u, guarded, h2) = >>=-eq-ok (create_guards l.config args) _ h1 in
    let (decimals, listed, h3) = >>=-eq-ok (create_decimals r l args) _ h2 in
    let (s2, paying, h4) = >>=-eq-ok (create_deposit r acc l args decimals s1) _ h3 in
    record {
      l = l;
      decimals = decimals;
      s1 = s1;
      s2 = s2;
      loading = loading;
      guarded = guarded;
      listed = listed;
      paying = paying;
      stored = cc;
    }

pub record IsLoaded (r : Runtime) (acc : Create) (args : CreateArgs) (s s1 : Ledger)
    (l : LoadedCreate) : Type 0 where
  pub config : s.configs acc.config ≡ some l.config
  pub signed : s.signed acc.creator ≡ true
  pub derived : acc.game ≡ (r.find_program_address (game_seeds acc.creator args.nonce) program_id).0
  pub bump : l.game_bump ≡ (r.find_program_address (game_seeds acc.creator args.nonce) program_id).1
  pub listing : load_optional (load_token_config s) acc.token_config ≡ ok l.token_config
  pub minted : load_optional (load_mint r s) acc.mint_account ≡ ok l.mint_account
  pub made : r.init acc.creator acc.game s ≡ ok s1

pub load_create-IsLoaded :
    (r : Runtime) (acc : Create) (args : CreateArgs) (s s1 : Ledger) (l : LoadedCreate)
    → load_create r acc args s ≡ ok (l, s1)
    → IsLoaded r acc args s s1 l
unfolding load_create
load_create-IsLoaded r acc args s s1 l h = ground arith
