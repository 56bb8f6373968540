-- ===== src/Join/Steps.antt =====
-- The steps of a `join` that succeeded, and who was let in.
use coinflip_program.Base.{◌⊎◌, ◌≡◌, ◌≢◌, true, false, some, arith}
use coinflip_program.Error.{ok, >>=-eq-ok}
use coinflip_program.State.{Pubkey, Config, Game}
use coinflip_program.Runtime.{Ledger, Runtime}
use coinflip_program.Accounts.{store_game}
use coinflip_program.Join.{
  Join, JoinArgs, LoadedJoin, load_join, join_guards, apply_join, join_deposit, request_join_vrf,
  join,
}

-- Whom the tests before `apply_join` let in.
pub record IsAdmitted (config : Config) (game : Game) (joiner : Pubkey) : Type 0 where
  pub not_paused : config.paused ≡ false
  pub house_game : (game.house_only ≡ false) ⊎ (joiner ≡ config.authority)

pub join_guards-IsAdmitted :
    (config : Config) (game : Game) (joiner : Pubkey) {u : Unit {0}}
    → join_guards config game joiner ≡ ok u
    → IsAdmitted config game joiner
join_guards-IsAdmitted config game joiner h = ground arith

pub record IsLoaded (acc : Join) (s : Ledger) (l : LoadedJoin) : Type 0 where
  pub config : s.configs acc.config ≡ some l.config
  pub game : s.games acc.game ≡ some l.game
  pub signed : s.signed acc.joiner ≡ true
  pub not_creator : acc.joiner ≢ l.game.creator

pub load_join-IsLoaded :
    (r : Runtime) (acc : Join) (s : Ledger) (l : LoadedJoin)
    → load_join r acc s ≡ ok l
    → IsLoaded acc s l
unfolding load_join
load_join-IsLoaded r acc s l h = ground arith

pub record Joined (r : Runtime) (acc : Join) (args : JoinArgs) (s s' : Ledger) : Type 0 where
  pub l : LoadedJoin
  pub game : Game
  pub s1 : Ledger
  pub s2 : Ledger
  pub loading : load_join r acc s ≡ ok l
  pub admitted : IsAdmitted l.config l.game acc.joiner
  pub pairing : apply_join l.game acc.joiner args s.slot ≡ ok game
  pub paying : join_deposit r acc l game args.amount s ≡ ok s1
  pub asking : request_join_vrf r acc.vrf acc.joiner acc.game l.config game s1 ≡ ok s2
  pub stored : s' ≡ store_game acc.game game s2

pub join-Joined :
    (r : Runtime) (acc : Join) (args : JoinArgs) (s s' : Ledger)
    → join r acc args s ≡ ok s'
    → Joined r acc args s s'
unfolding join
join-Joined r acc args s s' h =
    let (l, loading, h1) = >>=-eq-ok (load_join r acc s) _ h in
    let (_, guarded, h2) = >>=-eq-ok (join_guards l.config l.game acc.joiner) _ h1 in
    let (game, pairing, h3) = >>=-eq-ok (apply_join l.game acc.joiner args s.slot) _ h2 in
    let (s1, paying, h4) = >>=-eq-ok (join_deposit r acc l game args.amount s) _ h3 in
    let (s2, asking, h5) =
      >>=-eq-ok (request_join_vrf r acc.vrf acc.joiner acc.game l.config game s1) _ h4 in
    record {
      l = l;
      game = game;
      s1 = s1;
      s2 = s2;
      loading = loading;
      admitted = join_guards-IsAdmitted l.config l.game acc.joiner guarded;
      pairing = pairing;
      paying = paying;
      asking = asking;
      stored = cc;
    }
