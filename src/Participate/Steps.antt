-- ===== src/Participate/Steps.antt =====
-- The steps of a `participate` that succeeded, and who was let in.
use coinflip_program.Base.{◌≡◌, ◌≢◌, ◌==◌, subst, true, not, some, arith}
use coinflip_program.Error.{ok, require, cannot_join_own_game, >>=-eq-ok}
use coinflip_program.State.{Game}
use coinflip_program.Runtime.{Ledger, Runtime}
use coinflip_program.Accounts.{
  store_game, load_config, load_game, load_optional, load_token_config, load_mint, load_token,
  require_signer, check_token_program, check_config_seeds, check_game_seeds,
}
use coinflip_program.Join.{apply_join, join_guards, request_join_vrf}
use coinflip_program.Join.Steps.{IsAdmitted, join_guards-IsAdmitted}
use coinflip_program.Participate.{
  Participate, ParticipateArgs, LoadedParticipate, load_participate, pay_stake, participate_deposit,
  participate,
}

pub record IsLoaded (acc : Participate) (s : Ledger) (l : LoadedParticipate) : Type 0 where
  pub config : s.configs acc.config ≡ some l.config
  pub game : s.games acc.game ≡ some l.game
  pub signed : s.signed acc.joiner ≡ true
  pub not_creator : acc.joiner ≢ l.game.creator

IsLoaded-facts :
    (acc : Participate) (s : Ledger) (made l : LoadedParticipate) {u v : Unit {0}}
    → load_config acc.config s ≡ ok made.config
    → load_game acc.game s ≡ ok made.game
    → require_signer acc.joiner s ≡ ok u
    → require (not (acc.joiner == made.game.creator)) cannot_join_own_game ≡ ok v
    → ok made ≡ ok l
    → IsLoaded acc s l
IsLoaded-facts acc s made l a b c d e =
    let same : made ≡ l = cc in
    subst (IsLoaded acc s) same (record {
      config = ground (arith, a);
      game = ground (arith, b);
      signed = ground (arith, c);
      not_creator = ground (arith, d);
    })

pub load_participate-IsLoaded :
    (r : Runtime) (acc : Participate) (s : Ledger) (l : LoadedParticipate)
    → load_participate r acc s ≡ ok l
    → IsLoaded acc s l
unfolding load_participate
load_participate-IsLoaded r acc s l h =
    let (config, at_config, h1) = >>=-eq-ok (load_config acc.config s) _ h in
    let (game, at_game, h2) = >>=-eq-ok (load_game acc.game s) _ h1 in
    let (_, _, h3) = >>=-eq-ok (load_optional (load_token_config s) acc.game_token_config) _ h2 in
    let (_, _, h4) = >>=-eq-ok (load_optional (load_mint r s) acc.mint_account) _ h3 in
    let (_, _, h5) = >>=-eq-ok (load_optional (load_token r s) acc.joiner_token) _ h4 in
    let (_, _, h6) = >>=-eq-ok (load_optional (load_token r s) acc.joiner_pay_token) _ h5 in
    let (_, _, h7) = >>=-eq-ok (load_optional (load_token r s) acc.vault) _ h6 in
    let (_, _, h8) = >>=-eq-ok (load_optional (load_token r s) acc.wsol_account) _ h7 in
    let (_, _, h9) = >>=-eq-ok (check_token_program r acc.token_program) _ h8 in
    let (_, signed, h10) = >>=-eq-ok (require_signer acc.joiner s) _ h9 in
    let (_, _, h11) = >>=-eq-ok (check_config_seeds r acc.config config) _ h10 in
    let (_, _, h12) = >>=-eq-ok (check_game_seeds r acc.game game) _ h11 in
    let (_, apart, h13) =
      >>=-eq-ok (require (not (acc.joiner == game.creator)) cannot_join_own_game) _ h12 in
    IsLoaded-facts acc s _ l at_config at_game signed apart h13

pub record Participated (r : Runtime) (acc : Participate) (args : ParticipateArgs) (s s' : Ledger)
    : Type 0 where
  pub l : LoadedParticipate
  pub game : Game
  pub s1 : Ledger
  pub s2 : Ledger
  pub s3 : Ledger
  pub loading : load_participate r acc s ≡ ok l
  pub admitted : IsAdmitted l.config l.game acc.joiner
  pub swapping : pay_stake r acc l args s ≡ ok s1
  pub pairing : apply_join l.game acc.joiner args.joining s.slot ≡ ok game
  pub paying : participate_deposit r acc l game args.joining.amount s1 ≡ ok s2
  pub asking : request_join_vrf r acc.vrf acc.joiner acc.game l.config game s2 ≡ ok s3
  pub stored : s' ≡ store_game acc.game game s3

pub participate-Participated :
    (r : Runtime) (acc : Participate) (args : ParticipateArgs) (s s' : Ledger)
    → participate r acc args s ≡ ok s'
    → Participated r acc args s s'
unfolding participate
participate-Participated r acc args s s' h =
    let (l, loading, h1) = >>=-eq-ok (load_participate r acc s) _ h in
    let (_, guarded, h2) = >>=-eq-ok (join_guards l.config l.game acc.joiner) _ h1 in
    let (s1, swapping, h3) = >>=-eq-ok (pay_stake r acc l args s) _ h2 in
    let (game, pairing, h4) = >>=-eq-ok (apply_join l.game acc.joiner args.joining s.slot) _ h3 in
    let (s2, paying, h5) =
      >>=-eq-ok (participate_deposit r acc l game args.joining.amount s1) _ h4 in
    let (s3, asking, h6) =
      >>=-eq-ok (request_join_vrf r acc.vrf acc.joiner acc.game l.config game s2) _ h5 in
    record {
      l = l;
      game = game;
      s1 = s1;
      s2 = s2;
      s3 = s3;
      loading = loading;
      admitted = join_guards-IsAdmitted l.config l.game acc.joiner guarded;
      swapping = swapping;
      pairing = pairing;
      paying = paying;
      asking = asking;
      stored = cc;
    }
