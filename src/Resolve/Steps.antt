-- ===== src/Resolve/Steps.antt =====
-- The steps of a `resolve` that succeeded.
use coinflip_program.Base.{ℕ, ◌≡◌, ◌≢◌, Bytes, true, some, arith, if◌then◌else◌, ==_iff}
use coinflip_program.Error.{ok, >>=-eq-ok, require, require-eq-ok, not_ready, invalid_winner}
use coinflip_program.State.{Pubkey, is_native_sol, ready, status_eq, status_eq→eq}
use coinflip_program.Fees.{pot_fee}
use coinflip_program.Runtime.{Ledger, Runtime}
use coinflip_program.Accounts.{require_keys_eq}
use coinflip_program.Vrf.{fulfilled_randomness, vrf_seed, result_winner}
use coinflip_program.Resolve.{
  Resolve, LoadedResolve, load_resolve, settled_winner, resolve_sol, resolve_tokens, resolve,
}

pub record IsLoaded (acc : Resolve) (s : Ledger) (l : LoadedResolve) : Type 0 where
  pub config : s.configs acc.config ≡ some l.config
  pub game : s.games acc.game ≡ some l.game
  pub to_house : acc.fee_recipient ≡ l.config.authority
  pub apart : acc.game ≢ acc.winner
  pub signed : s.signed acc.settler ≡ true

pub load_resolve-IsLoaded :
    (r : Runtime) (acc : Resolve) (s : Ledger) (l : LoadedResolve)
    → load_resolve r acc s ≡ ok l
    → IsLoaded acc s l
unfolding load_resolve
load_resolve-IsLoaded r acc s l h = ground arith

-- The steps of a settlement that succeeded.
pub record IsSettled (r : Runtime) (acc : Resolve) (s s' : Ledger) : Type 0 where
  pub l : LoadedResolve
  pub winner : Pubkey
  pub fee : ℕ
  pub s1 : Ledger
  pub loading : load_resolve r acc s ≡ ok l
  pub judging : settled_winner r acc l s ≡ ok winner
  pub charging : pot_fee l.game.amount l.game.fee_bps ≡ ok fee
  pub paying :
      (if is_native_sol l.game.mint then resolve_sol r acc fee s else resolve_tokens r acc l fee s)
      ≡ ok s1
  pub closing : r.close acc.game acc.winner s1 ≡ ok s'

pub resolve-IsSettled :
    (r : Runtime) (acc : Resolve) (s s' : Ledger) → resolve r acc s ≡ ok s' → IsSettled r acc s s'
unfolding resolve
resolve-IsSettled r acc s s' h =
    let (l, loading, h1) = >>=-eq-ok (load_resolve r acc s) _ h in
    let (winner, judging, h2) = >>=-eq-ok (settled_winner r acc l s) _ h1 in
    let (fee, charging, h3) = >>=-eq-ok (pot_fee l.game.amount l.game.fee_bps) _ h2 in
    let (s1, paying, closing) =
      >>=-eq-ok
        (if is_native_sol l.game.mint
          then resolve_sol r acc fee s
          else resolve_tokens r acc l fee s)
        _ h3 in
    record {
      l = l;
      winner = winner;
      fee = fee;
      s1 = s1;
      loading = loading;
      judging = judging;
      charging = charging;
      paying = paying;
      closing = closing;
    }

-- What the tests of the handler leave: a ready game, and the winner that the randomness picks.
pub record IsJudged (r : Runtime) (acc : Resolve) (s : Ledger) (l : LoadedResolve) : Type 0 where
  pub is_ready : l.game.status ≡ ready
  pub randomness : Bytes
  pub fulfilled :
      fulfilled_randomness r acc.vrf_request l.config.vrf_program
        (vrf_seed r acc.game l.game.joiner l.game.joiner_entropy)
        s
      ≡ ok randomness
  pub picked : acc.winner ≡ result_winner r l.game randomness

pub settled_winner-IsJudged :
    (r : Runtime) (acc : Resolve) (s : Ledger) (l : LoadedResolve) (winner : Pubkey)
    → settled_winner r acc l s ≡ ok winner
    → IsJudged r acc s l
unfolding settled_winner
settled_winner-IsJudged r acc s l winner h =
    let (_, is_ready, h1) = >>=-eq-ok (require (status_eq l.game.status ready) not_ready) _ h in
    let (randomness, fulfilled, h2) =
      >>=-eq-ok
        (fulfilled_randomness r acc.vrf_request l.config.vrf_program
          (vrf_seed r acc.game l.game.joiner l.game.joiner_entropy) s)
        _ h1 in
    let (_, picked, _) =
      >>=-eq-ok (require_keys_eq acc.winner (result_winner r l.game randomness) invalid_winner) _
        h2 in
    record {
      is_ready = status_eq→eq _ _ (require-eq-ok _ not_ready is_ready);
      randomness = randomness;
      fulfilled = fulfilled;
      picked = (==_iff _ _).0 (require-eq-ok _ invalid_winner picked);
    }
