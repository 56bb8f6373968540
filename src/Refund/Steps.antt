-- ===== src/Refund/Steps.antt =====
-- The steps of a `refund_expired` that succeeded.
use coinflip_program.Base.{◌≡◌, ◌≢◌, some, if◌then◌else◌, ◌==◌, subst, arith}
use coinflip_program.Error.{ok, check, invalid_vrf_accounts, unauthorized, address, >>=-eq-ok}
use coinflip_program.State.{is_native_sol}
use coinflip_program.Runtime.{Ledger, Runtime}
use coinflip_program.Accounts.{
  pay_lamports, load_config, load_game, load_optional, load_mint, load_token, check_token_program,
  check_config_seeds, check_game_seeds, check_close, require_keys_eq, constrain_token,
}
use coinflip_program.Vrf.{randomness_address, vrf_seed}
use coinflip_program.Refund.{
  RefundExpired, LoadedRefund, load_refund, refund_guards, refund_tokens, refund_expired,
}

pub record IsLoaded (acc : RefundExpired) (s : Ledger) (l : LoadedRefund) : Type 0 where
  pub config : s.configs acc.config ≡ some l.config
  pub game : s.games acc.game ≡ some l.game
  pub to_creator : acc.creator ≡ l.game.creator
  pub to_joiner : acc.joiner ≡ l.game.joiner
  pub apart : acc.game ≢ acc.creator

IsLoaded-facts :
    (acc : RefundExpired) (s : Ledger) (made l : LoadedRefund) {u v w : Unit {0}}
    → load_config acc.config s ≡ ok made.config
    → load_game acc.game s ≡ ok made.game
    → require_keys_eq acc.creator made.game.creator unauthorized ≡ ok u
    → check_close acc.game acc.creator ≡ ok v
    → require_keys_eq acc.joiner made.game.joiner unauthorized ≡ ok w
    → ok made ≡ ok l
    → IsLoaded acc s l
IsLoaded-facts acc s made l a b c d e f =
    let same : made ≡ l = cc in
    subst (IsLoaded acc s) same (record {
      config = ground (arith, a);
      game = ground (arith, b);
      to_creator = ground (arith, c);
      to_joiner = ground (arith, e);
      apart = ground (arith, d);
    })

pub load_refund-IsLoaded :
    (r : Runtime) (acc : RefundExpired) (s : Ledger) (l : LoadedRefund)
    → load_refund r acc s ≡ ok l
    → IsLoaded acc s l
unfolding load_refund
load_refund-IsLoaded r acc s l h =
    let (config, at_config, h1) = >>=-eq-ok (load_config acc.config s) _ h in
    let (game, at_game, h2) = >>=-eq-ok (load_game acc.game s) _ h1 in
    let (_, _, h3) = >>=-eq-ok (load_optional (load_mint r s) acc.mint_account) _ h2 in
    let (vault, _, h4) = >>=-eq-ok (load_optional (load_token r s) acc.vault) _ h3 in
    let (to_creator, _, h5) = >>=-eq-ok (load_optional (load_token r s) acc.creator_token) _ h4 in
    let (to_joiner, _, h6) = >>=-eq-ok (load_optional (load_token r s) acc.joiner_token) _ h5 in
    let (_, _, h7) = >>=-eq-ok (check_token_program r acc.token_program) _ h6 in
    let (_, _, h8) = >>=-eq-ok (check_config_seeds r acc.config config) _ h7 in
    let (_, _, h9) = >>=-eq-ok (check_game_seeds r acc.game game) _ h8 in
    let (_, c, h10) = >>=-eq-ok (require_keys_eq acc.creator game.creator unauthorized) _ h9 in
    let (_, d, h11) = >>=-eq-ok (check_close acc.game acc.creator) _ h10 in
    let (_, _, h12) = >>=-eq-ok (constrain_token vault game.mint acc.game) _ h11 in
    let (_, _, h13) = >>=-eq-ok (constrain_token to_creator game.mint acc.creator) _ h12 in
    let (_, _, h14) = >>=-eq-ok (constrain_token to_joiner game.mint acc.joiner) _ h13 in
    let (_, e, h15) = >>=-eq-ok (require_keys_eq acc.joiner game.joiner unauthorized) _ h14 in
    let (_, _, h16) = >>=-eq-ok (check (acc.slot_hashes == r.slot_hashes_id) address) _ h15 in
    let (_, _, made) =
      >>=-eq-ok
        (require_keys_eq acc.vrf_request
          (randomness_address r config.vrf_program
            (vrf_seed r acc.game game.joiner game.joiner_entropy))
          invalid_vrf_accounts)
        _ h16 in
    IsLoaded-facts acc s _ l at_config at_game c d e made

pub record Refunded (r : Runtime) (acc : RefundExpired) (s s' : Ledger) : Type 0 where
  pub l : LoadedRefund
  pub s1 : Ledger
  pub loading : load_refund r acc s ≡ ok l
  pub guarded : refund_guards r acc l s ≡ ok tt
  pub paying :
      (if is_native_sol l.game.mint
        then pay_lamports acc.game acc.joiner l.game.amount s
        else refund_tokens r acc l s)
      ≡ ok s1
  pub closing : r.close acc.game acc.creator s1 ≡ ok s'

pub refund_expired-Refunded :
    (r : Runtime) (acc : RefundExpired) (s s' : Ledger)
    → refund_expired r acc s ≡ ok s'
    → Refunded r acc s s'
unfolding refund_expired
refund_expired-Refunded r acc s s' h =
    let (l, loading, h1) = >>=-eq-ok (load_refund r acc s) _ h in
    let (u, guarded, h2) = >>=-eq-ok (refund_guards r acc l s) _ h1 in
    let (s1, paying, closing) =
      >>=-eq-ok
        (if is_native_sol l.game.mint
          then pay_lamports acc.game acc.joiner l.game.amount s
          else refund_tokens r acc l s)
        _ h2 in
    record {
      l = l;
      s1 = s1;
      loading = loading;
      guarded = guarded;
      paying = paying;
      closing = closing;
    }
