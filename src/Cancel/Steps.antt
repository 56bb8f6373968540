-- ===== src/Cancel/Steps.antt =====
-- The steps of an `initiate` and of a `cancel` that succeeded.
use coinflip_program.Base.{◌+◌, ◌≡◌, ◌≢◌, true, some, arith, if◌then◌else◌}
use coinflip_program.Error.{ok, >>=-eq-ok, loaded-eq-ok}
use coinflip_program.State.{Game, Config, open_status, is_native_sol, authority_cancel_delay_slots}
use coinflip_program.Runtime.{Ledger, Runtime}
use coinflip_program.Accounts.{store_game, load_config, load_game}
use coinflip_program.Cancel.{
  Cancel, InitiateCancel, LoadedCancel, load_cancel, cancel_guards, cancel_tokens, cancel, initiate,
}

pub record IsLoaded (acc : Cancel) (s : Ledger) (l : LoadedCancel) : Type 0 where
  pub config : s.configs acc.config ≡ some l.config
  pub game : s.games acc.game ≡ some l.game
  pub signed : s.signed acc.signer ≡ true
  pub to_creator : acc.creator ≡ l.game.creator
  pub apart : acc.game ≢ acc.creator

pub load_cancel-IsLoaded :
    (r : Runtime) (acc : Cancel) (s : Ledger) (l : LoadedCancel)
    → load_cancel r acc s ≡ ok l
    → IsLoaded acc s l
unfolding load_cancel
load_cancel-IsLoaded r acc s l h = ground arith

pub record Cancelled (r : Runtime) (acc : Cancel) (s s' : Ledger) : Type 0 where
  pub l : LoadedCancel
  pub s1 : Ledger
  pub loading : load_cancel r acc s ≡ ok l
  pub guarded : cancel_guards l.config l.game acc.signer s.slot ≡ ok tt
  pub paying : (if is_native_sol l.game.mint then ok s else cancel_tokens r acc l s) ≡ ok s1
  pub closing : r.close acc.game acc.creator s1 ≡ ok s'

pub cancel-Cancelled :
    (r : Runtime) (acc : Cancel) (s s' : Ledger) → cancel r acc s ≡ ok s' → Cancelled r acc s s'
unfolding cancel
cancel-Cancelled r acc s s' h =
    let (l, loading, h1) = >>=-eq-ok (load_cancel r acc s) _ h in
    let (u, guarded, h2) = >>=-eq-ok (cancel_guards l.config l.game acc.signer s.slot) _ h1 in
    let (s1, paying, closing) =
      >>=-eq-ok (if is_native_sol l.game.mint then ok s else cancel_tokens r acc l s) _ h2 in
    record {
      l = l;
      s1 = s1;
      loading = loading;
      guarded = guarded;
      paying = paying;
      closing = closing;
    }

-- An announcement, by the house alone, on an open game.
pub record Initiated (acc : InitiateCancel) (s s' : Ledger) (c : Config) (g : Game) : Type 0 where
  pub config : s.configs acc.config ≡ some c
  pub game : s.games acc.game ≡ some g
  pub by_house : acc.authority ≡ c.authority
  pub signed : s.signed acc.authority ≡ true
  pub is_open : g.status ≡ open_status
  pub stored :
      s'
      ≡ store_game acc.game
          (record g { cancel_after_slot = s.slot + authority_cancel_delay_slots })
          s

pub initiate-Initiated :
    (r : Runtime) (acc : InitiateCancel) (s s' : Ledger) (c : Config) (g : Game)
    → s.configs acc.config ≡ some c
    → s.games acc.game ≡ some g
    → initiate r acc s ≡ ok s'
    → Initiated acc s s' c g
unfolding initiate
initiate-Initiated r acc s s' c g a b h = ground arith

-- An announcement that went through had a configuration and a game.
pub initiate_found :
    (r : Runtime) (acc : InitiateCancel) (s s' : Ledger)
    → initiate r acc s ≡ ok s'
    → (c : Config) × (g : Game) × (s.configs acc.config ≡ some c) × (s.games acc.game ≡ some g)
unfolding initiate
initiate_found r acc s s' h =
    let (c, a, h1) = >>=-eq-ok (load_config acc.config s) _ h in
    let (g, b, h2) = >>=-eq-ok (load_game acc.game s) _ h1 in
    (c, g, loaded-eq-ok _ a, loaded-eq-ok _ b)
