-- ===== src/Join/Acceptance.antt =====
-- Which joins succeed, once the accounts are loaded.
use coinflip_program.Base.{◌≡◌, ◌≢◌, ◌⊎◌, ◌↔◌, true, false, refl, sym, ap, subst, ◌∙◌, arith, ℕ}
use coinflip_program.Error.{Result, ok, err, is_ok}
use coinflip_program.State.{Pubkey, Config, Game, open_status, zero_entropy}
use coinflip_program.Runtime.{Ledger, Runtime}
use coinflip_program.Accounts.{store_game}
use coinflip_program.Join.{
  Join, JoinArgs, LoadedJoin, VrfAccounts, load_join, join_guards, apply_join, join_deposit_tokens,
  join_deposit, request_join_vrf, join,
}
use coinflip_program.Join.Pairing.{apply_join_iff, apply_join-IsPaired}
use coinflip_program.Join.Steps.{IsAdmitted, join-Joined, load_join-IsLoaded}

-- What a join is tested for, in the handler and before it.
pub record Accepts (c : Config) (g : Game) (joiner : Pubkey) (args : JoinArgs) : Type 0 where
  pub not_paused : c.paused ≡ false
  pub house_game : (g.house_only ≡ false) ⊎ (joiner ≡ c.authority)
  pub not_creator : joiner ≢ g.creator
  pub is_open : g.status ≡ open_status
  pub stake_matched : args.amount ≡ g.amount
  pub entropy_nonzero : args.joiner_entropy ≢ zero_entropy
  pub side_free : args.joiner_side ≢ g.creator_side

-- The game as the oracle's request reads it.
abbrev pub asked : Game → Pubkey → JoinArgs → Game
asked g joiner args = record g { joiner = joiner; joiner_entropy = args.joiner_entropy }

value_of : {A : Type 0} (m : Result A) → is_ok m ≡ true → (a : A) × (m ≡ ok a)
value_of (ok a) h = (a, refl)
value_of (err e) h = cc

join_guards-ok :
    (c : Config) (g : Game) (joiner : Pubkey)
    → c.paused ≡ false
    → (g.house_only ≡ false) ⊎ (joiner ≡ c.authority)
    → join_guards c g joiner ≡ ok tt
join_guards-ok c g joiner h k = ground arith

-- The deposit reads the mint and the decimals, the request the joiner and the entropy.
same_deposit :
    (r : Runtime) (acc : Join) (l : LoadedJoin) (g g' : Game) (amount : ℕ) (s : Ledger)
    → g'.mint ≡ g.mint
    → g'.token_decimals ≡ g.token_decimals
    → join_deposit r acc l g' amount s ≡ join_deposit r acc l g amount s
unfolding join_deposit join_deposit_tokens
same_deposit r acc l g g' amount s a b = rw (a, b) refl

same_request :
    (r : Runtime) (vrf : VrfAccounts) (payer key : Pubkey) (c : Config) (g g' : Game) (s : Ledger)
    → g'.joiner ≡ g.joiner
    → g'.joiner_entropy ≡ g.joiner_entropy
    → request_join_vrf r vrf payer key c g' s ≡ request_join_vrf r vrf payer key c g s
unfolding request_join_vrf
same_request r vrf payer key c g g' s a b = rw (a, b) refl

-- The deposit and the request go through.
pub record GoesThrough (r : Runtime) (acc : Join) (args : JoinArgs) (s : Ledger) (l : LoadedJoin)
    : Type 0 where
  pub s1 : Ledger
  pub s2 : Ledger
  pub paying : join_deposit r acc l l.game args.amount s ≡ ok s1
  pub asking :
      request_join_vrf r acc.vrf acc.joiner acc.game l.config (asked l.game acc.joiner args) s1
      ≡ ok s2

same_load : {a b : LoadedJoin} → ok a ≡ ok b → a ≡ b
same_load h = cc

joined_facts :
    (r : Runtime) (acc : Join) (args : JoinArgs) (s : Ledger) (l l' : LoadedJoin) (g' : Game)
    (s1 s2 : Ledger)
    → l ≡ l'
    → load_join r acc s ≡ ok l
    → IsAdmitted l.config l.game acc.joiner
    → apply_join l.game acc.joiner args s.slot ≡ ok g'
    → join_deposit r acc l g' args.amount s ≡ ok s1
    → request_join_vrf r acc.vrf acc.joiner acc.game l.config g' s1 ≡ ok s2
    → Accepts l'.config l'.game acc.joiner args × GoesThrough r acc args s l'
joined_facts r acc args s l l' g' s1 s2 same loading admitted made paying asking =
    let p = apply_join-IsPaired l.game acc.joiner args s.slot g' made in
    let (is_open, stake, entropy, side) =
      (apply_join_iff l.game acc.joiner args s.slot).0 (ap is_ok made) in
    subst (λ x. Accepts x.config x.game acc.joiner args × GoesThrough r acc args s x) same
      (
        record {
          not_paused = admitted.not_paused;
          house_game = admitted.house_game;
          not_creator = (load_join-IsLoaded r acc s l loading).not_creator;
          is_open = is_open;
          stake_matched = stake;
          entropy_nonzero = entropy;
          side_free = side;
        },
        record {
          s1 = s1;
          s2 = s2;
          paying =
              sym (same_deposit r acc l l.game g' args.amount s p.mint_kept p.decimals_kept)
              ∙ paying;
          asking =
              sym (
                same_request r acc.vrf acc.joiner acc.game l.config (asked l.game acc.joiner args)
                  g' s1 p.joiner_set p.entropy_set)
              ∙ asking;
        },
      )

module _ (r : Runtime) (acc : Join) (args : JoinArgs) (s : Ledger) (l : LoadedJoin)
    (loading : load_join r acc s ≡ ok l) where
  joined-Accepts :
      (s' : Ledger)
      → join r acc args s ≡ ok s'
      → Accepts l.config l.game acc.joiner args × GoesThrough r acc args s l
  joined-Accepts s' h =
      let j = join-Joined r acc args s s' h in
      let same : j.l ≡ l = same_load (sym j.loading ∙ loading) in
      joined_facts r acc args s j.l l j.game j.s1 j.s2 same j.loading j.admitted j.pairing j.paying
        j.asking

  Accepts-joined :
      Accepts l.config l.game acc.joiner args
      → GoesThrough r acc args s l
      → (s' : Ledger) × (join r acc args s ≡ ok s')
  unfolding join
  Accepts-joined a t =
      let accepted =
        (apply_join_iff l.game acc.joiner args s.slot).1
          (a.is_open, a.stake_matched, a.entropy_nonzero, a.side_free) in
      let (g', made) = value_of (apply_join l.game acc.joiner args s.slot) accepted in
      let p = apply_join-IsPaired l.game acc.joiner args s.slot g' made in
      let paying =
        same_deposit r acc l l.game g' args.amount s p.mint_kept p.decimals_kept ∙ t.paying in
      let asking =
        same_request r acc.vrf acc.joiner acc.game l.config (asked l.game acc.joiner args) g' t.s1
          p.joiner_set p.entropy_set
        ∙ t.asking in
      (
        store_game acc.game g' t.s2,
        rw
            (
              loading,
              join_guards-ok l.config l.game acc.joiner a.not_paused a.house_game,
              made,
              paying,
              asking,
            )
            refl,
      )

  -- Once its accounts load, a join succeeds exactly when the program is not paused, the joiner is the
  -- house if the game is for the house only and is not the creator, the game is open, the stake is the
  -- game's, the entropy is not all zeros, the side is not the creator's, and the deposit of the stake
  -- and the request to the oracle for the game's new player go through.
  pub join_iff :
      ((s' : Ledger) × (join r acc args s ≡ ok s'))
      ↔ (Accepts l.config l.game acc.joiner args × GoesThrough r acc args s l)
  join_iff = (λ h. joined-Accepts h.0 h.1, λ h. Accepts-joined h.0 h.1)
