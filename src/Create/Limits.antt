-- ===== src/Create/Limits.antt =====
-- What a game that `create` opened satisfies.
use coinflip_program.Base.{
  refl, ◌∙◌, ℕ, ◌≡◌, ◌≢◌, ◌≤◌, ◌<◌, ◌⊎◌, true, false, some, arith, bytes_eq_refl,
}
use coinflip_program.Error.{ok}
use coinflip_program.State.{
  Pubkey, Config, Game, program_id, open_side, open_status, max_fee_bps, zero_entropy, default_key,
}
use coinflip_program.Runtime.{Ledger, Runtime}
use coinflip_program.Accounts.{game_seeds}
use coinflip_program.Create.{Create, CreateArgs, LoadedCreate, create_guards, new_game, create}
use coinflip_program.Create.Stakes.{IsWithin, IsListedStake, limits_of}
use coinflip_program.Create.Opening.{create-Created, load_create-IsLoaded}

pub record IsOpened (c : Config) (acc : Create) (args : CreateArgs) (g : Game) : Type 0 where
  pub not_paused : c.paused ≡ false
  pub is_open : g.status ≡ open_status
  pub by_creator : g.creator ≡ acc.creator
  pub no_joiner : g.joiner ≡ default_key
  pub stake : g.amount ≡ args.amount
  pub stake_positive : 0 < g.amount
  pub in_mint : g.mint ≡ args.mint
  pub fee_snapshot : g.fee_bps ≡ c.fee_bps
  pub fee_capped : g.fee_bps ≤ max_fee_bps
  pub side : g.creator_side ≡ args.side
  pub for_house : g.house_only ≡ args.house_only
  pub house_side : (g.house_only ≡ false) ⊎ (g.creator_side ≢ open_side)
  pub entropy : g.creator_entropy ≡ args.creator_entropy
  pub entropy_nonzero : g.creator_entropy ≢ zero_entropy
  pub not_announced : g.cancel_after_slot ≡ 0
  pub joiner_side_open : g.joiner_side ≡ open_side
  pub joiner_entropy_zero : g.joiner_entropy ≡ zero_entropy
  pub no_join_slot : g.join_slot ≡ 0
  pub nonce : g.nonce ≡ args.nonce

new_game-IsOpened :
    (acc : Create) (l : LoadedCreate) (args : CreateArgs) (decimals : ℕ)
    → create_guards l.config args ≡ ok tt
    → IsOpened l.config acc args (new_game acc.creator l args decimals)
unfolding create_guards new_game
new_game-IsOpened acc l args decimals h = record {
  not_paused = ground arith;
  is_open = ground arith;
  by_creator = ground arith;
  no_joiner = ground arith;
  stake = ground arith;
  stake_positive = ground arith;
  in_mint = ground arith;
  fee_snapshot = ground arith;
  fee_capped = ground arith;
  side = ground arith;
  for_house = ground arith;
  house_side = ground arith;
  entropy = ground arith;
  entropy_nonzero = λ e. ground (arith, bytes_eq_refl zero_entropy);
  not_announced = ground arith;
  joiner_side_open = refl;
  joiner_entropy_zero = refl;
  no_join_slot = refl;
  nonce = refl;
}

new_game_bump :
    (creator : Pubkey) (l : LoadedCreate) (args : CreateArgs) (decimals : ℕ)
    → (new_game creator l args decimals).bump ≡ l.game_bump
unfolding new_game
new_game_bump creator l args decimals = refl

-- `create` opens a game as it was asked for, and signed by its creator: open, without a joiner, with
-- the mint, the side, the entropy and the nonce that were given, a positive stake, and a fee of at
-- most 5% taken from the configuration. The entropy is not all zeros, and a game for the house only has
-- a side that is chosen. The game stands at the address that the creator and the nonce derive, with
-- the bump of that address. A stake in lamports is within the configuration's limits, and a stake in
-- tokens within those of the mint's settings, which are enabled. The decimals are 0 for lamports, and
-- otherwise those of the mint.
pub create_opens :
    (r : Runtime) (acc : Create) (args : CreateArgs) (s s' : Ledger)
    → create r acc args s ≡ ok s'
    → (c : Config) × (g : Game) × (s.configs acc.config ≡ some c)
      × (s'.games acc.game ≡ some g)
      × (s.signed acc.creator ≡ true)
      × (r.find_program_address (game_seeds acc.creator args.nonce) program_id ≡ (acc.game, g.bump))
      × IsOpened c acc args g
      × (((args.mint ≡ default_key)
            × (g.token_decimals ≡ 0)
            × IsWithin c.sol_min_amount c.sol_max_amount g)
          ⊎ ((args.mint ≢ default_key) × IsListedStake r s args g))
create_opens r acc args s s' e =
    let c = create-Created r acc args s s' e in
    let l = load_create-IsLoaded r acc args s c.s1 c.l c.loading in
    let game = new_game acc.creator c.l args c.decimals in
    let bump = new_game_bump acc.creator c.l args c.decimals ∙ l.bump in
    (
      c.l.config,
      game,
      l.config,
      rw c.stored (ground arith),
      l.signed,
      rw (l.derived, bump) refl,
      new_game-IsOpened acc c.l args c.decimals c.guarded,
      limits_of r acc args s c.s1 c.l l c.decimals c.listed,
    )
