-- ===== src/Lifecycle.antt =====
-- The life of a game as an abstract machine, over src/instructions: the games by their keys, and the
-- moves that the program may make on them.
pub mod Stores
pub mod Moves
pub mod Phases
pub mod Settings
pub mod Verdicts
use coinflip_program.Base.{ℕ, ◌≡◌, ◌≢◌, ◌≤◌, ◌<◌, ◌⊎◌, Option, none, some, update}
use coinflip_program.State.{
  Pubkey, Game, heads, tails, open_side, open_status, ready, max_fee_bps, default_key, zero_entropy,
}
use coinflip_program.Join.{JoinArgs}
use coinflip_program.Join.Pairing.{IsPaired}

abbrev pub Games : Type 0
Games = Pubkey → Option Game

-- A game that waits for its second player.
pub record IsFresh (g : Game) : Type 0 where
  pub is_open : g.status ≡ open_status
  pub no_joiner : g.joiner ≡ default_key
  pub stake_positive : 0 < g.amount
  pub fee_capped : g.fee_bps ≤ max_fee_bps
  pub entropy_nonzero : g.creator_entropy ≢ zero_entropy
  pub not_announced : g.cancel_after_slot ≡ 0

-- What one call, or one step of other programs, may do to the games: leave them, open one where
-- there is none, let a second player join an open one, announce the cancellation of an open one,
-- settle or refund a ready one, cancel an open one.
pub data Move (games games' : Games) : Type 0 where
  kept : games' ≡ games → Move games games'
  opened :
      (k : Pubkey) (g : Game)
      → games k ≡ none
      → IsFresh g
      → games' ≡ update games k (some g)
      → Move games games'
  joined :
      (k : Pubkey) (g g' : Game) (joiner : Pubkey) (args : JoinArgs) (slot : ℕ)
      → games k ≡ some g
      → joiner ≢ g.creator
      → IsPaired g g' joiner args slot
      → games' ≡ update games k (some g')
      → Move games games'
  announced :
      (k : Pubkey) (g : Game) (slot : ℕ)
      → games k ≡ some g
      → g.status ≡ open_status
      → games' ≡ update games k (some (record g { cancel_after_slot = slot }))
      → Move games games'
  settled :
      (k : Pubkey) (g : Game)
      → games k ≡ some g
      → g.status ≡ ready
      → games' ≡ update games k none
      → Move games games'
  cancelled :
      (k : Pubkey) (g : Game)
      → games k ≡ some g
      → g.status ≡ open_status
      → games' ≡ update games k none
      → Move games games'

-- The sides of a game that has two players.
abbrev pub AreOpposed : Game → Type 0
AreOpposed g =
    ((g.creator_side ≡ heads) × (g.joiner_side ≡ tails))
    ⊎ ((g.creator_side ≡ tails) × (g.joiner_side ≡ heads))

pub data Phase (g : Game) : Type 0 where
  waiting : g.status ≡ open_status → g.joiner ≡ default_key → Phase g
  playing : g.status ≡ ready → AreOpposed g → g.joiner ≢ g.creator → Phase g

pub record IsWellFormed (g : Game) : Type 0 where
  pub stake_positive : 0 < g.amount
  pub fee_capped : g.fee_bps ≤ max_fee_bps
  pub entropy_nonzero : g.creator_entropy ≢ zero_entropy
  pub phase : Phase g

pub record AreWellFormed (games : Games) : Type 0 where
  pub each : (k : Pubkey) (g : Game) → games k ≡ some g → IsWellFormed g
