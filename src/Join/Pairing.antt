-- ===== src/Join/Pairing.antt =====
-- What `apply_join` accepts, and the game that it makes.
use coinflip_program.Base.{ℕ, ◌≡◌, ◌≢◌, ◌⊎◌, ◌↔◌, true, arith, bytes_eq_refl, bytes_eq→eq}
use coinflip_program.Error.{ok, err, coinflip, already_joined, is_ok}
use coinflip_program.State.{Pubkey, heads, tails, open_side, ready, open_status, Game, zero_entropy}
use coinflip_program.Join.{JoinArgs, apply_join}

apply_join_ready :
    (g : Game) (joiner : Pubkey) (args : JoinArgs) (slot : ℕ)
    → g.status ≡ ready
    → apply_join g joiner args slot ≡ err (coinflip already_joined)
unfolding apply_join
apply_join_ready g joiner args slot h = ground arith

-- The joined game, field by field.
pub record IsPaired (g g' : Game) (joiner : Pubkey) (args : JoinArgs) (slot : ℕ) : Type 0 where
  pub was_open : g.status ≡ open_status
  pub now_ready : g'.status ≡ ready
  pub stake_matched : args.amount ≡ g.amount
  pub opposed :
      ((g'.creator_side ≡ heads) × (g'.joiner_side ≡ tails))
      ⊎ ((g'.creator_side ≡ tails) × (g'.joiner_side ≡ heads))
  pub creator_choice : (g.creator_side ≡ open_side) ⊎ (g'.creator_side ≡ g.creator_side)
  pub joiner_choice : (args.joiner_side ≡ open_side) ⊎ (g'.joiner_side ≡ args.joiner_side)
  pub joiner_set : g'.joiner ≡ joiner
  pub entropy_set : g'.joiner_entropy ≡ args.joiner_entropy
  pub slot_set : g'.join_slot ≡ slot
  pub creator_kept : g'.creator ≡ g.creator
  pub amount_kept : g'.amount ≡ g.amount
  pub mint_kept : g'.mint ≡ g.mint
  pub decimals_kept : g'.token_decimals ≡ g.token_decimals
  pub fee_kept : g'.fee_bps ≡ g.fee_bps
  pub creator_entropy_kept : g'.creator_entropy ≡ g.creator_entropy
  pub nonce_kept : g'.nonce ≡ g.nonce
  pub bump_kept : g'.bump ≡ g.bump
  pub house_only_kept : g'.house_only ≡ g.house_only
  pub cancel_kept : g'.cancel_after_slot ≡ g.cancel_after_slot

module _ (g : Game) (joiner : Pubkey) (args : JoinArgs) (slot : ℕ) where
  pub apply_join-IsPaired :
      (g' : Game) → apply_join g joiner args slot ≡ ok g' → IsPaired g g' joiner args slot
  unfolding apply_join
  apply_join-IsPaired g' h = ground arith

  -- Joining succeeds exactly when the game is open, the stake is the game's, the entropy is not all
  -- zeros, and the side is not the creator's: it may be open only if the creator's is not.
  pub apply_join_iff : (is_ok (apply_join g joiner args slot) ≡ true) ↔ (
      (g.status ≡ open_status)
      × (args.amount ≡ g.amount)
      × (args.joiner_entropy ≢ zero_entropy)
      × (args.joiner_side ≢ g.creator_side))
  unfolding apply_join
  apply_join_iff = (
    λ h. ground (arith, bytes_eq_refl zero_entropy),
    λ h. ground (arith, bytes_eq→eq args.joiner_entropy zero_entropy),
  )

-- A joined game cannot be joined again, by anyone.
pub apply_join_once :
    (g g' : Game) (joiner other : Pubkey) (args again : JoinArgs) (slot later : ℕ)
    → apply_join g joiner args slot ≡ ok g'
    → apply_join g' other again later ≡ err (coinflip already_joined)
unfolding apply_join
apply_join_once g g' joiner other args again slot later h =
    apply_join_ready g' other again later (apply_join-IsPaired g joiner args slot g' h).now_ready
