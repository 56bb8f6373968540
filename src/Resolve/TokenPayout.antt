-- ===== src/Resolve/TokenPayout.antt =====
-- Where the money goes when a game of tokens is settled.
use coinflip_program.Base.{ℕ, ◌+◌, ◌*◌, ◌/◌, ◌≡◌, ◌≢◌, ◌≤◌}
use coinflip_program.State.{Pubkey, Game}
use coinflip_program.Runtime.{Ledger, Runtime}
use coinflip_program.Runtime.Laws.{balance}
use coinflip_program.Resolve.{Resolve}

-- The balances after a payout in tokens: the house's account gets the fee, the winner's the rest of
-- the vault, which held the pot, and no other token account changes.
pub record ArePaid (s s' : Ledger) (g : Game) (fee vault winner_token fee_token : ℕ) : Type 0 where
  pub floor_fee : fee ≡ g.amount * 2 * g.fee_bps / 10000
  pub pot_there : g.amount * 2 ≤ balance s vault
  pub house_paid : balance s' fee_token ≡ balance s fee_token + fee
  pub winner_paid : balance s' winner_token + fee ≡ balance s winner_token + balance s vault
  pub others_kept :
      (k : Pubkey) → k ≢ vault → k ≢ winner_token → k ≢ fee_token → balance s' k ≡ balance s k
