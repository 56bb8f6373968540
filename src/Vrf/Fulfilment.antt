-- ===== src/Vrf/Fulfilment.antt =====
-- The two readings of a randomness account agree, and the winner is the player whose side came up.
use coinflip_program.Base.{◌≡◌, ◌⊎◌, ◌↔◌, true, Bytes, slice, arith}
use coinflip_program.Error.{ok}
use coinflip_program.State.{Pubkey, Game, heads, tails}
use coinflip_program.Runtime.{Ledger, Runtime}
use coinflip_program.Vrf.{fulfilled_randomness, is_request_fulfilled, winning_side, result_winner}

-- A request counts as fulfilled exactly when its randomness can be read, and that is the 64 bytes
-- behind the seed.
pub is_request_fulfilled_iff :
    (r : Runtime) (request vrf_program : Pubkey) (seed : Bytes) (s : Ledger)
    → (is_request_fulfilled r request vrf_program seed s ≡ ok true)
      ↔ (fulfilled_randomness r request vrf_program seed s ≡ ok (slice (s.bytes request) 73 137))
unfolding fulfilled_randomness is_request_fulfilled
is_request_fulfilled_iff r request vrf_program seed s = (λ h. ground arith, λ h. ground arith)

pub fulfilled_of_randomness :
    (r : Runtime) (request vrf_program : Pubkey) (seed : Bytes) (s : Ledger) (randomness : Bytes)
    → fulfilled_randomness r request vrf_program seed s ≡ ok randomness
    → is_request_fulfilled r request vrf_program seed s ≡ ok true
unfolding fulfilled_randomness is_request_fulfilled
fulfilled_of_randomness r request vrf_program seed s randomness h = ground arith

-- In a game whose sides are opposed, the winner is the creator or the joiner, according to whose
-- side came up, and one of the two sides always comes up.
pub result_winner_side :
    (r : Runtime) (g : Game) (randomness : Bytes)
    → ((g.creator_side ≡ heads) × (g.joiner_side ≡ tails))
      ⊎ ((g.creator_side ≡ tails) × (g.joiner_side ≡ heads))
    → ((winning_side r g randomness ≡ g.creator_side) × (result_winner r g randomness ≡ g.creator))
      ⊎ ((winning_side r g randomness ≡ g.joiner_side) × (result_winner r g randomness ≡ g.joiner))
unfolding result_winner winning_side
result_winner_side r g randomness h = ground arith
