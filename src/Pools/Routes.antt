-- ===== src/Pools/Routes.antt =====
-- The routes that the pool choices yield: both ways of a trade, and the two instructions that swap.
use coinflip_program.Base.{◌≡◌, true, false, some, none, arith}
use coinflip_program.Error.{Result, ok}
use coinflip_program.State.{Pubkey, Config, TokenConfig}
use coinflip_program.Pools.{Route, trade_pools}

-- The way back along a route.
abbrev pub reversed : Route → Route
reversed (first, none) = (first, none)
reversed (first, some second) = (second, some first)

abbrev pub map_route : (Route → Route) → Result Route → Result Route
map_route f (ok route) = ok (f route)
map_route f (Result.err e) = Result.err e

-- A sale takes the purchase's route backwards, and is refused for the same reasons.
pub trade_pools-reversed :
    (config : Config) (t : TokenConfig) (counter : Pubkey)
    → trade_pools config t counter false ≡ map_route reversed (trade_pools config t counter true)
unfolding trade_pools
trade_pools-reversed config t counter = ground arith
