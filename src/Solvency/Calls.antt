-- ===== src/Solvency/Calls.antt =====
-- The parts of the instructions that move money by calling other programs, each shown to respect
-- what the program owns.
use coinflip_program.Base.{ℕ, Bool, Bytes, List, Option, none, some}
use coinflip_program.State.{Pubkey, Config, Game}
use coinflip_program.Runtime.{Ledger, Runtime, Mint, TokenAccount}
use coinflip_program.Runtime.Laws.{OwnershipLaw}
use coinflip_program.Accounts.{Account}
use coinflip_program.TokenUtils.{
  create_ata_if_needed, transfer_tokens_from_game, close_vault_from_game,
}
use coinflip_program.Swap.{invoke_swap_v2}
use coinflip_program.Vrf.{request_randomness}
use coinflip_program.Pools.{Route}
use coinflip_program.Create.{
  Create, LoadedCreate, CreateArgs, create_deposit_tokens, create_deposit,
}
use coinflip_program.Participate.{
  Participate, LoadedParticipate, ParticipateArgs, wrap_sol, unwrap_wsol_to_joiner, swap_route,
  run_swaps, pay_stake, participate_deposit,
}
use coinflip_program.Join.{
  Join, LoadedJoin, join_deposit, VrfAccounts, join_deposit_tokens, request_join_vrf,
}
use coinflip_program.Solvency.Safe.{Safe, safe_rules}

module _ (r : Runtime) (law : OwnershipLaw r) where
  pub Safe-create_ata_if_needed :
      (payer vault authority mint program ata : Pubkey) (s : Ledger)
      → Safe s (create_ata_if_needed r payer vault authority mint program ata s)
  unfolding create_ata_if_needed
  Safe-create_ata_if_needed payer vault authority mint program ata s = search safe_rules

  pub Safe-transfer_tokens_from_game :
      (program from mint to game creator : Pubkey) (nonce bump amount decimals : ℕ) (s : Ledger)
      → Safe s (
          transfer_tokens_from_game r program from mint to game creator nonce bump amount decimals
            s)
  unfolding transfer_tokens_from_game
  Safe-transfer_tokens_from_game program from mint to game creator nonce bump amount decimals s =
      search safe_rules

  pub Safe-join_deposit_tokens :
      (game_key joiner : Pubkey) (mint : Option (Account Mint))
      (from to : Option (Account TokenAccount)) (program : Option Pubkey) (game : Game) (amount : ℕ)
      (s : Ledger)
      → Safe s (join_deposit_tokens r game_key joiner mint from to program game amount s)
  unfolding join_deposit_tokens
  Safe-join_deposit_tokens game_key joiner mint from to program game amount s =
      search safe_rules depth 10

  pub Safe-request_randomness :
      (vrf_program payer network treasury request system expected : Pubkey) (seed : Bytes)
      (s : Ledger)
      → Safe s
          (request_randomness r vrf_program payer network treasury request system expected seed s)
  unfolding request_randomness
  Safe-request_randomness vrf_program payer network treasury request system expected seed s =
      search safe_rules depth 12

  pub Safe-request_join_vrf :
      (vrf : VrfAccounts) (payer game_key : Pubkey) (config : Config) (game : Game) (s : Ledger)
      → Safe s (request_join_vrf r vrf payer game_key config game s)
  unfolding request_join_vrf
  Safe-request_join_vrf vrf payer game_key config game s =
      search (safe_rules, Safe-request_randomness)

  pub Safe-invoke_swap_v2 :
      (clmm owner : Pubkey) (hop : List Pubkey) (pool : Pubkey) (amount threshold : ℕ) (base : Bool)
      (s : Ledger)
      → Safe s (invoke_swap_v2 r clmm owner hop pool amount threshold base s)
  unfolding invoke_swap_v2
  Safe-invoke_swap_v2 clmm owner hop pool amount threshold base s = search safe_rules depth 12

  pub Safe-swap_route :
      (clmm owner : Pubkey) (route : Route) (remaining : List Pubkey)
      (amount_out max_pay quote_out hop1_len : ℕ) (s : Ledger)
      → Safe s (swap_route r clmm owner route remaining amount_out max_pay quote_out hop1_len s)
  unfolding swap_route
  Safe-swap_route clmm owner (first, some second) remaining amount_out max_pay quote_out hop1_len
        s =
      search (safe_rules, Safe-invoke_swap_v2) depth 12
  Safe-swap_route clmm owner (first, none) remaining amount_out max_pay quote_out hop1_len s =
      search (safe_rules, Safe-invoke_swap_v2) depth 12

  pub Safe-wrap_sol :
      (acc : Participate) (l : LoadedParticipate) (n : ℕ) (s : Ledger)
      → Safe s (wrap_sol r acc l n s)
  unfolding wrap_sol
  Safe-wrap_sol acc l n s = search safe_rules depth 12

  pub Safe-unwrap_wsol_to_joiner :
      (acc : Participate) (l : LoadedParticipate) (s : Ledger)
      → Safe s (unwrap_wsol_to_joiner r acc l s)
  unfolding unwrap_wsol_to_joiner
  Safe-unwrap_wsol_to_joiner acc l s = search safe_rules depth 12

  pub Safe-run_swaps :
      (acc : Participate) (l : LoadedParticipate) (args : ParticipateArgs) (s : Ledger)
      → Safe s (run_swaps r acc l args s)
  unfolding run_swaps
  Safe-run_swaps acc l args s = search (safe_rules, Safe-wrap_sol, Safe-swap_route) depth 12

  pub Safe-pay_stake :
      (acc : Participate) (l : LoadedParticipate) (args : ParticipateArgs) (s : Ledger)
      → Safe s (pay_stake r acc l args s)
  unfolding pay_stake
  Safe-pay_stake acc l args s =
      search (safe_rules, Safe-run_swaps, Safe-unwrap_wsol_to_joiner) depth 12

  pub Safe-create_deposit_tokens :
      (acc : Create) (l : LoadedCreate) (args : CreateArgs) (decimals : ℕ) (s : Ledger)
      → Safe s (create_deposit_tokens r acc l args decimals s)
  unfolding create_deposit_tokens
  Safe-create_deposit_tokens acc l args decimals s =
      search (safe_rules, Safe-create_ata_if_needed) depth 14

  pub Safe-close_vault_from_game :
      (program vault destination game creator : Pubkey) (nonce bump : ℕ) (s : Ledger)
      → Safe s (close_vault_from_game r program vault destination game creator nonce bump s)
  unfolding close_vault_from_game
  Safe-close_vault_from_game program vault destination game creator nonce bump s = search safe_rules

  pub Safe-create_deposit :
      (acc : Create) (l : LoadedCreate) (args : CreateArgs) (decimals : ℕ) (s : Ledger)
      → Safe s (create_deposit r acc l args decimals s)
  unfolding create_deposit
  Safe-create_deposit acc l args decimals s = search (safe_rules, Safe-create_deposit_tokens)

  pub Safe-join_deposit :
      (acc : Join) (l : LoadedJoin) (game : Game) (amount : ℕ) (s : Ledger)
      → Safe s (join_deposit r acc l game amount s)
  unfolding join_deposit
  Safe-join_deposit acc l game amount s = search (safe_rules, Safe-join_deposit_tokens)

  pub Safe-participate_deposit :
      (acc : Participate) (l : LoadedParticipate) (game : Game) (amount : ℕ) (s : Ledger)
      → Safe s (participate_deposit r acc l game amount s)
  unfolding participate_deposit
  Safe-participate_deposit acc l game amount s = search (safe_rules, Safe-join_deposit_tokens)
