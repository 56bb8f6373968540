-- ===== src/Tests/Payouts.antt =====
-- The settlement of a game in a token, 40: the vault holds 200, the winner gets 193, the house 7.
use coinflip_program.Base.{◌+◌, [], some, none, update}
use coinflip_program.State.{Pubkey, Game, token_program_id}
use coinflip_program.Runtime.{Ledger}
use coinflip_program.Resolve.{Resolve, resolve}
use coinflip_program.Tests.World.{runtime}
use coinflip_program.Tests.Plays.{outcome, paired, answer, answered, resolve_accounts}
use coinflip_program.Tests.Trading.{account}

abbrev vault_key : Pubkey
vault_key = 1678 + 40 + token_program_id

abbrev token_game : Game
token_game = record paired { mint = 40; amount = 100 }

abbrev token_ledger : Ledger
token_ledger = record answered {
  games = update (λ k. none) 1678 (some token_game);
  bytes =
      update
        (update (update (update (λ k. []) 4433 answer) vault_key (account 40 1678 200 0)) 50
          (account 40 12 100 0))
        52 (account 40 11 0 0);
}

abbrev token_accounts : Resolve
token_accounts = record resolve_accounts {
  mint_account = some 40;
  vault = some vault_key;
  winner_token = some 50;
  fee_recipient_token = some 52;
  token_program = some token_program_id;
}

abbrev token_resolved : Ledger
token_resolved = outcome (resolve runtime token_accounts token_ledger)
