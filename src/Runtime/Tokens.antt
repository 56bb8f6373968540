-- ===== src/Runtime/Tokens.antt =====
-- Documented behaviour of the SPL token program, on the balances of token accounts. Nothing is said of
-- other token programs: Token-2022 may withhold a fee from what arrives.
use coinflip_program.Base.{ℕ, ◌+◌, ◌≡◌, ◌≢◌, some, List, Bytes, Option}
use coinflip_program.Error.{ok}
use coinflip_program.State.{Pubkey, token_program_id}
use coinflip_program.Runtime.{Ledger, Runtime, TokenAccount, TransferChecked, CloseAccount}
use coinflip_program.Runtime.Laws.{balance}

pub record TokenLaw (r : Runtime) : Type 0 where
  -- The amount arrives in the other account, and no third account changes.
  pub arrived :
      (t : TransferChecked) (amount decimals : ℕ) (signer : Option (List Bytes)) (s s' : Ledger)
      → t.from ≢ t.to
      → r.transfer_checked token_program_id t amount decimals signer s ≡ ok s'
      → balance s' t.to ≡ balance s t.to + amount
  pub apart :
      (t : TransferChecked) (amount decimals : ℕ) (signer : Option (List Bytes)) (k : Pubkey)
      (s s' : Ledger)
      → k ≢ t.from
      → k ≢ t.to
      → r.transfer_checked token_program_id t amount decimals signer s ≡ ok s'
      → balance s' k ≡ balance s k
  -- A closed account leaves the others' balances.
  pub kept :
      (c : CloseAccount) (signer : Option (List Bytes)) (k : Pubkey) (s s' : Ledger)
      → k ≢ c.account
      → r.close_account token_program_id c signer s ≡ ok s'
      → balance s' k ≡ balance s k
  -- An account that unpacks has the amount that stands in its data.
  pub amount :
      (s : Ledger) (k : Pubkey) (t : TokenAccount)
      → r.unpack_token (s.bytes k) ≡ some t
      → t.amount ≡ balance s k
