-- ===== src/Runtime/Laws.antt =====
-- Documented behaviour of the code that the program calls, as hypotheses of the theorems that rest
-- on it. Each law speaks of calls that succeed; what a call may refuse is left open, but for the
-- closing of an account.
use coinflip_program.Base.{
  ℕ, ◌+◌, ◌≤◌, ◌≡◌, ◌≢◌, none, List, Bytes, Option, update, slice, from_le_bytes,
}
use coinflip_program.Error.{ok}
use coinflip_program.State.{Pubkey, program_id, default_key}
use coinflip_program.Runtime.{
  Ledger, Runtime, TransferChecked, CloseAccount, CreateAta, Instruction, move,
}

-- The key of the system program has 32 zero bytes.
abbrev pub system_program : Pubkey
system_program = default_key

-- The balance of a token account: eight bytes at offset 64, least significant first.
abbrev pub balance : Ledger → Pubkey → ℕ
balance s k = from_le_bytes (slice (s.bytes k) 64 72)

-- A call of another program leaves what this program owns: only an account's owner may take
-- lamports from it, write its data or give it away.
pub record Respects (s s' : Ledger) : Type 0 where
  pub configs : s'.configs ≡ s.configs
  pub token_configs : s'.token_configs ≡ s.token_configs
  pub games : s'.games ≡ s.games
  pub owned : (k : Pubkey) → s.owner k ≡ program_id → s'.owner k ≡ program_id
  pub funded : (k : Pubkey) → s.owner k ≡ program_id → s.lamports k ≤ s'.lamports k

-- That rule, for each call that the program makes. `init` respects it too: it takes an account that
-- the program does not own yet. So does `realloc`, which changes the length of an account's data.
pub record OwnershipLaw (r : Runtime) : Type 0 where
  pub transfer :
      (from to : Pubkey) (n : ℕ) (s s' : Ledger) → r.transfer from to n s ≡ ok s' → Respects s s'
  pub init :
      (payer account : Pubkey) (s s' : Ledger) → r.init payer account s ≡ ok s' → Respects s s'
  pub transfer_checked :
      (program : Pubkey) (t : TransferChecked) (amount decimals : ℕ) (signer : Option (List Bytes))
      (s s' : Ledger)
      → r.transfer_checked program t amount decimals signer s ≡ ok s'
      → Respects s s'
  pub close_account :
      (program : Pubkey) (c : CloseAccount) (signer : Option (List Bytes)) (s s' : Ledger)
      → r.close_account program c signer s ≡ ok s'
      → Respects s s'
  pub sync_native :
      (program account : Pubkey) (s s' : Ledger)
      → r.sync_native program account s ≡ ok s'
      → Respects s s'
  pub create_ata :
      (ata_program program : Pubkey) (c : CreateAta) (s s' : Ledger)
      → r.create_ata ata_program program c s ≡ ok s'
      → Respects s s'
  pub invoke : (i : Instruction) (s s' : Ledger) → r.invoke i s ≡ ok s' → Respects s s'
  pub realloc :
      (account : Pubkey) (n : ℕ) (s s' : Ledger) → r.realloc account n s ≡ ok s' → Respects s s'

-- A system transfer debits an account of the system program, and changes nothing but lamports.
pub record TransferLaw (r : Runtime) : Type 0 where
  pub moves :
      (from to : Pubkey) (n : ℕ) (s s' : Ledger)
      → r.transfer from to n s ≡ ok s'
      → s' ≡ record s { lamports = move s.lamports from to n }
  pub owned :
      (from to : Pubkey) (n : ℕ) (s s' : Ledger)
      → r.transfer from to n s ≡ ok s'
      → s.owner from ≡ system_program

-- A new account is the program's, and was the system program's before.
pub record InitLaw (r : Runtime) : Type 0 where
  pub owned :
      (payer account : Pubkey) (s s' : Ledger)
      → r.init payer account s ≡ ok s'
      → s'.owner account ≡ program_id
  pub fresh :
      (payer account : Pubkey) (s s' : Ledger)
      → r.init payer account s ≡ ok s'
      → s.owner account ≡ system_program

-- Closing hands over all lamports, and gives the account back to the system program.
abbrev pub closed : Pubkey → Pubkey → Ledger → Ledger
closed account destination s = record s {
  lamports =
      update (update s.lamports destination (s.lamports destination + s.lamports account)) account
        0;
  owner = update s.owner account system_program;
  games = update s.games account none;
}

pub record CloseLaw (r : Runtime) : Type 0 where
  pub closes :
      (account destination : Pubkey) (s : Ledger)
      → account ≢ destination
      → r.close account destination s ≡ ok (closed account destination s)
