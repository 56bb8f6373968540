-- ===== src/Solvency/Safe.antt =====
-- Code that reaches the ledger through the calls of other programs only, and rules to show that a
-- block of such calls respects what the program owns.
use coinflip_program.Base.{
  ℕ, ◌≡◌, refl, subst, Bool, true, false, Bytes, List, Option, arith, if◌then◌else◌,
}
use coinflip_program.Error.{Result, ok, err, ◌>>=◌}
use coinflip_program.State.{Pubkey}
use coinflip_program.Runtime.{
  Ledger, Runtime, Instruction, TransferChecked, CloseAccount, CreateAta,
}
use coinflip_program.Runtime.Laws.{Respects, OwnershipLaw}

pub Respects-refl : (s : Ledger) → Respects s s
Respects-refl s = ground arith

pub Respects-trans : (s t u : Ledger) → Respects s t → Respects t u → Respects s u
Respects-trans s t u a b = record {
  configs = ground (arith, a.configs, b.configs);
  token_configs = ground (arith, a.token_configs, b.token_configs);
  games = ground (arith, a.games, b.games);
  owned = λ k o. b.owned k (a.owned k o);
  funded = λ k o. omega (arith, a.funded k o, b.funded k (a.owned k o));
}

-- Whatever ledger the code ends in respects the one that it began in.
pub record Safe (s : Ledger) (m : Result Ledger) : Type 0 where
  pub respects : (s' : Ledger) → m ≡ ok s' → Respects s s'

pub Safe-ok : (s : Ledger) → Safe s (ok s)
Safe-ok s = record {
  respects = λ s' h. let e : s ≡ s' = cc in subst (λ t. Respects s t) e (Respects-refl s);
}

pub Safe-read {ℓ} :
    {A : Type ℓ} (s : Ledger) (m : Result A) (f : A → Result Ledger)
    → ((a : A) → Safe s (f a))
    → Safe s (m >>= f)
Safe-read s (ok a) f h = h a
Safe-read s (err e) f h = record { respects = λ s' k. cc }

pub Safe-call :
    (s : Ledger) (m : Result Ledger) (f : Ledger → Result Ledger)
    → Safe s m
    → ((t : Ledger) → Safe t (f t))
    → Safe s (m >>= f)
Safe-call s (ok t) f h k = record {
  respects = λ u e. Respects-trans s t u (h.respects t refl) ((k t).respects u e);
}
Safe-call s (err e) f h k = record { respects = λ s' k. cc }

pub Safe-if :
    (s : Ledger) (b : Bool) (m n : Result Ledger)
    → Safe s m
    → Safe s n
    → Safe s (if b then m else n)
Safe-if s true m n h k = h
Safe-if s false m n h k = k

module _ (r : Runtime) (law : OwnershipLaw r) where
  pub Safe-transfer : (from to : Pubkey) (n : ℕ) (s : Ledger) → Safe s (r.transfer from to n s)
  Safe-transfer from to n s = record { respects = law.transfer from to n s }

  pub Safe-init : (payer account : Pubkey) (s : Ledger) → Safe s (r.init payer account s)
  Safe-init payer account s = record { respects = law.init payer account s }

  pub Safe-transfer_checked :
      (program : Pubkey) (t : TransferChecked) (amount decimals : ℕ) (signer : Option (List Bytes))
      (s : Ledger)
      → Safe s (r.transfer_checked program t amount decimals signer s)
  Safe-transfer_checked program t amount decimals signer s = record {
    respects = law.transfer_checked program t amount decimals signer s;
  }

  pub Safe-close_account :
      (program : Pubkey) (c : CloseAccount) (signer : Option (List Bytes)) (s : Ledger)
      → Safe s (r.close_account program c signer s)
  Safe-close_account program c signer s = record { respects = law.close_account program c signer s }

  pub Safe-sync_native :
      (program account : Pubkey) (s : Ledger) → Safe s (r.sync_native program account s)
  Safe-sync_native program account s = record { respects = law.sync_native program account s }

  pub Safe-create_ata :
      (ata_program program : Pubkey) (c : CreateAta) (s : Ledger)
      → Safe s (r.create_ata ata_program program c s)
  Safe-create_ata ata_program program c s = record {
    respects = law.create_ata ata_program program c s;
  }

  pub Safe-invoke : (i : Instruction) (s : Ledger) → Safe s (r.invoke i s)
  Safe-invoke i s = record { respects = law.invoke i s }

  pub Safe-realloc : (account : Pubkey) (n : ℕ) (s : Ledger) → Safe s (r.realloc account n s)
  Safe-realloc account n s = record { respects = law.realloc account n s }

pub ruleset safe_rules = (
  Safe-ok, Safe-read, Safe-call, Safe-if, Safe-transfer, Safe-init, Safe-transfer_checked,
  Safe-close_account, Safe-sync_native, Safe-create_ata, Safe-invoke, Safe-realloc,
)
