-- ===== src/Program/History.antt =====
-- Histories of the ledger: the program's calls, and between them whatever other programs, the clock
-- and the signers do.
use coinflip_program.Base.{◌≡◌}
use coinflip_program.Error.{ok}
use coinflip_program.Runtime.{Ledger, Runtime}
use coinflip_program.Runtime.Laws.{Respects}
use coinflip_program.Program.{Call, dispatch}

pub data Step (r : Runtime) (s s' : Ledger) : Type 0 where
  called : (c : Call) → dispatch r c s ≡ ok s' → Step r s s'
  outside : Respects s s' → Step r s s'

pub data Reach (r : Runtime) (s : Ledger) : Ledger → Type 0 where
  here : Reach r s s
  next : {t u : Ledger} → Reach r s t → Step r t u → Reach r s u
