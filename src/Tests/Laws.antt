-- ===== src/Tests/Laws.antt =====
-- The runtime of the tests keeps the laws that the theorems ask for.
use coinflip_program.Base.{
  ℕ, ◌+◌, ◌-◌, ◌^◌, ◌≤◌, ◌<◌, ◌≡◌, refl, arith, Bytes, List, length, slice, from_le_bytes, ◌==◌,
  subst, update, Bool-cases, inl, inr, Option,
}
use coinflip_program.Error.{Result, ok, >>=-eq-ok, ◌>>=◌}
use coinflip_program.State.{Pubkey, program_id, raydium_clmm}
use coinflip_program.Runtime.{Ledger, Instruction, TransferChecked, move}
use coinflip_program.Runtime.Laws.{
  balance, system_program, Respects, OwnershipLaw, TransferLaw, InitLaw, CloseLaw,
}
use coinflip_program.Tests.World.{
  write_balance, debit, credit, transfer, init, transfer_checked, invoke, runtime, meta_key,
}

Respects-refl : (s : Ledger) → Respects s s
Respects-refl s = record {
  configs = refl;
  token_configs = refl;
  games = refl;
  owned = λ k h. h;
  funded = λ k h. omega arith;
}

Respects-bytes : (s : Ledger) (bs : Pubkey → Bytes) → Respects s (record s { bytes = bs })
Respects-bytes s bs = record {
  configs = refl;
  token_configs = refl;
  games = refl;
  owned = λ k h. h;
  funded = λ k h. omega arith;
}

pub same_ledger : {s s' : Ledger} → ok s ≡ ok s' → s ≡ s'
same_ledger h = cc

trans_le : (a b c : ℕ) → a ≤ b → b ≤ c → a ≤ c
trans_le a b c h k = omega arith

Respects-trans : (a b c : Ledger) → Respects a b → Respects b c → Respects a c
Respects-trans a b c p q = record {
  configs = cc;
  token_configs = cc;
  games = cc;
  owned = λ k h. q.owned k (p.owned k h);
  funded = λ k h.
      trans_le (a.lamports k) (b.lamports k) (c.lamports k) (p.funded k h)
        (q.funded k (p.owned k h));
}

abbrev Only : (Ledger → Result Ledger) → Type 0
Only f = (s s' : Ledger) → f s ≡ ok s' → Respects s s'

written : (k v : ℕ) (s : Ledger) → Respects s (write_balance k v s)
unfolding write_balance
written k v s = Respects-bytes s _

pub debit_facts :
    (k n : ℕ) (s s' : Ledger)
    → debit k n s ≡ ok s'
    → (s' ≡ write_balance k (balance s k - n) s)
      × (72 ≤ length (s.bytes k))
      × (n ≤ balance s k)
      × (balance s k < 2 ^ 64)
unfolding debit
debit_facts k n s s' h = ground arith

pub credit_facts :
    (k n : ℕ) (s s' : Ledger)
    → credit k n s ≡ ok s'
    → (s' ≡ write_balance k (balance s k + n) s)
      × (72 ≤ length (s.bytes k))
      × (balance s k + n < 2 ^ 64)
unfolding credit
credit_facts k n s s' h = ground arith

debit-Respects : (k n : ℕ) → Only (debit k n)
debit-Respects k n s s' h = rw (debit_facts k n s s' h).0 (written k _ s)

credit-Respects : (k n : ℕ) → Only (credit k n)
credit-Respects k n s s' h = rw (credit_facts k n s s' h).0 (written k _ s)

both-Respects : (from m to n : ℕ) → Only (λ s. debit from m s >>= λ s1. credit to n s1)
both-Respects from m to n s s' h =
    let (s1, e, f) = >>=-eq-ok (debit from m s) _ h in
    Respects-trans s s1 s' (debit-Respects from m s s1 e) (credit-Respects to n s1 s' f)

transfer_facts :
    (from to n : ℕ) (s s' : Ledger)
    → transfer from to n s ≡ ok s'
    → (s' ≡ record s { lamports = move s.lamports from to n }) × (s.owner from ≡ system_program)
unfolding transfer
transfer_facts from to n s s' h = ground arith

moved_funds :
    (from to n k : ℕ) (s : Ledger)
    → s.owner from ≡ system_program
    → s.owner k ≡ program_id
    → s.lamports k ≤ move s.lamports from to n k
moved_funds from to n k s a b = ground arith

transfer-Respects : (from to n : ℕ) → Only (transfer from to n)
transfer-Respects from to n s s' h =
    let (e, source) = transfer_facts from to n s s' h in
    rw e (record {
      configs = refl;
      token_configs = refl;
      games = refl;
      owned = λ k o. o;
      funded = λ k o. moved_funds from to n k s source o;
    })

init_facts :
    (payer account : ℕ) (s s' : Ledger)
    → init payer account s ≡ ok s'
    → s' ≡ record s { owner = update s.owner account program_id }
unfolding init
init_facts payer account s s' h = ground arith

init-Respects : (payer account : ℕ) → Only (init payer account)
init-Respects payer account s s' h = rw (init_facts payer account s s' h) (record {
  configs = refl;
  token_configs = refl;
  games = refl;
  owned = λ k o. ground (arith, o);
  funded = λ k o. omega arith;
})

invoke-Respects : (i : Instruction) → Only (invoke i)
unfolding invoke
invoke-Respects i s s' h = elim (Bool-cases (i.program_id == raydium_clmm)) [
  | inl pools ↦
      both-Respects (meta_key i.accounts 3) (from_le_bytes (slice i.data_bytes 16 24))
        (meta_key i.accounts 4) (from_le_bytes (slice i.data_bytes 8 16)) s s' (rw pools at h)
  | inr other ↦
      (let e : ok s ≡ ok s' = rw other at h in subst (Respects s) (same_ledger e) (Respects-refl s))
]

transfer_checked-Respects :
    (program : ℕ) (t : TransferChecked) (amount decimals : ℕ) (signer : Option (List Bytes))
    → Only (transfer_checked program t amount decimals signer)
unfolding transfer_checked
transfer_checked-Respects program t amount decimals signer s s' h =
    both-Respects t.from amount t.to amount s s' h

pub runtime-OwnershipLaw : OwnershipLaw runtime
unfolding runtime
runtime-OwnershipLaw = record {
  transfer = transfer-Respects;
  init = init-Respects;
  transfer_checked = transfer_checked-Respects;
  close_account =
      λ program c signer s s' h. subst (Respects s) (same_ledger h) (Respects-bytes s _);
  sync_native = λ program account s s' h. subst (Respects s) (same_ledger h) (Respects-refl s);
  create_ata = λ ata program c s s' h. subst (Respects s) (same_ledger h) (Respects-bytes s _);
  invoke = invoke-Respects;
  realloc = λ account n s s' h. subst (Respects s) (same_ledger h) (Respects-bytes s _);
}

pub runtime-TransferLaw : TransferLaw runtime
unfolding runtime
runtime-TransferLaw = record {
  moves = λ from to n s s' h. (transfer_facts from to n s s' h).0;
  owned = λ from to n s s' h. (transfer_facts from to n s s' h).1;
}

init_free :
    (payer account : ℕ) (s s' : Ledger)
    → init payer account s ≡ ok s'
    → s.owner account ≡ system_program
unfolding init
init_free payer account s s' h = ground arith

pub runtime-InitLaw : InitLaw runtime
unfolding runtime
runtime-InitLaw = record {
  owned = λ payer account s s' h. rw (init_facts payer account s s' h) (ground arith);
  fresh = init_free;
}

pub runtime-CloseLaw : CloseLaw runtime
unfolding runtime
runtime-CloseLaw = record { closes = λ account destination s apart. refl }
