-- ===== src/Admin/Migration/Resizing.antt =====
-- Resizing an account of the program: its data, padded to the length that was asked for.
use coinflip_program.Base.{
  ℕ, ◌-◌, ◌≤◌, ◌≡◌, ◌⊎◌, refl, sym, ◌∙◌, arith, Bytes, ltb, if◌then◌else◌, length, update,
  Bool-cases, inl, inr, saturating_sub,
}
use mathlib.Core.List.{append-nil}
use coinflip_program.Error.{ok, >>=-eq-ok}
use coinflip_program.State.{Pubkey}
use coinflip_program.Runtime.{Ledger, Runtime}
use coinflip_program.Runtime.Laws.{TransferLaw}
use coinflip_program.Admin.Migration.{lengthen, resize_owned_account}
use coinflip_program.Admin.Migration.Layout.{ReallocLaw, padded}

-- Resizing pads the account's data and touches no other part of the typed state.
pub record Resized (k : Pubkey) (n : ℕ) (s s1 : Ledger) : Type 0 where
  pub data_bytes : s1.bytes k ≡ padded n (s.bytes k)
  pub signed : s1.signed ≡ s.signed

pub long_enough : (n : ℕ) (bytes : Bytes) → n ≤ length bytes → bytes ≡ padded n bytes
long_enough n bytes h =
    let e : n - length bytes ≡ 0 = omega (arith, h) in rw e (sym (append-nil bytes))

module _ (r : Runtime) (moving : TransferLaw r) (realloc : ReallocLaw r) (k payer : Pubkey)
    (n : ℕ) where
  topped_up :
      (extra : ℕ) (s s1 : Ledger)
      → (if ltb 0 extra then r.transfer payer k extra s else ok s) ≡ ok s1
      → (s1.bytes ≡ s.bytes) × (s1.signed ≡ s.signed)
  topped_up extra s s1 h = elim (Bool-cases (ltb 0 extra)) [
    | inl more ↦
        (let e : r.transfer payer k extra s ≡ ok s1 = rw more at h in
          rw (moving.moves payer k extra s s1 e) (refl, refl))
    | inr enough ↦ (let e : ok s ≡ ok s1 = rw enough at h in (cc, cc))
  ]

  padded_facts :
      (s s2 : Ledger)
      → s2 ≡ record s { bytes = update s.bytes k (padded n (s.bytes k)) }
      → (s2.bytes k ≡ padded n (s.bytes k)) × (s2.signed ≡ s.signed)
  padded_facts s s2 h = rw h (ground arith, refl)

  lengthen-Resized :
      (s s2 : Ledger) → length (s.bytes k) ≤ n → lengthen r k payer n s ≡ ok s2 → Resized k n s s2
  unfolding lengthen
  lengthen-Resized s s2 short h =
      let extra = saturating_sub (r.minimum_balance n) (s.lamports k) in
      let (s1, a, b) =
        >>=-eq-ok (if ltb 0 extra then r.transfer payer k extra s else ok s) (r.realloc k n) h in
      let (c, d) = topped_up extra s s1 a in
      let (e, f) = padded_facts s1 s2 (realloc.pads k n s1 s2 (rw c short) b) in
      record { data_bytes = rw c at e; signed = f ∙ d }

  resize_cases :
      (s s2 : Ledger)
      → resize_owned_account r k payer n s ≡ ok s2
      → ((n ≤ length (s.bytes k)) × (s ≡ s2))
        ⊎ ((length (s.bytes k) ≤ n) × (lengthen r k payer n s ≡ ok s2))
  unfolding resize_owned_account
  resize_cases s s2 h = ground arith

  pub resize_owned_account-Resized :
      (s s2 : Ledger) → resize_owned_account r k payer n s ≡ ok s2 → Resized k n s s2
  resize_owned_account-Resized s s2 h = elim (resize_cases s s2 h) [
    | inl (enough, same) ↦
        (let e = long_enough n (s.bytes k) enough in record { data_bytes = cc; signed = cc })
    | inr (short, longer) ↦ lengthen-Resized s s2 short longer
  ]
