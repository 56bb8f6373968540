-- ===== src/Tests/Pools.antt =====
-- The pools of the tests keep the law of swaps.
use coinflip_program.Base.{
  ℕ, ◌+◌, ◌-◌, ◌/◌, ◌^◌, ◌≤◌, ◌<◌, ◌≡◌, ◌≢◌, ◌⊎◌, refl, arith, zero, suc, Bool, false, Bytes, List,
  [], ◌∷◌, length, take, drop, slice, slice_middle, from_le-to_le, length-to_le_bytes, sym, ==_iff,
  to_le_bytes, from_le_bytes, ◌==◌, ap, subst, Bool-cases, inl, inr,
}
use coinflip_program.Error.{ok, >>=-eq-ok}
use coinflip_program.State.{Pubkey, raydium_clmm}
use coinflip_program.Runtime.{Ledger}
use coinflip_program.Runtime.Laws.{balance}
use coinflip_program.Swap.{hop_key, swap_instruction}
use coinflip_program.Swap.Laws.{SwapLaw}
use coinflip_program.Tests.Laws.{same_ledger, debit_facts, credit_facts}
use coinflip_program.Tests.World.{write_balance, debit, credit, invoke, runtime, meta_key}

from_to_le : (n v : ℕ) → from_le_bytes (to_le_bytes n v) ≤ v
unfolding from_le_bytes to_le_bytes
from_to_le zero v = omega arith
from_to_le (suc n) v = omega (arith, from_to_le n (v / 256))

length-take : (n : ℕ) (bs : Bytes) → n ≤ length bs → length (take n bs) ≡ n
length-take zero bs h = refl
length-take (suc n) [] h = omega arith
length-take (suc n) (b ∷ bs) h = omega (arith, length-take n bs (omega arith))

pub written_there :
    (k v : ℕ) (s : Ledger)
    → 72 ≤ length (s.bytes k)
    → v < 2 ^ 64
    → balance (write_balance k v s) k ≡ v
unfolding write_balance
written_there k v s h small =
    rw
      (
        (==_iff k k).1 refl,
        slice_middle (take 64 (s.bytes k)) (to_le_bytes 8 v) (drop 72 (s.bytes k)) 64 72
            (sym (length-take 64 (s.bytes k) (omega arith))) (rw length-to_le_bytes refl),
        from_le-to_le 8 v (omega arith),
      )
      refl

pub written_elsewhere :
    (k v j : ℕ) (s : Ledger) → j ≢ k → balance (write_balance k v s) j ≡ balance s j
unfolding write_balance
written_elsewhere k v j s h =
    ap (λ bs. from_le_bytes (slice bs 64 72)) {x = (write_balance k v s).bytes j} {y = s.bytes j}
      (ground arith)

debit_down : (k n j : ℕ) (s s' : Ledger) → debit k n s ≡ ok s' → balance s j ≤ balance s' j + n
debit_down k n j s s' h =
    let (e, wide, enough, small) = debit_facts k n s s' h in
    elim (Bool-cases (j == k)) [
      | inl same ↦
          (let here : j ≡ k = (==_iff j k).0 same in
            rw (e, here) (omega (arith, written_there k (balance s k - n) s wide (omega arith))))
      | inr other ↦
          (let apart : j ≢ k = λ x. (ground arith) in
            rw (e, written_elsewhere k (balance s k - n) j s apart) (omega arith))
    ]

debit_apart : (k n j : ℕ) (s s' : Ledger) → j ≢ k → debit k n s ≡ ok s' → balance s' j ≡ balance s j
debit_apart k n j s s' apart h =
    rw ((debit_facts k n s s' h).0) (written_elsewhere k (balance s k - n) j s apart)

credit_up : (k n j : ℕ) (s s' : Ledger) → credit k n s ≡ ok s' → balance s j ≤ balance s' j
credit_up k n j s s' h =
    let (e, wide, small) = credit_facts k n s s' h in
    elim (Bool-cases (j == k)) [
      | inl same ↦
          (let here : j ≡ k = (==_iff j k).0 same in
            rw (e, here) (omega (arith, written_there k (balance s k + n) s wide small)))
      | inr other ↦
          (let apart : j ≢ k = λ x. (ground arith) in
            rw (e, written_elsewhere k (balance s k + n) j s apart) (omega arith))
    ]

-- The instruction's accounts are the owner and then the hop's.
keys_of :
    (clmm owner : Pubkey) (hop : List Pubkey) (amount threshold : ℕ) (base : Bool)
    → meta_key (swap_instruction clmm owner hop amount threshold base).accounts 3 ≡ hop_key hop 2
unfolding swap_instruction
keys_of clmm owner [] amount threshold base = refl
keys_of clmm owner (a ∷ []) amount threshold base = refl
keys_of clmm owner (a ∷ b ∷ []) amount threshold base = refl
keys_of clmm owner (a ∷ b ∷ c ∷ hop) amount threshold base = refl

threshold_of :
    (clmm owner : Pubkey) (hop : List Pubkey) (amount threshold : ℕ) (base : Bool)
    → from_le_bytes (slice (swap_instruction clmm owner hop amount threshold base).data_bytes 16 24)
      ≤ threshold
unfolding swap_instruction to_le_bytes
threshold_of clmm owner hop amount threshold base = from_to_le 8 threshold

chained : (a b c m n : ℕ) → a ≤ b + m → b ≤ c → m ≤ n → a ≤ c + n
chained a b c m n h k l = omega arith

invoke_steps :
    (clmm owner : Pubkey) (hop : List Pubkey) (amount threshold : ℕ) (base : Bool) (s s' : Ledger)
    → invoke (swap_instruction clmm owner hop amount threshold base) s ≡ ok s'
    → (s ≡ s')
      ⊎ ((s1 : Ledger) × (paid : ℕ) × (out : Pubkey) × (got : ℕ) × (paid ≤ threshold)
          × (debit (hop_key hop 2) paid s ≡ ok s1)
          × (credit out got s1 ≡ ok s'))
unfolding invoke
invoke_steps clmm owner hop amount threshold base s s' h =
    let i = swap_instruction clmm owner hop amount threshold base in
    elim (Bool-cases (i.program_id == raydium_clmm)) [
      | inl pools ↦
          (let paid = from_le_bytes (slice i.data_bytes 16 24) in
            let (s1, e, f) = >>=-eq-ok (debit (meta_key i.accounts 3) paid s) _ (rw pools at h) in
            inr (
              s1,
              paid,
              meta_key i.accounts 4,
              from_le_bytes (slice i.data_bytes 8 16),
              threshold_of clmm owner hop amount threshold base,
              subst (λ k. debit k paid s ≡ ok s1) (keys_of clmm owner hop amount threshold base) e,
              f,
            ))
      | inr other ↦ (let e : ok s ≡ ok s' = rw other at h in inl (same_ledger e))
    ]

pub runtime-SwapLaw : SwapLaw runtime
unfolding runtime
runtime-SwapLaw = record {
  bounded = λ owner hop amount threshold s s' h.
      elim (invoke_steps raydium_clmm owner hop amount threshold false s s' h) [
        | inl same ↦ rw same (omega arith)
        | inr (s1, paid, out, got, le, e, f) ↦
            chained _ _ _ _ _ (debit_down _ paid _ s s1 e)
              (credit_up out got (hop_key hop 2) s1 s' f) le
      ];
  apart = λ owner hop amount threshold base k s s' a b h.
      elim (invoke_steps raydium_clmm owner hop amount threshold base s s' h) [
        | inl same ↦ rw same (omega arith)
        | inr (s1, paid, out, got, le, e, f) ↦
            omega (arith, debit_apart _ paid k s s1 a e, credit_up out got k s1 s' f)
      ];
}
