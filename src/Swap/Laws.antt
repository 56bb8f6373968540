-- ===== src/Swap/Laws.antt =====
-- What the pools' program documents of a swap, and how a list of accounts splits into hops.
use coinflip_program.Base.{
  ℕ, ◌+◌, ◌-◌, ◌≤◌, ◌≡◌, ◌≢◌, ◌⊎◌, Bool, false, List, [], ◌∷◌, ◌++◌, refl, arith, length, take,
  drop, leb, zero, suc, ap,
}
use coinflip_program.Error.{ok, require, invalid_swap_accounts, >>=-eq-ok}
use coinflip_program.State.{Pubkey, raydium_clmm}
use coinflip_program.Runtime.{Ledger, Runtime}
use coinflip_program.Runtime.Laws.{balance}
use coinflip_program.Swap.{hop_fixed, hop_key, split_hops, swap_instruction, token_amount}

-- Of Raydium's program: a swap for an exact output takes at most the threshold from its input
-- account, and no swap takes anything from an account that is neither its input nor the vault that
-- pays out. Nothing is said of any other program.
pub record SwapLaw (r : Runtime) : Type 0 where
  pub bounded :
      (owner : Pubkey) (hop : List Pubkey) (amount threshold : ℕ) (s s' : Ledger)
      → r.invoke (swap_instruction raydium_clmm owner hop amount threshold false) s ≡ ok s'
      → balance s (hop_key hop 2) ≤ balance s' (hop_key hop 2) + threshold
  pub apart :
      (owner : Pubkey) (hop : List Pubkey) (amount threshold : ℕ) (base : Bool) (k : Pubkey)
      (s s' : Ledger)
      → k ≢ hop_key hop 2
      → k ≢ hop_key hop 5
      → r.invoke (swap_instruction raydium_clmm owner hop amount threshold base) s ≡ ok s'
      → balance s k ≤ balance s' k

take-append-drop : (n : ℕ) (xs : List Pubkey) → take n xs ++ drop n xs ≡ xs
take-append-drop zero xs = refl
take-append-drop (suc n) [] = refl
take-append-drop (suc n) (x ∷ xs) = ap (λ t. x ∷ t) (take-append-drop n xs)

length-drop : (n : ℕ) (xs : List Pubkey) → length (drop n xs) ≡ length xs - n
length-drop zero xs = omega arith
length-drop (suc n) [] = omega arith
length-drop (suc n) (x ∷ xs) = omega (arith, length-drop n xs)

length-take : (n : ℕ) (xs : List Pubkey) → n ≤ length xs → length (take n xs) ≡ n
length-take zero xs h = refl
length-take (suc n) [] h = omega arith
length-take (suc n) (x ∷ xs) h = omega (arith, length-take n xs (omega arith))

append-nil : (xs : List Pubkey) → xs ++ [] ≡ xs
append-nil [] = refl
append-nil (x ∷ xs) = ap (λ t. x ∷ t) (append-nil xs)

-- The hops are the remaining accounts, cut in two: nothing is lost or reordered, the first hop has
-- the fixed accounts at least, and so has the second if a length was given.
pub split_hops-append :
    (remaining hop1 hop2 : List Pubkey) (hop1_len : ℕ)
    → split_hops remaining hop1_len ≡ ok (hop1, hop2)
    → (hop1 ++ hop2 ≡ remaining)
      × (hop_fixed ≤ length hop1)
      × ((hop1_len ≡ 0) × (hop2 ≡ []) ⊎ (length hop1 ≡ hop1_len) × (hop_fixed ≤ length hop2))
unfolding split_hops
split_hops-append remaining hop1 hop2 hop1_len h = ground (
  arith,
  take-append-drop hop1_len remaining,
  length-drop hop1_len remaining,
  length-take hop1_len remaining,
  append-nil remaining,
)

-- The amount that is read is the balance.
pub token_amount-balance :
    (r : Runtime) (k : Pubkey) (s : Ledger) (v : ℕ) → token_amount r k s ≡ ok v → v ≡ balance s k
unfolding token_amount
token_amount-balance r k s v h =
    let (_, _, e) = >>=-eq-ok (require (leb 72 (length (s.bytes k))) invalid_swap_accounts) _ h in
    cc
