-- ===== src/Trade/Hops.antt =====
-- What the tests on the hops' token accounts say, and what a split leaves.
use coinflip_program.Base.{ℕ, ◌≡◌, ◌<◌, List, arith, ◌&&◌, ==_iff, drop, length, leb}
use coinflip_program.Error.{
  ok, require, CoinflipError, >>=-eq-ok, require-eq-ok, invalid_swap_accounts,
  token_account_mismatch,
}
use coinflip_program.State.{Pubkey}
use coinflip_program.Accounts.{require_keys_eq}
use coinflip_program.Swap.{hop_fixed, hop_key, split_hops}
use coinflip_program.Trade.{require_hop_atas, require_two_hop_atas}

keys_eq-ok :
    (a b : Pubkey) (e : CoinflipError) {u : Unit {0}} → require_keys_eq a b e ≡ ok u → a ≡ b
keys_eq-ok a b e h = (==_iff a b).0 (require-eq-ok _ e h)

pub hop_atas-ok :
    (hop : List Pubkey) (input output : Pubkey) {u : Unit {0}}
    → require_hop_atas hop input output ≡ ok u
    → (hop_key hop 2 ≡ input) × (hop_key hop 3 ≡ output)
unfolding require_hop_atas
hop_atas-ok hop input output h =
    let (_, _, h1) = >>=-eq-ok (require (leb hop_fixed (length hop)) invalid_swap_accounts) _ h in
    let (_, source, target) =
      >>=-eq-ok (require_keys_eq (hop_key hop 2) input token_account_mismatch) _ h1 in
    (keys_eq-ok _ _ token_account_mismatch source, keys_eq-ok _ _ token_account_mismatch target)

pub two_hop_atas-ok :
    (hop1 hop2 : List Pubkey) (first_in last_out : Pubkey) {u : Unit {0}}
    → require_two_hop_atas hop1 hop2 first_in last_out ≡ ok u
    → (hop_key hop1 2 ≡ first_in) × (hop_key hop1 3 ≡ hop_key hop2 2) × (hop_key hop2 3 ≡ last_out)
unfolding require_two_hop_atas
two_hop_atas-ok hop1 hop2 first_in last_out h =
    let (_, _, h1) =
      >>=-eq-ok
        (require (leb hop_fixed (length hop1) && leb hop_fixed (length hop2)) invalid_swap_accounts)
        _ h in
    let (_, source, h2) =
      >>=-eq-ok (require_keys_eq (hop_key hop1 2) first_in token_account_mismatch) _ h1 in
    let (_, link, target) =
      >>=-eq-ok (require_keys_eq (hop_key hop1 3) (hop_key hop2 2) token_account_mismatch) _ h2 in
    (
      keys_eq-ok _ _ token_account_mismatch source,
      keys_eq-ok _ _ token_account_mismatch link,
      keys_eq-ok _ _ token_account_mismatch target,
    )

-- The second hop is what the first leaves.
pub second_hop :
    (remaining hop1 hop2 : List Pubkey) (hop1_len : ℕ)
    → 0 < hop1_len
    → split_hops remaining hop1_len ≡ ok (hop1, hop2)
    → hop2 ≡ drop hop1_len remaining
unfolding split_hops
second_hop remaining hop1 hop2 hop1_len given h = ground arith
