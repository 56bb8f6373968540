-- ===== src/Resolve/Tokens.antt =====
-- The steps of a settlement in tokens.
use coinflip_program.Base.{
  ℕ, ◌+◌, ◌*◌, ◌≡◌, ◌≤◌, some, Option, arith, leb, checked_mul, checked_sub, u64_width,
}
use coinflip_program.Error.{
  ok, require, ok_or, >>=-eq-ok, token_account_required, token_account_mismatch,
  arithmetic_overflow, invalid_mint,
}
use coinflip_program.State.{Pubkey}
use coinflip_program.Runtime.{Ledger, Runtime, TokenAccount}
use coinflip_program.Accounts.{Account, load_optional, load_token, require_keys_eq}
use coinflip_program.TokenUtils.{
  transfer_tokens_from_game, close_vault_from_game, require_vault_ata, require_token_program,
}
use coinflip_program.Resolve.{Resolve, LoadedResolve, load_resolve, resolve_tokens}

-- The token accounts as they were loaded.
pub record AreRead (r : Runtime) (acc : Resolve) (s : Ledger) (l : LoadedResolve) : Type 0 where
  pub vault : load_optional (load_token r s) acc.vault ≡ ok l.vault
  pub winner_token : load_optional (load_token r s) acc.winner_token ≡ ok l.winner_token
  pub fee_token : load_optional (load_token r s) acc.fee_recipient_token ≡ ok l.fee_recipient_token

pub load_resolve-AreRead :
    (r : Runtime) (acc : Resolve) (s : Ledger) (l : LoadedResolve)
    → load_resolve r acc s ≡ ok l
    → AreRead r acc s l
unfolding load_resolve
load_resolve-AreRead r acc s l h = ground arith

-- An account that was given and loaded.
pub read_account :
    (r : Runtime) (s : Ledger) (given : Option Pubkey) (k : Pubkey) (a : Account TokenAccount)
    → given ≡ some k
    → load_optional (load_token r s) given ≡ ok (some a)
    → (a.key ≡ k) × (r.unpack_token (s.bytes k) ≡ some a.value)
read_account r s given k a at h =
    let given_it : load_optional (load_token r s) (some k) ≡ ok (some a) = rw at at h in
    ground (arith, given_it)

-- The steps of a payout in tokens.
pub record PaidTokens (r : Runtime) (acc : Resolve) (l : LoadedResolve) (fee : ℕ) (s s3 : Ledger)
    : Type 0 where
  pub vault : Account TokenAccount
  pub winner_token : Account TokenAccount
  pub fee_token : Account TokenAccount
  pub rest : ℕ
  pub mint_key : Pubkey
  pub program : Pubkey
  pub s1 : Ledger
  pub s2 : Ledger
  pub program_given : acc.token_program ≡ some program
  pub vault_given : l.vault ≡ some vault
  pub winner_given : l.winner_token ≡ some winner_token
  pub fee_given : l.fee_recipient_token ≡ some fee_token
  pub pot_there : l.game.amount * 2 ≤ vault.value.amount
  pub rest_there : rest + fee ≡ vault.value.amount
  pub fee_paid :
      transfer_tokens_from_game r program vault.key mint_key fee_token.key acc.game l.game.creator
        l.game.nonce l.game.bump fee l.game.token_decimals s
      ≡ ok s1
  pub winner_paid :
      transfer_tokens_from_game r program vault.key mint_key winner_token.key acc.game
        l.game.creator l.game.nonce l.game.bump rest l.game.token_decimals s1
      ≡ ok s2
  pub vault_closed :
      close_vault_from_game r program vault.key acc.winner acc.game l.game.creator l.game.nonce
        l.game.bump s2
      ≡ ok s3

pot_in_vault :
    (amount pot have : ℕ) {u : Unit {0}}
    → ok_or (checked_mul u64_width amount 2) arithmetic_overflow ≡ ok pot
    → require (leb pot have) token_account_mismatch ≡ ok u
    → amount * 2 ≤ have
pot_in_vault amount pot have h k = ground arith

rest_of_vault :
    (have fee rest : ℕ)
    → ok_or (checked_sub have fee) arithmetic_overflow ≡ ok rest
    → rest + fee ≡ have
rest_of_vault have fee rest h = ground arith

given-ok : {A : Type 0} (o : Option A) (a : A) → ok_or o token_account_required ≡ ok a → o ≡ some a
given-ok o a h = ground arith

program-ok : (o : Option Pubkey) (k : Pubkey) → require_token_program o ≡ ok k → o ≡ some k
program-ok o k h = ground arith

pub resolve_tokens-PaidTokens :
    (r : Runtime) (acc : Resolve) (l : LoadedResolve) (fee : ℕ) (s s3 : Ledger)
    → resolve_tokens r acc l fee s ≡ ok s3
    → PaidTokens r acc l fee s s3
unfolding resolve_tokens
resolve_tokens-PaidTokens r acc l fee s s3 h =
    let (mint, _, h1) = >>=-eq-ok (ok_or l.mint_account token_account_required) _ h in
    let (_, _, h2) = >>=-eq-ok (require_keys_eq mint.key l.game.mint invalid_mint) _ h1 in
    let (vault, a, h3) = >>=-eq-ok (ok_or l.vault token_account_required) _ h2 in
    let (winner_token, b, h4) = >>=-eq-ok (ok_or l.winner_token token_account_required) _ h3 in
    let (fee_token, c, h5) = >>=-eq-ok (ok_or l.fee_recipient_token token_account_required) _ h4 in
    let (program, known, h6) = >>=-eq-ok (require_token_program acc.token_program) _ h5 in
    let (_, _, h7) = >>=-eq-ok (require_vault_ata r vault.key acc.game l.game.mint program) _ h6 in
    let (pot, d, h8) =
      >>=-eq-ok (ok_or (checked_mul u64_width l.game.amount 2) arithmetic_overflow) _ h7 in
    let (_, e, h9) = >>=-eq-ok (require (leb pot vault.value.amount) token_account_mismatch) _ h8 in
    let (rest, f, h10) =
      >>=-eq-ok (ok_or (checked_sub vault.value.amount fee) arithmetic_overflow) _ h9 in
    let (s1, g, h11) =
      >>=-eq-ok
        (transfer_tokens_from_game r program vault.key mint.key fee_token.key acc.game
          l.game.creator l.game.nonce l.game.bump fee l.game.token_decimals s)
        _ h10 in
    let (s2, i, h12) =
      >>=-eq-ok
        (transfer_tokens_from_game r program vault.key mint.key winner_token.key acc.game
          l.game.creator l.game.nonce l.game.bump rest l.game.token_decimals s1)
        _ h11 in
    record {
      vault = vault;
      winner_token = winner_token;
      fee_token = fee_token;
      rest = rest;
      mint_key = mint.key;
      program = program;
      s1 = s1;
      s2 = s2;
      program_given = program-ok acc.token_program program known;
      vault_given = given-ok l.vault vault a;
      winner_given = given-ok l.winner_token winner_token b;
      fee_given = given-ok l.fee_recipient_token fee_token c;
      pot_there = pot_in_vault l.game.amount pot vault.value.amount d e;
      rest_there = rest_of_vault vault.value.amount fee rest f;
      fee_paid = g;
      winner_paid = i;
      vault_closed = h12;
    }
