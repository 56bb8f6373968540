-- ===== src/Error.antt =====
-- src/errors.rs and the result type of every instruction. An instruction that fails leaves the
-- ledger as it was, since the runtime rolls the transaction back, so an error carries no state.
use coinflip_program.Base.{ℕ, ◌≡◌, refl, Bool, true, false, Option, none, some, arith}

-- `CoinflipError`, with the source's variants in the source's order.
pub data CoinflipError : Type 0 where
  unauthorized paused invalid_amount amount_mismatch already_joined not_ready : CoinflipError
  entropy_all_zero cannot_join_own_game cancel_not_allowed invalid_side : CoinflipError
  invalid_winner invalid_fee_bps arithmetic_overflow invalid_min_amount : CoinflipError
  token_not_enabled amount_below_minimum amount_above_maximum invalid_max_amount : CoinflipError
  invalid_mint token_account_required token_account_mismatch pool_required : CoinflipError
  invalid_quote_mint invalid_pool invalid_swap_accounts invalid_pay_mint : CoinflipError
  sol_usdc_pool_not_set slippage_exceeded insufficient_liquidity : CoinflipError
  slot_hash_not_ready authority_cancel_not_initiated authority_cancel_not_ready : CoinflipError
  invalid_vrf_program invalid_vrf_accounts vrf_not_fulfilled house_only : CoinflipError
  house_only_requires_side : CoinflipError

-- The checks that the account attributes ask of Anchor, by the attribute that failed.
pub data ConstraintError : Type 0 where
  not_signer seeds address close account_not_initialized invalid_program_id : ConstraintError

-- `external` is an error that another program or the runtime returns.
pub data Error : Type 0 where
  coinflip : CoinflipError → Error
  constraint : ConstraintError → Error
  external : ℕ → Error

-- An instruction's outcome: an error, or what it returns.
pub data Result {κ} (T : Type κ) : Type κ where
  err : Error → Result T
  ok : T → Result T

-- `require!(test, e)`
abbrev pub require : Bool → CoinflipError → Result (Unit {0})
require true e = ok tt
require false e = err (coinflip e)

-- An attribute's check, which fails with an error of Anchor's own.
abbrev pub check : Bool → ConstraintError → Result (Unit {0})
check true e = ok tt
check false e = err (constraint e)

-- `option.ok_or(e)?`
abbrev pub ok_or {ℓ} : {A : Type ℓ} → Option A → CoinflipError → Result A
ok_or (some a) e = ok a
ok_or none e = err (coinflip e)

abbrev pub loaded {ℓ} : {A : Type ℓ} → Option A → Result A
loaded (some a) = ok a
loaded none = err (constraint account_not_initialized)

-- The `?` operator, and its form for a test that returns nothing.
infixl 5 ◌>>=◌
abbrev pub ◌>>=◌ {κ μ} : {T : Type κ} {U : Type μ} → Result T → (next : T → Result U) → Result U
err failure >>= next = err failure
ok value >>= next = next value

infixl 5 ◌>>◌
abbrev pub ◌>>◌ {κ} : {T : Type κ} (test : Result (Unit {0})) (rest : Result T) → Result T
test >> rest = test >>= (λ u. rest)

-- A chain that ends well has gone through its first step.
pub >>=-eq-ok {κ μ} :
    {T : Type κ} {U : Type μ} (first : Result T) (next : T → Result U) {result : U}
    → first >>= next ≡ ok result
    → (value : T) × (first ≡ ok value) × (next value ≡ ok result)
>>=-eq-ok (err failure) next ends = cc
>>=-eq-ok (ok value) next ends = (value, refl, ends)

abbrev pub is_ok {ℓ} : {A : Type ℓ} → Result A → Bool
is_ok (ok a) = true
is_ok (err e) = false

-- Inversion of a test, for proofs that must not read the whole instruction.
pub require-eq-ok : (b : Bool) (e : CoinflipError) {u : Unit {0}} → require b e ≡ ok u → b ≡ true
require-eq-ok true e h = refl
require-eq-ok false e h = cc

pub check-eq-ok : (b : Bool) (e : ConstraintError) {u : Unit {0}} → check b e ≡ ok u → b ≡ true
check-eq-ok true e h = refl
check-eq-ok false e h = cc

pub loaded-eq-ok {ℓ} : {A : Type ℓ} (o : Option A) {a : A} → loaded o ≡ ok a → o ≡ some a
loaded-eq-ok (some a) h = ground arith
loaded-eq-ok none h = cc
