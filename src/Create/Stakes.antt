-- ===== src/Create/Stakes.antt =====
-- The stake of a new game against its limits, in lamports and in tokens.
use coinflip_program.Base.{
  sym, Bool, Bool-cases, Option, none, [], ◌∷◌, ap, ◌∙◌, inl, inr, ==_iff, ℕ, ◌≡◌, ◌≢◌, ◌≤◌, ◌⊎◌,
  true, false, some, arith,
}
use coinflip_program.Error.{
  CoinflipError, ok, ok_or, token_not_enabled, token_account_required, invalid_mint, require-eq-ok,
  >>=-eq-ok,
}
use coinflip_program.State.{
  Pubkey, TokenConfig, Game, token_seed, key_bytes, program_id, default_key, is_native_sol,
}
use coinflip_program.Runtime.{Mint, Ledger, Runtime}
use coinflip_program.Accounts.{
  Account, load_optional, load_token_config, load_mint, require_keys_eq,
}
use coinflip_program.TokenUtils.{require_enabled_token}
use coinflip_program.Create.{
  Create, CreateArgs, LoadedCreate, create_decimals, require_max, new_game,
}
use coinflip_program.Create.Opening.{IsLoaded}

-- The limits of a stake in lamports: the minimum always, the maximum for house games, unless it
-- is 0.
pub record IsWithin (min max : ℕ) (g : Game) : Type 0 where
  pub above_min : min ≤ g.amount
  pub below_max : (g.house_only ≡ false) ⊎ (max ≡ 0) ⊎ (g.amount ≤ max)

new_game-IsWithin :
    (r : Runtime) (acc : Create) (l : LoadedCreate) (args : CreateArgs) (decimals : ℕ)
    → args.mint ≡ default_key
    → create_decimals r l args ≡ ok decimals
    → IsWithin l.config.sol_min_amount l.config.sol_max_amount
        (new_game acc.creator l args decimals)
unfolding create_decimals new_game
new_game-IsWithin r acc l args decimals native h = ground arith

new_game-token_decimals :
    (r : Runtime) (acc : Create) (l : LoadedCreate) (args : CreateArgs) (decimals : ℕ)
    → args.mint ≡ default_key
    → create_decimals r l args ≡ ok decimals
    → (new_game acc.creator l args decimals).token_decimals ≡ 0
unfolding create_decimals new_game
new_game-token_decimals r acc l args decimals native h = ground arith

-- The settings that list a stake's mint: they stand at the mint's address, are switched on, and
-- limit the stake. The decimals are those of the mint's account.
pub record IsListedStake (r : Runtime) (s : Ledger) (args : CreateArgs) (g : Game) : Type 0 where
  pub key : Pubkey
  pub settings : TokenConfig
  pub stored : s.token_configs key ≡ some settings
  pub derived : key ≡ (r.find_program_address (token_seed ∷ key_bytes args.mint ∷ []) program_id).0
  pub same_mint : settings.mint ≡ args.mint
  pub enabled : settings.is_enabled ≡ true
  pub within : IsWithin settings.min_amount settings.max_amount g
  pub mint : Mint
  pub mint_read : r.unpack_mint (s.bytes args.mint) ≡ some mint
  pub decimals : g.token_decimals ≡ mint.decimals

token_read :
    (s : Ledger) (given : Option Pubkey) (a : Account TokenConfig)
    → load_optional (load_token_config s) given ≡ ok (some a)
    → s.token_configs a.key ≡ some a.value
token_read s none a h = cc
token_read s (some k) a h = ground arith

mint_read_at :
    (r : Runtime) (s : Ledger) (given : Option Pubkey) (a : Account Mint) (mint : Pubkey)
    → load_optional (load_mint r s) given ≡ ok (some a)
    → a.key ≡ mint
    → r.unpack_mint (s.bytes mint) ≡ some a.value
mint_read_at r s none a mint h k = cc
mint_read_at r s (some j) a mint h k = ground arith

given-ok : {A : Type 0} (o : Option A) (e : CoinflipError) (a : A) → ok_or o e ≡ ok a → o ≡ some a
given-ok o e a h = ground arith

ok_same : {m n : ℕ} → ok m ≡ ok n → m ≡ n
ok_same h = cc

max_kept :
    (house_only : Bool) (amount max : ℕ) {u : Unit {0}}
    → require_max house_only amount max ≡ ok u
    → (house_only ≡ false) ⊎ (max ≡ 0) ⊎ (amount ≤ max)
max_kept house_only amount max h = ground arith

token_enabled :
    (r : Runtime) (a : Account TokenConfig) (mint : Pubkey) (amount : ℕ) {u : Unit {0}}
    → require_enabled_token r a mint amount ≡ ok u
    → (a.key ≡ (r.find_program_address (token_seed ∷ key_bytes mint ∷ []) program_id).0)
      × (a.value.mint ≡ mint)
      × (a.value.is_enabled ≡ true)
      × (a.value.min_amount ≤ amount)
unfolding require_enabled_token
token_enabled r a mint amount h = ground arith

module _ (r : Runtime) (acc : Create) (args : CreateArgs) (s s1 : Ledger) (l : LoadedCreate)
    (loaded : IsLoaded r acc args s s1 l) (decimals : ℕ)
    (h : create_decimals r l args ≡ ok decimals) where
  tokens_listed :
      is_native_sol args.mint ≡ false
      → IsListedStake r s args (new_game acc.creator l args decimals)
  unfolding create_decimals new_game
  tokens_listed token =
      let h0 = rw token at h in
      let (a, given, h1) = >>=-eq-ok (ok_or l.token_config token_not_enabled) _ h0 in
      let (_, listed, h2) = >>=-eq-ok (require_enabled_token r a args.mint args.amount) _ h1 in
      let (_, max, h3) =
        >>=-eq-ok (require_max args.house_only args.amount a.value.max_amount) _ h2 in
      let (m, minted, h4) = >>=-eq-ok (ok_or l.mint_account token_account_required) _ h3 in
      let (_, at_mint, told) = >>=-eq-ok (require_keys_eq m.key args.mint invalid_mint) _ h4 in
      let (derived, same_mint, enabled, above_min) =
        token_enabled r a args.mint args.amount listed in
      record {
        key = a.key;
        settings = a.value;
        stored =
            token_read s acc.token_config a
              (loaded.listing ∙ ap ok (given-ok l.token_config _ a given));
        derived = derived;
        same_mint = same_mint;
        enabled = enabled;
        within = record {
          above_min = above_min;
          below_max = max_kept args.house_only args.amount a.value.max_amount max;
        };
        mint = m.value;
        mint_read =
            mint_read_at r s acc.mint_account m args.mint
              (loaded.minted ∙ ap ok (given-ok l.mint_account _ m minted))
              ((==_iff _ _).0 (require-eq-ok _ invalid_mint at_mint));
        decimals = sym (ok_same told);
      }

  pub limits_of :
      ((args.mint ≡ default_key)
        × ((new_game acc.creator l args decimals).token_decimals ≡ 0)
        × IsWithin l.config.sol_min_amount l.config.sol_max_amount
            (new_game acc.creator l args decimals))
      ⊎ ((args.mint ≢ default_key) × IsListedStake r s args (new_game acc.creator l args decimals))
  limits_of = elim (Bool-cases (is_native_sol args.mint)) [
    | inl native ↦
        (let is_default = (==_iff args.mint default_key).0 native in
          inl (
            is_default,
            new_game-token_decimals r acc l args decimals is_default h,
            new_game-IsWithin r acc l args decimals is_default h,
          ))
    | inr token ↦ inr (λ e. ground arith, tokens_listed token)
  ]
