-- ===== src/Admin/Listing.antt =====
-- What enabling a token stores.
use coinflip_program.Base.{
  sym, ap, ◌∙◌, ℕ, ◌≡◌, ◌≢◌, ◌⊎◌, ◌≤◌, ◌<◌, Bool-cases, inl, inr, true, false, [], ◌∷◌, some, ◌==◌,
  ==_iff, arith,
}
use coinflip_program.Error.{
  ok, check, seeds, not_signer, unauthorized, check-eq-ok, require-eq-ok, loaded-eq-ok, >>=-eq-ok,
}
use coinflip_program.State.{
  Pubkey, Config, TokenConfig, default_key, is_sol_mint, token_seed, key_bytes, program_id,
}
use coinflip_program.Runtime.{Ledger, Runtime}
use coinflip_program.Accounts.{
  load_config, require_signer, check_config_seeds, require_keys_eq, store_token_config,
}
use coinflip_program.Admin.{
  EnableToken, EnableTokenArgs, init_if_needed, token_settings, enable_token,
}

-- The settings that were asked for, field by field.
pub record AreSettings (args : EnableTokenArgs) (bump : ℕ) (t : TokenConfig) : Type 0 where
  pub mint : t.mint ≡ args.mint
  pub min_amount : t.min_amount ≡ args.min_amount
  pub max_amount : t.max_amount ≡ args.max_amount
  pub is_enabled : t.is_enabled ≡ args.is_enabled
  pub bump_found : t.bump ≡ bump
  pub pool : t.pool ≡ args.pool
  pub quote_mint : t.quote_mint ≡ args.quote_mint
  pub cross_disabled : t.cross_disabled ≡ args.cross_disabled

-- The limits, the pool and the quote of a token that is switched on.
pub record IsListed (c : Config) (t : TokenConfig) : Type 0 where
  pub min_positive : 0 < t.min_amount
  pub max_above_min : t.min_amount ≤ t.max_amount
  pub has_pool : t.pool ≢ default_key
  pub quoted :
      (is_sol_mint t.quote_mint ≡ true)
      ⊎ ((t.quote_mint ≡ c.usdc_mint) × (c.usdc_mint ≢ default_key))

token_settings-AreSettings :
    (c : Config) (args : EnableTokenArgs) (bump : ℕ) (t : TokenConfig)
    → token_settings c args bump ≡ ok t
    → AreSettings args bump t
unfolding token_settings
token_settings-AreSettings c args bump t h = ground arith

token_settings-IsListed :
    (c : Config) (args : EnableTokenArgs) (bump : ℕ) (t : TokenConfig)
    → token_settings c args bump ≡ ok t
    → t.is_enabled ≡ true
    → IsListed c t
unfolding token_settings
token_settings-IsListed c args bump t h on = ground arith

IsListed-if_enabled :
    (c : Config) (args : EnableTokenArgs) (bump : ℕ) (t : TokenConfig)
    → token_settings c args bump ≡ ok t
    → (t.is_enabled ≡ false) ⊎ IsListed c t
IsListed-if_enabled c args bump t h = elim (Bool-cases t.is_enabled) [
  | inl on ↦ inr (token_settings-IsListed c args bump t h on)
  | inr off ↦ inl off
]

stored_there :
    (r : Runtime) (k : Pubkey) (t : TokenConfig) (s s' : Ledger)
    → store_token_config r k t s ≡ s'
    → (s'.token_configs k ≡ some t) × (s'.bytes k ≡ r.encode_token_config t)
stored_there r k t s s' h =
    let listed : (store_token_config r k t s).token_configs k ≡ some t = ground arith in
    let written : (store_token_config r k t s).bytes k ≡ r.encode_token_config t = ground arith in
    (sym (ap (λ x. x.token_configs k) h) ∙ listed, sym (ap (λ x. x.bytes k) h) ∙ written)

-- Enabling a token stores, at the address that the mint derives, exactly the settings that were asked
-- for, with the bump of that address, and was signed by the house that the configuration names. Unless
-- they switch the token off, the settings have limits above zero in the right order, a pool, and a quote
-- that is SOL or the configured USDC. The account's data is the encoding of the settings.
pub enable_token_stores :
    (r : Runtime) (acc : EnableToken) (args : EnableTokenArgs) (s s' : Ledger)
    → enable_token r acc args s ≡ ok s'
    → (c : Config) × (t : TokenConfig) × (s.configs acc.config ≡ some c)
      × (c.authority ≡ acc.authority)
      × (s.signed acc.authority ≡ true)
      × (acc.token_config
          ≡ (r.find_program_address (token_seed ∷ key_bytes args.mint ∷ []) program_id).0)
      × (s'.token_configs acc.token_config ≡ some t)
      × (s'.bytes acc.token_config ≡ r.encode_token_config t)
      × AreSettings args
          (r.find_program_address (token_seed ∷ key_bytes args.mint ∷ []) program_id).1
          t
      × ((t.is_enabled ≡ false) ⊎ IsListed c t)
unfolding enable_token
enable_token_stores r acc args s s' h =
    let address = r.find_program_address (token_seed ∷ key_bytes args.mint ∷ []) program_id in
    let (c, at, h1) = >>=-eq-ok (load_config acc.config s) _ h in
    let (_, signed, h2) = >>=-eq-ok (require_signer acc.authority s) _ h1 in
    let (_, derived, h3) = >>=-eq-ok (check (acc.token_config == address.0) seeds) _ h2 in
    let (s1, _, h4) =
      >>=-eq-ok
        (init_if_needed (s.token_configs acc.token_config) (r.init acc.authority acc.token_config s)
          s)
        _ h3 in
    let (_, _, h5) = >>=-eq-ok (check_config_seeds r acc.config c) _ h4 in
    let (_, house, h6) = >>=-eq-ok (require_keys_eq c.authority acc.authority unauthorized) _ h5 in
    let (t, made, storing) = >>=-eq-ok (token_settings c args address.1) _ h6 in
    let stored : store_token_config r acc.token_config t s1 ≡ s' = cc in
    (
      c,
      t,
      loaded-eq-ok _ at,
      (==_iff _ _).0 (require-eq-ok _ unauthorized house),
      check-eq-ok _ not_signer signed,
      (==_iff _ _).0 (check-eq-ok _ seeds derived),
      (stored_there r acc.token_config t s1 s' stored).0,
      (stored_there r acc.token_config t s1 s' stored).1,
      token_settings-AreSettings c args address.1 t made,
      IsListed-if_enabled c args address.1 t made,
    )
