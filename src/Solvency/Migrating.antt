-- ===== src/Solvency/Migrating.antt =====
-- Migrations of the settings' accounts leave every game covered.
use coinflip_program.Base.{ℕ, ◌≡◌, refl, subst, arith, Bytes}
use coinflip_program.Error.{ok}
use coinflip_program.State.{Pubkey}
use coinflip_program.Runtime.{Ledger, Runtime}
use coinflip_program.Runtime.Laws.{OwnershipLaw, Respects}
use coinflip_program.Admin.Migration.{
  MigrateConfig, MigrateTokenConfig, lengthen, resize_owned_account, init_new_config_fields,
  follow_config, follow_token_config, migrate_config, migrate_token_config,
}
use coinflip_program.Solvency.Safe.{Safe, Safe-read, safe_rules}
use coinflip_program.Solvency.Invariant.{IsSolvent}
use coinflip_program.Solvency.Configuring.{Ends, Ends-read, Ends-call, Ends-ok}

follow_config-IsSolvent :
    (r : Runtime) (k : Pubkey) (s : Ledger) → IsSolvent s → IsSolvent (follow_config r k s)
follow_config-IsSolvent r k s v = record {
  holds = λ j g e. let h = v.holds j g e in record { owned = h.owned; covered = h.covered };
}

follow_token_config-IsSolvent :
    (r : Runtime) (k : Pubkey) (s : Ledger) → IsSolvent s → IsSolvent (follow_token_config r k s)
follow_token_config-IsSolvent r k s v = record {
  holds = λ j g e. let h = v.holds j g e in record { owned = h.owned; covered = h.covered };
}

Safe-bytes : (s : Ledger) (contents : Pubkey → Bytes) → Safe s (ok (record s { bytes = contents }))
Safe-bytes s contents = record {
  respects = λ s' h.
      let e : record s { bytes = contents } ≡ s' = cc in
      subst (Respects s) e (record {
        configs = refl;
        token_configs = refl;
        games = refl;
        owned = λ k o. o;
        funded = λ k o. omega arith;
      });
}

-- Writing the new fields changes data only.
pub Safe-init_new_config_fields :
    (config : Pubkey) (s : Ledger) → Safe s (init_new_config_fields config s)
unfolding init_new_config_fields
Safe-init_new_config_fields config s = search (Safe-read, Safe-bytes)

module _ (r : Runtime) (own : OwnershipLaw r) where
  Safe-lengthen :
      (account payer : Pubkey) (n : ℕ) (s : Ledger) → Safe s (lengthen r account payer n s)
  unfolding lengthen
  Safe-lengthen account payer n s = search (safe_rules, own) depth 12

  pub Safe-resize_owned_account :
      (account payer : Pubkey) (n : ℕ) (s : Ledger)
      → Safe s (resize_owned_account r account payer n s)
  unfolding resize_owned_account
  Safe-resize_owned_account account payer n s = search (safe_rules, Safe-lengthen) depth 12

  migrate_config-Ends :
      (acc : MigrateConfig) (s : Ledger) → IsSolvent s → Ends (migrate_config r acc s)
  unfolding migrate_config
  migrate_config-Ends acc s v =
      search
        (
          Ends-read, Ends-call, Ends-ok, follow_config-IsSolvent, Safe-resize_owned_account,
          Safe-init_new_config_fields,
        )
        depth 16

  migrate_token_config-Ends :
      (acc : MigrateTokenConfig) (mint : Pubkey) (s : Ledger)
      → IsSolvent s
      → Ends (migrate_token_config r acc mint s)
  unfolding migrate_token_config
  migrate_token_config-Ends acc mint s v =
      search
        (Ends-read, Ends-call, Ends-ok, follow_token_config-IsSolvent, Safe-resize_owned_account)
        depth 16

  pub migrate_config-IsSolvent :
      (acc : MigrateConfig) (s s' : Ledger)
      → IsSolvent s
      → migrate_config r acc s ≡ ok s'
      → IsSolvent s'
  migrate_config-IsSolvent acc s s' v = (migrate_config-Ends acc s v).solvent s'

  pub migrate_token_config-IsSolvent :
      (acc : MigrateTokenConfig) (mint : Pubkey) (s s' : Ledger)
      → IsSolvent s
      → migrate_token_config r acc mint s ≡ ok s'
      → IsSolvent s'
  migrate_token_config-IsSolvent acc mint s s' v =
      (migrate_token_config-Ends acc mint s v).solvent s'
