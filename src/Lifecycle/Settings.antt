-- ===== src/Lifecycle/Settings.antt =====
-- Settings and trades leave the games as they are.
use coinflip_program.Base.{◌≡◌, ◌∙◌, ap, sym, refl, Option, none, some}
use coinflip_program.Error.{Result, ok, err, ◌>>=◌}
use coinflip_program.State.{Pubkey, Config, TokenConfig}
use coinflip_program.Runtime.{Ledger, Runtime}
use coinflip_program.Runtime.Laws.{OwnershipLaw}
use coinflip_program.Accounts.{store_config, store_token_config}
use coinflip_program.Initialize.{Initialize, initialize}
use coinflip_program.Admin.{
  ConfigAccounts, Setting, EnableToken, EnableTokenArgs, init_if_needed, configure, enable_token,
}
use coinflip_program.Admin.Migration.{
  MigrateConfig, MigrateTokenConfig, follow_config, follow_token_config, migrate_config,
  migrate_token_config,
}
use coinflip_program.Solvency.Migrating.{Safe-resize_owned_account, Safe-init_new_config_fields}
use coinflip_program.Lifecycle.{Games}
use coinflip_program.Solvency.Safe.{Safe, Safe-ok, Safe-init}

-- Code that ends, if it succeeds, with the games `games`.
pub record Keeps (games : Games) (m : Result Ledger) : Type 0 where
  pub same : (s' : Ledger) → m ≡ ok s' → s'.games ≡ games

pub Keeps-read {ℓ} :
    {A : Type ℓ} (games : Games) (m : Result A) (f : A → Result Ledger)
    → ((a : A) → Keeps games (f a))
    → Keeps games (m >>= f)
Keeps-read games (ok a) f h = h a
Keeps-read games (err e) f h = record { same = λ s' k. cc }

-- The ledger has these games.
record Has (games : Games) (s : Ledger) : Type 0 where
  games_there : s.games ≡ games

Keeps-call :
    (games : Games) (s : Ledger) (m : Result Ledger) (f : Ledger → Result Ledger)
    → Has games s
    → Safe s m
    → ((t : Ledger) → Has games t → Keeps games (f t))
    → Keeps games (m >>= f)
Keeps-call games s (ok t) f e h k =
    k t (record { games_there = (h.respects t refl).games ∙ e.games_there })
Keeps-call games s (err e) f g h k = record { same = λ s' j. cc }

Keeps-ok : (games : Games) (s : Ledger) → Has games s → Keeps games (ok s)
Keeps-ok games s e = record {
  same = λ s' h. let same : s ≡ s' = cc in ap Ledger.games (sym same) ∙ e.games_there;
}

-- Stores of settings.
module _ (r : Runtime) (games : Games) (s : Ledger) (h : Has games s) (k : Pubkey) where
  Has-store_config : (c : Config) → Has games (store_config r k c s)
  Has-store_config c = record { games_there = h.games_there }

  Has-store_token_config : (t : TokenConfig) → Has games (store_token_config r k t s)
  Has-store_token_config t = record { games_there = h.games_there }

  Has-follow_config : Has games (follow_config r k s)
  Has-follow_config = record { games_there = h.games_there }

  Has-follow_token_config : Has games (follow_token_config r k s)
  Has-follow_token_config = record { games_there = h.games_there }

ruleset keeps_rules = (
  Keeps-read, Keeps-call, Keeps-ok, Has-store_config, Has-store_token_config, Has-follow_config,
  Has-follow_token_config,
)

init_if_needed-Safe :
    (s : Ledger) (t : Option TokenConfig) (m : Result Ledger)
    → Safe s m
    → Safe s (init_if_needed t m s)
init_if_needed-Safe s none m h = h
init_if_needed-Safe s (some t) m h = Safe-ok s

module _ (r : Runtime) (own : OwnershipLaw r) (s : Ledger) where
  Has-refl : Has s.games s
  Has-refl = record { games_there = refl }

  pub initialize-Keeps : (acc : Initialize) (vrf : Pubkey) → Keeps s.games (initialize r acc vrf s)
  unfolding initialize
  initialize-Keeps acc vrf = search (keeps_rules, Has-refl, Safe-init r own) depth 16

  pub configure-Keeps :
      (acc : ConfigAccounts) (setting : Setting) → Keeps s.games (configure r acc setting s)
  unfolding configure
  configure-Keeps acc setting = search (keeps_rules, Has-refl) depth 16

  pub enable_token-Keeps :
      (acc : EnableToken) (args : EnableTokenArgs) → Keeps s.games (enable_token r acc args s)
  unfolding enable_token
  enable_token-Keeps acc args =
      search (keeps_rules, Has-refl, Safe-init r own, init_if_needed-Safe) depth 16

  pub migrate_config-Keeps : (acc : MigrateConfig) → Keeps s.games (migrate_config r acc s)
  unfolding migrate_config
  migrate_config-Keeps acc =
      search (keeps_rules, Has-refl, Safe-resize_owned_account r own, Safe-init_new_config_fields)
        depth 16

  pub migrate_token_config-Keeps :
      (acc : MigrateTokenConfig) (mint : Pubkey) → Keeps s.games (migrate_token_config r acc mint s)
  unfolding migrate_token_config
  migrate_token_config-Keeps acc mint =
      search (keeps_rules, Has-refl, Safe-resize_owned_account r own) depth 16
