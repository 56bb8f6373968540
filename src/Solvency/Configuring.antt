-- ===== src/Solvency/Configuring.antt =====
-- Changes of the configuration and of the listed tokens leave every game covered.
use coinflip_program.Base.{◌≡◌, refl, subst, Option, none, some}
use coinflip_program.Error.{Result, ok, err, ◌>>=◌}
use coinflip_program.State.{Pubkey, Config, TokenConfig}
use coinflip_program.Runtime.{Ledger, Runtime}
use coinflip_program.Runtime.Laws.{OwnershipLaw}
use coinflip_program.Accounts.{store_config, store_token_config}
use coinflip_program.Initialize.{Initialize, initialize}
use coinflip_program.Admin.{
  ConfigAccounts, Setting, EnableToken, EnableTokenArgs, init_if_needed, configure, enable_token,
}
use coinflip_program.Solvency.Safe.{Safe, Safe-ok, Safe-init}
use coinflip_program.Solvency.Invariant.{IsSolvent, Respects-IsSolvent}

-- A store of the configuration or of a token's settings leaves the games as they are.
store_config-IsSolvent :
    (r : Runtime) (k : Pubkey) (c : Config) (s : Ledger)
    → IsSolvent s
    → IsSolvent (store_config r k c s)
store_config-IsSolvent r k c s v = record {
  holds = λ j g e. let h = v.holds j g e in record { owned = h.owned; covered = h.covered };
}

store_token_config-IsSolvent :
    (r : Runtime) (k : Pubkey) (t : TokenConfig) (s : Ledger)
    → IsSolvent s
    → IsSolvent (store_token_config r k t s)
store_token_config-IsSolvent r k t s v = record {
  holds = λ j g e. let h = v.holds j g e in record { owned = h.owned; covered = h.covered };
}

-- Code that ends, if it succeeds, with every game covered.
pub record Ends (m : Result Ledger) : Type 0 where
  pub solvent : (s' : Ledger) → m ≡ ok s' → IsSolvent s'

pub Ends-read {ℓ} :
    {A : Type ℓ} (m : Result A) (f : A → Result Ledger) → ((a : A) → Ends (f a)) → Ends (m >>= f)
Ends-read (ok a) f h = h a
Ends-read (err e) f h = record { solvent = λ s' k. cc }

pub Ends-call :
    (s : Ledger) (m : Result Ledger) (f : Ledger → Result Ledger)
    → IsSolvent s
    → Safe s m
    → ((t : Ledger) → IsSolvent t → Ends (f t))
    → Ends (m >>= f)
Ends-call s (ok t) f v h k = k t (Respects-IsSolvent s t (h.respects t refl) v)
Ends-call s (err e) f v h k = record { solvent = λ s' k. cc }

pub Ends-ok : (s : Ledger) → IsSolvent s → Ends (ok s)
Ends-ok s v = record { solvent = λ s' h. let e : s ≡ s' = cc in subst IsSolvent e v }

-- Settings: the configuration changes, the games do not.
module _ (r : Runtime) (own : OwnershipLaw r) (s : Ledger) (v : IsSolvent s) where
  initialize-Ends : (acc : Initialize) (vrf : Pubkey) → Ends (initialize r acc vrf s)
  unfolding initialize
  initialize-Ends acc vrf =
      search (Ends-read, Ends-call s, Ends-ok, store_config-IsSolvent, Safe-init r own) depth 16

  configure-Ends : (acc : ConfigAccounts) (setting : Setting) → Ends (configure r acc setting s)
  unfolding configure
  configure-Ends acc setting = search (Ends-read, Ends-ok, store_config-IsSolvent) depth 16

  init_if_needed-Safe :
      (t : Option TokenConfig) (m : Result Ledger) → Safe s m → Safe s (init_if_needed t m s)
  init_if_needed-Safe none m h = h
  init_if_needed-Safe (some t) m h = Safe-ok s

  enable_token-Ends :
      (acc : EnableToken) (args : EnableTokenArgs) → Ends (enable_token r acc args s)
  unfolding enable_token
  enable_token-Ends acc args =
      search
        (
          Ends-read,
          Ends-call s,
          Ends-ok,
          store_token_config-IsSolvent,
          Safe-init r own,
          init_if_needed-Safe,
        )
        depth 16

  pub initialize-IsSolvent :
      (acc : Initialize) (vrf : Pubkey) (s' : Ledger)
      → initialize r acc vrf s ≡ ok s'
      → IsSolvent s'
  initialize-IsSolvent acc vrf = (initialize-Ends acc vrf).solvent

  pub configure-IsSolvent :
      (acc : ConfigAccounts) (setting : Setting) (s' : Ledger)
      → configure r acc setting s ≡ ok s'
      → IsSolvent s'
  configure-IsSolvent acc setting = (configure-Ends acc setting).solvent

  pub enable_token-IsSolvent :
      (acc : EnableToken) (args : EnableTokenArgs) (s' : Ledger)
      → enable_token r acc args s ≡ ok s'
      → IsSolvent s'
  enable_token-IsSolvent acc args = (enable_token-Ends acc args).solvent
