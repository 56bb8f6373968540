-- ===== src/TokenUtils/Transfers.antt =====
-- A transfer out of a game's vault, on the balances of token accounts.
use coinflip_program.Base.{subst, ℕ, ◌+◌, ◌≡◌, ◌≢◌, ◌⊎◌, refl, some, arith, inl, inr}
use coinflip_program.Error.{ok}
use coinflip_program.State.{Pubkey, token_program_id}
use coinflip_program.Runtime.{Ledger, Runtime}
use coinflip_program.Runtime.Laws.{balance}
use coinflip_program.Runtime.Tokens.{TokenLaw}
use coinflip_program.Accounts.{game_signer_seeds}
use coinflip_program.TokenUtils.{transfer_tokens_from_game}

-- A transfer out of the vault by the SPL token program, of no tokens or some.
module _ (r : Runtime) (law : TokenLaw r)
    (program from mint to game creator nonce bump amount decimals : ℕ) (s s' : Ledger)
    (spl : program ≡ token_program_id) (distinct : from ≢ to)
    (h : transfer_tokens_from_game r program from mint to game creator nonce bump amount decimals s
      ≡ ok s') where
  transfer_cases :
      ((amount ≡ 0) × (s ≡ s'))
      ⊎ (r.transfer_checked program
            (record { from = from; mint = mint; to = to; authority = game })
            amount
            decimals
            (some (game_signer_seeds creator nonce bump))
            s
          ≡ ok s')
  unfolding transfer_tokens_from_game
  transfer_cases = ground arith

  spl_transfer :
      r.transfer_checked program
          (record { from = from; mint = mint; to = to; authority = game })
          amount
          decimals
          (some (game_signer_seeds creator nonce bump))
          s
        ≡ ok s'
      → r.transfer_checked token_program_id
          (record { from = from; mint = mint; to = to; authority = game })
          amount
          decimals
          (some (game_signer_seeds creator nonce bump))
          s
        ≡ ok s'
  spl_transfer e =
      subst
        (λ x.
          r.transfer_checked x (record { from = from; mint = mint; to = to; authority = game })
            amount decimals (some (game_signer_seeds creator nonce bump)) s
          ≡ ok s')
        spl e

  pub receiver_arrived : balance s' to ≡ balance s to + amount
  receiver_arrived = elim transfer_cases [
    | inl (nothing, same) ↦ rw (nothing, ← same) (omega arith)
    | inr e ↦ law.arrived _ amount decimals _ s s' distinct (spl_transfer e)
  ]

  pub others_apart : (k : Pubkey) → k ≢ from → k ≢ to → balance s' k ≡ balance s k
  others_apart k a b = elim transfer_cases [
    | inl (nothing, same) ↦ rw (← same) refl
    | inr e ↦ law.apart _ amount decimals _ k s s' a b (spl_transfer e)
  ]
