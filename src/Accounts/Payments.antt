-- ===== src/Accounts/Payments.antt =====
-- What a payment of lamports by the program itself does.
use coinflip_program.Base.{ℕ, ◌+◌, ◌-◌, ◌≤◌, ◌<◌, ◌^◌, ◌≡◌, ◌≢◌, update, arith, if◌then◌else◌, ◌==◌}
use coinflip_program.Error.{ok}
use coinflip_program.State.{Pubkey}
use coinflip_program.Runtime.{Ledger}
use coinflip_program.Runtime.Laws.{closed}
use coinflip_program.Accounts.{pay_lamports}

module _ (from to : Pubkey) (n : ℕ) (s s' : Ledger) (h : pay_lamports from to n s ≡ ok s') where
  pub pay_lamports_covered : n ≤ s.lamports from
  unfolding pay_lamports
  pay_lamports_covered = ground arith

  pub pay_lamports_moved : s' ≡ record s {
    lamports = update (update s.lamports from (s.lamports from - n)) to (s.lamports to + n);
  }
  unfolding pay_lamports
  pay_lamports_moved = ground arith

-- A payment that is covered, and that the receiver's balance can hold, succeeds.
pub pay_lamports_total :
    (from to : Pubkey) (n : ℕ) (s : Ledger)
    → n ≤ s.lamports from
    → s.lamports to + n < 2 ^ 64
    → pay_lamports from to n s
      ≡ ok (record s {
        lamports = update (update s.lamports from (s.lamports from - n)) to (s.lamports to + n);
      })
unfolding pay_lamports
pay_lamports_total from to n s h k = ground arith

-- The payment, account by account.
pub pay_lamports_pays :
    (from to : Pubkey) (n : ℕ) (s s' : Ledger)
    → to ≢ from
    → pay_lamports from to n s ≡ ok s'
    → (k : Pubkey)
    → (n ≤ s.lamports from)
      × (s'.lamports k ≡ (
          if k == to
          then s.lamports k + n
          else (if k == from then s.lamports k - n else s.lamports k)))
unfolding pay_lamports
pay_lamports_pays from to n s s' apart h k = ground arith

-- A game's account that paid `n` to one account and was closed to another.
module _ (game destination to : Pubkey) (n : ℕ) (s s1 : Ledger) (a : game ≢ destination)
    (b : to ≢ game) (c : to ≢ destination)
    (pays : (k : Pubkey)
      → (n ≤ s.lamports game)
        × (s1.lamports k ≡ (
            if k == to
            then s.lamports k + n
            else (if k == game then s.lamports k - n else s.lamports k)))) where
  pub paid_out_after : (closed game destination s1).lamports to ≡ s.lamports to + n
  paid_out_after = ground (arith, pays to)

  pub rest_after :
      (closed game destination s1).lamports destination + n
      ≡ s.lamports destination + s.lamports game
  rest_after = ground (arith, pays destination, pays game)

  pub others_after :
      (k : Pubkey)
      → k ≢ game
      → k ≢ to
      → k ≢ destination
      → (closed game destination s1).lamports k ≡ s.lamports k
  others_after k p q t = ground (arith, pays k)
