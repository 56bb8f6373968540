-- ===== src/Lifecycle/Phases.antt =====
-- The invariant of the machine: every game is well formed, and stays so.
use coinflip_program.Base.{
  ℕ, ◌≡◌, ◌≢◌, ◌⊎◌, none, some, sym, ap, ◌∙◌, subst, arith, update, inl, inr, Option,
}
use coinflip_program.State.{Pubkey, Game}
use coinflip_program.Join.{JoinArgs}
use coinflip_program.Join.Pairing.{IsPaired}
use coinflip_program.Lifecycle.{
  Games, IsFresh, Move, kept, opened, joined, announced, settled, cancelled, waiting, playing,
  IsWellFormed, AreWellFormed,
}

IsFresh-IsWellFormed : (g : Game) → IsFresh g → IsWellFormed g
IsFresh-IsWellFormed g f = record {
  stake_positive = f.stake_positive;
  fee_capped = f.fee_capped;
  entropy_nonzero = f.entropy_nonzero;
  phase = waiting f.is_open f.no_joiner;
}

IsPaired-IsWellFormed :
    (g g' : Game) (joiner : Pubkey) (args : JoinArgs) (slot : ℕ)
    → joiner ≢ g.creator
    → IsPaired g g' joiner args slot
    → IsWellFormed g
    → IsWellFormed g'
IsPaired-IsWellFormed g g' joiner args slot other p w = record {
  stake_positive = ground (arith, w.stake_positive, p.amount_kept);
  fee_capped = ground (arith, w.fee_capped, p.fee_kept);
  entropy_nonzero = λ e. w.entropy_nonzero (sym p.creator_entropy_kept ∙ e);
  phase = playing p.now_ready p.opposed (λ e. other (sym p.joiner_set ∙ e ∙ p.creator_kept));
}

announced-IsWellFormed :
    (g : Game) (slot : ℕ) → IsWellFormed g → IsWellFormed (record g { cancel_after_slot = slot })
announced-IsWellFormed g slot w = record {
  stake_positive = w.stake_positive;
  fee_capped = w.fee_capped;
  entropy_nonzero = w.entropy_nonzero;
  phase = elim w.phase [ waiting a b ↦ waiting a b | playing a b c ↦ playing a b c ];
}

-- A replaced game that is well formed, or none, among games that are.
update_facts :
    (games : Games) (k j : Pubkey) (o : Option Game) (g : Game)
    → update games k o j ≡ some g
    → (o ≡ some g) ⊎ (games j ≡ some g)
update_facts games k j o g e = ground arith

updated :
    (games games' : Games) (k : Pubkey) (o : Option Game)
    → AreWellFormed games
    → ((g : Game) → o ≡ some g → IsWellFormed g)
    → games' ≡ update games k o
    → AreWellFormed games'
updated games games' k o w h e = record {
  each = λ j g at. elim (update_facts games k j o g (ap (λ f. f j) (sym e) ∙ at)) [
    | inl here ↦ h g here
    | inr there ↦ w.each j g there
  ];
}

some-IsWellFormed : (g g' : Game) → IsWellFormed g → some g ≡ some g' → IsWellFormed g'
some-IsWellFormed g g' w e = let same : g ≡ g' = cc in subst IsWellFormed same w

pub Move-AreWellFormed :
    (games games' : Games) → Move games games' → AreWellFormed games → AreWellFormed games'
Move-AreWellFormed games games' (kept e) w = subst AreWellFormed (sym e) w
Move-AreWellFormed games games' (opened k g empty f e) w =
    updated games games' k (some g) w
      (λ g' same. some-IsWellFormed g g' (IsFresh-IsWellFormed g f) same) e
Move-AreWellFormed games games' (joined k g g' joiner args slot at other p e) w =
    updated games games' k (some g') w
      (λ x same.
        some-IsWellFormed g' x (IsPaired-IsWellFormed g g' joiner args slot other p (w.each k g at))
          same)
      e
Move-AreWellFormed games games' (announced k g slot at is_open e) w =
    updated games games' k _ w
      (λ x same. some-IsWellFormed _ x (announced-IsWellFormed g slot (w.each k g at)) same) e
Move-AreWellFormed games games' (settled k g at is_ready e) w =
    updated games games' k none w (λ x same. cc) e
Move-AreWellFormed games games' (cancelled k g at is_open e) w =
    updated games games' k none w (λ x same. cc) e
