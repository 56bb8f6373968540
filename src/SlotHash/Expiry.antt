-- ===== src/SlotHash/Expiry.antt =====
-- What an expired lookup means: the join slot has left the sysvar.
use coinflip_program.Base.{ℕ, ◌<◌, ◌^◌, ◌≡◌, ◌↔◌, refl, ap, List, [], ◌∷◌, arith, length}
use coinflip_program.Error.{ok}
use coinflip_program.Runtime.{Ledger, Runtime}
use coinflip_program.SlotHash.{Scan, expired, hit, miss, verdict, lookup_join_slot_hash}
use coinflip_program.SlotHash.Search.{Entry, encode, AreEntries, search_entries, lookup-encode}

abbrev pub AllAbove : ℕ → List Entry → Type 0
AllAbove n [] = Unit
AllAbove n (e ∷ es) = (n < e.slot) × AllAbove n es

abbrev AllBelow : ℕ → List Entry → Type 0
AllBelow n [] = Unit
AllBelow n (e ∷ es) = (e.slot < n) × AllBelow n es

-- Newest first: every slot is later than all that follow it.
abbrev pub IsNewestFirst : List Entry → Type 0
IsNewestFirst [] = Unit
IsNewestFirst (e ∷ es) = AllBelow e.slot es × IsNewestFirst es

-- The last slot that the search reports is the least of all.
miss_least :
    (es : List Entry) (oldest o n : ℕ)
    → IsNewestFirst es
    → AllBelow oldest es
    → search_entries es oldest n ≡ miss o
    → n < o
    → (n < oldest) × AllAbove n es
miss_least [] oldest o n d b e h = ground arith
miss_least (x ∷ es) oldest o n d b e h = ground (arith, miss_least es x.slot o n d.1 d.0)

-- Past entries that are all later the search reports a later slot.
miss_above :
    (es : List Entry) (oldest n : ℕ)
    → n < oldest
    → AllAbove n es
    → (o : ℕ) × (search_entries es oldest n ≡ miss o) × (n < o)
miss_above [] oldest n h a = (oldest, refl, h)
miss_above (x ∷ es) oldest n h a =
    let (o, e, l) = miss_above es x.slot n a.0 a.1 in (o, ground (arith, e), l)

expired_facts :
    (x : Entry) (es : List Entry) (clock n : ℕ)
    → IsNewestFirst (x ∷ es)
    → (end : Scan) → search_entries es x.slot n ≡ end
    → verdict (search_entries (x ∷ es) n n) clock (length (x ∷ es)) n ≡ expired
    → (n < clock) × AllAbove n (x ∷ es)
expired_facts x es clock n d (hit hash) e h = ground arith
expired_facts x es clock n d (miss o) e h = ground (arith, miss_least es x.slot o n d.1 d.0)

verdict_iff :
    (es : List Entry) (clock n : ℕ)
    → IsNewestFirst es
    → (verdict (search_entries es n n) clock (length es) n ≡ expired)
      ↔ ((n < clock) × AllAbove n es)
verdict_iff [] clock n d = (λ h. ground arith, λ h. ground arith)
verdict_iff (x ∷ es) clock n d = (
  λ h. expired_facts x es clock n d (search_entries es x.slot n) refl h,
  λ h. let (o, e, l) = miss_above es x.slot n h.1.0 h.1.1 in ground (arith, e),
)

-- Over a sysvar whose entries stand newest first, with slots and a count that fit a u64 and hashes
-- of 32 bytes, a lookup says that the join slot has expired
-- exactly when the clock is past it and every entry that is kept is later.
pub lookup_expired_iff :
    (r : Runtime) (es : List Entry) (join_slot : ℕ) (s : Ledger)
    → s.bytes r.slot_hashes_id ≡ encode es
    → AreEntries es
    → length es < 2 ^ 64
    → IsNewestFirst es
    → (lookup_join_slot_hash r r.slot_hashes_id join_slot s ≡ ok expired)
      ↔ ((join_slot < s.slot) × AllAbove join_slot es)
lookup_expired_iff r es join_slot s layout h few order =
    let both = verdict_iff es s.slot join_slot order in
    rw (lookup-encode r es join_slot s layout h few)
      ((λ k. both.0 (ground (arith, k))), (λ k. ap ok (both.1 k)))
