-- ===== src/SlotHash/Search.antt =====
-- The search of the sysvar against its meaning: a list of slots and hashes.
use coinflip_program.Base.{
  ℕ, suc, ◌+◌, ◌^◌, ◌≤◌, ◌<◌, ◌≡◌, refl, Bytes, List, [], ◌∷◌, ◌++◌, arith, ◌==◌, if◌then◌else◌,
  length, length-append, le→leb, to_le_bytes, from_le_bytes, length-to_le_bytes, slice_middle,
  from_le-to_le, slice, sym, Bool, true, false, ==_iff,
}
use mathlib.Core.List.{append_assoc}
use coinflip_program.Error.{Result, ok}
use coinflip_program.Runtime.{Ledger, Runtime}
use coinflip_program.SlotHash.{Scan, hit, miss, scan, verdict, lookup_join_slot_hash}

pub record Entry : Type 0 where
  pub slot : ℕ
  pub hash : Bytes

-- The sysvar's layout.
unfoldable pub encode_entries : List Entry → Bytes
encode_entries [] = []
encode_entries (e ∷ es) = to_le_bytes 8 e.slot ++ (e.hash ++ encode_entries es)

unfoldable pub encode : List Entry → Bytes
encode es = to_le_bytes 8 (length es) ++ encode_entries es

abbrev pub AreEntries : List Entry → Type 0
AreEntries [] = Unit
AreEntries (e ∷ es) = (e.slot < 2 ^ 64) × (length e.hash ≡ 32) × AreEntries es

-- The first entry of the join slot, or the last slot of all.
abbrev pub search_entries : List Entry → (oldest join_slot : ℕ) → Scan
search_entries [] oldest join_slot = miss oldest
search_entries (e ∷ es) oldest join_slot =
    if e.slot == join_slot then hit e.hash else search_entries es e.slot join_slot

scan_step :
    (n : ℕ) (bytes : Bytes) (off oldest join_slot slot : ℕ) (hash : Bytes)
    → off + 40 ≤ length bytes
    → from_le_bytes (slice bytes off (off + 8)) ≡ slot
    → slice bytes (off + 8) (off + 40) ≡ hash
    → scan (suc n) bytes off oldest join_slot
      ≡ (if slot == join_slot then ok (hit hash) else scan n bytes (off + 40) slot join_slot)
unfolding scan
scan_step n bytes off oldest join_slot slot hash fits a b = rw (le→leb _ _ fits, a, b)

-- The entry at the front, with what stands before it and behind it.
module _ (e : Entry) (before rest : Bytes) (off : ℕ) (h : e.slot < 2 ^ 64) (w : length e.hash ≡ 32)
    (a : off ≡ length before) where
  abbrev entry_bytes : Bytes
  entry_bytes = before ++ (to_le_bytes 8 e.slot ++ (e.hash ++ rest))

  entry_fits : off + 40 ≤ length entry_bytes
  entry_fits = rw (length-append, length-append, length-append, length-to_le_bytes, w) (omega arith)

  entry_slot : from_le_bytes (slice entry_bytes off (off + 8)) ≡ e.slot
  entry_slot =
      rw
        (slice_middle before (to_le_bytes 8 e.slot) (e.hash ++ rest) off (off + 8) a
          (omega (arith, length-to_le_bytes 8 e.slot)))
        (from_le-to_le 8 e.slot h)

  entry_hash : slice entry_bytes (off + 8) (off + 40) ≡ e.hash
  entry_hash = rw (← append_assoc) (
      slice_middle (before ++ to_le_bytes 8 e.slot) e.hash rest (off + 8) (off + 40)
        (omega (arith, length-append before (to_le_bytes 8 e.slot), length-to_le_bytes 8 e.slot))
        (omega (arith, w)))

  entry_end : off + 40 ≡ length (before ++ (to_le_bytes 8 e.slot ++ e.hash))
  entry_end = rw (length-append, length-append, length-to_le_bytes, w) (omega arith)

  entry_regroup : entry_bytes ≡ (before ++ (to_le_bytes 8 e.slot ++ e.hash)) ++ rest
  entry_regroup = simp append_assoc

if-ok :
    (b : Bool) (x y : Scan)
    → ◌≡◌ {A = Result Scan} (if b then ok x else ok y) (ok (if b then x else y))
if-ok true x y = refl
if-ok false x y = refl

scan-encode :
    (es : List Entry) (before : Bytes) (off oldest join_slot : ℕ)
    → AreEntries es
    → off ≡ length before
    → scan (length es) (before ++ encode_entries es) off oldest join_slot
      ≡ ok (search_entries es oldest join_slot)
unfolding encode_entries
scan-encode [] before off oldest join_slot h a = unfold scan in refl
scan-encode (e ∷ es) before off oldest join_slot (h, w, t) a =
    let rest = encode_entries es in
    let number = to_le_bytes 8 e.slot in
    let ih =
      scan-encode es (before ++ (number ++ e.hash)) (off + 40) e.slot join_slot t
        (entry_end e before rest off h w a) in
    rw
      (scan_step (length es) (before ++ (number ++ (e.hash ++ rest))) off oldest join_slot e.slot
        e.hash (entry_fits e before rest off h w a) (entry_slot e before rest off h w a)
        (entry_hash e before rest off h w a))
      (rw (entry_regroup e before rest off h w a, ih)
        (if-ok (e.slot == join_slot) (hit e.hash) (search_entries es e.slot join_slot)))

length-encode : (es : List Entry) → 8 ≤ length (encode es)
unfolding encode
length-encode es = rw (length-append, length-to_le_bytes) (omega arith)

-- Over a sysvar that holds the entries `es`, with slots and a count that fit a u64 and hashes of 32
-- bytes, the lookup is the search of `es`: it reads the whole layout and never fails on it.
pub lookup-encode :
    (r : Runtime) (es : List Entry) (join_slot : ℕ) (s : Ledger)
    → s.bytes r.slot_hashes_id ≡ encode es
    → AreEntries es
    → length es < 2 ^ 64
    → lookup_join_slot_hash r r.slot_hashes_id join_slot s
      ≡ ok (verdict (search_entries es join_slot join_slot) s.slot (length es) join_slot)
unfolding lookup_join_slot_hash
lookup-encode r es join_slot s layout h few =
    let count : from_le_bytes (slice (encode es) 0 8) ≡ length es =
      unfold encode in
      rw
        (slice_middle [] (to_le_bytes 8 (length es)) (encode_entries es) 0 8 refl
          (omega (arith, length-to_le_bytes 8 (length es))))
        (from_le-to_le 8 (length es) few) in
    let scanned : scan (length es) (encode es) 8 join_slot join_slot
        ≡ ok (search_entries es join_slot join_slot) =
      unfold encode in
      scan-encode es (to_le_bytes 8 (length es)) 8 join_slot join_slot h
        (sym (length-to_le_bytes 8 (length es))) in
    rw (
      (==_iff r.slot_hashes_id r.slot_hashes_id).1 refl,
      layout,
      le→leb _ _ (length-encode es),
      count,
      scanned,
    )
