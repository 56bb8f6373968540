-- ===== src/SlotHash.antt =====
-- src/slot_hash.rs: the search of the SlotHashes sysvar, which holds a count of eight bytes and
-- then, newest first, a slot of eight bytes and a hash of 32 for each entry.
pub mod Search
pub mod Expiry
use coinflip_program.Base.{
  ℕ, zero, suc, ◌+◌, ◌≡◌, Bool, true, false, Bytes, ◌&&◌, ◌||◌, ◌==◌, leb, ltb, if◌then◌else◌,
  length, slice, from_le_bytes,
}
use coinflip_program.Error.{Result, ok, require, slot_hash_not_ready, ◌>>=◌, ◌>>◌}
use coinflip_program.State.{Pubkey}
use coinflip_program.Runtime.{Ledger, Runtime}
use coinflip_program.Accounts.{require_keys_eq}

pub data SlotHashLookup : Type 0 where
  found : Bytes → SlotHashLookup
  not_ready : SlotHashLookup
  expired : SlotHashLookup

-- How the loop over the entries ends: at the join slot, or with the last slot that it read.
pub data Scan : Type 0 where
  hit : Bytes → Scan
  miss : ℕ → Scan

-- The loop `for _ in 0..n`, with its variables `off` and `oldest`.
unfoldable pub scan : ℕ → Bytes → (off oldest join_slot : ℕ) → Result Scan
scan zero bytes off oldest join_slot = ok (miss oldest)
scan (suc n) bytes off oldest join_slot =
    let slot = from_le_bytes (slice bytes off (off + 8)) in
    let rest = scan n bytes (off + 40) slot join_slot in
    require (leb (off + 40) (length bytes)) slot_hash_not_ready
    >> (if slot == join_slot then ok (hit (slice bytes (off + 8) (off + 40))) else rest)

-- The verdict after the loop, from the clock and the number of entries.
abbrev pub verdict : Scan → (clock n join_slot : ℕ) → SlotHashLookup
verdict (hit hash) clock n join_slot = found hash
verdict (miss oldest) clock n join_slot =
    if leb clock join_slot || (ltb 0 n && leb oldest join_slot) then not_ready else expired

module _ (r : Runtime) where
  unfoldable pub lookup_join_slot_hash : Pubkey → ℕ → Ledger → Result SlotHashLookup
  lookup_join_slot_hash slot_hashes join_slot s = do
    require_keys_eq slot_hashes r.slot_hashes_id slot_hash_not_ready
    let bytes = s.bytes slot_hashes
    require (leb 8 (length bytes)) slot_hash_not_ready
    let n = from_le_bytes (slice bytes 0 8)
    end ← scan n bytes 8 join_slot join_slot
    ok (verdict end s.slot n join_slot)
