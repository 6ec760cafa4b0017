-- ===== src/WriteCache/Dirty.antt =====
-- src/write_cache.rs, `DirtyState`: the chunks written and not yet handed on.
use iscsi_s.Prelude.{
  ℕ, ◌+◌, ◌-◌, ◌%◌, ◌^◌, Option, none, some, List, [], ◌∷◌, length, leb, if◌then◌else◌,
}
use iscsi_s.Prelude.Eq.{nat_eq}
use iscsi_s.HashMap
use iscsi_s.HashMap.{HashMap}
use iscsi_s.WriteCache.{DirtyChunk, DirtyState, saturating_add}

abbrev pub new : DirtyState
new = record { chunks = []; tick = 0; used_bytes = 0 }

abbrev pub size_of : Option DirtyChunk → ℕ
size_of none = 0
size_of (some c) = length c.bytes

unfoldable pub insert : ℕ → ℕ → List ℕ → DirtyState → DirtyState
insert now idx bytes s =
    let tick = (s.tick + 1) % 2 ^ 64 in
    let used = s.used_bytes - size_of (HashMap.lookup idx s.chunks) in
    record {
      chunks =
          HashMap.insert idx (record { bytes = bytes; tick = tick; written_at = now }) s.chunks;
      tick = tick;
      used_bytes = saturating_add used (length bytes);
    }

unfoldable pub from_recovered : ℕ → HashMap ℕ (List ℕ) → DirtyState → DirtyState
unfolding insert
from_recovered now [] s = s
from_recovered now ((idx, bytes) ∷ m) s = from_recovered now m (insert now idx bytes s)

-- Absent chunks leave the state as it is.
abbrev pub remove : ℕ → DirtyState → DirtyState
remove idx s = elim (HashMap.lookup idx s.chunks) [
  | none ↦ s
  | some e ↦ record s {
    chunks = HashMap.remove idx s.chunks;
    used_bytes = s.used_bytes - length e.bytes;
  }
]

abbrev pub bytes_of : Option DirtyChunk → Option (List ℕ)
bytes_of none = none
bytes_of (some c) = some c.bytes

abbrev pub get : ℕ → DirtyState → Option (List ℕ)
get idx s = bytes_of (HashMap.lookup idx s.chunks)

-- `min_by_key(|(_, e)| e.tick)`, the key and its tick.
unfoldable pub oldest_entry : HashMap ℕ DirtyChunk → Option (ℕ × ℕ)
oldest_entry [] = none
oldest_entry ((k, e) ∷ m) = elim (oldest_entry m) [
  | none ↦ some (k, e.tick)
  | some (j, t) ↦ if leb e.tick t then some (k, e.tick) else some (j, t)
]

abbrev pub key_of : Option (ℕ × ℕ) → Option ℕ
key_of none = none
key_of (some (k, t)) = some k

unfoldable pub oldest : DirtyState → Option ℕ
unfolding oldest_entry
oldest s = key_of (oldest_entry s.chunks)

-- `filter(elapsed >= quiet).min_by_key(written_at)`; `elapsed` stops at 0.
unfoldable pub quiet_entry : ℕ → ℕ → HashMap ℕ DirtyChunk → Option (ℕ × ℕ)
quiet_entry now quiet [] = none
quiet_entry now quiet ((k, c) ∷ m) =
    let rest = quiet_entry now quiet m in
    if leb quiet (now - c.written_at)
    then (elim rest [
      | none ↦ some (k, c.written_at)
      | some (j, t) ↦ if leb c.written_at t then some (k, c.written_at) else some (j, t)
    ])
    else rest

unfoldable pub oldest_quiet : ℕ → ℕ → DirtyState → Option ℕ
unfolding quiet_entry
oldest_quiet now quiet s = key_of (quiet_entry now quiet s.chunks)
