-- ===== src/Memory.antt =====
-- src/store/memory.rs: `MemoryStore`, sparse chunks in a map, a missing chunk is zeros.
pub mod Content
pub mod Reads
pub mod Writes
pub mod IsVolume
use iscsi_s.Prelude.{
  ℕ, zero, ◌+◌, ◌/◌, ◌%◌, ◌≡◌, refl, Bool, true, false, Option, none, some, List, [], ◌∷◌, map,
  ◌||◌, not, arith, leb, ltb, nat_beq, if◌then◌else◌, length, get_or, replicate, slice, copy_at,
}
use iscsi_s.Prelude.Eq.{nat_eq}
use iscsi_s.Result.{StoreError, shrink_refused, geometry_mismatch, Result, ok, err, Exec, and_then}
use iscsi_s.Pieces.{for_pieces}
use iscsi_s.HashMap.{HashMap, lookup, remove, insert}
use iscsi_s.Store.{BlockStore, Reading, check_range, finish_read}

pub record MemoryStore : Type 0 where
  pub capacity : ℕ
  pub chunks : HashMap ℕ (List ℕ)
  pub block_size : ℕ
  pub chunk_size : ℕ

-- `MemoryStore::new`.
unfoldable pub new : ℕ → ℕ → ℕ → Result MemoryStore
new capacity block_size chunk_size =
    if nat_beq block_size 0 || (nat_beq chunk_size 0 || not (nat_beq (chunk_size % block_size) 0))
    then err (geometry_mismatch "invalid block_size/chunk_size")
    else if nat_beq capacity 0 || not (nat_beq (capacity % block_size) 0)
    then err (geometry_mismatch "capacity must be multiple of block_size")
    else ok (record {
      capacity = capacity;
      chunks = [];
      block_size = block_size;
      chunk_size = chunk_size;
    })

read_piece : ℕ → ℕ → ℕ → ℕ → Exec (Reading MemoryStore) (Unit {0})
read_piece idx within taken done r = elim (lookup idx r.store.chunks) [
  | none ↦ (ok tt, r)
  | some chunk ↦ (ok tt, record r { buf = copy_at r.buf done (slice chunk within taken) })
]

-- The buffer is zeroed, then each chunk that is present is copied in.
unfoldable pub read_at : ℕ → List ℕ → Exec MemoryStore (List ℕ)
unfolding read_piece
read_at offset buf s =
    and_then (check_range s.capacity offset (length buf), s)
      λ _ s. finish_read (
        for_pieces (length buf) s.chunk_size offset (length buf) 0 read_piece
          (record { store = s; buf = replicate (length buf) 0 }))

-- `entry(chunk_idx).or_insert_with(|| vec![0; chunk_size])`.
abbrev or_zeros : ℕ → Option (List ℕ) → List ℕ
or_zeros chunk_size none = replicate chunk_size 0
or_zeros chunk_size (some chunk) = chunk

abbrev chunk_or_zeros : MemoryStore → ℕ → List ℕ
chunk_or_zeros s idx = or_zeros s.chunk_size (lookup idx s.chunks)

write_piece : List ℕ → ℕ → ℕ → ℕ → ℕ → Exec MemoryStore (Unit {0})
write_piece bytes idx within taken done s = (
  ok tt,
  record s {
    chunks = insert idx (copy_at (chunk_or_zeros s idx) within (slice bytes done taken)) s.chunks;
  },
)

unfoldable pub write_at : ℕ → List ℕ → Exec MemoryStore (Unit {0})
unfolding write_piece
write_at offset bytes s =
    and_then (check_range s.capacity offset (length bytes), s)
      λ _ s. for_pieces (length bytes) s.chunk_size offset (length bytes) 0 (write_piece bytes) s

unfoldable pub set_capacity : ℕ → Exec MemoryStore (Unit {0})
set_capacity new_capacity s =
    if not (nat_beq (new_capacity % s.block_size) 0)
    then (err (geometry_mismatch "capacity must be multiple of block_size"), s)
    else if ltb new_capacity s.capacity
    then (err (shrink_refused s.capacity new_capacity), s)
    else (ok tt, record s { capacity = new_capacity })

-- `sort_unstable` on the distinct keys.
unfoldable pub insert_sorted : ℕ → List ℕ → List ℕ
insert_sorted x [] = x ∷ []
insert_sorted x (y ∷ ys) = if leb x y then x ∷ y ∷ ys else y ∷ insert_sorted x ys

unfoldable pub sort : List ℕ → List ℕ
unfolding insert_sorted
sort [] = []
sort (x ∷ xs) = insert_sorted x (sort xs)

unfoldable pub present_chunks : Exec MemoryStore (List ℕ)
unfolding sort
present_chunks s = (ok (sort (map (λ e. e.0) s.chunks)), s)

unfoldable pub delete_chunk : ℕ → Exec MemoryStore (Unit {0})
delete_chunk index s = (ok tt, record s { chunks = remove index s.chunks })

abbrev pub memory_store : BlockStore MemoryStore
memory_store = record {
  read_at = read_at;
  write_at = write_at;
  capacity = λ s. s.capacity;
  set_capacity = set_capacity;
  flush = λ s. (ok tt, s);
  block_size = λ s. s.block_size;
  chunk_size = λ s. s.chunk_size;
  present_chunks = present_chunks;
  delete_chunk = delete_chunk;
}
