-- ===== src/Memory/IsVolume.antt =====
-- src/store/memory.rs, `MemoryStore` as a block store.
use iscsi_s.Memory.Writes.{write_at_past, write_at_lem}
use iscsi_s.Memory.Reads.{read_at_past, read_at_lem}
use native.Mathlib.Decide.{dec_lt}
use iscsi_s.Prelude.{◌||◌}
use iscsi_s.Store.Laws.{
  contains, Shows, resized, cleared, volume, Volume, IsBlockStore, SameVolume-refl, Reads, Writes,
}
use iscsi_s.Result.{Ends}
use iscsi_s.Prelude.{
  ℕ, ◌+◌, ◌≤◌, ◌<◌, ◌≡◌, List, length, arith, refl, Bool-cases, ◌%◌, ◌/◌, inr, inl, [],
}
use iscsi_s.Prelude.Eq.{nat_eq}
use iscsi_s.HashMap.{lookup, lookup-remove, HashMap}
use iscsi_s.Store.{u64_size}
use iscsi_s.Memory.{
  MemoryStore, memory_store, read_at, write_at, set_capacity, present_chunks, delete_chunk, new,
  lookup, sort, map, ok, insert_sorted, ◌∷◌, nat_beq, false, none, ltb,
}
use iscsi_s.Memory.Content.{IsValid, content}

-- A store that `new` returns for a capacity that is a u64 is valid and reads as zeros.
pub new-IsValid :
    (capacity block_size chunk_size : ℕ) {s : MemoryStore}
    → capacity < u64_size
    → new capacity block_size chunk_size ≡ ok s
    → IsValid s × ((p : ℕ) → content s p ≡ 0)
unfolding new lookup
new-IsValid capacity block_size chunk_size small e = (
  record {
    block_pos = ground arith;
    chunk_pos = ground arith;
    small = ground arith;
    aligned = ground arith;
    sized = λ idx chunk h. ground arith;
    beyond = λ p past. ground arith;
  },
  λ p. ground arith,
)

module _ (s : MemoryStore) (v : IsValid s) where
  abbrev shown : Volume
  shown = volume memory_store IsValid content s

  resize-IsValid :
      (capacity : ℕ)
      → s.capacity ≤ capacity
      → capacity < u64_size
      → capacity % s.block_size ≡ 0
      → IsValid (record s { capacity = capacity })
  resize-IsValid capacity grows small aligned = record {
    block_pos = v.block_pos;
    chunk_pos = v.chunk_pos;
    small = small;
    aligned = aligned;
    sized = v.sized;
    beyond = λ p past. v.beyond p (omega arith);
  }

  set_capacity_law :
      (capacity : ℕ)
      → capacity < u64_size
      → Ends
          (λ _ s'.
            Shows memory_store IsValid content s' (resized shown capacity)
            × (s.capacity ≤ capacity))
          (λ _ s'. Shows memory_store IsValid content s' shown)
          (set_capacity capacity s)
  unfolding set_capacity
  set_capacity_law capacity small = elim (Bool-cases (nat_beq (capacity % s.block_size) 0)) [
    | inr bad ↦ rw (bad, Ends) (record { valid = v; same = SameVolume-refl shown })
    | inl aligned ↦ elim (Bool-cases (ltb capacity s.capacity)) [
      | inl shrinks ↦
          rw (aligned, shrinks, Ends) (record { valid = v; same = SameVolume-refl shown })
      | inr grows ↦
          let le : s.capacity ≤ capacity = ground arith in
          rw (aligned, grows, Ends)
            (
              record {
                valid = resize-IsValid capacity le small (ground arith);
                same = SameVolume-refl (resized shown capacity);
              },
              le,
            )
    ]
  ]

  delete_chunk-Shows :
      (idx : ℕ) → Shows memory_store IsValid content (delete_chunk idx s).1 (cleared shown idx)
  unfolding delete_chunk
  delete_chunk-Shows idx = record {
    valid = record {
      block_pos = v.block_pos;
      chunk_pos = v.chunk_pos;
      small = v.small;
      aligned = v.aligned;
      sized = λ j chunk h. ground (arith, lookup-remove idx j s.chunks, v.sized j chunk);
      beyond =
          λ p past. ground (arith, lookup-remove idx (p / s.chunk_size) s.chunks, v.beyond p past);
    };
    same = record {
      capacity = refl;
      block_size = refl;
      chunk_size = refl;
      content = λ p. ground (arith, lookup-remove idx (p / s.chunk_size) s.chunks);
    };
  }

contains-insert_sorted :
    (x : ℕ) (ys : List ℕ) (a : ℕ) → contains (insert_sorted x ys) a ≡ (nat_beq x a || contains ys a)
unfolding insert_sorted
contains-insert_sorted x [] a = refl
contains-insert_sorted x (y ∷ ys) a = ground (arith, contains-insert_sorted x ys a)

pub contains-sort : (xs : List ℕ) (a : ℕ) → contains (sort xs) a ≡ contains xs a
unfolding sort
contains-sort [] a = refl
contains-sort (x ∷ xs) a = ground (arith, contains-sort xs a, contains-insert_sorted x (sort xs) a)

lookup_unlisted :
    (k : ℕ) (m : HashMap ℕ (List ℕ)) → contains (map (λ e. e.0) m) k ≡ false → lookup k m ≡ none
unfolding lookup
lookup_unlisted k [] h = refl
lookup_unlisted k ((j, c) ∷ m) h = ground (arith, lookup_unlisted k m)

-- A chunk that is not listed holds zeros.
present_chunks_law :
    (s : MemoryStore) (p : ℕ)
    → contains (sort (map (λ e. e.0) s.chunks)) (p / s.chunk_size) ≡ false
    → content s p ≡ 0
present_chunks_law s p h = rw (lookup_unlisted (p / s.chunk_size) s.chunks (rw contains-sort at h))

memory-Reads :
    (s : MemoryStore) (v : IsValid s) (offset : ℕ) (buf : List ℕ)
    → Reads memory_store IsValid content s offset (length buf) (read_at offset buf s)
memory-Reads s v offset buf = elim (dec_lt s.capacity (offset + length buf)) [
  | yes past ↦
      rw (read_at_past s offset buf past, Ends)
        (record { valid = v; same = SameVolume-refl (shown s v) })
  | no fits ↦
      rw (read_at_lem s offset buf v (omega arith), Ends)
        (record { valid = v; same = SameVolume-refl (shown s v) }, refl, omega arith)
]

memory-Writes :
    (s : MemoryStore) (v : IsValid s) (offset : ℕ) (bytes : List ℕ)
    → Writes memory_store IsValid content s offset bytes (write_at offset bytes s)
memory-Writes s v offset bytes = elim (dec_lt s.capacity (offset + length bytes)) [
  | yes past ↦ rw (write_at_past s offset bytes past, Ends) tt
  | no fits ↦
      let (t, e, shows) = write_at_lem s offset bytes v (omega arith) in
      rw (e, Ends) (shows, omega arith)
]

-- The in-memory store keeps the promises of a block store: reads return the bytes of the disk, a
-- write that succeeds puts its bytes and changes no other, the capacity never shrinks, growth
-- shows zeros, a chunk that is not listed holds zeros, and a removed chunk reads as zeros.
pub memory-IsBlockStore : IsBlockStore memory_store IsValid content
unfolding present_chunks delete_chunk
memory-IsBlockStore = record {
  chunk_pos = λ s v. v.chunk_pos;
  beyond = λ s v. v.beyond;
  reads = λ s offset buf v. memory-Reads s v offset buf;
  writes = λ s offset bytes v. memory-Writes s v offset bytes;
  resizes = λ s capacity v small. set_capacity_law s v capacity small;
  flushes = λ s v. record { valid = v; same = SameVolume-refl (shown s v) };
  lists = λ s v. (record { valid = v; same = SameVolume-refl (shown s v) }, present_chunks_law s);
  deletes = λ s idx v small. delete_chunk-Shows s v idx;
}
