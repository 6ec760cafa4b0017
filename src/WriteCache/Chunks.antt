-- ===== src/WriteCache/Chunks.antt =====
-- src/write_cache.rs, `Core`: finding a chunk, writing one to the inner store, and taking all of them.
use iscsi_s.Prelude.{
  ℕ, ◌-◌, ◌*◌, ◌^◌, min, Bool, true, false, Option, none, some, List, [], ◌∷◌, ◌++◌, length, take,
  ltb, leb, if◌then◌else◌, replicate, slice, copy_at, map,
}
use iscsi_s.Prelude.Eq.{nat_eq}
use iscsi_s.Result.{ok, err, out_of_range, Exec, and_then}
use iscsi_s.HashMap
use iscsi_s.HashMap.{HashMap}
use iscsi_s.Store.{BlockStore}
use iscsi_s.WriteCache.{BufState, BufferedChunk, BufferRt, Core, DirtyChunk, Job}
use iscsi_s.WriteCache.Dirty
use iscsi_s.WriteCache.Buffer
use iscsi_s.WriteCache.Files
use iscsi_s.WriteCache.Files.{FileSystem}

-- `idx.saturating_mul(chunk_size)`.
abbrev pub saturating_mul : ℕ → ℕ → ℕ
saturating_mul a b = min (a * b) (2 ^ 64 - 1)

abbrev pub buffered_bytes : Option BufferedChunk → Option (List ℕ)
buffered_bytes none = none
buffered_bytes (some c) = some c.bytes

abbrev pub buffered : ℕ → Option BufferRt → Option BufferedChunk
buffered idx none = none
buffered idx (some b) = HashMap.lookup idx b.state.chunks

abbrev pub set_state : BufferRt → BufState → BufferRt
set_state b state = record b { state = state }

module _ {S D : Type 0} where
  -- `lookup`: the dirty chunk, else the queued one.
  abbrev pub lookup : ℕ → Core S D → Option (List ℕ)
  lookup idx c = elim (Dirty.get idx c.dirty) [
    | some bytes ↦ some bytes
    | none ↦ buffered_bytes (buffered idx c.buffer)
  ]

  abbrev pub on_inner : {A : Type 0} → Exec S A → Exec (Core S D) A
  on_inner op c = let (r, inner) = op c.inner in (r, record c { inner = inner })

  abbrev pub on_files : {A : Type 0} → Exec D A → Exec (Core S D) A
  on_files op c = let (r, files) = op c.files in (r, record c { files = files })

  abbrev pub contains_dirty : ℕ → Core S D → Bool
  contains_dirty idx c = elim (HashMap.lookup idx c.dirty.chunks) [ none ↦ false | some _ ↦ true ]

module _ {S : Type 0} (ops : BlockStore S) where
  unfoldable pub read_full_chunk : ℕ → Exec S (List ℕ)
  read_full_chunk idx s =
      let chunk_size = ops.chunk_size s in
      let buf = replicate chunk_size 0 in
      let offset = saturating_mul idx chunk_size in
      let capacity = ops.capacity s in
      if leb capacity offset
      then (err (out_of_range offset chunk_size capacity), s)
      else let valid = min (capacity - offset) (length buf) in
        and_then (ops.read_at offset (slice buf 0 valid) s)
          λ filled s. (ok (copy_at buf 0 filled), s)

  -- The part of the chunk below the capacity; nothing of a chunk that lies past it.
  unfoldable pub write_chunk : ℕ → List ℕ → Exec S (Unit {0})
  write_chunk idx bytes s =
      let chunk_size = ops.chunk_size s in
      let capacity = ops.capacity s in
      let offset = saturating_mul idx chunk_size in
      if ltb offset capacity
      then ops.write_at offset (take (min (capacity - offset) (length bytes)) bytes) s
      else (ok tt, s)

module _ {S D : Type 0} (ops : BlockStore S) where
  unfoldable pub load_for_write : ℕ → Exec (Core S D) (List ℕ)
  load_for_write idx c = elim (lookup idx c) [
    | some bytes ↦ (ok bytes, c)
    | none ↦ on_inner (read_full_chunk ops idx) c
  ]

  abbrev pub write_inner : ℕ → List ℕ → Exec (Core S D) (Unit {0})
  write_inner idx bytes = on_inner (write_chunk ops idx bytes)

module _ {S D : Type 0} (fs : FileSystem D) where
  abbrev pub remove_file : ℕ → Exec (Core S D) (Unit {0})
  remove_file idx c = on_files (Files.remove_file fs c.disk idx) c

  abbrev pub persist : ℕ → List ℕ → Exec (Core S D) (Unit {0})
  persist idx bytes c = on_files (Files.persist fs c.disk idx bytes) c

module _ {S D : Type 0} (ops : BlockStore S) (fs : FileSystem D) where
  unfoldable pub write_snapshot : Job → Exec (Core S D) (Unit {0})
  write_snapshot job c =
      and_then (write_inner ops job.idx job.bytes c)
        λ _ c. if contains_dirty job.idx c then (ok tt, c) else remove_file fs job.idx c

abbrev pub keys : {V : Type 0} → HashMap ℕ V → List ℕ
keys = map (λ e. e.0)

-- The drained map, each key with what it held.
unfoldable pub dirty_jobs : HashMap ℕ DirtyChunk → List ℕ → List Job
dirty_jobs dirty [] = []
dirty_jobs dirty (idx ∷ idxs) =
    let rest = dirty_jobs dirty idxs in
    elim (HashMap.lookup idx dirty) [
      | none ↦ rest
      | some c ↦ record { idx = idx; bytes = c.bytes; generation = c.tick } ∷ rest
    ]

-- The queued chunks that are not dirty as well.
unfoldable pub buffer_jobs : HashMap ℕ DirtyChunk → HashMap ℕ BufferedChunk → List ℕ → List Job
buffer_jobs dirty chunks [] = []
buffer_jobs dirty chunks (idx ∷ idxs) =
    let rest = buffer_jobs dirty chunks idxs in
    elim (HashMap.lookup idx dirty) [
      | some _ ↦ rest
      | none ↦ elim (HashMap.lookup idx chunks) [
        | none ↦ rest
        | some k ↦ record { idx = idx; bytes = k.bytes; generation = k.generation } ∷ rest
      ]
    ]

abbrev pub queued_jobs : HashMap ℕ DirtyChunk → Option BufferRt → List Job
queued_jobs dirty none = []
queued_jobs dirty (some b) = buffer_jobs dirty b.state.chunks (keys b.state.chunks)

abbrev pub cleared : Option BufferRt → Option BufferRt
cleared none = none
cleared (some b) = some (set_state b (Buffer.clear b.state))

-- The jobs, and the core with nothing dirty and nothing queued.
unfoldable pub take_all_jobs : {S D : Type 0} → Core S D → List Job × Core S D
unfolding dirty_jobs buffer_jobs
take_all_jobs c = (
  queued_jobs c.dirty.chunks c.buffer ++ dirty_jobs c.dirty.chunks (keys c.dirty.chunks),
  record c { dirty = record c.dirty { chunks = []; used_bytes = 0 }; buffer = cleared c.buffer },
)
