-- ===== src/CachedStore.antt =====
-- src/cache.rs: `CachedStore`, the write-through view of an inner store through the chunk cache.
-- `metrics` are not modelled. The inner store is any `BlockStore`; the cache is shared by all volumes,
-- and a store sees only the keys of its own volume.
pub mod Coherent
pub mod Reads
pub mod Writes
pub mod IsVolume
pub mod Lock
pub mod New
use iscsi_s.Prelude.{
  ℕ, ◌+◌, ◌-◌, ◌*◌, min, String, Bool, true, false, Option, none, some, List, leb, if◌then◌else◌,
  length, replicate, slice, copy_at,
}
use iscsi_s.Result.{other, out_of_range, Result, ok, err, Exec, and_then, StoreError}
use iscsi_s.Pieces.{for_pieces}
use iscsi_s.Store.{BlockStore, Reading, check_range, finish_read}
use iscsi_s.ChunkCache
use iscsi_s.ChunkCache.{ChunkCache, CacheKey}

pub record CachedStore (S : Type 0) : Type 0 where
  pub inner : S
  pub cache : ChunkCache
  pub volume : String
  pub io_locked : Bool

abbrev pub locked_error : StoreError
locked_error = other "volume is locked (migration in progress); wait for migrate-cow to finish"

module _ {S : Type 0} where
  unfoldable pub new : S → ChunkCache → String → CachedStore S
  new inner cache volume = record {
    inner = inner;
    cache = cache;
    volume = volume;
    io_locked = false;
  }

  abbrev pub key : CachedStore S → ℕ → CacheKey
  key c idx = record { volume = c.volume; chunk_idx = idx }

  -- `lock_io` also drops the volume's cached chunks; `unlock_io` only clears the flag.
  unfoldable pub lock_io : CachedStore S → CachedStore S
  lock_io c = record c { io_locked = true; cache = ChunkCache.invalidate_volume c.volume c.cache }

  unfoldable pub unlock_io : CachedStore S → CachedStore S
  unlock_io c = record c { io_locked = false }

  abbrev pub ensure_unlocked : CachedStore S → Result (Unit {0})
  ensure_unlocked c = if c.io_locked then err locked_error else ok tt

  -- A call of the inner store.
  abbrev pub on_inner : {A : Type 0} → Exec S A → Exec (CachedStore S) A
  on_inner op c = let (r, inner) = op c.inner in (r, record c { inner = inner })

module _ {S : Type 0} (ops : BlockStore S) where
  -- The rest of `load_chunk` after a miss: the part below the capacity is read, the rest is zeros.
  unfoldable pub load_miss : ℕ → Exec (CachedStore S) (List ℕ)
  load_miss chunk_idx c =
      let chunk_size = ops.chunk_size c.inner in
      let offset = chunk_idx * chunk_size in
      let buf = replicate chunk_size 0 in
      let capacity = ops.capacity c.inner in
      if leb capacity offset
      then (err (out_of_range offset chunk_size capacity), c)
      else let valid = min (capacity - offset) (length buf) in
        and_then (on_inner (ops.read_at offset (slice buf 0 valid)) c) λ filled c.
          let loaded = copy_at buf 0 filled in
          (ok loaded, record c { cache = ChunkCache.put (key c chunk_idx) loaded c.cache })

  unfoldable pub load_chunk : ℕ → Exec (CachedStore S) (List ℕ)
  unfolding load_miss
  load_chunk chunk_idx c =
      and_then (ensure_unlocked c, c)
        λ _ c.
          let (hit, cache) = ChunkCache.get (key c chunk_idx) c.cache in
          let c' = record c { cache = cache } in
          elim hit [ some bytes ↦ (ok bytes, c') | none ↦ load_miss chunk_idx c' ]

  read_piece : ℕ → ℕ → ℕ → ℕ → Exec (Reading (CachedStore S)) (Unit {0})
  read_piece idx within taken done r =
      let (loaded, c) = load_chunk idx r.store in
      and_then (loaded, record r { store = c })
        λ chunk r. (ok tt, record r { buf = copy_at r.buf done (slice chunk within taken) })

  unfoldable pub read_at : ℕ → List ℕ → Exec (CachedStore S) (List ℕ)
  unfolding read_piece
  read_at offset buf c =
      and_then (ensure_unlocked c, c)
        λ _ c.
          and_then (check_range (ops.capacity c.inner) offset (length buf), c)
            λ _ c. finish_read (
              for_pieces (length buf) (ops.chunk_size c.inner) offset (length buf) 0 read_piece
                (record { store = c; buf = buf }))

  -- A cached chunk is updated in place, an absent one stays absent.
  write_piece : List ℕ → ℕ → ℕ → ℕ → ℕ → Exec (CachedStore S) (Unit {0})
  write_piece bytes idx within taken done c =
      let (hit, cache) = ChunkCache.get (key c idx) c.cache in
      elim hit [
        | some cached ↦ (
          ok tt,
          record c {
            cache =
                ChunkCache.put (key c idx) (copy_at cached within (slice bytes done taken)) cache;
          },
        )
        | none ↦ (ok tt, record c { cache = ChunkCache.invalidate (key c idx) cache })
      ]

  unfoldable pub write_at : ℕ → List ℕ → Exec (CachedStore S) (Unit {0})
  unfolding write_piece
  write_at offset bytes c =
      and_then (ensure_unlocked c, c)
        λ _ c. and_then (on_inner (ops.write_at offset bytes) c) λ _ c.
          for_pieces (length bytes) (ops.chunk_size c.inner) offset (length bytes) 0
            (write_piece bytes) c

  unfoldable pub set_capacity : ℕ → Exec (CachedStore S) (Unit {0})
  set_capacity new_capacity c =
      and_then (ensure_unlocked c, c) λ _ c. on_inner (ops.set_capacity new_capacity) c

  unfoldable pub flush : Exec (CachedStore S) (Unit {0})
  flush c = and_then (ensure_unlocked c, c) λ _ c. on_inner ops.flush c

  unfoldable pub present_chunks : Exec (CachedStore S) (List ℕ)
  present_chunks c = and_then (ensure_unlocked c, c) λ _ c. on_inner ops.present_chunks c

  unfoldable pub delete_chunk : ℕ → Exec (CachedStore S) (Unit {0})
  delete_chunk index c =
      and_then (ensure_unlocked c, c)
        λ _ c.
          and_then (on_inner (ops.delete_chunk index) c)
            λ _ c. (ok tt, record c { cache = ChunkCache.invalidate (key c index) c.cache })

  abbrev pub cached_store : BlockStore (CachedStore S)
  cached_store = record {
    read_at = read_at;
    write_at = write_at;
    capacity = λ c. ops.capacity c.inner;
    set_capacity = set_capacity;
    flush = flush;
    block_size = λ c. ops.block_size c.inner;
    chunk_size = λ c. ops.chunk_size c.inner;
    present_chunks = present_chunks;
    delete_chunk = delete_chunk;
  }
