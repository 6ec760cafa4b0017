-- ===== src/Tests.antt =====
-- The inputs of the runs: a disk of 16 bytes in chunks of 4, a chunk pool of 6 bytes that holds one
-- chunk of volume "a", and the cached store of volume "b" over both.
mod Disk
mod Pool
mod Cached
mod Formats
mod WriteBack
mod Bucket
mod Objects
mod Stacked
mod Settings
use iscsi_s.Device.Laws.{read-Reads, write-Writes}
use iscsi_s.Snapshot.RoundTrip.{decode-encode_pointer, read-write_chunks_bin}
use iscsi_s.Snapshot.{decode_pointer, ChunkRef, read_chunks_bin, encode_pointer, write_chunks_bin}
use iscsi_s.Meta.{VolumeMeta, plan_capacity, fresh, cow, plan_capacity-ok, plan_capacity-fresh}
use iscsi_s.Prelude.Eq.{◌==◌, string_eq}
use iscsi_s.Store.Laws.{IsBlockStore, Reads, Writes, Shows, written, volume, Volume}
use iscsi_s.HashMap.{remove}
use iscsi_s.HashMap.Sum.{total}
use iscsi_s.Prelude.{
  ℕ, ◌≡◌, refl, List, [], ◌∷◌, none, some, false, length, arith, ◌≤◌, ap, ◌⊎◌, sym, if◌then◌else◌,
  replicate, true, tabulate, ◌*◌, ◌+◌, ◌%◌,
}
use iscsi_s.Result.{ok, err, out_of_range, ok-injective, Ends}
use iscsi_s.Store.{u64_size, BlockStore}
use iscsi_s.HashMap.{lookup, remove}
use iscsi_s.Memory
use iscsi_s.Device
use iscsi_s.Compression
use iscsi_s.CachedStore
use iscsi_s.Memory.{MemoryStore, memory_store}
use iscsi_s.Memory.Content.{IsValid, content}
use iscsi_s.Memory.Reads.{read_at_lem, read_at_past}
use iscsi_s.Memory.Writes.{write_at_lem, write_at_past}
use iscsi_s.Memory.IsVolume.{new-IsValid, memory-IsBlockStore}
use iscsi_s.ChunkCache.{
  ChunkCache, CacheKey, CacheEntry, oldest, evict, put, get, set_max_bytes, enable,
  invalidate_volume, disable, key_eq,
}
use iscsi_s.ChunkCache.Bounds
use iscsi_s.ChunkCache.Bounds.{oldest-le, evict-Evicted}
use iscsi_s.ChunkCache.Entries.{held-put, held-invalidate_volume, held, held-get}
use iscsi_s.ChunkCache.Budget.{put-IsValid, enable-disable, set_max_bytes-IsValid}
use iscsi_s.CachedStore.{CachedStore, write_at, cached_store, locked_error, lock_io, unlock_io}
use iscsi_s.CachedStore.Reads.{IsCoherent, read_at-Reads, cached_content}
use iscsi_s.CachedStore.Writes.{write_at-Writes}
use iscsi_s.CachedStore.IsVolume.{cached-IsBlockStore}
use iscsi_s.Compression.{
  Codecs, IsLossless, lz4, encode_chunk, decode_chunk, compress, decompress, from_wire_id,
}
use iscsi_s.Compression.RoundTrip.{decode-encode, length-decode_chunk}

abbrev disk : MemoryStore
disk = record { capacity = 16; chunks = []; block_size = 2; chunk_size = 4 }

disk-new : Memory.new 16 2 4 ≡ ok disk
unfolding Memory.new
disk-new = refl

disk-IsValid : IsValid disk
disk-IsValid = (new-IsValid 16 2 4 (omega arith) disk-new).0

-- Bytes 3 to 5 cross the first chunk boundary.
abbrev three_bytes : List ℕ
three_bytes = 7 ∷ 8 ∷ 9 ∷ []

-- A pool of 6 bytes that holds one chunk of volume "a".
abbrev key_a : CacheKey
key_a = record { volume = "a"; chunk_idx = 0 }

abbrev key_b : CacheKey
key_b = record { volume = "b"; chunk_idx = 0 }

abbrev four_bytes : List ℕ
four_bytes = 1 ∷ 2 ∷ 3 ∷ 4 ∷ []

abbrev entry_a : CacheEntry
entry_a = record { bytes = four_bytes; tick = 1 }

abbrev pool : ChunkCache
pool = record {
  entries = (key_a, entry_a) ∷ [];
  max_bytes = 6;
  last_nonzero_max_bytes = 6;
  used_bytes = 4;
  tick = 1;
}

pool-IsCounted : Bounds.IsCounted pool
unfolding total lookup
pool-IsCounted = record { distinct = (refl, tt); counted = refl }

pool-IsValid : Bounds.IsValid pool
pool-IsValid = record { counts = pool-IsCounted; within = omega arith }

-- The disk behind the pool, which holds a chunk of another volume.
abbrev cached : CachedStore MemoryStore
cached = record { inner = disk; cache = pool; volume = "b"; io_locked = false }

cached-IsCoherent : IsCoherent memory_store IsValid content cached
unfolding lookup
cached-IsCoherent = record { inner = disk-IsValid; agrees = record { at = λ idx bytes h. cc } }

abbrev cached_volume : Volume
cached_volume =
    volume (cached_store memory_store) (IsCoherent memory_store IsValid content)
      (cached_content memory_store IsValid content) cached

cached-IsBlockStore_lawful :
    IsBlockStore
      (cached_store memory_store)
      (IsCoherent memory_store IsValid content)
      (cached_content memory_store IsValid content)
cached-IsBlockStore_lawful = cached-IsBlockStore memory_store IsValid content memory-IsBlockStore
