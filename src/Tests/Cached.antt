-- ===== src/Tests/Cached.antt =====
-- Runs of `CachedStore` of src/cache.rs and of the device of src/device.rs over the small disk.
use iscsi_s.Device.Laws.{read-Reads, write-Writes}
use iscsi_s.CachedStore.Lock.{Exclusive, unlock_io-lock_io}
use iscsi_s.Prelude.Eq.{string_eq}
use iscsi_s.Store.Laws.{IsBlockStore, Shows, written, volume, contains}
use iscsi_s.Prelude.{ℕ, ◌<◌, true, length, arith, ◌≡◌, refl, ◌≤◌, tabulate, ◌*◌, ◌+◌, ◌%◌, ◌∷◌, []}
use iscsi_s.Result.{Ends, ok}
use iscsi_s.Device
use iscsi_s.Admin.{wipe_volume}
use iscsi_s.Admin.Wipe.{zeroed, wipe_volume-zeroed}
use iscsi_s.Store.{u64_size}
use iscsi_s.Memory
use iscsi_s.HashMap.{lookup, remove}
use iscsi_s.Device.ReadAfterWrite.{read-write}
use iscsi_s.Memory.{MemoryStore, memory_store}
use iscsi_s.Memory.Content.{IsValid, content}
use iscsi_s.Memory.IsVolume.{memory-IsBlockStore}
use iscsi_s.ChunkCache.{key_eq}
use iscsi_s.CachedStore.{cached_store}
use iscsi_s.CachedStore.Reads.{IsCoherent, cached_content}
use iscsi_s.CachedStore.IsVolume.{cached-IsBlockStore}
use iscsi_s.Tests.{
  disk, key_a, four_bytes, cached, cached-IsCoherent, cached_volume, cached-IsBlockStore_lawful,
  disk-IsValid,
}

cached-IsBlockStore_example :
    IsBlockStore
      (cached_store memory_store)
      (IsCoherent memory_store IsValid content)
      (cached_content memory_store IsValid content)
cached-IsBlockStore_example = cached-IsBlockStore memory_store IsValid content memory-IsBlockStore

-- The device over the cached disk, in blocks of 2 bytes.
read-Reads_example :
    Ends
      (λ buf s'.
        Shows
          (cached_store memory_store)
          (IsCoherent memory_store IsValid content)
          (cached_content memory_store IsValid content)
          s'
          cached_volume
        × (buf ≡ tabulate (cached_content memory_store IsValid content cached) (3 * 2) (2 * 2))
        × (3 * 2 + 2 * 2 ≤ 16))
      (λ _ s'.
        Shows
          (cached_store memory_store)
          (IsCoherent memory_store IsValid content)
          (cached_content memory_store IsValid content)
          s'
          cached_volume)
      (Device.read (cached_store memory_store) 3 2 2 cached)
read-Reads_example =
    read-Reads (cached_store memory_store) (IsCoherent memory_store IsValid content)
      (cached_content memory_store IsValid content) cached-IsBlockStore_lawful cached
      cached-IsCoherent 3 2 2

write-Writes_example :
    Ends
      (λ _ s'.
        Shows
          (cached_store memory_store)
          (IsCoherent memory_store IsValid content)
          (cached_content memory_store IsValid content)
          s'
          (written cached_volume (1 * 2) four_bytes)
        × (1 * 2 + 4 ≤ 16)
        × (4 % 2 ≡ 0))
      (λ _ _. Unit)
      (Device.write (cached_store memory_store) 1 four_bytes 2 cached)
write-Writes_example =
    write-Writes (cached_store memory_store) (IsCoherent memory_store IsValid content)
      (cached_content memory_store IsValid content) cached-IsBlockStore_lawful cached
      cached-IsCoherent 1 2 four_bytes

unlock_io-lock_io_example : Exclusive memory_store IsValid content cached disk key_a
unlock_io-lock_io_example =
    unlock_io-lock_io memory_store IsValid content cached disk key_a disk-IsValid

abbrev disk_after : MemoryStore
disk_after = record disk { chunks = (1, 3 ∷ 4 ∷ 0 ∷ 0 ∷ []) ∷ (0, 0 ∷ 0 ∷ 1 ∷ 2 ∷ []) ∷ [] }

device_write : Device.write memory_store 1 four_bytes 2 disk ≡ (ok tt, disk_after)
unfolding Device.write Memory.write_at iscsi_s.Store.check_range iscsi_s.Pieces.for_pieces lookup
    remove
device_write = refl

device_read : Device.read memory_store 1 2 2 disk_after ≡ (ok four_bytes, disk_after)
unfolding Device.read Memory.read_at iscsi_s.Store.check_range iscsi_s.Pieces.for_pieces lookup
device_read = refl

read-write_example : four_bytes ≡ four_bytes
read-write_example =
    read-write memory_store IsValid content memory-IsBlockStore disk disk_after disk_after 1 2 2
      four_bytes disk-IsValid refl device_write device_read

-- The disk with two chunks is wiped.
disk_after-IsValid : IsValid disk_after
disk_after-IsValid =
    (rw device_write at (
      write-Writes memory_store IsValid content memory-IsBlockStore disk disk-IsValid 1 2
        four_bytes)).0.valid

abbrev wiped : MemoryStore
wiped = (wipe_volume memory_store disk_after).1

listed_ok : Memory.present_chunks disk_after ≡ (ok (0 ∷ 1 ∷ []), disk_after)
unfolding Memory.present_chunks
listed_ok = refl

wiped_ok : wipe_volume memory_store disk_after ≡ (ok 2, wiped)
unfolding wipe_volume Memory.present_chunks Memory.delete_chunk iscsi_s.Admin.delete_chunks
wiped_ok = refl

listed_small : (i : ℕ) → contains (0 ∷ 1 ∷ []) i ≡ true → i < u64_size
listed_small i h = ground arith

wipe_volume-zeroed_example :
    Shows memory_store IsValid content wiped
      (zeroed (volume memory_store IsValid content disk_after))
    × (2 ≡ length {A = ℕ} (0 ∷ 1 ∷ []))
wipe_volume-zeroed_example =
    wipe_volume-zeroed memory_store IsValid content memory-IsBlockStore disk_after
      disk_after-IsValid listed_ok listed_small wiped_ok
