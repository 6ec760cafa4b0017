-- ===== src/Tests/Disk.antt =====
-- Runs of src/store/memory.rs on a disk of 16 bytes in chunks of 4.
use iscsi_s.Prelude.Eq.{string_eq}
use iscsi_s.Store.Laws.{Shows, written, volume}
use iscsi_s.HashMap.{remove}
use iscsi_s.Prelude.{ℕ, ◌≡◌, refl, [], ◌∷◌, arith}
use iscsi_s.Result.{ok}
use iscsi_s.Store.{u64_size, BlockStore}
use iscsi_s.HashMap.{lookup, remove}
use iscsi_s.Memory
use iscsi_s.Memory.{MemoryStore, memory_store}
use iscsi_s.Memory.Content.{IsValid, content}
use iscsi_s.Memory.Reads.{read_at_lem}
use iscsi_s.Memory.Writes.{write_at_lem}
use iscsi_s.Memory.IsVolume.{new-IsValid}
use iscsi_s.ChunkCache.{key_eq}
use iscsi_s.Tests.{disk, disk-new, disk-IsValid, three_bytes}

crossing_write :
    (Memory.write_at 3 three_bytes disk).1.chunks
    ≡ (1, 8 ∷ 9 ∷ 0 ∷ 0 ∷ []) ∷ (0, 0 ∷ 0 ∷ 0 ∷ 7 ∷ []) ∷ []
unfolding Memory.write_at iscsi_s.Store.check_range iscsi_s.Pieces.for_pieces lookup remove
crossing_write = refl

new-IsValid_example : IsValid disk × ((p : ℕ) → content disk p ≡ 0)
new-IsValid_example = new-IsValid 16 2 4 (omega arith) disk-new

read_at_example : Memory.read_at 3 three_bytes disk ≡ (ok (0 ∷ 0 ∷ 0 ∷ []), disk)
unfolding lookup
read_at_example = read_at_lem disk 3 three_bytes disk-IsValid (omega arith)

write_at_example :
    (t : MemoryStore) × (Memory.write_at 3 three_bytes disk ≡ (ok tt, t))
    × Shows memory_store IsValid content t
        (written (volume memory_store IsValid content disk) 3 three_bytes)
write_at_example = write_at_lem disk 3 three_bytes disk-IsValid (omega arith)
