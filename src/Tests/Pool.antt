-- ===== src/Tests/Pool.antt =====
-- Runs of the chunk pool of src/cache.rs.
use iscsi_s.Prelude.Eq.{◌==◌, string_eq}
use iscsi_s.HashMap.{remove}
use iscsi_s.Prelude.{◌≡◌, refl, [], ◌∷◌, none, some, arith, ◌⊎◌, if◌then◌else◌}
use iscsi_s.HashMap.{lookup, remove}
use iscsi_s.ChunkCache.{
  oldest, evict, put, get, set_max_bytes, enable, invalidate_volume, disable, key_eq,
}
use iscsi_s.ChunkCache.Bounds
use iscsi_s.ChunkCache.Bounds.{oldest-le, evict-Evicted}
use iscsi_s.ChunkCache.Entries.{held-put, held-invalidate_volume, held, held-get}
use iscsi_s.ChunkCache.Budget.{put-IsValid, enable-disable, set_max_bytes-IsValid}
use iscsi_s.Tests.{key_a, key_b, four_bytes, pool, pool-IsCounted, pool-IsValid}

-- The second chunk does not fit beside the first, which is evicted.
put_evicts :
    (put key_b four_bytes pool).entries ≡ (key_b, record { bytes = four_bytes; tick = 2 }) ∷ []
unfolding put evict oldest lookup remove
put_evicts = refl

put-IsValid_example : Bounds.IsValid (put key_b four_bytes pool)
put-IsValid_example = put-IsValid key_b four_bytes pool pool-IsValid

set_max_bytes-IsValid_example : Bounds.IsValid (set_max_bytes 3 pool)
set_max_bytes-IsValid_example = set_max_bytes-IsValid 3 pool pool-IsCounted

evict-Evicted_example : Bounds.Evicted 4 pool (evict 1 4 pool)
evict-Evicted_example = evict-Evicted 1 4 pool (omega arith) pool-IsCounted

held-put_example :
    (held (put key_b four_bytes pool) key_a ≡ none)
    ⊎ (held (put key_b four_bytes pool) key_a
        ≡ (if key_b == key_a then some four_bytes else held pool key_a))
held-put_example = held-put key_b key_a four_bytes pool

held-get_example : held (get key_a pool).1 key_a ≡ held pool key_a
held-get_example = held-get key_a key_a pool

held-invalidate_volume_example :
    held (invalidate_volume "a" pool) key_b
    ≡ (if key_b.volume == "a" then none else held pool key_b)
held-invalidate_volume_example = held-invalidate_volume "a" key_b pool

enable-disable_example :
    enable none (disable pool) ≡ record pool { entries = []; used_bytes = 0; max_bytes = 6 }
enable-disable_example = enable-disable pool (omega arith)
