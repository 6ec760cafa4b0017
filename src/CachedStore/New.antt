-- ===== src/CachedStore/New.antt =====
-- src/cache.rs, `CachedStore::new` over an empty pool, as after a restart of the daemon.
use iscsi_s.Prelude.{ℕ, String}
use iscsi_s.Store.{BlockStore}
use iscsi_s.ChunkCache
use iscsi_s.CachedStore
use iscsi_s.CachedStore.Reads.{IsCoherent}
use iscsi_s.HashMap.{lookup}

module _ {S : Type 0} (ops : BlockStore S) (IsValid : S → Type 0) (content : S → ℕ → ℕ) where
  pub new-IsCoherent :
      (s : S) (max_bytes : ℕ) (volume : String)
      → IsValid s
      → IsCoherent ops IsValid content (CachedStore.new s (ChunkCache.new max_bytes) volume)
  unfolding CachedStore.new ChunkCache.new lookup
  new-IsCoherent s max_bytes volume v = record {
    inner = v;
    agrees = record { at = λ idx bytes h. cc };
  }
