-- ===== src/WriteCache/Lock.antt =====
-- src/write_cache.rs: `WriteCachedStore::lock_io` and `unlock_io` over a `CachedStore`, for the
-- time of a migration. An error of the flush is only logged.
use iscsi_s.Prelude.{Bool}
use iscsi_s.Store.{BlockStore}
use iscsi_s.CachedStore
use iscsi_s.CachedStore.{CachedStore, cached_store}
use iscsi_s.WriteCache.{Core}
use iscsi_s.WriteCache.Client.{flush}
use iscsi_s.WriteCache.Files.{FileSystem}

module _ {S D : Type 0} (ops : BlockStore S) (fs : FileSystem D) where
  unfoldable pub lock_io : Core (CachedStore S) D → Core (CachedStore S) D
  unfolding flush
  lock_io c =
      let c = (flush (cached_store ops) fs c).1 in record c { inner = CachedStore.lock_io c.inner }

  unfoldable pub unlock_io : Core (CachedStore S) D → Core (CachedStore S) D
  unlock_io c = record c { inner = CachedStore.unlock_io c.inner }

  abbrev pub is_io_locked : Core (CachedStore S) D → Bool
  is_io_locked c = c.inner.io_locked
