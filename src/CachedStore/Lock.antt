-- ===== src/CachedStore/Lock.antt =====
-- src/cache.rs, `CachedStore::lock_io`, which an administrator's migration holds.
use iscsi_s.Store.{BlockStore}
use iscsi_s.Prelude.{eq_iff, ℕ, ◌≡◌, List, true, none, some, arith, refl, if◌then◌else◌}
use iscsi_s.Prelude.Eq.{◌==◌, string_eq}
use iscsi_s.Result.{err, ok}
use iscsi_s.ChunkCache
use iscsi_s.CachedStore.Reads.{IsCoherent, cached_content}
use iscsi_s.ChunkCache.{CacheKey}
use iscsi_s.ChunkCache.Entries.{held, held-invalidate_volume}
use iscsi_s.CachedStore.{
  CachedStore, lock_io, unlock_io, locked_error, ensure_unlocked, read_at, write_at, set_capacity,
  flush, present_chunks, delete_chunk,
}

-- The lock error, from an operation that changes neither the inner store nor the cache.
pub record Refuses {S : Type 0} (ops : BlockStore S) (c : CachedStore S) (offset capacity : ℕ)
    (bytes : List ℕ) : Type 0 where
  pub read : read_at ops offset bytes c ≡ (err locked_error, c)
  pub write : write_at ops offset bytes c ≡ (err locked_error, c)
  pub resize : set_capacity ops capacity c ≡ (err locked_error, c)
  pub flushes : flush ops c ≡ (err locked_error, c)
  pub lists : present_chunks ops c ≡ (err locked_error, c)
  pub deletes : delete_chunk ops offset c ≡ (err locked_error, c)

locked-Refuses :
    {S : Type 0} (ops : BlockStore S) (c : CachedStore S) (offset capacity : ℕ) (bytes : List ℕ)
    → c.io_locked ≡ true
    → Refuses ops c offset capacity bytes
unfolding read_at write_at set_capacity flush present_chunks delete_chunk
locked-Refuses ops c offset capacity bytes locked = record {
  read = rw locked;
  write = rw locked;
  resize = rw locked;
  flushes = rw locked;
  lists = rw locked;
  deletes = rw locked;
}

-- The bytes and the errors that a client sees while the store is locked, and after.
pub record Exclusive {S : Type 0} (ops : BlockStore S) (IsValid : S → Type 0) (content : S → ℕ → ℕ)
    (c : CachedStore S) (t : S) (k : CacheKey) : Type 0 where
  pub refuses :
      (offset capacity : ℕ) (bytes : List ℕ) → Refuses ops (lock_io c) offset capacity bytes
  pub inner : (lock_io c).inner ≡ c.inner
  pub opened : ensure_unlocked (unlock_io (record (lock_io c) { inner = t })) ≡ ok tt
  pub coherent : IsCoherent ops IsValid content (unlock_io (record (lock_io c) { inner = t }))
  pub disk :
      (p : ℕ)
      → cached_content ops IsValid content (unlock_io (record (lock_io c) { inner = t })) p
        ≡ content t p
  pub kept :
      held (unlock_io (record (lock_io c) { inner = t })).cache k
      ≡ (if k.volume == c.volume then none else held c.cache k)

-- Between `lock_io` and `unlock_io` every operation of the cached store returns the lock error and
-- changes neither the inner store nor the cache. Whatever valid state the inner store has been given
-- meanwhile, past the cache, after `unlock_io` operations are let through again, the cache agrees with
-- the disk of that state, which is the one shown, and the chunks of other volumes are held as before.
pub unlock_io-lock_io :
    {S : Type 0} (ops : BlockStore S) (IsValid : S → Type 0) (content : S → ℕ → ℕ)
    (c : CachedStore S) (t : S) (k : CacheKey)
    → IsValid t
    → Exclusive ops IsValid content c t k
unfolding lock_io unlock_io
unlock_io-lock_io ops IsValid content c t k v = record {
  refuses = λ offset capacity bytes. locked-Refuses ops (lock_io c) offset capacity bytes refl;
  inner = refl;
  opened = refl;
  coherent = record {
    inner = v;
    agrees = record { at = λ idx bytes h. absurd (dropped idx bytes h) };
  };
  disk = λ p. refl;
  kept = held-invalidate_volume c.volume k c.cache;
}
  where
    dropped :
        (idx : ℕ) (bytes : List ℕ)
        → held
            (ChunkCache.invalidate_volume c.volume c.cache)
            (record { volume = c.volume; chunk_idx = idx })
          ≡ some bytes
        → ⊥
    dropped idx bytes h = ground (
      arith,
      held-invalidate_volume c.volume (record { volume = c.volume; chunk_idx = idx }) c.cache,
      eq_iff c.volume c.volume,
    )
