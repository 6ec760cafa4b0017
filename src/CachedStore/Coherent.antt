-- ===== src/CachedStore/Coherent.antt =====
-- The cache agrees with the store below it: every chunk that the cache holds for this volume is the
-- chunk of the disk. What each cache operation does to that agreement.
use native.Mathlib.Decide.{ℕ_discrete}
use iscsi_s.Prelude.{
  ℕ, ◌+◌, ◌*◌, ◌≡◌, ◌≢◌, ◌∙◌, List, arith, tabulate, String, some, false, tabulate_ext,
}
use iscsi_s.Prelude.Eq.{nat_eq, string_eq}
use iscsi_s.ChunkCache
use iscsi_s.ChunkCache.{ChunkCache, CacheKey, key_eq, key_beq, key_beq_iff}
use iscsi_s.ChunkCache.Entries.{held, held-put, held-get, lookup-remove_entry}

-- What the cache holds under `volume` agrees with the view `f`.
pub record Agrees (f : ℕ → ℕ) (chunk_size : ℕ) (volume : String) (cache : ChunkCache) : Type 0 where
  pub at :
      (idx : ℕ) (bytes : List ℕ)
      → held cache (record { volume = volume; chunk_idx = idx }) ≡ some bytes
      → bytes ≡ tabulate f (idx * chunk_size) chunk_size

abbrev pub named : String → ℕ → CacheKey
named volume idx = record { volume = volume; chunk_idx = idx }

named_ne : (volume : String) (i j : ℕ) → i ≢ j → key_beq (named volume i) (named volume j) ≡ false
named_ne volume i j ne = ground arith

module _ {f : ℕ → ℕ} {chunk_size : ℕ} {volume : String} where
  pub Agrees-ext :
      {g : ℕ → ℕ} {cache : ChunkCache}
      → ((p : ℕ) → f p ≡ g p)
      → Agrees f chunk_size volume cache
      → Agrees g chunk_size volume cache
  Agrees-ext {g} same a = record {
    at = λ idx bytes h.
        a.at idx bytes h ∙ tabulate_ext f g _ _ chunk_size (λ i lt. same (idx * chunk_size + i));
  }

  pub Agrees-get :
      {cache : ChunkCache} (k : CacheKey)
      → Agrees f chunk_size volume cache
      → Agrees f chunk_size volume (ChunkCache.get k cache).1
  Agrees-get {cache} k a = record { at = λ idx bytes h. a.at idx bytes (rw held-get at h) }

  -- A chunk put over its own piece, with every other chunk as it was.
  pub Agrees-put :
      (g : ℕ → ℕ) (idx : ℕ) (bytes : List ℕ) (cache : ChunkCache)
      → ((j : ℕ)
          → j ≢ idx
          → tabulate f (j * chunk_size) chunk_size ≡ tabulate g (j * chunk_size) chunk_size)
      → bytes ≡ tabulate g (idx * chunk_size) chunk_size
      → Agrees f chunk_size volume cache
      → Agrees g chunk_size volume (ChunkCache.put (named volume idx) bytes cache)
  Agrees-put g idx bytes cache others here a = record {
    at = λ j b h. elim (ℕ_discrete j idx) [
      | yes e ↦ ground (
        arith,
        held-put (named volume idx) (named volume j) bytes cache,
        key_beq_iff (named volume idx) (named volume j),
      )
      | no ne ↦ ground (
        arith,
        held-put (named volume idx) (named volume j) bytes cache,
        named_ne volume idx j,
        others j ne,
        a.at j b,
      )
    ];
  }

  pub Agrees-invalidate :
      (g : ℕ → ℕ) (idx : ℕ) (cache : ChunkCache)
      → ((j : ℕ)
          → j ≢ idx
          → tabulate f (j * chunk_size) chunk_size ≡ tabulate g (j * chunk_size) chunk_size)
      → Agrees f chunk_size volume cache
      → Agrees g chunk_size volume (ChunkCache.invalidate (named volume idx) cache)
  unfolding ChunkCache.invalidate
  Agrees-invalidate g idx cache others a = record {
    at = λ j b h. elim (ℕ_discrete j idx) [
      | yes e ↦ ground (
        arith,
        lookup-remove_entry (named volume idx) (named volume j) cache,
        key_beq_iff (named volume idx) (named volume j),
      )
      | no ne ↦ ground (
        arith,
        lookup-remove_entry (named volume idx) (named volume j) cache,
        named_ne volume idx j,
        others j ne,
        a.at j b,
      )
    ];
  }
