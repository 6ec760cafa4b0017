-- ===== src/CachedStore/IsVolume.antt =====
-- src/cache.rs, `CachedStore` as a block store over a block store.
use iscsi_s.ChunkCache
use iscsi_s.CachedStore.Writes.{write_at-Writes}
use iscsi_s.CachedStore.Coherent.{Agrees-ext, Agrees-invalidate}
use iscsi_s.Prelude.{
  ℕ, ◌≤◌, ◌<◌, sym, ◌≢◌, tabulate, ◌/◌, ◌*◌, ◌≡◌, tabulate_ext, arith, mul-add-div_lt,
}
use iscsi_s.Prelude.Eq.{nat_eq}
use iscsi_s.Result.{Result, ok, err, Ends, Ends-guarded}
use iscsi_s.Store.{BlockStore, u64_size}
use iscsi_s.Store.Laws.{IsBlockStore, Shows, volume, Volume, resized, contains, cleared}
use iscsi_s.CachedStore.{
  CachedStore, cached_store, locked_error, set_capacity, flush, List, present_chunks, delete_chunk,
  and_then, false, key,
}
use iscsi_s.CachedStore.Reads.{
  IsCoherent, cached_content, Stays-with, Stays-refl, shown, read_at-Reads,
}

module _ {S : Type 0} (ops : BlockStore S) (IsValid : S → Type 0) (content : S → ℕ → ℕ)
    (laws : IsBlockStore ops IsValid content) where
  abbrev Good : CachedStore S → Type 0
  Good = IsCoherent ops IsValid content

  module _ (c : CachedStore S) (v : Good c) where
    abbrev vol : Volume
    vol = shown ops IsValid content c

    set_capacity_law :
        (capacity : ℕ)
        → capacity < u64_size
        → Ends
            (λ _ c'.
              Shows
                (cached_store ops)
                Good
                (cached_content ops IsValid content)
                c'
                (resized vol capacity)
              × (ops.capacity c.inner ≤ capacity))
            (λ _ c'. Shows (cached_store ops) Good (cached_content ops IsValid content) c' vol)
            (set_capacity ops capacity c)
    unfolding set_capacity
    set_capacity_law capacity small =
        Ends-guarded _
          (λ _ c'. Shows (cached_store ops) Good (cached_content ops IsValid content) c' vol)
          c.io_locked locked_error c _ (λ _. Stays-refl ops IsValid content c v)
          (λ _.
            after (ops.set_capacity capacity c.inner) (laws.resizes c.inner capacity v.inner small))
      where
        after :
            (r : Result (Unit {0}) × S)
            → Ends
                (λ _ s.
                  Shows ops IsValid content s
                    (resized (volume ops IsValid content c.inner) capacity)
                  × (ops.capacity c.inner ≤ capacity))
                (λ _ s. Shows ops IsValid content s (volume ops IsValid content c.inner))
                r
            → Ends
                (λ _ c'.
                  Shows
                    (cached_store ops)
                    Good
                    (cached_content ops IsValid content)
                    c'
                    (resized vol capacity)
                  × (ops.capacity c.inner ≤ capacity))
                (λ _ c'. Shows (cached_store ops) Good (cached_content ops IsValid content) c' vol)
                (r.0, record c { inner = r.1 })
        after (err e, s) sh = Stays-with ops IsValid content c s c.cache sh v.agrees
        after (ok _, s) (sh, le) = (
          record {
            valid = record {
              inner = sh.valid;
              agrees = rw sh.same.chunk_size (Agrees-ext (λ p. sym (sh.same.content p)) v.agrees);
            };
            same = record {
              capacity = sh.same.capacity;
              block_size = sh.same.block_size;
              chunk_size = sh.same.chunk_size;
              content = sh.same.content;
            };
          },
          le,
        )

    flush_law :
        Ends
          (λ _ c'. Shows (cached_store ops) Good (cached_content ops IsValid content) c' vol)
          (λ _ _. Unit)
          (flush ops c)
    unfolding flush
    flush_law =
        Ends-guarded _ (λ _ _. Unit) c.io_locked locked_error c _ (λ _. tt)
          (λ _. after (ops.flush c.inner) (laws.flushes c.inner v.inner))
      where
        after :
            (r : Result (Unit {0}) × S)
            → Ends
                (λ _ s. Shows ops IsValid content s (volume ops IsValid content c.inner))
                (λ _ _. Unit)
                r
            → Ends
                (λ _ c'. Shows (cached_store ops) Good (cached_content ops IsValid content) c' vol)
                (λ _ _. Unit)
                (r.0, record c { inner = r.1 })
        after (err e, s) sh = tt
        after (ok _, s) sh = Stays-with ops IsValid content c s c.cache sh v.agrees

    abbrev Listed : List ℕ → Type 0
    Listed idxs =
        (p : ℕ) → contains idxs (p / ops.chunk_size c.inner) ≡ false → content c.inner p ≡ 0

    present_chunks_law :
        Ends
          (λ idxs c'.
            Shows (cached_store ops) Good (cached_content ops IsValid content) c' vol × Listed idxs)
          (λ _ c'. Shows (cached_store ops) Good (cached_content ops IsValid content) c' vol)
          (present_chunks ops c)
    unfolding present_chunks
    present_chunks_law =
        Ends-guarded _
          (λ _ c'. Shows (cached_store ops) Good (cached_content ops IsValid content) c' vol)
          c.io_locked locked_error c _ (λ _. Stays-refl ops IsValid content c v)
          (λ _. after (ops.present_chunks c.inner) (laws.lists c.inner v.inner))
      where
        after :
            (r : Result (List ℕ) × S)
            → Ends
                (λ idxs s.
                  Shows ops IsValid content s (volume ops IsValid content c.inner) × Listed idxs)
                (λ _ s. Shows ops IsValid content s (volume ops IsValid content c.inner))
                r
            → Ends
                (λ idxs c'.
                  Shows (cached_store ops) Good (cached_content ops IsValid content) c' vol
                  × Listed idxs)
                (λ _ c'. Shows (cached_store ops) Good (cached_content ops IsValid content) c' vol)
                (r.0, record c { inner = r.1 })
        after (err e, s) sh = Stays-with ops IsValid content c s c.cache sh v.agrees
        after (ok idxs, s) (sh, l) = (Stays-with ops IsValid content c s c.cache sh v.agrees, l)

    others :
        (idx j : ℕ)
        → j ≢ idx
        → tabulate (content c.inner) (j * ops.chunk_size c.inner) (ops.chunk_size c.inner)
          ≡ tabulate (cleared vol idx).content (j * ops.chunk_size c.inner) (ops.chunk_size c.inner)
    others idx j ne =
        tabulate_ext _ _ _ _ (ops.chunk_size c.inner)
          λ i lt. ground (arith, mul-add-div_lt j i (ops.chunk_size c.inner) lt)

    delete_chunk_law :
        (idx : ℕ)
        → idx < u64_size
        → Ends
            (λ _ c'.
              Shows
                (cached_store ops)
                Good
                (cached_content ops IsValid content)
                c'
                (cleared vol idx))
            (λ _ _. Unit)
            (delete_chunk ops idx c)
    unfolding delete_chunk
    delete_chunk_law idx small =
        Ends-guarded _ (λ _ _. Unit) c.io_locked locked_error c _ (λ _. tt)
          (λ _. after (ops.delete_chunk idx c.inner) (laws.deletes c.inner idx v.inner small))
      where
        after :
            (r : Result (Unit {0}) × S)
            → Ends
                (λ _ s.
                  Shows ops IsValid content s (cleared (volume ops IsValid content c.inner) idx))
                (λ _ _. Unit)
                r
            → Ends {A = Unit {0}}
                (λ _ c'.
                  Shows
                    (cached_store ops)
                    Good
                    (cached_content ops IsValid content)
                    c'
                    (cleared vol idx))
                (λ _ _. Unit)
                (and_then
                  (r.0, record c { inner = r.1 })
                  λ _ c'.
                    (ok tt, record c' { cache = ChunkCache.invalidate (key c' idx) c'.cache }))
        after (err e, s) sh = tt
        after (ok _, s) sh = record {
          valid = record {
            inner = sh.valid;
            agrees = rw sh.same.chunk_size (
                Agrees-ext (λ p. sym (sh.same.content p))
                  (Agrees-invalidate (cleared vol idx).content idx c.cache (others idx) v.agrees));
          };
          same = record {
            capacity = sh.same.capacity;
            block_size = sh.same.block_size;
            chunk_size = sh.same.chunk_size;
            content = sh.same.content;
          };
        }

  -- Over any store that keeps the promises of a block store, the cached store keeps them too, with
  -- the same disk as the store below it.
  pub cached-IsBlockStore :
      IsBlockStore
        (cached_store ops)
        (IsCoherent ops IsValid content)
        (cached_content ops IsValid content)
  cached-IsBlockStore = record {
    chunk_pos = λ c v. laws.chunk_pos c.inner v.inner;
    beyond = λ c v. laws.beyond c.inner v.inner;
    reads = λ c offset buf v. read_at-Reads ops IsValid content laws c v offset buf;
    writes = λ c offset bytes v. write_at-Writes ops IsValid content laws c v offset bytes;
    resizes = λ c capacity v small. set_capacity_law c v capacity small;
    flushes = λ c v. flush_law c v;
    lists = λ c v. present_chunks_law c v;
    deletes = λ c idx v small. delete_chunk_law c v idx small;
  }
