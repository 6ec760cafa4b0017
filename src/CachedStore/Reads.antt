-- ===== src/CachedStore/Reads.antt =====
-- src/cache.rs, `CachedStore::read_at` and `load_chunk`: reading through the cache.
use iscsi_s.ChunkCache.Entries.{get_lem}
use iscsi_s.Prelude.{
  ℕ, ◌+◌, ◌*◌, ◌≤◌, ◌≡◌, refl, ap, ◌∙◌, List, arith, length, tabulate, copy_at, inl, inr, drop,
  replicate, ◌<◌, sym, ◌-◌, pad-tabulate, Bool-cases, length-replicate, ◌++◌, length-slice, none,
  tabulate_ext, drop_all, slice-tabulate, append-nil, copy_at-tabulate,
}
use iscsi_s.Result.{Result, ok, err, Ends, Ends-guarded, Ends-checked}
use iscsi_s.Pieces.{for_pieces_rule, Step}
use iscsi_s.Store.{BlockStore, Reading, finish_read, check_range_bound}
use iscsi_s.Store.Laws.{
  IsBlockStore, Shows, SameVolume-refl, SameVolume-trans, volume, Volume, Reads,
}
use iscsi_s.ChunkCache
use iscsi_s.CachedStore.{
  CachedStore, cached_store, load_chunk, load_miss, read_piece, read_at, key, ChunkCache, min,
  slice, and_then, leb, Option, some, locked_error, check_range,
}
use iscsi_s.CachedStore.Coherent.{Agrees, Agrees-ext, Agrees-get, Agrees-put}

module _ {S : Type 0} (ops : BlockStore S) (IsValid : S → Type 0) (content : S → ℕ → ℕ) where
  -- The inner store is valid, and the cache agrees with it.
  pub record IsCoherent (c : CachedStore S) : Type 0 where
    pub inner : IsValid c.inner
    pub agrees : Agrees (content c.inner) (ops.chunk_size c.inner) c.volume c.cache

  abbrev pub cached_content : CachedStore S → ℕ → ℕ
  cached_content c = content c.inner

  abbrev pub shown : CachedStore S → Volume
  shown = volume (cached_store ops) IsCoherent cached_content

  abbrev pub Stays : CachedStore S → CachedStore S → Type 0
  Stays c c' = Shows (cached_store ops) IsCoherent cached_content c' (shown c)

  -- A new inner state that shows the same disk, with a cache that still agrees with it.
  pub Stays-with :
      (c : CachedStore S) (s : S) (cache : ChunkCache)
      → Shows ops IsValid content s (volume ops IsValid content c.inner)
      → Agrees (content c.inner) (ops.chunk_size c.inner) c.volume cache
      → Stays c (record c { inner = s; cache = cache })
  Stays-with c s cache sh a = record {
    valid = record {
      inner = sh.valid;
      agrees = rw sh.same.chunk_size (Agrees-ext (λ p. sym (sh.same.content p)) a);
    };
    same = record {
      capacity = sh.same.capacity;
      block_size = sh.same.block_size;
      chunk_size = sh.same.chunk_size;
      content = sh.same.content;
    };
  }

  pub Stays-refl : (c : CachedStore S) → IsCoherent c → Stays c c
  Stays-refl c v = record { valid = v; same = SameVolume-refl (shown c) }

  module _ (laws : IsBlockStore ops IsValid content) (c : CachedStore S) (v : IsCoherent c) where
    abbrev chunk_of : ℕ → List ℕ
    chunk_of idx =
        tabulate (content c.inner) (idx * ops.chunk_size c.inner) (ops.chunk_size c.inner)

    abbrev Loaded : ℕ → Result (List ℕ) × CachedStore S → Type 0
    Loaded idx = Ends (λ bytes c'. Stays c c' × (bytes ≡ chunk_of idx)) (λ _ c'. Stays c c')

    -- The valid part of a chunk, padded with zeros, is the chunk of the disk.
    padded :
        (idx n : ℕ) (filled : List ℕ)
        → idx * ops.chunk_size c.inner < ops.capacity c.inner
        → n ≡ min (ops.capacity c.inner - idx * ops.chunk_size c.inner) (ops.chunk_size c.inner)
        → filled ≡ tabulate (content c.inner) (idx * ops.chunk_size c.inner) n
        → copy_at (replicate (ops.chunk_size c.inner) 0) 0 filled ≡ chunk_of idx
    padded idx n filled lt e eq = rw eq (
        pad-tabulate (content c.inner) (idx * ops.chunk_size c.inner) n (ops.chunk_size c.inner)
          (omega arith) (λ i in_pad. laws.beyond c.inner v.inner _ (omega arith)))

    load_miss-Loaded : (idx : ℕ) → Loaded idx (load_miss ops idx c)
    unfolding load_miss
    load_miss-Loaded idx = elim (Bool-cases (leb capacity offset)) [
      | inl past ↦ rw (past, Ends, load_miss) (Stays-refl c v)
      | inr below ↦
          rw (below, load_miss)
            (after_read (ground arith) (ops.read_at offset (slice zeros 0 valid) c.inner)
              (laws.reads c.inner offset (slice zeros 0 valid) v.inner))
    ]
      where
        chunk_size : ℕ
        chunk_size = ops.chunk_size c.inner

        capacity : ℕ
        capacity = ops.capacity c.inner

        offset : ℕ
        offset = idx * chunk_size

        zeros : List ℕ
        zeros = replicate chunk_size 0

        valid : ℕ
        valid = min (capacity - offset) (length zeros)

        after_read :
            offset < capacity
            → (r : Result (List ℕ) × S)
            → Reads ops IsValid content c.inner offset (length (slice zeros 0 valid)) r
            → Loaded idx (
                and_then
                  (r.0, record c { inner = r.1 })
                  λ filled c'. (
                    ok (copy_at zeros 0 filled),
                    record c' {
                      cache = ChunkCache.put (key c' idx) (copy_at zeros 0 filled) c'.cache;
                    },
                  ))
        after_read lt (err e, s) sh = Stays-with c s c.cache sh v.agrees
        after_read lt (ok filled, s) (sh, eq, fits) =
            let zeros_size = length-replicate {A = ℕ} chunk_size 0 in
            let size = length-slice zeros 0 valid (omega arith) in
            let whole : copy_at zeros 0 filled ≡ chunk_of idx =
              padded idx (length (slice zeros 0 valid)) filled lt (omega (arith, size, zeros_size))
                eq in
            (
              Stays-with c s (ChunkCache.put (key c idx) (copy_at zeros 0 filled) c.cache) sh (
                  Agrees-put (content c.inner) idx (copy_at zeros 0 filled) c.cache (λ j ne. refl)
                    whole v.agrees),
              whole,
            )

  module _ (laws : IsBlockStore ops IsValid content) (c : CachedStore S) (v : IsCoherent c) where
    load_chunk-Loaded : (idx : ℕ) → Loaded laws c v idx (load_chunk ops idx c)
    unfolding load_chunk
    load_chunk-Loaded idx =
        Ends-guarded
          (λ bytes c'.
            Stays c c'
            × (bytes
                ≡ tabulate (content c.inner) (idx * ops.chunk_size c.inner)
                    (ops.chunk_size c.inner)))
          (λ _ c'. Stays c c') c.io_locked locked_error c _ (λ _. Stays-refl c v)
          (λ _. after_get (ChunkCache.get (key c idx) c.cache).0 refl)
      where
        c' : CachedStore S
        c' = record c { cache = (ChunkCache.get (key c idx) c.cache).1 }

        v' : IsCoherent c'
        v' = record { inner = v.inner; agrees = Agrees-get (key c idx) v.agrees }

        after_get :
            (hit : Option (List ℕ))
            → hit ≡ (ChunkCache.get (key c idx) c.cache).0
            → Loaded laws c v idx
                (elim hit [ some bytes ↦ (ok bytes, c') | none ↦ load_miss ops idx c' ])
        after_get none e = load_miss-Loaded laws c' v' idx
        after_get (some bytes) e = (
          record { valid = v'; same = SameVolume-refl (shown c) },
          v.agrees.at idx bytes (sym (e ∙ get_lem (key c idx) c.cache)),
        )

  module _ (laws : IsBlockStore ops IsValid content) (c : CachedStore S) (v : IsCoherent c)
      (offset : ℕ) (buf : List ℕ) where
    abbrev Filled : ℕ → Reading (CachedStore S) → Type 0
    Filled done r =
        Stays c r.store × (r.buf ≡ tabulate (content c.inner) offset done ++ drop done buf)

    read_piece-Filled :
        Step
          (ops.chunk_size c.inner)
          offset
          (length buf)
          (read_piece ops)
          Filled
          (λ _ r. Stays c r.store)
    unfolding read_piece
    read_piece-Filled done idx within taken r split room inside (st, b) =
        after_load (load_chunk ops idx r.store) (load_chunk-Loaded laws r.store st.valid idx)
      where
        piece :
            (chunk : List ℕ)
            → chunk
              ≡ tabulate
                  (content r.store.inner)
                  (idx * ops.chunk_size r.store.inner)
                  (ops.chunk_size r.store.inner)
            → slice chunk within taken ≡ tabulate (content c.inner) (offset + done) taken
        piece chunk eq =
            let same : chunk
                ≡ tabulate (content c.inner) (idx * ops.chunk_size c.inner)
                    (ops.chunk_size c.inner) =
              rw st.same.chunk_size at eq
              ∙ tabulate_ext _ _ _ _ (ops.chunk_size c.inner)
                  (λ i lt. st.same.content (idx * ops.chunk_size c.inner + i)) in
            ap (λ l. slice l within taken) same
            ∙ slice-tabulate (content c.inner) (idx * ops.chunk_size c.inner)
                (ops.chunk_size c.inner) within taken (offset + done) room split

        after_load :
            (l : Result (List ℕ) × CachedStore S)
            → Loaded laws r.store st.valid idx l
            → Ends
                (λ _. Filled (done + taken))
                (λ _ r'. Stays c r'.store)
                (and_then
                  (l.0, record r { store = l.1 })
                  λ chunk r'.
                    (ok tt, record r' { buf = copy_at r'.buf done (slice chunk within taken) }))
        after_load (err e, c') st' = record {
          valid = st'.valid;
          same = SameVolume-trans st'.same st.same;
        }
        after_load (ok chunk, c') (st', eq) = (
          record { valid = st'.valid; same = SameVolume-trans st'.same st.same },
          rw (b, piece chunk eq) (copy_at-tabulate (content c.inner) offset done taken buf),
        )

    finish_read-Reads :
        (r : Result (Unit {0}) × Reading (CachedStore S))
        → Ends (λ _. Filled (length buf)) (λ _ r'. Stays c r'.store) r
        → offset + length buf ≤ ops.capacity c.inner
        → Reads (cached_store ops) IsCoherent cached_content c offset (length buf) (finish_read r)
    finish_read-Reads (ok _, r) (st, b) fits = (
      st,
      b
          ∙ (ap (λ l. tabulate (content c.inner) offset (length buf) ++ l) (drop_all buf)
              ∙ append-nil _),
      fits,
    )
    finish_read-Reads (err e, r) st fits = st

    -- Over a lawful store, a read through a cache that agrees with the disk returns, when it
    -- succeeds, the bytes of the disk, all of them below the capacity, whether each chunk is held
    -- or loaded; it changes neither the disk nor the agreement, also where it fails.
    pub read_at-Reads :
        Reads
          (cached_store ops)
          IsCoherent
          cached_content
          c
          offset
          (length buf)
          (read_at ops offset buf c)
    unfolding read_at
    read_at-Reads =
        Ends-guarded _ (λ _ c'. Stays c c') c.io_locked locked_error c _ (λ _. Stays-refl c v)
          (λ _.
            Ends-checked _ (λ _ c'. Stays c c')
              (check_range (ops.capacity c.inner) offset (length buf)) c _ (λ _ _. Stays-refl c v)
              λ in_range.
                finish_read-Reads _
                  (for_pieces_rule (ops.chunk_size c.inner) offset (length buf) (read_piece ops)
                    Filled (λ _ r. Stays c r.store) read_piece-Filled
                    (laws.chunk_pos c.inner v.inner) (length buf) 0
                    (record { store = c; buf = buf }) (omega arith) (omega arith)
                    (Stays-refl c v, refl))
                  (check_range_bound (ops.capacity c.inner) offset (length buf) in_range))
