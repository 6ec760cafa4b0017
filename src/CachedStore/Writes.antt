-- ===== src/CachedStore/Writes.antt =====
-- src/cache.rs, `CachedStore::write_at`: the inner store is written first, then the cached chunks are
-- brought up to date piece by piece.
use iscsi_s.ChunkCache.Entries.{get_lem}
use iscsi_s.Prelude.{
  ℕ, ◌+◌, ◌*◌, ◌≤◌, ◌≡◌, refl, ap, ◌∙◌, List, arith, length, tabulate, copy_at, overlay, take,
  slice, overlay-take, length-slice, ◌≢◌, sym, none, take_all, overlay-nil,
}
use iscsi_s.Prelude.Eq.{nat_eq}
use iscsi_s.Result.{Result, ok, err, Ends, Ends-guarded}
use iscsi_s.Pieces.{for_pieces, for_pieces_rule, other-chunk, copy_at-chunk}
use iscsi_s.Store.{BlockStore}
use iscsi_s.Store.Laws.{IsBlockStore, Shows, volume, Writes, written}
use iscsi_s.ChunkCache
use iscsi_s.ChunkCache.{ChunkCache}
use iscsi_s.CachedStore.{
  CachedStore, cached_store, write_piece, write_at, key, locked_error, Option, some, and_then,
}
use iscsi_s.CachedStore.Coherent.{Agrees, Agrees-ext, Agrees-get, Agrees-put, Agrees-invalidate}
use iscsi_s.CachedStore.Reads.{IsCoherent, cached_content}

module _ {S : Type 0} (ops : BlockStore S) (c : CachedStore S) (f : ℕ → ℕ) (offset : ℕ)
    (bytes : List ℕ) where
  abbrev upto : ℕ → ℕ → ℕ
  upto done = overlay f offset (take done bytes)

  -- Only the cache changes, and it agrees with the disk written up to `done`.
  record Updated (done : ℕ) (c' : CachedStore S) : Type 0 where
    inner : c'.inner ≡ c.inner
    volume : c'.volume ≡ c.volume
    agrees : Agrees (upto done) (ops.chunk_size c.inner) c'.volume c'.cache

  module _ (done idx within taken : ℕ) (c' : CachedStore S)
      (split : idx * ops.chunk_size c.inner + within ≡ offset + done)
      (room : within + taken ≤ ops.chunk_size c.inner) (inside : done + taken ≤ length bytes)
      (u : Updated done c') where
    abbrev piece : List ℕ
    piece = slice bytes done taken

    step : (p : ℕ) → overlay (upto done) (offset + done) piece p ≡ upto (done + taken) p
    step p = overlay-take f offset bytes done taken p inside

    fits : within + length piece ≤ ops.chunk_size c.inner
    fits = omega (arith, length-slice bytes done taken inside)

    others :
        (j : ℕ)
        → j ≢ idx
        → tabulate (upto done) (j * ops.chunk_size c.inner) (ops.chunk_size c.inner)
          ≡ tabulate
              (overlay (upto done) (offset + done) piece)
              (j * ops.chunk_size c.inner)
              (ops.chunk_size c.inner)
    others j ne =
        other-chunk (upto done) piece (ops.chunk_size c.inner) idx j within (offset + done) split
          fits ne

    write_piece-Updated :
        Ends
          (λ _. Updated (done + taken))
          (λ _ _. ⊥)
          (write_piece ops bytes idx within taken done c')
    unfolding write_piece
    write_piece-Updated = after_get (ChunkCache.get (key c' idx) c'.cache).0 refl
      where
        cache : ChunkCache
        cache = (ChunkCache.get (key c' idx) c'.cache).1

        agrees : Agrees (upto done) (ops.chunk_size c.inner) c'.volume cache
        agrees = Agrees-get (key c' idx) u.agrees

        after_get :
            (hit : Option (List ℕ))
            → hit ≡ (ChunkCache.get (key c' idx) c'.cache).0
            → Ends {A = Unit {0}}
                (λ _. Updated (done + taken))
                (λ _ _. ⊥)
                (elim hit [
                  | some cached ↦ (
                    ok tt,
                    record c' {
                      cache = ChunkCache.put (key c' idx) (copy_at cached within piece) cache;
                    },
                  )
                  | none ↦ (ok tt, record c' { cache = ChunkCache.invalidate (key c' idx) cache })
                ])
        after_get none e = record {
          inner = u.inner;
          volume = u.volume;
          agrees = Agrees-ext step (
              Agrees-invalidate (overlay (upto done) (offset + done) piece) idx cache others
                agrees);
        }
        after_get (some cached) e = record {
          inner = u.inner;
          volume = u.volume;
          agrees = Agrees-ext step (
              Agrees-put (overlay (upto done) (offset + done) piece) idx
                (copy_at cached within piece) cache others
                (ap (λ l. copy_at l within piece)
                    (u.agrees.at idx cached (sym (e ∙ get_lem (key c' idx) c'.cache)))
                  ∙ copy_at-chunk (upto done) piece (ops.chunk_size c.inner) idx within
                      (offset + done) split fits)
                agrees);
        }

module _ {S : Type 0} (ops : BlockStore S) (IsValid : S → Type 0) (content : S → ℕ → ℕ)
    (laws : IsBlockStore ops IsValid content) (c : CachedStore S)
    (v : IsCoherent ops IsValid content c) (offset : ℕ) (bytes : List ℕ) where
  abbrev Wrote : Result (Unit {0}) × CachedStore S → Type 0
  Wrote =
      Writes (cached_store ops) (IsCoherent ops IsValid content)
        (cached_content ops IsValid content) c offset bytes

  abbrev old : ℕ → ℕ
  old = content c.inner

  module _ (s : S)
      (sh : Shows ops IsValid content s (written (volume ops IsValid content c.inner) offset bytes))
      (fits : offset + length bytes ≤ ops.capacity c.inner) where
    abbrev start : CachedStore S
    start = record c { inner = s }

    new_disk : (p : ℕ) → overlay old offset (take (length bytes) bytes) p ≡ content s p
    new_disk p = rw (take_all (length bytes) bytes (omega arith)) (sym (sh.same.content p))

    finish :
        (r : Result (Unit {0}) × CachedStore S)
        → Ends (λ _. Updated ops start old offset bytes (length bytes)) (λ _ _. ⊥) r
        → Wrote r
    finish (err e, c') u = absurd u
    finish (ok _, c') u = (
      record {
        valid = record {
          inner = rw u.inner sh.valid;
          agrees = rw u.inner (Agrees-ext new_disk u.agrees);
        };
        same = record {
          capacity = rw u.inner sh.same.capacity;
          block_size = rw u.inner sh.same.block_size;
          chunk_size = rw u.inner sh.same.chunk_size;
          content = λ p. rw u.inner (sh.same.content p);
        };
      },
      fits,
    )

    loop : Wrote (
        for_pieces
          (length bytes)
          (ops.chunk_size s)
          offset
          (length bytes)
          0
          (write_piece ops bytes)
          start)
    loop = finish _ (
        for_pieces_rule (ops.chunk_size s) offset (length bytes) (write_piece ops bytes)
          (Updated ops start old offset bytes) (λ _ _. ⊥)
          (λ done idx within taken c' split room inside u.
            write_piece-Updated ops start old offset bytes done idx within taken c' split room
              inside u)
          (laws.chunk_pos s sh.valid) (length bytes) 0 start (omega arith) (omega arith)
          (record {
            inner = refl;
            volume = refl;
            agrees =
                rw sh.same.chunk_size (Agrees-ext (λ p. sym (overlay-nil old offset p)) v.agrees);
          }))

  -- From the cache as it agreed before the write to the cache after it.
  after_inner :
      (r : Result (Unit {0}) × S)
      → Writes ops IsValid content c.inner offset bytes r
      → Wrote (
          and_then
            (r.0, record c { inner = r.1 })
            λ _ c'.
              for_pieces
                (length bytes)
                (ops.chunk_size c'.inner)
                offset
                (length bytes)
                0
                (write_piece ops bytes)
                c')
  after_inner (err e, s) w = tt
  after_inner (ok _, s) (sh, fits) = loop s sh fits

  -- Over a lawful store, a write that succeeds through a cache that agrees with the disk lies
  -- below the capacity and puts those bytes and changes no other, and the cache agrees with the
  -- new disk.
  pub write_at-Writes : Wrote (write_at ops offset bytes c)
  unfolding write_at
  write_at-Writes =
      Ends-guarded _ (λ _ _. Unit) c.io_locked locked_error c _ (λ _. tt)
        (λ _.
          after_inner (ops.write_at offset bytes c.inner)
            (laws.writes c.inner offset bytes v.inner))
