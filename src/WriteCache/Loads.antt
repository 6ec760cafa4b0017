-- ===== src/WriteCache/Loads.antt =====
-- src/write_cache.rs, `read_at` of `WriteCachedStore`: what a read returns.
use iscsi_s.Prelude.{
  ℕ, ◌+◌, ◌*◌, ◌≡◌, refl, ap, ◌∙◌, false, none, some, List, length, arith, tabulate, tabulate_ext,
  drop, slice, copy_at, copy_at-tabulate, slice-tabulate, length-slice, ◌++◌, drop_all, append-nil,
  length-tabulate, length-append, length-drop, Option_rule,
}
use iscsi_s.Result.{Result, ok, err, Ends, Ends-checked, and_then}
use iscsi_s.Pieces.{for_pieces_rule, Step, piece_div}
use iscsi_s.Store.{BlockStore, Reading, finish_read, check_range}
use iscsi_s.Store.Laws.{IsBlockStore, Reads, Shows, volume}
use iscsi_s.WriteCache.{Core, is_none, Worker, holding, written_back, at_top, parked, stopped}
use iscsi_s.WriteCache.Files.{FileSystem}
use iscsi_s.WriteCache.Chunks.{lookup}
use iscsi_s.WriteCache.Client.{read_piece, read_at}
use iscsi_s.WriteCache.View.{Holds, Flying}

module _ {S D : Type 0} (ops : BlockStore S) (IsValid : S → Type 0) (content : S → ℕ → ℕ) where
  -- An inner read leaves the disk, the caches and the worker as they are.
  pub Holds-read :
      {f : ℕ → ℕ} (c : Core S D) (t : S)
      → Holds ops IsValid content f c
      → Shows ops IsValid content t (volume ops IsValid content c.inner)
      → Holds ops IsValid content f (record c { inner = t })
  Holds-read {f} c t h sh = record {
    inner = sh.valid;
    small = rw sh.same.capacity h.small;
    zero = rw sh.same.capacity h.zero;
    cached = rw sh.same.chunk_size h.cached;
    under = rw sh.same.chunk_size (λ p k. sh.same.content p ∙ h.under p k);
    sized = rw sh.same.chunk_size h.sized;
    flying = flying_still c.worker h.flying;
  }
    where
      flying_still :
          (w : Worker)
          → Flying ops IsValid content w f c
          → Flying ops IsValid content w f (record c { inner = t })
      flying_still at_top x = tt
      flying_still parked x = tt
      flying_still stopped x = tt
      flying_still (holding job) x = x
      flying_still (written_back job (ok _)) x =
          (x.0, rw sh.same.chunk_size (λ p e gone. sh.same.content p ∙ x.1 p e gone))
      flying_still (written_back job (err _)) x = x

  abbrev pub ReadsView : (ℕ → ℕ) → ℕ → ℕ → Result (List ℕ) × Core S D → Type 0
  ReadsView f offset len =
      Ends (λ filled c'. Holds ops IsValid content f c' × (filled ≡ tabulate f offset len))
        (λ _ c'. Holds ops IsValid content f c')

  module _ (fs : FileSystem D) (laws : IsBlockStore ops IsValid content) (f : ℕ → ℕ)
      (size offset : ℕ) (buf : List ℕ) where
    record Filled (done : ℕ) (r : Reading (Core S D)) : Type 0 where
      holds : Holds ops IsValid content f r.store
      chunk_size : ops.chunk_size r.store.inner ≡ size
      filled : r.buf ≡ tabulate f offset done ++ drop done buf

    read_piece-Filled :
        Step size offset
          (length buf)
          (read_piece ops fs offset)
          Filled
          (λ _ r. Holds ops IsValid content f r.store)
    unfolding read_piece
    read_piece-Filled done idx within taken r split room inside q =
        Option_rule
          (Ends (λ _. Filled (done + taken)) (λ _ r'. Holds ops IsValid content f r'.store))
          (lookup idx r.store) _ _
          (λ absent.
            after_read absent (ops.read_at (offset + done) (slice r.buf done taken) r.store.inner) (
              rw whole at
                (laws.reads r.store.inner (offset + done) (slice r.buf done taken) q.holds.inner)))
          (λ chunk found. record {
            holds = q.holds;
            chunk_size = q.chunk_size;
            filled =
                rw (q.filled, piece chunk (h_cached chunk found))
                  (copy_at-tabulate f offset done taken buf);
          })
      where
        whole : length (slice r.buf done taken) ≡ taken
        whole = length-slice r.buf done taken (
            omega (
              arith,
              ap length q.filled,
              length-append (tabulate f offset done) (drop done buf),
              length-tabulate f offset done,
              length-drop done buf,
            ))

        h_cached :
            (chunk : List ℕ)
            → lookup idx r.store ≡ some chunk
            → chunk ≡ tabulate f (idx * size) size
        h_cached chunk found = rw q.chunk_size at (q.holds.cached idx chunk found)

        piece :
            (chunk : List ℕ)
            → chunk ≡ tabulate f (idx * size) size
            → slice chunk within taken ≡ tabulate f (offset + done) taken
        piece chunk e =
            ap (λ l. slice l within taken) e
            ∙ slice-tabulate f (idx * size) size within taken (offset + done) room split

        below_piece :
            lookup idx r.store ≡ none
            → tabulate (content r.store.inner) (offset + done) taken
              ≡ tabulate f (offset + done) taken
        below_piece absent = tabulate_ext _ _ _ _ taken λ i lt. q.holds.under (offset + done + i) (
            rw q.chunk_size (
              ap (λ j. lookup j r.store)
                (piece_div size idx within taken (offset + done) i split room lt).0
              ∙ absent))

        after_read :
            lookup idx r.store ≡ none
            → (w : Result (List ℕ) × S)
            → Reads ops IsValid content r.store.inner (offset + done) taken w
            → Ends
                (λ _. Filled (done + taken))
                (λ _ r'. Holds ops IsValid content f r'.store)
                (and_then
                  (w.0, record r { store = record r.store { inner = w.1 } })
                  λ filled r'. (ok tt, record r' { buf = copy_at r'.buf done filled }))
        after_read absent (err e, t) sh = Holds-read r.store t q.holds sh
        after_read absent (ok filled, t) (sh, e, _) = record {
          holds = Holds-read r.store t q.holds sh;
          chunk_size = sh.same.chunk_size ∙ q.chunk_size;
          filled = rw (q.filled, e, below_piece absent) (copy_at-tabulate f offset done taken buf);
        }

    finish_read-ReadsView :
        (r : Result (Unit {0}) × Reading (Core S D))
        → Ends (λ _. Filled (length buf)) (λ _ r'. Holds ops IsValid content f r'.store) r
        → ReadsView f offset (length buf) (finish_read r)
    finish_read-ReadsView (ok _, r) q = (
      q.holds,
      q.filled ∙ (ap (λ l. tabulate f offset (length buf) ++ l) (drop_all buf) ∙ append-nil _),
    )
    finish_read-ReadsView (err e, r) h = h

  -- Over a lawful inner store, in the modes that cache, a read that succeeds returns the bytes
  -- that clients see, whether each chunk is dirty, queued, in flight or below; a read changes
  -- nothing that they see, also where it fails.
  pub read_at-ReadsView :
      (fs : FileSystem D) (laws : IsBlockStore ops IsValid content) (f : ℕ → ℕ) (c : Core S D)
      (offset : ℕ) (buf : List ℕ)
      → is_none c.mode ≡ false
      → Holds ops IsValid content f c
      → ReadsView f offset (length buf) (read_at ops fs offset buf c)
  unfolding read_at
  read_at-ReadsView fs laws f c offset buf caching h = rw caching (
      Ends-checked _ (λ _ c'. Holds ops IsValid content f c')
        (check_range (ops.capacity c.inner) offset (length buf)) c _ (λ _ _. h)
        λ in_range. finish_read-ReadsView fs laws f (ops.chunk_size c.inner) offset buf _ (
          for_pieces_rule (ops.chunk_size c.inner) offset (length buf) (read_piece ops fs offset)
            (Filled fs laws f (ops.chunk_size c.inner) offset buf)
            (λ _ r. Holds ops IsValid content f r.store)
            (read_piece-Filled fs laws f (ops.chunk_size c.inner) offset buf)
            (laws.chunk_pos c.inner h.inner) (length buf) 0 (record { store = c; buf = buf })
            (omega arith) (omega arith) (record { holds = h; chunk_size = refl; filled = refl })))
