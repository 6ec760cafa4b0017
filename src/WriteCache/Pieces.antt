-- ===== src/WriteCache/Pieces.antt =====
-- src/write_cache.rs, the body of `write_at`'s loop: load the chunk, copy the piece in, persist
-- it, and make it dirty.
use iscsi_s.Prelude.{
  ℕ, ◌+◌, ◌-◌, ◌*◌, ◌≤◌, ◌<◌, ◌≡◌, refl, ap, ◌∙◌, inl, inr, Bool-cases, none, List, length, arith,
  min, replicate, length-replicate, leb, overlay, tabulate, tabulate_ext, copy_at, slice,
  length-slice, pad-tabulate, mul-add-div_lt, Option_rule,
}
use iscsi_s.Result.{Result, ok, err, Ends, and_then}
use iscsi_s.Store.{BlockStore, u64_size}
use iscsi_s.Store.Laws.{IsBlockStore, Shows, SameVolume-refl, volume, Reads}
use iscsi_s.WriteCache.{Core}
use iscsi_s.WriteCache.Dirty
use iscsi_s.WriteCache.Files.{FileSystem}
use iscsi_s.WriteCache.Chunks.{lookup, load_for_write, read_full_chunk, saturating_mul, persist}
use iscsi_s.WriteCache.Client.{write_piece}
use iscsi_s.WriteCache.View.{Holds, Holds-files}
use iscsi_s.WriteCache.Loads.{Holds-read}
use iscsi_s.WriteCache.Writes.{inserted-Holds}

module _ {S : Type 0} (ops : BlockStore S) (IsValid : S → Type 0) (content : S → ℕ → ℕ)
    (laws : IsBlockStore ops IsValid content) (s : S) (v : IsValid s)
    (small : ops.capacity s < u64_size) (idx : ℕ) where
  abbrev Loads : Result (List ℕ) × S → Type 0
  Loads =
      Ends
        (λ bytes t.
          Shows ops IsValid content t (volume ops IsValid content s)
          × (bytes ≡ tabulate (content s) (idx * ops.chunk_size s) (ops.chunk_size s)))
        (λ _ t. Shows ops IsValid content t (volume ops IsValid content s))

  padded :
      (n : ℕ) (filled : List ℕ)
      → idx * ops.chunk_size s < ops.capacity s
      → n ≡ min (ops.capacity s - idx * ops.chunk_size s) (ops.chunk_size s)
      → filled ≡ tabulate (content s) (idx * ops.chunk_size s) n
      → copy_at (replicate (ops.chunk_size s) 0) 0 filled
        ≡ tabulate (content s) (idx * ops.chunk_size s) (ops.chunk_size s)
  padded n filled lt e eq = rw eq (
      pad-tabulate (content s) (idx * ops.chunk_size s) n (ops.chunk_size s) (omega arith)
        (λ i in_pad. laws.beyond s v _ (omega arith)))

  after_read :
      (n : ℕ)
      → idx * ops.chunk_size s < ops.capacity s
      → n ≡ min (ops.capacity s - idx * ops.chunk_size s) (ops.chunk_size s)
      → (r : Result (List ℕ) × S) → Reads ops IsValid content s (idx * ops.chunk_size s) n r
      → Loads (and_then r λ filled t. (ok (copy_at (replicate (ops.chunk_size s) 0) 0 filled), t))
  after_read n lt e (err x, t) sh = sh
  after_read n lt e (ok filled, t) (sh, eq, _) = (sh, padded n filled lt e eq)

  read_full_chunk-Loads : Loads (read_full_chunk ops idx s)
  unfolding read_full_chunk
  read_full_chunk-Loads =
      elim (Bool-cases (leb (ops.capacity s) (saturating_mul idx (ops.chunk_size s)))) [
        | inl past ↦
            rw (past, Ends)
              (record { valid = v; same = SameVolume-refl (volume ops IsValid content s) })
        | inr below ↦
            let offset : saturating_mul idx (ops.chunk_size s) ≡ idx * ops.chunk_size s =
              ground arith in
            let n =
              min (ops.capacity s - idx * ops.chunk_size s)
                (length (replicate {A = ℕ} (ops.chunk_size s) 0)) in
            let zeros : length (replicate {A = ℕ} (ops.chunk_size s) 0) ≡ ops.chunk_size s =
              length-replicate {A = ℕ} (ops.chunk_size s) 0 in
            rw (below, offset)
              (after_read n (ground arith) (omega (arith, zeros))
                (ops.read_at (idx * ops.chunk_size s)
                  (slice (replicate {A = ℕ} (ops.chunk_size s) 0) 0 n) s)
                (rw
                  (length-slice (replicate {A = ℕ} (ops.chunk_size s) 0) 0 n (omega (arith, zeros)))
                  at
                  (laws.reads s (idx * ops.chunk_size s)
                    (slice (replicate {A = ℕ} (ops.chunk_size s) 0) 0 n) v)))
      ]

module _ {S D : Type 0} (ops : BlockStore S) (fs : FileSystem D) (IsValid : S → Type 0)
    (content : S → ℕ → ℕ) (laws : IsBlockStore ops IsValid content) (f : ℕ → ℕ) where
  abbrev IsLoaded : ℕ → ℕ → ℕ → Result (List ℕ) × Core S D → Type 0
  IsLoaded size capacity idx =
      Ends
        (λ bytes c'.
          Holds ops IsValid content f c'
          × (ops.chunk_size c'.inner ≡ size)
          × (ops.capacity c'.inner ≡ capacity)
          × (bytes ≡ tabulate f (idx * size) size))
        (λ _ c'. Holds ops IsValid content f c')

  module _ (c : Core S D) (h : Holds ops IsValid content f c) (idx : ℕ) where
    abbrev size : ℕ
    size = ops.chunk_size c.inner

    missed :
        lookup idx c ≡ none
        → (r : Result (List ℕ) × S) → Loads ops IsValid content laws c.inner h.inner h.small idx r
        → IsLoaded size (ops.capacity c.inner) idx (r.0, record c { inner = r.1 })
    missed absent (err e, t) sh = Holds-read ops IsValid content c t h sh
    missed absent (ok bytes, t) (sh, e) = (
      Holds-read ops IsValid content c t h sh,
      sh.same.chunk_size,
      sh.same.capacity,
      e
          ∙ tabulate_ext _ _ _ _ size (λ i lt.
            h.under (idx * size + i)
              (ap (λ j. lookup j c) (mul-add-div_lt idx i size lt) ∙ absent)),
    )

    load_for_write-IsLoaded : IsLoaded size (ops.capacity c.inner) idx (load_for_write ops idx c)
    unfolding load_for_write
    load_for_write-IsLoaded =
        Option_rule (IsLoaded size (ops.capacity c.inner) idx) (lookup idx c) _ _
          (λ absent.
            missed absent (read_full_chunk ops idx c.inner)
              (read_full_chunk-Loads ops IsValid content laws c.inner h.inner h.small idx))
          (λ bytes found. (h, refl, refl, h.cached idx bytes found))

    module _ (bytes : List ℕ) (within taken done base : ℕ) (split : idx * size + within ≡ base)
        (room : within + taken ≤ size) (inside : done + taken ≤ length bytes)
        (fits : base + taken ≤ ops.capacity c.inner) where
      abbrev piece : List ℕ
      piece = slice bytes done taken

      abbrev Wrote : Result (Unit {0}) × Core S D → Type 0
      Wrote =
          Ends (λ _ c'. Holds ops IsValid content (overlay f base piece) c')
            (λ _ c'. Holds ops IsValid content f c')

      after_load :
          (l : Result (List ℕ) × Core S D)
          → IsLoaded size (ops.capacity c.inner) idx l
          → Wrote (
              and_then l λ loaded c'.
                and_then (persist fs idx (copy_at loaded within piece) c') λ _ c'. (
                  ok tt,
                  record c' {
                    dirty = Dirty.insert c'.now idx (copy_at loaded within piece) c'.dirty;
                  },
                ))
      after_load (err e, c') h' = h'
      after_load (ok loaded, c') (h', same, same', e) = after_persist _ _
        where
          after_persist :
              (r : Result (Unit {0})) (files : D)
              → Wrote (
                  and_then
                    (r, record c' { files = files })
                    λ _ c''. (
                      ok tt,
                      record c'' {
                        dirty = Dirty.insert c''.now idx (copy_at loaded within piece) c''.dirty;
                      },
                    ))
          after_persist (err x) files = Holds-files ops IsValid content c' files h'
          after_persist (ok _) files =
              let whole = length-slice bytes done taken inside in
              rw (e, ← same)
                (inserted-Holds ops IsValid content laws f c' h' files idx within base piece
                  (rw same split) (rw (same, whole) room) (rw (same', whole) fits))

      -- Over a lawful inner store, a piece of a write within the capacity makes its chunk dirty so
      -- that, where it succeeds, clients see the piece over what they saw, and where it fails they
      -- see what they saw.
      pub write_piece-Wrote : Wrote (write_piece ops fs bytes idx within taken done c)
      unfolding write_piece
      write_piece-Wrote = after_load (load_for_write ops idx c) load_for_write-IsLoaded
