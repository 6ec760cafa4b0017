-- ===== src/S3/Reads.antt =====
-- src/store/s3.rs, `read_at`: the loop over the chunks of a read.
use iscsi_s.Prelude.{
  ℕ, ◌+◌, ◌*◌, ◌<◌, ◌≤◌, ◌≡◌, refl, ap, ◌∙◌, List, [], ◌++◌, length, drop, arith, tabulate, copy_at,
  replicate, slice, copy_at-tabulate, slice-tabulate, drop-replicate, append-nil,
}
use native.Mathlib.Nat.{sub_self}
use mathlib.Core.Path.{fun_ext}
use iscsi_s.Result.{Result, ok, err, and_then, Ends, Ends-checked}
use iscsi_s.Pieces.{for_pieces, for_pieces_rule, Step}
use iscsi_s.Store.{u64_size, Reading, check_range, check_range_bound, finish_read}
use iscsi_s.Store.Laws.{Shows, SameVolume-refl, SameVolume-trans, Volume, volume, Reads}
use iscsi_s.S3.{Client, Libraries, S3ChunkStore}
use iscsi_s.S3.Chunks.{Loaded, get_chunk}
use iscsi_s.S3.Disk.{s3_store, read_piece, read_at}
use iscsi_s.S3.Laws.{IsBucket, Bodies}
use iscsi_s.S3.View.{chunk_view, get_chunk_lem, Loads}
use iscsi_s.S3.View.{Kept}
use iscsi_s.S3.Volume.{chunk_number, IsValid, content, Kept-Shows, view-eq-tabulate}

module _ {B : Type 0} (client : Client B) (libs : Libraries) (objects : B → Bodies)
    (laws : IsBucket client objects) (Body : List ℕ → Type 0) (s : S3ChunkStore B)
    (v : IsValid client libs objects laws Body s) (offset len : ℕ) where
  abbrev bytes_at : S3ChunkStore B → ℕ → ℕ
  bytes_at = content client libs objects laws Body

  abbrev vol : S3ChunkStore B → Volume
  vol = volume (s3_store client libs) (IsValid client libs objects laws Body) bytes_at

  abbrev Shown : S3ChunkStore B → Volume → Type 0
  Shown = Shows (s3_store client libs) (IsValid client libs objects laws Body) bytes_at

  abbrev Filled : ℕ → Reading (S3ChunkStore B) → Type 0
  Filled done r =
      Shown r.store (vol s)
      × (r.buf ≡ tabulate (bytes_at s) offset done ++ drop done (replicate len 0))

  read_piece-Filled :
      offset + len ≤ s.capacity
      → Step s.chunk_size offset len (read_piece client libs) Filled (λ _ r. Shown r.store (vol s))
  unfolding read_piece
  read_piece-Filled fits done idx within taken r split room inside (sh, b) =
      loaded (get_chunk client libs idx r.store)
        (get_chunk_lem client libs objects laws r.store sh.valid.quiet idx)
    where
      small : idx < u64_size
      small =
          chunk_number idx within s.chunk_size (offset + done) s.capacity split (omega arith)
            v.small v.chunk_pos

      sliced :
          (plain : List ℕ)
          → chunk_view client libs r.store (objects r.store.bucket) idx ≡ ok plain
          → slice plain within taken ≡ tabulate (bytes_at s) (offset + done) taken
      sliced plain e =
          ap (λ (xs : List ℕ). slice xs within taken)
            (view-eq-tabulate client libs objects laws Body r.store (objects r.store.bucket) idx
                plain small e
              ∙ (ap (λ (c : ℕ). tabulate (bytes_at r.store) (idx * c) c) sh.same.chunk_size
                  ∙ ap (λ (f : ℕ → ℕ). tabulate f (idx * s.chunk_size) s.chunk_size)
                      (fun_ext (λ p. sh.same.content p))))
          ∙ slice-tabulate (bytes_at s) (idx * s.chunk_size) s.chunk_size within taken
              (offset + done) room split

      stays : (t : S3ChunkStore B) → Kept client libs objects laws r.store t → Shown t (vol s)
      stays t kept =
          let now = Kept-Shows client libs objects laws Body r.store t sh.valid kept in
          record { valid = now.valid; same = SameVolume-trans now.same sh.same }

      loaded :
          (q : Result Loaded × S3ChunkStore B)
          → Loads client libs objects laws r.store
              (chunk_view client libs r.store (objects r.store.bucket) idx)
              q
          → Ends
              (λ _. Filled (done + taken))
              (λ _ r. Shown r.store (vol s))
              (and_then
                (q.0, record r { store = q.1 })
                λ (chunk, _) r.
                  (ok tt, record r { buf = copy_at r.buf done (slice chunk within taken) }))
      loaded (err e, t) kept = stays t kept
      loaded (ok (plain, etag), t) (e, kept) = (
        stays t kept,
        rw (b, sliced plain e) (copy_at-tabulate (bytes_at s) offset done taken (replicate len 0)),
      )

  drop-zeros : drop len (replicate {A = ℕ} len 0) ≡ []
  drop-zeros =
      drop-replicate {A = ℕ} len len 0 ∙ ap (λ (k : ℕ). replicate {A = ℕ} k 0) (sub_self len)

  finish_read-Filled :
      offset + len ≤ s.capacity
      → (r : Result (Unit {0}) × Reading (S3ChunkStore B))
      → Ends (λ _. Filled len) (λ _ r. Shown r.store (vol s)) r
      → Reads
          (s3_store client libs)
          (IsValid client libs objects laws Body)
          bytes_at
          s
          offset
          len
          (finish_read r)
  finish_read-Filled fits (ok _, r) (sh, b) = (sh, rw drop-zeros at b ∙ append-nil _, fits)
  finish_read-Filled fits (err _, r) sh = sh

  fill :
      offset + len ≤ s.capacity
      → Ends
          (λ _. Filled len)
          (λ _ r. Shown r.store (vol s))
          (for_pieces len s.chunk_size offset len 0
            (read_piece client libs)
            (record { store = s; buf = replicate len 0 }))
  fill fits =
      for_pieces_rule s.chunk_size offset len (read_piece client libs) Filled
        (λ _ r. Shown r.store (vol s)) (read_piece-Filled fits) v.chunk_pos len 0
        (record { store = s; buf = replicate len 0 }) (omega arith) (omega arith)
        (record { valid = v; same = SameVolume-refl (vol s) }, refl)

module _ {B : Type 0} (client : Client B) (libs : Libraries) (objects : B → Bodies)
    (laws : IsBucket client objects) (Body : List ℕ → Type 0) where
  -- Over a bucket that keeps the promises of S3, a read that succeeds, of a volume in either
  -- layout, returns the bytes of the disk that its objects hold, all of them below the capacity; a
  -- read changes nothing, also where it fails.
  pub s3_read_at-Reads :
      (s : S3ChunkStore B) (offset : ℕ) (buf : List ℕ)
      → IsValid client libs objects laws Body s
      → Reads
          (s3_store client libs)
          (IsValid client libs objects laws Body)
          (content client libs objects laws Body)
          s
          offset
          (length buf)
          (read_at client libs offset buf s)
  unfolding read_at
  s3_read_at-Reads s offset buf v =
      Ends-checked _ _ (check_range s.capacity offset (length buf)) s _
        (λ e h. record {
          valid = v;
          same = SameVolume-refl (vol client libs objects laws Body s v offset (length buf) s);
        })
        (λ passed.
          let fits = check_range_bound s.capacity offset (length buf) passed in
          finish_read-Filled client libs objects laws Body s v offset (length buf) fits _
            (fill client libs objects laws Body s v offset (length buf) fits))
