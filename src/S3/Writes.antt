-- ===== src/S3/Writes.antt =====
-- src/store/s3.rs, `write_at`: the compare-and-swap loop on each chunk, and the loop over the pieces.
use iscsi_s.Prelude.{
  ℕ, zero, suc, ◌+◌, ◌*◌, ◌<◌, ◌≤◌, ◌≡◌, refl, sym, ap, ◌∙◌, subst, Bool, true, false, ◌&&◌, List,
  [], ◌∷◌, ◌++◌, length, drop, arith, tabulate, overlay, copy_at, replicate, slice, take, nat_beq,
  if_rule, length-tabulate, overlay_ext, overlay-nil, overlay-take, take_all, length-slice,
  length-replicate, length-drop, ◌-◌,
}
use mathlib.Core.Path.{fun_ext}
use iscsi_s.Result.{Result, ok, err, Ends, Ends-and_then, Ends-checked, StoreError}
use iscsi_s.Compression.{IsLossless}
use iscsi_s.Pieces.{for_pieces, for_pieces_rule, Step, copy_at-chunk}
use iscsi_s.Store.{u64_size, check_range, check_range_bound}
use iscsi_s.Store.Laws.{SameVolume, SameVolume-refl, SameVolume-trans, Volume, written, Writes}
use iscsi_s.S3.{Client, Libraries, S3ChunkStore}
use iscsi_s.S3.Chunks.{Loaded, get_chunk, put_chunk, is_precondition_failed}
use iscsi_s.S3.Disk.{
  s3_store, load_piece, put_over, again, cas_loop, write_piece, write_at, max_cas_attempts,
}
use iscsi_s.S3.Laws.{IsBucket, Bodies, Covers}
use iscsi_s.S3.View.{chunk_view, get_chunk_lem, Loads}
use iscsi_s.S3.Volume.{chunk_number, Kept-Shows, view-eq-tabulate}
use iscsi_s.S3.PieceWrites.{Good, disk, shown, Stays, Fits, Wrote, put_over_lem}

drop_past : (xs : List ℕ) (n : ℕ) → length xs ≤ n → drop n xs ≡ []
drop_past xs n h = nil (drop n xs) (omega (arith, length-drop n xs))
  where
    nil : (ys : List ℕ) → length ys ≡ 0 → ys ≡ []
    nil [] e = refl
    nil (y ∷ ys) e = absurd (omega arith)

-- A piece as long as the chunk replaces all of it.
copy_at-whole :
    (xs ys piece : List ℕ) (within : ℕ)
    → within ≡ 0
    → length xs ≡ length piece
    → length ys ≡ length piece
    → copy_at xs within piece ≡ copy_at ys within piece
copy_at-whole xs ys piece within e hx hy =
    ap (λ (w : ℕ). copy_at xs w piece) e
    ∙ (ap (λ (zs : List ℕ). piece ++ zs)
          (drop_past xs (0 + length piece) (omega arith)
            ∙ sym (drop_past ys (0 + length piece) (omega arith)))
        ∙ ap (λ (w : ℕ). copy_at ys w piece) (sym e))

module _ {B : Type 0} (client : Client B) (libs : Libraries) (objects : B → Bodies)
    (laws : IsBucket client objects) (Body : List ℕ → Type 0)
    (lossless : IsLossless libs.codecs) where
  -- The parameters that every name below takes.
  abbrev IsGood : S3ChunkStore B → Type 0
  IsGood = Good client libs objects laws Body lossless

  abbrev bytes_at : S3ChunkStore B → ℕ → ℕ
  bytes_at = disk client libs objects laws Body lossless

  abbrev vol : S3ChunkStore B → Volume
  vol = shown client libs objects laws Body lossless

  abbrev Shown : S3ChunkStore B → Volume → Type 0
  Shown = Stays client libs objects laws Body lossless

  abbrev chunk_at : S3ChunkStore B → ℕ → List ℕ
  chunk_at s idx = tabulate (bytes_at s) (idx * s.chunk_size) s.chunk_size

  same_chunk :
      (s s' : S3ChunkStore B) (idx : ℕ) → Shown s' (vol s) → chunk_at s idx ≡ chunk_at s' idx
  same_chunk s s' idx sh =
      ap (λ (f : ℕ → ℕ). tabulate f (idx * s.chunk_size) s.chunk_size)
        (fun_ext (λ p. sym (sh.same.content p)))
      ∙ ap (λ (c : ℕ). tabulate (bytes_at s') (idx * c) c) (sym sh.same.chunk_size)

  written-Shown :
      (v w : Volume) (base : ℕ) (piece : List ℕ) (t : S3ChunkStore B)
      → SameVolume v w
      → Shown t (written v base piece)
      → Shown t (written w base piece)
  written-Shown v w base piece t same sh = record {
    valid = sh.valid;
    same = SameVolume-trans sh.same (record {
      capacity = same.capacity;
      block_size = same.block_size;
      chunk_size = same.chunk_size;
      content = λ p. overlay_ext v.content w.content base piece p (same.content p);
    });
  }

  module _ (idx within base : ℕ) (piece : List ℕ) (hi : idx < u64_size) where
    abbrev FitsIn : S3ChunkStore B → Type 0
    FitsIn = Fits client libs objects laws Body lossless idx within base piece hi

    abbrev Over : S3ChunkStore B → Loaded → S3ChunkStore B → Type 0
    Over s loaded s' =
        Shown s' (vol s) × (copy_at loaded.0 within piece ≡ copy_at (chunk_at s' idx) within piece)

    load_piece_lem :
        (s : S3ChunkStore B)
        → IsGood s
        → Ends (Over s) (λ _ _. Unit) (load_piece client libs idx within (length piece) s)
    unfolding load_piece
    load_piece_lem s v =
        if_rule (Ends (Over s) (λ _ _. Unit))
          (nat_beq within 0 && nat_beq (length piece) s.chunk_size) _ _
          (λ whole. (
            record { valid = v; same = SameVolume-refl (vol s) },
            copy_at-whole (replicate s.chunk_size 0) (chunk_at s idx) piece within (ground arith)
                (ground (arith, length-replicate {A = ℕ} s.chunk_size 0))
                (ground (arith, length-tabulate (bytes_at s) (idx * s.chunk_size) s.chunk_size)),
          ))
          (λ part.
            loaded (get_chunk client libs idx s)
              (get_chunk_lem client libs objects laws s v.quiet idx))
      where
        loaded :
            (r : Result Loaded × S3ChunkStore B)
            → Loads client libs objects laws s (chunk_view client libs s (objects s.bucket) idx) r
            → Ends (Over s) (λ _ _. Unit) r
        loaded (err e, s') h = tt
        loaded (ok (plain, etag), s') (e, kept) =
            let sh : Shown s' (vol s) = Kept-Shows client libs objects laws Body s s' v kept in
            (
              sh,
              ap (λ (xs : List ℕ). copy_at xs within piece)
                  (view-eq-tabulate client libs objects laws Body s (objects s.bucket) idx plain hi
                      e
                    ∙ same_chunk s s' idx sh),
            )

    fits-moved : (s s' : S3ChunkStore B) → FitsIn s → Shown s' (vol s) → FitsIn s'
    fits-moved s s' fits sh = record {
      split = subst (λ c. idx * c + within ≡ base) (sym sh.same.chunk_size) fits.split;
      room = subst (λ c. within + length piece ≤ c) (sym sh.same.chunk_size) fits.room;
      below = subst (λ c. base + length piece ≤ c) (sym sh.same.capacity) fits.below;
      covered =
          subst (λ xs. Covers libs Body (copy_at xs within piece)) (same_chunk s s' idx sh)
            fits.covered;
    }

    abbrev Laid : S3ChunkStore B → Result (Unit {0}) × S3ChunkStore B → Type 0
    Laid s = Ends (λ _ s'. Shown s' (written (vol s) base piece)) (λ _ _. Unit)

    abbrev WroteAt :
        (s : S3ChunkStore B) → IsGood s → FitsIn s → Result (Unit {0}) × S3ChunkStore B → Type 0
    WroteAt s v fits =
        Wrote client libs objects laws Body lossless idx within base piece hi s v fits

    put_loaded :
        (s s' : S3ChunkStore B) (loaded : Loaded) (fits : FitsIn s) (over : Over s loaded s')
        → WroteAt s' over.0.valid
            (fits-moved s s' fits over.0)
            (put_over client libs idx within piece loaded s')
    put_loaded s s' (chunk, etag) fits (sh, e) =
        subst
          (λ xs.
            WroteAt s' sh.valid (fits-moved s s' fits sh) (put_chunk client libs idx xs etag s'))
          (sym e)
          (put_over_lem client libs objects laws Body lossless idx within base piece hi s' sh.valid
            (fits-moved s s' fits sh) etag)

    last_attempt :
        (s s' : S3ChunkStore B) (v : IsGood s') (fits : FitsIn s')
        → SameVolume (vol s') (vol s)
        → (r : Result (Unit {0}) × S3ChunkStore B) → WroteAt s' v fits r
        → Laid s r
    last_attempt s s' v fits same (ok _, t) h = written-Shown (vol s') (vol s) base piece t same h
    last_attempt s s' v fits same (err e, t) h = tt

    cas_loop_lem :
        (n : ℕ) (s : S3ChunkStore B)
        → IsGood s
        → FitsIn s
        → Laid s (cas_loop client libs n idx within piece s)
    unfolding cas_loop
    cas_loop_lem zero s v fits =
        Ends-and_then (Over s) (λ _ s'. Shown s' (written (vol s) base piece)) (λ _ _. Unit)
          (load_piece client libs idx within (length piece) s) _ (load_piece_lem s v)
          (λ loaded s' over.
            last_attempt s s' over.0.valid (fits-moved s s' fits over.0) over.0.same _
              (put_loaded s s' loaded fits over))
    cas_loop_lem (suc n) s v fits =
        Ends-and_then (Over s) (λ _ s'. Shown s' (written (vol s) base piece)) (λ _ _. Unit)
          (load_piece client libs idx within (length piece) s) _ (load_piece_lem s v)
          (λ loaded s' over.
            retry s' over.0.valid (fits-moved s s' fits over.0) over.0.same (cas_loop_lem n)
              (put_over client libs idx within piece loaded s') (put_loaded s s' loaded fits over))
      where
        refused :
            (s' : S3ChunkStore B) (e : StoreError) (t : S3ChunkStore B) (b : Bool)
            → SameVolume (vol s') (vol s)
            → FitsIn s'
            → ((u : S3ChunkStore B)
                → IsGood u
                → FitsIn u
                → Laid u (cas_loop client libs n idx within piece u))
            → is_precondition_failed e ≡ b
            → (is_precondition_failed e ≡ true → Shown t (vol s'))
            → Laid s
                (elim b [ true ↦ cas_loop client libs n idx within piece t | false ↦ (err e, t) ])
        refused s' e t true same fits ih h stays =
            let sh = stays h in
            from (cas_loop client libs n idx within piece t) (SameVolume-trans sh.same same)
              (ih t sh.valid (fits-moved s' t fits sh))
          where
            from :
                (r : Result (Unit {0}) × S3ChunkStore B)
                → SameVolume (vol t) (vol s)
                → Laid t r
                → Laid s r
            from (ok _, u) same h = written-Shown (vol t) (vol s) base piece u same h
            from (err _, u) same h = tt
        refused s' e t false same fits ih h stays = tt

        retry :
            (s' : S3ChunkStore B) (v' : IsGood s') (fits' : FitsIn s')
            → SameVolume (vol s') (vol s)
            → ((u : S3ChunkStore B)
                → IsGood u
                → FitsIn u
                → Laid u (cas_loop client libs n idx within piece u))
            → (r : Result (Unit {0}) × S3ChunkStore B) → WroteAt s' v' fits' r
            → Laid s (again client libs (cas_loop client libs n idx within piece) r)
        retry s' v' fits' same ih (ok _, t) h = written-Shown (vol s') (vol s) base piece t same h
        retry s' v' fits' same ih (err e, t) h =
            refused s' e t (is_precondition_failed e) same fits' ih refl h

  -- The chunks of the disk while the write goes on, up to its end, have bodies that `Body` describes.
  abbrev pub CoversWrite : S3ChunkStore B → ℕ → List ℕ → Type 0
  CoversWrite s offset bytes =
      (done idx : ℕ)
      → Covers libs Body (
          tabulate (overlay (bytes_at s) offset (take done bytes)) (idx * s.chunk_size)
            s.chunk_size)

  module _ (s : S3ChunkStore B) (offset : ℕ) (bytes : List ℕ) (v : IsGood s)
      (fits : offset + length bytes ≤ s.capacity) (covers : CoversWrite s offset bytes) where
    abbrev WroteTo : ℕ → S3ChunkStore B → Type 0
    WroteTo done t = Shown t (written (vol s) offset (take done bytes))

    -- The chunk that a piece is put over is then a chunk of the disk with the write so far.
    laid_chunk :
        (done idx within taken : ℕ) (t : S3ChunkStore B)
        → idx * s.chunk_size + within ≡ offset + done
        → within + taken ≤ s.chunk_size
        → done + taken ≤ length bytes
        → WroteTo done t
        → copy_at (chunk_at t idx) within (slice bytes done taken)
          ≡ tabulate
              (overlay (bytes_at s) offset (take (done + taken) bytes))
              (idx * s.chunk_size)
              s.chunk_size
    laid_chunk done idx within taken t split room inside w =
        ap (λ c. copy_at (tabulate (bytes_at t) (idx * c) c) within (slice bytes done taken))
          w.same.chunk_size
        ∙ (copy_at-chunk (bytes_at t) (slice bytes done taken) s.chunk_size idx within
              (offset + done) split (rw (length-slice bytes done taken inside) room)
            ∙ ap (λ (f : ℕ → ℕ). tabulate f (idx * s.chunk_size) s.chunk_size)
                (fun_ext λ p.
                  overlay_ext (bytes_at t) (overlay (bytes_at s) offset (take done bytes))
                    (offset + done) (slice bytes done taken) p (w.same.content p)
                  ∙ overlay-take (bytes_at s) offset bytes done taken p inside))

    write_piece-WroteTo :
        Step s.chunk_size offset
          (length bytes)
          (write_piece client libs bytes)
          WroteTo
          (λ _ _. Unit)
    unfolding write_piece
    write_piece-WroteTo done idx within taken t split room inside w =
        let piece = slice bytes done taken in
        let size = length-slice bytes done taken inside in
        let small : idx < u64_size =
          chunk_number idx within s.chunk_size (offset + done) s.capacity split (omega arith)
            v.small v.chunk_pos in
        let fits_in : Fits client libs objects laws Body lossless idx within (offset + done) piece
            small t =
          record {
            split = rw w.same.chunk_size split;
            room = rw (w.same.chunk_size, size) room;
            below = rw (w.same.capacity, size) (omega arith);
            covered =
                subst (Covers libs Body)
                  (sym (laid_chunk done idx within taken t split room inside w))
                  (covers (done + taken) idx);
          } in
        laid (cas_loop client libs (max_cas_attempts - 1) idx within piece t)
          (cas_loop_lem idx within (offset + done) piece small (max_cas_attempts - 1) t w.valid
            fits_in)
          (λ p.
            overlay_ext (bytes_at t) (overlay (bytes_at s) offset (take done bytes)) (offset + done)
              piece p (w.same.content p)
            ∙ overlay-take (bytes_at s) offset bytes done taken p inside)
          w.same
      where
        laid :
            (r : Result (Unit {0}) × S3ChunkStore B)
            → Ends
                (λ _ u. Shown u (written (vol t) (offset + done) (slice bytes done taken)))
                (λ _ _. Unit)
                r
            → ((p : ℕ)
                → overlay (bytes_at t) (offset + done) (slice bytes done taken) p
                  ≡ overlay (bytes_at s) offset (take (done + taken) bytes) p)
            → SameVolume (vol t) (written (vol s) offset (take done bytes))
            → Ends (λ _. WroteTo (done + taken)) (λ _ _. Unit) r
        laid (err _, u) sh over same = tt
        laid (ok _, u) sh over same = record {
          valid = sh.valid;
          same = record {
            capacity = sh.same.capacity ∙ same.capacity;
            block_size = sh.same.block_size ∙ same.block_size;
            chunk_size = sh.same.chunk_size ∙ same.chunk_size;
            content = λ p. sh.same.content p ∙ over p;
          };
        }

    write_loop :
        Ends
          (λ _. WroteTo (length bytes))
          (λ _ _. Unit)
          (for_pieces
            (length bytes)
            s.chunk_size
            offset
            (length bytes)
            0
            (write_piece client libs bytes)
            s)
    write_loop =
        for_pieces_rule s.chunk_size offset (length bytes) (write_piece client libs bytes) WroteTo
          (λ _ _. Unit) write_piece-WroteTo v.chunk_pos (length bytes) 0 s (omega arith)
          (omega arith)
          (record {
            valid = v;
            same = record {
              capacity = refl;
              block_size = refl;
              chunk_size = refl;
              content = λ p. sym (overlay-nil (bytes_at s) offset p);
            };
          })

  -- Over a bucket that keeps the promises of S3, where a late removal or put of a meta object is
  -- carried out at once or never, with compressors that give back what they compressed, a write
  -- that succeeds, in the legacy layout, or in the copy-on-write one with a hash without
  -- collisions on a class of bodies that has the stored objects and those of the chunks of the
  -- disk while the write goes on, lies below the capacity and puts those bytes and changes no
  -- other, however many attempts of its compare-and-swap were refused; the volume is valid
  -- afterwards, with no late put in flight.
  pub s3_write_at-Writes :
      (s : S3ChunkStore B) (offset : ℕ) (bytes : List ℕ)
      → IsGood s
      → CoversWrite s offset bytes
      → Writes
          (s3_store client libs)
          IsGood
          bytes_at
          s
          offset
          bytes
          (write_at client libs offset bytes s)
  unfolding write_at
  s3_write_at-Writes s offset bytes v covers =
      Ends-checked _ (λ _ _. Unit) (check_range s.capacity offset (length bytes)) s _ (λ e h. tt)
        (λ passed.
          let fits = check_range_bound s.capacity offset (length bytes) passed in
          whole fits _ (write_loop s offset bytes v fits covers))
    where
      whole :
          offset + length bytes ≤ s.capacity
          → (r : Result (Unit {0}) × S3ChunkStore B)
          → Ends
              (λ _ t. Shown t (written (vol s) offset (take (length bytes) bytes)))
              (λ _ _. Unit)
              r
          → Writes (s3_store client libs) IsGood bytes_at s offset bytes r
      whole fits (err _, t) h = tt
      whole fits (ok _, t) h = (
        subst (λ xs. Shown t (written (vol s) offset xs))
            (take_all (length bytes) bytes (omega arith)) h,
        fits,
      )
