-- ===== src/S3/IsVolume.antt =====
-- src/store/s3.rs, `S3ChunkStore` as a block store.
use iscsi_s.Prelude.{
  ℕ, ◌/◌, ◌%◌, ◌<◌, ◌≡◌, ◌≢◌, refl, sym, ap, ◌∙◌, subst, Bool, true, false, List, [], get_or, ltb,
  nat_beq, if◌then◌else◌, if_rule, replicate, get_or-replicate, ltb→lt, arith,
}
use iscsi_s.Result.{Result, ok, err, Ends}
use iscsi_s.Compression.{IsLossless}
use iscsi_s.Store.{u64_size}
use iscsi_s.Store.Laws.{IsBlockStore, Shows, SameVolume-refl, Volume, volume, cleared, contains}
use iscsi_s.S3.{Client, Libraries, S3ChunkStore}
use iscsi_s.S3.Keys
use iscsi_s.S3.Chunks.{list_chunk_indices, delete_chunk_object}
use iscsi_s.S3.Disk.{s3_store, present_chunks}
use iscsi_s.S3.Laws.{IsBucket, Bodies}
use iscsi_s.S3.View.{chunk_view, on_bucket_ends}
use iscsi_s.S3.Puts.{Stored}
use iscsi_s.S3.Volume.{IsValid, content, content_of, plain_of, Same-Shows}
use iscsi_s.S3.Moves.{moved-Shows}
use iscsi_s.S3.Writes.{s3_write_at-Writes}
use iscsi_s.S3.Reads.{s3_read_at-Reads}
use iscsi_s.S3.Resizes.{set_capacity-Resizes}
use iscsi_s.S3.Lists.{list_chunk_indices_lem, unlisted-zeros}
use iscsi_s.S3.Deletes.{delete_chunk_object_lem, zeros}

module _ {B : Type 0} (client : Client B) (libs : Libraries) (objects : B → Bodies)
    (laws : IsBucket client objects) (Body : List ℕ → Type 0) where
  module _ (s : S3ChunkStore B) (v : IsValid client libs objects laws Body s) where
    abbrev vol : Volume
    vol =
        volume (s3_store client libs) (IsValid client libs objects laws Body)
          (content client libs objects laws Body) s

    abbrev Shown : S3ChunkStore B → Volume → Type 0
    Shown =
        Shows (s3_store client libs) (IsValid client libs objects laws Body)
          (content client libs objects laws Body)

    -- A chunk of zeros, or one whose number is no u64, shows zeros.
    shows_zeros :
        (m : Bodies) (p : ℕ)
        → (p / s.chunk_size < u64_size
            → chunk_view client libs s m (p / s.chunk_size) ≡ ok (replicate s.chunk_size 0))
        → content_of client libs objects laws Body s m p ≡ 0
    shows_zeros m p h = at (ltb (p / s.chunk_size) u64_size) refl
      where
        at :
            (t : Bool)
            → ltb (p / s.chunk_size) u64_size ≡ t
            → get_or
                (if t then plain_of (chunk_view client libs s m (p / s.chunk_size)) else [])
                (p % s.chunk_size)
                0
              ≡ 0
        at true lt =
            ap (λ (r : Result (List ℕ)). get_or (plain_of r) (p % s.chunk_size) 0)
              (h (ltb→lt (p / s.chunk_size) u64_size lt))
            ∙ get_or-replicate {A = ℕ} s.chunk_size (p % s.chunk_size) 0
        at false lt = refl

    same_byte :
        (m m' : Bodies) (p : ℕ)
        → (p / s.chunk_size < u64_size
            → chunk_view client libs s m' (p / s.chunk_size)
              ≡ chunk_view client libs s m (p / s.chunk_size))
        → content_of client libs objects laws Body s m' p
          ≡ content_of client libs objects laws Body s m p
    same_byte m m' p h = at (ltb (p / s.chunk_size) u64_size) refl
      where
        at :
            (t : Bool)
            → ltb (p / s.chunk_size) u64_size ≡ t
            → get_or
                (if t then plain_of (chunk_view client libs s m' (p / s.chunk_size)) else [])
                (p % s.chunk_size)
                0
              ≡ get_or
                  (if t then plain_of (chunk_view client libs s m (p / s.chunk_size)) else [])
                  (p % s.chunk_size)
                  0
        at true lt =
            ap (λ (r : Result (List ℕ)). get_or (plain_of r) (p % s.chunk_size) 0)
              (h (ltb→lt (p / s.chunk_size) u64_size lt))
        at false lt = refl

    abbrev ListsAll : Result (List ℕ) × S3ChunkStore B → Type 0
    ListsAll =
        Ends
          (λ idxs s'.
            Shown s' vol
            × ((p : ℕ)
                → contains idxs (p / s.chunk_size) ≡ false
                → content client libs objects laws Body s p ≡ 0))
          (λ _ s'. Shown s' vol)

    present_chunks_law : ListsAll (present_chunks client libs s)
    unfolding present_chunks
    present_chunks_law =
        on_bucket_ends _ _ _ _ (list_chunk_indices client (Keys.chunks_prefix s)) s
          (list_chunk_indices_lem client objects laws (Keys.chunks_prefix s) s.bucket v.quiet)
          (λ idxs b h. (
            Same-Shows client libs objects laws Body s b v h.1,
            λ p unlisted. shows_zeros (objects s.bucket) p λ lt.
                unlisted-zeros client libs s (objects s.bucket) idxs (p / s.chunk_size) lt unlisted
                  s.storage h.0,
          ))
          (λ e b h. Same-Shows client libs objects laws Body s b v h)

    module _ (idx : ℕ) (small : idx < u64_size) where
      abbrev Gone : S3ChunkStore B → Type 0
      Gone =
          Stored client libs objects laws Body s.storage idx
            (zeros client libs objects laws Body s idx small v.quiet) s (objects s.bucket)

      Gone-byte :
          (s' : S3ChunkStore B)
          → Gone s'
          → (p : ℕ)
          → content_of client libs objects laws Body s (objects s'.bucket) p
            ≡ (cleared vol idx).content p
      Gone-byte s' gone p =
          if_rule (λ (x : ℕ). content_of client libs objects laws Body s (objects s'.bucket) p ≡ x)
            (nat_beq (p / s.chunk_size) idx) _ _
            (λ here.
              let e : p / s.chunk_size ≡ idx = ground arith in
              shows_zeros (objects s'.bucket) p λ lt.
                subst
                  (λ j.
                    chunk_view client libs s (objects s'.bucket) j ≡ ok (replicate s.chunk_size 0))
                  (sym e) gone.here)
            (λ there.
              let ne : p / s.chunk_size ≢ idx = ground arith in
              same_byte (objects s.bucket) (objects s'.bucket) p
                λ lt. gone.there (p / s.chunk_size) lt ne)

      Gone-Shows : (s' : S3ChunkStore B) → Gone s' → Shown s' (cleared vol idx)
      Gone-Shows s' gone =
          subst (λ t. Shown t (cleared vol idx)) (sym gone.store)
            (moved-Shows client libs objects laws Body s s'.bucket s.capacity
              (cleared vol idx).content v v.small gone.quiet gone.sound (Gone-byte s' gone)
              (λ p past. ground (arith, v.beyond p past)))

      delete_chunk_law :
          Ends (λ _ s'. Shown s' (cleared vol idx)) (λ _ _. Unit) (delete_chunk_object client idx s)
      delete_chunk_law =
          shown (delete_chunk_object client idx s)
            (delete_chunk_object_lem client libs objects laws Body s idx small v.quiet v.sound)
        where
          shown :
              (r : Result (Unit {0}) × S3ChunkStore B)
              → Ends (λ _ s'. Gone s') (λ _ _. Unit) r
              → Ends (λ _ s'. Shown s' (cleared vol idx)) (λ _ _. Unit) r
          shown (ok _, s') gone = Gone-Shows s' gone
          shown (err _, s') h = tt

  -- Over a bucket that keeps the promises of S3, where a late removal or put of a meta object is
  -- carried out at once or never, with compressors that give back what they compressed, the S3
  -- chunk store of a valid volume in the legacy layout keeps the promises of a block store:
  -- reads, writes, resizes, the listing of its chunks and their removal act on the disk that its
  -- objects hold as on a flat disk. (Of a copy-on-write volume it speaks only under a hash that
  -- has no collision at all.)
  pub s3-IsBlockStore :
      IsLossless libs.codecs
      → ((body : List ℕ) → Body body)
      → IsBlockStore
          (s3_store client libs)
          (IsValid client libs objects laws Body)
          (content client libs objects laws Body)
  s3-IsBlockStore lossless every = record {
    chunk_pos = λ s v. v.chunk_pos;
    beyond = λ s v. v.beyond;
    reads = λ s offset buf v. s3_read_at-Reads client libs objects laws Body s offset buf v;
    writes = λ s offset bytes v.
        s3_write_at-Writes client libs objects laws Body lossless s offset bytes v
          (λ done idx compression body e. every body);
    resizes =
        λ s capacity v small. set_capacity-Resizes client libs objects laws Body s v capacity small;
    flushes = λ s v. record { valid = v; same = SameVolume-refl (vol s v) };
    lists = λ s v. present_chunks_law s v;
    deletes = λ s idx v small. delete_chunk_law s v idx small;
  }
