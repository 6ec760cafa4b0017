-- ===== src/S3/PieceWrites.antt =====
-- src/store/s3.rs: a piece of a write put over its chunk, and the disk before and after.
use iscsi_s.Prelude.{
  ℕ, ◌+◌, ◌*◌, ◌/◌, ◌%◌, ◌<◌, ◌≤◌, ◌≡◌, ◌≢◌, refl, sym, ap, ◌∙◌, subst, Bool, true, false, Option,
  List, length, get_or, ltb, if◌then◌else◌, arith, tabulate, overlay, copy_at, nat_beq, if_rule,
  length-tabulate, get_or-tabulate, lt→ltb, [], ltb→lt,
}
use iscsi_s.Result.{Result, ok, err, Ends}
use iscsi_s.Compression.{IsLossless}
use iscsi_s.Pieces.{overlay-piece}
use iscsi_s.Store.{u64_size}
use iscsi_s.Store.Laws.{Shows, Volume, volume, written}
use iscsi_s.S3.{Client, Libraries, S3ChunkStore}
use iscsi_s.S3.Chunks.{put_chunk, is_precondition_failed}
use iscsi_s.S3.Disk.{s3_store}
use iscsi_s.S3.Laws.{IsBucket, Bodies, Covers}
use iscsi_s.S3.View.{chunk_view}
use iscsi_s.S3.Puts.{Stored, Unmoved}
use iscsi_s.S3.ChunkPuts.{put_chunk_lem}
use iscsi_s.S3.Volume.{
  IsValid, content, content_of, shown_chunk, plain_of, content_of-with, IsSound-with,
}

module _ {B : Type 0} (client : Client B) (libs : Libraries) (objects : B → Bodies)
    (laws : IsBucket client objects) (Body : List ℕ → Type 0)
    (lossless : IsLossless libs.codecs) where
  abbrev pub Good : S3ChunkStore B → Type 0
  Good = IsValid client libs objects laws Body

  abbrev pub disk : S3ChunkStore B → ℕ → ℕ
  disk = content client libs objects laws Body

  abbrev pub shown : S3ChunkStore B → Volume
  shown = volume (s3_store client libs) Good disk

  abbrev pub Stays : S3ChunkStore B → Volume → Type 0
  Stays = Shows (s3_store client libs) Good disk

  module _ (idx within base : ℕ) (piece : List ℕ) (hi : idx < u64_size) where
    -- A piece that lies in the chunk, and below the capacity.
    pub record Fits (s : S3ChunkStore B) : Type 0 where
      pub split : idx * s.chunk_size + within ≡ base
      pub room : within + length piece ≤ s.chunk_size
      pub below : base + length piece ≤ s.capacity
      pub covered :
          Covers libs Body
            (copy_at (tabulate (disk s) (idx * s.chunk_size) s.chunk_size) within piece)

    module _ (s : S3ChunkStore B) (v : Good s) (fits : Fits s) where
      abbrev pub old : List ℕ
      old = tabulate (disk s) (idx * s.chunk_size) s.chunk_size

      abbrev pub new : List ℕ
      new = copy_at old within piece

      -- The chunk stored, and no other, is the piece laid over the disk.
      stored_byte :
          (m : Bodies)
          → chunk_view client libs s m idx ≡ ok new
          → ((j : ℕ)
              → j < u64_size
              → j ≢ idx
              → chunk_view client libs s m j ≡ chunk_view client libs s (objects s.bucket) j)
          → (p : ℕ) → content_of client libs objects laws Body s m p ≡ overlay (disk s) base piece p
      stored_byte m here there p =
          by_chunk
          ∙ overlay-piece (disk s) old piece s.chunk_size idx within base p v.chunk_pos fits.split
              fits.room (length-tabulate (disk s) (idx * s.chunk_size) s.chunk_size)
              (λ k lt. get_or-tabulate (disk s) (idx * s.chunk_size) s.chunk_size k lt)
        where
          q : ℕ
          q = p / s.chunk_size

          other :
              (t : Bool)
              → ltb q u64_size ≡ t
              → q ≢ idx
              → get_or
                  (if t then plain_of (chunk_view client libs s m q) else [])
                  (p % s.chunk_size)
                  0
                ≡ get_or
                    (if t then plain_of (chunk_view client libs s (objects s.bucket) q) else [])
                    (p % s.chunk_size)
                    0
          other true lt ne =
              ap (λ (r : Result (List ℕ)). get_or (plain_of r) (p % s.chunk_size) 0)
                (there q (ltb→lt q u64_size lt) ne)
          other false lt ne = refl

          mine :
              idx ≡ q
              → content_of client libs objects laws Body s m p ≡ get_or new (p % s.chunk_size) 0
          mine e =
              ap
                (λ (j : ℕ).
                  get_or (shown_chunk client libs objects laws Body s m j) (p % s.chunk_size) 0)
                (sym e)
              ∙ (ap
                    (λ (t : Bool).
                      get_or (if t then plain_of (chunk_view client libs s m idx) else [])
                        (p % s.chunk_size) 0)
                    (lt→ltb idx u64_size hi)
                  ∙ ap (λ (r : Result (List ℕ)). get_or (plain_of r) (p % s.chunk_size) 0) here)

          by_chunk :
              content_of client libs objects laws Body s m p
              ≡ (if nat_beq idx q then get_or new (p % s.chunk_size) 0 else disk s p)
          by_chunk =
              if_rule (λ (x : ℕ). content_of client libs objects laws Body s m p ≡ x)
                (nat_beq idx q) _ _ (λ e. mine (ground arith))
                (λ e. other (ltb q u64_size) refl (ground arith))

      Stored-Shows :
          (s' : S3ChunkStore B)
          → Stored client libs objects laws Body s.storage idx new s (objects s.bucket) s'
          → Stays s' (written (shown s) base piece)
      Stored-Shows s' stored =
          subst (λ t. Stays t (written (shown s) base piece)) (sym stored.store)
            record {
              valid = record {
                chunk_pos = v.chunk_pos;
                chunk_small = v.chunk_small;
                small = v.small;
                hashed = v.hashed;
                quiet = stored.quiet;
                sound = IsSound-with client libs objects laws Body s s'.bucket stored.sound;
                beyond = λ p past. at p ∙ (ground arith ∙ v.beyond p past);
              };
              same = record { capacity = refl; block_size = refl; chunk_size = refl; content = at };
            }
        where
          at :
              (p : ℕ)
              → content_of client libs objects laws Body
                  (record s { bucket = s'.bucket })
                  (objects s'.bucket)
                  p
                ≡ overlay (disk s) base piece p
          at p =
              content_of-with client libs objects laws Body s s'.bucket (objects s'.bucket) p
              ∙ stored_byte (objects s'.bucket) stored.here stored.there p

      Unmoved-Shows :
          (s' : S3ChunkStore B)
          → Unmoved client libs objects laws Body s.storage s (objects s.bucket) s'
          → Stays s' (shown s)
      Unmoved-Shows s' kept =
          subst (λ t. Stays t (shown s)) (sym kept.store)
            record {
              valid = record {
                chunk_pos = v.chunk_pos;
                chunk_small = v.chunk_small;
                small = v.small;
                hashed = v.hashed;
                quiet = kept.quiet;
                sound = IsSound-with client libs objects laws Body s s'.bucket kept.sound;
                beyond = λ p past. at p ∙ v.beyond p past;
              };
              same = record { capacity = refl; block_size = refl; chunk_size = refl; content = at };
            }
        where
          chunk_same :
              (t : Bool) (j : ℕ)
              → ltb j u64_size ≡ t
              → (if t then plain_of (chunk_view client libs s (objects s'.bucket) j) else [])
                ≡ (if t then plain_of (chunk_view client libs s (objects s.bucket) j) else [])
          chunk_same true j lt = ap plain_of (kept.there j (ltb→lt j u64_size lt))
          chunk_same false j lt = refl

          at :
              (p : ℕ)
              → content_of client libs objects laws Body
                  (record s { bucket = s'.bucket })
                  (objects s'.bucket)
                  p
                ≡ disk s p
          at p =
              content_of-with client libs objects laws Body s s'.bucket (objects s'.bucket) p
              ∙ ap (λ (xs : List ℕ). get_or xs (p % s.chunk_size) 0)
                  (chunk_same (ltb (p / s.chunk_size) u64_size) (p / s.chunk_size) refl)

      -- The piece put over the chunk, under any condition.
      abbrev pub Wrote : Result (Unit {0}) × S3ChunkStore B → Type 0
      Wrote =
          Ends (λ _ s'. Stays s' (written (shown s) base piece))
            (λ e s'. is_precondition_failed e ≡ true → Stays s' (shown s))

      Wrote-of :
          (r : Result (Unit {0}) × S3ChunkStore B)
          → Ends
              (λ _ s'.
                Stored client libs objects laws Body s.storage idx new s (objects s.bucket) s')
              (λ e s'.
                is_precondition_failed e ≡ true
                → Unmoved client libs objects laws Body s.storage s (objects s.bucket) s')
              r
          → Wrote r
      Wrote-of (ok _, s') h = Stored-Shows s' h
      Wrote-of (err e, s') h = λ refused. Unmoved-Shows s' (h refused)

      pub put_over_lem :
          (if_match : Option (List ℕ)) → Wrote (put_chunk client libs idx new if_match s)
      put_over_lem if_match = Wrote-of (put_chunk client libs idx new if_match s) (
          put_chunk_lem client libs objects laws Body lossless s v.hashed v.chunk_small v.sound
            v.quiet idx hi new fits.covered if_match)
