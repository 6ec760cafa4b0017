-- ===== src/S3/Moves.antt =====
-- src/store/s3.rs: a store with another bucket and capacity, and the disk that it shows.
use iscsi_s.Prelude.{
  ℕ, ◌/◌, ◌%◌, ◌<◌, ◌≤◌, ◌≡◌, refl, ap, ◌∙◌, Option, some, none, List, [], get_or, ltb,
  if◌then◌else◌,
}
use iscsi_s.Result.{Result, ok, err}
use iscsi_s.Meta.{StorageMode, legacy, cow}
use iscsi_s.Snapshot.{decode_pointer}
use iscsi_s.Store.{u64_size}
use iscsi_s.Store.Laws.{Shows}
use iscsi_s.S3.{Client, Libraries, S3ChunkStore}
use iscsi_s.S3.Keys
use iscsi_s.S3.Disk.{s3_store}
use iscsi_s.S3.Laws.{IsBucket, Bodies}
use iscsi_s.S3.Sound.{IsSound, Framed, chunk_in-Framed}
use iscsi_s.S3.View.{chunk_in, legacy_view, cow_view, pointed_view, object_view}
use iscsi_s.S3.Volume.{IsValid, content, content_of, plain_of}

module _ {B : Type 0} (client : Client B) (libs : Libraries) (objects : B → Bodies)
    (laws : IsBucket client objects) (Body : List ℕ → Type 0) (s : S3ChunkStore B) (b : B)
    (capacity : ℕ) where
  abbrev pub moved : S3ChunkStore B
  moved = record s { bucket = b; capacity = capacity }

  module _ (m : Bodies) where
    legacy_moved :
        (x y : Option (List ℕ)) → legacy_view client libs moved x y ≡ legacy_view client libs s x y
    legacy_moved (some body) y = refl
    legacy_moved none (some body) = refl
    legacy_moved none none = refl

    object_moved :
        (x : Option (List ℕ)) → object_view client libs moved x ≡ object_view client libs s x
    object_moved none = refl
    object_moved (some body) = refl

    pointed_moved :
        (r : Result (List ℕ)) → pointed_view client libs moved m r ≡ pointed_view client libs s m r
    pointed_moved (err e) = refl
    pointed_moved (ok hash) = object_moved (m (Keys.object_key s hash))

    cow_moved : (x : Option (List ℕ)) → cow_view client libs moved m x ≡ cow_view client libs s m x
    cow_moved none = refl
    cow_moved (some pointer) = pointed_moved (decode_pointer pointer)

    pub chunk_in-moved :
        (mode : StorageMode) (idx : ℕ)
        → chunk_in client libs mode moved m idx ≡ chunk_in client libs mode s m idx
    chunk_in-moved legacy idx =
        legacy_moved (m (Keys.legacy_chunk_key s idx)) (m (Keys.legacy_flat_chunk_key s idx))
    chunk_in-moved cow idx = cow_moved (m (Keys.live_chunk_key s idx))

    content_of-moved :
        (p : ℕ)
        → content_of client libs objects laws Body moved m p
          ≡ content_of client libs objects laws Body s m p
    content_of-moved p =
        ap
          (λ (r : Result (List ℕ)).
            get_or (if ltb (p / s.chunk_size) u64_size then plain_of r else []) (p % s.chunk_size)
              0)
          (chunk_in-moved s.storage (p / s.chunk_size))

  pub IsSound-moved : {m : Bodies} → IsSound client libs Body s m → IsSound client libs Body moved m
  IsSound-moved sound = record { addressed = sound.addressed; backed = sound.backed }

  -- The disk `f`, where the objects hold it and nothing of it lies past the capacity.
  pub moved-Shows :
      (f : ℕ → ℕ)
      → IsValid client libs objects laws Body s
      → capacity < u64_size
      → laws.in_flight b ≡ []
      → IsSound client libs Body s (objects b)
      → ((p : ℕ) → content_of client libs objects laws Body s (objects b) p ≡ f p)
      → ((p : ℕ) → capacity ≤ p → f p ≡ 0)
      → Shows
          (s3_store client libs)
          (IsValid client libs objects laws Body)
          (content client libs objects laws Body)
          moved
          (record {
            capacity = capacity;
            block_size = s.block_size;
            chunk_size = s.chunk_size;
            content = f;
          })
  moved-Shows f v small quiet sound at beyond = record {
    valid = record {
      chunk_pos = v.chunk_pos;
      chunk_small = v.chunk_small;
      small = small;
      hashed = v.hashed;
      quiet = quiet;
      sound = IsSound-moved sound;
      beyond = λ p past. content_of-moved (objects b) p ∙ (at p ∙ beyond p past);
    };
    same = record {
      capacity = refl;
      block_size = refl;
      chunk_size = refl;
      content = λ p. content_of-moved (objects b) p ∙ at p;
    };
  }

  -- Bodies that differ in no key of the volume hold the same disk.
  pub content_of-Framed :
      (m m' : Bodies)
      → Framed client libs Body s m m'
      → (p : ℕ)
      → content_of client libs objects laws Body s m' p
        ≡ content_of client libs objects laws Body s m p
  content_of-Framed m m' framed p =
      ap
        (λ (r : Result (List ℕ)).
          get_or (if ltb (p / s.chunk_size) u64_size then plain_of r else []) (p % s.chunk_size) 0)
        (chunk_in-Framed client libs Body s m m' s.storage (p / s.chunk_size) framed)
