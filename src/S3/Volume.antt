-- ===== src/S3/Volume.antt =====
-- src/store/s3.rs: the disk that an `S3ChunkStore` shows, and its invariant.
use iscsi_s.S3.Chunks.{opened}
use iscsi_s.Prelude.{
  ℕ, ◌+◌, ◌*◌, ◌/◌, ◌%◌, ◌^◌, ◌<◌, ◌≤◌, ◌≡◌, refl, sym, ap, ◌∙◌, subst, Option, some, none, List,
  [], length, get_or, ltb, if◌then◌else◌, arith, tabulate, tabulate_self, tabulate_ext,
  length-replicate, mul-add-div_lt, mul-add-mod_lt, lt→ltb, replicate, Bool, ◌⊎◌,
}
use mathlib.Core.Path.{fun_ext}
use iscsi_s.Result.{Result, ok, err, ok-injective}
use iscsi_s.Compression.RoundTrip.{length-decode_chunk}
use iscsi_s.Meta.{StorageMode, legacy, cow}
use iscsi_s.Snapshot.{decode_pointer}
use iscsi_s.Store.{u64_size}
use iscsi_s.Store.Laws.{Shows, volume}
use iscsi_s.S3.{Client, Libraries, S3ChunkStore}
use iscsi_s.S3.Keys
use iscsi_s.S3.Disk.{s3_store}
use iscsi_s.S3.Laws.{IsBucket, IsContentHash, Bodies, Still}
use iscsi_s.S3.Sound.{IsSound}
use iscsi_s.S3.View.{chunk_view, chunk_in, legacy_view, cow_view, pointed_view, object_view, Kept}

-- A chunk that a range below the capacity meets has a u64 number.
pub chunk_number :
    (idx within c base capacity : ℕ)
    → idx * c + within ≡ base
    → base ≤ capacity
    → capacity < u64_size
    → 0 < c
    → idx < u64_size
chunk_number idx within c base capacity e le small pos = grind arith

abbrev pub plain_of : Result (List ℕ) → List ℕ
plain_of (ok plain) = plain
plain_of (err _) = []

module _ {B : Type 0} (client : Client B) (libs : Libraries) (objects : B → Bodies)
    (laws : IsBucket client objects) (Body : List ℕ → Type 0) where
  -- A chunk that cannot be read shows zeros, and so does a chunk whose number is no u64.
  abbrev pub shown_chunk : S3ChunkStore B → Bodies → ℕ → List ℕ
  shown_chunk s m idx = if ltb idx u64_size then plain_of (chunk_view client libs s m idx) else []

  abbrev pub content_of : S3ChunkStore B → Bodies → ℕ → ℕ
  content_of s m p = get_or (shown_chunk s m (p / s.chunk_size)) (p % s.chunk_size) 0

  abbrev pub content : S3ChunkStore B → ℕ → ℕ
  content s = content_of s (objects s.bucket)

  pub record IsValid (s : S3ChunkStore B) : Type 0 where
    pub chunk_pos : 0 < s.chunk_size
    pub chunk_small : s.chunk_size < 2 ^ 32
    pub small : s.capacity < u64_size
    -- A copy-on-write volume is named by a hash without collisions on the bodies of `Body`.
    pub hashed : (s.storage ≡ legacy) ⊎ IsContentHash libs Body
    pub sound : IsSound client libs Body s (objects s.bucket)
    -- No late put may still be carried out.
    pub quiet : laws.in_flight s.bucket ≡ []
    pub beyond : (p : ℕ) → s.capacity ≤ p → content s p ≡ 0

  pub IsSound-with :
      (s : S3ChunkStore B) (b : B) {m : Bodies}
      → IsSound client libs Body s m
      → IsSound client libs Body (record s { bucket = b }) m
  IsSound-with s b sound = record { addressed = sound.addressed; backed = sound.backed }

  module _ (s : S3ChunkStore B) (b : B) (m : Bodies) where
    abbrev moved : S3ChunkStore B
    moved = record s { bucket = b }

    legacy_with :
        (x y : Option (List ℕ)) → legacy_view client libs moved x y ≡ legacy_view client libs s x y
    legacy_with (some body) y = refl
    legacy_with none (some body) = refl
    legacy_with none none = refl

    object_with :
        (x : Option (List ℕ)) → object_view client libs moved x ≡ object_view client libs s x
    object_with none = refl
    object_with (some body) = refl

    pointed_with :
        (r : Result (List ℕ)) → pointed_view client libs moved m r ≡ pointed_view client libs s m r
    pointed_with (err e) = refl
    pointed_with (ok hash) = object_with (m (Keys.object_key s hash))

    cow_with : (x : Option (List ℕ)) → cow_view client libs moved m x ≡ cow_view client libs s m x
    cow_with none = refl
    cow_with (some pointer) = pointed_with (decode_pointer pointer)

    -- What the bodies hold does not depend on the bucket they were read from.
    pub chunk_in-with :
        (mode : StorageMode) (idx : ℕ)
        → chunk_in client libs mode moved m idx ≡ chunk_in client libs mode s m idx
    chunk_in-with legacy idx =
        legacy_with (m (Keys.legacy_chunk_key s idx)) (m (Keys.legacy_flat_chunk_key s idx))
    chunk_in-with cow idx = cow_with (m (Keys.live_chunk_key s idx))

    pub content_of-with : (p : ℕ) → content_of moved m p ≡ content_of s m p
    content_of-with p =
        ap
          (λ (r : Result (List ℕ)).
            get_or (if ltb (p / s.chunk_size) u64_size then plain_of r else []) (p % s.chunk_size)
              0)
          (chunk_in-with s.storage (p / s.chunk_size))

  -- The same store around a bucket with the same bodies shows the same disk.
  pub Same-Shows :
      (s : S3ChunkStore B) (b : B)
      → IsValid s
      → Still objects laws.in_flight (objects s.bucket) b
      → Shows
          (s3_store client libs)
          IsValid
          content
          (record s { bucket = b })
          (volume (s3_store client libs) IsValid content s)
  Same-Shows s b v (same, quiet) =
      let e : objects s.bucket ≡ objects b = fun_ext (λ k. sym (same k)) in
      record {
        valid = record {
          chunk_pos = v.chunk_pos;
          chunk_small = v.chunk_small;
          small = v.small;
          hashed = v.hashed;
          quiet = quiet;
          sound = IsSound-with s b (subst (IsSound client libs Body s) e v.sound);
          beyond = λ p past.
              content_of-with s b (objects b) p
              ∙ (ap (λ (m : Bodies). content_of s m p) (sym e) ∙ v.beyond p past);
        };
        same = record {
          capacity = refl;
          block_size = refl;
          chunk_size = refl;
          content = λ p.
              content_of-with s b (objects b) p ∙ ap (λ (m : Bodies). content_of s m p) (sym e);
        };
      }

  pub Kept-Shows :
      (s s' : S3ChunkStore B)
      → IsValid s
      → Kept client libs objects laws s s'
      → Shows
          (s3_store client libs)
          IsValid
          content
          s'
          (volume (s3_store client libs) IsValid content s)
  Kept-Shows s s' v kept =
      subst
        (λ t.
          Shows (s3_store client libs) IsValid content t
            (volume (s3_store client libs) IsValid content s))
        (sym kept.store) (Same-Shows s s'.bucket v (kept.same, kept.quiet))

  module _ (s : S3ChunkStore B) (m : Bodies) where
    abbrev Full : Result (List ℕ) → Type 0
    Full r = (plain : List ℕ) → r ≡ ok plain → length plain ≡ s.chunk_size

    opened-Full : (body : List ℕ) → Full (opened client libs s body)
    opened-Full body plain e = length-decode_chunk libs.codecs s.compression body s.chunk_size e

    zeros-Full : Full (ok (replicate s.chunk_size 0))
    zeros-Full plain e = ap length (sym (ok-injective e)) ∙ length-replicate {A = ℕ} s.chunk_size 0

    legacy-Full : (a b : Option (List ℕ)) → Full (legacy_view client libs s a b)
    legacy-Full (some body) b = opened-Full body
    legacy-Full none (some body) = opened-Full body
    legacy-Full none none = zeros-Full

    object-Full : (a : Option (List ℕ)) → Full (object_view client libs s a)
    object-Full none plain e = cc
    object-Full (some body) plain e = opened-Full body plain e

    pointed-Full : (r : Result (List ℕ)) → Full (pointed_view client libs s m r)
    pointed-Full (err x) plain e = cc
    pointed-Full (ok h) plain e = object-Full (m (Keys.object_key s h)) plain e

    cow-Full : (a : Option (List ℕ)) → Full (cow_view client libs s m a)
    cow-Full none = zeros-Full
    cow-Full (some p) = pointed-Full (decode_pointer p)

    chunk_in-Full : (mode : StorageMode) (idx : ℕ) → Full (chunk_in client libs mode s m idx)
    chunk_in-Full legacy idx =
        legacy-Full (m (Keys.legacy_chunk_key s idx)) (m (Keys.legacy_flat_chunk_key s idx))
    chunk_in-Full cow idx = cow-Full (m (Keys.live_chunk_key s idx))

    -- A chunk that can be read is the chunk of the disk.
    pub view-eq-tabulate :
        (idx : ℕ) (plain : List ℕ)
        → idx < u64_size
        → chunk_view client libs s m idx ≡ ok plain
        → plain ≡ tabulate (content_of s m) (idx * s.chunk_size) s.chunk_size
    view-eq-tabulate idx plain hi e =
        let full = chunk_in-Full s.storage idx plain e in
        let shown : shown_chunk s m idx ≡ plain =
          ap (λ (t : Bool). if t then plain_of (chunk_view client libs s m idx) else [])
            (lt→ltb idx u64_size hi)
          ∙ ap plain_of e in
        tabulate_self plain s.chunk_size full
        ∙ tabulate_ext _ _ 0 (idx * s.chunk_size) s.chunk_size
            (λ i lt. ap (λ (xs : List ℕ). get_or xs (0 + i) 0) (sym shown) ∙ at i lt)
      where
        at :
            (i : ℕ)
            → i < s.chunk_size
            → get_or (shown_chunk s m idx) (0 + i) 0 ≡ content_of s m (idx * s.chunk_size + i)
        at i lt =
            rw (mul-add-div_lt idx i s.chunk_size lt, mul-add-mod_lt idx i s.chunk_size lt)
              (ap (λ (k : ℕ). get_or (shown_chunk s m idx) k 0) (omega arith))
