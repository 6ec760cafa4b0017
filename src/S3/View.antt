-- ===== src/S3/View.antt =====
-- src/store/s3.rs: the chunk that the objects of a bucket hold for a volume, in either layout, and
-- `get_chunk`.
use iscsi_s.Prelude.{[], ℕ, ◌≡◌, refl, sym, ◌∙◌, subst, Option, none, some, List, replicate}
use iscsi_s.Result.{StoreError, other, Result, ok, err, Exec, and_then, Ends}
use iscsi_s.Meta.{StorageMode, legacy, cow}
use iscsi_s.Snapshot.{decode_pointer}
use iscsi_s.S3.{Client, Libraries, S3ChunkStore, on_bucket, Object}
use iscsi_s.S3.Keys
use iscsi_s.S3.Objects.{get_bytes}
use iscsi_s.S3.Chunks.{
  Loaded, opened, get_legacy_chunk, get_cow_chunk, get_chunk, with_etag, after_flat, after_sharded,
  after_object, follow, after_pointer,
}
use iscsi_s.S3.Laws.{IsBucket, Bodies, Key, Same, Still, bodies_of, get_bytes_lem}

-- An operation of the client, then the rest with the store around the new bucket.
pub on_bucket_then :
    {B A T : Type 0} (P : A → B → Type 0) (Q : StoreError → B → Type 0)
    (P' : T → S3ChunkStore B → Type 0) (Q' : StoreError → S3ChunkStore B → Type 0) (op : Exec B A)
    (s : S3ChunkStore B) (k : A → S3ChunkStore B → Result T × S3ChunkStore B)
    → Ends P Q (op s.bucket)
    → ((a : A) (b : B) → P a b → Ends P' Q' (k a (record s { bucket = b })))
    → ((e : StoreError) (b : B) → Q e b → Q' e (record s { bucket = b }))
    → Ends P' Q' (and_then (on_bucket op s) k)
on_bucket_then {B} {A} {T} P Q P' Q' op s k h hk he = after (op s.bucket) h
  where
    after :
        (r : Result A × B) → Ends P Q r → Ends P' Q' (and_then (r.0, record s { bucket = r.1 }) k)
    after (ok a, b) h = hk a b h
    after (err e, b) h = he e b h

pub on_bucket_ends :
    {B A : Type 0} (P : A → B → Type 0) (Q : StoreError → B → Type 0)
    (P' : A → S3ChunkStore B → Type 0) (Q' : StoreError → S3ChunkStore B → Type 0) (op : Exec B A)
    (s : S3ChunkStore B)
    → Ends P Q (op s.bucket)
    → ((a : A) (b : B) → P a b → P' a (record s { bucket = b }))
    → ((e : StoreError) (b : B) → Q e b → Q' e (record s { bucket = b }))
    → Ends P' Q' (on_bucket op s)
on_bucket_ends {B} {A} P Q P' Q' op s h hk he = after (op s.bucket) h
  where
    after : (r : Result A × B) → Ends P Q r → Ends P' Q' (r.0, record s { bucket = r.1 })
    after (ok a, b) h = hk a b h
    after (err e, b) h = he e b h

pub Same-trans : {m m' m'' : Bodies} → Same m m' → Same m' m'' → Same m m''
Same-trans f g k = g k ∙ f k

module _ {B : Type 0} (client : Client B) (libs : Libraries) where
  abbrev pub legacy_view : S3ChunkStore B → Option (List ℕ) → Option (List ℕ) → Result (List ℕ)
  legacy_view s (some body) flat = opened client libs s body
  legacy_view s none (some body) = opened client libs s body
  legacy_view s none none = ok (replicate s.chunk_size 0)

  abbrev pub object_view : S3ChunkStore B → Option (List ℕ) → Result (List ℕ)
  object_view s none = err (other "missing cow object for chunk")
  object_view s (some body) = opened client libs s body

  abbrev pub pointed_view : S3ChunkStore B → Bodies → Result (List ℕ) → Result (List ℕ)
  pointed_view s m (err e) = err e
  pointed_view s m (ok hash) = object_view s (m (Keys.object_key s hash))

  abbrev pub cow_view : S3ChunkStore B → Bodies → Option (List ℕ) → Result (List ℕ)
  cow_view s m none = ok (replicate s.chunk_size 0)
  cow_view s m (some pointer) = pointed_view s m (decode_pointer pointer)

  abbrev pub chunk_in : StorageMode → S3ChunkStore B → Bodies → ℕ → Result (List ℕ)
  chunk_in legacy s m idx =
      legacy_view s (m (Keys.legacy_chunk_key s idx)) (m (Keys.legacy_flat_chunk_key s idx))
  chunk_in cow s m idx = cow_view s m (m (Keys.live_chunk_key s idx))

  -- The chunk that the objects hold.
  abbrev pub chunk_view : S3ChunkStore B → Bodies → ℕ → Result (List ℕ)
  chunk_view s m idx = chunk_in s.storage s m idx

  module _ (objects : B → Bodies) (laws : IsBucket client objects) where
    -- The store is the one before but for its bucket, which holds the same bodies.
    pub record Kept (s s' : S3ChunkStore B) : Type 0 where
      pub store : s' ≡ record s { bucket = s'.bucket }
      pub same : Same (objects s.bucket) (objects s'.bucket)
      pub quiet : laws.in_flight s'.bucket ≡ []

    -- A load ends with the chunk `r`, or with an error; it changes no body.
    abbrev pub Loads : S3ChunkStore B → Result (List ℕ) → Result Loaded × S3ChunkStore B → Type 0
    Loads s r = Ends (λ loaded s'. (r ≡ ok loaded.0) × Kept s s') (λ _ s'. Kept s s')

    module _ (s : S3ChunkStore B) (quiet : laws.in_flight s.bucket ≡ []) where
      abbrev Stays : Bodies → B → Type 0
      Stays = Still objects laws.in_flight

      abbrev m : Bodies
      m = objects s.bucket

      kept : (b : B) → Stays m b → Kept s (record s { bucket = b })
      kept b still = record { store = refl; same = still.0; quiet = still.1 }

      with_etag-Loads :
          (r : Result (List ℕ)) (etag : Option (List ℕ)) (b : B)
          → Stays m b
          → Loads s r (with_etag client libs etag r (record s { bucket = b }))
      with_etag-Loads (ok plain) etag b same = (refl, kept b same)
      with_etag-Loads (err _) etag b same = kept b same

      -- A `get_bytes` of a key, then the rest.
      get_then :
          (r : Result (List ℕ)) (key : Key) (b : B)
          (k : Option Object → Exec (S3ChunkStore B) Loaded)
          → Stays m b
          → ((found : Option Object) (b' : B)
              → m key ≡ bodies_of found
              → Stays m b'
              → Loads s r (k found (record s { bucket = b' })))
          → Loads s r (and_then (on_bucket (get_bytes client key) (record s { bucket = b })) k)
      get_then r key b k same step =
          on_bucket_then _ _ _ _ (get_bytes client key) (record s { bucket = b }) k
            (get_bytes_lem client objects laws key b same.1)
            (λ found b' h. step found b' (sym (same.0 key) ∙ h.0) (Same-trans same.0 h.1.0, h.1.1))
            (λ e b' h. kept b' (Same-trans same.0 h.0, h.1))

      after_flat-Loads :
          (found : Option Object) (b : B)
          → Stays m b
          → Loads s
              (legacy_view s none (bodies_of found))
              (after_flat client libs found (record s { bucket = b }))
      after_flat-Loads none b same = (refl, kept b same)
      after_flat-Loads (some o) b same = with_etag-Loads (opened client libs s o.body) none b same

      after_sharded-Loads :
          (idx : ℕ) (found : Option Object) (b : B)
          → Stays m b
          → Loads s
              (legacy_view s (bodies_of found) (m (Keys.legacy_flat_chunk_key s idx)))
              (after_sharded client libs idx found (record s { bucket = b }))
      after_sharded-Loads idx (some o) b same =
          with_etag-Loads (opened client libs s o.body) o.e_tag b same
      after_sharded-Loads idx none b same =
          get_then _ (Keys.legacy_flat_chunk_key s idx) b (after_flat client libs) same
            λ found b' e same'.
              subst
                (λ v.
                  Loads s (legacy_view s none v)
                    (after_flat client libs found (record s { bucket = b' })))
                (sym e) (after_flat-Loads found b' same')

      after_object-Loads :
          (etag : Option (List ℕ)) (found : Option Object) (b : B)
          → Stays m b
          → Loads s
              (object_view s (bodies_of found))
              (after_object client libs etag found (record s { bucket = b }))
      after_object-Loads etag none b same = kept b same
      after_object-Loads etag (some o) b same =
          with_etag-Loads (opened client libs s o.body) etag b same

      follow-Loads :
          (etag : Option (List ℕ)) (r : Result (List ℕ)) (b : B)
          → Stays m b
          → Loads s (pointed_view s m r) (follow client libs etag r (record s { bucket = b }))
      follow-Loads etag (err e) b same = kept b same
      follow-Loads etag (ok hash) b same =
          get_then _ (Keys.object_key s hash) b (after_object client libs etag) same
            λ found b' e same'.
              subst
                (λ v.
                  Loads s (object_view s v)
                    (after_object client libs etag found (record s { bucket = b' })))
                (sym e) (after_object-Loads etag found b' same')

      after_pointer-Loads :
          (found : Option Object) (b : B)
          → Stays m b
          → Loads s
              (cow_view s m (bodies_of found))
              (after_pointer client libs found (record s { bucket = b }))
      after_pointer-Loads none b same = (refl, kept b same)
      after_pointer-Loads (some o) b same = follow-Loads o.e_tag (decode_pointer o.body) b same

      get_in :
          (mode : StorageMode) (idx : ℕ)
          → Loads s (chunk_in mode s m idx) (elim mode [
            | legacy ↦ get_legacy_chunk client libs idx s
            | cow ↦ get_cow_chunk client libs idx s
          ])
      unfolding get_legacy_chunk get_cow_chunk
      get_in legacy idx =
          get_then _ (Keys.legacy_chunk_key s idx) s.bucket (after_sharded client libs idx)
            (λ k. refl, quiet)
            λ found b' e same'.
              subst
                (λ v.
                  Loads s (legacy_view s v (m (Keys.legacy_flat_chunk_key s idx)))
                    (after_sharded client libs idx found (record s { bucket = b' })))
                (sym e) (after_sharded-Loads idx found b' same')
      get_in cow idx =
          get_then _ (Keys.live_chunk_key s idx) s.bucket (after_pointer client libs)
            (λ k. refl, quiet)
            λ found b' e same'.
              subst
                (λ v.
                  Loads s (cow_view s m v)
                    (after_pointer client libs found (record s { bucket = b' })))
                (sym e) (after_pointer-Loads found b' same')

      -- `get_chunk` returns the chunk that the objects hold, and changes none of them.
      pub get_chunk_lem : (idx : ℕ) → Loads s (chunk_view s m idx) (get_chunk client libs idx s)
      unfolding get_chunk
      get_chunk_lem idx = get_in s.storage idx
