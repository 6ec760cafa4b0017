-- ===== src/S3/Chunks.antt =====
-- src/store/s3.rs: a chunk read and written in the two layouts. A volume of storage `legacy` holds a
-- chunk as an object of its own, under the sharded key or, from before, the flat one; a volume of
-- storage `cow` holds a pointer to an object that is named by its hash.
use iscsi_s.Prelude.{
  ℕ, Bool, false, ◌||◌, Option, none, some, List, [], ◌∷◌, length, replicate, not, nat_beq,
  if◌then◌else◌,
}
use iscsi_s.Result.{StoreError, s3, other, Result, ok, err, Exec, and_then}
use iscsi_s.Compression.{encode_chunk, decode_chunk}
use iscsi_s.Meta.{legacy, cow, StorageMode}
use iscsi_s.Memory.{sort}
use iscsi_s.Snapshot.{encode_pointer, decode_pointer}
use iscsi_s.S3.{Client, Libraries, Listed, S3ChunkStore, on_bucket, Object}
use iscsi_s.S3.Keys
use iscsi_s.S3.Objects.{
  get_bytes, put_bytes, delete_object_key, try_delete, list_pages, str_contains,
}

-- A chunk, and the etag a later write of it must match.
abbrev pub Loaded : Type 0
Loaded = List ℕ × Option (List ℕ)

-- `dedup` on a sorted list.
unfoldable pub dedup : List ℕ → List ℕ
dedup [] = []
dedup (x ∷ []) = x ∷ []
dedup (x ∷ y ∷ ys) = let rest = dedup (y ∷ ys) in if nat_beq x y then rest else x ∷ rest

abbrev pub key_or_empty : Listed → List ℕ
key_or_empty o = elim o.key [ none ↦ [] | some key ↦ key ]

unfoldable pub parsed_indices : List ℕ → List Listed → List ℕ
parsed_indices prefix [] = []
parsed_indices prefix (o ∷ os) =
    let rest = parsed_indices prefix os in
    elim (Keys.parse_chunk_index_from_key prefix (key_or_empty o)) [
      | none ↦ rest
      | some idx ↦ idx ∷ rest
    ]

unfoldable pub is_precondition_failed : StoreError → Bool
is_precondition_failed (s3 message) =
    str_contains message "PreconditionFailed"
    || str_contains message "412"
    || str_contains message "At least one of the pre-conditions"
is_precondition_failed _ = false

module _ {B : Type 0} (client : Client B) where
  unfoldable pub list_chunk_indices : List ℕ → Exec B (List ℕ)
  unfolding dedup parsed_indices
  list_chunk_indices prefix b =
      and_then (list_pages client client.patience prefix none b)
        λ listed b. (ok (dedup (sort (parsed_indices prefix listed))), b)

  unfoldable pub delete_chunk_object : ℕ → Exec (S3ChunkStore B) (Unit {0})
  delete_chunk_object index s = elim s.storage [
    | legacy ↦
        and_then (on_bucket (delete_object_key client (Keys.legacy_chunk_key s index)) s)
          λ _ s. on_bucket (delete_object_key client (Keys.legacy_flat_chunk_key s index)) s
    | cow ↦ on_bucket (delete_object_key client (Keys.live_chunk_key s index)) s
  ]

module _ {B : Type 0} (client : Client B) (libs : Libraries) where
  -- `decode_chunk` of a stored body.
  abbrev pub opened : S3ChunkStore B → List ℕ → Result (List ℕ)
  opened s body = decode_chunk libs.codecs s.compression body s.chunk_size

  abbrev pub with_etag : {S : Type 0} → Option (List ℕ) → Result (List ℕ) → S → Result Loaded × S
  with_etag etag (ok plain) s = (ok (plain, etag), s)
  with_etag etag (err e) s = (err e, s)

  abbrev pub after_flat : Option Object → Exec (S3ChunkStore B) Loaded
  after_flat none s = (ok (replicate s.chunk_size 0, none), s)
  after_flat (some o) s = with_etag none (opened s o.body) s

  -- The flat key is tried where the sharded one has nothing.
  abbrev pub after_sharded : ℕ → Option Object → Exec (S3ChunkStore B) Loaded
  after_sharded index (some o) s = with_etag o.e_tag (opened s o.body) s
  after_sharded index none s =
      and_then (on_bucket (get_bytes client (Keys.legacy_flat_chunk_key s index)) s) after_flat

  unfoldable pub get_legacy_chunk : ℕ → Exec (S3ChunkStore B) Loaded
  get_legacy_chunk index s =
      and_then (on_bucket (get_bytes client (Keys.legacy_chunk_key s index)) s)
        (after_sharded index)

  abbrev pub after_object : Option (List ℕ) → Option Object → Exec (S3ChunkStore B) Loaded
  after_object etag none s = (err (other "missing cow object for chunk"), s)
  after_object etag (some o) s = with_etag etag (opened s o.body) s

  abbrev pub follow : Option (List ℕ) → Result (List ℕ) → Exec (S3ChunkStore B) Loaded
  follow etag (err e) s = (err e, s)
  follow etag (ok hash) s =
      and_then (on_bucket (get_bytes client (Keys.object_key s hash)) s) (after_object etag)

  -- A missing pointer is a chunk of zeros, a missing object an error.
  abbrev pub after_pointer : Option Object → Exec (S3ChunkStore B) Loaded
  after_pointer none s = (ok (replicate s.chunk_size 0, none), s)
  after_pointer (some pointer) s = follow pointer.e_tag (decode_pointer pointer.body) s

  unfoldable pub get_cow_chunk : ℕ → Exec (S3ChunkStore B) Loaded
  get_cow_chunk index s =
      and_then (on_bucket (get_bytes client (Keys.live_chunk_key s index)) s) after_pointer

  unfoldable pub get_chunk : ℕ → Exec (S3ChunkStore B) Loaded
  unfolding get_legacy_chunk get_cow_chunk
  get_chunk index s = elim s.storage [
    | legacy ↦ get_legacy_chunk index s
    | cow ↦ get_cow_chunk index s
  ]

  unfoldable pub put_legacy_chunk : ℕ → List ℕ → Option (List ℕ) → Exec (S3ChunkStore B) (Unit {0})
  put_legacy_chunk index body if_match s =
      and_then (on_bucket (put_bytes client (Keys.legacy_chunk_key s index) body if_match) s)
        λ _ s. on_bucket (try_delete client (Keys.legacy_flat_chunk_key s index)) s

  -- The object, then the pointer to it.
  unfoldable pub put_cow_chunk : ℕ → List ℕ → Option (List ℕ) → Exec (S3ChunkStore B) (Unit {0})
  put_cow_chunk index body if_match s =
      let hash = libs.hash body in
      and_then (on_bucket (put_bytes client (Keys.object_key s hash) body none) s) λ _ s.
        on_bucket (put_bytes client (Keys.live_chunk_key s index) (encode_pointer hash) if_match) s

  unfoldable pub put_body :
      StorageMode → ℕ → List ℕ → Option (List ℕ) → Exec (S3ChunkStore B) (Unit {0})
  put_body legacy index body if_match s = put_legacy_chunk index body if_match s
  put_body cow index body if_match s = put_cow_chunk index body if_match s

  unfoldable pub put_chunk : ℕ → List ℕ → Option (List ℕ) → Exec (S3ChunkStore B) (Unit {0})
  put_chunk index bytes if_match s =
      if not (nat_beq (length bytes) s.chunk_size)
      then (err (other "put_chunk length != chunk_size"), s)
      else and_then (encode_chunk libs.codecs s.compression bytes, s)
          λ body s. put_body s.storage index body if_match s

  -- `self.get_pointer_bytes` and `decode_pointer`.
  unfoldable pub read_pointer_hash : ℕ → Exec (S3ChunkStore B) (Option (List ℕ))
  read_pointer_hash index s =
      and_then (on_bucket (get_bytes client (Keys.chunk_key s index)) s) λ found s. elim found [
        | none ↦ (ok none, s)
        | some o ↦ and_then (decode_pointer o.body, s) λ hash s. (ok (some hash), s)
      ]

  unfoldable pub put_pointer : ℕ → List ℕ → Exec (S3ChunkStore B) (Unit {0})
  put_pointer index hash s =
      on_bucket (put_bytes client (Keys.chunk_key s index) (encode_pointer hash) none) s
