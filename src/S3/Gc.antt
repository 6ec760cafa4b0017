-- ===== src/S3/Gc.antt =====
-- src/store/s3.rs: the deletion of the objects that no pointer and no snapshot refers to, and of whole
-- prefixes.
use iscsi_s.Prelude.{ℕ, ◌+◌, Bool, true, false, not, Option, none, some, List, [], ◌∷◌, length}
use iscsi_s.Result.{Result, ok, err, Exec, and_then}
use iscsi_s.Snapshot.{ChunkRef}
use iscsi_s.Snapshot.Names.{hash_from_object_relpath}
use iscsi_s.S3.{Client, Libraries, S3ChunkStore, on_bucket, SnapshotManifest}
use iscsi_s.S3.Keys
use iscsi_s.S3.Objects.{delete_object_key, list_keys}
use iscsi_s.S3.Chunks.{read_pointer_hash}
use iscsi_s.S3.Disk.{present_chunks}
use iscsi_s.S3.Refs.{require_cow_store, has_hash, add_hash, add_refs, GcStats}
use iscsi_s.S3.Snapshots.{load_snapshot_refs, snapshot_get, snapshot_list}

module _ {B : Type 0} (client : Client B) (libs : Libraries) where
  unfoldable pub referenced_live : List ℕ → List (List ℕ) → Exec (S3ChunkStore B) (List (List ℕ))
  referenced_live [] hs s = (ok hs, s)
  referenced_live (idx ∷ idxs) hs s = and_then (read_pointer_hash client libs idx s) λ found s.
      elim found [
        | none ↦ referenced_live idxs hs s
        | some hash ↦ referenced_live idxs (add_hash hash hs) s
      ]

  abbrev pub with_refs : List (List ℕ) → Result (List ChunkRef) → List (List ℕ)
  with_refs hs (ok refs) = add_refs refs hs
  with_refs hs (err _) = hs

  -- An index that cannot be loaded is passed over.
  unfoldable pub referenced_snapshots :
      List SnapshotManifest → List (List ℕ) → S3ChunkStore B → List (List ℕ) × S3ChunkStore B
  referenced_snapshots [] hs s = (hs, s)
  referenced_snapshots (m ∷ ms) hs s =
      let (refs, s) = load_snapshot_refs client libs m.id s in
      referenced_snapshots ms (with_refs hs refs) s

  -- The hash in the key of an object, if it is one.
  abbrev pub object_hash : List ℕ → List ℕ → Option (List ℕ)
  object_hash prefix key = elim (Keys.strip_prefix prefix key) [
    | none ↦ none
    | some rel ↦ hash_from_object_relpath rel
  ]

  abbrev pub is_garbage : List ℕ → List (List ℕ) → List ℕ → Bool
  is_garbage prefix referenced key = elim (object_hash prefix key) [
    | none ↦ false
    | some hash ↦ not (has_hash referenced hash)
  ]

  unfoldable pub delete_unreferenced :
      List ℕ → List (List ℕ) → List (List ℕ) → Exec (S3ChunkStore B) ℕ
  delete_unreferenced prefix referenced [] s = (ok 0, s)
  delete_unreferenced prefix referenced (key ∷ keys) s = elim (is_garbage prefix referenced key) [
    | false ↦ delete_unreferenced prefix referenced keys s
    | true ↦
        and_then (on_bucket (delete_object_key client key) s)
          λ _ s. and_then (delete_unreferenced prefix referenced keys s) λ n s. (ok (1 + n), s)
  ]

  unfoldable pub delete_keys : List (List ℕ) → Exec (S3ChunkStore B) ℕ
  delete_keys [] s = (ok 0, s)
  delete_keys (key ∷ keys) s =
      and_then (on_bucket (delete_object_key client key) s)
        λ _ s. and_then (delete_keys keys s) λ n s. (ok (1 + n), s)

  unfoldable pub delete_prefix : List ℕ → Exec (S3ChunkStore B) ℕ
  delete_prefix prefix s =
      and_then (on_bucket (list_keys client prefix) s) λ keys s. delete_keys keys s

  unfoldable pub wipe_objects_and_snapshots : Exec (S3ChunkStore B) (ℕ × ℕ)
  wipe_objects_and_snapshots s = and_then (delete_prefix (Keys.objects_prefix s) s) λ objects s.
      and_then (delete_prefix (Keys.snapshots_prefix s) s)
        λ snapshots s. (ok (objects, snapshots), s)

  unfoldable pub gc_unreferenced_objects : Exec (S3ChunkStore B) GcStats
  gc_unreferenced_objects s = and_then (require_cow_store s) λ _ s.
      and_then (present_chunks client libs s) λ idxs s.
        and_then (referenced_live idxs [] s) λ lives s.
          and_then (snapshot_list client libs s) λ ms s.
            let (referenced, s) = referenced_snapshots ms lives s in
            let prefix = Keys.objects_prefix s in
            and_then (on_bucket (list_keys client prefix) s) λ keys s.
              and_then (delete_unreferenced prefix referenced keys s) λ n s.
                (ok (record { objects_deleted = n; objects_referenced = length referenced }), s)

  unfoldable pub snapshot_delete : List ℕ → Exec (S3ChunkStore B) GcStats
  unfolding gc_unreferenced_objects snapshot_get
  snapshot_delete id s = and_then (require_cow_store s) λ _ s.
      and_then (snapshot_get client libs id s) λ _ s.
        and_then (on_bucket (delete_object_key client (Keys.snapshot_chunks_key s id)) s) λ _ s.
          and_then (on_bucket (delete_object_key client (Keys.snapshot_manifest_key s id)) s)
            λ _ s. gc_unreferenced_objects s
