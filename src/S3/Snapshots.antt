-- ===== src/S3/Snapshots.antt =====
-- src/store/s3.rs: the snapshots of a copy-on-write volume, created, listed and restored.
use iscsi_s.Prelude.{
  ℕ, ◌+◌, true, false, ◌||◌, not, none, some, List, [], ◌∷◌, length, nat_beq, ltb, if◌then◌else◌,
}
use iscsi_s.Result.{geometry_mismatch, other, Result, ok, err, Exec, and_then}
use iscsi_s.Compression.{same_algo}
use iscsi_s.Snapshot.{ChunkRef, write_chunks_bin, read_chunks_bin}
use iscsi_s.Store.Laws.{contains}
use iscsi_s.S3.{Client, Libraries, S3ChunkStore, on_bucket, SnapshotManifest, creating, ready}
use iscsi_s.S3.Keys
use iscsi_s.S3.Objects.{get_bytes, put_bytes, list_pages}
use iscsi_s.S3.Chunks.{read_pointer_hash, put_pointer, delete_chunk_object}
use iscsi_s.S3.Disk.{present_chunks, set_capacity}
use iscsi_s.S3.Refs.{
  require_cow_store, validate_snapshot_id, is_ready, sort_refs, sort_manifests, manifest_keys,
  indices, RestoreStats,
}

module _ {B : Type 0} (client : Client B) (libs : Libraries) where
  unfoldable pub collect_refs : List ℕ → Exec (S3ChunkStore B) (List ChunkRef)
  collect_refs [] s = (ok [], s)
  collect_refs (idx ∷ idxs) s = and_then (read_pointer_hash client libs idx s) λ found s.
      and_then (collect_refs idxs s) λ refs s. elim found [
        | none ↦ (ok refs, s)
        | some hash ↦ (ok (record { index = idx; hash = hash } ∷ refs), s)
      ]

  unfoldable pub collect_live_refs : Exec (S3ChunkStore B) (List ChunkRef)
  unfolding collect_refs sort_refs
  collect_live_refs s = and_then (require_cow_store s) λ _ s.
      and_then (present_chunks client libs s)
        λ idxs s. and_then (collect_refs idxs s) λ refs s. (ok (sort_refs refs), s)

  unfoldable pub load_snapshot_refs : List ℕ → Exec (S3ChunkStore B) (List ChunkRef)
  load_snapshot_refs id s =
      and_then (on_bucket (get_bytes client (Keys.snapshot_chunks_key s id)) s) λ found s.
        elim found [
          | none ↦ (err (other "snapshot chunks.bin missing"), s)
          | some o ↦ (read_chunks_bin o.body, s)
        ]

  -- The pointers of the snapshot, each written.
  unfoldable pub put_pointers : List ChunkRef → Exec (S3ChunkStore B) ℕ
  put_pointers [] s = (ok 0, s)
  put_pointers (r ∷ rs) s =
      and_then (put_pointer client libs r.index r.hash s)
        λ _ s. and_then (put_pointers rs s) λ n s. (ok (1 + n), s)

  -- The live chunks that the snapshot does not have, each removed.
  unfoldable pub delete_others : List ℕ → List ℕ → Exec (S3ChunkStore B) ℕ
  delete_others kept [] s = (ok 0, s)
  delete_others kept (idx ∷ idxs) s = elim (contains kept idx) [
    | true ↦ delete_others kept idxs s
    | false ↦
        and_then (delete_chunk_object client idx s)
          λ _ s. and_then (delete_others kept idxs s) λ n s. (ok (1 + n), s)
  ]

  abbrev pub new_creating : ℕ → List ℕ → List ℕ → S3ChunkStore B → SnapshotManifest
  new_creating now id source s = record {
    id = id;
    created_at_unix = now;
    parent = none;
    source_volume = source;
    capacity_bytes = s.capacity;
    chunk_size = s.chunk_size;
    block_size = s.block_size;
    compression = s.compression;
    chunk_count = 0;
    chunks_object = "chunks.bin";
    hash_algo = "blake3";
    state = creating;
    format_version = 1;
  }

  unfoldable pub put_manifest : SnapshotManifest → List ℕ → Exec (S3ChunkStore B) (Unit {0})
  put_manifest m id s =
      and_then (libs.manifest_to_json m, s)
        λ body s. on_bucket (put_bytes client (Keys.snapshot_manifest_key s id) body none) s

  abbrev pub finished : SnapshotManifest → ℕ → SnapshotManifest
  finished m count = record m { chunk_count = count; state = ready }

  -- `now` is what the clock says.
  unfoldable pub snapshot_create : ℕ → List ℕ → List ℕ → Exec (S3ChunkStore B) SnapshotManifest
  snapshot_create now id source s = and_then (require_cow_store s) λ _ s.
      and_then (validate_snapshot_id id, s)
        λ _ s.
          and_then (on_bucket (get_bytes client (Keys.snapshot_manifest_key s id)) s) λ found s.
            elim found [
              | some _ ↦ (err (other "snapshot already exists"), s)
              | none ↦
                  let manifest = new_creating now id source s in
                  and_then (put_manifest manifest id s) λ _ s.
                    and_then (collect_live_refs s) λ refs s.
                      and_then
                        (on_bucket
                          (put_bytes client (Keys.snapshot_chunks_key s id) (write_chunks_bin refs)
                            none)
                          s)
                        λ _ s.
                          and_then (put_manifest (finished manifest (length refs)) id s)
                            λ _ s. (ok (finished manifest (length refs)), s)
            ]

  unfoldable pub load_manifests : List (List ℕ) → Exec (S3ChunkStore B) (List SnapshotManifest)
  load_manifests [] s = (ok [], s)
  load_manifests (key ∷ keys) s = and_then (on_bucket (get_bytes client key) s) λ found s.
      elim found [
        | none ↦ load_manifests keys s
        | some o ↦
            and_then (libs.manifest_from_json o.body, s)
              λ m s. and_then (load_manifests keys s) λ ms s. (ok (m ∷ ms), s)
      ]

  unfoldable pub snapshot_list : Exec (S3ChunkStore B) (List SnapshotManifest)
  unfolding manifest_keys sort_manifests
  snapshot_list s = and_then (require_cow_store s) λ _ s.
      and_then (on_bucket (list_pages client client.patience (Keys.snapshots_prefix s) none) s)
        λ listed s.
          and_then (load_manifests (manifest_keys listed) s) λ ms s. (ok (sort_manifests ms), s)

  unfoldable pub snapshot_get : List ℕ → Exec (S3ChunkStore B) SnapshotManifest
  snapshot_get id s = and_then (require_cow_store s) λ _ s.
      and_then (on_bucket (get_bytes client (Keys.snapshot_manifest_key s id)) s) λ found s.
        elim found [
          | none ↦ (err (other "snapshot not found"), s)
          | some o ↦ (libs.manifest_from_json o.body, s)
        ]

  -- The capacity grows to the snapshot's.
  abbrev pub grown : ℕ → Exec (S3ChunkStore B) (Unit {0})
  grown capacity s =
      if ltb s.capacity capacity then set_capacity client libs capacity s else (ok tt, s)

  -- The tests of the manifest before its pointers are installed.
  unfoldable pub fits_volume : SnapshotManifest → S3ChunkStore B → Result (Unit {0})
  fits_volume m s =
      if not (is_ready m.state)
      then err (other "snapshot is not ready")
      else if not (nat_beq m.chunk_size s.chunk_size) || not (nat_beq m.block_size s.block_size)
      then err (geometry_mismatch "snapshot geometry does not match live volume")
      else if not (same_algo m.compression s.compression)
      then err (geometry_mismatch "snapshot compression does not match live volume")
      else ok tt

  unfoldable pub install_refs : List ChunkRef → List ℕ → Exec (S3ChunkStore B) RestoreStats
  install_refs refs live s = and_then (put_pointers refs s) λ written s.
      and_then (delete_others (indices refs) live s) λ deleted s. (
        ok (record {
          pointers_written = written;
          pointers_deleted = deleted;
          capacity = s.capacity;
        }),
        s,
      )

  unfoldable pub snapshot_restore : List ℕ → Exec (S3ChunkStore B) RestoreStats
  unfolding install_refs
  snapshot_restore id s = and_then (require_cow_store s) λ _ s.
      and_then (snapshot_get id s) λ manifest s.
        and_then (fits_volume manifest s, s)
          λ _ s. and_then (grown manifest.capacity_bytes s) λ _ s.
            and_then (load_snapshot_refs id s)
              λ refs s. and_then (present_chunks client libs s) λ live s. install_refs refs live s
