-- ===== src/S3/Clone.antt =====
-- src/store/s3.rs, `snapshot_clone_into`: the pointers of a snapshot installed in an empty volume.
use iscsi_s.Prelude.{
  ℕ, ◌+◌, Bool, true, false, ◌||◌, not, none, some, List, [], ◌∷◌, length, nat_beq, if◌then◌else◌,
}
use iscsi_s.Result.{geometry_mismatch, other, Result, ok, err, Exec, and_then, guard}
use iscsi_s.Compression.{bytes_eq, same_algo}
use iscsi_s.Meta.{supports_snapshots}
use iscsi_s.Snapshot.{ChunkRef}
use iscsi_s.S3.{Client, Libraries, S3ChunkStore, on_bucket}
use iscsi_s.S3.Keys
use iscsi_s.S3.Objects.{get_bytes, put_bytes}
use iscsi_s.S3.Chunks.{put_pointer}
use iscsi_s.S3.Disk.{present_chunks}
use iscsi_s.S3.Refs.{is_ready, CloneStats}
use iscsi_s.S3.Snapshots.{load_snapshot_refs, snapshot_get, grown}

module _ {B : Type 0} (client : Client B) (libs : Libraries) where
  -- The bucket as another store of the same client sees it.
  abbrev pub beside :
      {A : Type 0} → S3ChunkStore B → Exec (S3ChunkStore B) A → Exec (S3ChunkStore B) A
  beside dest op s =
      let (r, d) = op (record dest { bucket = s.bucket }) in (r, record s { bucket = d.bucket })

  -- One entry of a clone: the object is copied where the destination has none, then the pointer is
  -- written. The result says whether it was copied.
  unfoldable pub clone_ref : S3ChunkStore B → ChunkRef → Exec (S3ChunkStore B) Bool
  clone_ref dest r s =
      and_then (on_bucket (get_bytes client (Keys.object_key dest r.hash)) s) λ there s.
        elim there [
          | some _ ↦
              and_then (beside dest (put_pointer client libs r.index r.hash) s) λ _ s. (ok false, s)
          | none ↦ and_then (on_bucket (get_bytes client (Keys.object_key s r.hash)) s) λ found s.
              elim found [
                | none ↦ (err (other "missing object for hash"), s)
                | some o ↦
                    and_then
                      (on_bucket (put_bytes client (Keys.object_key dest r.hash) o.body none) s)
                      λ _ s.
                        and_then (beside dest (put_pointer client libs r.index r.hash) s)
                          λ _ s. (ok true, s)
              ]
        ]

  unfoldable pub clone_refs : S3ChunkStore B → List ChunkRef → Exec (S3ChunkStore B) CloneStats
  clone_refs dest [] s = (ok (record { pointers_written = 0; objects_copied = 0 }), s)
  clone_refs dest (r ∷ rs) s = and_then (clone_ref dest r s) λ copied s.
      and_then (clone_refs dest rs s) λ stats s. (
        ok (record {
          pointers_written = 1 + stats.pointers_written;
          objects_copied = if copied then 1 + stats.objects_copied else stats.objects_copied;
        }),
        s,
      )

  -- The tests that name no object, in their order.
  unfoldable pub can_clone : S3ChunkStore B → S3ChunkStore B → Result (Unit {0})
  can_clone dest s =
      if not (supports_snapshots s.storage) || not (supports_snapshots dest.storage)
      then err (other "volume uses storage=; set storage=\"cow\" (and migrate) to use snapshots")
      else if bytes_eq s.prefix dest.prefix
      then err (other "clone destination must be a different volume prefix")
      else if not (nat_beq dest.chunk_size s.chunk_size)
          || not (nat_beq dest.block_size s.block_size)
          || not (same_algo dest.compression s.compression)
      then err
          (geometry_mismatch "clone destination geometry/compression must match snapshot source")
      else ok tt

  -- The destination with its capacity grown client libs to the snapshot's, and its live chunks.
  unfoldable pub grow_dest : ℕ → S3ChunkStore B → Exec (S3ChunkStore B) (S3ChunkStore B)
  grow_dest capacity dest s =
      let (r, d) = grown client libs capacity (record dest { bucket = s.bucket }) in
      and_then (r, record s { bucket = d.bucket }) λ _ s. (ok d, s)

  -- The destination comes back beside the result.
  unfoldable pub snapshot_clone_into :
      S3ChunkStore B → List ℕ → Exec (S3ChunkStore B) (CloneStats × S3ChunkStore B)
  unfolding clone_refs can_clone grow_dest
  snapshot_clone_into dest id s =
      and_then (can_clone dest s, s)
        λ _ s. and_then (snapshot_get client libs id s) λ manifest s.
          and_then (guard (is_ready manifest.state) (other "snapshot is not ready"), s)
            λ _ s. and_then (grow_dest manifest.capacity_bytes dest s) λ dest s.
              and_then (beside dest (present_chunks client libs) s) λ existing s.
                and_then
                  (
                    guard (nat_beq (length existing) 0)
                        (other "clone destination must be empty (no live chunk pointers)"),
                    s,
                  )
                  λ _ s. and_then (load_snapshot_refs client libs id s) λ refs s.
                    and_then (clone_refs dest refs s)
                      λ stats s. (ok (stats, record dest { bucket = s.bucket }), s)
