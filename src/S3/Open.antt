-- ===== src/S3/Open.antt =====
-- src/store/s3.rs: a volume opened, and the migration of a legacy volume to the copy-on-write layout.
use iscsi_s.Prelude.{
  ℕ, ◌+◌, Bool, true, false, Option, none, some, List, [], ◌∷◌, if◌then◌else◌, not, nat_beq,
  trim_matches,
}
use iscsi_s.Result.{geometry_mismatch, meta, other, Result, ok, err, Exec, and_then}
use iscsi_s.Meta.{StorageMode, legacy, cow, VolumeMeta, plan_capacity, same_mode}
use iscsi_s.Snapshot.{encode_pointer}
use iscsi_s.S3.{Client, Libraries, Object, S3ChunkStore, on_bucket}
use iscsi_s.S3.Keys
use iscsi_s.S3.Objects.{get_bytes, put_bytes, try_delete, get_meta_at, put_meta}
use iscsi_s.S3.Chunks.{list_chunk_indices}
use iscsi_s.S3.Disk.{meta_with}

-- The mode and the meta object, from the two places where a meta object may be.
unfoldable pub layout :
    StorageMode → Option VolumeMeta → Option VolumeMeta → Result (StorageMode × Option VolumeMeta)
layout config (some m) _ =
    if not (same_mode m.storage cow)
    then err (meta "live/meta.json present but storage is not cow")
    else if not (same_mode config cow)
    then err (geometry_mismatch "volume meta is storage=cow; set volumes[].storage = \"cow\"")
    else ok (cow, some m)
layout config none (some m) =
    if same_mode m.storage cow
    then err (meta "flat meta.json claims storage=cow; expected live/ layout")
    else if same_mode config cow
    then err (geometry_mismatch "volume is storage=legacy on S3; migrate, then set storage=\"cow\"")
    else ok (legacy, some m)
layout config none none = ok (config, none)

-- `{"state":"migrating"}`.
abbrev pub marker : List ℕ
marker =
    b'{' ∷ b'"' ∷ b's' ∷ b't' ∷ b'a' ∷ b't' ∷ b'e' ∷ b'"' ∷ b':' ∷ b'"' ∷ b'm' ∷ b'i' ∷ b'g' ∷ b'r'
    ∷ b'a' ∷ b't' ∷ b'i' ∷ b'n' ∷ b'g' ∷ b'"' ∷ b'}' ∷ []

module _ {B : Type 0} (client : Client B) (libs : Libraries) where
  unfoldable pub probe_layout :
      StorageMode → Exec (S3ChunkStore B) (StorageMode × Option VolumeMeta)
  unfolding layout
  probe_layout config s =
      and_then (on_bucket (get_meta_at client libs (Keys.live_meta_key s)) s) λ live s.
        and_then (on_bucket (get_meta_at client libs (Keys.flat_meta_key s)) s)
          λ flat s. (layout config live flat, s)

  abbrev pub write_planned : Option VolumeMeta → Exec (S3ChunkStore B) (Unit {0})
  write_planned none s = (ok tt, s)
  write_planned (some m) s = put_meta client libs m s

  unfoldable pub resolve_meta : ℕ → Option VolumeMeta → Exec (S3ChunkStore B) ℕ
  resolve_meta config_capacity existing s =
      and_then
        (
          plan_capacity config_capacity s.chunk_size s.block_size s.compression s.storage existing,
          s,
        )
        λ (effective, to_write) s. and_then (write_planned to_write s) λ _ s. (ok effective, s)

  abbrev pub has_migration_marker : Exec (S3ChunkStore B) Bool
  has_migration_marker s =
      and_then (on_bucket (get_bytes client (Keys.migrating_key s)) s)
        λ found s. elim found [ none ↦ (ok false, s) | some _ ↦ (ok true, s) ]

  -- The body of a legacy chunk, sharded or flat.
  unfoldable pub legacy_body : ℕ → Exec (S3ChunkStore B) (Option Object)
  legacy_body idx s =
      and_then (on_bucket (get_bytes client (Keys.legacy_chunk_key s idx)) s) λ found s.
        elim found [
          | some o ↦ (ok (some o), s)
          | none ↦ on_bucket (get_bytes client (Keys.legacy_flat_chunk_key s idx)) s
        ]

  -- Both legacy objects of a chunk are dropped; an error of that is passed over.
  abbrev pub drop_legacy : ℕ → S3ChunkStore B → S3ChunkStore B
  drop_legacy idx s =
      let s = (on_bucket (try_delete client (Keys.legacy_chunk_key s idx)) s).1 in
      (on_bucket (try_delete client (Keys.legacy_flat_chunk_key s idx)) s).1

  -- One chunk: its object, its pointer, then the legacy objects go. The result says whether it was
  -- there.
  unfoldable pub migrate_chunk : ℕ → Exec (S3ChunkStore B) Bool
  migrate_chunk idx s = and_then (legacy_body idx s) λ found s. elim found [
    | none ↦ (ok false, s)
    | some o ↦
        let hash = libs.hash o.body in
        and_then (on_bucket (put_bytes client (Keys.object_key s hash) o.body none) s) λ _ s.
          and_then
            (on_bucket (put_bytes client (Keys.live_chunk_key s idx) (encode_pointer hash) none) s)
            λ _ s. (ok true, drop_legacy idx s)
  ]

  unfoldable pub migrate_chunks : List ℕ → Exec (S3ChunkStore B) ℕ
  migrate_chunks [] s = (ok 0, s)
  migrate_chunks (idx ∷ idxs) s =
      and_then (migrate_chunk idx s)
        λ moved s. and_then (migrate_chunks idxs s) λ n s. (ok (if moved then 1 + n else n), s)

  -- The new meta object, the mode, and the end of the marker.
  unfoldable pub commit_cow : Exec (S3ChunkStore B) (Unit {0})
  commit_cow s =
      let m : VolumeMeta = record (meta_with client libs s.capacity s) { storage = cow } in
      and_then (libs.meta_to_json m, s)
        λ body s. and_then (on_bucket (put_bytes client (Keys.live_meta_key s) body none) s) λ _ s.
          let s =
            (on_bucket (try_delete client (Keys.flat_meta_key s)) (record s { storage = cow })).1 in
          on_bucket (try_delete client (Keys.migrating_key s)) s

  -- The number of chunks moved, which is the number of legacy chunks dropped as well.
  unfoldable pub migrate_to_cow : Exec (S3ChunkStore B) ℕ
  migrate_to_cow s = elim s.storage [
    | cow ↦
        let s = (on_bucket (try_delete client (Keys.migrating_key s)) s).1 in
        (err (other "volume is already storage=cow"), s)
    | legacy ↦ and_then (on_bucket (put_bytes client (Keys.migrating_key s) marker none) s) λ _ s.
        and_then (on_bucket (list_chunk_indices client (Keys.legacy_chunks_prefix s.prefix)) s)
          λ idxs s. and_then (migrate_chunks idxs s) λ n s. and_then (commit_cow s) λ _ s. (ok n, s)
  ]

  -- A migration that was cut off is finished before the volume is served.
  unfoldable pub resume_migration : Exec (S3ChunkStore B) (Unit {0})
  unfolding migrate_to_cow
  resume_migration s = elim s.storage [
    | cow ↦ (ok tt, s)
    | legacy ↦ and_then (has_migration_marker s) λ marked s. elim marked [
      | false ↦ (ok tt, s)
      | true ↦ and_then (migrate_to_cow s) λ _ s. (ok tt, s)
    ]
  ]

  -- `S3ChunkStore::open`: `s` holds the fields as configured, and the prefix loses its outer slashes.
  unfoldable pub open_store : Exec (S3ChunkStore B) (Unit {0})
  open_store configured =
      let prefix = trim_matches (λ c. nat_beq c b'/') configured.prefix in
      let s = record configured { prefix = prefix } in
      and_then (probe_layout s.storage s) λ (mode, existing) s.
        and_then (resolve_meta s.capacity existing (record s { storage = mode }))
          λ effective s. resume_migration (record s { capacity = effective })
