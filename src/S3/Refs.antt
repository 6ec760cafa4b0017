-- ===== src/S3/Refs.antt =====
-- src/store/s3.rs: the references, manifests and sets of hashes that the snapshot operations handle.
use iscsi_s.Prelude.{
  ℕ, ◌-◌, Bool, true, false, ◌&&◌, ◌||◌, not, List, [], ◌∷◌, length, drop, nat_beq, ltb, leb,
  if◌then◌else◌,
}
use iscsi_s.Result.{other, Result, ok, err, Exec, guard}
use iscsi_s.Compression.{bytes_eq}
use iscsi_s.Meta.{supports_snapshots}
use iscsi_s.Snapshot.{ChunkRef}
use iscsi_s.S3.{Listed, S3ChunkStore, SnapshotManifest, SnapshotState, creating, ready, deleting}
use iscsi_s.S3.Keys
use iscsi_s.S3.Chunks.{key_or_empty}

-- `require_cow_store(self)?`.
abbrev pub require_cow_store : {B : Type 0} → Exec (S3ChunkStore B) (Unit {0})
require_cow_store s = (
  guard (supports_snapshots s.storage)
      (other "volume uses storage=; set storage=\"cow\" (and migrate) to use snapshots"),
  s,
)

abbrev pub is_id_char : ℕ → Bool
is_id_char c =
    (leb 48 c && ltb c 58)
    || (leb 65 c && ltb c 91)
    || (leb 97 c && ltb c 123)
    || nat_beq c b'-'
    || nat_beq c b'_'
    || nat_beq c b'.'

unfoldable pub all_id_chars : List ℕ → Bool
all_id_chars [] = true
all_id_chars (c ∷ cs) = is_id_char c && all_id_chars cs

unfoldable pub validate_snapshot_id : List ℕ → Result (Unit {0})
validate_snapshot_id id =
    if nat_beq (length id) 0 || ltb 128 (length id) || not (all_id_chars id)
    then err (other "snapshot id must be 1-128 chars of [A-Za-z0-9._-]")
    else ok tt

abbrev pub is_ready : SnapshotState → Bool
is_ready creating = false
is_ready ready = true
is_ready deleting = false

-- `sort_by_key(|r| r.index)`.
unfoldable pub insert_ref : ChunkRef → List ChunkRef → List ChunkRef
insert_ref r [] = r ∷ []
insert_ref r (q ∷ qs) = if leb r.index q.index then r ∷ q ∷ qs else q ∷ insert_ref r qs

unfoldable pub sort_refs : List ChunkRef → List ChunkRef
unfolding insert_ref
sort_refs [] = []
sort_refs (r ∷ rs) = insert_ref r (sort_refs rs)

-- Ids in the order of `str::cmp`.
unfoldable pub id_le : List ℕ → List ℕ → Bool
id_le [] ys = true
id_le (x ∷ xs) [] = false
id_le (x ∷ xs) (y ∷ ys) = let rest = id_le xs ys in ltb x y || (nat_beq x y && rest)

unfoldable pub insert_manifest : SnapshotManifest → List SnapshotManifest → List SnapshotManifest
insert_manifest m [] = m ∷ []
insert_manifest m (n ∷ ns) = if id_le m.id n.id then m ∷ n ∷ ns else n ∷ insert_manifest m ns

unfoldable pub sort_manifests : List SnapshotManifest → List SnapshotManifest
unfolding insert_manifest
sort_manifests [] = []
sort_manifests (m ∷ ms) = insert_manifest m (sort_manifests ms)

-- `key.ends_with(suffix)`.
unfoldable pub ends_with : List ℕ → List ℕ → Bool
ends_with key suffix =
    leb (length suffix) (length key) && bytes_eq (drop (length key - length suffix) key) suffix

unfoldable pub manifest_keys : List Listed → List (List ℕ)
manifest_keys [] = []
manifest_keys (o ∷ os) =
    let rest = manifest_keys os in
    if ends_with (key_or_empty o) Keys.manifest_json then key_or_empty o ∷ rest else rest

abbrev pub indices : List ChunkRef → List ℕ
indices [] = []
indices (r ∷ rs) = r.index ∷ indices rs

-- A set of hashes as a list.
unfoldable pub has_hash : List (List ℕ) → List ℕ → Bool
has_hash [] hash = false
has_hash (h ∷ hs) hash = bytes_eq h hash || has_hash hs hash

unfoldable pub add_hash : List ℕ → List (List ℕ) → List (List ℕ)
add_hash hash hs = if has_hash hs hash then hs else hash ∷ hs

unfoldable pub add_refs : List ChunkRef → List (List ℕ) → List (List ℕ)
add_refs [] hs = hs
add_refs (r ∷ rs) hs = add_refs rs (add_hash r.hash hs)

pub record GcStats : Type 0 where
  pub objects_deleted : ℕ
  pub objects_referenced : ℕ

pub record RestoreStats : Type 0 where
  pub pointers_written : ℕ
  pub pointers_deleted : ℕ
  pub capacity : ℕ

pub record CloneStats : Type 0 where
  pub pointers_written : ℕ
  pub objects_copied : ℕ
