-- ===== src/S3/Keys.antt =====
-- src/store/s3.rs: the keys of a volume's objects, and the chunk number in a key.
use iscsi_s.Prelude.{
  ℕ, ◌^◌, ◌||◌, not, Option, none, some, List, [], ◌∷◌, ◌++◌, length, take, drop, get_or, nat_beq,
  if◌then◌else◌, slice, hex, from_hex,
}
use iscsi_s.Compression.{bytes_eq}
use iscsi_s.Meta.{legacy, cow}
use iscsi_s.Snapshot.Names.{contains, object_relpath}
use iscsi_s.S3.{S3ChunkStore}

-- Low pair, middle pair, the other twelve digits.
unfoldable pub shard_chunk_index : ℕ → List ℕ
shard_chunk_index index =
    let digits = hex 16 index in
    slice digits 14 2 ++ (b'/' ∷ (slice digits 12 2 ++ (b'/' ∷ take 12 digits)))

-- The parts put back in order.
unfoldable pub split_legacy_shard : List ℕ → Option (List ℕ)
split_legacy_shard rel =
    if not (nat_beq (length rel) 18)
      || not (nat_beq (get_or rel 2 0) b'/')
      || not (nat_beq (get_or rel 5 0) b'/')
    then none
    else some (drop 6 rel ++ (slice rel 3 2 ++ take 2 rel))

abbrev pub parse_index : List ℕ → Option ℕ
parse_index digits = if nat_beq (length digits) 16 then from_hex (2 ^ 64) digits else none

unfoldable pub index_from_chunk_relpath : List ℕ → Option ℕ
index_from_chunk_relpath rel = elim (split_legacy_shard rel) [
  | some digits ↦ parse_index digits
  | none ↦ if nat_beq (length rel) 0 || contains b'/' rel then none else parse_index rel
]

-- `key.strip_prefix(prefix)`.
unfoldable pub strip_prefix : List ℕ → List ℕ → Option (List ℕ)
strip_prefix prefix key =
    if bytes_eq (take (length prefix) key) prefix then some (drop (length prefix) key) else none

unfoldable pub parse_chunk_index_from_key : List ℕ → List ℕ → Option ℕ
parse_chunk_index_from_key chunks_prefix key = elim (strip_prefix chunks_prefix key) [
  | none ↦ none
  | some rel ↦ index_from_chunk_relpath rel
]

-- `/meta.json`, `/live/meta.json`, `/live/migrating.json`.
abbrev pub meta_json : List ℕ
meta_json = b'/' ∷ b'm' ∷ b'e' ∷ b't' ∷ b'a' ∷ b'.' ∷ b'j' ∷ b's' ∷ b'o' ∷ b'n' ∷ []

abbrev pub live : List ℕ
live = b'/' ∷ b'l' ∷ b'i' ∷ b'v' ∷ b'e' ∷ []

abbrev pub migrating_json : List ℕ
migrating_json =
    b'/' ∷ b'm' ∷ b'i' ∷ b'g' ∷ b'r' ∷ b'a' ∷ b't' ∷ b'i' ∷ b'n' ∷ b'g' ∷ b'.' ∷ b'j' ∷ b's' ∷ b'o'
    ∷ b'n' ∷ []

-- `/chunks/`, `/objects/`, `/snapshots/`, `/manifest.json`, `/chunks.bin`.
abbrev pub chunks : List ℕ
chunks = b'/' ∷ b'c' ∷ b'h' ∷ b'u' ∷ b'n' ∷ b'k' ∷ b's' ∷ b'/' ∷ []

abbrev pub objects : List ℕ
objects = b'/' ∷ b'o' ∷ b'b' ∷ b'j' ∷ b'e' ∷ b'c' ∷ b't' ∷ b's' ∷ b'/' ∷ []

abbrev pub snapshots : List ℕ
snapshots = b'/' ∷ b's' ∷ b'n' ∷ b'a' ∷ b'p' ∷ b's' ∷ b'h' ∷ b'o' ∷ b't' ∷ b's' ∷ b'/' ∷ []

abbrev pub manifest_json : List ℕ
manifest_json =
    b'/' ∷ b'm' ∷ b'a' ∷ b'n' ∷ b'i' ∷ b'f' ∷ b'e' ∷ b's' ∷ b't' ∷ b'.' ∷ b'j' ∷ b's' ∷ b'o' ∷ b'n'
    ∷ []

abbrev pub chunks_bin : List ℕ
chunks_bin = b'/' ∷ b'c' ∷ b'h' ∷ b'u' ∷ b'n' ∷ b'k' ∷ b's' ∷ b'.' ∷ b'b' ∷ b'i' ∷ b'n' ∷ []

abbrev pub legacy_chunks_prefix : List ℕ → List ℕ
legacy_chunks_prefix prefix = prefix ++ chunks

abbrev pub live_chunks_prefix : List ℕ → List ℕ
live_chunks_prefix prefix = prefix ++ (live ++ chunks)

module _ {B : Type 0} (s : S3ChunkStore B) where
  abbrev pub flat_meta_key : List ℕ
  flat_meta_key = s.prefix ++ meta_json

  abbrev pub live_meta_key : List ℕ
  live_meta_key = s.prefix ++ (live ++ meta_json)

  abbrev pub meta_key : List ℕ
  meta_key = elim s.storage [ legacy ↦ flat_meta_key | cow ↦ live_meta_key ]

  abbrev pub chunks_prefix : List ℕ
  chunks_prefix = elim s.storage [
    | legacy ↦ legacy_chunks_prefix s.prefix
    | cow ↦ live_chunks_prefix s.prefix
  ]

  abbrev pub legacy_chunk_key : ℕ → List ℕ
  legacy_chunk_key index = legacy_chunks_prefix s.prefix ++ shard_chunk_index index

  abbrev pub legacy_flat_chunk_key : ℕ → List ℕ
  legacy_flat_chunk_key index = legacy_chunks_prefix s.prefix ++ hex 16 index

  -- The key of a pointer, `live/chunks/` and the number.
  abbrev pub live_chunk_key : ℕ → List ℕ
  live_chunk_key index = live_chunks_prefix s.prefix ++ hex 16 index

  abbrev pub chunk_key : ℕ → List ℕ
  chunk_key index = elim s.storage [ legacy ↦ legacy_chunk_key index | cow ↦ live_chunk_key index ]

  abbrev pub objects_prefix : List ℕ
  objects_prefix = s.prefix ++ objects

  abbrev pub object_key : List ℕ → List ℕ
  object_key hash = objects_prefix ++ object_relpath hash

  abbrev pub snapshots_prefix : List ℕ
  snapshots_prefix = s.prefix ++ snapshots

  abbrev pub snapshot_manifest_key : List ℕ → List ℕ
  snapshot_manifest_key id = snapshots_prefix ++ (id ++ manifest_json)

  abbrev pub snapshot_chunks_key : List ℕ → List ℕ
  snapshot_chunks_key id = snapshots_prefix ++ (id ++ chunks_bin)

  abbrev pub migrating_key : List ℕ
  migrating_key = s.prefix ++ (live ++ migrating_json)
