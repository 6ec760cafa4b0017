-- ===== src/S3.antt =====
-- src/store/s3.rs: `S3ChunkStore`, the chunks of a volume as objects of a bucket. The S3 client, JSON,
-- the hash and the compressors are libraries, parameters of the model. Keys are ASCII bytes.
pub mod Keys
pub mod Objects
pub mod Chunks
pub mod Disk
pub mod Refs
pub mod Snapshots
pub mod Gc
pub mod Clone
pub mod Open
pub mod Names
pub mod Laws
pub mod View
pub mod Sound
pub mod Puts
pub mod CowPuts
pub mod ChunkPuts
pub mod Volume
pub mod PieceWrites
pub mod Writes
pub mod Reads
pub mod Moves
pub mod Resizes
pub mod Parsed
pub mod Lists
pub mod Deletes
pub mod ReadAfterWrite
pub mod IsVolume
use iscsi_s.Prelude.{ℕ, Bool, Option, List, String}
use iscsi_s.Result.{Result, Exec}
use iscsi_s.Compression.{Compression, Codecs}
use iscsi_s.Meta.{StorageMode, VolumeMeta}

-- What the client's calls return: a typed error, the status of the response if there was one, and the
-- text that the error prints.
pub record SdkError : Type 0 where
  pub no_such_key : Bool
  pub status : Option ℕ
  pub message : String

-- `run_on_runtime` of a call: it is late where the time limit is over before the call is.
pub data Reply (A : Type 0) : Type 0 where
  done : A → Reply A
  failed : SdkError → Reply A
  late : Reply A

-- A body that is collected whole, or that breaks off with an error.
pub data ByteStream : Type 0 where
  collected : List ℕ → ByteStream
  broken : String → ByteStream

pub record GetObjectOutput : Type 0 where
  pub body : ByteStream
  pub e_tag : Option (List ℕ)

-- What `get_bytes` returns of an object.
pub record Object : Type 0 where
  pub body : List ℕ
  pub e_tag : Option (List ℕ)

pub record Listed : Type 0 where
  pub key : Option (List ℕ)
  pub size : Option ℕ

-- A page of `ListObjectsV2`, with the token of the next one.
pub record Page : Type 0 where
  pub contents : List Listed
  pub is_truncated : Bool
  pub next_continuation_token : Option ℕ

abbrev pub Call : Type 0 → Type 0 → Type 0
Call B A = B → Reply A × B

-- The client of a bucket whose state is a `B`. `patience` bounds the pages that a listing can fetch
-- within its time limit.
pub record Client (B : Type 0) : Type 0 where
  pub get_object : List ℕ → Call B GetObjectOutput
  pub put_object : List ℕ → List ℕ → Option (List ℕ) → Call B (Unit {0})
  pub delete_object : List ℕ → Call B (Unit {0})
  pub list_objects_v2 : List ℕ → Option ℕ → Call B Page
  pub patience : ℕ

pub data SnapshotState : Type 0 where
  creating ready deleting : SnapshotState

pub record SnapshotManifest : Type 0 where
  pub id : List ℕ
  pub created_at_unix : ℕ
  pub parent : Option (List ℕ)
  pub source_volume : List ℕ
  pub capacity_bytes : ℕ
  pub chunk_size : ℕ
  pub block_size : ℕ
  pub compression : Compression
  pub chunk_count : ℕ
  pub chunks_object : String
  pub hash_algo : String
  pub state : SnapshotState
  pub format_version : ℕ

pub record Libraries : Type 0 where
  pub codecs : Codecs
  pub hash : List ℕ → List ℕ
  pub meta_to_json : VolumeMeta → Result (List ℕ)
  pub meta_from_json : List ℕ → Result VolumeMeta
  pub manifest_to_json : SnapshotManifest → Result (List ℕ)
  pub manifest_from_json : List ℕ → Result SnapshotManifest

-- The store, with the bucket that its client acts on.
pub record S3ChunkStore (B : Type 0) : Type 0 where
  pub bucket : B
  pub prefix : List ℕ
  pub block_size : ℕ
  pub chunk_size : ℕ
  pub compression : Compression
  pub storage : StorageMode
  pub capacity : ℕ

abbrev pub on_bucket : {A B : Type 0} → Exec B A → Exec (S3ChunkStore B) A
on_bucket op s = let (r, bucket) = op s.bucket in (r, record s { bucket = bucket })
