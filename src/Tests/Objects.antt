-- ===== src/Tests/Objects.antt =====
-- Runs of src/store/s3.rs on a bucket that is a map, of a copy-on-write volume of 16 bytes in
-- chunks of 4.
use iscsi_s.Store.{u64_size}
use iscsi_s.Prelude.{
  ℕ, ◌≡◌, refl, inr, Bool, true, false, Option, some, List, [], ◌∷◌, get_or, replicate, arith,
  if◌then◌else◌, get_or-replicate, ltb, ◌/◌, ◌%◌,
}
use iscsi_s.Compression
use iscsi_s.HashMap.{lookup}
use iscsi_s.Result.{ok}
use iscsi_s.Meta.{cow}
use iscsi_s.Store.Laws.{Writes}
use iscsi_s.S3.{S3ChunkStore}
use iscsi_s.S3.Keys
use iscsi_s.S3.Names.{index-shard}
use iscsi_s.S3.Disk.{s3_store, read_at, write_at}
use iscsi_s.S3.Chunks.{put_chunk}
use iscsi_s.S3.Sound.{IsSound}
use iscsi_s.S3.Puts.{Puts}
use iscsi_s.S3.ChunkPuts.{put_chunk_lem}
use iscsi_s.S3.Volume.{IsValid, content}
use iscsi_s.S3.Writes.{s3_write_at-Writes, CoversWrite}
use iscsi_s.S3.ReadAfterWrite.{read_at-write_at}
use iscsi_s.Result.{Result}
use iscsi_s.Tests.Formats.{copies-IsLossless}
use iscsi_s.Tests.Bucket.{
  Bucket, bodies, map_client, map_client-IsBucket, nothing_in_flight, libraries, IsShort,
  libraries-IsContentHash, four-Covers,
}

-- The volume "v", of storage cow, with nothing in its bucket.
abbrev pub empty : S3ChunkStore Bucket
empty = record {
  bucket = [];
  prefix = b'v' ∷ [];
  block_size = 2;
  chunk_size = 4;
  compression = Compression.none;
  storage = cow;
  capacity = 16;
}

empty-IsSound : IsSound map_client libraries IsShort empty (bodies empty.bucket)
unfolding lookup
empty-IsSound = record {
  addressed = λ hash body long e. cc;
  backed = λ j pointer hash small e d. cc;
}

pub empty-IsValid : IsValid map_client libraries bodies map_client-IsBucket IsShort empty
unfolding lookup
empty-IsValid = record {
  chunk_pos = omega arith;
  chunk_small = omega arith;
  small = omega arith;
  hashed = inr libraries-IsContentHash;
  quiet = nothing_in_flight [];
  sound = empty-IsSound;
  beyond = λ p past. zeros (ltb (p / 4) u64_size) (p % 4);
}
  where
    zeros : (t : Bool) (i : ℕ) → get_or (if t then replicate {A = ℕ} 4 0 else []) i 0 ≡ 0
    zeros true i = get_or-replicate {A = ℕ} 4 i 0
    zeros false i = refl

abbrev pub new_chunk : List ℕ
new_chunk = 7 ∷ 8 ∷ 9 ∷ 10 ∷ []

index-shard_example : Keys.index_from_chunk_relpath (Keys.shard_chunk_index 26) ≡ some 26
index-shard_example = index-shard 26 (omega arith)

put_chunk_example :
    Puts map_client libraries bodies map_client-IsBucket IsShort cow 2 new_chunk empty
      (bodies [])
      (put_chunk map_client libraries 2 new_chunk Option.none empty)
put_chunk_example =
    put_chunk_lem map_client libraries bodies map_client-IsBucket IsShort copies-IsLossless empty
      (inr libraries-IsContentHash) (omega arith) empty-IsSound (nothing_in_flight []) 2
      (omega arith) new_chunk (four-Covers 7 8 9 10) Option.none

empty-CoversWrite :
    CoversWrite map_client libraries bodies map_client-IsBucket IsShort copies-IsLossless empty 3
      new_chunk
empty-CoversWrite written idx = four-Covers _ _ _ _

s3_write_at-Writes_example :
    Writes
      (s3_store map_client libraries)
      (IsValid map_client libraries bodies map_client-IsBucket IsShort)
      (content map_client libraries bodies map_client-IsBucket IsShort)
      empty
      3
      new_chunk
      (write_at map_client libraries 3 new_chunk empty)
s3_write_at-Writes_example =
    s3_write_at-Writes map_client libraries bodies map_client-IsBucket IsShort copies-IsLossless
      empty 3 new_chunk empty-IsValid empty-CoversWrite

abbrev s3_written : Result (Unit {0}) × S3ChunkStore Bucket
s3_written = write_at map_client libraries 3 new_chunk empty

abbrev s3_read : Result (List ℕ) × S3ChunkStore Bucket
s3_read = read_at map_client libraries 3 (replicate 4 0) s3_written.1

s3_written_ok : s3_written ≡ (ok tt, s3_written.1)
unfolding iscsi_s.Device.read iscsi_s.Device.write iscsi_s.CachedStore.new
    iscsi_s.CachedStore.load_miss iscsi_s.CachedStore.load_chunk iscsi_s.CachedStore.read_at
    iscsi_s.CachedStore.write_at iscsi_s.ChunkCache.new iscsi_s.ChunkCache.oldest
    iscsi_s.ChunkCache.evict iscsi_s.ChunkCache.get iscsi_s.ChunkCache.put
    iscsi_s.ChunkCache.invalidate iscsi_s.ChunkCache.removed_bytes iscsi_s.Store.check_range
    iscsi_s.Pieces.for_pieces iscsi_s.HashMap.lookup iscsi_s.HashMap.remove
    iscsi_s.S3.Disk.read_piece iscsi_s.S3.Disk.read_at iscsi_s.S3.Disk.load_piece
    iscsi_s.S3.Disk.cas_loop iscsi_s.S3.Disk.write_piece iscsi_s.S3.Disk.write_at
    iscsi_s.S3.Chunks.is_precondition_failed iscsi_s.S3.Chunks.get_legacy_chunk
    iscsi_s.S3.Chunks.get_cow_chunk iscsi_s.S3.Chunks.get_chunk iscsi_s.S3.Chunks.put_legacy_chunk
    iscsi_s.S3.Chunks.put_cow_chunk iscsi_s.S3.Chunks.put_body iscsi_s.S3.Chunks.put_chunk
    iscsi_s.S3.Chunks.read_pointer_hash iscsi_s.S3.Chunks.put_pointer iscsi_s.S3.Objects.is_missing
    iscsi_s.S3.Objects.get_bytes iscsi_s.S3.Objects.put_bytes iscsi_s.S3.Keys.shard_chunk_index
    iscsi_s.Compression.encode_chunk iscsi_s.Compression.decode_chunk
    iscsi_s.Compression.open_envelope iscsi_s.Compression.compress iscsi_s.Compression.decompress
    iscsi_s.Snapshot.encode_pointer iscsi_s.Snapshot.decode_pointer iscsi_s.Prelude.hex
    iscsi_s.Snapshot.Names.object_relpath iscsi_s.Snapshot.Names.shard_object_name
    iscsi_s.Snapshot.Names.hash_hex iscsi_s.S3.Objects.delete_object_key
s3_written_ok = refl

s3_read_ok : s3_read ≡ (ok new_chunk, s3_read.1)
unfolding iscsi_s.Device.read iscsi_s.Device.write iscsi_s.CachedStore.new
    iscsi_s.CachedStore.load_miss iscsi_s.CachedStore.load_chunk iscsi_s.CachedStore.read_at
    iscsi_s.CachedStore.write_at iscsi_s.ChunkCache.new iscsi_s.ChunkCache.oldest
    iscsi_s.ChunkCache.evict iscsi_s.ChunkCache.get iscsi_s.ChunkCache.put
    iscsi_s.ChunkCache.invalidate iscsi_s.ChunkCache.removed_bytes iscsi_s.Store.check_range
    iscsi_s.Pieces.for_pieces iscsi_s.HashMap.lookup iscsi_s.HashMap.remove
    iscsi_s.S3.Disk.read_piece iscsi_s.S3.Disk.read_at iscsi_s.S3.Disk.load_piece
    iscsi_s.S3.Disk.cas_loop iscsi_s.S3.Disk.write_piece iscsi_s.S3.Disk.write_at
    iscsi_s.S3.Chunks.is_precondition_failed iscsi_s.S3.Chunks.get_legacy_chunk
    iscsi_s.S3.Chunks.get_cow_chunk iscsi_s.S3.Chunks.get_chunk iscsi_s.S3.Chunks.put_legacy_chunk
    iscsi_s.S3.Chunks.put_cow_chunk iscsi_s.S3.Chunks.put_body iscsi_s.S3.Chunks.put_chunk
    iscsi_s.S3.Chunks.read_pointer_hash iscsi_s.S3.Chunks.put_pointer iscsi_s.S3.Objects.is_missing
    iscsi_s.S3.Objects.get_bytes iscsi_s.S3.Objects.put_bytes iscsi_s.S3.Keys.shard_chunk_index
    iscsi_s.Compression.encode_chunk iscsi_s.Compression.decode_chunk
    iscsi_s.Compression.open_envelope iscsi_s.Compression.compress iscsi_s.Compression.decompress
    iscsi_s.Snapshot.encode_pointer iscsi_s.Snapshot.decode_pointer iscsi_s.Prelude.hex
    iscsi_s.Snapshot.Names.object_relpath iscsi_s.Snapshot.Names.shard_object_name
    iscsi_s.Snapshot.Names.hash_hex iscsi_s.S3.Objects.delete_object_key
s3_read_ok = refl

read_at-write_at_example : new_chunk ≡ new_chunk
read_at-write_at_example =
    read_at-write_at map_client libraries bodies map_client-IsBucket IsShort copies-IsLossless empty
      s3_written.1 s3_read.1 3 new_chunk (replicate 4 0) empty-IsValid empty-CoversWrite refl
      s3_written_ok s3_read_ok
