-- ===== src/Tests/Stacked.antt =====
-- A volume in the legacy layout on a bucket that is a map, and the stores as they are stacked on it.
use iscsi_s.Prelude.{ℕ, ◌≡◌, refl, inl, List, arith}
use iscsi_s.HashMap.{lookup}
use iscsi_s.Result.{ok}
use iscsi_s.Meta.{legacy}
use iscsi_s.S3.{S3ChunkStore}
use iscsi_s.S3.Disk.{s3_store}
use iscsi_s.S3.Volume.{IsValid, content}
use iscsi_s.S3.IsVolume.{s3-IsBlockStore}
use iscsi_s.Store.{BlockStore}
use iscsi_s.Store.Laws.{IsBlockStore}
use iscsi_s.Device
use iscsi_s.ChunkCache
use iscsi_s.CachedStore
use iscsi_s.CachedStore.{CachedStore, cached_store}
use iscsi_s.CachedStore.New.{new-IsCoherent}
use iscsi_s.Stack.{IsUp, read-new-write}
use iscsi_s.Result.{Result}
use iscsi_s.Tests.Formats.{copies-IsLossless}
use iscsi_s.Tests.Bucket.{
  Bucket, bodies, map_client, map_client-IsBucket, nothing_in_flight, libraries,
}
use iscsi_s.Tests.Objects.{new_chunk, empty, empty-IsValid}

-- The volume in the legacy layout, with nothing in its bucket.
abbrev Every : List ℕ → Type 0
Every body = Unit

abbrev flat : S3ChunkStore Bucket
flat = record empty { storage = legacy }

flat-IsValid : IsValid map_client libraries bodies map_client-IsBucket Every flat
unfolding lookup
flat-IsValid = record {
  chunk_pos = omega arith;
  chunk_small = omega arith;
  small = omega arith;
  hashed = inl refl;
  quiet = nothing_in_flight flat.bucket;
  sound = record { addressed = λ hash body long e. cc; backed = λ j pointer hash small e d. cc };
  beyond = λ p past. empty-IsValid.beyond p past;
}

s3-IsBlockStore_example :
    IsBlockStore
      (s3_store map_client libraries)
      (IsValid map_client libraries bodies map_client-IsBucket Every)
      (content map_client libraries bodies map_client-IsBucket Every)
s3-IsBlockStore_example =
    s3-IsBlockStore map_client libraries bodies map_client-IsBucket Every copies-IsLossless
      (λ body. tt)

-- The volume behind a pool of 8 bytes, before and after a device write, and after a restart.
abbrev stacked : CachedStore (S3ChunkStore Bucket)
stacked = CachedStore.new flat (ChunkCache.new 8) "v"

stacked-IsUp :
    IsUp map_client libraries bodies map_client-IsBucket Every copies-IsLossless
      (λ body. tt)
      stacked
unfolding CachedStore.new
stacked-IsUp =
    new-IsCoherent (s3_store map_client libraries)
      (IsValid map_client libraries bodies map_client-IsBucket Every)
      (content map_client libraries bodies map_client-IsBucket Every) flat 8 "v" flat-IsValid

abbrev both : BlockStore (CachedStore (S3ChunkStore Bucket))
both = cached_store (s3_store map_client libraries)

abbrev acknowledged : Result (Unit {0}) × CachedStore (S3ChunkStore Bucket)
acknowledged = Device.write both 1 new_chunk 2 stacked

abbrev read_again : Result (List ℕ) × CachedStore (S3ChunkStore Bucket)
read_again = Device.read both 1 2 2 (CachedStore.new acknowledged.1.inner (ChunkCache.new 8) "v")

acknowledged_ok : acknowledged ≡ (ok tt, acknowledged.1)
unfolding iscsi_s.Device.read iscsi_s.Device.write iscsi_s.CachedStore.new
    iscsi_s.CachedStore.load_miss iscsi_s.CachedStore.load_chunk iscsi_s.CachedStore.read_at
    iscsi_s.CachedStore.write_at iscsi_s.ChunkCache.new iscsi_s.ChunkCache.oldest
    iscsi_s.ChunkCache.evict iscsi_s.ChunkCache.get iscsi_s.ChunkCache.put
    iscsi_s.ChunkCache.invalidate iscsi_s.ChunkCache.removed_bytes iscsi_s.Store.check_range
    iscsi_s.Pieces.for_pieces iscsi_s.HashMap.lookup iscsi_s.HashMap.remove
    iscsi_s.S3.Disk.read_piece iscsi_s.S3.Disk.read_at iscsi_s.S3.Disk.load_piece
    iscsi_s.S3.Disk.cas_loop iscsi_s.S3.Disk.write_piece iscsi_s.S3.Disk.write_at
    iscsi_s.S3.Chunks.is_precondition_failed iscsi_s.S3.Chunks.get_legacy_chunk
    iscsi_s.S3.Chunks.get_cow_chunk iscsi_s.S3.Chunks.get_chunk iscsi_s.S3.Chunks.put_legacy_chunk
    iscsi_s.S3.Chunks.put_cow_chunk iscsi_s.S3.Chunks.put_body iscsi_s.S3.Chunks.put_chunk
    iscsi_s.S3.Chunks.read_pointer_hash iscsi_s.S3.Chunks.put_pointer iscsi_s.S3.Objects.is_missing
    iscsi_s.S3.Objects.get_bytes iscsi_s.S3.Objects.put_bytes iscsi_s.S3.Keys.shard_chunk_index
    iscsi_s.Compression.encode_chunk iscsi_s.Compression.decode_chunk
    iscsi_s.Compression.open_envelope iscsi_s.Compression.compress iscsi_s.Compression.decompress
    iscsi_s.Snapshot.encode_pointer iscsi_s.Snapshot.decode_pointer iscsi_s.Prelude.hex
    iscsi_s.Snapshot.Names.object_relpath iscsi_s.Snapshot.Names.shard_object_name
    iscsi_s.Snapshot.Names.hash_hex iscsi_s.S3.Objects.delete_object_key
acknowledged_ok = refl

read_again_ok : read_again ≡ (ok new_chunk, read_again.1)
unfolding iscsi_s.Device.read iscsi_s.Device.write iscsi_s.CachedStore.new
    iscsi_s.CachedStore.load_miss iscsi_s.CachedStore.load_chunk iscsi_s.CachedStore.read_at
    iscsi_s.CachedStore.write_at iscsi_s.ChunkCache.new iscsi_s.ChunkCache.oldest
    iscsi_s.ChunkCache.evict iscsi_s.ChunkCache.get iscsi_s.ChunkCache.put
    iscsi_s.ChunkCache.invalidate iscsi_s.ChunkCache.removed_bytes iscsi_s.Store.check_range
    iscsi_s.Pieces.for_pieces iscsi_s.HashMap.lookup iscsi_s.HashMap.remove
    iscsi_s.S3.Disk.read_piece iscsi_s.S3.Disk.read_at iscsi_s.S3.Disk.load_piece
    iscsi_s.S3.Disk.cas_loop iscsi_s.S3.Disk.write_piece iscsi_s.S3.Disk.write_at
    iscsi_s.S3.Chunks.is_precondition_failed iscsi_s.S3.Chunks.get_legacy_chunk
    iscsi_s.S3.Chunks.get_cow_chunk iscsi_s.S3.Chunks.get_chunk iscsi_s.S3.Chunks.put_legacy_chunk
    iscsi_s.S3.Chunks.put_cow_chunk iscsi_s.S3.Chunks.put_body iscsi_s.S3.Chunks.put_chunk
    iscsi_s.S3.Chunks.read_pointer_hash iscsi_s.S3.Chunks.put_pointer iscsi_s.S3.Objects.is_missing
    iscsi_s.S3.Objects.get_bytes iscsi_s.S3.Objects.put_bytes iscsi_s.S3.Keys.shard_chunk_index
    iscsi_s.Compression.encode_chunk iscsi_s.Compression.decode_chunk
    iscsi_s.Compression.open_envelope iscsi_s.Compression.compress iscsi_s.Compression.decompress
    iscsi_s.Snapshot.encode_pointer iscsi_s.Snapshot.decode_pointer iscsi_s.Prelude.hex
    iscsi_s.Snapshot.Names.object_relpath iscsi_s.Snapshot.Names.shard_object_name
    iscsi_s.Snapshot.Names.hash_hex iscsi_s.S3.Objects.delete_object_key
read_again_ok = refl

read-new-write_example : new_chunk ≡ new_chunk
read-new-write_example =
    read-new-write map_client libraries bodies map_client-IsBucket Every copies-IsLossless
      (λ body. tt) stacked acknowledged.1 read_again.1 1 2 2 8 "v" new_chunk stacked-IsUp refl
      acknowledged_ok read_again_ok
