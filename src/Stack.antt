-- ===== src/Stack.antt =====
-- The stores as src/volume.rs stacks them, less the write cache: the device of src/device.rs over
-- `CachedStore` of src/cache.rs over `S3ChunkStore` of src/store/s3.rs.
use iscsi_s.Prelude.{ℕ, ◌*◌, ◌≡◌, List, String, length}
use iscsi_s.Result.{ok}
use iscsi_s.Compression.{IsLossless}
use iscsi_s.Store.{BlockStore}
use iscsi_s.Store.Laws.{IsBlockStore}
use iscsi_s.ChunkCache
use iscsi_s.CachedStore
use iscsi_s.CachedStore.{CachedStore, cached_store}
use iscsi_s.CachedStore.Reads.{IsCoherent, cached_content}
use iscsi_s.CachedStore.IsVolume.{cached-IsBlockStore}
use iscsi_s.CachedStore.New.{new-IsCoherent}
use iscsi_s.Device
use iscsi_s.Device.Laws.{write-Writes}
use iscsi_s.Device.ReadAfterWrite.{read_back}
use iscsi_s.S3.{Client, Libraries, S3ChunkStore}
use iscsi_s.S3.Disk.{s3_store}
use iscsi_s.S3.Laws.{IsBucket, Bodies}
use iscsi_s.S3.Volume.{IsValid, content}
use iscsi_s.S3.IsVolume.{s3-IsBlockStore}

module _ {B : Type 0} (client : Client B) (libs : Libraries) (objects : B → Bodies)
    (laws : IsBucket client objects) (Body : List ℕ → Type 0) (lossless : IsLossless libs.codecs)
    (every : (body : List ℕ) → Body body) where
  abbrev pub stack : BlockStore (CachedStore (S3ChunkStore B))
  stack = cached_store (s3_store client libs)

  abbrev pub IsUp : CachedStore (S3ChunkStore B) → Type 0
  IsUp =
      IsCoherent (s3_store client libs) (IsValid client libs objects laws Body)
        (content client libs objects laws Body)

  abbrev pub disk : CachedStore (S3ChunkStore B) → ℕ → ℕ
  disk =
      cached_content (s3_store client libs) (IsValid client libs objects laws Body)
        (content client libs objects laws Body)

  pub stack-IsBlockStore : IsBlockStore stack IsUp disk
  stack-IsBlockStore =
      cached-IsBlockStore (s3_store client libs) (IsValid client libs objects laws Body)
        (content client libs objects laws Body)
        (s3-IsBlockStore client libs objects laws Body lossless every)

  -- Over a bucket that keeps the promises of S3, where a late removal or put of a meta object is
  -- carried out at once or never, with compressors that give back what they compressed, the
  -- blocks that a device write over the cached store over the S3 store of a valid volume in the
  -- legacy layout was acknowledged for are in the bucket: a read of the same blocks that
  -- succeeds, through a new cached store with an empty pool over the same S3 store, returns the
  -- bytes written. (Of a copy-on-write volume it speaks only under a hash that has no collision
  -- at all.)
  pub read-new-write :
      (c t u : CachedStore (S3ChunkStore B)) (lba blocks block_size max_bytes : ℕ) (name : String)
      (bytes : List ℕ) {buf : List ℕ}
      → IsUp c
      → length bytes ≡ blocks * block_size
      → Device.write stack lba bytes block_size c ≡ (ok tt, t)
      → Device.read stack lba blocks block_size
          (CachedStore.new t.inner (ChunkCache.new max_bytes) name)
        ≡ (ok buf, u)
      → buf ≡ bytes
  unfolding CachedStore.new
  read-new-write c t u lba blocks block_size max_bytes name bytes v whole wrote got =
      let w =
        rw wrote at (write-Writes stack IsUp disk stack-IsBlockStore c v lba block_size bytes) in
      let fresh =
        new-IsCoherent (s3_store client libs) (IsValid client libs objects laws Body)
          (content client libs objects laws Body) t.inner max_bytes name w.0.valid.inner in
      read_back stack IsUp disk stack-IsBlockStore c
        (CachedStore.new t.inner (ChunkCache.new max_bytes) name) u lba blocks block_size bytes
        fresh whole w.0.same.content got
