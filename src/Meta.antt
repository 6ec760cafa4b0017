-- ===== src/Meta.antt =====
-- src/store/s3.rs: `VolumeMeta`, a volume's stored geometry, and `plan_capacity`, which decides
-- on open the capacity in effect and whether the meta object is written again.
-- src/storage_mode.rs: `StorageMode`.
use iscsi_s.Prelude.{
  ℕ, ◌≤◌, ◌≡◌, refl, Bool, true, false, Option, none, some, not, arith, ltb, nat_beq, if◌then◌else◌,
}
use iscsi_s.Result.{geometry_mismatch, shrink_refused, Result, ok, err}
use iscsi_s.Compression.{lz4, zstd, deflate, Compression, same_algo}

pub data StorageMode : Type 0 where
  legacy cow : StorageMode

abbrev pub supports_snapshots : StorageMode → Bool
supports_snapshots legacy = false
supports_snapshots cow = true

abbrev pub same_mode : StorageMode → StorageMode → Bool
same_mode legacy legacy = true
same_mode cow cow = true
same_mode _ _ = false

pub record VolumeMeta : Type 0 where
  pub version : ℕ
  pub capacity_bytes : ℕ
  pub chunk_size : ℕ
  pub block_size : ℕ
  pub compression : Compression
  pub storage : StorageMode

abbrev pub meta_version : ℕ
meta_version = 1

same_algo-eq : (a b : Compression) → same_algo a b ≡ true → a ≡ b
same_algo-eq Compression.none Compression.none h = refl
same_algo-eq Compression.none lz4 h = cc
same_algo-eq Compression.none zstd h = cc
same_algo-eq Compression.none deflate h = cc
same_algo-eq lz4 Compression.none h = cc
same_algo-eq lz4 lz4 h = refl
same_algo-eq lz4 zstd h = cc
same_algo-eq lz4 deflate h = cc
same_algo-eq zstd Compression.none h = cc
same_algo-eq zstd lz4 h = cc
same_algo-eq zstd zstd h = refl
same_algo-eq zstd deflate h = cc
same_algo-eq deflate Compression.none h = cc
same_algo-eq deflate lz4 h = cc
same_algo-eq deflate zstd h = cc
same_algo-eq deflate deflate h = refl

same_mode-eq : (a b : StorageMode) → same_mode a b ≡ true → a ≡ b
same_mode-eq legacy legacy h = refl
same_mode-eq legacy cow h = cc
same_mode-eq cow legacy h = cc
same_mode-eq cow cow h = refl

module _ (config_capacity chunk_size block_size : ℕ) (compression : Compression)
    (storage : StorageMode) where
  abbrev pub fresh : VolumeMeta
  fresh = record {
    version = meta_version;
    capacity_bytes = config_capacity;
    chunk_size = chunk_size;
    block_size = block_size;
    compression = compression;
    storage = storage;
  }

  unfoldable pub plan_capacity : Option VolumeMeta → Result (ℕ × Option VolumeMeta)
  plan_capacity none = ok (config_capacity, some fresh)
  plan_capacity (some meta) =
      if not (nat_beq meta.chunk_size chunk_size)
      then err (geometry_mismatch "chunk_size config != meta")
      else if not (nat_beq meta.block_size block_size)
      then err (geometry_mismatch "block_size config != meta")
      else if not (same_algo meta.compression compression)
      then err (geometry_mismatch "compression config != meta")
      else if not (same_mode meta.storage storage)
      then err (geometry_mismatch "storage config != meta")
      else if ltb config_capacity meta.capacity_bytes
      then err (shrink_refused meta.capacity_bytes config_capacity)
      else if ltb meta.capacity_bytes config_capacity
      then ok (config_capacity, some (record meta { capacity_bytes = config_capacity }))
      else ok (meta.capacity_bytes, none)

  -- The meta object after the plan is carried out.
  abbrev pub after : VolumeMeta → Option VolumeMeta → VolumeMeta
  after meta none = meta
  after meta (some rewritten) = rewritten

  -- A plan that succeeds for an existing volume never shrinks it and has the configured capacity
  -- in effect; the meta object afterwards has that capacity, the version it had, and the
  -- configured chunk size, block size, compression and storage, which are those it had.
  pub plan_capacity-ok :
      (meta : VolumeMeta) {capacity : ℕ} {rewritten : Option VolumeMeta}
      → plan_capacity (some meta) ≡ ok (capacity, rewritten)
      → (meta.capacity_bytes ≤ config_capacity)
        × (capacity ≡ config_capacity)
        × (after meta rewritten ≡ record fresh { version = meta.version })
        × (meta.chunk_size ≡ chunk_size)
        × (meta.block_size ≡ block_size)
        × (meta.compression ≡ compression)
        × (meta.storage ≡ storage)
  unfolding plan_capacity
  plan_capacity-ok meta h = (
    ground arith,
    ground arith,
    ground (arith, same_algo-eq meta.compression compression, same_mode-eq meta.storage storage),
    ground arith,
    ground arith,
    ground (arith, same_algo-eq meta.compression compression),
    ground (arith, same_mode-eq meta.storage storage),
  )

  same_algo_self : (algo : Compression) → same_algo algo algo ≡ true
  same_algo_self Compression.none = refl
  same_algo_self Compression.lz4 = refl
  same_algo_self Compression.zstd = refl
  same_algo_self Compression.deflate = refl

  same_mode_self : (mode : StorageMode) → same_mode mode mode ≡ true
  same_mode_self legacy = refl
  same_mode_self cow = refl

  -- A new volume gets the configured capacity and geometry; opened again with the same
  -- configuration it has the same capacity, and its meta object is not written again.
  pub plan_capacity-fresh :
      plan_capacity none ≡ ok (config_capacity, some fresh)
      × (plan_capacity (some fresh) ≡ ok (config_capacity, none))
  unfolding plan_capacity
  plan_capacity-fresh = (refl, ground (arith, same_algo_self compression, same_mode_self storage))
