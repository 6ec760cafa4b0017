-- ===== src/Lib.antt =====
-- iscsi-s3 serves iSCSI volumes from an S3 bucket. The target library calls a SCSI device
-- (src/device.rs), which turns block addresses into byte ranges of a block store; the block store of a
-- volume is a write cache (src/write_cache.rs) over a cached store (src/cache.rs) over the S3 chunk store
-- (src/store/s3.rs), and the chunk cache is one pool that all volumes share. An in-memory store
-- (src/store/memory.rs) has the same trait. Chunks are objects, enveloped by src/compression.rs; a
-- copy-on-write volume holds pointers to content-addressed objects, and a snapshot holds an index of
-- them (src/snapshot.rs).
--
-- The files:
--   Prelude, Prelude/*    native numbers, lists, byte buffers, division, big-endian numbers, equality
--   Result                StoreError and the `?` chains; an operation through `&self` returns its state
--   Pieces                the loop over the pieces of a byte range, chunk by chunk
--   HashMap, HashMap/Sum  a map as an association list, and sums over it
--   Store, Store/Laws     src/store/mod.rs: check_range, the trait, and the specification: a store shows
--                         a flat disk of bytes (IsBlockStore)
--   Memory, Memory/*      src/store/memory.rs
--   ChunkCache, ChunkCache/*    src/cache.rs, the LRU pool ChunkCache
--   CachedStore, CachedStore/*  src/cache.rs, CachedStore over any BlockStore
--   Compression, Compression/RoundTrip  src/compression.rs, over the codecs as parameters
--   Device, Device/*      src/device.rs, over any BlockStore
--   Meta                  plan_capacity and VolumeMeta of src/store/s3.rs, src/storage_mode.rs
--   Snapshot, Snapshot/*  the binary formats and the object names of src/snapshot.rs
--   S3, S3/*              src/store/s3.rs: Keys, Objects (the calls of the client), Chunks, Disk (the
--                         BlockStore), Refs, Snapshots, Gc, Clone, Open (open and the migration); Laws
--                         says what is relied on of the client and the hash, Volume what disk the
--                         objects show, and the other modules hold proofs
--   Admin, Admin/Wipe     src/admin.rs: wipe_volume, over any BlockStore
--   Stack                 the device over the cached store over the S3 store
--   Config, Config/*      Config::validate and resolve_auth of src/config.rs: Auth and Validate are the
--                         code, the other modules hold proofs
--   Identity, Identity/*  src/identity.rs
--   WriteCache, WriteCache/*      src/write_cache.rs: Dirty (DirtyState), Buffer (BufState), Files (the
--                         cache directory), Chunks (Core's operations on a chunk), Thread (run_worker),
--                         Evict, Client and Lock (the operations of WriteCachedStore); View says what disk
--                         clients see, and the other modules hold proofs
--   Tests, Tests/*        runs on small inputs
--
-- Definitions keep the source's names; a loop body is a function of its own (read_piece, write_piece). A
-- mutex or an RwLock makes a call one step, so an operation is a function from a state to a result and
-- the next state. Sizes and offsets are natural numbers; u64 bounds stand where the code tests them
-- (checked_add, checked_mul) or casts (the u32 length of the envelope). Error messages keep their fixed
-- words.
--
-- The worker of the write cache is a thread: it is a function from a state to the next one, a step for
-- each region between two places where it takes or waits for a lock, and its state keeps the place. The
-- client operations run one after the other, and the worker steps where a client waits for it. The
-- calls of std::fs are a parameter.
--
-- The S3 client, the hash, JSON and the compressors are parameters. IsBucket is what is relied on of
-- the client: one writer acts on the bucket; a call touches its own key only; a get that fails with
-- the status 404 finds no object, and a put that fails with 412 writes nothing, while any other
-- failure may or may not have been carried out; and the words by which the code tells these two
-- errors stand only in an error with that status (Tells). A call may be late: run_on_runtime gives
-- it up but does not cancel it. A late put of a chunk, an object or a pointer may be carried out at
-- any time after, over an acknowledged write too; the code returns an error then, and the volume is
-- valid again, and the theorems speak of it, once nothing is in flight. After a late removal of an
-- old key, and after a late put of a meta object, the code or its caller goes on, and there it is
-- relied on that the call is carried out at once or never. IsContentHash stands for collision
-- resistance: of a copy-on-write volume a theorem speaks of a class of bodies, which has the stored
-- objects and those that the operation may store, and supposes that no two of them have one hash. A
-- block store takes any bytes, so that s3-IsBlockStore and the stack above it are of use in the
-- legacy layout, where nothing is supposed of the hash. The stripe locks of the store make the work
-- on a chunk one step. The clock is an argument.
--
-- Fuel: the loop over pieces runs on the length of its range, and each round takes at least one byte
-- when the chunk size is positive; eviction of the chunk cache runs on the number of entries, and each
-- round removes one. `patience` bounds the rounds of the eviction of the write cache; a round that
-- waits for the worker is one step of it. A wait for the worker to park is two steps long. The pages of
-- a listing are bounded by the `patience` of the client, past which the time limit of the source's
-- listings ends them with its error. The compare-and-swap loop has the source's eight attempts.
--
-- A theorem about the write cache that says failed writes stay in their range takes FailsWithin: a write
-- of the inner store that fails leaves it valid, and may change bytes of its own range and no other. The
-- in-memory store does so; a cached store whose inner write fails half-way may hold chunks that no longer
-- agree with the store below, and is then not valid.
--
-- Not modelled: of src/write_cache.rs, `wrap`, the recovery of a directory (load_disk_cache),
-- the metrics, and clients that overlap; of src/store/s3.rs, list_prefix_stats and head_bucket, and
-- other writers of a bucket; of src/config.rs, the layers of file, environment and command
-- line, and the parsing of sizes; the admin server but for wipe_volume, and its tool, metrics,
-- profiling, the daemon, and the vendored target library. A panic of the code (a slice out of range, an allocation that
-- fails, a division by a block size of 0) has no counterpart here.
pub mod Prelude
pub mod Result
pub mod Pieces
pub mod HashMap
pub mod Store
pub mod Memory
pub mod ChunkCache
pub mod CachedStore
pub mod Compression
pub mod Device
pub mod Meta
pub mod Snapshot
pub mod S3
pub mod WriteCache
pub mod Stack
pub mod Identity
pub mod Config
pub mod Admin
pub mod Tests
