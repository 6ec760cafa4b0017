-- ===== src/WriteCache.antt =====
-- src/write_cache.rs: `WriteCachedStore`, the write-back cache of a volume over an inner store: dirty
-- chunks in memory (and in files, in mode `disk`), and behind them a bounded buffer that a worker
-- thread writes to the inner store. The file system is a parameter. `Instant`s are numbers, and the
-- core carries what `Instant::now` returns.
pub mod Dirty
pub mod Buffer
pub mod Files
pub mod Chunks
pub mod Thread
pub mod Evict
pub mod Client
pub mod Lock
pub mod View
pub mod Puts
pub mod Loads
pub mod Flushes
pub mod Jobs
pub mod Durable
pub mod Flushed
pub mod Evicts
pub mod Writes
pub mod Pieces
pub mod Queue
pub mod Steps
pub mod Rounds
use iscsi_s.Prelude.{ℕ, ◌+◌, ◌-◌, ◌^◌, Bool, Option, List, min, String}
use iscsi_s.Result.{Result, Exec}
use iscsi_s.HashMap.{HashMap}

pub data WriteCacheMode : Type 0 where
  none memory disk : WriteCacheMode

abbrev pub is_none : WriteCacheMode → Bool
is_none WriteCacheMode.none = Bool.true
is_none WriteCacheMode.memory = Bool.false
is_none WriteCacheMode.disk = Bool.false

pub record BufferedChunk : Type 0 where
  pub bytes : List ℕ
  pub generation : ℕ

pub record Job : Type 0 where
  pub idx : ℕ
  pub bytes : List ℕ
  pub generation : ℕ

-- `order` lists the queue from its front.
pub record BufState : Type 0 where
  pub chunks : HashMap ℕ BufferedChunk
  pub order : List ℕ
  pub used_bytes : ℕ
  pub inflight : Option ℕ

pub record BufferRt : Type 0 where
  pub max_bytes : ℕ
  pub state : BufState

pub record Ctl : Type 0 where
  pub pause : Bool
  pub stop : Bool
  pub putting : Bool
  pub parked : Bool
  pub exclusive : Bool
  pub writers : ℕ

pub record DirtyChunk : Type 0 where
  pub bytes : List ℕ
  pub tick : ℕ
  pub written_at : ℕ

pub record DirtyState : Type 0 where
  pub chunks : HashMap ℕ DirtyChunk
  pub tick : ℕ
  pub used_bytes : ℕ

-- Where the worker thread stands between two of its locked regions: at the top of its loop, with a job
-- taken, after the inner write of a job, or waiting while it is paused. `stopped` is its return.
pub data Worker : Type 0 where
  at_top parked stopped : Worker
  holding : Job → Worker
  written_back : Job → Result (Unit {0}) → Worker

-- `Core`, with the inner store, the files and the clock it acts on. `disk` is the directory.
pub record Core (S D : Type 0) : Type 0 where
  pub inner : S
  pub mode : WriteCacheMode
  pub disk : Option (List ℕ)
  pub files : D
  pub dirty : DirtyState
  pub cache_max : ℕ
  pub buffer : Option BufferRt
  pub ctl : Ctl
  pub worker : Worker
  pub now : ℕ

abbrev pub saturating_add : ℕ → ℕ → ℕ
saturating_add a b = min (a + b) (2 ^ 64 - 1)
