-- ===== src/WriteCache/Thread.antt =====
-- src/write_cache.rs, `Core::run_worker` and what it calls: the thread that writes queued chunks
-- to the inner store. A step of the model is one locked region of the source, or the inner write
-- between two. Its waits on the condition variable are steps that change nothing.
use iscsi_s.Prelude.{
  zero, suc, ℕ, Bool, true, false, ◌&&◌, ◌||◌, not, Option, none, some, [], ◌∷◌, length, ltb,
  nat_beq, if◌then◌else◌, suc, zero,
}
use iscsi_s.Prelude.Eq.{nat_eq}
use iscsi_s.Result.{Result, ok, err}
use iscsi_s.HashMap
use iscsi_s.Store.{BlockStore}
use iscsi_s.WriteCache.{
  BufferedChunk, BufferRt, BufState, Core, Ctl, Job, at_top, parked, stopped, holding, written_back,
  saturating_add, Worker,
}
use iscsi_s.WriteCache.Dirty
use iscsi_s.WriteCache.Buffer
use iscsi_s.WriteCache.Chunks.{write_inner, remove_file, contains_dirty, set_state}
use iscsi_s.WriteCache.Files.{FileSystem}

-- `QUIET`, in the unit of the clock (milliseconds).
abbrev pub quiet : ℕ
quiet = 100

abbrev pub has_chunk : ℕ → BufState → Bool
has_chunk idx s = elim (HashMap.lookup idx s.chunks) [ none ↦ false | some _ ↦ true ]

-- The front of the queue, which stays queued while it is in flight.
abbrev pub front_job : BufState → Option Job
front_job s = elim s.inflight [
  | some _ ↦ none
  | none ↦ elim s.order [
    | [] ↦ none
    | idx ∷ _ ↦ elim (HashMap.lookup idx s.chunks) [
      | none ↦ none
      | some k ↦ some (record { idx = idx; bytes = k.bytes; generation = k.generation })
    ]
  ]
]

abbrev same_generation : Job → Option BufferedChunk → Bool
same_generation job none = false
same_generation job (some k) = nat_beq k.generation job.generation

-- The queue after a put: out of flight, and without the chunk if the put succeeded and the chunk is
-- the one that was put.
unfoldable pub dequeue : Job → Bool → BufState → BufState
dequeue job success s =
    let s' = Buffer.clear_inflight job.idx s in
    if success && same_generation job (HashMap.lookup job.idx s'.chunks)
    then Buffer.remove job.idx s'
    else s'

abbrev pub is_ok : Result (Unit {0}) → Bool
is_ok (ok _) = true
is_ok (err _) = false

module _ {S D : Type 0} where
  -- The common part of `evict_into_buffer` and `handoff_quiet`: the chunk moves to the queue
  -- unless it is queued already or does not fit. The first component says whether it moved.
  unfoldable pub hand_over : BufferRt → ℕ → Core S D → Bool × Core S D
  hand_over b idx c = elim (HashMap.lookup idx c.dirty.chunks) [
    | none ↦ (false, c)
    | some d ↦
        if Buffer.inflight_is idx b.state || has_chunk idx b.state
        then (false, c)
        else if ltb b.max_bytes (saturating_add b.state.used_bytes (length d.bytes))
        then (false, c)
        else (
          true,
          record c {
            dirty = Dirty.remove idx c.dirty;
            buffer = some (set_state b (Buffer.push idx d.bytes d.tick b.state));
          },
        )
  ]

  unfoldable pub handoff_quiet : Core S D → Bool × Core S D
  unfolding hand_over
  handoff_quiet c = elim c.buffer [
    | none ↦ (false, c)
    | some b ↦ elim (Dirty.oldest_quiet c.now quiet c.dirty) [
      | none ↦ (false, c)
      | some idx ↦ hand_over b idx c
    ]
  ]

  unfoldable pub next_job : Core S D → Option Job × Core S D
  next_job c = elim c.buffer [
    | none ↦ (none, c)
    | some b ↦ elim (front_job b.state) [
      | none ↦ (none, c)
      | some job ↦ (
        some job,
        record c { buffer = some (set_state b (record b.state { inflight = some job.idx })) },
      )
    ]
  ]

  unfoldable pub clear_inflight : ℕ → Core S D → Core S D
  clear_inflight idx c = elim c.buffer [
    | none ↦ c
    | some b ↦ record c { buffer = some (set_state b (Buffer.clear_inflight idx b.state)) }
  ]

  abbrev pub dequeued : Job → Bool → Core S D → Core S D
  dequeued job success c = elim c.buffer [
    | none ↦ c
    | some b ↦ record c { buffer = some (set_state b (dequeue job success b.state)) }
  ]

  abbrev pub with_ctl : Ctl → Core S D → Core S D
  with_ctl ctl c = record c { ctl = ctl }

  abbrev pub after_next : Option Job × Core S D → Core S D
  after_next (some job, c) = record c { worker = holding job }
  after_next (none, c) = (handoff_quiet c).1

  -- The region at the top of the loop, then `next_job` or `handoff_quiet`.
  unfoldable pub top_step : Core S D → Core S D
  unfolding handoff_quiet
  top_step c =
      if c.ctl.stop
      then record c { worker = stopped }
      else if c.ctl.pause
      then record c { worker = parked; ctl = record c.ctl { parked = true; putting = false } }
      else after_next (next_job c)

  abbrev pub after_put : Job → Result (Unit {0}) × Core S D → Core S D
  after_put job (result, c) = record c { worker = written_back job result }

  abbrev pub idle : Core S D → Core S D
  idle c = record c { worker = at_top; ctl = record c.ctl { putting = false } }

module _ {S D : Type 0} (fs : FileSystem D) where
  -- `finish_put` after the inner write returned `result`. The worker only logs the error.
  unfoldable pub finish_put : Job → Result (Unit {0}) → Core S D → Core S D
  finish_put job result c =
      let c' = dequeued job (is_ok result) c in
      if is_ok result && not (contains_dirty job.idx c') then (remove_file fs job.idx c').1 else c'

module _ {S D : Type 0} (ops : BlockStore S) (fs : FileSystem D) where
  unfoldable pub step_from : Worker → Core S D → Core S D
  unfolding top_step
  step_from stopped c = c
  step_from at_top c = top_step c
  step_from parked c =
      if c.ctl.pause && not c.ctl.stop
      then c
      else record c { worker = at_top; ctl = record c.ctl { parked = false } }
  step_from (holding job) c =
      if c.ctl.pause || c.ctl.stop
      then record (clear_inflight job.idx c) { worker = at_top }
      else after_put job
          (write_inner ops job.idx job.bytes (with_ctl (record c.ctl { putting = true }) c))
  step_from (written_back job result) c = idle (finish_put fs job result c)

  unfoldable pub worker_step : Core S D → Core S D
  unfolding step_from
  worker_step c = step_from c.worker c

  unfoldable pub run_worker : ℕ → Core S D → Core S D
  run_worker zero c = c
  run_worker (suc n) c = run_worker n (worker_step c)
