-- ===== src/WriteCache/Queue.antt =====
-- src/write_cache.rs: what the queue operations do to the chunks that a lookup finds.
use iscsi_s.Prelude.{
  ℕ, ◌≡◌, true, false, none, some, List, arith, if◌then◌else◌, nat_beq, ◌+◌, ◌%◌, ◌^◌,
}
use iscsi_s.Prelude.Eq.{nat_eq}
use iscsi_s.HashMap
use iscsi_s.HashMap.{lookup-remove, lookup-insert}
use iscsi_s.WriteCache.{BufState, DirtyState, Job}
use iscsi_s.WriteCache.Dirty
use iscsi_s.WriteCache.Buffer
use iscsi_s.WriteCache.Thread.{dequeue, front_job}

pub dirty-remove :
    (idx j : ℕ) (s : DirtyState)
    → HashMap.lookup j (Dirty.remove idx s).chunks
      ≡ (if nat_beq idx j then none else HashMap.lookup j s.chunks)
dirty-remove idx j s = ground (arith, lookup-remove idx j s.chunks)

pub dirty-insert :
    (now idx j : ℕ) (bytes : List ℕ) (s : DirtyState)
    → Dirty.get j (Dirty.insert now idx bytes s)
      ≡ (if nat_beq idx j then some bytes else Dirty.get j s)
unfolding Dirty.insert
dirty-insert now idx j bytes s = ground (
  arith,
  lookup-insert idx j (record { bytes = bytes; tick = (s.tick + 1) % 2 ^ 64; written_at = now })
      s.chunks,
)

pub queue-push :
    (idx j generation : ℕ) (bytes : List ℕ) (s : BufState)
    → HashMap.lookup j (Buffer.push idx bytes generation s).chunks ≡ (
        if nat_beq idx j
        then some (record { bytes = bytes; generation = generation })
        else HashMap.lookup j s.chunks)
unfolding Buffer.push
queue-push idx j generation bytes s =
    ground (arith, lookup-insert idx j (record { bytes = bytes; generation = generation }) s.chunks)

pub queue-clear_inflight :
    (idx : ℕ) (s : BufState) → (Buffer.clear_inflight idx s).chunks ≡ s.chunks
queue-clear_inflight idx s = ground arith

pub queue-remove :
    (idx j : ℕ) (s : BufState)
    → HashMap.lookup j (Buffer.remove idx s).chunks
      ≡ (if nat_beq idx j then none else HashMap.lookup j s.chunks)
unfolding Buffer.remove
queue-remove idx j s = ground (arith, lookup-remove idx j s.chunks)

-- A failed put leaves the queue; a put that succeeded takes the chunk off it.
pub queue-dequeue_failed : (job : Job) (s : BufState) → (dequeue job false s).chunks ≡ s.chunks
unfolding dequeue
queue-dequeue_failed job s = queue-clear_inflight job.idx s

pub queue-dequeue :
    (job : Job) (j : ℕ) (s : BufState)
    → (HashMap.lookup job.idx s.chunks
        ≡ some (record { bytes = job.bytes; generation = job.generation }))
    → HashMap.lookup j (dequeue job true s).chunks
      ≡ (if nat_beq job.idx j then none else HashMap.lookup j s.chunks)
unfolding dequeue
queue-dequeue job j s h = ground (
  arith,
  queue-clear_inflight job.idx s,
  queue-remove job.idx j (Buffer.clear_inflight job.idx s),
)

pub front_job-eq :
    (s : BufState) (job : Job)
    → front_job s ≡ some job
    → HashMap.lookup job.idx s.chunks
      ≡ some (record { bytes = job.bytes; generation = job.generation })
front_job-eq s job h = ground arith
