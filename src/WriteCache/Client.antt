-- ===== src/WriteCache/Client.antt =====
-- src/write_cache.rs, the operations of `WriteCachedStore`. The calls of clients do not overlap: each
-- finds `exclusive` unset and no other writer. The worker runs between them, and where a call waits.
use iscsi_s.Prelude.{
  ℕ, ◌+◌, ◌-◌, Bool, true, false, Option, none, some, List, [], ◌∷◌, ◌++◌, length, map, slice,
  copy_at, if◌then◌else◌,
}
use iscsi_s.Result.{ok, Exec, and_then}
use iscsi_s.Pieces.{for_pieces}
use iscsi_s.Store.{BlockStore, Reading, check_range, finish_read}
use iscsi_s.Store.Laws.{contains}
use iscsi_s.Memory.{sort}
use iscsi_s.WriteCache.{BufferRt, Core, Ctl, Job, is_none}
use iscsi_s.WriteCache.Dirty
use iscsi_s.WriteCache.Buffer
use iscsi_s.WriteCache.Chunks.{
  lookup, on_inner, load_for_write, persist, remove_file, write_snapshot, take_all_jobs, set_state,
}
use iscsi_s.WriteCache.Thread.{run_worker}
use iscsi_s.WriteCache.Evict.{evict_direct, evict_into_buffer}
use iscsi_s.WriteCache.Files.{FileSystem}

abbrev dropped : ℕ → Option BufferRt → Option BufferRt
dropped idx none = none
dropped idx (some b) = some (set_state b (Buffer.remove idx b.state))

module _ {S D : Type 0} where
  abbrev pub with_ctl : (Ctl → Ctl) → Core S D → Core S D
  with_ctl f c = record c { ctl = f c.ctl }

  -- `begin_write`, and the drop of its hold when the call returns.
  abbrev pub held : {A : Type 0} → Exec (Core S D) A → Exec (Core S D) A
  held op c =
      let (r, c') = op (with_ctl (λ t. record t { writers = t.writers + 1 }) c) in
      (r, with_ctl (λ t. record t { writers = t.writers - 1 }) c')

  abbrev pub with_exclusive : {A : Type 0} → Exec (Core S D) A → Exec (Core S D) A
  with_exclusive op c =
      let (r, c') = op (with_ctl (λ t. record t { exclusive = true }) c) in
      (r, with_ctl (λ t. record t { exclusive = false }) c')

  abbrev pub resume_worker : Core S D → Core S D
  resume_worker = with_ctl (λ t. record t { pause = false })

  abbrev pub dirty_count : Core S D → ℕ
  dirty_count c = if is_none c.mode then 0 else length c.dirty.chunks

  abbrev pub dirty_bytes : Core S D → ℕ
  dirty_bytes c = if is_none c.mode then 0 else c.dirty.used_bytes

  abbrev pub buffer_bytes : Core S D → ℕ
  buffer_bytes c = elim c.buffer [ none ↦ 0 | some b ↦ b.state.used_bytes ]

  abbrev pub buffer_chunks : Core S D → ℕ
  buffer_chunks c = elim c.buffer [ none ↦ 0 | some b ↦ length b.state.chunks ]

  abbrev pub buffer_max_bytes : Core S D → ℕ
  buffer_max_bytes c = elim c.buffer [ none ↦ 0 | some b ↦ b.max_bytes ]

  abbrev inflight_is : ℕ → Core S D → Bool
  inflight_is idx c = elim c.buffer [ none ↦ false | some b ↦ Buffer.inflight_is idx b.state ]

  abbrev pub drop_cached : ℕ → Core S D → Core S D
  drop_cached idx c = record c { dirty = Dirty.remove idx c.dirty; buffer = dropped idx c.buffer }

-- `if !idxs.contains(idx) { idxs.push(*idx) }` for each key.
abbrev pub push_missing : List ℕ → List ℕ → List ℕ
push_missing idxs [] = idxs
push_missing idxs (k ∷ ks) = push_missing (if contains idxs k then idxs else idxs ++ (k ∷ [])) ks

abbrev queued_keys : Option BufferRt → List ℕ
queued_keys none = []
queued_keys (some b) = map (λ e. e.0) b.state.chunks

module _ {S D : Type 0} (ops : BlockStore S) (fs : FileSystem D) where
  -- `while !parked { wait }`: two steps bring a worker that runs to its place.
  unfoldable pub pause_worker : Core S D → Core S D
  pause_worker c = elim c.buffer [
    | none ↦ c
    | some _ ↦ run_worker ops fs 2 (with_ctl (λ t. record t { pause = true }) c)
  ]

  -- The wait while the chunk is in flight ends within two steps of the worker too.
  unfoldable pub remove_cached : ℕ → Core S D → Core S D
  remove_cached idx c = drop_cached idx (if inflight_is idx c then run_worker ops fs 2 c else c)

  unfoldable pub write_jobs : List Job → Exec (Core S D) (Unit {0})
  write_jobs [] c = (ok tt, c)
  write_jobs (job ∷ jobs) c = and_then (write_snapshot ops fs job c) λ _ c. write_jobs jobs c

  unfoldable pub remove_files : List Job → Exec (Core S D) (Unit {0})
  remove_files [] c = (ok tt, c)
  remove_files (job ∷ jobs) c = and_then (remove_file fs job.idx c) λ _ c. remove_files jobs c

  -- What `flush` and `discard_dirty` run while they hold the volume: an error skips `resume_worker`.
  unfoldable pub with_all_jobs :
      (List Job → Exec (Core S D) (Unit {0})) → Exec (Core S D) (Unit {0})
  unfolding pause_worker
  with_all_jobs op c =
      let (jobs, c') = take_all_jobs (pause_worker c) in
      and_then (op jobs c') λ _ c. (ok tt, resume_worker c)

  unfoldable pub flush : Exec (Core S D) (Unit {0})
  unfolding with_all_jobs write_jobs
  flush c =
      if is_none c.mode
      then on_inner ops.flush c
      else and_then (with_exclusive (with_all_jobs write_jobs) c) λ _ c. on_inner ops.flush c

  unfoldable pub discard_dirty : Exec (Core S D) (Unit {0})
  unfolding with_all_jobs remove_files
  discard_dirty c =
      if is_none c.mode then (ok tt, c) else with_exclusive (with_all_jobs remove_files) c

  unfoldable pub read_piece : ℕ → ℕ → ℕ → ℕ → ℕ → Exec (Reading (Core S D)) (Unit {0})
  read_piece offset idx within taken done r = elim (lookup idx r.store) [
    | some chunk ↦ (ok tt, record r { buf = copy_at r.buf done (slice chunk within taken) })
    | none ↦
        let (piece, c) = on_inner (ops.read_at (offset + done) (slice r.buf done taken)) r.store in
        and_then (piece, record r { store = c })
          λ filled r. (ok tt, record r { buf = copy_at r.buf done filled })
  ]

  unfoldable pub read_at : ℕ → List ℕ → Exec (Core S D) (List ℕ)
  unfolding read_piece
  read_at offset buf c =
      if is_none c.mode
      then on_inner (ops.read_at offset buf) c
      else and_then (check_range (ops.capacity c.inner) offset (length buf), c)
          λ _ c. finish_read (
            for_pieces (length buf) (ops.chunk_size c.inner) offset (length buf) 0
              (read_piece offset) (record { store = c; buf = buf }))

  unfoldable pub write_piece : List ℕ → ℕ → ℕ → ℕ → ℕ → Exec (Core S D) (Unit {0})
  write_piece bytes idx within taken done c = and_then (load_for_write ops idx c) λ loaded c.
      let chunk = copy_at loaded within (slice bytes done taken) in
      and_then (persist fs idx chunk c)
        λ _ c. (ok tt, record c { dirty = Dirty.insert c.now idx chunk c.dirty })

  unfoldable pub evict : ℕ → Exec (Core S D) (Unit {0})
  unfolding evict_direct evict_into_buffer
  evict patience c = elim c.buffer [
    | none ↦ evict_direct ops fs c
    | some _ ↦ evict_into_buffer ops fs patience c
  ]

  unfoldable pub write_at : ℕ → ℕ → List ℕ → Exec (Core S D) (Unit {0})
  unfolding write_piece evict
  write_at patience offset bytes c =
      if is_none c.mode
      then on_inner (ops.write_at offset bytes) c
      else held
          (λ c.
            and_then (check_range (ops.capacity c.inner) offset (length bytes), c)
              λ _ c.
                and_then
                  (for_pieces (length bytes) (ops.chunk_size c.inner) offset (length bytes) 0
                    (write_piece bytes) c)
                  λ _ c. evict patience c)
          c

  unfoldable pub set_capacity : ℕ → Exec (Core S D) (Unit {0})
  unfolding flush
  set_capacity new_capacity c = and_then (flush c) λ _ c. on_inner (ops.set_capacity new_capacity) c

  unfoldable pub present_chunks : Exec (Core S D) (List ℕ)
  present_chunks c = and_then (on_inner ops.present_chunks c) λ idxs c.
      if is_none c.mode then (ok idxs, c) else (
        ok (
            sort (
              push_missing (push_missing idxs (map (λ e. e.0) c.dirty.chunks))
                (queued_keys c.buffer))),
        c,
      )

  unfoldable pub delete_chunk : ℕ → Exec (Core S D) (Unit {0})
  unfolding remove_cached
  delete_chunk idx c =
      if is_none c.mode
      then on_inner (ops.delete_chunk idx) c
      else and_then (remove_file fs idx (remove_cached idx c))
          λ _ c. on_inner (ops.delete_chunk idx) c

  -- `stop_worker`, which joins the thread, and `Drop`, which flushes first and only logs an error.
  abbrev pub stop_worker : Core S D → Core S D
  stop_worker c = run_worker ops fs 3 (with_ctl (λ t. record t { stop = true; pause = false }) c)

  unfoldable pub drop_store : Core S D → Core S D
  unfolding flush
  drop_store c = if is_none c.mode then c else stop_worker (flush c).1
