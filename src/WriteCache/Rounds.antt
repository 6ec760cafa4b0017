-- ===== src/WriteCache/Rounds.antt =====
-- src/write_cache.rs, `run_worker`: its steps, whether its writes to the inner store succeed or fail.
use native.Mathlib.Decide.{dec_lt}
use iscsi_s.Prelude.{
  inl, inr, Option-cases, subst, ℕ, zero, suc, ◌*◌, ◌/◌, ◌%◌, ◌≡◌, ◌≢◌, refl, sym, ap, ◌∙◌, true,
  false, not, ◌&&◌, ◌||◌, Option, none, some, arith, if◌then◌else◌, get_or, tabulate,
  get_or-tabulate, if_rule, Option_rule, mod_bound,
}
use iscsi_s.Prelude.Eq.{nat_eq}
use iscsi_s.Result.{Result, ok, err}
use iscsi_s.HashMap
use iscsi_s.Store.{BlockStore}
use iscsi_s.Store.Laws.{IsBlockStore}
use iscsi_s.WriteCache.{
  Core, Ctl, BufferRt, BufState, Job, Worker, at_top, parked, stopped, holding, written_back,
}
use iscsi_s.WriteCache.Dirty
use iscsi_s.WriteCache.Buffer
use iscsi_s.WriteCache.Files.{FileSystem}
use iscsi_s.WriteCache.Chunks.{
  lookup, buffered, set_state, write_chunk, remove_file, contains_dirty,
}
use iscsi_s.WriteCache.Thread.{
  next_job, front_job, clear_inflight, dequeue, dequeued, finish_put, top_step, worker_step,
  step_from, run_worker, after_next, after_put, idle,
}
use iscsi_s.WriteCache.Puts.{FailsWithin, Put, write_chunk-Put, inside_chunk}
use iscsi_s.WriteCache.View.{Holds, Holds-relookup, Holds-put, Holds-drop, Flies, Flying, Settled}
use iscsi_s.WriteCache.Queue.{
  queue-clear_inflight, queue-dequeue, queue-dequeue_failed, front_job-eq,
}
use iscsi_s.WriteCache.Steps.{handoff_quiet-Holds}

module _ {S D : Type 0} (ops : BlockStore S) (IsValid : S → Type 0) (content : S → ℕ → ℕ)
    (f : ℕ → ℕ) where
  -- A queue with the same chunks.
  requeued-Holds :
      (c : Core S D) (b : BufferRt) (state : BufState) (worker : Worker)
      → c.buffer ≡ some b
      → state.chunks ≡ b.state.chunks
      → Holds ops IsValid content f c
      → Flying ops IsValid content worker f
          (record c { buffer = some (set_state b state); worker = worker })
      → Holds ops IsValid content f
          (record c { buffer = some (set_state b state); worker = worker })
  requeued-Holds c b state worker e same h flying =
      Holds-relookup ops IsValid content
        (record c { buffer = some (set_state b state); worker = worker }) h refl
        (λ j. ground (arith, ap (buffered j) e, ap (HashMap.lookup j) same))
        (λ j k found. h.sized j k (ap (buffered j) e ∙ (ap (HashMap.lookup j) (sym same) ∙ found)))
        flying

  with_worker-Holds :
      (c : Core S D) (ctl : Ctl) (worker : Worker)
      → Holds ops IsValid content f c
      → Flying ops IsValid content worker f (record c { worker = worker; ctl = ctl })
      → Holds ops IsValid content f (record c { worker = worker; ctl = ctl })
  with_worker-Holds c ctl worker h flying =
      Holds-relookup ops IsValid content (record c { worker = worker; ctl = ctl }) h refl
        (λ j. refl) h.sized flying

  clear_inflight-Holds :
      (idx : ℕ) (c : Core S D)
      → Holds ops IsValid content f c
      → Holds ops IsValid content f (record (clear_inflight idx c) { worker = at_top })
  unfolding clear_inflight
  clear_inflight-Holds idx c h =
      Option_rule (λ (x : Core S D). Holds ops IsValid content f (record x { worker = at_top }))
        c.buffer _ _ (λ _. with_worker-Holds c c.ctl at_top h tt)
        (λ b e.
          requeued-Holds c b (Buffer.clear_inflight idx b.state) at_top e
            (queue-clear_inflight idx b.state) h tt)

  after_next-Holds :
      (c : Core S D)
      → Holds ops IsValid content f c
      → Holds ops IsValid content f (after_next (next_job c))
  unfolding next_job
  after_next-Holds c h =
      Option_rule (λ (r : Option Job × Core S D). Holds ops IsValid content f (after_next r))
        c.buffer _ _ (λ _. handoff_quiet-Holds ops IsValid content f c h)
        λ b e.
          Option_rule (λ (r : Option Job × Core S D). Holds ops IsValid content f (after_next r))
            (front_job b.state) _ _ (λ _. handoff_quiet-Holds ops IsValid content f c h)
            λ job front.
              requeued-Holds c b (record b.state { inflight = some job.idx }) (holding job) e refl h
                (front_job-eq b.state job front, refl)

  top_step-Holds :
      (c : Core S D) → Holds ops IsValid content f c → Holds ops IsValid content f (top_step c)
  unfolding top_step
  top_step-Holds c h =
      if_rule (Holds ops IsValid content f) c.ctl.stop _ _
        (λ _. with_worker-Holds c c.ctl stopped h tt)
        λ _.
          if_rule (Holds ops IsValid content f) c.ctl.pause _ _
            (λ _. with_worker-Holds c _ parked h tt) λ _. after_next-Holds c h

  module _ (laws : IsBlockStore ops IsValid content) (job : Job) (c : Core S D)
      (h : Holds ops IsValid content f c) (flown : Flies job c.buffer) where
    abbrev size : ℕ
    size = ops.chunk_size c.inner

    queued :
        buffered job.idx c.buffer ≡ some (record { bytes = job.bytes; generation = job.generation })
    queued = queued_of c.buffer flown
      where
        queued_of :
            (o : Option BufferRt)
            → Flies job o
            → buffered job.idx o ≡ some (record { bytes = job.bytes; generation = job.generation })
        queued_of none x = absurd x
        queued_of (some b) x = x.0

    found : lookup job.idx c ≢ none
    found k = ground (arith, queued)

    job_bytes : Dirty.get job.idx c.dirty ≡ none → job.bytes ≡ tabulate f (job.idx * size) size
    job_bytes gone = h.cached job.idx job.bytes (ground (arith, queued, gone))

    after_write :
        (w : Result (Unit {0}) × S)
        → Put ops IsValid content job.idx job.bytes c.inner w
        → Holds ops IsValid content f (after_put job (w.0, record c { inner = w.1 }))
    after_write (err e, t) kept =
        Holds-put ops IsValid content job.idx t (written_back job (err e)) h found kept flown
    after_write (ok u, t) (kept, put) =
        Holds-put ops IsValid content job.idx t (written_back job (ok u)) h found kept
          (flown, rw kept.sizes.chunk_size settled)
      where
        settled :
            (p : ℕ) → p / size ≡ job.idx → Dirty.get job.idx c.dirty ≡ none → content t p ≡ f p
        settled p e gone = elim (dec_lt p (ops.capacity c.inner)) [
          | yes lt ↦
              put p e lt
              ∙ (ap (λ l. get_or l (p % size) 0) (job_bytes gone)
                  ∙ (get_or-tabulate f (job.idx * size) size (p % size)
                        (mod_bound p size (laws.chunk_pos c.inner h.inner))
                      ∙ ap f (sym (inside_chunk p job.idx size e))))
          | no ge ↦
              laws.beyond t kept.sizes.valid p (rw kept.sizes.capacity (omega arith))
              ∙ sym (h.zero p (omega arith))
        ]

    -- A put that failed leaves the chunk queued; one that succeeded takes it off.
    dequeued-relooked :
        (b : BufferRt)
        → c.buffer ≡ some b
        → (HashMap.lookup job.idx b.state.chunks
            ≡ some (record { bytes = job.bytes; generation = job.generation }))
        → Settled ops IsValid content job.idx f c
        → Holds ops IsValid content f
            (idle (record c { buffer = some (set_state b (dequeue job true b.state)) }))
    dequeued-relooked b e at settled =
        Holds-drop ops IsValid content job.idx
          (idle (record c { buffer = some (set_state b (dequeue job true b.state)) })) h refl
          (λ j ne. ground (arith, queue-dequeue job j b.state at, ap (buffered j) e))
          (elim (Option-cases (Dirty.get job.idx c.dirty)) [
            | inl gone ↦ inr (
              ground (arith, queue-dequeue job job.idx b.state at, gone),
              λ p k. settled p k gone,
            )
            | inr (bytes, newer) ↦ inl (ground (arith, newer))
          ])
          (λ j k found.
            h.sized j k (ground (arith, queue-dequeue job j b.state at, ap (buffered j) e)))
          tt

  module _ (fs : FileSystem D) (laws : IsBlockStore ops IsValid content)
      (safe : FailsWithin ops IsValid content) where
    idle-Holds :
        (c : Core S D)
        → Holds ops IsValid content f (record c { worker = at_top })
        → Holds ops IsValid content f (idle c)
    idle-Holds c h =
        with_worker-Holds (record c { worker = at_top }) (record c.ctl { putting = false }) at_top h
          tt

    finish_put-Holds :
        (job : Job) (r : Result (Unit {0})) (c : Core S D)
        → Holds ops IsValid content f c
        → Flying ops IsValid content (written_back job r) f c
        → Holds ops IsValid content f (idle (finish_put fs job r c))
    unfolding finish_put
    finish_put-Holds job (err e) c h flown =
        Option_rule (λ (x : Core S D). Holds ops IsValid content f (idle x)) c.buffer _ _
          (λ _. with_worker-Holds c (record c.ctl { putting = false }) at_top h tt)
          (λ b at.
            idle-Holds (record c { buffer = some (set_state b (dequeue job false b.state)) })
              (requeued-Holds c b (dequeue job false b.state) at_top at
                (queue-dequeue_failed job b.state) h tt))
    finish_put-Holds job (ok _) c h (flown, settled) =
        with_files (dequeued job true c) (dequeued-ok c.buffer refl)
      where
        dequeued-ok :
            (o : Option BufferRt)
            → c.buffer ≡ o
            → Holds ops IsValid content f (
                idle (elim o [
                  | none ↦ c
                  | some b ↦ record c { buffer = some (set_state b (dequeue job true b.state)) }
                ]))
        dequeued-ok none at = absurd (subst (Flies job) at flown)
        dequeued-ok (some b) at =
            dequeued-relooked laws job c h flown b at (subst (Flies job) at flown).0 settled

        with_files :
            (c' : Core S D)
            → Holds ops IsValid content f (idle c')
            → Holds ops IsValid content f (
                idle
                  (if not (contains_dirty job.idx c') then (remove_file fs job.idx c').1 else c'))
        with_files c' h' =
            if_rule (λ (x : Core S D). Holds ops IsValid content f (idle x))
              (not (contains_dirty job.idx c')) _ _
              (λ _.
                Holds-relookup ops IsValid content (idle (remove_file fs job.idx c').1) h' refl
                  (λ _. refl) h'.sized tt)
              (λ _. h')

    step_from-Holds :
        (w : Worker) (c : Core S D)
        → c.worker ≡ w
        → Holds ops IsValid content f c
        → Holds ops IsValid content f (step_from ops fs w c)
    unfolding step_from
    step_from-Holds stopped c e h = h
    step_from-Holds at_top c e h = top_step-Holds c h
    step_from-Holds parked c e h =
        if_rule (Holds ops IsValid content f) (c.ctl.pause && not c.ctl.stop) _ _ (λ _. h)
          (λ _. with_worker-Holds c (record c.ctl { parked = false }) at_top h tt)
    step_from-Holds (holding job) c e h =
        let flown : Flies job c.buffer = subst (λ w. Flying ops IsValid content w f c) e h.flying in
        if_rule (Holds ops IsValid content f) (c.ctl.pause || c.ctl.stop) _ _
          (λ _. clear_inflight-Holds job.idx c h)
          (λ _.
            let c₁ = record c { ctl = record c.ctl { putting = true } } in
            let h₁ =
              with_worker-Holds c c₁.ctl c.worker h
                (subst (λ w. Flying ops IsValid content w f c₁) (sym e) flown) in
            after_write laws job c₁ h₁ flown (write_chunk ops job.idx job.bytes c.inner) (
              write_chunk-Put ops IsValid content laws safe c.inner h.inner h.small job.idx
                job.bytes
                (h.sized job.idx (record { bytes = job.bytes; generation = job.generation })
                  (queued laws job c h flown))))
    step_from-Holds (written_back job r) c e h =
        finish_put-Holds job r c h (subst (λ w. Flying ops IsValid content w f c) e h.flying)

    -- Over a lawful inner store whose failed writes leave it valid and stay in their range, any
    -- number of steps of the worker, in whatever state it is and whether its writes succeed or
    -- fail, keeps the disk that clients see.
    pub run_worker-Holds :
        (n : ℕ) (c : Core S D)
        → Holds ops IsValid content f c
        → Holds ops IsValid content f (run_worker ops fs n c)
    unfolding run_worker worker_step
    run_worker-Holds zero c h = h
    run_worker-Holds (suc n) c h =
        run_worker-Holds n (step_from ops fs c.worker c) (step_from-Holds c.worker c refl h)
