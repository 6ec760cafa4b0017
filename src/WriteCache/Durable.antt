-- ===== src/WriteCache/Durable.antt =====
-- src/write_cache.rs, `flush`: the loop that writes the jobs, where it succeeds and where it fails.
use iscsi_s.WriteCache.View.{Flying}
use iscsi_s.Prelude.{
  ℕ, ◌*◌, ◌/◌, ◌%◌, ◌<◌, ◌≤◌, ◌≡◌, sym, ap, ◌∙◌, false, none, List, [], ◌∷◌, length, arith, get_or,
  tabulate, length-tabulate, get_or-tabulate, mod_bound, if_rule, if◌then◌else◌,
}
use native.Mathlib.Decide.{dec_lt, ℕ_discrete}
use iscsi_s.Result.{Result, ok, err, Ends, Ends-and_then, and_then}
use iscsi_s.Store.{BlockStore, u64_size}
use iscsi_s.Store.Laws.{IsBlockStore, contains}
use iscsi_s.WriteCache.{Core, Job}
use iscsi_s.WriteCache.Files.{FileSystem}
use iscsi_s.WriteCache.Chunks.{
  lookup, buffered, write_chunk, write_snapshot, remove_file, contains_dirty,
}
use iscsi_s.WriteCache.Client.{write_jobs}
use iscsi_s.WriteCache.Puts.{FailsWithin, Put, write_chunk-Put, inside_chunk}
use iscsi_s.WriteCache.Jobs.{AllJobs, idxs}

module _ {S D : Type 0} (ops : BlockStore S) (fs : FileSystem D) (IsValid : S → Type 0)
    (content : S → ℕ → ℕ) (laws : IsBlockStore ops IsValid content)
    (safe : FailsWithin ops IsValid content) (f : ℕ → ℕ) where
  abbrev pub IsChunk : ℕ → Job → Type 0
  IsChunk size j = j.bytes ≡ tabulate f (j.idx * size) size

  -- Nothing is cached, and the inner store shows `f` but for the chunks of the jobs.
  pub record Rest (size : ℕ) (jobs : List Job) (c : Core S D) : Type 0 where
    pub valid : IsValid c.inner
    pub small : ops.capacity c.inner < u64_size
    pub chunk_size : ops.chunk_size c.inner ≡ size
    pub zero : (p : ℕ) → ops.capacity c.inner ≤ p → f p ≡ 0
    pub clean : (idx : ℕ) → lookup idx c ≡ none
    pub queue : (idx : ℕ) → buffered idx c.buffer ≡ none
    pub calm : (x : Core S D) → Flying ops IsValid content c.worker f x
    pub shown : (p : ℕ) → contains (idxs jobs) (p / size) ≡ false → content c.inner p ≡ f p

  module _ (size : ℕ) (pos : 0 < size) (job : Job) (jobs : List Job)
      (whole : IsChunk size job) where
    put_shows :
        (s t : S)
        → ops.chunk_size s ≡ size
        → ((p : ℕ) → ops.capacity s ≤ p → (f p ≡ 0) × (content t p ≡ 0))
        → ((p : ℕ) → contains (idxs (job ∷ jobs)) (p / size) ≡ false → content s p ≡ f p)
        → ((p : ℕ) → (p / size ≡ job.idx → ⊥) → content t p ≡ content s p)
        → ((p : ℕ)
            → p / size ≡ job.idx
            → p < ops.capacity s
            → content t p ≡ get_or job.bytes (p % size) 0)
        → (p : ℕ) → contains (idxs jobs) (p / size) ≡ false
        → content t p ≡ f p
    put_shows s t e beyond shown others put p h = elim (ℕ_discrete (p / size) job.idx) [
      | no ne ↦ others p ne ∙ shown p (ground (arith, h))
      | yes at ↦ elim (dec_lt p (ops.capacity s)) [
        | no past ↦ let (z, z') = beyond p (omega arith) in z' ∙ sym z
        | yes lt ↦
            put p at lt
            ∙ (ap (λ l. get_or l (p % size) 0) whole
                ∙ (get_or-tabulate f (job.idx * size) size (p % size) (mod_bound p size pos)
                    ∙ ap f (sym (inside_chunk p job.idx size at))))
      ]
    ]

    after_put :
        (c : Core S D)
        → Rest size (job ∷ jobs) c
        → (w : Result (Unit {0}) × S) → Put ops IsValid content job.idx job.bytes c.inner w
        → Ends
            (λ _. Rest size jobs)
            (λ _ _. Unit)
            (and_then
              (w.0, record c { inner = w.1 })
              λ _ c'. if contains_dirty job.idx c' then (ok tt, c') else remove_file fs job.idx c')
    after_put c r (err e, t) put = tt
    after_put c r (ok _, t) (kept, put) =
        let next : Rest size jobs (record c { inner = t }) = record {
          valid = kept.sizes.valid;
          small = rw kept.sizes.capacity r.small;
          chunk_size = kept.sizes.chunk_size ∙ r.chunk_size;
          zero = rw kept.sizes.capacity r.zero;
          clean = r.clean;
          queue = r.queue;
          calm = r.calm;
          shown =
              put_shows c.inner t r.chunk_size
                (λ p past.
                  (r.zero p past, laws.beyond t kept.sizes.valid p (rw kept.sizes.capacity past)))
                r.shown (rw r.chunk_size at kept.others) (rw r.chunk_size at put);
        } in
        if_rule (Ends (λ _. Rest size jobs) (λ _ _. Unit))
          (contains_dirty job.idx (record c { inner = t })) _ _ (λ _. next)
          (λ _.
            after_remove (record c { inner = t }) next
              (remove_file fs job.idx (record c { inner = t })).0
              (remove_file fs job.idx (record c { inner = t })).1.files)
      where
        after_remove :
            (c' : Core S D)
            → Rest size jobs c'
            → (r' : Result (Unit {0})) (files : D)
            → Ends (λ _. Rest size jobs) (λ _ _. Unit) (r', record c' { files = files })
        after_remove c' next (err e) files = tt
        after_remove c' next (ok _) files = record {
          valid = next.valid;
          small = next.small;
          chunk_size = next.chunk_size;
          zero = next.zero;
          clean = next.clean;
          queue = next.queue;
          calm = next.calm;
          shown = next.shown;
        }

  pub write_jobs-Rest :
      (size : ℕ) (pos : 0 < size) (jobs : List Job) (c : Core S D)
      → AllJobs (IsChunk size) jobs
      → Rest size jobs c
      → Ends (λ _. Rest size []) (λ _ _. Unit) (write_jobs ops fs jobs c)
  unfolding write_jobs write_snapshot
  write_jobs-Rest size pos [] c all r = r
  write_jobs-Rest size pos (job ∷ jobs) c all r =
      Ends-and_then (λ _. Rest size jobs) (λ _. Rest size []) (λ _ _. Unit)
        (write_snapshot ops fs job c) _
        (after_put size pos job jobs all.0 c r (write_chunk ops job.idx job.bytes c.inner) (
          write_chunk-Put ops IsValid content laws safe c.inner r.valid r.small job.idx job.bytes
            (ap length all.0 ∙ (length-tabulate f (job.idx * size) size ∙ sym r.chunk_size))))
        (λ _ c'. write_jobs-Rest size pos jobs c' all.1)
