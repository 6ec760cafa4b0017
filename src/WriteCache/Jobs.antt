-- ===== src/WriteCache/Jobs.antt =====
-- src/write_cache.rs, `take_all_jobs`: its jobs and the chunks that a lookup finds.
use iscsi_s.Prelude.{
  ℕ, ◌≡◌, refl, true, false, Option, none, some, List, [], ◌∷◌, ◌++◌, map, ◌||◌, arith,
  Option-cases, inl, inr, Option_rule, ap,
}
use iscsi_s.Prelude.Eq.{nat_eq}
use iscsi_s.HashMap
use iscsi_s.HashMap.{HashMap}
use iscsi_s.Store.Laws.{contains}
use iscsi_s.WriteCache.{Core, BufferRt, BufferedChunk, DirtyChunk, Job}
use iscsi_s.WriteCache.Dirty
use iscsi_s.WriteCache.Chunks.{
  lookup, buffered, keys, dirty_jobs, buffer_jobs, queued_jobs, take_all_jobs, buffered_bytes,
}

abbrev pub AllJobs : (Job → Type 0) → List Job → Type 0
AllJobs P [] = Unit
AllJobs P (j ∷ js) = P j × AllJobs P js

abbrev pub idxs : List Job → List ℕ
idxs = map (λ (j : Job). j.idx)

AllJobs-append :
    (P : Job → Type 0) (xs ys : List Job) → AllJobs P xs → AllJobs P ys → AllJobs P (xs ++ ys)
AllJobs-append P [] ys a b = b
AllJobs-append P (x ∷ xs) ys a b = (a.0, AllJobs-append P xs ys a.1 b)

pub AllJobs-map :
    (P Q : Job → Type 0) → ((j : Job) → P j → Q j) → (js : List Job) → AllJobs P js → AllJobs Q js
AllJobs-map P Q f [] a = tt
AllJobs-map P Q f (j ∷ js) a = (f j a.0, AllJobs-map P Q f js a.1)

contains-append :
    (xs ys : List Job) (a : ℕ)
    → contains (idxs (xs ++ ys)) a ≡ (contains (idxs xs) a || contains (idxs ys) a)
contains-append [] ys a = refl
contains-append (x ∷ xs) ys a = ground (arith, contains-append xs ys a)

listed :
    {V : Type 0} (k : ℕ) (m : HashMap ℕ V) (v : V)
    → HashMap.lookup k m ≡ some v
    → contains (keys m) k ≡ true
unfolding HashMap.lookup
listed k [] v h = cc
listed k ((j, w) ∷ m) v h = ground (arith, listed k m v)

dirty_jobs-found :
    (m : HashMap ℕ DirtyChunk) (is : List ℕ)
    → AllJobs (λ j. Dirty.bytes_of (HashMap.lookup j.idx m) ≡ some j.bytes) (dirty_jobs m is)
unfolding dirty_jobs
dirty_jobs-found m [] = tt
dirty_jobs-found m (i ∷ is) =
    Option_rule (AllJobs (λ j. Dirty.bytes_of (HashMap.lookup j.idx m) ≡ some j.bytes))
      (HashMap.lookup i m) _ _ (λ _. dirty_jobs-found m is)
      (λ c e. (ap Dirty.bytes_of e, dirty_jobs-found m is))

dirty_jobs-covers :
    (m : HashMap ℕ DirtyChunk) (is : List ℕ) (k : ℕ) (c : DirtyChunk)
    → contains is k ≡ true
    → HashMap.lookup k m ≡ some c
    → contains (idxs (dirty_jobs m is)) k ≡ true
unfolding dirty_jobs
dirty_jobs-covers m [] k c h e = cc
dirty_jobs-covers m (i ∷ is) k c h e = ground (arith, dirty_jobs-covers m is k c)

buffer_jobs-found :
    (dirty : HashMap ℕ DirtyChunk) (m : HashMap ℕ BufferedChunk) (is : List ℕ)
    → AllJobs
        (λ j.
          (HashMap.lookup j.idx dirty ≡ none)
          × (buffered_bytes (HashMap.lookup j.idx m) ≡ some j.bytes))
        (buffer_jobs dirty m is)
unfolding buffer_jobs
buffer_jobs-found dirty m [] = tt
buffer_jobs-found dirty m (i ∷ is) = elim (Option-cases (HashMap.lookup i dirty)) [
  | inr (d, e) ↦ rw (e, buffer_jobs) (buffer_jobs-found dirty m is)
  | inl e ↦ elim (Option-cases (HashMap.lookup i m)) [
    | inl e' ↦ rw (e, e', buffer_jobs) (buffer_jobs-found dirty m is)
    | inr (k, e') ↦
        rw (e, e', buffer_jobs) ((e, ap buffered_bytes e'), buffer_jobs-found dirty m is)
  ]
]

buffer_jobs-covers :
    (dirty : HashMap ℕ DirtyChunk) (m : HashMap ℕ BufferedChunk) (is : List ℕ) (k : ℕ)
    (c : BufferedChunk)
    → contains is k ≡ true
    → HashMap.lookup k dirty ≡ none
    → HashMap.lookup k m ≡ some c
    → contains (idxs (buffer_jobs dirty m is)) k ≡ true
unfolding buffer_jobs
buffer_jobs-covers dirty m [] k c h n e = cc
buffer_jobs-covers dirty m (i ∷ is) k c h n e = ground (arith, buffer_jobs-covers dirty m is k c)

module _ {S D : Type 0} (c : Core S D) where
  abbrev IsFound : Job → Type 0
  IsFound j = lookup j.idx c ≡ some j.bytes

  queued-IsFound :
      (o : Option BufferRt) → c.buffer ≡ o → AllJobs IsFound (queued_jobs c.dirty.chunks o)
  queued-IsFound none e = tt
  queued-IsFound (some b) e =
      AllJobs-map _ IsFound (λ j h. ground (arith, h, ap (buffered j.idx) e))
        (buffer_jobs c.dirty.chunks b.state.chunks (keys b.state.chunks))
        (buffer_jobs-found c.dirty.chunks b.state.chunks (keys b.state.chunks))

  -- Every job is the chunk that a lookup finds.
  pub take_all_jobs-IsFound : AllJobs IsFound (take_all_jobs c).0
  unfolding take_all_jobs
  take_all_jobs-IsFound =
      AllJobs-append IsFound (queued_jobs c.dirty.chunks c.buffer)
        (dirty_jobs c.dirty.chunks (keys c.dirty.chunks)) (queued-IsFound c.buffer refl)
        (AllJobs-map _ IsFound (λ j h. ground (arith, h))
          (dirty_jobs c.dirty.chunks (keys c.dirty.chunks))
          (dirty_jobs-found c.dirty.chunks (keys c.dirty.chunks)))

  queued-covers :
      (o : Option BufferRt) (k : ℕ) (x : BufferedChunk)
      → HashMap.lookup k c.dirty.chunks ≡ none
      → buffered k o ≡ some x
      → contains (idxs (queued_jobs c.dirty.chunks o)) k ≡ true
  queued-covers none k x n e = cc
  queued-covers (some b) k x n e =
      buffer_jobs-covers c.dirty.chunks b.state.chunks (keys b.state.chunks) k x
        (listed k b.state.chunks x e) n e

  -- A chunk with no job is found nowhere.
  pub take_all_jobs-covers :
      (k : ℕ) → contains (idxs (take_all_jobs c).0) k ≡ false → lookup k c ≡ none
  unfolding take_all_jobs
  take_all_jobs-covers k h =
      let split =
        contains-append (queued_jobs c.dirty.chunks c.buffer)
          (dirty_jobs c.dirty.chunks (keys c.dirty.chunks)) k in
      elim (Option-cases (HashMap.lookup k c.dirty.chunks)) [
        | inr (d, e) ↦ absurd (
            ground (
              arith,
              h,
              split,
              dirty_jobs-covers c.dirty.chunks (keys c.dirty.chunks) k d
                  (listed k c.dirty.chunks d e) e,
            ))
        | inl e ↦ elim (Option-cases (buffered k c.buffer)) [
          | inr (x, e') ↦ absurd (ground (arith, h, split, queued-covers c.buffer k x e e'))
          | inl e' ↦ ground (arith, e, e')
        ]
      ]
