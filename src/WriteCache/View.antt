-- ===== src/WriteCache/View.antt =====
-- src/write_cache.rs: the disk that a client sees through the dirty chunks, the queue and the inner
-- store, whatever the worker is doing, as an invariant `Holds f` for the view `f`.
use native.Mathlib.Decide.{ℕ_discrete}
use iscsi_s.Prelude.{
  refl, ◌⊎◌, ℕ, ◌*◌, ◌/◌, ◌≤◌, ◌<◌, ◌≡◌, ◌≢◌, sym, ap, ◌∙◌, Option, none, some, List, length,
  tabulate, inl, inr,
}
use iscsi_s.Prelude.Eq.{nat_eq}
use iscsi_s.Result.{ok, err}
use iscsi_s.HashMap
use iscsi_s.HashMap.{lookup-remove, lookup-insert}
use iscsi_s.Store.{BlockStore, u64_size}
use iscsi_s.WriteCache.{
  Core, BufferRt, BufferedChunk, Job, Worker, at_top, parked, stopped, holding, written_back,
}
use iscsi_s.WriteCache.Dirty
use iscsi_s.WriteCache.Chunks.{lookup, buffered, buffered_bytes}
use iscsi_s.WriteCache.Puts.{Kept}

pub some_eq : {a b : List ℕ} → ◌≡◌ {A = Option (List ℕ)} (some a) (some b) → b ≡ a
some_eq h = cc

pub none_some : {bytes : List ℕ} → ◌≡◌ {A = Option (List ℕ)} none (some bytes) → ⊥
none_some h = cc

-- The job in flight is the queued chunk.
abbrev pub Flies : Job → Option BufferRt → Type 0
Flies job none = ⊥
Flies job (some b) =
    (HashMap.lookup job.idx b.state.chunks
      ≡ some (record { bytes = job.bytes; generation = job.generation }))
    × (b.state.inflight ≡ some job.idx)

-- The newest version of a chunk above the inner store: the one in the map of the dirty chunks, else
-- the one in the queue, which is there also while its put is in flight.
abbrev pub newest : {S D : Type 0} → ℕ → Core S D → Option (List ℕ)
newest idx c = elim (Dirty.get idx c.dirty) [
  | some bytes ↦ some bytes
  | none ↦ buffered_bytes (buffered idx c.buffer)
]

module _ {S D : Type 0} (ops : BlockStore S) (IsValid : S → Type 0) (content : S → ℕ → ℕ) where
  -- Once its put succeeded, the inner store shows the chunk, unless a newer one is dirty.
  abbrev pub Settled : ℕ → (ℕ → ℕ) → Core S D → Type 0
  Settled idx f c =
      (p : ℕ)
      → p / ops.chunk_size c.inner ≡ idx
      → Dirty.get idx c.dirty ≡ none
      → content c.inner p ≡ f p

  abbrev pub Flying : Worker → (ℕ → ℕ) → Core S D → Type 0
  Flying at_top f c = Unit
  Flying parked f c = Unit
  Flying stopped f c = Unit
  Flying (holding job) f c = Flies job c.buffer
  Flying (written_back job (ok _)) f c = Flies job c.buffer × Settled job.idx f c
  Flying (written_back job (err _)) f c = Flies job c.buffer

  pub record Holds (f : ℕ → ℕ) (c : Core S D) : Type 0 where
    pub inner : IsValid c.inner
    pub small : ops.capacity c.inner < u64_size
    pub zero : (p : ℕ) → ops.capacity c.inner ≤ p → f p ≡ 0
    pub cached :
        (idx : ℕ) (bytes : List ℕ)
        → newest idx c ≡ some bytes
        → bytes ≡ tabulate f (idx * ops.chunk_size c.inner) (ops.chunk_size c.inner)
    pub under : (p : ℕ) → newest (p / ops.chunk_size c.inner) c ≡ none → content c.inner p ≡ f p
    pub sized :
        (idx : ℕ) (k : BufferedChunk)
        → buffered idx c.buffer ≡ some k
        → length k.bytes ≡ ops.chunk_size c.inner
    pub flying : Flying c.worker f c

  -- A change of the caches and the worker that no lookup sees.
  pub Holds-relookup :
      {f : ℕ → ℕ} {c : Core S D} (c' : Core S D)
      → Holds f c
      → c'.inner ≡ c.inner
      → ((idx : ℕ) → lookup idx c' ≡ lookup idx c)
      → ((idx : ℕ) (k : BufferedChunk)
          → buffered idx c'.buffer ≡ some k
          → length k.bytes ≡ ops.chunk_size c.inner)
      → Flying c'.worker f c'
      → Holds f c'
  Holds-relookup {f} {c} c' h e same sized flying = record {
    inner = rw e h.inner;
    small = rw e h.small;
    zero = rw e h.zero;
    cached = rw e (λ idx bytes k. h.cached idx bytes (sym (same idx) ∙ k));
    under = rw e (λ p k. h.under p (sym (same (p / ops.chunk_size c.inner)) ∙ k));
    sized = rw e sized;
    flying = flying;
  }

  -- A chunk that is cached is written to the inner store, or partly so.
  pub Holds-put :
      {f : ℕ → ℕ} {c : Core S D} (idx : ℕ) (t : S) (worker : Worker)
      → Holds f c
      → lookup idx c ≢ none
      → Kept ops IsValid content idx c.inner t
      → Flying worker f (record c { inner = t; worker = worker })
      → Holds f (record c { inner = t; worker = worker })
  Holds-put {f} {c} idx t worker h here kept flying = record {
    inner = kept.sizes.valid;
    small = rw kept.sizes.capacity h.small;
    zero = rw kept.sizes.capacity h.zero;
    cached = rw kept.sizes.chunk_size h.cached;
    under =
        rw kept.sizes.chunk_size
          (λ p k. kept.others p (λ e. here (ap (λ i. lookup i c) (sym e) ∙ k)) ∙ h.under p k);
    sized = rw kept.sizes.chunk_size h.sized;
    flying = flying;
  }

  -- A chunk dropped from the caches once the inner store shows it.
  pub Holds-drop :
      {f : ℕ → ℕ} {c : Core S D} (idx : ℕ) (c' : Core S D)
      → Holds f c
      → c'.inner ≡ c.inner
      → ((j : ℕ) → (j ≡ idx → ⊥) → lookup j c' ≡ lookup j c)
      → ((lookup idx c' ≡ lookup idx c)
          ⊎ ((lookup idx c' ≡ none)
              × ((p : ℕ) → p / ops.chunk_size c.inner ≡ idx → content c.inner p ≡ f p)))
      → ((j : ℕ) (k : BufferedChunk)
          → buffered j c'.buffer ≡ some k
          → length k.bytes ≡ ops.chunk_size c.inner)
      → Flying c'.worker f c'
      → Holds f c'
  Holds-drop {f} {c} idx c' h e others here sized flying = record {
    inner = rw e h.inner;
    small = rw e h.small;
    zero = rw e h.zero;
    cached = rw e (λ j bytes k. elim (ℕ_discrete j idx) [
      | yes at ↦ elim here [
        | inl same ↦
            h.cached j bytes
              (ap (λ i. lookup i c) at ∙ (sym same ∙ (ap (λ i. lookup i c') (sym at) ∙ k)))
        | inr (gone, _) ↦ absurd (none_some (sym gone ∙ (ap (λ i. lookup i c') (sym at) ∙ k)))
      ]
      | no ne ↦ h.cached j bytes (sym (others j ne) ∙ k)
    ]);
    under = rw e (λ p k. elim (ℕ_discrete (p / ops.chunk_size c.inner) idx) [
      | yes at ↦ elim here [
        | inl same ↦
            h.under p (ap (λ i. lookup i c) at ∙ (sym same ∙ (ap (λ i. lookup i c') (sym at) ∙ k)))
        | inr (_, shown) ↦ shown p at
      ]
      | no ne ↦ h.under p (sym (others _ ne) ∙ k)
    ]);
    sized = rw e sized;
    flying = flying;
  }

  Flying-files :
      (f : ℕ → ℕ) (w : Worker) (c : Core S D) (files : D)
      → Flying w f c
      → Flying w f (record c { files = files })
  Flying-files f at_top c files x = tt
  Flying-files f parked c files x = tt
  Flying-files f stopped c files x = tt
  Flying-files f (holding job) c files x = x
  Flying-files f (written_back job (ok _)) c files x = x
  Flying-files f (written_back job (err _)) c files x = x

  -- The files do not show.
  pub Holds-files :
      {f : ℕ → ℕ} (c : Core S D) (files : D) → Holds f c → Holds f (record c { files = files })
  Holds-files {f} c files h =
      Holds-relookup (record c { files = files }) h refl (λ _. refl) h.sized
        (Flying-files f c.worker c files h.flying)
