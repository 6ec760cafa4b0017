-- ===== src/WriteCache/Steps.antt =====
-- src/write_cache.rs, `run_worker`: the regions between its inner writes, and what clients see.
use iscsi_s.Prelude.{
  length-tabulate, ℕ, ◌≡◌, refl, ap, ◌∙◌, Bool, ◌||◌, none, some, length, arith, Option_rule,
  if_rule, ltb, ◌*◌,
}
use iscsi_s.Prelude.Eq.{nat_eq}
use iscsi_s.Result.{ok, err}
use iscsi_s.HashMap
use iscsi_s.Store.{BlockStore}
use iscsi_s.WriteCache.{
  Core, BufferRt, BufferedChunk, DirtyChunk, Job, Worker, at_top, parked, stopped, holding,
  written_back, saturating_add,
}
use iscsi_s.WriteCache.Dirty
use iscsi_s.WriteCache.Buffer
use iscsi_s.WriteCache.Chunks.{lookup, buffered, set_state}
use iscsi_s.WriteCache.Thread.{hand_over, handoff_quiet, has_chunk, quiet}
use iscsi_s.WriteCache.View.{Holds, Holds-relookup, Flies, Flying, Settled}
use iscsi_s.WriteCache.Queue.{dirty-remove, queue-push}

module _ {S D : Type 0} (ops : BlockStore S) (IsValid : S → Type 0) (content : S → ℕ → ℕ)
    (f : ℕ → ℕ) where
  abbrev pub Sees : Core S D → Type 0
  Sees = Holds ops IsValid content f

  module _ (b : BufferRt) (idx : ℕ) (d : DirtyChunk) (c : Core S D) (e : c.buffer ≡ some b)
      (at : HashMap.lookup idx c.dirty.chunks ≡ some d)
      (free : HashMap.lookup idx b.state.chunks ≡ none) where
    abbrev moved : Core S D
    moved = record c {
      dirty = Dirty.remove idx c.dirty;
      buffer = some (set_state b (Buffer.push idx d.bytes d.tick b.state));
    }

    lookup-moved : (j : ℕ) → lookup j moved ≡ lookup j c
    lookup-moved j = ground (
      arith,
      dirty-remove idx j c.dirty,
      queue-push idx j d.tick d.bytes b.state,
      at,
      free,
      ap (buffered j) e,
    )

    Flies-moved : (job : Job) → Flies job c.buffer → Flies job moved.buffer
    unfolding Buffer.push
    Flies-moved job h =
        let flown : Flies job (some b) = rw e at h in
        (
          ground (arith, queue-push idx job.idx d.tick d.bytes b.state, flown.0, free),
          ground (arith, flown.1),
        )

    Settled-moved :
        (job : Job)
        → Flies job c.buffer
        → Settled ops IsValid content job.idx f c
        → Settled ops IsValid content job.idx f moved
    Settled-moved job flown h p k gone =
        let flown' : Flies job (some b) = rw e at flown in
        h p k (ground (arith, dirty-remove idx job.idx c.dirty, flown'.0, free))

    Flying-moved :
        (w : Worker) → Flying ops IsValid content w f c → Flying ops IsValid content w f moved
    Flying-moved at_top h = tt
    Flying-moved parked h = tt
    Flying-moved stopped h = tt
    Flying-moved (holding job) h = Flies-moved job h
    Flying-moved (written_back job (ok _)) h = (Flies-moved job h.0, Settled-moved job h.0 h.1)
    Flying-moved (written_back job (err _)) h = Flies-moved job h

    sized-moved :
        Sees c
        → (j : ℕ) (k : BufferedChunk) → buffered j moved.buffer ≡ some k
        → length k.bytes ≡ ops.chunk_size c.inner
    sized-moved h j k found =
        let whole : length d.bytes ≡ ops.chunk_size c.inner =
          ap length (h.cached idx d.bytes (ground (arith, at)))
          ∙ length-tabulate f (idx * ops.chunk_size c.inner) (ops.chunk_size c.inner) in
        ground
          (arith, queue-push idx j d.tick d.bytes b.state, whole, h.sized j k, ap (buffered j) e)

    moved-Holds : Sees c → Sees moved
    moved-Holds h =
        Holds-relookup ops IsValid content moved h refl lookup-moved (sized-moved h)
          (Flying-moved c.worker h.flying)

  -- A chunk that is moved to the queue is found there.
  pub hand_over-Holds :
      (b : BufferRt) (idx : ℕ) (c : Core S D)
      → c.buffer ≡ some b
      → Sees c
      → Sees (hand_over b idx c).1
  unfolding hand_over
  hand_over-Holds b idx c e h =
      Option_rule (λ (r : Bool × Core S D). Sees r.1) (HashMap.lookup idx c.dirty.chunks) _ _
        (λ _. h)
        λ d at.
          if_rule (λ (r : Bool × Core S D). Sees r.1)
            (Buffer.inflight_is idx b.state || has_chunk idx b.state) _ _ (λ _. h)
            λ free.
              if_rule (λ (r : Bool × Core S D). Sees r.1)
                (ltb b.max_bytes (saturating_add b.state.used_bytes (length d.bytes))) _ _ (λ _. h)
                λ fits. moved-Holds b idx d c e at (ground arith) h

  pub handoff_quiet-Holds : (c : Core S D) → Sees c → Sees (handoff_quiet c).1
  unfolding handoff_quiet
  handoff_quiet-Holds c h =
      Option_rule (λ (r : Bool × Core S D). Sees r.1) c.buffer _ _ (λ _. h)
        λ b e.
          Option_rule (λ (r : Bool × Core S D). Sees r.1) (Dirty.oldest_quiet c.now quiet c.dirty) _
            _ (λ _. h) (λ idx _. hand_over-Holds b idx c e h)
