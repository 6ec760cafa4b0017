-- ===== src/WriteCache/Flushed.antt =====
-- src/write_cache.rs, `flush`: from the invariant before it to the inner store after it.
use iscsi_s.WriteCache.Flushes.{pause_worker-parked}
use iscsi_s.WriteCache.Rounds.{run_worker-Holds}
use iscsi_s.WriteCache.View.{Flying, Holds, Holds-relookup, Flies}
use iscsi_s.WriteCache.Durable.{IsChunk, Rest, write_jobs-Rest}
use iscsi_s.Prelude.{
  refl, Option-cases, inl, inr, ℕ, ◌/◌, ◌≡◌, sym, ap, ◌∙◌, false, none, [], arith, Option, subst,
  some, Option_rule, true,
}
use iscsi_s.Result.{Result, ok, err, Ends, Ends-and_then, and_then}
use iscsi_s.HashMap
use iscsi_s.Store.{BlockStore}
use iscsi_s.Store.Laws.{IsBlockStore, Shows, volume}
use iscsi_s.WriteCache.{
  Core, Worker, Ctl, stopped, holding, BufferRt, written_back, at_top, parked, is_none,
}
use iscsi_s.WriteCache.Files.{FileSystem}
use iscsi_s.WriteCache.Chunks.{lookup, buffered, cleared, buffered_bytes, take_all_jobs, on_inner}
use iscsi_s.WriteCache.Client.{
  write_jobs, pause_worker, with_ctl, resume_worker, flush, with_all_jobs,
}
use iscsi_s.WriteCache.Puts.{FailsWithin}
use iscsi_s.WriteCache.Jobs.{AllJobs, AllJobs-map, take_all_jobs-IsFound, take_all_jobs-covers}

module _ {S D : Type 0} (ops : BlockStore S) (fs : FileSystem D) (IsValid : S → Type 0)
    (content : S → ℕ → ℕ) (laws : IsBlockStore ops IsValid content)
    (safe : FailsWithin ops IsValid content) (f : ℕ → ℕ) where
  Flying-ctl :
      (w : Worker) (c : Core S D) (ctl : Ctl)
      → Flying ops IsValid content w f c
      → Flying ops IsValid content w f (record c { ctl = ctl })
  Flying-ctl at_top c ctl x = tt
  Flying-ctl parked c ctl x = tt
  Flying-ctl stopped c ctl x = tt
  Flying-ctl (holding job) c ctl x = x
  Flying-ctl (written_back job (ok _)) c ctl x = x
  Flying-ctl (written_back job (err _)) c ctl x = x

  Holds-ctl :
      (c : Core S D) (ctl : Ctl)
      → Holds ops IsValid content f c
      → Holds ops IsValid content f (record c { ctl = ctl })
  Holds-ctl c ctl h =
      Holds-relookup ops IsValid content (record c { ctl = ctl }) h refl (λ _. refl) h.sized
        (Flying-ctl c.worker c ctl h.flying)

  -- With no queue the worker has no job.
  calm_without :
      (w : Worker) (c x : Core S D)
      → c.buffer ≡ none
      → Flying ops IsValid content w f c
      → Flying ops IsValid content w f x
  calm_without at_top c x e y = tt
  calm_without parked c x e y = tt
  calm_without stopped c x e y = tt
  calm_without (holding job) c x e y = absurd (subst (Flies job) e y)
  calm_without (written_back job (ok _)) c x e y = absurd (subst (Flies job) e y.0)
  calm_without (written_back job (err _)) c x e y = absurd (subst (Flies job) e y)

  buffered-cleared : (o : Option BufferRt) (idx : ℕ) → buffered idx (cleared o) ≡ none
  unfolding HashMap.lookup
  buffered-cleared none idx = refl
  buffered-cleared (some b) idx = refl

  module _ (c : Core S D) (running : c.ctl.stop ≡ false) (alive : c.worker ≡ stopped → ⊥) where
    abbrev Calm : Core S D → Type 0
    Calm x =
        Holds ops IsValid content f x × ((y : Core S D) → Flying ops IsValid content x.worker f y)

    pause_worker-Calm : Holds ops IsValid content f c → Calm (pause_worker ops fs c)
    pause_worker-Calm h = elim (Option-cases c.buffer) [
      | inl e ↦
          (unfold pause_worker in
            Option_rule Calm c.buffer _ _ (λ _. (h, λ y. calm_without c.worker c y e h.flying))
              (λ b e'. absurd (ground (arith, e, e'))))
      | inr (b, e) ↦ (
        unfold pause_worker in
            Option_rule (Holds ops IsValid content f) c.buffer _ _ (λ _. h)
              (λ _ _.
                run_worker-Holds ops IsValid content f fs laws safe 2 _
                  (Holds-ctl c (record c.ctl { pause = true }) h)),
        λ y.
            subst (λ w. Flying ops IsValid content w f y)
              (sym (pause_worker-parked ops fs c b e running alive)) tt,
      )
    ]

  -- The jobs of a core that shows `f` are chunks of `f`, and what is left is clean.
  take_all_jobs-Rest :
      (x : Core S D)
      → Holds ops IsValid content f x
      → ((y : Core S D) → Flying ops IsValid content x.worker f y)
      → AllJobs
          (IsChunk ops fs IsValid content laws safe f (ops.chunk_size x.inner))
          (take_all_jobs x).0
        × Rest ops fs IsValid content laws safe f
            (ops.chunk_size x.inner)
            (take_all_jobs x).0
            (take_all_jobs x).1
  take_all_jobs-Rest x h calm = (
    AllJobs-map _ (IsChunk ops fs IsValid content laws safe f (ops.chunk_size x.inner))
        (λ j found. h.cached j.idx j.bytes found) (take_all_jobs x).0 (take_all_jobs-IsFound x),
    unfold take_all_jobs HashMap.lookup in
        record {
          valid = h.inner;
          small = h.small;
          chunk_size = refl;
          zero = h.zero;
          clean = λ idx. ap buffered_bytes (buffered-cleared x.buffer idx);
          queue = buffered-cleared x.buffer;
          calm = calm;
          shown = λ p none_left.
              h.under p (take_all_jobs-covers x (p / ops.chunk_size x.inner) none_left);
        },
  )

  abbrev pub IsFlushed : Core S D → Type 0
  IsFlushed c =
      Holds ops IsValid content f c
      × ((idx : ℕ) → lookup idx c ≡ none)
      × ((p : ℕ) → content c.inner p ≡ f p)

  Rest-ctl :
      {size : ℕ} {c : Core S D} (g : Ctl → Ctl)
      → Rest ops fs IsValid content laws safe f size [] c
      → Rest ops fs IsValid content laws safe f size [] (with_ctl g c)
  Rest-ctl g r = record {
    valid = r.valid;
    small = r.small;
    chunk_size = r.chunk_size;
    zero = r.zero;
    clean = r.clean;
    queue = r.queue;
    calm = r.calm;
    shown = r.shown;
  }

  Rest-IsFlushed :
      {size : ℕ} (c : Core S D) (t : S)
      → Rest ops fs IsValid content laws safe f size [] c
      → Shows ops IsValid content t (volume ops IsValid content c.inner)
      → IsFlushed (record c { inner = t })
  Rest-IsFlushed c t r sh = (
    record {
      inner = sh.valid;
      small = rw sh.same.capacity r.small;
      zero = rw sh.same.capacity r.zero;
      cached = λ idx bytes k. absurd (ground (arith, r.clean idx, k));
      under = λ p _. sh.same.content p ∙ r.shown p refl;
      sized = λ idx k found. absurd (ground (arith, r.queue idx, found));
      flying = r.calm (record c { inner = t });
    },
    r.clean,
    λ p. sh.same.content p ∙ r.shown p refl,
  )

  after_flush :
      {size : ℕ} (c : Core S D)
      → Rest ops fs IsValid content laws safe f size [] c
      → (w : Result (Unit {0}) × S)
      → Ends
          (λ _ t. Shows ops IsValid content t (volume ops IsValid content c.inner))
          (λ _ _. Unit)
          w
      → Ends (λ _. IsFlushed) (λ _ _. Unit) (w.0, record c { inner = w.1 })
  after_flush c r (err e, t) sh = tt
  after_flush c r (ok _, t) sh = Rest-IsFlushed c t r sh

  after_jobs :
      (size : ℕ) (g : Ctl → Ctl) (r : Result (Unit {0}) × Core S D)
      → Ends (λ _. Rest ops fs IsValid content laws safe f size []) (λ _ _. Unit) r
      → Ends
          (λ _. IsFlushed)
          (λ _ _. Unit)
          (and_then (r.0, with_ctl g r.1) λ _ c'. on_inner ops.flush c')
  after_jobs size g (err e, c) x = tt
  after_jobs size g (ok _, c) x =
      after_flush (with_ctl g c) (Rest-ctl g x) (ops.flush c.inner) (laws.flushes c.inner x.valid)

  jobs_done :
      (x : Core S D)
      → Holds ops IsValid content f x
      → ((y : Core S D) → Flying ops IsValid content x.worker f y)
      → Ends
          (λ _. Rest ops fs IsValid content laws safe f (ops.chunk_size x.inner) [])
          (λ _ _. Unit)
          (and_then
            (write_jobs ops fs (take_all_jobs x).0 (take_all_jobs x).1)
            λ _ c. (ok tt, resume_worker c))
  jobs_done x h calm =
      let (all, rest) = take_all_jobs-Rest x h calm in
      Ends-and_then (λ _. Rest ops fs IsValid content laws safe f (ops.chunk_size x.inner) [])
        (λ _. Rest ops fs IsValid content laws safe f (ops.chunk_size x.inner) []) (λ _ _. Unit)
        (write_jobs ops fs (take_all_jobs x).0 (take_all_jobs x).1) _
        (write_jobs-Rest ops fs IsValid content laws safe f (ops.chunk_size x.inner)
          (laws.chunk_pos x.inner h.inner) (take_all_jobs x).0 (take_all_jobs x).1 all rest)
        (λ _ c r. Rest-ctl (λ t. record t { pause = false }) r)

  -- Over a lawful inner store whose failed writes leave it valid and stay in their range, in the
  -- modes that cache and while the worker lives, a flush that succeeds leaves the whole disk that
  -- clients see in the inner store, and no chunk in the write cache.
  pub flush-IsFlushed :
      (c : Core S D)
      → is_none c.mode ≡ false
      → c.ctl.stop ≡ false
      → (c.worker ≡ stopped → ⊥)
      → Holds ops IsValid content f c
      → Ends (λ _. IsFlushed) (λ _ _. Unit) (flush ops fs c)
  unfolding flush with_all_jobs
  flush-IsFlushed c caching running alive h =
      let c₁ = record c { ctl = record c.ctl { exclusive = true } } in
      let (h₂, calm) = pause_worker-Calm c₁ running alive (Holds-ctl c c₁.ctl h) in
      rw caching (
        after_jobs _ (λ t. record t { exclusive = false }) _
          (jobs_done (pause_worker ops fs c₁) h₂ calm))
