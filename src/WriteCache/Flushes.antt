-- ===== src/WriteCache/Flushes.antt =====
-- src/write_cache.rs, `flush` and `discard_dirty`: `pause_worker` and the drain under it.
use iscsi_s.Prelude.{
  subst, sym, if_rule, Option_rule, ◌&&◌, ◌||◌, not, ◌⊎◌, inl, inr, ap, ◌∙◌, ◌≡◌, refl, true, false,
  some, arith,
}
use iscsi_s.Result.{Result}
use iscsi_s.Store.{BlockStore}
use iscsi_s.WriteCache.{
  Ctl, Core, BufferRt, Worker, at_top, parked, stopped, holding, written_back, Job,
}
use iscsi_s.WriteCache.Files.{FileSystem}
use iscsi_s.WriteCache.Thread.{
  step_from, top_step, finish_put, clear_inflight, worker_step, run_worker,
}
use iscsi_s.WriteCache.Client.{pause_worker}

module _ {S D : Type 0} (ops : BlockStore S) (fs : FileSystem D) where
  abbrev Paused : Core S D → Type 0
  Paused c = (c.ctl.pause ≡ true) × (c.ctl.stop ≡ false)

  abbrev Parks : Core S D → Type 0
  Parks c = (c.worker ≡ parked) × Paused c

  parked-Parks : (c : Core S D) → c.worker ≡ parked → Paused c → Parks (step_from ops fs parked c)
  unfolding step_from
  parked-Parks c e (p, s) =
      if_rule Parks (c.ctl.pause && not c.ctl.stop) _ _ (λ _. (e, (p, s)))
        (λ n. absurd (ground (arith, p, s)))

  at_top-Parks : (c : Core S D) → Paused c → Parks (step_from ops fs at_top c)
  unfolding step_from top_step
  at_top-Parks c (p, s) =
      if_rule Parks c.ctl.stop _ _ (λ n. absurd (ground (arith, s)))
        λ _. if_rule Parks c.ctl.pause _ _ (λ _. (refl, (p, s))) (λ n. absurd (ground (arith, p)))

  finish_put-ctl :
      (job : Job) (r : Result (Unit {0})) (c : Core S D) → (finish_put fs job r c).ctl ≡ c.ctl
  unfolding finish_put
  finish_put-ctl job r c = ground arith

  -- One step brings a running worker to the top of its loop, or parks it.
  first_step :
      (w : Worker) (c : Core S D)
      → c.worker ≡ w
      → Paused c
      → (w ≡ stopped → ⊥)
      → ((step_from ops fs w c).worker ≡ at_top × Paused (step_from ops fs w c))
        ⊎ Parks (step_from ops fs w c)
  unfolding step_from clear_inflight
  first_step stopped c e p alive = absurd (alive refl)
  first_step at_top c e p alive = inr (at_top-Parks c p)
  first_step parked c e p alive = inr (parked-Parks c e p)
  first_step (holding job) c e (p, s) alive = inl (
      if_rule (λ (x : Core S D). (x.worker ≡ at_top) × Paused x) (c.ctl.pause || c.ctl.stop) _ _
        (λ _.
          Option_rule (λ (x : Core S D). (◌≡◌ {A = Worker} at_top at_top) × Paused x) c.buffer _ _
            (λ _. (refl, (p, s))) (λ b _. (refl, (p, s))))
        (λ n. absurd (ground (arith, p))))
  first_step (written_back job r) c e (p, s) alive =
      let same = finish_put-ctl job r c in
      inl (refl, (ap (λ (t : Ctl). t.pause) same ∙ p, ap (λ (t : Ctl). t.stop) same ∙ s))

  second_step :
      (c : Core S D)
      → ((c.worker ≡ at_top) × Paused c) ⊎ Parks c
      → (worker_step ops fs c).worker ≡ parked
  unfolding worker_step
  second_step c (inl (e, p)) =
      subst (λ w. (step_from ops fs w c).worker ≡ parked) (sym e) (at_top-Parks c p).0
  second_step c (inr (e, p)) =
      subst (λ w. (step_from ops fs w c).worker ≡ parked) (sym e) (parked-Parks c e p).0

  -- Where there is a queue and the worker has not been stopped, `pause_worker` ends its wait
  -- within two steps of the worker: it is parked, whatever it was doing.
  pub pause_worker-parked :
      (c : Core S D) (b : BufferRt)
      → c.buffer ≡ some b
      → c.ctl.stop ≡ false
      → (c.worker ≡ stopped → ⊥)
      → (pause_worker ops fs c).worker ≡ parked
  unfolding pause_worker run_worker worker_step
  pause_worker-parked c b e running alive =
      let c' = record c { ctl = record c.ctl { pause = true } } in
      Option_rule (λ (x : Core S D). x.worker ≡ parked) c.buffer _ _
        (λ n. absurd (ground (arith, e, n)))
        (λ _ _.
          second_step (step_from ops fs c.worker c')
            (first_step c.worker c' refl (refl, running) alive))
