-- ===== src/WriteCache/Evicts.antt =====
-- src/write_cache.rs, `evict_into_buffer` and `evict_direct`, and what clients see.
use iscsi_s.Prelude.{ℕ, zero, suc, ◌≡◌, Bool, true, false, none, some, Option_rule, leb}
use iscsi_s.Prelude.Eq.{nat_eq}
use iscsi_s.Result.{Result, ok, Ends}
use iscsi_s.Store.{BlockStore}
use iscsi_s.Store.Laws.{IsBlockStore}
use iscsi_s.WriteCache.{Core, BufferRt}
use iscsi_s.WriteCache.Dirty
use iscsi_s.WriteCache.Files.{FileSystem}
use iscsi_s.WriteCache.Thread.{hand_over, worker_step, run_worker}
use iscsi_s.WriteCache.Evict.{move_loop}
use iscsi_s.WriteCache.Puts.{FailsWithin}
use iscsi_s.WriteCache.View.{Holds}
use iscsi_s.WriteCache.Steps.{hand_over-Holds}
use iscsi_s.WriteCache.Rounds.{run_worker-Holds}

module _ {S D : Type 0} (ops : BlockStore S) (fs : FileSystem D) (IsValid : S → Type 0)
    (content : S → ℕ → ℕ) (laws : IsBlockStore ops IsValid content)
    (safe : FailsWithin ops IsValid content) (f : ℕ → ℕ) where
  abbrev Kept : Core S D → Type 0
  Kept = Holds ops IsValid content f

  abbrev StillKept : Result (Unit {0}) × Core S D → Type 0
  StillKept = Ends (λ _. Kept) (λ _. Kept)

  worker_step-Holds : (c : Core S D) → Kept c → Kept (worker_step ops fs c)
  unfolding run_worker
  worker_step-Holds c h = run_worker-Holds ops IsValid content f fs laws safe 1 c h

  module _ (n : ℕ) (next : (x : Core S D) → Kept x → StillKept (move_loop ops fs n x))
      (c : Core S D) (h : Kept c) where
    after_stop :
        (s : Bool) (x : Core S D)
        → Kept x
        → StillKept
            (elim s [ true ↦ (ok tt, x) | false ↦ move_loop ops fs n (worker_step ops fs x) ])
    after_stop true x k = k
    after_stop false x k = next (worker_step ops fs x) (worker_step-Holds x k)

    abbrev after : Bool → Core S D → Result (Unit {0}) × Core S D
    after moved x = elim moved [
      | true ↦ move_loop ops fs n x
      | false ↦ elim x.ctl.stop [
        | true ↦ (ok tt, x)
        | false ↦ move_loop ops fs n (worker_step ops fs x)
      ]
    ]

    after_move : (moved : Bool) (x : Core S D) → Kept x → StillKept (after moved x)
    after_move true x k = next x k
    after_move false x k = after_stop x.ctl.stop x k

    under_budget :
        (fits : Bool) (b : BufferRt)
        → c.buffer ≡ some b
        → StillKept (elim fits [
          | true ↦ (ok tt, c)
          | false ↦ elim (Dirty.oldest c.dirty) [
            | none ↦ (ok tt, c)
            | some idx ↦ after (hand_over b idx c).0 (hand_over b idx c).1
          ]
        ])
    under_budget true b e = h
    under_budget false b e =
        Option_rule StillKept (Dirty.oldest c.dirty) _ _ (λ _. h)
          (λ idx _.
            after_move (hand_over b idx c).0 (hand_over b idx c).1
              (hand_over-Holds ops IsValid content f b idx c e h))

  -- Over a lawful inner store whose failed writes leave it valid and stay in their range,
  -- eviction into the queue keeps what clients see, however many rounds it takes, moves and steps
  -- of the worker together.
  pub move_loop-Holds : (n : ℕ) (c : Core S D) → Kept c → StillKept (move_loop ops fs n c)
  unfolding move_loop
  move_loop-Holds zero c h = h
  move_loop-Holds (suc n) c h =
      Option_rule StillKept c.buffer _ _ (λ _. h)
        λ b e. under_budget n (move_loop-Holds n) c h (leb c.dirty.used_bytes c.cache_max) b e
