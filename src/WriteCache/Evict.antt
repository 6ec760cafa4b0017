-- ===== src/WriteCache/Evict.antt =====
-- src/write_cache.rs, `evict_direct` and `evict_into_buffer`: the dirty bytes back under the
-- budget, by inner writes, or into the worker's queue. Where the queue has no room the writer
-- waits, and the model lets the worker take one step; `patience` bounds the rounds, moves and
-- waits together.
use iscsi_s.Prelude.{
  ℕ, zero, suc, true, false, ◌||◌, none, some, leb, nat_beq, length, if◌then◌else◌, List,
}
use iscsi_s.Result.{ok, Exec, and_then}
use iscsi_s.Store.{BlockStore}
use iscsi_s.WriteCache.{Core, is_none}
use iscsi_s.WriteCache.Dirty
use iscsi_s.WriteCache.Chunks.{write_inner, remove_file}
use iscsi_s.WriteCache.Thread.{hand_over, worker_step}
use iscsi_s.WriteCache.Files.{FileSystem}

module _ {S D : Type 0} (ops : BlockStore S) (fs : FileSystem D) where
  -- One round writes a chunk and drops it.
  unfoldable pub evict_chunk : ℕ → List ℕ → Exec (Core S D) (Unit {0})
  evict_chunk idx bytes c =
      and_then (write_inner ops idx bytes c)
        λ _ c. remove_file fs idx (record c { dirty = Dirty.remove idx c.dirty })

  unfoldable pub evict_loop : ℕ → Exec (Core S D) (Unit {0})
  unfolding evict_chunk
  evict_loop zero c = (ok tt, c)
  evict_loop (suc n) c = elim (leb c.dirty.used_bytes c.cache_max) [
    | true ↦ (ok tt, c)
    | false ↦ elim (Dirty.oldest c.dirty) [
      | none ↦ (ok tt, c)
      | some idx ↦ elim (Dirty.get idx c.dirty) [
        | none ↦ evict_loop n c
        | some bytes ↦ and_then (evict_chunk idx bytes c) λ _ c. evict_loop n c
      ]
    ]
  ]

  unfoldable pub evict_direct : Exec (Core S D) (Unit {0})
  unfolding evict_loop
  evict_direct c =
      if nat_beq c.cache_max 0 || is_none c.mode
      then (ok tt, c)
      else evict_loop (length c.dirty.chunks) c

  unfoldable pub move_loop : ℕ → Exec (Core S D) (Unit {0})
  move_loop zero c = (ok tt, c)
  move_loop (suc n) c = elim c.buffer [
    | none ↦ (ok tt, c)
    | some b ↦ elim (leb c.dirty.used_bytes c.cache_max) [
      | true ↦ (ok tt, c)
      | false ↦ elim (Dirty.oldest c.dirty) [
        | none ↦ (ok tt, c)
        | some idx ↦
            let (moved, c') = hand_over b idx c in
            elim moved [
              | true ↦ move_loop n c'
              | false ↦ elim c'.ctl.stop [
                | true ↦ (ok tt, c')
                | false ↦ move_loop n (worker_step ops fs c')
              ]
            ]
      ]
    ]
  ]

  unfoldable pub evict_into_buffer : ℕ → Exec (Core S D) (Unit {0})
  unfolding evict_direct move_loop
  evict_into_buffer patience c = elim c.buffer [
    | none ↦ evict_direct c
    | some _ ↦ if nat_beq c.cache_max 0 then (ok tt, c) else move_loop patience c
  ]
