-- ===== src/Admin.antt =====
-- src/admin.rs, `wipe_volume`: the chunks that a store lists are removed one by one, then it is
-- flushed.
pub mod Wipe
use iscsi_s.Prelude.{ℕ, ◌+◌, List, [], ◌∷◌}
use iscsi_s.Result.{ok, Exec, and_then}
use iscsi_s.Store.{BlockStore}

module _ {S : Type 0} (ops : BlockStore S) where
  -- The loop over the chunks, with the number of those that are gone.
  unfoldable pub delete_chunks : List ℕ → ℕ → Exec S ℕ
  delete_chunks [] chunks_deleted s = (ok chunks_deleted, s)
  delete_chunks (idx ∷ idxs) chunks_deleted s =
      and_then (ops.delete_chunk idx s) λ _ s. delete_chunks idxs (chunks_deleted + 1) s

  unfoldable pub wipe_volume : Exec S ℕ
  wipe_volume s = and_then (ops.present_chunks s) λ chunks s.
      and_then (delete_chunks chunks 0 s)
        λ chunks_deleted s. and_then (ops.flush s) λ _ s. (ok chunks_deleted, s)
