-- ===== src/WriteCache/Writes.antt =====
-- src/write_cache.rs, `write_at` of `WriteCachedStore`: a chunk that is written becomes dirty.
use iscsi_s.Prelude.{
  ℕ, ◌+◌, ◌*◌, ◌/◌, ◌≤◌, ◌≡◌, sym, ap, ◌∙◌, some, List, length, arith, overlay, tabulate, copy_at,
}
use native.Mathlib.Decide.{ℕ_discrete}
use iscsi_s.Prelude.Eq.{nat_eq}
use iscsi_s.Result.{ok, err}
use iscsi_s.Pieces.{copy_at-chunk, other-chunk}
use iscsi_s.Store.{BlockStore}
use iscsi_s.Store.Laws.{IsBlockStore}
use iscsi_s.WriteCache.{Core, Worker, at_top, parked, stopped, holding, written_back}
use iscsi_s.WriteCache.Dirty
use iscsi_s.WriteCache.Chunks.{lookup}
use iscsi_s.WriteCache.Puts.{outside_chunk}
use iscsi_s.WriteCache.View.{Holds, Flying, none_some, some_eq}
use iscsi_s.WriteCache.Queue.{dirty-insert}

module _ {S D : Type 0} (ops : BlockStore S) (IsValid : S → Type 0) (content : S → ℕ → ℕ)
    (laws : IsBlockStore ops IsValid content) (f : ℕ → ℕ) (c : Core S D)
    (h : Holds ops IsValid content f c) (files : D) (idx within base : ℕ) (piece : List ℕ)
    (split : idx * ops.chunk_size c.inner + within ≡ base)
    (room : within + length piece ≤ ops.chunk_size c.inner)
    (fits : base + length piece ≤ ops.capacity c.inner) where
  abbrev size : ℕ
  size = ops.chunk_size c.inner

  abbrev chunk : List ℕ
  chunk = copy_at (tabulate f (idx * size) size) within piece

  abbrev pub inserted : Core S D
  inserted = record c { files = files; dirty = Dirty.insert c.now idx chunk c.dirty }

  apart : (p : ℕ) → (p / size ≡ idx → ⊥) → overlay f base piece p ≡ f p
  apart p ne =
      let out = outside_chunk p idx size (laws.chunk_pos c.inner h.inner) ne in ground arith

  lookup-inserted_self : lookup idx inserted ≡ some chunk
  lookup-inserted_self = ground (arith, dirty-insert c.now idx idx chunk c.dirty)

  lookup-inserted : (j : ℕ) → (j ≡ idx → ⊥) → lookup j inserted ≡ lookup j c
  lookup-inserted j ne = ground (arith, dirty-insert c.now idx j chunk c.dirty)

  Flying-inserted :
      (w : Worker)
      → Flying ops IsValid content w f c
      → Flying ops IsValid content w (overlay f base piece) inserted
  Flying-inserted at_top x = tt
  Flying-inserted parked x = tt
  Flying-inserted stopped x = tt
  Flying-inserted (holding job) x = x
  Flying-inserted (written_back job (ok _)) x = (
    x.0,
    λ p e gone. elim (ℕ_discrete job.idx idx) [
      | yes at ↦ absurd (ground (arith, dirty-insert c.now idx job.idx chunk c.dirty, gone))
      | no ne ↦
          x.1 p e (ground (arith, dirty-insert c.now idx job.idx chunk c.dirty, gone))
          ∙ sym (apart p (λ k. ne (sym e ∙ k)))
    ],
  )
  Flying-inserted (written_back job (err _)) x = x

  -- A piece written into a chunk that is loaded, and made dirty: clients see the piece, and every
  -- other byte as it was, in whatever state the chunk and the worker are.
  pub inserted-Holds : Holds ops IsValid content (overlay f base piece) inserted
  inserted-Holds = record {
    inner = h.inner;
    small = h.small;
    zero = λ p past. ground (arith, h.zero p past);
    cached = λ j bytes found. elim (ℕ_discrete j idx) [
      | yes at ↦
          some_eq (sym (ap (λ i. lookup i inserted) at ∙ lookup-inserted_self) ∙ found)
          ∙ (copy_at-chunk f piece size idx within base split room
              ∙ ap (λ i. tabulate (overlay f base piece) (i * size) size) (sym at))
      | no ne ↦
          h.cached j bytes (sym (lookup-inserted j ne) ∙ found)
          ∙ other-chunk f piece size idx j within base split room ne
    ];
    under = λ p gone. elim (ℕ_discrete (p / size) idx) [
      | yes at ↦
          absurd (none_some (sym gone ∙ (ap (λ i. lookup i inserted) at ∙ lookup-inserted_self)))
      | no ne ↦ h.under p (sym (lookup-inserted (p / size) ne) ∙ gone) ∙ sym (apart p ne)
    ];
    sized = h.sized;
    flying = Flying-inserted c.worker h.flying;
  }
