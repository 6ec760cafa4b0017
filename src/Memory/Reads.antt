-- ===== src/Memory/Reads.antt =====
-- src/store/memory.rs, `MemoryStore::read_at`.
use iscsi_s.Prelude.{
  ℕ, ◌+◌, ◌*◌, ◌≤◌, ◌<◌, ◌≡◌, refl, sym, ap, ◌∙◌, inl, inr, none, some, List, ◌++◌, arith, length,
  drop, replicate, slice, tabulate, Option-cases, slice-eq-tabulate, tabulate_ext, copy_at-tabulate,
  skip-tabulate, append-nil, drop-replicate, [],
}
use native.Mathlib.Nat.{sub_self}
use iscsi_s.Prelude.Eq.{nat_eq}
use iscsi_s.Result.{out_of_range, Result, ok, err, Ends}
use iscsi_s.Pieces.{for_pieces, for_pieces_rule, piece_div}
use iscsi_s.HashMap.{lookup}
use iscsi_s.Store.{Reading, finish_read, check_range_ok, check_range_err}
use iscsi_s.Memory.{MemoryStore, read_piece, read_at}
use iscsi_s.Memory.Content.{IsValid, content, stored_byte}

module _ (s : MemoryStore) (offset len : ℕ) (v : IsValid s) where
  -- The part before `done` is filled, the rest is still zeros.
  abbrev Filled : ℕ → Reading MemoryStore → Type 0
  Filled done r =
      (r.store ≡ s) × (r.buf ≡ tabulate (content s) offset done ++ drop done (replicate len 0))

  module _ (done idx within taken : ℕ) (split : idx * s.chunk_size + within ≡ offset + done)
      (room : within + taken ≤ s.chunk_size) (fits : done + taken ≤ len) where
    piece_byte :
        (i : ℕ)
        → i < taken
        → content s (offset + done + i) ≡ stored_byte (lookup idx s.chunks) (within + i)
    piece_byte i lt =
        let (q, m) = piece_div s.chunk_size idx within taken (offset + done) i split room lt in
        rw (q, m)

    present :
        (chunk : List ℕ)
        → lookup idx s.chunks ≡ some chunk
        → slice chunk within taken ≡ tabulate (content s) (offset + done) taken
    present chunk e =
        slice-eq-tabulate chunk within taken (omega (arith, v.sized idx chunk e))
        ∙ tabulate_ext _ _ within (offset + done) taken
            (λ i lt. sym (piece_byte i lt ∙ ap (λ o. stored_byte o (within + i)) e))

    absent : lookup idx s.chunks ≡ none → (i : ℕ) → i < taken → content s (offset + done + i) ≡ 0
    absent e i lt = piece_byte i lt ∙ ap (λ o. stored_byte o (within + i)) e

    read_piece-Filled :
        (r : Reading MemoryStore)
        → Filled done r
        → Ends (λ _. Filled (done + taken)) (λ _ _. ⊥) (read_piece idx within taken done r)
    unfolding read_piece
    read_piece-Filled r (e, b) = elim (Option-cases (lookup idx s.chunks)) [
      | inl e' ↦
          let here : lookup idx r.store.chunks ≡ none =
            ap (λ (t : MemoryStore). lookup idx t.chunks) e ∙ e' in
          rw (here, Ends, read_piece)
            (e, b ∙ skip-tabulate (content s) offset done taken len fits (absent e'))
      | inr (chunk, e') ↦
          let here : lookup idx r.store.chunks ≡ some chunk =
            ap (λ (t : MemoryStore). lookup idx t.chunks) e ∙ e' in
          rw (here, Ends, read_piece)
            (
              e,
              rw (b, present chunk e')
                  (copy_at-tabulate (content s) offset done taken (replicate len 0)),
            )
    ]

  -- The loop fills the whole buffer.
  fill :
      Ends
        (λ _. Filled len)
        (λ _ _. ⊥)
        (for_pieces len s.chunk_size offset len 0 read_piece
          (record { store = s; buf = replicate len 0 }))
  fill =
      for_pieces_rule s.chunk_size offset len read_piece Filled (λ _ _. ⊥)
        (λ done idx within taken r split room fits p.
          read_piece-Filled done idx within taken split room fits r p)
        v.chunk_pos len 0 (record { store = s; buf = replicate len 0 }) (omega arith) (omega arith)
        (refl, refl)

  drop-zeros : drop len (replicate {A = ℕ} len 0) ≡ []
  drop-zeros =
      drop-replicate {A = ℕ} len len 0 ∙ ap (λ (k : ℕ). replicate {A = ℕ} k 0) (sub_self len)

  finish_read-Filled :
      (r : Result (Unit {0}) × Reading MemoryStore)
      → Ends (λ _. Filled len) (λ _ _. ⊥) r
      → finish_read r ≡ (ok (tabulate (content s) offset len), s)
  finish_read-Filled (ok _, r) (e, b) =
      let whole : r.buf ≡ tabulate (content s) offset len = rw drop-zeros at b ∙ append-nil _ in
      rw (e, whole)
  finish_read-Filled (err _, r) h = absurd h

-- A read within the capacity of a valid store succeeds with the bytes of the disk, whatever the
-- buffer held, and changes nothing.
pub read_at_lem :
    (s : MemoryStore) (offset : ℕ) (buf : List ℕ)
    → IsValid s
    → offset + length buf ≤ s.capacity
    → read_at offset buf s ≡ (ok (tabulate (content s) offset (length buf)), s)
unfolding read_at
read_at_lem s offset buf v fits =
    rw (check_range_ok s.capacity offset (length buf) fits v.small)
      (finish_read-Filled s offset (length buf) v _ (fill s offset (length buf) v))

-- A read past the capacity is refused with the offset, length and capacity, and changes nothing.
pub read_at_past :
    (s : MemoryStore) (offset : ℕ) (buf : List ℕ)
    → s.capacity < offset + length buf
    → read_at offset buf s ≡ (err (out_of_range offset (length buf) s.capacity), s)
unfolding read_at
read_at_past s offset buf past = rw (check_range_err s.capacity offset (length buf) past)
