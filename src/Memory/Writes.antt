-- ===== src/Memory/Writes.antt =====
-- src/store/memory.rs, `MemoryStore::write_at`.
use iscsi_s.Store.Laws.{Volume, Shows, volume, written}
use iscsi_s.Prelude.{
  ℕ, ◌+◌, ◌*◌, ◌/◌, ◌≤◌, ◌<◌, ◌≡◌, refl, sym, ◌∙◌, Option, none, some, List, arith, length, get_or,
  slice, copy_at, overlay, take, length-replicate, length-slice, length-copy_at, get_or-replicate,
  overlay-take, take_all, if◌then◌else◌, mul-add-div_lt, mul-add-mod_lt, overlay_ext, true,
  overlay-nil, false,
}
use iscsi_s.Prelude.Eq.{nat_eq}
use iscsi_s.Result.{out_of_range, ok, err, Ends, Ends-ok}
use iscsi_s.Pieces.{for_pieces, for_pieces_rule, overlay-piece, Step}
use iscsi_s.HashMap.{lookup, insert, lookup-insert}
use iscsi_s.Store.{check_range_ok, check_range_err}
use iscsi_s.Memory.{
  MemoryStore, write_piece, write_at, chunk_or_zeros, or_zeros, Bool, memory_store,
}
use iscsi_s.Memory.Content.{IsValid, content, stored_byte}

length-or_zeros :
    (chunk_size : ℕ) (o : Option (List ℕ))
    → ((chunk : List ℕ) → o ≡ some chunk → length chunk ≡ chunk_size)
    → length (or_zeros chunk_size o) ≡ chunk_size
length-or_zeros chunk_size none h = length-replicate {A = ℕ} chunk_size 0
length-or_zeros chunk_size (some chunk) h = h chunk refl

get_or-or_zeros :
    (chunk_size k : ℕ) (o : Option (List ℕ)) → get_or (or_zeros chunk_size o) k 0 ≡ stored_byte o k
get_or-or_zeros chunk_size k none = get_or-replicate {A = ℕ} chunk_size k 0
get_or-or_zeros chunk_size k (some chunk) = refl

stored_byte-if :
    (b : Bool) (chunk : List ℕ) (o : Option (List ℕ)) (i : ℕ)
    → stored_byte (if b then some chunk else o) i
      ≡ (if b then get_or chunk i 0 else stored_byte o i)
stored_byte-if true chunk o i = refl
stored_byte-if false chunk o i = refl

chunk_or_zeros-content :
    (s : MemoryStore) (idx k : ℕ)
    → k < s.chunk_size
    → get_or (chunk_or_zeros s idx) k 0 ≡ content s (idx * s.chunk_size + k)
chunk_or_zeros-content s idx k lt =
    rw (mul-add-div_lt idx k s.chunk_size lt, mul-add-mod_lt idx k s.chunk_size lt)
      (get_or-or_zeros s.chunk_size k (lookup idx s.chunks))

module _ (s : MemoryStore) (idx within base : ℕ) (piece : List ℕ) (v : IsValid s)
    (split : idx * s.chunk_size + within ≡ base) (room : within + length piece ≤ s.chunk_size) where
  abbrev after : MemoryStore
  after = record s { chunks = insert idx (copy_at (chunk_or_zeros s idx) within piece) s.chunks }

  -- One piece written into its chunk is that piece laid over the disk.
  content-after : (p : ℕ) → content after p ≡ overlay (content s) base piece p
  content-after p =
      rw (lookup-insert idx (p / s.chunk_size) _ s.chunks, stored_byte-if)
        (overlay-piece (content s) (chunk_or_zeros s idx) piece s.chunk_size idx within base p
          v.chunk_pos split room (length-or_zeros s.chunk_size (lookup idx s.chunks) (v.sized idx))
          (chunk_or_zeros-content s idx))

  after-IsValid : base + length piece ≤ s.capacity → IsValid after
  after-IsValid fits = record {
    block_pos = v.block_pos;
    chunk_pos = v.chunk_pos;
    small = v.small;
    aligned = v.aligned;
    sized = λ j chunk e. ground (
      arith,
      lookup-insert idx j (copy_at (chunk_or_zeros s idx) within piece) s.chunks,
      length-copy_at (chunk_or_zeros s idx) within piece,
      length-or_zeros s.chunk_size (lookup idx s.chunks) (v.sized idx),
      v.sized j chunk,
    );
    beyond = λ p past. content-after p ∙ ground (arith, v.beyond p past);
  }

module _ (s : MemoryStore) (offset : ℕ) (bytes : List ℕ) (v : IsValid s)
    (fits : offset + length bytes ≤ s.capacity) where
  abbrev shown : MemoryStore → Volume
  shown = volume memory_store IsValid content

  abbrev Wrote : ℕ → MemoryStore → Type 0
  Wrote done t = Shows memory_store IsValid content t (written (shown s) offset (take done bytes))

  write_piece-Wrote : Step s.chunk_size offset (length bytes) (write_piece bytes) Wrote (λ _ _. ⊥)
  unfolding write_piece
  write_piece-Wrote done idx within taken t split room inside w =
      let piece = slice bytes done taken in
      let size = length-slice bytes done taken inside in
      let here : idx * t.chunk_size + within ≡ offset + done = rw w.same.chunk_size split in
      let fit : within + length piece ≤ t.chunk_size = rw (w.same.chunk_size, size) room in
      record {
        valid =
            after-IsValid t idx within (offset + done) piece w.valid here fit
              (rw (w.same.capacity, size) (omega arith));
        same = record {
          capacity = w.same.capacity;
          block_size = w.same.block_size;
          chunk_size = w.same.chunk_size;
          content = λ p.
              content-after t idx within (offset + done) piece w.valid here fit p
              ∙ (overlay_ext (content t) (overlay (content s) offset (take done bytes))
                    (offset + done) piece p (w.same.content p)
                  ∙ overlay-take (content s) offset bytes done taken p inside);
        };
      }

  write_loop :
      Ends
        (λ _. Wrote (length bytes))
        (λ _ _. ⊥)
        (for_pieces (length bytes) s.chunk_size offset (length bytes) 0 (write_piece bytes) s)
  write_loop =
      for_pieces_rule s.chunk_size offset (length bytes) (write_piece bytes) Wrote (λ _ _. ⊥)
        write_piece-Wrote v.chunk_pos (length bytes) 0 s (omega arith) (omega arith)
        (record {
          valid = v;
          same = record {
            capacity = refl;
            block_size = refl;
            chunk_size = refl;
            content = λ p. sym (overlay-nil (content s) offset p);
          };
        })

-- A write within the capacity of a valid store succeeds, and afterwards the disk holds the bytes
-- given at the offset given and its old bytes everywhere else.
pub write_at_lem :
    (s : MemoryStore) (offset : ℕ) (bytes : List ℕ)
    → IsValid s
    → offset + length bytes ≤ s.capacity
    → (t : MemoryStore) × (write_at offset bytes s ≡ (ok tt, t))
      × Shows memory_store IsValid content t
          (written (volume memory_store IsValid content s) offset bytes)
unfolding write_at
write_at_lem s offset bytes v fits =
    rw (check_range_ok s.capacity offset (length bytes) fits v.small) (
      rw (take_all (length bytes) bytes (omega arith)) at (
        Ends-ok {S = MemoryStore} (Wrote s offset bytes v fits (length bytes))
          (for_pieces (length bytes) s.chunk_size offset (length bytes) 0 (write_piece bytes) s)
          (write_loop s offset bytes v fits)))

-- A write past the capacity is refused with the offset, length and capacity, and changes nothing.
pub write_at_past :
    (s : MemoryStore) (offset : ℕ) (bytes : List ℕ)
    → s.capacity < offset + length bytes
    → write_at offset bytes s ≡ (err (out_of_range offset (length bytes) s.capacity), s)
unfolding write_at
write_at_past s offset bytes past = rw (check_range_err s.capacity offset (length bytes) past)
