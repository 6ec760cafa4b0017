-- ===== src/WriteCache/Puts.antt =====
-- src/write_cache.rs, `write_inner`: a whole chunk written to the inner store, where the write
-- succeeds and where it fails.
use iscsi_s.Prelude.{
  ℕ, ◌+◌, ◌-◌, ◌*◌, ◌/◌, ◌%◌, ◌≤◌, ◌<◌, ◌≡◌, ◌≢◌, ◌⊎◌, refl, sym, ap, ◌∙◌, inl, inr, List, length,
  get_or, min, take, arith, overlay, ltb, Bool-cases, div_parts, mod_bound, get_or-take,
  length-take,
}
use native.Mathlib.Decide.{dec_lt}
use iscsi_s.Result.{Result, ok, err, Ends}
use iscsi_s.Pieces.{chunk_below}
use iscsi_s.Store.{BlockStore, u64_size}
use iscsi_s.Store.Laws.{IsBlockStore, Writes}
use iscsi_s.WriteCache.Chunks.{write_chunk, saturating_mul}

pub outside_chunk : (p idx c : ℕ) → 0 < c → p / c ≢ idx → (p < idx * c) ⊎ (idx * c + c ≤ p)
outside_chunk p idx c pos ne =
    let parts = div_parts p c in
    let bound = mod_bound p c pos in
    elim (dec_lt (p / c) idx) [
      | yes lt ↦ let below = chunk_below (p / c) idx c lt in inl (omega arith)
      | no ge ↦ let below = chunk_below idx (p / c) c (omega arith) in inr (omega arith)
    ]

pub inside_chunk : (p idx c : ℕ) → p / c ≡ idx → p ≡ idx * c + p % c
inside_chunk p idx c e = sym (div_parts p c) ∙ ap (λ q. q * c + p % c) e

module _ {S : Type 0} (ops : BlockStore S) (IsValid : S → Type 0) (content : S → ℕ → ℕ) where
  pub record SameSizes (s t : S) : Type 0 where
    pub valid : IsValid t
    pub capacity : ops.capacity t ≡ ops.capacity s
    pub block_size : ops.block_size t ≡ ops.block_size s
    pub chunk_size : ops.chunk_size t ≡ ops.chunk_size s

  -- What the write cache needs of its inner store beyond `IsBlockStore`: a write that fails may have
  -- changed bytes of its range, and no other.
  pub record FailsWithin : Type 0 where
    pub fails :
        (s : S) (offset : ℕ) (bytes : List ℕ)
        → IsValid s
        → Ends
            (λ _ _. Unit)
            (λ _ t.
              SameSizes s t
              × ((p : ℕ) → (p < offset) ⊎ (offset + length bytes ≤ p) → content t p ≡ content s p))
            (ops.write_at offset bytes s)

  -- Nothing but one chunk has changed.
  pub record Kept (idx : ℕ) (s t : S) : Type 0 where
    pub sizes : SameSizes s t
    pub others : (p : ℕ) → p / ops.chunk_size s ≢ idx → content t p ≡ content s p

  -- The chunk holds `bytes`, as far as the volume goes.
  abbrev pub IsPut : ℕ → List ℕ → S → S → Type 0
  IsPut idx bytes s t =
      (p : ℕ)
      → p / ops.chunk_size s ≡ idx
      → p < ops.capacity s
      → content t p ≡ get_or bytes (p % ops.chunk_size s) 0

  abbrev pub Put : ℕ → List ℕ → S → Result (Unit {0}) × S → Type 0
  Put idx bytes s = Ends (λ _ t. Kept idx s t × IsPut idx bytes s t) (λ _ t. Kept idx s t)

  module _ (laws : IsBlockStore ops IsValid content) (safe : FailsWithin) (s : S) (v : IsValid s)
      (small : ops.capacity s < u64_size) (idx : ℕ) (bytes : List ℕ)
      (sized : length bytes ≡ ops.chunk_size s) where
    abbrev valid : ℕ
    valid = min (ops.capacity s - idx * ops.chunk_size s) (length bytes)

    part_le : length (take valid bytes) ≤ ops.chunk_size s
    part_le = omega (arith, length-take valid bytes)

    outside :
        (p : ℕ)
        → p / ops.chunk_size s ≢ idx
        → (p < idx * ops.chunk_size s) ⊎ (idx * ops.chunk_size s + length (take valid bytes) ≤ p)
    outside p ne =
        let apart = outside_chunk p idx (ops.chunk_size s) (laws.chunk_pos s v) ne in
        ground (arith, part_le)

    overlaid_other :
        (p : ℕ)
        → p / ops.chunk_size s ≢ idx
        → overlay (content s) (idx * ops.chunk_size s) (take valid bytes) p ≡ content s p
    overlaid_other p ne = ground (arith, outside p ne)

    overlaid_here :
        (p : ℕ)
        → p / ops.chunk_size s ≡ idx
        → p < ops.capacity s
        → overlay (content s) (idx * ops.chunk_size s) (take valid bytes) p
          ≡ get_or bytes (p % ops.chunk_size s) 0
    overlaid_here p e lt =
        let at = inside_chunk p idx (ops.chunk_size s) e in
        let bound = mod_bound p (ops.chunk_size s) (laws.chunk_pos s v) in
        let within : p - idx * ops.chunk_size s ≡ p % ops.chunk_size s = omega arith in
        ground (
          arith,
          length-take valid bytes,
          get_or-take valid bytes (p % ops.chunk_size s) 0,
          ap (λ k. get_or (take valid bytes) k 0) within,
        )

    after_write :
        (r : Result (Unit {0}) × S)
        → Writes ops IsValid content s (idx * ops.chunk_size s) (take valid bytes) r
        → Ends
            (λ _ _. Unit)
            (λ _ t.
              SameSizes s t
              × ((p : ℕ)
                  → (p < idx * ops.chunk_size s)
                    ⊎ (idx * ops.chunk_size s + length (take valid bytes) ≤ p)
                  → content t p ≡ content s p))
            r
        → Put idx bytes s r
    after_write (ok _, t) (shows, fits) w = (
      record {
        sizes = record {
          valid = shows.valid;
          capacity = shows.same.capacity;
          block_size = shows.same.block_size;
          chunk_size = shows.same.chunk_size;
        };
        others = λ p ne. shows.same.content p ∙ overlaid_other p ne;
      },
      λ p e lt. shows.same.content p ∙ overlaid_here p e lt,
    )
    after_write (err e, t) w (sizes, same) = record {
      sizes = sizes;
      others = λ p ne. same p (outside p ne);
    }

    past :
        (p : ℕ)
        → ops.capacity s ≤ saturating_mul idx (ops.chunk_size s)
        → p / ops.chunk_size s ≡ idx
        → ops.capacity s ≤ p
    past p le e = let at = inside_chunk p idx (ops.chunk_size s) e in omega arith

    pub write_chunk-Put : Put idx bytes s (write_chunk ops idx bytes s)
    unfolding write_chunk
    write_chunk-Put =
        elim (Bool-cases (ltb (saturating_mul idx (ops.chunk_size s)) (ops.capacity s))) [
          | inl inside ↦
              let offset : saturating_mul idx (ops.chunk_size s) ≡ idx * ops.chunk_size s =
                ground arith in
              rw (inside, offset)
                (after_write (ops.write_at (idx * ops.chunk_size s) (take valid bytes) s)
                  (laws.writes s (idx * ops.chunk_size s) (take valid bytes) v)
                  (safe.fails s (idx * ops.chunk_size s) (take valid bytes) v))
          | inr beyond ↦
              rw (beyond, Ends)
                (
                  record {
                    sizes = record {
                      valid = v;
                      capacity = refl;
                      block_size = refl;
                      chunk_size = refl;
                    };
                    others = λ p ne. refl;
                  },
                  λ p e lt. absurd (omega (arith, past p (ground arith) e)),
                )
        ]
