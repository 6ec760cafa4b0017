-- ===== src/Store/Laws.antt =====
-- What a block store promises: it is a flat disk of bytes. A store is seen as a `Volume`, its
-- geometry and the byte at each position, and each operation is specified by its effect on that.
use iscsi_s.Prelude.{
  ℕ, ◌+◌, ◌/◌, ◌≤◌, ◌<◌, ◌≡◌, refl, ◌∙◌, Bool, false, List, [], ◌∷◌, nat_beq, if◌then◌else◌, length,
  tabulate, overlay, ◌||◌,
}
use iscsi_s.Result.{Result, Ends}
use iscsi_s.Store.{BlockStore, u64_size}

pub record Volume : Type 0 where
  pub capacity : ℕ
  pub block_size : ℕ
  pub chunk_size : ℕ
  pub content : ℕ → ℕ

pub record SameVolume (v w : Volume) : Type 0 where
  pub capacity : v.capacity ≡ w.capacity
  pub block_size : v.block_size ≡ w.block_size
  pub chunk_size : v.chunk_size ≡ w.chunk_size
  pub content : (p : ℕ) → v.content p ≡ w.content p

pub SameVolume-refl : (v : Volume) → SameVolume v v
SameVolume-refl v = record {
  capacity = refl;
  block_size = refl;
  chunk_size = refl;
  content = λ p. refl;
}

pub SameVolume-trans : {u v w : Volume} → SameVolume u v → SameVolume v w → SameVolume u w
SameVolume-trans a b = record {
  capacity = a.capacity ∙ b.capacity;
  block_size = a.block_size ∙ b.block_size;
  chunk_size = a.chunk_size ∙ b.chunk_size;
  content = λ p. a.content p ∙ b.content p;
}

-- The disk after a write, after a grow, and after a chunk is removed (it reads as zeros again).
abbrev pub written : Volume → ℕ → List ℕ → Volume
written v offset bytes = record v { content = overlay v.content offset bytes }

abbrev pub resized : Volume → ℕ → Volume
resized v capacity = record v { capacity = capacity }

abbrev pub cleared : Volume → ℕ → Volume
cleared v idx = record v {
  content = λ p. if nat_beq (p / v.chunk_size) idx then 0 else v.content p;
}

abbrev pub contains : List ℕ → ℕ → Bool
contains [] a = false
contains (x ∷ xs) a = nat_beq x a || contains xs a

module _ {S : Type 0} (ops : BlockStore S) (IsValid : S → Type 0) (content : S → ℕ → ℕ) where
  abbrev pub volume : S → Volume
  volume s = record {
    capacity = ops.capacity s;
    block_size = ops.block_size s;
    chunk_size = ops.chunk_size s;
    content = content s;
  }

  -- The state is valid, and shows the disk `v`.
  pub record Shows (s : S) (v : Volume) : Type 0 where
    pub valid : IsValid s
    pub same : SameVolume (volume s) v

  -- A read changes nothing, whether it succeeds or fails; on success the buffer holds the disk's
  -- bytes, all of them below the capacity.
  abbrev pub Reads : S → ℕ → ℕ → Result (List ℕ) × S → Type 0
  Reads s offset len =
      Ends
        (λ buf s'.
          Shows s' (volume s)
          × (buf ≡ tabulate (content s) offset len)
          × (offset + len ≤ ops.capacity s))
        (λ _ s'. Shows s' (volume s))

  -- A write that succeeds lies below the capacity and writes those bytes and no other.
  abbrev pub Writes : S → ℕ → List ℕ → Result (Unit {0}) × S → Type 0
  Writes s offset bytes =
      Ends
        (λ _ s'.
          Shows s' (written (volume s) offset bytes) × (offset + length bytes ≤ ops.capacity s))
        (λ _ _. Unit)

  pub record IsBlockStore : Type 0 where
    pub chunk_pos : (s : S) → IsValid s → 0 < ops.chunk_size s
    -- Nothing is stored past the end, so a volume that grows shows zeros.
    pub beyond : (s : S) → IsValid s → (p : ℕ) → ops.capacity s ≤ p → content s p ≡ 0
    pub reads :
        (s : S) (offset : ℕ) (buf : List ℕ)
        → IsValid s
        → Reads s offset (length buf) (ops.read_at offset buf s)
    pub writes :
        (s : S) (offset : ℕ) (bytes : List ℕ)
        → IsValid s
        → Writes s offset bytes (ops.write_at offset bytes s)
    -- The capacity never shrinks; a refused change changes nothing.
    pub resizes :
        (s : S) (capacity : ℕ)
        → IsValid s
        → capacity < u64_size
        → Ends
            (λ _ s'. Shows s' (resized (volume s) capacity) × (ops.capacity s ≤ capacity))
            (λ _ s'. Shows s' (volume s))
            (ops.set_capacity capacity s)
    pub flushes :
        (s : S) → IsValid s → Ends (λ _ s'. Shows s' (volume s)) (λ _ _. Unit) (ops.flush s)
    -- A chunk that is not listed holds zeros.
    pub lists :
        (s : S)
        → IsValid s
        → Ends
            (λ idxs s'.
              Shows s' (volume s)
              × ((p : ℕ) → contains idxs (p / ops.chunk_size s) ≡ false → content s p ≡ 0))
            (λ _ s'. Shows s' (volume s))
            (ops.present_chunks s)
    pub deletes :
        (s : S) (idx : ℕ)
        → IsValid s
        → idx < u64_size
        → Ends (λ _ s'. Shows s' (cleared (volume s) idx)) (λ _ _. Unit) (ops.delete_chunk idx s)
