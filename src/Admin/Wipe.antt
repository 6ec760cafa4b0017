-- ===== src/Admin/Wipe.antt =====
-- src/admin.rs, `wipe_volume` over any block store: what the disk is afterwards.
use iscsi_s.Prelude.{ℕ, ◌+◌, ◌/◌, ◌<◌, ◌≡◌, refl, true, false, List, [], ◌∷◌, length, arith, ap}
use iscsi_s.Result.{Result, ok, err, Ends, and_then}
use iscsi_s.Store.{BlockStore, u64_size}
use iscsi_s.Store.Laws.{
  IsBlockStore, Shows, SameVolume, SameVolume-trans, Volume, volume, cleared, contains,
}
use iscsi_s.CachedStore.{CachedStore, cached_store, lock_io, locked_error}
use iscsi_s.Admin.{delete_chunks, wipe_volume}

-- The disk with some chunks removed, and the disk of zeros.
abbrev emptied : Volume → List ℕ → Volume
emptied v [] = v
emptied v (idx ∷ idxs) = emptied (cleared v idx) idxs

abbrev pub zeroed : Volume → Volume
zeroed v = record v { content = λ p. 0 }

emptied-SameVolume :
    (idxs : List ℕ) (v w : Volume) → SameVolume v w → SameVolume (emptied v idxs) (emptied w idxs)
emptied-SameVolume [] v w same = same
emptied-SameVolume (idx ∷ idxs) v w same =
    emptied-SameVolume idxs (cleared v idx) (cleared w idx) record {
      capacity = same.capacity;
      block_size = same.block_size;
      chunk_size = same.chunk_size;
      content = λ p. ground (arith, same.content p, ap (λ c. p / c) same.chunk_size);
    }

-- Zeros, where every chunk that is not among those removed held zeros.
emptied-zeroed :
    (idxs : List ℕ) (v : Volume)
    → ((p : ℕ) → contains idxs (p / v.chunk_size) ≡ false → v.content p ≡ 0)
    → SameVolume (emptied v idxs) (zeroed v)
emptied-zeroed [] v rest = record {
  capacity = refl;
  block_size = refl;
  chunk_size = refl;
  content = λ p. rest p refl;
}
emptied-zeroed (idx ∷ idxs) v rest =
    let z = emptied-zeroed idxs (cleared v idx) (λ p out. ground (arith, rest p)) in
    record {
      capacity = z.capacity;
      block_size = z.block_size;
      chunk_size = z.chunk_size;
      content = z.content;
    }

module _ {S : Type 0} (ops : BlockStore S) (IsValid : S → Type 0) (content : S → ℕ → ℕ)
    (laws : IsBlockStore ops IsValid content) where
  abbrev Stays : S → Volume → Type 0
  Stays = Shows ops IsValid content

  abbrev disk : S → Volume
  disk = volume ops IsValid content

  delete_chunks-emptied :
      (idxs : List ℕ) (n : ℕ) (s : S) (v : Volume)
      → ((i : ℕ) → contains idxs i ≡ true → i < u64_size)
      → Stays s v
      → Ends
          (λ m t. Stays t (emptied v idxs) × (m ≡ n + length idxs))
          (λ _ _. Unit)
          (delete_chunks ops idxs n s)
  unfolding delete_chunks
  delete_chunks-emptied [] n s v small sh = (sh, omega arith)
  delete_chunks-emptied (idx ∷ idxs) n s v small sh =
      next (delete_chunks-emptied idxs (n + 1)) (ops.delete_chunk idx s)
        (laws.deletes s idx sh.valid (small idx (ground arith)))
    where
      next :
          ((t : S) (w : Volume)
            → ((i : ℕ) → contains idxs i ≡ true → i < u64_size)
            → Stays t w
            → Ends
                (λ m u. Stays u (emptied w idxs) × (m ≡ n + 1 + length idxs))
                (λ _ _. Unit)
                (delete_chunks ops idxs (n + 1) t))
          → (r : Result (Unit {0}) × S)
          → Ends (λ _ t. Stays t (cleared (disk s) idx)) (λ _ _. Unit) r
          → Ends
              (λ m t. Stays t (emptied (cleared v idx) idxs) × (m ≡ n + length (idx ∷ idxs)))
              (λ _ _. Unit)
              (and_then r λ _ s. delete_chunks ops idxs (n + 1) s)
      next ih (err e, t) h = tt
      next ih (ok _, t) h = counted (delete_chunks ops idxs (n + 1) t) (
          ih t (cleared v idx) (λ i listed. small i (ground arith))
            (record {
              valid = h.valid;
              same = SameVolume-trans h.same (emptied-SameVolume (idx ∷ []) (disk s) v sh.same);
            }))
        where
          counted :
              (r : Result ℕ × S)
              → Ends
                  (λ m t. Stays t (emptied (cleared v idx) idxs) × (m ≡ n + 1 + length idxs))
                  (λ _ _. Unit)
                  r
              → Ends
                  (λ m t. Stays t (emptied (cleared v idx) idxs) × (m ≡ n + length (idx ∷ idxs)))
                  (λ _ _. Unit)
                  r
          counted (ok m, u) h = (h.0, omega (arith, h.1))
          counted (err e, u) h = tt

  -- Over a lawful store that lists u64 numbers, a wipe that succeeds leaves a disk of zeros of the
  -- same capacity, block size and chunk size, and returns the number of chunks that the store listed.
  pub wipe_volume-zeroed :
      (s : S) {listed : List ℕ} {t u : S} {chunks_deleted : ℕ}
      → IsValid s
      → ops.present_chunks s ≡ (ok listed, t)
      → ((i : ℕ) → contains listed i ≡ true → i < u64_size)
      → wipe_volume ops s ≡ (ok chunks_deleted, u)
      → Shows ops IsValid content u (zeroed (volume ops IsValid content s))
        × (chunks_deleted ≡ length listed)
  unfolding wipe_volume
  wipe_volume-zeroed s {listed} {t} {u} {chunks_deleted} v lists small wiped =
      let l = rw lists at (laws.lists s v) in
      let zeros = emptied-zeroed listed (disk s) l.1 in
      let rest = rw lists at wiped in
      rw rest at (
        flushed zeros (delete_chunks ops listed 0 t)
          (delete_chunks-emptied listed 0 t (disk s) small l.0))
    where
      flushed :
          SameVolume (emptied (disk s) listed) (zeroed (disk s))
          → (r : Result ℕ × S)
          → Ends
              (λ m t. Stays t (emptied (disk s) listed) × (m ≡ 0 + length listed))
              (λ _ _. Unit)
              r
          → Ends
              (λ m u. Stays u (zeroed (disk s)) × (m ≡ length listed))
              (λ _ _. Unit)
              (and_then r λ m s. and_then (ops.flush s) λ _ s. (ok m, s))
      flushed zeros (err e, t) h = tt
      flushed zeros (ok m, t) (sh, e) = last (ops.flush t) (laws.flushes t sh.valid)
        where
          last :
              (r : Result (Unit {0}) × S)
              → Ends (λ _ u. Stays u (disk t)) (λ _ _. Unit) r
              → Ends
                  (λ m u. Stays u (zeroed (disk s)) × (m ≡ length listed))
                  (λ _ _. Unit)
                  (and_then r λ _ s. (ok m, s))
          last (err e', u) h = tt
          last (ok _, u) h = (
            record {
              valid = h.valid;
              same = SameVolume-trans h.same (SameVolume-trans sh.same zeros);
            },
            omega (arith, e),
          )

-- `volume_wipe` calls it through the store that it has locked, where it always fails.
wipe_volume-lock_io :
    {S : Type 0} (ops : BlockStore S) (c : CachedStore S)
    → wipe_volume (cached_store ops) (lock_io c) ≡ (err locked_error, lock_io c)
unfolding wipe_volume lock_io iscsi_s.CachedStore.present_chunks
wipe_volume-lock_io ops c = refl
