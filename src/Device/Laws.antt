-- ===== src/Device/Laws.antt =====
-- src/device.rs, `S3BlockDevice` over a store that keeps the promises of `BlockStore`.
use iscsi_s.Store.{BlockStore}
use iscsi_s.Store.Laws.{IsBlockStore, Shows, SameVolume-refl, volume, written, Writes}
use iscsi_s.Device.{read, write, checked_mul, some, err}
use iscsi_s.Result.{Ends, Result, ok}
use iscsi_s.Prelude.{
  ℕ, ◌+◌, ◌*◌, ◌≤◌, ◌≡◌, List, length, tabulate, Bool-cases, Option-cases, inl, inr,
  length-replicate, replicate, nat_beq, ◌%◌, arith,
}

module _ {S : Type 0} (ops : BlockStore S) (IsValid : S → Type 0) (content : S → ℕ → ℕ)
    (laws : IsBlockStore ops IsValid content) (s : S) (v : IsValid s) where
  stays : Shows ops IsValid content s (volume ops IsValid content s)
  stays = record { valid = v; same = SameVolume-refl (volume ops IsValid content s) }

  checked_mul_lem : (a b : ℕ) {n : ℕ} → checked_mul a b ≡ some n → n ≡ a * b
  checked_mul_lem a b h = ground arith

  reads_as :
      (offset len a n : ℕ)
      → offset ≡ a
      → len ≡ n
      → Ends
          (λ buf s'.
            Shows ops IsValid content s' (volume ops IsValid content s)
            × (buf ≡ tabulate (content s) a n)
            × (a + n ≤ ops.capacity s))
          (λ _ s'. Shows ops IsValid content s' (volume ops IsValid content s))
          (ops.read_at offset (replicate len 0) s)
  reads_as offset len a n e e' =
      rw (← e, ← e')
        (rw (length-replicate {A = ℕ} len 0) at (laws.reads s offset (replicate len 0) v))

  -- Over a lawful store, a device read that succeeds returns the bytes of exactly those blocks,
  -- all of them below the capacity; a read changes nothing, also where it fails.
  pub read-Reads :
      (lba blocks block_size : ℕ)
      → Ends
          (λ buf s'.
            Shows ops IsValid content s' (volume ops IsValid content s)
            × (buf ≡ tabulate (content s) (lba * block_size) (blocks * block_size))
            × (lba * block_size + blocks * block_size ≤ ops.capacity s))
          (λ _ s'. Shows ops IsValid content s' (volume ops IsValid content s))
          (read ops lba blocks block_size s)
  unfolding read
  read-Reads lba blocks block_size = elim (Bool-cases (nat_beq block_size (ops.block_size s))) [
    | inr other_size ↦ rw (other_size, Ends) stays
    | inl same_size ↦ elim (Option-cases (checked_mul lba block_size)) [
      | inl over ↦ rw (same_size, over, Ends) stays
      | inr (offset, at) ↦ elim (Option-cases (checked_mul blocks block_size)) [
        | inl over ↦ rw (same_size, at, over, Ends) stays
        | inr (len, many) ↦
            rw (same_size, at, many, Ends)
              (reads_as offset len (lba * block_size) (blocks * block_size)
                (checked_mul_lem lba block_size at) (checked_mul_lem blocks block_size many))
      ]
    ]
  ]

  writes_as :
      (offset a : ℕ) (bytes : List ℕ) (block_size : ℕ)
      → offset ≡ a
      → length bytes % block_size ≡ 0
      → Ends
          (λ _ s'.
            Shows ops IsValid content s' (written (volume ops IsValid content s) a bytes)
            × (a + length bytes ≤ ops.capacity s)
            × (length bytes % block_size ≡ 0))
          (λ _ _. Unit)
          (ops.write_at offset bytes s)
  writes_as offset a bytes block_size e whole =
      rw (← e) (with_whole (ops.write_at offset bytes s) (laws.writes s offset bytes v))
    where
      with_whole :
          (r : Result (Unit {0}) × S)
          → Writes ops IsValid content s offset bytes r
          → Ends
              (λ _ s'.
                Shows ops IsValid content s' (written (volume ops IsValid content s) offset bytes)
                × (offset + length bytes ≤ ops.capacity s)
                × (length bytes % block_size ≡ 0))
              (λ _ _. Unit)
              r
      with_whole (ok _, s') (shows, fits) = (shows, fits, whole)
      with_whole (err e, s') w = tt

  -- Over a lawful store, a device write that succeeds is of whole blocks below the capacity, and
  -- puts those bytes at that block and changes nothing else of the disk.
  pub write-Writes :
      (lba block_size : ℕ) (bytes : List ℕ)
      → Ends
          (λ _ s'.
            Shows ops IsValid content s'
              (written (volume ops IsValid content s) (lba * block_size) bytes)
            × (lba * block_size + length bytes ≤ ops.capacity s)
            × (length bytes % block_size ≡ 0))
          (λ _ _. Unit)
          (write ops lba bytes block_size s)
  unfolding write
  write-Writes lba block_size bytes = elim (Bool-cases (nat_beq block_size (ops.block_size s))) [
    | inr other_size ↦ rw (other_size, Ends) tt
    | inl same_size ↦ elim (Bool-cases (nat_beq (length bytes % block_size) 0)) [
      | inr partial ↦ rw (same_size, partial, Ends) tt
      | inl whole ↦ elim (Option-cases (checked_mul lba block_size)) [
        | inl over ↦ rw (same_size, whole, over, Ends) tt
        | inr (offset, at) ↦
            rw (same_size, whole, at, Ends)
              (writes_as offset (lba * block_size) bytes block_size
                (checked_mul_lem lba block_size at) (ground arith))
      ]
    ]
  ]
