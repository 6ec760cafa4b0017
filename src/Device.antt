-- ===== src/Device.antt =====
-- src/device.rs: `S3BlockDevice`, the SCSI device that the iSCSI target calls, over any block
-- store. `map_err` turns a `StoreError` into the target library's error by its message; here the
-- `StoreError` stays. Metrics, and the inquiry strings (vendor, product, serial, NAA), are not
-- modelled. `usize` has 64 bits.
pub mod Laws
pub mod ReadAfterWrite
use iscsi_s.Prelude.{
  ℕ, ◌*◌, ◌/◌, ◌%◌, Option, none, some, List, not, ltb, nat_beq, if◌then◌else◌, length, replicate,
}
use iscsi_s.Result.{geometry_mismatch, other, err, Exec}
use iscsi_s.Store.{BlockStore, u64_size}

-- `u64::checked_mul`.
abbrev pub checked_mul : ℕ → ℕ → Option ℕ
checked_mul a b = if ltb (a * b) u64_size then some (a * b) else none

module _ {S : Type 0} (ops : BlockStore S) where
  unfoldable pub read : ℕ → ℕ → ℕ → Exec S (List ℕ)
  read lba blocks block_size s =
      if not (nat_beq block_size (ops.block_size s))
      then (err (geometry_mismatch "unexpected block_size"), s)
      else elim (checked_mul lba block_size) [
        | none ↦ (err (other "lba overflow"), s)
        | some offset ↦ elim (checked_mul blocks block_size) [
          | none ↦ (err (other "length overflow"), s)
          | some len ↦ ops.read_at offset (replicate len 0) s
        ]
      ]

  unfoldable pub write : ℕ → List ℕ → ℕ → Exec S (Unit {0})
  write lba bytes block_size s =
      if not (nat_beq block_size (ops.block_size s))
      then (err (geometry_mismatch "unexpected block_size"), s)
      else if not (nat_beq (length bytes % block_size) 0)
      then (err (other "write length not multiple of block_size"), s)
      else elim (checked_mul lba block_size) [
        | none ↦ (err (other "lba overflow"), s)
        | some offset ↦ ops.write_at offset bytes s
      ]

  -- The number of blocks.
  abbrev pub capacity : S → ℕ
  capacity s = ops.capacity s / ops.block_size s

  abbrev pub flush : Exec S (Unit {0})
  flush = ops.flush
