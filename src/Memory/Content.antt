-- ===== src/Memory/Content.antt =====
-- The disk that a `MemoryStore` shows, and its invariant.
use iscsi_s.Prelude.{ℕ, ◌/◌, ◌%◌, ◌≤◌, ◌<◌, ◌≡◌, Option, none, some, List, length, get_or}
use iscsi_s.Prelude.Eq.{nat_eq}
use iscsi_s.HashMap.{lookup}
use iscsi_s.Store.{u64_size}
use iscsi_s.Memory.{MemoryStore}

abbrev pub stored_byte : Option (List ℕ) → ℕ → ℕ
stored_byte none i = 0
stored_byte (some chunk) i = get_or chunk i 0

abbrev pub content : MemoryStore → ℕ → ℕ
content s p = stored_byte (lookup (p / s.chunk_size) s.chunks) (p % s.chunk_size)

pub record IsValid (s : MemoryStore) : Type 0 where
  pub block_pos : 0 < s.block_size
  pub chunk_pos : 0 < s.chunk_size
  pub small : s.capacity < u64_size
  pub aligned : s.capacity % s.block_size ≡ 0
  pub sized :
      (idx : ℕ) (chunk : List ℕ) → lookup idx s.chunks ≡ some chunk → length chunk ≡ s.chunk_size
  pub beyond : (p : ℕ) → s.capacity ≤ p → content s p ≡ 0
