-- ===== src/ChunkCache.antt =====
-- src/cache.rs: `ChunkCache`, the least-recently-used pool of whole chunks that all volumes share.
-- The mutex makes each call one step. Byte counts and ticks are u64 in the source and stay far below
-- 2 ^ 64 (they count bytes in memory and calls); here they are plain numbers. `saturating_sub` is
-- the `-` of ℕ.
pub mod Bounds
pub mod Entries
pub mod Budget
use iscsi_s.Prelude.{
  ℕ, zero, suc, ◌+◌, ◌-◌, ◌≡◌, refl, ◌↔◌, String, Bool, true, false, ◌&&◌, Option, none, some, List,
  [], ◌∷◌, arith, leb, ltb, if◌then◌else◌, length, eq_iff, ◌*◌,
}
use iscsi_s.Prelude.Eq.{Eq, ◌==◌, nat_eq, string_eq}
use iscsi_s.HashMap.{HashMap, lookup, remove, insert}

pub record CacheEntry : Type 0 where
  pub bytes : List ℕ
  pub tick : ℕ

pub record CacheKey : Type 0 where
  pub volume : String
  pub chunk_idx : ℕ

abbrev pub key_beq : CacheKey → CacheKey → Bool
key_beq a b = (a.volume == b.volume) && (a.chunk_idx == b.chunk_idx)

pub key_beq_iff : (a b : CacheKey) → (key_beq a b ≡ true) ↔ (a ≡ b)
key_beq_iff a b = ground (arith, eq_iff a.volume b.volume)

instance abbrev pub key_eq : Eq CacheKey
key_eq = record { beq = key_beq; beq_iff = key_beq_iff }

-- `CacheInner`.
pub record ChunkCache : Type 0 where
  pub entries : HashMap CacheKey CacheEntry
  pub max_bytes : ℕ
  pub last_nonzero_max_bytes : ℕ
  pub used_bytes : ℕ
  pub tick : ℕ

-- `DEFAULT_CACHE_MAX` of src/config.rs: 256 MiB.
abbrev pub default_cache_max : ℕ
default_cache_max = 256 * 1024 * 1024

unfoldable pub new : ℕ → ChunkCache
new max_bytes = record {
  entries = [];
  max_bytes = max_bytes;
  last_nonzero_max_bytes = if ltb 0 max_bytes then max_bytes else default_cache_max;
  used_bytes = 0;
  tick = 0;
}

abbrev pub is_enabled : ChunkCache → Bool
is_enabled c = ltb 0 c.max_bytes

-- `(used_bytes, entry_count)`.
abbrev pub stats : ChunkCache → ℕ × ℕ
stats c = (c.used_bytes, length c.entries)

-- `entries.iter().min_by_key(|(_, e)| e.tick)`.
unfoldable pub oldest : HashMap CacheKey CacheEntry → Option (CacheKey × ℕ)
oldest [] = none
oldest ((k, e) ∷ m) = elim (oldest m) [
  | none ↦ some (k, e.tick)
  | some (j, t) ↦ if leb e.tick t then some (k, e.tick) else some (j, t)
]

-- `if let Some(old) = entries.remove(&key) { used_bytes = used_bytes.saturating_sub(old.len()) }`.
abbrev pub remove_entry : CacheKey → ChunkCache → ChunkCache
remove_entry k c = elim (lookup k c.entries) [
  | none ↦ c
  | some old ↦ record c {
    entries = remove k c.entries;
    used_bytes = c.used_bytes - length old.bytes;
  }
]

-- `while used_bytes + size > max_bytes && !entries.is_empty() { remove the oldest }`; the loop of
-- `set_max_bytes` is the same at `size = 0`. Each round removes an entry.
unfoldable pub evict : ℕ → ℕ → ChunkCache → ChunkCache
evict zero size c = c
evict (suc fuel) size c = elim (ltb c.max_bytes (c.used_bytes + size)) [
  | false ↦ c
  | true ↦ elim (oldest c.entries) [ none ↦ c | some (k, _) ↦ evict fuel size (remove_entry k c) ]
]

unfoldable pub clear : ChunkCache → ChunkCache
clear c = record c { entries = []; used_bytes = 0 }

abbrev with_budget : ℕ → ChunkCache → ChunkCache
with_budget max_bytes c = record c {
  last_nonzero_max_bytes = if ltb 0 max_bytes then max_bytes else c.last_nonzero_max_bytes;
  max_bytes = max_bytes;
}

unfoldable pub set_max_bytes : ℕ → ChunkCache → ChunkCache
unfolding clear
set_max_bytes max_bytes c =
    let c' = with_budget max_bytes c in
    if max_bytes == 0 then clear c' else evict (length c.entries) 0 c'

unfoldable pub disable : ChunkCache → ChunkCache
unfolding set_max_bytes
disable = set_max_bytes 0

-- `max_bytes.filter(|b| *b > 0).unwrap_or_else(|| self.last_nonzero_max_bytes())`.
abbrev budget_or_last : Option ℕ → ChunkCache → ℕ
budget_or_last none c = c.last_nonzero_max_bytes
budget_or_last (some b) c = if ltb 0 b then b else c.last_nonzero_max_bytes

unfoldable pub enable : Option ℕ → ChunkCache → ChunkCache
unfolding set_max_bytes clear
enable max_bytes c = set_max_bytes (budget_or_last max_bytes c) (clear c)

unfoldable pub retain_others : String → HashMap CacheKey CacheEntry → HashMap CacheKey CacheEntry
retain_others volume [] = []
retain_others volume ((k, e) ∷ m) =
    let rest = retain_others volume m in if k.volume == volume then rest else (k, e) ∷ rest

unfoldable pub removed_bytes : String → HashMap CacheKey CacheEntry → ℕ
removed_bytes volume [] = 0
removed_bytes volume ((k, e) ∷ m) =
    if k.volume == volume then length e.bytes + removed_bytes volume m else removed_bytes volume m

unfoldable pub invalidate_volume : String → ChunkCache → ChunkCache
unfolding retain_others removed_bytes
invalidate_volume volume c = record c {
  entries = retain_others volume c.entries;
  used_bytes = c.used_bytes - removed_bytes volume c.entries;
}

-- A hit moves the entry's tick; `get` returns a copy of the bytes.
unfoldable pub get : CacheKey → ChunkCache → Option (List ℕ) × ChunkCache
get k c =
    let c' = record c { tick = c.tick + 1 } in
    elim (lookup k c.entries) [
      | none ↦ (none, c')
      | some e ↦ (
        some e.bytes,
        record c' { entries = insert k (record e { tick = c.tick + 1 }) c.entries },
      )
    ]

abbrev insert_entry : CacheKey → List ℕ → ChunkCache → ChunkCache
insert_entry k bytes c = record c {
  used_bytes = c.used_bytes + length bytes;
  entries = insert k (record { bytes = bytes; tick = c.tick }) c.entries;
}

-- A chunk larger than the whole budget is not kept.
unfoldable pub put : CacheKey → List ℕ → ChunkCache → ChunkCache
put k bytes c =
    let c₁ = remove_entry k (record c { tick = c.tick + 1 }) in
    let c₂ = evict (length c₁.entries) (length bytes) c₁ in
    if leb (length bytes) c₂.max_bytes then insert_entry k bytes c₂ else c₂

unfoldable pub invalidate : CacheKey → ChunkCache → ChunkCache
invalidate = remove_entry
