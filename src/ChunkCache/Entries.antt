-- ===== src/ChunkCache/Entries.antt =====
-- src/cache.rs, `ChunkCache`: what the cache holds for a key after each operation.
use iscsi_s.Prelude.{
  ℕ, zero, suc, ◌+◌, ◌≡◌, refl, ◌⊎◌, inl, inr, Option, none, some, List, [], ◌∷◌, arith, ltb,
  length, if◌then◌else◌, String, eq_iff, Bool-cases, Option-cases,
}
use iscsi_s.Prelude.Eq.{◌==◌, string_eq}
use iscsi_s.HashMap.{HashMap, lookup, lookup-remove, lookup-insert}
use iscsi_s.ChunkCache.{
  CacheEntry, CacheKey, key_eq, key_beq_iff, ChunkCache, oldest, remove_entry, evict, get, put,
  retain_others, invalidate_volume,
}

abbrev pub bytes_of : Option CacheEntry → Option (List ℕ)
bytes_of none = none
bytes_of (some e) = some e.bytes

abbrev pub held : ChunkCache → CacheKey → Option (List ℕ)
held c k = bytes_of (lookup k c.entries)

-- Every key keeps its bytes or loses them.
abbrev pub Keeps : ChunkCache → ChunkCache → Type 0
Keeps c d = (j : CacheKey) → (held d j ≡ none) ⊎ (held d j ≡ held c j)

pub lookup-remove_entry :
    (k j : CacheKey) (c : ChunkCache)
    → lookup j (remove_entry k c).entries ≡ (if k == j then none else lookup j c.entries)
lookup-remove_entry k j c = ground (arith, lookup-remove k j c.entries, key_beq_iff k j)

remove_entry-Keeps : (k : CacheKey) (c : ChunkCache) → Keeps c (remove_entry k c)
remove_entry-Keeps k c j = ground (arith, lookup-remove_entry k j c)

Keeps-trans : (c d e : ChunkCache) → Keeps c d → Keeps d e → Keeps c e
Keeps-trans c d e p q j = ground (arith, p j, q j)

pub evict-Keeps : (fuel size : ℕ) (c : ChunkCache) → Keeps c (evict fuel size c)
unfolding evict
evict-Keeps zero size c j = inr refl
evict-Keeps (suc fuel) size c j = elim (Bool-cases (ltb c.max_bytes (c.used_bytes + size))) [
  | inr fits ↦ rw (fits, evict) (inr refl)
  | inl over ↦ elim (Option-cases (oldest c.entries)) [
    | inl e ↦ rw (over, e, evict) (inr refl)
    | inr ((k, t), e) ↦
        rw (over, e, evict)
          (Keeps-trans c (remove_entry k c) (evict fuel size (remove_entry k c))
            (remove_entry-Keeps k c) (evict-Keeps fuel size (remove_entry k c)) j)
  ]
]

-- A `get` returns the bytes held.
pub get_lem : (k : CacheKey) (c : ChunkCache) → (get k c).0 ≡ held c k
unfolding get
get_lem k c = ground arith

-- A `get` leaves every key's bytes as they were.
pub held-get : (k j : CacheKey) (c : ChunkCache) → held (get k c).1 j ≡ held c j
unfolding get
held-get k j c = elim (Option-cases (lookup k c.entries)) [
  | inl e ↦ rw (e, get)
  | inr (x, e) ↦
      rw (e, get)
        (ground
          (arith, lookup-insert k j (record x { tick = c.tick + 1 }) c.entries, key_beq_iff k j))
]

-- After a `put` the key holds the new bytes or nothing, and any other key what it held or nothing.
pub held-put :
    (k j : CacheKey) (bytes : List ℕ) (c : ChunkCache)
    → (held (put k bytes c) j ≡ none)
      ⊎ (held (put k bytes c) j ≡ (if k == j then some bytes else held c j))
unfolding put
held-put k j bytes c =
    let c₁ = remove_entry k (record c { tick = c.tick + 1 }) in
    let c₂ = evict (length c₁.entries) (length bytes) c₁ in
    ground (
      arith,
      evict-Keeps (length c₁.entries) (length bytes) c₁ j,
      lookup-remove_entry k j (record c { tick = c.tick + 1 }),
      lookup-insert k j (record { bytes = bytes; tick = c₂.tick }) c₂.entries,
      key_beq_iff k j,
    )

lookup-retain_others :
    (volume : String) (k : CacheKey) (m : HashMap CacheKey CacheEntry)
    → lookup k (retain_others volume m) ≡ (if k.volume == volume then none else lookup k m)
unfolding lookup retain_others
lookup-retain_others volume k [] = ground arith
lookup-retain_others volume k ((j, e) ∷ m) = ground (
  arith,
  lookup-retain_others volume k m,
  key_beq_iff j k,
  eq_iff j.volume volume,
  eq_iff k.volume volume,
)

-- `invalidate_volume` drops exactly the entries of that volume.
pub held-invalidate_volume :
    (volume : String) (k : CacheKey) (c : ChunkCache)
    → held (invalidate_volume volume c) k ≡ (if k.volume == volume then none else held c k)
unfolding invalidate_volume
held-invalidate_volume volume k c = ground (arith, lookup-retain_others volume k c.entries)
