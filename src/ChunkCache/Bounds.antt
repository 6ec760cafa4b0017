-- ===== src/ChunkCache/Bounds.antt =====
-- src/cache.rs, `ChunkCache`: the accounting of the byte count, and the eviction loop.
use iscsi_s.Prelude.{
  ℕ, zero, suc, ◌+◌, ◌≤◌, ◌≡◌, refl, ap, ◌∙◌, ◌⊎◌, inl, inr, none, some, [], ◌∷◌, arith, ltb,
  length, Bool-cases, Option-cases, ◌≢◌,
}
use iscsi_s.HashMap.{HashMap, lookup, Distinct, Distinct-remove}
use iscsi_s.HashMap.Sum.{total, measure_of, total-remove, length-remove}
use iscsi_s.ChunkCache.{
  CacheEntry, CacheKey, key_eq, ChunkCache, oldest, remove_entry, evict, key_beq_iff,
}

abbrev pub size_of : CacheEntry → ℕ
size_of e = length e.bytes

-- The byte count is the sum over the entries, and no key stands twice.
pub record IsCounted (c : ChunkCache) : Type 0 where
  pub distinct : Distinct c.entries
  pub counted : c.used_bytes ≡ total size_of c.entries

pub record IsValid (c : ChunkCache) : Type 0 where
  pub counts : IsCounted c
  pub within : c.used_bytes ≤ c.max_bytes

oldest-lookup :
    (m : HashMap CacheKey CacheEntry) (k : CacheKey) (t : ℕ)
    → oldest m ≡ some (k, t)
    → lookup k m ≢ none
unfolding oldest lookup
oldest-lookup [] k t h = cc
oldest-lookup ((i, x) ∷ m) k t h = elim (Option-cases (oldest m)) [
  | inl e ↦ ground (arith, key_beq_iff i k)
  | inr ((j, u), e) ↦ ground (arith, key_beq_iff i k, oldest-lookup m j u e)
]

oldest_none : (m : HashMap CacheKey CacheEntry) → oldest m ≡ none → m ≡ []
unfolding oldest
oldest_none [] h = refl
oldest_none (x ∷ m) h = ground arith

-- The entry that eviction takes has the least tick of all entries.
pub oldest-le :
    (m : HashMap CacheKey CacheEntry) (k j : CacheKey) (t : ℕ) (e : CacheEntry)
    → oldest m ≡ some (k, t)
    → lookup j m ≡ some e
    → t ≤ e.tick
unfolding oldest lookup
oldest-le [] k j t e h h' = cc
oldest-le ((i, x) ∷ m) k j t e h h' = elim (Option-cases (oldest m)) [
  | inl none_left ↦ ground (arith, oldest_none m none_left)
  | inr ((i', u), older) ↦ ground (arith, oldest-le m i' j u e older)
]

pub remove_entry-IsCounted :
    (k : CacheKey) (c : ChunkCache) → IsCounted c → IsCounted (remove_entry k c)
remove_entry-IsCounted k c v = elim (Option-cases (lookup k c.entries)) [
  | inl e ↦ rw (e, remove_entry) v
  | inr (old, e) ↦
      rw (e, remove_entry)
        (record {
          distinct = Distinct-remove k c.entries v.distinct;
          counted = omega (
            arith,
            v.counted,
            total-remove size_of k c.entries v.distinct,
            ap (measure_of size_of) e,
          );
        })
]

-- What eviction leaves: a counted cache with the same settings, and room for `size` or no entry.
pub record Evicted (size : ℕ) (c d : ChunkCache) : Type 0 where
  pub counts : IsCounted d
  pub max_bytes : d.max_bytes ≡ c.max_bytes
  pub room : (d.used_bytes + size ≤ d.max_bytes) ⊎ (d.used_bytes ≡ 0)

remove_entry-shrinks :
    (k : CacheKey) (c : ChunkCache) (n : ℕ)
    → IsCounted c
    → lookup k c.entries ≢ none
    → length c.entries ≤ suc n
    → (length (remove_entry k c).entries ≤ n) × ((remove_entry k c).max_bytes ≡ c.max_bytes)
remove_entry-shrinks k c n v h le = elim (Option-cases (lookup k c.entries)) [
  | inl e ↦ absurd (h e)
  | inr (old, e) ↦
      rw (e, remove_entry) (omega (arith, length-remove k c.entries {v = old} v.distinct e), refl)
]

empty_of_length : (m : HashMap CacheKey CacheEntry) → length m ≤ 0 → m ≡ []
empty_of_length [] h = refl
empty_of_length (x ∷ m) h = absurd (omega arith)

empty_total : {c : ChunkCache} → IsCounted c → c.entries ≡ [] → c.used_bytes ≡ 0
unfolding total
empty_total v e = v.counted ∙ ap (total size_of) e

-- Eviction with as much fuel as there are entries ends as its loop condition says: there is room
-- for `size`, or no byte is left; the accounting and the budget are kept.
pub evict-Evicted :
    (fuel size : ℕ) (c : ChunkCache)
    → length c.entries ≤ fuel
    → IsCounted c
    → Evicted size c (evict fuel size c)
unfolding evict
evict-Evicted zero size c le v = record {
  counts = v;
  max_bytes = refl;
  room = inr (empty_total v (empty_of_length c.entries le));
}
evict-Evicted (suc fuel) size c le v = elim (Bool-cases (ltb c.max_bytes (c.used_bytes + size))) [
  | inr fits ↦ rw (fits, evict) (record { counts = v; max_bytes = refl; room = inl (ground arith) })
  | inl over ↦ elim (Option-cases (oldest c.entries)) [
    | inl e ↦
        rw (over, e, evict)
          (record {
            counts = v;
            max_bytes = refl;
            room = inr (empty_total v (oldest_none c.entries e));
          })
    | inr ((k, t), e) ↦
        let (smaller, same) = remove_entry-shrinks k c fuel v (oldest-lookup c.entries k t e) le in
        let rest =
          evict-Evicted fuel size (remove_entry k c) smaller (remove_entry-IsCounted k c v) in
        rw (over, e, evict)
          (record { counts = rest.counts; max_bytes = rest.max_bytes ∙ same; room = rest.room })
  ]
]
