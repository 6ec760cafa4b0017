-- ===== src/ChunkCache/Budget.antt =====
-- src/cache.rs, `ChunkCache`: `put` and the changes of the budget.
use iscsi_s.Prelude.{ℕ, ◌+◌, ◌≤◌, ◌<◌, ◌≡◌, refl, Option-cases, Bool-cases, inl, nat_beq, inr, ap}
use iscsi_s.Prelude.Eq.{nat_eq}
use iscsi_s.HashMap.{lookup, Distinct-insert}
use iscsi_s.HashMap.Sum.{total, total-remove, measure_of, remove_absent}
use iscsi_s.ChunkCache.{
  ChunkCache, get, put, remove_entry, evict, set_max_bytes, clear, enable, insert_entry, CacheKey,
  Option, disable, List, CacheEntry, none, arith, length, [], some, key_beq_iff, leb, with_budget,
  key_eq,
}
use iscsi_s.ChunkCache.Bounds.{size_of, IsCounted, IsValid, evict-Evicted, remove_entry-IsCounted}
use iscsi_s.ChunkCache.Entries.{evict-Keeps, lookup-remove_entry, held, bytes_of}

insert_entry-IsCounted :
    (k : CacheKey) (bytes : List ℕ) (c : ChunkCache)
    → lookup k c.entries ≡ none
    → IsCounted c
    → IsCounted (insert_entry k bytes c)
unfolding total
insert_entry-IsCounted k bytes c absent v = record {
  distinct = Distinct-insert k (record { bytes = bytes; tick = c.tick }) c.entries v.distinct;
  counted = rw (remove_absent k c.entries absent) (omega (arith, v.counted));
}

none_of_bytes : (o : Option CacheEntry) → bytes_of o ≡ none → o ≡ none
none_of_bytes none h = refl
none_of_bytes (some e) h = cc

absent_after :
    (k : CacheKey) (c : ChunkCache) (fuel size : ℕ)
    → held (evict fuel size (remove_entry k c)) k ≡ none
absent_after k c fuel size =
    ground (
      arith,
      evict-Keeps fuel size (remove_entry k c) k,
      lookup-remove_entry k k c,
      key_beq_iff k k,
    )

-- `put` keeps the byte count equal to the bytes held and within the budget, whatever the size of
-- the chunk.
pub put-IsValid :
    (k : CacheKey) (bytes : List ℕ) (c : ChunkCache) → IsValid c → IsValid (put k bytes c)
unfolding put
put-IsValid k bytes c v =
    let c₀ = record c { tick = c.tick + 1 } in
    let c₁ = remove_entry k c₀ in
    let c₂ = evict (length c₁.entries) (length bytes) c₁ in
    let v₁ =
      remove_entry-IsCounted k c₀
        (record { distinct = v.counts.distinct; counted = v.counts.counted }) in
    let left = evict-Evicted (length c₁.entries) (length bytes) c₁ (omega arith) v₁ in
    let absent =
      none_of_bytes (lookup k c₂.entries) (absent_after k c₀ (length c₁.entries) (length bytes)) in
    elim (Bool-cases (leb (length bytes) c₂.max_bytes)) [
      | inl small ↦
          let fits : length bytes ≤ c₂.max_bytes = ground arith in
          rw (small, put)
            (record {
              counts = insert_entry-IsCounted k bytes c₂ absent left.counts;
              within = omega (arith, left.room);
            })
      | inr big ↦ rw (big, put) (record { counts = left.counts; within = omega (arith, left.room) })
    ]

-- A hit only moves a tick.
get-IsValid : (k : CacheKey) (c : ChunkCache) → IsValid c → IsValid (get k c).1
unfolding get
get-IsValid k c v = elim (Option-cases (lookup k c.entries)) [
  | inl e ↦
      rw (e, get)
        (record {
          counts = record { distinct = v.counts.distinct; counted = v.counts.counted };
          within = v.within;
        })
  | inr (x, e) ↦
      rw (e, get)
        (record {
          counts = record {
            distinct =
                Distinct-insert k (record x { tick = c.tick + 1 }) c.entries v.counts.distinct;
            counted =
                unfold total in
                omega (
                  arith,
                  v.counts.counted,
                  total-remove size_of k c.entries v.counts.distinct,
                  ap (measure_of size_of) e,
                );
          };
          within = v.within;
        })
]

-- `set_max_bytes` on a counted cache, over its budget or not, leaves the bytes held within the new
-- budget and the accounting right.
pub set_max_bytes-IsValid :
    (max_bytes : ℕ) (c : ChunkCache) → IsCounted c → IsValid (set_max_bytes max_bytes c)
unfolding set_max_bytes clear
set_max_bytes-IsValid max_bytes c v = elim (Bool-cases (nat_beq max_bytes 0)) [
  | inl off ↦
      rw (off, set_max_bytes)
        (record {
          counts = record { distinct = tt; counted = unfold total in refl };
          within = omega arith;
        })
  | inr on ↦
      let left =
        evict-Evicted (length c.entries) 0 (with_budget max_bytes c) (omega arith)
          (record { distinct = v.distinct; counted = v.counted }) in
      rw (on, set_max_bytes) (record { counts = left.counts; within = omega (arith, left.room) })
]

-- Where the last budget that was not 0 is positive, `disable` then `enable` without a size gives
-- an empty cache with that budget.
pub enable-disable :
    (c : ChunkCache)
    → 0 < c.last_nonzero_max_bytes
    → enable none (disable c)
      ≡ record c { entries = []; used_bytes = 0; max_bytes = c.last_nonzero_max_bytes }
unfolding enable disable evict
enable-disable c pos = ground arith
