-- ===== src/HashMap/Sum.antt =====
-- The sum of a measure over the values of a map (`used_bytes`), and its change under `remove`.
use iscsi_s.Prelude.{ℕ, ◌+◌, ◌≤◌, ◌≡◌, refl, Option, none, some, [], ◌∷◌, arith, length}
use iscsi_s.Prelude.Eq.{Eq}
use iscsi_s.HashMap.{HashMap, lookup, remove, Distinct}

abbrev pub measure_of {ℓ} : {V : Type ℓ} → (V → ℕ) → Option V → ℕ
measure_of measure none = 0
measure_of measure (some v) = measure v

module _ {ℓ} {K V : Type ℓ} ⦃e : Eq K⦄ (measure : V → ℕ) where
  unfoldable pub total : HashMap K V → ℕ
  total [] = 0
  total ((k, v) ∷ m) = measure v + total m

  pub total-remove :
      (k : K) (m : HashMap K V)
      → Distinct m
      → total (remove k m) + measure_of measure (lookup k m) ≡ total m
  unfolding total remove lookup
  total-remove k [] d = omega arith
  total-remove k ((j, v) ∷ m) d = ground (arith, total-remove k m d.1, e.beq_iff j k, d.0)

  pub measure-le-total : (k : K) (m : HashMap K V) → measure_of measure (lookup k m) ≤ total m
  unfolding total lookup
  measure-le-total k [] = omega arith
  measure-le-total k ((j, v) ∷ m) = ground (arith, measure-le-total k m)

module _ {ℓ} {K V : Type ℓ} ⦃e : Eq K⦄ where
  pub remove_absent : (k : K) (m : HashMap K V) → lookup k m ≡ none → remove k m ≡ m
  unfolding lookup remove
  remove_absent k [] h = refl
  remove_absent k ((j, v) ∷ m) h = ground (arith, remove_absent k m)

  -- A map with distinct keys loses one entry.
  pub length-remove :
      (k : K) (m : HashMap K V) {v : V}
      → Distinct m
      → lookup k m ≡ some v
      → length (remove k m) + 1 ≡ length m
  unfolding lookup remove
  length-remove k [] d h = cc
  length-remove k ((j, w) ∷ m) {v} d h =
      ground (arith, length-remove k m {v = v} d.1, remove_absent k m, d.0, e.beq_iff j k)
