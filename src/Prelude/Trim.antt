-- ===== src/Prelude/Trim.antt =====
-- Rust's `trim_matches`: the characters at both ends that a test drops.
use Prim.Native.Nat.{ℕ}
use mathlib.Core.Bool.{Bool}
use mathlib.Core.List.{List, [], ◌∷◌}
use iscsi_s.Prelude.Tests.{if◌then◌else◌}

unfoldable pub trim_start : (ℕ → Bool) → List ℕ → List ℕ
trim_start drops [] = []
trim_start drops (c ∷ cs) = if drops c then trim_start drops cs else c ∷ cs

abbrev trim_last : (ℕ → Bool) → ℕ → List ℕ → List ℕ
trim_last drops c [] = if drops c then [] else c ∷ []
trim_last drops c (d ∷ ds) = c ∷ d ∷ ds

unfoldable pub trim_end : (ℕ → Bool) → List ℕ → List ℕ
trim_end drops [] = []
trim_end drops (c ∷ cs) = trim_last drops c (trim_end drops cs)

abbrev pub trim_matches : (ℕ → Bool) → List ℕ → List ℕ
trim_matches drops cs = trim_end drops (trim_start drops cs)
