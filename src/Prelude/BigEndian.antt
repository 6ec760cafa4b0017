-- ===== src/Prelude/BigEndian.antt =====
-- `to_be_bytes` and `from_be_bytes`: a number as a fixed count of bytes, the highest first.
use Prim.Native.Nat.{ℕ, ◌+◌, ◌*◌, ◌/◌, ◌%◌, ◌^◌}
use mathlib.Core.Path.{◌≡◌}
use mathlib.Core.List.{List, [], ◌∷◌, ◌++◌}
use native.Mathlib.Omega.{arith}

abbrev pub u32_be : ℕ → List ℕ
u32_be n = (n / 2 ^ 24 % 256) ∷ (n / 2 ^ 16 % 256) ∷ (n / 2 ^ 8 % 256) ∷ (n % 256) ∷ []

abbrev pub u64_be : ℕ → List ℕ
u64_be n = u32_be (n / 2 ^ 32) ++ u32_be n

abbrev pub from_be : ℕ → List ℕ → ℕ
from_be acc [] = acc
from_be acc (b ∷ bs) = from_be (acc * 256 + b) bs

-- Four bytes give the number back modulo 2 ^ 32 (`as u32`), eight give it modulo 2 ^ 64.
pub from_be-u32_be : (n : ℕ) → from_be 0 (u32_be n) ≡ n % 2 ^ 32
from_be-u32_be n = omega arith

pub from_be-u64_be : (n : ℕ) → from_be 0 (u64_be n) ≡ n % 2 ^ 64
from_be-u64_be n = omega arith
