-- ===== src/Prelude/Division.antt =====
-- Quotient and remainder of a position by a chunk size: `p = (p / c) * c + p % c`.
use Prim.Native.Nat.{ℕ, ◌+◌, ◌*◌, ◌/◌, ◌%◌, ◌<◌}
use mathlib.Core.Path.{◌≡◌, ap, ◌∙◌}
use native.Mathlib.Nat.{
  div-add-mod', mul-add-div_right, div-eq_of_lt, add-zero, mul-add-mod_self_right, mod-eq_of_lt,
  mod-lt,
}
use native.Mathlib.Omega.{arith}

pub div_parts : (p c : ℕ) → p / c * c + p % c ≡ p
div_parts p c = div-add-mod' p c

pub mul-add-div_lt : (q r c : ℕ) → r < c → (q * c + r) / c ≡ q
mul-add-div_lt q r c h =
    mul-add-div_right (omega arith) q r ∙ (ap (λ t. q + t) (div-eq_of_lt h) ∙ add-zero q)

pub mul-add-mod_lt : (q r c : ℕ) → r < c → (q * c + r) % c ≡ r
mul-add-mod_lt q r c h = mul-add-mod_self_right q c r ∙ mod-eq_of_lt h

pub mod_bound : (p c : ℕ) → 0 < c → p % c < c
mod_bound p c h = mod-lt p h
