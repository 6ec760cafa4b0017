-- ===== src/Prelude/Hex.antt =====
-- `{:02x}` and `{:016x}`, and `from_str_radix(_, 16)`, on ASCII bytes. `from_str_radix` takes a
-- leading `+`, and digits of either case; it fails on no digits and on overflow.
use Prim.Native.Nat.{ℕ, zero, suc, ◌+◌, ◌-◌, ◌*◌, ◌/◌, ◌%◌, ◌^◌, ◌<◌}
use mathlib.Core.Path.{◌≡◌, refl, ap, ◌∙◌}
use mathlib.Core.Bool.{◌&&◌}
use mathlib.Core.Option.{Option, none, some}
use mathlib.Core.List.{List, [], ◌∷◌, ◌++◌}
use native.Mathlib.Nat.{pow-succ'}
use native.Mathlib.Omega.{arith}
use iscsi_s.Prelude.Tests.{ltb, leb, nat_beq, if◌then◌else◌}
use iscsi_s.Prelude.Lists.{length, length-append}

abbrev pub hex_digit : ℕ → ℕ
hex_digit d = if ltb d 10 then 48 + d else 87 + d

abbrev pub digit_value : ℕ → Option ℕ
digit_value c =
    if leb 48 c && ltb c 58
    then some (c - 48)
    else if leb 97 c && ltb c 103
    then some (c - 87)
    else if leb 65 c && ltb c 71
    then some (c - 55)
    else none

-- The `n` low digits of `x`, the highest first.
unfoldable pub hex : ℕ → ℕ → List ℕ
hex zero x = []
hex (suc n) x = hex n (x / 16) ++ (hex_digit (x % 16) ∷ [])

unfoldable pub parse_digits : ℕ → List ℕ → Option ℕ
parse_digits acc [] = some acc
parse_digits acc (c ∷ cs) = elim (digit_value c) [
  | none ↦ none
  | some d ↦ parse_digits (acc * 16 + d) cs
]

abbrev pub below : ℕ → Option ℕ → Option ℕ
below limit none = none
below limit (some x) = if ltb x limit then some x else none

abbrev pub strip_plus : List ℕ → List ℕ
strip_plus [] = []
strip_plus (c ∷ cs) = if nat_beq c 43 then cs else c ∷ cs

abbrev pub parse_unsigned : List ℕ → Option ℕ
parse_unsigned [] = none
parse_unsigned (c ∷ cs) = parse_digits 0 (c ∷ cs)

-- `from_str_radix(s, 16)` of a type that holds the numbers below `limit`.
abbrev pub from_hex : ℕ → List ℕ → Option ℕ
from_hex limit s = below limit (parse_unsigned (strip_plus s))

digit_value-hex_digit : (d : ℕ) → d < 16 → digit_value (hex_digit d) ≡ some d
digit_value-hex_digit d h = ground arith

pub parse_digits-append :
    (acc : ℕ) (xs : List ℕ) (digit d n : ℕ)
    → digit_value digit ≡ some d
    → parse_digits acc xs ≡ some n
    → parse_digits acc (xs ++ (digit ∷ [])) ≡ some (n * 16 + d)
unfolding parse_digits
parse_digits-append acc [] digit d n e h = ground arith
parse_digits-append acc (c ∷ cs) digit d n e h =
    elim (digit_value c)
        as (λ o.
          (elim o [ none ↦ none | some e ↦ parse_digits (acc * 16 + e) cs ]) ≡ some n
          → (elim o [ none ↦ none | some e ↦ parse_digits (acc * 16 + e) (cs ++ (digit ∷ [])) ])
            ≡ some (n * 16 + d)) [
              | none ↦ λ k. cc
              | some e' ↦ λ k. parse_digits-append (acc * 16 + e') cs digit d n e k
            ]
      h

pub pow_suc : (n : ℕ) → 16 ^ suc n ≡ 16 * 16 ^ n
pow_suc n = pow-succ' 16 n

pub parse_digits-hex : (n x : ℕ) → x < 16 ^ n → parse_digits 0 (hex n x) ≡ some x
unfolding parse_digits hex
parse_digits-hex zero x h = ap some (omega arith)
parse_digits-hex (suc n) x h =
    parse_digits-append 0 (hex n (x / 16)) (hex_digit (x % 16)) (x % 16) (x / 16)
      (digit_value-hex_digit (x % 16) (omega arith))
      (parse_digits-hex n (x / 16) (omega (arith, pow_suc n)))
    ∙ ap some (omega arith)

pub length-hex : (n x : ℕ) → length (hex n x) ≡ n
unfolding hex
length-hex zero x = refl
length-hex (suc n) x =
    omega (arith, length-append (hex n (x / 16)) (hex_digit (x % 16) ∷ []), length-hex n (x / 16))
