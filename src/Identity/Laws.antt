-- ===== src/Identity/Laws.antt =====
-- src/identity.rs: the hash is kept, whole in the serial number and but for four bits in the NAA
-- identifier.
use iscsi_s.Prelude.{
  ℕ, zero, suc, ◌+◌, ◌*◌, ◌/◌, ◌%◌, ◌^◌, ◌<◌, ◌≡◌, refl, ap, ◌∙◌, Bool, true, some, List, [], ◌∷◌,
  length, length-append, arith, nat_beq, nat_beq_iff, if◌then◌else◌, digit_value, parse_digits,
  parse_digits-append, pow_suc, from_be, false,
}
use Prim.Native.Nat.{bit_and, bit_or}
use iscsi_s.Identity.{
  fnv_from, fnv1a64, upper_digit, upper_hex, serial_from_iqn, byte_at, first_byte, naa_from_iqn,
}

-- A test passed by each number under a bound.
passes : (ℕ → Bool) → ℕ → Bool
passes test zero = true
passes test (suc bound) = if test bound then passes test bound else false

passes-lt : (test : ℕ → Bool) (bound n : ℕ) → n < bound → passes test bound ≡ true → test n ≡ true
unfolding passes
passes-lt test zero n below h = absurd (omega arith)
passes-lt test (suc bound) n below h = ground (arith, passes-lt test bound n)

abbrev nibble_kept : ℕ → Bool
nibble_kept b = nat_beq (bit_or 0x60 (bit_and b 0x0f)) (0x60 + b % 16)

nibbles_kept : passes nibble_kept 256 ≡ true
unfolding passes
nibbles_kept = refl

-- The high nibble is 6, and the low one is the hash's.
first_byte_lem : (h : ℕ) → first_byte h ≡ 0x60 + h / 2 ^ 56 % 16
first_byte_lem h =
    (nat_beq_iff _ _).0 (passes-lt nibble_kept 256 (byte_at h 56) (omega arith) nibbles_kept)
    ∙ omega arith

fnv_from-small : (bytes : List ℕ) (hash : ℕ) → hash < 2 ^ 64 → fnv_from hash bytes < 2 ^ 64
unfolding fnv_from
fnv_from-small [] hash h = h
fnv_from-small (b ∷ bytes) hash h = fnv_from-small bytes _ (omega arith)

pub fnv1a64-small : (bytes : List ℕ) → fnv1a64 bytes < 2 ^ 64
fnv1a64-small bytes = fnv_from-small bytes _ (omega arith)

digit_value-upper : (d : ℕ) → d < 16 → digit_value (upper_digit d) ≡ some d
digit_value-upper d h = ground arith

length-upper_hex : (n x : ℕ) → length (upper_hex n x) ≡ n
unfolding upper_hex
length-upper_hex zero x = refl
length-upper_hex (suc n) x = omega (
  arith,
  length-append (upper_hex n (x / 16)) (upper_digit (x % 16) ∷ []),
  length-upper_hex n (x / 16),
)

parse_digits-upper_hex : (n x : ℕ) → x < 16 ^ n → parse_digits 0 (upper_hex n x) ≡ some x
unfolding parse_digits upper_hex
parse_digits-upper_hex zero x h = ap some (omega arith)
parse_digits-upper_hex (suc n) x h =
    parse_digits-append 0 (upper_hex n (x / 16)) (upper_digit (x % 16)) (x % 16) (x / 16)
      (digit_value-upper (x % 16) (omega arith))
      (parse_digits-upper_hex n (x / 16) (omega (arith, pow_suc n)))
    ∙ ap some (omega arith)

-- The serial number has 16 digits, and they are read back as the hash of the IQN.
pub parse-serial_from_iqn :
    (iqn : List ℕ)
    → (length (serial_from_iqn iqn) ≡ 16)
      × (parse_digits 0 (serial_from_iqn iqn) ≡ some (fnv1a64 iqn))
parse-serial_from_iqn iqn =
    (length-upper_hex 16 (fnv1a64 iqn), parse_digits-upper_hex 16 (fnv1a64 iqn) (fnv1a64-small iqn))

-- The eight bytes of the NAA identifier are, as a number, the nibble 6 above the low 60 bits of
-- the hash of the IQN.
pub from_be-naa_from_iqn :
    (iqn : List ℕ) → from_be 0 (naa_from_iqn iqn) ≡ 6 * 2 ^ 60 + fnv1a64 iqn % 2 ^ 60
from_be-naa_from_iqn iqn =
    let e = first_byte_lem (fnv1a64 iqn) in let small = fnv1a64-small iqn in omega arith
