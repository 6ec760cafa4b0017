-- ===== src/Identity.antt =====
-- src/identity.rs: the serial number and the NAA identifier of a volume, from the hash of its
-- IQN. Text is bytes. `{:016X}` is upper-case hexadecimal.
pub mod Laws
use iscsi_s.Prelude.{ℕ, zero, suc, ◌+◌, ◌*◌, ◌/◌, ◌%◌, ◌^◌, List, [], ◌∷◌, ◌++◌, ltb, if◌then◌else◌}
use Prim.Native.Nat.{bit_and, bit_or, bit_xor}

-- `u64::wrapping_mul`.
abbrev pub wrapping_mul : ℕ → ℕ → ℕ
wrapping_mul a b = a * b % 2 ^ 64

-- The loop of `fnv1a64`.
unfoldable pub fnv_from : ℕ → List ℕ → ℕ
fnv_from hash [] = hash
fnv_from hash (b ∷ bytes) = fnv_from (wrapping_mul (bit_xor hash b) 0x100000001b3) bytes

abbrev pub fnv1a64 : List ℕ → ℕ
fnv1a64 bytes = fnv_from 0xcbf29ce484222325 bytes

abbrev pub upper_digit : ℕ → ℕ
upper_digit d = if ltb d 10 then 48 + d else 55 + d

-- The `n` low digits of `x`, the highest first.
unfoldable pub upper_hex : ℕ → ℕ → List ℕ
upper_hex zero x = []
upper_hex (suc n) x = upper_hex n (x / 16) ++ (upper_digit (x % 16) ∷ [])

abbrev pub serial_from_iqn : List ℕ → List ℕ
serial_from_iqn iqn = upper_hex 16 (fnv1a64 iqn)

-- `(h >> shift) as u8`.
abbrev pub byte_at : ℕ → ℕ → ℕ
byte_at h shift = h / 2 ^ shift % 256

-- The first byte, whose high nibble says NAA-6.
abbrev pub first_byte : ℕ → ℕ
first_byte h = bit_or 0x60 (bit_and (byte_at h 56) 0x0f)

abbrev pub naa_from_iqn : List ℕ → List ℕ
naa_from_iqn iqn =
    let h = fnv1a64 iqn in
    first_byte h
    ∷ byte_at h 48
    ∷ byte_at h 40
    ∷ byte_at h 32
    ∷ byte_at h 24
    ∷ byte_at h 16
    ∷ byte_at h 8
    ∷ byte_at h 0
    ∷ []
