-- ===== src/Snapshot/Names.antt =====
-- src/snapshot.rs, the keys of content-addressed objects: the hash in hexadecimal, in two levels of
-- directories. Names are ASCII bytes.
use iscsi_s.Prelude.{
  ℕ, zero, suc, ◌≡◌, ◌<◌, Bool, false, ◌||◌, Option, none, some, refl, ap, List, [], ◌∷◌, ◌++◌,
  length, take, drop, get_or, nat_beq, ltb, if◌then◌else◌, slice, arith, hex, from_hex,
  parse_digits, parse_digits-hex, hex_digit, below, not, subst, ◌/◌, ◌*◌, ◌%◌, ◌∙◌,
}
use iscsi_s.Result.{other, Result, ok, err, ◌>>=◌}

-- `{b:02x}`.
abbrev pub hex_byte : ℕ → List ℕ
hex_byte b = hex_digit (b / 16) ∷ hex_digit (b % 16) ∷ []

unfoldable pub hash_hex : List ℕ → List ℕ
hash_hex [] = []
hash_hex (b ∷ bs) = hex_byte b ++ hash_hex bs

unfoldable pub shard_object_name : List ℕ → List ℕ
shard_object_name name =
    if ltb (length name) 4
    then name
    else take 2 name ++ (b'/' ∷ (slice name 2 2 ++ (b'/' ∷ drop 4 name)))

unfoldable pub object_relpath : List ℕ → List ℕ
object_relpath hash = shard_object_name (hash_hex hash)

unfoldable pub contains : ℕ → List ℕ → Bool
contains c [] = false
contains c (x ∷ xs) = nat_beq x c || contains c xs

-- The parts joined, which is what the caller parses.
unfoldable pub split_sharded_name : List ℕ → Option (List ℕ)
split_sharded_name rel =
    if ltb (length rel) 6
      || not (nat_beq (get_or rel 2 0) b'/')
      || not (nat_beq (get_or rel 5 0) b'/')
    then none
    else if contains b'/' (drop 6 rel)
    then none
    else some (take 2 rel ++ (slice rel 3 2 ++ drop 6 rel))

unfoldable pub parse_pairs : ℕ → List ℕ → Result (List ℕ)
parse_pairs zero s = ok []
parse_pairs (suc n) s = elim (from_hex 256 (take 2 s)) [
  | none ↦ err (other "invalid blake3 hex")
  | some b ↦ parse_pairs n (drop 2 s) >>= λ rest. ok (b ∷ rest)
]

unfoldable pub parse_hash_hex : List ℕ → Result (List ℕ)
parse_hash_hex s =
    if nat_beq (length s) 64 then parse_pairs 32 s else err (other "invalid blake3 hex length")

abbrev pub to_option : Result (List ℕ) → Option (List ℕ)
to_option (ok x) = some x
to_option (err _) = none

unfoldable pub hash_from_object_relpath : List ℕ → Option (List ℕ)
hash_from_object_relpath rel = elim (split_sharded_name rel) [
  | none ↦ none
  | some name ↦ to_option (parse_hash_hex name)
]

abbrev pub AreBytes : List ℕ → Type 0
AreBytes [] = Unit
AreBytes (b ∷ bs) = (b < 256) × AreBytes bs

pub digit_no_slash : (d : ℕ) → d < 16 → nat_beq (hex_digit d) b'/' ≡ false
digit_no_slash d h = ground arith

pub digit_no_plus : (d : ℕ) → d < 16 → nat_beq (hex_digit d) b'+' ≡ false
digit_no_plus d h = ground arith

parse_digits-hex_byte : (b : ℕ) → b < 256 → parse_digits 0 (hex_byte b) ≡ some b
unfolding hex
parse_digits-hex_byte b h =
    let high : b / 16 % 16 ≡ b / 16 = omega arith in
    subst (λ d. parse_digits 0 (hex_digit d ∷ hex_digit (b % 16) ∷ []) ≡ some b) high
      (parse_digits-hex 2 b h)

from_hex-hex_byte : (b : ℕ) → b < 256 → from_hex 256 (hex_byte b) ≡ some b
from_hex-hex_byte b h =
    let high : b / 16 < 16 = omega arith in
    let digits : below 256 (parse_digits 0 (hex_byte b)) ≡ some b =
      rw (parse_digits-hex_byte b h) (ground arith) in
    rw (digit_no_plus (b / 16) high) digits

parse_pairs-suc :
    (n b : ℕ) (s : List ℕ)
    → from_hex 256 (take 2 s) ≡ some b
    → parse_pairs (suc n) s ≡ (parse_pairs n (drop 2 s) >>= λ rest. ok (b ∷ rest))
unfolding parse_pairs
parse_pairs-suc n b s e =
    ap
      (λ o. elim o [
        | none ↦ err (other "invalid blake3 hex")
        | some b ↦ parse_pairs n (drop 2 s) >>= λ rest. ok (b ∷ rest)
      ])
      e

parse_pairs-hash_hex : (bs : List ℕ) → AreBytes bs → parse_pairs (length bs) (hash_hex bs) ≡ ok bs
unfolding parse_pairs hash_hex
parse_pairs-hash_hex [] h = refl
parse_pairs-hash_hex (b ∷ bs) (small, h) =
    parse_pairs-suc (length bs) b (hex_byte b ++ hash_hex bs) (from_hex-hex_byte b small)
    ∙ ap (λ r. r >>= λ rest. ok (b ∷ rest)) (parse_pairs-hash_hex bs h)

contains-hash_hex : (bs : List ℕ) → AreBytes bs → contains b'/' (hash_hex bs) ≡ false
unfolding contains hash_hex
contains-hash_hex [] h = refl
contains-hash_hex (b ∷ bs) (small, h) =
    rw (digit_no_slash (b / 16) (omega arith), digit_no_slash (b % 16) (omega arith))
      (contains-hash_hex bs h)

length-hash_hex : (bs : List ℕ) → length (hash_hex bs) ≡ 2 * length bs
unfolding hash_hex
length-hash_hex [] = refl
length-hash_hex (b ∷ bs) = omega (arith, length-hash_hex bs)

pub parse-hash_hex :
    (hash : List ℕ) → length hash ≡ 32 → AreBytes hash → parse_hash_hex (hash_hex hash) ≡ ok hash
unfolding parse_hash_hex
parse-hash_hex hash long small =
    let pairs : parse_pairs 32 (hash_hex hash) ≡ ok hash =
      subst (λ n. parse_pairs n (hash_hex hash) ≡ ok hash) long (parse_pairs-hash_hex hash small) in
    ground (arith, length-hash_hex hash, pairs)

split-shard :
    (a b c d : ℕ) (rest : List ℕ)
    → contains b'/' rest ≡ false
    → split_sharded_name (shard_object_name (a ∷ b ∷ c ∷ d ∷ rest)) ≡ some (a ∷ b ∷ c ∷ d ∷ rest)
unfolding split_sharded_name shard_object_name
split-shard a b c d rest h = ground arith

split-shard_hex :
    (b c : ℕ) (bs : List ℕ)
    → AreBytes bs
    → split_sharded_name (shard_object_name (hash_hex (b ∷ c ∷ bs))) ≡ some (hash_hex (b ∷ c ∷ bs))
unfolding hash_hex
split-shard_hex b c bs small =
    split-shard (hex_digit (b / 16)) (hex_digit (b % 16)) (hex_digit (c / 16)) (hex_digit (c % 16))
      (hash_hex bs) (contains-hash_hex bs small)

-- The key of an object, a hash of 32 bytes in hexadecimal in two levels of directories, is read
-- back as that hash.
pub hash-object_relpath :
    (hash : List ℕ)
    → length hash ≡ 32
    → AreBytes hash
    → hash_from_object_relpath (object_relpath hash) ≡ some hash
unfolding hash_from_object_relpath object_relpath
hash-object_relpath [] long small = absurd (omega arith)
hash-object_relpath (b ∷ []) long small = absurd (omega arith)
hash-object_relpath (b ∷ c ∷ bs) long (sb, (sc, small)) =
    ap (λ o. elim o [ none ↦ none | some name ↦ to_option (parse_hash_hex name) ])
      (split-shard_hex b c bs small)
    ∙ ap to_option (parse-hash_hex (b ∷ c ∷ bs) long (sb, (sc, small)))
