-- ===== src/S3/Names.antt =====
-- src/store/s3.rs: the chunk number that a key is made of, and the keys that differ.
use iscsi_s.S3.{S3ChunkStore}
use iscsi_s.Prelude.{
  ℕ, zero, suc, ◌^◌, ◌<◌, ◌≡◌, ◌≢◌, refl, sym, ap, ◌∙◌, Bool, false, ◌||◌, some, none, List, [],
  ◌∷◌, ◌++◌, arith, length, drop, get_or, hex, hex_digit, length-hex, parse_digits-hex,
  drop-append_self, ◌/◌, strip_plus, parse_unsigned, ◌%◌, if◌then◌else◌, take, slice, append_assoc,
}
use iscsi_s.Snapshot.Names.{
  contains, digit_no_slash, digit_no_plus, hash_hex, object_relpath, shard_object_name,
}
use iscsi_s.S3.Keys

some_eq : {i j : ℕ} → some i ≡ some j → i ≡ j
some_eq e = cc

contains-append :
    (c : ℕ) (xs ys : List ℕ) → contains c (xs ++ ys) ≡ (contains c xs || contains c ys)
unfolding contains
contains-append c [] ys = refl
contains-append c (x ∷ xs) ys = ground (arith, contains-append c xs ys)

contains-hex : (n x : ℕ) → contains b'/' (hex n x) ≡ false
unfolding contains hex
contains-hex zero x = refl
contains-hex (suc n) x =
    contains-append b'/' (hex n (x / 16)) (hex_digit (x % 16) ∷ [])
    ∙ rw (contains-hex n (x / 16), digit_no_slash (x % 16) (omega arith)) refl

no_plus : (index : ℕ) → strip_plus (hex 16 index) ≡ hex 16 index
unfolding hex
no_plus index =
    ap (λ (b : Bool). if b then drop 1 (hex 16 index) else hex 16 index)
      (digit_no_plus
        (index / 16 / 16 / 16 / 16 / 16 / 16 / 16 / 16 / 16 / 16 / 16 / 16 / 16 / 16 / 16 % 16)
        (omega arith))

parse_unsigned-hex : (index : ℕ) → index < 2 ^ 64 → parse_unsigned (hex 16 index) ≡ some index
unfolding hex
parse_unsigned-hex index h = parse_digits-hex 16 index h

parse_index-hex : (index : ℕ) → index < 2 ^ 64 → Keys.parse_index (hex 16 index) ≡ some index
parse_index-hex index h =
    rw (length-hex 16 index, no_plus index, parse_unsigned-hex index h) (ground arith)

-- The number of a chunk, a u64, is read back from its sharded key.
pub index-shard :
    (index : ℕ)
    → index < 2 ^ 64
    → Keys.index_from_chunk_relpath (Keys.shard_chunk_index index) ≡ some index
unfolding Keys.index_from_chunk_relpath Keys.shard_chunk_index Keys.split_legacy_shard hex
index-shard index h = parse_index-hex index h

pub index-flat :
    (index : ℕ) → index < 2 ^ 64 → Keys.index_from_chunk_relpath (hex 16 index) ≡ some index
unfolding Keys.index_from_chunk_relpath Keys.split_legacy_shard hex
index-flat index h =
    ap (λ (b : Bool). if b then none else Keys.parse_index (hex 16 index)) (contains-hex 16 index)
    ∙ parse_index-hex index h

length-shard : (index : ℕ) → length (Keys.shard_chunk_index index) ≡ 18
unfolding Keys.shard_chunk_index hex
length-shard index = refl

shard-injective :
    (i j : ℕ)
    → i < 2 ^ 64
    → j < 2 ^ 64
    → Keys.shard_chunk_index i ≡ Keys.shard_chunk_index j
    → i ≡ j
shard-injective i j hi hj e =
    some_eq (sym (index-shard i hi) ∙ (ap Keys.index_from_chunk_relpath e ∙ index-shard j hj))

hex-injective : (i j : ℕ) → i < 2 ^ 64 → j < 2 ^ 64 → hex 16 i ≡ hex 16 j → i ≡ j
hex-injective i j hi hj e =
    some_eq (sym (index-flat i hi) ∙ (ap Keys.index_from_chunk_relpath e ∙ index-flat j hj))

append_cancel : (p : List ℕ) {xs ys : List ℕ} → p ++ xs ≡ p ++ ys → xs ≡ ys
append_cancel p {xs} {ys} e =
    sym (drop-append_self p xs) ∙ (ap (drop (length p)) e ∙ drop-append_self p ys)

hex_digit-injective : (d e : ℕ) → hex_digit d ≡ hex_digit e → d ≡ e
hex_digit-injective d e h = ground arith

head_eq : {x y : ℕ} {xs ys : List ℕ} → x ∷ xs ≡ y ∷ ys → x ≡ y
head_eq e = cc

hash_hex-injective : (xs ys : List ℕ) → hash_hex xs ≡ hash_hex ys → xs ≡ ys
unfolding hash_hex
hash_hex-injective [] [] e = refl
hash_hex-injective [] (y ∷ ys) e = cc
hash_hex-injective (x ∷ xs) [] e = cc
hash_hex-injective (x ∷ xs) (y ∷ ys) e =
    let high : x / 16 ≡ y / 16 = hex_digit-injective (x / 16) (y / 16) (cc) in
    let low : x % 16 ≡ y % 16 = hex_digit-injective (x % 16) (y % 16) (cc) in
    let same : x ≡ y = omega arith in let rest : xs ≡ ys = hash_hex-injective xs ys (cc) in cc

-- The part after the directories, and the directories, tell two names of one length apart.
abbrev relpath_parts : (xs : List ℕ) → List ℕ
relpath_parts xs = take 2 xs ++ (slice xs 3 2 ++ drop 6 xs)

relpath-back :
    (a b c d : ℕ) (rest : List ℕ)
    → relpath_parts (shard_object_name (a ∷ b ∷ c ∷ d ∷ rest)) ≡ a ∷ b ∷ c ∷ d ∷ rest
unfolding shard_object_name
relpath-back a b c d rest = ground arith

relpath-hash_hex :
    (a b : ℕ) (xs : List ℕ)
    → relpath_parts (shard_object_name (hash_hex (a ∷ b ∷ xs))) ≡ hash_hex (a ∷ b ∷ xs)
unfolding hash_hex
relpath-hash_hex a b xs =
    relpath-back (hex_digit (a / 16)) (hex_digit (a % 16)) (hex_digit (b / 16)) (hex_digit (b % 16))
      (hash_hex xs)

object_relpath-injective :
    (xs ys : List ℕ)
    → length xs ≡ 32
    → length ys ≡ 32
    → object_relpath xs ≡ object_relpath ys
    → xs ≡ ys
unfolding object_relpath
object_relpath-injective (a ∷ b ∷ xs) (c ∷ d ∷ ys) hx hy e =
    hash_hex-injective _ _
      (sym (relpath-hash_hex a b xs) ∙ (ap relpath_parts e ∙ relpath-hash_hex c d ys))
object_relpath-injective [] ys hx hy e = absurd (omega arith)
object_relpath-injective (a ∷ []) ys hx hy e = absurd (omega arith)
object_relpath-injective (a ∷ b ∷ xs) [] hx hy e = absurd (omega arith)
object_relpath-injective (a ∷ b ∷ xs) (c ∷ []) hx hy e = absurd (omega arith)

module _ {B : Type 0} (s : S3ChunkStore B) where
  pub sharded-ne-sharded :
      (i j : ℕ)
      → i < 2 ^ 64
      → j < 2 ^ 64
      → i ≢ j
      → Keys.legacy_chunk_key s i ≢ Keys.legacy_chunk_key s j
  sharded-ne-sharded i j hi hj ne e =
      ne (shard-injective i j hi hj (append_cancel (Keys.legacy_chunks_prefix s.prefix) e))

  pub flat-ne-flat :
      (i j : ℕ)
      → i < 2 ^ 64
      → j < 2 ^ 64
      → i ≢ j
      → Keys.legacy_flat_chunk_key s i ≢ Keys.legacy_flat_chunk_key s j
  flat-ne-flat i j hi hj ne e =
      ne (hex-injective i j hi hj (append_cancel (Keys.legacy_chunks_prefix s.prefix) e))

  pub sharded-ne-flat : (i j : ℕ) → Keys.legacy_chunk_key s i ≢ Keys.legacy_flat_chunk_key s j
  sharded-ne-flat i j e =
      let lengths = ap length (append_cancel (Keys.legacy_chunks_prefix s.prefix) e) in
      absurd (omega (arith, lengths, length-shard i, length-hex 16 j))

  pub live-ne-live :
      (i j : ℕ)
      → i < 2 ^ 64
      → j < 2 ^ 64
      → i ≢ j
      → Keys.live_chunk_key s i ≢ Keys.live_chunk_key s j
  live-ne-live i j hi hj ne e =
      ne (hex-injective i j hi hj (append_cancel (Keys.live_chunks_prefix s.prefix) e))

  pub object-injective :
      (xs ys : List ℕ)
      → length xs ≡ 32
      → length ys ≡ 32
      → Keys.object_key s xs ≡ Keys.object_key s ys
      → xs ≡ ys
  object-injective xs ys hx hy e =
      object_relpath-injective xs ys hx hy (append_cancel (Keys.objects_prefix s) e)

  -- The byte `n` places after the prefix.
  abbrev pub letter : ℕ → List ℕ → ℕ
  letter n key = get_or (drop (length s.prefix) key) n 0

  pub letter_flat : (n : ℕ) (xs : List ℕ) → letter n (s.prefix ++ xs) ≡ get_or xs n 0
  letter_flat n xs = ap (λ (zs : List ℕ). get_or zs n 0) (drop-append_self s.prefix xs)

  pub letter_dir :
      (n : ℕ) (dir xs : List ℕ) → letter n ((s.prefix ++ dir) ++ xs) ≡ get_or (dir ++ xs) n 0
  letter_dir n dir xs = ap (letter n) (append_assoc s.prefix dir xs) ∙ letter_flat n (dir ++ xs)

  pub live_letter : (j : ℕ) → letter 1 (Keys.live_chunk_key s j) ≡ b'l'
  live_letter j = letter_dir 1 (Keys.live ++ Keys.chunks) (hex 16 j)

  pub live_sixth : (j : ℕ) → letter 6 (Keys.live_chunk_key s j) ≡ b'c'
  live_sixth j = letter_dir 6 (Keys.live ++ Keys.chunks) (hex 16 j)

  pub object_letter : (h : List ℕ) → letter 1 (Keys.object_key s h) ≡ b'o'
  object_letter h = letter_dir 1 Keys.objects (object_relpath h)

  pub sharded_letter : (j : ℕ) → letter 1 (Keys.legacy_chunk_key s j) ≡ b'c'
  sharded_letter j = letter_dir 1 Keys.chunks (Keys.shard_chunk_index j)

  pub flat_letter : (j : ℕ) → letter 1 (Keys.legacy_flat_chunk_key s j) ≡ b'c'
  flat_letter j = letter_dir 1 Keys.chunks (hex 16 j)

  pub by_letter :
      (n : ℕ) (k k' : List ℕ) {a b : ℕ} → letter n k ≡ a → letter n k' ≡ b → a ≢ b → k ≢ k'
  by_letter n k k' ea eb ne e = ne (sym ea ∙ (ap (letter n) e ∙ eb))
