-- ===== src/Compression.antt =====
-- src/compression.rs: the envelope of a chunk object. An uncompressed volume stores the chunk as
-- it is; a compressed one stores `ISC3`, the algorithm, a flags byte, the length as a big-endian
-- u32 and the compressed bytes. The compressors are libraries (lz4_flex, zstd, flate2),
-- parameters of the model.
pub mod RoundTrip
use iscsi_s.Prelude.{
  ℕ, ◌≡◌, ◌<◌, ◌^◌, Bool, List, ◌∷◌, ◌++◌, length, u32_be, from_be, take, drop, get_or, nat_beq,
  ltb, if◌then◌else◌, [], Option, true, some, false, ◌&&◌, leb,
}
use iscsi_s.Result.{Result, ok, err, other, ◌>>=◌, s3, ◌>>◌, ◌>>=◌, guard}

pub data Compression : Type 0 where
  none lz4 zstd deflate : Compression

pub record Codecs : Type 0 where
  pub lz4_compress : List ℕ → List ℕ
  pub lz4_decompress : List ℕ → Result (List ℕ)
  pub zstd_compress : List ℕ → ℕ → Result (List ℕ)
  pub zstd_decompress : List ℕ → ℕ → Result (List ℕ)
  pub deflate_fast : List ℕ → Result (List ℕ)
  pub inflate : List ℕ → Result (List ℕ)

-- What the source relies on: each library gives back what it compressed. lz4_flex keeps the length in
-- a u32; zstd is told the capacity of the result.
pub record IsLossless (codecs : Codecs) : Type 0 where
  pub lz4 :
      (bytes : List ℕ)
      → length bytes < 2 ^ 32
      → codecs.lz4_decompress (codecs.lz4_compress bytes) ≡ ok bytes
  pub zstd :
      (bytes packed : List ℕ) (level : ℕ)
      → codecs.zstd_compress bytes level ≡ ok packed
      → codecs.zstd_decompress packed (length bytes) ≡ ok bytes
  pub deflate :
      (bytes packed : List ℕ)
      → codecs.deflate_fast bytes ≡ ok packed
      → codecs.inflate packed ≡ ok bytes

-- `b"ISC3"`.
abbrev pub magic : List ℕ
magic = b'I' ∷ b'S' ∷ b'C' ∷ b'3' ∷ []

abbrev pub header_len : ℕ
header_len = 10

-- `wire_id` is `None` for `none`; `encode_chunk` unwraps it for the others only.
abbrev pub wire_id : Compression → Option ℕ
wire_id none = Option.none
wire_id lz4 = some 1
wire_id zstd = some 2
wire_id deflate = some 3

-- `unwrap`, called only where the id is there.
abbrev pub unwrap : Option ℕ → ℕ
unwrap Option.none = 0
unwrap (some id) = id

unfoldable pub from_wire_id : ℕ → Result Compression
from_wire_id id =
    if nat_beq id 1
    then ok lz4
    else if nat_beq id 2
    then ok zstd
    else if nat_beq id 3
    then ok deflate
    else err (other "unknown compression wire id")

abbrev pub same_algo : Compression → Compression → Bool
same_algo none none = true
same_algo lz4 lz4 = true
same_algo zstd zstd = true
same_algo deflate deflate = true
same_algo _ _ = false

-- `&stored[..4] != MAGIC`.
abbrev pub bytes_eq : List ℕ → List ℕ → Bool
bytes_eq [] [] = true
bytes_eq (x ∷ xs) (y ∷ ys) = nat_beq x y && bytes_eq xs ys
bytes_eq _ _ = false

module _ (codecs : Codecs) where
  unfoldable pub compress : Compression → List ℕ → Result (List ℕ)
  compress none bytes = ok bytes
  compress lz4 bytes = ok (codecs.lz4_compress bytes)
  compress zstd bytes = codecs.zstd_compress bytes 3
  compress deflate bytes = codecs.deflate_fast bytes

  unfoldable pub decompress : Compression → List ℕ → ℕ → Result (List ℕ)
  decompress none bytes expected_len = ok bytes
  decompress lz4 bytes expected_len = codecs.lz4_decompress bytes
  decompress zstd bytes expected_len = codecs.zstd_decompress bytes expected_len
  decompress deflate bytes expected_len = codecs.inflate bytes

  -- `magic`, `wire_id`, flags 0, the length `as u32`, the compressed bytes.
  abbrev pub envelope : ℕ → ℕ → List ℕ → List ℕ
  envelope id plain_len packed = magic ++ (id ∷ 0 ∷ (u32_be plain_len ++ packed))

  unfoldable pub encode_chunk : Compression → List ℕ → Result (List ℕ)
  encode_chunk none plaintext = ok plaintext
  encode_chunk algo plaintext = compress algo plaintext >>= λ packed.
      ok (envelope (unwrap (wire_id algo)) (length plaintext) packed)

  -- The branch of `decode_chunk` for a compressing algorithm.
  unfoldable pub open_envelope : Compression → List ℕ → ℕ → Result (List ℕ)
  open_envelope algo stored expected_len = do
    guard (leb header_len (length stored) && bytes_eq (take 4 stored) magic)
        (s3 "compressed chunk missing ISC3 header (geometry/compression mismatch?)")
    wire_algo ← from_wire_id (get_or stored 4 0)
    guard (same_algo wire_algo algo) (s3 "chunk compression != volume")
    guard (nat_beq (from_be 0 (take 4 (drop 6 stored))) expected_len)
        (s3 "compressed chunk declares length")
    plain ← decompress algo (drop header_len stored) expected_len
    guard (nat_beq (length plain) expected_len) (s3 "decompressed length")
    ok plain

  unfoldable pub decode_chunk : Compression → List ℕ → ℕ → Result (List ℕ)
  unfolding open_envelope
  decode_chunk none stored expected_len =
      if nat_beq (length stored) expected_len
      then ok stored
      else err (s3 "uncompressed chunk length")
  decode_chunk lz4 stored expected_len = open_envelope lz4 stored expected_len
  decode_chunk zstd stored expected_len = open_envelope zstd stored expected_len
  decode_chunk deflate stored expected_len = open_envelope deflate stored expected_len
