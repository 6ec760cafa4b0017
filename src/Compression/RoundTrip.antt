-- ===== src/Compression/RoundTrip.antt =====
-- src/compression.rs: `decode_chunk` of what `encode_chunk` stored, and of anything else.
use iscsi_s.Prelude.{refl, ◌<◌, ℕ, ◌≡◌, ◌≢◌, ◌^◌, List, length, from_be-u32_be, arith, subst, ◌≤◌}
use iscsi_s.Result.{ok, err, ok-injective, >>=-eq-ok}
use iscsi_s.Compression.{
  none, lz4, zstd, deflate, envelope, same_algo, Compression, Codecs, IsLossless, compress,
  decompress, encode_chunk, decode_chunk, open_envelope, from_wire_id, lz4, zstd, true, s3,
}

module _ (codecs : Codecs) where
  -- `decode_chunk` never returns a chunk of another length than the one asked for, whatever the
  -- stored bytes and the codecs.
  pub length-decode_chunk :
      (algo : Compression) (stored : List ℕ) (expected_len : ℕ) {plain : List ℕ}
      → decode_chunk codecs algo stored expected_len ≡ ok plain
      → length plain ≡ expected_len
  unfolding decode_chunk
  length-decode_chunk none stored n h = ground arith
  length-decode_chunk lz4 stored n h = ground arith
  length-decode_chunk zstd stored n h = ground arith
  length-decode_chunk deflate stored n h = ground arith

  module _ (lossless : IsLossless codecs) where
    reopen :
        (algo : Compression) (id : ℕ) (plain packed : List ℕ)
        → from_wire_id id ≡ ok algo
        → same_algo algo algo ≡ true
        → length plain < 2 ^ 32
        → decompress codecs algo packed (length plain) ≡ ok plain
        → open_envelope codecs algo (envelope codecs id (length plain) packed) (length plain)
          ≡ ok plain
    unfolding open_envelope
    reopen algo id plain packed known same small unpacks =
        ground (arith, from_be-u32_be (length plain), known, same, unpacks)

    -- With compressors that give back what they compressed, a chunk below 4 GiB that is encoded is
    -- decoded to itself, under every algorithm.
    pub decode-encode :
        (algo : Compression) (plain : List ℕ) {stored : List ℕ}
        → length plain < 2 ^ 32
        → encode_chunk codecs algo plain ≡ ok stored
        → decode_chunk codecs algo stored (length plain) ≡ ok plain
    unfolding encode_chunk decode_chunk compress decompress from_wire_id
    decode-encode none plain small h = ground arith
    decode-encode lz4 plain small h =
        subst (λ s. open_envelope codecs lz4 s (length plain) ≡ ok plain) (ok-injective h)
          (reopen lz4 1 plain (codecs.lz4_compress plain) refl refl small
            (lossless.lz4 plain small))
    decode-encode zstd plain small h =
        let (packed, e, e') = >>=-eq-ok (codecs.zstd_compress plain 3) _ h in
        subst (λ s. open_envelope codecs zstd s (length plain) ≡ ok plain) (ok-injective e')
          (reopen zstd 2 plain packed refl refl small (lossless.zstd plain packed 3 e))
    decode-encode deflate plain small h =
        let (packed, e, e') = >>=-eq-ok (codecs.deflate_fast plain) _ h in
        subst (λ s. open_envelope codecs deflate s (length plain) ≡ ok plain) (ok-injective e')
          (reopen deflate 3 plain packed refl refl small (lossless.deflate plain packed e))

  reopen_large :
      (algo : Compression) (id : ℕ) (plain packed : List ℕ)
      → from_wire_id id ≡ ok algo
      → same_algo algo algo ≡ true
      → 2 ^ 32 ≤ length plain
      → open_envelope codecs algo (envelope codecs id (length plain) packed) (length plain)
        ≡ err (s3 "compressed chunk declares length")
  unfolding open_envelope
  reopen_large algo id plain packed known same large =
      ground (arith, from_be-u32_be (length plain), known, same)

  -- A compressed chunk of 4 GiB or more is stored without an error, and then never decoded: the header
  -- keeps its length modulo 2 ^ 32 only.
  pub decode-encode_large :
      (algo : Compression) (plain : List ℕ) {stored : List ℕ}
      → algo ≢ none
      → 2 ^ 32 ≤ length plain
      → encode_chunk codecs algo plain ≡ ok stored
      → decode_chunk codecs algo stored (length plain) ≡ err (s3 "compressed chunk declares length")
  unfolding encode_chunk decode_chunk compress decompress from_wire_id
  decode-encode_large none plain compressing large h = absurd (compressing refl)
  decode-encode_large lz4 plain compressing large h =
      subst
        (λ s.
          open_envelope codecs lz4 s (length plain) ≡ err (s3 "compressed chunk declares length"))
        (ok-injective h) (reopen_large lz4 1 plain (codecs.lz4_compress plain) refl refl large)
  decode-encode_large zstd plain compressing large h =
      let (packed, e, e') = >>=-eq-ok (codecs.zstd_compress plain 3) _ h in
      subst
        (λ s.
          open_envelope codecs zstd s (length plain) ≡ err (s3 "compressed chunk declares length"))
        (ok-injective e') (reopen_large zstd 2 plain packed refl refl large)
  decode-encode_large deflate plain compressing large h =
      let (packed, e, e') = >>=-eq-ok (codecs.deflate_fast plain) _ h in
      subst
        (λ s.
          open_envelope codecs deflate s (length plain)
          ≡ err (s3 "compressed chunk declares length"))
        (ok-injective e') (reopen_large deflate 3 plain packed refl refl large)
