-- ===== src/Tests/Formats.antt =====
-- Runs of src/compression.rs with codecs that copy, of `plan_capacity` and of the formats of
-- src/snapshot.rs.
use iscsi_s.Snapshot.Names.{AreBytes, hash_from_object_relpath, object_relpath, hash-object_relpath}
use iscsi_s.Snapshot.RoundTrip.{read-write_chunks_bin}
use iscsi_s.Snapshot.{ChunkRef, read_chunks_bin, write_chunks_bin}
use iscsi_s.Meta.{VolumeMeta, plan_capacity, fresh, cow, plan_capacity-ok}
use iscsi_s.Prelude.Eq.{string_eq}
use iscsi_s.Prelude.{
  ℕ, ◌≡◌, refl, List, [], ◌∷◌, some, length, arith, ◌≤◌, ap, sym, replicate, suc, zero,
}
use iscsi_s.Result.{ok, ok-injective}
use iscsi_s.Compression
use iscsi_s.ChunkCache.{key_eq}
use iscsi_s.Compression.{
  Codecs, IsLossless, lz4, encode_chunk, decode_chunk, compress, decompress, from_wire_id,
}
use iscsi_s.Compression.RoundTrip.{decode-encode, length-decode_chunk}
use iscsi_s.Tests.{three_bytes}

-- Codecs that copy the bytes.
abbrev pub copies : Codecs
copies = record {
  lz4_compress = λ bytes. bytes;
  lz4_decompress = λ bytes. ok bytes;
  zstd_compress = λ bytes level. ok bytes;
  zstd_decompress = λ bytes capacity. ok bytes;
  deflate_fast = λ bytes. ok bytes;
  inflate = λ bytes. ok bytes;
}

pub copies-IsLossless : IsLossless copies
copies-IsLossless = record {
  lz4 = λ bytes small. refl;
  zstd = λ bytes packed level h. ap ok (sym (ok-injective h));
  deflate = λ bytes packed h. ap ok (sym (ok-injective h));
}

abbrev enveloped : List ℕ
enveloped = b'I' ∷ b'S' ∷ b'C' ∷ b'3' ∷ 1 ∷ 0 ∷ 0 ∷ 0 ∷ 0 ∷ 3 ∷ 7 ∷ 8 ∷ 9 ∷ []

encoded : encode_chunk copies lz4 three_bytes ≡ ok enveloped
unfolding encode_chunk compress
encoded = refl

decoded : decode_chunk copies lz4 enveloped 3 ≡ ok three_bytes
unfolding decode_chunk decompress from_wire_id
decoded = refl

decode-encode_example : decode_chunk copies lz4 enveloped 3 ≡ ok three_bytes
decode-encode_example = decode-encode copies copies-IsLossless lz4 three_bytes (omega arith) encoded

length-decode_chunk_example : length three_bytes ≡ 3
length-decode_chunk_example = length-decode_chunk copies lz4 enveloped 3 decoded

-- A volume of 16 bytes, opened with a configuration that grows it to 24.
abbrev meta : VolumeMeta
meta = fresh 16 4 2 Compression.zstd cow

grown :
    plan_capacity 24 4 2 Compression.zstd cow (some meta)
    ≡ ok (24, some (record meta { capacity_bytes = 24 }))
unfolding plan_capacity
grown = refl

plan_capacity-ok_example :
    (meta.capacity_bytes ≤ 24)
    × (◌≡◌ {A = ℕ} 24 24)
    × (record meta { capacity_bytes = 24 }
        ≡ record (fresh 24 4 2 Compression.zstd cow) { version = 1 })
    × (meta.chunk_size ≡ 4)
    × (meta.block_size ≡ 2)
    × (meta.compression ≡ Compression.zstd)
    × (meta.storage ≡ cow)
plan_capacity-ok_example = plan_capacity-ok 24 4 2 Compression.zstd cow meta grown

replicate-AreBytes : (n : ℕ) → AreBytes (replicate n 171)
replicate-AreBytes zero = tt
replicate-AreBytes (suc n) = (omega arith, replicate-AreBytes n)

abbrev hash : List ℕ
hash = replicate 32 171

hash-AreBytes : AreBytes hash
hash-AreBytes = replicate-AreBytes 32

hash-object_relpath_example : hash_from_object_relpath (object_relpath hash) ≡ some hash
hash-object_relpath_example = hash-object_relpath hash refl hash-AreBytes

abbrev refs : List ChunkRef
refs = record { index = 0; hash = hash } ∷ record { index = 2; hash = hash } ∷ []

read-write_chunks_bin_example : read_chunks_bin (write_chunks_bin refs) ≡ ok refs
read-write_chunks_bin_example =
    read-write_chunks_bin refs
      (
        record { index = omega arith; hash = refl },
        (record { index = omega arith; hash = refl }, tt),
      )
      (omega arith)
