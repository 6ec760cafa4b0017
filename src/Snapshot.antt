-- ===== src/Snapshot.antt =====
-- src/snapshot.rs: the two binary formats of copy-on-write volumes, the pointer to a
-- content-addressed object (`ISCP`, the hash algorithm, a BLAKE3 hash) and the index `chunks.bin`
-- of a snapshot. A writer into memory does not fail. A reader is the bytes that are left;
-- `read_exact` on too few is an error.
pub mod RoundTrip
pub mod Names
use iscsi_s.Prelude.{
  ℕ, zero, suc, ◌≡◌, Bool, List, [], ◌∷◌, ◌++◌, length, take, drop, get_or, nat_beq, leb, u32_be,
  u64_be, from_be, String,
}
use iscsi_s.Result.{other, Result, ok, err, guard, ◌>>=◌, ◌>>◌}
use iscsi_s.Compression.{bytes_eq}

-- `b"ISC3SNAP"` and `b"ISCP"`.
abbrev pub snap_magic : List ℕ
snap_magic = b'I' ∷ b'S' ∷ b'C' ∷ b'3' ∷ b'S' ∷ b'N' ∷ b'A' ∷ b'P' ∷ []

abbrev pub ptr_magic : List ℕ
ptr_magic = b'I' ∷ b'S' ∷ b'C' ∷ b'P' ∷ []

abbrev pub snap_index_version : ℕ
snap_index_version = 1

abbrev pub hash_len : ℕ
hash_len = 32

abbrev pub ptr_algo_blake3 : ℕ
ptr_algo_blake3 = 1

abbrev pub ptr_len : ℕ
ptr_len = 37

pub record ChunkRef : Type 0 where
  pub index : ℕ
  pub hash : List ℕ

unfoldable pub encode_pointer : List ℕ → List ℕ
encode_pointer hash = ptr_magic ++ (ptr_algo_blake3 ∷ hash)

unfoldable pub decode_pointer : List ℕ → Result (List ℕ)
decode_pointer bytes = do
  guard (nat_beq (length bytes) ptr_len) (other "invalid cow pointer length")
  guard (bytes_eq (take 4 bytes) ptr_magic) (other "invalid cow pointer magic")
  guard (nat_beq (get_or bytes 4 0) ptr_algo_blake3) (other "unsupported pointer hash algo")
  ok (drop 5 bytes)

unfoldable pub write_refs : List ChunkRef → List ℕ
write_refs [] = []
write_refs (r ∷ refs) = u64_be r.index ++ (r.hash ++ write_refs refs)

unfoldable pub write_chunks_bin : List ChunkRef → List ℕ
unfolding write_refs
write_chunks_bin refs =
    snap_magic ++ (u32_be snap_index_version ++ (u64_be (length refs) ++ write_refs refs))

-- The bytes read and the rest.
unfoldable pub read_exact : ℕ → String → List ℕ → Result (List ℕ × List ℕ)
read_exact n what input = do
  guard (leb n (length input)) (other what)
  ok (take n input, drop n input)

unfoldable pub read_refs : ℕ → List ℕ → Result (List ChunkRef)
unfolding read_exact
read_refs zero input = ok []
read_refs (suc count) input = read_exact 8 "read chunk index" input >>= λ (index, input₁).
    read_exact hash_len "read chunk hash" input₁ >>= λ (hash, input₂).
    read_refs count input₂ >>= λ refs. ok (record { index = from_be 0 index; hash = hash } ∷ refs)

unfoldable pub read_chunks_bin : List ℕ → Result (List ChunkRef)
unfolding read_refs read_exact
read_chunks_bin input = read_exact 8 "read chunks.bin magic" input >>= λ (magic, input₁).
    guard (bytes_eq magic snap_magic) (other "bad chunks.bin magic") >>= λ _.
    read_exact 4 "read chunks.bin version" input₁ >>= λ (version, input₂).
    guard (nat_beq (from_be 0 version) snap_index_version) (other "unsupported chunks.bin version")
    >>= λ _. read_exact 8 "read chunks.bin count" input₂ >>= λ (count, input₃).
        read_refs (from_be 0 count) input₃
