-- ===== src/Snapshot/RoundTrip.antt =====
-- src/snapshot.rs: the readers on what the writers wrote.
use iscsi_s.Prelude.{
  ℕ, ◌<◌, ◌≡◌, ◌^◌, refl, List, [], ◌∷◌, ◌++◌, length, arith, u64_be, from_be-u64_be, ap, String,
  length-drop, from_be,
}
use iscsi_s.Prelude.{take-append_self, drop-append_self, length-append}
use iscsi_s.Result.{ok}
use iscsi_s.Snapshot.{
  ChunkRef, encode_pointer, decode_pointer, write_refs, write_chunks_bin, read_exact, read_refs,
  read_chunks_bin, hash_len,
}

-- A pointer to a hash of 32 bytes is decoded to that hash.
pub decode-encode_pointer :
    (hash : List ℕ) → length hash ≡ hash_len → decode_pointer (encode_pointer hash) ≡ ok hash
unfolding decode_pointer encode_pointer
decode-encode_pointer hash h = ground arith

-- A hash that `decode_pointer` returns has 32 bytes, whatever the input.
pub length-decode_pointer :
    (bytes hash : List ℕ) → decode_pointer bytes ≡ ok hash → length hash ≡ hash_len
unfolding decode_pointer
length-decode_pointer bytes hash h = ground (arith, length-drop 5 bytes)

-- What fits in the index: a u64 chunk number and a hash of 32 bytes.
pub record Fits (r : ChunkRef) : Type 0 where
  pub index : r.index < 2 ^ 64
  pub hash : length r.hash ≡ hash_len

abbrev pub AllFit : List ChunkRef → Type 0
AllFit [] = Unit
AllFit (r ∷ refs) = Fits r × AllFit refs

read_exact-append :
    (xs ys : List ℕ) (what : String) (n : ℕ)
    → length xs ≡ n
    → read_exact n what (xs ++ ys) ≡ ok (xs, ys)
unfolding read_exact
read_exact-append xs ys what n h =
    rw (← h) (ground (arith, length-append xs ys, take-append_self xs ys, drop-append_self xs ys))

u64_back : (n : ℕ) → n < 2 ^ 64 → from_be 0 (u64_be n) ≡ n
u64_back n small = omega (arith, from_be-u64_be n)

read-write_refs :
    (refs : List ChunkRef) → AllFit refs → read_refs (length refs) (write_refs refs) ≡ ok refs
unfolding read_refs write_refs
read-write_refs [] fit = refl
read-write_refs (r ∷ refs) (f, fit) =
    rw
      (
        read_exact-append (u64_be r.index) (r.hash ++ write_refs refs) "read chunk index" 8 refl,
        read_exact-append r.hash (write_refs refs) "read chunk hash" hash_len f.hash,
        read-write_refs refs fit,
      )
      (ap (λ i. ok (record { index = i; hash = r.hash } ∷ refs)) (u64_back r.index f.index))

-- An index of fewer than 2 ^ 64 entries, each with a u64 chunk number and a hash of 32 bytes, is
-- read back as it was written.
pub read-write_chunks_bin :
    (refs : List ChunkRef)
    → AllFit refs
    → length refs < 2 ^ 64
    → read_chunks_bin (write_chunks_bin refs) ≡ ok refs
unfolding read_chunks_bin write_chunks_bin read_exact
read-write_chunks_bin refs fit small =
    ground (arith, read-write_refs refs fit, u64_back (length refs) small)
