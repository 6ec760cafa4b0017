-- ===== src/S3/ChunkPuts.antt =====
-- src/store/s3.rs, `put_chunk` and `get_chunk`: a chunk put in either layout.
use iscsi_s.Prelude.{
  ℕ, ◌^◌, ◌<◌, ◌≡◌, refl, Option, List, [], length, arith, nat_beq, subst, if_rule, not, ◌⊎◌, inl,
  inr, sym, ◌∙◌,
}
use iscsi_s.Result.{Result, ok, err, and_then}
use iscsi_s.Compression.{IsLossless, encode_chunk, decode_chunk}
use iscsi_s.Compression.RoundTrip.{decode-encode}
use iscsi_s.Meta.{StorageMode, legacy, cow}
use iscsi_s.S3.{Client, Libraries, S3ChunkStore}
use iscsi_s.S3.Chunks.{put_chunk, put_body, opened}
use iscsi_s.S3.Laws.{IsBucket, IsContentHash, Covers, Bodies}
use iscsi_s.S3.Sound.{IsSound}
use iscsi_s.S3.Puts.{Puts, Unmoved, put_legacy_chunk_lem}
use iscsi_s.S3.CowPuts.{put_cow_chunk_lem}

module _ {B : Type 0} (client : Client B) (libs : Libraries) (objects : B → Bodies)
    (laws : IsBucket client objects) (Body : List ℕ → Type 0) (lossless : IsLossless libs.codecs)
    (s : S3ChunkStore B) (genuine : (s.storage ≡ legacy) ⊎ IsContentHash libs Body)
    (chunk_small : s.chunk_size < 2 ^ 32) (sound : IsSound client libs Body s (objects s.bucket))
    (quiet : laws.in_flight s.bucket ≡ []) (idx : ℕ) (small : idx < 2 ^ 64) (plain : List ℕ)
    (covered : Covers libs Body plain) (if_match : Option (List ℕ)) where
  -- The chunk number, the bytes, the store and its bodies are these.
  abbrev PutsHere : StorageMode → Result (Unit {0}) × S3ChunkStore B → Type 0
  PutsHere mode = Puts client libs objects laws Body mode idx plain s (objects s.bucket)

  still : (mode : StorageMode) → Unmoved client libs objects laws Body mode s (objects s.bucket) s
  still mode = record { store = refl; there = λ j hj. refl; sound = sound; quiet = quiet }

  put_body_lem :
      (mode : StorageMode) (body : List ℕ)
      → length plain ≡ s.chunk_size
      → encode_chunk libs.codecs s.compression plain ≡ ok body
      → s.storage ≡ mode
      → PutsHere mode (put_body client libs mode idx body if_match s)
  unfolding put_body
  put_body_lem mode body full e layout = by_mode mode layout
    where
      opens : opened client libs s body ≡ ok plain
      opens =
          subst (λ n. decode_chunk libs.codecs s.compression body n ≡ ok plain) full
            (decode-encode libs.codecs lossless s.compression plain (omega (arith, full)) e)

      by_mode :
          (mode : StorageMode)
          → s.storage ≡ mode
          → PutsHere mode (put_body client libs mode idx body if_match s)
      by_mode legacy layout =
          put_legacy_chunk_lem client libs objects laws Body s idx plain body small opens sound
            quiet if_match
      by_mode cow layout = elim genuine [
        | inl flat ↦ absurd (apart (sym flat ∙ layout))
        | inr hashed ↦
            put_cow_chunk_lem client libs objects laws Body s hashed idx plain body
              (covered s.compression body e) small opens sound quiet if_match
      ]
        where
          apart : legacy ≡ cow → ⊥
          apart h = cc

  encoded_lem :
      (r : Result (List ℕ))
      → length plain ≡ s.chunk_size
      → encode_chunk libs.codecs s.compression plain ≡ r
      → PutsHere s.storage
          (and_then (r, s) λ body s. put_body client libs s.storage idx body if_match s)
  encoded_lem (ok body) full e = put_body_lem s.storage body full e refl
  encoded_lem (err x) full e = λ refused. still s.storage

  -- Over a bucket that keeps the promises of S3, where a late removal or put of a meta object is
  -- carried out at once or never, with compressors that give back what they compressed, a
  -- `put_chunk`, on a volume with chunks below 4 GiB whose objects are named by their hashes and
  -- that has no call in flight, that succeeds, in the legacy layout, or in the copy-on-write one
  -- with a hash without collisions on a class of bodies that has the stored objects and that of
  -- this chunk, stores the chunk and moves no other chunk, and one that fails with an error that
  -- the code takes for a refused condition moves none; in both cases no call is in flight, every
  -- object is still named by its hash, and no pointer is without its object.
  pub put_chunk_lem : PutsHere s.storage (put_chunk client libs idx plain if_match s)
  unfolding put_chunk
  put_chunk_lem =
      if_rule (PutsHere s.storage) (not (nat_beq (length plain) s.chunk_size)) _ _
        (λ short refused. still s.storage)
        (λ full. encoded_lem (encode_chunk libs.codecs s.compression plain) (ground arith) refl)
