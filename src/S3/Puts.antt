-- ===== src/S3/Puts.antt =====
-- src/store/s3.rs, `put_chunk`: what the chunks of a volume are after a chunk is put, in either
-- layout.
use iscsi_s.Prelude.{ℕ, ◌^◌, ◌<◌, ◌≡◌, ◌≢◌, refl, sym, ap, ◌∙◌, true, some, Option, List, [], arith}
use iscsi_s.Result.{Result, ok, Ends}
use iscsi_s.Meta.{StorageMode, legacy}
use iscsi_s.S3.{Client, Libraries, S3ChunkStore}
use iscsi_s.S3.Keys
use iscsi_s.S3.Objects.{put_bytes, try_delete}
use iscsi_s.S3.Chunks.{put_legacy_chunk, is_precondition_failed, opened}
use iscsi_s.S3.Laws.{IsBucket, Bodies, Others, Sets, Still, put_bytes_lem, try_delete-Others}
use iscsi_s.S3.View.{chunk_in, legacy_view, on_bucket_then}
use iscsi_s.S3.Sound.{IsSound, Framed-IsSound}
use iscsi_s.S3.Names
use mathlib.Core.Path.{fun_ext}

module _ {B : Type 0} (client : Client B) (libs : Libraries) (objects : B → Bodies)
    (laws : IsBucket client objects) (Body : List ℕ → Type 0) where
  -- The store but for its bucket, whose chunks below the bound of a u64 are those of `m` but for one.
  pub record Stored (mode : StorageMode) (idx : ℕ) (plain : List ℕ) (s : S3ChunkStore B)
      (m : Bodies) (s' : S3ChunkStore B) : Type 0 where
    pub store : s' ≡ record s { bucket = s'.bucket }
    pub here : chunk_in client libs mode s (objects s'.bucket) idx ≡ ok plain
    pub there :
        (j : ℕ)
        → j < 2 ^ 64
        → j ≢ idx
        → chunk_in client libs mode s (objects s'.bucket) j ≡ chunk_in client libs mode s m j
    pub sound : IsSound client libs Body s (objects s'.bucket)
    pub quiet : laws.in_flight s'.bucket ≡ []

  pub record Unmoved (mode : StorageMode) (s : S3ChunkStore B) (m : Bodies) (s' : S3ChunkStore B)
      : Type 0 where
    pub store : s' ≡ record s { bucket = s'.bucket }
    pub there :
        (j : ℕ)
        → j < 2 ^ 64
        → chunk_in client libs mode s (objects s'.bucket) j ≡ chunk_in client libs mode s m j
    pub sound : IsSound client libs Body s (objects s'.bucket)
    pub quiet : laws.in_flight s'.bucket ≡ []

  -- A put that succeeds stores the chunk; one that is refused for its condition moves no chunk.
  abbrev pub Puts :
      StorageMode
      → ℕ
      → List ℕ
      → S3ChunkStore B
      → Bodies
      → Result (Unit {0}) × S3ChunkStore B
      → Type 0
  Puts mode idx plain s m =
      Ends (λ _ s'. Stored mode idx plain s m s')
        (λ e s'. is_precondition_failed e ≡ true → Unmoved mode s m s')

  module _ (s : S3ChunkStore B) (idx : ℕ) (plain body : List ℕ) (small : idx < 2 ^ 64)
      (opens : opened client libs s body ≡ ok plain)
      (sound : IsSound client libs Body s (objects s.bucket))
      (quiet : laws.in_flight s.bucket ≡ []) where
    abbrev m : Bodies
    m = objects s.bucket

    module _ (m₁ m₂ : Bodies) (put : Sets (Keys.legacy_chunk_key s idx) (some body) m m₁)
        (dropped : Others (Keys.legacy_flat_chunk_key s idx) m₁ m₂) where
      legacy_here : chunk_in client libs legacy s m₂ idx ≡ ok plain
      legacy_here =
          ap (λ v. legacy_view client libs s v (m₂ (Keys.legacy_flat_chunk_key s idx)))
            (dropped (Keys.legacy_chunk_key s idx) (Names.sharded-ne-flat s idx idx) ∙ put.at)
          ∙ opens

      legacy_there :
          (j : ℕ)
          → j < 2 ^ 64
          → j ≢ idx
          → chunk_in client libs legacy s m₂ j ≡ chunk_in client libs legacy s m j
      legacy_there j hj ne =
          ap (λ v. legacy_view client libs s v (m₂ (Keys.legacy_flat_chunk_key s j)))
            (dropped (Keys.legacy_chunk_key s j) (Names.sharded-ne-flat s j idx)
              ∙ put.others (Keys.legacy_chunk_key s j)
                  (Names.sharded-ne-sharded s j idx hj small ne))
          ∙ ap (λ v. legacy_view client libs s (m (Keys.legacy_chunk_key s j)) v)
              (dropped (Keys.legacy_flat_chunk_key s j) (Names.flat-ne-flat s j idx hj small ne)
                ∙ put.others (Keys.legacy_flat_chunk_key s j)
                    (λ e. Names.sharded-ne-flat s idx j (sym e)))

      legacy-IsSound : IsSound client libs Body s m₂
      legacy-IsSound =
          Framed-IsSound client libs Body s m m₂
            (λ j hj.
              dropped (Keys.live_chunk_key s j) (
                Names.by_letter s 1 _ _ (Names.live_letter s j) (Names.flat_letter s idx)
                  (omega arith))
              ∙ put.others (Keys.live_chunk_key s j) (
                  Names.by_letter s 1 _ _ (Names.live_letter s j) (Names.sharded_letter s idx)
                    (omega arith)))
            (λ h.
              dropped (Keys.object_key s h) (
                Names.by_letter s 1 _ _ (Names.object_letter s h) (Names.flat_letter s idx)
                  (omega arith))
              ∙ put.others (Keys.object_key s h) (
                  Names.by_letter s 1 _ _ (Names.object_letter s h) (Names.sharded_letter s idx)
                    (omega arith)))
            sound

    Same-Unmoved :
        (mode : StorageMode) (b : B)
        → Still objects laws.in_flight m b
        → Unmoved mode s m (record s { bucket = b })
    Same-Unmoved mode b (same, still) = record {
      store = refl;
      quiet = still;
      there = λ j hj. ap (λ (n : Bodies). chunk_in client libs mode s n j) (fun_ext same);
      sound =
          Framed-IsSound client libs Body s m (objects b) (λ j hj. same (Keys.live_chunk_key s j))
            (λ h. same (Keys.object_key s h)) sound;
    }

    pub put_legacy_chunk_lem :
        (if_match : Option (List ℕ))
        → Puts legacy idx plain s m (put_legacy_chunk client libs idx body if_match s)
    unfolding put_legacy_chunk
    put_legacy_chunk_lem if_match =
        on_bucket_then _ _ _ _ (put_bytes client (Keys.legacy_chunk_key s idx) body if_match) s _
          (put_bytes_lem client objects laws (Keys.legacy_chunk_key s idx) body if_match s.bucket
            quiet)
          (λ _ b (put, quiet').
            let flat = Keys.legacy_flat_chunk_key s idx in
            let b' = (try_delete client flat b).1 in
            let (dropped, still) = try_delete-Others client objects laws flat b quiet' in
            record {
              store = refl;
              quiet = still;
              here = legacy_here (objects b) (objects b') put dropped;
              there = legacy_there (objects b) (objects b') put dropped;
              sound = legacy-IsSound (objects b) (objects b') put dropped;
            })
          (λ e b h refused. Same-Unmoved legacy b (h.0 refused))
