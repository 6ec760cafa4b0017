-- ===== src/S3/Deletes.antt =====
-- src/store/s3.rs, `delete_chunk_object`: what is left when a chunk is removed.
use iscsi_s.Prelude.{
  ℕ, ◌<◌, ◌≡◌, ◌≢◌, refl, sym, ap, ◌∙◌, arith, List, [], none, some, replicate, ◌^◌, Bool-cases,
  nat_beq, inl, inr,
}
use iscsi_s.Result.{Result, ok, and_then, Ends}
use iscsi_s.Meta.{StorageMode, legacy, cow}
use iscsi_s.S3.{Client, Libraries, S3ChunkStore, on_bucket}
use iscsi_s.S3.Keys
use iscsi_s.S3.Objects.{delete_object_key}
use iscsi_s.S3.Chunks.{delete_chunk_object}
use iscsi_s.S3.Laws.{IsBucket, Bodies, Key, Sets, delete_object_key_lem}
use iscsi_s.S3.Names
use iscsi_s.S3.Sound.{IsSound, Framed-IsSound, cow_view-Framed}
use iscsi_s.S3.Puts.{Stored}
use iscsi_s.S3.View.{chunk_in, cow_view, legacy_view, on_bucket_then, on_bucket_ends}

module _ {B : Type 0} (client : Client B) (libs : Libraries) (objects : B → Bodies)
    (laws : IsBucket client objects) (Body : List ℕ → Type 0) (s : S3ChunkStore B) (idx : ℕ)
    (small : idx < 2 ^ 64) (quiet : laws.in_flight s.bucket ≡ []) where
  abbrev pub zeros : List ℕ
  zeros = replicate s.chunk_size 0

  module _ (m m₁ m₂ : Bodies) (first : Sets (Keys.legacy_chunk_key s idx) none m m₁)
      (second : Sets (Keys.legacy_flat_chunk_key s idx) none m₁ m₂) where
    unchanged :
        (k : Key)
        → k ≢ Keys.legacy_chunk_key s idx
        → k ≢ Keys.legacy_flat_chunk_key s idx
        → m₂ k ≡ m k
    unchanged k ne ne' = second.others k ne' ∙ first.others k ne

    legacy_gone : chunk_in client libs legacy s m₂ idx ≡ ok zeros
    legacy_gone =
        ap (λ v. legacy_view client libs s v (m₂ (Keys.legacy_flat_chunk_key s idx)))
          (second.others (Keys.legacy_chunk_key s idx) (Names.sharded-ne-flat s idx idx) ∙ first.at)
        ∙ ap (legacy_view client libs s none) second.at

    legacy_others :
        (j : ℕ)
        → j < 2 ^ 64
        → j ≢ idx
        → chunk_in client libs legacy s m₂ j ≡ chunk_in client libs legacy s m j
    legacy_others j hj ne =
        ap (λ v. legacy_view client libs s v (m₂ (Keys.legacy_flat_chunk_key s j)))
          (unchanged (Keys.legacy_chunk_key s j) (Names.sharded-ne-sharded s j idx hj small ne)
            (Names.sharded-ne-flat s j idx))
        ∙ ap (legacy_view client libs s (m (Keys.legacy_chunk_key s j))) (
            unchanged (Keys.legacy_flat_chunk_key s j) (λ e. Names.sharded-ne-flat s idx j (sym e))
              (Names.flat-ne-flat s j idx hj small ne))

    legacy_gone-IsSound : IsSound client libs Body s m → IsSound client libs Body s m₂
    legacy_gone-IsSound =
        Framed-IsSound client libs Body s m m₂
          (λ j hj.
            unchanged (Keys.live_chunk_key s j)
              (Names.by_letter s 1 _ _ (Names.live_letter s j) (Names.sharded_letter s idx)
                (omega arith))
              (Names.by_letter s 1 _ _ (Names.live_letter s j) (Names.flat_letter s idx)
                (omega arith)))
          (λ h.
            unchanged (Keys.object_key s h)
              (Names.by_letter s 1 _ _ (Names.object_letter s h) (Names.sharded_letter s idx)
                (omega arith))
              (Names.by_letter s 1 _ _ (Names.object_letter s h) (Names.flat_letter s idx)
                (omega arith)))

  module _ (m m₁ : Bodies) (gone : Sets (Keys.live_chunk_key s idx) none m m₁) where
    object_left : (h : List ℕ) → m₁ (Keys.object_key s h) ≡ m (Keys.object_key s h)
    object_left h =
        gone.others (Keys.object_key s h) (
          Names.by_letter s 1 _ _ (Names.object_letter s h) (Names.live_letter s idx) (omega arith))

    cow_others :
        (j : ℕ)
        → j < 2 ^ 64
        → j ≢ idx
        → chunk_in client libs cow s m₁ j ≡ chunk_in client libs cow s m j
    cow_others j hj ne =
        ap (cow_view client libs s m₁)
          (gone.others (Keys.live_chunk_key s j) (Names.live-ne-live s j idx hj small ne))
        ∙ cow_view-Framed client libs Body s m m₁ (m (Keys.live_chunk_key s j)) object_left

    -- A pointer that is gone points at nothing.
    cow_gone-IsSound : IsSound client libs Body s m → IsSound client libs Body s m₁
    cow_gone-IsSound sound = record {
      addressed = λ h body long e. sound.addressed h body long (sym (object_left h) ∙ e);
      backed = λ j pointer h hj e d. elim (Bool-cases (nat_beq j idx)) [
        | inl same ↦
            let here : j ≡ idx = ground arith in
            absurd (nothing (sym gone.at ∙ (ap (λ k. m₁ (Keys.live_chunk_key s k)) (sym here) ∙ e)))
        | inr distinct ↦
            let apart : j ≢ idx = ground arith in
            let (body, there) =
              sound.backed j pointer h hj
                (sym (
                    gone.others (Keys.live_chunk_key s j)
                      (Names.live-ne-live s j idx hj small apart))
                  ∙ e)
                d in
            (body, object_left h ∙ there)
      ];
    }
      where
        nothing : {x : List ℕ} → none ≡ some x → ⊥
        nothing e = cc

  -- A removal that succeeds leaves zeros in the chunk's place, and the other chunks.
  abbrev Deletes : StorageMode → Result (Unit {0}) × S3ChunkStore B → Type 0
  Deletes mode =
      Ends (λ _ s'. Stored client libs objects laws Body mode idx zeros s (objects s.bucket) s')
        (λ _ _. Unit)

  delete_in :
      (mode : StorageMode)
      → IsSound client libs Body s (objects s.bucket)
      → Deletes mode (elim mode [
        | legacy ↦
            and_then
              (on_bucket (delete_object_key client (Keys.legacy_chunk_key s idx)) s)
              λ _ s. on_bucket (delete_object_key client (Keys.legacy_flat_chunk_key s idx)) s
        | cow ↦ on_bucket (delete_object_key client (Keys.live_chunk_key s idx)) s
      ])
  delete_in legacy sound =
      on_bucket_then _ _ _ _ (delete_object_key client (Keys.legacy_chunk_key s idx)) s _
        (delete_object_key_lem client objects laws (Keys.legacy_chunk_key s idx) s.bucket quiet)
        (λ _ b (first, quiet₁).
          on_bucket_ends _ _ _ _ (delete_object_key client (Keys.legacy_flat_chunk_key s idx))
            (record s { bucket = b })
            (delete_object_key_lem client objects laws (Keys.legacy_flat_chunk_key s idx) b quiet₁)
            (λ _ b' (second, quiet₂). record {
              store = refl;
              quiet = quiet₂;
              here = legacy_gone (objects s.bucket) (objects b) (objects b') first second;
              there = legacy_others (objects s.bucket) (objects b) (objects b') first second;
              sound =
                  legacy_gone-IsSound (objects s.bucket) (objects b) (objects b') first second
                    sound;
            })
            (λ e b' h. tt))
        (λ e b h. tt)
  delete_in cow sound =
      on_bucket_ends _ _ _ _ (delete_object_key client (Keys.live_chunk_key s idx)) s
        (delete_object_key_lem client objects laws (Keys.live_chunk_key s idx) s.bucket quiet)
        (λ _ b (gone, quiet₁). record {
          store = refl;
          quiet = quiet₁;
          here = ap (cow_view client libs s (objects b)) gone.at;
          there = cow_others (objects s.bucket) (objects b) gone;
          sound = cow_gone-IsSound (objects s.bucket) (objects b) gone sound;
        })
        (λ e b h. tt)

  pub delete_chunk_object_lem :
      IsSound client libs Body s (objects s.bucket)
      → Deletes s.storage (delete_chunk_object client idx s)
  unfolding delete_chunk_object
  delete_chunk_object_lem sound = delete_in s.storage sound
