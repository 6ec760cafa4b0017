-- ===== src/S3/Resizes.antt =====
-- src/store/s3.rs, `set_capacity`: the meta object is written, then the capacity is taken.
use iscsi_s.Prelude.{
  append_assoc, ℕ, ◌<◌, ◌≤◌, ◌≡◌, refl, List, [], none, ltb, nat_beq, not, if_rule, arith, ◌%◌,
  ◌++◌, subst, sym,
}
use iscsi_s.Result.{Result, ok, err, and_then, Ends}
use iscsi_s.Meta.{StorageMode, legacy, cow}
use iscsi_s.Store.{u64_size}
use iscsi_s.Store.Laws.{Shows, SameVolume-refl, Volume, volume, resized}
use iscsi_s.S3.{Client, Libraries, S3ChunkStore, on_bucket}
use iscsi_s.S3.Keys
use iscsi_s.S3.Objects.{put_bytes, put_meta}
use iscsi_s.S3.Disk.{s3_store, set_capacity, meta_with}
use iscsi_s.S3.Laws.{IsBucket, Bodies, Others, IsMetaObject, put_bytes_lem}
use iscsi_s.S3.Names.{letter_flat, by_letter, live_letter, live_sixth}
use iscsi_s.S3.Sound.{Framed, Others-Framed, Framed-IsSound}
use iscsi_s.S3.View.{on_bucket_then}
use iscsi_s.S3.Volume.{IsValid, content}
use iscsi_s.S3.Moves.{moved-Shows, content_of-Framed}

module _ {B : Type 0} (client : Client B) (libs : Libraries) (objects : B → Bodies)
    (laws : IsBucket client objects) (Body : List ℕ → Type 0) (s : S3ChunkStore B)
    (v : IsValid client libs objects laws Body s) where
  abbrev vol : Volume
  vol =
      volume (s3_store client libs) (IsValid client libs objects laws Body)
        (content client libs objects laws Body) s

  abbrev Shown : S3ChunkStore B → Volume → Type 0
  Shown =
      Shows (s3_store client libs) (IsValid client libs objects laws Body)
        (content client libs objects laws Body)

  -- The meta object is none of the chunks, pointers and objects.
  meta-Framed :
      (mode : StorageMode) (m m' : Bodies)
      → Others (elim mode [ legacy ↦ Keys.flat_meta_key s | cow ↦ Keys.live_meta_key s ]) m m'
      → Framed client libs Body s m m'
  meta-Framed legacy m m' others =
      Others-Framed client libs Body s m m' (Keys.flat_meta_key s)
        (λ e. absurd (omega (arith, letter_flat s 1 Keys.meta_json, e)))
        (λ e. absurd (omega (arith, letter_flat s 1 Keys.meta_json, e)))
        (λ j. by_letter s 1 _ _ (live_letter s j) (letter_flat s 1 Keys.meta_json) (omega arith))
        others
  meta-Framed cow m m' others =
      Others-Framed client libs Body s m m' (Keys.live_meta_key s)
        (λ e. absurd (omega (arith, letter_flat s 1 (Keys.live ++ Keys.meta_json), e)))
        (λ e. absurd (omega (arith, letter_flat s 1 (Keys.live ++ Keys.meta_json), e)))
        (λ j.
          by_letter s 6 _ _ (live_sixth s j) (letter_flat s 6 (Keys.live ++ Keys.meta_json))
            (omega arith))
        others

  meta_key-IsMetaObject :
      (mode : StorageMode)
      → IsMetaObject (elim mode [ legacy ↦ Keys.flat_meta_key s | cow ↦ Keys.live_meta_key s ])
  meta_key-IsMetaObject legacy = (s.prefix, refl)
  meta_key-IsMetaObject cow =
      (s.prefix ++ Keys.live, sym (append_assoc s.prefix Keys.live Keys.meta_json))

  -- A bucket whose bodies differ in the meta object only, and a capacity that is no smaller.
  meta-Shows :
      (b : B) (capacity : ℕ)
      → s.capacity ≤ capacity
      → capacity < u64_size
      → laws.in_flight b ≡ []
      → Others (Keys.meta_key s) (objects s.bucket) (objects b)
      → Shown (record s { bucket = b; capacity = capacity }) (resized vol capacity)
  meta-Shows b capacity le small quiet others =
      let framed = meta-Framed s.storage (objects s.bucket) (objects b) others in
      moved-Shows client libs objects laws Body s b capacity vol.content v small quiet
        (Framed-IsSound client libs Body s (objects s.bucket) (objects b) (λ j hj. framed.live j)
          framed.object v.sound)
        (content_of-Framed client libs objects laws Body s b capacity (objects s.bucket) (objects b)
          framed)
        (λ p past. v.beyond p (omega arith))

  abbrev Resizes : ℕ → Result (Unit {0}) × S3ChunkStore B → Type 0
  Resizes capacity =
      Ends (λ _ s'. Shown s' (resized vol capacity) × (s.capacity ≤ capacity))
        (λ _ s'. Shown s' vol)

  stays : Shown s vol
  stays = record { valid = v; same = SameVolume-refl vol }

  put_grown :
      (capacity : ℕ) (r : Result (List ℕ))
      → s.capacity ≤ capacity
      → capacity < u64_size
      → Resizes capacity (
          and_then
            (and_then (r, s) λ body s. on_bucket (put_bytes client (Keys.meta_key s) body none) s)
            λ _ s. (ok tt, record s { capacity = capacity }))
  put_grown capacity (err e) le small = stays
  put_grown capacity (ok body) le small =
      on_bucket_then _ _ _ _ (put_bytes client (Keys.meta_key s) body none) s _
        (put_bytes_lem client objects laws (Keys.meta_key s) body none s.bucket v.quiet)
        (λ _ b put. (meta-Shows b capacity le small put.1 put.0.others, le))
        (λ e b h.
          meta-Shows b s.capacity (omega arith) v.small (h.2 (meta_key-IsMetaObject s.storage)) h.1)

  pub set_capacity-Resizes :
      (capacity : ℕ) → capacity < u64_size → Resizes capacity (set_capacity client libs capacity s)
  unfolding set_capacity put_meta
  set_capacity-Resizes capacity small =
      if_rule (Resizes capacity) (not (nat_beq (capacity % s.block_size) 0)) _ _ (λ bad. stays)
        (λ aligned.
          if_rule (Resizes capacity) (ltb capacity s.capacity) _ _ (λ shrinks. stays)
            (λ grows.
              if_rule (Resizes capacity) (nat_beq capacity s.capacity) _ _
                (λ same.
                  let e : capacity ≡ s.capacity = ground arith in
                  (subst (λ c. Shown s (resized vol c)) (sym e) stays, omega arith))
                (λ more.
                  put_grown capacity (libs.meta_to_json (meta_with client libs capacity s))
                    (ground arith) small)))
