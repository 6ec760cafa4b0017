-- ===== src/S3/CowPuts.antt =====
-- src/store/s3.rs, `put_chunk` of a copy-on-write volume: the object of the new body, then the
-- pointer.
use iscsi_s.Prelude.{
  ℕ, ◌^◌, ◌<◌, ◌≡◌, ◌≢◌, refl, sym, ap, ◌∙◌, subst, inl, inr, some, none, Option, List, [], length,
  arith, nat_beq, Bool-cases,
}
use iscsi_s.Result.{Result, ok, err}
use iscsi_s.Meta.{cow}
use iscsi_s.Snapshot.{decode_pointer, encode_pointer}
use iscsi_s.Snapshot.RoundTrip.{decode-encode_pointer, length-decode_pointer}
use iscsi_s.S3.{Client, Libraries, S3ChunkStore}
use iscsi_s.S3.Keys
use iscsi_s.S3.Objects.{put_bytes}
use iscsi_s.S3.Chunks.{put_cow_chunk, opened}
use iscsi_s.S3.Laws.{IsBucket, IsContentHash, Bodies, Sets, put_bytes_lem}
use iscsi_s.S3.View.{chunk_in, cow_view, pointed_view, object_view, on_bucket_then, on_bucket_ends}
use iscsi_s.S3.Sound.{IsSound, bytes-cases}
use iscsi_s.S3.Puts.{Puts}
use iscsi_s.S3.Names
use mathlib.Core.Path.{fun_ext}

module _ {B : Type 0} (client : Client B) (libs : Libraries) (Body : List ℕ → Type 0)
    (s : S3ChunkStore B) (genuine : IsContentHash libs Body) (body : List ℕ)
    (is_body : Body body) where
  abbrev h : List ℕ
  h = libs.hash body

  -- The object put: `m₁` is `m` with the body under its hash.
  module _ (m m₁ : Bodies) (sound : IsSound client libs Body s m)
      (put : Sets (Keys.object_key s h) (some body) m m₁) where
    -- An object that is there is not changed by the put of another, or of the same.
    kept_object :
        (h' body' : List ℕ)
        → length h' ≡ 32
        → m (Keys.object_key s h') ≡ some body'
        → m₁ (Keys.object_key s h') ≡ some body'
    kept_object h' body' long e = elim (bytes-cases h' h) [
      | inl same ↦
          let (named, is_body') = sound.addressed h' body' long e in
          let one : body ≡ body' =
            genuine.injective body body' is_body is_body' (sym same ∙ sym named) in
          ap (λ k. m₁ (Keys.object_key s k)) same ∙ (put.at ∙ ap some one)
      | inr ne ↦
          put.others (Keys.object_key s h')
            (λ k. ne (Names.object-injective s h' h long (genuine.length_lem body) k))
          ∙ e
    ]

    live_kept : (j : ℕ) → m₁ (Keys.live_chunk_key s j) ≡ m (Keys.live_chunk_key s j)
    live_kept j =
        put.others (Keys.live_chunk_key s j)
          (Names.by_letter s 1 _ _ (Names.live_letter s j) (Names.object_letter s h) (omega arith))

    pub object_put-IsSound : IsSound client libs Body s m₁
    object_put-IsSound = record {
      addressed = λ h' body' long e. elim (bytes-cases h' h) [
        | inl same ↦
            let one : body ≡ body' =
              some_body (sym put.at ∙ (ap (λ k. m₁ (Keys.object_key s k)) (sym same) ∙ e)) in
            subst (λ (x : List ℕ). (libs.hash x ≡ h') × Body x) one (sym same, is_body)
        | inr ne ↦ sound.addressed h' body' long (
            sym (
              put.others (Keys.object_key s h')
                (λ k. ne (Names.object-injective s h' h long (genuine.length_lem body) k)))
            ∙ e)
      ];
      backed = λ j pointer h' hj e d.
          let (body', there) = sound.backed j pointer h' hj (sym (live_kept j) ∙ e) d in
          (body', kept_object h' body' (length-decode_pointer pointer h' d) there);
    }
      where
        some_body : {x y : List ℕ} → some x ≡ some y → x ≡ y
        some_body e = cc

    pointed_kept :
        (j : ℕ) (pointer : List ℕ) (r : Result (List ℕ))
        → j < 2 ^ 64
        → m (Keys.live_chunk_key s j) ≡ some pointer
        → decode_pointer pointer ≡ r
        → pointed_view client libs s m₁ r ≡ pointed_view client libs s m r
    pointed_kept j pointer (err e) hj there d = refl
    pointed_kept j pointer (ok h') hj there d =
        let (body', stored) = sound.backed j pointer h' hj there d in
        ap (object_view client libs s)
          (kept_object h' body' (length-decode_pointer pointer h' d) stored ∙ sym stored)

    cow_kept :
        (j : ℕ) (o : Option (List ℕ))
        → j < 2 ^ 64
        → m (Keys.live_chunk_key s j) ≡ o
        → cow_view client libs s m₁ o ≡ cow_view client libs s m o
    cow_kept j none hj e = refl
    cow_kept j (some pointer) hj e = pointed_kept j pointer (decode_pointer pointer) hj e refl

    -- The object alone moves no chunk.
    pub object_put-there :
        (j : ℕ) → j < 2 ^ 64 → chunk_in client libs cow s m₁ j ≡ chunk_in client libs cow s m j
    object_put-there j hj =
        ap (cow_view client libs s m₁) (live_kept j)
        ∙ cow_kept j (m (Keys.live_chunk_key s j)) hj refl

  -- The pointer put: `m₂` is `m₁`, which has the object, with the pointer.
  module _ (idx : ℕ) (plain : List ℕ) (small : idx < 2 ^ 64)
      (opens : opened client libs s body ≡ ok plain) (m₁ m₂ : Bodies)
      (sound : IsSound client libs Body s m₁) (held : m₁ (Keys.object_key s h) ≡ some body)
      (put : Sets (Keys.live_chunk_key s idx) (some (encode_pointer h)) m₁ m₂) where
    object_kept : (h' : List ℕ) → m₂ (Keys.object_key s h') ≡ m₁ (Keys.object_key s h')
    object_kept h' =
        put.others (Keys.object_key s h') (
          Names.by_letter s 1 _ _ (Names.object_letter s h') (Names.live_letter s idx)
            (omega arith))

    decoded : decode_pointer (encode_pointer h) ≡ ok h
    decoded = decode-encode_pointer h (genuine.length_lem body)

    pub pointer_put-here : chunk_in client libs cow s m₂ idx ≡ ok plain
    pointer_put-here =
        ap (cow_view client libs s m₂) put.at
        ∙ (ap (pointed_view client libs s m₂) decoded
            ∙ (ap (object_view client libs s) (object_kept h ∙ held) ∙ opens))

    pointed_same :
        (r : Result (List ℕ)) → pointed_view client libs s m₂ r ≡ pointed_view client libs s m₁ r
    pointed_same (err e) = refl
    pointed_same (ok h') = ap (object_view client libs s) (object_kept h')

    cow_same : (o : Option (List ℕ)) → cow_view client libs s m₂ o ≡ cow_view client libs s m₁ o
    cow_same none = refl
    cow_same (some pointer) = pointed_same (decode_pointer pointer)

    pub pointer_put-there :
        (j : ℕ)
        → j < 2 ^ 64
        → j ≢ idx
        → chunk_in client libs cow s m₂ j ≡ chunk_in client libs cow s m₁ j
    pointer_put-there j hj ne =
        ap (cow_view client libs s m₂)
          (put.others (Keys.live_chunk_key s j) (Names.live-ne-live s j idx hj small ne))
        ∙ cow_same (m₁ (Keys.live_chunk_key s j))

    pub pointer_put-IsSound : IsSound client libs Body s m₂
    pointer_put-IsSound = record {
      addressed = λ h' body' long e. sound.addressed h' body' long (sym (object_kept h') ∙ e);
      backed = λ j pointer h' hj e d. elim (Bool-cases (nat_beq j idx)) [
        | inl same ↦
            let here : j ≡ idx = ground arith in
            let is_ptr : encode_pointer h ≡ pointer =
              some_ptr (sym put.at ∙ (ap (λ k. m₂ (Keys.live_chunk_key s k)) (sym here) ∙ e)) in
            let is_h : h ≡ h' = ok_hash (sym decoded ∙ (ap decode_pointer is_ptr ∙ d)) in
            (body, object_kept h' ∙ (ap (λ k. m₁ (Keys.object_key s k)) (sym is_h) ∙ held))
        | inr other ↦
            let apart : j ≢ idx = ground arith in
            let (body', there) =
              sound.backed j pointer h' hj
                (sym (
                    put.others (Keys.live_chunk_key s j)
                      (Names.live-ne-live s j idx hj small apart))
                  ∙ e)
                d in
            (body', object_kept h' ∙ there)
      ];
    }
      where
        some_ptr : {x y : List ℕ} → some x ≡ some y → x ≡ y
        some_ptr e = cc

        ok_hash : {x y : List ℕ} → ok x ≡ ok y → x ≡ y
        ok_hash e = cc

module _ {B : Type 0} (client : Client B) (libs : Libraries) (objects : B → Bodies)
    (laws : IsBucket client objects) (Body : List ℕ → Type 0) (s : S3ChunkStore B)
    (genuine : IsContentHash libs Body) (idx : ℕ) (plain body : List ℕ) (is_body : Body body)
    (small : idx < 2 ^ 64) (opens : opened client libs s body ≡ ok plain)
    (sound : IsSound client libs Body s (objects s.bucket))
    (quiet : laws.in_flight s.bucket ≡ []) where
  pub put_cow_chunk_lem :
      (if_match : Option (List ℕ))
      → Puts client libs objects laws Body cow idx plain s
          (objects s.bucket)
          (put_cow_chunk client libs idx body if_match s)
  unfolding put_cow_chunk
  put_cow_chunk_lem if_match =
      on_bucket_then _ _ _ _ (put_bytes client (Keys.object_key s (libs.hash body)) body none) s _
        (put_bytes_lem client objects laws (Keys.object_key s (libs.hash body)) body none s.bucket
          quiet)
        (λ _ b (put, quiet₁).
          let sound₁ =
            object_put-IsSound client libs Body s genuine body is_body (objects s.bucket)
              (objects b) sound put in
          let there₁ =
            object_put-there client libs Body s genuine body is_body (objects s.bucket) (objects b)
              sound put in
          on_bucket_ends _ _ _ _
            (put_bytes client (Keys.live_chunk_key s idx) (encode_pointer (libs.hash body))
              if_match)
            (record s { bucket = b })
            (put_bytes_lem client objects laws (Keys.live_chunk_key s idx)
              (encode_pointer (libs.hash body)) if_match b quiet₁)
            (λ _ b' (put', quiet₂). record {
              store = refl;
              quiet = quiet₂;
              here =
                  pointer_put-here client libs Body s genuine body is_body idx plain small opens
                    (objects b) (objects b') sound₁ put.at put';
              there = λ j hj ne.
                  pointer_put-there client libs Body s genuine body is_body idx plain small opens
                    (objects b) (objects b') sound₁ put.at put' j hj ne
                  ∙ there₁ j hj;
              sound =
                  pointer_put-IsSound client libs Body s genuine body is_body idx plain small opens
                    (objects b) (objects b') sound₁ put.at put';
            })
            (λ e b' h refused.
              let same : objects b' ≡ objects b = fun_ext (h.0 refused).0 in
              record {
                store = refl;
                quiet = (h.0 refused).1;
                there =
                    λ j hj. ap (λ (n : Bodies). chunk_in client libs cow s n j) same ∙ there₁ j hj;
                sound = subst (IsSound client libs Body s) (sym same) sound₁;
              }))
        (λ e b h refused.
          let same : objects b ≡ objects s.bucket = fun_ext (h.0 refused).0 in
          record {
            store = refl;
            quiet = (h.0 refused).1;
            there = λ j hj. ap (λ (n : Bodies). chunk_in client libs cow s n j) same;
            sound = subst (IsSound client libs Body s) (sym same) sound;
          })
