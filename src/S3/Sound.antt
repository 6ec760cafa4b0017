-- ===== src/S3/Sound.antt =====
-- src/store/s3.rs: what the objects of a volume satisfy, an object being named by its hash and no
-- pointer without its object, and what a change of other keys leaves alone.
use iscsi_s.Prelude.{
  ℕ, ◌^◌, ◌<◌, ◌≡◌, ◌≢◌, refl, sym, ap, ◌∙◌, ◌⊎◌, true, ◌↔◌, some, none, Option, List, [], ◌∷◌,
  length, arith,
}
use iscsi_s.Result.{Result, ok, err}
use iscsi_s.Compression.{bytes_eq}
use iscsi_s.Meta.{StorageMode, legacy, cow}
use iscsi_s.Snapshot.{decode_pointer}
use iscsi_s.S3.{Client, Libraries, S3ChunkStore}
use iscsi_s.S3.Keys
use iscsi_s.S3.Laws.{Bodies, Key, Others}
use iscsi_s.S3.View.{chunk_in, cow_view, pointed_view, object_view}
use iscsi_s.S3.Names.{letter, object_letter, sharded_letter, flat_letter}

pub bytes_eq_iff : (xs ys : List ℕ) → (bytes_eq xs ys ≡ true) ↔ (xs ≡ ys)
bytes_eq_iff [] [] = ground arith
bytes_eq_iff [] (y ∷ ys) = ground arith
bytes_eq_iff (x ∷ xs) [] = ground arith
bytes_eq_iff (x ∷ xs) (y ∷ ys) = ground (arith, bytes_eq_iff xs ys)

pub bytes-cases : (xs ys : List ℕ) → (xs ≡ ys) ⊎ (xs ≢ ys)
bytes-cases xs ys = ground (arith, bytes_eq_iff xs ys)

module _ {B : Type 0} (client : Client B) (libs : Libraries) (Body : List ℕ → Type 0)
    (s : S3ChunkStore B) where
  pub record IsSound (m : Bodies) : Type 0 where
    pub addressed :
        (hash body : List ℕ)
        → length hash ≡ 32
        → m (Keys.object_key s hash) ≡ some body
        → (libs.hash body ≡ hash) × Body body
    pub backed :
        (j : ℕ) (pointer hash : List ℕ)
        → j < 2 ^ 64
        → m (Keys.live_chunk_key s j) ≡ some pointer
        → decode_pointer pointer ≡ ok hash
        → (body : List ℕ) × (m (Keys.object_key s hash) ≡ some body)

  -- The keys of the volume's chunks, pointers and objects, unchanged.
  pub record Framed (m m' : Bodies) : Type 0 where
    pub live : (j : ℕ) → m' (Keys.live_chunk_key s j) ≡ m (Keys.live_chunk_key s j)
    pub object : (h : List ℕ) → m' (Keys.object_key s h) ≡ m (Keys.object_key s h)
    pub sharded : (j : ℕ) → m' (Keys.legacy_chunk_key s j) ≡ m (Keys.legacy_chunk_key s j)
    pub flat : (j : ℕ) → m' (Keys.legacy_flat_chunk_key s j) ≡ m (Keys.legacy_flat_chunk_key s j)

  module _ (m m' : Bodies) where
    pub Framed-IsSound :
        ((j : ℕ) → j < 2 ^ 64 → m' (Keys.live_chunk_key s j) ≡ m (Keys.live_chunk_key s j))
        → ((h : List ℕ) → m' (Keys.object_key s h) ≡ m (Keys.object_key s h))
        → IsSound m
        → IsSound m'
    Framed-IsSound live object sound = record {
      addressed = λ hash body long e. sound.addressed hash body long (sym (object hash) ∙ e);
      backed = λ j pointer hash small e d.
          let (body, there) = sound.backed j pointer hash small (sym (live j small) ∙ e) d in
          (body, object hash ∙ there);
    }

    pointed_view-Framed :
        (r : Result (List ℕ))
        → ((h : List ℕ) → m' (Keys.object_key s h) ≡ m (Keys.object_key s h))
        → pointed_view client libs s m' r ≡ pointed_view client libs s m r
    pointed_view-Framed (err e) object = refl
    pointed_view-Framed (ok hash) object = ap (object_view client libs s) (object hash)

    pub cow_view-Framed :
        (o : Option (List ℕ))
        → ((h : List ℕ) → m' (Keys.object_key s h) ≡ m (Keys.object_key s h))
        → cow_view client libs s m' o ≡ cow_view client libs s m o
    cow_view-Framed none object = refl
    cow_view-Framed (some p) object = pointed_view-Framed (decode_pointer p) object

    pub chunk_in-Framed :
        (mode : StorageMode) (j : ℕ)
        → Framed m m'
        → chunk_in client libs mode s m' j ≡ chunk_in client libs mode s m j
    chunk_in-Framed legacy j framed = rw (framed.sharded j, framed.flat j) refl
    chunk_in-Framed cow j framed =
        ap (cow_view client libs s m') (framed.live j)
        ∙ cow_view-Framed (m (Keys.live_chunk_key s j)) framed.object

    -- A change of a key that is none of theirs.
    pub Others-Framed :
        (key : Key)
        → letter s 1 key ≢ b'c'
        → letter s 1 key ≢ b'o'
        → ((j : ℕ) → Keys.live_chunk_key s j ≢ key)
        → Others key m m'
        → Framed m m'
    Others-Framed key not_c not_o not_live others = record {
      live = λ j. others (Keys.live_chunk_key s j) (not_live j);
      object = λ h.
          others (Keys.object_key s h) λ e. not_o (ap (letter s 1) (sym e) ∙ object_letter s h);
      sharded = λ j.
          others (Keys.legacy_chunk_key s j)
            λ e. not_c (ap (letter s 1) (sym e) ∙ sharded_letter s j);
      flat = λ j.
          others (Keys.legacy_flat_chunk_key s j)
            λ e. not_c (ap (letter s 1) (sym e) ∙ flat_letter s j);
    }
