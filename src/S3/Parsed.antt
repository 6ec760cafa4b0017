-- ===== src/S3/Parsed.antt =====
-- src/store/s3.rs: the chunk numbers that a listing of keys gives.
use iscsi_s.Prelude.{
  ℕ, ◌≡◌, refl, sym, ap, ◌∙◌, subst, Bool, true, Option, none, some, List, [], ◌∷◌, ◌++◌, length,
  take, drop, if◌then◌else◌, arith, inl, inr, take-append_self, drop-append_self,
}
use iscsi_s.Store.Laws.{contains}
use iscsi_s.S3.{Listed}
use iscsi_s.S3.Keys
use iscsi_s.S3.Chunks.{parsed_indices, dedup, key_or_empty}
use iscsi_s.S3.Laws.{HasKey}
use iscsi_s.S3.Sound.{bytes_eq_iff}

some_key : {k key : List ℕ} → some k ≡ some key → k ≡ key
some_key e = cc

pub some_eq : {i j : ℕ} → some i ≡ some j → i ≡ j
some_eq e = cc

pub contains-dedup : (xs : List ℕ) (a : ℕ) → contains (dedup xs) a ≡ contains xs a
unfolding dedup
contains-dedup [] a = refl
contains-dedup (x ∷ []) a = refl
contains-dedup (x ∷ y ∷ ys) a = ground (arith, contains-dedup (y ∷ ys) a)

strip-append : (prefix rel : List ℕ) → Keys.strip_prefix prefix (prefix ++ rel) ≡ some rel
unfolding Keys.strip_prefix
strip-append prefix rel =
    ap (λ (t : Bool). if t then some (drop (length prefix) (prefix ++ rel)) else none)
      ((bytes_eq_iff (take (length prefix) (prefix ++ rel)) prefix).1 (take-append_self prefix rel))
    ∙ ap some (drop-append_self prefix rel)

pub parse-append :
    (prefix rel : List ℕ)
    → Keys.parse_chunk_index_from_key prefix (prefix ++ rel) ≡ Keys.index_from_chunk_relpath rel
unfolding Keys.parse_chunk_index_from_key
parse-append prefix rel =
    ap (λ o. elim o [ none ↦ none | some rest ↦ Keys.index_from_chunk_relpath rest ])
      (strip-append prefix rel)

pub contains-parsed :
    (prefix key : List ℕ) (idx : ℕ) (listed : List Listed)
    → HasKey key listed
    → Keys.parse_chunk_index_from_key prefix key ≡ some idx
    → contains (parsed_indices prefix listed) idx ≡ true
unfolding parsed_indices
contains-parsed prefix key idx [] h e = absurd h
contains-parsed prefix key idx (o ∷ os) (inl here) e = first (o.key) here
  where
    first :
        (k : Option (List ℕ))
        → k ≡ some key
        → contains
            (elim (Keys.parse_chunk_index_from_key prefix (elim k [ none ↦ [] | some key ↦ key ])) [
              | none ↦ parsed_indices prefix os
              | some idx ↦ idx ∷ parsed_indices prefix os
            ])
            idx
          ≡ true
    first none here = cc
    first (some k) here =
        subst
          (λ (r : Option ℕ).
            contains
              (elim r [
                | none ↦ parsed_indices prefix os
                | some idx ↦ idx ∷ parsed_indices prefix os
              ])
              idx
            ≡ true)
          (sym (ap (Keys.parse_chunk_index_from_key prefix) (some_key here) ∙ e)) (ground arith)
contains-parsed prefix key idx (o ∷ os) (inr later) e =
    next (Keys.parse_chunk_index_from_key prefix (key_or_empty o))
      (contains-parsed prefix key idx os later e)
  where
    next :
        (r : Option ℕ)
        → contains (parsed_indices prefix os) idx ≡ true
        → contains
            (elim r [ none ↦ parsed_indices prefix os | some idx ↦ idx ∷ parsed_indices prefix os ])
            idx
          ≡ true
    next none ih = ih
    next (some i) ih = ground (arith, ih)
