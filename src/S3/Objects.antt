-- ===== src/S3/Objects.antt =====
-- src/store/s3.rs: the calls of the client, with the errors that mean a missing key, and the listings.
use iscsi_s.Prelude.{
  ℕ, zero, suc, Bool, true, false, ◌||◌, Option, none, some, List, [], ◌∷◌, ◌++◌, if◌then◌else◌,
  nat_beq, String, not,
}
use text.Mathlib.Text.{find?}
use iscsi_s.Result.{StoreError, s3, meta, Result, ok, err, Exec, and_then}
use iscsi_s.Meta.{VolumeMeta, meta_version}
use iscsi_s.S3.{
  Client, Reply, done, failed, late, SdkError, ByteStream, collected, broken, GetObjectOutput,
  Object, Listed, Libraries, S3ChunkStore, on_bucket,
}
use iscsi_s.S3.Keys.{meta_key}

abbrev pub str_contains : String → String → Bool
str_contains text part = elim (find? text part) [ none ↦ false | some _ ↦ true ]

-- An error that says the key is not there.
unfoldable pub is_missing : SdkError → Bool
is_missing e =
    e.no_such_key
    || str_contains e.message "NoSuchKey"
    || str_contains e.message "404"
    || str_contains e.message "Not Found"

abbrev pub timed_out : StoreError
timed_out = s3 "timed out waiting for S3 operation"

abbrev pub replied : {A B : Type 0} → Reply A × B → Result A × B
replied (done a, b) = (ok a, b)
replied (failed e, b) = (err (s3 e.message), b)
replied (late, b) = (err timed_out, b)

-- `body.collect()`: an error of it is returned as it is.
abbrev pub collect : Option (List ℕ) → ByteStream → Result (Option Object)
collect e_tag (collected bytes) = ok (some (record { body = bytes; e_tag = e_tag }))
collect e_tag (broken message) = err (s3 message)

module _ {B : Type 0} (client : Client B) where
  abbrev pub got : Reply GetObjectOutput × B → Result (Option Object) × B
  got (done out, b) = (collect out.e_tag out.body, b)
  got (failed e, b) = if is_missing e then (ok none, b) else (err (s3 e.message), b)
  got (late, b) = (err timed_out, b)

  unfoldable pub get_bytes : List ℕ → Exec B (Option Object)
  get_bytes key b = got (client.get_object key b)

  unfoldable pub put_bytes : List ℕ → List ℕ → Option (List ℕ) → Exec B (Unit {0})
  put_bytes key body if_match b = replied (client.put_object key body if_match b)

  unfoldable pub delete_object_key : List ℕ → Exec B (Unit {0})
  delete_object_key key b = replied (client.delete_object key b)

  -- `let _ = self.delete_object_key(..)`.
  abbrev pub try_delete : List ℕ → Exec B (Unit {0})
  try_delete key b = (ok tt, (delete_object_key key b).1)

  -- The loop over the pages of a listing. It stops where a page is the last, or names no next one.
  unfoldable pub list_pages : ℕ → List ℕ → Option ℕ → Exec B (List Listed)
  list_pages zero prefix token b = (err timed_out, b)
  list_pages (suc n) prefix token b =
      and_then (replied (client.list_objects_v2 prefix token b)) λ page b. elim page.is_truncated [
        | false ↦ (ok page.contents, b)
        | true ↦ elim page.next_continuation_token [
          | none ↦ (ok page.contents, b)
          | some next ↦
              and_then (list_pages n prefix (some next) b) λ rest b. (ok (page.contents ++ rest), b)
        ]
      ]

  abbrev pub listed_keys : List Listed → List (List ℕ)
  listed_keys [] = []
  listed_keys (o ∷ os) = elim o.key [ none ↦ listed_keys os | some key ↦ key ∷ listed_keys os ]

  unfoldable pub list_keys : List ℕ → Exec B (List (List ℕ))
  list_keys prefix b =
      and_then (list_pages client.patience prefix none b) λ listed b. (ok (listed_keys listed), b)

module _ {B : Type 0} (client : Client B) (libs : Libraries) where
  abbrev pub checked_meta : VolumeMeta → Result (Option VolumeMeta)
  checked_meta m =
      if not (nat_beq m.version meta_version)
      then err (meta "unsupported meta version")
      else ok (some m)

  abbrev pub parsed_meta : Result VolumeMeta → Result (Option VolumeMeta)
  parsed_meta (err e) = err e
  parsed_meta (ok m) = checked_meta m

  unfoldable pub get_meta_at : List ℕ → Exec B (Option VolumeMeta)
  get_meta_at key b =
      and_then (get_bytes client key b) λ o b. elim o [
        | none ↦ (ok none, b)
        | some o ↦ (parsed_meta (libs.meta_from_json o.body), b)
      ]

  unfoldable pub put_meta : VolumeMeta → Exec (S3ChunkStore B) (Unit {0})
  put_meta m s =
      and_then (libs.meta_to_json m, s)
        λ body s. on_bucket (put_bytes client (meta_key s) body none) s
