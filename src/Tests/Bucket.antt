-- ===== src/Tests/Bucket.antt =====
-- A bucket that is a map, its client, and libraries for runs of src/store/s3.rs. The hash of a
-- body below 32 bytes is its length and its bytes, then zeros.
use iscsi_s.Prelude.{
  ℕ, ◌≡◌, refl, ap, subst, inl, inr, Bool, true, false, Option, some, List, [], ◌∷◌, length, get_or,
  tabulate_self, tabulate, tabulate_ext, get_or-tabulate, sym, ◌∙◌, ◌<◌, arith, if◌then◌else◌,
  Bool-cases,
}
use iscsi_s.Prelude.Eq.{Eq}
use iscsi_s.Compression
use iscsi_s.Compression.{bytes_eq, encode_chunk, compress}
use iscsi_s.HashMap.{HashMap, lookup, insert, remove, lookup-insert, lookup-remove}
use iscsi_s.Result.{ok, err, other, ok-injective}
use iscsi_s.S3.{
  Client, Libraries, done, failed, collected, GetObjectOutput, Listed, SdkError, Reply,
}
use iscsi_s.S3.Laws.{IsBucket, IsContentHash, Bodies, Key, HasKey, Got, Tells, Says, Covers}
use iscsi_s.S3.Sound.{bytes_eq_iff}
use iscsi_s.Tests.Formats.{copies}

instance abbrev pub key_bytes_eq : Eq (List ℕ)
key_bytes_eq = record { beq = bytes_eq; beq_iff = bytes_eq_iff }

abbrev pub Bucket : Type 0
Bucket = HashMap (List ℕ) (List ℕ)

abbrev pub bodies : Bucket → Bodies
bodies b k = lookup k b

abbrev pub no_such_key : SdkError
no_such_key = record { no_such_key = true; status = some 404; message = "" }

abbrev pub reply_of : Option (List ℕ) → Reply GetObjectOutput
reply_of Option.none = failed no_such_key
reply_of (some body) = done (record { body = collected body; e_tag = Option.none })

pub no_such_key-Tells : Tells no_such_key
no_such_key-Tells = record { typed = λ h. refl; missing = λ h. refl; refused = nothing }
  where
    nothing :
        Says "" ("PreconditionFailed" ∷ "412" ∷ "At least one of the pre-conditions" ∷ [])
        → ◌≡◌ {A = Option ℕ} (some 404) (some 412)
    nothing (inl h) = cc
    nothing (inr (inl h)) = cc
    nothing (inr (inr (inl h))) = cc
    nothing (inr (inr (inr h))) = absurd h

abbrev pub listing : Bucket → List Listed
listing [] = []
listing ((k, v) ∷ b) = record { key = some k; size = some (length v) } ∷ listing b

abbrev pub map_client : Client Bucket
map_client = record {
  get_object = λ key b. (reply_of (lookup key b), b);
  put_object = λ key body if_match b. (done tt, insert key body b);
  delete_object = λ key b. (done tt, remove key b);
  list_objects_v2 = λ prefix token b. (
    done (record {
      contents = listing b;
      is_truncated = false;
      next_continuation_token = Option.none;
    }),
    b,
  );
  patience = 1;
}

abbrev pub present : Option (List ℕ) → Bool
present Option.none = false
present (some _) = true

pub HasKey-listing :
    (key : Key) (b : Bucket) → present (lookup key b) ≡ true → HasKey key (listing b)
unfolding lookup
HasKey-listing key [] h = cc
HasKey-listing key ((k, v) ∷ b) h = elim (Bool-cases (bytes_eq k key)) [
  | inl same ↦ inl (ap some ((bytes_eq_iff k key).0 same))
  | inr apart ↦ inr (HasKey-listing key b (later (bytes_eq k key) apart h))
]
  where
    later :
        (t : Bool)
        → t ≡ false
        → present (if t then some v else lookup key b) ≡ true
        → present (lookup key b) ≡ true
    later true e h = cc
    later false e h = h

pub got_lem :
    (key : Key) (b : Bucket) (o : Option (List ℕ))
    → lookup key b ≡ o
    → Got bodies (λ b. []) (bodies b) key (reply_of o, b)
got_lem key b Option.none e = (no_such_key-Tells, λ m. e, (λ k. refl, refl))
got_lem key b (some body) e = (e, (λ k. refl, refl))

pub map_client-IsBucket : IsBucket map_client bodies
map_client-IsBucket = record {
  in_flight = λ b. [];
  left = λ b prefix token key. present (lookup key b);
  gets = λ key b quiet. got_lem key b (lookup key b) refl;
  puts = λ key body if_match b quiet. (
    record {
      at = ground (arith, lookup-insert key key body b, bytes_eq_iff key key);
      others = λ k ne. ground (arith, lookup-insert key k body b, bytes_eq_iff key k);
    },
    refl,
  );
  deletes = λ key b quiet. (
    record {
      at = ground (arith, lookup-remove key key b, bytes_eq_iff key key);
      others = λ k ne. ground (arith, lookup-remove key k b, bytes_eq_iff key k);
    },
    refl,
  );
  starts = λ b prefix rest body e. ap present e;
  pages = λ b prefix token quiet. (λ key h. inl (HasKey-listing key b h), (λ k. refl, refl));
}

pub nothing_in_flight : (b : Bucket) → map_client-IsBucket.in_flight b ≡ []
unfolding map_client-IsBucket
nothing_in_flight b = refl

abbrev pub byte_of : List ℕ → ℕ → ℕ
byte_of body i = get_or body i 0

abbrev pub fingerprint : List ℕ → List ℕ
fingerprint body = length body ∷ tabulate (byte_of body) 0 31

abbrev pub libraries : Libraries
libraries = record {
  codecs = copies;
  hash = fingerprint;
  meta_to_json = λ m. ok [];
  meta_from_json = λ b. err (other "not JSON");
  manifest_to_json = λ m. ok [];
  manifest_from_json = λ b. err (other "not JSON");
}

abbrev pub IsShort : List ℕ → Type 0
IsShort body = length body < 32

pub cons_eq : {x y : ℕ} {xs ys : List ℕ} → ◌≡◌ {A = List ℕ} (x ∷ xs) (y ∷ ys) → (x ≡ y) × (xs ≡ ys)
cons_eq e = (cc, cc)

pub fingerprint-injective :
    (a b : List ℕ) → IsShort a → IsShort b → fingerprint a ≡ fingerprint b → a ≡ b
fingerprint-injective a b ha hb e =
    let (size, bytes) = cons_eq e in
    tabulate_self a (length a) refl
    ∙ (tabulate_ext (byte_of a) (byte_of b) 0 0 (length a) (λ i lt.
          sym (get_or-tabulate (byte_of a) 0 31 i (omega arith))
          ∙ (ap (λ (xs : List ℕ). get_or xs i 0) bytes
              ∙ get_or-tabulate (byte_of b) 0 31 i (omega arith)))
        ∙ sym (tabulate_self b (length a) (sym size)))

pub libraries-IsContentHash : IsContentHash libraries IsShort
libraries-IsContentHash = record { length_lem = λ body. refl; injective = fingerprint-injective }

-- A chunk of four bytes is stored in four bytes, or in fourteen.
pub four-Covers : (a b c d : ℕ) → Covers libraries IsShort (a ∷ b ∷ c ∷ d ∷ [])
unfolding encode_chunk compress
four-Covers a b c d Compression.none body e = subst IsShort (ok-injective e) (omega arith)
four-Covers a b c d Compression.lz4 body e = subst IsShort (ok-injective e) (omega arith)
four-Covers a b c d Compression.zstd body e = subst IsShort (ok-injective e) (omega arith)
four-Covers a b c d Compression.deflate body e = subst IsShort (ok-injective e) (omega arith)
