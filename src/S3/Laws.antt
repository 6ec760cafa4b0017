-- ===== src/S3/Laws.antt =====
-- src/store/s3.rs: what the store relies on of the S3 client, and of the hash. A bucket is seen as the
-- bodies under its keys. One writer acts on it; a write that fails or is late may have been carried
-- out, unless it was refused for its condition.
use iscsi_s.Prelude.{
  ℕ, ◌≡◌, ◌≢◌, refl, ◌⊎◌, Bool, true, false, Option, none, some, List, [], ◌∷◌, ◌++◌, length,
  if◌then◌else◌, ◌||◌, String, Bool-cases, inl, inr, arith, sym, ◌∙◌,
}
use iscsi_s.Result.{s3, Result, ok, err, Ends}
use iscsi_s.Compression.{Compression, encode_chunk}
use iscsi_s.S3.{
  Client, Reply, done, failed, late, ByteStream, collected, broken, GetObjectOutput, Object, Listed,
  Page, Libraries, SdkError,
}
use iscsi_s.S3.Objects.{
  is_missing, get_bytes, put_bytes, delete_object_key, try_delete, replied, got, collect,
  str_contains, timed_out,
}
use iscsi_s.S3.Keys.{meta_json}
use iscsi_s.S3.Chunks.{is_precondition_failed}

abbrev pub Key : Type 0
Key = List ℕ

abbrev pub Bodies : Type 0
Bodies = Key → Option (List ℕ)

-- The bodies before and after, apart from one key.
abbrev pub Others : Key → Bodies → Bodies → Type 0
Others key m m' = (k : Key) → k ≢ key → m' k ≡ m k

abbrev pub Same : Bodies → Bodies → Type 0
Same m m' = (k : Key) → m' k ≡ m k

pub record Sets (key : Key) (v : Option (List ℕ)) (m m' : Bodies) : Type 0 where
  pub at : m' key ≡ v
  pub others : Others key m m'

abbrev pub HasKey : Key → List Listed → Type 0
HasKey key [] = ⊥
HasKey key (o ∷ os) = (o.key ≡ some key) ⊎ HasKey key os

abbrev pub bodies_of : Option Object → Option (List ℕ)
bodies_of none = none
bodies_of (some o) = some o.body

abbrev pub Says : String → List String → Type 0
Says text [] = ⊥
Says text (word ∷ words) = (str_contains text word ≡ true) ⊎ Says text words

-- What S3 documents of an error: a missing key has the status 404, a refused condition 412. The type
-- and the words of an error name a status only where the response has it.
pub record Tells (e : SdkError) : Type 0 where
  pub typed : e.no_such_key ≡ true → e.status ≡ some 404
  pub missing : Says e.message ("NoSuchKey" ∷ "404" ∷ "Not Found" ∷ []) → e.status ≡ some 404
  pub refused :
      Says e.message ("PreconditionFailed" ∷ "412" ∷ "At least one of the pre-conditions" ∷ [])
      → e.status ≡ some 412

abbrev pub Streams : Option (List ℕ) → ByteStream → Type 0
Streams v (collected bytes) = v ≡ some bytes
Streams v (broken _) = Unit

-- A meta object: its key is the prefix of a volume and a fixed name.
abbrev pub IsMetaObject : Key → Type 0
IsMetaObject key = (prefix : List ℕ) × (key ≡ prefix ++ meta_json)

-- `in_flight` has the keys of the late calls that may still be carried out.
module _ {B : Type 0} (objects : B → Bodies) (in_flight : B → List Key) where
  -- The bodies are those of `m`, and no call is in flight.
  abbrev pub Still : Bodies → B → Type 0
  Still m b = Same m (objects b) × (in_flight b ≡ [])

  abbrev pub Got : Bodies → Key → Reply GetObjectOutput × B → Type 0
  Got m key (done out, b) = Streams (m key) out.body × Still m b
  Got m key (failed e, b) = Tells e × (e.status ≡ some 404 → m key ≡ none) × Still m b
  Got m key (late, b) = Still m b

  -- A put that fails or is late may be in flight afterwards, but for one that was refused, and one of a
  -- meta object.
  abbrev pub Put : Bodies → Key → List ℕ → Reply (Unit {0}) × B → Type 0
  Put m key body (done _, b) = Sets key (some body) m (objects b) × (in_flight b ≡ [])
  Put m key body (failed e, b) =
      Tells e
      × (e.status ≡ some 412 → Still m b)
      × Others key m (objects b)
      × (IsMetaObject key → in_flight b ≡ [])
  Put m key body (late, b) = Others key m (objects b) × (IsMetaObject key → in_flight b ≡ [])

  abbrev pub Deleted : Bodies → Key → Reply (Unit {0}) × B → Type 0
  Deleted m key (done _, b) = Sets key none m (objects b) × (in_flight b ≡ [])
  Deleted m key (failed e, b) = Others key m (objects b) × (in_flight b ≡ [])
  Deleted m key (late, b) = Others key m (objects b) × (in_flight b ≡ [])

  -- What is left of a listing before a page is on the page, or left after it.
  abbrev pub Paged : Bodies → (Key → Bool) → (B → ℕ → Key → Bool) → Reply Page × B → Type 0
  Paged m left next (failed e, b) = Still m b
  Paged m left next (late, b) = Still m b
  Paged m left next (done p, b) =
      ((key : Key)
        → left key ≡ true
        → HasKey key p.contents
          ⊎ ((t : ℕ) × (p.is_truncated ≡ true)
              × (p.next_continuation_token ≡ some t)
              × (next b t key ≡ true)))
      × Still m b

-- The promises of a call hold where no earlier call is in flight any more. A late put of a chunk, an
-- object or a pointer may be in flight after it; of a late removal, and of a late put of a meta object,
-- after which the code goes on, it is relied on that it is carried out at once or never.
pub record IsBucket {B : Type 0} (client : Client B) (objects : B → Bodies) : Type 0 where
  pub in_flight : B → List Key
  -- The keys that a listing has still to return, from its start or from a token.
  pub left : B → Key → Option ℕ → Key → Bool
  pub gets :
      (key : Key) (b : B)
      → in_flight b ≡ []
      → Got objects in_flight (objects b) key (client.get_object key b)
  pub puts :
      (key : Key) (body : List ℕ) (if_match : Option (List ℕ)) (b : B)
      → in_flight b ≡ []
      → Put objects in_flight (objects b) key body (client.put_object key body if_match b)
  pub deletes :
      (key : Key) (b : B)
      → in_flight b ≡ []
      → Deleted objects in_flight (objects b) key (client.delete_object key b)
  -- A listing starts with every key of its prefix left.
  pub starts :
      (b : B) (prefix rest body : List ℕ)
      → objects b (prefix ++ rest) ≡ some body
      → left b prefix none (prefix ++ rest) ≡ true
  pub pages :
      (b : B) (prefix : Key) (token : Option ℕ)
      → in_flight b ≡ []
      → Paged objects in_flight
          (objects b)
          (left b prefix token)
          (λ b' t. left b' prefix (some t))
          (client.list_objects_v2 prefix token b)

-- The hash has 32 bytes, and no two of the bodies that `Body` describes have one hash.
pub record IsContentHash (libs : Libraries) (Body : List ℕ → Type 0) : Type 0 where
  pub length_lem : (body : List ℕ) → length (libs.hash body) ≡ 32
  pub injective : (a b : List ℕ) → Body a → Body b → libs.hash a ≡ libs.hash b → a ≡ b

-- The body of a chunk, under any algorithm, is one of those that `Body` describes.
abbrev pub Covers : Libraries → (List ℕ → Type 0) → List ℕ → Type 0
Covers libs Body plain =
    (compression : Compression) (body : List ℕ)
    → encode_chunk libs.codecs compression plain ≡ ok body
    → Body body

apart : false ≡ true → ⊥
apart e = cc

any_of : (a b c : Bool) → (a || b || c) ≡ true → (a ≡ true) ⊎ ((b ≡ true) ⊎ ((c ≡ true) ⊎ ⊥))
any_of a b c h = ground arith

-- What the code takes for a missing key has the status of one.
is_missing-status : (e : SdkError) → Tells e → is_missing e ≡ true → e.status ≡ some 404
unfolding is_missing
is_missing-status e tells h = elim (Bool-cases e.no_such_key) [
  | inl typed ↦ tells.typed typed
  | inr untyped ↦ tells.missing (any_of _ _ _ (rw untyped at h))
]

-- What the code takes for a refused condition has the status of one.
is_precondition_failed-status :
    (e : SdkError) → Tells e → is_precondition_failed (s3 e.message) ≡ true → e.status ≡ some 412
unfolding is_precondition_failed
is_precondition_failed-status e tells h = tells.refused (any_of _ _ _ h)

timed_out-passes : is_precondition_failed timed_out ≡ false
unfolding is_precondition_failed
timed_out-passes = refl

module _ {B : Type 0} (client : Client B) (objects : B → Bodies)
    (laws : IsBucket client objects) where
  abbrev pub Stays : Bodies → B → Type 0
  Stays = Still objects laws.in_flight

  abbrev pub Quiet : B → Type 0
  Quiet b = laws.in_flight b ≡ []

  abbrev Gets : Key → Bodies → Result (Option Object) × B → Type 0
  Gets key m = Ends (λ found b'. (m key ≡ bodies_of found) × Stays m b') (λ _. Stays m)

  pub get_bytes_lem :
      (key : Key) (b : B)
      → Quiet b
      → Ends
          (λ found b'. (objects b key ≡ bodies_of found) × Stays (objects b) b')
          (λ _. Stays (objects b))
          (get_bytes client key b)
  unfolding get_bytes
  get_bytes_lem key b quiet = replied_get (client.get_object key b) (laws.gets key b quiet)
    where
      missing :
          (e : SdkError) (b' : B) (t : Bool)
          → is_missing e ≡ t
          → Got objects laws.in_flight (objects b) key (failed e, b')
          → Gets key (objects b) (if t then (ok none, b') else (err (s3 e.message), b'))
      missing e b' true h g = (g.1 (is_missing-status e g.0 h), g.2)
      missing e b' false h g = g.2

      streamed :
          (stream : ByteStream) (e_tag : Option (List ℕ)) (b' : B)
          → Streams (objects b key) stream
          → Stays (objects b) b'
          → Gets key (objects b) (collect e_tag stream, b')
      streamed (collected bytes) e_tag b' here still = (here, still)
      streamed (broken message) e_tag b' here still = still

      replied_get :
          (r : Reply GetObjectOutput × B)
          → Got objects laws.in_flight (objects b) key r
          → Gets key (objects b) (got client r)
      replied_get (done out, b') g = streamed out.body out.e_tag b' g.0 g.1
      replied_get (failed e, b') g = missing e b' (is_missing e) refl g
      replied_get (late, b') g = g

  pub put_bytes_lem :
      (key : Key) (body : List ℕ) (if_match : Option (List ℕ)) (b : B)
      → Quiet b
      → Ends
          (λ _ b'. Sets key (some body) (objects b) (objects b') × Quiet b')
          (λ e b'.
            (is_precondition_failed e ≡ true → Stays (objects b) b')
            × Others key (objects b) (objects b')
            × (IsMetaObject key → Quiet b'))
          (put_bytes client key body if_match b)
  unfolding put_bytes
  put_bytes_lem key body if_match b quiet =
      replied_put (client.put_object key body if_match b) (laws.puts key body if_match b quiet)
    where
      replied_put :
          (r : Reply (Unit {0}) × B)
          → Put objects laws.in_flight (objects b) key body r
          → Ends
              (λ _ b'. Sets key (some body) (objects b) (objects b') × Quiet b')
              (λ e b'.
                (is_precondition_failed e ≡ true → Stays (objects b) b')
                × Others key (objects b) (objects b')
                × (IsMetaObject key → Quiet b'))
              (replied r)
      replied_put (done _, b') g = g
      replied_put (failed e, b') g = (λ h. g.1 (is_precondition_failed-status e g.0 h), g.2, g.3)
      replied_put (late, b') g = (λ h. absurd (apart (sym timed_out-passes ∙ h)), g.0, g.1)

  pub delete_object_key_lem :
      (key : Key) (b : B)
      → Quiet b
      → Ends
          (λ _ b'. Sets key none (objects b) (objects b') × Quiet b')
          (λ _ b'. Others key (objects b) (objects b') × Quiet b')
          (delete_object_key client key b)
  unfolding delete_object_key
  delete_object_key_lem key b quiet =
      replied_delete (client.delete_object key b) (laws.deletes key b quiet)
    where
      replied_delete :
          (r : Reply (Unit {0}) × B)
          → Deleted objects laws.in_flight (objects b) key r
          → Ends
              (λ _ b'. Sets key none (objects b) (objects b') × Quiet b')
              (λ _ b'. Others key (objects b) (objects b') × Quiet b')
              (replied r)
      replied_delete (done _, b') g = g
      replied_delete (failed e, b') g = g
      replied_delete (late, b') g = g

  -- Whatever becomes of it, a deletion touches its key only.
  pub try_delete-Others :
      (key : Key) (b : B)
      → Quiet b
      → Others key (objects b) (objects (try_delete client key b).1)
        × Quiet (try_delete client key b).1
  try_delete-Others key b quiet =
      any_end (delete_object_key client key b) (delete_object_key_lem key b quiet)
    where
      any_end :
          (r : Result (Unit {0}) × B)
          → Ends
              (λ _ b'. Sets key none (objects b) (objects b') × Quiet b')
              (λ _ b'. Others key (objects b) (objects b') × Quiet b')
              r
          → Others key (objects b) (objects r.1) × Quiet r.1
      any_end (ok _, b') h = (h.0.others, h.1)
      any_end (err _, b') h = h
