-- ===== src/S3/Lists.antt =====
-- src/store/s3.rs, `list_chunk_indices` and `present_chunks`: every chunk that is stored is listed.
use iscsi_s.S3.Parsed.{some_eq, contains-dedup, contains-parsed, parse-append}
use iscsi_s.Prelude.{
  ℕ, zero, suc, ◌<◌, ◌≡◌, refl, sym, ap, ◌∙◌, subst, Bool, true, false, Option, none, some, List,
  [], ◌∷◌, ◌++◌, inl, inr, replicate, hex,
}
use iscsi_s.Result.{Result, ok, err, and_then, Ends}
use iscsi_s.Meta.{StorageMode, legacy, cow}
use iscsi_s.Memory.{sort}
use iscsi_s.Memory.IsVolume.{contains-sort}
use iscsi_s.Store.{u64_size}
use iscsi_s.Store.Laws.{contains}
use iscsi_s.S3.{Client, Libraries, Listed, Page, Reply, done, failed, late, S3ChunkStore}
use iscsi_s.S3.Keys
use iscsi_s.S3.Objects.{list_pages, replied}
use iscsi_s.S3.Chunks.{list_chunk_indices, parsed_indices, dedup}
use iscsi_s.S3.Laws.{IsBucket, Bodies, Key, Still, HasKey, Paged}
use iscsi_s.S3.Names.{index-shard, index-flat}
use iscsi_s.S3.View.{chunk_in, legacy_view, cow_view, Same-trans}

HasKey-append_left : (key : Key) (xs ys : List Listed) → HasKey key xs → HasKey key (xs ++ ys)
HasKey-append_left key [] ys h = absurd h
HasKey-append_left key (x ∷ xs) ys (inl e) = inl e
HasKey-append_left key (x ∷ xs) ys (inr h) = inr (HasKey-append_left key xs ys h)

HasKey-append_right : (key : Key) (xs ys : List Listed) → HasKey key ys → HasKey key (xs ++ ys)
HasKey-append_right key [] ys h = h
HasKey-append_right key (x ∷ xs) ys h = inr (HasKey-append_right key xs ys h)

module _ {B : Type 0} (client : Client B) (objects : B → Bodies)
    (laws : IsBucket client objects) where
  -- A listing has every key that was left, and changes no body.
  abbrev Covers : B → Key → Option ℕ → Result (List Listed) × B → Type 0
  Covers b prefix token =
      Ends
        (λ listed b'.
          ((key : Key) → laws.left b prefix token key ≡ true → HasKey key listed)
          × Still objects laws.in_flight (objects b) b')
        (λ _ b'. Still objects laws.in_flight (objects b) b')

  abbrev AfterPage : ℕ → Key → Page → B → Result (List Listed) × B
  AfterPage n prefix p b = elim p.is_truncated [
    | false ↦ (ok p.contents, b)
    | true ↦ elim p.next_continuation_token [
      | none ↦ (ok p.contents, b)
      | some next ↦
          and_then (list_pages client n prefix (some next) b) λ rest b. (ok (p.contents ++ rest), b)
    ]
  ]

  -- The rest of the listing after a page, whose flag and next token are these.
  rest_Covers :
      (n : ℕ) (prefix : Key) (token : Option ℕ) (b : B) (p : Page) (b' : B)
      → ((t : Option ℕ) (c : B)
          → laws.in_flight c ≡ []
          → Covers c prefix t (list_pages client n prefix t c))
      → Paged objects laws.in_flight
          (objects b)
          (laws.left b prefix token)
          (λ c t. laws.left c prefix (some t))
          (done p, b')
      → (truncated : Bool) (next : Option ℕ) → p.is_truncated ≡ truncated
      → p.next_continuation_token ≡ next
      → Covers b prefix token (elim truncated [
        | false ↦ (ok p.contents, b')
        | true ↦ elim next [
          | none ↦ (ok p.contents, b')
          | some next ↦
              and_then
                (list_pages client n prefix (some next) b')
                λ rest b. (ok (p.contents ++ rest), b)
        ]
      ])
  rest_Covers n prefix token b p b' ih h false next et en =
      (λ key l. elim (h.0 key l) [ inl here ↦ here | inr (t, tr, nx, lt) ↦ cc ], h.1)
  rest_Covers n prefix token b p b' ih h true none et en =
      (λ key l. elim (h.0 key l) [ inl here ↦ here | inr (t, tr, nx, lt) ↦ cc ], h.1)
  rest_Covers n prefix token b p b' ih h true (some next) et en =
      joined (list_pages client n prefix (some next) b') (ih (some next) b' h.1.1)
    where
      joined :
          (r : Result (List Listed) × B)
          → Covers b' prefix (some next) r
          → Covers b prefix token (and_then r λ rest b. (ok (p.contents ++ rest), b))
      joined (err e, c) same = (Same-trans h.1.0 same.0, same.1)
      joined (ok rest, c) (all, same) = (
        λ key l. elim (h.0 key l) [
          | inl here ↦ HasKey-append_left key p.contents rest here
          | inr (t, tr, nx, lt) ↦
              let e : t ≡ next = some_eq (sym nx ∙ en) in
              HasKey-append_right key p.contents rest
                (all key (subst (λ n. laws.left b' prefix (some n) key ≡ true) e lt))
        ],
        (Same-trans h.1.0 same.0, same.1),
      )

  page_Covers :
      (n : ℕ) (prefix : Key) (token : Option ℕ) (b : B)
      → ((t : Option ℕ) (c : B)
          → laws.in_flight c ≡ []
          → Covers c prefix t (list_pages client n prefix t c))
      → (r : Reply Page × B)
      → Paged objects laws.in_flight
          (objects b)
          (laws.left b prefix token)
          (λ c t. laws.left c prefix (some t))
          r
      → Covers b prefix token (and_then (replied r) λ p b. AfterPage n prefix p b)
  page_Covers n prefix token b ih (failed e, b') h = h
  page_Covers n prefix token b ih (late, b') h = h
  page_Covers n prefix token b ih (done p, b') h =
      rest_Covers n prefix token b p b' ih h p.is_truncated p.next_continuation_token refl refl

  pub list_pages-Covers :
      (n : ℕ) (prefix : Key) (token : Option ℕ) (b : B)
      → laws.in_flight b ≡ []
      → Covers b prefix token (list_pages client n prefix token b)
  unfolding list_pages
  list_pages-Covers zero prefix token b quiet = (λ k. refl, quiet)
  list_pages-Covers (suc n) prefix token b quiet =
      page_Covers n prefix token b (list_pages-Covers n prefix)
        (client.list_objects_v2 prefix token b) (laws.pages b prefix token quiet)

  -- The numbers of a listing: those of every body below the prefix.
  pub list_chunk_indices_lem :
      (prefix : Key) (b : B)
      → laws.in_flight b ≡ []
      → Ends
          (λ idxs b'.
            ((rel body : List ℕ) (i : ℕ)
              → objects b (prefix ++ rel) ≡ some body
              → Keys.index_from_chunk_relpath rel ≡ some i
              → contains idxs i ≡ true)
            × Still objects laws.in_flight (objects b) b')
          (λ _ b'. Still objects laws.in_flight (objects b) b')
          (list_chunk_indices client prefix b)
  unfolding list_chunk_indices
  list_chunk_indices_lem prefix b quiet =
      numbers (list_pages client client.patience prefix none b)
        (list_pages-Covers client.patience prefix none b quiet)
    where
      numbers :
          (r : Result (List Listed) × B)
          → Covers b prefix none r
          → Ends
              (λ idxs b'.
                ((rel body : List ℕ) (i : ℕ)
                  → objects b (prefix ++ rel) ≡ some body
                  → Keys.index_from_chunk_relpath rel ≡ some i
                  → contains idxs i ≡ true)
                × Still objects laws.in_flight (objects b) b')
              (λ _ b'. Still objects laws.in_flight (objects b) b')
              (and_then r λ listed b. (ok (dedup (sort (parsed_indices prefix listed))), b))
      numbers (err e, c) same = same
      numbers (ok listed, c) (all, same) = (
        λ rel body i there e.
            contains-dedup (sort (parsed_indices prefix listed)) i
            ∙ (contains-sort (parsed_indices prefix listed) i
                ∙ contains-parsed prefix (prefix ++ rel) i listed
                    (all (prefix ++ rel) (laws.starts b prefix rel body there))
                    (parse-append prefix rel ∙ e)),
        same,
      )

clash : {X : Type 0} → false ≡ true → X
clash e = cc

module _ {B : Type 0} (client : Client B) (libs : Libraries) (s : S3ChunkStore B) (m : Bodies)
    (idxs : List ℕ) (j : ℕ) (small : j < u64_size) (unlisted : contains idxs j ≡ false) where
  abbrev Numbers : Key → Type 0
  Numbers prefix =
      (rel body : List ℕ) (i : ℕ)
      → m (prefix ++ rel) ≡ some body
      → Keys.index_from_chunk_relpath rel ≡ some i
      → contains idxs i ≡ true

  absent :
      (prefix rel : List ℕ)
      → Numbers prefix
      → Keys.index_from_chunk_relpath rel ≡ some j
      → m (prefix ++ rel) ≡ none
  absent prefix rel all e = either (m (prefix ++ rel)) refl
    where
      either : (o : Option (List ℕ)) → m (prefix ++ rel) ≡ o → o ≡ none
      either none there = refl
      either (some body) there = clash (sym unlisted ∙ all rel body j there e)

  -- A chunk that is not listed is not stored.
  pub unlisted-zeros :
      (mode : StorageMode)
      → Numbers (elim mode [
        | legacy ↦ Keys.legacy_chunks_prefix s.prefix
        | cow ↦ Keys.live_chunks_prefix s.prefix
      ])
      → chunk_in client libs mode s m j ≡ ok (replicate s.chunk_size 0)
  unlisted-zeros legacy all =
      ap (λ v. legacy_view client libs s v (m (Keys.legacy_flat_chunk_key s j)))
        (absent (Keys.legacy_chunks_prefix s.prefix) (Keys.shard_chunk_index j) all
          (index-shard j small))
      ∙ ap (legacy_view client libs s none)
          (absent (Keys.legacy_chunks_prefix s.prefix) (hex 16 j) all (index-flat j small))
  unlisted-zeros cow all =
      ap (cow_view client libs s m)
        (absent (Keys.live_chunks_prefix s.prefix) (hex 16 j) all (index-flat j small))
