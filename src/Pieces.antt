-- ===== src/Pieces.antt =====
-- The loop that every store runs over a byte range, one piece for each chunk that the range meets:
--   while done < len { abs = offset + done; chunk_idx = abs / chunk_size; within = abs % chunk_size;
--     take = min(chunk_size - within, len - done); ...; done += take; }
-- (src/store/memory.rs, src/store/s3.rs, src/cache.rs, src/write_cache.rs.)
use native.Mathlib.Decide.{dec_lt}
use iscsi_s.Prelude.{
  ℕ, zero, suc, ◌+◌, ◌-◌, ◌*◌, ◌/◌, ◌%◌, ◌≤◌, ◌<◌, ◌≡◌, min, true, false, inl, inr, arith, ltb,
  ltb→lt, Bool-cases, div_parts, mod_bound, mul-add-div_lt, mul-add-mod_lt, subst, List, length,
  get_or, if◌then◌else◌, nat_beq, copy_at, overlay, get_or-copy_at, ap, sym, ◌∙◌, tabulate, ◌≢◌,
  length-tabulate, tabulate_ext, tabulate_self, length-copy_at, get_or-tabulate,
}
use iscsi_s.Result.{StoreError, ok, Exec, and_then, Ends, Ends-and_then}

-- The body is given `chunk_idx`, `within`, `take` and `done`. The fuel bounds the number of rounds.
unfoldable pub for_pieces :
    {X : Type 0} → ℕ → ℕ → ℕ → ℕ → ℕ → (ℕ → ℕ → ℕ → ℕ → Exec X (Unit {0})) → Exec X (Unit {0})
for_pieces zero chunk_size offset len done body x = (ok tt, x)
for_pieces (suc fuel) chunk_size offset len done body x = elim (ltb done len) [
  | false ↦ (ok tt, x)
  | true ↦
      let abs = offset + done in
      let within = abs % chunk_size in
      let taken = min (chunk_size - within) (len - done) in
      and_then (body (abs / chunk_size) within taken done x)
        (λ _ x'. for_pieces fuel chunk_size offset len (done + taken) body x')
]

module _ {X : Type 0} (chunk_size offset len : ℕ) (body : ℕ → ℕ → ℕ → ℕ → Exec X (Unit {0}))
    (P : ℕ → X → Type 0) (Q : StoreError → X → Type 0) where
  -- One round: the piece lies in its chunk and in the range.
  abbrev pub Step : Type 0
  Step =
      (done idx within taken : ℕ) (x : X)
      → idx * chunk_size + within ≡ offset + done
      → within + taken ≤ chunk_size
      → done + taken ≤ len
      → P done x
      → Ends (λ _. P (done + taken)) Q (body idx within taken done x)

  -- The invariant rule. With fuel for the bytes left, success means that the whole range was done.
  pub for_pieces_rule :
      Step
      → 0 < chunk_size
      → (fuel done : ℕ) (x : X) → len ≤ done + fuel
      → done ≤ len
      → P done x
      → Ends (λ _. P len) Q (for_pieces fuel chunk_size offset len done body x)
  unfolding for_pieces
  for_pieces_rule step pos zero done x enough le p = subst (λ n. P n x) (omega arith) p
  for_pieces_rule step pos (suc fuel) done x enough le p = elim (Bool-cases (ltb done len)) [
    | inl more ↦
        let lt = ltb→lt done len more in
        let abs = offset + done in
        let bound = mod_bound abs chunk_size pos in
        let taken = min (chunk_size - abs % chunk_size) (len - done) in
        rw (more, Ends, for_pieces)
          (Ends-and_then (λ _. P (done + taken)) (λ _. P len) Q
            (body (abs / chunk_size) (abs % chunk_size) taken done x) _
            (step done (abs / chunk_size) (abs % chunk_size) taken x (div_parts abs chunk_size)
              (omega arith) (omega arith) p)
            (λ _ x' p'.
              for_pieces_rule step pos fuel (done + taken) x' (omega arith) (omega arith) p'))
    | inr finished ↦ rw (finished, Ends, for_pieces) (subst (λ n. P n x) (ground arith) p)
  ]

-- The positions of one piece lie in one chunk, at consecutive places.
pub piece_div :
    (chunk_size idx within taken base i : ℕ)
    → idx * chunk_size + within ≡ base
    → within + taken ≤ chunk_size
    → i < taken
    → ((base + i) / chunk_size ≡ idx) × ((base + i) % chunk_size ≡ within + i)
piece_div chunk_size idx within taken base i e room lt =
    let split : base + i ≡ idx * chunk_size + (within + i) = omega arith in
    (
      rw split (mul-add-div_lt idx (within + i) chunk_size (omega arith)),
      rw split (mul-add-mod_lt idx (within + i) chunk_size (omega arith)),
    )

pub chunk_below : (q idx c : ℕ) → q < idx → q * c + c ≤ idx * c
chunk_below q idx c h = grind arith

-- A chunk with one piece written over it, read back at any position, is the old view overlaid.
pub overlay-piece :
    (f : ℕ → ℕ) (chunk piece : List ℕ) (chunk_size idx within base p : ℕ)
    → 0 < chunk_size
    → idx * chunk_size + within ≡ base
    → within + length piece ≤ chunk_size
    → length chunk ≡ chunk_size
    → ((k : ℕ) → k < chunk_size → get_or chunk k 0 ≡ f (idx * chunk_size + k))
    → (if nat_beq idx (p / chunk_size)
        then get_or (copy_at chunk within piece) (p % chunk_size) 0
        else f p)
      ≡ overlay f base piece p
overlay-piece f chunk piece chunk_size idx within base p pos split room full same =
    let q = p / chunk_size in
    let r = p % chunk_size in
    let parts = div_parts p chunk_size in
    let bound = mod_bound p chunk_size pos in
    let at = get_or-copy_at chunk within piece r (omega arith) in
    elim (dec_lt q idx) [
      | yes lt ↦ let below = chunk_below q idx chunk_size lt in ground arith
      | no ge ↦ elim (dec_lt idx q) [
        | yes lt ↦ let below = chunk_below idx q chunk_size lt in ground arith
        | no le ↦
            let here : q ≡ idx = omega arith in
            let there : idx * chunk_size + r ≡ p =
              ap (λ t. t * chunk_size + r) (sym here) ∙ parts in
            ground (arith, at, same r bound, ap f there)
      ]
    ]

-- The same for a whole chunk of a view: the chunk that holds the piece, and any other chunk.
pub copy_at-chunk :
    (f : ℕ → ℕ) (piece : List ℕ) (chunk_size idx within base : ℕ)
    → idx * chunk_size + within ≡ base
    → within + length piece ≤ chunk_size
    → copy_at (tabulate f (idx * chunk_size) chunk_size) within piece
      ≡ tabulate (overlay f base piece) (idx * chunk_size) chunk_size
copy_at-chunk f piece chunk_size idx within base split room =
    let chunk = tabulate f (idx * chunk_size) chunk_size in
    let size = length-tabulate f (idx * chunk_size) chunk_size in
    tabulate_self (copy_at chunk within piece) chunk_size
      (length-copy_at chunk within piece (omega (arith, size)) ∙ size)
    ∙ tabulate_ext _ _ 0 (idx * chunk_size) chunk_size λ i lt. ground (
      arith,
      get_or-copy_at chunk within piece (0 + i),
      get_or-tabulate f (idx * chunk_size) chunk_size (0 + i),
      size,
      ap f {x = idx * chunk_size + (0 + i)} {y = idx * chunk_size + i} (omega arith),
    )

pub other-chunk :
    (f : ℕ → ℕ) (piece : List ℕ) (chunk_size idx j within base : ℕ)
    → idx * chunk_size + within ≡ base
    → within + length piece ≤ chunk_size
    → j ≢ idx
    → tabulate f (j * chunk_size) chunk_size
      ≡ tabulate (overlay f base piece) (j * chunk_size) chunk_size
other-chunk f piece chunk_size idx j within base split room ne =
    tabulate_ext _ _ (j * chunk_size) (j * chunk_size) chunk_size λ i lt. elim (dec_lt j idx) [
      | yes below ↦ let apart = chunk_below j idx chunk_size below in ground arith
      | no above ↦ let apart = chunk_below idx j chunk_size (omega arith) in ground arith
    ]
