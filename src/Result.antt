-- ===== src/Result.antt =====
-- src/store/mod.rs: `StoreError`, and what a fallible operation on a mutable store returns.
-- A message keeps the fixed words of its `format!` string; the interpolated values are left out.
use iscsi_s.Prelude.{ℕ, String, Bool, true, false, ◌≡◌, refl, if◌then◌else◌}

pub data StoreError : Type 0 where
  out_of_range : ℕ → ℕ → ℕ → StoreError
  shrink_refused : ℕ → ℕ → StoreError
  geometry_mismatch s3 meta other : String → StoreError

pub data Result {ℓ} (A : Type ℓ) : Type ℓ where
  ok : A → Result A
  err : StoreError → Result A

-- `if !test { return Err(e) }`.
abbrev pub guard : Bool → StoreError → Result (Unit {0})
guard false refusal = err refusal
guard true refusal = ok tt

infixl 10 ◌>>=◌ ◌>>◌
abbrev pub ◌>>=◌ {ℓ κ} : {B : Type κ} {A : Type ℓ} → Result A → (A → Result B) → Result B
err e >>= next = err e
ok x >>= next = next x

abbrev pub ◌>>◌ {ℓ} : {T : Type ℓ} → Result (Unit {0}) → Result T → Result T
first >> next = first >>= λ _. next

pub ok-injective {ℓ} : {A : Type ℓ} {a b : A} → ok a ≡ ok b → a ≡ b
ok-injective h = cc

-- Inversion of a chain that succeeds.
pub >>=-eq-ok {ℓ κ} :
    {T : Type ℓ} {U : Type κ} (first : Result T) (next : T → Result U) {y : U}
    → (first >>= next) ≡ ok y
    → (x : T) × (first ≡ ok x) × (next x ≡ ok y)
>>=-eq-ok (err e) next h = cc
>>=-eq-ok (ok x) next h = (x, refl, h)

pub Result-cases {ℓ} :
    {A : Type ℓ} {T : Type ℓ} (r : Result A)
    → ((a : A) → r ≡ ok a → T)
    → ((e : StoreError) → r ≡ err e → T)
    → T
Result-cases (ok a) f g = f a refl
Result-cases (err e) f g = g e refl

-- An operation through `&self` on interior state: the state comes back beside an error too.
abbrev pub Exec : Type 0 → Type 0 → Type 0
Exec S A = S → Result A × S

-- The `?` operator: go on with the value, or return the error with the state reached.
abbrev pub and_then : {S T A : Type 0} → Result A × S → (A → S → Result T × S) → Result T × S
and_then (ok a, s) k = k a s
and_then (err e, s) k = (err e, s)

-- What is known when an operation ends: `P` of the state on success, `Q` on an error.
abbrev pub Ends :
    {S A : Type 0} → (A → S → Type 0) → (StoreError → S → Type 0) → Result A × S → Type 0
Ends P Q (ok a, s) = P a s
Ends P Q (err e, s) = Q e s

module _ {S T A : Type 0} (P : A → S → Type 0) (P' : T → S → Type 0)
    (Q : StoreError → S → Type 0) where
  pub Ends-and_then :
      (r : Result A × S) (k : A → S → Result T × S)
      → Ends P Q r
      → ((a : A) (s : S) → P a s → Ends P' Q (k a s))
      → Ends P' Q (and_then r k)
  Ends-and_then (ok a, s) k h step = step a s h
  Ends-and_then (err e, s) k h step = h

-- An operation that cannot fail.
pub Ends-ok :
    {S : Type 0} (P : S → Type 0) (r : Result (Unit {0}) × S)
    → Ends (λ _. P) (λ _ _. ⊥) r
    → (t : S) × (r ≡ (ok tt, t)) × P t
Ends-ok P (ok _, t) h = (t, refl, h)
Ends-ok P (err e, t) h = absurd h

-- A test before an operation: the error if it fails, with the state untouched.
pub Ends-guarded :
    {S A : Type 0} (P : A → S → Type 0) (Q : StoreError → S → Type 0) (test : Bool) (e : StoreError)
    (s : S) (k : S → Result A × S)
    → (test ≡ true → Q e s)
    → (test ≡ false → Ends P Q (k s))
    → Ends P Q (and_then {A = Unit {0}} ((if test then err e else ok tt), s) λ _ s'. k s')
Ends-guarded P Q true e s k hq hk = hq refl
Ends-guarded P Q false e s k hq hk = hk refl

-- A check before an operation, that gives nothing but its error.
pub Ends-checked :
    {S A : Type 0} (P : A → S → Type 0) (Q : StoreError → S → Type 0) (check : Result (Unit {0}))
    (s : S) (k : S → Result A × S)
    → ((e : StoreError) → check ≡ err e → Q e s)
    → (check ≡ ok tt → Ends P Q (k s))
    → Ends P Q (and_then (check, s) λ _ s'. k s')
Ends-checked P Q (ok _) s k hq hk = hk refl
Ends-checked P Q (err e) s k hq hk = hq e refl
