-- ===== src/Config/Rules.antt =====
-- Proofs about src/config.rs: a chain of tests that refuse, sets that a loop fills, powers of two.
use iscsi_s.Prelude.{
  ℕ, zero, suc, ◌/◌, ◌%◌, ◌^◌, ◌<◌, ◌≡◌, ◌≢◌, ◌↔◌, refl, sym, ap, ◌∙◌, Bool, true, false, List, [],
  ◌∷◌, arith, if◌then◌else◌, Bool-cases, inl, inr, ◌⊎◌,
}
use native.Mathlib.Nat.{pow-suc}
use iscsi_s.S3.Sound.{bytes_eq_iff}
use iscsi_s.Compression.{bytes_eq}
use iscsi_s.Config.{Text, Checked, accepted, refused, ConfigError, checked_then}
use iscsi_s.Config.Validate.{has, count_ones}

-- `r` accepts with `x` where `P` holds, and refuses elsewhere.
pub record Accepts {A : Type 0} (r : Checked A) (x : A) (P : Type 0) : Type 0 where
  pub yields : (y : A) → r ≡ accepted y → (y ≡ x) × P
  pub takes : P → r ≡ accepted x

accepted_same : {A : Type 0} {x y : A} → accepted x ≡ accepted y → x ≡ y
accepted_same h = cc

pub Accepts-accepted : {A : Type 0} (x : A) → Accepts (accepted x) x (Unit {0})
Accepts-accepted x = record { yields = λ y e. (cc, tt); takes = λ p. refl }

pub Accepts-guard :
    {A : Type 0} (b : Bool) (e : ConfigError) (r : Checked A) (x : A) {P Q : Type 0}
    → (b ≡ false) ↔ Q
    → Accepts r x P
    → Accepts (if b then refused e else r) x (Q × P)
Accepts-guard true e r x iff a = record {
  yields = λ y h. cc;
  takes = λ (q, p). let no = iff.1 q in cc;
}
Accepts-guard false e r x iff a = record {
  yields = λ y h. let s = a.yields y h in (s.0, (iff.0 refl, s.1));
  takes = λ (q, p). a.takes p;
}

pub Accepts-checked_then :
    {A T : Type 0} (r : Checked A) (k : A → Checked T) (x : A) (z : T) {P Q : Type 0}
    → Accepts r x P
    → Accepts (k x) z Q
    → Accepts (checked_then r k) z (P × Q)
Accepts-checked_then (accepted y) k x z a b = record {
  yields = λ w h.
      let s = a.yields y refl in let t = b.yields w (ap k (sym s.0) ∙ h) in (t.0, (s.1, t.1));
  takes = λ (p, q). let same : y ≡ x = accepted_same (a.takes p) in ap k same ∙ b.takes q;
}
Accepts-checked_then (refused e) k x z a b = record {
  yields = λ w h. cc;
  takes = λ (p, q). let h = a.takes p in cc;
}

pub Accepts-map :
    {A : Type 0} {r : Checked A} {x : A} {P Q : Type 0}
    → (P → Q)
    → (Q → P)
    → Accepts r x P
    → Accepts r x Q
Accepts-map to from a = record {
  yields = λ y h. let s = a.yields y h in (s.0, to s.1);
  takes = λ q. a.takes (from q);
}

pub count_ones_of_zero : (w : ℕ) → count_ones w 0 ≡ 0
unfolding count_ones
count_ones_of_zero zero = refl
count_ones_of_zero (suc w) = omega (arith, count_ones_of_zero w)

count_ones-none : (w n : ℕ) → n < 2 ^ w → count_ones w n ≡ 0 → n ≡ 0
unfolding count_ones
count_ones-none zero n lt h = omega arith
count_ones-none (suc w) n lt h =
    let half = count_ones-none w (n / 2) (omega (arith, pow-suc 2 w)) (omega arith) in omega arith

pub count_ones-one : (w n : ℕ) → n < 2 ^ w → count_ones w n ≡ 1 → (k : ℕ) × (k < w) × (n ≡ 2 ^ k)
unfolding count_ones
count_ones-one zero n lt h = cc
count_ones-one (suc w) n lt h = elim (odd (n % 2) (omega arith)) [
  | inl o ↦
      let half = count_ones-none w (n / 2) (omega (arith, pow-suc 2 w)) (omega arith) in
      (0, omega arith, omega arith)
  | inr e ↦
      let (k, below, half) = count_ones-one w (n / 2) (omega (arith, pow-suc 2 w)) (omega arith) in
      (suc k, omega arith, omega (arith, pow-suc 2 k))
]
  where
    odd : (b : ℕ) → b < 2 → (b ≡ 1) ⊎ (b ≡ 0)
    odd b lt = ground arith

pub count_ones-pow : (k w : ℕ) → k < w → count_ones w (2 ^ k) ≡ 1
unfolding count_ones
count_ones-pow k zero lt = absurd (omega arith)
count_ones-pow zero (suc w) lt = omega (arith, count_ones_of_zero w)
count_ones-pow (suc k) (suc w) lt =
    let half : 2 ^ suc k / 2 ≡ 2 ^ k = omega (arith, pow-suc 2 k) in
    let e : count_ones w (2 ^ suc k / 2) ≡ 1 =
      ap (λ (n : ℕ). count_ones w n) half ∙ count_ones-pow k w (omega arith) in
    omega (arith, pow-suc 2 k)

abbrev pub All {ℓ} : {A : Type ℓ} → (A → Type 0) → List A → Type 0
All P [] = Unit
All P (x ∷ xs) = P x × All P xs

-- No text stands twice.
abbrev pub Distinct : List Text → Type 0
Distinct [] = Unit
Distinct (x ∷ xs) = All (λ y. y ≢ x) xs × Distinct xs

-- No text stands twice, or in a set that grows by each of them.
abbrev pub Fresh : List Text → List Text → Type 0
Fresh [] seen = Unit
Fresh (x ∷ xs) seen = (has seen x ≡ false) × Fresh xs (x ∷ seen)

abbrev Apart : List Text → List Text → Type 0
Apart xs seen = All (λ x. has seen x ≡ false) xs

has-cons :
    (x y : Text) (seen : List Text) → (has (x ∷ seen) y ≡ false) ↔ ((y ≢ x) × (has seen y ≡ false))
unfolding has
has-cons x y seen = elim (Bool-cases (bytes_eq x y)) [
  | inl same ↦ (λ h. cc, λ (ne, h). absurd (ne (sym ((bytes_eq_iff x y).0 same))))
  | inr apart ↦ (λ h. (λ e. let s = (bytes_eq_iff x y).1 (sym e) in cc, cc), λ (ne, h). cc)
]

split : (x : Text) (xs seen : List Text) → Apart xs (x ∷ seen) → All (λ y. y ≢ x) xs × Apart xs seen
split x [] seen a = (tt, tt)
split x (y ∷ xs) seen (h, a) =
    let s = (has-cons x y seen).0 h in let t = split x xs seen a in ((s.0, t.0), (s.1, t.1))

join : (x : Text) (xs seen : List Text) → All (λ y. y ≢ x) xs → Apart xs seen → Apart xs (x ∷ seen)
join x [] seen a b = tt
join x (y ∷ xs) seen (ne, a) (h, b) = ((has-cons x y seen).1 (ne, h), join x xs seen a b)

Fresh-split : (xs seen : List Text) → Fresh xs seen → Distinct xs × Apart xs seen
Fresh-split [] seen f = (tt, tt)
Fresh-split (x ∷ xs) seen (h, f) =
    let s = Fresh-split xs (x ∷ seen) f in let t = split x xs seen s.1 in ((t.0, s.0), (h, t.1))

Fresh-join : (xs seen : List Text) → Distinct xs → Apart xs seen → Fresh xs seen
Fresh-join [] seen d a = tt
Fresh-join (x ∷ xs) seen (ne, d) (h, a) = (h, Fresh-join xs (x ∷ seen) d (join x xs seen ne a))

Apart-none : (xs : List Text) → Apart xs []
unfolding has
Apart-none [] = tt
Apart-none (x ∷ xs) = (refl, Apart-none xs)

pub Fresh-Distinct : (xs : List Text) → Fresh xs [] ↔ Distinct xs
Fresh-Distinct xs = (λ f. (Fresh-split xs [] f).0, λ d. Fresh-join xs [] d (Apart-none xs))
