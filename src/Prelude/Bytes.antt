-- ===== src/Prelude/Bytes.antt =====
-- Byte buffers: Rust's `&buf[i..i + n]` and `copy_from_slice`, and the view of a buffer or a store
-- as a function from positions to bytes.
use iscsi_s.Prelude.Tests.{ltb, leb, if◌then◌else◌}
use iscsi_s.Prelude.Lists.{
  replicate, drop-replicate, replicate-append, length, get_or, take, drop, length-append,
  length-take, length-drop, get_or-append, get_or-take, get_or-drop, take-append_self,
  drop-append_self, drop-drop, take_all,
}
use Prim.Native.Nat.{ℕ, zero, suc, ◌+◌, ◌-◌, ◌≤◌, ◌<◌}
use mathlib.Core.Path.{◌≡◌, refl, ap, ap₂, ◌∙◌, sym}
use mathlib.Core.Bool.{◌&&◌}
use mathlib.Core.List.{List, [], ◌∷◌, ◌++◌, append_assoc}
use native.Mathlib.Nat.{suc-add, add-suc, add-zero, zero-add}
use native.Mathlib.Omega.{arith}

-- `&xs[i..i + n]`, for `i + n` within the length.
abbrev pub slice : List ℕ → ℕ → ℕ → List ℕ
slice xs i n = take n (drop i xs)

-- `buf[i..i + piece.len()].copy_from_slice(piece)`, within the length.
abbrev pub copy_at : List ℕ → ℕ → List ℕ → List ℕ
copy_at buf i piece = take i buf ++ (piece ++ drop (i + length piece) buf)

-- The bytes of a view at `n` positions from `a` on.
abbrev pub tabulate : (ℕ → ℕ) → ℕ → ℕ → List ℕ
tabulate f a zero = []
tabulate f a (suc n) = f a ∷ tabulate f (suc a) n

-- A view with `xs` written over it at `a`.
abbrev pub overlay : (ℕ → ℕ) → ℕ → List ℕ → ℕ → ℕ
overlay f a xs p = if leb a p && ltb p (a + length xs) then get_or xs (p - a) 0 else f p

pub length-slice : (xs : List ℕ) (i n : ℕ) → i + n ≤ length xs → length (slice xs i n) ≡ n
length-slice xs i n h = omega (arith, length-take n (drop i xs), length-drop i xs)

pub get_or-slice :
    (xs : List ℕ) (i n k : ℕ) → k < n → get_or (slice xs i n) k 0 ≡ get_or xs (i + k) 0
get_or-slice xs i n k h = get_or-take n (drop i xs) k 0 h ∙ get_or-drop i xs k 0

pub length-copy_at :
    (buf : List ℕ) (i : ℕ) (piece : List ℕ)
    → i + length piece ≤ length buf
    → length (copy_at buf i piece) ≡ length buf
length-copy_at buf i piece h = omega (
  arith,
  length-append (take i buf) (piece ++ drop (i + length piece) buf),
  length-append piece (drop (i + length piece) buf),
  length-take i buf,
  length-drop (i + length piece) buf,
)

pub get_or-copy_at :
    (buf : List ℕ) (i : ℕ) (piece : List ℕ) (k : ℕ)
    → i ≤ length buf
    → get_or (copy_at buf i piece) k 0
      ≡ (if leb i k && ltb k (i + length piece) then get_or piece (k - i) 0 else get_or buf k 0)
get_or-copy_at buf i piece k h = ground (
  arith,
  get_or-append (take i buf) (piece ++ drop (i + length piece) buf) k 0,
  get_or-append piece (drop (i + length piece) buf) (k - length (take i buf)) 0,
  get_or-take i buf k 0,
  get_or-drop (i + length piece) buf (k - i - length piece) 0,
  length-take i buf,
)

pub length-tabulate : (f : ℕ → ℕ) (a n : ℕ) → length (tabulate f a n) ≡ n
length-tabulate f a zero = refl
length-tabulate f a (suc n) = ap suc (length-tabulate f (suc a) n)

pub tabulate_ext :
    (f g : ℕ → ℕ) (a b n : ℕ)
    → ((i : ℕ) → i < n → f (a + i) ≡ g (b + i))
    → tabulate f a n ≡ tabulate g b n
tabulate_ext f g a b zero h = refl
tabulate_ext f g a b (suc n) h =
    ap₂ ◌∷◌ (ap f (sym (add-zero a)) ∙ (h 0 (omega arith) ∙ ap g (add-zero b))) (
      tabulate_ext f g (suc a) (suc b) n
        (λ i lt. ap f (omega arith) ∙ (h (suc i) (omega arith) ∙ ap g (omega arith))))

pub tabulate-append :
    (f : ℕ → ℕ) (a n m : ℕ) → tabulate f a n ++ tabulate f (a + n) m ≡ tabulate f a (n + m)
tabulate-append f a zero m = rw (add-zero, zero-add)
tabulate-append f a (suc n) m =
    rw (suc-add, add-suc) (ap (◌∷◌ (f a)) (rw (← suc-add) (tabulate-append f (suc a) n m)))

get_or-cons : (x : ℕ) (xs : List ℕ) (i k : ℕ) → get_or xs (i + k) 0 ≡ get_or (x ∷ xs) (suc i + k) 0
get_or-cons x xs i k = rw suc-add

pub slice-eq-tabulate :
    (xs : List ℕ) (i n : ℕ) → i + n ≤ length xs → slice xs i n ≡ tabulate (λ k. get_or xs k 0) i n
slice-eq-tabulate [] zero zero h = refl
slice-eq-tabulate [] zero (suc n) h = absurd (omega arith)
slice-eq-tabulate [] (suc i) zero h = refl
slice-eq-tabulate [] (suc i) (suc n) h = absurd (omega arith)
slice-eq-tabulate (x ∷ xs) zero zero h = refl
slice-eq-tabulate (x ∷ xs) zero (suc n) h =
    ap (◌∷◌ x) (
      slice-eq-tabulate xs 0 n (omega arith)
      ∙ tabulate_ext _ _ 0 1 n (λ k lt. get_or-cons x xs 0 k))
slice-eq-tabulate (x ∷ xs) (suc i) n h =
    slice-eq-tabulate xs i n (omega arith)
    ∙ tabulate_ext _ _ i (suc i) n (λ k lt. get_or-cons x xs i k)

copy_at-append :
    (xs ys zs : List ℕ) → copy_at (xs ++ ys) (length xs) zs ≡ xs ++ (zs ++ drop (length zs) ys)
copy_at-append xs ys zs =
    rw (
      take-append_self xs ys,
      ← drop-drop (length zs) (length xs) (xs ++ ys),
      drop-append_self xs ys,
    )

copy_at-prefix :
    (xs ys zs : List ℕ) (n m : ℕ)
    → length xs ≡ n
    → length zs ≡ m
    → copy_at (xs ++ ys) n zs ≡ xs ++ (zs ++ drop m ys)
copy_at-prefix xs ys zs n m e e' = rw (← e, ← e') (copy_at-append xs ys zs)

-- One step of a loop that fills a buffer from the left.
pub copy_at-tabulate :
    (f : ℕ → ℕ) (a n m : ℕ) (buf : List ℕ)
    → copy_at (tabulate f a n ++ drop n buf) n (tabulate f (a + n) m)
      ≡ tabulate f a (n + m) ++ drop (n + m) buf
copy_at-tabulate f a n m buf =
    copy_at-prefix (tabulate f a n) (drop n buf) (tabulate f (a + n) m) n m (length-tabulate f a n)
      (length-tabulate f (a + n) m)
    ∙ rw (drop-drop m n buf, ← append_assoc, tabulate-append f a n m)

-- One step of a loop that writes a buffer from the left.
pub overlay-take :
    (f : ℕ → ℕ) (a : ℕ) (xs : List ℕ) (n m p : ℕ)
    → n + m ≤ length xs
    → overlay (overlay f a (take n xs)) (a + n) (slice xs n m) p ≡ overlay f a (take (n + m) xs) p
overlay-take f a xs n m p h = ground (
  arith,
  length-take n xs,
  length-take (n + m) xs,
  length-slice xs n m,
  get_or-slice xs n m (p - (a + n)),
  get_or-take n xs (p - a) 0,
  get_or-take (n + m) xs (p - a) 0,
)

pub tabulate-zero :
    (f : ℕ → ℕ) (a n : ℕ) → ((i : ℕ) → i < n → f (a + i) ≡ 0) → tabulate f a n ≡ replicate n 0
tabulate-zero f a zero h = refl
tabulate-zero f a (suc n) h =
    ap₂ ◌∷◌ (ap f (sym (add-zero a)) ∙ h 0 (omega arith))
      (tabulate-zero f (suc a) n (λ i lt. ap f (omega arith) ∙ h (suc i) (omega arith)))

-- A loop that fills a zeroed buffer may skip a piece that is zeros.
pub skip-tabulate :
    (f : ℕ → ℕ) (a n m len : ℕ)
    → n + m ≤ len
    → ((i : ℕ) → i < m → f (a + n + i) ≡ 0)
    → tabulate f a n ++ drop n (replicate len 0)
      ≡ tabulate f a (n + m) ++ drop (n + m) (replicate len 0)
skip-tabulate f a n m len h z =
    rw
      (
        ← tabulate-append f a n m,
        tabulate-zero f (a + n) m z,
        append_assoc,
        drop-replicate {A = ℕ} n len 0,
        drop-replicate {A = ℕ} (n + m) len 0,
        replicate-append {A = ℕ} m (len - (n + m)) 0,
      )
      (ap (λ k. tabulate f a n ++ replicate k 0) (omega arith))

pub overlay_ext :
    (f g : ℕ → ℕ) (a : ℕ) (xs : List ℕ) (p : ℕ) → f p ≡ g p → overlay f a xs p ≡ overlay g a xs p
overlay_ext f g a xs p h =
    ap (λ t. if leb a p && ltb p (a + length xs) then get_or xs (p - a) 0 else t) h

pub overlay-nil : (f : ℕ → ℕ) (a p : ℕ) → overlay f a [] p ≡ f p
overlay-nil f a p = ground arith

pub get_or-tabulate : (f : ℕ → ℕ) (a n i : ℕ) → i < n → get_or (tabulate f a n) i 0 ≡ f (a + i)
get_or-tabulate f a zero i h = absurd (omega arith)
get_or-tabulate f a (suc n) zero h = ap f (sym (add-zero a))
get_or-tabulate f a (suc n) (suc i) h =
    get_or-tabulate f (suc a) n i (omega arith) ∙ ap f (suc-add a i ∙ sym (add-suc a i))

-- A buffer is a view of its own bytes.
pub tabulate_self : (xs : List ℕ) (n : ℕ) → length xs ≡ n → xs ≡ tabulate (λ k. get_or xs k 0) 0 n
tabulate_self xs n e = sym (take_all n xs (omega arith)) ∙ slice-eq-tabulate xs 0 n (omega arith)

-- A chunk read up to the end of the volume and padded with zeros, where the view is zero past it.
pub pad-tabulate :
    (f : ℕ → ℕ) (a n m : ℕ)
    → n ≤ m
    → ((i : ℕ) → i < m - n → f (a + n + i) ≡ 0)
    → copy_at (replicate m 0) 0 (tabulate f a n) ≡ tabulate f a m
pad-tabulate f a n m le z =
    let size = length-tabulate f a n in
    let e : n + (m - n) ≡ m = omega arith in
    rw (
      size,
      zero-add,
      drop-replicate {A = ℕ} n m 0,
      ← tabulate-zero f (a + n) (m - n) z,
      tabulate-append f a n (m - n),
      e,
    )

pub slice-tabulate :
    (f : ℕ → ℕ) (a n i m b : ℕ)
    → i + m ≤ n
    → a + i ≡ b
    → slice (tabulate f a n) i m ≡ tabulate f b m
slice-tabulate f a n i m b le e =
    slice-eq-tabulate (tabulate f a n) i m (omega (arith, length-tabulate f a n))
    ∙ tabulate_ext _ f i b m λ k lt.
      get_or-tabulate f a n (i + k) (omega arith) ∙ ap f {x = a + (i + k)} {y = b + k} (omega arith)
