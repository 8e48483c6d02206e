-- ===== src/Common/Text.antt =====
-- Text as its UTF-8 bytes, with the tests of `str` that the program makes on it.
use Prim.Native.Nat.{ℕ}
use mathlib.Core.Path.{◌≡◌, refl, ap}
use mathlib.Core.Logic.{inl, inr}
use mathlib.Core.Bool.{Bool, true, false, ◌&&◌, ◌||◌}
use mathlib.Core.List.{List, [], ◌∷◌, ◌++◌}
use native.Mathlib.Omega.{arith}
use mehoy_malloy_ai_runtime.Common.Tests.{◌==◌, Bool-cases}

abbrev pub Text : Type 0
Text = List ℕ

unfoldable pub text_eq : Text → Text → Bool
text_eq [] [] = true
text_eq [] (y ∷ ys) = false
text_eq (x ∷ xs) [] = false
text_eq (x ∷ xs) (y ∷ ys) = x == y && text_eq xs ys

pub text_eq→eq : (xs ys : Text) → text_eq xs ys ≡ true → xs ≡ ys
unfolding text_eq
text_eq→eq [] [] h = refl
text_eq→eq [] (y ∷ ys) h = cc
text_eq→eq (x ∷ xs) [] h = cc
text_eq→eq (x ∷ xs) (y ∷ ys) h = ground (arith, text_eq→eq xs ys)

pub text_eq_refl : (xs : Text) → text_eq xs xs ≡ true
unfolding text_eq
text_eq_refl [] = refl
text_eq_refl (x ∷ xs) = ground (arith, text_eq_refl xs)

-- The pieces, joined.
abbrev pub joined : List Text → Text
joined [] = []
joined (t ∷ ts) = t ++ joined ts

-- `starts_with`.
unfoldable pub starts_with : Text → Text → Bool
starts_with [] ys = true
starts_with (x ∷ xs) [] = false
starts_with (x ∷ xs) (y ∷ ys) = x == y && starts_with xs ys

-- `str::contains`: the needle stands somewhere in the text.
unfoldable pub contains : Text → Text → Bool
contains needle [] = starts_with needle []
contains needle (y ∷ ys) = let later = contains needle ys in starts_with needle (y ∷ ys) || later

starts_with-split : (xs ys : Text) → starts_with xs ys ≡ true → (rest : Text) × (ys ≡ xs ++ rest)
unfolding starts_with
starts_with-split [] ys h = (ys, refl)
starts_with-split (x ∷ xs) [] h = cc
starts_with-split (x ∷ xs) (y ∷ ys) h =
    let both : (x ≡ y) × (starts_with xs ys ≡ true) = ground arith in
    let (rest, e) = starts_with-split xs ys both.1 in (rest, cc)

starts_with-append : (xs ys : Text) → starts_with xs (xs ++ ys) ≡ true
unfolding starts_with
starts_with-append [] ys = refl
starts_with-append (x ∷ xs) ys = ground (arith, starts_with-append xs ys)

-- What `contains` found can be cut out of the text.
pub contains-split :
    (needle ys : Text)
    → contains needle ys ≡ true
    → (before : Text) × (after : Text) × (ys ≡ before ++ (needle ++ after))
unfolding contains
contains-split needle [] h = let (rest, e) = starts_with-split needle [] h in ([], rest, e)
contains-split needle (y ∷ ys) h = elim (Bool-cases (starts_with needle (y ∷ ys))) [
  | inl here ↦ let (rest, e) = starts_with-split needle (y ∷ ys) here in ([], rest, e)
  | inr there ↦
      let later : contains needle ys ≡ true = ground arith in
      let (before, after, e) = contains-split needle ys later in (y ∷ before, after, ap (◌∷◌ y) e)
]

pub contains-append :
    (before needle after : Text) → contains needle (before ++ (needle ++ after)) ≡ true
unfolding contains
contains-append [] [] [] = unfold starts_with in refl
contains-append [] [] (y ∷ ys) = unfold starts_with in refl
contains-append [] (x ∷ xs) after = rw (starts_with-append (x ∷ xs) after)
contains-append (y ∷ before) needle after = rw (contains-append before needle after) (ground arith)
