-- ===== src/Common/Substring.antt =====
-- What the tests on texts say.
use mathlib.Core.Path.{◌≡◌, refl, ap, sym, subst}
use mathlib.Core.Logic.{◌↔◌, ◌⊎◌, inl, inr}
use mathlib.Core.Bool.{true}
use mathlib.Core.List.{List, [], ◌∷◌, ◌++◌}
use native.Mathlib.Omega.{arith}
use waffynx.Common.Tests.{eqb_iff, Bool-cases}
use waffynx.Common.Strings.{Text, has_prefix, contains_text, contains_elem, text_beq_iff}

-- A text stands in a list of texts.
abbrev pub Elem : Text → List Text → Type 0
Elem a [] = ⊥
Elem a (x ∷ xs) = (x ≡ a) ⊎ Elem a xs

pub contains_elem_iff : (xs : List Text) (a : Text) → (contains_elem xs a ≡ true) ↔ Elem a xs
unfolding contains_elem
contains_elem_iff [] a = ((λ h. cc), λ h. absurd h)
contains_elem_iff (x ∷ xs) a = ground (arith, text_beq_iff x a, contains_elem_iff xs a)

-- A text begins with another; a text stands somewhere in another.
abbrev pub StartsWith : Text → Text → Type 0
StartsWith s p = (rest : Text) × (s ≡ p ++ rest)

abbrev pub Contains : Text → Text → Type 0
Contains s sub = (before : Text) × (after : Text) × (s ≡ before ++ (sub ++ after))

StartsWith-of_has_prefix : (s p : Text) → has_prefix s p ≡ true → StartsWith s p
unfolding has_prefix
StartsWith-of_has_prefix s [] h = (s, refl)
StartsWith-of_has_prefix [] (y ∷ p) h = cc
StartsWith-of_has_prefix (x ∷ s) (y ∷ p) h =
    let (rest, e) = StartsWith-of_has_prefix s p (ground arith) in
    let same : x ≡ y = (eqb_iff x y).0 (ground arith) in (rest, cc (same, e))

pub has_prefix-append : (p rest : Text) → has_prefix (p ++ rest) p ≡ true
unfolding has_prefix
has_prefix-append [] rest = refl
has_prefix-append (y ∷ p) rest = rw (has_prefix-append p rest) (ground arith)

pub has_prefix_iff : (s p : Text) → (has_prefix s p ≡ true) ↔ StartsWith s p
has_prefix_iff s p = (
  StartsWith-of_has_prefix s p,
  λ h. subst (λ t. has_prefix t p ≡ true) (sym h.1) (has_prefix-append p h.0),
)

Contains-of_contains_text : (s sub : Text) → contains_text s sub ≡ true → Contains s sub
unfolding contains_text
Contains-of_contains_text [] sub h =
    let (rest, e) = StartsWith-of_has_prefix [] sub h in ([], rest, e)
Contains-of_contains_text (x ∷ s) sub h = elim (Bool-cases (has_prefix (x ∷ s) sub)) [
  | inl here ↦ let (rest, e) = StartsWith-of_has_prefix (x ∷ s) sub here in ([], rest, e)
  | inr later ↦
      let (before, after, e) = Contains-of_contains_text s sub (rw later at h) in
      (x ∷ before, after, ap (◌∷◌ x) e)
]

contains_text_start : (s sub : Text) → has_prefix s sub ≡ true → contains_text s sub ≡ true
unfolding contains_text
contains_text_start [] sub h = h
contains_text_start (x ∷ s) sub h = rw h

contains_text-append :
    (before sub after : Text) → contains_text (before ++ (sub ++ after)) sub ≡ true
unfolding contains_text
contains_text-append [] sub after =
    contains_text_start (sub ++ after) sub (has_prefix-append sub after)
contains_text-append (x ∷ before) sub after = ground (arith, contains_text-append before sub after)

-- `strings.Contains` finds exactly the texts that stand somewhere in the text.
pub contains_text_iff : (s sub : Text) → (contains_text s sub ≡ true) ↔ Contains s sub
contains_text_iff s sub = (
  Contains-of_contains_text s sub,
  λ h. subst (λ t. contains_text t sub ≡ true) (sym h.2) (contains_text-append h.0 sub h.1),
)
