-- ===== src/Common/Strings.antt =====
-- Go strings as lists of bytes, and the functions of its package `strings` that the program calls.
use Prim.Native.Nat.{ℕ, ◌+◌, ◌-◌}
use Prim.Native.Char.{code}
use Prim.Native.String.{String}
use mathlib.Core.Path.{◌≡◌, refl}
use mathlib.Core.Logic.{◌↔◌}
use mathlib.Core.Bool.{Bool, true, false, ◌&&◌}
use mathlib.Core.Option.{Option, none, some}
use mathlib.Core.List.{List, [], ◌∷◌, map}
use native.Mathlib.Omega.{arith}
use waffynx.Common.Tests.{eqb, leb, if◌then◌else◌}

abbrev pub Text : Type 0
Text = List ℕ

-- The bytes of an ASCII literal.
abbrev pub txt : String → Text
txt String.[] = []
txt (String.◌∷◌ c s) = code c ∷ txt s

abbrev pub text_beq : Text → Text → Bool
text_beq [] [] = true
text_beq [] (y ∷ ys) = false
text_beq (x ∷ xs) [] = false
text_beq (x ∷ xs) (y ∷ ys) = eqb x y && text_beq xs ys

pub text_beq_iff : (a b : Text) → (text_beq a b ≡ true) ↔ (a ≡ b)
text_beq_iff [] [] = ((λ _. refl), λ _. refl)
text_beq_iff [] (y ∷ ys) = ((λ h. cc), λ h. cc)
text_beq_iff (x ∷ xs) [] = ((λ h. cc), λ h. cc)
text_beq_iff (x ∷ xs) (y ∷ ys) = ground (arith, text_beq_iff xs ys)

abbrev pub is_empty : Text → Bool
is_empty [] = true
is_empty (c ∷ s) = false

-- strings.HasPrefix(s, p).
unfoldable pub has_prefix : Text → Text → Bool
has_prefix s [] = true
has_prefix [] (y ∷ p) = false
has_prefix (x ∷ s) (y ∷ p) = eqb x y && has_prefix s p

-- strings.Contains(s, sub).
unfoldable pub contains_text : Text → Text → Bool
contains_text [] sub = has_prefix [] sub
contains_text (x ∷ s) sub = if has_prefix (x ∷ s) sub then true else contains_text s sub

-- slices.Contains(xs, x) on strings.
unfoldable pub contains_elem : List Text → Text → Bool
contains_elem [] a = false
contains_elem (x ∷ xs) a = if text_beq x a then true else contains_elem xs a

-- What stands before the first byte `c`, and what stands behind it, if there is one: the slices
-- that the program takes at `strings.IndexByte(s, c)`, and the results of `strings.Cut`.
unfoldable pub cut : ℕ → Text → Text × Option Text
cut c [] = ([], none)
cut c (x ∷ s) = let rest = cut c s in if eqb x c then ([], some s) else (x ∷ rest.0, rest.1)

-- strings.ToLower and strings.ToUpper on ASCII bytes.
abbrev pub lower_byte : ℕ → ℕ
lower_byte c = if leb b'A' c && leb c b'Z' then c + 32 else c

abbrev pub to_lower : Text → Text
to_lower = map lower_byte

abbrev pub upper_byte : ℕ → ℕ
upper_byte c = if leb b'a' c && leb c b'z' then c - 32 else c

abbrev pub to_upper : Text → Text
to_upper = map upper_byte
