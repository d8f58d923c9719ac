-- ===== src/Common/Split.antt =====
-- strings.Split at one byte, against strings.Cut.
use waffynx.Common.{
  eqb, if◌then◌else◌, Bool-cases, length, any, All, Text, cut, ℕ, ◌<◌, ◌≡◌, refl, ap, ◌∙◌, inl, inr,
  true, false, Option, none, some, List, [], ◌∷◌, ◌++◌, arith,
}

put_first : ℕ → List Text → List Text
put_first x [] = (x ∷ []) ∷ []
put_first x (p ∷ ps) = (x ∷ p) ∷ ps

-- The pieces of a text between the bytes `c`.
unfoldable pub split : ℕ → Text → List Text
unfolding put_first
split c [] = [] ∷ []
split c (x ∷ s) = let rest = split c s in if eqb x c then [] ∷ rest else put_first x rest

unfoldable pub after_first : ℕ → Option Text → List Text
after_first c none = []
after_first c (some r) = split c r

pub split-cut : (c : ℕ) (s : Text) → split c s ≡ (cut c s).0 ∷ after_first c (cut c s).1
unfolding split cut after_first
split-cut c [] = refl
split-cut c (x ∷ s) = elim (Bool-cases (eqb x c)) [
  | inl e ↦ rw (e, split, cut)
  | inr e ↦ rw (e, split, cut) (ap (put_first x) (split-cut c s))
]

pub cut_shorter : (c : ℕ) (s r : Text) → (cut c s).1 ≡ some r → length r < length s
unfolding cut
cut_shorter c [] r h = cc
cut_shorter c (x ∷ s) r h = ground (arith, cut_shorter c s r)

pub cut-free :
    (c : ℕ) (w s : Text)
    → any (λ x. eqb x c) w ≡ false
    → cut c (w ++ s) ≡ (w ++ (cut c s).0, (cut c s).1)
unfolding cut
cut-free c [] s h = refl
cut-free c (x ∷ w) s h = elim (Bool-cases (eqb x c)) [
  | inl same ↦ cc (rw same at h)
  | inr other ↦ rw other (rw (cut-free c w s (rw other at h)) refl)
]

split-free :
    (c : ℕ) (w s : Text) → any (λ x. eqb x c) w ≡ false → split c (w ++ c ∷ s) ≡ w ∷ split c s
unfolding split put_first
split-free c [] s h = let same : eqb c c ≡ true = ground arith in rw same refl
split-free c (x ∷ w) s h = elim (Bool-cases (eqb x c)) [
  | inl same ↦ cc (rw same at h)
  | inr other ↦ rw other (rw (split-free c w s (rw other at h)) refl)
]

split-last : (c : ℕ) (w : Text) → any (λ x. eqb x c) w ≡ false → split c w ≡ w ∷ []
unfolding split put_first
split-last c [] h = refl
split-last c (x ∷ w) h = elim (Bool-cases (eqb x c)) [
  | inl same ↦ cc (rw same at h)
  | inr other ↦ rw other (rw (split-last c w (rw other at h)) refl)
]

-- Lines with a byte `c` behind each but the last.
unfoldable pub join : ℕ → List Text → Text
join c [] = []
join c (w ∷ []) = w
join c (w ∷ v ∷ ws) = w ++ (c ∷ join c (v ∷ ws))

-- Splitting gives back the texts that were joined, if none has the byte.
pub split-join :
    (c : ℕ) (w : Text) (ws : List Text)
    → All (λ v. any (λ x. eqb x c) v ≡ false) (w ∷ ws)
    → split c (join c (w ∷ ws)) ≡ w ∷ ws
unfolding join
split-join c w [] h = split-last c w h.0
split-join c w (v ∷ ws) h =
    split-free c w (join c (v ∷ ws)) h.0 ∙ ap (◌∷◌ w) (split-join c v ws h.1)
