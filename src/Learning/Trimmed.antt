-- ===== src/Learning/Trimmed.antt =====
-- What `strings.Trim` at one byte leaves.
use mathlib.Core.List.{reverse, reverse-append, reverse-reverse}
use waffynx.Learning.{trim_left, trim}
use waffynx.Common.{
  eqb, Bool-cases, eqb_iff, All, All-append, Text, ℕ, false, ◌≡◌, refl, sym, ap, subst, ◌∙◌, ◌≢◌,
  inl, inr, [], ◌∷◌, ◌++◌,
}

abbrev pub Only : ℕ → Text → Type 0
Only c s = All (λ x. x ≡ c) s

-- The text neither begins nor ends with the byte.
abbrev pub IsBare : ℕ → Text → Type 0
IsBare c t = ((rest : Text) → t ≢ c ∷ rest) × ((rest : Text) → t ≢ rest ++ c ∷ [])

-- A text is bytes `c`, a text without `c` at its ends, and bytes `c`.
pub record Trimmed (c : ℕ) (s t : Text) : Type 0 where
  pub before : Text
  pub after : Text
  pub parts : s ≡ before ++ (t ++ after)
  pub only_before : Only c before
  pub only_after : Only c after
  pub bare : IsBare c t

trim_left-parts :
    (c : ℕ) (s : Text) → (before : Text) × (s ≡ before ++ trim_left c s) × Only c before
unfolding trim_left
trim_left-parts c [] = ([], refl, tt)
trim_left-parts c (x ∷ s) = elim (Bool-cases (eqb x c)) [
  | inl same ↦
      let (before, parts, only) = trim_left-parts c s in
      rw same (x ∷ before, ap (◌∷◌ x) parts, ((eqb_iff x c).0 same, only))
  | inr other ↦ rw other ([], refl, tt)
]

trim_left-head : (c : ℕ) (s rest : Text) → trim_left c s ≢ c ∷ rest
unfolding trim_left
trim_left-head c [] rest = λ e. cc e
trim_left-head c (x ∷ s) rest = elim (Bool-cases (eqb x c)) [
  | inl same ↦ rw same (trim_left-head c s rest)
  | inr other ↦ rw other (λ e. not_same other (cc e))
]
  where
    not_same : eqb x c ≡ false → x ≢ c
    not_same h e = cc (sym h ∙ (eqb_iff x c).1 e)

Only-reverse : (c : ℕ) (s : Text) → Only c s → Only c (reverse s)
Only-reverse c [] h = h
Only-reverse c (x ∷ s) h =
    subst (Only c) (sym (reverse-append (x ∷ []) s))
      (All-append (λ x. x ≡ c) (reverse s) (x ∷ []) (Only-reverse c s h.1) (h.0, tt))

pub trim-Trimmed : (c : ℕ) (s : Text) → Trimmed c s (trim c s)
unfolding trim
trim-Trimmed c s =
    let u = trim_left c s in
    let v = trim_left c (reverse u) in
    let (before, front, only_before) = trim_left-parts c s in
    let (behind, back, only_behind) = trim_left-parts c (reverse u) in
    let split : u ≡ reverse v ++ reverse behind =
      sym (reverse-reverse u) ∙ ap reverse back ∙ reverse-append behind v in
    record {
      before = before;
      after = reverse behind;
      parts = front ∙ ap (λ t. before ++ t) split;
      only_before = only_before;
      only_after = Only-reverse c behind only_behind;
      bare = (
        λ rest e.
            trim_left-head c s (rest ++ reverse behind) (split ∙ ap (λ t. t ++ reverse behind) e),
        λ rest e.
            trim_left-head c (reverse u) (reverse rest)
              (sym (reverse-reverse v) ∙ ap reverse e ∙ reverse-append rest (c ∷ [])),
      );
    }
