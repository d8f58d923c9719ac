-- ===== src/Learning/Segment.antt =====
-- What is written for a segment of a path.
use waffynx.Learning.{
  all_bytes, is_digit, is_hex_digit, count_byte, is_numeric, is_uuid, is_hex, label,
}
use waffynx.Common.{
  eqb, ltb, Bool-cases, length, keep, All, Text, txt, is_empty, ℕ, ◌≤◌, ◌<◌, ◌≡◌, refl, sym, ◌∙◌,
  ◌≢◌, ◌↔◌, ◌⊎◌, inl, inr, Bool, true, false, not, ◌&&◌, [], ◌∷◌, arith,
}

abbrev pub Between : ℕ → ℕ → ℕ → Type 0
Between low high c = (low ≤ c) × (c ≤ high)

abbrev pub IsDigit : ℕ → Type 0
IsDigit c = Between b'0' b'9' c

abbrev pub IsHexDigit : ℕ → Type 0
IsHexDigit c = IsDigit c ⊎ (Between b'a' b'f' c ⊎ Between b'A' b'F' c)

abbrev pub IsNumeric : Text → Type 0
IsNumeric s = All IsDigit s × (s ≢ [])

abbrev pub IsHex : Text → Type 0
IsHex s = All IsHexDigit s × (s ≢ [])

-- 36 bytes, four of them dashes.
abbrev pub IsUuid : Text → Type 0
IsUuid s = (length s ≡ 36) × (length (keep (λ c. eqb c b'-') s) ≡ 4)

-- What stands for a segment: the first of three labels that fits, or the segment.
pub data LabelOf (s : Text) : Text → Type 0 where
  id_label : IsNumeric s → LabelOf s (txt "{id}")
  uuid_label : ¬ IsNumeric s → IsUuid s → LabelOf s (txt "{uuid}")
  hash_label : ¬ IsNumeric s → ¬ IsUuid s → IsHex s → 16 < length s → LabelOf s (txt "{hash}")
  itself : ¬ IsNumeric s → ¬ IsUuid s → ¬ (IsHex s × (16 < length s)) → LabelOf s s

all_bytes_iff :
    (p : ℕ → Bool) (P : ℕ → Type 0)
    → ((c : ℕ) → (p c ≡ true) ↔ P c)
    → (s : Text) → (all_bytes p s ≡ true) ↔ All P s
unfolding all_bytes
all_bytes_iff p P h [] = ((λ _. tt), λ _. refl)
all_bytes_iff p P h (c ∷ s) =
    let rest = all_bytes_iff p P h s in
    elim (Bool-cases (p c)) [
      | inl holds ↦ rw holds ((λ e. ((h c).0 holds, rest.0 e)), λ a. rest.1 a.1)
      | inr fails ↦ rw fails ((λ e. cc e), λ a. cc (sym fails ∙ (h c).1 a.0))
    ]

IsDigit-iff : (c : ℕ) → (is_digit c ≡ true) ↔ IsDigit c
unfolding is_digit
IsDigit-iff c = ground arith

IsHexDigit-iff : (c : ℕ) → (is_hex_digit c ≡ true) ↔ IsHexDigit c
unfolding is_hex_digit is_digit
IsHexDigit-iff c = ground arith

and_nonempty_iff :
    (b : Bool) (P : Type 0) (s : Text)
    → ((b ≡ true) ↔ P)
    → (b && not (is_empty s) ≡ true) ↔ (P × (s ≢ []))
and_nonempty_iff true P [] h = ((λ e. cc e), λ a. absurd (a.1 refl))
and_nonempty_iff true P (c ∷ s) h = ((λ e. (h.0 refl, λ nil. cc nil)), λ a. refl)
and_nonempty_iff false P s h = ((λ e. cc e), λ a. cc (h.1 a.0))

IsNumeric-iff : (s : Text) → (is_numeric s ≡ true) ↔ IsNumeric s
unfolding is_numeric
IsNumeric-iff s =
    and_nonempty_iff (all_bytes is_digit s) (All IsDigit s) s
      (all_bytes_iff is_digit IsDigit IsDigit-iff s)

IsHex-iff : (s : Text) → (is_hex s ≡ true) ↔ IsHex s
unfolding is_hex
IsHex-iff s =
    and_nonempty_iff (all_bytes is_hex_digit s) (All IsHexDigit s) s
      (all_bytes_iff is_hex_digit IsHexDigit IsHexDigit-iff s)

count_byte-keep : (c : ℕ) (s : Text) → count_byte c s ≡ length (keep (λ x. eqb x c) s)
unfolding count_byte
count_byte-keep c [] = refl
count_byte-keep c (x ∷ s) = ground (arith, count_byte-keep c s)

IsUuid-iff : (s : Text) → (is_uuid s ≡ true) ↔ IsUuid s
unfolding is_uuid
IsUuid-iff s =
    let dashes = count_byte-keep b'-' s in
    (
      λ e. (ground arith, sym dashes ∙ ground arith),
      λ h. let four : count_byte b'-' s ≡ 4 = dashes ∙ h.1 in rw (h.0, four) refl,
    )

refuted : (b : Bool) (P : Type 0) → ((b ≡ true) ↔ P) → b ≡ false → ¬ P
refuted b P h fails p = cc (sym fails ∙ h.1 p)

pub label-LabelOf : (s : Text) → LabelOf s (label s)
unfolding label
label-LabelOf s = elim (Bool-cases (is_numeric s)) [
  | inl holds ↦ rw holds (id_label ((IsNumeric-iff s).0 holds))
  | inr n ↦
      let no_number = refuted (is_numeric s) (IsNumeric s) (IsNumeric-iff s) n in
      elim (Bool-cases (is_uuid s)) [
        | inl holds ↦ rw (n, holds) (uuid_label no_number ((IsUuid-iff s).0 holds))
        | inr u ↦
            let no_uuid = refuted (is_uuid s) (IsUuid s) (IsUuid-iff s) u in
            elim (Bool-cases (is_hex s && ltb 16 (length s))) [
              | inl holds ↦
                  let hex : is_hex s ≡ true = ground arith in
                  rw (n, u, holds)
                    (hash_label no_number no_uuid ((IsHex-iff s).0 hex) (ground arith))
              | inr h ↦
                  rw (n, u, h) (itself no_number no_uuid (λ a. no_hash h a.1 ((IsHex-iff s).1 a.0)))
            ]
      ]
]
  where
    no_hash : (is_hex s && ltb 16 (length s) ≡ false) → 16 < length s → is_hex s ≢ true
    no_hash h long holds = ground arith
