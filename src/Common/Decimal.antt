-- ===== src/Common/Decimal.antt =====
-- strconv.Itoa and strconv.Atoi on 64-bit integers.
use waffynx.Common.{
  ltb, leb, eqb, if◌then◌else◌, Bool-cases, All, Text, ℤ, pos, negsuc, ℕ, zero, suc, ◌+◌, ◌-◌, ◌*◌,
  ◌/◌, ◌%◌, ◌^◌, ◌≤◌, ◌<◌, ◌≡◌, refl, sym, ap, subst, ◌∙◌, inl, inr, Bool, true, false, ◌&&◌,
  Option, none, some, [], ◌∷◌, arith,
}

-- The digits of a number in front of a text, on fuel.
unfoldable pub digits : ℕ → ℕ → Text → Text
digits zero n s = s
digits (suc fuel) n s =
    let more = digits fuel (n / 10) ((b'0' + n % 10) ∷ s) in
    if ltb n 10 then (b'0' + n % 10) ∷ s else more

unfoldable pub decimal : ℕ → Text
unfolding digits
decimal n = digits (n + 1) n []

unfoldable pub itoa : ℤ → Text
unfolding decimal
itoa (pos n) = decimal n
itoa (negsuc n) = b'-' ∷ decimal (suc n)

-- The number that digits stand for behind a number that was read.
unfoldable pub value : Text → ℕ → Option ℕ
value [] n = some n
value (c ∷ s) n =
    let more = value s (n * 10 + (c - b'0')) in if leb b'0' c && leb c b'9' then more else none

-- `none` is the error of no digits, or of a byte that is none.
unfoldable pub unsigned : Text → Option ℕ
unfolding value
unsigned [] = none
unsigned (c ∷ s) = value (c ∷ s) 0

-- `none` is an error of the syntax or of the range.
abbrev pub signed : Bool → Option ℕ → Option ℤ
signed minus none = none
signed true (some zero) = some (pos 0)
signed true (some (suc n)) = if ltb n (2 ^ 63) then some (negsuc n) else none
signed false (some n) = if ltb n (2 ^ 63) then some (pos n) else none

unfoldable pub atoi : Text → Option ℤ
unfolding unsigned
atoi [] = none
atoi (c ∷ s) =
    if eqb c b'-'
    then signed true (unsigned s)
    else if eqb c b'+'
    then signed false (unsigned s)
    else signed false (unsigned (c ∷ s))

value-digit : (d n : ℕ) (s : Text) → d < 10 → value ((b'0' + d) ∷ s) n ≡ value s (n * 10 + d)
unfolding value
value-digit d n s h =
    let low : leb b'0' (b'0' + d) ≡ true = grind arith in
    let high : leb (b'0' + d) b'9' ≡ true = grind arith in
    rw (low, high) (ap (value s) (omega arith))

value-digits : (fuel n : ℕ) (s : Text) → n < fuel → value (digits fuel n s) 0 ≡ value s n
unfolding digits
value-digits zero n s h = elim h [ ]
value-digits (suc fuel) n s h = elim (Bool-cases (ltb n 10)) [
  | inl last ↦ rw last (value-digit (n % 10) 0 s (omega arith) ∙ ap (value s) (ground arith))
  | inr more ↦ rw more (
      value-digits fuel (n / 10) ((b'0' + n % 10) ∷ s) (ground arith)
      ∙ value-digit (n % 10) (n / 10) s (omega arith)
      ∙ ap (value s) (omega arith))
]

abbrev pub IsDigit : ℕ → Type 0
IsDigit c = (b'0' ≤ c) × (c ≤ b'9')

-- The printed number begins with a digit.
digits-cons :
    (fuel n : ℕ) (s : Text)
    → n < fuel
    → (c : ℕ) × (t : Text) × (digits fuel n s ≡ c ∷ t) × IsDigit c
unfolding digits
digits-cons zero n s h = elim h [ ]
digits-cons (suc fuel) n s h = elim (Bool-cases (ltb n 10)) [
  | inl last ↦ (b'0' + n % 10, s, rw last refl, omega arith)
  | inr more ↦ rw more (digits-cons fuel (n / 10) ((b'0' + n % 10) ∷ s) (ground arith))
]

-- Reading a printed number gives the number back, below 2^63.
pub atoi-decimal : (n : ℕ) → n < 2 ^ 63 → atoi (decimal n) ≡ some (pos n)
unfolding decimal atoi unsigned
atoi-decimal n h =
    let (c, t, e, (low, high)) = digits-cons (n + 1) n [] (omega arith) in
    let no_minus : eqb c b'-' ≡ false = grind arith in
    let no_plus : eqb c b'+' ≡ false = grind arith in
    let in_range : ltb n (2 ^ 63) ≡ true = grind arith in
    let read : value (c ∷ t) 0 ≡ some n =
      ap (λ u. value u 0) (sym e) ∙ value-digits (n + 1) n [] (omega arith) ∙ refl in
    rw e (rw (no_minus, no_plus) (rw (read, in_range) refl))

All-digits : (fuel n : ℕ) (s : Text) → All IsDigit s → All IsDigit (digits fuel n s)
unfolding digits
All-digits zero n s h = h
All-digits (suc fuel) n s h = elim (Bool-cases (ltb n 10)) [
  | inl last ↦ rw last (omega arith, h)
  | inr more ↦ rw more (All-digits fuel (n / 10) ((b'0' + n % 10) ∷ s) (omega arith, h))
]

-- A printed number is one digit or more.
pub decimal-cons : (n : ℕ) → (c : ℕ) × (t : Text) × (decimal n ≡ c ∷ t) × All IsDigit (c ∷ t)
unfolding decimal
decimal-cons n =
    let (c, t, e, digit) = digits-cons (n + 1) n [] (omega arith) in
    (c, t, e, subst (All IsDigit) e (All-digits (n + 1) n [] tt))
