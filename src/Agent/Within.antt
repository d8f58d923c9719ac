-- ===== src/Agent/Within.antt =====
-- What the window of the tracker holds, for a number of seconds that is neither negative nor too large.
use waffynx.Agent.{is_recent}
use native.Mathlib.Nat.{mod-eq_of_lt}
use waffynx.Common.{
  ltb, zero, suc, pos, lt_int, int64, opposite, negated, seconds, add_duration, ◌-◌, ◌%◌, ◌^◌, ◌<◌,
  if◌then◌else◌, keep, ℕ, ◌+◌, ◌*◌, ◌≤◌, ◌≡◌, refl, ap, ◌∙◌, Bool, true, false, List, [], ◌∷◌,
  arith,
}

-- Less than a window ago.
abbrev pub within : ℕ → ℕ → ℕ → Bool
within now window ts = ltb now (ts + window)

pub seconds_lem : (n : ℕ) → n * 1000000000 < 2 ^ 63 → seconds (pos n) ≡ pos (n * 1000000000)
seconds_lem n h =
    let fits : (n * 1000000000) % 2 ^ 64 ≡ n * 1000000000 = mod-eq_of_lt (omega (arith, h)) in
    let low : ltb (n * 1000000000) (2 ^ 63) ≡ true = grind (arith, h) in rw (fits, low) refl

opposite_lem : (n : ℕ) → n < 2 ^ 63 → int64 (opposite (pos n)) ≡ negated n
opposite_lem zero h = refl
opposite_lem (suc n) h =
    let small : suc n % 2 ^ 64 ≡ suc n = mod-eq_of_lt (omega (arith, h)) in
    let rest : (2 ^ 64 - suc n) % 2 ^ 64 ≡ 2 ^ 64 - suc n = mod-eq_of_lt (omega (arith, h)) in
    let high : ltb (2 ^ 64 - suc n) (2 ^ 63) ≡ false =
      ltb_high (2 ^ 64 - suc n) (omega (arith, h)) in
    let back : 2 ^ 64 - (2 ^ 64 - suc n) ≡ suc n = omega (arith, h) in
    rw (small, rest, high, back) refl
  where
    ltb_high : (m : ℕ) → 2 ^ 63 ≤ m → ltb m (2 ^ 63) ≡ false
    ltb_high m e = grind arith

before_window : (n now ts : ℕ) → lt_int (add_duration now (negated n)) (pos ts) ≡ ltb now (ts + n)
before_window zero now ts = ground arith
before_window (suc n) now ts = ground arith

recent-within :
    (n now ts : ℕ)
    → n * 1000000000 < 2 ^ 63
    → is_recent now (seconds (pos n)) ts ≡ within now (n * 1000000000) ts
recent-within n now ts h =
    ap (λ w. is_recent now w ts) (seconds_lem n h)
    ∙ ap (λ d. lt_int (add_duration now d) (pos ts)) (opposite_lem (n * 1000000000) h)
    ∙ before_window (n * 1000000000) now ts

pub keep-within :
    (n now : ℕ) (times : List ℕ)
    → n * 1000000000 < 2 ^ 63
    → keep (is_recent now (seconds (pos n))) times ≡ keep (within now (n * 1000000000)) times
keep-within n now [] h = refl
keep-within n now (ts ∷ times) h =
    ap
      (λ b.
        if b
        then ts ∷ keep (is_recent now (seconds (pos n))) times
        else keep (is_recent now (seconds (pos n))) times)
      (recent-within n now ts h)
    ∙ ap (λ (r : List ℕ). if within now (n * 1000000000) ts then ts ∷ r else r)
        (keep-within n now times h)
