-- ===== src/Upstream/Health.antt =====
-- What a run of health checks makes of a target.
use waffynx.Upstream.{Target, Probe, is_bad, check}
use waffynx.Common.{
  if◌then◌else◌, leb, ltb, length, ℕ, ◌+◌, ◌≡◌, refl, ◌∙◌, ap, Bool, true, false, List, [], ◌∷◌,
  ◌++◌, arith,
}

-- The checks of one target, one after the other.
unfoldable pub check_each : List Probe → Target → Target
check_each [] t = t
check_each (a ∷ answers) t = check_each answers (check a t)

-- A target with a number of failures, healthy exactly if there are fewer than three.
abbrev pub with_failures : ℕ → Target → Target
with_failures n t = record t { failures = n; healthy = ltb n 3 }

pub data AllBad : List Probe → Type 0 where
  none_left : AllBad []
  and_bad : {a : Probe} {rest : List Probe} → is_bad a ≡ true → AllBad rest → AllBad (a ∷ rest)

check_each-append :
    (xs ys : List Probe) (t : Target) → check_each (xs ++ ys) t ≡ check_each ys (check_each xs t)
unfolding check_each
check_each-append [] ys t = refl
check_each-append (x ∷ xs) ys t = check_each-append xs ys (check x t)

check_bad :
    (a : Probe) (t : Target)
    → is_bad a ≡ true
    → check a t ≡ record t {
      failures = t.failures + 1;
      healthy = if leb 3 (t.failures + 1) then false else t.healthy;
    }
unfolding check
check_bad a t e = ground arith

check_good :
    (a : Probe) (t : Target)
    → is_bad a ≡ false
    → check a t ≡ record t { failures = 0; healthy = true }
unfolding check
check_good a t e = rw e refl

check_more :
    (a : Probe) (n : ℕ) (t : Target)
    → is_bad a ≡ true
    → check a (with_failures n t) ≡ with_failures (n + 1) t
check_more a n t b =
    check_bad a (with_failures n t) b
    ∙ ap (λ (h : Bool). record t { failures = n + 1; healthy = h }) (ground arith)

check-AllBad :
    (t : Target) (bad : List Probe) (n : ℕ)
    → AllBad bad
    → check_each bad (with_failures n t) ≡ with_failures (n + length bad) t
unfolding check_each
check-AllBad t [] n none_left = ap (λ (k : ℕ). with_failures k t) (omega arith)
check-AllBad t (a ∷ rest) n (and_bad b all) =
    ap (check_each rest) (check_more a n t b)
    ∙ check-AllBad t rest (n + 1) all
    ∙ ap (λ (k : ℕ). with_failures k t) (omega arith)

-- After a good answer and the bad answers that follow it, whatever came before: the number of
-- failures is the number of those bad answers, and the target is healthy exactly if there are fewer
-- than three. Nothing else of the target changes.
pub check_each_after_good :
    (t : Target) (before bad : List Probe) (good : Probe)
    → is_bad good ≡ false
    → AllBad bad
    → let old = check_each before t in
      check_each (before ++ good ∷ bad) t ≡ with_failures (length bad) old
unfolding check_each
check_each_after_good t before bad good e all =
    let old = check_each before t in
    check_each-append before (good ∷ bad) t
    ∙ ap (check_each bad) (check_good good old e)
    ∙ check-AllBad old bad 0 all
    ∙ ap (λ (k : ℕ). with_failures k old) (omega arith)
