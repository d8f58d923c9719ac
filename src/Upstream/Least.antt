-- ===== src/Upstream/Least.antt =====
-- Which target the choice by the number of connections returns.
use waffynx.Upstream.{Target, Pool, Pick, nothing, target, half_word, least_loop, least_conn}
use waffynx.Upstream.Cyclic.{IsHealthyAt}
use waffynx.Common.{
  ltb, get_elem?, ℕ, zero, suc, ◌+◌, ◌-◌, ◌≤◌, ◌<◌, ◌≡◌, refl, ap, ◌⊎◌, subst, ◌∙◌, inl, inr, true,
  false, ◌&&◌, some, List, [], ◌∷◌, arith,
}

-- The target at a position has at most as many connections as every healthy target, and fewer than
-- those before it.
pub record IsLeast (ts : List Target) (j : ℕ) (t : Target) : Type 0 where
  pub here : get_elem? ts j ≡ some t
  pub up : t.healthy ≡ true
  pub fewest :
      (m : ℕ) (u : Target)
      → get_elem? ts m ≡ some u
      → u.healthy ≡ true
      → t.active_conns ≤ u.active_conns
  pub before :
      (m : ℕ) (u : Target)
      → get_elem? ts m ≡ some u
      → u.healthy ≡ true
      → m < j
      → t.active_conns < u.active_conns

-- The result of the loop from a position with the least number and the target so far.
data Scanned (ts : List Target) (k bound : ℕ) (best res : Pick) : Type 0 where
  beats :
      (j : ℕ) (t : Target)
      → IsLeast ts j t
      → t.active_conns < bound
      → res ≡ target (k + j)
      → Scanned ts k bound best res
  keeps :
      res ≡ best
      → ((m : ℕ) (u : Target) → get_elem? ts m ≡ some u → u.healthy ≡ true → bound ≤ u.active_conns)
      → Scanned ts k bound best res

IsLeast-cons :
    (x : Target) (ts : List Target) (j : ℕ) (t : Target)
    → (x.healthy ≡ true → t.active_conns < x.active_conns)
    → IsLeast ts j t
    → IsLeast (x ∷ ts) (suc j) t
IsLeast-cons x ts j t less l = record { here = l.here; up = l.up; fewest = fewest; before = before }
  where
    head : (u : Target) → some x ≡ some u → u.healthy ≡ true → t.active_conns < u.active_conns
    head u e =
        subst (λ v. v.healthy ≡ true → t.active_conns < v.active_conns) {x = x} {y = u} (cc e) less

    fewest :
        (m : ℕ) (u : Target)
        → get_elem? (x ∷ ts) m ≡ some u
        → u.healthy ≡ true
        → t.active_conns ≤ u.active_conns
    fewest zero u e up = omega (arith, head u e up)
    fewest (suc m) u e up = l.fewest m u e up

    before :
        (m : ℕ) (u : Target)
        → get_elem? (x ∷ ts) m ≡ some u
        → u.healthy ≡ true
        → m < suc j
        → t.active_conns < u.active_conns
    before zero u e up lt = head u e up
    before (suc m) u e up lt = l.before m u e up (omega arith)

-- A first target that is healthy and below the bound is the least if no later one is below it.
IsLeast-head :
    (x : Target) (ts : List Target)
    → x.healthy ≡ true
    → ((m : ℕ) (u : Target)
        → get_elem? ts m ≡ some u
        → u.healthy ≡ true
        → x.active_conns ≤ u.active_conns)
    → IsLeast (x ∷ ts) 0 x
IsLeast-head x ts up rest = record {
  here = refl;
  up = up;
  fewest = fewest;
  before = λ m u e h lt. absurd (omega arith);
}
  where
    fewest :
        (m : ℕ) (u : Target)
        → get_elem? (x ∷ ts) m ≡ some u
        → u.healthy ≡ true
        → x.active_conns ≤ u.active_conns
    fewest zero u e h =
        subst (λ v. x.active_conns ≤ v.active_conns) {x = x} {y = u} (cc e) (omega arith)
    fewest (suc m) u e h = rest m u e h

none_below :
    (x : Target) (ts : List Target) (bound : ℕ)
    → (x.healthy ≡ true → bound ≤ x.active_conns)
    → ((m : ℕ) (u : Target) → get_elem? ts m ≡ some u → u.healthy ≡ true → bound ≤ u.active_conns)
    → (m : ℕ) (u : Target) → get_elem? (x ∷ ts) m ≡ some u
    → u.healthy ≡ true
    → bound ≤ u.active_conns
none_below x ts bound here rest zero u e =
    subst (λ v. v.healthy ≡ true → bound ≤ v.active_conns) {x = x} {y = u} (cc e) here
none_below x ts bound here rest (suc m) u e = rest m u e

Scanned-better :
    (x : Target) (ts : List Target) (k bound : ℕ) (best res : Pick)
    → x.healthy ≡ true
    → x.active_conns < bound
    → Scanned ts (k + 1) x.active_conns (target k) res
    → Scanned (x ∷ ts) k bound best res
Scanned-better x ts k bound best res up lt (beats j t l less e) =
    beats (suc j) t (IsLeast-cons x ts j t (λ _. less) l) (omega arith)
      (e ∙ ap target (omega arith))
Scanned-better x ts k bound best res up lt (keeps e rest) =
    beats 0 x (IsLeast-head x ts up rest) lt (e ∙ ap target (omega arith))

Scanned-worse :
    (x : Target) (ts : List Target) (k bound : ℕ) (best res : Pick)
    → (x.healthy ≡ true → bound ≤ x.active_conns)
    → Scanned ts (k + 1) bound best res
    → Scanned (x ∷ ts) k bound best res
Scanned-worse x ts k bound best res here (beats j t l less e) =
    beats (suc j) t (IsLeast-cons x ts j t (λ h. omega (arith, here h)) l) less
      (e ∙ ap target (omega arith))
Scanned-worse x ts k bound best res here (keeps e rest) = keeps e (none_below x ts bound here rest)

better_iff :
    (x : Target) (bound : ℕ)
    → (((x.healthy && ltb x.active_conns bound) ≡ true)
        × (x.healthy ≡ true)
        × (x.active_conns < bound))
      ⊎ (((x.healthy && ltb x.active_conns bound) ≡ false)
          × (x.healthy ≡ true → bound ≤ x.active_conns))
better_iff x bound = ground arith

least_loop-Scanned :
    (ts : List Target) (k bound : ℕ) (best : Pick)
    → Scanned ts k bound best (least_loop ts k bound best)
unfolding least_loop
least_loop-Scanned [] k bound best = keeps refl (λ m u e h. cc)
least_loop-Scanned (x ∷ ts) k bound best = elim (better_iff x bound) [
  | inl (b, up, lt) ↦ rw b (
      Scanned-better x ts k bound best _ up lt
        (least_loop-Scanned ts (k + 1) x.active_conns (target k)))
  | inr (b, here) ↦
      rw b (Scanned-worse x ts k bound best _ here (least_loop-Scanned ts (k + 1) bound best))
]

-- The choice by connections, with fewer than 2^63 - 1 connections at every target: the healthy
-- target that has the fewest, the first of those in the list, or none if none is healthy.
pub least_conn_lem :
    (p : Pool)
    → ((m : ℕ) (u : Target) → get_elem? p.targets m ≡ some u → u.active_conns < half_word - 1)
    → ((j : ℕ) × (t : Target) × IsLeast p.targets j t × (least_conn p ≡ target j))
      ⊎ ((least_conn p ≡ nothing) × ((m : ℕ) → ¬ IsHealthyAt p.targets m))
unfolding least_conn
least_conn_lem p small = elim (least_loop-Scanned p.targets 0 (half_word - 1) nothing) [
  | beats j t l less e ↦ inl (j, t, l, e ∙ ap target (omega arith))
  | keeps e rest ↦ inr (e, λ m (u, found, up). omega (arith, small m u found, rest m u found up))
]
