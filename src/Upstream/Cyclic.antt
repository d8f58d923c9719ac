-- ===== src/Upstream/Cyclic.antt =====
-- The search for a healthy target round the list.
use waffynx.Upstream.{Target, Pick, target, rem_plus, search_loop}
use native.Mathlib.Decide.{dec_lt, ℕ_discrete}
use native.Mathlib.Nat.{mod-lt, mod-eq_of_lt}
use waffynx.Common.{
  if◌then◌else◌, Bool-cases, length, get_elem?, pos, ℕ, zero, suc, ◌+◌, ◌-◌, ◌%◌, ◌≤◌, ◌<◌, ◌≡◌,
  refl, sym, ap, subst, ◌∙◌, inl, inr, true, some, List, [], ◌∷◌, arith,
}

abbrev pub IsHealthyAt : List Target → ℕ → Type 0
IsHealthyAt ts k = (t : Target) × (get_elem? ts k ≡ some t) × (t.healthy ≡ true)

get_elem?-lt : (ts : List Target) (k : ℕ) → k < length ts → (t : Target) × (get_elem? ts k ≡ some t)
get_elem?-lt [] k h = elim h [ ]
get_elem?-lt (t ∷ ts) zero h = (t, refl)
get_elem?-lt (t ∷ ts) (suc k) h = get_elem?-lt ts k (omega arith)

get_elem?-bound : (ts : List Target) (k : ℕ) (t : Target) → get_elem? ts k ≡ some t → k < length ts
get_elem?-bound [] k t h = cc
get_elem?-bound (x ∷ ts) zero t h = omega arith
get_elem?-bound (x ∷ ts) (suc k) t h = omega (arith, get_elem?-bound ts k t h)

-- The result of the search for the rounds `i`, …, `i + rounds - 1` from the position `a`: the
-- first healthy target, or what follows the loop if none is healthy.
pub data Searched (otherwise : Pick) (ts : List Target) (a i rounds : ℕ) (res : Pick) : Type 0 where
  hit :
      (j : ℕ)
      → i ≤ j
      → j < i + rounds
      → res ≡ target ((a + j) % length ts)
      → IsHealthyAt ts ((a + j) % length ts)
      → ((m : ℕ) → i ≤ m → m < j → ¬ IsHealthyAt ts ((a + m) % length ts))
      → Searched otherwise ts a i rounds res
  miss :
      res ≡ otherwise
      → ((m : ℕ) → i ≤ m → m < i + rounds → ¬ IsHealthyAt ts ((a + m) % length ts))
      → Searched otherwise ts a i rounds res

not_healthy_from :
    (ts : List Target) (a i n : ℕ)
    → ¬ IsHealthyAt ts ((a + i) % length ts)
    → ((m : ℕ) → i + 1 ≤ m → m < n → ¬ IsHealthyAt ts ((a + m) % length ts))
    → (m : ℕ) → i ≤ m
    → m < n
    → ¬ IsHealthyAt ts ((a + m) % length ts)
not_healthy_from ts a i n h later m lo hi = elim (ℕ_discrete i m) [
  | yes e ↦ subst (λ k. ¬ IsHealthyAt ts ((a + k) % length ts)) e h
  | no e ↦ later m (omega arith) hi
]

Searched-suc :
    (otherwise : Pick) (ts : List Target) (a i rounds : ℕ) (res : Pick)
    → ¬ IsHealthyAt ts ((a + i) % length ts)
    → Searched otherwise ts a (i + 1) rounds res
    → Searched otherwise ts a i (suc rounds) res
Searched-suc otherwise ts a i rounds res h (hit j lo hi e here before) =
    hit j (omega arith) (omega arith) e here (not_healthy_from ts a i j h before)
Searched-suc otherwise ts a i rounds res h (miss e none_here) =
    miss e (λ m lo hi. not_healthy_from ts a i (i + 1 + rounds) h none_here m lo (omega arith))

pub search_loop-Searched :
    (otherwise : Pick) (ts : List Target) (a i rounds : ℕ)
    → 0 < length ts
    → Searched otherwise ts a i rounds (search_loop otherwise ts (pos a) i rounds)
unfolding search_loop rem_plus
search_loop-Searched otherwise ts a i zero h = miss refl (λ m lo hi. absurd (omega arith))
search_loop-Searched otherwise ts a i (suc rounds) h =
    let k : ℕ = (a + i) % length ts in
    let (t, found) = get_elem?-lt ts k (mod-lt (a + i) h) in
    let rest = search_loop otherwise ts (pos a) (i + 1) rounds in
    let step : search_loop otherwise ts (pos a) i (suc rounds)
        ≡ (if t.healthy then target k else rest) =
      rw (found, search_loop) refl in
    elim (Bool-cases t.healthy) [
      | inl up ↦
          hit i (omega arith) (omega arith) (step ∙ rw up refl) (t, found, up)
            (λ m lo hi. absurd (omega arith))
      | inr down ↦ subst (Searched otherwise ts a i (suc rounds)) (sym (step ∙ rw down refl)) (
          Searched-suc otherwise ts a i rounds rest (λ u. cc (found, u.1, u.2, down))
            (search_loop-Searched otherwise ts a (i + 1) rounds h))
    ]

mod_wrap : (k n : ℕ) → k < n → (k + n) % n ≡ k
mod_wrap k n h = grind arith

-- The rounds from 0 to the length reach every position.
pub reaches : (a k n : ℕ) → a < n → k < n → (j : ℕ) × (j < n) × ((a + j) % n ≡ k)
reaches a k n ha hk = elim (dec_lt k a) [
  | yes before ↦
      (k + n - a, omega arith, ap (λ (x : ℕ). x % n) {y = k + n} (omega arith) ∙ mod_wrap k n hk)
  | no after ↦ (k - a, omega arith, ap (λ (x : ℕ). x % n) {y = k} (omega arith) ∙ mod-eq_of_lt hk)
]

-- If the search meets no healthy target in as many rounds as there are targets, there is none.
pub none_healthy :
    (ts : List Target) (a : ℕ)
    → a < length ts
    → ((m : ℕ) → 0 ≤ m → m < 0 + length ts → ¬ IsHealthyAt ts ((a + m) % length ts))
    → (k : ℕ) → ¬ IsHealthyAt ts k
none_healthy ts a ha none_here k (t, found, up) =
    let (j, short, e) = reaches a k (length ts) ha (get_elem?-bound ts k t found) in
    none_here j (omega arith) (omega arith) (subst (IsHealthyAt ts) (sym e) (t, found, up))
