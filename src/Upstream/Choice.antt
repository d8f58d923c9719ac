-- ===== src/Upstream/Choice.antt =====
-- Which target the round-robin and the hashed choice return.
use native.Mathlib.Nat.{mod-lt, mod-eq_of_lt}
use waffynx.Upstream.Cyclic.{search_loop-Searched}
use waffynx.Upstream.{
  minus, Target, Pool, Pick, panics, nothing, target, word, half_word, rem_word, rem_plus,
  search_loop, round_robin, fnv32a, or_whole, ip_hash,
}
use waffynx.Upstream.Cyclic.{IsHealthyAt, Searched, hit, miss, none_healthy}
use waffynx.Common.{
  eqb, leb, ltb, zero, suc, pos, negsuc, true, false, refl, length, Text, ℕ, ◌+◌, ◌-◌, ◌%◌, ◌≤◌,
  ◌<◌, ◌≡◌, ◌≢◌, ap, ◌∙◌, Option, List, arith,
}

-- The next start: one further, round the list.
abbrev pub start : Pool → ℕ
start p = (p.index + 1) % length p.targets

-- A choice that goes round the list from a start: the first healthy target, or none if none is
-- healthy.
pub data FirstHealthy (ts : List Target) (a : ℕ) (nobody res : Pick) : Type 0 where
  found :
      (j : ℕ)
      → j < length ts
      → res ≡ target ((a + j) % length ts)
      → IsHealthyAt ts ((a + j) % length ts)
      → ((m : ℕ) → m < j → ¬ IsHealthyAt ts ((a + m) % length ts))
      → FirstHealthy ts a nobody res
  none_is : res ≡ nobody → ((k : ℕ) → ¬ IsHealthyAt ts k) → FirstHealthy ts a nobody res

FirstHealthy-of_Searched :
    (ts : List Target) (a : ℕ) (nobody res : Pick)
    → a < length ts
    → Searched nobody ts a 0 (length ts) res
    → FirstHealthy ts a nobody res
FirstHealthy-of_Searched ts a nobody res ha (hit j lo hi e here before) =
    found j (omega arith) e here (λ m h. before m (omega arith) h)
FirstHealthy-of_Searched ts a nobody res ha (miss e none_here) =
    none_is e (none_healthy ts a ha none_here)

eqb_zero : {n : ℕ} → 0 < n → eqb n 0 ≡ false
eqb_zero h = grind arith

ltb_yes : {m n : ℕ} → m < n → ltb m n ≡ true
ltb_yes h = grind arith

ltb_no : {m n : ℕ} → n ≤ m → ltb m n ≡ false
ltb_no h = grind arith

-- Below 2^63 - 1 calls the round-robin choice never panics: it moves the index on by one and
-- returns the first healthy target from there on, round the list, or nothing if none is healthy.
pub round_robin-FirstHealthy :
    (p : Pool)
    → 0 < length p.targets
    → p.index + 1 < half_word
    → ((round_robin p).0 ≡ record p { index = p.index + 1 })
      × FirstHealthy p.targets (start p) nothing (round_robin p).1
unfolding round_robin rem_word
round_robin-FirstHealthy p h bound =
    let n = length p.targets in
    let m : ℕ = p.index + 1 in
    let in_word : m % word ≡ m = mod-eq_of_lt (omega arith) in
    let some_left : eqb n 0 ≡ false = eqb_zero h in
    let low : ltb m half_word ≡ true = ltb_yes bound in
    let searched =
      FirstHealthy-of_Searched p.targets (m % n) nothing
        (search_loop nothing p.targets (pos (m % n)) 0 n) (mod-lt m h)
        (search_loop-Searched nothing p.targets (m % n) 0 n h) in
    rw (some_left, in_word, low) (refl, searched)

-- The hashed choice in a pool that has targets, and fewer than 2^32 of them, always returns a target:
-- the first healthy one from the position that the client's address gives, or the one at that
-- position if none is healthy.
pub ip_hash-FirstHealthy :
    (split_host : Text → Option Text) (remote : Text) (p : Pool)
    → 0 < length p.targets
    → length p.targets < 4294967296
    → let a = fnv32a (or_whole remote (split_host remote)) % length p.targets in
      FirstHealthy p.targets a (target a) (ip_hash split_host remote p)
unfolding ip_hash
ip_hash-FirstHealthy split_host remote p h small =
    let n = length p.targets in
    let a = fnv32a (or_whole remote (split_host remote)) % n in
    let some_left : eqb n 0 ≡ false = eqb_zero h in
    let in_word : n % 4294967296 ≡ n = mod-eq_of_lt small in
    rw (some_left, in_word, some_left)
      (FirstHealthy-of_Searched p.targets a (target a)
        (search_loop (target a) p.targets (pos a) 0 n) (mod-lt _ h)
        (search_loop-Searched (target a) p.targets a 0 n h))

first_panics :
    (ts : List Target) (n r : ℕ)
    → 0 < n
    → r ≢ 0
    → r < length ts
    → search_loop nothing ts (minus r) 0 n ≡ panics
unfolding search_loop rem_plus
first_panics ts zero r h odd lt = absurd (omega arith)
first_panics ts (suc n) zero h odd lt = absurd (odd refl)
first_panics ts (suc n) (suc r) h odd lt =
    let leb_no : leb (suc r) 0 ≡ false = grind arith in
    let e : rem_plus (negsuc r) 0 (length ts) ≡ negsuc r = rw leb_no (
      ap (λ (k : ℕ). minus (k % length ts)) {y = suc r} (omega arith)
      ∙ ap minus (mod-eq_of_lt lt)) in
    rw (search_loop, e) refl

-- From 2^63 calls on the index is read as a negative number: unless it is divisible by the number
-- of targets the choice panics.
pub round_robin_overflow :
    (p : Pool)
    → 0 < length p.targets
    → half_word ≤ p.index + 1
    → p.index + 1 < word
    → (word - (p.index + 1)) % length p.targets ≢ 0
    → (round_robin p).1 ≡ panics
unfolding round_robin rem_word search_loop rem_plus
round_robin_overflow p h big small odd =
    let n = length p.targets in
    let m : ℕ = p.index + 1 in
    let in_word : m % word ≡ m = mod-eq_of_lt small in
    let some_left : eqb n 0 ≡ false = eqb_zero h in
    let high : ltb m half_word ≡ false = ltb_no big in
    rw (some_left, in_word, high)
      (first_panics p.targets n ((word - m) % n) h odd (mod-lt (word - m) h))
