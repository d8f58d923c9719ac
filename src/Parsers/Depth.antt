-- ===== src/Parsers/Depth.antt =====
-- The depth of a query, against the counts of its braces.
use waffynx.Parsers.Graphql.{plus_one, minus_one, larger, depth_loop, calculate_query_depth}
use waffynx.Common.{
  eqb, if◌then◌else◌, Bool-cases, take, Text, lower_byte, to_lower, ℤ, pos, negsuc, pos_part,
  neg_part, lt_int, ℕ, zero, suc, ◌+◌, ◌≤◌, ◌≡◌, refl, ap, ◌∙◌, ◌⊎◌, inl, inr, true, false, [], ◌∷◌,
  arith,
}

-- How often a byte stands in a text.
unfoldable pub count : ℕ → Text → ℕ
count b [] = 0
count b (c ∷ s) = let rest = count b s in if eqb c b then suc rest else rest

-- `a` is not greater than `b`, for the parts of integers.
Le : ℤ → ℤ → Type 0
Le a b = pos_part a + neg_part b ≤ pos_part b + neg_part a

-- From a depth, `s` leads to a depth not greater than `r`; it leads to `r`.
Below : ℤ → Text → ℤ → Type 0
Below d s r = pos_part d + count b'{' s + neg_part r ≤ pos_part r + count b'}' s + neg_part d

Reaches : ℤ → Text → ℤ → Type 0
Reaches d s r = pos_part d + count b'{' s + neg_part r ≡ pos_part r + count b'}' s + neg_part d

plus_one_lem : (d : ℤ) → pos_part (plus_one d) + neg_part d ≡ pos_part d + 1 + neg_part (plus_one d)
plus_one_lem (pos n) = omega arith
plus_one_lem (negsuc zero) = omega arith
plus_one_lem (negsuc (suc n)) = omega arith

minus_one_lem :
    (d : ℤ) → pos_part (minus_one d) + 1 + neg_part d ≡ pos_part d + neg_part (minus_one d)
minus_one_lem (pos zero) = omega arith
minus_one_lem (pos (suc n)) = omega arith
minus_one_lem (negsuc n) = omega arith

larger_lem : (a b : ℤ) → Le a (larger a b) × Le b (larger a b)
unfolding Le
larger_lem a b = elim (Bool-cases (lt_int b a)) [
  | inl e ↦ rw e (omega arith, ground arith)
  | inr e ↦ rw e (ground arith, omega arith)
]

larger_cases : (a b : ℤ) → (larger a b ≡ a) ⊎ (larger a b ≡ b)
larger_cases a b = elim (Bool-cases (lt_int b a)) [
  | inl e ↦ inl (rw e refl)
  | inr e ↦ inr (rw e refl)
]

-- How a byte changes the counts and the depth.
Changes : ℕ → ℤ → ℤ → Type 0
Changes c d d' =
    (t : Text)
    → pos_part d' + count b'}' (c ∷ t) + (count b'{' t + neg_part d)
      ≡ pos_part d + count b'{' (c ∷ t) + (count b'}' t + neg_part d')

opens-Changes : (c : ℕ) (d : ℤ) → eqb c b'{' ≡ true → Changes c d (plus_one d)
unfolding Changes count
opens-Changes c d e t =
    let no_close : eqb c b'}' ≡ false = ground arith in
    rw (e, no_close) (omega (arith, plus_one_lem d))

closes-Changes : (c : ℕ) (d : ℤ) → eqb c b'}' ≡ true → Changes c d (minus_one d)
unfolding Changes count
closes-Changes c d e t =
    let no_open : eqb c b'{' ≡ false = ground arith in
    rw (e, no_open) (omega (arith, minus_one_lem d))

other-Changes : (c : ℕ) (d : ℤ) → eqb c b'{' ≡ false → eqb c b'}' ≡ false → Changes c d d
unfolding Changes count
other-Changes c d e f t = rw (e, f) (omega arith)

Below-step :
    (c : ℕ) (s : Text) (d d' r : ℤ)
    → Changes c d d'
    → Le d r
    → ((k : ℕ) → Below d' (take k s) r)
    → (k : ℕ) → Below d (take k (c ∷ s)) r
unfolding Changes Below Le count
Below-step c s d d' r changes low below zero = omega (arith, low)
Below-step c s d d' r changes low below (suc k) =
    let turn = changes (take k s) in let rest = below k in omega (arith, turn, rest)

Reaches-step :
    (c : ℕ) (s : Text) (d d' r : ℤ) (k : ℕ)
    → Changes c d d'
    → Reaches d' (take k s) r
    → Reaches d (take (suc k) (c ∷ s)) r
unfolding Changes Reaches
Reaches-step c s d d' r k changes reach =
    let turn = changes (take k s) in omega (arith, turn, reach)

Le-trans : (a b c : ℤ) → Le a b → Le b c → Le a c
unfolding Le
Le-trans a b c h1 h2 = omega (arith, h1, h2)

Le-minus : (d m : ℤ) → Le d m → Le (minus_one d) m
unfolding Le
Le-minus d m h = omega (arith, minus_one_lem d)

Le-plus : (d m : ℤ) → Le (plus_one d) m → Le d m
unfolding Le
Le-plus d m h = omega (arith, plus_one_lem d)

Le-refl : (m : ℤ) → Le m m
unfolding Le
Le-refl m = omega arith

nil-Below : (d m : ℤ) → Le d m → (k : ℕ) → Below d (take k []) m
unfolding Below Le count
nil-Below d m h zero = omega arith
nil-Below d m h (suc k) = omega arith

-- The result is not below what it began with, and not below the depth of any part read.
Upper : ℤ → ℤ → Text → ℤ → Type 0
Upper d m s r = Le m r × ((k : ℕ) → Below d (take k s) r)

loop-Upper : (s : Text) (d m : ℤ) → Le d m → Upper d m s (depth_loop d m s)
unfolding depth_loop Upper
loop-Upper [] d m h = (Le-refl m, nil-Below d m h)
loop-Upper (c ∷ s) d m h = elim (Bool-cases (eqb c b'{')) [
  | inl opened ↦
      let up = larger_lem (plus_one d) m in
      let r = depth_loop (plus_one d) (larger (plus_one d) m) s in
      let (above, parts) = loop-Upper s (plus_one d) (larger (plus_one d) m) up.0 in
      let low = Le-plus d r (Le-trans (plus_one d) (larger (plus_one d) m) r up.0 above) in
      rw opened (
        Le-trans m (larger (plus_one d) m) r up.1 above,
        Below-step c s d (plus_one d) r (opens-Changes c d opened) low parts,
      )
  | inr not_opened ↦ elim (Bool-cases (eqb c b'}')) [
    | inl closed ↦
        let r = depth_loop (minus_one d) m s in
        let (above, parts) = loop-Upper s (minus_one d) m (Le-minus d m h) in
        rw (not_opened, closed)
          (
            above,
            Below-step c s d (minus_one d) r (closes-Changes c d closed) (Le-trans d m r h above)
                parts,
          )
    | inr same ↦
        let r = depth_loop d m s in
        let (above, parts) = loop-Upper s d m h in
        rw (not_opened, same)
          (
            above,
            Below-step c s d d r (other-Changes c d not_opened same) (Le-trans d m r h above) parts,
          )
  ]
]

here : (d r : ℤ) (s : Text) → r ≡ d → Reaches d (take 0 s) r
unfolding Reaches count
here d r s e = rw e (omega arith)

-- The result is what it began with, or the depth of a part read.
loop-Reaches :
    (s : Text) (d m : ℤ)
    → (depth_loop d m s ≡ m) ⊎ ((k : ℕ) × Reaches d (take k s) (depth_loop d m s))
unfolding depth_loop
loop-Reaches [] d m = inl refl
loop-Reaches (c ∷ s) d m = elim (Bool-cases (eqb c b'{')) [
  | inl opened ↦
      let most = larger (plus_one d) m in
      let r = depth_loop (plus_one d) most s in
      let turn = opens-Changes c d opened in
      rw opened (elim (loop-Reaches s (plus_one d) most) [
        | inl start ↦ elim (larger_cases (plus_one d) m) [
          | inl first ↦
              inr (
                1,
                Reaches-step c s d (plus_one d) r 0 turn (here (plus_one d) r s (start ∙ first)),
              )
          | inr old ↦ inl (start ∙ old)
        ]
        | inr (k, reach) ↦ inr (suc k, Reaches-step c s d (plus_one d) r k turn reach)
      ])
  | inr not_opened ↦ elim (Bool-cases (eqb c b'}')) [
    | inl closed ↦
        let r = depth_loop (minus_one d) m s in
        rw (not_opened, closed)
          (elim (loop-Reaches s (minus_one d) m) [
            | inl start ↦ inl start
            | inr (k, reach) ↦
                inr (suc k, Reaches-step c s d (minus_one d) r k (closes-Changes c d closed) reach)
          ])
    | inr same ↦
        let r = depth_loop d m s in
        rw (not_opened, same)
          (elim (loop-Reaches s d m) [
            | inl start ↦ inl start
            | inr (k, reach) ↦
                inr (suc k, Reaches-step c s d d r k (other-Changes c d not_opened same) reach)
          ])
  ]
]

count-lower :
    (k : ℕ) (s : Text)
    → (count b'{' (take k (to_lower s)) ≡ count b'{' (take k s))
      × (count b'}' (take k (to_lower s)) ≡ count b'}' (take k s))
unfolding count
count-lower zero s = (refl, refl)
count-lower (suc k) [] = (refl, refl)
count-lower (suc k) (c ∷ s) =
    let rest = count-lower k s in
    let same_open : eqb (lower_byte c) b'{' ≡ eqb c b'{' = ground arith in
    let same_close : eqb (lower_byte c) b'}' ≡ eqb c b'}' = ground arith in
    rw (same_open, same_close, rest.0, rest.1) (refl, refl)

no_negative : (r : ℤ) → Le (pos 0) r → neg_part r ≡ 0
unfolding Le
no_negative (pos n) h = refl
no_negative (negsuc n) h = omega (arith, h)

nonnegative : (r : ℤ) → neg_part r ≡ 0 → r ≡ pos (pos_part r)
nonnegative (pos n) h = refl
nonnegative (negsuc n) h = cc h

-- The depth of a query is the greatest surplus of opening over closing braces in a part that it
-- begins with: no part has a greater one, and some part has it.
pub calculate_query_depth_lem :
    (query : Text)
    → (n : ℕ) × (calculate_query_depth query ≡ pos n)
      × ((k : ℕ) → count b'{' (take k query) ≤ n + count b'}' (take k query))
      × ((k : ℕ) × (count b'{' (take k query) ≡ n + count b'}' (take k query)))
unfolding calculate_query_depth Upper Below Reaches Le count
calculate_query_depth_lem query =
    let s = to_lower query in
    let r = depth_loop (pos 0) (pos 0) s in
    let (above, parts) = loop-Upper s (pos 0) (pos 0) (Le-refl (pos 0)) in
    let positive = no_negative r above in
    (
      pos_part r,
      nonnegative r positive,
      λ k.
          let low = parts k in
          let (o, c) = count-lower k query in omega (arith, low, o, c, positive),
      (elim (loop-Reaches s (pos 0) (pos 0)) [
        | inl start ↦ (0, omega (arith, ap pos_part start))
        | inr (k, reach) ↦
            let (o, c) = count-lower k query in (k, omega (arith, reach, o, c, positive))
      ]),
    )
