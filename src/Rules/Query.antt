-- ===== src/Rules/Query.antt =====
-- The query part of a rule against a plain reading of the query string.
use waffynx.Common.Split.{split, after_first, split-cut, cut_shorter}
use waffynx.Http.{or_empty}
use waffynx.Rules.{CustomRule, query_loop, query_matches}
use waffynx.Common.{
  if◌then◌else◌, Bool-cases, Option-cases, length, Text, text_beq, is_empty, cut, ℕ, zero, suc, ◌+◌,
  ◌<◌, ◌≡◌, refl, ap, ◌∙◌, inl, inr, Bool, false, not, ◌&&◌, ◌||◌, Option, none, some, List, [],
  ◌∷◌, arith,
}

-- The value of the first `key=value` piece with the key.
pub first_value : Text → List Text → Option Text
first_value key [] = none
first_value key (p ∷ ps) =
    let rest = first_value key ps in
    elim (cut b'=' p).1 [
      | none ↦ rest
      | some v ↦ if text_beq (cut b'=' p).0 key then some v else rest
    ]

-- What the rule asks of that value.
pub value_passes : CustomRule → Option Text → Bool
value_passes rule none = false
value_passes rule (some v) = is_empty rule.query_value || text_beq v rule.query_value

passes_test :
    (rule : CustomRule) (v : Text)
    → not (not (is_empty rule.query_value) && not (text_beq v rule.query_value))
      ≡ value_passes rule (some v)
unfolding value_passes
passes_test rule v = ground arith

query_loop-step :
    (fuel : ℕ) (rule : CustomRule) (c : ℕ) (s : Text) (pieces : List Text)
    → query_loop fuel rule (or_empty (cut b'&' (c ∷ s)).1)
      ≡ some (value_passes rule (first_value rule.query_param pieces))
    → query_loop (suc fuel) rule (c ∷ s)
      ≡ some (value_passes rule (first_value rule.query_param ((cut b'&' (c ∷ s)).0 ∷ pieces)))
unfolding query_loop first_value
query_loop-step fuel rule c s pieces h = elim (Option-cases (cut b'=' (cut b'&' (c ∷ s)).0).1) [
  | inl e ↦ rw (e, query_loop, first_value) h
  | inr (v, e) ↦ elim (Bool-cases (text_beq (cut b'=' (cut b'&' (c ∷ s)).0).0 rule.query_param)) [
    | inl k ↦ rw (e, query_loop, first_value) (rw k (ap some (passes_test rule v)))
    | inr k ↦ rw (e, query_loop, first_value) (rw k h)
  ]
]

-- What the loop does with the text behind the first pair, from what it does with shorter texts.
query_loop-after :
    (fuel : ℕ) (rule : CustomRule) (n : ℕ) (o : Option Text)
    → ((r : Text) → o ≡ some r → length r < n)
    → 0 < n
    → ((q : Text)
        → length q < n
        → query_loop fuel rule q
          ≡ some (value_passes rule (first_value rule.query_param (split b'&' q))))
    → query_loop fuel rule (or_empty o)
      ≡ some (value_passes rule (first_value rule.query_param (after_first b'&' o)))
unfolding or_empty after_first
query_loop-after fuel rule n none short room ih =
    ih [] room ∙ (unfold value_passes first_value split cut in refl)
query_loop-after fuel rule n (some r) short room ih = ih r (short r refl)

-- With more fuel than bytes the loop ends, with the reading of the first matching piece.
pub query_loop_lem :
    (fuel : ℕ) (rule : CustomRule) (q : Text)
    → length q < fuel
    → query_loop fuel rule q
      ≡ some (value_passes rule (first_value rule.query_param (split b'&' q)))
query_loop_lem zero rule q h = elim h [ ]
query_loop_lem (suc fuel) rule [] h = unfold query_loop value_passes first_value split cut in refl
query_loop_lem (suc fuel) rule (c ∷ s) h = rw (split-cut b'&' (c ∷ s)) (
    query_loop-step fuel rule c s (after_first b'&' (cut b'&' (c ∷ s)).1) (
      query_loop-after fuel rule (length (c ∷ s)) (cut b'&' (c ∷ s)).1 (cut_shorter b'&' (c ∷ s))
        (omega arith) (λ q shorter. query_loop_lem fuel rule q (omega arith))))

-- The text behind the first `?`.
pub query_of : Text → Option Text
query_of path = (cut b'?' path).1

pub passes_query : CustomRule → Option Text → Bool
passes_query rule none = false
passes_query rule (some q) = value_passes rule (first_value rule.query_param (split b'&' q))

-- A query condition holds exactly if the path has a query string in which the first piece
-- `key=value` with the rule's key has the rule's value, or any value if the rule gives none.
pub query_matches_lem :
    (rule : CustomRule) (path : Text) → query_matches rule path ≡ passes_query rule (query_of path)
unfolding query_matches query_of passes_query
query_matches_lem rule path = elim (Option-cases (cut b'?' path).1) [
  | inl e ↦ rw (e, query_matches, passes_query)
  | inr (q, e) ↦
      rw (e, query_matches, passes_query) (rw (query_loop_lem (length q + 1) rule q (omega arith)))
]
