-- ===== src/Policy/First.antt =====
-- Which rule decides a request.
use waffynx.Policy.{
  Phase, Request, Result, allowed, Rule, calls_match, evaluate_loop, RuleEngine, remove_first,
  remove_rule, evaluate,
}
use waffynx.Common.{
  if◌then◌else◌, Bool-cases, All, ℤ, text_beq, text_beq_iff, ◌≡◌, refl, sym, ap, subst, ◌∙◌, ◌≢◌,
  ◌↔◌, inl, inr, Bool, true, ◌&&◌, Option, none, some, List, [], ◌∷◌, ◌++◌, arith,
}

-- The rule is on, is for the phase, and its function accepts the request.
abbrev pub Applies : Phase → Request → Rule → Type 0
Applies phase req r =
    (r.enabled ≡ true)
    × (r.phase ≡ phase)
    × ((f : Request → Bool) × (r.match ≡ some f) × (f req ≡ true))

-- How a list of rules decides: no rule applies, or one does and none before it.
pub data Decision (phase : Phase) (req : Request) (rules : List Rule) (res : Result) : Type 0 where
  by_default : All (λ r. ¬ Applies phase req r) rules → res ≡ allowed → Decision phase req rules res
  by_rule :
      (before : List Rule) (r : Rule) (after : List Rule)
      → rules ≡ before ++ r ∷ after
      → All (λ q. ¬ Applies phase req q) before
      → Applies phase req r
      → res ≡ record { action = r.action; rule_id = r.id; reason = r.reason }
      → Decision phase req rules res

Decision-cons :
    (phase : Phase) (req : Request) (q : Rule) (rules : List Rule) (res : Result)
    → ¬ Applies phase req q
    → Decision phase req rules res
    → Decision phase req (q ∷ rules) res
Decision-cons phase req q rules res h (by_default all e) = by_default (h, all) e
Decision-cons phase req q rules res h (by_rule before r after same all applies e) =
    by_rule (q ∷ before) r after (ap (◌∷◌ q) same) (h, all) applies e

-- The condition as the loop computes it.
decides : Phase → Request → Rule → Bool
decides phase req r = r.enabled && (text_beq r.phase phase && calls_match r.match req)

calls_match_iff :
    (m : Option (Request → Bool)) (req : Request)
    → (calls_match m req ≡ true) ↔ ((f : Request → Bool) × (m ≡ some f) × (f req ≡ true))
unfolding calls_match
calls_match_iff none req = ((λ h. cc), λ h. absurd (cc h.1))
calls_match_iff (some g) req = ((λ h. (g, refl, h)), λ h. ground (arith, h.1, h.2))

decides_iff :
    (phase : Phase) (req : Request) (r : Rule) → (decides phase req r ≡ true) ↔ Applies phase req r
unfolding decides
decides_iff phase req r = (to, from)
  where
    to :
        (r.enabled && (text_beq r.phase phase && calls_match r.match req)) ≡ true
        → Applies phase req r
    to h = (
      ground arith,
      (text_beq_iff r.phase phase).0 (ground arith),
      (calls_match_iff r.match req).0 (ground arith),
    )

    from :
        Applies phase req r
        → (r.enabled && (text_beq r.phase phase && calls_match r.match req)) ≡ true
    from a = rw (a.0, (text_beq_iff r.phase phase).1 a.1) ((calls_match_iff r.match req).1 a.2)

evaluate_loop-cons :
    (phase : Phase) (req : Request) (r : Rule) (rs : List Rule)
    → evaluate_loop phase req (r ∷ rs) ≡ (
        if decides phase req r
        then record { action = r.action; rule_id = r.id; reason = r.reason }
        else evaluate_loop phase req rs)
unfolding evaluate_loop decides
evaluate_loop-cons phase req r rs = ground arith

evaluate_loop-Decision :
    (phase : Phase) (req : Request) (rules : List Rule)
    → Decision phase req rules (evaluate_loop phase req rules)
unfolding evaluate_loop
evaluate_loop-Decision phase req [] = by_default tt refl
evaluate_loop-Decision phase req (r ∷ rs) = elim (Bool-cases (decides phase req r)) [
  | inl hit ↦
      by_rule [] r rs refl tt ((decides_iff phase req r).0 hit)
        (evaluate_loop-cons phase req r rs ∙ rw hit)
  | inr miss ↦
      subst (Decision phase req (r ∷ rs)) (sym (evaluate_loop-cons phase req r rs ∙ rw miss)) (
        Decision-cons phase req r rs (evaluate_loop phase req rs)
          (λ a. absurd (cc ((decides_iff phase req r).1 a, miss)))
          (evaluate_loop-Decision phase req rs))
]

-- The engine's answer comes from the first rule, in the order in which the rules were added, that
-- is on, is for the phase and accepts the request; with no such rule it is the plain `allow`.
pub evaluate_first_match :
    (phase : Phase) (req : Request) (e : RuleEngine)
    → Decision phase req e.rules (evaluate phase req e)
unfolding evaluate
evaluate_first_match phase req e = evaluate_loop-Decision phase req e.rules

-- The same rules with other priorities.
abbrev pub reprioritise : (Rule → ℤ) → List Rule → List Rule
reprioritise f [] = []
reprioritise f (r ∷ rs) = record r { priority = f r } ∷ reprioritise f rs

-- The field `Priority` has no effect: whatever priorities are put in, the answer is the same.
pub evaluate-reprioritise :
    (f : Rule → ℤ) (phase : Phase) (req : Request) (rules : List Rule)
    → evaluate phase req (record { rules = reprioritise f rules })
      ≡ evaluate phase req (record { rules = rules })
unfolding evaluate evaluate_loop
evaluate-reprioritise f phase req [] = refl
evaluate-reprioritise f phase req (r ∷ rs) = ground (arith, evaluate-reprioritise f phase req rs)

-- Removing the id of a rule takes out the first rule that has it, and no other.
pub remove_rule_lem :
    (before : List Rule) (r : Rule) (after : List Rule)
    → All (λ q. q.id ≢ r.id) before
    → remove_rule r.id (record { rules = before ++ r ∷ after }) ≡ record { rules = before ++ after }
unfolding remove_rule remove_first
remove_rule_lem [] r after h = rw ((text_beq_iff r.id r.id).1 refl)
remove_rule_lem (q ∷ before) r after h =
    ground (arith, text_beq_iff q.id r.id, remove_rule_lem before r after h.1)
