-- ===== src/Rules/First.antt =====
-- Which custom rule decides a request.
use waffynx.Rules.{
  NetLib, CustomRule, Engine, remove_first, remove_rule, match_rule, evaluate_loop, evaluate,
}
use waffynx.Policy.{Request, Result, allowed}
use waffynx.Common.{
  if◌then◌else◌, Bool-cases, All, text_beq_iff, ◌≡◌, refl, sym, ap, subst, ◌∙◌, ◌≢◌, inl, inr, true,
  ◌&&◌, List, [], ◌∷◌, ◌++◌, arith,
}

module _ (lib : NetLib) where
  abbrev pub Fires : Request → CustomRule → Type 0
  Fires req r = (r.enabled ≡ true) × (match_rule lib r req ≡ true)

  -- No rule fires, or one does and none before it.
  pub data Verdict (req : Request) (rules : List CustomRule) (res : Result) : Type 0 where
    by_default : All (λ r. ¬ Fires req r) rules → res ≡ allowed → Verdict req rules res
    by_rule :
        (before : List CustomRule) (r : CustomRule) (after : List CustomRule)
        → rules ≡ before ++ r ∷ after
        → All (λ q. ¬ Fires req q) before
        → Fires req r
        → res ≡ record { action = r.action; rule_id = r.id; reason = r.description }
        → Verdict req rules res

  Verdict-cons :
      (req : Request) (q : CustomRule) (rules : List CustomRule) (res : Result)
      → ¬ Fires req q
      → Verdict req rules res
      → Verdict req (q ∷ rules) res
  Verdict-cons req q rules res h (by_default all e) = by_default (h, all) e
  Verdict-cons req q rules res h (by_rule before r after same all fires e) =
      by_rule (q ∷ before) r after (ap (◌∷◌ q) same) (h, all) fires e

  evaluate_loop-cons :
      (req : Request) (r : CustomRule) (rs : List CustomRule)
      → evaluate_loop lib req (r ∷ rs) ≡ (
          if r.enabled && match_rule lib r req
          then record { action = r.action; rule_id = r.id; reason = r.description }
          else evaluate_loop lib req rs)
  unfolding evaluate_loop
  evaluate_loop-cons req r rs = ground arith

  evaluate_loop-Verdict :
      (req : Request) (rules : List CustomRule) → Verdict req rules (evaluate_loop lib req rules)
  evaluate_loop-Verdict req [] = by_default tt (unfold evaluate_loop in refl)
  evaluate_loop-Verdict req (r ∷ rs) =
      let step = evaluate_loop-cons req r rs in
      elim (Bool-cases (r.enabled && match_rule lib r req)) [
        | inl hit ↦ by_rule [] r rs refl tt (ground arith, ground arith) (step ∙ rw hit)
        | inr miss ↦ subst (Verdict req (r ∷ rs)) (sym (step ∙ rw miss)) (
            Verdict-cons req r rs (evaluate_loop lib req rs) (λ f. ground (arith, f.0, f.1))
              (evaluate_loop-Verdict req rs))
      ]

  -- The answer comes from the first rule, in the order in which the rules were added, that is on
  -- and matches the request; with no such rule it is the plain `allow`.
  pub evaluate_first_custom_rule :
      (req : Request) (e : Engine) → Verdict req e.rules (evaluate lib req e)
  unfolding evaluate
  evaluate_first_custom_rule req e = evaluate_loop-Verdict req e.rules

-- Removing the id of a rule takes out the first rule that has it, and no other.
pub remove_custom_rule_lem :
    (before : List CustomRule) (r : CustomRule) (after : List CustomRule)
    → All (λ q. q.id ≢ r.id) before
    → remove_rule r.id (record { rules = before ++ r ∷ after }) ≡ record { rules = before ++ after }
unfolding remove_rule remove_first
remove_custom_rule_lem [] r after h = rw ((text_beq_iff r.id r.id).1 refl)
remove_custom_rule_lem (q ∷ before) r after h =
    ground (arith, text_beq_iff q.id r.id, remove_custom_rule_lem before r after h.1)
