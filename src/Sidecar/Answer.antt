-- ===== src/Sidecar/Answer.antt =====
-- When the sidecar lets a request pass, and what each answer leaves in its records.
use waffynx.Http.{ResponseWriter, new_writer}
use waffynx.Plugin.{Context, execute, phase_pre_request}
use waffynx.Policy.{Request, phase_request, lets_through}
use waffynx.Rules.{NetLib}
use waffynx.Sidecar.{Sidecar, Call, policy_request, plugin_context, features}
use waffynx.Sidecar.Handle.{is_block}
use waffynx.Sidecar.Evaluate.{
  passed, first, objection, scorer_objection, as_outcome, rules_objection, score, settle, denied,
  answered, decide,
}
use waffynx.Sidecar.Recorded.{OnSome}
use waffynx.Rules
use waffynx.Appsec
use waffynx.Policy
use waffynx.Appsec.{Scorer}
use waffynx.Common.{
  eqb, if◌then◌else◌, Option-cases, Text, txt, ◌≡◌, refl, ◌≢◌, ◌↔◌, inl, inr, true, false, Option,
  none, some, arith,
}

module _ {World : Type 0} (lib : NetLib) (c : Call) (s : Sidecar World) where
  -- What the plugins leave: the world, the context and an error.
  abbrev pub after_plugins : World × Context × Option Text
  after_plugins = execute s.chain phase_pre_request s.world (plugin_context c new_writer)

  abbrev pub ScorerPasses : World → Scorer World → Type 0
  ScorerPasses world scorer =
      OnSome (λ (res : Appsec.Result). res.verdict ≢ Appsec.Verdict.block)
        (scorer.evaluate world (features c)).1

  -- No plugin fails, neither the custom rules nor the policy engine answers anything but `allow`
  -- and `log`, and the scorer fails or does not answer `block`.
  pub record Passes : Type 0 where
    pub plugins : after_plugins.2 ≡ none
    pub rules :
        OnSome
          (λ engine. lets_through (Rules.evaluate lib (policy_request c) engine).action ≡ true)
          s.rules
    pub policy :
        lets_through (s.evaluator after_plugins.1 phase_request (policy_request c)).action ≡ true
    pub scorer : OnSome (ScorerPasses after_plugins.0) s.scorer

is_block_iff : (v : Appsec.Verdict) → (is_block v ≡ false) ↔ (v ≢ Appsec.Verdict.block)
unfolding is_block
is_block_iff Appsec.Verdict.allow = ((λ _ e. cc), λ _. refl)
is_block_iff Appsec.Verdict.block = ((λ h. cc), λ h. absurd (h refl))
is_block_iff Appsec.Verdict.suspicious = ((λ _ e. cc), λ _. refl)
is_block_iff (Appsec.Verdict.other t) = ((λ _ e. cc), λ _. refl)

objection_iff : (res : Policy.Result) → (objection res ≡ none) ↔ (lets_through res.action ≡ true)
unfolding objection
objection_iff res = ground arith

rules_objection_iff :
    (lib : NetLib) (req : Request) (rules : Option Rules.Engine)
    → (rules_objection lib req rules ≡ none)
      ↔ OnSome (λ engine. lets_through (Rules.evaluate lib req engine).action ≡ true) rules
unfolding rules_objection
rules_objection_iff lib req none = ((λ _. tt), λ _. refl)
rules_objection_iff lib req (some engine) = objection_iff (Rules.evaluate lib req engine)

scorer_objection_iff :
    (o : Option Appsec.Result)
    → (scorer_objection o ≡ none)
      ↔ OnSome (λ (res : Appsec.Result). res.verdict ≢ Appsec.Verdict.block) o
unfolding scorer_objection
scorer_objection_iff none = ((λ _. tt), λ _. refl)
scorer_objection_iff (some res) = ground (arith, is_block_iff res.verdict)

as_outcome_iff : (o : Option (Text × Text)) → (as_outcome o ≡ passed) ↔ (o ≡ none)
unfolding as_outcome
as_outcome_iff none = ((λ _. refl), λ _. refl)
as_outcome_iff (some x) = ((λ h. cc), λ h. cc)

module _ {World : Type 0} where
  score_iff :
      (c : Call) (o : Option (Scorer World)) (world : World)
      → ((score c o world).1 ≡ none)
        ↔ OnSome
            (λ (scorer : Scorer World).
              OnSome
                (λ (res : Appsec.Result). res.verdict ≢ Appsec.Verdict.block)
                (scorer.evaluate world (features c)).1)
            o
  unfolding score
  score_iff c none world = ((λ _. tt), λ _. refl)
  score_iff c (some scorer) world = scorer_objection_iff (scorer.evaluate world (features c)).1

  settle_iff :
      (c : Call) (s : Sidecar World) (world : World) (w : ResponseWriter) (o : Option (Text × Text))
      → ((settle c s world w o).outcome ≡ passed)
        ↔ ((o ≡ none) × ((score c s.scorer world).1 ≡ none))
  unfolding settle
  settle_iff c s world w none = ground (arith, as_outcome_iff (score c s.scorer world).1)
  settle_iff c s world w (some x) = ((λ h. cc), λ h. cc h.0)

first_iff : (a b : Option (Text × Text)) → (first a b ≡ none) ↔ ((a ≡ none) × (b ≡ none))
first_iff a b = ground arith

module _ {World : Type 0} (lib : NetLib) (c : Call) (s : Sidecar World) where
  -- The requests that pass are those that meet every condition of `Passes`.
  pub decide_passed_iff : ((decide lib c s).outcome ≡ passed) ↔ Passes lib c s
  unfolding decide
  decide_passed_iff = elim (Option-cases ran.2) [
    | inr (message, e) ↦
        ((λ h. absurd (not_passed message (rw (e, decide) at h))), λ p. cc (e, p.plugins))
    | inl e ↦ rw (e, decide) (ok_to e, ok_from)
  ]
    where
      ran : World × Context × Option Text
      ran = after_plugins lib c s

      both : Option (Text × Text)
      both =
          first (rules_objection lib (policy_request c) s.rules)
            (objection (s.evaluator ran.1 phase_request (policy_request c)))

      not_passed :
          (message : Text)
          → (if eqb ran.1.status_code 0
              then denied (txt "plugin-chain") message
              else answered message)
            ≢ passed
      not_passed message h = ground arith

      ok_to : ran.2 ≡ none → (settle c s ran.0 ran.1.writer both).outcome ≡ passed → Passes lib c s
      ok_to e h =
          let (clear, scored) = (settle_iff c s ran.0 ran.1.writer both).0 h in
          let (rules, policy) =
            (first_iff (rules_objection lib (policy_request c) s.rules)
                (objection (s.evaluator ran.1 phase_request (policy_request c)))).0
              clear in
          record {
            plugins = e;
            rules = (rules_objection_iff lib (policy_request c) s.rules).0 rules;
            policy = (objection_iff (s.evaluator ran.1 phase_request (policy_request c))).0 policy;
            scorer = (score_iff c s.scorer ran.0).0 scored;
          }

      ok_from : Passes lib c s → (settle c s ran.0 ran.1.writer both).outcome ≡ passed
      ok_from p = (settle_iff c s ran.0 ran.1.writer both).1 (
        (first_iff (rules_objection lib (policy_request c) s.rules)
              (objection (s.evaluator ran.1 phase_request (policy_request c)))).1
            (
              (rules_objection_iff lib (policy_request c) s.rules).1 p.rules,
              (objection_iff (s.evaluator ran.1 phase_request (policy_request c))).1 p.policy,
            ),
        (score_iff c s.scorer ran.0).1 p.scorer,
      )

  settle-writer :
      (world : World) (w : ResponseWriter) (o : Option (Text × Text))
      → (settle c s world w o).writer ≡ w
  unfolding settle
  settle-writer world w none = refl
  settle-writer world w (some x) = refl

  -- The decision leaves the response as the plugins left it.
  pub decide-writer : (decide lib c s).writer ≡ (after_plugins lib c s).1.writer
  unfolding decide
  decide-writer = elim (Option-cases (after_plugins lib c s).2) [
    | inr (message, e) ↦ rw (e, decide) refl
    | inl e ↦
        rw (e, decide)
          (settle-writer (after_plugins lib c s).0 (after_plugins lib c s).1.writer (
            first (rules_objection lib (policy_request c) s.rules)
              (objection (s.evaluator (after_plugins lib c s).1 phase_request (policy_request c)))))
  ]
