-- ===== src/Sidecar/Evaluate.antt =====
-- The decision of `handleEvaluate` apart from what it writes, and that the staged code follows it.
use waffynx.Http.{ResponseWriter, new_writer}
use waffynx.Plugin.{Context, execute, phase_pre_request}
use waffynx.Policy.{phase_request, lets_through, Request}
use waffynx.Rules.{NetLib}
use waffynx.Sidecar.{
  Sidecar, Call, Times, policy_request, plugin_context, features, respond_allow, respond_deny,
  record_learning,
}
use waffynx.Sidecar.Handle.{
  join, is_block, Answer, answer, scorer_stage, policy_stage, rules_stage, handle_evaluate,
  deny_call,
}
use waffynx.Policy
use waffynx.Rules
use waffynx.Appsec
use waffynx.Appsec.{Scorer}
use waffynx.Common.{
  eqb, if◌then◌else◌, Bool-cases, Text, txt, ◌≡◌, refl, ◌∙◌, inl, inr, not, Option, none, some, [],
  ◌++◌, arith,
}

-- `answered` is a plugin that failed after it had set a status, and so had answered by itself.
pub data Outcome : Type 0 where
  passed : Outcome
  denied : (rule_id reason : Text) → Outcome
  answered : (message : Text) → Outcome

-- The first of two objections.
abbrev pub first : Option (Text × Text) → Option (Text × Text) → Option (Text × Text)
first none b = b
first (some a) b = some a

unfoldable pub objection : Policy.Result → Option (Text × Text)
objection res = if lets_through res.action then none else some (res.rule_id, res.reason)

unfoldable pub scorer_objection : Option Appsec.Result → Option (Text × Text)
scorer_objection none = none
scorer_objection (some res) =
    if is_block res.verdict
    then some (txt "appsec-" ++ res.model_name, txt "ML anomaly: " ++ join res.reasons)
    else none

unfoldable pub as_outcome : Option (Text × Text) → Outcome
as_outcome none = passed
as_outcome (some (rule_id, reason)) = denied rule_id reason

pub record Decision (World : Type 0) : Type 0 where
  pub world : World
  pub writer : ResponseWriter
  pub outcome : Outcome

unfoldable pub rules_objection : NetLib → Request → Option Rules.Engine → Option (Text × Text)
unfolding objection
rules_objection lib req none = none
rules_objection lib req (some engine) = objection (Rules.evaluate lib req engine)

-- What is written for an outcome.
unfoldable pub respond : Outcome → ResponseWriter → ResponseWriter
respond passed w = respond_allow w
respond (denied rule_id reason) w = respond_deny rule_id reason w
respond (answered message) w = w

module _ {World : Type 0} where
  -- The scorer is asked only if neither the custom rules nor the policy engine objects.
  unfoldable pub score : Call → Option (Scorer World) → World → World × Option (Text × Text)
  score c none w = (w, none)
  score c (some scorer) w =
      let (world, result) = scorer.evaluate w (features c) in (world, scorer_objection result)

  -- With the objection of the rules or the policy engine, if there is one.
  unfoldable pub settle :
      Call → Sidecar World → World → ResponseWriter → Option (Text × Text) → Decision World
  unfolding score
  settle c s world w none =
      let scored = score c s.scorer world in
      record { world = scored.0; writer = w; outcome = as_outcome scored.1 }
  settle c s world w (some (rule_id, reason)) = record {
    world = world;
    writer = w;
    outcome = denied rule_id reason;
  }

  unfoldable pub decide : NetLib → Call → Sidecar World → Decision World
  unfolding rules_objection settle
  decide lib c s =
      let req = policy_request c in
      let (world, ctx, failed) =
        execute s.chain phase_pre_request s.world (plugin_context c new_writer) in
      elim failed [
        | some message ↦ record {
          world = world;
          writer = ctx.writer;
          outcome =
              if eqb ctx.status_code 0
              then denied (txt "plugin-chain") message
              else answered message;
        }
        | none ↦ settle c s world ctx.writer (
            first (rules_objection lib req s.rules) (objection (s.evaluator ctx phase_request req)))
      ]

  -- What is recorded for an outcome.
  unfoldable pub record_outcome : Outcome → Request → Times → Sidecar World → Option (Sidecar World)
  record_outcome passed req t s = record_learning req (txt "allow") [] [] t s
  record_outcome (denied rule_id reason) req t s =
      record_learning req (txt "block") rule_id reason t s
  record_outcome (answered message) req t s =
      record_learning req (txt "block") (txt "plugin-chain") message t s

  unfoldable pub finish : Call → Times → Sidecar World → Decision World → Answer World
  unfolding respond record_outcome answer
  finish c t s d =
      answer (respond d.outcome d.writer)
        (record_outcome d.outcome (policy_request c) t (record s { world = d.world }))

  scorer_stage-eq :
      (c : Call) (t : Times) (w : ResponseWriter) (s : Sidecar World)
      → scorer_stage c t w s
        ≡ finish c t s (record {
          world = (score c s.scorer s.world).0;
          writer = w;
          outcome = as_outcome (score c s.scorer s.world).1;
        })
  unfolding scorer_stage finish score as_outcome scorer_objection
  scorer_stage-eq c t w s = ground arith

  policy_stage-eq :
      (c : Call) (t : Times) (ctx : Context) (s : Sidecar World)
      → policy_stage c t ctx s
        ≡ finish c t s (
            settle c s s.world ctx.writer
              (objection (s.evaluator ctx phase_request (policy_request c))))
  unfolding policy_stage objection settle finish respond record_outcome deny_call
  policy_stage-eq c t ctx s =
      elim (Bool-cases (lets_through (s.evaluator ctx phase_request (policy_request c)).action)) [
        | inl ok ↦ rw (ok, policy_stage, objection) (scorer_stage-eq c t ctx.writer s)
        | inr no_entry ↦ rw (no_entry, policy_stage, objection) refl
      ]

  finish-settle_world :
      (c : Call) (t : Times) (world : World) (w : ResponseWriter) (s : Sidecar World)
      (o : Option (Text × Text))
      → finish c t (record s { world = world }) (settle c (record s { world = world }) world w o)
        ≡ finish c t s (settle c s world w o)
  unfolding finish settle
  finish-settle_world c t world w s none = refl
  finish-settle_world c t world w s (some x) = refl

  module _ (lib : NetLib) (c : Call) (t : Times) where
    -- The stage of the custom rules with its engine as an argument.
    by_rules : Option Rules.Engine → Context → Sidecar World → Answer World
    by_rules rules ctx s = elim rules [
      | none ↦ policy_stage c t ctx s
      | some engine ↦
          let result = Rules.evaluate lib (policy_request c) engine in
          if not (lets_through result.action)
          then deny_call (policy_request c) result.rule_id result.reason t ctx.writer s
          else policy_stage c t ctx s
    ]

    by_rules-eq :
        (rules : Option Rules.Engine) (ctx : Context) (s : Sidecar World)
        → by_rules rules ctx s
          ≡ finish c t s (
              settle c s s.world ctx.writer (
                first
                  (rules_objection lib (policy_request c) rules)
                  (objection (s.evaluator ctx phase_request (policy_request c)))))
    unfolding by_rules rules_objection
    by_rules-eq none ctx s = policy_stage-eq c t ctx s
    by_rules-eq (some engine) ctx s =
        elim (Bool-cases (lets_through (Rules.evaluate lib (policy_request c) engine).action)) [
          | inl ok ↦ rw (ok, by_rules, rules_objection, objection) (policy_stage-eq c t ctx s)
          | inr no_entry ↦
              rw (no_entry, by_rules, rules_objection, objection)
                (unfold finish settle respond record_outcome deny_call in refl)
        ]

    rules_stage-eq :
        (ctx : Context) (s : Sidecar World)
        → rules_stage lib c t ctx s
          ≡ finish c t s (
              settle c s s.world ctx.writer (
                first
                  (rules_objection lib (policy_request c) s.rules)
                  (objection (s.evaluator ctx phase_request (policy_request c)))))
    unfolding rules_stage by_rules
    rules_stage-eq ctx s = by_rules-eq s.rules ctx s

    -- What follows the plugins, with their result as an argument.
    by_plugins : World → Context → Option Text → Sidecar World → Answer World
    by_plugins world ctx failed s =
        let ran : Sidecar World = record s { world = world } in
        elim failed [
          | none ↦ rules_stage lib c t ctx ran
          | some message ↦
              let w =
                if eqb ctx.status_code 0
                then respond_deny (txt "plugin-chain") message ctx.writer
                else ctx.writer in
              answer w (
                record_learning (policy_request c) (txt "block") (txt "plugin-chain") message t ran)
        ]

    decide_after : World → Context → Option Text → Sidecar World → Decision World
    decide_after world ctx failed s = elim failed [
      | some message ↦ record {
        world = world;
        writer = ctx.writer;
        outcome =
            if eqb ctx.status_code 0 then denied (txt "plugin-chain") message else answered message;
      }
      | none ↦ settle c s world ctx.writer (
          first (rules_objection lib (policy_request c) s.rules)
            (objection (s.evaluator ctx phase_request (policy_request c))))
    ]

    by_plugins-eq :
        (world : World) (ctx : Context) (failed : Option Text) (s : Sidecar World)
        → by_plugins world ctx failed s ≡ finish c t s (decide_after world ctx failed s)
    unfolding by_plugins decide_after
    by_plugins-eq world ctx none s =
        rules_stage-eq ctx (record s { world = world })
        ∙ finish-settle_world c t world ctx.writer s (
            first (rules_objection lib (policy_request c) s.rules)
              (objection (s.evaluator ctx phase_request (policy_request c))))
    by_plugins-eq world ctx (some message) s = elim (Bool-cases (eqb ctx.status_code 0)) [
      | inl zero_code ↦ rw zero_code (unfold finish respond record_outcome in refl)
      | inr code ↦ rw code (unfold finish respond record_outcome in refl)
    ]

    -- The staged code decides by the first objection, then answers and records what was decided.
    pub handle_evaluate-eq-finish :
        (s : Sidecar World) → handle_evaluate lib c t s ≡ finish c t s (decide lib c s)
    unfolding handle_evaluate decide by_plugins decide_after
    handle_evaluate-eq-finish s =
        let ran = execute s.chain phase_pre_request s.world (plugin_context c new_writer) in
        by_plugins-eq ran.0 ran.1 ran.2 s
