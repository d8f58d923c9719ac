-- ===== src/Sidecar/Handle.antt =====
-- internal/engine/sidecar.go, `handleEvaluate`: the plugins, the custom rules, the policy engine
-- and the scorer in turn. The writer is one object, which the plugins' context holds too.
use waffynx.Http.{ResponseWriter, new_writer}
use waffynx.Plugin.{Context, execute, phase_pre_request}
use waffynx.Policy.{phase_request, lets_through, Request}
use waffynx.Rules.{NetLib}
use waffynx.Sidecar.{
  Sidecar, Call, Times, policy_request, plugin_context, features, respond_allow, respond_deny,
  record_learning,
}
use waffynx.Rules
use waffynx.Appsec
use waffynx.Common.{
  eqb, if◌then◌else◌, Text, txt, Bool, true, false, not, Option, none, some, List, [], ◌∷◌, ◌++◌,
}

-- strings.Join(parts, "; ").
unfoldable pub join : List Text → Text
join [] = []
join (p ∷ []) = p
join (p ∷ q ∷ ps) = p ++ (txt "; " ++ join (q ∷ ps))

unfoldable pub is_block : Appsec.Verdict → Bool
is_block Appsec.Verdict.block = true
is_block _ = false

-- The answer and the sidecar after the call; `none` is a panic.
abbrev pub Answer : Type 0 → Type 0
Answer World = Option (ResponseWriter × Sidecar World)

module _ {World : Type 0} where
  unfoldable pub answer : ResponseWriter → Option (Sidecar World) → Answer World
  answer w none = none
  answer w (some s) = some (w, s)

  -- `respondDeny`, `recordLearning` and `return`.
  unfoldable pub deny_call :
      Request → Text → Text → Times → ResponseWriter → Sidecar World → Answer World
  unfolding answer
  deny_call req rule_id reason t w s =
      answer (respond_deny rule_id reason w) (record_learning req (txt "block") rule_id reason t s)

  unfoldable pub allow_call : Request → Times → ResponseWriter → Sidecar World → Answer World
  unfolding answer
  allow_call req t w s = answer (respond_allow w) (record_learning req (txt "allow") [] [] t s)

  -- Stage 3. A scorer that fails lets the request pass.
  unfoldable pub scorer_stage : Call → Times → ResponseWriter → Sidecar World → Answer World
  unfolding is_block join deny_call allow_call
  scorer_stage c t w s =
      let req = policy_request c in
      elim s.scorer [
        | none ↦ allow_call req t w s
        | some scorer ↦
            let (world, result) = scorer.evaluate s.world (features c) in
            let scored : Sidecar World = record s { world = world } in
            elim result [
              | none ↦ allow_call req t w scored
              | some res ↦
                  if is_block res.verdict
                  then deny_call req (txt "appsec-" ++ res.model_name)
                      (txt "ML anomaly: " ++ join res.reasons) t w scored
                  else allow_call req t w scored
            ]
      ]

  -- Stage 2.
  unfoldable pub policy_stage : Call → Times → Context → Sidecar World → Answer World
  unfolding scorer_stage
  policy_stage c t ctx s =
      let req = policy_request c in
      let result = s.evaluator ctx phase_request req in
      if not (lets_through result.action)
      then deny_call req result.rule_id result.reason t ctx.writer s
      else scorer_stage c t ctx.writer s

  module _ (lib : NetLib) where
    unfoldable pub rules_stage : Call → Times → Context → Sidecar World → Answer World
    unfolding policy_stage
    rules_stage c t ctx s =
        let req = policy_request c in
        elim s.rules [
          | none ↦ policy_stage c t ctx s
          | some engine ↦
              let result = Rules.evaluate lib req engine in
              if not (lets_through result.action)
              then deny_call req result.rule_id result.reason t ctx.writer s
              else policy_stage c t ctx s
        ]

    unfoldable pub handle_evaluate : Call → Times → Sidecar World → Answer World
    unfolding rules_stage
    handle_evaluate c t s =
        let req = policy_request c in
        let (world, ctx, failed) =
          execute s.chain phase_pre_request s.world (plugin_context c new_writer) in
        let ran : Sidecar World = record s { world = world } in
        elim failed [
          | none ↦ rules_stage c t ctx ran
          | some message ↦
              let w =
                if eqb ctx.status_code 0
                then respond_deny (txt "plugin-chain") message ctx.writer
                else ctx.writer in
              answer w (record_learning req (txt "block") (txt "plugin-chain") message t ran)
        ]
