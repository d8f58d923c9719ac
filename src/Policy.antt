-- ===== src/Policy.antt =====
-- internal/policy/policy.go and engine.go: requests, results and the engine that runs rules with a
-- Go function for their condition. `Result.Score` and `Result.Metadata` are never set by the code
-- modelled here and are left out, and so is logging. A method under the lock is one step.
pub mod First
pub mod Tests
use waffynx.Common.{
  if◌then◌else◌, ℤ, Map, Text, txt, text_beq, Bool, true, false, not, ◌||◌, Option, none, some,
  List, [], ◌∷◌, ◌++◌,
}

-- `type Action string`: JSON may bring any other text.
pub data Action : Type 0 where
  allow : Action
  deny : Action
  block : Action
  log : Action
  other : Text → Action

abbrev pub Phase : Type 0
Phase = Text

abbrev pub phase_request : Phase
phase_request = txt "request"

pub record Request : Type 0 where
  pub method : Text
  pub host : Text
  pub path : Text
  pub query : Text
  pub headers : Map (List Text)
  pub body : Text
  pub remote_ip : Text

pub record Result : Type 0 where
  pub action : Action
  pub rule_id : Text
  pub reason : Text

abbrev pub allowed : Result
allowed = record { action = allow; rule_id = []; reason = [] }

-- The test `Action != ActionAllow && Action != ActionLog`, negated.
unfoldable pub lets_through : Action → Bool
lets_through allow = true
lets_through log = true
lets_through _ = false

-- `match` is nil where the rule has no function.
pub record Rule : Type 0 where
  pub id : Text
  pub name : Text
  pub phase : Phase
  pub priority : ℤ
  pub description : Text
  pub enabled : Bool
  pub match : Option (Request → Bool)
  pub action : Action
  pub reason : Text

pub record RuleEngine : Type 0 where
  pub rules : List Rule

abbrev pub new_rule_engine : RuleEngine
new_rule_engine = record { rules = [] }

unfoldable pub add_rule : Rule → RuleEngine → RuleEngine
add_rule r e = record { rules = e.rules ++ r ∷ [] }

-- The loop of `RemoveRule`: the first rule with the id goes.
unfoldable pub remove_first : Text → List Rule → List Rule
remove_first id [] = []
remove_first id (r ∷ rs) = if text_beq r.id id then rs else r ∷ remove_first id rs

unfoldable pub remove_rule : Text → RuleEngine → RuleEngine
unfolding remove_first
remove_rule id e = record { rules = remove_first id e.rules }

unfoldable pub calls_match : Option (Request → Bool) → Request → Bool
calls_match none req = false
calls_match (some f) req = f req

unfoldable pub evaluate_loop : Phase → Request → List Rule → Result
unfolding calls_match
evaluate_loop phase req [] = allowed
evaluate_loop phase req (r ∷ rs) =
    let rest = evaluate_loop phase req rs in
    if not r.enabled || not (text_beq r.phase phase)
    then rest
    else if calls_match r.match req
    then record { action = r.action; rule_id = r.id; reason = r.reason }
    else rest

unfoldable pub evaluate : Phase → Request → RuleEngine → Result
unfolding evaluate_loop
evaluate phase req e = evaluate_loop phase req e.rules
