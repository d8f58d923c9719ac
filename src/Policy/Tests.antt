-- ===== src/Policy/Tests.antt =====
-- Runs of the rule engine on concrete rules.
use waffynx.Policy.{block, log, Request, Rule, RuleEngine, phase_request, evaluate}
use waffynx.Policy.First.{Decision, evaluate_first_match, reprioritise, evaluate-reprioritise}
use waffynx.Common.{txt, is_empty, pos, ◌≡◌, refl, true, not, some, [], ◌∷◌}

abbrev body_rule : Rule
body_rule = record {
  id = txt "body";
  name = txt "Body";
  phase = phase_request;
  priority = pos 9;
  description = [];
  enabled = true;
  match = some (λ (r : Request). not (is_empty r.body));
  action = block;
  reason = txt "body";
}

abbrev log_rule : Rule
log_rule = record body_rule { id = txt "log"; priority = pos 1; action = log }

abbrev post : Request
post = record {
  method = txt "POST";
  host = [];
  path = txt "/";
  query = [];
  headers = [];
  body = txt "x";
  remote_ip = [];
}

abbrev two_rules : RuleEngine
two_rules = record { rules = body_rule ∷ log_rule ∷ [] }

-- The rule that was added first decides, though its priority is 9 and the other's is 1.
first_added_decides : (evaluate phase_request post two_rules).rule_id ≡ txt "body"
unfolding evaluate
first_added_decides = refl

evaluate_first_match_example :
    Decision phase_request post two_rules.rules (evaluate phase_request post two_rules)
evaluate_first_match_example = evaluate_first_match phase_request post two_rules

evaluate-reprioritise_example :
    evaluate phase_request post (record { rules = reprioritise (λ _. pos 3) two_rules.rules })
    ≡ evaluate phase_request post (record { rules = two_rules.rules })
evaluate-reprioritise_example =
    evaluate-reprioritise (λ _. pos 3) phase_request post two_rules.rules
