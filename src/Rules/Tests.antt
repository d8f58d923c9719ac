-- ===== src/Rules/Tests.antt =====
-- Runs of the custom rules on concrete requests, with networks and patterns that are plain texts.
use waffynx.Policy.{block, Request}
use waffynx.Rules.{
  excludes, cidrs_exclude, header_excludes, NetLib, CustomRule, Engine, match_rule, evaluate,
  query_matches,
}
use waffynx.Rules.Query.{query_of, passes_query}
use waffynx.Rules.Match.{Admits, Given, HeaderFits, InNetwork, match_rule_iff}
use waffynx.Rules.First.{Verdict, evaluate_first_custom_rule}
use waffynx.Common.Substring.{Contains}
use waffynx.Common.{
  All, Text, txt, text_beq, has_prefix, contains_text, cut, lookup, pos, ◌≡◌, refl, ◌↔◌, true,
  false, some, [], ◌∷◌,
}

abbrev pub exact_lib : NetLib
exact_lib = record {
  Net = Text;
  Ip = Text;
  path_match = text_beq;
  parse_cidr = some;
  parse_ip = some;
  net_contains = text_beq;
}

abbrev pub login_rule : CustomRule
login_rule = record {
  id = txt "login";
  name = txt "Login";
  description = txt "no admin login";
  enabled = true;
  priority = pos 5;
  action = block;
  methods = txt "POST" ∷ [];
  path_pattern = [];
  path_exact = txt "/login?user=admin";
  hosts = [];
  ips = [];
  ip_cidrs = txt "10.0.0.1" ∷ [];
  header_name = txt "X-Env";
  header_value = txt "prod";
  body_contains = txt "pw";
  query_param = txt "user";
  query_value = txt "admin";
}

abbrev off_rule : CustomRule
off_rule = record login_rule { id = txt "off"; enabled = false }

abbrev pub login_request : Request
login_request = record {
  method = txt "POST";
  host = txt "a.example";
  path = txt "/login?user=admin";
  query = [];
  headers = (txt "X-Env", txt "prod" ∷ []) ∷ [];
  body = txt "mypw";
  remote_ip = txt "10.0.0.1";
}

abbrev pub two_rules : Engine
two_rules = record { rules = off_rule ∷ login_rule ∷ [] }

blocks_login :
    evaluate exact_lib login_request two_rules
    ≡ record { action = block; rule_id = txt "login"; reason = txt "no admin login" }
unfolding evaluate match_rule excludes cidrs_exclude header_excludes query_matches lookup
    contains_text has_prefix cut
blocks_login = refl

match_rule_iff_example : (match_rule exact_lib login_rule login_request ≡ true) ↔ (
    Admits login_rule.methods login_request.method
    × Given login_rule.path_exact (login_request.path ≡ login_rule.path_exact)
    × Given login_rule.path_pattern (text_beq login_rule.path_pattern login_request.path ≡ true)
    × Admits login_rule.hosts login_request.host
    × Admits login_rule.ips login_request.remote_ip
    × All (InNetwork exact_lib login_request.remote_ip) login_rule.ip_cidrs
    × HeaderFits login_rule login_request
    × Given login_rule.body_contains (Contains login_request.body login_rule.body_contains)
    × Given login_rule.query_param (passes_query login_rule (query_of login_request.path) ≡ true))
match_rule_iff_example = match_rule_iff exact_lib login_rule login_request

evaluate_first_custom_rule_example :
    Verdict exact_lib login_request two_rules.rules (evaluate exact_lib login_request two_rules)
evaluate_first_custom_rule_example = evaluate_first_custom_rule exact_lib login_request two_rules
