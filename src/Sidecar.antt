-- ===== src/Sidecar.antt =====
-- internal/engine/sidecar.go: the evaluation of a request. `World` is the state of what the sidecar
-- calls through interfaces: plugins, scorer, event API. Logging is left out.
pub mod Params
pub mod Handle
pub mod Evaluate
pub mod Recorded
pub mod Answer
pub mod Reports
pub mod Outcomes
pub mod Served
pub mod Tests
use waffynx.Http.{
  HttpRequest, header_get, ResponseWriter, set_header, write_header, json, write_body,
}
use waffynx.Policy.{Request, Phase}
use waffynx.Plugin.{Chain, Context, Value, str, new_context}
use waffynx.Events.{WafEvent, Broker, Publisher, publish, publish_remote, type_blocked}
use waffynx.Appsec.{Features, Scorer, Verdict}
use waffynx.Policy
use waffynx.Rules
use waffynx.Learning
use waffynx.Audit
use waffynx.Appsec
use Params.{parse_query_params}
use waffynx.Common.{
  ltb, if◌then◌else◌, length, take, Text, txt, text_beq, is_empty, Map, ℕ, Bool, false, not, ◌&&◌,
  Option, none, some, [], ◌∷◌, ◌++◌,
}

-- `evaluator` is the interface `policy.Evaluator`, which is given the context that the plugins leave. A component that the sidecar has not is `none`.
pub record Sidecar (World : Type 0) : Type 0 where
  pub world : World
  pub chain : Chain World
  pub evaluator : Context → Phase → Request → Policy.Result
  pub scorer : Option (Scorer World)
  pub learning : Option Learning.Engine
  pub audit : Option Audit.Store
  pub rules : Option Rules.Engine
  pub broker : Option Broker
  pub publisher : Option (Publisher World)

-- The request of nginx: its headers, the bytes of its body, and whether reading fails behind them.
pub record Call : Type 0 where
  pub request : HttpRequest
  pub body : Text
  pub body_fails : Bool

-- What the clock shows at the calls of `time.Now` and `time.Since`.
pub record Times : Type 0 where
  pub recorded : ℕ
  pub audited : ℕ
  pub published : ℕ
  pub duration : ℕ

abbrev pub max_body_read : ℕ
max_body_read = 65536

-- io.ReadAll(io.LimitReader(r.Body, maxBodyRead)): the bytes, and whether there was an error.
pub read_body : Call → Text × Bool
read_body c =
    if ltb (length c.body) max_body_read
    then (c.body, c.body_fails)
    else (take max_body_read c.body, false)

unfoldable pub policy_request : Call → Request
unfolding read_body header_get
policy_request c =
    let (read, failed) = read_body c in
    record {
      method = header_get (txt "X-WN-M") c.request;
      host = header_get (txt "X-WN-H") c.request;
      path = header_get (txt "X-WN-U") c.request;
      query = [];
      headers =
          (txt "User-Agent", header_get (txt "X-WN-UA") c.request ∷ [])
          ∷ (txt "Content-Type", header_get (txt "X-WN-CT") c.request ∷ [])
          ∷ (txt "Referer", header_get (txt "X-WN-Ref") c.request ∷ [])
          ∷ [];
      body = if not failed && not (is_empty read) then read else [];
      remote_ip = header_get (txt "X-WN-IP") c.request;
    }

-- The context with the data of the original request in `Values`.
unfoldable pub plugin_context : Call → ResponseWriter → Context
unfolding new_context policy_request
plugin_context c w =
    let (read, failed) = read_body c in
    let req = policy_request c in
    let values : Map Value =
      (txt "wn_method", str req.method)
      ∷ (txt "wn_uri", str req.path)
      ∷ (txt "wn_host", str req.host)
      ∷ (txt "wn_ip", str req.remote_ip)
      ∷ (txt "wn_ua", str (header_get (txt "X-WN-UA") c.request))
      ∷ (txt "wn_ct", str (header_get (txt "X-WN-CT") c.request))
      ∷ (txt "wn_ref", str (header_get (txt "X-WN-Ref") c.request))
      ∷ (if is_empty read then [] else (txt "wn_body", str read) ∷ []) in
    record (new_context w c.request) { values = values }

unfoldable pub features : Call → Features
unfolding policy_request
features c =
    let (read, failed) = read_body c in
    let req = policy_request c in
    record {
      method = req.method;
      uri = req.path;
      host = req.host;
      client_ip = req.remote_ip;
      user_agent = header_get (txt "X-WN-UA") c.request;
      content_type = header_get (txt "X-WN-CT") c.request;
      referer = header_get (txt "X-WN-Ref") c.request;
      body = read;
      uri_length = length req.path;
      query_params = parse_query_params req.path;
      has_payload = not (is_empty read);
      payload_size = length read;
    }

unfoldable pub respond_allow : ResponseWriter → ResponseWriter
respond_allow w = write_header 204 (set_header (txt "X-WN-Verdict") (txt "allow") w)

-- The body is written by the JSON encoder from this map.
abbrev pub deny_body : Text → Text → Map Text
deny_body rule_id reason =
    (txt "error", txt "blocked by WAF") ∷ (txt "rule_id", rule_id) ∷ (txt "reason", reason) ∷ []

unfoldable pub respond_deny : Text → Text → ResponseWriter → ResponseWriter
respond_deny rule_id reason w =
    let verdict = set_header (txt "X-WN-Verdict") (txt "deny") w in
    let rule = set_header (txt "X-WN-Rule") rule_id verdict in
    let typed = set_header (txt "Content-Type") (txt "application/json") rule in
    write_body (json (deny_body rule_id reason)) (write_header 403 typed)

pub or_unknown : Text → Text
or_unknown [] = txt "unknown"
or_unknown (c ∷ s) = c ∷ s

unfoldable pub learning_record : Request → Learning.Verdict → Text → Text → Times → Learning.Record
unfolding or_unknown
learning_record req verdict rule_id reason t = record {
  timestamp = 0;
  method = req.method;
  path = req.path;
  host = req.host;
  remote_ip = req.remote_ip;
  content_type = [];
  body_snippet = take 100 req.body;
  verdict = verdict;
  rule_id = or_unknown rule_id;
  reason = reason;
  duration = t.duration;
}

unfoldable pub audit_event : Request → Text → Text → Audit.Event
unfolding or_unknown
audit_event req rule_id reason = record {
  timestamp = 0;
  actor = req.remote_ip;
  actor_ip = req.remote_ip;
  action = req.method ++ (txt " " ++ req.path);
  resource = req.host;
  result = txt "blocked";
  details = txt "rule=" ++ (or_unknown rule_id ++ (txt " reason=" ++ reason));
  request_id = [];
}

unfoldable pub blocked_event : Request → Text → Text → WafEvent
unfolding or_unknown
blocked_event req rule_id reason = record {
  type = type_blocked;
  timestamp = 0;
  method = req.method;
  path = req.path;
  remote_ip = req.remote_ip;
  rule_id = or_unknown rule_id;
  reason = reason;
}

-- The audit part of `recordLearning`; `none` is a panic.
unfoldable pub audit_block : ℕ → Audit.Event → Option Audit.Store → Option (Option Audit.Store)
audit_block now e none = some none
audit_block now e (some store) = elim (Audit.record_event now e store) [
  | none ↦ none
  | some store' ↦ some (some store')
]

unfoldable pub publish_block : ℕ → WafEvent → Option Broker → Option Broker
publish_block now e none = none
publish_block now e (some b) = some (publish now e b)

module _ {World : Type 0} where
  -- The world is that of the components; the socket path is left out.
  unfoldable pub new_sidecar :
      World
      → (Context → Phase → Request → Policy.Result)
      → Chain World
      → Option (Scorer World)
      → Option Learning.Engine
      → Option Audit.Store
      → Option Rules.Engine
      → Option Broker
      → Sidecar World
  new_sidecar world eval chain scorer learn a r b = record {
    world = world;
    chain = chain;
    evaluator = eval;
    scorer = scorer;
    learning = learn;
    audit = a;
    rules = r;
    broker = b;
    publisher = none;
  }

  unfoldable pub set_event_publisher : Option (Publisher World) → Sidecar World → Sidecar World
  set_event_publisher p s = record s { publisher = p }

  unfoldable pub bridge_block : WafEvent → Option (Publisher World) → World → World
  bridge_block e none w = w
  bridge_block e (some p) w = (publish_remote e p w).0

  -- `recordLearning`; `none` is a panic. A sidecar with no learning engine records nothing at all.
  unfoldable pub record_learning :
      Request → Learning.Verdict → Text → Text → Times → Sidecar World → Option (Sidecar World)
  unfolding audit_block publish_block bridge_block
  record_learning req verdict rule_id reason t s = elim s.learning [
    | none ↦ some s
    | some engine ↦
        elim (Learning.add_record t.recorded (learning_record req verdict rule_id reason t)
          engine) [
            | none ↦ none
            | some engine' ↦
                let learned : Sidecar World = record s { learning = some engine' } in
                if not (text_beq verdict (txt "block"))
                then some learned
                else elim (audit_block t.audited (audit_event req rule_id reason) s.audit) [
                  | none ↦ none
                  | some store ↦
                      let event = blocked_event req rule_id reason in
                      some (record learned {
                        audit = store;
                        broker = publish_block t.published event s.broker;
                        world = bridge_block event s.publisher s.world;
                      })
                ]
          ]
  ]
