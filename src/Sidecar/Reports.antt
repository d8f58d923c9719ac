-- ===== src/Sidecar/Reports.antt =====
-- What is written about a request, field by field.
use waffynx.Policy.{Request}
use waffynx.Events.{WafEvent, type_blocked}
use waffynx.Sidecar.{Times, or_unknown, learning_record, audit_event, blocked_event}
use waffynx.Sidecar.Evaluate.{Outcome, passed, denied, answered}
use waffynx.Learning
use waffynx.Audit
use waffynx.Common.{if◌then◌else◌, take, is_empty, Text, txt, ◌≡◌, refl, ap, [], ◌∷◌, ◌++◌}

-- A rule with no name is `unknown`.
abbrev pub named : Text → Text
named rule_id = if is_empty rule_id then txt "unknown" else rule_id

abbrev pub record_of : Request → Text → Text → Text → Times → Learning.Record
record_of req verdict rule_id reason t = record {
  timestamp = 0;
  method = req.method;
  path = req.path;
  host = req.host;
  remote_ip = req.remote_ip;
  content_type = [];
  body_snippet = take 100 req.body;
  verdict = verdict;
  rule_id = named rule_id;
  reason = reason;
  duration = t.duration;
}

abbrev pub audit_of : Request → Text → Text → Audit.Event
audit_of req rule_id reason = record {
  timestamp = 0;
  actor = req.remote_ip;
  actor_ip = req.remote_ip;
  action = req.method ++ (txt " " ++ req.path);
  resource = req.host;
  result = txt "blocked";
  details = txt "rule=" ++ (named rule_id ++ (txt " reason=" ++ reason));
  request_id = [];
}

abbrev pub event_of : Request → Text → Text → WafEvent
event_of req rule_id reason = record {
  type = type_blocked;
  timestamp = 0;
  method = req.method;
  path = req.path;
  remote_ip = req.remote_ip;
  rule_id = named rule_id;
  reason = reason;
}

-- The rule and the reason of an outcome that blocks.
abbrev pub Blames : Outcome → Text → Text → Type 0
Blames passed rule_id reason = ⊥
Blames (denied r why) rule_id reason = (rule_id ≡ r) × (reason ≡ why)
Blames (answered message) rule_id reason = (rule_id ≡ txt "plugin-chain") × (reason ≡ message)

or_unknown-named : (rule_id : Text) → or_unknown rule_id ≡ named rule_id
unfolding or_unknown
or_unknown-named [] = refl
or_unknown-named (c ∷ s) = refl

pub learning_record-record_of :
    (req : Request) (verdict rule_id reason : Text) (t : Times)
    → learning_record req verdict rule_id reason t ≡ record_of req verdict rule_id reason t
unfolding learning_record
learning_record-record_of req verdict rule_id reason t =
    ap (λ r. record (record_of req verdict rule_id reason t) { rule_id = r })
      (or_unknown-named rule_id)

pub audit_event-audit_of :
    (req : Request) (rule_id reason : Text)
    → audit_event req rule_id reason ≡ audit_of req rule_id reason
unfolding audit_event
audit_event-audit_of req rule_id reason =
    ap
      (λ r. record (audit_of req rule_id reason) {
        details = txt "rule=" ++ (r ++ (txt " reason=" ++ reason));
      })
      (or_unknown-named rule_id)

pub blocked_event-event_of :
    (req : Request) (rule_id reason : Text)
    → blocked_event req rule_id reason ≡ event_of req rule_id reason
unfolding blocked_event
blocked_event-event_of req rule_id reason =
    ap (λ r. record (event_of req rule_id reason) { rule_id = r }) (or_unknown-named rule_id)
