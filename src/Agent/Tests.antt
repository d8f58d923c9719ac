-- ===== src/Agent/Tests.antt =====
-- Runs of the tracker.
use waffynx.Agent.{new_tracker, meets, record_ip, cleanup, after_bearer, given_key}
use waffynx.Agent.Counted.{Op, records, cleans, run, times_of, record_ip-run}
use waffynx.Agent.Within.{within}
use waffynx.Http.{HttpRequest, header_get, or_empty, new_writer}
use waffynx.Agent.Stream.{
  EventLib, AgentConfig, default_agent, AgentServer, payload_of, blocked_address, line_address,
  reads, Attempt, idle, answered,
}
use waffynx.Agent.Serve.{
  check_key, started, prepare_with, prepare, write_json, error_body, get_rules, serve,
}
use waffynx.Agent.Prepared.{heard, server_of, serve_refuses}
use waffynx.Agent.Banned.{banned}
use waffynx.Events.{type_blocked, WafEvent}
use waffynx.Firewall.{Shell}
use waffynx.Firewall.Manager.{new_manager, start}
use waffynx.Firewall.Ufw.{ufw_backend}
use waffynx.Common.Words.{trim_space}
use waffynx.Common.{
  if◌then◌else◌, length, keep, Text, txt, text_beq, has_prefix, lookup, insert, delete, pos, ℕ, ◌+◌,
  ◌*◌, ◌≤◌, ◌≡◌, refl, true, false, Option, none, some, List, [], ◌∷◌, arith,
}

-- Two records within the window, with a cleanup between them.
abbrev calls : List (ℕ × Op)
calls = (5, records (txt "a")) ∷ (6, cleans) ∷ (7, records (txt "a")) ∷ []

third_reaches : (record_ip 8 (txt "a") (run calls (new_tracker (pos 3) (pos 1)))).1 ≡ true
unfolding record_ip run cleanup new_tracker lookup insert delete
third_reaches = refl

record_ip-run_example :
    (record_ip 8 (txt "a") (run calls (new_tracker (pos 3) (pos 1)))).1
    ≡ meets (pos 3) (length (keep (within 8 (1 * 1000000000)) (times_of (txt "a") calls)) + 1)
record_ip-run_example =
    record_ip-run (pos 3) 1 calls 8 (txt "a") (omega arith)
      (omega arith, (omega arith, (omega arith, omega arith)))

abbrev with_key : HttpRequest
with_key = record {
  header = (txt "Authorization", txt "Bearer k1") ∷ [];
  path = txt "/";
  remote_addr = [];
  content_length = pos 0;
}

-- A decoder that knows one payload.
abbrev decode_one : Text → Option WafEvent
decode_one payload =
    if text_beq payload (txt "x")
    then some (record {
      type = type_blocked;
      timestamp = 0;
      method = [];
      path = [];
      remote_ip = txt "1.2.3.4";
      rule_id = [];
      reason = [];
    })
    else none

abbrev sample_lib : EventLib
unfolding trim_space
sample_lib = record { trim = trim_space; decode = decode_one }

abbrev long_key : Text
long_key = txt "0123456789abcdef0123456789abcdef"

abbrev agent_cfg : AgentConfig
agent_cfg = record default_agent {
  api_key = long_key;
  event_broker = record {
    enabled = true;
    address = txt "http://b/";
    auth_token = [];
    block_threshold = pos 2;
    window_seconds = pos 1;
  };
  firewall = record {
    enabled = false;
    backend = txt "ufw";
    default_in = txt "deny";
    default_out = txt "allow";
    managed_ports = [];
    block_list = [];
  };
}

abbrev quiet : Shell
quiet log c = ([], none)

abbrev agent : AgentServer
unfolding ufw_backend new_tracker
agent = record {
  cfg = agent_cfg;
  mgr = record { backend = ufw_backend quiet; cfg = agent_cfg.firewall };
  tracker = new_tracker (pos 2) (pos 1);
}

agent_made : server_of (prepare quiet agent_cfg []).1 ≡ some agent
unfolding prepare prepare_with new_manager start started check_key
agent_made = refl

-- Two events with a request that is refused between them.
abbrev heard_twice : List Attempt
heard_twice =
    answered 200 ((5, reads (txt "data: x\n")) ∷ [])
    ∷ answered 503 ((6, reads (txt "data: x\n")) ∷ [])
    ∷ idle 6
    ∷ answered 200 ((7, reads (txt "data: x\n")) ∷ [])
    ∷ []

heard_twice_bans : banned sample_lib (pos 2) 1000000000 [] (heard heard_twice) ≡ txt "1.2.3.4" ∷ []
unfolding banned heard line_address payload_of blocked_address has_prefix trim_space times_of meets
heard_twice_bans = refl

serve_refuses_example :
    (32 ≤ length long_key)
    × (serve (λ found. []) agent get_rules with_key new_writer []
        ≡ ([], write_json 401 (error_body (txt "invalid API key")) new_writer))
unfolding given_key header_get after_bearer lookup or_empty
serve_refuses_example =
    serve_refuses quiet agent_cfg (λ found. []) agent get_rules with_key new_writer [] [] agent_made
      (λ e. cc e) (λ e. cc e)
