-- ===== src/Agent/Stream.antt =====
-- cmd/waf-agent/main.go: `agentServer`, `connectEventBroker` and `readSSEStream`. The JSON decoder and
-- `strings.TrimSpace` are parameters. What is read comes with the time of its reading; the cleanups of the ticker's goroutine
-- stand between the lines.
use mathlib.Core.List.{reverse}
use waffynx.Agent.{Tracker, record_ip, cleanup}
use waffynx.Events.{type_blocked, WafEvent}
use waffynx.Firewall.{Log}
use waffynx.Firewall.Manager.{FirewallConfig, Manager, block_ip}
use waffynx.Common.{
  eqb, if◌then◌else◌, drop, Text, txt, text_beq, is_empty, has_prefix, ℤ, pos, lt_int, half,
  seconds, ℕ, Bool, true, false, not, Option, none, some, List, [], ◌∷◌, ◌++◌,
}

pub record EventBrokerConfig : Type 0 where
  pub enabled : Bool
  pub address : Text
  pub auth_token : Text
  pub block_threshold : ℤ
  pub window_seconds : ℤ

pub record AgentConfig : Type 0 where
  pub name : Text
  pub listen : Text
  pub api_key : Text
  pub event_broker : EventBrokerConfig
  pub firewall : FirewallConfig

-- The values that `LoadAgent` gives to the YAML decoder.
abbrev pub default_agent : AgentConfig
default_agent = record {
  name = txt "waf-agent";
  listen = txt ":9099";
  api_key = [];
  event_broker = record {
    enabled = false;
    address = txt "http://localhost:9090";
    auth_token = [];
    block_threshold = pos 10;
    window_seconds = pos 60;
  };
  firewall = record {
    enabled = true;
    backend = txt "nftables";
    default_in = txt "deny";
    default_out = txt "allow";
    managed_ports = [];
    block_list = [];
  };
}

-- `read` is the file, and `decode` the YAML decoder over the values it is given.
unfoldable pub load_agent :
    (Text → Option Text) → (Text → AgentConfig → Option AgentConfig) → Text → Option AgentConfig
load_agent read decode path = elim (read path) [
  | none ↦ none
  | some data_read ↦ decode data_read default_agent
]

pub record AgentServer : Type 0 where
  pub cfg : AgentConfig
  pub mgr : Manager
  pub tracker : Tracker

-- The period of the ticker that `runAgent` starts for the cleanups: `none` is the panic of
-- `time.NewTicker` at a period that is not positive, which ends the program.
unfoldable pub ticker_period : AgentConfig → Option ℤ
ticker_period cfg =
    let period = half (seconds cfg.event_broker.window_seconds) in
    if lt_int (pos 0) period then some period else none

-- `strings.TrimSpace`, and the JSON decoder, where nothing is an error.
pub record EventLib : Type 0 where
  pub trim : Text → Text
  pub decode : Text → Option WafEvent

-- The text behind `data: ` in a line, without the white space round the line.
unfoldable pub payload_of : EventLib → Text → Option Text
unfolding has_prefix
payload_of lib line =
    let trimmed = lib.trim line in
    if has_prefix trimmed (txt "data: ") then some (drop 6 trimmed) else none

-- The address of a blocked event.
unfoldable pub blocked_address : Option WafEvent → Option Text
blocked_address none = none
blocked_address (some evt) =
    if not (text_beq evt.type type_blocked)
    then none
    else if is_empty evt.remote_ip
    then none
    else some evt.remote_ip

unfoldable pub line_address : EventLib → Text → Option Text
unfolding payload_of blocked_address
line_address lib line = elim (payload_of lib line) [
  | none ↦ none
  | some payload ↦ blocked_address (lib.decode payload)
]

unfoldable pub count_address : ℕ → Text → AgentServer → Log → Log × AgentServer
unfolding record_ip block_ip
count_address now ip s log =
    let (tracker, reached) = record_ip now ip s.tracker in
    (if reached then (block_ip s.mgr ip log).0 else log, record s { tracker = tracker })

-- A line of the stream, or a cleanup.
pub data AgentStep : Type 0 where
  reads : Text → AgentStep
  ticks : AgentStep

unfoldable pub agent_step : EventLib → ℕ → AgentStep → AgentServer → Log → Log × AgentServer
unfolding line_address count_address cleanup
agent_step lib now ticks s log = (log, record s { tracker = cleanup now s.tracker })
agent_step lib now (reads line) s log = elim (line_address lib line) [
  | none ↦ (log, s)
  | some ip ↦ count_address now ip s log
]

-- The loop of `readSSEStream`, up to the end of the stream, with the cleanups meanwhile.
unfoldable pub read_sse_stream :
    EventLib → List (ℕ × AgentStep) → AgentServer → Log → Log × AgentServer
unfolding agent_step
read_sse_stream lib [] s log = (log, s)
read_sse_stream lib ((now, step) ∷ steps) s log =
    let (log', s') = agent_step lib now step s log in read_sse_stream lib steps s' log'

abbrev pub drop_slashes : Text → Text
drop_slashes [] = []
drop_slashes (c ∷ s) = if eqb c b'/' then drop_slashes s else c ∷ s

unfoldable pub broker_url : AgentConfig → Text
broker_url cfg = reverse (drop_slashes (reverse cfg.event_broker.address)) ++ txt "/api/v1/events"

-- The value of the authorization header, if the request has one.
unfoldable pub broker_authorization : AgentConfig → Option Text
broker_authorization cfg =
    if not (is_empty cfg.event_broker.auth_token)
    then some (txt "Bearer " ++ cfg.event_broker.auth_token)
    else if not (is_empty cfg.api_key)
    then some (txt "Bearer " ++ cfg.api_key)
    else none

-- What comes of a request to the event broker, or a cleanup between two of them.
pub data Attempt : Type 0 where
  idle : ℕ → Attempt
  failed : Attempt
  answered : ℕ → List (ℕ × AgentStep) → Attempt

-- The loop of `connectEventBroker` over any number of requests: only the stream of an answer with
-- the status 200 is read.
unfoldable pub connect_event_broker :
    EventLib → List Attempt → AgentServer → Log → Log × AgentServer
unfolding read_sse_stream
connect_event_broker lib [] s log = (log, s)
connect_event_broker lib (idle now ∷ attempts) s log =
    connect_event_broker lib attempts (record s { tracker = cleanup now s.tracker }) log
connect_event_broker lib (failed ∷ attempts) s log = connect_event_broker lib attempts s log
connect_event_broker lib (answered status steps ∷ attempts) s log =
    let (log', s') = read_sse_stream lib steps s log in
    let read = connect_event_broker lib attempts s' log' in
    let unread = connect_event_broker lib attempts s log in if eqb status 200 then read else unread
