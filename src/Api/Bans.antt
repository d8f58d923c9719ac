-- ===== src/Api/Bans.antt =====
-- internal/api/handlers_firewall.go: the bans of the control room. `net.ParseIP`, `strings.TrimSpace` and the JSON encoder of
-- a ban and of a list of bans are parameters. A panic of the audit store, which net/http recovers,
-- leaves what was done before it and gives no answer.
use waffynx.Api.{Claims, ApiRequest, AuditWriter, set_value, write_status, write_error}
use waffynx.Audit.{Event, Store, record_event}
use waffynx.Events.{Broker, publish, type_blocked}
use waffynx.Firewall.{Log, Run}
use waffynx.Firewall.Manager.{Manager, FirewallConfig, block_ip, unblock_ip}
use waffynx.Http.{Chunk, bytes, json, write_body}
use waffynx.Common.{
  lt_int, seconds, add_duration, if◌then◌else◌, Text, txt, is_empty, Map, insert, delete, ℤ, pos,
  negsuc, ℕ, zero, suc, Bool, false, not, ◌&&◌, ◌||◌, Option, none, some, List, [], ◌∷◌,
}

pub record BannedIp : Type 0 where
  pub ip : Text
  pub reason : Text
  pub created_at : ℕ
  pub expires_at : ℤ
  pub ttl : ℤ

-- The decoded body of a block request.
pub record BlockRequest : Type 0 where
  pub ip : Text
  pub reason : Text
  pub ttl : ℤ

-- What the handlers share, and the commands that the firewall ran.
pub record BanState : Type 0 where
  pub banned : Map BannedIp
  pub log : Log
  pub audit : Option Store
  pub broker : Option Broker

-- A ttl that is not positive is an hour.
abbrev pub ttl_or_hour : ℤ → ℤ
ttl_or_hour (pos zero) = pos 3600
ttl_or_hour (pos (suc n)) = pos (suc n)
ttl_or_hour (negsuc n) = pos 3600

abbrev pub reason_or_manual : Text → Text
reason_or_manual [] = txt "Manual ban from Control Room"
reason_or_manual (c ∷ s) = c ∷ s

-- `strings.TrimSpace`, and whether `net.ParseIP` reads a text.
pub record IpLib : Type 0 where
  pub trim : Text → Text
  pub parses : Text → Bool

unfoldable pub new_ban : IpLib → ℕ → BlockRequest → BannedIp
new_ban lib now req = record {
  ip = lib.trim req.ip;
  reason = reason_or_manual req.reason;
  created_at = now;
  expires_at = add_duration now (seconds (ttl_or_hour req.ttl));
  ttl = ttl_or_hour req.ttl;
}

-- The ban that a request asks for, or the message of the error.
pub data Asked : Type 0 where
  ban : BannedIp → Asked
  bad : Text → Asked

unfoldable pub ask : IpLib → ℕ → Option BlockRequest → Asked
unfolding new_ban
ask lib now none = bad (txt "invalid request body")
ask lib now (some req) =
    if is_empty (lib.trim req.ip)
    then bad (txt "ip is required")
    else if not (lib.parses (lib.trim req.ip))
    then bad (txt "invalid IP format")
    else ban (new_ban lib now req)

-- The command of the firewall, if the server has one; its error is not looked at.
unfoldable pub run_firewall :
    (Manager → Text → Run (Option Text)) → Option Manager → Text → Log → Log
run_firewall call none ip log = log
run_firewall call (some m) ip log = (call m ip log).0

abbrev pub user_of : Option Claims → Text
user_of none = txt "admin"
user_of (some claims) = claims.username

abbrev pub ban_event : ℕ → Text → Text → Text → Text → Event
ban_event now actor action ip details = record {
  timestamp = now;
  actor = actor;
  actor_ip = [];
  action = action;
  resource = ip;
  result = txt "success";
  details = details;
  request_id = [];
}

-- The store with the event; `none` is a panic.
unfoldable pub write_audit : ℕ → Event → Option Store → Option (Option Store)
unfolding record_event
write_audit now e none = some none
write_audit now e (some store) = elim (record_event now e store) [
  | none ↦ none
  | some store' ↦ some (some store')
]

unfoldable pub publish_ban : ℕ → BannedIp → Option Broker → Option Broker
unfolding publish
publish_ban now b none = none
publish_ban now b (some broker) = some (
    publish now
      (record {
        type = type_blocked;
        timestamp = now;
        method = [];
        path = txt "/* (L3/L4 Network Ban)";
        remote_ip = b.ip;
        rule_id = txt "kernel-nftables";
        reason = b.reason;
      })
      broker)

unfoldable pub answer_json : ℕ → Chunk → AuditWriter → AuditWriter
unfolding set_value write_status write_body
answer_json status chunk w =
    let begun = write_status status (set_value (txt "Content-Type") (txt "application/json") w) in
    record begun { inner = write_body chunk begun.inner }

-- What follows the audit, for a ban and for its end.
unfoldable pub after_ban :
    (BannedIp → Text)
    → ℕ
    → BannedIp
    → AuditWriter
    → BanState
    → Option (Option Store)
    → BanState × Option AuditWriter
unfolding publish_ban answer_json
after_ban encode now b w s none = (s, none)
after_ban encode now b w s (some audit) = (
  record s { audit = audit; broker = publish_ban now b s.broker },
  some (answer_json 201 (bytes (encode b)) w),
)

unfoldable pub after_unban :
    Text → AuditWriter → BanState → Option (Option Store) → BanState × Option AuditWriter
unfolding answer_json
after_unban ip w s none = (s, none)
after_unban ip w s (some audit) = (
  record s { audit = audit },
  some (answer_json 200 (json ((txt "success", txt "true") ∷ (txt "ip", ip) ∷ [])) w),
)

unfoldable pub do_ban :
    (BannedIp → Text)
    → Option Manager
    → ℕ
    → ApiRequest
    → AuditWriter
    → BanState
    → Asked
    → BanState × Option AuditWriter
unfolding run_firewall block_ip write_audit after_ban write_error
do_ban encode m now r w s (bad message) = (s, some (write_error 400 message w))
do_ban encode m now r w s (ban b) =
    let blocked = record s {
      banned = insert b.ip b s.banned;
      log = run_firewall block_ip m b.ip s.log;
    } in
    let event = ban_event now (user_of r.claims) (txt "firewall_ban") b.ip b.reason in
    after_ban encode now b w blocked (write_audit now event s.audit)

unfoldable pub handle_firewall_block :
    IpLib
    → (BannedIp → Text)
    → Option Manager
    → ℕ
    → Option BlockRequest
    → ApiRequest
    → AuditWriter
    → BanState
    → BanState × Option AuditWriter
unfolding ask do_ban
handle_firewall_block lib encode m now body r w s = do_ban encode m now r w s (ask lib now body)

unfoldable pub handle_firewall_unblock :
    IpLib
    → Option Manager
    → ℕ
    → Text
    → ApiRequest
    → AuditWriter
    → BanState
    → BanState × Option AuditWriter
unfolding run_firewall unblock_ip write_audit after_unban write_error
handle_firewall_unblock lib m now ip r w s =
    if is_empty ip || not (lib.parses ip)
    then (s, some (write_error 400 (txt "valid ip path parameter required") w))
    else (let unblocked = record s {
      banned = delete ip s.banned;
      log = run_firewall unblock_ip m ip s.log;
    } in
        let event =
          ban_event now (user_of r.claims) (txt "firewall_unban") ip
            (txt "unbanned via control room") in
        after_unban ip w unblocked (write_audit now event s.audit))

-- The bans that are listed: those that have not expired.
unfoldable pub shown : ℕ → Map BannedIp → List BannedIp
shown now [] = []
shown now ((ip, b) ∷ m) =
    let rest = shown now m in
    if lt_int (pos 0) b.ttl && lt_int b.expires_at (pos now) then rest else b ∷ rest

-- The configuration, if there is one, gives the backend and whether it is enabled; `encode` is the
-- JSON of the answer.
unfoldable pub handle_firewall_rules :
    (Bool → Text → List BannedIp → Text)
    → Option FirewallConfig
    → ℕ
    → AuditWriter
    → BanState
    → AuditWriter
unfolding shown answer_json
handle_firewall_rules encode none now w s =
    answer_json 200 (bytes (encode false (txt "nftables") (shown now s.banned))) w
handle_firewall_rules encode (some cfg) now w s =
    answer_json 200 (bytes (encode cfg.enabled cfg.backend (shown now s.banned))) w
