-- ===== src/Agent/Serve.antt =====
-- cmd/waf-agent/main.go: `runAgent` up to the start of the server, and the handlers. The JSON decoder
-- of a request's body and the encoder of the rules are parameters.
use waffynx.Agent.{new_tracker, authorised}
use waffynx.Agent.Stream.{AgentConfig, AgentServer}
use waffynx.Http.{
  HttpRequest, Chunk, bytes, json, ResponseWriter, set_header, write_header, write_body,
}
use waffynx.Firewall.{Rule, Log, Shell, listed, not_listed}
use waffynx.Firewall.Manager.{
  Manager, created, unsupported, new_manager, block_ip, unblock_ip, rules, start, Created,
}
use waffynx.Common.{
  ltb, if◌then◌else◌, length, Text, txt, text_beq, is_empty, ℕ, ◌||◌, Option, none, some, List, [],
  ◌∷◌, ◌++◌,
}

pub data Prepared : Type 0 where
  refused : Text → Prepared
  ready : AgentServer → Prepared

unfoldable pub check_key : AgentConfig → Manager → Prepared
unfolding new_tracker
check_key cfg mgr =
    if is_empty cfg.api_key || text_beq cfg.api_key (txt "change-me-in-production")
    then refused (txt "insecure API key configuration")
    else if ltb (length cfg.api_key) 32
    then refused (txt "insecure API key configuration")
    else ready (record {
      cfg = cfg;
      mgr = mgr;
      tracker = new_tracker cfg.event_broker.block_threshold cfg.event_broker.window_seconds;
    })

unfoldable pub started : AgentConfig → Manager → Log × Option Text → Log × Prepared
unfolding check_key
started cfg mgr (log, none) = (log, check_key cfg mgr)
started cfg mgr (log, some err) = (log, refused (txt "starting firewall manager: " ++ err))

unfoldable pub prepare_with : AgentConfig → Log → Created → Log × Prepared
unfolding start started
prepare_with cfg log (unsupported err) =
    (log, refused (txt "initializing firewall manager: " ++ err))
prepare_with cfg log (created mgr) = started cfg mgr (start mgr log)

unfoldable pub prepare : Shell → AgentConfig → Log → Log × Prepared
unfolding new_manager prepare_with
prepare shell cfg log = prepare_with cfg log (new_manager shell cfg.firewall)

unfoldable pub write_json : ℕ → Chunk → ResponseWriter → ResponseWriter
unfolding set_header write_header write_body
write_json status chunk w =
    write_body chunk
      (write_header status (set_header (txt "Content-Type") (txt "application/json") w))

abbrev pub error_body : Text → Chunk
error_body err = json ((txt "error", err) ∷ [])

-- A handler runs commands and writes an answer.
abbrev pub Handler : Type 0
Handler = HttpRequest → ResponseWriter → Log → Log × ResponseWriter

unfoldable pub auth_middleware : AgentServer → Handler → Handler
unfolding authorised write_json
auth_middleware s next r w log =
    if authorised s.cfg.api_key r
    then next r w log
    else (log, write_json 401 (error_body (txt "invalid API key")) w)

unfoldable pub handle_health : Handler
unfolding write_json
handle_health r w log = (log, write_json 200 (json ((txt "status", txt "ok") ∷ [])) w)

unfoldable pub handle_list_rules : (List Rule → Text) → AgentServer → Handler
unfolding rules write_json
handle_list_rules encode s r w log =
    let (log', answer) = rules s.mgr log in
    elim answer [
      | listed found ↦ (log', write_json 200 (bytes (encode found)) w)
      | not_listed err ↦ (log', write_json 500 (error_body err) w)
    ]

-- The answer after a command: the error, or what was done to which address.
unfoldable pub answer_done : Text → Text → ResponseWriter → Log × Option Text → Log × ResponseWriter
unfolding write_json
answer_done status ip w (log, none) =
    (log, write_json 200 (json ((txt "status", status) ∷ (txt "ip", ip) ∷ [])) w)
answer_done status ip w (log, some err) = (log, write_json 500 (error_body err) w)

-- The address of the body, if the body is the JSON of a block request.
unfoldable pub handle_block_ip : AgentServer → Option Text → Handler
unfolding answer_done block_ip write_json
handle_block_ip s none r w log = (log, write_json 400 (error_body (txt "invalid request body")) w)
handle_block_ip s (some ip) r w log =
    if is_empty ip
    then (log, write_json 400 (error_body (txt "ip is required")) w)
    else answer_done (txt "blocked") ip w (block_ip s.mgr ip log)

unfoldable pub handle_unblock_ip : AgentServer → Text → Handler
unfolding answer_done unblock_ip write_json
handle_unblock_ip s ip r w log =
    if is_empty ip
    then (log, write_json 400 (error_body (txt "ip is required")) w)
    else answer_done (txt "unblocked") ip w (unblock_ip s.mgr ip log)

-- The routes of the API, with what the handler reads of the request beside its headers.
pub data Route : Type 0 where
  get_health : Route
  get_rules : Route
  post_block : Option Text → Route
  delete_block : Text → Route

unfoldable pub serve : (List Rule → Text) → AgentServer → Route → Handler
unfolding auth_middleware handle_health handle_list_rules handle_block_ip handle_unblock_ip
serve encode s get_health = handle_health
serve encode s get_rules = auth_middleware s (handle_list_rules encode s)
serve encode s (post_block body) = auth_middleware s (handle_block_ip s body)
serve encode s (delete_block ip) = auth_middleware s (handle_unblock_ip s ip)
