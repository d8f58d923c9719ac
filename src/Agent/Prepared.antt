-- ===== src/Agent/Prepared.antt =====
-- What `runAgent` makes of a configuration, and the blocking of the agent that is made so.
use waffynx.Agent.{new_tracker, given_key, authorised}
use waffynx.Agent.Stream.{
  AgentConfig, AgentServer, AgentStep, ticks, Attempt, idle, failed, answered,
}
use waffynx.Agent.Serve.{
  Prepared, refused, ready, check_key, started, prepare_with, prepare, write_json, error_body,
  Handler, auth_middleware, handle_list_rules, handle_block_ip, handle_unblock_ip, Route,
  get_health, get_rules, post_block, delete_block, serve,
}
use waffynx.Firewall.{Log, Shell, Rule}
use waffynx.Firewall.Manager.{Manager, created, new_manager, Created, unsupported, start}
use waffynx.Http.{HttpRequest, ResponseWriter}
use waffynx.Agent.Authorised.{authorised_iff}
use waffynx.Common.{
  ltb, eqb, if◌then◌else◌, Bool-cases, length, Text, txt, text_beq, is_empty, ℕ, ◌≤◌, ◌≡◌, refl, ap,
  subst, ◌∙◌, ◌≢◌, inl, inr, false, ◌||◌, Option, none, some, List, [], ◌∷◌, ◌++◌, arith,
}

-- What is read of the streams, and the cleanups, in order.
unfoldable pub heard : List Attempt → List (ℕ × AgentStep)
heard [] = []
heard (idle now ∷ attempts) = (now, ticks) ∷ heard attempts
heard (failed ∷ attempts) = heard attempts
heard (answered status steps ∷ attempts) =
    if eqb status 200 then steps ++ heard attempts else heard attempts

abbrev pub server_of : Prepared → Option AgentServer
server_of (refused err) = none
server_of (ready s) = some s

some-inj {ℓ} : {A : Type ℓ} (a b : A) → some a ≡ some b → a ≡ b
some-inj a b e = cc e

-- What holds of a server that is ready: its parts are made of the configuration, and the key is not
-- short.
IsMade : Shell → AgentConfig → AgentServer → Type 0
IsMade shell cfg s =
    (s.cfg ≡ cfg)
    × (new_manager shell cfg.firewall ≡ created s.mgr)
    × (s.tracker ≡ new_tracker cfg.event_broker.block_threshold cfg.event_broker.window_seconds)
    × (32 ≤ length cfg.api_key)

check_key_lem :
    (shell : Shell) (cfg : AgentConfig) (mgr : Manager) (s : AgentServer)
    → new_manager shell cfg.firewall ≡ created mgr
    → server_of (check_key cfg mgr) ≡ some s
    → IsMade shell cfg s
unfolding check_key IsMade
check_key_lem shell cfg mgr s h e =
    let unsafe = is_empty cfg.api_key || text_beq cfg.api_key (txt "change-me-in-production") in
    elim (Bool-cases unsafe) [
      | inl bad ↦ cc (rw bad at e)
      | inr fine ↦ elim (Bool-cases (ltb (length cfg.api_key) 32)) [
        | inl short ↦ cc (rw (fine, short) at e)
        | inr long ↦
            let same = some-inj _ s (rw (fine, long) at e) in
            subst
              (λ x.
                (x.cfg ≡ cfg)
                × (new_manager shell cfg.firewall ≡ created x.mgr)
                × (x.tracker
                    ≡ new_tracker cfg.event_broker.block_threshold cfg.event_broker.window_seconds)
                × (32 ≤ length cfg.api_key))
              same (refl, h, refl, ground arith)
      ]
    ]

started_lem :
    (shell : Shell) (cfg : AgentConfig) (mgr : Manager) (s : AgentServer) (r : Log × Option Text)
    → new_manager shell cfg.firewall ≡ created mgr
    → server_of (started cfg mgr r).1 ≡ some s
    → IsMade shell cfg s
unfolding started
started_lem shell cfg mgr s (log, none) h e = check_key_lem shell cfg mgr s h e
started_lem shell cfg mgr s (log, some err) h e = cc e

prepare_with_lem :
    (shell : Shell) (cfg : AgentConfig) (log : Log) (s : AgentServer) (c : Created)
    → new_manager shell cfg.firewall ≡ c
    → server_of (prepare_with cfg log c).1 ≡ some s
    → IsMade shell cfg s
unfolding prepare_with
prepare_with_lem shell cfg log s (created m) h e = started_lem shell cfg m s (start m log) h e
prepare_with_lem shell cfg log s (unsupported err) h e = cc e

prepare-IsMade :
    (shell : Shell) (cfg : AgentConfig) (log : Log) (s : AgentServer)
    → server_of (prepare shell cfg log).1 ≡ some s
    → IsMade shell cfg s
unfolding prepare
prepare-IsMade shell cfg log s e =
    prepare_with_lem shell cfg log s (new_manager shell cfg.firewall) refl e

auth_middleware_refuses :
    (s : AgentServer) (next : Handler) (r : HttpRequest) (w : ResponseWriter) (log : Log)
    → authorised s.cfg.api_key r ≡ false
    → auth_middleware s next r w log ≡ (log, write_json 401 (error_body (txt "invalid API key")) w)
unfolding auth_middleware
auth_middleware_refuses s next r w log h = rw h refl

serve_unauthorised :
    (encode : List Rule → Text) (s : AgentServer) (route : Route) (r : HttpRequest)
    (w : ResponseWriter) (log : Log)
    → route ≢ get_health
    → authorised s.cfg.api_key r ≡ false
    → serve encode s route r w log ≡ (log, write_json 401 (error_body (txt "invalid API key")) w)
unfolding serve
serve_unauthorised encode s get_health r w log other h = absurd (other refl)
serve_unauthorised encode s get_rules r w log other h =
    auth_middleware_refuses s (handle_list_rules encode s) r w log h
serve_unauthorised encode s (post_block body) r w log other h =
    auth_middleware_refuses s (handle_block_ip s body) r w log h
serve_unauthorised encode s (delete_block ip) r w log other h =
    auth_middleware_refuses s (handle_unblock_ip s ip) r w log h

-- An agent that `runAgent` makes has a key of at least 32 bytes, and a request that does not give this
-- key, in its header `X-API-Key` or its authorization, runs no command and is answered with the
-- status 401, whichever route it takes but the one for the health.
pub serve_refuses :
    (shell : Shell) (cfg : AgentConfig) (encode : List Rule → Text) (s : AgentServer)
    (route : Route) (r : HttpRequest) (w : ResponseWriter) (before log : Log)
    → server_of (prepare shell cfg before).1 ≡ some s
    → route ≢ get_health
    → given_key r ≢ cfg.api_key
    → (32 ≤ length cfg.api_key)
      × (serve encode s route r w log
          ≡ (log, write_json 401 (error_body (txt "invalid API key")) w))
unfolding IsMade
serve_refuses shell cfg encode s route r w before log made other wrong =
    let (same, from, tracker, long) = prepare-IsMade shell cfg before s made in
    let nonempty : cfg.api_key ≢ [] = λ nil. elim (subst (λ k. 32 ≤ length k) nil long) [ ] in
    let not_let : authorised cfg.api_key r ≡ false = elim (Bool-cases (authorised cfg.api_key r)) [
      | inl let_in ↦ absurd (wrong ((authorised_iff cfg.api_key r nonempty).0 let_in))
      | inr kept_out ↦ kept_out
    ] in
    (
      long,
      serve_unauthorised encode s route r w log other
          (ap (λ c. authorised c.api_key r) same ∙ not_let),
    )
