-- ===== src/Lib.antt =====
-- The verification library of waffynx, a web application firewall. Paths are from the root of the
-- repository.
--
-- nginx asks the sidecar about each request (internal/engine/sidecar.go). `handleEvaluate` runs the
-- chain of plugins (internal/plugin), the custom rules (internal/rules), the policy engine
-- (internal/policy) and the anomaly scorer (internal/appsec) in turn; the first that objects blocks
-- the request. What was decided goes to the learning engine (internal/learning) and, for a blocked
-- request, to the audit store (internal/audit), to the subscribers of the broker and to the event API
-- (internal/events). The upstream pool (internal/upstream) serves the gateway. The host agent
-- (cmd/waf-agent) reads the events of the broker, counts the blocked ones of each address and bans
-- those that reach a threshold through the firewall manager (internal/firewall), which runs `nft` or
-- `ufw`. The management API (internal/api) checks tokens, roles and scopes in front of its handlers.
--
-- Files:
--   Common, Common/*      shared types and lemmas: tests, lists, Go strings, maps, `int`
--   Http                  what the handlers use of net/http: requests, response writers
--   Ring, Ring/Window     the bounded buffer written out in `Store.Record` and `Engine.Record`
--   Audit, Audit/*        internal/audit/store.go: `Record` is record_event, `Query` is query,
--                         `Stats` is stats
--   Plugin, Plugin/*      internal/plugin/chain.go: `Add` is add, `Execute` is execute, `Close` is
--                         close_all
--   Registry, Registry/*  internal/plugin/plugin.go: `Register` is register, `Create` is create
--   Policy, Policy/*      internal/policy: `RuleEngine` and its `AddRule`, `RemoveRule`, `Evaluate`
--   Rules, Rules/*        internal/rules/engine.go: `matchRule` is match_rule, `Evaluate` is evaluate
--   Learning, Learning/*  internal/learning/engine.go: the records and `normalizePath`
--   Events, Events/*      internal/events/broker.go: `Validate`, the publisher and the broker
--   Appsec                internal/appsec/appsec.go: the types at the border of the scorer
--   Sidecar, Sidecar/*    internal/engine/sidecar.go: `handleEvaluate` is handle_evaluate in
--                         Sidecar/Handle, `recordLearning` is record_learning in Sidecar,
--                         `parseQueryParams` is parse_query_params in Sidecar/Params
--   PolicyStore, PolicyStore/*
--                         internal/engine/policy.go: `Add`, `Remove`, `Get` and `List`
--   Bot, Bot/*            plugins/bot-protection/plugin.go: `Init` is init, `Execute` is execute
--   Geo, Geo/*            plugins/geo-block/plugin.go: `Init` is init, `Execute` is execute
--   Throttle, Throttle/*  plugins/rate-limit/plugin.go: `Init` is init, `Execute` is execute
--   Limit, Limit/*        internal/ratelimit/limiter.go: `RedisLimiter.Allow` is redis_allow in
--                         Limit, `MemoryLimiter.Allow` is memory_allow in Limit/Memory
--   Validation, Validation/*
--                         plugins/request-validation/plugin.go: `Init` is init, `Execute` is execute
--   Parsers, Parsers/*    internal/parsers: `InspectGraphQL` is inspect_graphql, `InspectFileUpload`
--                         is inspect_file_upload
--   Api, Api/*            internal/api/middleware.go: `authMiddleware` is auth_middleware, `requireRole`
--                         is require_role, `requireScope` is require_scope, `corsMiddleware` is
--                         cors_middleware, `auditMiddleware` is audit_middleware in Api/Audited;
--                         internal/api/routes.go: routes and wrap; internal/api/handlers_firewall.go:
--                         `handleFirewallBlock` is handle_firewall_block in Api/Bans
--   Settings, Settings/*  internal/config/config.go: `Parse` is parse, `Load` is load, `validate` is
--                         validate_config, `defaultConfig` is default_config
--   Firewall, Firewall/*  internal/firewall/firewall.go: `NFTablesBackend` and `parseNFTRules` in
--                         Firewall/Nft, `UFWBackend` and `parseUFWRules` in Firewall/Ufw, `Manager` in
--                         Firewall/Manager, where `Start` is start
--   Agent, Agent/*        cmd/waf-agent/main.go: the tracker, where `record` is record_ip, and the
--                         test of `authMiddleware`, authorised, in Agent; `readSSEStream` and
--                         `connectEventBroker` in Agent/Stream; `runAgent` up to the start of the
--                         server, prepare, and the handlers in Agent/Serve. internal/config/agent.go:
--                         `LoadAgent` is load_agent in Agent/Stream
--   Upstream, Upstream/*  internal/upstream/upstream.go: `Next` is next, `checkAll` is check_all
--
-- State is passed explicitly: an operation takes the struct and returns the new one. A panic is `none`
-- (or `panics` for the choice of a target). Text is a list of bytes. The clock is an argument of each
-- operation that reads it. What a component calls through an interface (plugins, the scorer, the HTTP
-- client of the publisher) acts on a type `World` of its own. Locks are left out: each method that
-- takes a lock is one step.
--
-- Parameters: `filepath.Match`, `net.ParseCIDR`, `net.ParseIP` and `IPNet.Contains` are the fields of
-- the record NetLib; `url.Parse`, `net.SplitHostPort`, the `strings.ToLower` of the bot protection,
-- of the request validation and of its inspections, the `strings.TrimSpace` of the agent (EventLib) and
-- of the bans (IpLib), and the `net.ParseIP` and the database of the geo block are arguments. So are the
-- host that runs the commands of the firewall (Shell), the Redis client, the operations on float64 of
-- the memory limiter, `url.QueryUnescape` of the request validation, and the JSON and YAML decoders.
-- What `nft` and `ufw` print is taken as ASCII: the `trim_space` and `fields` of Common/Words, which
-- read it, know the white space of ASCII.
--
-- Fuel: the loops of `matchRule` over the pairs of a query, of `normalizePath` over segments and of
-- `parseQueryParams` over pairs run on the length of their text and one more. Each round takes at
-- least one byte away, so the fuel is enough. `itoa` divides by ten as often as the number and one
-- more, which is enough for its digits.
--
-- Numbers: lengths and counters are natural numbers; `int` is ℤ where the code can meet a negative
-- value. The 64-bit index of the round-robin choice, with its conversion to `int`, the 32-bit hash
-- and number of targets of the hashed choice, and the durations made of a configured or requested
-- number of seconds (`seconds` in Common/Int) wrap around as in the code.
--
-- Not modelled: the scores of the anomaly scorer (floating-point numbers), logging, metrics, the log
-- file's write errors, the HTTP routes of the sidecar other than the evaluation, the servers and signals
-- of the programs, and the parts of the repository that no file above names.
pub mod Common
pub mod Agent
pub mod Bot
pub mod Geo
pub mod Ring
pub mod Audit
pub mod Firewall
pub mod Http
pub mod Limit
pub mod Plugin
pub mod Registry
pub mod Policy
pub mod PolicyStore
pub mod Rules
pub mod Learning
pub mod Events
pub mod Appsec
pub mod Throttle
pub mod Parsers
pub mod Validation
pub mod Settings
pub mod Api
pub mod Sidecar
pub mod Upstream
