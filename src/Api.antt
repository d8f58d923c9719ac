-- ===== src/Api.antt =====
-- internal/api/middleware.go, with the routes of internal/api/routes.go. The two validations of a
-- token and the handlers are parameters; a handler acts on a `World`. Handlers write through
-- `auditResponseWriter`, whose status code nothing reads if there is no audit store.
pub mod Audited
pub mod Presented
pub mod Granted
pub mod Bans
pub mod Lifted
pub mod Tests
use waffynx.Http.{or_empty, json, ResponseWriter, set_header, write_header, write_body}
use waffynx.Common.Decimal.{value}
use waffynx.Common.{
  eqb, if◌then◌else◌, drop, Text, txt, text_beq, is_empty, has_prefix, contains_elem, Map, lookup,
  ℕ, not, ◌&&◌, Option, none, some, List, [], ◌∷◌, ◌++◌,
}

-- The parts of Claims that the middleware reads.
pub record Claims : Type 0 where
  pub username : Text
  pub role : Text
  pub scopes : List Text

-- `claims` is the value in the request's context.
pub record ApiRequest : Type 0 where
  pub method : Text
  pub path : Text
  pub remote_addr : Text
  pub header : Map Text
  pub claims : Option Claims

pub record AuditWriter : Type 0 where
  pub inner : ResponseWriter
  pub status_code : ℕ

-- The handler's effect on the world and on the writer.
abbrev pub ApiHandler : Type 0 → Type 0
ApiHandler World = ApiRequest → AuditWriter → World → World × AuditWriter

pub data Validated : Type 0 where
  valid : Claims → Validated
  invalid : Text → Validated

-- `oidc` is the enabled OIDC manager, with the user and the role of a token; `allowed_origins` are
-- those of the configuration.
pub record ApiServer : Type 0 where
  pub oidc : Option (Text → Option (Text × Text))
  pub validate_token : Text → Validated
  pub allowed_origins : List Text

unfoldable pub get_header : Text → ApiRequest → Text
unfolding or_empty
get_header name r = or_empty (lookup name r.header)

unfoldable pub set_value : Text → Text → AuditWriter → AuditWriter
unfolding set_header
set_value name value w = record w { inner = set_header name value w.inner }

-- WriteHeader of auditResponseWriter.
unfoldable pub write_status : ℕ → AuditWriter → AuditWriter
unfolding write_header
write_status code w = record { inner = write_header code w.inner; status_code = code }

-- http.StatusText of the codes that the middleware writes.
abbrev pub status_text : ℕ → Text
status_text code =
    if eqb code 401 then txt "Unauthorized" else if eqb code 403 then txt "Forbidden" else []

unfoldable pub write_error : ℕ → Text → AuditWriter → AuditWriter
unfolding set_value write_status write_body
write_error status message w =
    let started = write_status status (set_value (txt "Content-Type") (txt "application/json") w) in
    record started {
      inner =
          write_body (json ((txt "error", status_text status) ∷ (txt "message", message) ∷ []))
            started.inner;
    }

-- strings.TrimPrefix(header, "Bearer "), where there is one.
unfoldable pub bearer : Text → Option Text
unfolding has_prefix
bearer header = if has_prefix header (txt "Bearer ") then some (drop 7 header) else none

unfoldable pub validate_local : ApiServer → Text → Validated
validate_local s token = elim (s.validate_token token) [
  | valid claims ↦ valid claims
  | invalid err ↦ invalid (txt "invalid token: " ++ err)
]

abbrev pub oidc_claims : Text × Text → Claims
oidc_claims (username, role) = record {
  username = username;
  role = role;
  scopes = txt "read" ∷ txt "write" ∷ [];
}

unfoldable pub oidc_or_local : ApiServer → Text → Option (Text × Text) → Validated
unfolding validate_local
oidc_or_local s token none = validate_local s token
oidc_or_local s token (some user) = valid (oidc_claims user)

unfoldable pub validate : ApiServer → Text → Validated
unfolding oidc_or_local validate_local
validate s token = elim s.oidc [
  | none ↦ validate_local s token
  | some manager ↦ oidc_or_local s token (manager token)
]

-- The claims of a request, or the message of the error.
unfoldable pub authenticate : ApiServer → ApiRequest → Validated
unfolding get_header bearer validate
authenticate s r =
    let header = get_header (txt "Authorization") r in
    if is_empty header then invalid (txt "missing authorization header") else elim (bearer header) [
      | none ↦ invalid (txt "invalid authorization format")
      | some token ↦ validate s token
    ]

-- The loop over the allowed origins, for an origin that is not empty.
unfoldable pub allowed_origin : List Text → Text → Text
allowed_origin [] origin = []
allowed_origin (o ∷ os) origin =
    if not (text_beq o (txt "*")) && text_beq o origin then o else allowed_origin os origin

unfoldable pub cors_headers : Text → AuditWriter → AuditWriter
unfolding set_value
cors_headers origin w =
    set_value (txt "Access-Control-Allow-Headers") (txt "Content-Type, Authorization") (
      set_value (txt "Access-Control-Allow-Methods") (txt "GET, POST, PUT, DELETE, OPTIONS") (
        set_value (txt "Access-Control-Allow-Credentials") (txt "true")
          (set_value (txt "Access-Control-Allow-Origin") origin w)))

module _ {World : Type 0} where
  unfoldable pub with_claims : ApiHandler World → Validated → ApiHandler World
  unfolding write_error
  with_claims next (valid claims) r w x = next (record r { claims = some claims }) w x
  with_claims next (invalid message) r w x = (x, write_error 401 message w)

  unfoldable pub auth_middleware : ApiServer → ApiHandler World → ApiHandler World
  unfolding authenticate with_claims
  auth_middleware s next r = with_claims next (authenticate s r) r

  unfoldable pub role_checked : Text → ApiHandler World → Option Claims → ApiHandler World
  unfolding write_error
  role_checked role next none r w x = (x, write_error 401 (txt "unauthorized") w)
  role_checked role next (some claims) r w x =
      if not (text_beq claims.role role) && not (text_beq claims.role (txt "admin"))
      then (
        x,
        write_error 403 (txt "insufficient permissions: requires " ++ (role ++ txt " role")) w,
      )
      else next r w x

  unfoldable pub require_role : Text → ApiHandler World → ApiHandler World
  unfolding role_checked
  require_role role next r = role_checked role next r.claims r

  unfoldable pub scope_checked : Text → ApiHandler World → Option Claims → ApiHandler World
  unfolding write_error contains_elem
  scope_checked scope next none r w x = (x, write_error 401 (txt "unauthorized") w)
  scope_checked scope next (some claims) r w x =
      if contains_elem claims.scopes scope
      then next r w x
      else (x, write_error 403 (txt "insufficient permissions") w)

  unfoldable pub require_scope : Text → ApiHandler World → ApiHandler World
  unfolding scope_checked
  require_scope scope next r = scope_checked scope next r.claims r

  -- The header `Vary` is added to a writer that has none yet.
  unfoldable pub cors_middleware : ApiServer → ApiHandler World → ApiHandler World
  unfolding get_header allowed_origin cors_headers write_status set_value
  cors_middleware s next r w x =
      let origin = get_header (txt "Origin") r in
      let varied = if is_empty origin then w else set_value (txt "Vary") (txt "Origin") w in
      let allowed = if is_empty origin then [] else allowed_origin s.allowed_origins origin in
      let written = if is_empty allowed then varied else cors_headers allowed varied in
      if text_beq r.method (txt "OPTIONS")
      then (x, write_status (if is_empty allowed then 403 else 204) written)
      else next r written x

-- How a route of `registerRoutes` wraps its handler.
pub data Access : Type 0 where
  open_to_all : Access
  with_cors : Access
  authenticated : Access
  scoped : Text → Access
  admin_only : Access
  admin_without_cors : Access

unfoldable pub wrap : {World : Type 0} → Access → ApiServer → ApiHandler World → ApiHandler World
unfolding cors_middleware auth_middleware require_scope require_role
wrap open_to_all s h = h
wrap with_cors s h = cors_middleware s h
wrap authenticated s h = cors_middleware s (auth_middleware s h)
wrap (scoped scope) s h = cors_middleware s (auth_middleware s (require_scope scope h))
wrap admin_only s h = cors_middleware s (auth_middleware s (require_role (txt "admin") h))
wrap admin_without_cors s h = auth_middleware s (require_role (txt "admin") h)

abbrev pub routes : List (Text × Access)
routes =
    (txt "GET /health", open_to_all)
    ∷ (txt "POST /api/v1/auth/login", with_cors)
    ∷ (txt "OPTIONS /api/v1/auth/login", with_cors)
    ∷ (txt "GET /api/v1/status", authenticated)
    ∷ (txt "GET /api/v1/config", authenticated)
    ∷ (txt "PUT /api/v1/config", admin_only)
    ∷ (txt "GET /api/v1/metrics", authenticated)
    ∷ (txt "GET /api/v1/plugins", authenticated)
    ∷ (txt "GET /api/v1/plugins/{name}", authenticated)
    ∷ (txt "GET /api/v1/audit", authenticated)
    ∷ (txt "POST /api/v1/events", scoped (txt "events:write"))
    ∷ (txt "GET /api/v1/events", authenticated)
    ∷ (txt "GET /api/v1/marketplace", authenticated)
    ∷ (txt "GET /api/v1/marketplace/categories", authenticated)
    ∷ (txt "GET /api/v1/marketplace/{name}", authenticated)
    ∷ (txt "POST /api/v1/marketplace/install/{name}", admin_only)
    ∷ (txt "DELETE /api/v1/marketplace/uninstall/{name}", admin_only)
    ∷ (txt "GET /api/v1/firewall/rules", authenticated)
    ∷ (txt "POST /api/v1/firewall/block", admin_only)
    ∷ (txt "DELETE /api/v1/firewall/unblock/{ip}", admin_only)
    ∷ (txt "GET /metrics", open_to_all)
    ∷ (txt "GET /debug/pprof/", admin_without_cors)
    ∷ (txt "GET /debug/pprof/cmdline", admin_without_cors)
    ∷ (txt "GET /debug/pprof/profile", admin_without_cors)
    ∷ (txt "GET /debug/pprof/symbol", admin_without_cors)
    ∷ (txt "GET /debug/pprof/trace", admin_without_cors)
    ∷ (txt "GET /", open_to_all)
    ∷ (txt "GET /assets/", open_to_all)
    ∷ []
