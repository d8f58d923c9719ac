-- ===== src/Api/Granted.antt =====
-- Who reaches the handler of a route.
use waffynx.Api.{
  Claims, ApiRequest, AuditWriter, ApiHandler, Validated, valid, ApiServer, authenticate,
  with_claims, auth_middleware, role_checked, scope_checked, Access, open_to_all, with_cors,
  authenticated, scoped, admin_only, admin_without_cors, invalid, require_role, require_scope,
  cors_middleware, wrap,
}
use waffynx.Api.Presented.{Presents, authenticate-Presents}
use waffynx.Common.Substring.{Elem, contains_elem_iff}
use waffynx.Common.{
  Bool-cases, Text, txt, text_beq, text_beq_iff, contains_elem, ◌≡◌, refl, ◌≢◌, ◌⊎◌, inl, inr, some,
}

-- The claims that a route asks for; the first two kinds ask for none.
abbrev pub Permits : Access → Claims → Type 0
Permits open_to_all c = Unit
Permits with_cors c = Unit
Permits authenticated c = Unit
Permits (scoped scope) c = Elem scope c.scopes
Permits admin_only c = c.role ≡ txt "admin"
Permits admin_without_cors c = c.role ≡ txt "admin"

module _ (World : Type 0) where
  -- The handler ran with the claims, or the world was left as it was.
  abbrev pub RanOnly :
      (Claims → Type 0) → ApiHandler World → ApiRequest → World → World × AuditWriter → Type 0
  RanOnly P h r x result =
      ((c : Claims) × (w : AuditWriter) × P c × (result ≡ h (record r { claims = some c }) w x))
      ⊎ (result.0 ≡ x)

  role_checked_lem :
      (role : Text) (h : ApiHandler World) (c : Claims) (r : ApiRequest) (w : AuditWriter)
      (x : World)
      → ((role_checked role h (some c) r w x ≡ h r w x)
          × ((c.role ≡ role) ⊎ (c.role ≡ txt "admin")))
        ⊎ ((role_checked role h (some c) r w x).0 ≡ x)
  unfolding role_checked
  role_checked_lem role h c r w x = elim (Bool-cases (text_beq c.role role)) [
    | inl same ↦ rw same (inl (refl, inl ((text_beq_iff c.role role).0 same)))
    | inr other ↦ elim (Bool-cases (text_beq c.role (txt "admin"))) [
      | inl admin ↦
          rw (other, admin) (inl (refl, inr ((text_beq_iff c.role (txt "admin")).0 admin)))
      | inr not_admin ↦ rw (other, not_admin) (inr refl)
    ]
  ]

  scope_checked_lem :
      (scope : Text) (h : ApiHandler World) (c : Claims) (r : ApiRequest) (w : AuditWriter)
      (x : World)
      → ((scope_checked scope h (some c) r w x ≡ h r w x) × Elem scope c.scopes)
        ⊎ ((scope_checked scope h (some c) r w x).0 ≡ x)
  unfolding scope_checked
  scope_checked_lem scope h c r w x = elim (Bool-cases (contains_elem c.scopes scope)) [
    | inl has ↦ rw has (inl (refl, (contains_elem_iff c.scopes scope).0 has))
    | inr lacks ↦ rw lacks (inr refl)
  ]

  -- What a check behind the authentication lets through.
  Lets : (Claims → Type 0) → ApiHandler World → ApiHandler World → ApiRequest → World → Type 0
  Lets P next h r x =
      (c : Claims) (w : AuditWriter)
      → ((next (record r { claims = some c }) w x ≡ h (record r { claims = some c }) w x) × P c)
        ⊎ ((next (record r { claims = some c }) w x).0 ≡ x)

  with_claims_lem :
      (P : Claims → Type 0) (s : ApiServer) (next h : ApiHandler World) (r : ApiRequest)
      (w : AuditWriter) (x : World) (v : Validated)
      → authenticate s r ≡ v
      → Lets P next h r x
      → RanOnly (λ c. Presents s r c × P c) h r x (with_claims next v r w x)
  unfolding with_claims Lets
  with_claims_lem P s next h r w x (invalid message) e lets = inr refl
  with_claims_lem P s next h r w x (valid c) e lets = elim (lets c w) [
    | inl (same, good) ↦ inl (c, w, (authenticate-Presents s r c e, good), same)
    | inr kept ↦ inr kept
  ]

  auth_lem :
      (P : Claims → Type 0) (s : ApiServer) (next h : ApiHandler World) (r : ApiRequest)
      (w : AuditWriter) (x : World)
      → Lets P next h r x
      → RanOnly (λ c. Presents s r c × P c) h r x (auth_middleware s next r w x)
  unfolding auth_middleware
  auth_lem P s next h r w x lets = with_claims_lem P s next h r w x (authenticate s r) refl lets

  cors_lem :
      (Q : Claims → Type 0) (s : ApiServer) (next h : ApiHandler World) (r : ApiRequest)
      (w : AuditWriter) (x : World)
      → ((w' : AuditWriter) → RanOnly Q h r x (next r w' x))
      → RanOnly Q h r x (cors_middleware s next r w x)
  unfolding cors_middleware
  cors_lem Q s next h r w x ran = elim (Bool-cases (text_beq r.method (txt "OPTIONS"))) [
    | inl preflight ↦ rw preflight (inr refl)
    | inr other ↦ rw other (ran _)
  ]

  admin_Lets :
      (h : ApiHandler World) (r : ApiRequest) (x : World)
      → Lets (λ c. c.role ≡ txt "admin") (require_role (txt "admin") h) h r x
  unfolding Lets require_role
  admin_Lets h r x c w =
      elim (role_checked_lem (txt "admin") h c (record r { claims = some c }) w x) [
        | inl (same, role) ↦ inl (same, (elim role [ inl e ↦ e | inr e ↦ e ]))
        | inr kept ↦ inr kept
      ]

  -- A route that asks for claims runs its handler only for a request with an authorization header
  -- `Bearer` and a token that the OIDC manager or the local validation knows, with the claims of this
  -- token, of which it permits the route: the scope of the route is among them, or the role is
  -- admin. For any other request it leaves the world as it is.
  pub wrap_granted :
      (access : Access) (s : ApiServer) (h : ApiHandler World) (r : ApiRequest) (w : AuditWriter)
      (x : World)
      → access ≢ open_to_all
      → access ≢ with_cors
      → RanOnly (λ c. Presents s r c × Permits access c) h r x (wrap access s h r w x)
  unfolding wrap Lets require_scope
  wrap_granted open_to_all s h r w x no_open no_cors = absurd (no_open refl)
  wrap_granted with_cors s h r w x no_open no_cors = absurd (no_cors refl)
  wrap_granted authenticated s h r w x no_open no_cors =
      cors_lem _ s (auth_middleware s h) h r w x
        (λ w'. auth_lem (λ c. Unit) s h h r w' x (λ c w''. inl (refl, tt)))
  wrap_granted (scoped scope) s h r w x no_open no_cors =
      cors_lem _ s (auth_middleware s (require_scope scope h)) h r w x (λ w'.
        auth_lem (λ c. Elem scope c.scopes) s (require_scope scope h) h r w' x
          (λ c w''. scope_checked_lem scope h c (record r { claims = some c }) w'' x))
  wrap_granted admin_only s h r w x no_open no_cors =
      cors_lem _ s (auth_middleware s (require_role (txt "admin") h)) h r w x (λ w'.
        auth_lem (λ c. c.role ≡ txt "admin") s (require_role (txt "admin") h) h r w' x
          (admin_Lets h r x))
  wrap_granted admin_without_cors s h r w x no_open no_cors =
      auth_lem (λ c. c.role ≡ txt "admin") s (require_role (txt "admin") h) h r w x
        (admin_Lets h r x)
