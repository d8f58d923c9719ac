-- ===== src/Api/Presented.antt =====
-- Which claims a request presents.
use waffynx.Api.{
  Claims, ApiRequest, Validated, valid, ApiServer, authenticate, invalid, get_header, bearer,
  validate_local, oidc_or_local, validate,
}
use waffynx.Http.{or_empty}
use waffynx.Common.Substring.{has_prefix_iff}
use waffynx.Common.{
  if◌then◌else◌, Bool-cases, Option-cases, Option, none, [], ◌∷◌, ◌++◌, is_empty, has_prefix,
  lookup, drop, sym, ap, ◌∙◌, Text, txt, ◌≡◌, refl, inl, inr, some,
}

-- The claims that a token stands for: those of the OIDC user, if OIDC is on and knows the token, with
-- the scopes `read` and `write`; else those of the local validation.
pub data Stands (s : ApiServer) (token : Text) (c : Claims) : Type 0 where
  of_user :
      (manager : Text → Option (Text × Text)) (username role : Text)
      → s.oidc ≡ some manager
      → manager token ≡ some (username, role)
      → c ≡ record { username = username; role = role; scopes = txt "read" ∷ txt "write" ∷ [] }
      → Stands s token c
  of_token :
      ((manager : Text → Option (Text × Text)) → s.oidc ≡ some manager → manager token ≡ none)
      → s.validate_token token ≡ valid c
      → Stands s token c

-- The request has an authorization header `Bearer`, with a token that stands for the claims.
pub record Presents (s : ApiServer) (r : ApiRequest) (c : Claims) : Type 0 where
  pub token : Text
  pub header : lookup (txt "Authorization") r.header ≡ some (txt "Bearer " ++ token)
  pub stands : Stands s token c

validate_local_lem :
    (s : ApiServer) (token : Text) (c : Claims)
    → validate_local s token ≡ valid c
    → s.validate_token token ≡ valid c
unfolding validate_local
validate_local_lem s token c = go (s.validate_token token)
  where
    go :
        (v : Validated)
        → (elim v as (λ _. Validated) [
          | valid claims ↦ valid claims
          | invalid err ↦ invalid (txt "invalid token: " ++ err)
        ])
          ≡ valid c
        → v ≡ valid c
    go (valid claims) e = e
    go (invalid err) e = cc e

-- Without an OIDC user the token is validated locally.
no_user :
    (s : ApiServer) (token : Text) (known : Option (Text → Option (Text × Text)))
    → s.oidc ≡ known
    → ((manager : Text → Option (Text × Text)) → known ≡ some manager → manager token ≡ none)
    → (manager : Text → Option (Text × Text)) → s.oidc ≡ some manager
    → manager token ≡ none
no_user s token known e none_of manager h = none_of manager (sym e ∙ h)

oidc_or_local-Stands :
    (s : ApiServer) (token : Text) (c : Claims) (manager : Text → Option (Text × Text))
    (o : Option (Text × Text))
    → s.oidc ≡ some manager
    → manager token ≡ o
    → oidc_or_local s token o ≡ valid c
    → Stands s token c
unfolding oidc_or_local
oidc_or_local-Stands s token c manager none on e h =
    of_token (no_user s token (some manager) on (λ m same. same_manager m (cc same) e))
      (validate_local_lem s token c h)
  where
    same_manager :
        (m : Text → Option (Text × Text)) → manager ≡ m → manager token ≡ none → m token ≡ none
    same_manager m same gives = sym (ap (λ f. f token) same) ∙ gives
oidc_or_local-Stands s token c manager (some (username, role)) on e h =
    of_user manager username role on e (cc h)

validate-Stands :
    (s : ApiServer) (token : Text) (c : Claims) → validate s token ≡ valid c → Stands s token c
unfolding validate
validate-Stands s token c h = elim (Option-cases s.oidc) [
  | inl e ↦
      of_token (no_user s token none e (λ m bad. cc bad))
        (validate_local_lem s token c (rw (e, validate) at h))
  | inr (manager, e) ↦
      oidc_or_local-Stands s token c manager (manager token) e refl (rw (e, validate) at h)
]

pub authenticate-Presents :
    (s : ApiServer) (r : ApiRequest) (c : Claims) → authenticate s r ≡ valid c → Presents s r c
unfolding authenticate get_header or_empty bearer
authenticate-Presents s r c h = elim (Option-cases (lookup (txt "Authorization") r.header)) [
  | inl e ↦ cc (rw (e, authenticate) at h)
  | inr (header, e) ↦ by_header header e (rw (e, authenticate) at h)
]
  where
    by_header :
        (header : Text)
        → lookup (txt "Authorization") r.header ≡ some header
        → (if is_empty header
            then invalid (txt "missing authorization header")
            else elim (bearer header) as (λ _. Validated) [
              | none ↦ invalid (txt "invalid authorization format")
              | some token ↦ validate s token
            ])
          ≡ valid c
        → Presents s r c
    by_header [] e k = cc k
    by_header (x ∷ header) e k = elim (Bool-cases (has_prefix (x ∷ header) (txt "Bearer "))) [
      | inl begins ↦
          let (rest, split) = (has_prefix_iff (x ∷ header) (txt "Bearer ")).0 begins in
          let k' : validate s (drop 7 (x ∷ header)) ≡ valid c = rw (begins, bearer) at k in
          record {
            token = rest;
            header = e ∙ ap some split;
            stands = validate-Stands s rest c (ap (λ t. validate s (drop 7 t)) (sym split) ∙ k');
          }
      | inr other ↦
          let k' : invalid (txt "invalid authorization format") ≡ valid c =
            rw (other, bearer) at k in
          cc k'
    ]
