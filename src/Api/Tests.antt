-- ===== src/Api/Tests.antt =====
-- Runs of the middleware.
use waffynx.Api.{
  ApiRequest, ApiHandler, valid, invalid, ApiServer, get_header, bearer, validate_local, validate,
  authenticate, with_claims, auth_middleware, role_checked, require_role, cors_middleware,
  admin_only, wrap,
}
use waffynx.Api.Audited.{new_audit_writer}
use waffynx.Api.Presented.{Presents}
use waffynx.Api.Granted.{Permits, RanOnly, wrap_granted}
use waffynx.Http.{new_writer, or_empty}
use waffynx.Api.Bans.{IpLib, BanState}
use waffynx.Api.Lifted.{BanOp, blocks, unblocks, run_ops, commands_of_ops, last_ban, run_ops_lem}
use waffynx.Firewall.{Rule, Command, Shell, run_cmd, run_err}
use waffynx.Firewall.Manager.{Manager}
use waffynx.Firewall.Ufw.{ufw, add_args, remove_args, ufw_backend}
use waffynx.Common.Words.{trim_space}
use waffynx.Common.{
  if◌then◌else◌, Text, txt, text_beq, has_prefix, lookup, pos, ℕ, ◌+◌, ◌≡◌, refl, true, none, some,
  List, [], ◌∷◌, ◌++◌,
}

-- A server on which the token `t` is that of the administrator.
abbrev token_server : ApiServer
token_server = record {
  oidc = none;
  validate_token = λ token.
      if text_beq token (txt "t")
      then valid (record { username = txt "bob"; role = txt "admin"; scopes = [] })
      else invalid (txt "unknown");
  allowed_origins = [];
}

abbrev with_token : Text → ApiRequest
with_token token = record {
  method = txt "PUT";
  path = txt "/api/v1/config";
  remote_addr = txt "1.2.3.4";
  header = (txt "Authorization", txt "Bearer " ++ token) ∷ [];
  claims = none;
}

-- A handler that counts its calls.
abbrev counting : ApiHandler ℕ
counting r w n = (n + 1, w)

counted_for_admin :
    (wrap admin_only token_server counting (with_token (txt "t")) (new_audit_writer new_writer) 0).0
    ≡ 1
unfolding wrap cors_middleware get_header or_empty lookup auth_middleware authenticate bearer
    has_prefix validate validate_local with_claims require_role role_checked
counted_for_admin = refl

wrap_granted_example :
    RanOnly ℕ
      (λ c. Presents token_server (with_token (txt "t")) c × Permits admin_only c)
      counting
      (with_token (txt "t"))
      0
      (wrap admin_only token_server counting (with_token (txt "t")) (new_audit_writer new_writer) 0)
wrap_granted_example =
    wrap_granted ℕ admin_only token_server counting (with_token (txt "t"))
      (new_audit_writer new_writer) 0 (λ e. cc e) (λ e. cc e)

abbrev no_host : Shell
no_host log c = ([], none)

abbrev ban_manager : Manager
unfolding ufw_backend
ban_manager = record {
  backend = ufw_backend no_host;
  cfg = record {
    enabled = true;
    backend = txt "ufw";
    default_in = txt "deny";
    default_out = txt "allow";
    managed_ports = [];
    block_list = [];
  };
}

abbrev adds_rule : Rule → Command
unfolding add_args
adds_rule r = ufw (add_args r)

abbrev removes_rule : Rule → Command
unfolding remove_args
removes_rule r = ufw (remove_args r)

abbrev no_bans : BanState
no_bans = record { banned = []; log = []; audit = none; broker = none }

abbrev sample_lib : IpLib
unfolding trim_space
sample_lib = record { trim = trim_space; parses = λ ip. true }

abbrev ban_and_lift : List (ℕ × BanOp)
ban_and_lift =
    (5, blocks (some (record { ip = txt " a "; reason = []; ttl = pos 0 })) (with_token (txt "t")))
    ∷ (6, unblocks (txt "a") (with_token (txt "t")))
    ∷ []

run_ops_lem_example :
    ((run_ops sample_lib
        (λ b. [])
        ban_manager
        (new_audit_writer new_writer)
        ban_and_lift
        no_bans).log
      ≡ [] ++ commands_of_ops sample_lib adds_rule removes_rule ban_and_lift)
    × ((ip : Text)
        → lookup ip
            (run_ops sample_lib
              (λ b. [])
              ban_manager
              (new_audit_writer new_writer)
              ban_and_lift
              no_bans).banned
          ≡ last_ban sample_lib ip ban_and_lift (lookup ip []))
unfolding ban_manager ufw_backend run_err run_cmd adds_rule removes_rule
run_ops_lem_example =
    run_ops_lem sample_lib (λ b. []) ban_manager (new_audit_writer new_writer) adds_rule
      removes_rule (λ r log. refl) (λ r log. refl) ban_and_lift no_bans
