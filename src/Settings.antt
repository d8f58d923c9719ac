-- ===== src/Settings.antt =====
-- internal/config/config.go: the configuration, its defaults and its check. The YAML decoder is a
-- parameter, over the values that it is given; the free settings of a plugin are left out.
pub mod Loaded
pub mod Tests
use waffynx.Firewall.Manager.{FirewallConfig}
use waffynx.Common.{
  if◌then◌else◌, Text, txt, text_beq, is_empty, Map, ℤ, pos, Bool, true, false, not, ◌&&◌, Option,
  none, some, List, [], ◌++◌,
}

pub record SidecarConfig : Type 0 where
  pub socket_path : Text
  pub fail_open : Bool
  pub timeout_ms : ℤ
  pub event_api_url : Text
  pub event_auth_token : Text
  pub event_timeout_ms : ℤ

pub record LoggingConfig : Type 0 where
  pub level : Text
  pub format : Text
  pub output : Text

pub record NginxConfig : Type 0 where
  pub binary_path : Text
  pub config_path : Text
  pub worker_processes : ℤ
  pub worker_connections : ℤ
  pub enable_http2 : Bool
  pub enable_http3 : Bool

pub record AppSecConfig : Type 0 where
  pub enabled : Bool
  pub engine : Text
  pub rules_path : Text
  pub ml_model_path : Text
  pub learning_mode : Bool
  pub bridge_socket : Text
  pub timeout_ms : ℤ

pub record GatewayConfig : Type 0 where
  pub max_connections : ℤ
  pub read_timeout : ℤ
  pub write_timeout : ℤ
  pub idle_timeout : ℤ
  pub enable_rate_limiting : Bool

pub record TlsConfig : Type 0 where
  pub cert_file : Text
  pub key_file : Text

pub record RouteConfig : Type 0 where
  pub name : Text
  pub host : Text
  pub path : Text
  pub methods : List Text
  pub upstream : Text
  pub tls : Option TlsConfig
  pub plugins : List Text
  pub headers : Map Text

pub record AcmeConfig : Type 0 where
  pub enabled : Bool
  pub domains : List Text
  pub email : Text
  pub cache_dir : Text
  pub staging : Bool

pub record TlsGlobalConfig : Type 0 where
  pub static_cert : Text
  pub static_key : Text
  pub acme : AcmeConfig

pub record PluginConfig : Type 0 where
  pub name : Text
  pub enabled : Bool

pub record OidcProvider : Type 0 where
  pub name : Text
  pub issuer_url : Text
  pub client_id : Text
  pub client_secret : Text

pub record UserConfig : Type 0 where
  pub username : Text
  pub password_hash : Text

pub record AuthConfig : Type 0 where
  pub jwt_secret : Text
  pub token_ttl : ℤ
  pub oidc : List OidcProvider
  pub users : List UserConfig

pub record ApiConfig : Type 0 where
  pub enabled : Bool
  pub listen : Text
  pub allowed_origins : List Text
  pub auth : AuthConfig

pub record Config : Type 0 where
  pub name : Text
  pub version : Text
  pub listen : Text
  pub logging : LoggingConfig
  pub sidecar : SidecarConfig
  pub nginx : NginxConfig
  pub appsec : AppSecConfig
  pub gateway : GatewayConfig
  pub tls : TlsGlobalConfig
  pub routes : List RouteConfig
  pub plugins : List PluginConfig
  pub firewall : FirewallConfig
  pub api : ApiConfig

abbrev pub no_acme : AcmeConfig
no_acme = record { enabled = false; domains = []; email = []; cache_dir = []; staging = false }

-- What is not set in the source has the zero value of its type.
abbrev pub default_config : Config
default_config = record {
  name = txt "waffynx";
  version = txt "1";
  listen = txt ":8443";
  logging = record { level = txt "info"; format = txt "json"; output = txt "stdout" };
  sidecar = record {
    socket_path = txt "/var/run/waffynx.sock";
    fail_open = false;
    timeout_ms = pos 100;
    event_api_url = [];
    event_auth_token = [];
    event_timeout_ms = pos 200;
  };
  nginx = record {
    binary_path = txt "/opt/waffynx/nginx/sbin/nginx";
    config_path = txt "/opt/waffynx/nginx/conf";
    worker_processes = pos 0;
    worker_connections = pos 65535;
    enable_http2 = true;
    enable_http3 = false;
  };
  appsec = record {
    enabled = false;
    engine = txt "basic-go";
    rules_path = [];
    ml_model_path = [];
    learning_mode = false;
    bridge_socket = txt "/var/run/open-appsec.sock";
    timeout_ms = pos 200;
  };
  gateway = record {
    max_connections = pos 65535;
    read_timeout = pos 60;
    write_timeout = pos 60;
    idle_timeout = pos 120;
    enable_rate_limiting = false;
  };
  tls = record { static_cert = []; static_key = []; acme = no_acme };
  routes = [];
  plugins = [];
  firewall = record {
    enabled = false;
    backend = txt "nftables";
    default_in = txt "deny";
    default_out = txt "allow";
    managed_ports = [];
    block_list = [];
  };
  api = record {
    enabled = false;
    listen = txt ":9090";
    allowed_origins = [];
    auth = record { jwt_secret = []; token_ttl = pos 3600; oidc = []; users = [] };
  };
}

-- The text of the error, or none.
unfoldable pub validate_config : Config → Option Text
validate_config c =
    if is_empty c.listen
    then some (txt "listen address is required")
    else if not (text_beq c.firewall.backend (txt "ufw"))
        && not (text_beq c.firewall.backend (txt "nftables"))
    then some (txt "firewall backend must be 'ufw' or 'nftables', got: " ++ c.firewall.backend)
    else none

pub data Parsed : Type 0 where
  parsed : Config → Parsed
  not_parsed : Text → Parsed

-- What the decoder makes of the file and the defaults.
pub data Decoded : Type 0 where
  decoded : Config → Decoded
  not_decoded : Text → Decoded

unfoldable pub checked_config : Config → Option Text → Parsed
checked_config c none = parsed c
checked_config c (some err) = not_parsed (txt "validating config: " ++ err)

unfoldable pub after_decoding : Decoded → Parsed
unfolding validate_config checked_config
after_decoding (not_decoded err) = not_parsed (txt "parsing config file: " ++ err)
after_decoding (decoded c) = checked_config c (validate_config c)

unfoldable pub parse : (Text → Config → Decoded) → Text → Parsed
unfolding after_decoding
parse decode contents = after_decoding (decode contents default_config)

-- The contents of the file, or the error of reading it.
pub data FileRead : Type 0 where
  contents_of : Text → FileRead
  unreadable : Text → FileRead

unfoldable pub load : (Text → FileRead) → (Text → Config → Decoded) → Text → Parsed
unfolding parse
load read decode path = elim (read path) [
  | unreadable err ↦ not_parsed (txt "reading config file: " ++ err)
  | contents_of contents ↦ parse decode contents
]
