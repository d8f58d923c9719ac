-- ===== src/Throttle.antt =====
-- plugins/rate-limit/plugin.go.
pub mod Passed
pub mod Tests
use waffynx.Http.{header_get, bytes, set_header, write_header, write_body}
use waffynx.Plugin.{Value, str, Context}
use waffynx.Limit.{
  Allowed, answer, error, Limiter, Config, second, NewRedis, no_limiter, not_connected, connected,
  new_redis_limiter,
}
use waffynx.Common.{
  if◌then◌else◌, Text, txt, is_empty, Map, lookup, ℤ, pos, zero, Bool, true, false, not, Option,
  none, some, [], ◌∷◌, ◌++◌,
}

-- A value in the map for Redis.
pub data RedisSetting : Type 0 where
  flag : Bool → RedisSetting
  text : Text → RedisSetting
  number : ℤ → RedisSetting
  other_value : RedisSetting

-- A value of the configuration: an int, a map, or another.
pub data Setting : Type 0 where
  int : ℤ → Setting
  sub_map : Map RedisSetting → Setting
  other : Setting

abbrev pub flag_or : Bool → Option RedisSetting → Bool
flag_or default (some (flag b)) = b
flag_or default _ = default

abbrev pub text_or : Text → Option RedisSetting → Text
text_or default (some (text s)) = s
text_or default _ = default

abbrev pub number_or : ℤ → Option RedisSetting → ℤ
number_or default (some (number n)) = n
number_or default _ = default

abbrev pub no_config : Config
no_config = record { enabled = false; addr = []; password = []; db = pos 0 }

unfoldable pub config_of : Option Setting → Config
config_of (some (sub_map m)) = record {
  enabled = flag_or false (lookup (txt "enabled") m);
  addr = text_or [] (lookup (txt "addr") m);
  password = text_or [] (lookup (txt "password") m);
  db = number_or (pos 0) (lookup (txt "db") m);
}
config_of _ = no_config

unfoldable pub parse_redis_config : Map Setting → Config
unfolding config_of
parse_redis_config config = config_of (lookup (txt "redis") config)

-- Which limiter `Init` chose.
pub data Chosen : Type 0 where
  memory : Chosen
  redis : Config → Chosen

pub record RateLimit : Type 0 where
  pub enabled : Bool
  pub requests_per_second : ℤ
  pub burst : ℤ
  pub limiter : Chosen

-- The value of an int that is there, or 0, and the default for 0.
abbrev pub int_or_default : ℤ → Option Setting → ℤ
int_or_default default (some (int (pos zero))) = default
int_or_default default (some (int n)) = n
int_or_default default _ = default

unfoldable pub choose : NewRedis → Chosen
choose no_limiter = memory
choose (not_connected err) = memory
choose (connected cfg) = redis cfg

unfoldable pub init : (Config → Option Text) → Map Setting → RateLimit
unfolding parse_redis_config new_redis_limiter choose
init ping config = record {
  enabled = true;
  requests_per_second = int_or_default (pos 100) (lookup (txt "requests_per_second") config);
  burst = int_or_default (pos 200) (lookup (txt "burst") config);
  limiter = choose (new_redis_limiter ping (parse_redis_config config));
}

abbrev pub forwarded_or : Text → Text → Text
forwarded_or ip [] = ip
forwarded_or ip (c ∷ s) = c ∷ s

abbrev pub value_or : Text → Option Value → Text
value_or ip (some (str (c ∷ s))) = c ∷ s
value_or ip _ = ip

unfoldable pub extract_ip : Context → Text
unfolding header_get
extract_ip ctx =
    value_or (forwarded_or ctx.request.remote_addr (header_get (txt "X-Forwarded-For") ctx.request))
      (lookup (txt "wn_ip") ctx.values)

unfoldable pub refuse : Context → Context
unfolding set_header write_header write_body
refuse ctx =
    let retry = set_header (txt "Retry-After") (txt "1") ctx.writer in
    let typed = set_header (txt "Content-Type") (txt "application/json") retry in
    record ctx {
      status_code = 429;
      writer =
          write_body (bytes (txt "{\"error\":\"rate limit exceeded\"}")) (write_header 429 typed);
    }

-- What follows the call of the limiter.
unfoldable pub after_allow :
    {World : Type 0} → Text → Context → World × Allowed → World × Context × Option Text
unfolding refuse
after_allow ip ctx (w, error err) = (w, ctx, none)
after_allow ip ctx (w, answer true) = (w, ctx, none)
after_allow ip ctx (w, answer false) = (w, refuse ctx, some (txt "rate limit exceeded for " ++ ip))

unfoldable pub execute :
    {World : Type 0} → Limiter World → RateLimit → World → Context → World × Context × Option Text
unfolding extract_ip after_allow
execute l p w ctx =
    if not p.enabled
    then (w, ctx, none)
    else if is_empty (extract_ip ctx)
    then (w, ctx, none)
    else after_allow (extract_ip ctx) ctx (l.allow (extract_ip ctx) p.requests_per_second second w)
