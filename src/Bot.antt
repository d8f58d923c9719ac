-- ===== src/Bot.antt =====
-- plugins/bot-protection/plugin.go. `strings.ToLower`, which folds the case of all of Unicode, is an
-- argument; `Init` gets the configuration as a map of values, of which it reads only strings.
pub mod Blocked
pub mod Tests
use waffynx.Http.{header_get, set_header, write_header, bytes, write_body}
use waffynx.Plugin.{Value, str, opaque, Context}
use waffynx.Common.{
  if◌then◌else◌, lookup, insert, Map, Text, txt, text_beq, is_empty, contains_text, Bool, true, not,
  Option, none, some, List, [], ◌∷◌, ◌++◌,
}

pub record BotProtection : Type 0 where
  pub enabled : Bool
  pub challenge_type : Text
  pub mode : Text
  pub known_bots : List Text

-- v, ok := m[k].(string).
unfoldable pub as_text : Option Value → Option Text
as_text (some (str s)) = some s
as_text (some (opaque n)) = none
as_text none = none

unfoldable pub or_default : Text → Option Text → Text
or_default default none = default
or_default default (some v) = v

abbrev pub known : List Text
known =
    txt "curl" ∷ txt "wget" ∷ txt "python-requests" ∷ txt "Go-http-client" ∷ txt "libwww-perl" ∷ []

unfoldable pub init : Map Value → BotProtection
unfolding as_text or_default
init config = record {
  enabled = true;
  challenge_type = or_default (txt "js") (as_text (lookup (txt "challenge_type") config));
  mode = or_default (txt "log") (as_text (lookup (txt "mode") config));
  known_bots = known;
}

unfoldable pub user_agent : Context → Text
unfolding as_text or_default
user_agent ctx =
    let ua = or_default [] (as_text (lookup (txt "wn_ua") ctx.values)) in
    if is_empty ua then header_get (txt "User-Agent") ctx.request else ua

unfoldable pub tagged : Text → Context → Context
tagged ua ctx = record ctx {
  tags = insert (txt "bot_user_agent") ua (insert (txt "bot_detected") (txt "true") ctx.tags);
}

unfoldable pub denied_body : Text
denied_body = txt "{\"error\":\"bot access denied\"}"

-- The status code, the header, the status line and the body.
unfoldable pub deny : Context → Context
unfolding denied_body
deny ctx =
    let typed = set_header (txt "Content-Type") (txt "application/json") ctx.writer in
    record ctx {
      status_code = 403;
      writer = write_body (bytes denied_body) (write_header 403 typed);
    }

module _ (lower : Text → Text) where
  -- The loop over the bots; the first that is found ends it.
  unfoldable pub bots_loop : Text → Text → List Text → Context → Context × Option Text
  unfolding tagged deny
  bots_loop mode ua [] ctx = (ctx, none)
  bots_loop mode ua (bot ∷ bots) ctx =
      let rest = bots_loop mode ua bots ctx in
      if contains_text (lower ua) (lower bot)
      then (if text_beq mode (txt "block")
          then (deny (tagged ua ctx), some (txt "bot access denied: " ++ bot))
          else (tagged ua ctx, none))
      else rest

  unfoldable pub execute : BotProtection → Context → Context × Option Text
  unfolding user_agent bots_loop
  execute p ctx =
      let ua = user_agent ctx in
      if not p.enabled then (ctx, none) else bots_loop p.mode ua p.known_bots ctx
