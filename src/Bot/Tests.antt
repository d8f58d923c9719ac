-- ===== src/Bot/Tests.antt =====
-- Runs of the bot protection.
use waffynx.Http.{HttpRequest, new_writer}
use waffynx.Plugin.{Context, str, new_context}
use waffynx.Bot.{BotProtection, init, user_agent, tagged, deny, execute}
use waffynx.Bot.Blocked.{IsBot, execute_lem}
use waffynx.Common.Substring.{Elem}
use waffynx.Common.{
  Text, txt, to_lower, pos, lookup, contains_text, has_prefix, ◌≡◌, ◌⊎◌, refl, true, none, some, [],
  ◌∷◌, ◌++◌,
}

abbrev blocking : BotProtection
blocking = init ((txt "mode", str (txt "block")) ∷ [])

abbrev request : HttpRequest
request = record { header = []; path = txt "/"; remote_addr = []; content_length = pos 0 }

abbrev by_curl : Context
by_curl = record (new_context new_writer request) {
  values = (txt "wn_ua", str (txt "Curl/8")) ∷ [];
}

blocks_curl : (execute to_lower blocking by_curl).1 ≡ some (txt "bot access denied: curl")
unfolding execute init new_context lookup contains_text has_prefix
blocks_curl = refl

execute_lem_example :
    (((execute to_lower blocking by_curl).1 ≡ none)
      × ¬ (
          (blocking.enabled ≡ true)
          × (blocking.mode ≡ txt "block")
          × IsBot to_lower blocking.known_bots (user_agent by_curl)))
    ⊎ (((bot : Text) × Elem bot blocking.known_bots
          × (execute to_lower blocking by_curl ≡ (
            deny (tagged (user_agent by_curl) by_curl),
            some (txt "bot access denied: " ++ bot),
          )))
        × ((blocking.enabled ≡ true)
            × (blocking.mode ≡ txt "block")
            × IsBot to_lower blocking.known_bots (user_agent by_curl)))
execute_lem_example = execute_lem to_lower blocking by_curl
