-- ===== src/Geo/Tests.antt =====
-- Runs of the geo block, with addresses that are texts.
use waffynx.Http.{HttpRequest, new_writer}
use waffynx.Plugin.{Context, str, new_context}
use waffynx.Geo.{
  Setting, text, items, Opening, opened, GeoBlock, extract_ip, lookup_country, execute, init,
}
use waffynx.Geo.Refused.{IsForbidden, execute-passes}
use waffynx.Common.{
  Map, Text, txt, pos, lookup, insert, ◌≡◌, ◌≢◌, ◌↔◌, refl, true, Option, none, some, [], ◌∷◌,
}

abbrev whole : Text → Option Text
whole s = none

-- A database in which every address is in one country.
abbrev all_in_fr : Text → Opening Text
all_in_fr path = opened (λ ip. some (txt "FR"))

abbrev blocks_fr : GeoBlock Text
blocks_fr = record {
  enabled = true;
  allowed_countries = [];
  blocked_countries = (txt "FR", true) ∷ [];
  mode = txt "block";
  db_path = txt "db";
  db = some (λ ip. some (txt "FR"));
}

abbrev config : Map Setting
config =
    (txt "blocked_countries", items (some (txt "FR") ∷ [])) ∷ (txt "db_path", text (txt "db")) ∷ []

from_config : init all_in_fr config ≡ some blocks_fr
unfolding init lookup insert
from_config = refl

abbrev request : HttpRequest
request = record { header = []; path = txt "/"; remote_addr = []; content_length = pos 0 }

abbrev client : Context
client = record (new_context new_writer request) {
  values = (txt "wn_ip", str (txt "1.1.1.1")) ∷ [];
}

refuses_fr : (execute whole some blocks_fr client).0.status_code ≡ 403
unfolding execute lookup new_context
refuses_fr = refl

execute-passes_example :
    ((execute whole some blocks_fr client).1 ≡ none)
    ↔ ¬ (
        (blocks_fr.enabled ≡ true)
        × (extract_ip whole some client ≢ [])
        × ((ip : Text) × (some (extract_ip whole some client) ≡ some ip)
            × IsForbidden blocks_fr (lookup_country blocks_fr ip)))
execute-passes_example = execute-passes whole some blocks_fr client
