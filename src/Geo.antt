-- ===== src/Geo.antt =====
-- plugins/geo-block/plugin.go. `net.ParseIP` and `net.SplitHostPort` are arguments, and so is what
-- the file system and the MaxMind reader say of the path of the database.
pub mod Refused
pub mod Tests
use waffynx.Http.{header_get, set_header, write_header, bytes, write_body}
use waffynx.Plugin.{Value, str, opaque, Context}
use waffynx.Common.{
  if◌then◌else◌, lookup, insert, Map, Text, txt, text_beq, is_empty, Bool, true, false, not, ◌&&◌,
  Option, none, some, List, [], ◌∷◌, ◌++◌,
}

-- A value of the configuration: a string, a list, in which what is no string is `none`, or another.
pub data Setting : Type 0 where
  text : Text → Setting
  items : List (Option Text) → Setting
  other : Setting

-- The database, as its function from addresses to country codes; `none` is an error of the lookup.
pub record GeoBlock (Ip : Type 0) : Type 0 where
  pub enabled : Bool
  pub allowed_countries : Map Bool
  pub blocked_countries : Map Bool
  pub mode : Text
  pub db_path : Text
  pub db : Option (Ip → Option Text)

-- os.Stat and maxminddb.Open: there is no such file, it is no database, or it is one.
pub data Opening (Ip : Type 0) : Type 0 where
  missing : Opening Ip
  broken : Text → Opening Ip
  opened : (Ip → Option Text) → Opening Ip

unfoldable pub countries : List (Option Text) → Map Bool → Map Bool
countries [] target = target
countries (none ∷ list) target = countries list target
countries (some s ∷ list) target = countries list (insert s true target)

unfoldable pub parse_country_list : Option Setting → Map Bool → Map Bool
unfolding countries
parse_country_list (some (items list)) target = countries list target
parse_country_list _ target = target

-- v, ok := config[k].(string); ok && v != "".
unfoldable pub text_or : Text → Option Setting → Text
text_or default (some (text [])) = default
text_or default (some (text (c ∷ s))) = c ∷ s
text_or default _ = default

abbrev pub default_path : Text
default_path = txt "/opt/waffynx/geoip/GeoLite2-Country.mmdb"

-- len(m) == 0.
abbrev pub is_nil : Map Bool → Bool
is_nil [] = true
is_nil (_ ∷ _) = false

-- The index of a map[string]bool.
unfoldable pub holds : Option Bool → Bool
holds none = false
holds (some b) = b

-- v, ok := ctx.Values[k].(string); the empty text stands for a missing one.
unfoldable pub text_value : Option Value → Text
text_value (some (str s)) = s
text_value _ = []

unfoldable pub or_unknown_country : Option Text → Text
or_unknown_country none = txt "XX"
or_unknown_country (some []) = txt "XX"
or_unknown_country (some (c ∷ s)) = c ∷ s

-- The status code, the header, the status line and the body.
unfoldable pub refuse : Text → Context → Context
refuse body ctx =
    let typed = set_header (txt "Content-Type") (txt "application/json") ctx.writer in
    record ctx { status_code = 403; writer = write_body (bytes body) (write_header 403 typed) }

abbrev pub host_or : Text → Option Text → Text
host_or ip none = ip
host_or ip (some host) = host

module _ {Ip : Type 0} where
  -- `none` is the error of `Init`.
  unfoldable pub init : (Text → Opening Ip) → Map Setting → Option (GeoBlock Ip)
  unfolding parse_country_list text_or
  init open_db config =
      let p : GeoBlock Ip = record {
        enabled = true;
        allowed_countries = parse_country_list (lookup (txt "allowed_countries") config) [];
        blocked_countries = parse_country_list (lookup (txt "blocked_countries") config) [];
        mode = text_or (txt "block") (lookup (txt "mode") config);
        db_path = text_or default_path (lookup (txt "db_path") config);
        db = none;
      } in
      elim (open_db p.db_path) [
        | missing ↦ some p
        | broken message ↦ none
        | opened db ↦ some (record p { db = some db })
      ]

  unfoldable pub lookup_country : GeoBlock Ip → Ip → Text
  unfolding or_unknown_country
  lookup_country p ip = elim p.db [ none ↦ txt "XX" | some db ↦ or_unknown_country (db ip) ]

  -- The part of `Execute` behind the lookup of the country.
  unfoldable pub judge : Text → Text → GeoBlock Ip → Context → Context × Option Text
  unfolding holds refuse
  judge client country p ctx =
      if text_beq p.mode (txt "allow") && not (is_nil p.allowed_countries)
      then (if not (holds (lookup country p.allowed_countries))
          then (
            refuse (txt "{\"error\":\"access denied: country not allowed\"}") ctx,
            some (
                txt "geo-block: "
                ++ (client ++ (txt " from " ++ (country ++ txt " not in allowed list")))),
          )
          else (ctx, none))
      else if not (is_nil p.blocked_countries) && holds (lookup country p.blocked_countries)
      then (
        refuse (txt "{\"error\":\"access denied: country blocked\"}") ctx,
        some (txt "geo-block: " ++ (client ++ (txt " from " ++ (country ++ txt " is blocked")))),
      )
      else (ctx, none)

  module _ (split_host : Text → Option Text) (parse_ip : Text → Option Ip) where
    unfoldable pub extract_ip : Context → Text
    unfolding text_value
    extract_ip ctx =
        let v = text_value (lookup (txt "wn_ip") ctx.values) in
        let forwarded = header_get (txt "X-Forwarded-For") ctx.request in
        let ip = if is_empty forwarded then ctx.request.remote_addr else forwarded in
        if is_empty v then host_or ip (split_host ip) else v

    unfoldable pub execute : GeoBlock Ip → Context → Context × Option Text
    unfolding extract_ip lookup_country judge
    execute p ctx =
        let client = extract_ip ctx in
        if not p.enabled
        then (ctx, none)
        else if is_empty client
        then (ctx, none)
        else elim (parse_ip client) [
          | none ↦ (ctx, none)
          | some ip ↦ judge client (lookup_country p ip) p ctx
        ]
