-- ===== src/Validation.antt =====
-- plugins/request-validation/plugin.go. `url.QueryUnescape`, `strings.ToLower` and the JSON
-- decoders are parameters.
pub mod Allowed
pub mod Clean
pub mod Tests
use waffynx.Http.{Chunk, bytes, json, set_header, write_header, write_body}
use waffynx.Plugin.{Value, str, Context}
use waffynx.Parsers.Graphql.{GraphqlRequest, inspect_graphql}
use waffynx.Parsers.Upload.{inspect_file_upload}
use waffynx.Common.Decimal.{itoa, value}
use waffynx.Common.{
  eqb, if◌then◌else◌, any, Text, txt, is_empty, has_prefix, contains_text, Map, lookup, insert, ℤ,
  pos, negsuc, ℕ, zero, suc, ◌*◌, Bool, true, false, not, ◌&&◌, Option, none, some, List, [], ◌∷◌,
  ◌++◌, map,
}

-- What the plugin calls: `strings.ToLower`, and decoders, where nothing is an error.
pub record Decoders : Type 0 where
  pub lower : Text → Text
  pub unescape : Text → Option Text
  pub decode_one : Text → Option GraphqlRequest
  pub decode_many : Text → Option (List GraphqlRequest)

pub record RequestValidation : Type 0 where
  pub enabled : Bool
  pub max_body_size : ℤ
  pub allowed_content_types : List Text
  pub block_patterns : List Text

-- A value of the configuration: an int, a list, in which what is no string is `none`, or another.
pub data Setting : Type 0 where
  int : ℤ → Setting
  items : List (Option Text) → Setting
  other : Setting

abbrev pub size_or : ℤ → Option Setting → ℤ
size_or default (some (int n)) = n
size_or default _ = default

unfoldable pub texts_of : List (Option Text) → List Text
texts_of [] = []
texts_of (none ∷ list) = texts_of list
texts_of (some s ∷ list) = s ∷ texts_of list

unfoldable pub types_of : Option Setting → List Text
unfolding texts_of
types_of (some (items list)) = texts_of list
types_of _ = []

abbrev pub default_patterns : List Text
default_patterns =
    txt "../"
    ∷ txt "..\\"
    ∷ txt "<script"
    ∷ txt "</script>"
    ∷ txt "javascript:"
    ∷ txt "onerror="
    ∷ txt "onload="
    ∷ txt "union select"
    ∷ txt "union/**/select"
    ∷ txt "or 1=1"
    ∷ txt "' or '1'='1"
    ∷ txt "exec("
    ∷ txt "system("
    ∷ txt "${"
    ∷ txt "{{"
    ∷ []

unfoldable pub init : Map Setting → RequestValidation
unfolding types_of
init config = record {
  enabled = true;
  max_body_size = size_or (pos (10 * 1024 * 1024)) (lookup (txt "max_body_size") config);
  allowed_content_types = types_of (lookup (txt "allowed_content_types") config);
  block_patterns = default_patterns;
}

-- v, ok := ctx.Values[k].(string); the empty text stands for a missing one.
abbrev pub text_value : Option Value → Text
text_value (some (str s)) = s
text_value _ = []

abbrev pub or_raw : Text → Option Text → Text
or_raw s none = s
or_raw s (some decoded) = decoded

abbrev pub plus_to_blank : ℕ → ℕ
plus_to_blank c = if eqb c b'+' then b' ' else c

abbrev pub decoded_uri : Decoders → Option Value → Text
decoded_uri d (some (str s)) = or_raw s (d.unescape s)
decoded_uri d _ = []

-- The text that is searched for patterns: decoded if it can be, with a blank for each plus.
unfoldable pub url_path : Decoders → Context → Text
url_path d ctx = map plus_to_blank (decoded_uri d (lookup (txt "wn_uri") ctx.values))

-- The first pattern that stands in a text, without regard to case.
unfoldable pub find_pattern : (Text → Text) → List Text → Text → Option Text
unfolding contains_text
find_pattern lower [] s = none
find_pattern lower (p ∷ ps) s =
    if contains_text (lower s) (lower p) then some p else find_pattern lower ps s

unfoldable pub refuse : ℕ → Chunk → Context → Context
unfolding set_header write_header write_body
refuse status body ctx =
    let typed = set_header (txt "Content-Type") (txt "application/json") ctx.writer in
    record ctx { status_code = status; writer = write_body body (write_header status typed) }

abbrev pub tag : Text → Text → Context → Context
tag name value ctx = record ctx { tags = insert name value ctx.tags }

unfoldable pub join_issues : List Text → Text
join_issues [] = []
join_issues (x ∷ []) = x
join_issues (x ∷ y ∷ xs) = x ++ (txt "; " ++ join_issues (y ∷ xs))

unfoldable pub pattern_found : Text → Text → Context → Context × Option Text
unfolding refuse
pattern_found where_found pattern ctx =
    let refused = refuse 403 (bytes (txt "{\"error\":\"malicious request detected\"}")) ctx in
    (
      tag (txt "waf_pattern") pattern (tag (txt "waf_blocked") (txt "true") refused),
      some (txt "waf pattern matched in " ++ (where_found ++ (txt ": " ++ pattern))),
    )

abbrev pub is_nil : List Text → Bool
is_nil [] = true
is_nil (x ∷ xs) = false

-- The answer of 403 with the issues of an inspection.
unfoldable pub issues_found : Text → List Text → Context → Context × Option Text
unfolding refuse join_issues
issues_found what issues ctx =
    let error_text = what ++ (txt " validation failed: " ++ join_issues issues) in
    (
      tag (txt "waf_blocked") (txt "true") (refuse 403 (json ((txt "error", error_text) ∷ [])) ctx),
      some (what ++ (txt " validation: " ++ join_issues issues)),
    )

unfoldable pub inspect_upload_body : Decoders → Text → Context → Context × Option Text
unfolding inspect_file_upload issues_found
inspect_upload_body d body ctx =
    let upload = inspect_file_upload d.lower ctx.request body in
    if upload.is_upload && not (is_nil upload.issues)
    then issues_found (txt "file upload") upload.issues ctx
    else (ctx, none)

abbrev pub tag_depth : ℤ → Context × Option Text → Context × Option Text
tag_depth depth (ctx, err) = (tag (txt "waf_graphql_depth") (itoa depth) ctx, err)

unfoldable pub inspect_body : Decoders → Text → Text → Context → Context × Option Text
unfolding inspect_graphql issues_found inspect_upload_body
inspect_body d content_type body ctx =
    let gql = inspect_graphql d.lower d.decode_one d.decode_many content_type body in
    if gql.is_graphql && not (is_nil gql.issues)
    then tag_depth gql.query_depth (issues_found (txt "graphql") gql.issues ctx)
    else inspect_upload_body d body ctx

-- The part of `Execute` for the body.
unfoldable pub check_body :
    Decoders → RequestValidation → Text → Text → Context → Context × Option Text
unfolding find_pattern pattern_found inspect_body
check_body d p content_type body ctx =
    if is_empty body then (ctx, none) else elim (find_pattern d.lower p.block_patterns body) [
      | some pattern ↦ pattern_found (txt "body") pattern ctx
      | none ↦ inspect_body d content_type body ctx
    ]

-- The part for the URL, and what follows.
unfoldable pub check_url : Decoders → RequestValidation → Text → Context → Context × Option Text
unfolding find_pattern pattern_found url_path check_body
check_url d p content_type ctx = elim (find_pattern d.lower p.block_patterns (url_path d ctx)) [
  | some pattern ↦ pattern_found (txt "URL") pattern ctx
  | none ↦ check_body d p content_type (text_value (lookup (txt "wn_body") ctx.values)) ctx
]

abbrev pub is_positive : ℤ → Bool
is_positive (pos zero) = false
is_positive (pos (suc n)) = true
is_positive (negsuc n) = false

unfoldable pub wrong_type : RequestValidation → Text → Context → Bool
unfolding has_prefix
wrong_type p content_type ctx =
    not (is_nil p.allowed_content_types)
    && not (any (has_prefix content_type) p.allowed_content_types)
    && is_positive ctx.request.content_length

unfoldable pub execute : Decoders → RequestValidation → Context → Context × Option Text
unfolding wrong_type refuse check_url
execute d p ctx =
    let content_type = text_value (lookup (txt "wn_ct") ctx.values) in
    if not p.enabled
    then (ctx, none)
    else if wrong_type p content_type ctx
    then (
      refuse 415 (bytes (txt "{\"error\":\"unsupported content type\"}")) ctx,
      some (txt "unsupported content type: " ++ content_type),
    )
    else check_url d p content_type ctx
