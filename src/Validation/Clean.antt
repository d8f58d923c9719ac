-- ===== src/Validation/Clean.antt =====
-- Which requests the plugin lets through.
use waffynx.Validation.{
  Decoders, RequestValidation, text_value, url_path, wrong_type, check_url, refuse,
}
use waffynx.Validation.Allowed.{TypeAllowed}
use waffynx.Plugin.{Context}
use waffynx.Parsers.Graphql.{inspect_graphql}
use waffynx.Parsers.Upload.{inspect_file_upload}
use waffynx.Common.Substring.{Contains}
use waffynx.Http.{bytes}
use waffynx.Common.{
  if◌then◌else◌, All, Text, txt, lookup, ◌≡◌, ◌≢◌, ◌⊎◌, Bool, true, Option, none, some, List, [],
  ◌++◌,
}

-- No pattern stands in the text, without regard to case.
abbrev pub IsClean : (Text → Text) → List Text → Text → Type 0
IsClean lower patterns s = All (λ p. Contains (lower s) (lower p) → ⊥) patterns

-- No issue was found.
abbrev pub NoIssue : Bool → List Text → Type 0
NoIssue inspected issues = (inspected ≡ true) → issues ≡ []

abbrev pub content_type_of : Context → Text
content_type_of ctx = text_value (lookup (txt "wn_ct") ctx.values)

abbrev pub body_of : Context → Text
body_of ctx = text_value (lookup (txt "wn_body") ctx.values)

-- The context is as it was and `P` holds, or there is an error and `P` does not hold.
Judged : Context → Context × Option Text → Type 0 → Type 0
Judged ctx r P = ((r ≡ (ctx, none)) × P) ⊎ ((r.1 ≢ none) × (P → ⊥))

-- What the checks of a body ask.
abbrev pub BodyPasses : Decoders → RequestValidation → Text → Text → Context → Type 0
BodyPasses d p ct body ctx =
    (body ≢ [])
    → IsClean d.lower p.block_patterns body
      × NoIssue (inspect_graphql d.lower d.decode_one d.decode_many ct body).is_graphql
          (inspect_graphql d.lower d.decode_one d.decode_many ct body).issues
      × NoIssue (inspect_file_upload d.lower ctx.request body).is_upload
          (inspect_file_upload d.lower ctx.request body).issues

-- What the plugin asks of a request.
abbrev pub Passes : Decoders → RequestValidation → Context → Type 0
Passes d p ctx =
    TypeAllowed p (content_type_of ctx) ctx
    × IsClean d.lower p.block_patterns (url_path d ctx)
    × BodyPasses d p (content_type_of ctx) (body_of ctx) ctx

-- `Execute` of a plugin that is on.
checked : Decoders → RequestValidation → Context → Context × Option Text
checked d p ctx =
    if wrong_type p (content_type_of ctx) ctx
    then (
      refuse 415 (bytes (txt "{\"error\":\"unsupported content type\"}")) ctx,
      some (txt "unsupported content type: " ++ content_type_of ctx),
    )
    else check_url d p (content_type_of ctx) ctx
