-- ===== src/Parsers/Tests.antt =====
-- Runs of the inspections.
use waffynx.Parsers.Graphql.{
  depth_loop, calculate_query_depth, detect_introspection, check_suspicious_variables, inspect_one,
  batch_loop, inspect_batch,
}
use waffynx.Parsers.Upload.{same_bytes, magic_loop, validate_magic_bytes}
use waffynx.Parsers.Depth.{count, calculate_query_depth_lem}
use waffynx.Common.{
  take, Text, txt, has_prefix, contains_text, to_lower, pos, ℕ, ◌+◌, ◌≤◌, ◌≡◌, refl, true, false,
  [], ◌∷◌,
}

abbrev sample_query : Text
sample_query = txt "}{ a { b } { c { d } } }"

sample_depth : calculate_query_depth sample_query ≡ pos 2
unfolding calculate_query_depth depth_loop
sample_depth = refl

calculate_query_depth_lem_example :
    (n : ℕ) × (calculate_query_depth sample_query ≡ pos n)
    × ((k : ℕ) → count b'{' (take k sample_query) ≤ n + count b'}' (take k sample_query))
    × ((k : ℕ) × (count b'{' (take k sample_query) ≡ n + count b'}' (take k sample_query)))
calculate_query_depth_lem_example = calculate_query_depth_lem sample_query

-- A field whose name holds the word `types`.
types_in_a_name : detect_introspection to_lower (txt "{ prototypes }") ≡ true
unfolding detect_introspection contains_text has_prefix
types_in_a_name = refl

abbrev deep : Text
deep = txt "{{{{{{{{{{{{{{{{{{{{{a}}}}}}}}}}}}}}}}}}}}}"

-- A query that is too deep is an issue alone, and none in a batch.
deep_alone :
    (inspect_one to_lower (record { query = deep; variables = [] })).issues
    ≡ txt "query depth exceeds limit (>20)" ∷ []
unfolding inspect_one calculate_query_depth depth_loop detect_introspection contains_text has_prefix
    check_suspicious_variables
deep_alone = refl

deep_in_batch : (inspect_batch to_lower (record { query = deep; variables = [] } ∷ [])).issues ≡ []
unfolding inspect_batch batch_loop calculate_query_depth depth_loop detect_introspection
    contains_text has_prefix check_suspicious_variables
deep_in_batch = refl

script_named_png : validate_magic_bytes to_lower (txt "image/png") (txt "#!/bin/sh") ≡ false
unfolding validate_magic_bytes magic_loop same_bytes has_prefix
script_named_png = refl
