-- ===== src/Parsers/Graphql.antt =====
-- internal/parsers/graphql.go. The JSON decoder is a parameter, for one request and for many, and so
-- is `strings.ToLower`.
use waffynx.Common.{
  ltb, eqb, if◌then◌else◌, length, any, Text, txt, is_empty, contains_text, to_lower, Map, ℤ, pos,
  negsuc, lt_int, zero, suc, Bool, true, false, not, ◌||◌, Option, none, some, List, [], ◌∷◌, ◌++◌,
}

pub record GraphqlResult : Type 0 where
  pub is_graphql : Bool
  pub is_introspection : Bool
  pub query_depth : ℤ
  pub is_batched : Bool
  pub issues : List Text

-- A variable that is no string is `none`; a nil map is an empty one.
pub record GraphqlRequest : Type 0 where
  pub query : Text
  pub variables : Map (Option Text)

abbrev pub introspection_fields : List Text
introspection_fields =
    txt "__schema"
    ∷ txt "__type"
    ∷ txt "__typename"
    ∷ txt "queryType"
    ∷ txt "mutationType"
    ∷ txt "subscriptionType"
    ∷ txt "types"
    ∷ txt "fields"
    ∷ txt "inputFields"
    ∷ txt "interfaces"
    ∷ txt "enumValues"
    ∷ txt "possibleTypes"
    ∷ txt "directives"
    ∷ txt "args"
    ∷ txt "defaultValue"
    ∷ txt "locations"
    ∷ []

unfoldable pub is_graphql_content_type : (Text → Text) → Text → Bool
unfolding contains_text
is_graphql_content_type lower ct =
    contains_text (lower ct) (txt "application/graphql")
    || contains_text (lower ct) (txt "application/json")

abbrev pub plus_one : ℤ → ℤ
plus_one (pos n) = pos (suc n)
plus_one (negsuc zero) = pos 0
plus_one (negsuc (suc n)) = negsuc n

abbrev pub minus_one : ℤ → ℤ
minus_one (pos zero) = negsuc 0
minus_one (pos (suc n)) = pos n
minus_one (negsuc n) = negsuc (suc n)

abbrev pub larger : ℤ → ℤ → ℤ
larger depth most = if lt_int most depth then depth else most

-- The loop, with the depth and the largest depth. The braces are ASCII, so the bytes of the query
-- are as good as its runes.
unfoldable pub depth_loop : ℤ → ℤ → Text → ℤ
depth_loop depth most [] = most
depth_loop depth most (c ∷ s) =
    let opened = depth_loop (plus_one depth) (larger (plus_one depth) most) s in
    let closed = depth_loop (minus_one depth) most s in
    let same = depth_loop depth most s in
    if eqb c b'{' then opened else if eqb c b'}' then closed else same

-- `strings.ToLower` makes no braces and moves none past another, so the ASCII one gives the depth.
unfoldable pub calculate_query_depth : Text → ℤ
unfolding depth_loop
calculate_query_depth query = depth_loop (pos 0) (pos 0) (to_lower query)

unfoldable pub detect_introspection : (Text → Text) → Text → Bool
unfolding contains_text
detect_introspection lower query =
    any (λ field. contains_text (lower query) (lower field)) introspection_fields

abbrev pub sqli_patterns : List Text
sqli_patterns =
    txt "union select"
    ∷ txt "' or "
    ∷ txt "or 1=1"
    ∷ txt "or '1'='1"
    ∷ txt "--"
    ∷ txt "information_schema"
    ∷ txt "load_file("
    ∷ []

abbrev pub xss_patterns : List Text
xss_patterns = txt "<script" ∷ txt "javascript:" ∷ txt "onerror=" ∷ txt "alert(" ∷ []

unfoldable pub detect_sqli : (Text → Text) → Text → Bool
unfolding contains_text
detect_sqli lower s = any (contains_text (lower s)) sqli_patterns

unfoldable pub detect_xss : (Text → Text) → Text → Bool
unfolding contains_text
detect_xss lower s = any (contains_text (lower s)) xss_patterns

abbrev pub is_suspicious : (Text → Text) → Text × Option Text → Bool
is_suspicious lower (name, none) = false
is_suspicious lower (name, some s) = detect_sqli lower s || detect_xss lower s

-- At most one issue, so that the order in which the map is visited does not matter.
unfoldable pub check_suspicious_variables :
    (Text → Text) → Map (Option Text) → List Text → List Text
unfolding detect_sqli detect_xss
check_suspicious_variables lower vars issues =
    if any (is_suspicious lower) vars
    then issues ++ txt "suspicious variable value detected" ∷ []
    else issues

abbrev pub issue_if : Bool → Text → List Text → List Text
issue_if b issue issues = if b then issues ++ issue ∷ [] else issues

abbrev pub no_graphql : GraphqlResult
no_graphql = record {
  is_graphql = false;
  is_introspection = false;
  query_depth = pos 0;
  is_batched = false;
  issues = [];
}

unfoldable pub inspect_one : (Text → Text) → GraphqlRequest → GraphqlResult
unfolding calculate_query_depth detect_introspection check_suspicious_variables
inspect_one lower gql =
    let depth = calculate_query_depth gql.query in
    let introspection = detect_introspection lower gql.query in
    let deep = issue_if (lt_int (pos 20) depth) (txt "query depth exceeds limit (>20)") [] in
    let asked = issue_if introspection (txt "introspection query detected") deep in
    record {
      is_graphql = true;
      is_introspection = introspection;
      query_depth = depth;
      is_batched = false;
      issues = check_suspicious_variables lower gql.variables asked;
    }

-- The loop over the requests of a batch.
unfoldable pub batch_loop : (Text → Text) → List GraphqlRequest → GraphqlResult → GraphqlResult
unfolding calculate_query_depth detect_introspection check_suspicious_variables
batch_loop lower [] result = result
batch_loop lower (q ∷ qs) result = batch_loop lower qs (record result {
  query_depth = larger (calculate_query_depth q.query) result.query_depth;
  is_introspection = detect_introspection lower q.query || result.is_introspection;
  issues = check_suspicious_variables lower q.variables result.issues;
})

unfoldable pub inspect_batch : (Text → Text) → List GraphqlRequest → GraphqlResult
unfolding batch_loop
inspect_batch lower batched =
    let start = record no_graphql {
      is_graphql = true;
      is_batched = true;
      issues = issue_if (ltb 10 (length batched)) (txt "batched query exceeds limit (>10)") [];
    } in
    let looped = batch_loop lower batched start in
    record looped {
      issues = issue_if looped.is_introspection (txt "introspection query detected") looped.issues;
    }

abbrev pub batch_or_none : (Text → Text) → Option (List GraphqlRequest) → GraphqlResult
batch_or_none lower none = no_graphql
batch_or_none lower (some []) = no_graphql
batch_or_none lower (some (q ∷ qs)) = inspect_batch lower (q ∷ qs)

-- The body as one request, unless it is none or has no query, and else as a batch.
unfoldable pub inspect_graphql :
    (Text → Text)
    → (Text → Option GraphqlRequest)
    → (Text → Option (List GraphqlRequest))
    → Text
    → Text
    → GraphqlResult
unfolding is_graphql_content_type inspect_one inspect_batch
inspect_graphql lower decode decode_many content_type body =
    if not (is_graphql_content_type lower content_type) then no_graphql else elim (decode body) [
      | none ↦ batch_or_none lower (decode_many body)
      | some gql ↦
          if is_empty gql.query
          then batch_or_none lower (decode_many body)
          else inspect_one lower gql
    ]
