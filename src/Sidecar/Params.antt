-- ===== src/Sidecar/Params.antt =====
-- The function `parseQueryParams` of internal/engine/sidecar.go, with url.QueryUnescape.
pub mod Pairs
use waffynx.Common.{
  leb, eqb, if◌then◌else◌, length, Text, is_empty, cut, Map, insert, ℕ, zero, suc, ◌+◌, ◌-◌, ◌*◌,
  ◌&&◌, Option, none, some, [], ◌∷◌,
}

hex_value : ℕ → Option ℕ
hex_value c =
    if leb b'0' c && leb c b'9'
    then some (c - b'0')
    else if leb b'a' c && leb c b'f'
    then some (c - b'a' + 10)
    else if leb b'A' c && leb c b'F'
    then some (c - b'A' + 10)
    else none

cons_byte : ℕ → Option Text → Option Text
cons_byte c none = none
cons_byte c (some s) = some (c ∷ s)

decode_hex : Option ℕ → Option ℕ → Option Text → Option Text
decode_hex (some a) (some b) (some s) = some ((a * 16 + b) ∷ s)
decode_hex _ _ _ = none

-- url.QueryUnescape: `none` is its error, a `%` with no two hexadecimal digits behind it.
pub query_unescape : Text → Option Text
unfolding hex_value cons_byte decode_hex
query_unescape [] = some []
query_unescape (c ∷ []) = if eqb c b'%' then none else some ((if eqb c b'+' then b' ' else c) ∷ [])
query_unescape (c ∷ d ∷ []) =
    let rest = query_unescape (d ∷ []) in
    if eqb c b'%' then none else cons_byte (if eqb c b'+' then b' ' else c) rest
query_unescape (c ∷ d ∷ e ∷ s) =
    let rest = query_unescape (d ∷ e ∷ s) in
    let decoded = decode_hex (hex_value d) (hex_value e) (query_unescape s) in
    if eqb c b'%' then decoded else cons_byte (if eqb c b'+' then b' ' else c) rest

-- strings.ReplaceAll(s, "+", " ").
pub plus_to_space : Text → Text
plus_to_space [] = []
plus_to_space (c ∷ s) = (if eqb c b'+' then b' ' else c) ∷ plus_to_space s

-- One pair, cut at its first `=`: with no `=` an empty pair is left out, and another stands for a key
-- with the empty value.
unfoldable pub put_pair : Text × Option Text → Map Text → Map Text
put_pair (key, some value) params = insert key value params
put_pair (key, none) params = if is_empty key then params else insert key [] params

-- The loop over strings.Split(decoded, "&"), on fuel; each round puts one pair into the map.
unfoldable pub pairs_loop : ℕ → Text → Map Text → Option (Map Text)
unfolding put_pair
pairs_loop zero s params = none
pairs_loop (suc fuel) s params =
    let (pair, after) = cut b'&' s in
    let params' = put_pair (cut b'=' pair) params in
    elim after [ none ↦ some params' | some rest ↦ pairs_loop fuel rest params' ]

unfoldable pub decoded_query : Text → Text
unfolding query_unescape plus_to_space
decoded_query query = elim (query_unescape query) [
  | none ↦ plus_to_space query
  | some s ↦ plus_to_space s
]

-- A query has fewer pairs than the fuel, so the last case is never met.
unfoldable pub parse_query_params : Text → Map Text
unfolding decoded_query pairs_loop
parse_query_params uri = elim (cut b'?' uri).1 [
  | none ↦ []
  | some [] ↦ []
  | some (c ∷ query) ↦
      let decoded = decoded_query (c ∷ query) in
      elim (pairs_loop (length decoded + 1) decoded []) [ none ↦ [] | some params ↦ params ]
]
