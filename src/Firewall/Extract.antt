-- ===== src/Firewall/Extract.antt =====
-- internal/firewall/firewall.go: what the program reads from a line of a listing.
use waffynx.Common.Words.{fields, has_suffix}
use waffynx.Common.Decimal.{atoi}
use waffynx.Common.{
  if◌then◌else◌, Text, txt, text_beq, contains_text, cut, ℤ, pos, Bool, not, ◌&&◌, ◌||◌, Option,
  none, some, List, [], ◌∷◌,
}

-- The loop of `extractAction`.
unfoldable pub first_action : List Text → Text → Text
unfolding has_suffix
first_action [] line = []
first_action (action ∷ actions) line =
    if contains_text line (b' ' ∷ action) || has_suffix line (b' ' ∷ action)
    then action
    else first_action actions line

abbrev pub known_actions : List Text
known_actions = txt "accept" ∷ txt "drop" ∷ txt "deny" ∷ txt "reject" ∷ txt "log" ∷ []

unfoldable pub extract_action : Text → Text
unfolding first_action
extract_action = first_action known_actions

abbrev pub is_verdict : Text → Bool
is_verdict w =
    text_beq w (txt "accept")
    || text_beq w (txt "drop")
    || text_beq w (txt "deny")
    || text_beq w (txt "reject")

-- The word behind the first `key` that has one, if it is no verdict.
unfoldable pub field_of : Text → Text → List Text → Text
field_of key default_value [] = default_value
field_of key default_value (w ∷ []) = default_value
field_of key default_value (w ∷ v ∷ ws) =
    let rest = field_of key default_value (v ∷ ws) in
    if text_beq w key && not (is_verdict v) then v else rest

unfoldable pub extract_field : Text → Text → Text → Text
unfolding field_of fields
extract_field line key default_value = field_of key default_value (fields line)

abbrev pub port_or : Option ℤ → ℤ → ℤ
port_or none rest = rest
port_or (some port) rest = port

unfoldable pub port_of : List Text → ℤ
unfolding atoi
port_of [] = pos 0
port_of (w ∷ []) = pos 0
port_of (w ∷ v ∷ ws) =
    let rest = port_of (v ∷ ws) in if text_beq w (txt "dport") then port_or (atoi v) rest else rest

unfoldable pub extract_port : Text → ℤ
unfolding port_of fields
extract_port line = port_of (fields line)

unfoldable pub source_of : List Text → Text
source_of [] = []
source_of (w ∷ []) = []
source_of (w ∷ v ∷ ws) =
    let rest = source_of (v ∷ ws) in if text_beq w (txt "saddr") then v else rest

unfoldable pub extract_source : Text → Text
unfolding source_of fields
extract_source line = source_of (fields line)

abbrev pub closed_part : Text × Option Text → Text
closed_part (quoted, none) = []
closed_part (quoted, some rest) = quoted

unfoldable pub quoted_in : Option Text → Text
unfolding cut
quoted_in none = []
quoted_in (some rest) = closed_part (cut b'"' rest)

-- What stands between the first two double quotes.
unfoldable pub extract_quoted : Text → Text
unfolding cut quoted_in
extract_quoted line = quoted_in (cut b'"' line).1
