-- ===== src/Firewall/Ufw.antt =====
-- internal/firewall/firewall.go: `UFWBackend` and `parseUFWRules`.
use waffynx.Firewall.{
  Rule, Command, Shell, Run, run_cmd, run_err, Listed, listed, not_listed, Backend, is_positive,
  wrap,
}
use waffynx.Common.Words.{fields, trim_space}
use waffynx.Common.Decimal.{itoa, atoi}
use waffynx.Common.Split.{split}
use waffynx.Common.{
  eqb, if◌then◌else◌, Text, txt, text_beq, is_empty, has_prefix, cut, to_lower, ℤ, pos, Bool, true,
  false, not, ◌&&◌, ◌||◌, Option, none, some, List, [], ◌∷◌, ◌++◌,
}

abbrev pub ufw : List Text → Command
ufw args = record { name = txt "ufw"; args = args }

-- The word for the action of a rule: none for an action that is not known.
unfoldable pub action_args : Text → List Text
action_args action =
    if text_beq action (txt "accept")
    then txt "allow" ∷ []
    else if text_beq action (txt "drop") || text_beq action (txt "deny")
    then txt "deny" ∷ []
    else []

unfoldable pub port_args : Rule → List Text
unfolding itoa
port_args r =
    if is_positive r.port
    then itoa r.port ∷ (if is_empty r.protocol then [] else (b'/' ∷ r.protocol) ∷ [])
    else []

unfoldable pub source_args : Rule → List Text
source_args r = if is_empty r.source then [] else txt "from" ∷ r.source ∷ []

unfoldable pub comment_args : Rule → List Text
comment_args r = if is_empty r.comment then [] else txt "comment" ∷ r.comment ∷ []

unfoldable pub add_args : Rule → List Text
unfolding action_args port_args source_args comment_args
add_args r = action_args r.action ++ (port_args r ++ (source_args r ++ comment_args r))

unfoldable pub remove_args : Rule → List Text
unfolding action_args port_args source_args comment_args
remove_args r =
    txt "delete" ∷ (action_args r.action ++ (source_args r ++ (port_args r ++ comment_args r)))

abbrev pub is_anywhere : Text → Bool
is_anywhere w = text_beq w (txt "Anywhere") || text_beq w (txt "Anywhere(v6)")

-- A bracket at the start, and what stands before another that is not the first byte, are dropped.
unfoldable pub after_bracket : Text → Text × Option Text → Text
unfolding trim_space
after_bracket line ([], rest) = line
after_bracket line (c ∷ before, none) = line
after_bracket line (c ∷ before, some rest) = trim_space rest

abbrev pub drop_bracket : Text → Text
drop_bracket [] = []
drop_bracket (c ∷ s) = if eqb c b'[' then s else c ∷ s

unfoldable pub without_number : Text → Text
unfolding after_bracket cut
without_number line = after_bracket (drop_bracket line) (cut b']' (drop_bracket line))

abbrev pub int_or_zero : Option ℤ → ℤ
int_or_zero none = pos 0
int_or_zero (some n) = n

-- The port and the protocol, if a slash stands behind the first byte.
unfoldable pub port_and_protocol : Text × Option Text → ℤ × Text
unfolding atoi
port_and_protocol ([], rest) = (pos 0, [])
port_and_protocol (c ∷ before, none) = (pos 0, [])
port_and_protocol (c ∷ before, some rest) = (int_or_zero (atoi (c ∷ before)), rest)

unfoldable pub action_of : Text → Text
action_of word =
    let action = to_lower word in
    if text_beq action (txt "allow")
    then txt "accept"
    else if text_beq action (txt "deny") || text_beq action (txt "reject")
    then action
    else []

-- The source, from the third field on.
abbrev pub source_in : List Text → Text
source_in [] = []
source_in (direction ∷ []) = []
source_in (direction ∷ from ∷ ws) =
    if text_beq direction (txt "IN") && not (is_anywhere from) then from else []

unfoldable pub rule_of : Text → Text → List Text → Rule
unfolding port_and_protocol cut action_of
rule_of to action ws =
    let (port, protocol) =
      if is_anywhere to then (pos 0, []) else port_and_protocol (cut b'/' to) in
    record {
      table = txt "filter";
      chain = txt "INPUT";
      protocol = protocol;
      port = port;
      source = source_in ws;
      action = action_of action;
      comment = [];
    }

-- The rule of a line in front of those of the lines that follow.
abbrev pub cons_rule : List Text → List Rule → List Rule
cons_rule [] rest = rest
cons_rule (to ∷ []) rest = rest
cons_rule (to ∷ action ∷ ws) rest = rule_of to action ws ∷ rest

-- The loop of `parseUFWRules`; the flag says whether the line of dashes was read.
unfoldable pub parse_lines : Bool → List Text → List Rule
unfolding trim_space has_prefix fields without_number rule_of
parse_lines in_rules [] = []
parse_lines true (line ∷ lines) =
    cons_rule (fields (without_number (trim_space line))) (parse_lines true lines)
parse_lines false (line ∷ lines) = parse_lines (has_prefix (trim_space line) (txt "--")) lines

unfoldable pub parse_ufw_rules : Text → List Rule
unfolding parse_lines split
parse_ufw_rules output = parse_lines false (split b'\n' output)

unfoldable pub list_ufw : Shell → Run Listed
unfolding run_cmd parse_ufw_rules
list_ufw shell log =
    let (log', (out, err)) = run_cmd shell (ufw (txt "status" ∷ txt "numbered" ∷ [])) log in
    elim err [ none ↦ (log', listed (parse_ufw_rules out)) | some e ↦ (log', not_listed e) ]

unfoldable pub init_ufw : Shell → Run (Option Text)
unfolding run_err wrap
init_ufw shell log =
    let (log', err) = run_err shell (ufw (txt "--force" ∷ txt "enable" ∷ [])) log in
    (log', wrap (txt "enabling ufw: ") err)

unfoldable pub ufw_backend : Shell → Backend
unfolding init_ufw run_err add_args remove_args list_ufw
ufw_backend shell = record {
  initialize = init_ufw shell;
  add_rule = λ r. run_err shell (ufw (add_args r));
  remove_rule = λ r. run_err shell (ufw (remove_args r));
  list_rules = list_ufw shell;
  set_default_policy = λ chain policy. run_err shell (ufw (txt "default" ∷ policy ∷ chain ∷ []));
  flush = run_err shell (ufw (txt "--force" ∷ txt "reset" ∷ []));
}
