-- ===== src/Firewall/Nft.antt =====
-- internal/firewall/firewall.go: `NFTablesBackend` and `parseNFTRules`.
use waffynx.Firewall.{
  Rule, Command, Shell, Run, run_cmd, run_err, Listed, listed, not_listed, Backend, wrap,
}
use waffynx.Firewall.Extract.{
  extract_action, extract_field, extract_port, extract_source, extract_quoted,
}
use waffynx.Common.Words.{fields, trim_space, unwords}
use waffynx.Common.Split.{split}
use waffynx.Common.Decimal.{itoa}
use waffynx.Common.{
  if◌then◌else◌, Text, txt, text_beq, is_empty, has_prefix, to_upper, Bool, ◌||◌, Option, none,
  some, List, [], ◌∷◌, ◌++◌,
}

abbrev pub nft : List Text → Command
nft args = record { name = txt "nft"; args = args }

abbrev pub init_args : List (List Text)
init_args =
    (txt "add" ∷ txt "table" ∷ txt "ip" ∷ txt "waffynx" ∷ [])
    ∷ (txt "add"
        ∷ txt "chain"
        ∷ txt "ip"
        ∷ txt "waffynx"
        ∷ txt "input"
        ∷ txt "{ type filter hook input priority 0 ; }"
        ∷ [])
    ∷ []

-- The text of the error: `%v` of a slice is its words in brackets.
unfoldable pub nft_failed : List Text → Text
unfolding unwords
nft_failed args = txt "nft [" ++ (unwords args ++ txt "]: ")

unfoldable pub run_all : Shell → List (List Text) → Run (Option Text)
unfolding run_err wrap nft_failed
run_all shell [] log = (log, none)
run_all shell (args ∷ cmds) log =
    let (log', err) = run_err shell (nft args) log in
    elim err [ none ↦ run_all shell cmds log' | some e ↦ (log', wrap (nft_failed args) (some e)) ]

-- The words that `AddRule` makes of a rule.
unfoldable pub rule_words : Rule → List Text
unfolding itoa
rule_words r =
    (if is_empty r.protocol then [] else r.protocol ∷ txt "dport" ∷ itoa r.port ∷ [])
    ++ ((if is_empty r.source then [] else txt "ip" ∷ txt "saddr" ∷ r.source ∷ [])
        ++ (r.action
            ∷ (if is_empty r.comment
                then []
                else txt "comment" ∷ (b'"' ∷ (r.comment ++ b'"' ∷ [])) ∷ [])))

unfoldable pub add_args : Rule → List Text
unfolding rule_words
add_args r = txt "add" ∷ txt "rule" ∷ txt "ip" ∷ txt "waffynx" ∷ txt "input" ∷ rule_words r

unfoldable pub remove_args : Rule → List Text
remove_args r =
    txt "delete"
    ∷ txt "rule"
    ∷ txt "ip"
    ∷ txt "waffynx"
    ∷ txt "input"
    ∷ (if is_empty r.source then [] else txt "ip" ∷ txt "saddr" ∷ r.source ∷ r.action ∷ [])

abbrev pub policy_args : Text → Text → List Text
policy_args chain policy =
    txt "add" ∷ txt "rule" ∷ txt "ip" ∷ txt "waffynx" ∷ chain ∷ txt "counter" ∷ policy ∷ []

-- The table and the chain that the lines before named, and the rules of those lines are the
-- state of `parseNFTRules`; the rules are given in front of those of the lines that follow.
abbrev pub table_name : List Text → Text → Text
table_name (w ∷ v ∷ u ∷ ws) current = v ++ (b' ' ∷ u)
table_name parts current = current

abbrev pub chain_name : List Text → Text → Text
chain_name (w ∷ v ∷ ws) current = v
chain_name parts current = current

unfoldable pub protocol_in : Text → Text
unfolding extract_field
protocol_in line =
    let by_ip = extract_field line (txt "ip") [] in
    let by_tcp = extract_field line (txt "tcp") (txt "tcp") in
    if is_empty by_ip
    then if is_empty by_tcp then extract_field line (txt "udp") (txt "udp") else by_tcp
    else by_ip

unfoldable pub rule_in : Text → Text → Text → Text → Rule
unfolding protocol_in extract_port extract_source extract_quoted
rule_in table chain action line = record {
  table = table;
  chain = to_upper chain;
  protocol = protocol_in line;
  port = extract_port line;
  source = extract_source line;
  action = action;
  comment = extract_quoted line;
}

abbrev pub is_bracket : Text → Bool
is_bracket line = text_beq line (txt "{") || text_beq line (txt "}") || is_empty line

unfoldable pub parse_lines : Text → Text → List Text → List Rule
unfolding trim_space has_prefix fields extract_action rule_in
parse_lines table chain [] = []
parse_lines table chain (raw ∷ lines) =
    let line = trim_space raw in
    let in_table = parse_lines (table_name (fields line) table) chain lines in
    let in_chain = parse_lines table (chain_name (fields line) chain) lines in
    let rest = parse_lines table chain lines in
    if has_prefix line (txt "table")
    then in_table
    else if has_prefix line (txt "chain")
    then in_chain
    else if is_bracket line
    then rest
    else if is_empty (extract_action line)
    then rest
    else rule_in table chain (extract_action line) line ∷ rest

unfoldable pub parse_nft_rules : Text → List Rule
unfolding parse_lines split
parse_nft_rules output = parse_lines [] [] (split b'\n' output)

unfoldable pub list_nft : Shell → Run Listed
unfolding run_cmd parse_nft_rules
list_nft shell log =
    let (log', (out, err)) = run_cmd shell (nft (txt "-a" ∷ txt "list" ∷ txt "ruleset" ∷ [])) log in
    elim err [ none ↦ (log', listed (parse_nft_rules out)) | some e ↦ (log', not_listed e) ]

unfoldable pub nftables_backend : Shell → Backend
unfolding run_all run_err add_args remove_args list_nft
nftables_backend shell = record {
  initialize = run_all shell init_args;
  add_rule = λ r. run_err shell (nft (add_args r));
  remove_rule = λ r. run_err shell (nft (remove_args r));
  list_rules = list_nft shell;
  set_default_policy = λ chain policy. run_err shell (nft (policy_args chain policy));
  flush = run_err shell (nft (txt "flush" ∷ txt "ruleset" ∷ []));
}
