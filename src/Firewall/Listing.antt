-- ===== src/Firewall/Listing.antt =====
-- What `parseNFTRules` reads in a listing of the rules that `BlockIP` adds.
use waffynx.Firewall.{Rule}
use waffynx.Firewall.Nft.{protocol_in, rule_in, parse_lines, parse_nft_rules}
use waffynx.Firewall.Extract.{
  first_action, extract_action, field_of, extract_field, port_of, extract_port, source_of,
  extract_source, quoted_in, extract_quoted,
}
use waffynx.Firewall.Manager.{block_rule}
use waffynx.Common.Words.{
  drop_spaces, trim_space, has_suffix, fields_loop, fields, unwords, has_newline, newline-solid,
}
use waffynx.Common.Split.{join, split-join}
use waffynx.Common.Decimal.{decimal, value, unsigned, atoi}
use waffynx.Firewall.Line.{
  line_of, IsAddress, decimal-IsNumeral, words, line_of-words, IsWord-of_IsNumeral, line_read,
}
use waffynx.Common.{
  All, Text, txt, has_prefix, contains_text, cut, pos, ℕ, ◌≡◌, refl, sym, ap, ◌∙◌, ◌≢◌, false, List,
  [], ◌∷◌, ◌++◌, map, append-nil,
}

abbrev pub listed_lines : List (Text × ℕ) → List Text
listed_lines [] = txt "\t}" ∷ txt "}" ∷ []
listed_lines ((ip, n) ∷ entries) =
    (b'\t' ∷ b'\t' ∷ line_of (block_rule ip) n) ∷ listed_lines entries

-- What `nft` prints for the chain and the rules in it: addresses and handles.
unfoldable pub listing : List (Text × ℕ) → Text
unfolding join line_of
listing entries = join b'\n' (
    txt "table ip waffynx {"
    ∷ txt "\tchain input {"
    ∷ txt "\t\ttype filter hook input priority filter; policy accept;"
    ∷ listed_lines entries)

abbrev pub read_rule : Text → Rule
read_rule ip = record (block_rule ip) { table = txt "ip waffynx"; protocol = txt "saddr" }

-- The line of the chain's own policy is read as a rule as well.
abbrev pub policy_rule : Rule
policy_rule = record {
  table = txt "ip waffynx";
  chain = txt "INPUT";
  protocol = txt "tcp";
  port = pos 0;
  source = [];
  action = txt "accept";
  comment = [];
}

lines_read :
    (entries : List (Text × ℕ))
    → All (λ e. IsAddress e.0) entries
    → parse_lines (txt "ip waffynx") (txt "input") (listed_lines entries)
      ≡ map (λ e. read_rule e.0) entries
unfolding parse_lines trim_space drop_spaces has_prefix extract_action first_action
lines_read [] h = refl
lines_read ((ip, n) ∷ entries) h =
    let (c, t, e, rest) = h.0.0 in
    let nonempty : ip ≢ [] = λ nil. cc (sym e ∙ nil) in
    ap
      (λ l.
        parse_lines (txt "ip waffynx") (txt "input") ((b'\t' ∷ b'\t' ∷ l) ∷ listed_lines entries))
      (line_of-words ip n nonempty)
    ∙ line_read ip h.0 (decimal n) (decimal-IsNumeral n) (txt "ip waffynx") (txt "input")
        (listed_lines entries)
    ∙ ap (◌∷◌ (read_rule ip)) (lines_read entries h.1)

line_of-newline :
    (ip : Text) (n : ℕ)
    → IsAddress ip
    → has_newline (b'\t' ∷ b'\t' ∷ line_of (block_rule ip) n) ≡ false
unfolding words unwords
line_of-newline ip n address =
    let word = IsWord-of_IsNumeral ip address.0 in
    let handle = IsWord-of_IsNumeral (decimal n) (decimal-IsNumeral n) in
    let tail = txt " drop comment \"Waffynx block\" # handle " in
    ap (λ l. has_newline (b'\t' ∷ b'\t' ∷ l)) (line_of-words ip n word.0)
    ∙ newline-solid ip (tail ++ decimal n) word.1
        (ap has_newline (sym (append-nil (decimal n))) ∙ newline-solid (decimal n) [] handle.1 refl)

lines-newline :
    (entries : List (Text × ℕ))
    → All (λ e. IsAddress e.0) entries
    → All (λ l. has_newline l ≡ false) (listed_lines entries)
lines-newline [] h = (refl, (refl, tt))
lines-newline ((ip, n) ∷ entries) h = (line_of-newline ip n h.0, lines-newline entries h.1)

header_read :
    (lines : List Text)
    → parse_lines [] [] (
        txt "table ip waffynx {"
        ∷ txt "\tchain input {"
        ∷ txt "\t\ttype filter hook input priority filter; policy accept;"
        ∷ lines)
      ≡ policy_rule ∷ parse_lines (txt "ip waffynx") (txt "input") lines
unfolding parse_lines trim_space drop_spaces has_prefix contains_text extract_action first_action
    has_suffix fields fields_loop rule_in protocol_in extract_field field_of extract_port port_of
    atoi unsigned value extract_source source_of extract_quoted quoted_in cut
header_read lines = refl

-- In a listing of the chain with any number of rules of `BlockIP`, of addresses that begin with a
-- digit and have no white space and no double quote, with any handles, `parseNFTRules`
-- reads the rules in order, each with the source, action, port and comment it was added with; the
-- protocol that it reads is `saddr`, the word behind `ip`, and it reads one rule more, of the
-- line of the chain's own policy.
pub parse_nft_rules-listing :
    (entries : List (Text × ℕ))
    → All (λ e. IsAddress e.0) entries
    → parse_nft_rules (listing entries) ≡ policy_rule ∷ map (λ e. read_rule e.0) entries
unfolding parse_nft_rules listing
parse_nft_rules-listing entries h =
    let head = txt "table ip waffynx {" in
    let rest =
      txt "\tchain input {"
      ∷ txt "\t\ttype filter hook input priority filter; policy accept;"
      ∷ listed_lines entries in
    ap (parse_lines [] [])
      (split-join b'\n' head rest (refl, (refl, (refl, lines-newline entries h))))
    ∙ header_read (listed_lines entries)
    ∙ ap (◌∷◌ policy_rule) (lines_read entries h)
