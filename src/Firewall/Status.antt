-- ===== src/Firewall/Status.antt =====
-- What `parseUFWRules` reads in a numbered status.
use waffynx.Firewall.Ufw.{
  is_anywhere, port_and_protocol, action_of, source_in, rule_of, parse_lines, parse_ufw_rules,
}
use waffynx.Firewall.Line.{IsNumeral}
use waffynx.Common.Words.{drop_spaces, trim_space, has_newline}
use waffynx.Common.Spread.{fields-spread, newline-spread}
use waffynx.Common.Split.{cut-free, join, split-join}
use waffynx.Common.Decimal.{decimal, atoi, IsDigit, atoi-decimal, decimal-cons}
use waffynx.Firewall.Entry.{
  Verb, allow, deny, reject, Entry, verb_text, from_text, to_text, entry_rest, entry_text, IsTo,
  port_protocol, entry_line, IsFrom, IsEntry, verb_action, source_text, entry_rule, to-IsNumeral,
  entry_words-IsWord, number_lem,
}
use waffynx.Common.{
  if◌then◌else◌, eqb, any, any-append, All, Text, txt, has_prefix, cut, pos, ℕ, ◌^◌, ◌<◌, ◌≡◌, refl,
  sym, ap, ◌∙◌, true, false, Option, none, some, List, [], ◌∷◌, ◌++◌, map, append-nil, arith,
}

digits-free : (s : Text) → All IsDigit s → any (λ c. eqb c b'/') s ≡ false
digits-free [] h = refl
digits-free (c ∷ s) h = ground (arith, digits-free s h.1)

numeral-not_anywhere : (w : Text) → IsNumeral w → is_anywhere w ≡ false
numeral-not_anywhere w (c, t, e, (digit, solid)) =
    let other : eqb c b'A' ≡ false = grind arith in rw e (rw other refl)

port_lem :
    (n : ℕ) (protocol : Text)
    → n < 2 ^ 63
    → port_and_protocol (cut b'/' (decimal n ++ b'/' ∷ protocol)) ≡ (pos n, protocol)
unfolding port_and_protocol cut
port_lem n protocol small =
    let (c, t, e, all) = decimal-cons n in
    let no_slash : any (λ x. eqb x b'/') (decimal n) ≡ false = rw e (digits-free (c ∷ t) all) in
    let read : atoi (c ∷ t) ≡ some (pos n) = ap atoi (sym e) ∙ atoi-decimal n small in
    ap port_and_protocol (cut-free b'/' (decimal n) (b'/' ∷ protocol) no_slash)
    ∙ ap (λ u. port_and_protocol (u, some protocol)) (append-nil (decimal n) ∙ e)
    ∙ rw read refl

action_lem : (v : Verb) → action_of (verb_text v) ≡ verb_action v
unfolding action_of
action_lem allow = refl
action_lem deny = refl
action_lem reject = refl

source_lem : (o : Option Text) → IsFrom o → source_in (txt "IN" ∷ from_text o ∷ []) ≡ source_text o
source_lem none h = refl
source_lem (some ip) h = rw (numeral-not_anywhere ip h) refl

to_lem :
    (to : Option (ℕ × Text))
    → IsTo to
    → (if is_anywhere (to_text to) then (pos 0, []) else port_and_protocol (cut b'/' (to_text to)))
      ≡ (pos (port_protocol to).0, (port_protocol to).1)
to_lem none h = refl
to_lem (some (port, protocol)) h =
    rw (numeral-not_anywhere (to_text (some (port, protocol))) (to-IsNumeral port protocol h.1))
      (port_lem port protocol h.0)

rule_lem :
    (e : Entry)
    → IsEntry e
    → rule_of (to_text e.to) (verb_text e.verb) (txt "IN" ∷ from_text e.from ∷ []) ≡ entry_rule e
unfolding rule_of
rule_lem e (l, b, n, to, from) = rw (to_lem e.to to, action_lem e.verb, source_lem e.from from) refl

entry_read :
    (e : Entry) (lines : List Text)
    → IsEntry e
    → parse_lines true (entry_line e ∷ lines) ≡ entry_rule e ∷ parse_lines true lines
unfolding parse_lines
entry_read e lines h =
    rw
      (
        number_lem e h,
        fields-spread (to_text e.to) (entry_rest e) (entry_words-IsWord e h),
        rule_lem e h,
      )
      refl

entries_read :
    (entries : List Entry)
    → All IsEntry entries
    → parse_lines true (map entry_line entries) ≡ map entry_rule entries
unfolding parse_lines
entries_read [] h = refl
entries_read (e ∷ entries) h =
    entry_read e (map entry_line entries) h.0 ∙ ap (◌∷◌ (entry_rule e)) (entries_read entries h.1)

-- The text of `ufw status numbered`, without white space at its ends.
unfoldable pub status : List Entry → Text
unfolding join entry_line
status entries = join b'\n' (
    txt "Status: active"
    ∷ []
    ∷ txt "     To                         Action      From"
    ∷ txt "     --                         ------      ----"
    ∷ map entry_line entries)

line-newline : (e : Entry) → IsEntry e → has_newline (entry_line e) ≡ false
unfolding entry_line
line-newline e h =
    any-append (λ c. eqb c b'\n') e.label (b']' ∷ b' ' ∷ entry_text e) h.2
      (newline-spread (to_text e.to) (entry_rest e) (entry_words-IsWord e h))

lines-newline :
    (entries : List Entry)
    → All IsEntry entries
    → All (λ l. has_newline l ≡ false) (map entry_line entries)
lines-newline [] h = tt
lines-newline (e ∷ entries) h = (line-newline e h.0, lines-newline entries h.1)

header_read :
    (lines : List Text)
    → parse_lines false (
        txt "Status: active"
        ∷ []
        ∷ txt "     To                         Action      From"
        ∷ txt "     --                         ------      ----"
        ∷ lines)
      ≡ parse_lines true lines
unfolding parse_lines trim_space drop_spaces has_prefix
header_read lines = refl

-- In a numbered status of any number of incoming rules, with any number of blanks, one at least,
-- between the columns, `parseUFWRules` reads these rules in order, each with its port, protocol,
-- action and source. The rules are of any port, which is read as 0 with no protocol, or of a port
-- below 2^63 with a protocol without white space; their verbs are allow, deny and reject; they are
-- from anywhere or from an address that begins with a digit and has no white space.
pub parse_ufw_rules-status :
    (entries : List Entry)
    → All IsEntry entries
    → parse_ufw_rules (status entries) ≡ map entry_rule entries
unfolding parse_ufw_rules status
parse_ufw_rules-status entries h =
    let rest =
      []
      ∷ txt "     To                         Action      From"
      ∷ txt "     --                         ------      ----"
      ∷ map entry_line entries in
    ap (parse_lines false) (
      split-join b'\n' (txt "Status: active") rest
        (refl, (refl, (refl, (refl, lines-newline entries h)))))
    ∙ header_read (map entry_line entries)
    ∙ entries_read entries h
