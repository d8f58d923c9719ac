-- ===== src/Firewall/Entry.antt =====
-- The lines of a numbered status, and the words that `parseUFWRules` makes of them.
use waffynx.Firewall.{Rule}
use waffynx.Firewall.Ufw.{after_bracket, without_number}
use waffynx.Firewall.Line.{IsNumeral, decimal-IsNumeral, IsWord-of_IsNumeral}
use waffynx.Common.Words.{is_space, drop_spaces, trim_space, IsSolid, IsWord, word_lem}
use waffynx.Common.Spread.{spread, words_of, trim-spread, drop_spaces-spread}
use waffynx.Common.Split.{cut-free}
use waffynx.Common.Decimal.{decimal}
use waffynx.Common.{
  eqb, any, All, All-append, Text, txt, cut, pos, ℕ, ◌^◌, ◌<◌, ◌≡◌, refl, sym, ap, ◌∙◌, ◌≢◌, false,
  Option, none, some, List, [], ◌∷◌, ◌++◌, append_assoc,
}

pub data Verb : Type 0 where
  allow : Verb
  deny : Verb
  reject : Verb

-- A line of the table: the number that stands in brackets, the port and protocol, if they are not any,
-- the verb, the source, if it is not any, and how many more blanks than one stand before the verb,
-- before `IN` and before the source.
pub record Entry : Type 0 where
  pub label : Text
  pub to : Option (ℕ × Text)
  pub verb : Verb
  pub from : Option Text
  pub before_verb : ℕ
  pub before_in : ℕ
  pub before_from : ℕ

abbrev pub verb_text : Verb → Text
verb_text allow = txt "ALLOW"
verb_text deny = txt "DENY"
verb_text reject = txt "REJECT"

abbrev pub from_text : Option Text → Text
from_text none = txt "Anywhere"
from_text (some ip) = ip

abbrev pub to_text : Option (ℕ × Text) → Text
to_text none = txt "Anywhere"
to_text (some (port, protocol)) = decimal port ++ b'/' ∷ protocol

-- What stands behind the first word.
abbrev pub entry_rest : Entry → List (ℕ × Text)
entry_rest e =
    (e.before_verb, verb_text e.verb)
    ∷ (e.before_in, txt "IN")
    ∷ (e.before_from, from_text e.from)
    ∷ []

abbrev pub entry_words : Entry → List Text
entry_words e = words_of (to_text e.to) (entry_rest e)

unfoldable pub entry_line : Entry → Text
unfolding spread
entry_line e = b'[' ∷ (e.label ++ b']' ∷ b' ' ∷ spread (to_text e.to) (entry_rest e))

abbrev pub IsTo : Option (ℕ × Text) → Type 0
IsTo none = Unit
IsTo (some (port, protocol)) = (port < 2 ^ 63) × IsSolid protocol

abbrev pub IsFrom : Option Text → Type 0
IsFrom none = Unit
IsFrom (some ip) = IsNumeral ip

-- The label is not empty and has no closing bracket and no white space but blanks.
abbrev pub IsEntry : Entry → Type 0
IsEntry e =
    (e.label ≢ [])
    × (any (λ c. eqb c b']') e.label ≡ false)
    × (any (λ c. eqb c b'\n') e.label ≡ false)
    × IsTo e.to
    × IsFrom e.from

abbrev pub verb_action : Verb → Text
verb_action allow = txt "accept"
verb_action deny = txt "deny"
verb_action reject = txt "reject"

abbrev pub source_text : Option Text → Text
source_text none = []
source_text (some ip) = ip

-- Any port is 0, with no protocol.
abbrev pub port_protocol : Option (ℕ × Text) → ℕ × Text
port_protocol none = (0, [])
port_protocol (some to) = to

abbrev pub entry_rule : Entry → Rule
entry_rule e = record {
  table = txt "filter";
  chain = txt "INPUT";
  protocol = (port_protocol e.to).1;
  port = pos (port_protocol e.to).0;
  source = source_text e.from;
  action = verb_action e.verb;
  comment = [];
}

verb-IsWord : (v : Verb) → IsWord (verb_text v)
verb-IsWord allow = word_lem (txt "ALLOW") refl refl
verb-IsWord deny = word_lem (txt "DENY") refl refl
verb-IsWord reject = word_lem (txt "REJECT") refl refl

from-IsWord : (o : Option Text) → IsFrom o → IsWord (from_text o)
from-IsWord none h = word_lem (txt "Anywhere") refl refl
from-IsWord (some ip) h = IsWord-of_IsNumeral ip h

pub to-IsNumeral :
    (port : ℕ) (protocol : Text) → IsSolid protocol → IsNumeral (to_text (some (port, protocol)))
to-IsNumeral port protocol solid =
    let (c, t, same, (digit, rest)) = decimal-IsNumeral port in
    (
      c,
      t ++ b'/' ∷ protocol,
      ap (λ s. s ++ b'/' ∷ protocol) same,
      (digit, All-append (λ c. is_space c ≡ false) (c ∷ t) (b'/' ∷ protocol) rest (refl, solid)),
    )

to-IsWord : (o : Option (ℕ × Text)) → IsTo o → IsWord (to_text o)
to-IsWord none h = word_lem (txt "Anywhere") refl refl
to-IsWord (some (port, protocol)) h = IsWord-of_IsNumeral _ (to-IsNumeral port protocol h.1)

pub entry_words-IsWord : (e : Entry) → IsEntry e → All IsWord (entry_words e)
entry_words-IsWord e (l, b, n, to, from) = (
  to-IsWord e.to to,
  (verb-IsWord e.verb, (word_lem (txt "IN") refl refl, (from-IsWord e.from from, tt))),
)

-- The words of a line, with the blanks between them.
abbrev pub entry_text : Entry → Text
entry_text e = spread (to_text e.to) (entry_rest e)

trim_lem : (e : Entry) → IsEntry e → trim_space (b' ' ∷ entry_text e) ≡ entry_text e
unfolding trim_space drop_spaces
trim_lem e h =
    let all = entry_words-IsWord e h in
    trim-spread [] (to_text e.to) (entry_rest e) all
      (drop_spaces-spread (to_text e.to) (entry_rest e) all)

number_dropped :
    (label line rest : Text)
    → label ≢ []
    → after_bracket line (label ++ [], some rest) ≡ trim_space rest
unfolding after_bracket
number_dropped [] line rest h = absurd (h refl)
number_dropped (c ∷ label) line rest h = refl

pub number_lem : (e : Entry) → IsEntry e → without_number (trim_space (entry_line e)) ≡ entry_text e
unfolding without_number after_bracket entry_line cut drop_spaces
number_lem e h =
    let all = entry_words-IsWord e h in
    let front = b'[' ∷ (e.label ++ b']' ∷ b' ' ∷ []) in
    let whole : front ++ entry_text e ≡ entry_line e =
      ap (◌∷◌ b'[') (append_assoc e.label (b']' ∷ b' ' ∷ []) (entry_text e)) in
    let trimmed : trim_space (entry_line e) ≡ entry_line e =
      ap trim_space (sym whole)
      ∙ trim-spread front (to_text e.to) (entry_rest e) all refl
      ∙ whole in
    ap without_number trimmed
    ∙ rw (cut-free b']' e.label (b']' ∷ b' ' ∷ entry_text e) h.1) (
        number_dropped e.label (e.label ++ b']' ∷ b' ' ∷ entry_text e) (b' ' ∷ entry_text e) h.0
        ∙ trim_lem e h)
