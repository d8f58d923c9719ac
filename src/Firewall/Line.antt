-- ===== src/Firewall/Line.antt =====
-- What `parseNFTRules` reads in the line of a rule that `BlockIP` adds.
use waffynx.Firewall.{Rule}
use waffynx.Firewall.Nft.{rule_words, protocol_in, rule_in, parse_lines}
use waffynx.Firewall.Extract.{
  first_action, extract_action, field_of, extract_field, port_of, extract_port, source_of,
  extract_source, quoted_in, extract_quoted,
}
use waffynx.Firewall.Manager.{block_rule}
use waffynx.Common.Words.{
  drop_spaces, trim_space, has_suffix, fields, unwords, IsSolid, IsWord, fields-unwords,
  trim_space_word, has_suffix-contains, contains-solid, word_lem,
}
use waffynx.Common.Split.{cut-free}
use waffynx.Common.Decimal.{decimal, value, unsigned, atoi, IsDigit, decimal-cons}
use waffynx.Common.{
  eqb, Bool-cases, any, All, Text, txt, text_beq, has_prefix, contains_text, cut, to_upper, pos, ℕ,
  ◌<◌, ◌≡◌, refl, sym, ap, subst, ◌∙◌, ◌≢◌, inl, inr, true, false, none, List, [], ◌∷◌, ◌++◌,
  append-nil, append_assoc, arith,
}

-- A line of `nft -a list ruleset`: the words that `AddRule` gave, and the handle of the rule.
unfoldable pub line_of : Rule → ℕ → Text
unfolding rule_words unwords
line_of r handle = unwords (rule_words r ++ (txt "#" ∷ txt "handle" ∷ decimal handle ∷ []))

-- A digit, and no white space in all of it: a handle, or an IPv4 address or network.
abbrev pub IsNumeral : Text → Type 0
IsNumeral h = (c : ℕ) × (t : Text) × (h ≡ c ∷ t) × (IsDigit c × IsSolid (c ∷ t))

-- Without a double quote.
abbrev pub IsAddress : Text → Type 0
IsAddress ip = IsNumeral ip × (any (λ c. eqb c b'"') ip ≡ false)

IsSolid-of_digits : (s : Text) → All IsDigit s → IsSolid s
IsSolid-of_digits [] h = tt
IsSolid-of_digits (c ∷ s) h = (grind arith, IsSolid-of_digits s h.1)

pub decimal-IsNumeral : (n : ℕ) → IsNumeral (decimal n)
decimal-IsNumeral n =
    let (c, t, e, d) = decimal-cons n in (c, t, e, (d.0, IsSolid-of_digits (c ∷ t) d))

unfoldable pub words : Text → Text → List Text
words ip handle =
    txt "ip"
    ∷ txt "saddr"
    ∷ ip
    ∷ txt "drop"
    ∷ txt "comment"
    ∷ txt "\"Waffynx"
    ∷ txt "block\""
    ∷ txt "#"
    ∷ txt "handle"
    ∷ handle
    ∷ []

pub line_of-words :
    (ip : Text) (n : ℕ) → ip ≢ [] → line_of (block_rule ip) n ≡ unwords (words ip (decimal n))
unfolding line_of rule_words unwords words
line_of-words [] n h = absurd (h refl)
line_of-words (c ∷ ip) n h = refl

-- A word behind a blank does not stand where a numeral does.
contains-numeral :
    (h s : Text) (a : ℕ) (p : Text)
    → IsNumeral h
    → b'9' < a
    → contains_text (b' ' ∷ (h ++ s)) (b' ' ∷ a ∷ p) ≡ contains_text s (b' ' ∷ a ∷ p)
unfolding contains_text has_prefix
contains-numeral h s a p (c, t, e, (digit, solid)) high =
    let other : eqb c a ≡ false = grind arith in
    rw e (rw other (contains-solid (c ∷ t) s (a ∷ p) solid))

contains_last :
    (h : Text) (a : ℕ) (p : Text)
    → IsNumeral h
    → b'9' < a
    → contains_text (b' ' ∷ h) (b' ' ∷ a ∷ p) ≡ false
unfolding contains_text has_prefix
contains_last h a p numeral high =
    ap (λ u. contains_text (b' ' ∷ u) (b' ' ∷ a ∷ p)) (sym (append-nil h))
    ∙ contains-numeral h [] a p numeral high

behind_address : Text → Text
behind_address h = txt " drop comment \"Waffynx block\" # handle " ++ h

module _ (ip : Text) (address : IsNumeral ip) (h : Text) (handle : IsNumeral h) where
  no_accept : contains_text (unwords (words ip h)) (txt " accept") ≡ false
  unfolding contains_text has_prefix unwords words behind_address
  no_accept =
      contains-numeral ip (behind_address h) b'a' (txt "ccept") address (omega arith)
      ∙ contains_last h b'a' (txt "ccept") handle (omega arith)

  has_drop : contains_text (unwords (words ip h)) (txt " drop") ≡ true
  unfolding contains_text has_prefix unwords words behind_address
  has_drop = contains-numeral ip (behind_address h) b'd' (txt "rop") address (omega arith)

  action_drop : extract_action (unwords (words ip h)) ≡ txt "drop"
  unfolding extract_action first_action
  action_drop =
      let line = unwords (words ip h) in
      let no_suffix : has_suffix line (txt " accept") ≡ false =
        elim (Bool-cases (has_suffix line (txt " accept"))) [
          | inl yes_it ↦ cc (has_suffix-contains line (txt " accept") yes_it, no_accept)
          | inr e ↦ e
        ] in
      rw (no_accept, no_suffix, has_drop) refl

port_word : (w v : Text) (ws : List Text) → atoi v ≡ none → port_of (w ∷ v ∷ ws) ≡ port_of (v ∷ ws)
unfolding port_of
port_word w v ws h = elim (Bool-cases (text_beq w (txt "dport"))) [
  | inl e ↦ rw (e, h) refl
  | inr e ↦ rw e refl
]

port_zero : (ip h : Text) → port_of (words ip h) ≡ pos 0
unfolding words port_of atoi unsigned value
port_zero ip h =
    port_word ip (txt "drop")
      (txt "comment" ∷ txt "\"Waffynx" ∷ txt "block\"" ∷ txt "#" ∷ txt "handle" ∷ h ∷ []) refl

quoted_comment :
    (ip h : Text)
    → any (λ c. eqb c b'"') ip ≡ false
    → extract_quoted (unwords (words ip h)) ≡ txt "Waffynx block"
unfolding extract_quoted quoted_in cut unwords words behind_address
quoted_comment ip h free = rw (cut-free b'"' ip (behind_address h) free) refl

pub IsWord-of_IsNumeral : (w : Text) → IsNumeral w → IsWord w
IsWord-of_IsNumeral w (c, t, e, (digit, solid)) =
    ((λ nil. cc (sym e ∙ nil)), subst IsSolid (sym e) solid)

module _ (ip : Text) (address : IsAddress ip) (h : Text) (handle : IsNumeral h) where
  fields_lem : fields (unwords (words ip h)) ≡ words ip h
  unfolding words
  fields_lem = fields-unwords (words ip h) (
    word_lem (txt "ip") refl refl,
    (
      word_lem (txt "saddr") refl refl,
      (
        IsWord-of_IsNumeral ip address.0,
        (
          word_lem (txt "drop") refl refl,
          (
            word_lem (txt "comment") refl refl,
            (
              word_lem (txt "\"Waffynx") refl refl,
              (
                word_lem (txt "block\"") refl refl,
                (
                  word_lem (txt "#") refl refl,
                  (word_lem (txt "handle") refl refl, (IsWord-of_IsNumeral h handle, tt)),
                ),
              ),
            ),
          ),
        ),
      ),
    ),
  )

  trim_lem : trim_space (b'\t' ∷ b'\t' ∷ unwords (words ip h)) ≡ unwords (words ip h)
  unfolding words unwords drop_spaces trim_space
  trim_lem =
      let tail = txt " drop comment \"Waffynx block\" # handle " in
      let whole : txt "ip saddr " ++ ((ip ++ tail) ++ h) ≡ unwords (words ip h) =
        ap (λ u. txt "ip saddr " ++ u) (append_assoc ip tail h) in
      ap (λ u. trim_space (b'\t' ∷ b'\t' ∷ u)) (sym whole)
      ∙ trim_space_word (txt "ip saddr " ++ (ip ++ tail)) h (IsWord-of_IsNumeral h handle) refl
      ∙ whole

  -- The rule that is read, as a value of what was added.
  rule_in_lem :
      (table chain : Text)
      → rule_in table chain (txt "drop") (unwords (words ip h))
        ≡ record (block_rule ip) { table = table; chain = to_upper chain; protocol = txt "saddr" }
  unfolding rule_in protocol_in extract_field field_of extract_port extract_source source_of words
  rule_in_lem table chain = rw (fields_lem, port_zero ip h, quoted_comment ip h address.1) refl

  pub line_read :
      (table chain : Text) (lines : List Text)
      → parse_lines table chain ((b'\t' ∷ b'\t' ∷ unwords (words ip h)) ∷ lines)
        ≡ record (block_rule ip) { table = table; chain = to_upper chain; protocol = txt "saddr" }
          ∷ parse_lines table chain lines
  unfolding parse_lines has_prefix words unwords
  line_read table chain lines =
      rw (trim_lem, action_drop ip address.0 h handle)
        (ap (λ r. r ∷ parse_lines table chain lines) (rule_in_lem table chain))
