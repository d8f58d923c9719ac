-- ===== src/Common/Words.antt =====
-- The functions of package `strings` that work by white space, for the texts that `nft` and `ufw`
-- print. These are ASCII, so white space is the ASCII one.
use mathlib.Core.List.{reverse, reverse-append, reverse-reverse}
use waffynx.Common.Substring.{has_prefix_iff, contains_text_iff}
use waffynx.Common.{
  leb, eqb, if◌then◌else◌, any, All, All-append, Text, is_empty, has_prefix, contains_text, ℕ, ◌≡◌,
  refl, sym, ap, subst, ◌∙◌, ◌≢◌, Bool, true, false, ◌&&◌, ◌||◌, List, [], ◌∷◌, ◌++◌, append-nil,
  append_assoc, arith,
}

-- \t, \n, \v, \f, \r and the blank.
abbrev pub is_space : ℕ → Bool
is_space c = eqb c b' ' || (leb 9 c && leb c 13)

unfoldable pub drop_spaces : Text → Text
drop_spaces [] = []
drop_spaces (c ∷ s) = if is_space c then drop_spaces s else c ∷ s

-- strings.TrimSpace(s).
unfoldable pub trim_space : Text → Text
unfolding drop_spaces
trim_space s = reverse (drop_spaces (reverse (drop_spaces s)))

-- strings.HasSuffix(s, p).
unfoldable pub has_suffix : Text → Text → Bool
unfolding has_prefix
has_suffix s p = has_prefix (reverse s) (reverse p)

-- A word, unless it is empty, in front of others.
abbrev pub cons_word : Text → List Text → List Text
cons_word [] rest = rest
cons_word (c ∷ word) rest = (c ∷ word) ∷ rest

-- strings.Fields, with the part of a word that was read.
unfoldable pub fields_loop : Text → Text → List Text
fields_loop word [] = cons_word word []
fields_loop word (c ∷ s) =
    let closed = cons_word word (fields_loop [] s) in
    let longer = fields_loop (word ++ c ∷ []) s in if is_space c then closed else longer

unfoldable pub fields : Text → List Text
unfolding fields_loop
fields s = fields_loop [] s

-- The words with a blank behind each but the last: fmt's `%v` of a slice, without its brackets.
unfoldable pub unwords : List Text → Text
unwords [] = []
unwords (w ∷ []) = w
unwords (w ∷ v ∷ ws) = w ++ (b' ' ∷ unwords (v ∷ ws))

abbrev pub IsSolid : Text → Type 0
IsSolid w = All (λ c. is_space c ≡ false) w

-- A word is not empty and has no white space.
abbrev pub IsWord : Text → Type 0
IsWord w = (w ≢ []) × IsSolid w

pub fields_loop-solid :
    (word w s : Text) → IsSolid w → fields_loop word (w ++ s) ≡ fields_loop (word ++ w) s
unfolding fields_loop
fields_loop-solid word [] s h = ap (λ v. fields_loop v s) (sym (append-nil word))
fields_loop-solid word (c ∷ w) s h = rw h.0 (
    fields_loop-solid (word ++ c ∷ []) w s h.1
    ∙ ap (λ v. fields_loop v s) (append_assoc word (c ∷ []) w))

pub cons_word-word : (w : Text) (rest : List Text) → w ≢ [] → cons_word w rest ≡ w ∷ rest
cons_word-word [] rest h = absurd (h refl)
cons_word-word (c ∷ w) rest h = refl

-- Splitting at white space gives back the words that were joined.
pub fields-unwords : (ws : List Text) → All IsWord ws → fields (unwords ws) ≡ ws
unfolding fields unwords fields_loop
fields-unwords [] h = refl
fields-unwords (w ∷ []) h =
    ap (fields_loop []) (sym (append-nil w))
    ∙ fields_loop-solid [] w [] h.0.1
    ∙ cons_word-word w [] h.0.0
fields-unwords (w ∷ v ∷ ws) h =
    fields_loop-solid [] w (b' ' ∷ unwords (v ∷ ws)) h.0.1
    ∙ cons_word-word w (fields_loop [] (unwords (v ∷ ws))) h.0.0
    ∙ ap (◌∷◌ w) (fields-unwords (v ∷ ws) h.1)

IsSolid-reverse : (w : Text) → IsSolid w → IsSolid (reverse w)
IsSolid-reverse [] h = h
IsSolid-reverse (c ∷ w) h =
    subst IsSolid (sym (reverse-append (c ∷ []) w))
      (All-append (λ c. is_space c ≡ false) (reverse w) (c ∷ []) (IsSolid-reverse w h.1) (h.0, tt))

pub drop_spaces-solid : (w s : Text) → w ≢ [] → IsSolid w → drop_spaces (w ++ s) ≡ w ++ s
unfolding drop_spaces
drop_spaces-solid [] s h solid = absurd (h refl)
drop_spaces-solid (c ∷ w) s h solid = rw solid.0 refl

-- A text that ends in a word and begins with no white space is left by `TrimSpace`.
pub trim_space_word :
    (s w : Text) → IsWord w → drop_spaces (s ++ w) ≡ s ++ w → trim_space (s ++ w) ≡ s ++ w
unfolding trim_space
trim_space_word s w h front =
    let back : w ≢ [] → reverse w ≢ [] = λ ne e. ne (sym (reverse-reverse w) ∙ ap reverse e) in
    ap (λ u. reverse (drop_spaces (reverse u))) front
    ∙ ap (λ u. reverse (drop_spaces u)) (reverse-append s w)
    ∙ ap reverse (drop_spaces-solid (reverse w) (reverse s) (back h.0) (IsSolid-reverse w h.1))
    ∙ ap reverse (sym (reverse-append s w))
    ∙ reverse-reverse (s ++ w)

-- A suffix stands in the text.
pub has_suffix-contains : (s p : Text) → has_suffix s p ≡ true → contains_text s p ≡ true
unfolding has_suffix
has_suffix-contains s p h =
    let (rest, e) = (has_prefix_iff (reverse s) (reverse p)).0 h in
    let split : s ≡ reverse rest ++ p =
      sym (reverse-reverse s)
      ∙ ap reverse e
      ∙ reverse-append (reverse p) rest
      ∙ ap (λ u. reverse rest ++ u) (reverse-reverse p) in
    (contains_text_iff s p).1
      (reverse rest, [], split ∙ ap (λ u. reverse rest ++ u) (sym (append-nil p)))

-- Text without blanks cannot hold a text that begins with one.
pub contains-solid :
    (w s p : Text) → IsSolid w → contains_text (w ++ s) (b' ' ∷ p) ≡ contains_text s (b' ' ∷ p)
unfolding contains_text has_prefix
contains-solid [] s p h = refl
contains-solid (c ∷ w) s p h =
    let other : eqb c b' ' ≡ false = ground arith in rw other (contains-solid w s p h.1)

pub word_lem : (w : Text) → is_empty w ≡ false → any is_space w ≡ false → IsWord w
word_lem [] e h = cc e
word_lem (c ∷ w) e h = ((λ nil. cc nil), go (c ∷ w) h)
  where
    go : (v : Text) → any is_space v ≡ false → IsSolid v
    go [] h = tt
    go (c ∷ v) h = (ground arith, go v (ground arith))

-- Joined words end in a word.
unwords-ends :
    (w : Text) (ws : List Text)
    → All IsWord (w ∷ ws)
    → (s : Text) × (v : Text) × (unwords (w ∷ ws) ≡ s ++ v) × IsWord v
unfolding unwords
unwords-ends w [] h = ([], w, refl, h.0)
unwords-ends w (v ∷ ws) h =
    let (s, u, e, word) = unwords-ends v ws h.1 in
    (w ++ b' ' ∷ s, u, ap (λ t. w ++ b' ' ∷ t) e ∙ sym (append_assoc w (b' ' ∷ s) u), word)

-- A text that begins with no white space and ends in joined words is left by `TrimSpace`.
pub trim-unwords :
    (front w : Text) (ws : List Text)
    → All IsWord (w ∷ ws)
    → drop_spaces (front ++ unwords (w ∷ ws)) ≡ front ++ unwords (w ∷ ws)
    → trim_space (front ++ unwords (w ∷ ws)) ≡ front ++ unwords (w ∷ ws)
trim-unwords front w ws h e =
    let (s, v, split, word) = unwords-ends w ws h in
    let whole : front ++ unwords (w ∷ ws) ≡ (front ++ s) ++ v =
      ap (λ t. front ++ t) split ∙ sym (append_assoc front s v) in
    ap trim_space whole
    ∙ trim_space_word (front ++ s) v word (ap drop_spaces (sym whole) ∙ e ∙ whole)
    ∙ sym whole

pub drop_spaces-unwords :
    (w : Text) (ws : List Text)
    → All IsWord (w ∷ ws)
    → drop_spaces (unwords (w ∷ ws)) ≡ unwords (w ∷ ws)
unfolding unwords
drop_spaces-unwords w [] h =
    ap drop_spaces (sym (append-nil w)) ∙ drop_spaces-solid w [] h.0.0 h.0.1 ∙ append-nil w
drop_spaces-unwords w (v ∷ ws) h = drop_spaces-solid w (b' ' ∷ unwords (v ∷ ws)) h.0.0 h.0.1

abbrev pub has_newline : Text → Bool
has_newline = any (λ c. eqb c b'\n')

pub newline-solid : (w s : Text) → IsSolid w → has_newline s ≡ false → has_newline (w ++ s) ≡ false
newline-solid [] s solid h = h
newline-solid (c ∷ w) s solid h =
    let other : eqb c b'\n' ≡ false = grind arith in rw other (newline-solid w s solid.1 h)

pub newline-unwords : (ws : List Text) → All IsWord ws → has_newline (unwords ws) ≡ false
unfolding unwords
newline-unwords [] h = refl
newline-unwords (w ∷ []) h = ap has_newline (sym (append-nil w)) ∙ newline-solid w [] h.0.1 refl
newline-unwords (w ∷ v ∷ ws) h =
    newline-solid w (b' ' ∷ unwords (v ∷ ws)) h.0.1 (newline-unwords (v ∷ ws) h.1)
