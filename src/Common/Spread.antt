-- ===== src/Common/Spread.antt =====
-- Words with any number of blanks between them, as tables print them.
use waffynx.Common.Words.{
  fields_loop, fields, drop_spaces, trim_space, IsWord, fields_loop-solid, cons_word-word,
  drop_spaces-solid, trim_space_word, has_newline, newline-solid,
}
use waffynx.Common.{
  All, Text, zero, suc, ℕ, ◌≡◌, refl, sym, ap, ◌∙◌, false, List, [], ◌∷◌, ◌++◌, map, append-nil,
  append_assoc,
}

abbrev pub blanks : ℕ → Text
blanks zero = []
blanks (suc n) = b' ' ∷ blanks n

-- A word, and others, each with the number of blanks before it, beside the first.
unfoldable pub spread : Text → List (ℕ × Text) → Text
spread w [] = w
spread w ((n, v) ∷ ws) = w ++ (b' ' ∷ (blanks n ++ spread v ws))

abbrev pub words_of : Text → List (ℕ × Text) → List Text
words_of w ws = w ∷ map (λ x. x.1) ws

fields-blanks : (n : ℕ) (s : Text) → fields_loop [] (blanks n ++ s) ≡ fields_loop [] s
unfolding fields_loop
fields-blanks zero s = refl
fields-blanks (suc n) s = fields-blanks n s

-- Splitting at white space gives back the words.
pub fields-spread :
    (w : Text) (ws : List (ℕ × Text))
    → All IsWord (words_of w ws)
    → fields (spread w ws) ≡ words_of w ws
unfolding fields spread fields_loop
fields-spread w [] h =
    ap (fields_loop []) (sym (append-nil w))
    ∙ fields_loop-solid [] w [] h.0.1
    ∙ cons_word-word w [] h.0.0
fields-spread w ((n, v) ∷ ws) h =
    fields_loop-solid [] w (b' ' ∷ (blanks n ++ spread v ws)) h.0.1
    ∙ cons_word-word w (fields_loop [] (blanks n ++ spread v ws)) h.0.0
    ∙ ap (◌∷◌ w) (fields-blanks n (spread v ws) ∙ fields-spread v ws h.1)

spread-ends :
    (w : Text) (ws : List (ℕ × Text))
    → All IsWord (words_of w ws)
    → (s : Text) × (v : Text) × (spread w ws ≡ s ++ v) × IsWord v
unfolding spread
spread-ends w [] h = ([], w, refl, h.0)
spread-ends w ((n, v) ∷ ws) h =
    let (s, u, e, word) = spread-ends v ws h.1 in
    (
      w ++ (b' ' ∷ (blanks n ++ s)),
      u,
      ap (λ t. w ++ (b' ' ∷ (blanks n ++ t))) e
          ∙ ap (λ t. w ++ (b' ' ∷ t)) (sym (append_assoc (blanks n) s u))
          ∙ sym (append_assoc w (b' ' ∷ (blanks n ++ s)) u),
      word,
    )

-- A text that begins with no white space and ends in such words is left by `TrimSpace`.
pub trim-spread :
    (front w : Text) (ws : List (ℕ × Text))
    → All IsWord (words_of w ws)
    → drop_spaces (front ++ spread w ws) ≡ front ++ spread w ws
    → trim_space (front ++ spread w ws) ≡ front ++ spread w ws
trim-spread front w ws h e =
    let (s, v, split, word) = spread-ends w ws h in
    let whole : front ++ spread w ws ≡ (front ++ s) ++ v =
      ap (λ t. front ++ t) split ∙ sym (append_assoc front s v) in
    ap trim_space whole
    ∙ trim_space_word (front ++ s) v word (ap drop_spaces (sym whole) ∙ e ∙ whole)
    ∙ sym whole

pub drop_spaces-spread :
    (w : Text) (ws : List (ℕ × Text))
    → All IsWord (words_of w ws)
    → drop_spaces (spread w ws) ≡ spread w ws
unfolding spread
drop_spaces-spread w [] h =
    ap drop_spaces (sym (append-nil w)) ∙ drop_spaces-solid w [] h.0.0 h.0.1 ∙ append-nil w
drop_spaces-spread w ((n, v) ∷ ws) h =
    drop_spaces-solid w (b' ' ∷ (blanks n ++ spread v ws)) h.0.0 h.0.1

newline-blanks : (n : ℕ) (s : Text) → has_newline s ≡ false → has_newline (blanks n ++ s) ≡ false
newline-blanks zero s h = h
newline-blanks (suc n) s h = newline-blanks n s h

pub newline-spread :
    (w : Text) (ws : List (ℕ × Text))
    → All IsWord (words_of w ws)
    → has_newline (spread w ws) ≡ false
unfolding spread
newline-spread w [] h = ap has_newline (sym (append-nil w)) ∙ newline-solid w [] h.0.1 refl
newline-spread w ((n, v) ∷ ws) h =
    newline-solid w (b' ' ∷ (blanks n ++ spread v ws)) h.0.1
      (newline-blanks n (spread v ws) (newline-spread v ws h.1))
