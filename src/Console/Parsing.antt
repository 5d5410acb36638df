-- ===== src/Console/Parsing.antt =====
-- source/client/console/parser.cpp: which lines are commands.
use piupiu.Common.{
  ℕ, ◌-◌, ◌≡◌, ◌≢◌, refl, ap, ◌∙◌, inl, inr, false, List, [], ◌∷◌, ◌++◌, Bytes, length, take-length,
  ◌==◌, ok, is_space, All, arith, Bool-cases,
}
use piupiu.Console.{
  CommandParserResult, no_match, found_match, add_byte, split, slice, parse_command, parse_pieces,
  parse_input,
}

-- A word: some bytes and no blank
abbrev pub IsWord : Bytes → Type 0
IsWord w = (w ≢ []) × All (λ c. is_space c ≡ false) w

-- Words with blanks between them
abbrev pub print_words : Bytes → List Bytes → Bytes
print_words w [] = w
print_words w (v ∷ vs) = w ++ (b' ' ∷ print_words v vs)

split-word :
    (c : ℕ) (w : Bytes) → All (λ c. is_space c ≡ false) (c ∷ w) → split (c ∷ w) ≡ (c ∷ w) ∷ []
unfolding split
split-word c [] h = rw h.0 refl
split-word c (d ∷ w) h = rw (h.0, split-word d w h.1, h.1.0) refl

add_byte-blank :
    (c : ℕ) (rest : Bytes) (words : List Bytes) → add_byte c (b' ' ∷ rest) words ≡ (c ∷ []) ∷ words
unfolding is_space
add_byte-blank c rest [] = refl
add_byte-blank c rest (w ∷ words) = refl

split-word_blank :
    (c : ℕ) (w rest : Bytes)
    → All (λ c. is_space c ≡ false) (c ∷ w)
    → split ((c ∷ w) ++ (b' ' ∷ rest)) ≡ (c ∷ w) ∷ split rest
unfolding split is_space
split-word_blank c [] rest h = rw h.0 (add_byte-blank c rest (split rest))
split-word_blank c (d ∷ w) rest h = rw (h.0, split-word_blank d w rest h.1, h.1.0) refl

-- Printed words are split again.
split-print_words :
    (w : Bytes) (ws : List Bytes) → IsWord w → All IsWord ws → split (print_words w ws) ≡ w ∷ ws
split-print_words [] ws v vs = absurd (v.0 refl)
split-print_words (c ∷ w) [] v vs = split-word c w v.1
split-print_words (c ∷ w) (u ∷ us) v vs =
    split-word_blank c w (print_words u us) v.1
    ∙ ap (λ (t : List Bytes). (c ∷ w) ∷ t) (split-print_words u us vs.0 vs.1)

-- The slice behind the first word is there, and is all the others.
pub slice-rest : (w : Bytes) (ws : List Bytes) → slice (w ∷ ws) 1 (length (w ∷ ws) - 1) ≡ ok ws
unfolding slice
slice-rest w ws = ground (arith, take-length ws)

-- A line of words with blanks between them, whose first is a slash and a name of at least one byte,
-- is read as the command of that name with the other words as its arguments.
pub parse_input-print_words :
    (name : Bytes) (arguments : List Bytes)
    → IsWord name
    → All IsWord arguments
    → parse_input (print_words (b'/' ∷ name) arguments) ≡ ok (found_match name arguments)
unfolding parse_input parse_command is_space
parse_input-print_words [] arguments v vs = absurd (v.0 refl)
parse_input-print_words (d ∷ cs) arguments v vs =
    rw
      (
        split-print_words (b'/' ∷ d ∷ cs) arguments ((λ e. cc), (refl, v.1)) vs,
        slice-rest (b'/' ∷ d ∷ cs) arguments,
      )
      refl

parse_command_total :
    (first : Bytes) (rest : List Bytes)
    → (r : CommandParserResult) × (parse_command first (first ∷ rest) ≡ ok r)
unfolding parse_command
parse_command_total [] rest = (no_match, refl)
parse_command_total (c ∷ []) rest = (no_match, refl)
parse_command_total (c ∷ d ∷ cs) rest = elim (Bool-cases (c == b'/')) [
  | inl e ↦ (found_match (d ∷ cs) rest, rw (e, slice-rest (c ∷ d ∷ cs) rest) refl)
  | inr e ↦ (no_match, rw e refl)
]

-- Every line is read, as a command or as none: no slice is out of range.
pub parse_input_total : (input : Bytes) → (r : CommandParserResult) × (parse_input input ≡ ok r)
unfolding parse_input
parse_input_total input = pieces (split input)
  where
    pieces : (l : List Bytes) → (r : CommandParserResult) × (parse_pieces l ≡ ok r)
    pieces [] = (no_match, refl)
    pieces (first ∷ rest) = parse_command_total first rest
