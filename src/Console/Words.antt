-- ===== src/Console/Words.antt =====
-- source/client/console/parser.cpp: the words and the arguments that are read from a line.
use piupiu.Common.{
  ℕ, suc, ◌≤◌, ◌≡◌, ◌≢◌, inl, inr, List, [], ◌∷◌, Bytes, length, ◌==◌, ok, All, IsText, is_space,
  arith, Bool-cases,
}
use piupiu.Console.{found_match, add_byte, split, parse_command, parse_pieces, parse_input}
use piupiu.Console.Parsing.{slice-rest}

-- A word of a text of `n` bytes
abbrev pub IsPart : ℕ → Bytes → Type 0
IsPart n w = IsText w × (length w ≤ n)

IsPart-suc : (n : ℕ) (ws : List Bytes) → All (IsPart n) ws → All (IsPart (suc n)) ws
IsPart-suc n [] h = tt
IsPart-suc n (w ∷ ws) h = ((h.0.0, omega arith), IsPart-suc n ws h.1)

add_byte-IsPart :
    (c : ℕ) (cs : Bytes) (words : List Bytes)
    → c ≢ 0
    → All (IsPart (length cs)) words
    → All (IsPart (suc (length cs))) (add_byte c cs words)
add_byte-IsPart c [] words some h = (((some, tt), omega arith), IsPart-suc 0 words h)
add_byte-IsPart c (d ∷ ds) [] some h = (((some, tt), omega arith), tt)
add_byte-IsPart c (d ∷ ds) (w ∷ words) some h =
    let rest = IsPart-suc (length (d ∷ ds)) words h.1 in
    elim (Bool-cases (is_space d)) [
      | inl e ↦ rw e (((some, tt), omega arith), ((h.0.0, omega arith), rest))
      | inr e ↦ rw e (((some, h.0.0), omega arith), rest)
    ]

-- Every word of a text is a text, and no longer.
split-IsPart : (s : Bytes) → IsText s → All (IsPart (length s)) (split s)
unfolding split
split-IsPart [] h = tt
split-IsPart (c ∷ cs) h =
    let rest = split-IsPart cs h.1 in
    elim (Bool-cases (is_space c)) [
      | inl e ↦ rw e (IsPart-suc (length cs) (split cs) rest)
      | inr e ↦ rw e (add_byte-IsPart c cs (split cs) h.0 rest)
    ]

-- The arguments of a command that was found are words of the line.
pieces-arguments :
    (l : List Bytes) (n : ℕ) (command : Bytes) (arguments : List Bytes)
    → All (IsPart n) l
    → parse_pieces l ≡ ok (found_match command arguments)
    → All (IsPart n) arguments
unfolding parse_command
pieces-arguments [] n command arguments h e = cc
pieces-arguments ([] ∷ rest) n command arguments h e = cc
pieces-arguments ((c ∷ []) ∷ rest) n command arguments h e = cc
pieces-arguments ((c ∷ d ∷ cs) ∷ rest) n command arguments h e = elim (Bool-cases (c == b'/')) [
  | inl t ↦
      let whole = rw (t, slice-rest (c ∷ d ∷ cs) rest) at e in
      let here : rest ≡ arguments = ground (arith, whole) in rw (← here) h.1
  | inr t ↦ let none_found = rw t at e in ground (arith, none_found)
]

pub parse_input-arguments :
    (s command : Bytes) (arguments : List Bytes)
    → IsText s
    → parse_input s ≡ ok (found_match command arguments)
    → All (IsPart (length s)) arguments
unfolding parse_input
parse_input-arguments s command arguments h e =
    pieces-arguments (split s) (length s) command arguments (split-IsPart s h) e
