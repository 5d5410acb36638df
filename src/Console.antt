-- ===== src/Console.antt =====
-- source/client/console/parser.hpp and parser.cpp: a line that the user types, read as a command.
pub mod Parsing
pub mod Interface
pub mod Words
pub mod Input
pub mod Session
pub mod Turns
pub mod Screen
pub mod Drawing
use piupiu.Common.{
  ℕ, zero, suc, ◌+◌, ◌-◌, Bool, true, false, List, [], ◌∷◌, Bytes, length, drop, take, ltb, leb,
  ◌==◌, if◌then◌else◌, Result, ok, err, ◌>>=◌, out_of_range, is_space,
}

-- `no_match` has `foundMatch` false.
pub data CommandParserResult : Type 0 where
  no_match : CommandParserResult
  found_match : Bytes → List Bytes → CommandParserResult

-- A byte `c` of a word, before the rest `cs` of the text, which has the words `rest`
abbrev pub add_byte : ℕ → Bytes → List Bytes → List Bytes
add_byte c [] rest = (c ∷ []) ∷ rest
add_byte c (d ∷ ds) [] = (c ∷ []) ∷ []
add_byte c (d ∷ ds) (word ∷ words) =
    if is_space d then (c ∷ []) ∷ word ∷ words else (c ∷ word) ∷ words

-- `split`: the words of a text, as istream_iterator reads them
unfoldable pub split : Bytes → List Bytes
unfolding is_space
split [] = []
split (c ∷ cs) = let rest = split cs in if is_space c then rest else add_byte c cs rest

-- `slice`: the elements from X to Y, which must be there
unfoldable pub slice : List Bytes → ℕ → ℕ → Result (List Bytes)
slice arr x y =
    if leb x (y + 1)
    then (if leb (y + 1) (length arr) then ok (take (y + 1 - x) (drop x arr)) else err out_of_range)
    else err out_of_range

-- `ParseCommand` on the first word; `found_match` is a return of true.
unfoldable pub parse_command : Bytes → List Bytes → Result CommandParserResult
unfolding slice
parse_command [] pieces = ok no_match
parse_command (c ∷ []) pieces = ok no_match
parse_command (c ∷ d ∷ cs) pieces =
    if c == b'/'
    then (do arguments ← slice pieces 1 (length pieces - 1); ok (found_match (d ∷ cs) arguments))
    else ok no_match

abbrev pub parse_pieces : List Bytes → Result CommandParserResult
parse_pieces [] = ok no_match
parse_pieces (first ∷ rest) = parse_command first (first ∷ rest)

unfoldable pub parse_input : Bytes → Result CommandParserResult
parse_input input = parse_pieces (split input)
