-- ===== src/Common/Split.antt =====
-- `std::getline` in a loop, and `atoi`.
use Prim.Native.Nat.{ℕ, zero, suc, ◌^◌}
use mathlib.Core.Bool.{Bool}
use piupiu.Common.Outcome.{Result, ok, err, overflow}
use mathlib.Core.Path.{◌≡◌}
use mathlib.Core.Logic.{◌≢◌}
use mathlib.Core.List.{List, [], ◌∷◌, ◌++◌}
use native.Mathlib.Omega.{arith}
use piupiu.Common.Tests.{◌==◌, ltb, if◌then◌else◌}
use piupiu.Common.Text.{Bytes}
use piupiu.Common.Lists.{All}
use piupiu.Common.Int.{ℤ, pos, negsuc}
use piupiu.Common.Decimal.{is_space, parse_digits}

-- A byte in front of the first piece.
unfoldable pub push_byte : ℕ → List Bytes → List Bytes
push_byte c [] = (c ∷ []) ∷ []
push_byte c (p ∷ ps) = (c ∷ p) ∷ ps

-- The pieces that `while (getline(ss, piece, delimiter))` takes from a text: the delimiter ends a
-- piece, and nothing behind the last delimiter is no piece.
unfoldable pub split_on : ℕ → Bytes → List Bytes
unfolding push_byte
split_on d [] = []
split_on d (c ∷ cs) = let rest = split_on d cs in if c == d then [] ∷ rest else push_byte c rest

-- A piece in front of the first piece, when that piece goes on.
pub split_on-piece :
    (d : ℕ) (p rest : Bytes)
    → All (λ c. c ≢ d) p
    → split_on d (p ++ (d ∷ rest)) ≡ p ∷ split_on d rest
unfolding split_on
split_on-piece d [] rest h = ground arith
split_on-piece d (c ∷ p) rest h = ground (arith, split_on-piece d p rest h.1)

pub split_on-last :
    (d c : ℕ) (p : Bytes) → All (λ b. b ≢ d) (c ∷ p) → split_on d (c ∷ p) ≡ (c ∷ p) ∷ []
unfolding split_on
split_on-last d c [] h = ground arith
split_on-last d c (b ∷ p) h = ground (arith, split_on-last d b p h.1)

unfoldable pub skip_space : Bytes → Bytes
skip_space [] = []
skip_space (c ∷ cs) = if is_space c then skip_space cs else c ∷ cs

abbrev pub negate : ℕ → ℤ
negate zero = pos 0
negate (suc n) = negsuc n

-- `atoi`: blanks, a sign, digits; 0 when there is no digit. A value outside `int` is undefined.
unfoldable pub atoi_signed : Bytes → ℤ
atoi_signed [] = pos 0
atoi_signed (c ∷ cs) =
    if c == b'-'
    then negate (parse_digits 0 cs).0
    else if c == b'+'
    then pos (parse_digits 0 cs).0
    else pos (parse_digits 0 (c ∷ cs)).0

unfoldable pub atoi_value : Bytes → ℤ
unfolding atoi_signed skip_space is_space parse_digits
atoi_value text = atoi_signed (skip_space text)

-- Whether an `int` of 32 bits holds the value
abbrev pub is_int : ℤ → Bool
is_int (pos n) = ltb n (2 ^ 31)
is_int (negsuc n) = ltb n (2 ^ 31)

unfoldable pub atoi : Bytes → Result ℤ
atoi text = if is_int (atoi_value text) then ok (atoi_value text) else err overflow
