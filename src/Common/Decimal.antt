-- ===== src/Common/Decimal.antt =====
-- Decimal numbers as a stream writes and reads them, and `isspace`.
use Prim.Native.Nat.{ℕ, zero, suc, ◌+◌, ◌-◌, ◌*◌, ◌/◌, ◌%◌, ◌<◌}
use mathlib.Core.Path.{◌≡◌, refl, ◌∙◌}
use mathlib.Core.Logic.{inl, inr}
use mathlib.Core.Bool.{Bool, true, false, ◌&&◌, ◌||◌}
use mathlib.Core.List.{[], ◌∷◌, ◌++◌}
use native.Mathlib.Omega.{arith}
use piupiu.Common.Tests.{ltb, leb, ◌==◌, if◌then◌else◌, Bool-cases}
use piupiu.Common.Text.{Bytes}

-- `isspace` of the C locale
unfoldable pub is_space : ℕ → Bool
is_space c = c == b' ' || (leb 9 c && leb c 13)

unfoldable pub is_digit : ℕ → Bool
is_digit c = leb b'0' c && leb c b'9'

-- The digits of `n`, before `acc`. `n + 1` rounds are enough.
unfoldable pub show_onto : ℕ → ℕ → Bytes → Bytes
show_onto zero n acc = acc
show_onto (suc f) n acc =
    let more = show_onto f (n / 10) ((b'0' + n % 10) ∷ acc) in
    if ltb n 10 then (b'0' + n) ∷ acc else more

-- `operator<<` of an unsigned number
unfoldable pub show_ℕ : ℕ → Bytes
unfolding show_onto
show_ℕ n = show_onto (n + 1) n []

-- The value of the digits in front, and what follows them.
unfoldable pub parse_digits : ℕ → Bytes → ℕ × Bytes
unfolding is_digit
parse_digits acc [] = (acc, [])
parse_digits acc (c ∷ cs) =
    let more = parse_digits (acc * 10 + (c - b'0')) cs in if is_digit c then more else (acc, c ∷ cs)

digit_is_digit : (n : ℕ) → is_digit (b'0' + n % 10) ≡ true
unfolding is_digit
digit_is_digit n = ground arith

pub parse_digits-show_onto :
    (f n : ℕ) (acc : Bytes) → n < f → parse_digits 0 (show_onto f n acc) ≡ parse_digits n acc
unfolding show_onto parse_digits
parse_digits-show_onto zero n acc h = elim h [ ]
parse_digits-show_onto (suc f) n acc h = elim (Bool-cases (ltb n 10)) [
  | inl e ↦ rw e (ground arith)
  | inr e ↦ rw e (parse_digits-show_onto f (n / 10) ((b'0' + n % 10) ∷ acc) (ground arith) ∙ step)
]
  where
    value : n / 10 * 10 + (b'0' + n % 10 - b'0') ≡ n
    value = omega arith

    step : parse_digits (n / 10) ((b'0' + n % 10) ∷ acc) ≡ parse_digits n acc
    step = rw (digit_is_digit n, value)

-- What is written is read back, up to a byte that is no digit.
pub parse_digits-show_ℕ :
    (n c : ℕ) (rest : Bytes)
    → is_digit c ≡ false
    → parse_digits 0 (show_onto (n + 1) n (c ∷ rest)) ≡ (n, c ∷ rest)
unfolding parse_digits
parse_digits-show_ℕ n c rest h = parse_digits-show_onto (n + 1) n (c ∷ rest) (omega arith) ∙ rw h

-- The digits of a number are not empty.
pub show_onto_head :
    (f n : ℕ) (acc : Bytes)
    → n < f
    → (d : ℕ) × (tail : Bytes) × (show_onto f n acc ≡ d ∷ tail) × (is_digit d ≡ true)
unfolding show_onto is_digit
show_onto_head zero n acc h = elim h [ ]
show_onto_head (suc f) n acc h = elim (Bool-cases (ltb n 10)) [
  | inl e ↦ (b'0' + n, acc, rw e, ground arith)
  | inr e ↦
      let (d, tail, q, r) = show_onto_head f (n / 10) ((b'0' + n % 10) ∷ acc) (ground arith) in
      (d, tail, rw e q, r)
]

pub show_onto-append :
    (f n : ℕ) (acc rest : Bytes) → show_onto f n acc ++ rest ≡ show_onto f n (acc ++ rest)
unfolding show_onto
show_onto-append zero n acc rest = refl
show_onto-append (suc f) n acc rest =
    ground (arith, show_onto-append f (n / 10) ((b'0' + n % 10) ∷ acc) rest)
