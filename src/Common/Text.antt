-- ===== src/Common/Text.antt =====
-- Texts as lists of bytes: `std::string` equality and order, and C strings in arrays.
use Prim.Native.Nat.{ℕ, ◌+◌, ◌≤◌, ◌<◌}
use Prim.Native.Char.{code}
use Prim.Native.String.{String}
use mathlib.Core.Path.{◌≡◌, refl}
use mathlib.Core.Logic.{◌≢◌, ◌↔◌, inl, inr}
use mathlib.Core.Bool.{Bool, true, false, ◌&&◌, ◌||◌}
use mathlib.Core.List.{List, [], ◌∷◌, ◌++◌}
use native.Mathlib.Omega.{arith}
use piupiu.Common.Tests.{ltb, ◌==◌, if◌then◌else◌, Bool-cases}
use piupiu.Common.Lists.{length, drop, All, length-append, length-drop}
use piupiu.Common.Outcome.{Result, ok, err, unterminated, buffer_overflow, ◌>>=◌, >>=-eq-ok}

abbrev pub Bytes : Type 0
Bytes = List ℕ

-- The code points of a text: its bytes, if it is ASCII. `String` has its own `[]` and `∷`.
abbrev pub codes : String → Bytes
codes String.[] = []
codes (String.◌∷◌ c s) = code c ∷ codes s

-- `a == b`, and `a.compare(b) == 0`
unfoldable pub same : Bytes → Bytes → Bool
same [] [] = true
same (x ∷ xs) (y ∷ ys) = x == y && same xs ys
same _ _ = false

pub same_iff : (a b : Bytes) → (same a b ≡ true) ↔ (a ≡ b)
unfolding same
same_iff [] [] = ground arith
same_iff (x ∷ a) (y ∷ b) = ground (arith, same_iff a b)
same_iff _ _ = ground arith

pub same_refl : (a : Bytes) → same a a ≡ true
same_refl a = (same_iff a a).1 refl

-- `a < b` of `std::string`, the order of the keys of a `std::map`
unfoldable pub lex_lt : Bytes → Bytes → Bool
lex_lt [] [] = false
lex_lt [] (y ∷ ys) = true
lex_lt (x ∷ xs) [] = false
lex_lt (x ∷ xs) (y ∷ ys) = ltb x y || (x == y && lex_lt xs ys)

pub lex_lt_irrefl : (a : Bytes) → lex_lt a a ≡ false
unfolding lex_lt
lex_lt_irrefl [] = refl
lex_lt_irrefl (x ∷ a) = ground (arith, lex_lt_irrefl a)

pub lex_lt_trans : (a b c : Bytes) → lex_lt a b ≡ true → lex_lt b c ≡ true → lex_lt a c ≡ true
unfolding lex_lt
lex_lt_trans [] [] c h k = cc
lex_lt_trans [] (y ∷ b) [] h k = cc
lex_lt_trans [] (y ∷ b) (z ∷ c) h k = refl
lex_lt_trans (x ∷ a) [] c h k = cc
lex_lt_trans (x ∷ a) (y ∷ b) [] h k = cc
lex_lt_trans (x ∷ a) (y ∷ b) (z ∷ c) h k = ground (arith, lex_lt_trans a b c)

pub lex_lt_connex : (a b : Bytes) → same b a ≡ false → lex_lt a b ≡ false → lex_lt b a ≡ true
unfolding lex_lt same
lex_lt_connex [] [] h k = cc
lex_lt_connex [] (y ∷ b) h k = cc
lex_lt_connex (x ∷ a) [] h k = refl
lex_lt_connex (x ∷ a) (y ∷ b) h k = ground (arith, lex_lt_connex a b)

-- What `s.c_str()` hands to a C function: the bytes before the first NUL.
unfoldable pub c_str : Bytes → Bytes
c_str [] = []
c_str (b ∷ bs) = if b == 0 then [] else b ∷ c_str bs

-- `strcpy(array, s.c_str())`: it overruns an array that has no room for the text and its NUL.
unfoldable pub strcpy : Bytes → Bytes → Result Bytes
unfolding c_str
strcpy array s =
    let text = c_str s in
    if ltb (length text) (length array)
    then ok (text ++ (0 ∷ drop (length text + 1) array))
    else err buffer_overflow

-- `std::string(array)`: the bytes up to the first NUL, which must lie in the array.
unfoldable pub from_c_array : Bytes → Result Bytes
from_c_array [] = err unterminated
from_c_array (b ∷ bs) =
    let rest = from_c_array bs in if b == 0 then ok [] else (rest >>= λ s. ok (b ∷ s))

-- No byte is NUL.
abbrev pub IsText : Bytes → Type 0
IsText = All (λ b. b ≢ 0)

pub c_str-IsText : (s : Bytes) → IsText s → c_str s ≡ s
unfolding c_str
c_str-IsText [] h = refl
c_str-IsText (b ∷ s) h = ground (arith, c_str-IsText s h.1)

pub IsText-c_str : (s : Bytes) → IsText (c_str s)
unfolding c_str
IsText-c_str [] = tt
IsText-c_str (b ∷ s) = elim (Bool-cases (b == 0)) [
  | inl e ↦ rw e tt
  | inr e ↦ rw e (ground arith, IsText-c_str s)
]

pub from_c_array-IsText : (s rest : Bytes) → IsText s → from_c_array (s ++ (0 ∷ rest)) ≡ ok s
unfolding from_c_array
from_c_array-IsText [] rest h = refl
from_c_array-IsText (b ∷ s) rest h = ground (arith, from_c_array-IsText s rest h.1)

-- What was copied into an array reads back.
pub from_c_array-strcpy :
    (array s : Bytes) {a : Bytes} → strcpy array s ≡ ok a → from_c_array a ≡ ok (c_str s)
unfolding strcpy
from_c_array-strcpy array s {a} h = elim (Bool-cases (ltb (length (c_str s)) (length array))) [
  | inl e ↦
      let q : (c_str s ++ (0 ∷ drop (length (c_str s) + 1) array)) ≡ a = ground arith in
      rw (← q) (from_c_array-IsText (c_str s) _ (IsText-c_str s))
  | inr e ↦ ground arith
]

pub length-strcpy : (array s : Bytes) {a : Bytes} → strcpy array s ≡ ok a → length a ≡ length array
unfolding strcpy
length-strcpy array s {a} h = elim (Bool-cases (ltb (length (c_str s)) (length array))) [
  | inl e ↦
      let q : (c_str s ++ (0 ∷ drop (length (c_str s) + 1) array)) ≡ a = ground arith in
      rw (← q) (
        ground (
          arith,
          length-append (c_str s) (0 ∷ drop (length (c_str s) + 1) array),
          length-drop (length (c_str s) + 1) array,
        ))
  | inr e ↦ ground arith
]

-- A text copies whole when the array has room for it and its NUL, and overruns it otherwise.
pub strcpy-fits :
    (array s : Bytes)
    → IsText s
    → length s < length array
    → (a : Bytes) × (strcpy array s ≡ ok a) × (from_c_array a ≡ ok s)
unfolding strcpy
strcpy-fits array s h k = (
  s ++ (0 ∷ drop (length s + 1) array),
  ground (arith, c_str-IsText s h),
  from_c_array-IsText s _ h,
)

pub strcpy-overflows :
    (array s : Bytes) → IsText s → length array ≤ length s → strcpy array s ≡ err buffer_overflow
unfolding strcpy
strcpy-overflows array s h k = ground (arith, c_str-IsText s h)

-- What is read from an array has no NUL.
pub from_c_array_text : (a s : Bytes) → from_c_array a ≡ ok s → IsText s
unfolding from_c_array
from_c_array_text [] s e = cc
from_c_array_text (b ∷ a) s e = elim (Bool-cases (b == 0)) [
  | inl h ↦ let q : [] ≡ s = ground arith in rw (← q) tt
  | inr h ↦
      let (t, read, e') = >>=-eq-ok (from_c_array a) (λ t. ok (b ∷ t)) (rw h at e) in
      let q : (b ∷ t) ≡ s = ground arith in rw (← q) (ground arith, from_c_array_text a t read)
]
