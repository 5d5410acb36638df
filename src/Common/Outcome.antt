-- ===== src/Common/Outcome.antt =====
-- What a run of the C++ code may end in: a value, or a fault.
use mathlib.Core.Path.{◌≡◌, refl}
use mathlib.Core.Option.{Option, none, some}
use mathlib.Core.Bool.{Bool, true, false}
use mathlib.Core.Logic.{◌⊎◌, inl, inr}

-- A write past an array, a C string with no terminator in its array, a read of a pointer that was
-- never initialised, a pointer to no object, an index past a container, an uncaught exception, and a
-- function that flows off its end with no value, and a number that its type does not hold.
-- `diverged` is a loop that used up its fuel.
pub data Fault : Type 0 where
  buffer_overflow unterminated indeterminate dangling out_of_range uncaught no_value overflow :
      Fault
  diverged : Fault

-- What a fallible call returns.
pub data Result {ℓ} (A : Type ℓ) : Type ℓ where
  err : Fault → Result A
  ok : A → Result A

pub Result-cases {ℓ} :
    {A : Type ℓ} (r : Result A) → ((a : A) × (r ≡ ok a)) ⊎ ((f : Fault) × (r ≡ err f))
Result-cases (ok a) = inl (a, refl)
Result-cases (err f) = inr (f, refl)

-- A run that goes on after a value and stops at a fault.
module _ {ℓ κ} {A : Type ℓ} {B : Type κ} where
  infixl 5 ◌>>=◌
  abbrev pub ◌>>=◌ : Result A → (A → Result B) → Result B
  (err fault) >>= next = err fault
  (ok value) >>= next = next value

  -- A run that ended in a value went through one.
  pub >>=-eq-ok :
      (first : Result A) (next : A → Result B) {end : B}
      → (first >>= next) ≡ ok end
      → (value : A) × (first ≡ ok value) × (next value ≡ ok end)
  >>=-eq-ok (err fault) next e = cc
  >>=-eq-ok (ok value) next e = (value, refl, e)

-- The end of a function that is declared to return a value and has no `return`, for a caller who
-- reads none: C++ leaves it undefined. `returns` is the compiler's: whether such a function returns
-- to its caller.
abbrev pub off_end {ℓ} : {A : Type ℓ} → Bool → A → Result A
off_end true a = ok a
off_end false a = err no_value

-- A dereference: `fault` is what there is when there is nothing.
abbrev pub or_fail {ℓ} : {A : Type ℓ} → Option A → Fault → Result A
or_fail (some value) fault = ok value
or_fail none fault = err fault
