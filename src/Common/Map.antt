-- ===== src/Common/Map.antt =====
-- `std::map<std::string, V>`: its entries in the order of their keys.
use piupiu.Common.Tests.{if◌then◌else◌, Bool-cases}
use piupiu.Common.Text.{Bytes, same, same_iff, lex_lt, lex_lt_trans, lex_lt_irrefl, lex_lt_connex}
use mathlib.Core.Path.{◌≡◌, refl}
use mathlib.Core.Logic.{inl, inr}
use mathlib.Core.Bool.{true}
use mathlib.Core.Option.{Option, none, some}
use mathlib.Core.List.{List, [], ◌∷◌}
use native.Mathlib.Omega.{arith}

module _ {ℓ} {V : Type ℓ} where
  -- `find`
  unfoldable pub find_key : Bytes → List (Bytes × V) → Option V
  find_key k [] = none
  find_key k ((j, v) ∷ m) = if same j k then some v else find_key k m

  -- `insert`, which leaves the entry of a key that is there alone
  unfoldable pub insert_key : Bytes → V → List (Bytes × V) → List (Bytes × V)
  insert_key k v [] = (k, v) ∷ []
  insert_key k v ((j, w) ∷ m) =
      let rest = (j, w) ∷ insert_key k v m in
      if same j k then (j, w) ∷ m else if lex_lt k j then (k, v) ∷ (j, w) ∷ m else rest

  pub find_key-insert_key :
      (k j : Bytes) (v : V) (m : List (Bytes × V))
      → find_key k m ≡ none
      → find_key j (insert_key k v m) ≡ (if same k j then some v else find_key j m)
  unfolding find_key insert_key
  find_key-insert_key k j v [] h = refl
  find_key-insert_key k j v ((i, w) ∷ m) h =
      ground (arith, same_iff k j, same_iff i k, same_iff i j, find_key-insert_key k j v m)

  -- Every key lies above this one, and they rise.
  abbrev pub Above : Bytes → List (Bytes × V) → Type 0
  Above k [] = Unit
  Above k ((j, v) ∷ m) = (lex_lt k j ≡ true) × Above j m

  pub Above-trans : (i j : Bytes) (m : List (Bytes × V)) → lex_lt i j ≡ true → Above j m → Above i m
  Above-trans i j [] h a = tt
  Above-trans i j ((k, v) ∷ m) h a = (lex_lt_trans i j k h a.0, a.1)

  abbrev pub IsOrdered : List (Bytes × V) → Type 0
  IsOrdered [] = Unit
  IsOrdered ((k, v) ∷ m) = Above k m

  pub find_key-Above : (k : Bytes) (m : List (Bytes × V)) → Above k m → find_key k m ≡ none
  unfolding find_key
  find_key-Above k [] h = refl
  find_key-Above k ((j, v) ∷ m) h =
      ground (arith, same_iff j k, lex_lt_irrefl k, find_key-Above k m (Above-trans k j m h.0 h.1))

  pub Above-IsOrdered : (k : Bytes) (m : List (Bytes × V)) → Above k m → IsOrdered m
  Above-IsOrdered k [] h = tt
  Above-IsOrdered k ((j, v) ∷ m) h = h.1

  insert_key-Above :
      (i k : Bytes) (v : V) (m : List (Bytes × V))
      → lex_lt i k ≡ true
      → Above i m
      → Above i (insert_key k v m)
  unfolding insert_key
  insert_key-Above i k v [] h a = (h, tt)
  insert_key-Above i k v ((j, w) ∷ m) h a = elim (Bool-cases (same j k)) [
    | inl e ↦ rw e a
    | inr e ↦ elim (Bool-cases (lex_lt k j)) [
      | inl l ↦ rw (e, l) (h, (l, a.1))
      | inr l ↦ rw (e, l) (a.0, insert_key-Above j k v m (lex_lt_connex k j e l) a.1)
    ]
  ]

  pub insert_key-IsOrdered :
      (k : Bytes) (v : V) (m : List (Bytes × V)) → IsOrdered m → IsOrdered (insert_key k v m)
  unfolding insert_key
  insert_key-IsOrdered k v [] h = tt
  insert_key-IsOrdered k v ((j, w) ∷ m) h = elim (Bool-cases (same j k)) [
    | inl e ↦ rw e h
    | inr e ↦ elim (Bool-cases (lex_lt k j)) [
      | inl l ↦ rw (e, l) (l, h)
      | inr l ↦ rw (e, l) (insert_key-Above j k v m (lex_lt_connex k j e l) h)
    ]
  ]
