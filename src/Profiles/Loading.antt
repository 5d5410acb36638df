-- ===== src/Profiles/Loading.antt =====
-- source/server/ProfileManager.cpp, `ReadProfilesFromFile`: its loop over the file ends.
use piupiu.Common.{
  ℕ, zero, suc, ◌+◌, ◌*◌, ◌-◌, ◌≤◌, ◌<◌, ◌≡◌, ◌≢◌, refl, inl, inr, ◌⊎◌, Bool, true, false, List, [],
  ◌∷◌, Option, none, some, Bytes, length, get_elem?, if◌then◌else◌, Result, ok, err, ◌>>=◌, or_fail,
  Fault, diverged, arith, Bool-cases, is_space, parse_digits, skip_space, split_on, find_key,
  out_of_range, uncaught,
}
use piupiu.Profiles.{ProfileManager, Disk, add_follower}
use piupiu.Profiles.Storage.{
  Stream, span_word, take_word, read_word, take_number, take_int, read_int, Loaded, read_names,
  read_edge, read_edges, is_empty, load_profiles, add_name,
}

length-skip_space : (s : Bytes) → length (skip_space s) ≤ length s
unfolding skip_space
length-skip_space [] = omega arith
length-skip_space (c ∷ s) = ground (arith, length-skip_space s)

-- A word at a byte that is no blank takes that byte.
length-span_word : (s : Bytes) → length (span_word s).1 ≤ length s
unfolding span_word
length-span_word [] = omega arith
length-span_word (c ∷ s) = ground (arith, length-span_word s)

length-take_word : (old s : Bytes) → length (take_word old s).0.rest ≤ length s
unfolding take_word
length-take_word old [] = omega arith
length-take_word old (c ∷ s) = length-span_word (c ∷ s)

length-read_word : (s : Stream) (old : Bytes) → length (read_word s old).0.rest ≤ length s.rest
unfolding read_word
length-read_word s old =
    ground (arith, length-take_word old (skip_space s.rest), length-skip_space s.rest)

skip_space_head : (s : Bytes) (c : ℕ) (cs : Bytes) → skip_space s ≡ c ∷ cs → is_space c ≡ false
unfolding skip_space
skip_space_head [] c cs e = cc
skip_space_head (b ∷ s) c cs e = ground (arith, skip_space_head s c cs)

-- What the loop may count on after a read that started before the end of the file: it stops, or
-- there are fewer bytes left.
abbrev Progress : Bytes → Stream × Bytes → Type 0
Progress before (s, line) =
    (line ≡ []) ⊎ ((s.eof ≡ true) ⊎ ((s.fail ≡ false) × (length s.rest < length before)))

take_word-Progress :
    (old s : Bytes)
    → ((c : ℕ) (cs : Bytes) → s ≡ c ∷ cs → is_space c ≡ false)
    → Progress s (take_word old s)
unfolding take_word span_word
take_word-Progress old [] h = inr (inl refl)
take_word-Progress old (c ∷ s) h =
    inr (inr (ground arith, ground (arith, h c s refl, length-span_word s)))

read_word-Progress :
    (s : Stream) (line : Bytes)
    → s.eof ≡ false
    → (s.fail ≡ true → line ≡ [])
    → Progress s.rest (read_word s line)
unfolding read_word
read_word-Progress s line e h = elim (Bool-cases s.fail) [
  | inl f ↦ inl (ground (arith, e, f, h f))
  | inr f ↦
      rw (e, f)
        (elim (take_word-Progress line (skip_space s.rest) (skip_space_head s.rest)) [
          | inl a ↦ inl a
          | inr (inl a) ↦ inr (inl a)
          | inr (inr (a, b)) ↦ inr (inr (a, omega (arith, b, length-skip_space s.rest)))
        ])
]

add_follower-ends :
    (m : ProfileManager) (this : ℕ) (user : Bytes) → add_follower m this user false ≢ err diverged
unfolding add_follower
add_follower-ends m this user e = ground arith

-- A run of two steps that fails fails in one of them.
>>=-ends :
    {A B : Type 0} (r : Result A) (f : A → Result B)
    → r ≢ err diverged
    → ((a : A) → r ≡ ok a → f a ≢ err diverged)
    → (r >>= f) ≢ err diverged
>>=-ends (ok a) f h k = k a refl
>>=-ends (err x) f h k = λ e. h (ground (arith, e))

ok-ends : {A : Type 0} (a : A) → ok a ≢ err diverged
ok-ends a e = cc

if-ends :
    {A : Type 0} (b : Bool) (x y : Result A)
    → (b ≡ true → x ≢ err diverged)
    → (b ≡ false → y ≢ err diverged)
    → (if b then x else y) ≢ err diverged
if-ends true x y h k = h refl
if-ends false x y h k = k refl

or_fail-ends : {A : Type 0} (o : Option A) (x : Fault) → x ≢ diverged → or_fail o x ≢ err diverged
or_fail-ends none x h e = h (ground (arith, e))
or_fail-ends (some a) x h e = cc

read_edge-ends :
    (m : ProfileManager) (by_name : List (Bytes × ℕ)) (line : Bytes)
    → read_edge m by_name line ≢ err diverged
unfolding read_edge
read_edge-ends m by_name line =
    >>=-ends (or_fail (get_elem? (split_on b',' line) 0) out_of_range) _
      (or_fail-ends _ out_of_range (λ e. cc))
      (λ user eu.
        >>=-ends (or_fail (get_elem? (split_on b',' line) 1) out_of_range) _
          (or_fail-ends _ out_of_range (λ e. cc))
          (λ to_follow et.
            >>=-ends (or_fail (find_key user by_name) uncaught) _
              (or_fail-ends _ uncaught (λ e. cc))
              (λ user_ptr ep.
                >>=-ends (add_follower m user_ptr to_follow false) _
                  (add_follower-ends m user_ptr to_follow) (λ r e. ok-ends r.0))))

-- Enough fuel for the loop: none is used up before the bytes are.
read_edges-ends :
    (fuel : ℕ) (m : ProfileManager) (by_name : List (Bytes × ℕ)) (s : Stream) (line : Bytes)
    → 0 < fuel
    → (s.eof ≡ false → length s.rest + 1 < fuel)
    → (s.eof ≡ false → s.fail ≡ true → line ≡ [])
    → read_edges fuel m by_name s line ≢ err diverged
unfolding read_edges
read_edges-ends zero m by_name s line some_fuel enough good = absurd (omega (arith, some_fuel))
read_edges-ends (suc fuel) m by_name s line some_fuel enough good =
    if-ends s.eof (ok m) _ (λ t e. cc)
      (λ t.
        round fuel (read_word s line).1 (read_word s line).0 m (enough t)
          (read_word-Progress s line t (good t))
          (λ a b c m'.
            read_edges-ends fuel m' by_name (read_word s line).0 (read_word s line).1 a b c))
  where
    round :
        (fuel : ℕ) (line' : Bytes) (s' : Stream) (m : ProfileManager)
        → length s.rest + 1 < suc fuel
        → Progress s.rest (s', line')
        → (0 < fuel
            → (s'.eof ≡ false → length s'.rest + 1 < fuel)
            → (s'.eof ≡ false → s'.fail ≡ true → line' ≡ [])
            → (m' : ProfileManager) → read_edges fuel m' by_name s' line' ≢ err diverged)
        → (if is_empty line'
            then ok m
            else (read_edge m by_name line' >>= λ m'. read_edges fuel m' by_name s' line'))
          ≢ err diverged
    round fuel [] s' m h p more = λ e. cc
    round fuel (c ∷ cs) s' m h p more =
        >>=-ends _ _ (read_edge-ends m by_name (c ∷ cs))
          (λ m' e. more (omega (arith, h)) (ground (arith, p, h)) (ground (arith, p)) m')

take_int-ends : (text : Bytes) → take_int text ≢ err diverged
unfolding take_int
take_int-ends [] = λ e. cc
take_int-ends (c ∷ text) = λ e. cc

-- What a number leaves of the bytes.
length-parse_digits : (acc : ℕ) (s : Bytes) → length (parse_digits acc s).1 ≤ length s
unfolding parse_digits
length-parse_digits acc [] = omega arith
length-parse_digits acc (c ∷ s) = ground (arith, length-parse_digits (acc * 10 + (c - b'0')) s)

length-take_number :
    (negative : Bool) (s : Bytes) → length (take_number negative s).0.rest ≤ length s
unfolding take_number
length-take_number negative [] = omega arith
length-take_number negative (c ∷ s) = length-parse_digits 0 (c ∷ s)

length-take_int :
    (text : Bytes) (r : Stream × ℕ) → take_int text ≡ ok r → length r.0.rest ≤ length text
unfolding take_int
length-take_int [] r e = cc
length-take_int (c ∷ text) r e = ground (
  arith,
  length-take_number true text,
  length-take_number false text,
  length-take_number false (c ∷ text),
)

length-read_names :
    (n : ℕ) (l : Loaded) (old : Bytes)
    → length (read_names n l old).stream.rest ≤ length l.stream.rest
unfolding read_names
length-read_names zero l old = omega arith
length-read_names (suc n) l old = omega (
  arith,
  length-read_word l.stream old,
  length-read_names n (add_name l old (read_word l.stream old).1 (read_word l.stream old).0)
      (read_word l.stream old).1,
)

-- The loop over profiles.dat ends, whatever bytes the file holds.
pub load_profiles_ends : (disk : Disk) (text : Bytes) → load_profiles disk text ≢ err diverged
unfolding load_profiles read_int
load_profiles_ends disk text =
    >>=-ends (take_int (skip_space text)) _ (take_int-ends (skip_space text)) (λ r e.
      let names : Loaded =
        read_names r.1 (record { stream = r.0; profiles = []; by_name = [] }) [] in
      read_edges-ends _ _ _ names.stream [] (omega arith)
        (λ t. omega (
          arith,
          length-take_int (skip_space text) r e,
          length-skip_space text,
          length-read_names r.1 (record { stream = r.0; profiles = []; by_name = [] }) [],
        ))
        (λ t u. refl))
