-- ===== src/Profiles/Storage.antt =====
-- source/server/ProfileManager.cpp, `ReadProfilesFromFile`: what the constructor makes of profiles.dat.
-- A stream is the bytes that are left, with its eofbit and failbit; `>>` on one that is not good sets
-- failbit and leaves its target alone.
use piupiu.Common.{
  ℕ, zero, suc, Bool, true, false, ◌&&◌, ◌||◌, not, List, [], ◌∷◌, ◌++◌, none, some, Bytes, length,
  get_elem?, leb, ◌==◌, if◌then◌else◌, Result, ok, err, ◌>>=◌, or_fail, out_of_range, indeterminate,
  uncaught, diverged, is_space, is_digit, parse_digits, skip_space, split_on, find_key, insert_key,
}
use piupiu.Profiles.{Profile, Disk, ProfileManager, unset, add_follower}

pub record Stream : Type 0 where
  pub rest : Bytes
  pub eof : Bool
  pub fail : Bool

abbrev pub open_stream : Bytes → Stream
open_stream text = record { rest = text; eof = false; fail = false }

abbrev pub good : Stream → Bool
good s = not (s.eof || s.fail)

-- The bytes before the first blank, and those from it on.
unfoldable pub span_word : Bytes → Bytes × Bytes
span_word [] = ([], [])
span_word (c ∷ cs) =
    let (word, rest) = span_word cs in if is_space c then ([], c ∷ cs) else (c ∷ word, rest)

abbrev at_end : Bytes → Bool
at_end [] = true
at_end (c ∷ cs) = false

-- Behind the blanks: a word is read up to a blank or the end, and at the end there is none.
unfoldable pub take_word : Bytes → Bytes → Stream × Bytes
unfolding span_word
take_word old [] = (record { rest = []; eof = true; fail = true }, old)
take_word old (c ∷ cs) =
    let (word, rest) = span_word (c ∷ cs) in
    (record { rest = rest; eof = at_end rest; fail = false }, word)

-- `stream >> word`, where `word` held `old`
unfoldable pub read_word : Stream → Bytes → Stream × Bytes
unfolding take_word skip_space
read_word s old =
    if good s then take_word old (skip_space s.rest) else (record s { fail = true }, old)

abbrev pub int_max : ℕ
int_max = 2147483647

-- The digits of a number: none is a failure with 0, and too large a number one with the largest.
unfoldable pub take_number : Bool → Bytes → Stream × ℕ
take_number negative [] = (record { rest = []; eof = true; fail = true }, 0)
take_number negative (c ∷ cs) =
    let (value, rest) = parse_digits 0 (c ∷ cs) in
    let small = leb value (if negative then suc int_max else int_max) in
    (
      record { rest = rest; eof = at_end rest; fail = not (is_digit c && small) },
      if negative then 0 else if small then value else int_max,
    )

-- `stream >> numProfiles`, as the number of rounds that the loop up to it makes: 0 for a negative
-- number. With nothing but blanks the variable keeps its indeterminate value.
unfoldable pub take_int : Bytes → Result (Stream × ℕ)
unfolding take_number
take_int [] = err indeterminate
take_int (c ∷ cs) = ok (
    if c == b'-'
    then take_number true cs
    else if c == b'+'
    then take_number false cs
    else take_number false (c ∷ cs))

unfoldable pub read_int : Stream → Result (Stream × ℕ)
unfolding take_int skip_space
read_int s = take_int (skip_space s.rest)

-- The first loop: a profile for each name, and the first profile of each name in the map.
pub record Loaded : Type 0 where
  pub stream : Stream
  pub profiles : List Profile
  pub by_name : List (Bytes × ℕ)

abbrev pub loaded_profile : Bytes → Profile
loaded_profile name = record { handle = name; followers = []; session = unset }

abbrev pub add_name : Loaded → Bytes → Bytes → Stream → Loaded
add_name l old name stream = record {
  stream = stream;
  profiles = l.profiles ++ loaded_profile name ∷ [];
  by_name = insert_key name (length l.profiles) l.by_name;
}

unfoldable pub read_names : ℕ → Loaded → Bytes → Loaded
unfolding read_word
read_names zero l old = l
read_names (suc n) l old =
    let (stream, name) = read_word l.stream old in read_names n (add_name l old name stream) name

-- One line `user,toFollow` of the second loop
unfoldable pub read_edge : ProfileManager → List (Bytes × ℕ) → Bytes → Result ProfileManager
read_edge m by_name line = do
  let splits = split_on b',' line
  user ← or_fail (get_elem? splits 0) out_of_range
  to_follow ← or_fail (get_elem? splits 1) out_of_range
  user_ptr ← or_fail (find_key user by_name) uncaught
  (m', n) ← add_follower m user_ptr to_follow false
  ok m'

abbrev pub is_empty : Bytes → Bool
is_empty [] = true
is_empty (c ∷ cs) = false

-- The second loop. Each round takes a byte or sets eofbit, so the bytes left bound the rounds.
unfoldable pub read_edges :
    ℕ → ProfileManager → List (Bytes × ℕ) → Stream → Bytes → Result ProfileManager
read_edges zero m by_name stream line = err diverged
read_edges (suc fuel) m by_name stream line =
    let (stream', line') = read_word stream line in
    let more = read_edge m by_name line' >>= λ m'. read_edges fuel m' by_name stream' line' in
    if stream.eof then ok m else if is_empty line' then ok m else more

unfoldable pub load_profiles : Disk → Bytes → Result ProfileManager
unfolding read_names read_int
load_profiles disk text = do
  (stream, n) ← read_int (open_stream text)
  let l = read_names n (record { stream = stream; profiles = []; by_name = [] }) []
  read_edges (suc (suc (length text))) (record { profiles = l.profiles; disk = disk }) l.by_name
      l.stream []

-- The constructor of ProfileManager: no profiles where the file cannot be opened.
unfoldable pub new_profile_manager : Disk → Result ProfileManager
unfolding load_profiles
new_profile_manager disk = elim disk.content [
  | none ↦ ok (record { profiles = []; disk = disk })
  | some text ↦ load_profiles disk text
]
