-- ===== src/Profiles/RoundTrip.antt =====
-- source/server/ProfileManager.cpp: what `Sync` writes, as `ReadProfilesFromFile` starts to read it.
use mathlib.Core.List.{append-nil, append_assoc}
use piupiu.Common.{
  suc, Option, none, some, get_elem?, find_key, insert_key, find_key-insert_key, same, same_iff,
  Bool-cases, Option-cases, inl, inr, ◌⊎◌, true, if◌then◌else◌, length-append, ◌≢◌, sym, map, All,
  ℕ, ◌+◌, ◌≤◌, ◌≡◌, refl, ap, ◌∙◌, false, List, [], ◌∷◌, ◌++◌, Bytes, length, ok, >>=-eq-ok, arith,
  is_space, is_digit, parse_digits, skip_space, show_ℕ, show_onto_head, show_onto-append,
  parse_digits-show_ℕ,
}
use piupiu.Profiles.Invariant.{find_profile_hit}
use piupiu.Profiles.{Profile, find_profile, render, render_all_edges, render_handles}
use piupiu.Profiles.Storage.{
  Stream, open_stream, int_max, take_number, take_int, read_int, span_word, take_word, read_word,
  Loaded, loaded_profile, add_name, read_names,
}

-- A line with a number is read as that number, up to the end of the line.
pub read_int-show_ℕ :
    (n : ℕ) (rest : Bytes)
    → n ≤ int_max
    → read_int (open_stream (show_ℕ n ++ (b'\n' ∷ rest)))
      ≡ ok (record { rest = b'\n' ∷ rest; eof = false; fail = false }, n)
unfolding read_int take_int take_number skip_space show_ℕ is_space is_digit
read_int-show_ℕ n rest h =
    let written = show_onto-append (n + 1) n [] (b'\n' ∷ rest) in
    let (d, tail, starts, digit) = show_onto_head (n + 1) n (b'\n' ∷ rest) (omega arith) in
    let back : parse_digits 0 (d ∷ tail) ≡ (n, b'\n' ∷ rest) =
      rw (← starts) (parse_digits-show_ℕ n b'\n' rest refl) in
    rw (written, starts) (ground (arith, back, digit))

-- A handle that is one word for `>>`
abbrev pub IsWord : Bytes → Type 0
IsWord h = (h ≢ []) × All (λ c. is_space c ≡ false) h

-- The stream at the end of a line
abbrev pub at_line_end : Bytes → Stream
at_line_end rest = record { rest = b'\n' ∷ rest; eof = false; fail = false }

span_word-line :
    (h rest : Bytes)
    → All (λ c. is_space c ≡ false) h
    → span_word (h ++ (b'\n' ∷ rest)) ≡ (h, b'\n' ∷ rest)
unfolding span_word is_space
span_word-line [] rest v = refl
span_word-line (c ∷ h) rest v = ground (arith, v.0, span_word-line h rest v.1)

pub read_word-line :
    (h rest old : Bytes)
    → IsWord h
    → read_word (at_line_end (h ++ (b'\n' ∷ rest))) old ≡ (at_line_end rest, h)
unfolding read_word take_word skip_space is_space
read_word-line [] rest old v = absurd (v.0 refl)
read_word-line (c ∷ h) rest old v = ground (arith, v.1.0, span_word-line (c ∷ h) rest v.1)

-- The map from the handles of the profiles from number `i` on to their numbers, in front of `m`
abbrev pub names_from : ℕ → List Profile → List (Bytes × ℕ) → List (Bytes × ℕ)
names_from i [] m = m
names_from i (p ∷ ps) m = names_from (suc i) ps (insert_key p.handle i m)

abbrev or_else : Option ℕ → Option ℕ → Option ℕ
or_else none o = o
or_else (some a) o = some a

-- No two profiles share a handle.
abbrev Unique : List Profile → Type 0
Unique ps =
    (i j : ℕ) (p q : Profile)
    → get_elem? ps i ≡ some p
    → get_elem? ps j ≡ some q
    → p.handle ≡ q.handle
    → i ≡ j

Unique-tail : (p : Profile) (ps : List Profile) → Unique (p ∷ ps) → Unique ps
Unique-tail p ps u i j q r a b e = ground (arith, u (suc i) (suc j) q r a b e)

Unique-find_profile :
    (p : Profile) (ps : List Profile) (i : ℕ) → Unique (p ∷ ps) → find_profile p.handle i ps ≡ none
Unique-find_profile p ps i u = elim (Option-cases (find_profile p.handle i ps)) [
  | inl e ↦ e
  | inr (k, e) ↦
      let (j, q, at_j, stored, named) = find_profile_hit p.handle i ps {i = k} e in
      let clash : 0 ≡ suc j = u 0 (suc j) p q refl stored (sym named) in
      absurd (omega (arith, clash))
]

-- The map finds what the search through the profiles finds.
pub find_key-names_from :
    (ps : List Profile) (i : ℕ) (m : List (Bytes × ℕ)) (k : Bytes)
    → Unique ps
    → ((j : ℕ) (p : Profile) → get_elem? ps j ≡ some p → find_key p.handle m ≡ none)
    → find_key k (names_from i ps m) ≡ or_else (find_profile k i ps) (find_key k m)
unfolding find_profile
find_key-names_from [] i m k u fresh = refl
find_key-names_from (p ∷ ps) i m k u fresh =
    find_key-names_from ps (suc i) (insert_key p.handle i m) k (Unique-tail p ps u) (λ j q e.
      find_key-insert_key p.handle q.handle i m (fresh 0 p refl)
      ∙ rw (other j q e) (fresh (suc j) q e))
    ∙ ap (or_else (find_profile k (suc i) ps)) (find_key-insert_key p.handle k i m (fresh 0 p refl))
    ∙ here (Bool-cases (same p.handle k))
  where
    other : (j : ℕ) (q : Profile) → get_elem? ps j ≡ some q → same p.handle q.handle ≡ false
    other j q e = elim (Bool-cases (same p.handle q.handle)) [
      | inl t ↦
          let clash : 0 ≡ suc j = u 0 (suc j) p q refl e ((same_iff p.handle q.handle).0 t) in
          absurd (omega (arith, clash))
      | inr t ↦ t
    ]

    here :
        (same p.handle k ≡ true) ⊎ (same p.handle k ≡ false)
        → or_else (find_profile k (suc i) ps) (if same p.handle k then some i else find_key k m)
          ≡ or_else (if same p.handle k then some i else find_profile k (suc i) ps) (find_key k m)
    here (inl t) =
        let missing : find_profile k (suc i) ps ≡ none =
          rw (← (same_iff p.handle k).0 t) (Unique-find_profile p ps (suc i) u) in
        rw (t, missing) refl
    here (inr t) = rw t refl

-- The loop over the names leaves the stream at the first edge.
pub read_names-render_handles :
    (ps : List Profile) (edges old : Bytes) (l : Loaded)
    → All (λ p. IsWord p.handle) ps
    → l.stream ≡ at_line_end (render_handles ps ++ edges)
    → read_names (length ps) l old ≡ record {
      stream = at_line_end edges;
      profiles = l.profiles ++ map (λ p. loaded_profile p.handle) ps;
      by_name = names_from (length l.profiles) ps l.by_name;
    }
unfolding read_names render_handles
read_names-render_handles [] edges old l v e = ground (arith, e, append-nil l.profiles)
read_names-render_handles (p ∷ ps) edges old l v e =
    let here : read_word l.stream old ≡ (at_line_end (render_handles ps ++ edges), p.handle) =
      rw (e, append_assoc p.handle (b'\n' ∷ render_handles ps) edges)
        (read_word-line p.handle (render_handles ps ++ edges) old v.0) in
    let more = add_name l old p.handle (at_line_end (render_handles ps ++ edges)) in
    let counted : length more.profiles ≡ suc (length l.profiles) =
      omega (arith, length-append l.profiles (loaded_profile p.handle ∷ [])) in
    ap (λ (t : Stream × Bytes). read_names (length ps) (add_name l old t.1 t.0) t.1) here
    ∙ read_names-render_handles ps edges p.handle more v.1 refl
    ∙ rw
        (
          counted,
          append_assoc l.profiles (loaded_profile p.handle ∷ [])
              (map (λ p. loaded_profile p.handle) ps),
        )
        refl

-- Of what `Sync` writes for profiles whose handles are words, at most as many as an int counts, the
-- count and the names are read back: one profile for each, in order, with its handle, no followers and
-- a session that is not set.
pub render-read_names :
    (ps : List Profile) (written : Bytes)
    → length ps ≤ int_max
    → All (λ p. IsWord p.handle) ps
    → render ps ≡ ok written
    → (s : Stream) × (read_int (open_stream written) ≡ ok (s, length ps))
      × ((read_names (length ps) (record { stream = s; profiles = []; by_name = [] }) []).profiles
          ≡ map (λ p. loaded_profile p.handle) ps)
unfolding render
render-read_names ps written few words e =
    let (edges, _, text) = >>=-eq-ok (render_all_edges ps ps) _ e in
    let same_text : written ≡ show_ℕ (length ps) ++ (b'\n' ∷ (render_handles ps ++ edges)) =
      ground (arith, text) in
    (
      at_line_end (render_handles ps ++ edges),
      rw same_text (read_int-show_ℕ (length ps) (render_handles ps ++ edges) few),
      ap (λ (l : Loaded). l.profiles) (read_names-render_handles ps edges [] _ words refl),
    )
