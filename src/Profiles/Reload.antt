-- ===== src/Profiles/Reload.antt =====
-- source/server/ProfileManager.cpp: what `Sync` writes is what the constructor reads.
use mathlib.Core.List.{append_assoc}
use piupiu.Common.{
  ℕ, zero, suc, ◌+◌, ◌≤◌, ◌<◌, ◌≡◌, ◌≢◌, refl, sym, ap, ◌∙◌, inl, inr, ◌⊎◌, true, false, List, [],
  ◌∷◌, ◌++◌, map, some, Bytes, length, get_elem?, set, ok, >>=-eq-ok, arith, All, All-append,
  All-imp, length-append, is_space, split_on, split_on-piece, split_on-last, find_key, show_ℕ,
}
use piupiu.Profiles.{
  Profile, Disk, ProfileManager, render, render_all_edges, render_handles, has_pointer,
  push_follower, add_follower, find_profile, get_profile_by_name, sync,
}
use piupiu.Profiles.Invariant.{IsStore, find_profile_unique, render_total}
use piupiu.Profiles.Updates.{add_follower_pushed, find_profile-set}
use piupiu.Profiles.Storage.{
  open_stream, int_max, read_word, read_int, loaded_profile, read_edge, read_edges, is_empty,
  load_profiles, new_profile_manager,
}
use piupiu.Profiles.RoundTrip.{
  IsWord, at_line_end, read_word-line, read_int-show_ℕ, names_from, find_key-names_from,
  read_names-render_handles,
}
use piupiu.Profiles.Edges.{
  IsName, Edge, edges_from, Lines, render_all_edges-Lines, followed, Adds, restored,
  Adds-edges_from,
}

-- Every profile of `all` can be found by its handle: through the map, and through the profiles `qs`.
record Findable (all qs : List Profile) (by_name : List (Bytes × ℕ)) : Type 0 where
  names : All (λ p. IsName p.handle) all
  through_map :
      (i : ℕ) (p : Profile) → get_elem? all i ≡ some p → find_key p.handle by_name ≡ some i
  through_profiles :
      (i : ℕ) (p : Profile) → get_elem? all i ≡ some p → find_profile p.handle 0 qs ≡ some i

abbrev line_of : Profile → Profile → Bytes
line_of p q = p.handle ++ (b',' ∷ q.handle)

split_on-line_of :
    (p q : Profile)
    → IsName p.handle
    → IsName q.handle
    → split_on b',' (line_of p q) ≡ p.handle ∷ q.handle ∷ []
split_on-line_of p q v w =
    split_on-piece b',' p.handle q.handle v.1
    ∙ ap (λ (l : List Bytes). p.handle ∷ l) (whole q.handle w.0.0 w.1)
  where
    whole : (h : Bytes) → h ≢ [] → All (λ c. c ≢ b',') h → split_on b',' h ≡ h ∷ []
    whole [] some_byte no_comma = absurd (some_byte refl)
    whole (c ∷ h) some_byte no_comma = split_on-last b',' c h no_comma

line_of-IsWord : (p q : Profile) → IsName p.handle → IsName q.handle → IsWord (line_of p q)
unfolding is_space
line_of-IsWord p q v w = (
  not_empty p.handle,
  All-append (λ c. is_space c ≡ false) p.handle (b',' ∷ q.handle) v.0.1 (refl, w.0.1),
)
  where
    not_empty : (h : Bytes) → h ++ (b',' ∷ q.handle) ≢ []
    not_empty [] e = cc
    not_empty (c ∷ h) e = cc

-- What a line does, the first time and the second.
module _ (all qs : List Profile) (by_name : List (Bytes × ℕ)) (v : Findable all qs by_name)
    (disk : Disk) (i f : ℕ) (p q r : Profile) (user : get_elem? all i ≡ some p)
    (follower : get_elem? all f ≡ some q) (is_name : IsName p.handle) (is_name' : IsName q.handle)
    (here : get_elem? qs i ≡ some r) where
  abbrev m : ProfileManager
  m = record { profiles = qs; disk = disk }

  abbrev m' : ProfileManager
  m' = record { profiles = set qs i (followed r f); disk = disk }

  read_edge-add : has_pointer f r.followers ≡ false → read_edge m by_name (line_of p q) ≡ ok m'
  unfolding read_edge add_follower push_follower get_profile_by_name
  read_edge-add new =
      rw (split_on-line_of p q is_name is_name')
        (ground (arith, v.through_map i p user, here, v.through_profiles f q follower, new))

  read_edge_again : read_edge m' by_name (line_of p q) ≡ ok m'
  unfolding read_edge push_follower
  read_edge_again =
      let unchanged : add_follower m' i q.handle false ≡ ok (m', 0) =
        add_follower_pushed m i r q.handle false f disk here
          (unfold get_profile_by_name in v.through_profiles f q follower) in
      rw (split_on-line_of p q is_name is_name') (ground (arith, v.through_map i p user, unchanged))

Findable-followed :
    (all qs : List Profile) (by_name : List (Bytes × ℕ)) (i f : ℕ) (r : Profile)
    → Findable all qs by_name
    → get_elem? qs i ≡ some r
    → Findable all (set qs i (followed r f)) by_name
Findable-followed all qs by_name i f r v here = record {
  names = v.names;
  through_map = v.through_map;
  through_profiles = λ j p e.
      find_profile-set p.handle 0 qs i r (followed r f) here refl ∙ v.through_profiles j p e;
}

All-get_elem? :
    (Q : Profile → Type 0) (l : List Profile) (i : ℕ) (p : Profile)
    → All Q l
    → get_elem? l i ≡ some p
    → Q p
All-get_elem? Q [] i p h e = cc
All-get_elem? Q (x ∷ l) zero p h e =
    let same_profile : x ≡ p = ground (arith, e) in rw (← same_profile) h.0
All-get_elem? Q (x ∷ l) (suc i) p h e = All-get_elem? Q l i p h.1 e

is_empty-word : (h : Bytes) → h ≢ [] → is_empty h ≡ false
is_empty-word [] some_byte = absurd (some_byte refl)
is_empty-word (c ∷ h) some_byte = refl

-- At the end of the file the last line is read once more, if there is one.
abbrev IsHarmless : ProfileManager → List (Bytes × ℕ) → Bytes → Type 0
IsHarmless m by_name old = (old ≡ []) ⊎ (read_edge m by_name old ≡ ok m)

module _ (all : List Profile) (by_name : List (Bytes × ℕ)) (disk : Disk) where
  abbrev of : List Profile → ProfileManager
  of qs = record { profiles = qs; disk = disk }

  last_line :
      (qs : List Profile) (old : Bytes) (fuel : ℕ)
      → IsHarmless (of qs) by_name old
      → read_edges (suc (suc fuel)) (of qs) by_name (at_line_end []) old ≡ ok (of qs)
  unfolding read_edges read_word is_space
  last_line qs [] fuel h = refl
  last_line qs (c ∷ old) fuel (inl e) = cc
  last_line qs (c ∷ old) fuel (inr e) = rw e refl

  read_edges-Lines :
      (es : List Edge) (qs rs : List Profile) (t old : Bytes) (fuel : ℕ)
      → Findable all qs by_name
      → Lines all es t
      → Adds qs es rs
      → length es + 1 < fuel
      → IsHarmless (of qs) by_name old
      → read_edges fuel (of qs) by_name (at_line_end t) old ≡ ok (of rs)
  unfolding read_edges
  read_edges-Lines [] qs rs t old zero v text added enough h = absurd (omega (arith, enough))
  read_edges-Lines [] qs rs t old (suc zero) v text added enough h = absurd (omega (arith, enough))
  read_edges-Lines [] qs rs t old (suc (suc fuel)) v text added enough h =
      rw (text, ← added) (last_line qs old fuel h)
  read_edges-Lines ((i, f) ∷ es) qs rs t old zero v text added enough h =
      absurd (omega (arith, enough))
  read_edges-Lines ((i, f) ∷ es) qs rs t old (suc fuel) v (p, q, rest, user, follower, text, more)
        (r, here, new, later) enough h =
      let is_name = All-get_elem? (λ p. IsName p.handle) all i p v.names user in
      let is_name' = All-get_elem? (λ p. IsName p.handle) all f q v.names follower in
      let read : read_word (at_line_end t) old ≡ (at_line_end rest, line_of p q) =
        rw (text, sym (append_assoc p.handle (b',' ∷ q.handle) (b'\n' ∷ rest)))
          (read_word-line (line_of p q) rest old (line_of-IsWord p q is_name is_name')) in
      let next =
        read_edges-Lines es (set qs i (followed r f)) rs rest (line_of p q) fuel
          (Findable-followed all qs by_name i f r v here) more later (omega (arith, enough))
          (inr (
            read_edge_again all qs by_name v disk i f p q r user follower is_name is_name' here)) in
      let added_edge =
        read_edge-add all qs by_name v disk i f p q r user follower is_name is_name' here new in
      rw (read, is_empty-word (line_of p q) (line_of-IsWord p q is_name is_name').0, added_edge)
        next

length-Lines :
    (all : List Profile) (es : List Edge) (t : Bytes) → Lines all es t → length es ≤ length t
length-Lines all [] t text = omega arith
length-Lines all ((i, f) ∷ es) t (p, q, rest, a, b, text, more) = omega (
  arith,
  ap (length {A = ℕ}) text,
  length-append p.handle (b',' ∷ (q.handle ++ (b'\n' ∷ rest))),
  length-append q.handle (b'\n' ∷ rest),
  length-Lines all es rest more,
)

IsStore-find_profile :
    (ps : List Profile) (i : ℕ) (p : Profile)
    → IsStore ps
    → get_elem? ps i ≡ some p
    → find_profile p.handle 0 ps ≡ some i
IsStore-find_profile ps i p v e =
    let number : 0 + i ≡ i = omega arith in
    find_profile_unique p.handle 0 ps i p e refl (λ j q f h. v.unique j i q p f e h)
    ∙ ap (λ (t : ℕ). some t) number

find_profile-map :
    (h : Bytes) (i : ℕ) (ps : List Profile)
    → find_profile h i (map (λ p. loaded_profile p.handle) ps) ≡ find_profile h i ps
unfolding find_profile
find_profile-map h i [] = refl
find_profile-map h i (p ∷ ps) = ground (arith, find_profile-map h (suc i) ps)

IsStore-Findable :
    (ps : List Profile)
    → IsStore ps
    → All (λ p. IsName p.handle) ps
    → Findable ps (map (λ p. loaded_profile p.handle) ps) (names_from 0 ps [])
unfolding find_key
IsStore-Findable ps v names = record {
  names = names;
  through_map = λ i p e.
      find_key-names_from ps 0 [] p.handle v.unique (λ j q f. refl)
      ∙ rw (IsStore-find_profile ps i p v e) refl;
  through_profiles = λ i p e. find_profile-map p.handle 0 ps ∙ IsStore-find_profile ps i p v e;
}

load_profiles-render :
    (ps : List Profile) (written : Bytes) (disk : Disk)
    → IsStore ps
    → length ps ≤ int_max
    → All (λ p. IsName p.handle) ps
    → render ps ≡ ok written
    → load_profiles disk written ≡ ok (record { profiles = map restored ps; disk = disk })
unfolding load_profiles render
load_profiles-render ps written disk v few names e =
    let (edges, ran, text) = >>=-eq-ok (render_all_edges ps ps) _ e in
    let same_text : written ≡ show_ℕ (length ps) ++ (b'\n' ∷ (render_handles ps ++ edges)) =
      ground (arith, text) in
    let lines =
      render_all_edges-Lines ps ps 0 edges
        (λ j k p h g. let same_number : k ≡ j = omega (arith, h) in rw same_number g) ran in
    let words =
      All-imp (λ (p : Profile). IsName p.handle) (λ (p : Profile). IsWord p.handle) ps (λ p n. n.0)
        names in
    let count : read_int (open_stream written)
        ≡ ok (at_line_end (render_handles ps ++ edges), length ps) =
      rw same_text (read_int-show_ℕ (length ps) (render_handles ps ++ edges) few) in
    let loaded =
      read_names-render_handles ps edges []
        (record { stream = at_line_end (render_handles ps ++ edges); profiles = []; by_name = [] })
        words refl in
    rw (count, loaded)
      (read_edges-Lines ps (names_from 0 ps []) disk (edges_from 0 ps)
        (map (λ p. loaded_profile p.handle) ps) (map restored ps) edges [] _
        (IsStore-Findable ps v names) lines (Adds-edges_from [] ps 0 refl v.distinct)
        (omega (
          arith,
          length-Lines ps (edges_from 0 ps) edges lines,
          ap (length {A = ℕ}) same_text,
          length-append (show_ℕ (length ps)) (b'\n' ∷ (render_handles ps ++ edges)),
          length-append (render_handles ps) edges,
        ))
        (inl refl))

-- Profiles under their invariant, at most as many as an int counts, whose handles are words without a
-- comma, survive a restart: `Sync` on a disk that can be written returns, and the constructor then reads
-- the same profiles back in the same order, with their handles and their followers in order; only their
-- sessions are not set.
pub sync_restarts :
    (m : ProfileManager)
    → IsStore m.profiles
    → length m.profiles ≤ int_max
    → All (λ p. IsName p.handle) m.profiles
    → m.disk.writable ≡ true
    → (m' : ProfileManager) × (sync m ≡ ok m')
      × (new_profile_manager m'.disk
          ≡ ok (record { profiles = map restored m.profiles; disk = m'.disk }))
unfolding sync new_profile_manager
sync_restarts m v few names on =
    let (text, e) = render_total m.profiles v in
    let disk : Disk = record { content = some text; writable = true } in
    (
      record m { disk = disk },
      rw (on, e) refl,
      load_profiles-render m.profiles text disk v few names e,
    )
