-- ===== src/Profiles/Invariant.antt =====
-- The invariant of the profiles of source/server/ProfileManager.cpp, and the operations that keep it.
use piupiu.Common.{
  ℕ, zero, suc, ◌+◌, ◌<◌, ◌≡◌, ◌≢◌, refl, ap, ◌∙◌, inl, inr, ◌⊎◌, true, false, List, [], ◌∷◌, ◌++◌,
  none, some, Bytes, same, same_iff, length, get_elem?, ok, arith, Bool-cases, Option-cases, All,
  get_elem?_of_lt, show_ℕ,
}
use piupiu.Profiles.{
  Profile, Disk, ProfileManager, find_profile, get_profile_by_name, render_edges, render_all_edges,
  render, sync, has_pointer, render_handles,
}

-- No pointer occurs twice.
abbrev pub Distinct : List ℕ → Type 0
Distinct [] = Unit
Distinct (f ∷ fs) = (has_pointer f fs ≡ false) × Distinct fs

-- Pointers lead to profiles, nobody is a follower twice, and no two profiles share a handle.
pub record IsStore (ps : List Profile) : Type 0 where
  pub pointers :
      (i : ℕ) (p : Profile) → get_elem? ps i ≡ some p → All (λ f. f < length ps) p.followers
  pub distinct : (i : ℕ) (p : Profile) → get_elem? ps i ≡ some p → Distinct p.followers
  pub unique :
      (i j : ℕ) (p q : Profile)
      → get_elem? ps i ≡ some p
      → get_elem? ps j ≡ some q
      → p.handle ≡ q.handle
      → i ≡ j

-- `find_if`: a hit is the first profile with the handle.
pub find_profile_hit :
    (h : Bytes) (base : ℕ) (ps : List Profile) {i : ℕ}
    → find_profile h base ps ≡ some i
    → (j : ℕ) × (p : Profile) × (i ≡ base + j) × (get_elem? ps j ≡ some p) × (p.handle ≡ h)
unfolding find_profile
find_profile_hit h base [] e = cc
find_profile_hit h base (p ∷ ps) {i} e = elim (Bool-cases (same p.handle h)) [
  | inl q ↦ (0, p, ground arith, refl, (same_iff p.handle h).0 q)
  | inr q ↦
      let (j, r, a, b, c) = find_profile_hit h (suc base) ps {i = i} (rw q at e) in
      (suc j, r, omega arith, b, c)
]

pub find_profile_miss :
    (h : Bytes) (base : ℕ) (ps : List Profile) (j : ℕ) (p : Profile)
    → find_profile h base ps ≡ none
    → get_elem? ps j ≡ some p
    → p.handle ≢ h
unfolding find_profile
find_profile_miss h base [] j p e f = cc
find_profile_miss h base (r ∷ ps) zero p e f = ground (arith, same_iff r.handle h)
find_profile_miss h base (r ∷ ps) (suc j) p e f =
    ground (arith, find_profile_miss h (suc base) ps j p)

-- Where handles are unique the profile with a handle is the one that is found.
pub find_profile_unique :
    (h : Bytes) (base : ℕ) (ps : List Profile) (j : ℕ) (p : Profile)
    → get_elem? ps j ≡ some p
    → p.handle ≡ h
    → ((i : ℕ) (q : Profile) → get_elem? ps i ≡ some q → q.handle ≡ h → i ≡ j)
    → find_profile h base ps ≡ some (base + j)
find_profile_unique h base ps j p stored named only = elim (Option-cases (find_profile h base ps)) [
  | inl e ↦ absurd (find_profile_miss h base ps j p e stored named)
  | inr (i, e) ↦
      let (k, q, a, b, c) = find_profile_hit h base ps e in
      e ∙ ap some (a ∙ ap (λ (t : ℕ). base + t) (only k q b c))
]

pub get_profile_by_name_hit :
    (m : ProfileManager) (h : Bytes) (i : ℕ)
    → get_profile_by_name m h ≡ some i
    → (p : Profile) × (get_elem? m.profiles i ≡ some p) × (p.handle ≡ h)
unfolding get_profile_by_name
get_profile_by_name_hit m h i e =
    let (j, p, a, b, c) = find_profile_hit h 0 m.profiles {i = i} e in
    let same_number : j ≡ i = omega arith in (p, rw (← same_number) b, c)

pub get_profile_by_name_miss :
    (m : ProfileManager) (h : Bytes) (i : ℕ) (p : Profile)
    → get_profile_by_name m h ≡ none
    → get_elem? m.profiles i ≡ some p
    → p.handle ≢ h
unfolding get_profile_by_name
get_profile_by_name_miss m h i p = find_profile_miss h 0 m.profiles i p

module _ (all : List Profile) where
  render_edges_total :
      (handle : Bytes) (fs : List ℕ)
      → All (λ f. f < length all) fs
      → (t : Bytes) × (render_edges all handle fs ≡ ok t)
  unfolding render_edges
  render_edges_total handle [] h = ([], refl)
  render_edges_total handle (f ∷ fs) h =
      let (p, e) = get_elem?_of_lt all f h.0 in
      let (t, r) = render_edges_total handle fs h.1 in
      (handle ++ (b',' ∷ (p.handle ++ (b'\n' ∷ t))), rw (e, r))

  render_all_edges_total :
      (ps : List Profile)
      → ((i : ℕ) (p : Profile) → get_elem? ps i ≡ some p → All (λ f. f < length all) p.followers)
      → (t : Bytes) × (render_all_edges all ps ≡ ok t)
  unfolding render_all_edges
  render_all_edges_total [] h = ([], refl)
  render_all_edges_total (p ∷ ps) h =
      let (here, e) = render_edges_total p.handle p.followers (h 0 p refl) in
      let (rest, f) = render_all_edges_total ps (λ i q g. h (suc i) q g) in
      (here ++ rest, rw (e, f))

-- Every follower is a profile.
abbrev pub Pointers : List Profile → Type 0
Pointers ps = (i : ℕ) (p : Profile) → get_elem? ps i ≡ some p → All (λ f. f < length ps) p.followers

pub render-Pointers : (ps : List Profile) → Pointers ps → (t : Bytes) × (render ps ≡ ok t)
unfolding render
render-Pointers ps v =
    let (edges, e) = render_all_edges_total ps ps v in
    (show_ℕ (length ps) ++ (b'\n' ∷ (render_handles ps ++ edges)), rw e)

pub render_total : (ps : List Profile) → IsStore ps → (t : Bytes) × (render ps ≡ ok t)
render_total ps v = render-Pointers ps v.pointers

-- The profiles that were rendered are on the disk, or it could not be written.
abbrev pub Saved : Disk → Disk → List Profile → Type 0
Saved before after ps =
    ((before.writable ≡ true)
      × (t : Bytes) × (render ps ≡ ok t)
      × (after ≡ record { content = some t; writable = true }))
    ⊎ ((before.writable ≡ false) × (after ≡ before))

-- `Sync` writes what the profiles render to, and nothing else.
pub sync_saves :
    (m : ProfileManager)
    → IsStore m.profiles
    → (d : Disk) × (sync m ≡ ok (record m { disk = d })) × Saved m.disk d m.profiles
unfolding sync
sync_saves m v = elim (Bool-cases m.disk.writable) [
  | inl e ↦
      let (t, r) = render_total m.profiles v in
      (record { content = some t; writable = true }, ground arith, inl (e, t, r, refl))
  | inr e ↦ (m.disk, ground arith, inr (e, refl))
]
