-- ===== src/Profiles/Edges.antt =====
-- source/server/ProfileManager.cpp: the lines `user,follower` that `Sync` writes, as the loop of
-- `ReadProfilesFromFile` reads them.
use mathlib.Core.List.{append_assoc, append-nil}
use piupiu.Common.{
  ℕ, suc, ◌+◌, ◌≡◌, ◌≢◌, refl, sym, ap, ◌∙◌, inl, inr, false, List, [], ◌∷◌, ◌++◌, map, some, Bytes,
  length, get_elem?, set, ok, >>=-eq-ok, arith, All, length-append, get_elem?-middle, set-middle,
  Option-cases,
}
use piupiu.Profiles.{Profile, unset, render_edges, render_all_edges, has_pointer}
use piupiu.Profiles.Invariant.{Distinct}
use piupiu.Profiles.Storage.{loaded_profile}
use piupiu.Profiles.RoundTrip.{IsWord}

-- A handle that `>>` reads as one word and `split` leaves whole
abbrev pub IsName : Bytes → Type 0
IsName h = IsWord h × All (λ c. c ≢ b',') h

-- A user and a follower, as numbers of profiles
abbrev pub Edge : Type 0
Edge = ℕ × ℕ

abbrev pub edges_to : ℕ → List ℕ → List Edge
edges_to i fs = map (λ f. (i, f)) fs

-- The edges of the profiles from number `i` on, in the order of `Sync`
abbrev pub edges_from : ℕ → List Profile → List Edge
edges_from i [] = []
edges_from i (p ∷ ps) = edges_to i p.followers ++ edges_from (suc i) ps

-- The text is one line for each edge.
abbrev pub Lines : List Profile → List Edge → Bytes → Type 0
Lines all [] text = text ≡ []
Lines all ((i, f) ∷ es) text =
    (p q : Profile) × (rest : Bytes) × (get_elem? all i ≡ some p)
    × (get_elem? all f ≡ some q)
    × (text ≡ p.handle ++ (b',' ∷ (q.handle ++ (b'\n' ∷ rest))))
    × Lines all es rest

Lines-append :
    (all : List Profile) (es gs : List Edge) (s t : Bytes)
    → Lines all es s
    → Lines all gs t
    → Lines all (es ++ gs) (s ++ t)
Lines-append all [] gs s t h k = rw h k
Lines-append all ((i, f) ∷ es) gs s t (p, q, rest, a, b, text, more) k = (
  p,
  q,
  rest ++ t,
  a,
  b,
  rw text (
      append_assoc p.handle (b',' ∷ (q.handle ++ (b'\n' ∷ rest))) t
      ∙ ap (λ (u : Bytes). p.handle ++ (b',' ∷ u)) (append_assoc q.handle (b'\n' ∷ rest) t)),
  Lines-append all es gs rest t more k,
)

render_edges-Lines :
    (all : List Profile) (i : ℕ) (p : Profile) (fs : List ℕ) (t : Bytes)
    → get_elem? all i ≡ some p
    → render_edges all p.handle fs ≡ ok t
    → Lines all (edges_to i fs) t
unfolding render_edges
render_edges-Lines all i p [] t stored e = ground (arith, e)
render_edges-Lines all i p (f ∷ fs) t stored e = elim (Option-cases (get_elem? all f)) [
  | inl h ↦ ground (arith, h, e)
  | inr (q, h) ↦
      let found = rw h at e in
      let (rest, ran, whole) = >>=-eq-ok (render_edges all p.handle fs) _ found in
      (p, q, rest, stored, h, ground (arith, whole), render_edges-Lines all i p fs rest stored ran)
]

pub render_all_edges-Lines :
    (all ps : List Profile) (i : ℕ) (t : Bytes)
    → ((j k : ℕ) (p : Profile) → k ≡ i + j → get_elem? ps j ≡ some p → get_elem? all k ≡ some p)
    → render_all_edges all ps ≡ ok t
    → Lines all (edges_from i ps) t
unfolding render_all_edges
render_all_edges-Lines all [] i t part e = ground (arith, e)
render_all_edges-Lines all (p ∷ ps) i t part e =
    let (here, ran, more) = >>=-eq-ok (render_edges all p.handle p.followers) _ e in
    let (rest, later, whole) = >>=-eq-ok (render_all_edges all ps) _ more in
    let joined : here ++ rest ≡ t = ground (arith, whole) in
    rw (← joined) (
      Lines-append all (edges_to i p.followers) (edges_from (suc i) ps) here rest
        (render_edges-Lines all i p p.followers here (part 0 i p (omega arith) refl) ran)
        (render_all_edges-Lines all ps (suc i) rest
          (λ j k q h g. part (suc j) k q (omega (arith, h)) g) later))

abbrev pub followed : Profile → ℕ → Profile
followed q f = record q { followers = q.followers ++ f ∷ [] }

-- From `qs`, adding the followers of the edges one by one, each of them new, gives `rs`.
abbrev pub Adds : List Profile → List Edge → List Profile → Type 0
Adds qs [] rs = qs ≡ rs
Adds qs ((i, f) ∷ es) rs =
    (q : Profile) × (get_elem? qs i ≡ some q)
    × (has_pointer f q.followers ≡ false)
    × Adds (set qs i (followed q f)) es rs

Adds-append :
    (qs rs ts : List Profile) (es gs : List Edge)
    → Adds qs es rs
    → Adds rs gs ts
    → Adds qs (es ++ gs) ts
Adds-append qs rs ts [] gs h k = rw h k
Adds-append qs rs ts ((i, f) ∷ es) gs (q, a, b, more) k =
    (q, a, b, Adds-append (set qs i (followed q f)) rs ts es gs more k)

Distinct-middle :
    (f : ℕ) (before after : List ℕ) → Distinct (before ++ f ∷ after) → has_pointer f before ≡ false
unfolding has_pointer
Distinct-middle f [] after h = refl
Distinct-middle f (g ∷ before) after h =
    ground (arith, other g before h.0, Distinct-middle f before after h.1)
  where
    other : (g : ℕ) (l : List ℕ) → has_pointer g (l ++ f ∷ after) ≡ false → g ≢ f
    other g [] e = ground (arith, e)
    other g (k ∷ l) e = other g l (ground (arith, e))

-- A profile with another list of followers
abbrev pub with_followers : Profile → List ℕ → Profile
with_followers p fs = record p { followers = fs }

Adds-edges_to :
    (before after : List Profile) (p : Profile) (done fs : List ℕ) (i : ℕ)
    → i ≡ length before
    → Distinct (done ++ fs)
    → Adds
        (before ++ with_followers p done ∷ after)
        (edges_to i fs)
        (before ++ with_followers p (done ++ fs) ∷ after)
Adds-edges_to before after p done [] i at_i once =
    ap (λ (l : List ℕ). before ++ with_followers p l ∷ after) (sym (append-nil done))
Adds-edges_to before after p done (f ∷ fs) i at_i once =
    let grown : done ++ (f ∷ fs) ≡ (done ++ f ∷ []) ++ fs = sym (append_assoc done (f ∷ []) fs) in
    (
      with_followers p done,
      rw at_i (get_elem?-middle before (with_followers p done) after),
      Distinct-middle f done fs once,
      rw
          (
            at_i,
            set-middle before (with_followers p done) (with_followers p (done ++ f ∷ [])) after,
            grown,
          )
          (Adds-edges_to before after p (done ++ f ∷ []) fs i at_i (rw (← grown) once)),
    )

-- A profile as it comes back: its session is not set.
abbrev pub restored : Profile → Profile
restored p = record p { session = unset }

pub Adds-edges_from :
    (before ps : List Profile) (i : ℕ)
    → i ≡ length before
    → ((j : ℕ) (p : Profile) → get_elem? ps j ≡ some p → Distinct p.followers)
    → Adds
        (before ++ map (λ p. loaded_profile p.handle) ps)
        (edges_from i ps)
        (before ++ map restored ps)
Adds-edges_from before [] i at_i once = refl
Adds-edges_from before (p ∷ ps) i at_i once =
    let blank = map (λ (p : Profile). loaded_profile p.handle) ps in
    let here =
      Adds-edges_to before blank (loaded_profile p.handle) [] p.followers i at_i (once 0 p refl) in
    let rest =
      Adds-edges_from (before ++ restored p ∷ []) ps (suc i)
        (omega (arith, at_i, length-append before (restored p ∷ []))) (λ j q. once (suc j) q) in
    Adds-append _ (before ++ restored p ∷ blank) _ (edges_to i p.followers) (edges_from (suc i) ps)
      here
      (rw
        (
          append_assoc before (restored p ∷ []) blank,
          append_assoc before (restored p ∷ []) (map restored ps),
        )
        at rest)
