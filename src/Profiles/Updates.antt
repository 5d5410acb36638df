-- ===== src/Profiles/Updates.antt =====
-- The operations of source/server/Profile.cpp and ProfileManager.cpp that change a profile or add one.
use piupiu.Common.{
  ℕ, zero, suc, ◌<◌, ◌≡◌, ◌≢◌, refl, sym, ap, ◌∙◌, inl, inr, ◌⊎◌, Bool, true, false, List, [], ◌∷◌,
  ◌++◌, none, some, Bytes, length, get_elem?, set, ◌==◌, if◌then◌else◌, ok, err, no_value, arith,
  Bool-cases, Option-cases, All, All-append, All-imp, length-append, length-set,
  get_elem?-append_cases, get_elem?-set_self, get_elem?-set_cases, lt_of_get_elem?,
}
use piupiu.Profiles.{
  SessionPointer, unset, Profile, Disk, ProfileManager, find_profile, get_profile_by_name, sync,
  new_profile, has_pointer, push_follower, add_follower, set_session,
}
use piupiu.Profiles.Invariant.{
  IsStore, Distinct, Saved, sync_saves, find_profile_hit, find_profile_miss,
}

-- A profile is replaced by one of the same handle.
module _ (ps : List Profile) (i : ℕ) (p p' : Profile) (v : IsStore ps)
    (stored : get_elem? ps i ≡ some p) (named : p'.handle ≡ p.handle) where
  replace_handle :
      (j : ℕ) (q : Profile)
      → get_elem? (set ps i p') j ≡ some q
      → (r : Profile) × (get_elem? ps j ≡ some r) × (r.handle ≡ q.handle)
  replace_handle j q e = elim (get_elem?-set_cases ps i j p' q e) [
    | inl (a, b) ↦ (p, rw a stored, sym (ap (λ (t : Profile). t.handle) b ∙ named))
    | inr (a, b) ↦ (q, b, refl)
  ]

  pub replace-IsStore :
      All (λ f. f < length ps) p'.followers → Distinct p'.followers → IsStore (set ps i p')
  replace-IsStore valid once = record {
    pointers = λ j q e. elim (get_elem?-set_cases ps i j p' q e) [
      | inl (a, b) ↦ rw (b, length-set ps i p') valid
      | inr (a, b) ↦ rw (length-set ps i p') (v.pointers j q b)
    ];
    distinct = λ j q e. elim (get_elem?-set_cases ps i j p' q e) [
      | inl (a, b) ↦ rw b once
      | inr (a, b) ↦ v.distinct j q b
    ];
    unique = λ j k q r e f h.
        let (q', eq, hq) = replace_handle j q e in
        let (r', er, hr) = replace_handle k r f in v.unique j k q' r' eq er (hq ∙ h ∙ sym hr);
  }

-- A profile with a new handle and no followers is added.
module _ (ps : List Profile) (p : Profile) (v : IsStore ps)
    (fresh : (i : ℕ) (q : Profile) → get_elem? ps i ≡ some q → q.handle ≢ p.handle)
    (alone : p.followers ≡ []) where
  pub append-IsStore : IsStore (ps ++ p ∷ [])
  append-IsStore = record {
    pointers = λ j q e. elim (get_elem?-append_cases ps p q j e) [
      | inl b ↦
          All-imp (λ f. f < length ps) (λ f. f < length (ps ++ p ∷ [])) q.followers
            (λ f h. omega (arith, length-append ps (p ∷ []))) (v.pointers j q b)
      | inr (a, b) ↦ rw (b, alone) tt
    ];
    distinct = λ j q e. elim (get_elem?-append_cases ps p q j e) [
      | inl b ↦ v.distinct j q b
      | inr (a, b) ↦ rw (b, alone) tt
    ];
    unique = λ j k q r e f h. elim (get_elem?-append_cases ps p q j e) [
      | inl a ↦ elim (get_elem?-append_cases ps p r k f) [
        | inl b ↦ v.unique j k q r a b h
        | inr (b, c) ↦ absurd (fresh j q a (h ∙ ap (λ (t : Profile). t.handle) c))
      ]
      | inr (a, b) ↦ elim (get_elem?-append_cases ps p r k f) [
        | inl c ↦ absurd (fresh k r c (sym h ∙ ap (λ (t : Profile). t.handle) b))
        | inr (c, d) ↦ a ∙ sym c
      ]
    ];
  }

has_pointer-append :
    (g f : ℕ) (fs : List ℕ)
    → has_pointer g (fs ++ f ∷ []) ≡ (if has_pointer g fs then true else f == g)
unfolding has_pointer
has_pointer-append g f [] = ground arith
has_pointer-append g f (h ∷ fs) = ground (arith, has_pointer-append g f fs)

Distinct-append :
    (f : ℕ) (fs : List ℕ) → Distinct fs → has_pointer f fs ≡ false → Distinct (fs ++ f ∷ [])
unfolding has_pointer
Distinct-append f [] d h = (refl, tt)
Distinct-append f (g ∷ fs) d h =
    (ground (arith, has_pointer-append g f fs), Distinct-append f fs d.1 (ground arith))

Saved-or_kept :
    (save : Bool) (q : ProfileManager)
    → IsStore q.profiles
    → (d : Disk) × ((if save then sync q else ok q) ≡ ok (record q { disk = d }))
      × (if save then Saved q.disk d q.profiles else (d ≡ q.disk))
Saved-or_kept true q v = sync_saves q v
Saved-or_kept false q v = (q.disk, refl, refl)

pub push_follower-IsStore :
    (m : ProfileManager) (this : ℕ) (p : Profile) (f : ℕ)
    → IsStore m.profiles
    → get_elem? m.profiles this ≡ some p
    → f < length m.profiles
    → has_pointer f p.followers ≡ false
    → IsStore (push_follower m this p f).profiles
unfolding push_follower
push_follower-IsStore m this p f v stored below h =
    replace-IsStore m.profiles this p (record p { followers = p.followers ++ f ∷ [] }) v stored refl
      (All-append (λ g. g < length m.profiles) p.followers (f ∷ []) (v.pointers this p stored)
        (below, tt))
      (Distinct-append f p.followers (v.distinct this p stored) h)

get_profile_by_name-lt :
    (m : ProfileManager) (user : Bytes) (f : ℕ)
    → get_profile_by_name m user ≡ some f
    → f < length m.profiles
unfolding get_profile_by_name
get_profile_by_name-lt m user f e =
    let (j, q, a, b, c) = find_profile_hit user 0 m.profiles e in
    omega (arith, lt_of_get_elem? m.profiles j q b)

-- `AddFollower` on a profile for a handle that a profile has. It answers 0 and changes nothing when
-- that profile follows already. Otherwise it answers 1, puts the profile behind the followers, and
-- saves all profiles when asked to.
pub add_follower_known :
    (m : ProfileManager) (this : ℕ) (p : Profile) (user : Bytes) (save : Bool) (f : ℕ)
    → IsStore m.profiles
    → get_elem? m.profiles this ≡ some p
    → get_profile_by_name m user ≡ some f
    → ((has_pointer f p.followers ≡ true) × (add_follower m this user save ≡ ok (m, 0)))
      ⊎ ((has_pointer f p.followers ≡ false)
          × (d : Disk) × (add_follower m this user save
              ≡ ok (record (push_follower m this p f) { disk = d }, 1))
          × IsStore (push_follower m this p f).profiles
          × (if save then Saved m.disk d (push_follower m this p f).profiles else (d ≡ m.disk)))
unfolding add_follower
add_follower_known m this p user save f v stored found =
    elim (Bool-cases (has_pointer f p.followers)) [
      | inl e ↦ inl (e, rw (stored, found, e))
      | inr e ↦
          let kept =
            push_follower-IsStore m this p f v stored (get_profile_by_name-lt m user f found) e in
          let (d, ran, saved) = Saved-or_kept save (push_follower m this p f) kept in
          inr (e, d, rw (stored, found, e, ran), kept, unfold push_follower in saved)
    ]

pub find_profile-set :
    (h : Bytes) (base : ℕ) (ps : List Profile) (i : ℕ) (p p' : Profile)
    → get_elem? ps i ≡ some p
    → p'.handle ≡ p.handle
    → find_profile h base (set ps i p') ≡ find_profile h base ps
unfolding find_profile
find_profile-set h base [] i p p' e q = refl
find_profile-set h base (r ∷ ps) zero p p' e q = ground arith
find_profile-set h base (r ∷ ps) (suc i) p p' e q =
    ground (arith, find_profile-set h (suc base) ps i p p' e q)

pub get_profile_by_name-push_follower :
    (m : ProfileManager) (this : ℕ) (p : Profile) (f : ℕ) (d : Disk) (h : Bytes)
    → get_elem? m.profiles this ≡ some p
    → get_profile_by_name (record (push_follower m this p f) { disk = d }) h
      ≡ get_profile_by_name m h
unfolding get_profile_by_name push_follower
get_profile_by_name-push_follower m this p f d h stored =
    find_profile-set h 0 m.profiles this p (record p { followers = p.followers ++ f ∷ [] }) stored
      refl

pub add_follower_unknown :
    (m : ProfileManager) (this : ℕ) (p : Profile) (user : Bytes) (save : Bool)
    → get_elem? m.profiles this ≡ some p
    → get_profile_by_name m user ≡ none
    → add_follower m this user save ≡ err no_value
unfolding add_follower
add_follower_unknown m this p user save stored e = rw (stored, e)

-- A second call finds the pointer that the first one pushed.
pub add_follower_pushed :
    (m : ProfileManager) (this : ℕ) (p : Profile) (user : Bytes) (again : Bool) (f : ℕ) (d : Disk)
    → get_elem? m.profiles this ≡ some p
    → get_profile_by_name m user ≡ some f
    → let m' = record (push_follower m this p f) { disk = d } in
      add_follower m' this user again ≡ ok (m', 0)
unfolding add_follower
add_follower_pushed m this p user again f d stored found =
    let p' : Profile = record p { followers = p.followers ++ f ∷ [] } in
    let pushed : get_elem? (push_follower m this p f).profiles this ≡ some p' =
      unfold push_follower in get_elem?-set_self m.profiles this p' p stored in
    let kept : has_pointer f (p.followers ++ f ∷ []) ≡ true =
      ground (arith, has_pointer-append f f p.followers) in
    rw (pushed, get_profile_by_name-push_follower m this p f d user stored, found, kept)

-- A profile follows a handle once: whatever a first call answered, a second one answers 0 and
-- changes nothing.
pub add_follower_twice :
    (m m' : ProfileManager) (this : ℕ) (p : Profile) (user : Bytes) (save again : Bool) (n : ℕ)
    → IsStore m.profiles
    → get_elem? m.profiles this ≡ some p
    → add_follower m this user save ≡ ok (m', n)
    → add_follower m' this user again ≡ ok (m', 0)
add_follower_twice m m' this p user save again n v stored h =
    elim (Option-cases (get_profile_by_name m user)) [
      | inl e ↦ cc (add_follower_unknown m this p user save stored e)
      | inr (f, e) ↦ elim (add_follower_known m this p user save f v stored e) [
        | inl (old, ran) ↦
            let unchanged : m ≡ m' = ground (arith, ran, h) in
            rw (← unchanged) (elim (add_follower_known m this p user again f v stored e) [
              | inl (_, r) ↦ r
              | inr (new, _, _, _, _) ↦ cc (old, new)
            ])
        | inr (new, d, ran, _, _) ↦
            let changed : record (push_follower m this p f) { disk = d } ≡ m' =
              ground (arith, ran, h) in
            rw (← changed) (add_follower_pushed m this p user again f d stored e)
      ]
    ]

-- `SetSession` changes the session of one profile alone.
pub set_session_lem :
    (m : ProfileManager) (this : ℕ) (p : Profile) (s : SessionPointer)
    → IsStore m.profiles
    → get_elem? m.profiles this ≡ some p
    → let m' = record m { profiles = set m.profiles this (record p { session = s }) } in
      (set_session m this s ≡ ok m') × IsStore m'.profiles
unfolding set_session
set_session_lem m this p s v stored = (
  rw stored,
  replace-IsStore m.profiles this p (record p { session = s }) v stored refl
      (v.pointers this p stored) (v.distinct this p stored),
)

-- `NewProfile` for a handle that no profile has adds a profile with no followers and a session that
-- is not set, at the end, and saves.
pub new_profile_lem :
    (m : ProfileManager) (handle : Bytes)
    → IsStore m.profiles
    → get_profile_by_name m handle ≡ none
    → (d : Disk) × (let ps =
          m.profiles ++ record { handle = handle; followers = []; session = unset } ∷ [] in
        (new_profile m handle ≡ ok (record { profiles = ps; disk = d }, length m.profiles))
        × IsStore ps
        × Saved m.disk d ps)
unfolding new_profile get_profile_by_name
new_profile_lem m handle v absent =
    let p : Profile = record { handle = handle; followers = []; session = unset } in
    let kept =
      append-IsStore m.profiles p v (λ i q e. find_profile_miss handle 0 m.profiles i q absent e)
        refl in
    let (d, ran, saved) = sync_saves (record m { profiles = m.profiles ++ p ∷ [] }) kept in
    (d, (rw ran, kept, saved))
