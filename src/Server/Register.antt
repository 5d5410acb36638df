-- ===== src/Server/Register.antt =====
-- source/server/server.cpp, CONNECT: the profile and the session of the user who connects.
use piupiu.Common.{
  ℕ, suc, ◌≤◌, ◌≡◌, ◌≢◌, refl, sym, ap, ◌∙◌, inl, inr, ◌⊎◌, true, List, [], ◌∷◌, ◌++◌, Option, none,
  some, Bytes, same, same_iff, length, get_elem?, set, if◌then◌else◌, ◌==◌, ==_iff, ltb, ok,
  find_key, arith, Bool-cases, Option-cases, get_elem?-append_new, get_elem?-append_left,
  get_elem?-append_cases, get_elem?-set_self, get_elem?-set_ne, get_elem?-set_cases, length-append,
  length-set,
}
use piupiu.Sessions.{SocketAddress, SessionManager}
use piupiu.Sessions.Invariant.{IsValid}
use piupiu.Sessions.View.{sockets_of-absent, Opens, is_some}
use piupiu.Profiles.{
  unset, at, Profile, ProfileManager, get_profile_by_name, session_sockets, connected_from,
  get_connected_users,
}
use piupiu.Profiles.Invariant.{IsStore, get_profile_by_name_hit, get_profile_by_name_miss}
use piupiu.Profiles.Updates.{new_profile_lem, set_session_lem}
use piupiu.Server.{Server, profile_for, store_session}
use piupiu.Server.Invariant.{IsServer, InSession, HasProfile}

-- The profiles `after` are those `before`, and perhaps one with this handle at the end, which no
-- profile had.
pub record Grown (before after : List Profile) (handle : Bytes) (i : ℕ) (p : Profile) : Type 0 where
  pub store : IsStore after
  pub stored : get_elem? after i ≡ some p
  pub named : p.handle ≡ handle
  pub kept : (j : ℕ) (q : Profile) → get_elem? before j ≡ some q → get_elem? after j ≡ some q
  pub origin :
      (j : ℕ) (q : Profile)
      → get_elem? after j ≡ some q
      → (get_elem? before j ≡ some q)
        ⊎ ((j ≡ i)
            × (q ≡ record { handle = handle; followers = []; session = unset })
            × ((k : ℕ) (r : Profile) → get_elem? before k ≡ some r → r.handle ≢ handle))
  pub longer : length before ≤ length after

-- The profile of a CONNECT is found or made.
pub profile_for_lem :
    (m : ProfileManager) (user : Bytes)
    → IsStore m.profiles
    → (m' : ProfileManager) × (i : ℕ) × (p : Profile) × (profile_for m user ≡ ok (m', i))
      × Grown m.profiles m'.profiles user i p
unfolding profile_for
profile_for_lem m user v = elim (Option-cases (get_profile_by_name m user)) [
  | inl e ↦
      let fresh : Profile = record { handle = user; followers = []; session = unset } in
      let (d, facts) = new_profile_lem m user v e in
      let (ran, store, saved) = facts in
      (
        record { profiles = m.profiles ++ fresh ∷ []; disk = d },
        length m.profiles,
        fresh,
        rw (e, profile_for) ran,
        record {
          store = store;
          stored = get_elem?-append_new m.profiles fresh;
          named = refl;
          kept = λ j q. get_elem?-append_left m.profiles (fresh ∷ []) j q;
          origin = λ j q h. elim (get_elem?-append_cases m.profiles fresh q j h) [
            | inl a ↦ inl a
            | inr (a, b) ↦ inr (a, b, λ k r. get_profile_by_name_miss m user k r e)
          ];
          longer = omega (arith, length-append m.profiles (fresh ∷ []));
        },
      )
  | inr (i, e) ↦
      let (p, stored, named) = get_profile_by_name_hit m user i e in
      (
        m,
        i,
        p,
        rw (e, profile_for),
        record {
          store = v;
          stored = stored;
          named = named;
          kept = λ j q h. h;
          origin = λ j q h. inl h;
          longer = omega arith;
        },
      )
]

-- With every profile in a session the connected users can be listed.
pub connected_from_total :
    (m : SessionManager) (exclude base : ℕ) (ps : List Profile)
    → IsValid m
    → ((i : ℕ) (p : Profile) → get_elem? ps i ≡ some p → InSession m.sessions p)
    → (users : List Bytes) × (connected_from m.heap (some exclude) base ps ≡ ok users)
unfolding connected_from session_sockets
connected_from_total m exclude base [] v h = ([], refl)
connected_from_total m exclude base (p ∷ ps) v h =
    let (users, e) = connected_from_total m exclude (suc base) ps v (λ i q g. h (suc i) q g) in
    let (x, at_x, found) = h 0 p refl in
    let l = v.linked p.handle x found in
    elim (Bool-cases (base == exclude)) [
      | inl here ↦ (users, rw (here, e))
      | inr other ↦ (
        (if ltb 0 (length l.session.sockets) then p.handle ∷ users else users),
        ground (arith, e, at_x, l.stored),
      )
    ]

-- What a CONNECT makes of the profiles `ps`, with the sessions `sm` that it leaves.
pub record Stored (ps ps' : List Profile) (sm : SessionManager) (user : Bytes) : Type 0 where
  pub store : IsStore ps'
  pub connected : (j : ℕ) (q : Profile) → get_elem? ps' j ≡ some q → InSession sm.sessions q
  pub owned : (k : Bytes) (y : ℕ) → find_key k sm.sessions ≡ some y → HasProfile ps' k y
  pub kept :
      (j : ℕ) (q : Profile)
      → get_elem? ps j ≡ some q
      → (q' : Profile) × (get_elem? ps' j ≡ some q')
        × (q'.handle ≡ q.handle)
        × (q'.followers ≡ q.followers)
  pub origin :
      (j : ℕ) (q' : Profile)
      → get_elem? ps' j ≡ some q'
      → (q'.handle ≡ user) ⊎ ((q : Profile) × (get_elem? ps j ≡ some q) × (q'.handle ≡ q.handle))
  pub registered : (i : ℕ) × (p : Profile) × (get_elem? ps' i ≡ some p) × (p.handle ≡ user)
  pub longer : length ps ≤ length ps'

-- The facts after the profile is there and `StartSession` has answered `r`.
module _ (s : Server) (v : IsServer s) (user : Bytes) (a : SocketAddress) (m : ProfileManager)
    (i : ℕ) (p : Profile) (g : Grown s.profiles.profiles m.profiles user i p)
    (r : SessionManager × Option ℕ) (o : Opens s.sessions user a r) (rv : IsValid r.0) where
  -- A profile that was there before has its session still.
  old_connected :
      (j : ℕ) (q : Profile) → get_elem? s.profiles.profiles j ≡ some q → InSession r.0.sessions q
  old_connected j q e =
      let (x, at_x, found) = v.connected j q e in (x, at_x, o.kept q.handle x found)

  -- A refusal means that the user was known.
  refused_known :
      r.1 ≡ none
      → (j : ℕ) (q : Profile) → get_elem? m.profiles j ≡ some q
      → get_elem? s.profiles.profiles j ≡ some q
  refused_known none_back j q e = elim (g.origin j q e) [
    | inl old ↦ old
    | inr (here, new, fresh) ↦ elim (Option-cases (find_key user s.sessions.sessions)) [
      | inl unknown ↦
          let answered : is_some r.1 ≡ true =
            o.result ∙ rw (sockets_of-absent s.sessions user unknown) in
          cc (answered, none_back)
      | inr (x, known) ↦
          let (k, q', stored, named, session) = v.owned user x known in
          absurd (fresh k q' stored named)
    ]
  ]

  in_session : ℕ → Profile
  in_session x = record p { session = at x }

  module _ (x : ℕ) (answered : r.1 ≡ some x) where
    set_connected :
        (j : ℕ) (q : Profile)
        → get_elem? (set m.profiles i (in_session x)) j ≡ some q
        → InSession r.0.sessions q
    unfolding in_session
    set_connected j q e = elim (get_elem?-set_cases m.profiles i j (in_session x) q e) [
      | inl (here, same_profile) ↦ rw same_profile (x, refl, rw g.named (o.pointer x answered))
      | inr (there, old) ↦ elim (g.origin j q old) [
        | inl before ↦ old_connected j q before
        | inr (here, _, _) ↦ absurd (there here)
      ]
    ]

    set_owned :
        (k : Bytes) (y : ℕ)
        → find_key k r.0.sessions ≡ some y
        → HasProfile (set m.profiles i (in_session x)) k y
    unfolding in_session
    set_owned k y e = elim (Bool-cases (same user k)) [
      | inl q ↦
          let named = (same_iff user k).0 q in
          let found : find_key k r.0.sessions ≡ some x = rw (← named) (o.pointer x answered) in
          let one : x ≡ y = ground (arith, e, found) in
          (
            i,
            in_session x,
            get_elem?-set_self m.profiles i (in_session x) p g.stored,
            g.named ∙ named,
            ap at one,
          )
      | inr q ↦
          let (j, w, stored, named, session) = v.owned k y (sym (o.others k q) ∙ e) in
          let elsewhere : i ≢ j = λ here. ground (
            arith,
            g.stored,
            g.kept j w stored,
            ap (get_elem? m.profiles) here,
            g.named,
            named,
            same_iff user k,
          ) in
          (
            j,
            w,
            get_elem?-set_ne m.profiles i j (in_session x) elsewhere ∙ g.kept j w stored,
            named,
            session,
          )
    ]

    set_kept :
        (j : ℕ) (q : Profile)
        → get_elem? s.profiles.profiles j ≡ some q
        → (q' : Profile) × (get_elem? (set m.profiles i (in_session x)) j ≡ some q')
          × (q'.handle ≡ q.handle)
          × (q'.followers ≡ q.followers)
    unfolding in_session
    set_kept j q e = elim (Bool-cases (i == j)) [
      | inl h ↦
          let here = (==_iff i j).0 h in
          let one : some p ≡ some q =
            sym g.stored ∙ ap (get_elem? m.profiles) here ∙ g.kept j q e in
          (
            in_session x,
            rw (← here) (get_elem?-set_self m.profiles i (in_session x) p g.stored),
            ground (arith, one),
            ground (arith, one),
          )
      | inr h ↦ (
        q,
        get_elem?-set_ne m.profiles i j (in_session x) (λ (z : i ≡ j). cc (h, (==_iff i j).1 z))
            ∙ g.kept j q e,
        refl,
        refl,
      )
    ]

    set-Stored : Stored s.profiles.profiles (set m.profiles i (in_session x)) r.0 user
    unfolding in_session
    set-Stored = record {
      store = (set_session_lem m i p (at x) g.store g.stored).1;
      connected = set_connected;
      owned = set_owned;
      kept = set_kept;
      origin = λ j q e. elim (get_elem?-set_cases m.profiles i j (in_session x) q e) [
        | inl (here, one) ↦ inl (ap (λ (t : Profile). t.handle) one ∙ g.named)
        | inr (there, old) ↦ elim (g.origin j q old) [
          | inl before ↦ inr (q, before, refl)
          | inr (here, _, _) ↦ absurd (there here)
        ]
      ];
      registered =
          (i, in_session x, get_elem?-set_self m.profiles i (in_session x) p g.stored, g.named);
      longer = omega (arith, g.longer, length-set m.profiles i (in_session x));
    }

    session-Stored :
        (m' : ProfileManager) × (store_session m r.0 i r.1 ≡ ok m')
        × Stored s.profiles.profiles m'.profiles r.0 user
    unfolding store_session get_connected_users in_session
    session-Stored =
        let m' : ProfileManager = record m { profiles = set m.profiles i (in_session x) } in
        let (users, listed) =
          connected_from_total r.0 i 0 (set m.profiles i (in_session x)) rv set_connected in
        (m', rw (answered, (set_session_lem m i p (at x) g.store g.stored).0, listed), set-Stored)

  session_refused :
      r.1 ≡ none
      → (m' : ProfileManager) × (store_session m r.0 i r.1 ≡ ok m')
        × Stored s.profiles.profiles m'.profiles r.0 user
  unfolding store_session
  session_refused e = (
    m,
    rw e,
    record {
      store = g.store;
      connected = λ j q h. old_connected j q (refused_known e j q h);
      owned = λ k y h.
          let same_sessions = ap (λ (t : SessionManager). find_key k t.sessions) (o.refused e) in
          let (j, q, stored, named, session) = v.owned k y (sym same_sessions ∙ h) in
          (j, q, g.kept j q stored, named, session);
      kept = λ j q h. (q, g.kept j q h, refl, refl);
      origin = λ j q h. inr (q, refused_known e j q h, refl);
      registered = (i, p, g.stored, g.named);
      longer = g.longer;
    },
  )

  -- `SetSession` and the list of users behind it cannot fail.
  pub store_session_lem :
      (m' : ProfileManager) × (store_session m r.0 i r.1 ≡ ok m')
      × Stored s.profiles.profiles m'.profiles r.0 user
  store_session_lem = elim (Option-cases r.1) [
    | inl e ↦ session_refused e
    | inr (x, e) ↦ session-Stored x e
  ]
