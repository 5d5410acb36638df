-- ===== src/Server/Race.antt =====
-- source/server/server.cpp: what two CONNECTs at once can do that no order of the whole handlers does.
use piupiu.Common.{
  ℕ, zero, suc, ◌+◌, ◌<◌, ◌≡◌, refl, sym, ◌∙◌, inl, inr, true, List, [], ◌∷◌, ◌++◌, Option, none,
  some, Bytes, length, get_elem?, set, ok, err, indeterminate, Bool-cases, arith, All-imp,
  length-append, get_elem?-append_cases, get_elem?-append_new, get_elem?-append_left,
}
use piupiu.Messaging.{Packet}
use piupiu.Sessions.{SocketAddress, SessionManager, max_sessions_per_user}
use piupiu.Sessions.Invariant.{IsValid}
use piupiu.Sessions.View.{sockets_of, start_session_refines, Opens, is_some}
use piupiu.Profiles.Invariant.{get_profile_by_name_hit}
use piupiu.Profiles.{
  at, find_profile, connected_from, session_sockets, get_connected_users, set_session,
}
use piupiu.Server.{store_session}
use piupiu.Server.Invariant.{InSession}
use piupiu.Common.{==_iff, ◌==◌, Option-cases, lt_of_get_elem?, get_elem?-set_ne, ◌≢◌}
use piupiu.Profiles.{unset, Profile, Disk, ProfileManager, get_profile_by_name, new_profile, sync}
use piupiu.Profiles.Invariant.{IsStore, Pointers, render-Pointers}
use piupiu.Server.{Server}
use piupiu.Server.Invariant.{IsServer}
use piupiu.Server.Threads.{Phase, looking, starting, advance, Thread, interleave}

abbrev fresh : Bytes → Profile
fresh user = record { handle = user; followers = []; session = unset }

-- A profile with no followers keeps every follower a profile.
Pointers-append :
    (ps : List Profile) (user : Bytes) → Pointers ps → Pointers (ps ++ fresh user ∷ [])
Pointers-append ps user v i p e = elim (get_elem?-append_cases ps (fresh user) p i e) [
  | inl old ↦
      All-imp (λ f. f < length ps) (λ f. f < length (ps ++ fresh user ∷ [])) p.followers
        (λ f h. omega (arith, h, length-append ps (fresh user ∷ []))) (v i p old)
  | inr (at_end, new) ↦ rw new tt
]

-- NewProfile adds a profile whether or not there is one with its handle.
new_profile_blind :
    (m : ProfileManager) (user : Bytes)
    → Pointers m.profiles
    → (d : Disk) × (new_profile m user
        ≡ ok (record { profiles = m.profiles ++ fresh user ∷ []; disk = d }, length m.profiles))
unfolding new_profile sync
new_profile_blind m user v = elim (Bool-cases m.disk.writable) [
  | inl on ↦
      let (text, rendered) =
        render-Pointers (m.profiles ++ fresh user ∷ []) (Pointers-append m.profiles user v) in
      (record { content = some text; writable = true }, ground (arith, on, rendered))
  | inr off ↦ (m.disk, ground (arith, off))
]

-- Two profiles with one handle break the invariant.
twice-IsStore :
    (ps : List Profile) (user : Bytes) → ¬ IsStore ((ps ++ fresh user ∷ []) ++ fresh user ∷ [])
twice-IsStore ps user v =
    let first =
      get_elem?-append_left (ps ++ fresh user ∷ []) (fresh user ∷ []) (length ps) (fresh user)
        (get_elem?-append_new ps (fresh user)) in
    let second = get_elem?-append_new (ps ++ fresh user ∷ []) (fresh user) in
    let clash =
      v.unique (length ps) (length (ps ++ fresh user ∷ [])) (fresh user) (fresh user) first second
        refl in
    omega (arith, clash, length-append ps (fresh user ∷ []))

abbrev thread : Packet → SocketAddress → Phase → Thread
thread message incoming phase = record { message = message; incoming = incoming; phase = phase }

-- Two CONNECTs of a user whom nobody knows, whose threads take turns, make two profiles of his handle, on
-- every server under its invariant, and break the invariant: both look before either makes the profile.
pub connects_twice :
    (s : Server) (m0 m1 : Packet) (a0 a1 : SocketAddress) (now : ℕ) (user : Bytes)
    → IsServer s
    → get_profile_by_name s.profiles user ≡ none
    → (s' : Server) × (interleave s now
          (thread m0 a0 (looking user) ∷ thread m1 a1 (looking user) ∷ [])
          (0 ∷ 1 ∷ 0 ∷ 1 ∷ [])
        ≡ ok (
          s',
          thread m0 a0 (starting (length s.profiles.profiles))
              ∷ thread m1 a1 (starting (suc (length s.profiles.profiles)))
              ∷ [],
        ))
      × (s'.profiles.profiles ≡ (s.profiles.profiles ++ fresh user ∷ []) ++ fresh user ∷ [])
      × (¬ IsServer s')
unfolding interleave advance
connects_twice s m0 m1 a0 a1 now user v unknown =
    let (d0, made0) = new_profile_blind s.profiles user v.store.pointers in
    let m : ProfileManager = record {
      profiles = s.profiles.profiles ++ fresh user ∷ [];
      disk = d0;
    } in
    let (d1, made1) =
      new_profile_blind m user (Pointers-append s.profiles.profiles user v.store.pointers) in
    let counted : length (s.profiles.profiles ++ fresh user ∷ [])
        ≡ suc (length s.profiles.profiles) =
      omega (arith, length-append s.profiles.profiles (fresh user ∷ [])) in
    (
      record s {
        profiles = record {
          profiles = (s.profiles.profiles ++ fresh user ∷ []) ++ fresh user ∷ [];
          disk = d1;
        };
      },
      ground (arith, unknown, made0, made1, counted),
      refl,
      λ w. twice-IsStore s.profiles.profiles user w.store,
    )

-- The list of the connected users reads the first session that was never set.
connected_from-reaches :
    (m : SessionManager) (exclude base : ℕ) (ps : List Profile) (n : ℕ) (q : Profile)
    → IsValid m
    → get_elem? ps n ≡ some q
    → q.session ≡ unset
    → base + n ≢ exclude
    → ((j : ℕ) (p : Profile)
        → j < n
        → base + j ≢ exclude
        → get_elem? ps j ≡ some p
        → InSession m.sessions p)
    → connected_from m.heap (some exclude) base ps ≡ err indeterminate
unfolding connected_from session_sockets
connected_from-reaches m exclude base [] n q v e never other before = cc
connected_from-reaches m exclude base (p ∷ ps) zero q v e never other before =
    let off : base ≢ exclude = λ z. other (omega (arith, z)) in
    let same_profile : p ≡ q = ground (arith, e) in
    ground (arith, same_profile, never, off, ==_iff base exclude)
connected_from-reaches m exclude base (p ∷ ps) (suc n) q v e never other before =
    let later =
      connected_from-reaches m exclude (suc base) ps n q v e never (λ z. other (omega (arith, z)))
        (λ j r below off f.
          before (suc j) r (omega (arith, below)) (λ z. off (omega (arith, z))) f) in
    elim (Bool-cases (base == exclude)) [
      | inl here ↦ rw (here, later) refl
      | inr off ↦
          let (x, at_x, found) =
            before 0 p (omega arith) (λ z. absurd (ground (arith, off, z, ==_iff base exclude)))
              refl in
          let l = v.linked p.handle x found in ground (arith, off, at_x, l.stored, later)
    ]

find_profile-append :
    (h : Bytes) (base : ℕ) (ps qs : List Profile) (i : ℕ)
    → find_profile h base ps ≡ some i
    → find_profile h base (ps ++ qs) ≡ some i
unfolding find_profile
find_profile-append h base [] qs i e = cc
find_profile-append h base (p ∷ ps) qs i e =
    ground (arith, e, find_profile-append h (suc base) ps qs i)

-- The profiles that were there still have their sessions.
old_InSession :
    (s : Server)
    → IsServer s
    → (user handle : Bytes) (a : SocketAddress) (r : SessionManager × Option ℕ)
    → Opens s.sessions handle a r
    → (i : ℕ) (w : Profile) (j : ℕ) (q : Profile) → j < length s.profiles.profiles
    → 0 + j ≢ i
    → get_elem? (set (s.profiles.profiles ++ fresh user ∷ []) i w) j ≡ some q
    → InSession r.0.sessions q
old_InSession s v user handle a r o i w j q below off e =
    let there : get_elem? (s.profiles.profiles ++ fresh user ∷ []) j ≡ some q =
      sym (
        get_elem?-set_ne (s.profiles.profiles ++ fresh user ∷ []) i j w
          (λ z. off (omega (arith, z))))
      ∙ e in
    elim (get_elem?-append_cases s.profiles.profiles (fresh user) q j there) [
      | inl old ↦ let (x, at_x, found) = v.connected j q old in (x, at_x, o.kept q.handle x found)
      | inr (at_end, new) ↦ absurd (omega (arith, below, at_end))
    ]

-- While the CONNECT of a new user stands between its profile and its session, the CONNECT of another
-- user, who has a profile and fewer than two sockets, reads the new profile's session, which is
-- indeterminate: on every server under its invariant.
pub connect_reads_unset :
    (s : Server) (m0 m1 : Packet) (a0 a1 : SocketAddress) (now : ℕ) (user known : Bytes) (i : ℕ)
    → IsServer s
    → get_profile_by_name s.profiles user ≡ none
    → get_profile_by_name s.profiles known ≡ some i
    → length (sockets_of s.sessions known) < max_sessions_per_user
    → interleave s now
        (thread m0 a0 (looking user) ∷ thread m1 a1 (looking known) ∷ [])
        (0 ∷ 0 ∷ 1 ∷ 1 ∷ 1 ∷ [])
      ≡ err indeterminate
unfolding interleave advance store_session get_connected_users get_profile_by_name set_session
connect_reads_unset s m0 m1 a0 a1 now user known i v unknown found few =
    let ps = s.profiles.profiles in
    let (d, made) = new_profile_blind s.profiles user v.store.pointers in
    let (p, stored, named) = get_profile_by_name_hit s.profiles known i found in
    let below = lt_of_get_elem? ps i p stored in
    let not_last : i ≢ length ps = λ z. omega (arith, z, below) in
    let (r, started, rv, o) = start_session_refines s.sessions p.handle a1 v.valid in
    elim (Option-cases r.1) [
      | inl refused ↦
          let few_here : length (sockets_of s.sessions p.handle) < max_sessions_per_user =
            rw named few in
          let answer : is_some r.1 ≡ true = o.result ∙ ground (arith, few_here) in
          absurd (cc (answer, refused))
      | inr (x, answered) ↦
          let still = find_profile-append known 0 ps (fresh user ∷ []) i found in
          let kept = get_elem?-append_left ps (fresh user ∷ []) i p stored in
          let listed : connected_from r.0.heap (some i) 0
                (set (ps ++ fresh user ∷ []) i (record p { session = at x }))
              ≡ err indeterminate =
            connected_from-reaches r.0 i 0
              (set (ps ++ fresh user ∷ []) i (record p { session = at x })) (length ps) (fresh user)
              rv
              (get_elem?-set_ne (ps ++ fresh user ∷ []) i (length ps) _ not_last
                ∙ get_elem?-append_new ps (fresh user))
              refl (λ z. not_last (omega (arith, z)))
              (old_InSession s v user p.handle a1 r o i (record p { session = at x })) in
          ground (arith, unknown, made, still, kept, started, answered, listed)
    ]
