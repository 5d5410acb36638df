-- ===== src/Server/Follow.antt =====
-- source/server/server.cpp: FOLLOW, on every branch.
use piupiu.Common.{
  ℕ, ◌≡◌, ◌≢◌, refl, sym, ap, ◌∙◌, inl, inr, true, false, [], ◌∷◌, ◌++◌, Option, none, some, Bytes,
  get_elem?, same, same_iff, ok, find_key, arith, Option-cases, Bool-cases, from_c_array,
  length-set, get_elem?-set_cases, get_elem?-set_self, get_elem?-set_ne, ◌==◌, ==_iff,
}
use piupiu.Messaging.{Packet}
use piupiu.Sessions.{SocketAddress, has_socket, get_user_name_by_address_and_ip}
use piupiu.Sessions.View.{sockets_of, sockets_of-absent}
use piupiu.Sessions.Lookup.{Answers, first, get_user_name-Answers}
use piupiu.Profiles.{Profile, Disk, get_profile_by_name, has_pointer, push_follower}
use piupiu.Profiles.Invariant.{IsStore, Saved, get_profile_by_name_hit, get_profile_by_name_miss}
use piupiu.Profiles.Updates.{add_follower_known}
use piupiu.Server.{Server, handle_follow, follow_user}
use piupiu.Server.Invariant.{IsServer}

-- A user who is known at an address has a profile.
pub known_user :
    (s : Server) (user : Bytes) (a : SocketAddress)
    → IsServer s
    → has_socket a (sockets_of s.sessions user) ≡ true
    → (f : ℕ) × (q : Profile) × (get_profile_by_name s.profiles user ≡ some f)
      × (get_elem? s.profiles.profiles f ≡ some q)
      × (q.handle ≡ user)
unfolding has_socket
known_user s user a v h = elim (Option-cases (find_key user s.sessions.sessions)) [
  | inl absent ↦
      let empty : has_socket a (sockets_of s.sessions user) ≡ false =
        rw (sockets_of-absent s.sessions user absent) in
      cc (h, empty)
  | inr (x, found) ↦
      let (j, w, stored, named, session) = v.owned user x found in
      elim (Option-cases (get_profile_by_name s.profiles user)) [
        | inl e ↦ absurd (get_profile_by_name_miss s.profiles user j w e stored named)
        | inr (f, e) ↦
            let (q, at_f, owner) = get_profile_by_name_hit s.profiles user f e in
            (f, q, e, at_f, owner)
      ]
]

-- The outcome of a FOLLOW of `target` from the address `a`.
pub data FollowOutcome (s : Server) (a : SocketAddress) (target : Bytes) (s' : Server)
    : Type 0 where
  unauthenticated : Answers (sockets_of s.sessions) a none → s' ≡ s → FollowOutcome s a target s'
  yourself : Answers (sockets_of s.sessions) a (some target) → s' ≡ s → FollowOutcome s a target s'
  not_found : get_profile_by_name s.profiles target ≡ none → s' ≡ s → FollowOutcome s a target s'
  already :
      (user : Bytes) (i f : ℕ) (p : Profile)
      → Answers (sockets_of s.sessions) a (some user)
      → get_profile_by_name s.profiles target ≡ some i
      → get_profile_by_name s.profiles user ≡ some f
      → get_elem? s.profiles.profiles i ≡ some p
      → has_pointer f p.followers ≡ true
      → s' ≡ s
      → FollowOutcome s a target s'
  added :
      (user : Bytes) (i f : ℕ) (p : Profile) (d : Disk)
      → Answers (sockets_of s.sessions) a (some user)
      → target ≢ user
      → get_profile_by_name s.profiles target ≡ some i
      → get_profile_by_name s.profiles user ≡ some f
      → get_elem? s.profiles.profiles i ≡ some p
      → has_pointer f p.followers ≡ false
      → Saved s.profiles.disk d (push_follower s.profiles i p f).profiles
      → s' ≡ record s { profiles = record (push_follower s.profiles i p f) { disk = d } }
      → FollowOutcome s a target s'

-- A follower more, and another disk, keep the invariant.
pushed-IsServer :
    (s : Server) (i f : ℕ) (p : Profile) (d : Disk)
    → IsServer s
    → get_elem? s.profiles.profiles i ≡ some p
    → IsStore (push_follower s.profiles i p f).profiles
    → IsServer (record s { profiles = record (push_follower s.profiles i p f) { disk = d } })
unfolding push_follower
pushed-IsServer s i f p d v stored store =
    let p' : Profile = record p { followers = p.followers ++ f ∷ [] } in
    let ps = s.profiles.profiles in
    record {
      store = store;
      valid = v.valid;
      connected = λ j q e. elim (get_elem?-set_cases ps i j p' q e) [
        | inl (here, one) ↦ rw one (v.connected i p stored)
        | inr (there, old) ↦ v.connected j q old
      ];
      owned = λ k x e.
          let (j, w, at_j, named, session) = v.owned k x e in
          elim (Bool-cases (i == j)) [
            | inl h ↦
                let one : some p ≡ some w =
                  sym stored ∙ ap (get_elem? ps) ((==_iff i j).0 h) ∙ at_j in
                (
                  i,
                  p',
                  get_elem?-set_self ps i p' p stored,
                  ground (arith, one, named),
                  ground (arith, one, session),
                )
            | inr h ↦ (
              j,
              w,
              get_elem?-set_ne ps i j p' (λ (z : i ≡ j). cc (h, (==_iff i j).1 z)) ∙ at_j,
              named,
              session,
            )
          ];
      handles = λ j q e. elim (get_elem?-set_cases ps i j p' q e) [
        | inl (here, one) ↦ rw one (v.handles i p stored)
        | inr (there, old) ↦ v.handles j q old
      ];
      queue = rw (length-set ps i p') v.queue;
      replica = v.replica;
    }

-- A known user follows.
follow_user_lem :
    (s : Server) (user target : Bytes) (a : SocketAddress)
    → IsServer s
    → Answers (sockets_of s.sessions) a (some user)
    → has_socket a (sockets_of s.sessions user) ≡ true
    → (s' : Server) × (follow_user s user target ≡ ok s')
      × IsServer s'
      × FollowOutcome s a target s'
unfolding follow_user
follow_user_lem s user target a v answer h = elim (Bool-cases (same target user)) [
  | inl e ↦ (s, rw e, v, yourself (rw ((same_iff target user).0 e) answer) refl)
  | inr e ↦ elim (Option-cases (get_profile_by_name s.profiles target)) [
    | inl g ↦ (s, ground (arith, e, g), v, not_found g refl)
    | inr (i, g) ↦
        let (p, stored, named) = get_profile_by_name_hit s.profiles target i g in
        let (f, q, found, at_f, owner) = known_user s user a v h in
        elim (add_follower_known s.profiles i p user true f v.store stored found) [
          | inl (old, ran) ↦
              (s, ground (arith, e, g, ran), v, already user i f p answer g found stored old refl)
          | inr (new, d, ran, store, saved) ↦ (
            record s { profiles = record (push_follower s.profiles i p f) { disk = d } },
            ground (arith, e, g, ran),
            pushed-IsServer s i f p d v stored store,
            added user i f p d answer (λ z. cc (e, (same_iff target user).1 z)) g found stored new
                saved refl,
          )
        ]
  ]
]

-- A FOLLOW never fails and keeps the invariant. It changes nothing for a sender who is not known, who
-- names himself, a handle that no profile has, or somebody whom he follows already; otherwise he is
-- put behind that profile's followers, and the profiles are saved.
pub handle_follow_lem :
    (s : Server) (message : Packet) (incoming : SocketAddress) (target : Bytes)
    → IsServer s
    → from_c_array message.payload ≡ ok target
    → (s' : Server) × (handle_follow s message incoming ≡ ok s')
      × IsServer s'
      × FollowOutcome s incoming target s'
unfolding handle_follow
handle_follow_lem s message incoming target v named =
    let (r, asked, answer) = get_user_name-Answers s.sessions incoming v.valid in
    follow_answer r asked answer
  where
    follow_answer :
        (r : Option Bytes)
        → get_user_name_by_address_and_ip s.sessions incoming ≡ ok r
        → Answers (sockets_of s.sessions) incoming r
        → (s' : Server) × (handle_follow s message incoming ≡ ok s')
          × IsServer s'
          × FollowOutcome s incoming target s'
    follow_answer none asked answer = (s, rw (named, asked), v, unauthenticated answer refl)
    follow_answer (some user) asked (first user' held least) =
        let (s', ran, kept, outcome) =
          follow_user_lem s user' target incoming v (first user' held least) held in
        (s', rw (named, asked) ran, kept, outcome)
