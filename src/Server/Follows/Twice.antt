-- ===== src/Server/Follows/Twice.antt =====
-- source/server/server.cpp and Profile.cpp: what two FOLLOWs at once can do that one behind the
-- other cannot.
use piupiu.Common.{
  ℕ, ◌≡◌, ◌∙◌, false, List, [], ◌∷◌, ◌++◌, some, Bytes, get_elem?, set, same, ok, arith,
  from_c_array, get_elem?-set_self,
}
use mathlib.Core.List.{append_assoc}
use piupiu.Messaging.{Packet}
use piupiu.Sessions.{SocketAddress, get_user_name_by_address_and_ip}
use piupiu.Profiles.{Profile, get_profile_by_name, has_pointer, push_follower}
use piupiu.Profiles.Invariant.{Distinct}
use piupiu.Server.{Server}
use piupiu.Server.Invariant.{IsServer}
use piupiu.Server.Follows.{
  FollowPhase, asking, saving, Following, advance_follow, interleave_follows,
}

followed_twice : (fs : List ℕ) (f : ℕ) → ¬ Distinct (fs ++ f ∷ f ∷ [])
unfolding has_pointer
followed_twice [] f d = ground (arith, d)
followed_twice (g ∷ fs) f d = followed_twice fs f d.1

abbrev asking_for : Packet → SocketAddress → FollowPhase → Following
asking_for message incoming phase = record { message = message; incoming = incoming; phase = phase }

-- Two FOLLOWs of one user by the same other user, from whatever addresses of his, whose threads both
-- search the followers before either pushes, put him among the followers twice and break the
-- invariant, on every server where he does not follow yet.
pub follows_twice :
    (s : Server) (m0 m1 : Packet) (a0 a1 : SocketAddress) (user target : Bytes) (i f : ℕ)
    (p : Profile)
    → from_c_array m0.payload ≡ ok target
    → from_c_array m1.payload ≡ ok target
    → get_user_name_by_address_and_ip s.sessions a0 ≡ ok (some user)
    → get_user_name_by_address_and_ip s.sessions a1 ≡ ok (some user)
    → same target user ≡ false
    → get_profile_by_name s.profiles target ≡ some i
    → get_profile_by_name s.profiles user ≡ some f
    → get_elem? s.profiles.profiles i ≡ some p
    → has_pointer f p.followers ≡ false
    → (s' : Server) × (interleave_follows s
          (asking_for m0 a0 asking ∷ asking_for m1 a1 asking ∷ [])
          (0 ∷ 1 ∷ 0 ∷ 1 ∷ 0 ∷ 1 ∷ 0 ∷ 1 ∷ 0 ∷ 1 ∷ [])
        ≡ ok (s', asking_for m0 a0 saving ∷ asking_for m1 a1 saving ∷ []))
      × (get_elem? s'.profiles.profiles i
          ≡ some (record p { followers = p.followers ++ f ∷ f ∷ [] }))
      × (¬ IsServer s')
unfolding interleave_follows advance_follow push_follower
follows_twice s m0 m1 a0 a1 user target i f p n0 n1 u0 u1 other at_i at_f stored unfollowed =
    let p1 : Profile = record p { followers = p.followers ++ f ∷ [] } in
    let p2 : Profile = record p { followers = (p.followers ++ f ∷ []) ++ f ∷ [] } in
    let first : get_elem? (set s.profiles.profiles i p1) i ≡ some p1 =
      get_elem?-set_self s.profiles.profiles i p1 p stored in
    let second : get_elem? (set (set s.profiles.profiles i p1) i p2) i ≡ some p2 =
      get_elem?-set_self (set s.profiles.profiles i p1) i p2 p1 first in
    (
      record s {
        profiles = record s.profiles { profiles = set (set s.profiles.profiles i p1) i p2 };
      },
      ground (arith, n0, n1, u0, u1, other, at_i, at_f, stored, unfollowed, first),
      second ∙ rw (append_assoc p.followers (f ∷ []) (f ∷ [])),
      λ w.
          followed_twice p.followers f
            (rw (← append_assoc p.followers (f ∷ []) (f ∷ [])) (w.store.distinct i p2 second)),
    )
