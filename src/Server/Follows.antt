-- ===== src/Server/Follows.antt =====
-- source/server/server.cpp and Profile.cpp: several FOLLOWs at once, each in a thread of its own. A
-- step of a thread is GetUserNameByAddressAndIP, GetProfileByName with the comparison of the names,
-- or, in AddFollower, which takes no lock, GetProfileByName, the search of the followers, push_back,
-- or Sync.
pub mod Twice
use piupiu.Common.{
  ℕ, zero, suc, ◌≡◌, refl, sym, ap, ◌∙◌, inl, inr, true, List, [], ◌∷◌, Option, none, some, Bytes,
  get_elem?, set, same, if◌then◌else◌, Result, ok, err, ◌>>=◌, or_fail, dangling, no_value,
  from_c_array, arith, Option-cases, Bool-cases, Result-cases,
}
use piupiu.Messaging.{Packet}
use piupiu.Sessions.{SocketAddress, get_user_name_by_address_and_ip}
use piupiu.Profiles.{
  ProfileManager, get_profile_by_name, has_pointer, push_follower, sync, add_follower,
}
use piupiu.Server.{Server, follow_user, handle_follow}
use piupiu.Server.Threads.{>>=-assoc}

-- Where a FOLLOW stands: before the search for its user, before that for the profile of the name, at the
-- start of AddFollower of a profile, before the search of its followers, before the push, before Sync, or
-- behind it
pub data FollowPhase : Type 0 where
  asking : FollowPhase
  finding : Bytes → Bytes → FollowPhase
  adding : Bytes → ℕ → FollowPhase
  checking pushing : ℕ → ℕ → FollowPhase
  saving followed : FollowPhase

-- One step of the thread that handles the FOLLOW `message`
unfoldable pub advance_follow :
    Server → Packet → SocketAddress → FollowPhase → Result (Server × FollowPhase)
advance_follow s message incoming asking = do
  username_to_follow ← from_c_array message.payload
  user ← get_user_name_by_address_and_ip s.sessions incoming
  elim user [
    | none ↦ ok (s, followed)
    | some username ↦ ok (s, finding username username_to_follow)
  ]
advance_follow s message incoming (finding username username_to_follow) =
    if same username_to_follow username
    then ok (s, followed)
    else elim (get_profile_by_name s.profiles username_to_follow) [
      | none ↦ ok (s, followed)
      | some i ↦ ok (s, adding username i)
    ]
advance_follow s message incoming (adding username i) = do
  p ← or_fail (get_elem? s.profiles.profiles i) dangling
  follower ← or_fail (get_profile_by_name s.profiles username) no_value
  ok (s, checking i follower)
advance_follow s message incoming (checking i follower) = do
  p ← or_fail (get_elem? s.profiles.profiles i) dangling
  ok (s, if has_pointer follower p.followers then followed else pushing i follower)
advance_follow s message incoming (pushing i follower) = do
  p ← or_fail (get_elem? s.profiles.profiles i) dangling
  ok (record s { profiles = push_follower s.profiles i p follower }, saving)
advance_follow s message incoming saving = do
  profiles ← sync s.profiles
  ok (record s { profiles = profiles }, followed)
advance_follow s message incoming followed = ok (s, followed)

pub record Following : Type 0 where
  pub message : Packet
  pub incoming : SocketAddress
  pub phase : FollowPhase

-- The steps of the threads with these numbers, in this order; a number of no thread does nothing.
unfoldable pub interleave_follows :
    Server → List Following → List ℕ → Result (Server × List Following)
interleave_follows s threads [] = ok (s, threads)
interleave_follows s threads (k ∷ ks) = elim (get_elem? threads k) [
  | none ↦ interleave_follows s threads ks
  | some t ↦ do
    (s', phase) ← advance_follow s t.message t.incoming t.phase
    interleave_follows s' (set threads k (record t { phase = phase })) ks
]

-- `n` steps of one thread
unfoldable pub follow_times :
    ℕ → Server → Packet → SocketAddress → FollowPhase → Result (Server × FollowPhase)
follow_times zero s message incoming phase = ok (s, phase)
follow_times (suc n) s message incoming phase = do
  (s', phase') ← advance_follow s message incoming phase
  follow_times n s' message incoming phase'

-- A thread that runs alone
module _ (message : Packet) (incoming : SocketAddress) where
  abbrev end : Server → Result (Server × FollowPhase)
  end s = ok (s, followed)

  follow_times-followed : (n : ℕ) (s : Server) → follow_times n s message incoming followed ≡ end s
  unfolding follow_times advance_follow
  follow_times-followed zero s = refl
  follow_times-followed (suc n) s = follow_times-followed n s

  follow_times-saving :
      (s : Server)
      → follow_times 1 s message incoming saving
        ≡ (sync s.profiles >>= λ m. end (record s { profiles = m }))
  unfolding follow_times advance_follow
  follow_times-saving s = >>=-assoc (sync s.profiles) _ _

  -- AddFollower, and the rest of the handler behind it
  follow_times-adding :
      (s : Server) (username : Bytes) (i : ℕ)
      → follow_times 4 s message incoming (adding username i)
        ≡ (add_follower s.profiles i username true >>= λ r. end (record s { profiles = r.0 }))
  unfolding follow_times advance_follow add_follower
  follow_times-adding s username i = elim (Option-cases (get_elem? s.profiles.profiles i)) [
    | inl e ↦ ground (arith, e)
    | inr (p, e) ↦ elim (Option-cases (get_profile_by_name s.profiles username)) [
      | inl g ↦ ground (arith, e, g)
      | inr (f, g) ↦ elim (Bool-cases (has_pointer f p.followers)) [
        | inl h ↦ ground (arith, e, g, h)
        | inr h ↦
            rw (e, g, h, e, h, e)
              (>>=-assoc (sync (push_follower s.profiles i p f)) _ _
                ∙ sym (>>=-assoc (sync (push_follower s.profiles i p f)) _ _))
      ]
    ]
  ]

  follow_times-finding :
      (s : Server) (username username_to_follow : Bytes)
      → follow_times 5 s message incoming (finding username username_to_follow)
        ≡ (follow_user s username username_to_follow >>= end)
  unfolding follow_times advance_follow follow_user
  follow_times-finding s username username_to_follow =
      elim (Bool-cases (same username_to_follow username)) [
        | inl e ↦ rw e refl
        | inr e ↦ elim (Option-cases (get_profile_by_name s.profiles username_to_follow)) [
          | inl f ↦ rw (e, f) refl
          | inr (i, f) ↦
              rw (e, f)
                (follow_times-adding s username i
                  ∙ sym (>>=-assoc (add_follower s.profiles i username true) _ _))
        ]
      ]

-- A thread that handles a FOLLOW alone, step by step, does what the handler does, faults included: six
-- steps take it from the search to the end.
pub follow_times-handle_follow :
    (s : Server) (message : Packet) (incoming : SocketAddress)
    → follow_times 6 s message incoming asking
      ≡ (handle_follow s message incoming >>= λ s'. ok (s', followed))
unfolding follow_times advance_follow handle_follow follow_user
follow_times-handle_follow s message incoming = elim (Result-cases (from_c_array message.payload)) [
  | inr (f, e) ↦ rw e refl
  | inl (name, e) ↦ elim (Result-cases (get_user_name_by_address_and_ip s.sessions incoming)) [
    | inr (f, g) ↦ rw (e, g) refl
    | inl (none, g) ↦ rw (e, g) refl
    | inl (some username, g) ↦ rw (e, g) (follow_times-finding message incoming s username name)
  ]
]
