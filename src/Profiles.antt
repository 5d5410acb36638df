-- ===== src/Profiles.antt =====
-- source/server/Profile.hpp, Profile.cpp, ProfileManager.hpp and ProfileManager.cpp. A `Profile*` is
-- the number of a profile in `profiles`: each `new Profile` is pushed there at once, in order, and
-- none is ever removed. The file profiles.dat is `disk`.
pub mod Invariant
pub mod Updates
pub mod Storage
pub mod Loading
pub mod RoundTrip
pub mod Edges
pub mod Reload
use piupiu.Common.{
  ℕ, suc, ◌+◌, ◌≡◌, Bool, true, false, ◌&&◌, not, List, [], ◌∷◌, ◌++◌, Option, none, some, Bytes,
  same, length, get_elem?, set, ltb, ◌==◌, if◌then◌else◌, Result, ok, err, ◌>>=◌, or_fail, dangling,
  indeterminate, no_value, show_ℕ,
}
use piupiu.Sessions.{Session, SessionManager, SocketAddress}

-- The `session` of a profile. The constructor with no session leaves it indeterminate.
pub data SessionPointer : Type 0 where
  unset : SessionPointer
  null : SessionPointer
  at : ℕ → SessionPointer

pub record Profile : Type 0 where
  pub handle : Bytes
  pub followers : List ℕ
  pub session : SessionPointer

-- profiles.dat: its bytes, if it is there, and whether it can be opened for writing
pub record Disk : Type 0 where
  pub content : Option Bytes
  pub writable : Bool

pub record ProfileManager : Type 0 where
  pub profiles : List Profile
  pub disk : Disk

unfoldable pub find_profile : Bytes → ℕ → List Profile → Option ℕ
find_profile user_handle i [] = none
find_profile user_handle i (p ∷ ps) =
    if same p.handle user_handle then some i else find_profile user_handle (suc i) ps

-- `none` is the null pointer.
unfoldable pub get_profile_by_name : ProfileManager → Bytes → Option ℕ
get_profile_by_name m user_handle = find_profile user_handle 0 m.profiles

unfoldable pub render_handles : List Profile → Bytes
render_handles [] = []
render_handles (p ∷ ps) = p.handle ++ (b'\n' ∷ render_handles ps)

unfoldable pub render_edges : List Profile → Bytes → List ℕ → Result Bytes
render_edges all handle [] = ok []
render_edges all handle (f ∷ fs) = do
  follower ← or_fail (get_elem? all f) dangling
  rest ← render_edges all handle fs
  ok (handle ++ (b',' ∷ (follower.handle ++ (b'\n' ∷ rest))))

unfoldable pub render_all_edges : List Profile → List Profile → Result Bytes
render_all_edges all [] = ok []
render_all_edges all (p ∷ ps) = do
  here ← render_edges all p.handle p.followers
  rest ← render_all_edges all ps
  ok (here ++ rest)

-- What `Sync` writes.
unfoldable pub render : List Profile → Result Bytes
render ps = do
  edges ← render_all_edges ps ps
  ok (show_ℕ (length ps) ++ (b'\n' ∷ (render_handles ps ++ edges)))

-- A file that cannot be opened is left alone.
unfoldable pub sync : ProfileManager → Result ProfileManager
sync m =
    if m.disk.writable
    then (do
      text ← render m.profiles
      ok (record m { disk = record { content = some text; writable = true } }))
    else ok m

-- `NewProfile(handle)`: the new profile is the last one.
unfoldable pub new_profile : ProfileManager → Bytes → Result (ProfileManager × ℕ)
new_profile m handle = do
  let p : Profile = record { handle = handle; followers = []; session = unset }
  synced ← sync (record m { profiles = m.profiles ++ p ∷ [] })
  ok (synced, length m.profiles)

-- `NewProfile(handle, session)`
unfoldable pub new_profile_with_session :
    ProfileManager → Bytes → SessionPointer → Result (ProfileManager × ℕ)
new_profile_with_session m handle session = do
  let p : Profile = record { handle = handle; followers = []; session = session }
  synced ← sync (record m { profiles = m.profiles ++ p ∷ [] })
  ok (synced, length m.profiles)

-- `std::find` for a pointer
unfoldable pub has_pointer : ℕ → List ℕ → Bool
has_pointer p [] = false
has_pointer p (q ∷ qs) = if q == p then true else has_pointer p qs

unfoldable pub push_follower : ProfileManager → ℕ → Profile → ℕ → ProfileManager
push_follower m this p follower = record m {
  profiles = set m.profiles this (record p { followers = p.followers ++ follower ∷ [] });
}

-- `AddFollower` on the profile `this`. For a handle that no profile has it flows off its end.
unfoldable pub add_follower : ProfileManager → ℕ → Bytes → Bool → Result (ProfileManager × ℕ)
add_follower m this user_handle save_disk = do
  p ← or_fail (get_elem? m.profiles this) dangling
  follower ← or_fail (get_profile_by_name m user_handle) no_value
  let pushed = push_follower m this p follower
  let added = (if save_disk then sync pushed else ok pushed) >>= λ saved. ok (saved, 1)
  if has_pointer follower p.followers then ok (m, 0) else added

unfoldable pub set_session : ProfileManager → ℕ → SessionPointer → Result ProfileManager
set_session m this session = do
  p ← or_fail (get_elem? m.profiles this) dangling
  ok (record m { profiles = set m.profiles this (record p { session = session }) })

-- `session->sockets` where the session is there, as in `session && session->sockets.size() > 0`
unfoldable pub session_sockets : List Session → SessionPointer → Result (List SocketAddress)
session_sockets heap unset = err indeterminate
session_sockets heap null = ok []
session_sockets heap (at s) = do x ← or_fail (get_elem? heap s) dangling; ok x.sockets

-- The loops over `profiles` from number `i` on. `none` excludes everybody: `exclude && …`.
unfoldable pub connected_from : List Session → Option ℕ → ℕ → List Profile → Result (List Bytes)
connected_from heap none i ps = ok []
connected_from heap (some exclude) i [] = ok []
connected_from heap (some exclude) i (p ∷ ps) =
    let rest = connected_from heap (some exclude) (suc i) ps in
    if i == exclude then rest else (do
      sockets ← session_sockets heap p.session
      users ← rest
      ok (if ltb 0 (length sockets) then p.handle ∷ users else users))

unfoldable pub get_connected_users :
    ProfileManager → SessionManager → Option ℕ → Result (List Bytes)
get_connected_users m s exclude = connected_from s.heap exclude 0 m.profiles

unfoldable pub sockets_from :
    List Session → Option ℕ → ℕ → List Profile → Result (List SocketAddress)
sockets_from heap none i ps = ok []
sockets_from heap (some exclude) i [] = ok []
sockets_from heap (some exclude) i (p ∷ ps) =
    let rest = sockets_from heap (some exclude) (suc i) ps in
    if i == exclude
    then rest
    else (do sockets ← session_sockets heap p.session; more ← rest; ok (sockets ++ more))

unfoldable pub get_connected_sockets :
    ProfileManager → SessionManager → Option ℕ → Result (List SocketAddress)
get_connected_sockets m s exclude = sockets_from s.heap exclude 0 m.profiles
