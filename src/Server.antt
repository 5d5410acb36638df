-- ===== src/Server.antt =====
-- source/server/server.hpp, server.cpp, PendingNotification.hpp and Notification handling. A message
-- handler and one round of the notification worker are functions from a server to a server, or to
-- the fault that ends the process. They run one at a time here; Threads, Follows and Sends take them
-- in steps. `now` is what the clock gives. Replies that the source has commented out are not sent.
pub mod Pending
pub mod Invariant
pub mod Register
pub mod Replicate
pub mod Connect
pub mod Follow
pub mod Posting
pub mod Delivery
pub mod Reachable
pub mod Restart
pub mod Effect
pub mod Watch
pub mod Accepted
pub mod Dispatch
pub mod Cluster
pub mod Threads
pub mod Race
pub mod Listening
pub mod Heard
pub mod Leftovers
pub mod Sends
pub mod Sweep
pub mod Quiet
pub mod Follows
use piupiu.Common.{
  ℕ, suc, ◌+◌, ◌≡◌, Bool, true, false, List, [], ◌∷◌, ◌++◌, Option, none, some, Bytes, codes, same,
  ℤ, length, get_elem?, ltb, if◌then◌else◌, ◌==◌, Result, ok, err, ◌>>=◌, or_fail, dangling,
  from_c_array, show_ℕ,
}
use piupiu.Messaging.Kind
use piupiu.Messaging.{Packet, type_to_str, next_seqn, make_notification}
use piupiu.Sessions.{
  SocketAddress, Session, SessionManager, start_session, end_session,
  get_user_name_by_address_and_ip, no_sessions,
}
use piupiu.Profiles.{
  SessionPointer, at, Profile, Disk, ProfileManager, get_profile_by_name, new_profile, add_follower,
  set_session, session_sockets, get_connected_users, get_connected_sockets,
}
use piupiu.Profiles.Storage.{new_profile_manager}
use piupiu.Replicas.{
  Socket, ReplicaManager, bind, send, new_replica_manager, confirm_message,
  broadcast_to_secondaries,
}

-- PendingNotification; `recipientSession` and `sentCount` are never read.
pub record PendingNotification : Type 0 where
  pub sender_username : Bytes
  pub body : Bytes
  pub recipient : ℕ

pub record Server : Type 0 where
  pub last_seqn : ℕ
  pub socket : Socket
  pub notification_queue : List PendingNotification
  pub profiles : ProfileManager
  pub sessions : SessionManager
  pub replicas : ReplicaManager

-- The constructor, on the profiles that are on the disk and its new socket, which it binds.
unfoldable pub new_server : Bool → Bytes → ℤ → Bytes → Bool → Disk → Socket → Result Server
unfolding bind
new_server returns bind_address bind_port peers_list primary disk socket = do
  profiles ← new_profile_manager disk
  replicas ← new_replica_manager returns bind_address bind_port primary peers_list
  bound ← bind returns socket bind_address bind_port
  ok (record {
    last_seqn = 0;
    socket = bound;
    notification_queue = [];
    profiles = profiles;
    sessions = no_sessions;
    replicas = replicas;
  })

-- The profile of a CONNECT: the one with the name, or a new one.
unfoldable pub profile_for : ProfileManager → Bytes → Result (ProfileManager × ℕ)
profile_for m username = elim (get_profile_by_name m username) [
  | none ↦ new_profile m username
  | some i ↦ ok (m, i)
]

-- A session that was returned is stored in the profile, and the connected users are listed.
unfoldable pub store_session :
    ProfileManager → SessionManager → ℕ → Option ℕ → Result ProfileManager
store_session m sm profile none = ok m
store_session m sm profile (some session) = do
  m' ← set_session m profile (at session)
  _ ← get_connected_users m' sm (some profile)
  ok m'

-- The end of a CONNECT: the primary broadcasts it, a secondary confirms it.
unfoldable pub replicate_connect : Server → Packet → SocketAddress → ℕ → Result Server
replicate_connect s message incoming now =
    if s.replicas.this_peer.primary
    then (do
      (r, last_seqn, socket) ←
          broadcast_to_secondaries s.replicas message incoming s.last_seqn s.socket
      ok (record s { replicas = r; last_seqn = last_seqn; socket = socket }))
    else (do
      (r, socket) ← confirm_message s.replicas message.seqn now s.socket
      ok (record s { replicas = r; socket = socket }))

unfoldable pub handle_connect : Server → Packet → SocketAddress → ℕ → Result Server
unfolding profile_for store_session
handle_connect s message incoming now = do
  username ← from_c_array message.payload
  (profiles, profile) ← profile_for s.profiles username
  p ← or_fail (get_elem? profiles.profiles profile) dangling
  (sessions, session) ← start_session s.sessions p.handle incoming
  stored ← store_session profiles sessions profile session
  replicate_connect (record s { profiles = stored; sessions = sessions }) message incoming now

unfoldable pub handle_disconnect : Server → Packet → SocketAddress → Result Server
handle_disconnect s message incoming = do
  username ← from_c_array message.payload
  elim (get_profile_by_name s.profiles username) [
    | none ↦ ok s
    | some i ↦ do
      p ← or_fail (get_elem? s.profiles.profiles i) dangling
      (sessions, ended) ← end_session s.sessions p.handle incoming
      ok (record s { sessions = sessions })
  ]

-- The user is known; nobody follows himself, or a name that no profile has.
unfoldable pub follow_user : Server → Bytes → Bytes → Result Server
follow_user s username username_to_follow =
    if same username_to_follow username
    then ok s
    else elim (get_profile_by_name s.profiles username_to_follow) [
      | none ↦ ok s
      | some i ↦ do
        (profiles, added) ← add_follower s.profiles i username true
        ok (record s { profiles = profiles })
    ]

unfoldable pub handle_follow : Server → Packet → SocketAddress → Result Server
unfolding follow_user
handle_follow s message incoming = do
  username_to_follow ← from_c_array message.payload
  user ← get_user_name_by_address_and_ip s.sessions incoming
  elim user [ none ↦ ok s | some username ↦ follow_user s username username_to_follow ]

-- One notification for each follower; the body is read anew for each.
unfoldable pub notify : Bytes → Packet → List ℕ → Result (List PendingNotification)
notify username message [] = ok []
notify username message (f ∷ fs) = do
  body ← from_c_array message.payload
  rest ← notify username message fs
  ok (record { sender_username = username; body = body; recipient = f } ∷ rest)

unfoldable pub post_message : Server → Bytes → Packet → Result Server
post_message s username message = elim (get_profile_by_name s.profiles username) [
  | none ↦ ok s
  | some i ↦ do
    p ← or_fail (get_elem? s.profiles.profiles i) dangling
    pending ← notify username message p.followers
    ok (record s { notification_queue = s.notification_queue ++ pending })
]

unfoldable pub handle_send : Server → Packet → SocketAddress → Result Server
unfolding post_message
handle_send s message incoming = do
  user ← get_user_name_by_address_and_ip s.sessions incoming
  elim user [ none ↦ ok s | some username ↦ post_message s username message ]

unfoldable pub join_users : List Bytes → Bytes
join_users [] = []
join_users (u ∷ us) = u ++ (b',' ∷ join_users us)

-- The answer to REQUEST_USER_INFO, which is built and not sent.
unfoldable pub user_info_text : Profile → List Bytes → Bytes
user_info_text p users =
    codes "\nUsername: "
    ++ (p.handle
        ++ (codes "\nFollowers: "
            ++ (show_ℕ (length p.followers)
                ++ (if ltb 0 (length users)
                    then codes "\nConnected users: \n" ++ (join_users users ++ codes "\n")
                    else codes "\nNo users connected.\n"))))

unfoldable pub user_info : Server → ℕ → Result Bytes
user_info s i = do
  p ← or_fail (get_elem? s.profiles.profiles i) dangling
  users ← get_connected_users s.profiles s.sessions (some i)
  ok (user_info_text p users)

unfoldable pub handle_request_user_info : Server → SocketAddress → Result Server
handle_request_user_info s incoming = do
  user ← get_user_name_by_address_and_ip s.sessions incoming
  elim user [
    | none ↦ ok s
    | some username ↦ elim (get_profile_by_name s.profiles username) [
      | none ↦ ok s
      | some i ↦ do _ ← user_info s i; ok s
    ]
  ]

unfoldable pub handle_confirm : Server → Packet → ℕ → Result Server
handle_confirm s message now = do
  (r, socket) ← confirm_message s.replicas message.seqn now s.socket
  ok (record s { replicas = r; socket = socket })

-- The default branch prints the name of the type.
unfoldable pub message_handler : Server → Packet → SocketAddress → ℕ → Result Server
message_handler s message incoming now =
    if message.type == Kind.connect_cmd
    then handle_connect s message incoming now
    else if message.type == Kind.disconnect_cmd
    then handle_disconnect s message incoming
    else if message.type == Kind.follow_cmd
    then handle_follow s message incoming
    else if message.type == Kind.send_cmd
    then handle_send s message incoming
    else if message.type == Kind.request_user_info
    then handle_request_user_info s incoming
    else if message.type == Kind.confirm_state_change
    then handle_confirm s message now
    else (do _ ← type_to_str message.type; ok s)

-- `Reply` prints what `Send` returns.
abbrev pub reply : Socket → SocketAddress → Packet → Result Socket
reply = send
