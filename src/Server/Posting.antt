-- ===== src/Server/Posting.antt =====
-- source/server/server.cpp: SEND and REQUEST_USER_INFO.
use piupiu.Common.{
  ℕ, ◌≤◌, ◌<◌, ◌≡◌, refl, List, [], ◌∷◌, ◌++◌, map, Option, none, some, Bytes, length, get_elem?,
  ok, All, All-append, IsText, arith, from_c_array, from_c_array_text,
}
use piupiu.Messaging.{Packet}
use piupiu.Sessions.{SocketAddress, get_user_name_by_address_and_ip}
use piupiu.Sessions.View.{sockets_of}
use piupiu.Sessions.Lookup.{Answers, first, get_user_name-Answers}
use piupiu.Profiles.{Profile, get_profile_by_name, get_connected_users}
use piupiu.Server.{
  Server, PendingNotification, notify, post_message, handle_send, user_info, user_info_text,
  handle_request_user_info,
}
use piupiu.Server.Invariant.{IsServer, IsDeliverable, max_handle, max_body}
use piupiu.Server.Register.{connected_from_total}
use piupiu.Server.Follow.{known_user}

-- The notification for one follower
abbrev pub note : Bytes → Bytes → ℕ → PendingNotification
note user body f = record { sender_username = user; body = body; recipient = f }

pub notify_lem :
    (user body : Bytes) (message : Packet) (fs : List ℕ)
    → from_c_array message.payload ≡ ok body
    → notify user message fs ≡ ok (map (note user body) fs)
unfolding notify
notify_lem user body message [] e = refl
notify_lem user body message (f ∷ fs) e = rw (e, notify_lem user body message fs e)

-- The outcome of a SEND of `body` from the address `a`.
pub data SendOutcome (s : Server) (a : SocketAddress) (body : Bytes) (s' : Server) : Type 0 where
  unauthenticated : Answers (sockets_of s.sessions) a none → s' ≡ s → SendOutcome s a body s'
  posted :
      (user : Bytes) (i : ℕ) (p : Profile)
      → Answers (sockets_of s.sessions) a (some user)
      → get_profile_by_name s.profiles user ≡ some i
      → get_elem? s.profiles.profiles i ≡ some p
      → s'
        ≡ record s { notification_queue = s.notification_queue ++ map (note user body) p.followers }
      → SendOutcome s a body s'

notes-IsDeliverable :
    (user body : Bytes) (count : ℕ) (fs : List ℕ)
    → IsText user
    → IsText body
    → length user ≤ max_handle
    → length body ≤ max_body
    → All (λ f. f < count) fs
    → All (IsDeliverable count) (map (note user body) fs)
notes-IsDeliverable user body count [] hu hb lu lb h = tt
notes-IsDeliverable user body count (f ∷ fs) hu hb lu lb h =
    ((h.0, hu, hb, lu, lb), notes-IsDeliverable user body count fs hu hb lu lb h.1)

-- A SEND of a message within the client's limit never fails and keeps the invariant. It changes
-- nothing for a sender who is not known; otherwise one notification for each follower of the sender's
-- profile, in their order, is put behind the queue.
pub handle_send_lem :
    (s : Server) (message : Packet) (incoming : SocketAddress) (body : Bytes)
    → IsServer s
    → from_c_array message.payload ≡ ok body
    → length body ≤ max_body
    → (s' : Server) × (handle_send s message incoming ≡ ok s')
      × IsServer s'
      × SendOutcome s incoming body s'
unfolding handle_send post_message
handle_send_lem s message incoming body v named short =
    let (r, asked, answer) = get_user_name-Answers s.sessions incoming v.valid in
    post_answer r asked answer
  where
    post_answer :
        (r : Option Bytes)
        → get_user_name_by_address_and_ip s.sessions incoming ≡ ok r
        → Answers (sockets_of s.sessions) incoming r
        → (s' : Server) × (handle_send s message incoming ≡ ok s')
          × IsServer s'
          × SendOutcome s incoming body s'
    post_answer none asked answer = (s, rw asked, v, unauthenticated answer refl)
    post_answer (some user) asked (first user' held least) =
        let (i, p, found, stored, owner) = known_user s user' incoming v held in
        let (text, long) = v.handles i p stored in
        let pending = map (note user' body) p.followers in
        (
          record s { notification_queue = s.notification_queue ++ pending },
          ground (arith, asked, found, stored, notify_lem user' body message p.followers named),
          record {
            store = v.store;
            valid = v.valid;
            connected = v.connected;
            owned = v.owned;
            handles = v.handles;
            queue = All-append _ s.notification_queue pending v.queue (
                notes-IsDeliverable user' body (length s.profiles.profiles) p.followers
                  (rw owner at text) (from_c_array_text message.payload body named)
                  (rw owner at long) short (v.store.pointers i p stored));
            replica = v.replica;
          },
          posted user' i p (first user' held least) found stored refl,
        )

user_info_total :
    (s : Server) (i : ℕ) (p : Profile)
    → IsServer s
    → get_elem? s.profiles.profiles i ≡ some p
    → (text : Bytes) × (user_info s i ≡ ok text)
unfolding user_info get_connected_users
user_info_total s i p v stored =
    let (users, listed) =
      connected_from_total s.sessions i 0 s.profiles.profiles v.valid v.connected in
    (user_info_text p users, rw (stored, listed))

-- A REQUEST_USER_INFO never fails, and changes nothing: the answer is built and dropped.
pub handle_request_user_info_lem :
    (s : Server) (incoming : SocketAddress)
    → IsServer s
    → handle_request_user_info s incoming ≡ ok s
unfolding handle_request_user_info
handle_request_user_info_lem s incoming v =
    let (r, asked, answer) = get_user_name-Answers s.sessions incoming v.valid in
    info_answer r asked answer
  where
    info_answer :
        (r : Option Bytes)
        → get_user_name_by_address_and_ip s.sessions incoming ≡ ok r
        → Answers (sockets_of s.sessions) incoming r
        → handle_request_user_info s incoming ≡ ok s
    info_answer none asked answer = rw asked
    info_answer (some user) asked (first user' held least) =
        let (i, p, found, stored, owner) = known_user s user' incoming v held in
        let (text, built) = user_info_total s i p v stored in ground (arith, asked, found, built)
