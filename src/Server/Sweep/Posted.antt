-- ===== src/Server/Sweep/Posted.antt =====
-- source/server/server.cpp: a SEND, and the rounds of the worker behind it.
use piupiu.Common.{
  ℕ, suc, ◌+◌, ◌≤◌, ◌≡◌, ◌≢◌, refl, sym, ap, ◌∙◌, inl, inr, true, List, [], ◌∷◌, ◌++◌, map, some,
  Bytes, length, get_elem?, ok, All, Member, Member-append_right, from_c_array, arith,
  length-append, subst, Bool-cases,
}
use piupiu.Messaging.Kind
use piupiu.Messaging.{Packet}
use piupiu.Sessions.{SocketAddress, SessionManager, get_user_name_by_address_and_ip}
use piupiu.Sessions.View.{sockets_of}
use piupiu.Profiles.{Profile, ProfileManager, get_profile_by_name}
use piupiu.Server.{Server, PendingNotification, message_handler, handle_send, post_message}
use piupiu.Server.Invariant.{IsServer, max_body}
use piupiu.Server.Posting.{note, notify_lem, handle_send_lem}
use piupiu.Server.Reachable.{Event, receive, run}
use piupiu.Server.Sends.Turns.{IsDelivered}
use piupiu.Server.Sweep.{has_recipient, reaching, rounds, some_socket-true, rounds_deliver}

-- A notification whose recipient has a socket is among those that go.
All-reaching :
    (P : PendingNotification → Type 0) (m : ProfileManager) (sm : SessionManager)
    (n : PendingNotification) (ns : List PendingNotification)
    → Member n ns
    → has_recipient m sm n ≡ true
    → All P (reaching m sm ns)
    → P n
unfolding reaching
All-reaching P m sm n [] member there all = elim member [ ]
All-reaching P m sm n (x ∷ ns) (inl here) there all =
    let same_one : has_recipient m sm x ≡ true =
      subst (λ y. has_recipient m sm y ≡ true) here there in
    subst P (sym here) ((rw same_one at all).0)
All-reaching P m sm n (x ∷ ns) (inr later) there all = elim (Bool-cases (has_recipient m sm x)) [
  | inl e ↦ All-reaching P m sm n ns later there ((rw e at all).1)
  | inr e ↦ All-reaching P m sm n ns later there (rw e at all)
]

Member-note :
    (user body : Bytes) (f : ℕ) (fs : List ℕ)
    → Member f fs
    → Member (note user body f) (map (note user body) fs)
Member-note user body f [] member = elim member [ ]
Member-note user body f (g ∷ fs) (inl here) = inl (ap (note user body) here)
Member-note user body f (g ∷ fs) (inr later) = inr (Member-note user body f fs later)

length-notes : (user body : Bytes) (fs : List ℕ) → length (map (note user body) fs) ≡ length fs
length-notes user body [] = refl
length-notes user body (f ∷ fs) = ap suc (length-notes user body fs)

message_handler-handle_send :
    (s : Server) (message : Packet) (incoming : SocketAddress) (now : ℕ)
    → message.type ≡ Kind.send_cmd
    → message_handler s message incoming now ≡ handle_send s message incoming
unfolding message_handler
message_handler-handle_send s message incoming now type = ground (arith, type)

handle_send-posted :
    (s : Server) (message : Packet) (incoming : SocketAddress) (body user : Bytes) (i : ℕ)
    (p : Profile)
    → from_c_array message.payload ≡ ok body
    → get_user_name_by_address_and_ip s.sessions incoming ≡ ok (some user)
    → get_profile_by_name s.profiles user ≡ some i
    → get_elem? s.profiles.profiles i ≡ some p
    → handle_send s message incoming
      ≡ ok (record s {
        notification_queue = s.notification_queue ++ map (note user body) p.followers;
      })
unfolding handle_send post_message
handle_send-posted s message incoming body user i p named asked found stored =
    ground (arith, asked, found, stored, notify_lem user body message p.followers named)

-- A SEND of at most 128 bytes in a packet of its type, by a user who is known at its address, on a
-- server under its invariant with an open descriptor, and then as many rounds of the worker as there
-- are notifications, those in the queue before it included: none fails, the invariant holds, and for
-- each follower of the user who has a socket a notification of the message has been sent to every
-- socket of his.
pub post_reaches :
    (s : Server) (message : Packet) (incoming : SocketAddress) (body user : Bytes) (i : ℕ)
    (p : Profile) (now : ℕ) (times : List ℕ)
    → IsServer s
    → s.socket.descriptor ≡ true
    → message.type ≡ Kind.send_cmd
    → from_c_array message.payload ≡ ok body
    → length body ≤ max_body
    → get_user_name_by_address_and_ip s.sessions incoming ≡ ok (some user)
    → get_profile_by_name s.profiles user ≡ some i
    → get_elem? s.profiles.profiles i ≡ some p
    → length times ≡ length s.notification_queue + length p.followers
    → (s' : Server) × (run s ((receive message incoming, now) ∷ rounds times) ≡ ok s')
      × IsServer s'
      × ((f : ℕ) (q : Profile)
          → Member f p.followers
          → get_elem? s.profiles.profiles f ≡ some q
          → sockets_of s.sessions q.handle ≢ []
          → IsDelivered s' (note user body f))
unfolding run piupiu.Server.Reachable.step
post_reaches s message incoming body user i p now times v can_send type named short asked found
      stored count =
    let notes = map (note user body) p.followers in
    let posted : Server = record s { notification_queue = s.notification_queue ++ notes } in
    let (s1, ran, kept, _) = handle_send_lem s message incoming body v named short in
    let computed = handle_send-posted s message incoming body user i p named asked found stored in
    let one : s1 ≡ posted = cc (ran, computed) in
    let (s', later, server, profiles, sessions, queue, told) =
      rounds_deliver posted times (subst IsServer one kept) can_send (
        omega (
          arith,
          count,
          length-append s.notification_queue notes,
          length-notes user body p.followers,
        )) in
    (
      s',
      rw (message_handler-handle_send s message incoming now type ∙ computed) later,
      server,
      λ f q follows at_f some_socket.
          All-reaching (IsDelivered s') s.profiles s.sessions (note user body f)
            (s.notification_queue ++ notes)
            (Member-append_right (note user body f) s.notification_queue notes
              (Member-note user body f p.followers follows))
            (rw (has_recipient, at_f)
              (some_socket-true (sockets_of s.sessions q.handle) some_socket))
            told,
    )
