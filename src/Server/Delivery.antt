-- ===== src/Server/Delivery.antt =====
-- source/server/server.cpp: what a round of the notification worker sends, and what stays queued.
use piupiu.Common.{
  ℕ, ◌≡◌, refl, sym, ap, ◌∙◌, inl, inr, true, false, List, [], ◌∷◌, ◌++◌, some, length, get_elem?,
  get_elem?_of_lt, ◌≢◌, ok, All, All-append, arith, codes, Bool-cases, from_c_array, ltb,
}
use piupiu.Messaging.Kind
use piupiu.Messaging.{Packet, next_seqn, notification_text, type_to_str}
use piupiu.Messaging.Payload.{make_notification_reads}
use piupiu.Sessions.{SocketAddress}
use piupiu.Sessions.View.{sockets_of, sockets_of-linked}
use piupiu.Profiles.{Profile, session_sockets}
use piupiu.Replicas.{Datagram, Socket}
use piupiu.Replicas.Broadcast.{
  after_sending, send_lem, after_sending-append, after_sending-nil, IsNamed,
}
use piupiu.Server.{Server, PendingNotification}
use piupiu.Server.Pending.{deliver, pending_notification_worker}
use piupiu.Server.Invariant.{IsServer, IsDeliverable}

-- The datagrams of one notification: one to each socket, in order, a NOTIFICATION whose payload reads
-- as the sender's name and the message, under the numbers that follow.
pub data Notices (n : PendingNotification)
    : ℕ → List SocketAddress → List Datagram → ℕ → Type 0 where
  done : (last_seqn : ℕ) → Notices n last_seqn [] [] last_seqn
  notice :
      {last_seqn final : ℕ} {a : SocketAddress} {rest : List SocketAddress} {ds : List Datagram}
      (p : Packet)
      → p.type ≡ Kind.notification
      → p.seqn ≡ next_seqn (next_seqn last_seqn)
      → from_c_array p.payload ≡ ok (notification_text n.body n.sender_username)
      → Notices n (next_seqn last_seqn) rest ds final
      → Notices n last_seqn (a ∷ rest) (record { to = a; packet = p } ∷ ds) final

deliver_lem :
    (n : PendingNotification) (sockets : List SocketAddress) (count last_seqn now : ℕ) (s : Socket)
    → IsDeliverable count n
    → (final : ℕ) × (ds : List Datagram) × (deliver n sockets last_seqn now s
        ≡ ok (final, after_sending s ds))
      × Notices n last_seqn sockets ds final
unfolding deliver type_to_str
deliver_lem n [] count last_seqn now s d =
    (last_seqn, [], ap (λ t. ok (last_seqn, t)) (sym (after_sending-nil s)), done last_seqn)
deliver_lem n (a ∷ rest) count last_seqn now s d =
    let (p, made, kind, number, field, reads) =
      make_notification_reads (next_seqn last_seqn) now n.body n.sender_username d.2 d.1
        (omega arith) in
    let named : IsNamed p.type = rw kind (codes "PACKET_NOTIFICATION", refl) in
    let one : Datagram = record { to = a; packet = p } in
    let (final, ds, ran, notices) =
      deliver_lem n rest count (next_seqn last_seqn) now (after_sending s (one ∷ [])) d in
    (
      final,
      one ∷ ds,
      rw (made, send_lem s a p named, ran)
          (ap (λ t. ok (final, t)) (after_sending-append s (one ∷ []) ds)),
      notice p kind number reads notices,
    )

-- What one round of the worker makes of a server whose queue starts with `n`.
pub data WorkOutcome (s : Server) (n : PendingNotification) (rest : List PendingNotification)
    (s' : Server) : Type 0 where
  delivered :
      (p : Profile) (ds : List Datagram) (final : ℕ)
      → get_elem? s.profiles.profiles n.recipient ≡ some p
      → sockets_of s.sessions p.handle ≢ []
      → Notices n s.last_seqn (sockets_of s.sessions p.handle) ds final
      → s' ≡ record s {
        notification_queue = rest;
        last_seqn = final;
        socket = after_sending s.socket ds;
      }
      → WorkOutcome s n rest s'
  postponed :
      (p : Profile)
      → get_elem? s.profiles.profiles n.recipient ≡ some p
      → sockets_of s.sessions p.handle ≡ []
      → s' ≡ record s { notification_queue = rest ++ n ∷ [] }
      → WorkOutcome s n rest s'

pub queue-IsServer :
    (s : Server) (queue : List PendingNotification) (last_seqn : ℕ) (socket : Socket)
    → IsServer s
    → All (IsDeliverable (length s.profiles.profiles)) queue
    → IsServer (record s { notification_queue = queue; last_seqn = last_seqn; socket = socket })
queue-IsServer s queue last_seqn socket v q = record {
  store = v.store;
  valid = v.valid;
  connected = v.connected;
  owned = v.owned;
  handles = v.handles;
  queue = q;
  replica = v.replica;
}

nonempty_sockets : (l : List SocketAddress) → ltb 0 (length l) ≡ true → l ≢ []
nonempty_sockets [] h e = cc
nonempty_sockets (a ∷ l) h e = cc

empty_sockets : (l : List SocketAddress) → ltb 0 (length l) ≡ false → l ≡ []
empty_sockets [] h = refl
empty_sockets (a ∷ l) h = ground arith

-- A round of the worker never fails and keeps the invariant. The notification at the head of the
-- queue is sent to every socket of its recipient, who has one, and leaves the queue; or its recipient
-- has none, nothing is sent, and it goes to the end of the queue.
pub work_lem :
    (s : Server) (n : PendingNotification) (rest : List PendingNotification) (now : ℕ)
    → IsServer s
    → s.notification_queue ≡ n ∷ rest
    → (s' : Server) × (pending_notification_worker s now ≡ ok s')
      × IsServer s'
      × WorkOutcome s n rest s'
unfolding pending_notification_worker session_sockets
work_lem s n rest now v e =
    let waiting : All (IsDeliverable (length s.profiles.profiles)) (n ∷ rest) = rw e at v.queue in
    let (p, stored) = get_elem?_of_lt s.profiles.profiles n.recipient waiting.0.0 in
    let (x, at_x, found) = v.connected n.recipient p stored in
    let l = v.valid.linked p.handle x found in
    let sockets = sockets_of-linked s.sessions p.handle x l.session found l.stored in
    elim (Bool-cases (ltb 0 (length l.session.sockets))) [
      | inl some_socket ↦
          let (final, ds, ran, notices) =
            deliver_lem n l.session.sockets (length s.profiles.profiles) s.last_seqn now s.socket
              waiting.0 in
          (
            record s {
              notification_queue = rest;
              last_seqn = final;
              socket = after_sending s.socket ds;
            },
            ground (arith, e, stored, at_x, l.stored, some_socket, ran),
            queue-IsServer s rest final (after_sending s.socket ds) v waiting.1,
            delivered p ds final stored
                (rw sockets (nonempty_sockets l.session.sockets some_socket)) (rw sockets notices)
                refl,
          )
      | inr no_socket ↦
          let none_there = empty_sockets l.session.sockets no_socket in
          (
            record s { notification_queue = rest ++ n ∷ [] },
            ground (arith, e, stored, at_x, l.stored, no_socket),
            queue-IsServer s (rest ++ n ∷ []) s.last_seqn s.socket v
                (All-append _ rest (n ∷ []) waiting.1 (waiting.0, tt)),
            postponed p stored (sockets ∙ none_there) refl,
          )
    ]

-- With an empty queue a round changes nothing.
pub work_idle :
    (s : Server) (now : ℕ) → s.notification_queue ≡ [] → pending_notification_worker s now ≡ ok s
unfolding pending_notification_worker
work_idle s now e = ground arith
