-- ===== src/Server/Pending.antt =====
-- source/server/server.cpp: `PendingNotificationWorker`, one round of its loop, and `Broadcast`.
use piupiu.Common.{
  ℕ, List, [], ◌∷◌, ◌++◌, Option, length, get_elem?, ltb, if◌then◌else◌, Result, ok, ◌>>=◌, or_fail,
  dangling,
}
use piupiu.Messaging.{Packet, next_seqn, make_notification}
use piupiu.Sessions.{SocketAddress}
use piupiu.Profiles.{session_sockets, get_connected_sockets}
use piupiu.Replicas.{Socket}
use piupiu.Server.{Server, PendingNotification, reply}

-- `++lastSeqn` and a reply for each socket of the recipient
unfoldable pub deliver :
    PendingNotification → List SocketAddress → ℕ → ℕ → Socket → Result (ℕ × Socket)
deliver n [] last_seqn now s = ok (last_seqn, s)
deliver n (a ∷ rest) last_seqn now s = do
  packet ← make_notification (next_seqn last_seqn) n.body n.sender_username now
  s' ← reply s a packet
  deliver n rest (next_seqn last_seqn) now s'

-- The notification at the head of the queue: delivered, or put back at the end.
unfoldable pub work : Server → PendingNotification → List PendingNotification → ℕ → Result Server
work s n rest now = do
  recipient ← or_fail (get_elem? s.profiles.profiles n.recipient) dangling
  sockets ← session_sockets s.sessions.heap recipient.session
  if ltb 0 (length sockets)
      then (do
        (last_seqn, socket) ← deliver n sockets s.last_seqn now s.socket
        ok (record s { notification_queue = rest; last_seqn = last_seqn; socket = socket }))
      else ok (record s { notification_queue = rest ++ n ∷ [] })

unfoldable pub pending_notification_worker : Server → ℕ → Result Server
unfolding work
pending_notification_worker s now = elim s.notification_queue [
  | [] ↦ ok s
  | n ∷ rest ↦ work s n rest now
]

unfoldable pub reply_all : List SocketAddress → Packet → Socket → Result Socket
reply_all [] message s = ok s
reply_all (a ∷ rest) message s = do s' ← reply s a message; reply_all rest message s'

-- `Broadcast`; `none` is the default of `exclude`, the null pointer.
unfoldable pub broadcast : Server → Packet → Option ℕ → Result Server
broadcast s message exclude = do
  sockets ← get_connected_sockets s.profiles s.sessions exclude
  socket ← reply_all sockets message s.socket
  ok (record s { socket = socket })
