-- ===== src/Server/Listening.antt =====
-- source/server/server.cpp, `Listen`: the rounds of its loop on what arrives, with the rounds of the
-- worker between them. The handler that a round starts in a thread runs to its end before the next
-- round.
use piupiu.Common.{
  ℕ, Bytes, List, [], ◌∷◌, Option, none, some, Result, ok, ◌>>=◌, ltb, if◌then◌else◌,
}
use piupiu.Messaging.{Packet}
use piupiu.Messaging.Memory.{packet_at}
use piupiu.Sessions.{SocketAddress}
use piupiu.Replicas.Arrivals.{Arrival, Received, received, failed, receive_from}
use piupiu.Server.{Server, message_handler}
use piupiu.Server.Pending.{pending_notification_worker}

-- `bufferSize`
abbrev pub buffer_size : ℕ
buffer_size = 2048

-- The packet and the address that a thread is started with, if `Receive` returned more than 0
unfoldable pub dispatched : Bytes → Received → Option (Packet × SocketAddress)
dispatched buffer (received r from) = if ltb 0 r then some (packet_at buffer, from) else none
dispatched buffer failed = none

-- One round of the loop: the buffer that it leaves, and the thread that it starts
unfoldable pub listen_round : Bytes → Arrival → Bytes × Option (Packet × SocketAddress)
unfolding dispatched
listen_round buffer a = let (after, r) = receive_from buffer a in (after, dispatched after r)

pub data Input : Type 0 where
  arrives : Arrival → Input
  works : Input

unfoldable pub handle_dispatched : Server → Option (Packet × SocketAddress) → ℕ → Result Server
handle_dispatched s none now = ok s
handle_dispatched s (some (message, incoming)) now = message_handler s message incoming now

-- One input, on the server and the buffer
unfoldable pub hear : Server → Bytes → Input → ℕ → Result (Server × Bytes)
unfolding handle_dispatched
hear s buffer (arrives a) now = do
  let (after, heard) = listen_round buffer a
  s' ← handle_dispatched s heard now
  ok (s', after)
hear s buffer works now = do s' ← pending_notification_worker s now; ok (s', buffer)

-- The inputs with their times
unfoldable pub hear_all : Server → Bytes → List (Input × ℕ) → Result (Server × Bytes)
hear_all s buffer [] = ok (s, buffer)
hear_all s buffer ((i, now) ∷ is) = do (s', after) ← hear s buffer i now; hear_all s' after is
