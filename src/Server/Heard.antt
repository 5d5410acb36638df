-- ===== src/Server/Heard.antt =====
-- source/server/server.cpp, `Listen`, against the histories of packets: what the loop makes of the
-- datagrams of packets, of short ones, and of any.
use piupiu.Common.{
  ℕ, ◌≤◌, ◌≡◌, refl, ap, List, [], ◌∷◌, ◌++◌, Option, none, some, Bytes, length, drop, Result, ok,
  err, ◌>>=◌, arith,
}
use piupiu.Messaging.{Packet}
use piupiu.Messaging.Memory.{IsPacket, packet_size, bytes_of, packet_at-bytes_of, length-bytes_of}
use piupiu.Sessions.{SocketAddress}
use piupiu.Replicas.Arrivals.{Arrival, datagram, failure, receive_from, length-store, receive_fits}
use piupiu.Server.{Server, message_handler}
use piupiu.Server.Pending.{pending_notification_worker}
use piupiu.Server.Reachable.{Event, receive, round, step, run}
use piupiu.Server.Listening.{
  Input, arrives, works, listen_round, dispatched, hear, hear_all, handle_dispatched,
}

-- Inputs and the history of events that they carry: a packet of 544 bytes, whatever its padding holds,
-- is one event; an error and an empty datagram are none.
pub data Carries : List (Input × ℕ) → List (Event × ℕ) → Type 0 where
  over : Carries [] []
  whole :
      {is : List (Input × ℕ)} {es : List (Event × ℕ)} (padding0 padding1 : ℕ) (p : Packet)
      (from : SocketAddress) (now : ℕ)
      → IsPacket p
      → Carries is es
      → Carries
          ((arrives (datagram (bytes_of padding0 padding1 p) from), now) ∷ is)
          ((receive p from, now) ∷ es)
  lost :
      {is : List (Input × ℕ)} {es : List (Event × ℕ)} (now : ℕ)
      → Carries is es
      → Carries ((arrives failure, now) ∷ is) es
  empty :
      {is : List (Input × ℕ)} {es : List (Event × ℕ)} (from : SocketAddress) (now : ℕ)
      → Carries is es
      → Carries ((arrives (datagram [] from), now) ∷ is) es
  worked :
      {is : List (Input × ℕ)} {es : List (Event × ℕ)} (now : ℕ)
      → Carries is es
      → Carries ((works, now) ∷ is) ((round, now) ∷ es)

-- A datagram of at most the buffer's size, and at least a packet's, starts a thread with the packet that
-- it holds.
pub listen_round-whole :
    (padding0 padding1 : ℕ) (p : Packet) (from : SocketAddress) (buffer : Bytes)
    → IsPacket p
    → packet_size ≤ length buffer
    → listen_round buffer (datagram (bytes_of padding0 padding1 p) from)
      ≡ (bytes_of padding0 padding1 p ++ drop packet_size buffer, some (p, from))
unfolding listen_round
listen_round-whole padding0 padding1 p from buffer h k =
    let size = length-bytes_of padding0 padding1 p h in
    let bytes = bytes_of padding0 padding1 p in
    let all = receive_fits buffer bytes from (omega (arith, size)) (omega (arith, size)) in
    rw (all, size) (rw (packet_at-bytes_of padding0 padding1 p (drop packet_size buffer) h) refl)

-- What the inputs leave in the buffer
abbrev pub left_in : Bytes → List (Input × ℕ) → Bytes
left_in buffer [] = buffer
left_in buffer ((arrives a, now) ∷ is) = left_in (listen_round buffer a).0 is
left_in buffer ((works, now) ∷ is) = left_in buffer is

-- A step, and then a rest that goes as a history
then_same :
    {A B : Type 0} (r : Result Server) (b : Bytes) (f : Server × Bytes → Result A)
    (g : Server → Result B) (k : B → Result A)
    → ((s' : Server) → f (s', b) ≡ (g s' >>= k))
    → ((r >>= λ s'. ok (s', b)) >>= f) ≡ ((r >>= g) >>= k)
then_same (ok s') b f g k h = h s'
then_same (err x) b f g k h = refl

length-receive_from :
    (buffer : Bytes) (a : Arrival) → length (receive_from buffer a).0 ≡ length buffer
unfolding receive_from
length-receive_from buffer (datagram bytes from) = length-store buffer bytes
length-receive_from buffer failure = refl

pub length-listen_round :
    (buffer : Bytes) (a : Arrival) → length (listen_round buffer a).0 ≡ length buffer
unfolding listen_round
length-listen_round buffer a = length-receive_from buffer a

listen_round-failure : (buffer : Bytes) → (listen_round buffer failure).1 ≡ none
unfolding listen_round receive_from dispatched
listen_round-failure buffer = refl

listen_round-empty :
    (buffer : Bytes) (from : SocketAddress) → (listen_round buffer (datagram [] from)).1 ≡ none
unfolding listen_round receive_from dispatched
listen_round-empty [] from = refl
listen_round-empty (b ∷ buffer) from = refl

pub nothing_heard :
    (s : Server) (buffer : Bytes)
    → hear_all s buffer [] ≡ (run s [] >>= λ t. ok (t, left_in buffer []))
unfolding hear_all run
nothing_heard s buffer = refl

hear_all-work :
    (s : Server) (buffer : Bytes) (now : ℕ) (is : List (Input × ℕ)) (es : List (Event × ℕ))
    → ((s' : Server) → hear_all s' buffer is ≡ (run s' es >>= λ t. ok (t, left_in buffer is)))
    → hear_all s buffer ((works, now) ∷ is)
      ≡ (run s ((round, now) ∷ es) >>= λ t. ok (t, left_in buffer is))
unfolding hear_all hear run step
hear_all-work s buffer now is es later =
    then_same (pending_notification_worker s now) buffer (λ x. hear_all x.0 x.1 is)
      (λ s'. run s' es) _ later

-- The history behind an arrival that starts a thread, or none
module _ (s : Server) (buffer : Bytes) (a : Arrival) (now : ℕ) (is : List (Input × ℕ))
    (es : List (Event × ℕ))
    (later : (s' : Server)
      → hear_all s' (listen_round buffer a).0 is
        ≡ (run s' es >>= λ t. ok (t, left_in (listen_round buffer a).0 is))) where
  hear_all-quiet :
      (listen_round buffer a).1 ≡ none
      → hear_all s buffer ((arrives a, now) ∷ is)
        ≡ (run s es >>= λ t. ok (t, left_in (listen_round buffer a).0 is))
  unfolding hear_all hear handle_dispatched
  hear_all-quiet e = rw (ap (λ heard. handle_dispatched s heard now) e) (later s)

  pub hear_all-packet :
      (p : Packet) (from : SocketAddress)
      → (listen_round buffer a).1 ≡ some (p, from)
      → hear_all s buffer ((arrives a, now) ∷ is)
        ≡ (run s ((receive p from, now) ∷ es) >>= λ t. ok (t, left_in (listen_round buffer a).0 is))
  unfolding hear_all hear run step handle_dispatched
  hear_all-packet p from e = rw (ap (λ heard. handle_dispatched s heard now) e) (
      then_same (message_handler s p from now) (listen_round buffer a).0 (λ x. hear_all x.0 x.1 is)
        (λ s'. run s' es) _ later)

-- To listen to inputs is to live through the history of the events that they carry, faults included,
-- whatever the buffer held before: an error, an empty datagram, the padding and what earlier datagrams
-- left in the buffer change nothing.
pub hear_all-run :
    {is : List (Input × ℕ)} {es : List (Event × ℕ)} (s : Server) (buffer : Bytes)
    → Carries is es
    → packet_size ≤ length buffer
    → hear_all s buffer is ≡ (run s es >>= λ s'. ok (s', left_in buffer is))
hear_all-run {is} {es} s buffer over k = nothing_heard s buffer
hear_all-run s buffer (whole {is} {es} padding0 padding1 p from now h c) k =
    let a = datagram (bytes_of padding0 padding1 p) from in
    hear_all-packet s buffer a now is es
      (λ s'.
        hear_all-run s' (listen_round buffer a).0 c (omega (arith, length-listen_round buffer a)))
      p from
      (ap (λ (t : Bytes × Option (Packet × SocketAddress)). t.1)
        (listen_round-whole padding0 padding1 p from buffer h k))
hear_all-run s buffer (lost {is} {es} now c) k =
    hear_all-quiet s buffer failure now is es
      (λ s'. hear_all-run s' _ c (omega (arith, length-listen_round buffer failure)))
      (listen_round-failure buffer)
hear_all-run s buffer (empty {is} {es} from now c) k =
    hear_all-quiet s buffer (datagram [] from) now is es
      (λ s'. hear_all-run s' _ c (omega (arith, length-listen_round buffer (datagram [] from))))
      (listen_round-empty buffer from)
hear_all-run s buffer (worked {is} {es} now c) k =
    hear_all-work s buffer now is es (λ s'. hear_all-run s' buffer c k)
