-- ===== src/Programs/Connected.antt =====
-- source/client/client.cpp and source/server/server.cpp: a connection from end to end, in the datagrams
-- that carry it.
use piupiu.Common.{
  ℕ, ◌^◌, ◌<◌, ◌≤◌, ◌≡◌, refl, ◌∙◌, inl, inr, true, false, List, [], ◌∷◌, ◌++◌, Bytes, length, ok,
  All, IsText, Member, arith, from_c_array,
}
use piupiu.Messaging.Kind
use piupiu.Messaging.{Packet, next_seqn, make_packet, make_accept_conn_command}
use piupiu.Messaging.Payload.{command-Carries}
use piupiu.Messaging.Memory.{IsPacket, packet_size, bytes_of}
use piupiu.Messaging.Sized.{built-IsPacket}
use piupiu.Sessions.{SocketAddress}
use piupiu.Replicas.Arrivals.{datagram}
use piupiu.Replicas.{seqn_at}
use piupiu.Server.{Server}
use piupiu.Server.Invariant.{IsServer, max_handle}
use piupiu.Server.Reachable.{Event, IsPolite}
use piupiu.Server.Accepted.{confirmed_in, connect_accepted}
use piupiu.Server.Listening.{Input, arrives, hear_all}
use piupiu.Server.Heard.{Carries, whole, left_in, hear_all-run}
use piupiu.Client.{Client, opened, connect, listen, send_message_to_server}
use piupiu.Client.Packets.{next_seqn_wide}
use piupiu.Client.Listening.{hear, hear-on, listen_round-whole}

-- What `Connect` sends
connect-sent :
    (c : Client) (now : ℕ)
    → c.has_threads ≡ false
    → IsText c.profile_handle
    → length c.profile_handle ≤ max_handle
    → (c1 : Client) × (p : Packet) × (connect c true now ≡ ok c1)
      × (c1.sent ≡ c.sent ++ p ∷ [])
      × (c1.is_listening ≡ c.is_listening)
      × IsPacket p
      × (p.type ≡ Kind.connect_cmd)
      × (from_c_array p.payload ≡ ok c.profile_handle)
unfolding connect send_message_to_server
connect-sent c now once text short =
    let n = next_seqn c.last_sent_seqn in
    let (p, made, type, seqn, len, reads) =
      (command-Carries n now c.profile_handle text (omega (arith, short))).0 in
    (
      record c {
        descriptor = opened;
        last_sent_seqn = n;
        sent = c.sent ++ p ∷ [];
        has_threads = true;
      },
      p,
      rw (made, once) refl,
      refl,
      refl,
      built-IsPacket n c.profile_handle [] now _ p (next_seqn_wide _) (inl refl) made,
      type,
      reads,
    )

accept-IsPacket : (n time : ℕ) → n < 2 ^ 64 → IsPacket (make_accept_conn_command n time)
accept-IsPacket n time wide =
    built-IsPacket n [] [] time _ (make_accept_conn_command n time) wide (inr (inr (inl refl))) refl

-- A client that listens is connected by the acceptance.
hear-accept :
    (c : Client) (memory : Bytes) (padding0 padding1 : ℕ) (n time : ℕ) (from : SocketAddress)
    (now : ℕ)
    → c.is_listening ≡ true
    → length memory ≡ packet_size
    → n < 2 ^ 64
    → (c' : Client) × (after : Bytes) × (hear c memory c.is_listening
          (datagram (bytes_of padding0 padding1 (make_accept_conn_command n time)) from)
          now
        ≡ ok (c', after, c'.is_listening))
      × (c'.connected ≡ true)
unfolding listen make_accept_conn_command make_packet
hear-accept c memory padding0 padding1 n time from now on size wide =
    let (after, kept, round) =
      listen_round-whole c memory padding0 padding1 (make_accept_conn_command n time) from now size
        (accept-IsPacket n time wide) in
    (
      record c { connected = true },
      after,
      hear-on c (record c { connected = true }) memory after c.is_listening _ now on round,
      refl,
    )

-- A client that has not connected yet, whose name has at most 380 bytes, connects to a primary under
-- its invariant, built so that a function that flows off its end returns. It sends one packet. The
-- server's loop hears its datagram, and then inputs that carry a polite history which confirms the
-- three numbers behind the server's last one, in whatever order and with whatever else in between:
-- it hands an acceptance for the client's address to sendto(). The client, when it hears the
-- datagram of that acceptance, is connected. The padding of the packets and what the buffers hold do
-- not matter.
pub connects :
    (c : Client) (s : Server) (buffer memory : Bytes) (a0 a1 b0 b1 : ℕ)
    (from server : SocketAddress) (now at later : ℕ) (is : List (Input × ℕ)) (es : List (Event × ℕ))
    → c.has_threads ≡ false
    → c.is_listening ≡ true
    → IsText c.profile_handle
    → length c.profile_handle ≤ max_handle
    → IsServer s
    → s.replicas.this_peer.primary ≡ true
    → s.socket.descriptor ≡ true
    → s.replicas.returns ≡ true
    → packet_size ≤ length buffer
    → length memory ≡ packet_size
    → Carries is es
    → All (λ e. IsPolite e.0) es
    → confirmed_in (seqn_at s.last_seqn 0) es ≡ true
    → confirmed_in (seqn_at s.last_seqn 1) es ≡ true
    → confirmed_in (seqn_at s.last_seqn 2) es ≡ true
    → (c1 c2 : Client) × (p q : Packet) × (s' : Server) × (left after : Bytes) × (connect c true now
        ≡ ok c1)
      × (c1.sent ≡ c.sent ++ p ∷ [])
      × (hear_all s buffer ((arrives (datagram (bytes_of a0 a1 p) from), at) ∷ is) ≡ ok (s', left))
      × Member (record { to = from; packet = q }) s'.socket.sent
      × (hear c1 memory c1.is_listening (datagram (bytes_of b0 b1 q) server) later
          ≡ ok (c2, after, c2.is_listening))
      × (c2.connected ≡ true)
connects c s buffer memory a0 a1 b0 b1 from server now at later is es once on text short v primary
      can_send on_returns room size carries polite h0 h1 h2 =
    let (c1, p, ran, sent, listens, fits, type, reads) = connect-sent c now once text short in
    let (s', time, lived, there) =
      connect_accepted s p from at c.profile_handle es v primary can_send on_returns reads short
        type polite h0 h1 h2 in
    let all = hear_all-run s buffer (whole a0 a1 p from at fits carries) room in
    let (c2, after, heard, connected) =
      hear-accept c1 memory b0 b1 p.seqn time server later (listens ∙ on) size fits.seqn_fits in
    (
      c1,
      c2,
      p,
      make_accept_conn_command p.seqn time,
      s',
      left_in buffer ((arrives (datagram (bytes_of a0 a1 p) from), at) ∷ is),
      after,
      ran,
      sent,
      rw lived at all,
      there,
      heard,
      connected,
    )
