-- ===== src/Server/Cluster.antt =====
-- source/server: a primary server with three secondaries, and a CONNECT on its way through all four.
use piupiu.Common.{
  ℕ, ◌≤◌, ◌≡◌, refl, ap, inl, inr, Bool, true, false, ◌||◌, List, [], ◌∷◌, ◌++◌, some, Bytes,
  length, ok, arith, from_c_array, if◌then◌else◌, ==_iff, All, Member,
}
use piupiu.Messaging.Kind
use piupiu.Messaging.{
  Packet, make_packet, make_accept_conn_command, make_confirm_state_change_message,
}
use piupiu.Messaging.Payload.{type_to_str_named}
use piupiu.Sessions.{SocketAddress, SessionManager}
use piupiu.Profiles.{ProfileManager}
use piupiu.Replicas.{Peer, get_socket_address, get_secondary_replicas, seqn_at, first_primary}
use piupiu.Replicas.Broadcast.{after_sending, broadcast_plan}
use piupiu.Replicas.Acceptance.{confirm_message_secondary}
use piupiu.Server.{Server, message_handler, handle_connect, replicate_connect}
use piupiu.Server.Invariant.{IsServer, max_handle}
use piupiu.Server.Connect.{Connected, handle_connect_lem}
use piupiu.Server.Reachable.{Event, receive, step, run, IsPolite}
use piupiu.Server.Dispatch.{handle_connect_last}
use piupiu.Server.Effect.{confirms, replicate_connect-broadcast}
use piupiu.Server.Accepted.{confirmed_in, is_number, connect_accepted}

-- A secondary under its invariant, with an open descriptor, in a build where a function that flows
-- off its end returns
pub record IsSecondary (t : Server) : Type 0 where
  pub valid : IsServer t
  pub secondary : t.replicas.this_peer.primary ≡ false
  pub opened : t.socket.descriptor ≡ true
  pub returns : t.replicas.returns ≡ true

-- The secondary `t` handled a CONNECT of `user`: it has him connected at the address that the packet
-- came from, and sent the confirmation of the packet's number to its primary.
pub record Confirms (t : Server) (p : Packet) (from : SocketAddress) (now : ℕ) (user : Bytes)
    (t' : Server) : Type 0 where
  pub ran : message_handler t p from now ≡ ok t'
  pub valid : IsServer t'
  pub connected : Connected t t' user from
  pub primary : Peer
  pub known : first_primary t.replicas.peers ≡ some primary
  pub sent :
      t'.socket.sent
      ≡ t.socket.sent
        ++ record {
          to = get_socket_address primary;
          packet = make_confirm_state_change_message p.seqn now;
        }
          ∷ []

if-false : {A : Type 0} (b : Bool) (x y z : A) → b ≡ false → (if b then x else y) ≡ z → y ≡ z
if-false true x y z h e = cc
if-false false x y z h e = e

replicate_connect-sent :
    (t : Server) (m : ProfileManager) (sm : SessionManager) (p : Peer) (message : Packet)
    (from : SocketAddress) (now : ℕ) (t' : Server)
    → t.replicas.this_peer.primary ≡ false
    → first_primary t.replicas.peers ≡ some p
    → replicate_connect (record t { profiles = m; sessions = sm }) message from now ≡ ok t'
    → t'.socket
      ≡ after_sending t.socket (
          record {
            to = get_socket_address p;
            packet = make_confirm_state_change_message message.seqn now;
          }
          ∷ [])
unfolding replicate_connect
replicate_connect-sent t m sm p message from now t' secondary known e =
    let confirm =
      confirm_message_secondary t.replicas message.seqn now t.socket p secondary known in
    let here = rw confirm at (if-false t.replicas.this_peer.primary _ _ (ok t') secondary e) in
    ground (arith, here)

handle_connect-sent :
    (t : Server) (p : Peer) (message : Packet) (from : SocketAddress) (now : ℕ) (t' : Server)
    → t.replicas.this_peer.primary ≡ false
    → first_primary t.replicas.peers ≡ some p
    → handle_connect t message from now ≡ ok t'
    → t'.socket
      ≡ after_sending t.socket (
          record {
            to = get_socket_address p;
            packet = make_confirm_state_change_message message.seqn now;
          }
          ∷ [])
handle_connect-sent t p message from now t' secondary known =
    handle_connect_last t message from now t'
      (λ m sm. replicate_connect-sent t m sm p message from now t' secondary known)

secondary-Confirms :
    (t : Server) (p : Packet) (from : SocketAddress) (now : ℕ) (user : Bytes)
    → IsSecondary t
    → from_c_array p.payload ≡ ok user
    → length user ≤ max_handle
    → p.type ≡ Kind.connect_cmd
    → (t' : Server) × Confirms t p from now user t'
unfolding message_handler
secondary-Confirms t p from now user v named short kind =
    let (primary, known) = v.valid.replica.attached v.secondary in
    let (t', ran, kept, connected) =
      handle_connect_lem t p from now user v.valid named short
        (type_to_str_named p.type (omega (arith, kind)) (omega (arith, kind))) v.returns in
    let socket = handle_connect-sent t primary p from now t' v.secondary known ran in
    (
      t',
      record {
        ran = rw ((==_iff p.type Kind.connect_cmd).1 kind) ran;
        valid = kept;
        connected = connected;
        primary = primary;
        known = known;
        sent = ground (arith, socket, v.opened);
      },
    )

-- The message that the secondary with number `k` is sent, and its confirmation
abbrev pub numbered : Packet → ℕ → ℕ → Packet
numbered message last_seqn k = record message { seqn = seqn_at last_seqn k }

-- A packet arrives in the history, from some address.
abbrev pub Arrives : Packet → List (Event × ℕ) → Type 0
Arrives p es = (from : SocketAddress) × (at : ℕ) × Member (receive p from, at) es

or_true : (b : Bool) → (b || true) ≡ true
or_true true = refl
or_true false = refl

confirmed_in_arrives :
    (n time at : ℕ) (from : SocketAddress) (es : List (Event × ℕ))
    → Member (receive (make_confirm_state_change_message n time) from, at) es
    → confirmed_in n es ≡ true
unfolding confirmed_in confirms make_confirm_state_change_message make_packet
confirmed_in_arrives n time at from [] h = elim h [ ]
confirmed_in_arrives n time at from (e ∷ es) (inl q) =
    let same_event : receive (make_confirm_state_change_message n time) from ≡ e.0 =
      ap (λ (t : Event × ℕ). t.0) q in
    rw (← same_event) (rw ((==_iff n n).1 refl) refl)
confirmed_in_arrives n time at from (e ∷ es) (inr h) =
    rw (confirmed_in_arrives n time at from es h) (or_true (is_number n (confirms e.0)))

-- The primary's part
primary_sends :
    (s : Server) (q0 q1 q2 : Peer) (message : Packet) (client : SocketAddress) (now : ℕ)
    (user : Bytes)
    → IsServer s
    → s.replicas.this_peer.primary ≡ true
    → s.socket.descriptor ≡ true
    → s.replicas.returns ≡ true
    → get_secondary_replicas s.replicas ≡ q0 ∷ q1 ∷ q2 ∷ []
    → from_c_array message.payload ≡ ok user
    → length user ≤ max_handle
    → message.type ≡ Kind.connect_cmd
    → (s1 : Server) × (message_handler s message client now ≡ ok s1)
      × (s1.socket.sent
          ≡ s.socket.sent
            ++ record { to = get_socket_address q0; packet = numbered message s.last_seqn 0 }
              ∷ record { to = get_socket_address q1; packet = numbered message s.last_seqn 1 }
              ∷ record { to = get_socket_address q2; packet = numbered message s.last_seqn 2 }
              ∷ [])
unfolding message_handler broadcast_plan
primary_sends s q0 q1 q2 message client now user v is_primary opened on peers named short kind =
    let (b, stored, headed) = v.replica.buffered is_primary in
    let known = type_to_str_named message.type (omega (arith, kind)) (omega (arith, kind)) in
    let (s1, ran, kept, connected) =
      handle_connect_lem s message client now user v named short known on in
    let (replicas, socket) =
      handle_connect_last s message client now s1
        (λ m sm. replicate_connect-broadcast s m sm b message client now s1 is_primary stored known)
        ran in
    (
      s1,
      rw ((==_iff message.type Kind.connect_cmd).1 kind) ran,
      ground (arith, rw peers at socket, opened),
    )

-- A CONNECT of a user, whose handle has at most 380 bytes, to a primary with three secondaries, all in a
-- build where a function that flows off its end returns. The
-- primary sends each secondary the message under a number of its own; each handles it, has the user
-- connected at the address that the datagram came from, and sends its primary a confirmation of that
-- number. In every history of polite events on the primary in which the three confirmations arrive, in
-- whatever order and with whatever else in between, the client is sent its acceptance.
pub connect_replicated :
    (s t0 t1 t2 : Server) (q0 q1 q2 : Peer) (message : Packet) (client primary : SocketAddress)
    (now now0 now1 now2 : ℕ) (user : Bytes) (es : List (Event × ℕ))
    → IsServer s
    → s.replicas.this_peer.primary ≡ true
    → s.socket.descriptor ≡ true
    → s.replicas.returns ≡ true
    → get_secondary_replicas s.replicas ≡ q0 ∷ q1 ∷ q2 ∷ []
    → IsSecondary t0
    → IsSecondary t1
    → IsSecondary t2
    → from_c_array message.payload ≡ ok user
    → length user ≤ max_handle
    → message.type ≡ Kind.connect_cmd
    → All (λ e. IsPolite e.0) es
    → Arrives (make_confirm_state_change_message (seqn_at s.last_seqn 0) now0) es
    → Arrives (make_confirm_state_change_message (seqn_at s.last_seqn 1) now1) es
    → Arrives (make_confirm_state_change_message (seqn_at s.last_seqn 2) now2) es
    → (s1 s2 t0' t1' t2' : Server) × (time : ℕ) × (message_handler s message client now ≡ ok s1)
      × (s1.socket.sent
          ≡ s.socket.sent
            ++ record { to = get_socket_address q0; packet = numbered message s.last_seqn 0 }
              ∷ record { to = get_socket_address q1; packet = numbered message s.last_seqn 1 }
              ∷ record { to = get_socket_address q2; packet = numbered message s.last_seqn 2 }
              ∷ [])
      × Confirms t0 (numbered message s.last_seqn 0) primary now0 user t0'
      × Confirms t1 (numbered message s.last_seqn 1) primary now1 user t1'
      × Confirms t2 (numbered message s.last_seqn 2) primary now2 user t2'
      × (run s1 es ≡ ok s2)
      × Member
          (record { to = client; packet = make_accept_conn_command message.seqn time })
          s2.socket.sent
unfolding run step
connect_replicated s t0 t1 t2 q0 q1 q2 message client primary now now0 now1 now2 user es v
      is_primary opened on peers v0 v1 v2 named short kind polite a0 a1 a2 =
    let (s1, handled, sent) =
      primary_sends s q0 q1 q2 message client now user v is_primary opened on peers named short
        kind in
    let (t0', c0) =
      secondary-Confirms t0 (numbered message s.last_seqn 0) primary now0 user v0 named short
        kind in
    let (t1', c1) =
      secondary-Confirms t1 (numbered message s.last_seqn 1) primary now1 user v1 named short
        kind in
    let (t2', c2) =
      secondary-Confirms t2 (numbered message s.last_seqn 2) primary now2 user v2 named short
        kind in
    let (s2, time, ran, there) =
      connect_accepted s message client now user es v is_primary opened on named short kind polite
        (confirmed_in_arrives _ now0 a0.1 a0.0 es a0.2)
        (confirmed_in_arrives _ now1 a1.1 a1.0 es a1.2)
        (confirmed_in_arrives _ now2 a2.1 a2.0 es a2.2) in
    (s1, s2, t0', t1', t2', time, handled, sent, c0, c1, c2, rw handled at ran, there)
