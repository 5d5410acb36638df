-- ===== src/Server/Effect.antt =====
-- source/server/server.cpp: what an event does to the confirmation buffer of a primary server, and to
-- what it has sent.
use piupiu.Common.{
  ℕ, ◌≤◌, ◌≡◌, refl, sym, ap, ◌∙◌, Bool, true, false, List, [], Option, none, some, Bytes, length,
  ok, arith, from_c_array, if◌then◌else◌, ◌==◌,
}
use piupiu.Messaging.Kind
use piupiu.Messaging.{Packet}
use piupiu.Messaging.Payload.{type_to_str_named}
use piupiu.Sessions.{SocketAddress, SessionManager}
use piupiu.Profiles.{ProfileManager}
use piupiu.Confirmation.{Buffer, push, confirm}
use piupiu.Confirmation.Progress.{confirm_fires}
use piupiu.Replicas.{Datagram, ReplicaManager, get_secondary_replicas, messages_for}
use piupiu.Replicas.Broadcast.{
  after_sending, after_sending-nil, broadcast_plan, broadcast_lem, IsNamed, acceptances,
}
use piupiu.Replicas.Acceptance.{confirm_message_primary}
use piupiu.Server.{Server, handle_confirm, replicate_connect}
use piupiu.Server.Invariant.{IsServer, max_body}
use piupiu.Server.Connect.{handle_disconnect_lem}
use piupiu.Server.Follow.{handle_follow_lem}
use piupiu.Server.Posting.{handle_send_lem, handle_request_user_info_lem}
use piupiu.Server.Reachable.{Event, receive, round}
use piupiu.Server.Quiet.{follow-quiet, post-quiet}
use piupiu.Server.Dispatch.{
  Handled, connect_branch, disconnect_branch, follow_branch, send_branch, info_branch,
  confirm_branch, other_branch, handle_connect_last,
}

-- The number that an event confirms
unfoldable pub confirms : Event → Option ℕ
confirms (receive p a) = if p.type == Kind.confirm_state_change then some p.seqn else none
confirms round = none

-- Whether an event is a CONNECT
unfoldable pub is_connect : Event → Bool
is_connect (receive p a) = p.type == Kind.connect_cmd
is_connect round = false

abbrev with_buffer : Server → Buffer → ReplicaManager
with_buffer s b = record (s.replicas) { confirmation_buffer = some b }

-- What an event does to a primary with the buffer `b`: to its replicas, and to what it has sent.
pub data Effect (s : Server) (b : Buffer) (e : Event) (now : ℕ) (s' : Server) : Type 0 where
  quiet :
      (ds : List Datagram)
      → is_connect e ≡ false
      → confirms e ≡ none
      → s'.replicas ≡ s.replicas
      → s'.socket ≡ after_sending s.socket ds
      → Effect s b e now s'
  pushed :
      (message : Packet) (incoming : SocketAddress)
      → e ≡ receive message incoming
      → confirms e ≡ none
      → s'.replicas
        ≡ with_buffer s (push b (messages_for s.last_seqn message) message.seqn incoming)
      → s'.socket
        ≡ after_sending s.socket
            (broadcast_plan (get_secondary_replicas s.replicas) 0 s.last_seqn message)
      → Effect s b e now s'
  confirmed :
      (n : ℕ)
      → confirms e ≡ some n
      → s'.replicas ≡ with_buffer s (confirm b n).buffer
      → s'.socket ≡ after_sending s.socket (acceptances (confirm b n).fired now)
      → Effect s b e now s'

if-true : {A : Type 0} (t : Bool) (x y z : A) → t ≡ true → (if t then x else y) ≡ z → x ≡ z
if-true true x y z h e = e
if-true false x y z h e = cc

-- The replication of a primary pushes the group and sends the message to the secondaries.
pub replicate_connect-broadcast :
    (s : Server) (m : ProfileManager) (sm : SessionManager) (b : Buffer) (message : Packet)
    (incoming : SocketAddress) (now : ℕ) (s' : Server)
    → s.replicas.this_peer.primary ≡ true
    → s.replicas.confirmation_buffer ≡ some b
    → IsNamed message.type
    → replicate_connect (record s { profiles = m; sessions = sm }) message incoming now ≡ ok s'
    → (s'.replicas
        ≡ with_buffer s (push b (messages_for s.last_seqn message) message.seqn incoming))
      × (s'.socket
          ≡ after_sending s.socket
              (broadcast_plan (get_secondary_replicas s.replicas) 0 s.last_seqn message))
unfolding replicate_connect
replicate_connect-broadcast s m sm b message incoming now s' primary stored named e =
    let broadcast = broadcast_lem s.replicas b message incoming s.last_seqn s.socket stored named in
    let here = rw broadcast at (if-true s.replicas.this_peer.primary _ _ (ok s') primary e) in
    (ground (arith, here), ground (arith, here))

connect-pushed :
    (s : Server) (m : ProfileManager) (sm : SessionManager) (b : Buffer) (message : Packet)
    (incoming : SocketAddress) (now : ℕ) (s' : Server)
    → s.replicas.this_peer.primary ≡ true
    → s.replicas.confirmation_buffer ≡ some b
    → IsNamed message.type
    → message.type ≡ Kind.connect_cmd
    → replicate_connect (record s { profiles = m; sessions = sm }) message incoming now ≡ ok s'
    → Effect s b (receive message incoming) now s'
unfolding confirms
connect-pushed s m sm b message incoming now s' primary stored named kind e =
    let (replicas, socket) =
      replicate_connect-broadcast s m sm b message incoming now s' primary stored named e in
    pushed message incoming refl (rw kind refl) replicas socket

-- A step that leaves the replicas alone and sends nothing
unsent : (s s' : Server) → s'.socket ≡ s.socket → s'.socket ≡ after_sending s.socket []
unsent s s' e = e ∙ sym (after_sending-nil s.socket)

handle_confirm-confirmed :
    (s : Server) (b : Buffer) (message : Packet) (incoming : SocketAddress) (now : ℕ) (s' : Server)
    → IsServer s
    → s.replicas.this_peer.primary ≡ true
    → s.replicas.confirmation_buffer ≡ some b
    → message.type ≡ Kind.confirm_state_change
    → handle_confirm s message now ≡ ok s'
    → Effect s b (receive message incoming) now s'
unfolding handle_confirm confirms
handle_confirm-confirmed s b message incoming now s' v primary stored kind e =
    let (c, at_c, headed) = v.replica.buffered primary in
    let same_buffer : c ≡ b = ground (arith, at_c, stored) in
    let ran =
      confirm_message_primary s.replicas b message.seqn now s.socket primary stored
        (rw same_buffer at headed) in
    let here = rw ran at e in
    confirmed message.seqn (rw kind refl) (ground (arith, here))
      (ground (arith, here, confirm_fires b message.seqn))

-- Under the invariant of a primary a packet that returned had one of the three effects.
pub message_handler-Effect :
    (s : Server) (b : Buffer) (message : Packet) (incoming : SocketAddress) (now : ℕ) (text : Bytes)
    (s' : Server)
    → IsServer s
    → s.replicas.this_peer.primary ≡ true
    → s.replicas.confirmation_buffer ≡ some b
    → from_c_array message.payload ≡ ok text
    → message.type ≤ Kind.confirm_state_change
    → (message.type ≡ Kind.send_cmd → length text ≤ max_body)
    → Handled s message incoming now s'
    → Effect s b (receive message incoming) now s'
unfolding confirms is_connect
message_handler-Effect s b message incoming now text s' v primary stored named kind body
      (connect_branch t e) =
    handle_connect_last s message incoming now s'
      (λ m sm.
        connect-pushed s m sm b message incoming now s' primary stored
          (type_to_str_named message.type kind (omega (arith, t))) t)
      e
message_handler-Effect s b message incoming now text s' v primary stored named kind body
      (disconnect_branch t e) =
    let (s2, ran, kept, d) = handle_disconnect_lem s message incoming text v named in
    let one : s2 ≡ s' = ground (arith, ran, e) in
    quiet [] (rw t refl) (rw t refl) (rw (← one) d.replicas) (unsent s s' (rw (← one) d.socket))
message_handler-Effect s b message incoming now text s' v primary stored named kind body
      (follow_branch t e) =
    let (s2, ran, kept, outcome) = handle_follow_lem s message incoming text v named in
    let one : s2 ≡ s' = ground (arith, ran, e) in
    let (replicas, socket) = follow-quiet s s2 incoming text outcome in
    quiet [] (rw t refl) (rw t refl) (rw (← one) replicas) (unsent s s' (rw (← one) socket))
message_handler-Effect s b message incoming now text s' v primary stored named kind body
      (send_branch t e) =
    let (s2, ran, kept, outcome) = handle_send_lem s message incoming text v named (body t) in
    let one : s2 ≡ s' = ground (arith, ran, e) in
    let (replicas, socket) = post-quiet s s2 incoming text outcome in
    quiet [] (rw t refl) (rw t refl) (rw (← one) replicas) (unsent s s' (rw (← one) socket))
message_handler-Effect s b message incoming now text s' v primary stored named kind body
      (info_branch t e) =
    let ran = handle_request_user_info_lem s incoming v in
    let one : s ≡ s' = ground (arith, ran, e) in
    quiet [] (rw t refl) (rw t refl) (ap (λ (x : Server). x.replicas) (sym one))
      (unsent s s' (ap (λ (x : Server). x.socket) (sym one)))
message_handler-Effect s b message incoming now text s' v primary stored named kind body
      (confirm_branch t e) =
    handle_confirm-confirmed s b message incoming now s' v primary stored t e
message_handler-Effect s b message incoming now text s' v primary stored named kind body
      (other_branch u t e) =
    quiet [] (ground (arith, u)) (ground (arith, t)) (ap (λ (x : Server). x.replicas) e)
      (unsent s s' (ap (λ (x : Server). x.socket) e))
