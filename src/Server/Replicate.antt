-- ===== src/Server/Replicate.antt =====
-- source/server/server.cpp, the replication at the end of CONNECT, and CONFIRM_STATE_CHANGE.
use piupiu.Common.{
  false, err, no_value, ◌∙◌, true, ℕ, ◌≡◌, refl, inl, inr, [], ◌∷◌, some, ok, All, arith,
  Bool-cases,
}
use piupiu.Messaging.{Packet, make_confirm_state_change_message}
use piupiu.Sessions.{SocketAddress}
use piupiu.Confirmation.{Buffer, confirm, push}
use piupiu.Confirmation.Progress.{complete}
use piupiu.Replicas.{
  Socket, get_socket_address, ReplicaManager, get_secondary_replicas, seqn_at, messages_for,
  confirm_message,
}
use piupiu.Replicas.Broadcast.{
  after_sending, IsNamed, broadcast_plan, broadcast_lem, IsHeaded, acceptances,
}
use piupiu.Replicas.Acceptance.{
  confirm-IsHeaded, push-IsHeaded, confirm_message_primary, confirm_message_secondary,
}
use piupiu.Server.{Server, replicate_connect, handle_confirm}
use piupiu.Server.Invariant.{IsReplica}

-- What a step leaves of a server: everything but its replicas, its number and its socket.
pub record OnlyReplicas (s s' : Server) : Type 0 where
  pub profiles : s'.profiles ≡ s.profiles
  pub sessions : s'.sessions ≡ s.sessions
  pub queue : s'.notification_queue ≡ s.notification_queue
  pub replica : IsReplica s'.replicas
  pub returns : s'.replicas.returns ≡ s.replicas.returns

with_buffer-IsReplica :
    (r : ReplicaManager) (b : Buffer)
    → IsReplica r
    → All IsHeaded b
    → IsReplica (record r { confirmation_buffer = some b })
with_buffer-IsReplica r b v h = record {
  buffered = λ e. (b, refl, h);
  attached = λ e. v.attached e;
}

-- `ConfirmMessage` does not fail, in a build where a function that flows off its end returns.
pub confirm_message_total :
    (r : ReplicaManager) (seqn now : ℕ) (socket : Socket)
    → IsReplica r
    → r.returns ≡ true
    → (r' : ReplicaManager) × (socket' : Socket) × (confirm_message r seqn now socket
        ≡ ok (r', socket'))
      × IsReplica r'
      × (r'.returns ≡ r.returns)
confirm_message_total r seqn now socket v on = elim (Bool-cases r.this_peer.primary) [
  | inl e ↦
      let (b, stored, headed) = v.buffered e in
      (
        record r { confirmation_buffer = some (confirm b seqn).buffer },
        after_sending socket (acceptances (complete (confirm b seqn).buffer) now),
        confirm_message_primary r b seqn now socket e stored headed ∙ rw on refl,
        with_buffer-IsReplica r (confirm b seqn).buffer v (confirm-IsHeaded b seqn headed).0,
        refl,
      )
  | inr e ↦
      let (p, found) = v.attached e in
      (
        r,
        after_sending socket (
            record {
              to = get_socket_address p;
              packet = make_confirm_state_change_message seqn now;
            }
            ∷ []),
        confirm_message_secondary r seqn now socket p e found ∙ rw on refl,
        v,
        refl,
      )
]

confirm_message_flows_off :
    (r : ReplicaManager) (seqn now : ℕ) (socket : Socket)
    → IsReplica r
    → r.returns ≡ false
    → confirm_message r seqn now socket ≡ err no_value
confirm_message_flows_off r seqn now socket v off = elim (Bool-cases r.this_peer.primary) [
  | inl e ↦
      let (b, stored, headed) = v.buffered e in
      confirm_message_primary r b seqn now socket e stored headed ∙ rw off refl
  | inr e ↦
      let (p, found) = v.attached e in
      confirm_message_secondary r seqn now socket p e found ∙ rw off refl
]

-- The end of a CONNECT does not fail, for a message of a type that has a name.
pub replicate_connect_total :
    (s : Server) (message : Packet) (incoming : SocketAddress) (now : ℕ)
    → IsReplica s.replicas
    → IsNamed message.type
    → s.replicas.returns ≡ true
    → (s' : Server) × (replicate_connect s message incoming now ≡ ok s') × OnlyReplicas s s'
unfolding replicate_connect
replicate_connect_total s message incoming now v h on =
    elim (Bool-cases s.replicas.this_peer.primary) [
      | inl e ↦
          let (b, stored, headed) = v.buffered e in
          let pushed = push b (messages_for s.last_seqn message) message.seqn incoming in
          let r' : ReplicaManager = record (s.replicas) { confirmation_buffer = some pushed } in
          (
            record s {
              replicas = r';
              last_seqn = seqn_at s.last_seqn 3;
              socket =
                  after_sending s.socket
                    (broadcast_plan (get_secondary_replicas s.replicas) 0 s.last_seqn message);
            },
            ground (
              arith,
              on,
              broadcast_lem s.replicas b message incoming s.last_seqn s.socket stored h,
            ),
            record {
              profiles = refl;
              sessions = refl;
              queue = refl;
              replica =
                  with_buffer-IsReplica s.replicas pushed v
                    (push-IsHeaded b s.last_seqn message.seqn message incoming headed);
              returns = refl;
            },
          )
      | inr e ↦
          let (r', socket', ran, kept, same_build) =
            confirm_message_total s.replicas message.seqn now s.socket v on in
          (
            record s { replicas = r'; socket = socket' },
            ground (arith, ran),
            record {
              profiles = refl;
              sessions = refl;
              queue = refl;
              replica = kept;
              returns = same_build;
            },
          )
    ]

pub handle_confirm_total :
    (s : Server) (message : Packet) (now : ℕ)
    → IsReplica s.replicas
    → s.replicas.returns ≡ true
    → (s' : Server) × (handle_confirm s message now ≡ ok s') × OnlyReplicas s s'
unfolding handle_confirm
handle_confirm_total s message now v on =
    let (r', socket', ran, kept, same_build) =
      confirm_message_total s.replicas message.seqn now s.socket v on in
    (
      record s { replicas = r'; socket = socket' },
      rw ran,
      record {
        profiles = refl;
        sessions = refl;
        queue = refl;
        replica = kept;
        returns = same_build;
      },
    )

-- In a build where a function that flows off its end does not return, both fail.
pub handle_confirm_flows_off :
    (s : Server) (message : Packet) (now : ℕ)
    → IsReplica s.replicas
    → s.replicas.returns ≡ false
    → handle_confirm s message now ≡ err no_value
unfolding handle_confirm
handle_confirm_flows_off s message now v off =
    rw (confirm_message_flows_off s.replicas message.seqn now s.socket v off) refl

pub replicate_connect_flows_off :
    (s : Server) (message : Packet) (incoming : SocketAddress) (now : ℕ)
    → IsReplica s.replicas
    → IsNamed message.type
    → s.replicas.returns ≡ false
    → replicate_connect s message incoming now ≡ err no_value
unfolding replicate_connect
replicate_connect_flows_off s message incoming now v h off =
    elim (Bool-cases s.replicas.this_peer.primary) [
      | inl e ↦
          let (b, stored, headed) = v.buffered e in
          ground
            (arith, off, broadcast_lem s.replicas b message incoming s.last_seqn s.socket stored h)
      | inr e ↦ ground (arith, confirm_message_flows_off s.replicas message.seqn now s.socket v off)
    ]
