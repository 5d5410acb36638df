-- ===== src/Replicas/Broadcast.antt =====
-- source/server/ReplicaManager.cpp: what is sent to the secondaries, and when a client is accepted.
use piupiu.Common.{
  off_end, ℕ, suc, ◌≡◌, refl, sym, ap, ◌∙◌, inl, inr, List, [], ◌∷◌, ◌++◌, none, some, Bytes,
  get_elem?, if◌then◌else◌, ◌==◌, ok, All, Bool-cases, arith,
}
use mathlib.Core.List.{append_assoc, append-nil}
use piupiu.Messaging.Kind
use piupiu.Messaging.{Packet, type_to_str, make_accept_conn_command, make_packet}
use piupiu.Sessions.{SocketAddress}
use piupiu.Confirmation.{ConfirmableItem, ConfirmableContainer, Buffer, push}
use piupiu.Replicas.{
  Datagram, Socket, send, Peer, get_socket_address, ReplicaManager, get_secondary_replicas,
  send_to_peers, seqn_at, messages_for, broadcast_to_secondaries, on_confirmed, call_back,
}

-- The socket after datagrams were handed to sendto(): a socket with no descriptor sends none.
abbrev pub after_sending : Socket → List Datagram → Socket
after_sending s ds = if s.descriptor then record s { sent = s.sent ++ ds } else s

-- A type that `TypeToStr` knows can be sent without a fault.
abbrev pub IsNamed : ℕ → Type 0
IsNamed type = (name : Bytes) × (type_to_str type ≡ ok name)

pub send_lem :
    (s : Socket) (to : SocketAddress) (p : Packet)
    → IsNamed p.type
    → send s to p ≡ ok (after_sending s (record { to = to; packet = p } ∷ []))
unfolding send
send_lem s to p (name, e) = ground (arith, e)

pub after_sending-append :
    (s : Socket) (ds es : List Datagram)
    → after_sending (after_sending s ds) es ≡ after_sending s (ds ++ es)
after_sending-append s ds es = ground (arith, append_assoc s.sent ds es)

pub after_sending-nil : (s : Socket) → after_sending s [] ≡ s
after_sending-nil s = ground (arith, append-nil s.sent)

-- What the secondaries are to get: each the message, under the next number.
unfoldable pub broadcast_plan : List Peer → ℕ → ℕ → Packet → List Datagram
broadcast_plan [] i last_seqn message = []
broadcast_plan (p ∷ ps) i last_seqn message =
    record { to = get_socket_address p; packet = record message { seqn = seqn_at last_seqn i } }
    ∷ broadcast_plan ps (suc i) last_seqn message

send_to_peers-plan :
    (ps : List Peer) (i last_seqn : ℕ) (message : Packet) (s : Socket)
    → IsNamed message.type
    → send_to_peers ps i last_seqn message s
      ≡ ok (after_sending s (broadcast_plan ps i last_seqn message))
unfolding send_to_peers broadcast_plan
send_to_peers-plan [] i last_seqn message s h = ap ok (sym (after_sending-nil s))
send_to_peers-plan (p ∷ ps) i last_seqn message s h =
    let numbered : Packet = record message { seqn = seqn_at last_seqn i } in
    let d : Datagram = record { to = get_socket_address p; packet = numbered } in
    rw (send_lem s (get_socket_address p) numbered h) (
      send_to_peers-plan ps (suc i) last_seqn message (after_sending s (d ∷ [])) h
      ∙ ap ok (after_sending-append s (d ∷ []) (broadcast_plan ps (suc i) last_seqn message)))

-- A broadcast of a primary pushes a group of three messages, advances the number by three, and sends
-- the message to each secondary, in order, under the numbers from the old one on.
pub broadcast_lem :
    (r : ReplicaManager) (b : Buffer) (message : Packet) (sender : SocketAddress) (last_seqn : ℕ)
    (s : Socket)
    → r.confirmation_buffer ≡ some b
    → IsNamed message.type
    → broadcast_to_secondaries r message sender last_seqn s
      ≡ off_end r.returns (
        record r {
          confirmation_buffer = some (push b (messages_for last_seqn message) message.seqn sender);
        },
        seqn_at last_seqn 3,
        after_sending s (broadcast_plan (get_secondary_replicas r) 0 last_seqn message),
      )
unfolding broadcast_to_secondaries
broadcast_lem r b message sender last_seqn s e h =
    ground (arith, send_to_peers-plan (get_secondary_replicas r) 0 last_seqn message s h)

-- A group holds at least one message.
abbrev pub IsHeaded : ConfirmableContainer → Type 0
IsHeaded c = (i : ConfirmableItem) × (get_elem? c.content 0 ≡ some i)

-- What the callback is to send for some groups: an acceptance to the client of each CONNECT, under
-- the number behind that of the client's own packet.
unfoldable pub acceptance : ConfirmableContainer → ConfirmableItem → ℕ → List Datagram
acceptance c i now =
    if i.item.packet.type == Kind.connect_cmd
    then record { to = c.original_host; packet = make_accept_conn_command c.original_seqn now } ∷ []
    else []

unfoldable pub acceptances : List ConfirmableContainer → ℕ → List Datagram
acceptances [] now = []
acceptances (c ∷ cs) now = elim (get_elem? c.content 0) [
  | none ↦ acceptances cs now
  | some i ↦ acceptance c i now ++ acceptances cs now
]

on_confirmed_lem :
    (c : ConfirmableContainer) (i : ConfirmableItem) (now : ℕ) (s : Socket)
    → get_elem? c.content 0 ≡ some i
    → on_confirmed c now s ≡ ok (after_sending s (acceptance c i now))
unfolding on_confirmed acceptance type_to_str make_accept_conn_command make_packet
on_confirmed_lem c i now s e = elim (Bool-cases (i.item.packet.type == Kind.connect_cmd)) [
  | inl h ↦
      rw (e, h)
        (send_lem s c.original_host (make_accept_conn_command c.original_seqn now) (_, refl))
  | inr h ↦ rw (e, h) (ap ok (sym (after_sending-nil s)))
]

pub call_back_lem :
    (cs : List ConfirmableContainer) (now : ℕ) (s : Socket)
    → All IsHeaded cs
    → call_back cs now s ≡ ok (after_sending s (acceptances cs now))
unfolding call_back acceptances
call_back_lem [] now s h = ap ok (sym (after_sending-nil s))
call_back_lem (c ∷ cs) now s ((i, e), h) =
    rw (on_confirmed_lem c i now s e, e, acceptances)
      (call_back_lem cs now (after_sending s (acceptance c i now)) h
        ∙ ap ok (after_sending-append s (acceptance c i now) (acceptances cs now)))
