-- ===== src/Replicas.antt =====
-- source/server/ReplicaManager.hpp, ReplicaManager.cpp and Socket.cpp; `Receive` stands in Arrivals.
pub mod Group
pub mod Peers
pub mod Broadcast
pub mod Acceptance
pub mod Arrivals
use piupiu.Common.{
  off_end, ℕ, suc, ◌+◌, ◌%◌, ◌^◌, ◌≡◌, Bool, true, false, ◌&&◌, List, [], ◌∷◌, ◌++◌, Option, none,
  some, Bytes, codes, same, ℤ, length, get_elem?, if◌then◌else◌, ◌==◌, Result, ok, err, ◌>>=◌,
  or_fail, dangling, out_of_range, uncaught, atoi, split_on, c_str,
}
use piupiu.Messaging.Kind
use piupiu.Messaging.{
  Packet, type_to_str, make_accept_conn_command, make_confirm_state_change_message,
}
use piupiu.Sessions.{SocketAddress}
use piupiu.Confirmation.{
  BaseMessage, ConfirmableItem, ConfirmableContainer, Buffer, Confirmed, push, confirm,
}

-- What sendto() is handed. `to` is what `Send` is given; htons() of its port, which keeps 16 bits, and
-- inet_addr() of its address are the system's.
pub record Datagram : Type 0 where
  pub to : SocketAddress
  pub packet : Packet

-- `descriptor` is false for a `socketDesc` of -1. `accepts` is the environment's: whether sendto()
-- takes a datagram. `sent` holds all that were handed to sendto(), in order.
pub record Socket : Type 0 where
  pub descriptor : Bool
  pub bound_address : Option SocketAddress
  pub accepts : Datagram → Bool
  pub sent : List Datagram

-- The constructor, on whether socket() gives a descriptor
unfoldable pub new_socket : Bool → (Datagram → Bool) → Socket
new_socket can_open accepts = record {
  descriptor = can_open;
  bound_address = none;
  accepts = accepts;
  sent = [];
}

-- `Bind` notes the address before it calls bind(), whose result it prints. It returns -1 for a
-- socket with no descriptor, and otherwise flows off its end; no caller reads what it returns.
unfoldable pub bind : Bool → Socket → Bytes → ℤ → Result Socket
bind returns s address port =
    if s.descriptor
    then off_end returns
        (record s { bound_address = some (record { address = address; port = port }) })
    else ok s

-- `Send`: after a sendto() that took the datagram it prints the type's name.
unfoldable pub send : Socket → SocketAddress → Packet → Result Socket
send s to packet =
    let d : Datagram = record { to = to; packet = packet } in
    let s' = record s { sent = s.sent ++ d ∷ [] } in
    if s.descriptor
    then (if s.accepts d then (do _ ← type_to_str packet.type; ok s') else ok s')
    else ok s

pub record Peer : Type 0 where
  pub address : Bytes
  pub port : ℤ
  pub primary : Bool

abbrev pub get_socket_address : Peer → SocketAddress
get_socket_address p = record { address = p.address; port = p.port }

-- `confirmationBuffer` is null (`none`) on a secondary replica. `returns` is the compiler's, as in
-- `off_end`.
pub record ReplicaManager : Type 0 where
  pub this_peer : Peer
  pub peers : List Peer
  pub confirmation_buffer : Option Buffer
  pub returns : Bool

-- One entry `ip:port:p` of the argument. An entry with fewer than three parts is read past its end.
unfoldable pub parse_peer : Bytes → Result Peer
parse_peer entry = do
  let parsed = split_on b':' entry
  ip ← or_fail (get_elem? parsed 0) out_of_range
  port ← or_fail (get_elem? parsed 1) out_of_range
  role ← or_fail (get_elem? parsed 2) out_of_range
  number ← atoi (c_str port)
  ok (record { address = ip; port = number; primary = same (c_str role) (codes "p") })

unfoldable pub parse_peers : List Bytes → Result (List Peer)
parse_peers [] = ok []
parse_peers (e ∷ es) = do p ← parse_peer e; ps ← parse_peers es; ok (p ∷ ps)

unfoldable pub parse_peers_argument : Bytes → Result (List Peer)
unfolding parse_peers
parse_peers_argument peers_str = parse_peers (split_on b',' peers_str)

-- The constructor.
unfoldable pub new_replica_manager : Bool → Bytes → ℤ → Bool → Bytes → Result ReplicaManager
new_replica_manager returns address port primary peer_list = do
  peers ← parse_peers_argument peer_list
  ok (record {
    this_peer = record { address = address; port = port; primary = primary };
    peers = peers;
    confirmation_buffer = if primary then some [] else none;
    returns = returns;
  })

unfoldable pub secondaries : List Peer → List Peer
secondaries [] = []
secondaries (p ∷ ps) = if p.primary then secondaries ps else p ∷ secondaries ps

unfoldable pub get_secondary_replicas : ReplicaManager → List Peer
unfolding secondaries
get_secondary_replicas r = secondaries r.peers

unfoldable pub first_primary : List Peer → Option Peer
first_primary [] = none
first_primary (p ∷ ps) = if p.primary then some p else first_primary ps

-- Nobody catches the exception of a network with no primary.
unfoldable pub get_primary_replica : ReplicaManager → Result Peer
get_primary_replica r =
    if r.this_peer.primary then ok r.this_peer else or_fail (first_primary r.peers) uncaught

-- What the callback sends for a group that is complete.
unfoldable pub on_confirmed : ConfirmableContainer → ℕ → Socket → Result Socket
on_confirmed c now s = do
  first ← or_fail (get_elem? c.content 0) out_of_range
  if first.item.packet.type == Kind.connect_cmd
      then send s c.original_host (make_accept_conn_command c.original_seqn now)
      else ok s

unfoldable pub call_back : List ConfirmableContainer → ℕ → Socket → Result Socket
call_back [] now s = ok s
call_back (c ∷ cs) now s = do s' ← on_confirmed c now s; call_back cs now s'

-- `ConfirmMessage`. It is declared to return an `int` and flows off its end on both branches.
unfoldable pub confirm_message : ReplicaManager → ℕ → ℕ → Socket → Result (ReplicaManager × Socket)
confirm_message r seqn now s =
    if r.this_peer.primary
    then (do
      buffer ← or_fail r.confirmation_buffer dangling
      let after = confirm buffer seqn
      s' ← call_back after.fired now s
      off_end r.returns (record r { confirmation_buffer = some after.buffer }, s'))
    else (do
      primary ← get_primary_replica r
      s' ← send s (get_socket_address primary) (make_confirm_state_change_message seqn now)
      off_end r.returns (r, s'))

-- `lastSeqn + k` on uint64_t
unfoldable pub seqn_at : ℕ → ℕ → ℕ
seqn_at last_seqn k = (last_seqn + k) % 2 ^ 64

-- The loop over the secondaries from number `i` on: each gets the message under its own number.
unfoldable pub send_to_peers : List Peer → ℕ → ℕ → Packet → Socket → Result Socket
send_to_peers [] i last_seqn message s = ok s
send_to_peers (p ∷ ps) i last_seqn message s = do
  s' ← send s (get_socket_address p) (record message { seqn = seqn_at last_seqn i })
  send_to_peers ps (suc i) last_seqn message s'

-- The three messages that wait for a confirmation.
unfoldable pub messages_for : ℕ → Packet → List BaseMessage
messages_for last_seqn message =
    record { sequence_number = seqn_at last_seqn 0; packet = message }
    ∷ record { sequence_number = seqn_at last_seqn 1; packet = message }
    ∷ record { sequence_number = seqn_at last_seqn 2; packet = message }
    ∷ []

-- `BroadcastToSecondaries`, with the server's `lastSeqn`, which it increments three times. It is
-- declared to return an `int` and flows off its end.
unfoldable pub broadcast_to_secondaries :
    ReplicaManager → Packet → SocketAddress → ℕ → Socket → Result (ReplicaManager × ℕ × Socket)
broadcast_to_secondaries r message sender last_seqn s = do
  buffer ← or_fail r.confirmation_buffer dangling
  let pushed = push buffer (messages_for last_seqn message) message.seqn sender
  s' ← send_to_peers (get_secondary_replicas r) 0 last_seqn message s
  off_end r.returns (record r { confirmation_buffer = some pushed }, seqn_at last_seqn 3, s')
