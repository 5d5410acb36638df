-- ===== src/Tests/ClusterRuns.antt =====
-- source/server: a primary with three secondaries on concrete inputs.
use piupiu.Common.{
  ℕ, ◌≡◌, refl, inl, inr, Bool, true, false, List, [], ◌∷◌, none, some, Bytes, codes, pos, All,
  Member, ok, arith, from_c_array,
}
use piupiu.Messaging.Kind
use piupiu.Messaging.{
  Packet, make_packet, make_accept_conn_command, make_confirm_state_change_message,
}
use piupiu.Sessions.{no_sessions}
use piupiu.Replicas.{
  Peer, ReplicaManager, get_socket_address, seqn_at, get_secondary_replicas, secondaries,
  first_primary,
}
use piupiu.Server.{Server, message_handler}
use piupiu.Server.Invariant.{IsServer}
use piupiu.Server.Reachable.{Event, receive, round, run, IsPolite, packet, worker, nobody-IsServer}
use piupiu.Server.Cluster.{IsSecondary, Confirms, numbered, connect_replicated}
use piupiu.Tests.{alice, home, office, open_socket, named}
use piupiu.Tests

abbrev pub peer : Bytes → Bool → Peer
peer address primary = record { address = address; port = pos 5000; primary = primary }

abbrev pub first : Peer
first = peer (codes "10.0.0.1") true

abbrev pub second : Peer
second = peer (codes "10.0.0.2") false

abbrev pub third : Peer
third = peer (codes "10.0.0.3") false

abbrev pub fourth : Peer
fourth = peer (codes "10.0.0.4") false

abbrev pub server : ReplicaManager → Server
server replicas = record {
  last_seqn = 0;
  socket = open_socket;
  notification_queue = [];
  profiles = record { profiles = []; disk = record { content = none; writable = true } };
  sessions = no_sessions;
  replicas = replicas;
}

abbrev pub leader : Server
leader = server (record {
  this_peer = first;
  peers = second ∷ third ∷ fourth ∷ [];
  confirmation_buffer = some [];
  returns = true;
})

abbrev follower : Peer → Server
follower this =
    server
      (record { this_peer = this; peers = first ∷ []; confirmation_buffer = none; returns = true })

pub leader-IsServer : IsServer leader
leader-IsServer =
    nobody-IsServer 0 open_socket leader.profiles.disk leader.replicas
      (record { buffered = λ e. ([], refl, tt); attached = λ e. cc })

follower-IsSecondary : (this : Peer) → this.primary ≡ false → IsSecondary (follower this)
unfolding first_primary
follower-IsSecondary this e = record {
  valid =
      nobody-IsServer 0 open_socket leader.profiles.disk (follower this).replicas
        (record { buffered = λ h. cc (h, e); attached = λ h. (first, refl) });
  secondary = e;
  opened = refl;
  returns = refl;
}

-- The confirmations arrive in another order, with a round of the worker between them.
abbrev pub confirmation : ℕ → Packet
confirmation n = make_confirm_state_change_message n 7

abbrev pub later : List (Event × ℕ)
later =
    (receive (confirmation 2) office, 8)
    ∷ (round, 8)
    ∷ (receive (confirmation 0) office, 9)
    ∷ (receive (confirmation 1) office, 9)
    ∷ []

abbrev hello : Packet
hello = Tests.packet Kind.connect_cmd 2 alice

confirmation_polite : (n : ℕ) → IsPolite (receive (confirmation n) office)
unfolding make_confirm_state_change_message make_packet from_c_array piupiu.Messaging.zero_payload
confirmation_polite n =
    packet (confirmation n) office [] empty (omega arith) (λ e. omega arith) (λ e. omega arith)
  where
    empty : from_c_array (confirmation n).payload ≡ ok []
    empty = refl

pub later_polite : All (λ e. IsPolite e.0) later
later_polite =
    (confirmation_polite 2, (worker, (confirmation_polite 0, (confirmation_polite 1, tt))))

connect_replicated_example :
    (s1 s2 t0 t1 t2 : Server) × (time : ℕ) × (message_handler leader hello home 3 ≡ ok s1)
    × (s1.socket.sent
        ≡ record { to = get_socket_address second; packet = numbered hello 0 0 }
          ∷ record { to = get_socket_address third; packet = numbered hello 0 1 }
          ∷ record { to = get_socket_address fourth; packet = numbered hello 0 2 }
          ∷ [])
    × Confirms (follower second) (numbered hello 0 0) office 7 alice t0
    × Confirms (follower third) (numbered hello 0 1) office 7 alice t1
    × Confirms (follower fourth) (numbered hello 0 2) office 7 alice t2
    × (run s1 later ≡ ok s2)
    × Member (record { to = home; packet = make_accept_conn_command 2 time }) s2.socket.sent
unfolding get_secondary_replicas secondaries seqn_at
connect_replicated_example =
    connect_replicated leader (follower second) (follower third) (follower fourth) second third
      fourth hello home office 3 7 7 7 alice later leader-IsServer refl refl refl refl
      (follower-IsSecondary second refl) (follower-IsSecondary third refl)
      (follower-IsSecondary fourth refl) (named alice refl) (omega arith) refl later_polite
      (office, 9, inr (inr (inl refl))) (office, 9, inr (inr (inr (inl refl))))
      (office, 8, inl refl)
