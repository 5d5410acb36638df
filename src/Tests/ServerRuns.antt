-- ===== src/Tests/ServerRuns.antt =====
-- source/server/server.cpp on a history: alice and bob connect, bob follows alice, alice posts.
use piupiu.Common.{
  ℕ, zero, suc, ◌+◌, ◌<◌, ◌≤◌, ◌≡◌, ◌≢◌, refl, sym, ◌∙◌, inl, inr, Bool, true, false, List, [], ◌∷◌,
  ◌++◌, Option, none, some, Bytes, codes, pos, length, get_elem?, All, Result, ok, err, arith, same,
  from_c_array, subst,
}
use piupiu.Messaging.{Packet}
use piupiu.Messaging.Kind
use piupiu.Messaging.Payload.{type_to_str_named}
use piupiu.Sessions.{SocketAddress, no_sessions, get_user_name_by_address_and_ip}
use piupiu.Profiles.{Disk}
use piupiu.Replicas.{Peer, parse_peers_argument, first_primary}
use piupiu.Replicas.Peers.{print_entries, map_peers, parse_peers_argument-print_entries}
use piupiu.Server.{
  PendingNotification, Server, new_server, message_handler, handle_connect, handle_follow,
  handle_send,
}
use piupiu.Server.Pending.{pending_notification_worker}
use piupiu.Server.Invariant.{IsServer}
use piupiu.Server.Connect.{Connected, handle_connect_lem}
use piupiu.Server.Follow.{FollowOutcome, handle_follow_lem}
use piupiu.Server.Posting.{SendOutcome, handle_send_lem}
use piupiu.Server.Delivery.{WorkOutcome, work_lem}
use piupiu.Server.Reachable.{
  Event, receive, round, run, IsPolite, packet, worker, message_handler_total, new_server-IsServer,
  run_total,
}
use piupiu.Tests.{alice, bob, home, office, open_socket, named}
use piupiu.Tests
use piupiu.Common.{indeterminate, ◌>>=◌}
use piupiu.Profiles.{unset, at, get_profile_by_name}
use piupiu.Sessions.View.{sockets_of}
use piupiu.Server.Threads.{looking, starting, Thread, interleave}
use piupiu.Server.Race.{connects_twice, connect_reads_unset}
use piupiu.Tests.ReplicaRuns.{second, second-IsEntry}

abbrev empty_disk : Disk
empty_disk = record { content = none; writable = true }

abbrev first_address : SocketAddress
first_address = record { address = codes "10.0.0.1"; port = pos 5000 }

abbrev pub fresh_server : Server
fresh_server = record {
  last_seqn = 0;
  socket = record open_socket { bound_address = some first_address };
  notification_queue = [];
  profiles = record { profiles = []; disk = empty_disk };
  sessions = no_sessions;
  replicas = record {
    this_peer = record { address = codes "10.0.0.1"; port = pos 5000; primary = true };
    peers = map_peers second [];
    confirmation_buffer = some [];
    returns = true;
  };
}

abbrev new_start : Result Server
new_start =
    new_server true (codes "10.0.0.1") (pos 5000) (print_entries second []) true empty_disk
      open_socket

new_start-IsServer : (s : Server) × (new_start ≡ ok s) × IsServer s × (s.replicas.returns ≡ true)
new_start-IsServer =
    new_server-IsServer true (codes "10.0.0.1") (pos 5000) (print_entries second []) true true
      open_socket (map_peers second [])
      (parse_peers_argument-print_entries second [] second-IsEntry) (λ e. cc) refl

start_made : new_start ≡ ok fresh_server
unfolding new_server piupiu.Profiles.Storage.new_profile_manager piupiu.Replicas.new_replica_manager
start_made = rw (parse_peers_argument-print_entries second [] second-IsEntry) refl

pub fresh_server-IsServer : IsServer fresh_server
fresh_server-IsServer =
    let (s, made, v, _) = new_start-IsServer in
    let same_server : s ≡ fresh_server = ground (arith, made, start_made) in
    subst IsServer same_server v

abbrev pub history : List (Event × ℕ)
history =
    (receive (Tests.packet Kind.connect_cmd 2 alice) home, 0)
    ∷ (receive (Tests.packet Kind.connect_cmd 2 bob) office, 0)
    ∷ (receive (Tests.packet Kind.follow_cmd 3 alice) office, 1)
    ∷ (receive (Tests.packet Kind.send_cmd 3 (codes "oi")) home, 2)
    ∷ []

pub history_polite : All (λ e. IsPolite e.0) history
history_polite = (
  packet _ home alice (named alice refl) (omega arith) (λ e. omega arith) (λ e. omega arith),
  (
    packet _ office bob (named bob refl) (omega arith) (λ e. omega arith) (λ e. omega arith),
    (
      packet _ office alice (named alice refl) (omega arith) (λ e. omega arith) (λ e. omega arith),
      (
        packet _ home (codes "oi") (named (codes "oi") refl) (omega arith) (λ e. omega arith)
            (λ e. omega arith),
        tt,
      ),
    ),
  ),
)

run_total_example :
    (s' : Server) × (run fresh_server history ≡ ok s')
    × IsServer s'
    × (s'.replicas.returns ≡ fresh_server.replicas.returns)
run_total_example = run_total history fresh_server fresh_server-IsServer history_polite refl

-- The server after the history
abbrev pub reached : Result Server → Server
reached (ok s) = s
reached (err f) = fresh_server

abbrev pub busy : Server
busy = reached (run fresh_server history)

pub busy-IsServer : IsServer busy
busy-IsServer = let (s, ran, v, _) = run_total_example in rw ran v

busy_returns : busy.replicas.returns ≡ true
busy_returns = let (s, ran, v, same_build) = run_total_example in rw ran same_build

-- alice connects from the office as well.
handle_connect_lem_example :
    (s' : Server) × (handle_connect busy (Tests.packet Kind.connect_cmd 2 alice) office 3 ≡ ok s')
    × IsServer s'
    × Connected busy s' alice office
handle_connect_lem_example =
    handle_connect_lem busy (Tests.packet Kind.connect_cmd 2 alice) office 3 alice busy-IsServer
      (named alice refl) (omega arith)
      (type_to_str_named Kind.connect_cmd (omega arith) (omega arith)) busy_returns

handle_follow_lem_example :
    (s' : Server) × (handle_follow busy (Tests.packet Kind.follow_cmd 4 bob) home ≡ ok s')
    × IsServer s'
    × FollowOutcome busy home bob s'
handle_follow_lem_example =
    handle_follow_lem busy (Tests.packet Kind.follow_cmd 4 bob) home bob busy-IsServer
      (named bob refl)

handle_send_lem_example :
    (s' : Server) × (handle_send busy (Tests.packet Kind.send_cmd 4 (codes "ola")) home ≡ ok s')
    × IsServer s'
    × SendOutcome busy home (codes "ola") s'
handle_send_lem_example =
    handle_send_lem busy (Tests.packet Kind.send_cmd 4 (codes "ola")) home (codes "ola")
      busy-IsServer (named (codes "ola") refl) (omega arith)

abbrev carol : Bytes
carol = codes "carol"

abbrev pub posted_note : PendingNotification
posted_note = record { sender_username = alice; body = codes "oi"; recipient = 1 }

-- What the history leaves
pub busy_queue :
    (busy.notification_queue ≡ posted_note ∷ [])
    × (get_profile_by_name busy.profiles carol ≡ none)
    × (get_profile_by_name busy.profiles alice ≡ some 0)
    × (sockets_of busy.sessions alice ≡ home ∷ [])
    × (busy.socket.descriptor ≡ true)
    × (get_profile_by_name busy.profiles bob ≡ some 1)
    × (get_elem? busy.profiles.profiles 1
        ≡ some record { handle = bob; followers = []; session = at 1 })
    × (get_user_name_by_address_and_ip busy.sessions home ≡ ok (some alice))
    × (get_elem? busy.profiles.profiles 0
        ≡ some record { handle = alice; followers = 1 ∷ []; session = at 0 })
unfolding run piupiu.Server.Reachable.step piupiu.Server.profile_for piupiu.Server.store_session
    piupiu.Server.replicate_connect piupiu.Server.handle_connect piupiu.Server.follow_user
    piupiu.Server.handle_follow piupiu.Server.notify piupiu.Server.post_message
    piupiu.Server.handle_send piupiu.Server.message_handler piupiu.Sessions.same_address
    piupiu.Sessions.new_session piupiu.Sessions.join_session piupiu.Sessions.start_session
    piupiu.Sessions.has_socket piupiu.Sessions.get_user_name_by_address_and_ip
    piupiu.Profiles.find_profile piupiu.Profiles.get_profile_by_name piupiu.Profiles.render_handles
    piupiu.Profiles.render_edges piupiu.Profiles.render_all_edges piupiu.Profiles.render
    piupiu.Profiles.sync piupiu.Profiles.new_profile piupiu.Profiles.has_pointer
    piupiu.Profiles.push_follower piupiu.Profiles.add_follower piupiu.Profiles.set_session
    piupiu.Profiles.session_sockets piupiu.Profiles.connected_from
    piupiu.Profiles.get_connected_users piupiu.Replicas.send piupiu.Replicas.secondaries
    piupiu.Replicas.get_secondary_replicas piupiu.Replicas.seqn_at piupiu.Replicas.send_to_peers
    piupiu.Replicas.messages_for piupiu.Replicas.broadcast_to_secondaries piupiu.Confirmation.push
    piupiu.Messaging.type_to_str piupiu.Common.is_space piupiu.Common.is_digit
    piupiu.Common.show_onto piupiu.Common.show_ℕ piupiu.Common.find_key piupiu.Common.insert_key
    piupiu.Common.same piupiu.Common.lex_lt piupiu.Common.c_str piupiu.Common.from_c_array
    piupiu.Server.Pending.work piupiu.Sessions.user_name_in piupiu.Sessions.View.sockets_of
busy_queue = (refl, refl, refl, refl, refl, refl, refl, refl, refl)

-- bob is told of the message that alice posted.
work_lem_example :
    (s' : Server) × (pending_notification_worker busy 9 ≡ ok s')
    × IsServer s'
    × WorkOutcome busy posted_note [] s'
work_lem_example = work_lem busy posted_note [] 9 busy-IsServer busy_queue.0

abbrev at_home : Thread
at_home = record {
  message = Tests.packet Kind.connect_cmd 2 alice;
  incoming = home;
  phase = looking alice;
}

abbrev at_office : Thread
at_office = record {
  message = Tests.packet Kind.connect_cmd 2 alice;
  incoming = office;
  phase = looking alice;
}

connects_twice_example :
    (s' : Server) × (interleave fresh_server 3 (at_home ∷ at_office ∷ []) (0 ∷ 1 ∷ 0 ∷ 1 ∷ [])
      ≡ ok (
        s',
        record at_home { phase = starting 0 } ∷ record at_office { phase = starting 1 } ∷ [],
      ))
    × (s'.profiles.profiles
        ≡ record { handle = alice; followers = []; session = unset }
          ∷ record { handle = alice; followers = []; session = unset }
          ∷ [])
    × (¬ IsServer s')
unfolding get_profile_by_name piupiu.Profiles.find_profile
connects_twice_example =
    connects_twice fresh_server (Tests.packet Kind.connect_cmd 2 alice)
      (Tests.packet Kind.connect_cmd 2 alice) home office 3 alice fresh_server-IsServer refl

-- carol is new, and alice connects from the office as well.
connect_reads_unset_example :
    interleave busy 3
      (record {
        message = Tests.packet Kind.connect_cmd 2 carol;
        incoming = home;
        phase = looking carol;
      }
        ∷ at_office
        ∷ [])
      (0 ∷ 0 ∷ 1 ∷ 1 ∷ 1 ∷ [])
    ≡ err indeterminate
connect_reads_unset_example =
    connect_reads_unset busy (Tests.packet Kind.connect_cmd 2 carol)
      (Tests.packet Kind.connect_cmd 2 alice) home office 3 carol alice 0 busy-IsServer busy_queue.1
      busy_queue.2 (rw busy_queue.3 (omega arith))
