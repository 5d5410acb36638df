-- ===== src/Tests/ProgramRuns.antt =====
-- source/client/main.cpp and source/server/main.cpp on concrete inputs.
use piupiu.Common.{
  List, negsuc, ℕ, ◌≡◌, refl, Bool, true, false, [], ◌∷◌, Option, none, some, Bytes, codes, ok,
  arith,
}
use piupiu.Client.{Client}
use piupiu.Replicas.Peers.{print_entries, map_peers, parse_peers_argument-print_entries}
use piupiu.Server.{Server}
use piupiu.Server.Invariant.{IsServer}
use piupiu.Server.Reachable.{run}
use piupiu.Programs.{client_main, server_main}
use piupiu.Programs.Served.{arrivals, datagrams, client_main_served}
use piupiu.Programs.Started.{server_main_serves}
use piupiu.Server.Listening.{hear_all}
use piupiu.Tests.{alice, home, open_socket, text, listen_buffer, length-listen_buffer}
use piupiu.Tests.ConsoleRuns.{keys}
use piupiu.Tests.ClientRuns.{
  late, early, late-IsPacket, early-IsPacket, insertion_sort, insertion_permutes,
}
use piupiu.Console.Turns.{MainTurn, pressed, arrives, sorts, Takes, whole, lost}
use piupiu.Messaging.Memory.{bytes_of}
use piupiu.Replicas.Arrivals.{datagram, failure}
use piupiu.Tests.ReplicaRuns.{second, second-IsEntry}
use piupiu.Tests.ServerRuns.{fresh_server, fresh_server-IsServer, history, history_polite}

-- The user types "o", two notifications arrive in the wrong order, with an error of recvfrom() between
-- them, they are sorted, and the user types "i", ends the line, and leaves.
abbrev talk : List (MainTurn × ℕ)
talk =
    (pressed b'o', 5)
    ∷ (arrives (datagram (bytes_of 0 0 late) home), 5)
    ∷ (arrives failure, 5)
    ∷ (arrives (datagram (bytes_of 0 0 early) home), 5)
    ∷ (sorts, 6)
    ∷ (pressed b'i', 6)
    ∷ (pressed 10, 7)
    ∷ (pressed 3, 8)
    ∷ []

talk-Takes : Takes keys 0 talk
unfolding piupiu.Console.Session.next_length piupiu.Common.from_c_array piupiu.Common.c_str
talk-Takes = (
  λ e z. omega (arith, z),
  omega arith,
  (
    whole 0 0 late home late-IsPacket refl refl,
    (
      lost,
      (
        whole 0 0 early home early-IsPacket refl refl,
        (
          λ e z. omega (arith, z),
          omega arith,
          (λ e z. omega (arith, z), omega arith, (λ e z. omega (arith, z), omega arith, tt)),
        ),
      ),
    ),
  ),
)

client_main_served_example :
    (last : Client) × (s' : Server) × (after : Bytes) × (client_main true insertion_sort
        (alice ∷ codes "10.0.0.1" ∷ codes "5000" ∷ [])
        true
        keys
        talk
        1
        9
      ≡ ok (some last))
    × (hear_all fresh_server listen_buffer (datagrams (λ p. (7, 9)) last.sent home 2)
        ≡ ok (s', after))
    × (run fresh_server (arrivals last.sent home 2) ≡ ok s')
    × IsServer s'
unfolding piupiu.Common.atoi_value
client_main_served_example =
    client_main_served insertion_sort alice (codes "10.0.0.1") (codes "5000") keys talk 1 9
      fresh_server listen_buffer (λ p. (7, 9)) home 2 insertion_permutes (text alice refl)
      (omega arith) refl talk-Takes fresh_server-IsServer (omega (arith, length-listen_buffer)) refl

server_main_serves_example :
    (s s' : Server) × (server_main true
        (some (codes "10.0.0.1"))
        none
        (some (print_entries second []))
        (some (codes "true"))
        (record { content = none; writable = true })
        open_socket
      ≡ ok s)
    × (run s history ≡ ok s')
    × IsServer s'
unfolding piupiu.Common.same
server_main_serves_example =
    server_main_serves (some (codes "10.0.0.1")) none (some (codes "true"))
      (print_entries second []) true open_socket (map_peers second []) (negsuc 0) history refl
      (parse_peers_argument-print_entries second [] second-IsEntry) (λ e. cc) history_polite
