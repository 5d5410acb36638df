-- ===== src/Tests/ReplicaRuns.antt =====
-- source/server/ReplicaManager.cpp on concrete inputs.
use piupiu.Common.{◌≡◌, refl, true, false, [], ◌∷◌, some, codes, pos, ok, arith}
use piupiu.Messaging.{Packet}
use piupiu.Messaging.Kind
use piupiu.Messaging.Payload.{type_to_str_named}
use piupiu.Replicas.{Peer, ReplicaManager, parse_peers_argument, broadcast_to_secondaries}
use piupiu.Replicas.Peers.{
  Entry, IsEntry, print_entries, map_peers, parse_peers_argument-print_entries,
}
use piupiu.Replicas.Broadcast.{after_sending}
use piupiu.Replicas.Group.{backups, numbered_from, waits_for, broadcast_pushes}
use piupiu.Tests.{alice, home, packet, open_socket, field}

abbrev pub second : Entry
second = record { ip = codes "10.0.0.2"; port = codes "5000"; role = codes "s" }

abbrev third : Entry
third = record { ip = codes "10.0.0.3"; port = codes "5000"; role = codes "p" }

pub second-IsEntry : IsEntry second
unfolding piupiu.Common.atoi_value piupiu.Common.c_str
second-IsEntry = record {
  ip_field = field second.ip refl;
  port_field = field second.port refl;
  port_int = refl;
  role_field = field second.role refl;
  role_some = λ e. cc;
}

third-IsEntry : IsEntry third
unfolding piupiu.Common.atoi_value piupiu.Common.c_str
third-IsEntry = record {
  ip_field = field third.ip refl;
  port_field = field third.port refl;
  port_int = refl;
  role_field = field third.role refl;
  role_some = λ e. cc;
}

parse_peers_argument-print_entries_example :
    parse_peers_argument (print_entries second (third ∷ [])) ≡ ok (map_peers second (third ∷ []))
parse_peers_argument-print_entries_example =
    parse_peers_argument-print_entries second (third ∷ []) (second-IsEntry, third-IsEntry)

abbrev hello : Packet
hello = packet Kind.connect_cmd 2 alice

abbrev backup : Peer
backup = record { address = codes "10.0.0.2"; port = pos 5000; primary = false }

-- A primary with one secondary
abbrev lonely : ReplicaManager
lonely = record {
  this_peer = record { address = codes "10.0.0.1"; port = pos 5000; primary = true };
  peers = backup ∷ [];
  confirmation_buffer = some [];
  returns = true;
}

broadcast_pushes_example :
    broadcast_to_secondaries lonely hello home 4 open_socket
    ≡ ok (
      record lonely {
        confirmation_buffer = some (
            record {
              content = waits_for 4 hello ∷ waits_for 5 hello ∷ waits_for 6 hello ∷ [];
              original_seqn = 2;
              original_host = home;
            }
            ∷ []);
      },
      7,
      after_sending open_socket (numbered_from 4 hello (backups (backup ∷ []))),
    )
broadcast_pushes_example =
    broadcast_pushes lonely [] hello home 4 open_socket refl
      (type_to_str_named Kind.connect_cmd (omega arith) (omega arith)) refl
