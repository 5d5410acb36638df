-- ===== src/Programs/Started.antt =====
-- source/server/main.cpp: the server program from its start on.
use piupiu.Common.{
  ℕ, ◌≡◌, refl, Bool, true, false, List, Option, none, some, Bytes, ok, err, dangling, All, [],
  negsuc, ℤ,
}
use piupiu.Profiles.{Disk}
use piupiu.Replicas.{Socket, Peer, parse_peers_argument, first_primary}
use piupiu.Server.{Server}
use piupiu.Server.Invariant.{IsServer}
use piupiu.Server.Reachable.{Event, run, IsPolite, new_server-IsServer, run_total}
use piupiu.Programs.{server_main, text_or, port_or, is_true}

-- The server program with PEERS in its environment, a list of peers that can be read and, unless
-- PRIMARY is "true", has a primary, with no port or one that an `int` holds, and with no
-- profiles.dat: built so that a function that flows off its end returns, it starts, and survives
-- every polite history.
pub server_main_serves :
    (bind_ip bind_port primary : Option Bytes) (peers_list : Bytes) (writable : Bool)
    (socket : Socket) (peers : List Peer) (port : ℤ) (es : List (Event × ℕ))
    → port_or (negsuc 0) bind_port ≡ ok port
    → parse_peers_argument peers_list ≡ ok peers
    → (is_true primary ≡ false → (p : Peer) × (first_primary peers ≡ some p))
    → All (λ e. IsPolite e.0) es
    → (s s' : Server) × (server_main true bind_ip bind_port
          (some peers_list)
          primary
          (record { content = none; writable = writable })
          socket
        ≡ ok s)
      × (run s es ≡ ok s')
      × IsServer s'
unfolding server_main
server_main_serves bind_ip bind_port primary peers_list writable socket peers port es at_port parsed
      attached polite =
    let (s, made, v, on) =
      new_server-IsServer true (text_or [] bind_ip) port peers_list (is_true primary) writable
        socket peers parsed attached refl in
    let (s', ran, kept, _) = run_total es s v polite on in (s, s', rw at_port made, ran, kept)

-- Without PEERS, but with no port or one that an `int` holds, it reads a null pointer, whatever else
-- is set.
pub server_main_without_peers :
    (returns : Bool) (bind_ip bind_port primary : Option Bytes) (disk : Disk) (socket : Socket)
    (port : ℤ)
    → port_or (negsuc 0) bind_port ≡ ok port
    → server_main returns bind_ip bind_port none primary disk socket ≡ err dangling
unfolding server_main
server_main_without_peers returns bind_ip bind_port primary disk socket port at_port =
    rw at_port refl
