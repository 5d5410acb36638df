-- ===== src/Tests/WireRuns.antt =====
-- source/server/server.cpp, `Listen`, and the memory of packets on concrete inputs.
use piupiu.Common.{
  ℕ, zero, suc, ◌<◌, replicate, from_c_array, ◌+◌, ◌≡◌, refl, List, [], ◌∷◌, codes, take, ok, ◌>>=◌,
  arith,
}
use piupiu.Messaging.{Packet}
use piupiu.Messaging.Kind
use piupiu.Messaging.Memory.{IsPacket, IsBytes, bytes_of}
use piupiu.Replicas.Arrivals.{datagram, failure}
use piupiu.Server.Listening.{Input, arrives, works, hear_all}
use piupiu.Server.Heard.{over, whole, lost, empty, worked, left_in, hear_all-run}
use piupiu.Server.Reachable.{receive, round, run}
use piupiu.Server.Leftovers.{head_size, mixed, hear_all-mixed}
use piupiu.Tests.{home, office, packet, packet-IsPacket, listen_buffer, length-listen_buffer}
use piupiu.Tests.ServerRuns.{fresh_server}

abbrev hello : Packet
hello = packet Kind.send_cmd 2 (codes "oi")

abbrev goodbye : Packet
goodbye = packet Kind.send_cmd 3 (codes "tchau")

hello-IsPacket : IsPacket hello
hello-IsPacket = packet-IsPacket _ _ (codes "oi") (omega arith) (omega arith) (omega arith)

goodbye-IsPacket : IsPacket goodbye
goodbye-IsPacket = packet-IsPacket _ _ (codes "tchau") (omega arith) (omega arith) (omega arith)

-- The four lowest bytes of a packet: its type, and two of padding
first_bytes : take 4 (bytes_of 258 0 hello) ≡ 5 ∷ 0 ∷ 2 ∷ 1 ∷ []
unfolding bytes_of
first_bytes = refl

-- A packet, an error, an empty datagram, a round of the worker, and a packet
abbrev inputs : List (Input × ℕ)
inputs =
    (arrives (datagram (bytes_of 7 9 hello) home), 1)
    ∷ (arrives failure, 2)
    ∷ (arrives (datagram [] office), 3)
    ∷ (works, 4)
    ∷ (arrives (datagram (bytes_of 0 0 goodbye) office), 5)
    ∷ []

hear_all-run_example : hear_all fresh_server listen_buffer inputs ≡ (
    run fresh_server ((receive hello home, 1) ∷ (round, 4) ∷ (receive goodbye office, 5) ∷ [])
    >>= λ s'. ok (s', left_in listen_buffer inputs))
hear_all-run_example =
    hear_all-run fresh_server listen_buffer
      (whole 7 9 hello home 1 hello-IsPacket
        (lost 2 (empty office 3 (worked 4 (whole 0 0 goodbye office 5 goodbye-IsPacket over)))))
      (omega (arith, length-listen_buffer))

hear_all-mixed_example :
    (hear_all fresh_server listen_buffer (
        (arrives (datagram (bytes_of 0 0 hello) home), 1)
        ∷ (arrives (datagram (take (head_size + 1) (bytes_of 0 0 goodbye)) office), 2)
        ∷ [])
      >>= λ r. ok r.0)
    ≡ run fresh_server ((receive hello home, 1) ∷ (receive (mixed 1 hello goodbye) office, 2) ∷ [])
hear_all-mixed_example =
    hear_all-mixed fresh_server listen_buffer 0 0 0 0 1 hello goodbye home office 1 2 hello-IsPacket
      goodbye-IsPacket (omega arith) (omega (arith, length-listen_buffer))

-- The text of the mixed packet: the first byte is its own.
mixed_text : from_c_array (mixed 1 hello goodbye).payload ≡ ok (codes "ti")
unfolding from_c_array
mixed_text = refl

replicate-IsBytes : (n b : ℕ) → b < 256 → IsBytes (replicate n b)
replicate-IsBytes zero b h = tt
replicate-IsBytes (suc n) b h = (h, replicate-IsBytes n b h)
