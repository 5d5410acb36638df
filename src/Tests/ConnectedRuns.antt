-- ===== src/Tests/ConnectedRuns.antt =====
-- source/client/client.cpp and source/server/server.cpp: alice connects, in datagrams.
use piupiu.Common.{
  ℕ, ◌^◌, ◌<◌, ◌≡◌, refl, inl, inr, true, List, [], ◌∷◌, ◌++◌, Bytes, codes, pos, ok, Member, arith,
  length-replicate, replicate, length,
}
use piupiu.Messaging.{Packet, make_packet, make_confirm_state_change_message}
use piupiu.Messaging.Memory.{IsPacket, packet_size, bytes_of}
use piupiu.Messaging.Sized.{built-IsPacket}
use piupiu.Replicas.Arrivals.{datagram}
use piupiu.Server.{Server}
use piupiu.Server.Listening.{Input, arrives, works, hear_all}
use piupiu.Server.Heard.{Carries, over, whole, worked}
use piupiu.Client.{Client, new_client, connect, trim_copy, rtrim}
use piupiu.Client.Listening.{hear, zero_memory}
use piupiu.Programs.Connected.{connects}
use piupiu.Tests.{alice, home, office, text, listen_buffer, length-listen_buffer}
use piupiu.Tests.ClusterRuns.{leader, leader-IsServer, later, later_polite, confirmation}

abbrev newcomer : Client
newcomer = new_client alice (codes "10.0.0.1") (pos 5000)

confirmation-IsPacket : (n : ℕ) → n < 2 ^ 64 → IsPacket (confirmation n)
confirmation-IsPacket n wide =
    built-IsPacket n [] [] 7 _ (confirmation n) wide
      (inr (inr (inr (inr (inr (inr (inr (inr (inr (inr (inl refl))))))))))) refl

-- The datagrams of the confirmations, with a round of the worker between them
abbrev confirmations : List (Input × ℕ)
confirmations =
    (arrives (datagram (bytes_of 1 2 (confirmation 2)) office), 8)
    ∷ (works, 8)
    ∷ (arrives (datagram (bytes_of 3 4 (confirmation 0)) office), 9)
    ∷ (arrives (datagram (bytes_of 5 6 (confirmation 1)) office), 9)
    ∷ []

confirmations-Carries : Carries confirmations later
confirmations-Carries =
    whole 1 2 (confirmation 2) office 8 (confirmation-IsPacket 2 (omega arith)) (
      worked 8 (
        whole 3 4 (confirmation 0) office 9 (confirmation-IsPacket 0 (omega arith))
          (whole 5 6 (confirmation 1) office 9 (confirmation-IsPacket 1 (omega arith)) over)))

length-zero_memory : length zero_memory ≡ packet_size
unfolding zero_memory
length-zero_memory = length-replicate {A = ℕ} packet_size 0

connects_example :
    (c1 c2 : Client) × (p q : Packet) × (s' : Server) × (left after : Bytes) × (connect newcomer
        true 1
      ≡ ok c1)
    × (c1.sent ≡ p ∷ [])
    × (hear_all leader listen_buffer ((arrives (datagram (bytes_of 0 0 p) home), 3) ∷ confirmations)
        ≡ ok (s', left))
    × Member (record { to = home; packet = q }) s'.socket.sent
    × (hear c1 zero_memory c1.is_listening (datagram (bytes_of 0 0 q) office) 10
        ≡ ok (c2, after, c2.is_listening))
    × (c2.connected ≡ true)
unfolding new_client trim_copy rtrim piupiu.Common.skip_space piupiu.Common.is_space
    piupiu.Server.Accepted.confirmed_in piupiu.Server.Effect.confirms piupiu.Replicas.seqn_at
    make_confirm_state_change_message make_packet
connects_example =
    connects newcomer leader listen_buffer zero_memory 0 0 0 0 home office 1 3 10 confirmations
      later refl refl (text alice refl) (omega arith) leader-IsServer refl refl refl
      (omega (arith, length-listen_buffer)) length-zero_memory confirmations-Carries later_polite
      refl refl refl
