-- ===== src/Tests.antt =====
-- Runs on concrete inputs: a primary with one secondary, and the users alice and bob.
mod SessionRuns
mod ClientRuns
mod ConsoleRuns
mod ConfirmationRuns
mod MessagingRuns
mod ProfileRuns
mod ReplicaRuns
mod ServerRuns
mod RestartRuns
mod ClusterRuns
mod ProgramRuns
mod GuiRuns
mod WireRuns
mod ConnectedRuns
mod TurnRuns
use piupiu.Common.{
  ℕ, ◌-◌, ◌^◌, ◌<◌, length-append, ◌≡◌, ◌≢◌, refl, inl, inr, Bool, true, false, ◌&&◌, not, List, [],
  ◌∷◌, ◌++◌, none, some, Bytes, codes, same, length, length-replicate, replicate, All, IsText, pos,
  ◌==◌, ==_iff, arith, from_c_array, from_c_array-IsText, ok, Result,
}
use piupiu.Messaging.{Packet, packet_max_payload_len}
use piupiu.Messaging.Memory.{IsPacket}
use piupiu.Sessions.{SocketAddress}
use piupiu.Replicas.{Datagram, Socket, Peer}
use piupiu.Replicas.Peers.{IsField}

abbrev pub alice : Bytes
alice = codes "alice"

abbrev pub bob : Bytes
bob = codes "bob"

abbrev pub home : SocketAddress
home = record { address = codes "10.0.0.7"; port = pos 4000 }

abbrev pub office : SocketAddress
office = record { address = codes "10.0.0.8"; port = pos 4001 }

-- A text as it stands in a packet
abbrev pub payload : Bytes → Bytes
payload s = s ++ (0 ∷ replicate (packet_max_payload_len - length s - 1) 0)

abbrev pub packet : ℕ → ℕ → Bytes → Packet
packet type seqn s = record {
  type = type;
  seqn = seqn;
  length = length s;
  timestamp = 0;
  payload = payload s;
}

abbrev pub open_socket : Socket
open_socket = record { descriptor = true; bound_address = none; accepts = λ d. true; sent = [] }

abbrev pub is_text : Bytes → Bool
is_text [] = true
is_text (c ∷ s) = not (c == 0) && is_text s

-- Text is checked by a test.
pub text : (s : Bytes) → is_text s ≡ true → IsText s
text [] h = tt
text (c ∷ s) h = (ground (arith, h), text s (ground arith))

abbrev pub is_field : Bytes → Bool
is_field [] = true
is_field (c ∷ s) = not (c == b':') && not (c == b',') && is_field s

pub field : (s : Bytes) → is_field s ≡ true → IsField s
field [] h = tt
field (c ∷ s) h = ((ground (arith, h), ground (arith, h)), field s (ground arith))

pub named : (s : Bytes) → is_text s ≡ true → from_c_array (payload s) ≡ ok s
named s h = from_c_array-IsText s _ (text s h)

-- The buffer of `Listen`, with bytes that nobody set
abbrev pub listen_buffer : Bytes
listen_buffer = replicate 2048 85

pub length-listen_buffer : length listen_buffer ≡ 2048
length-listen_buffer = length-replicate {A = ℕ} 2048 85

-- The packet of a client's `Listen`, before anything arrives
abbrev pub blank_memory : Bytes
blank_memory = replicate 544 0

pub length-blank_memory : length blank_memory ≡ 544
length-blank_memory = length-replicate {A = ℕ} 544 0

-- A text of at most 511 bytes makes a packet that fits.
pub packet-IsPacket :
    (type seqn : ℕ) (s : Bytes)
    → type < 2 ^ 16
    → seqn < 2 ^ 64
    → length s < 512
    → IsPacket (packet type seqn s)
packet-IsPacket type seqn s t n h = record {
  type_fits = t;
  seqn_fits = n;
  length_fits = omega arith;
  timestamp_fits = omega arith;
  payload_fits = omega (
    arith,
    length-append s (0 ∷ replicate (512 - length s - 1) 0),
    length-replicate {A = ℕ} (512 - length s - 1) 0,
  );
}
