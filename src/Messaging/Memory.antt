-- ===== src/Messaging/Memory.antt =====
-- source/messaging/Packet.hpp: a `Packet` as it lies in memory, which is what sendto() and
-- recvfrom() are given, in the layout of the System V ABI on a little-endian machine: the numbers at
-- the offsets 0, 8, 16 and 24, the payload behind them, and six bytes of padding behind each number
-- of two bytes.
use piupiu.Common.{
  ℕ, zero, suc, ◌+◌, ◌-◌, ◌*◌, ◌/◌, ◌%◌, ◌^◌, ◌<◌, ◌≡◌, [], ◌∷◌, ◌++◌, Bytes, length, take, drop,
  take-append, take-length, length-take, length-drop, All, ◌≤◌, arith,
}
use mathlib.Core.List.{append-nil}
use piupiu.Messaging.{Packet, packet_max_payload_len}

-- The `k` bytes of a number, the lowest first
unfoldable pub le_bytes : ℕ → ℕ → Bytes
le_bytes zero n = []
le_bytes (suc k) n = (n % 256) ∷ le_bytes k (n / 256)

unfoldable pub le_value : Bytes → ℕ
le_value [] = 0
le_value (b ∷ bs) = b + 256 * le_value bs

-- `sizeof(Message::Packet)`
abbrev pub packet_size : ℕ
packet_size = 544

-- `&data` and `sizeof(data)`; the padding is what these two numbers leave in it.
unfoldable pub bytes_of : ℕ → ℕ → Packet → Bytes
unfolding le_bytes
bytes_of padding0 padding1 p =
    le_bytes 2 p.type
    ++ (le_bytes 6 padding0
        ++ (le_bytes 8 p.seqn
            ++ (le_bytes 2 p.length
                ++ (le_bytes 6 padding1 ++ (le_bytes 8 p.timestamp ++ p.payload)))))

-- `*reinterpret_cast<Message::Packet*>(buffer)`
unfoldable pub packet_at : Bytes → Packet
unfolding le_value
packet_at memory = record {
  type = le_value (take 2 memory);
  seqn = le_value (take 8 (drop 8 memory));
  length = le_value (take 2 (drop 16 memory));
  timestamp = le_value (take 8 (drop 24 memory));
  payload = take packet_max_payload_len (drop 32 memory);
}

-- A packet whose numbers and payload have the sizes of the struct's members
pub record IsPacket (p : Packet) : Type 0 where
  pub type_fits : p.type < 2 ^ 16
  pub seqn_fits : p.seqn < 2 ^ 64
  pub length_fits : p.length < 2 ^ 16
  pub timestamp_fits : p.timestamp < 2 ^ 64
  pub payload_fits : length p.payload ≡ packet_max_payload_len

abbrev pub capacity : ℕ → ℕ
capacity zero = 1
capacity (suc k) = 256 * capacity k

le_value-le_bytes : (k n : ℕ) → n < capacity k → le_value (le_bytes k n) ≡ n
unfolding le_value le_bytes
le_value-le_bytes zero n h = omega arith
le_value-le_bytes (suc k) n h = omega (arith, le_value-le_bytes k (n / 256) (omega arith))

take_whole : (xs ys : Bytes) (n : ℕ) → length xs ≡ n → take n (xs ++ ys) ≡ xs
take_whole xs ys n h =
    let none_left : n - length xs ≡ 0 = omega arith in
    rw (take-append n xs ys, none_left, ← h, take-length xs) (append-nil xs)

-- A packet is read back from its bytes, whatever the padding holds and whatever follows them.
pub packet_at-bytes_of :
    (padding0 padding1 : ℕ) (p : Packet) (rest : Bytes)
    → IsPacket p
    → packet_at (bytes_of padding0 padding1 p ++ rest) ≡ p
unfolding packet_at bytes_of le_bytes
packet_at-bytes_of padding0 padding1 p rest h =
    let type = le_value-le_bytes 2 p.type (omega (arith, h.type_fits)) in
    let seqn = le_value-le_bytes 8 p.seqn (omega (arith, h.seqn_fits)) in
    let len = le_value-le_bytes 2 p.length (omega (arith, h.length_fits)) in
    let time = le_value-le_bytes 8 p.timestamp (omega (arith, h.timestamp_fits)) in
    let payload = take_whole p.payload rest packet_max_payload_len h.payload_fits in
    λ i. record {
      type = type i;
      seqn = seqn i;
      length = len i;
      timestamp = time i;
      payload = payload i;
    }

pub length-bytes_of :
    (padding0 padding1 : ℕ) (p : Packet)
    → IsPacket p
    → length (bytes_of padding0 padding1 p) ≡ packet_size
unfolding bytes_of le_bytes
length-bytes_of padding0 padding1 p h = omega (arith, h.payload_fits)

-- Memory of bytes
abbrev pub IsBytes : Bytes → Type 0
IsBytes m = All (λ b. b < 256) m

capacity_pos : (k : ℕ) → 0 < capacity k
capacity_pos zero = omega arith
capacity_pos (suc k) = omega (arith, capacity_pos k)

le_value_lt : (k : ℕ) (m : Bytes) → IsBytes m → le_value (take k m) < capacity k
unfolding le_value
le_value_lt zero m h = omega arith
le_value_lt (suc k) [] h = omega (arith, capacity_pos k)
le_value_lt (suc k) (b ∷ m) h = omega (arith, h.0, le_value_lt k m h.1)

pub drop-IsBytes : (k : ℕ) (m : Bytes) → IsBytes m → IsBytes (drop k m)
drop-IsBytes zero m h = h
drop-IsBytes (suc k) [] h = tt
drop-IsBytes (suc k) (b ∷ m) h = drop-IsBytes k m h.1

pub take-IsBytes : (k : ℕ) (m : Bytes) → IsBytes m → IsBytes (take k m)
take-IsBytes zero m h = tt
take-IsBytes (suc k) [] h = tt
take-IsBytes (suc k) (b ∷ m) h = (h.0, take-IsBytes k m h.1)

-- What is read from memory of at least the size of a packet has the sizes of its members.
pub packet_at-IsPacket : (m : Bytes) → IsBytes m → packet_size ≤ length m → IsPacket (packet_at m)
unfolding packet_at
packet_at-IsPacket m h k = record {
  type_fits = omega (arith, le_value_lt 2 m h);
  seqn_fits = omega (arith, le_value_lt 8 (drop 8 m) (drop-IsBytes 8 m h));
  length_fits = omega (arith, le_value_lt 2 (drop 16 m) (drop-IsBytes 16 m h));
  timestamp_fits = omega (arith, le_value_lt 8 (drop 24 m) (drop-IsBytes 24 m h));
  payload_fits = omega (arith, length-take 512 (drop 32 m), length-drop 32 m);
}
