-- ===== src/Client/Listening.antt =====
-- source/client/client.cpp, `Listen`: recvfrom() into the packet `p` of its stack, and the switch on it,
-- while the client listens.
use piupiu.Common.{
  Bool, true, false, ℕ, ◌≡◌, refl, [], ◌∷◌, ◌++◌, Bytes, length, take, drop, replicate, ltb,
  if◌then◌else◌, Result, ok, ◌>>=◌, length-append, length-drop, arith,
}
use piupiu.Messaging.{Packet}
use piupiu.Messaging.Memory.{
  IsPacket, packet_size, bytes_of, packet_at, length-bytes_of, packet_at-bytes_of,
}
use piupiu.Sessions.{SocketAddress}
use piupiu.Replicas.Arrivals.{Arrival, datagram, failure, store, store_fits, take-all}
use piupiu.Client.{Client, listen}

-- `memset(&p, 0, sizeof(p))`
unfoldable pub zero_memory : Bytes
zero_memory = replicate packet_size 0

-- One round of the loop, on the client and the memory of `p`
unfoldable pub listen_round : Client → Bytes → Arrival → ℕ → Result (Client × Bytes)
listen_round c memory failure now = ok (c, memory)
listen_round c memory (datagram bytes from) now =
    let after = store memory bytes in
    if ltb 0 (length (take (length memory) bytes))
    then (do c' ← listen c (packet_at after) now; ok (c', after))
    else ok (c, after)

-- What arrives at the loop. It waits in recvfrom(), or has ended: it looks at `isListening` only behind a
-- round, so what arrives first after a Shutdown is still heard, and nothing after that.
unfoldable pub hear : Client → Bytes → Bool → Arrival → ℕ → Result (Client × Bytes × Bool)
unfolding listen_round
hear c memory waiting a now =
    if waiting
    then (do (c', after) ← listen_round c memory a now; ok (c', after, c'.is_listening))
    else ok (c, memory, false)

-- The datagram of a packet is heard as the packet, whatever its padding and whatever `p` held.
pub listen_round-whole :
    (c : Client) (memory : Bytes) (padding0 padding1 : ℕ) (p : Packet) (from : SocketAddress)
    (now : ℕ)
    → length memory ≡ packet_size
    → IsPacket p
    → (after : Bytes) × (length after ≡ packet_size)
      × (listen_round c memory (datagram (bytes_of padding0 padding1 p) from) now
          ≡ (listen c p now >>= λ c'. ok (c', after)))
unfolding listen_round
listen_round-whole c memory padding0 padding1 p from now size fits =
    let bytes = bytes_of padding0 padding1 p in
    let long = length-bytes_of padding0 padding1 p fits in
    let stored = store_fits memory bytes (omega (arith, size, long)) in
    let all = take-all (length memory) bytes (omega (arith, size, long)) in
    (
      bytes ++ drop (length bytes) memory,
      omega (
        arith,
        size,
        long,
        length-append bytes (drop (length bytes) memory),
        length-drop (length bytes) memory,
      ),
      rw (stored, all, long)
          (rw (packet_at-bytes_of padding0 padding1 p (drop packet_size memory) fits) refl),
    )

pub hear-on :
    (c c' : Client) (memory after : Bytes) (waiting : Bool) (a : Arrival) (now : ℕ)
    → waiting ≡ true
    → listen_round c memory a now ≡ ok (c', after)
    → hear c memory waiting a now ≡ ok (c', after, c'.is_listening)
unfolding hear
hear-on c c' memory after waiting a now on ran = rw (on, ran) refl

pub hear-off :
    (c : Client) (memory : Bytes) (waiting : Bool) (a : Arrival) (now : ℕ)
    → waiting ≡ false
    → hear c memory waiting a now ≡ ok (c, memory, false)
unfolding hear
hear-off c memory waiting a now off = rw off refl

-- An error and an empty datagram change nothing but the place of the loop.
pub listen_round-failure :
    (c : Client) (memory : Bytes) (now : ℕ) → listen_round c memory failure now ≡ ok (c, memory)
unfolding listen_round
listen_round-failure c memory now = refl

pub listen_round-empty :
    (c : Client) (memory : Bytes) (from : SocketAddress) (now : ℕ)
    → listen_round c memory (datagram [] from) now ≡ ok (c, memory)
unfolding listen_round store
listen_round-empty c [] from now = refl
listen_round-empty c (b ∷ memory) from now = refl
