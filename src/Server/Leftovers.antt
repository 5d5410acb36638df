-- ===== src/Server/Leftovers.antt =====
-- source/server/server.cpp, `Listen`: datagrams that are not whole packets, whose rest the buffer
-- supplies.
use piupiu.Common.{
  ℕ, zero, suc, ◌+◌, ◌-◌, take-append, length-append, length-take, length-drop, ◌≤◌, ◌<◌, ◌≡◌, refl,
  ap, ◌∙◌, [], ◌∷◌, ◌++◌, Option, some, Bytes, length, take, drop, Result, ok, err, ◌>>=◌, arith,
}
use mathlib.Core.List.{append_assoc}
use piupiu.Messaging.{Packet}
use piupiu.Messaging.Memory.{
  IsPacket, packet_size, le_bytes, bytes_of, length-bytes_of, packet_at, packet_at-bytes_of,
}
use piupiu.Sessions.{SocketAddress}
use piupiu.Replicas.Arrivals.{datagram, receive_from, store, take-all, store_fits}
use piupiu.Server.{Server}
use piupiu.Server.Reachable.{receive, run}
use piupiu.Server.Listening.{arrives, listen_round, dispatched, hear_all}
use piupiu.Server.Heard.{listen_round-whole, hear_all-packet, nothing_heard}

-- The part of a packet in front of its payload
abbrev pub head_size : ℕ
head_size = 32

take-add : (m k : ℕ) (xs ys : Bytes) → length xs ≡ m → take (m + k) (xs ++ ys) ≡ xs ++ take k ys
take-add m k xs ys h =
    let all_front : length xs ≤ m + k = omega arith in
    let rest_left : (m + k) - length xs ≡ k = omega arith in
    rw (take-append (m + k) xs ys, take-all (m + k) xs all_front, rest_left) refl

drop-add : (m k : ℕ) (xs ys : Bytes) → length xs ≡ m → drop (m + k) (xs ++ ys) ≡ drop k ys
drop-add zero k [] ys h = let same_k : 0 + k ≡ k = omega arith in rw same_k refl
drop-add zero k (x ∷ xs) ys h = absurd (omega arith)
drop-add (suc m) k [] ys h = absurd (omega arith)
drop-add (suc m) k (x ∷ xs) ys h =
    let next : suc m + k ≡ suc (m + k) = omega arith in rw next (drop-add m k xs ys (omega arith))

drop-append_left : (k : ℕ) (xs ys : Bytes) → k ≤ length xs → drop k (xs ++ ys) ≡ drop k xs ++ ys
drop-append_left zero xs ys h = refl
drop-append_left (suc k) [] ys h = absurd (omega arith)
drop-append_left (suc k) (x ∷ xs) ys h = drop-append_left k xs ys (omega arith)

-- A packet with the first bytes of its payload, and one with another payload
abbrev head_of : ℕ → ℕ → Packet → Bytes
head_of b0 b1 q = bytes_of b0 b1 (record q { payload = [] })

length-head_of : (b0 b1 : ℕ) (q : Packet) → length (head_of b0 b1 q) ≡ head_size
unfolding bytes_of le_bytes
length-head_of b0 b1 q = refl

bytes_of-head_of : (b0 b1 : ℕ) (q : Packet) → bytes_of b0 b1 q ≡ head_of b0 b1 q ++ q.payload
unfolding bytes_of le_bytes
bytes_of-head_of b0 b1 q = refl

-- The payload of a datagram that ends with `k` bytes of its own, after one of `p`
abbrev pub mixed : ℕ → Packet → Packet → Packet
mixed k p q = record q { payload = take k q.payload ++ drop k p.payload }

mixed-IsPacket : (k : ℕ) (p q : Packet) → IsPacket p → IsPacket q → k ≤ 512 → IsPacket (mixed k p q)
mixed-IsPacket k p q hp hq h = record {
  type_fits = hq.type_fits;
  seqn_fits = hq.seqn_fits;
  length_fits = hq.length_fits;
  timestamp_fits = hq.timestamp_fits;
  payload_fits = omega (
    arith,
    hp.payload_fits,
    hq.payload_fits,
    length-append (take k q.payload) (drop k p.payload),
    length-take k q.payload,
    length-drop k p.payload,
  );
}

-- What the buffer holds after a datagram of `p` and one that ends `k` bytes into the payload of `q`
store-mixed :
    (a0 a1 b0 b1 k : ℕ) (p q : Packet) (rest : Bytes)
    → IsPacket p
    → IsPacket q
    → k ≤ 512
    → store (bytes_of a0 a1 p ++ rest) (take (head_size + k) (bytes_of b0 b1 q))
      ≡ bytes_of b0 b1 (mixed k p q) ++ rest
store-mixed a0 a1 b0 b1 k p q rest hp hq h =
    let own = take k q.payload in
    let taken : take (head_size + k) (bytes_of b0 b1 q) ≡ head_of b0 b1 q ++ own =
      rw (bytes_of-head_of b0 b1 q)
        (take-add head_size k (head_of b0 b1 q) q.payload (length-head_of b0 b1 q)) in
    let size : length (head_of b0 b1 q ++ own) ≡ head_size + k = omega (
      arith,
      length-append (head_of b0 b1 q) own,
      length-head_of b0 b1 q,
      length-take k q.payload,
      hq.payload_fits,
    ) in
    let old : bytes_of a0 a1 p ++ rest ≡ head_of a0 a1 p ++ (p.payload ++ rest) =
      rw (bytes_of-head_of a0 a1 p) (append_assoc (head_of a0 a1 p) p.payload rest) in
    let room : length (head_of b0 b1 q ++ own) ≤ length (head_of a0 a1 p ++ (p.payload ++ rest)) =
      omega (
        arith,
        size,
        length-append (head_of a0 a1 p) (p.payload ++ rest),
        length-head_of a0 a1 p,
        length-append p.payload rest,
        hp.payload_fits,
      ) in
    let left : drop (head_size + k) (head_of a0 a1 p ++ (p.payload ++ rest))
        ≡ drop k p.payload ++ rest =
      drop-add head_size k (head_of a0 a1 p) (p.payload ++ rest) (length-head_of a0 a1 p)
      ∙ drop-append_left k p.payload rest (omega (arith, hp.payload_fits)) in
    rw (taken, old, store_fits _ _ room, size, left, bytes_of-head_of b0 b1 (mixed k p q))
      (simp append_assoc)

-- A datagram of at least one byte starts a thread.
listen_round-starts :
    (buffer bytes : Bytes) (from : SocketAddress)
    → 0 < length buffer
    → 0 < length bytes
    → (listen_round buffer (datagram bytes from)).1 ≡ some (packet_at (store buffer bytes), from)
unfolding listen_round receive_from dispatched
listen_round-starts buffer bytes from h k = ground (arith, length-take (length buffer) bytes)

-- The thread that a short datagram starts
listen_round-mixed :
    (a0 a1 b0 b1 k : ℕ) (p q : Packet) (from : SocketAddress) (rest : Bytes)
    → IsPacket p
    → IsPacket q
    → k ≤ 512
    → (listen_round
        (bytes_of a0 a1 p ++ rest)
        (datagram (take (head_size + k) (bytes_of b0 b1 q)) from)).1
      ≡ some (mixed k p q, from)
listen_round-mixed a0 a1 b0 b1 k p q from rest hp hq h =
    let buffer = bytes_of a0 a1 p ++ rest in
    let bytes = take (head_size + k) (bytes_of b0 b1 q) in
    let started =
      listen_round-starts buffer bytes from
        (omega (arith, length-append (bytes_of a0 a1 p) rest, length-bytes_of a0 a1 p hp))
        (omega
          (arith, length-take (head_size + k) (bytes_of b0 b1 q), length-bytes_of b0 b1 q hq)) in
    rw (started, store-mixed a0 a1 b0 b1 k p q rest hp hq h)
      (ap (λ m. some (m, from))
        (packet_at-bytes_of b0 b1 (mixed k p q) rest (mixed-IsPacket k p q hp hq h)))

forget_buffer :
    (r : Result Server) (b : Bytes)
    → ◌>>=◌ {A = Server × Bytes} (r >>= λ t. ok (t, b)) (λ x. ok x.0) ≡ r
forget_buffer (ok s) b = refl
forget_buffer (err x) b = refl

-- A datagram that ends behind its head, `k` bytes into its payload, is handled with the rest of the
-- payload of the packet before it, whoever sent that.
pub hear_all-mixed :
    (s : Server) (buffer : Bytes) (a0 a1 b0 b1 k : ℕ) (p q : Packet) (first second : SocketAddress)
    (now later : ℕ)
    → IsPacket p
    → IsPacket q
    → k ≤ 512
    → packet_size ≤ length buffer
    → (hear_all s buffer (
          (arrives (datagram (bytes_of a0 a1 p) first), now)
          ∷ (arrives (datagram (take (head_size + k) (bytes_of b0 b1 q)) second), later)
          ∷ [])
        >>= λ r. ok r.0)
      ≡ run s ((receive p first, now) ∷ (receive (mixed k p q) second, later) ∷ [])
hear_all-mixed s buffer a0 a1 b0 b1 k p q first second now later hp hq h room =
    let a = datagram (bytes_of a0 a1 p) first in
    let b = datagram (take (head_size + k) (bytes_of b0 b1 q)) second in
    let whole = listen_round-whole a0 a1 p first buffer hp room in
    let held : (listen_round buffer a).0 ≡ bytes_of a0 a1 p ++ drop packet_size buffer =
      ap (λ (t : Bytes × Option (Packet × SocketAddress)). t.0) whole in
    let started : (listen_round (listen_round buffer a).0 b).1 ≡ some (mixed k p q, second) =
      rw held (listen_round-mixed a0 a1 b0 b1 k p q second (drop packet_size buffer) hp hq h) in
    let heard =
      hear_all-packet s buffer a now ((arrives b, later) ∷ [])
        ((receive (mixed k p q) second, later) ∷ [])
        (λ s'.
          hear_all-packet s' (listen_round buffer a).0 b later [] [] (λ t. nothing_heard t _)
            (mixed k p q) second started)
        p first (ap (λ (t : Bytes × Option (Packet × SocketAddress)). t.1) whole) in
    rw heard (forget_buffer _ _)
