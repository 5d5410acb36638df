-- ===== src/Replicas/Arrivals.antt =====
-- source/server/Socket.cpp, `Receive`, on what recvfrom() of the kernel gives.
use piupiu.Common.{
  ℕ, zero, suc, ◌<◌, ◌≤◌, ◌≡◌, refl, ap, [], ◌∷◌, ◌++◌, Bytes, length, take, drop, ltb,
  if◌then◌else◌, length-append, length-take, length-drop, arith,
}
use piupiu.Sessions.{SocketAddress}

-- A datagram with the address that it came from, as inet_ntoa() and ntohs() of the system write it,
-- or an error
pub data Arrival : Type 0 where
  datagram : Bytes → SocketAddress → Arrival
  failure : Arrival

-- What `Receive` returns: a count, with the address that it wrote to `addr`, or -1
pub data Received : Type 0 where
  received : ℕ → SocketAddress → Received
  failed : Received

-- recvfrom() writes a datagram to the front of the buffer; what does not fit is lost.
unfoldable pub store : Bytes → Bytes → Bytes
store buffer bytes = let taken = take (length buffer) bytes in taken ++ drop (length taken) buffer

-- `Receive`: the buffer that it leaves, and what it returns. An empty datagram is an error to it.
unfoldable pub receive_from : Bytes → Arrival → Bytes × Received
unfolding store
receive_from buffer (datagram bytes from) =
    let r = length (take (length buffer) bytes) in
    (store buffer bytes, if ltb 0 r then received r from else failed)
receive_from buffer failure = (buffer, failed)

-- The buffer keeps its size.
pub length-store : (buffer bytes : Bytes) → length (store buffer bytes) ≡ length buffer
unfolding store
length-store buffer bytes = omega (
  arith,
  length-append (take (length buffer) bytes) (drop (length (take (length buffer) bytes)) buffer),
  length-drop (length (take (length buffer) bytes)) buffer,
  length-take (length buffer) bytes,
)

pub take-all : (n : ℕ) (xs : Bytes) → length xs ≤ n → take n xs ≡ xs
take-all zero [] h = refl
take-all zero (x ∷ xs) h = absurd (omega arith)
take-all (suc n) [] h = refl
take-all (suc n) (x ∷ xs) h = ap (λ (t : Bytes). x ∷ t) (take-all n xs (omega arith))

-- A datagram that fits stands in front of what the buffer held behind it.
pub store_fits :
    (buffer bytes : Bytes)
    → length bytes ≤ length buffer
    → store buffer bytes ≡ bytes ++ drop (length bytes) buffer
unfolding store
store_fits buffer bytes h = rw (take-all (length buffer) bytes h) refl

pub receive_fits :
    (buffer bytes : Bytes) (from : SocketAddress)
    → length bytes ≤ length buffer
    → 0 < length bytes
    → receive_from buffer (datagram bytes from)
      ≡ (bytes ++ drop (length bytes) buffer, received (length bytes) from)
unfolding receive_from
receive_fits buffer bytes from h k =
    ground (arith, take-all (length buffer) bytes h, store_fits buffer bytes h)
