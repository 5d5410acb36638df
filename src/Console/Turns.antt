-- ===== src/Console/Turns.antt =====
-- source/client/console/console.cpp and source/client/client.cpp: the main loop of the interface with the
-- threads of the client at its side. `sort` is std::sort.
pub mod Total
use mathlib.Core.List.{Permᴰ}
use piupiu.Common.{
  ℕ, ◌≤◌, ◌≡◌, ◌≢◌, refl, ap, sym, ◌∙◌, inl, inr, Bool, true, false, List, [], ◌∷◌, ◌++◌, map,
  Bytes, length, drop, ◌==◌, ◌&&◌, off_end, length-replicate, if◌then◌else◌, Result, ok, ◌>>=◌, All,
  arith, Bool-cases,
}
use piupiu.Messaging.Kind
use piupiu.Messaging.{Packet}
use piupiu.Messaging.Memory.{IsPacket, packet_size, bytes_of}
use piupiu.Sessions.{SocketAddress}
use piupiu.Replicas.Arrivals.{Arrival, datagram, failure}
use piupiu.Server.Invariant.{max_handle}
use piupiu.Client.{
  Client, MessageType, notification, error, info, unset, opened, hand_over, listen, reorder,
}
use piupiu.Client.Packets.{IsWelcome}
use piupiu.Client.Listening
use piupiu.Client.Listening.{
  zero_memory, hear-on, hear-off, listen_round-whole, listen_round-failure,
}
use piupiu.Client.Reorder.{HasText, handed, reorder_lem}
use piupiu.Client.Life.{IsClient, goes_on}
use piupiu.Client.Life.Told.{listen-Leads}
use piupiu.Console.Interface.{
  ConsoleInterface, Keys, get_user_input, incoming_message_handler, incoming_messages, hear,
  reorder_round,
}
use piupiu.Console.Input.{IsConsole, Kept, client-IsConsole, message-IsConsole}
use piupiu.Console.Session.{IsTyped, next_length, get_user_input_lem}

-- A key, an arrival at the thread of `Listen`, or a round of the thread of `Reorder`
pub data MainTurn : Type 0 where
  pressed : ℕ → MainTurn
  arrives : Arrival → MainTurn
  sorts : MainTurn

-- One turn, on the interface with its client, the memory of the packet of `Listen`, and whether its
-- loop waits. What the client hands over reaches the interface.
unfoldable pub main_turn :
    (List Packet → List Packet)
    → Keys
    → ConsoleInterface
    → Bytes
    → Bool
    → MainTurn
    → ℕ
    → Result (ConsoleInterface × Bytes × Bool)
main_turn sort k c memory waiting (pressed ch) now = do
  c' ← get_user_input k c ch now
  ok (c', memory, waiting)
main_turn sort k c memory waiting (arrives a) now = do
  (client, memory', waiting') ← Listening.hear c.client memory waiting a now
  ok (hear c client now, memory', waiting')
main_turn sort k c memory waiting sorts now = do
  c' ← reorder_round sort c now
  ok (c', memory, waiting)

-- `MainLoop` with the threads, in these turns: it ends when `running` is false, or waits when no
-- turn is left.
unfoldable pub main_turns :
    (List Packet → List Packet)
    → Keys
    → ConsoleInterface
    → Bytes
    → Bool
    → List (MainTurn × ℕ)
    → Result ConsoleInterface
main_turns sort k c memory waiting [] = ok c
main_turns sort k c memory waiting ((t, now) ∷ ts) =
    let more = main_turn sort k c memory waiting t now >>= λ (r : ConsoleInterface × Bytes × Bool).
    main_turns sort k r.0 r.1 r.2 ts in
    if c.running then more else ok c

-- `Start`, on a client that has connected, or has not got a socket and so has no threads. When the
-- main loop has ended it flows off its end; `returns` is the compiler's.
unfoldable pub start :
    Bool
    → (List Packet → List Packet)
    → Keys
    → ConsoleInterface
    → List (MainTurn × ℕ)
    → Result ConsoleInterface
unfolding main_turns
start returns sort k c ts = do
  after ←
      main_turns sort k (record c { running = true }) zero_memory
        (c.client.has_threads && c.client.is_listening) ts
  if after.running then ok after else off_end returns after

-- The packets that a server sends to a client that it has not rejected, and errors
pub data IsOrdinary : Arrival → Type 0 where
  whole :
      (padding0 padding1 : ℕ) (p : Packet) (from : SocketAddress)
      → IsPacket p
      → HasText p
      → goes_on p ≡ true
      → IsOrdinary (datagram (bytes_of padding0 padding1 p) from)
  lost : IsOrdinary failure

-- Keys that never make a line of more than 380 bytes, among ordinary arrivals
abbrev pub Takes : Keys → ℕ → List (MainTurn × ℕ) → Type 0
Takes k n [] = Unit
Takes k n ((pressed ch, now) ∷ ts) =
    IsTyped k ch × (next_length k ch n ≤ max_handle) × Takes k (next_length k ch n) ts
Takes k n ((arrives a, now) ∷ ts) = IsOrdinary a × Takes k n ts
Takes k n ((sorts, now) ∷ ts) = Takes k n ts
