-- ===== src/Programs/Served.antt =====
-- source/client/main.cpp: what the client program sends, from its start to its end, to a server.
use mathlib.Core.List.{Permᴰ}
use piupiu.Common.{
  ◌&&◌, ℕ, suc, ◌≢◌, ◌≤◌, ◌≡◌, refl, inl, inr, true, false, List, [], ◌∷◌, map, some, Bytes, length,
  false, ok, All, IsText, arith, Bool-cases, if◌then◌else◌, is_space, skip_space, atoi, atoi_value,
  is_int,
}
use piupiu.Messaging.{Packet}
use piupiu.Sessions.{SocketAddress}
use piupiu.Client.{
  Client, opened, set_message_handler_func, new_client, connect, connect_as, shutdown,
  send_message_to_server, rtrim, keep_byte, trim_copy,
}
use piupiu.Client.Protocol.{connect_to, leave, issue, Issued, issue-Issued}
use piupiu.Server.{Server}
use piupiu.Server.Invariant.{IsServer, max_handle}
use piupiu.Server.Reachable.{Event, receive, run, IsPolite, run_total}
use piupiu.Console.Interface.{ConsoleInterface, Keys, new_console}
use piupiu.Console.Turns.{MainTurn, Takes}
use piupiu.Console.Turns.Total.{IsTalking, length-zero_memory, main_turns_total, start_lem}
use piupiu.Client.Listening.{zero_memory}
use piupiu.Console.Input.{IsConsole}
use piupiu.Client.Packets.{IsWelcome}
use piupiu.Console.Session.{Issued-IsWelcome}
use piupiu.Messaging.Memory.{packet_size, bytes_of}
use piupiu.Replicas.Arrivals.{datagram}
use piupiu.Server.Listening.{Input, arrives, hear_all}
use piupiu.Server.Heard.{Carries, over, whole, left_in, hear_all-run}
use piupiu.Programs.{client_main}

-- A part of a text of `n` bytes
abbrev IsCut : ℕ → Bytes → Type 0
IsCut n s = IsText s × (length s ≤ n)

keep_byte-IsCut : (c n : ℕ) (s : Bytes) → c ≢ 0 → IsCut n s → IsCut (suc n) (keep_byte c s)
keep_byte-IsCut c n [] some_byte h = elim (Bool-cases (is_space c)) [
  | inl e ↦ rw e (tt, omega arith)
  | inr e ↦ rw e ((some_byte, tt), omega arith)
]
keep_byte-IsCut c n (d ∷ s) some_byte h = ((some_byte, h.0), omega (arith, h.1))

rtrim-IsCut : (s : Bytes) → IsText s → IsCut (length s) (rtrim s)
unfolding rtrim
rtrim-IsCut [] h = (tt, omega arith)
rtrim-IsCut (c ∷ s) h = keep_byte-IsCut c (length s) (rtrim s) h.0 (rtrim-IsCut s h.1)

skip_space-IsCut : (s : Bytes) → IsText s → IsCut (length s) (skip_space s)
unfolding skip_space
skip_space-IsCut [] h = (tt, omega arith)
skip_space-IsCut (c ∷ s) h = elim (Bool-cases (is_space c)) [
  | inl e ↦ rw e (let (text, short) = skip_space-IsCut s h.1 in (text, omega (arith, short)))
  | inr e ↦ rw e (h, omega arith)
]

trim_copy-IsCut : (s : Bytes) → IsText s → IsCut (length s) (trim_copy s)
unfolding trim_copy
trim_copy-IsCut s h =
    let (text, short) = skip_space-IsCut s h in
    let (text', short') = rtrim-IsCut (skip_space s) text in (text', omega (arith, short, short'))

connect_kept :
    (c c' : Client) (now : ℕ)
    → connect c true now ≡ ok c'
    → (c'.descriptor ≡ opened)
      × (c'.profile_handle ≡ c.profile_handle)
      × (c'.packet_list ≡ c.packet_list)
      × (c'.has_handler ≡ c.has_handler)
unfolding connect send_message_to_server
connect_kept c c' now e =
    (ground (arith, e), ground (arith, e), ground (arith, e), ground (arith, e))

-- The first packet
connect-Issued :
    (c : Client) (now : ℕ)
    → IsText c.profile_handle
    → length c.profile_handle ≤ max_handle
    → c.has_threads ≡ false
    → (c' : Client) × (connect c true now ≡ ok c') × Issued (record c { descriptor = opened }) c'
unfolding connect connect_as issue
connect-Issued c now text short once =
    issue-Issued (record c { descriptor = opened }) (connect_to c.profile_handle) now refl text
      short (text, short, once)

-- What the main loop starts from
started-IsConsole :
    (c : ConsoleInterface) (client : Client)
    → c.user_input ≡ []
    → c.message_cursor ≡ 0
    → client.descriptor ≡ opened
    → IsText client.profile_handle
    → length client.profile_handle ≤ max_handle
    → IsConsole (record c { client = client; running = true })
started-IsConsole c client empty bottom ready text short = record {
  typed = rw empty tt;
  short = rw empty (omega arith);
  cursor = rw bottom (omega arith);
  ready = ready;
  handle = text;
  handle_short = short;
}

-- The end of the program: the user left, or has not yet.
last_sent :
    (after : ConsoleInterface) (later : ℕ)
    → IsConsole after
    → All IsWelcome after.client.sent
    → (last : Client) × ((if after.running then ok after.client else shutdown after.client later)
        ≡ ok last)
      × All IsWelcome last.sent
unfolding issue
last_sent after later v h = elim (Bool-cases after.running) [
  | inl e ↦ (after.client, rw e refl, h)
  | inr e ↦
      let (last, ran, issued) =
        issue-Issued after.client leave later v.ready v.handle v.handle_short tt in
      (last, rw e ran, Issued-IsWelcome after.client last issued h)
]

client_main_total :
    (sort : List Packet → List Packet) (profile address port : Bytes) (k : Keys)
    (turns : List (MainTurn × ℕ)) (now later : ℕ)
    → ((l : List Packet) → Permᴰ l (sort l))
    → IsText profile
    → length profile ≤ max_handle
    → is_int (atoi_value port) ≡ true
    → Takes k 0 turns
    → (last : Client) × (client_main true sort
          (profile ∷ address ∷ port ∷ [])
          true
          k
          turns
          now
          later
        ≡ ok (some last))
      × All IsWelcome last.sent
unfolding client_main atoi new_console new_client set_message_handler_func
client_main_total sort profile address port k turns now later permutes text short number takes =
    let console = new_console (new_client profile address (atoi_value port)) in
    let (trimmed, cut) = trim_copy-IsCut profile text in
    let (c1, ran, issued) =
      connect-Issued console.client now trimmed (omega (arith, cut, short)) refl in
    let (ready, handle, arrived, handler) = connect_kept console.client c1 now ran in
    let v =
      started-IsConsole console c1 refl refl ready (rw handle trimmed)
        (rw handle (omega (arith, cut, short))) in
    let talking : IsTalking (record console { client = c1; running = true }) zero_memory = record {
      console = v;
      welcome = Issued-IsWelcome (record (console.client) { descriptor = opened }) c1 issued tt;
      texts = rw arrived tt;
      handler = handler;
      size = length-zero_memory;
    } in
    let (after, session) =
      main_turns_total sort permutes k (record console { client = c1; running = true }) zero_memory
        (c1.has_threads && c1.is_listening) turns talking takes in
    let (last, ended, welcome) = last_sent after later session.valid session.welcome in
    let started = start_lem sort k (record console { client = c1 }) turns after session.ran in
    (last, rw (number, ran, started, ended) refl, welcome)

-- The packets of a client arrive from one address.
abbrev pub arrivals : List Packet → SocketAddress → ℕ → List (Event × ℕ)
arrivals ps a now = map (λ p. (receive p a, now)) ps

arrivals_polite :
    (ps : List Packet) (a : SocketAddress) (now : ℕ)
    → All IsWelcome ps
    → All (λ e. IsPolite e.0) (arrivals ps a now)
arrivals_polite [] a now h = tt
arrivals_polite (p ∷ ps) a now h = (h.0.0 a, arrivals_polite ps a now h.1)

-- The datagrams that carry them, whatever the padding of each packet holds
abbrev pub datagrams : (Packet → ℕ × ℕ) → List Packet → SocketAddress → ℕ → List (Input × ℕ)
datagrams padding ps a now =
    map (λ p. (arrives (datagram (bytes_of (padding p).0 (padding p).1 p) a), now)) ps

datagrams-Carries :
    (padding : Packet → ℕ × ℕ) (ps : List Packet) (a : SocketAddress) (now : ℕ)
    → All IsWelcome ps
    → Carries (datagrams padding ps a now) (arrivals ps a now)
datagrams-Carries padding [] a now h = over
datagrams-Carries padding (p ∷ ps) a now h =
    whole (padding p).0 (padding p).1 p a now h.0.1 (datagrams-Carries padding ps a now h.1)

-- Where std::sort permutes, the client program, built so that a function that flows off its end
-- returns, and started for a user whose name is a text of at most 380 bytes, with a port that an
-- `int` holds and a socket that opens, never fails, from its CONNECT to the DISCONNECT behind its
-- main loop, if that ends, in any turns of keys that never make a line of more than 380 bytes, and
-- type no NUL, of arrivals, which are whole packets that end their payload and do not make the
-- client shut down, or errors, and of rounds of `Reorder`. The loop of every server under its
-- invariant, in such a build and whatever its buffer of at least 544 bytes holds, reads the packets
-- back from the client's datagrams, handles them all, from any address, as the history of these
-- packets, and keeps the invariant.
pub client_main_served :
    (sort : List Packet → List Packet) (profile address port : Bytes) (k : Keys)
    (turns : List (MainTurn × ℕ)) (now later : ℕ) (s : Server) (buffer : Bytes)
    (padding : Packet → ℕ × ℕ) (from : SocketAddress) (at : ℕ)
    → ((l : List Packet) → Permᴰ l (sort l))
    → IsText profile
    → length profile ≤ max_handle
    → is_int (atoi_value port) ≡ true
    → Takes k 0 turns
    → IsServer s
    → packet_size ≤ length buffer
    → s.replicas.returns ≡ true
    → (last : Client) × (s' : Server) × (after : Bytes) × (client_main true sort
          (profile ∷ address ∷ port ∷ [])
          true
          k
          turns
          now
          later
        ≡ ok (some last))
      × (hear_all s buffer (datagrams padding last.sent from at) ≡ ok (s', after))
      × (run s (arrivals last.sent from at) ≡ ok s')
      × IsServer s'
client_main_served sort profile address port k turns now later s buffer padding from at permutes
      text short number takes v room on =
    let (last, ran, welcome) =
      client_main_total sort profile address port k turns now later permutes text short number
        takes in
    let (s', handled, kept, _) =
      run_total (arrivals last.sent from at) s v (arrivals_polite last.sent from at welcome) on in
    let heard = hear_all-run s buffer (datagrams-Carries padding last.sent from at welcome) room in
    (
      last,
      s',
      left_in buffer (datagrams padding last.sent from at),
      ran,
      rw handled at heard,
      handled,
      kept,
    )
