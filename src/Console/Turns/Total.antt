-- ===== src/Console/Turns/Total.antt =====
-- source/client/console/console.cpp and source/client/client.cpp: the main loop of the interface with
-- the threads of the client at its side, in any turns.
use mathlib.Core.List.{Permᴰ}
use piupiu.Common.{
  ℕ, ◌≤◌, ◌≡◌, ◌≢◌, refl, ap, sym, ◌∙◌, inl, inr, Bool, true, false, List, [], ◌∷◌, ◌++◌, map,
  Bytes, length, drop, ◌==◌, ◌&&◌, length-replicate, ok, All, arith, Bool-cases,
}
use piupiu.Messaging.Kind
use piupiu.Messaging.{Packet}
use piupiu.Messaging.Memory.{packet_size}
use piupiu.Replicas.Arrivals.{Arrival, failure}
use piupiu.Server.Invariant.{max_handle}
use piupiu.Client.{
  Client, MessageType, notification, error, info, unset, opened, hand_over, listen, reorder,
}
use piupiu.Client.Packets.{IsWelcome}
use piupiu.Client.Listening
use piupiu.Client.Listening.{
  zero_memory, hear-on, hear-off, listen_round-whole, listen_round-failure,
}
use piupiu.Client.Reorder.{HasText, handed, reorder_lem}
use piupiu.Client.Life.{IsClient, goes_on}
use piupiu.Client.Life.Told.{listen-Leads}
use piupiu.Console.Interface.{
  ConsoleInterface, Keys, incoming_message_handler, incoming_messages, hear, reorder_round,
}
use piupiu.Console.Input.{IsConsole, Kept, client-IsConsole, message-IsConsole}
use piupiu.Console.Session.{IsTyped, next_length, get_user_input_lem}
use piupiu.Console.Turns.{
  MainTurn, pressed, arrives, sorts, main_turn, main_turns, start, IsOrdinary, whole, lost, Takes,
}

-- An interface and the memory of `Listen` between two turns
pub record IsTalking (c : ConsoleInterface) (memory : Bytes) : Type 0 where
  pub console : IsConsole c
  pub welcome : All IsWelcome c.client.sent
  pub texts : All HasText c.client.packet_list
  pub handler : c.client.has_handler ≡ true
  pub size : length memory ≡ packet_size

-- Messages that come in reach neither the client nor the line.
record Told (c c' : ConsoleInterface) : Type 0 where
  valid : IsConsole c'
  client : c'.client ≡ c.client
  line : c'.user_input ≡ c.user_input

handler-Told :
    (c : ConsoleInterface) (message : Bytes) (type : MessageType) (now : ℕ)
    → IsConsole c
    → Told c (incoming_message_handler c message type now)
unfolding incoming_message_handler
handler-Told c message notification now v = record {
  valid = message-IsConsole c _ v;
  client = refl;
  line = refl;
}
handler-Told c message info now v = record {
  valid = message-IsConsole c _ v;
  client = refl;
  line = refl;
}
handler-Told c message error now v = record {
  valid = message-IsConsole c _ v;
  client = refl;
  line = refl;
}

messages-Told :
    (c : ConsoleInterface) (ms : List (Bytes × MessageType)) (now : ℕ)
    → IsConsole c
    → Told c (incoming_messages c ms now)
unfolding incoming_messages
messages-Told c [] now v = record { valid = v; client = refl; line = refl }
messages-Told c ((message, type) ∷ ms) now v =
    let first = handler-Told c message type now v in
    let rest = messages-Told (incoming_message_handler c message type now) ms now first.valid in
    record {
      valid = rest.valid;
      client = rest.client ∙ first.client;
      line = rest.line ∙ first.line;
    }

-- A packet that goes on leaves the descriptor and the handle alone.
listen-Kept :
    (c c' : Client) (p : Packet) (now : ℕ)
    → goes_on p ≡ true
    → HasText p
    → listen c p now ≡ ok c'
    → Kept c c'
unfolding listen hand_over
listen-Kept c c' p now on text e = elim (Bool-cases (p.type == Kind.accept_conn_cmd)) [
  | inl e0 ↦ record { descriptor = ground (arith, e, e0); profile_handle = ground (arith, e, e0) }
  | inr e0 ↦ record {
    descriptor = ground (arith, e, e0, on, text);
    profile_handle = ground (arith, e, e0, on, text);
  }
]

-- The client went on, and what it handed over reached the interface.
hear-IsTalking :
    (c : ConsoleInterface) (memory memory' : Bytes) (client : Client) (now : ℕ)
    → IsTalking c memory
    → Kept c.client client
    → All IsWelcome client.sent
    → All HasText client.packet_list
    → client.has_handler ≡ true
    → length memory' ≡ packet_size
    → IsTalking (hear c client now) memory' × ((hear c client now).user_input ≡ c.user_input)
unfolding hear
hear-IsTalking c memory memory' client now v kept welcome texts handler size =
    let told =
      messages-Told (record c { client = client }) (drop (length c.client.messages) client.messages)
        now (client-IsConsole c client v.console kept) in
    (
      record {
        console = told.valid;
        welcome = rw told.client welcome;
        texts = rw told.client texts;
        handler = rw told.client handler;
        size = size;
      },
      told.line,
    )

-- What a turn leads to
abbrev Turned :
    (List Packet → List Packet) → Keys → ConsoleInterface → Bytes → Bool → MainTurn → ℕ → ℕ → Type 0
Turned sort k c memory waiting t now n =
    (c' : ConsoleInterface) × (memory' : Bytes) × (waiting' : Bool) × (main_turn sort k c memory
        waiting t now
      ≡ ok (c', memory', waiting'))
    × IsTalking c' memory'
    × (length c'.user_input ≡ n)

pressed_lem :
    (sort : List Packet → List Packet) (k : Keys) (c : ConsoleInterface) (memory : Bytes)
    (waiting : Bool) (ch now : ℕ)
    → IsTalking c memory
    → IsTyped k ch
    → next_length k ch (length c.user_input) ≤ max_handle
    → Turned sort k c memory waiting (pressed ch) now (next_length k ch (length c.user_input))
unfolding main_turn
pressed_lem sort k c memory waiting ch now v typed fits =
    let (c', ran, p) = get_user_input_lem k c ch now v.console typed fits in
    (
      c',
      memory,
      waiting,
      rw ran refl,
      record {
        console = p.valid;
        welcome = p.welcome v.welcome;
        texts = rw p.inert.packet_list v.texts;
        handler = p.inert.has_handler ∙ v.handler;
        size = v.size;
      },
      p.line,
    )

-- What `Listen` does, from what it makes of the client and the memory
heard_lem :
    (sort : List Packet → List Packet) (k : Keys) (c : ConsoleInterface) (memory : Bytes)
    (waiting : Bool) (a : Arrival) (now : ℕ) (client : Client) (memory' : Bytes) (waiting' : Bool)
    → IsTalking c memory
    → Listening.hear c.client memory waiting a now ≡ ok (client, memory', waiting')
    → Kept c.client client
    → All IsWelcome client.sent
    → All HasText client.packet_list
    → client.has_handler ≡ true
    → length memory' ≡ packet_size
    → Turned sort k c memory waiting (arrives a) now (length c.user_input)
unfolding main_turn
heard_lem sort k c memory waiting a now client memory' waiting' v ran kept welcome texts handler
      size =
    let (talking, line) =
      hear-IsTalking c memory memory' client now v kept welcome texts handler size in
    (hear c client now, memory', waiting', rw ran refl, talking, ap length line)

-- Where the loop waits, it hears the arrival.
waits_lem :
    (sort : List Packet → List Packet) (k : Keys) (c : ConsoleInterface) (memory : Bytes)
    (waiting : Bool) (a : Arrival) (now : ℕ)
    → IsTalking c memory
    → waiting ≡ true
    → IsOrdinary a
    → Turned sort k c memory waiting (arrives a) now (length c.user_input)
waits_lem sort k c memory waiting _ now v on (whole padding0 padding1 p from fits text goes) =
    let before : IsClient c.client = record {
      socket = λ e. not_unset (sym e ∙ v.console.ready);
      handle = v.console.handle;
      short = v.console.handle_short;
      texts = v.texts;
      welcome = v.welcome;
    } in
    let (client, ran, leads) = listen-Leads c.client p now before text v.handler refl in
    let (memory', size, round) =
      listen_round-whole c.client memory padding0 padding1 p from now v.size fits in
    heard_lem sort k c memory waiting _ now client memory' client.is_listening v
      (hear-on c.client client memory memory' waiting _ now on (round ∙ rw ran refl))
      (listen-Kept c.client client p now goes text ran) leads.client.welcome leads.client.texts
      (leads.handler ∙ v.handler) size
  where
    not_unset : unset ≢ opened
    not_unset e = cc
waits_lem sort k c memory waiting _ now v on lost =
    heard_lem sort k c memory waiting failure now c.client memory c.client.is_listening v
      (hear-on c.client c.client memory memory waiting failure now on
        (listen_round-failure c.client memory now))
      (record { descriptor = refl; profile_handle = refl }) v.welcome v.texts v.handler v.size

arrives_lem :
    (sort : List Packet → List Packet) (k : Keys) (c : ConsoleInterface) (memory : Bytes)
    (waiting : Bool) (a : Arrival) (now : ℕ)
    → IsTalking c memory
    → IsOrdinary a
    → Turned sort k c memory waiting (arrives a) now (length c.user_input)
arrives_lem sort k c memory waiting a now v x = elim (Bool-cases waiting) [
  | inl on ↦ waits_lem sort k c memory waiting a now v on x
  | inr off ↦
      heard_lem sort k c memory waiting a now c.client memory false v
        (hear-off c.client memory waiting a now off)
        (record { descriptor = refl; profile_handle = refl }) v.welcome v.texts v.handler v.size
]

sorts_lem :
    (sort : List Packet → List Packet) (k : Keys) (c : ConsoleInterface) (memory : Bytes)
    (waiting : Bool) (now : ℕ)
    → Permᴰ c.client.packet_list (sort c.client.packet_list)
    → IsTalking c memory
    → Turned sort k c memory waiting sorts now (length c.user_input)
unfolding main_turn reorder_round
sorts_lem sort k c memory waiting now permuted v =
    let client : Client = record (c.client) {
      messages = c.client.messages ++ map handed (sort c.client.packet_list);
      packet_list = [];
    } in
    let ran : reorder sort c.client ≡ ok client =
      reorder_lem sort c.client permuted v.texts ∙ rw v.handler refl in
    let (talking, line) =
      hear-IsTalking c memory memory client now v
        (record { descriptor = refl; profile_handle = refl }) v.welcome tt v.handler v.size in
    (hear c client now, memory, waiting, rw ran refl, talking, ap length line)

pub length-zero_memory : length zero_memory ≡ packet_size
unfolding zero_memory
length-zero_memory = length-replicate {A = ℕ} packet_size 0

-- Where a session leads
pub record Sessioned (sort : List Packet → List Packet) (k : Keys) (c : ConsoleInterface)
    (memory : Bytes) (waiting : Bool) (ts : List (MainTurn × ℕ)) (c' : ConsoleInterface)
    : Type 0 where
  pub ran : main_turns sort k c memory waiting ts ≡ ok c'
  pub valid : IsConsole c'
  pub welcome : All IsWelcome c'.client.sent

-- A turn, and the session behind it
turned_Sessioned :
    (sort : List Packet → List Packet) (k : Keys) (c c1 c2 : ConsoleInterface)
    (memory memory1 : Bytes) (waiting waiting1 : Bool) (t : MainTurn) (now : ℕ)
    (ts : List (MainTurn × ℕ))
    → c.running ≡ true
    → main_turn sort k c memory waiting t now ≡ ok (c1, memory1, waiting1)
    → Sessioned sort k c1 memory1 waiting1 ts c2
    → Sessioned sort k c memory waiting ((t, now) ∷ ts) c2
unfolding main_turns
turned_Sessioned sort k c c1 c2 memory memory1 waiting waiting1 t now ts on first later = record {
  ran = ground (arith, on, first, later.ran);
  valid = later.valid;
  welcome = later.welcome;
}

stopped_Sessioned :
    (sort : List Packet → List Packet) (k : Keys) (c : ConsoleInterface) (memory : Bytes)
    (waiting : Bool) (t : MainTurn) (now : ℕ) (ts : List (MainTurn × ℕ))
    → c.running ≡ false
    → IsTalking c memory
    → Sessioned sort k c memory waiting ((t, now) ∷ ts) c
unfolding main_turns
stopped_Sessioned sort k c memory waiting t now ts off v = record {
  ran = rw off refl;
  valid = v.console;
  welcome = v.welcome;
}

module _ (sort : List Packet → List Packet) (permutes : (l : List Packet) → Permᴰ l (sort l)) where
  turn_lem :
      (k : Keys) (c : ConsoleInterface) (memory : Bytes) (waiting : Bool) (t : MainTurn) (now : ℕ)
      (ts : List (MainTurn × ℕ))
      → IsTalking c memory
      → Takes k (length c.user_input) ((t, now) ∷ ts)
      → (n : ℕ) × Turned sort k c memory waiting t now n × Takes k n ts
  turn_lem k c memory waiting (pressed ch) now ts v h =
      (_, pressed_lem sort k c memory waiting ch now v h.0 h.1, h.2)
  turn_lem k c memory waiting (arrives a) now ts v h =
      (_, arrives_lem sort k c memory waiting a now v h.0, h.1)
  turn_lem k c memory waiting sorts now ts v h =
      (_, sorts_lem sort k c memory waiting now (permutes c.client.packet_list) v, h)

  -- Where std::sort permutes, no session of such turns fails.
  pub main_turns_total :
      (k : Keys) (c : ConsoleInterface) (memory : Bytes) (waiting : Bool) (ts : List (MainTurn × ℕ))
      → IsTalking c memory
      → Takes k (length c.user_input) ts
      → (c' : ConsoleInterface) × Sessioned sort k c memory waiting ts c'
  unfolding main_turns
  main_turns_total k c memory waiting [] v h =
      (c, record { ran = refl; valid = v.console; welcome = v.welcome })
  main_turns_total k c memory waiting ((t, now) ∷ ts) v h = elim (Bool-cases c.running) [
    | inl on ↦
        let (n, (c1, memory1, waiting1, ran, talking, line), rest) =
          turn_lem k c memory waiting t now ts v h in
        let (c2, later) = main_turns_total k c1 memory1 waiting1 ts talking (rw line rest) in
        (c2, turned_Sessioned sort k c c1 c2 memory memory1 waiting waiting1 t now ts on ran later)
    | inr off ↦ (c, stopped_Sessioned sort k c memory waiting t now ts off v)
  ]

-- A console that starts, and comes back or still runs
pub start_lem :
    (sort : List Packet → List Packet) (k : Keys) (c : ConsoleInterface) (ts : List (MainTurn × ℕ))
    (after : ConsoleInterface)
    → main_turns sort k
        (record c { running = true })
        zero_memory
        (c.client.has_threads && c.client.is_listening)
        ts
      ≡ ok after
    → start true sort k c ts ≡ ok after
unfolding start
start_lem sort k c ts after ran = elim (Bool-cases after.running) [
  | inl e ↦ ground (arith, ran, e)
  | inr e ↦ ground (arith, ran, e)
]
