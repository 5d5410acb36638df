-- ===== src/Client.antt =====
-- source/client/client.hpp, client.cpp and utils.hpp. The calls of the user are functions from a
-- client to a client, or to the fault that ends the process. The static `lastSentSeqn` belongs to the
-- one client of a process. `now` is what the clock gives.
pub mod Packets
pub mod Protocol
pub mod Listening
pub mod Life
pub mod Reorder
use piupiu.Common.{
  pos, negsuc, suc, show_ℕ, ℕ, Bool, true, false, ◌&&◌, List, [], ◌∷◌, ◌++◌, Bytes, ℤ, length, leb,
  ◌==◌, if◌then◌else◌, Result, ok, err, ◌>>=◌, indeterminate, uncaught, is_space, skip_space,
  from_c_array, pos,
}
use piupiu.Messaging.Kind
use piupiu.Messaging.{
  Packet, next_seqn, make_connect_command, make_disconnect_command, make_follow_command,
  make_send_command, make_request_user_info,
}

-- `socketDescr`, which nothing sets before `Connect`
pub data Descriptor : Type 0 where
  unset closed opened : Descriptor

-- MessageType
pub data MessageType : Type 0 where
  notification error info : MessageType

-- `sent` holds all that were handed to sendto() on an open descriptor, and `messages` all that were
-- handed to the message handler, in order. `has_threads` says that `listeningThread` and `reorderThread`
-- are set.
pub record Client : Type 0 where
  pub profile_handle : Bytes
  pub server_address : Bytes
  pub server_port : ℤ
  pub descriptor : Descriptor
  pub last_sent_seqn : ℕ
  pub connected : Bool
  pub is_listening : Bool
  pub has_handler : Bool
  pub has_threads : Bool
  pub packet_list : List Packet
  pub sent : List Packet
  pub messages : List (Bytes × MessageType)

-- A byte in front of what is left: a blank in front of nothing goes.
abbrev pub keep_byte : ℕ → Bytes → Bytes
keep_byte c [] = if is_space c then [] else c ∷ []
keep_byte c (d ∷ ds) = c ∷ d ∷ ds

-- The blanks at the end go.
unfoldable pub rtrim : Bytes → Bytes
rtrim [] = []
rtrim (c ∷ cs) = keep_byte c (rtrim cs)

unfoldable pub trim_copy : Bytes → Bytes
trim_copy s = rtrim (skip_space s)

unfoldable pub new_client : Bytes → Bytes → ℤ → Client
new_client profile_handle server_address server_port = record {
  profile_handle = trim_copy profile_handle;
  server_address = server_address;
  server_port = server_port;
  descriptor = unset;
  last_sent_seqn = 0;
  connected = false;
  is_listening = true;
  has_handler = false;
  has_threads = false;
  packet_list = [];
  sent = [];
  messages = [];
}

-- `Client()` sets no port: it is what the memory held.
unfoldable pub default_client : ℤ → Client
default_client unset_port = record {
  profile_handle = [];
  server_address = [];
  server_port = unset_port;
  descriptor = unset;
  last_sent_seqn = 0;
  connected = false;
  is_listening = true;
  has_handler = false;
  has_threads = false;
  packet_list = [];
  sent = [];
  messages = [];
}

unfoldable pub send_message_to_server : Client → Packet → Result Client
send_message_to_server c message = elim c.descriptor [
  | unset ↦ err indeterminate
  | closed ↦ ok c
  | opened ↦ ok (record c { sent = c.sent ++ message ∷ [] })
]

-- `++lastSentSeqn`
abbrev pub count_up : Client → Client
count_up c = record c { last_sent_seqn = next_seqn c.last_sent_seqn }

unfoldable pub shutdown : Client → ℕ → Result Client
shutdown c now = do
  let c' = count_up c
  message ← make_disconnect_command c'.last_sent_seqn c'.profile_handle now
  after ← send_message_to_server c' message
  ok (record after { descriptor = closed; is_listening = false })

-- The threads of `Connect`: to put a new std::thread in the place of one that runs calls std::terminate,
-- as an exception that nobody catches does.
unfoldable pub start_threads : Client → Result Client
start_threads c = if c.has_threads then err uncaught else ok (record c { has_threads = true })

-- `Connect()`; `can_open` is whether socket() gives a descriptor.
unfoldable pub connect : Client → Bool → ℕ → Result Client
unfolding start_threads
connect c can_open now =
    if can_open
    then (do
      let c' = record (count_up c) { descriptor = opened }
      message ← make_connect_command c'.last_sent_seqn c'.profile_handle now
      after ← send_message_to_server c' message
      start_threads after)
    else ok (record c { descriptor = closed })

-- `Connect(profileHandle, serverAddress, serverPort)`
unfoldable pub connect_as : Client → Bytes → Bytes → ℤ → Bool → ℕ → Result Client
unfolding connect
connect_as c profile_handle server_address server_port can_open now =
    connect
      (record c {
        profile_handle = profile_handle;
        server_address = server_address;
        server_port = server_port;
      })
      can_open now

unfoldable pub follow_user : Client → Bytes → ℕ → Result Client
follow_user c profile now = do
  let c' = count_up c
  message ← make_follow_command c'.last_sent_seqn profile now
  send_message_to_server c' message

-- The client and what `Post` returns
unfoldable pub post : Client → Bytes → ℕ → Result (Client × ℕ)
post c text now =
    if leb (length text) 128
    then (do
      let c' = count_up c
      message ← make_send_command c'.last_sent_seqn text now
      after ← send_message_to_server c' message
      ok (after, 0))
    else ok (c, 1)

-- `GetInfo` is declared to return an `int` and returns none.
unfoldable pub get_info : Client → ℕ → Result Client
get_info c now =
    let c' = count_up c in send_message_to_server c' (make_request_user_info c'.last_sent_seqn now)

-- `messageHandler(payload, type)`, if there is a handler
unfoldable pub hand_over : Client → Packet → MessageType → Result Client
hand_over c p type =
    if c.has_handler
    then (do
      message ← from_c_array p.payload
      ok (record c { messages = c.messages ++ (message, type) ∷ [] }))
    else ok c

-- `Listen`: what a packet that was received does.
unfoldable pub listen : Client → Packet → ℕ → Result Client
unfolding hand_over shutdown
listen c p now =
    if p.type == Kind.accept_conn_cmd
    then ok (record c { connected = true })
    else if p.type == Kind.reject_conn_cmd
    then shutdown c now
    else if p.type == Kind.notification
    then ok (record c { packet_list = c.packet_list ++ p ∷ [] })
    else if p.type == Kind.error
    then hand_over c p error
    else if p.type == Kind.info
    then hand_over c p info
    else shutdown c now

-- The loop of `Reorder` over the packets: each is read, and handed over if there is a handler.
unfoldable pub hand_over_all : Client → List Packet → Result Client
hand_over_all c [] = ok c
hand_over_all c (p ∷ ps) = do
  message ← from_c_array p.payload
  let c' =
      if c.has_handler
      then record c { messages = c.messages ++ (message, notification) ∷ [] }
      else c
  hand_over_all c' ps

-- One round of `Reorder`, with `std::sort` as an argument.
unfoldable pub reorder : (List Packet → List Packet) → Client → Result Client
unfolding hand_over_all
reorder sort c = do
  after ← hand_over_all c (sort c.packet_list)
  ok (record after { packet_list = [] })

-- `stringstream << port` on an `int`
abbrev pub show_int : ℤ → Bytes
show_int (pos n) = show_ℕ n
show_int (negsuc n) = b'-' ∷ show_ℕ (suc n)

unfoldable pub get_host_str : Client → Bytes
get_host_str c = c.server_address ++ (b':' ∷ show_int c.server_port)

-- The setters
unfoldable pub set_profile_handle : Client → Bytes → Client
set_profile_handle c profile_handle = record c { profile_handle = profile_handle }

unfoldable pub set_server_address : Client → Bytes → Client
set_server_address c server_address = record c { server_address = server_address }

unfoldable pub set_server_port : Client → ℤ → Client
set_server_port c port = record c { server_port = port }

unfoldable pub set_message_handler_func : Client → Client
set_message_handler_func c = record c { has_handler = true }
