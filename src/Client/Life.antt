-- ===== src/Client/Life.antt =====
-- source/client/client.cpp: the life of a client that has connected: the commands of its user, what its
-- `Listen` hears, and the rounds of its `Reorder`, in any order. `sort` is std::sort.
pub mod Commands
pub mod Told
pub mod History
use mathlib.Core.List.{Permᴰ, append_assoc, append-nil}
use mathlib.Core.List.Permᴰ
use piupiu.Common.{
  ℕ, ◌^◌, ◌<◌, ◌≤◌, ◌≡◌, ◌≢◌, refl, sym, ap, ◌∙◌, inl, inr, Bool, true, false, ◌&&◌, List, [], ◌∷◌,
  ◌++◌, map, Bytes, length, leb, ltb, take, ◌==◌, ==_iff, if◌then◌else◌, Result, ok, err, ◌>>=◌,
  All, All-append, IsText, arith, Bool-cases, from_c_array, c_str,
}
use piupiu.Messaging.Kind
use piupiu.Messaging.{Packet, next_seqn}
use piupiu.Messaging.Memory.{IsPacket, packet_size, bytes_of}
use piupiu.Sessions.{SocketAddress}
use piupiu.Replicas.Arrivals.{Arrival, datagram, failure}
use piupiu.Server.Invariant.{max_handle, max_body}
use piupiu.Client.{
  Client, MessageType, error, info, Descriptor, unset, closed, opened, send_message_to_server,
  shutdown, follow_user, post, get_info, hand_over, listen, reorder,
}
use piupiu.Client.Packets.{
  IsWelcome, disconnect_packet, follow_packet, send_packet, info_packet, next_seqn_wide,
}
use piupiu.Client.Protocol.{Command, connect_to, follow_name, post_text, ask_info, leave, issue}
use piupiu.Client.Reorder.{HasText, handed, reorder_lem}
use piupiu.Client.Listening.{hear, listen_round, listen_round-whole}

pub data Happening : Type 0 where
  command : Command → Happening
  arrives : Arrival → Happening
  sorts : Happening

-- One happening, on the client, the memory of the packet of `Listen`, and whether its loop waits
unfoldable pub happen :
    (List Packet → List Packet)
    → Client
    → Bytes
    → Bool
    → Happening
    → ℕ
    → Result (Client × Bytes × Bool)
happen sort c memory waiting (command x) now = do c' ← issue c x now; ok (c', memory, waiting)
happen sort c memory waiting (arrives a) now = hear c memory waiting a now
happen sort c memory waiting sorts now = do c' ← reorder sort c; ok (c', memory, waiting)

unfoldable pub live :
    (List Packet → List Packet)
    → Client
    → Bytes
    → Bool
    → List (Happening × ℕ)
    → Result (Client × Bytes × Bool)
live sort c memory waiting [] = ok (c, memory, waiting)
live sort c memory waiting ((h, now) ∷ hs) = do
  (c', memory', waiting') ← happen sort c memory waiting h now
  live sort c' memory' waiting' hs

-- A client that has connected
pub record IsClient (c : Client) : Type 0 where
  pub socket : c.descriptor ≢ unset
  pub handle : IsText c.profile_handle
  pub short : length c.profile_handle ≤ max_handle
  pub texts : All HasText c.packet_list
  pub welcome : All IsWelcome c.sent

-- What the user is to read of a packet
abbrev pub news : Packet → List (Bytes × MessageType)
news p =
    if p.type == Kind.notification
    then handed p ∷ []
    else if p.type == Kind.error
    then (c_str p.payload, error) ∷ []
    else if p.type == Kind.info
    then (c_str p.payload, info) ∷ []
    else []

-- A packet that does not make the client shut down
abbrev pub goes_on : Packet → Bool
goes_on p =
    if p.type == Kind.accept_conn_cmd
    then true
    else if p.type == Kind.notification
    then true
    else if p.type == Kind.error
    then true
    else p.type == Kind.info

-- What the user has been handed, or is to be by the next round of `Reorder`
abbrev pub told : Client → List (Bytes × MessageType)
told c = c.messages ++ map handed c.packet_list

-- Where a happening leads: the client is one still, listens or not, and is told this news.
pub record Leads (c : Client) (listening : Bool) (ns : List (Bytes × MessageType)) (c' : Client)
    : Type 0 where
  pub client : IsClient c'
  pub handler : c'.has_handler ≡ c.has_handler
  pub listens : c'.is_listening ≡ listening
  pub tells : Permᴰ (told c') (told c ++ ns)

-- What the user of a connected client does: names have at most 380 bytes, and all texts have no NUL.
pub data IsOrdinary : Command → Type 0 where
  follows :
      (handle : Bytes)
      → IsText handle
      → length handle ≤ max_handle
      → IsOrdinary (follow_name handle)
  posts : (text : Bytes) → IsText text → IsOrdinary (post_text text)
  asks : IsOrdinary ask_info
  leaves : IsOrdinary leave

abbrev pub listening_after : Command → Bool → Bool
listening_after leave b = false
listening_after _ b = b
