-- ===== src/Client/Protocol.antt =====
-- source/client/client.cpp against source/server/server.cpp: a client only sends packets that a server
-- handles.
use piupiu.Common.{
  ℕ, ◌≤◌, ◌≡◌, refl, inl, inr, true, false, [], ◌∷◌, ◌++◌, Bytes, length, leb, Result, ok, ◌>>=◌,
  IsText, arith, Bool-cases,
}
use piupiu.Messaging.{Packet, next_seqn}
use piupiu.Client.Packets.{
  IsHandled, connect_packet, disconnect_packet, follow_packet, send_packet, info_packet,
  next_seqn_wide,
}
use piupiu.Server.Invariant.{max_handle}
use piupiu.Client.{
  Client, opened, closed, send_message_to_server, shutdown, connect, connect_as, follow_user, post,
  get_info,
}

-- What the user of a client may do.
pub data Command : Type 0 where
  connect_to follow_name post_text : Bytes → Command
  ask_info leave : Command

-- One command; a connection opens a socket.
unfoldable pub issue : Client → Command → ℕ → Result Client
issue c (connect_to handle) now = connect_as c handle c.server_address c.server_port true now
issue c (follow_name handle) now = follow_user c handle now
issue c (post_text text) now = post c text now >>= λ r. ok r.0
issue c ask_info now = get_info c now
issue c leave now = shutdown c now

-- Names are texts of at most 380 bytes, and a message is a text; a client connects once.
abbrev pub IsUsable : Client → Command → Type 0
IsUsable c (connect_to handle) =
    IsText handle × (length handle ≤ max_handle) × (c.has_threads ≡ false)
IsUsable c (follow_name handle) = IsText handle × (length handle ≤ max_handle)
IsUsable c (post_text text) = IsText text
IsUsable c ask_info = Unit
IsUsable c leave = Unit

-- What a command does: it sends one packet under the number behind the next, or it sends none and
-- changes nothing.
pub data Issued (c c' : Client) : Type 0 where
  one :
      (p : Packet)
      → IsHandled (next_seqn (next_seqn c.last_sent_seqn)) p
      → c'.sent ≡ c.sent ++ p ∷ []
      → c'.last_sent_seqn ≡ next_seqn c.last_sent_seqn
      → Issued c c'
  none_sent : c' ≡ c → Issued c c'

-- The client with one packet more and its number.
abbrev sent_one : Client → Packet → Client
sent_one c p = record c { last_sent_seqn = next_seqn c.last_sent_seqn; sent = c.sent ++ p ∷ [] }

-- A usable command of a connected client never fails. It sends one packet, which every server under
-- its invariant handles, and whose number is the last one and two; or it is a post of more than 128
-- bytes, sends none and changes nothing.
pub issue-Issued :
    (c : Client) (command : Command) (now : ℕ)
    → c.descriptor ≡ opened
    → IsText c.profile_handle
    → length c.profile_handle ≤ max_handle
    → IsUsable c command
    → (c' : Client) × (issue c command now ≡ ok c') × Issued c c'
unfolding issue connect connect_as shutdown follow_user post get_info send_message_to_server
issue-Issued c (connect_to handle) now ready t short (text, fits, once) =
    let (p, made, handled) =
      connect_packet (next_seqn c.last_sent_seqn) now handle (next_seqn_wide _) text fits in
    (
      record (sent_one c p) { profile_handle = handle; descriptor = opened; has_threads = true },
      rw (made, once) refl,
      one p handled refl refl,
    )
issue-Issued c (follow_name handle) now ready t short (text, fits) =
    let (p, made, handled) =
      follow_packet (next_seqn c.last_sent_seqn) now handle (next_seqn_wide _) text fits in
    (sent_one c p, rw (made, ready) refl, one p handled refl refl)
issue-Issued c (post_text text) now ready t short h = elim (Bool-cases (leb (length text) 128)) [
  | inl small ↦
      let (p, made, handled) =
        send_packet (next_seqn c.last_sent_seqn) now text (next_seqn_wide _) h
          (ground (arith, small)) in
      (sent_one c p, rw (small, made, ready) refl, one p handled refl refl)
  | inr large ↦ (c, rw large refl, none_sent refl)
]
issue-Issued c ask_info now ready t short h =
    let (p, made, handled) = info_packet (next_seqn c.last_sent_seqn) now (next_seqn_wide _) in
    (sent_one c p, ground (arith, made, ready), one p handled refl refl)
issue-Issued c leave now ready t short h =
    let (p, made, handled) =
      disconnect_packet (next_seqn c.last_sent_seqn) now c.profile_handle (next_seqn_wide _) t
        short in
    (
      record (sent_one c p) { descriptor = closed; is_listening = false },
      rw (made, ready) refl,
      one p handled refl refl,
    )
