-- ===== src/Messaging.antt =====
-- source/messaging/Packet.hpp and Packet.cpp: the packet, its types and its builders. The clock that
-- the builders read is their argument `now`. A builder that copies a text into the payload may
-- overrun it; the others cannot fail. Designated initialisers leave the rest of the payload zero.
pub mod Kind
pub mod Payload
pub mod Memory
pub mod Sized
use piupiu.Common.{
  ℕ, ◌+◌, ◌%◌, ◌^◌, ◌≡◌, List, [], ◌∷◌, ◌++◌, Bytes, codes, replicate, length, strcpy, Result, ok,
  err, no_value, ◌>>=◌, ◌==◌, if◌then◌else◌, length-replicate, arith,
}

abbrev pub packet_max_payload_len : ℕ
packet_max_payload_len = 512

-- `type` and `length` are uint16_t, `seqn` and `timestamp` uint64_t.
pub record Packet : Type 0 where
  pub type : ℕ
  pub seqn : ℕ
  pub length : ℕ
  pub timestamp : ℕ
  pub payload : Bytes

unfoldable pub zero_payload : Bytes
zero_payload = replicate packet_max_payload_len 0

-- The designated initialiser that every builder starts with.
unfoldable pub make_packet : ℕ → ℕ → ℕ → ℕ → Packet
make_packet type seqn len now = record {
  type = type;
  seqn = seqn;
  length = len % 2 ^ 16;
  timestamp = now % 2 ^ 64;
  payload = zero_payload;
}

-- `strcpy(p.payload, text.c_str())`
unfoldable pub put_text : Packet → Bytes → Result Packet
put_text p text = do payload ← strcpy p.payload text; ok (record p { payload = payload })

-- `lastSeqn + 1` on uint64_t
unfoldable pub next_seqn : ℕ → ℕ
next_seqn last_seqn = (last_seqn + 1) % 2 ^ 64

unfoldable pub make_connect_command : ℕ → Bytes → ℕ → Result Packet
make_connect_command last_seqn handle now =
    put_text (make_packet Kind.connect_cmd (next_seqn last_seqn) (length handle) now) handle

unfoldable pub make_disconnect_command : ℕ → Bytes → ℕ → Result Packet
make_disconnect_command last_seqn handle now =
    put_text (make_packet Kind.disconnect_cmd (next_seqn last_seqn) (length handle) now) handle

unfoldable pub make_accept_conn_command : ℕ → ℕ → Packet
make_accept_conn_command last_seqn now =
    make_packet Kind.accept_conn_cmd (next_seqn last_seqn) 0 now

unfoldable pub make_reject_conn_command : ℕ → ℕ → Packet
make_reject_conn_command last_seqn now =
    make_packet Kind.reject_conn_cmd (next_seqn last_seqn) 0 now

unfoldable pub make_follow_command : ℕ → Bytes → ℕ → Result Packet
make_follow_command last_seqn handle now =
    put_text (make_packet Kind.follow_cmd (next_seqn last_seqn) (length handle) now) handle

unfoldable pub make_send_command : ℕ → Bytes → ℕ → Result Packet
make_send_command last_seqn message now =
    put_text (make_packet Kind.send_cmd (next_seqn last_seqn) (length message) now) message

-- "@" + sender + ":\n" + message
abbrev pub notification_text : Bytes → Bytes → Bytes
notification_text message sender = codes "@" ++ (sender ++ (codes ":\n" ++ message))

unfoldable pub make_notification : ℕ → Bytes → Bytes → ℕ → Result Packet
make_notification last_seqn message sender now =
    put_text (make_packet Kind.notification (next_seqn last_seqn) (length message) now)
      (notification_text message sender)

unfoldable pub make_error : ℕ → Bytes → ℕ → Result Packet
make_error last_seqn reason now =
    put_text (make_packet Kind.error (next_seqn last_seqn) (length reason) now)
      (codes "Error: " ++ reason)

unfoldable pub make_info : ℕ → Bytes → ℕ → Result Packet
make_info last_seqn message now =
    put_text (make_packet Kind.info (next_seqn last_seqn) (length message) now) message

unfoldable pub make_request_user_info : ℕ → ℕ → Packet
make_request_user_info last_seqn now =
    make_packet Kind.request_user_info (next_seqn last_seqn) 0 now

unfoldable pub make_confirm_state_change_message : ℕ → ℕ → Packet
make_confirm_state_change_message seqn_to_be_confirmed now =
    make_packet Kind.confirm_state_change seqn_to_be_confirmed 0 now

-- The switch has no default: any other type flows off the end of the function.
unfoldable pub type_to_str : ℕ → Result Bytes
type_to_str type =
    if type == Kind.connect_cmd
    then ok (codes "PACKED_CONNECT_CMD")
    else if type == Kind.disconnect_cmd
    then ok (codes "PACKET_DISCONNECT_CMD")
    else if type == Kind.accept_conn_cmd
    then ok (codes "PACKET_ACCEPT_CONN_CMD")
    else if type == Kind.reject_conn_cmd
    then ok (codes "PACKET_REJECT_CONN")
    else if type == Kind.follow_cmd
    then ok (codes "PACKET_FOLLOW_CMD")
    else if type == Kind.send_cmd
    then ok (codes "PACKET_SEND_CMD")
    else if type == Kind.error
    then ok (codes "PACKET_ERROR")
    else if type == Kind.notification
    then ok (codes "PACKET_NOTIFICATION")
    else if type == Kind.info
    then ok (codes "PACKET_INFO")
    else if type == Kind.confirm_state_change
    then ok (codes "PACKET_CONFIRM_STATE_CHANGE")
    else err no_value

pub length-zero_payload : length zero_payload ≡ packet_max_payload_len
unfolding zero_payload
length-zero_payload = length-replicate {A = ℕ} packet_max_payload_len 0
