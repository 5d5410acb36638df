-- ===== src/Messaging/Kind.antt =====
-- The PACKET_ constants of source/messaging/Packet.hpp.
use piupiu.Common.{ℕ}

abbrev pub connect_cmd : ℕ
connect_cmd = 0

abbrev pub disconnect_cmd : ℕ
disconnect_cmd = 1

abbrev pub accept_conn_cmd : ℕ
accept_conn_cmd = 2

abbrev pub reject_conn_cmd : ℕ
reject_conn_cmd = 3

abbrev pub follow_cmd : ℕ
follow_cmd = 4

abbrev pub send_cmd : ℕ
send_cmd = 5

abbrev pub notification : ℕ
notification = 6

abbrev pub error : ℕ
error = 7

abbrev pub info : ℕ
info = 8

abbrev pub request_user_info : ℕ
request_user_info = 9

abbrev pub confirm_state_change : ℕ
confirm_state_change = 10
