-- ===== src/Messaging/Sized.antt =====
-- source/messaging/Packet.cpp: what the builders make fits the members of the struct.
use piupiu.Common.{
  ℕ, ◌^◌, ◌<◌, ◌≡◌, ◌∙◌, inl, inr, List, [], ◌∷◌, Bytes, length-strcpy, strcpy, Result, ok,
  >>=-eq-ok, Member, All, arith,
}
use piupiu.Messaging.{
  Packet, make_packet, put_text, next_seqn, length-zero_payload, make_connect_command,
  make_disconnect_command, make_accept_conn_command, make_reject_conn_command, make_follow_command,
  make_send_command, make_notification, make_error, make_info, make_request_user_info,
  make_confirm_state_change_message,
}
use piupiu.Messaging.Memory.{IsPacket}

pub make_packet-IsPacket :
    (type seqn len now : ℕ)
    → type < 2 ^ 16
    → seqn < 2 ^ 64
    → IsPacket (make_packet type seqn len now)
unfolding make_packet
make_packet-IsPacket type seqn len now t s = record {
  type_fits = t;
  seqn_fits = s;
  length_fits = omega arith;
  timestamp_fits = omega arith;
  payload_fits = length-zero_payload;
}

pub put_text-IsPacket :
    (p : Packet) (text : Bytes) (q : Packet) → IsPacket p → put_text p text ≡ ok q → IsPacket q
unfolding put_text
put_text-IsPacket p text q h e =
    let (payload, copied, made) =
      >>=-eq-ok (strcpy p.payload text) (λ a. ok (record p { payload = a })) e in
    let is_q : record p { payload = payload } ≡ q = ground (arith, made) in
    rw (← is_q) (record {
      type_fits = h.type_fits;
      seqn_fits = h.seqn_fits;
      length_fits = h.length_fits;
      timestamp_fits = h.timestamp_fits;
      payload_fits = length-strcpy p.payload text copied ∙ h.payload_fits;
    })

-- What each builder makes of a number, a text, a sender and a time
abbrev pub built : ℕ → Bytes → Bytes → ℕ → List (Result Packet)
built n text sender now =
    make_connect_command n text now
    ∷ make_disconnect_command n text now
    ∷ ok (make_accept_conn_command n now)
    ∷ ok (make_reject_conn_command n now)
    ∷ make_follow_command n text now
    ∷ make_send_command n text now
    ∷ make_notification n text sender now
    ∷ make_error n text now
    ∷ make_info n text now
    ∷ ok (make_request_user_info n now)
    ∷ ok (make_confirm_state_change_message n now)
    ∷ []

abbrev Makes : Result Packet → Type 0
Makes r = (p : Packet) → r ≡ ok p → IsPacket p

puts :
    (type n len now : ℕ) (text : Bytes)
    → type < 11
    → Makes (put_text (make_packet type (next_seqn n) len now) text)
unfolding next_seqn
puts type n len now text t p =
    put_text-IsPacket (make_packet type (next_seqn n) len now) text p
      (make_packet-IsPacket type (next_seqn n) len now (omega arith) (omega arith))

makes : (type seqn now : ℕ) → type < 11 → seqn < 2 ^ 64 → Makes (ok (make_packet type seqn 0 now))
makes type seqn now t s p e =
    let is_p : make_packet type seqn 0 now ≡ p = ground (arith, e) in
    rw (← is_p) (make_packet-IsPacket type seqn 0 now (omega arith) s)

built-All :
    (n : ℕ) (text sender : Bytes) (now : ℕ) → n < 2 ^ 64 → All Makes (built n text sender now)
unfolding make_connect_command make_disconnect_command make_accept_conn_command
    make_reject_conn_command make_follow_command make_send_command make_notification make_error
    make_info make_request_user_info make_confirm_state_change_message next_seqn
built-All n text sender now h = (
  puts 0 n _ now _ (omega arith),
  (
    puts 1 n _ now _ (omega arith),
    (
      makes 2 _ now (omega arith) (omega arith),
      (
        makes 3 _ now (omega arith) (omega arith),
        (
          puts 4 n _ now _ (omega arith),
          (
            puts 5 n _ now _ (omega arith),
            (
              puts 6 n _ now _ (omega arith),
              (
                puts 7 n _ now _ (omega arith),
                (
                  puts 8 n _ now _ (omega arith),
                  (makes 9 _ now (omega arith) (omega arith), (makes 10 _ now (omega arith) h, tt)),
                ),
              ),
            ),
          ),
        ),
      ),
    ),
  ),
)

Makes-Member :
    (rs : List (Result Packet)) (r : Result Packet) (p : Packet)
    → All Makes rs
    → Member r rs
    → r ≡ ok p
    → IsPacket p
Makes-Member [] r p h m e = elim m [ ]
Makes-Member (r' ∷ rs) r p h (inl same_one) e = h.0 p (rw same_one at e)
Makes-Member (r' ∷ rs) r p h (inr m) e = Makes-Member rs r p h.1 m e

-- Whatever a builder returns for a number of 64 bits fits the members of the struct: its numbers have
-- their widths, and its payload has 512 bytes.
pub built-IsPacket :
    (n : ℕ) (text sender : Bytes) (now : ℕ) (r : Result Packet) (p : Packet)
    → n < 2 ^ 64
    → Member r (built n text sender now)
    → r ≡ ok p
    → IsPacket p
built-IsPacket n text sender now r p h =
    Makes-Member (built n text sender now) r p (built-All n text sender now h)
