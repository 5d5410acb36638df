-- ===== src/Messaging/Payload.antt =====
-- What the builders of source/messaging/Packet.cpp put into a payload, and when they overrun it.
use piupiu.Common.{
  ℕ, ◌+◌, ◌%◌, ◌^◌, ◌≤◌, ◌<◌, ◌≡◌, ◌↔◌, ◌⊎◌, ◌++◌, refl, codes, Bytes, length, IsText, from_c_array,
  length-append, All-append, Result, ok, err, no_value, Fault, ◌≢◌, buffer_overflow, arith,
  strcpy-fits, strcpy-overflows,
}
use piupiu.Messaging.Kind
use piupiu.Messaging.{
  Packet, make_packet, put_text, next_seqn, make_connect_command, make_disconnect_command,
  make_follow_command, make_send_command, make_notification, notification_text, zero_payload,
  type_to_str, length-zero_payload,
}

-- The builder's packet `r` has this type and number, a length field equal to its text's length, and
-- a payload that reads back as the text.
abbrev pub Carries : ℕ → ℕ → Bytes → Result Packet → Type 0
Carries type seqn text r =
    (p : Packet) × (r ≡ ok p)
    × (p.type ≡ type)
    × (p.seqn ≡ seqn)
    × (p.length ≡ length text)
    × (from_c_array p.payload ≡ ok text)

put_text-fits :
    (type seqn len now : ℕ) (text : Bytes)
    → IsText text
    → length text < 512
    → (p : Packet) × (put_text (make_packet type seqn len now) text ≡ ok p)
      × (p.type ≡ type)
      × (p.seqn ≡ seqn)
      × (p.length ≡ len % 2 ^ 16)
      × (from_c_array p.payload ≡ ok text)
unfolding put_text make_packet
put_text-fits type seqn len now text h k =
    let (a, copied, reads) = strcpy-fits zero_payload text h (omega (arith, length-zero_payload)) in
    let p = make_packet type seqn len now in
    (record p { payload = a }, ground arith, refl, refl, refl, reads)

put_text-overflows :
    (type seqn len now : ℕ) (text : Bytes)
    → IsText text
    → 512 ≤ length text
    → put_text (make_packet type seqn len now) text ≡ err buffer_overflow
unfolding put_text make_packet
put_text-overflows type seqn len now text h k =
    ground (arith, strcpy-overflows zero_payload text h, length-zero_payload)

-- The four commands of a client carry a text of at most 511 bytes.
pub command-Carries :
    (last_seqn now : ℕ) (text : Bytes)
    → IsText text
    → length text < 512
    → Carries Kind.connect_cmd (next_seqn last_seqn) text (make_connect_command last_seqn text now)
      × Carries Kind.disconnect_cmd
          (next_seqn last_seqn)
          text
          (make_disconnect_command last_seqn text now)
      × Carries Kind.follow_cmd (next_seqn last_seqn) text (make_follow_command last_seqn text now)
      × Carries Kind.send_cmd (next_seqn last_seqn) text (make_send_command last_seqn text now)
unfolding make_connect_command make_disconnect_command make_follow_command make_send_command
command-Carries last_seqn now text h k = (carries 0, carries 1, carries 4, carries 5)
  where
    carries :
        (type : ℕ)
        → Carries type
            (next_seqn last_seqn)
            text
            (put_text (make_packet type (next_seqn last_seqn) (length text) now) text)
    carries type =
        let (p, e, t, s, l, r) =
          put_text-fits type (next_seqn last_seqn) (length text) now text h k in
        (p, e, t, s, omega arith, r)

-- A text of 512 bytes or more overruns the packet's payload in each of the four.
pub command_overflows :
    (last_seqn now : ℕ) (text : Bytes)
    → IsText text
    → 512 ≤ length text
    → (make_connect_command last_seqn text now ≡ err buffer_overflow)
      × (make_disconnect_command last_seqn text now ≡ err buffer_overflow)
      × (make_follow_command last_seqn text now ≡ err buffer_overflow)
      × (make_send_command last_seqn text now ≡ err buffer_overflow)
unfolding make_connect_command make_disconnect_command make_follow_command make_send_command
command_overflows last_seqn now text h k = (
  put_text-overflows 0 _ _ now text h k,
  put_text-overflows 1 _ _ now text h k,
  put_text-overflows 4 _ _ now text h k,
  put_text-overflows 5 _ _ now text h k,
)

pub notification_text-IsText :
    (message sender : Bytes)
    → IsText message
    → IsText sender
    → IsText (notification_text message sender)
notification_text-IsText message sender hm hs =
    (omega arith, All-append _ sender (codes ":\n" ++ message) hs (omega arith, (omega arith, hm)))

pub length-notification_text :
    (message sender : Bytes)
    → length (notification_text message sender) ≡ length sender + length message + 3
length-notification_text message sender =
    omega (arith, length-append sender (codes ":\n" ++ message))

-- A notification of a sender and a message that take at most 508 bytes together reads back as
-- "@sender:" and the message on the next line, but its length field counts the message alone.
pub make_notification_reads :
    (last_seqn now : ℕ) (message sender : Bytes)
    → IsText message
    → IsText sender
    → length sender + length message < 509
    → (p : Packet) × (make_notification last_seqn message sender now ≡ ok p)
      × (p.type ≡ Kind.notification)
      × (p.seqn ≡ next_seqn last_seqn)
      × (p.length + length sender + 3 ≡ length (notification_text message sender))
      × (from_c_array p.payload ≡ ok (notification_text message sender))
unfolding make_notification
make_notification_reads last_seqn now message sender hm hs k =
    let long = length-notification_text message sender in
    let (p, e, t, s, l, r) =
      put_text-fits Kind.notification (next_seqn last_seqn) (length message) now
        (notification_text message sender) (notification_text-IsText message sender hm hs)
        (omega arith) in
    (p, e, t, s, omega arith, r)

-- With a sender and a message of 509 bytes or more together the notification overruns its payload.
pub make_notification_overflows :
    (last_seqn now : ℕ) (message sender : Bytes)
    → IsText message
    → IsText sender
    → 509 ≤ length sender + length message
    → make_notification last_seqn message sender now ≡ err buffer_overflow
unfolding make_notification
make_notification_overflows last_seqn now message sender hm hs k =
    put_text-overflows Kind.notification _ _ now (notification_text message sender)
      (notification_text-IsText message sender hm hs)
      (omega (arith, length-notification_text message sender))

-- `TypeToStr` returns no value exactly for the type 9 and the types above 10.
pub type_to_str_no_value :
    (type : ℕ) → (type_to_str type ≡ err no_value) ↔ ((type ≡ 9) ⊎ (10 < type))
unfolding type_to_str
type_to_str_no_value type = ground arith

type_to_str_fault : (type : ℕ) (f : Fault) → type_to_str type ≡ err f → (type ≡ 9) ⊎ (10 < type)
unfolding type_to_str
type_to_str_fault type f e = ground arith

pub type_to_str_named :
    (type : ℕ) → type ≤ 10 → type ≢ 9 → (name : Bytes) × (type_to_str type ≡ ok name)
type_to_str_named type h other = named (type_to_str type) refl
  where
    named :
        (r : Result Bytes) → type_to_str type ≡ r → (name : Bytes) × (type_to_str type ≡ ok name)
    named (ok name) e = (name, e)
    named (err f) e = absurd (ground (arith, type_to_str_fault type f e))
