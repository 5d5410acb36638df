-- ===== src/Tests/MessagingRuns.antt =====
-- source/messaging/Packet.cpp on concrete inputs.
use piupiu.Common.{
  ℕ, zero, suc, ◌+◌, ◌≡◌, refl, Bytes, codes, length, replicate, ok, from_c_array, arith, IsText,
}
use piupiu.Messaging.Kind
use piupiu.Messaging.{
  Packet, next_seqn, notification_text, make_notification, make_connect_command,
  make_disconnect_command, make_follow_command, make_send_command,
}
use piupiu.Messaging.Payload.{Carries, command-Carries, make_notification_reads}
use piupiu.Tests.{alice, text}

abbrev long : ℕ → Bytes
long n = replicate n b'a'

long-IsText : (n : ℕ) → IsText (long n)
long-IsText zero = tt
long-IsText (suc n) = (λ e. omega (arith, e), long-IsText n)

command-Carries_example :
    Carries Kind.connect_cmd (next_seqn 1) alice (make_connect_command 1 alice 5)
    × Carries Kind.disconnect_cmd (next_seqn 1) alice (make_disconnect_command 1 alice 5)
    × Carries Kind.follow_cmd (next_seqn 1) alice (make_follow_command 1 alice 5)
    × Carries Kind.send_cmd (next_seqn 1) alice (make_send_command 1 alice 5)
command-Carries_example = command-Carries 1 5 alice (text alice refl) (omega arith)

make_notification_reads_example :
    (p : Packet) × (make_notification 1 (codes "oi") alice 5 ≡ ok p)
    × (p.type ≡ Kind.notification)
    × (p.seqn ≡ next_seqn 1)
    × (p.length + length alice + 3 ≡ length (notification_text (codes "oi") alice))
    × (from_c_array p.payload ≡ ok (notification_text (codes "oi") alice))
make_notification_reads_example =
    make_notification_reads 1 5 (codes "oi") alice (text (codes "oi") refl) (text alice refl)
      (omega arith)
