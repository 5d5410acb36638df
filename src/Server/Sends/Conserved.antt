-- ===== src/Server/Sends/Conserved.antt =====
-- source/server/server.cpp: SENDs at once and the worker lose no notification and make none twice.
use mathlib.Core.List.{Permᴰ, append_assoc, append-nil}
use mathlib.Core.List.Permᴰ
use piupiu.Common.{
  ℕ, ◌≡◌, refl, sym, ap, ◌∙◌, inl, inr, true, List, [], ◌∷◌, ◌++◌, Option, none, some, Bytes, ok,
  All, All-append, All-imp, arith, Option-cases, from_c_array, c_str,
}
use piupiu.Messaging.{Packet}
use piupiu.Sessions.{SocketAddress, get_user_name_by_address_and_ip}
use piupiu.Sessions.Lookup.{get_user_name-Answers}
use piupiu.Profiles.{get_profile_by_name}
use piupiu.Profiles.Invariant.{get_profile_by_name_hit}
use piupiu.Server.{handle_send, post_message}
use piupiu.Server.Posting.{notify_lem}
use piupiu.Server.{Server, PendingNotification}
use piupiu.Server.Invariant.{IsServer}
use piupiu.Server.Sends.{
  Sending, Turn, thread, worker, take_turn, take_turns, remaining, all_remaining, asking,
}
use piupiu.Server.Sends.Turns.{
  IsSending, IsDelivered, IsDelivered-kept, Turns, move, idle-Turns, thread-Turns, worker-Turns,
}

-- A thread or the worker
take_turn-Turns :
    (s : Server) (now : ℕ) (ts : List Sending) (turn : Turn)
    → IsServer s
    → All (IsSending s.profiles.profiles) ts
    → s.socket.descriptor ≡ true
    → (s' : Server) × (ts' : List Sending) × (gone : List PendingNotification) × (take_turn s now ts
          turn
        ≡ ok (s', ts'))
      × Turns s ts s' ts' gone
take_turn-Turns s now ts (thread k) v fit can_send =
    let (s', ts', ran, turns) = thread-Turns s now ts v fit can_send k in (s', ts', [], ran, turns)
take_turn-Turns s now ts worker v fit can_send =
    let (s', gone, ran, turns) = worker-Turns s now ts v fit can_send in (s', ts, gone, ran, turns)

-- Two turns, one behind the other
then_Turns :
    (s s1 s2 : Server) (ts ts1 ts2 : List Sending) (gone more : List PendingNotification)
    → Turns s ts s1 ts1 gone
    → Turns s1 ts1 s2 ts2 more
    → Turns s ts s2 ts2 (gone ++ more)
then_Turns s s1 s2 ts ts1 ts2 gone more a b = record {
  server = b.server;
  sendings = b.sendings;
  profiles = b.profiles ∙ a.profiles;
  sessions = b.sessions ∙ a.sessions;
  opened = b.opened;
  kept = rw (append_assoc gone more (all_remaining s2.profiles s2.sessions ts2)) (
      Permᴰ.trans (move s2.notification_queue gone _) (
        Permᴰ.trans (Permᴰ.append_left gone b.kept)
          (Permᴰ.trans (move gone s1.notification_queue _) a.kept)));
  delivered =
      All-append (IsDelivered s2) gone more
        (All-imp (IsDelivered s1) (IsDelivered s2) gone
          (λ n. IsDelivered-kept s1 s2 n b.grows.0 b.profiles b.sessions b.grows.1) a.delivered)
        b.delivered;
  grows = (
    a.grows.0 ++ b.grows.0,
    b.grows.1 ∙ rw a.grows.1 (append_assoc s.socket.sent a.grows.0 b.grows.0),
  );
}

-- Whatever the order of the turns, threads that handle SENDs of at most 128 bytes and the worker never
-- fail and keep the invariant, on a server with an open descriptor, and conserve the notifications: what
-- is queued at the end, what has gone from the queue, and what the threads are still to push are together
-- what was queued, and to be pushed, at the start, each as often. What has gone was sent to every socket
-- of its recipient, who has one. Profiles and sessions stay as they are.
pub take_turns_conserve :
    (s : Server) (now : ℕ) (ts : List Sending) (turns : List Turn)
    → IsServer s
    → All (IsSending s.profiles.profiles) ts
    → s.socket.descriptor ≡ true
    → (s' : Server) × (ts' : List Sending) × (gone : List PendingNotification) × (take_turns s now
          ts turns
        ≡ ok (s', ts'))
      × Turns s ts s' ts' gone
unfolding take_turns
take_turns_conserve s now ts [] v fit can_send = (s, ts, [], refl, idle-Turns s ts v fit can_send)
take_turns_conserve s now ts (turn ∷ turns) v fit can_send =
    let (s1, ts1, gone, ran, first) = take_turn-Turns s now ts turn v fit can_send in
    let (s2, ts2, more, later, second) =
      take_turns_conserve s1 now ts1 turns first.server first.sendings first.opened in
    (s2, ts2, gone ++ more, rw ran later, then_Turns s s1 s2 ts ts1 ts2 gone more first second)

nothing_pushed :
    (s : Server) → ok s ≡ ok (record s { notification_queue = s.notification_queue ++ [] })
nothing_pushed s =
    ap (λ (q : List PendingNotification). ok (record s { notification_queue = q }))
      (sym (append-nil s.notification_queue))

-- The handler of a SEND that runs alone puts behind the queue what remains for its thread at the start.
handle_send-remaining :
    (s : Server) (message : Packet) (incoming : SocketAddress)
    → IsServer s
    → from_c_array message.payload ≡ ok (c_str message.payload)
    → handle_send s message incoming
      ≡ ok (record s {
        notification_queue =
            s.notification_queue ++ remaining s.profiles s.sessions message incoming asking;
      })
unfolding handle_send post_message remaining
handle_send-remaining s message incoming v text =
    let (r, asked, _) = get_user_name-Answers s.sessions incoming v.valid in on_answer r asked
  where
    on_answer :
        (r : Option Bytes)
        → get_user_name_by_address_and_ip s.sessions incoming ≡ ok r
        → handle_send s message incoming
          ≡ ok (record s {
            notification_queue =
                s.notification_queue ++ remaining s.profiles s.sessions message incoming asking;
          })
    on_answer none asked = rw asked (nothing_pushed s)
    on_answer (some u) asked = rw asked (elim (Option-cases (get_profile_by_name s.profiles u)) [
      | inl e ↦ ground (arith, e, append-nil s.notification_queue)
      | inr (i, e) ↦
          let (p, stored, named) = get_profile_by_name_hit s.profiles u i e in
          ground (arith, e, stored, notify_lem u (c_str message.payload) message p.followers text)
    ])
