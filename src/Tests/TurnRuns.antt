-- ===== src/Tests/TurnRuns.antt =====
-- source/server/server.cpp on concrete turns of threads: alice posts twice, with the worker in
-- between, and follows bob twice.
use piupiu.Common.{
  All, ◌≡◌, refl, List, [], ◌∷◌, some, Bytes, codes, get_elem?, same, ok, arith, c_str,
}
use piupiu.Messaging.{Packet}
use piupiu.Messaging.Kind
use piupiu.Profiles.{Profile, at, has_pointer}
use piupiu.Server.{Server, PendingNotification}
use piupiu.Server.Invariant.{IsServer}
use piupiu.Server.Sends.{Sending, Turn, thread, worker, take_turns}
use piupiu.Server.Sends
use piupiu.Server.Sends.Turns.{Turns}
use piupiu.Server.Sends.Conserved.{take_turns_conserve}
use piupiu.Server.Follows.{
  Following, followed, saving, follow_times, interleave_follows, follow_times-handle_follow,
}
use piupiu.Server.Follows
use piupiu.Server.Follows.Twice.{follows_twice}
use piupiu.Server.Reachable.{receive, run}
use piupiu.Server.Sweep.Posted.{post_reaches}
use piupiu.Sessions.View.{sockets_of}
use piupiu.Server.Posting.{note}
use piupiu.Common.{ℕ, Member, ◌≢◌}
use piupiu.Server.Sends.Turns.{IsDelivered}
use piupiu.Server.Sweep.{rounds, reaching, staying, rounds_deliver}
use piupiu.Tests.{alice, bob, home, named}
use piupiu.Tests
use piupiu.Tests.ServerRuns.{busy, busy-IsServer, busy_queue}

abbrev posting : Bytes → Sending
posting body = record {
  message = Tests.packet Kind.send_cmd 4 body;
  incoming = home;
  phase = Sends.asking;
}

abbrev both : List Sending
both = posting (codes "ola") ∷ posting (codes "tchau") ∷ []

abbrev in_turns : List Turn
in_turns =
    thread 0
    ∷ thread 1
    ∷ thread 1
    ∷ worker
    ∷ thread 0
    ∷ thread 0
    ∷ thread 0
    ∷ thread 1
    ∷ worker
    ∷ []

take_turns_conserve_example :
    (s' : Server) × (ts' : List Sending) × (gone : List PendingNotification) × (take_turns busy 9
        both in_turns
      ≡ ok (s', ts'))
    × Turns busy both s' ts' gone
unfolding c_str
take_turns_conserve_example =
    take_turns_conserve busy 9 both in_turns busy-IsServer
      (
        record { text = named (codes "ola") refl; short = omega arith; phase_fits = tt },
        (record { text = named (codes "tchau") refl; short = omega arith; phase_fits = tt }, tt),
      )
      busy_queue.4

abbrev following : Packet
following = Tests.packet Kind.follow_cmd 4 bob

abbrev one_follow : Following
one_follow = record { message = following; incoming = home; phase = Follows.asking }

follows_twice_example :
    (s' : Server) × (interleave_follows busy
        (one_follow ∷ one_follow ∷ [])
        (0 ∷ 1 ∷ 0 ∷ 1 ∷ 0 ∷ 1 ∷ 0 ∷ 1 ∷ 0 ∷ 1 ∷ [])
      ≡ ok (s', record one_follow { phase = saving } ∷ record one_follow { phase = saving } ∷ []))
    × (get_elem? s'.profiles.profiles 1
        ≡ some record { handle = bob; followers = 0 ∷ 0 ∷ []; session = at 1 })
    × (¬ IsServer s')
unfolding has_pointer same
follows_twice_example =
    follows_twice busy following following home home alice bob 1 0
      (record { handle = bob; followers = []; session = at 1 }) (named bob refl) (named bob refl)
      busy_queue.7 busy_queue.7 refl busy_queue.5 busy_queue.2 busy_queue.6 refl

-- The worker tells bob of what alice posted.
rounds_deliver_example :
    (s' : Server) × (run busy (rounds (9 ∷ [])) ≡ ok s')
    × IsServer s'
    × (s'.profiles ≡ busy.profiles)
    × (s'.sessions ≡ busy.sessions)
    × (s'.notification_queue ≡ staying busy.profiles busy.sessions busy.notification_queue)
    × All (IsDelivered s') (reaching busy.profiles busy.sessions busy.notification_queue)
rounds_deliver_example =
    rounds_deliver busy (9 ∷ []) busy-IsServer busy_queue.4 (rw busy_queue.0 refl)

-- alice posts again, and two rounds follow.
post_reaches_example :
    (s' : Server) × (run busy
        ((receive (Tests.packet Kind.send_cmd 4 (codes "ola")) home, 8) ∷ rounds (9 ∷ 9 ∷ []))
      ≡ ok s')
    × IsServer s'
    × ((f : ℕ) (q : Profile)
        → Member f (1 ∷ [])
        → get_elem? busy.profiles.profiles f ≡ some q
        → sockets_of busy.sessions q.handle ≢ []
        → IsDelivered s' (note alice (codes "ola") f))
post_reaches_example =
    post_reaches busy (Tests.packet Kind.send_cmd 4 (codes "ola")) home (codes "ola") alice 0
      (record { handle = alice; followers = 1 ∷ []; session = at 0 }) 8 (9 ∷ 9 ∷ []) busy-IsServer
      busy_queue.4 refl (named (codes "ola") refl) (omega arith) busy_queue.7 busy_queue.2
      busy_queue.8 (rw busy_queue.0 refl)
