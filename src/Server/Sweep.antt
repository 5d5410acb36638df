-- ===== src/Server/Sweep.antt =====
-- source/server/server.cpp: as many rounds of the notification worker as there are notifications in
-- its queue.
pub mod Posted
use mathlib.Core.List.{append_assoc, append-nil}
use piupiu.Common.{
  ℕ, ◌≡◌, ◌≢◌, refl, sym, ◌∙◌, subst, inl, inr, ◌⊎◌, Bool, true, false, List, [], ◌∷◌, ◌++◌, none,
  some, length, get_elem?, ltb, if◌then◌else◌, ok, All, Member, map, arith,
}
use piupiu.Sessions.{SessionManager, SocketAddress}
use piupiu.Sessions.View.{sockets_of}
use piupiu.Profiles.{ProfileManager}
use piupiu.Replicas.{Datagram}
use piupiu.Replicas.Broadcast.{after_sending}
use piupiu.Server.{Server, PendingNotification}
use piupiu.Server.Invariant.{IsServer}
use piupiu.Server.Delivery.{WorkOutcome, delivered, postponed, work_lem}
use piupiu.Server.Reachable.{Event, round, run}
use piupiu.Server.Sends.Turns.{IsDelivered, IsDelivered-kept, All-members}

-- Whether the recipient of a notification has a socket
abbrev pub has_recipient : ProfileManager → SessionManager → PendingNotification → Bool
has_recipient m sm n = elim (get_elem? m.profiles n.recipient) [
  | none ↦ false
  | some p ↦ ltb 0 (length (sockets_of sm p.handle))
]

-- The notifications whose recipients have a socket, and the others
unfoldable pub reaching :
    ProfileManager → SessionManager → List PendingNotification → List PendingNotification
reaching m sm [] = []
reaching m sm (n ∷ ns) =
    let rest = reaching m sm ns in if has_recipient m sm n then n ∷ rest else rest

unfoldable pub staying :
    ProfileManager → SessionManager → List PendingNotification → List PendingNotification
staying m sm [] = []
staying m sm (n ∷ ns) =
    let rest = staying m sm ns in if has_recipient m sm n then rest else n ∷ rest

-- A round at each of these times
abbrev pub rounds : List ℕ → List (Event × ℕ)
rounds times = map (λ now. (round, now)) times

-- Where the rounds lead from a queue that starts with `todo` and goes on with `kept`
record Swept (s : Server) (todo kept : List PendingNotification) (s' : Server) : Type 0 where
  server : IsServer s'
  profiles : s'.profiles ≡ s.profiles
  sessions : s'.sessions ≡ s.sessions
  queue : s'.notification_queue ≡ kept ++ staying s.profiles s.sessions todo
  sent_all : All (IsDelivered s') (reaching s.profiles s.sessions todo)
  grows : (more : List Datagram) × (s'.socket.sent ≡ s.socket.sent ++ more)

pub some_socket-true : (l : List SocketAddress) → l ≢ [] → ltb 0 (length l) ≡ true
some_socket-true [] h = absurd (h refl)
some_socket-true (a ∷ l) h = ground arith

-- A round whose head is delivered, and the rounds behind it
deliver_first :
    (s s' : Server) (n : PendingNotification) (todo kept : List PendingNotification)
    (ds : List Datagram) (s1 : Server)
    → s1.profiles ≡ s.profiles
    → s1.sessions ≡ s.sessions
    → s1.socket.sent ≡ s.socket.sent ++ ds
    → has_recipient s.profiles s.sessions n ≡ true
    → IsDelivered s1 n
    → Swept s1 todo kept s'
    → Swept s (n ∷ todo) kept s'
unfolding reaching staying
deliver_first s s' n todo kept ds s1 profiles sessions grown there first later = record {
  server = later.server;
  profiles = later.profiles ∙ profiles;
  sessions = later.sessions ∙ sessions;
  queue = later.queue ∙ rw (profiles, sessions, there) refl;
  sent_all = rw there (
    IsDelivered-kept s1 s' n later.grows.0 later.profiles later.sessions later.grows.1 first,
    rw (profiles, sessions) at later.sent_all,
  );
  grows =
      (ds ++ later.grows.0, later.grows.1 ∙ rw grown (append_assoc s.socket.sent ds later.grows.0));
}

-- A round whose head is postponed, and the rounds behind it
postpone_first :
    (s s' : Server) (n : PendingNotification) (todo kept : List PendingNotification) (s1 : Server)
    → s1.profiles ≡ s.profiles
    → s1.sessions ≡ s.sessions
    → s1.socket.sent ≡ s.socket.sent
    → has_recipient s.profiles s.sessions n ≡ false
    → Swept s1 todo (kept ++ n ∷ []) s'
    → Swept s (n ∷ todo) kept s'
unfolding reaching staying
postpone_first s s' n todo kept s1 profiles sessions same_sent none_there later = record {
  server = later.server;
  profiles = later.profiles ∙ profiles;
  sessions = later.sessions ∙ sessions;
  queue =
      later.queue
      ∙ rw (profiles, sessions, none_there)
          (append_assoc kept (n ∷ []) (staying s.profiles s.sessions todo));
  sent_all = rw none_there (rw (profiles, sessions) at later.sent_all);
  grows = (later.grows.0, rw same_sent at later.grows.1);
}

-- What the first round leads to
record First (s : Server) (n : PendingNotification) (rest : List PendingNotification) (s1 : Server)
    : Type 0 where
  profiles : s1.profiles ≡ s.profiles
  sessions : s1.sessions ≡ s.sessions
  opened : s1.socket.descriptor ≡ true
  outcome :
      ((ds : List Datagram) × (s1.notification_queue ≡ rest)
        × (s1.socket.sent ≡ s.socket.sent ++ ds)
        × (has_recipient s.profiles s.sessions n ≡ true)
        × IsDelivered s1 n)
      ⊎ ((s1.notification_queue ≡ rest ++ n ∷ [])
          × (s1.socket.sent ≡ s.socket.sent)
          × (has_recipient s.profiles s.sessions n ≡ false))

WorkOutcome-First :
    (s : Server) (n : PendingNotification) (rest : List PendingNotification) (s1 : Server)
    → s.socket.descriptor ≡ true
    → WorkOutcome s n rest s1
    → First s n rest s1
WorkOutcome-First s n rest s1 can_send (delivered p ds final stored some_socket notices q) =
    let sent_all : (after_sending s.socket ds).sent ≡ s.socket.sent ++ ds =
      ground (arith, can_send) in
    subst (First s n rest) (sym q) (record {
      profiles = refl;
      sessions = refl;
      opened = ground (arith, can_send);
      outcome = inl (
        ds,
        refl,
        sent_all,
        rw (has_recipient, stored) (some_socket-true (sockets_of s.sessions p.handle) some_socket),
        (
          p,
          ds,
          s.last_seqn,
          final,
          stored,
          some_socket,
          notices,
          subst (λ (l : List Datagram). All (λ x. Member x l) ds) (sym sent_all)
              (All-members s.socket.sent ds),
        ),
      );
    })
WorkOutcome-First s n rest s1 can_send (postponed p stored none_there q) =
    subst (First s n rest) (sym q) (record {
      profiles = refl;
      sessions = refl;
      opened = can_send;
      outcome = inr (refl, refl, rw (has_recipient, stored, none_there) refl);
    })

sweep-kept :
    (s : Server) (todo kept : List PendingNotification) (times : List ℕ)
    → IsServer s
    → s.socket.descriptor ≡ true
    → s.notification_queue ≡ todo ++ kept
    → length times ≡ length todo
    → (s' : Server) × (run s (rounds times) ≡ ok s') × Swept s todo kept s'
unfolding run piupiu.Server.Reachable.step reaching staying
sweep-kept s [] kept [] v can_send e count = (
  s,
  refl,
  record {
    server = v;
    profiles = refl;
    sessions = refl;
    queue = e ∙ sym (append-nil kept);
    sent_all = tt;
    grows = ([], sym (append-nil s.socket.sent));
  },
)
sweep-kept s [] kept (now ∷ times) v can_send e count = absurd (omega (arith, count))
sweep-kept s (n ∷ todo) kept [] v can_send e count = absurd (omega (arith, count))
sweep-kept s (n ∷ todo) kept (now ∷ times) v can_send e count =
    let (s1, ran, kept_server, work) = work_lem s n (todo ++ kept) now v e in
    let first = WorkOutcome-First s n (todo ++ kept) s1 can_send work in
    elim first.outcome [
      | inl (ds, q, grown, there, done) ↦
          let (s', later, swept) =
            sweep-kept s1 todo kept times kept_server first.opened q (omega (arith, count)) in
          (
            s',
            rw ran later,
            deliver_first s s' n todo kept ds s1 first.profiles first.sessions grown there done
                swept,
          )
      | inr (q, same_sent, none_there) ↦
          let (s', later, swept) =
            sweep-kept s1 todo (kept ++ n ∷ []) times kept_server first.opened
              (q ∙ append_assoc todo kept (n ∷ [])) (omega (arith, count)) in
          (
            s',
            rw ran later,
            postpone_first s s' n todo kept s1 first.profiles first.sessions same_sent none_there
                swept,
          )
    ]

-- As many rounds of the worker as there are notifications queued, at whatever times, on a server
-- under its invariant with an open descriptor: none fails, each notification whose recipient has a
-- socket has been sent to every socket of his, and the queue holds the others, in their order.
-- Profiles and sessions stay as they are, and the invariant holds.
pub rounds_deliver :
    (s : Server) (times : List ℕ)
    → IsServer s
    → s.socket.descriptor ≡ true
    → length times ≡ length s.notification_queue
    → (s' : Server) × (run s (rounds times) ≡ ok s')
      × IsServer s'
      × (s'.profiles ≡ s.profiles)
      × (s'.sessions ≡ s.sessions)
      × (s'.notification_queue ≡ staying s.profiles s.sessions s.notification_queue)
      × All (IsDelivered s') (reaching s.profiles s.sessions s.notification_queue)
rounds_deliver s times v can_send count =
    let (s', ran, swept) =
      sweep-kept s s.notification_queue [] times v can_send (sym (append-nil s.notification_queue))
        count in
    (s', ran, swept.server, swept.profiles, swept.sessions, swept.queue, swept.sent_all)
