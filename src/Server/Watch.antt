-- ===== src/Server/Watch.antt =====
-- source/server/server.cpp: what a primary server keeps at each event of the groups that wait in its
-- confirmation buffer, and what it sends for them.
use piupiu.Common.{
  ℕ, ◌≡◌, ◌≢◌, refl, sym, ap, ◌∙◌, inl, inr, true, List, [], ◌∷◌, ◌++◌, none, some, get_elem?, ok,
  arith, Bool-cases, Option-cases, ==_iff, All, Member, Member-append_left, Member-append_right,
}
use piupiu.Messaging.Kind
use piupiu.Messaging.{Packet, make_accept_conn_command}
use piupiu.Sessions.{SocketAddress}
use piupiu.Confirmation.{
  ConfirmableItem, ConfirmableContainer, Buffer, push, confirm, confirm_container,
  container_confirmed,
}
use piupiu.Replicas.{Datagram, messages_for}
use piupiu.Replicas.Broadcast.{after_sending, after_sending-nil, acceptance, acceptances}
use piupiu.Server.{Server, PendingNotification}
use piupiu.Server.Invariant.{IsServer}
use piupiu.Server.Delivery.{work_lem, work_idle, WorkOutcome, delivered, postponed}
use piupiu.Server.Pending.{pending_notification_worker}
use piupiu.Server.Reachable.{
  Event, receive, round, step, run, IsPolite, packet, worker, message_handler_total,
}
use piupiu.Server.Dispatch.{message_handler-Handled}
use piupiu.Messaging.{Packet}
use piupiu.Messaging.Kind
use piupiu.Sessions.{SocketAddress}
use piupiu.Common.{==_iff, ◌≢◌}
use piupiu.Server.Effect.{
  confirms, is_connect, Effect, quiet, pushed, confirmed, message_handler-Effect,
}

-- A primary whose buffer holds these groups, in a build where a function that flows off its end returns
pub record IsPrimary (s : Server) (b : Buffer) : Type 0 where
  pub valid : IsServer s
  pub primary : s.replicas.this_peer.primary ≡ true
  pub stored : s.replicas.confirmation_buffer ≡ some b
  pub returns : s.replicas.returns ≡ true

work-quiet :
    (s s' : Server) (b : Buffer) (n : PendingNotification) (rest : List PendingNotification)
    (now : ℕ)
    → WorkOutcome s n rest s'
    → Effect s b round now s'
unfolding confirms is_connect
work-quiet s s' b n rest now (delivered p ds final x y z e) =
    quiet ds refl refl (rw e refl) (rw e refl)
work-quiet s s' b n rest now (postponed p x y e) =
    quiet [] refl refl (rw e refl)
      (ap (λ (t : Server). t.socket) e ∙ sym (after_sending-nil s.socket))

pub step-Effect :
    (s : Server) (b : Buffer) (e : Event) (now : ℕ)
    → IsPrimary s b
    → IsPolite e
    → (s' : Server) × (step s e now ≡ ok s') × IsServer s' × Effect s b e now s'
unfolding step confirms is_connect
step-Effect s b (receive message incoming) now v
      (packet message' incoming' text named kind fits body) =
    let (s', ran, kept, _) =
      message_handler_total s message incoming now text v.valid named kind fits body v.returns in
    (
      s',
      ran,
      kept,
      message_handler-Effect s b message incoming now text s' v.valid v.primary v.stored named kind
          body (message_handler-Handled s message incoming now s' ran),
    )
step-Effect s b round now v worker = after_round s.notification_queue refl
  where
    after_round :
        (queue : List PendingNotification)
        → s.notification_queue ≡ queue
        → (s' : Server) × (pending_notification_worker s now ≡ ok s')
          × IsServer s'
          × Effect s b round now s'
    after_round [] e =
        (s, work_idle s now e, v.valid, quiet [] refl refl refl (sym (after_sending-nil s.socket)))
    after_round (n ∷ rest) e =
        let (s', ran, kept, outcome) = work_lem s n rest now v.valid e in
        (s', ran, kept, work-quiet s s' b n rest now outcome)

-- A group is confirmed where it stands.
Member-confirm :
    (c : ConfirmableContainer) (b : Buffer) (n : ℕ)
    → Member c b
    → Member (confirm_container n c) (confirm b n).buffer
unfolding confirm
Member-confirm c [] n h = elim h [ ]
Member-confirm c (d ∷ b) n (inl e) = inl (ap (confirm_container n) e)
Member-confirm c (d ∷ b) n (inr h) = inr (Member-confirm c b n h)

-- A group that becomes complete is called back.
Member-fired :
    (c : ConfirmableContainer) (b : Buffer) (n : ℕ)
    → Member c b
    → container_confirmed (confirm_container n c) ≡ true
    → Member (confirm_container n c) (confirm b n).fired
unfolding confirm
Member-fired c [] n h done = elim h [ ]
Member-fired c (d ∷ b) n (inl e) done = rw (← e, done) (inl refl)
Member-fired c (d ∷ b) n (inr h) done =
    elim (Bool-cases (container_confirmed (confirm_container n d))) [
      | inl t ↦ rw t (inr (Member-fired c b n h done))
      | inr t ↦ rw t (Member-fired c b n h done)
    ]

-- The acceptance of a group whose first message is a CONNECT
abbrev pub accepted : ConfirmableContainer → ℕ → Datagram
accepted c now = record {
  to = c.original_host;
  packet = make_accept_conn_command c.original_seqn now;
}

Member-acceptances :
    (c : ConfirmableContainer) (i : ConfirmableItem) (cs : List ConfirmableContainer) (now : ℕ)
    → Member c cs
    → get_elem? c.content 0 ≡ some i
    → i.item.packet.type ≡ Kind.connect_cmd
    → Member (accepted c now) (acceptances cs now)
unfolding acceptances acceptance
Member-acceptances c i [] now h e t = elim h [ ]
Member-acceptances c i (d ∷ cs) now (inl q) e t =
    rw (← q, e, acceptances, (==_iff _ _).1 t)
      (inl (ap (λ (x : ConfirmableContainer). accepted x now) q))
Member-acceptances c i (d ∷ cs) now (inr h) e t = elim (Option-cases (get_elem? d.content 0)) [
  | inl none_there ↦ rw (none_there, acceptances) (Member-acceptances c i cs now h e t)
  | inr (j, there) ↦
      rw (there, acceptances)
        (Member-append_right (accepted c now) (acceptance d j now) (acceptances cs now)
          (Member-acceptances c i cs now h e t))
]

-- What a primary with an opened descriptor keeps at each event.
pub record Follows (s : Server) (b : Buffer) (e : Event) (now : ℕ) (s' : Server) : Type 0 where
  pub buffer : Buffer
  pub valid : IsPrimary s' buffer
  pub opened : s'.socket.descriptor ≡ true
  pub sent : (d : Datagram) → Member d s.socket.sent → Member d s'.socket.sent
  pub waits : (c : ConfirmableContainer) → confirms e ≡ none → Member c b → Member c buffer
  pub pushes :
      (c : ConfirmableContainer) (m : Packet) (a : SocketAddress)
      → e ≡ receive m a
      → m.type ≡ Kind.connect_cmd
      → Member c (push b (messages_for s.last_seqn m) m.seqn a)
      → Member c buffer
  pub marks :
      (c : ConfirmableContainer) (n : ℕ)
      → confirms e ≡ some n
      → Member c b
      → Member (confirm_container n c) buffer
  pub fires :
      (c : ConfirmableContainer) (i : ConfirmableItem) (n : ℕ)
      → confirms e ≡ some n
      → Member c b
      → container_confirmed (confirm_container n c) ≡ true
      → get_elem? (confirm_container n c).content 0 ≡ some i
      → i.item.packet.type ≡ Kind.connect_cmd
      → Member (accepted c now) s'.socket.sent

sent-after :
    (s s' : Server) (ds : List Datagram)
    → s.socket.descriptor ≡ true
    → s'.socket ≡ after_sending s.socket ds
    → (s'.socket.descriptor ≡ true) × (s'.socket.sent ≡ s.socket.sent ++ ds)
sent-after s s' ds opened e = ground (arith, opened, e)

connect_event :
    (e : Event) (m : Packet) (a : SocketAddress)
    → e ≡ receive m a
    → m.type ≡ Kind.connect_cmd
    → is_connect e ≢ true
    → ⊥
unfolding is_connect
connect_event e m a r t never = never (rw r ((==_iff m.type Kind.connect_cmd).1 t))

confirms_no_connect : (e : Event) (n : ℕ) → confirms e ≡ some n → is_connect e ≢ true
unfolding confirms is_connect
confirms_no_connect (receive p a) n h u = ground (arith, h, u)
confirms_no_connect round n h u = cc

pub Effect-Follows :
    (s : Server) (b : Buffer) (e : Event) (now : ℕ) (s' : Server)
    → IsPrimary s b
    → s.socket.descriptor ≡ true
    → IsServer s'
    → Effect s b e now s'
    → Follows s b e now s'
unfolding push confirm_container
Effect-Follows s b e now s' v opened kept (quiet ds unconnected unconfirmed replicas socket) =
    let (still, sent) = sent-after s s' ds opened socket in
    record {
      buffer = b;
      valid = record {
        valid = kept;
        primary = rw replicas v.primary;
        stored = rw replicas v.stored;
        returns = rw replicas v.returns;
      };
      opened = still;
      sent = λ d h. rw sent (Member-append_left d s.socket.sent ds h);
      waits = λ c q h. h;
      pushes = λ c m a r t h. absurd (connect_event e m a r t (λ u. cc (unconnected, u)));
      marks = λ c n q h. cc (unconfirmed, q);
      fires = λ c i n q. cc (unconfirmed, q);
    }
Effect-Follows s b e now s' v opened kept (pushed message incoming is unconfirmed replicas socket) =
    let (still, sent) = sent-after s s' _ opened socket in
    record {
      buffer = push b (messages_for s.last_seqn message) message.seqn incoming;
      valid = record {
        valid = kept;
        primary = rw replicas v.primary;
        stored = rw replicas refl;
        returns = rw replicas v.returns;
      };
      opened = still;
      sent = λ d h. rw sent (Member-append_left d s.socket.sent _ h);
      waits = λ c q h. Member-append_left c b _ h;
      pushes = λ c m a r t h.
          let one_message : message ≡ m = ground (arith, is, r) in
          let one_sender : incoming ≡ a = ground (arith, is, r) in rw (one_message, one_sender) h;
      marks = λ c n q h. cc (unconfirmed, q);
      fires = λ c i n q. cc (unconfirmed, q);
    }
Effect-Follows s b e now s' v opened kept (confirmed m is replicas socket) =
    let (still, sent) = sent-after s s' _ opened socket in
    record {
      buffer = (confirm b m).buffer;
      valid = record {
        valid = kept;
        primary = rw replicas v.primary;
        stored = rw replicas refl;
        returns = rw replicas v.returns;
      };
      opened = still;
      sent = λ d h. rw sent (Member-append_left d s.socket.sent _ h);
      waits = λ c q h. cc (is, q);
      pushes = λ c p a r t h. absurd (connect_event e p a r t (λ u. confirms_no_connect e m is u));
      marks =
          λ c n q h. let one : m ≡ n = ground (arith, is, q) in rw (← one) (Member-confirm c b m h);
      fires = λ c i n q h done head kind.
          let one : m ≡ n = ground (arith, is, q) in
          rw sent (
            Member-append_right _ s.socket.sent _ (
              Member-acceptances (confirm_container m c) i (confirm b m).fired now
                (Member-fired c b m h (rw one done)) (rw one head) kind));
    }

-- What was sent stays sent.
pub run-sent :
    (es : List (Event × ℕ)) (s : Server) (b : Buffer) (d : Datagram)
    → IsPrimary s b
    → s.socket.descriptor ≡ true
    → All (λ e. IsPolite e.0) es
    → Member d s.socket.sent
    → (s' : Server) × (run s es ≡ ok s') × Member d s'.socket.sent
unfolding run
run-sent [] s b d v opened polite h = (s, refl, h)
run-sent ((e, now) ∷ es) s b d v opened polite h =
    let (s', ran, kept, effect) = step-Effect s b e now v polite.0 in
    let f = Effect-Follows s b e now s' v opened kept effect in
    let (final, later, there) = run-sent es s' f.buffer d f.valid f.opened polite.1 (f.sent d h) in
    (final, rw ran later, there)
