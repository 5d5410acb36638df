-- ===== src/Server/Reachable.antt =====
-- Every history of a server of source/server/server.cpp that starts with no profiles: packets that
-- arrive and rounds of the worker, in any order.
use piupiu.Common.{
  true, ap, ◌∙◌, ℕ, ◌≤◌, ◌≡◌, refl, inl, inr, Bool, false, List, [], ◌∷◌, none, some, Bytes, length,
  Result, ok, ◌>>=◌, All, find_key, arith, Bool-cases, from_c_array, if◌then◌else◌, ◌==◌, ==_iff, ℤ,
}
use piupiu.Messaging.Kind
use piupiu.Messaging.{Packet}
use piupiu.Messaging.Payload.{type_to_str_named}
use piupiu.Sessions.{SocketAddress, no_sessions}
use piupiu.Sessions.Invariant.{no_sessions-IsValid}
use piupiu.Profiles.Storage.{new_profile_manager}
use piupiu.Replicas.{
  Socket, bind, Peer, ReplicaManager, new_replica_manager, parse_peers_argument, first_primary,
}
use piupiu.Server.{PendingNotification, Server, new_server, message_handler}
use piupiu.Server.Pending.{pending_notification_worker}
use piupiu.Profiles.{Disk}
use piupiu.Server.Invariant.{IsServer, IsReplica, max_handle, max_body}
use piupiu.Server.Connect.{handle_connect_lem, handle_disconnect_lem, OnlyReplicas-IsServer}
use piupiu.Server.Replicate.{handle_confirm_total}
use piupiu.Server.Follow.{handle_follow_lem}
use piupiu.Server.Quiet.{follow-quiet, post-quiet, work-quiet}
use piupiu.Server.Posting.{handle_send_lem, handle_request_user_info_lem}
use piupiu.Server.Delivery.{work_lem, work_idle}

-- A packet arrives from an address, or the worker makes a round.
pub data Event : Type 0 where
  receive : Packet → SocketAddress → Event
  round : Event

-- One event, and a whole history with the times of its events.
unfoldable pub step : Server → Event → ℕ → Result Server
step s (receive message incoming) now = message_handler s message incoming now
step s round now = pending_notification_worker s now

unfoldable pub run : Server → List (Event × ℕ) → Result Server
run s [] = ok s
run s ((e, now) ∷ es) = do s' ← step s e now; run s' es

-- A packet that ends its payload, has one of the types, connects with a handle of at most 380 bytes,
-- and posts at most the 128 bytes that a client posts.
pub data IsPolite : Event → Type 0 where
  packet :
      (message : Packet) (incoming : SocketAddress) (text : Bytes)
      → from_c_array message.payload ≡ ok text
      → message.type ≤ Kind.confirm_state_change
      → (message.type ≡ Kind.connect_cmd → length text ≤ max_handle)
      → (message.type ≡ Kind.send_cmd → length text ≤ max_body)
      → IsPolite (receive message incoming)
  worker : IsPolite round

-- A packet with one of the types, whose text fits, is handled.
pub message_handler_total :
    (s : Server) (message : Packet) (incoming : SocketAddress) (now : ℕ) (text : Bytes)
    → IsServer s
    → from_c_array message.payload ≡ ok text
    → message.type ≤ Kind.confirm_state_change
    → (message.type ≡ Kind.connect_cmd → length text ≤ max_handle)
    → (message.type ≡ Kind.send_cmd → length text ≤ max_body)
    → s.replicas.returns ≡ true
    → (s' : Server) × (message_handler s message incoming now ≡ ok s')
      × IsServer s'
      × (s'.replicas.returns ≡ s.replicas.returns)
unfolding message_handler
message_handler_total s message incoming now text v named kind handle_fits body_fits on =
    elim (Bool-cases (message.type == Kind.connect_cmd)) [
      | inl e ↦
          let t = (==_iff message.type Kind.connect_cmd).0 e in
          let (s', ran, kept, c) =
            handle_connect_lem s message incoming now text v named (handle_fits t)
              (type_to_str_named message.type kind (omega arith)) on in
          (s', rw e ran, kept, c.returns)
      | inr e0 ↦ rw e0 (elim (Bool-cases (message.type == Kind.disconnect_cmd)) [
        | inl e ↦
            let (s', ran, kept, d) = handle_disconnect_lem s message incoming text v named in
            (s', rw e ran, kept, ap (λ (r : ReplicaManager). r.returns) d.replicas)
        | inr e1 ↦ rw e1 (elim (Bool-cases (message.type == Kind.follow_cmd)) [
          | inl e ↦
              let (s', ran, kept, f) = handle_follow_lem s message incoming text v named in
              (
                s',
                rw e ran,
                kept,
                ap (λ (r : ReplicaManager). r.returns) (follow-quiet s s' incoming text f).0,
              )
          | inr e2 ↦ rw e2 (elim (Bool-cases (message.type == Kind.send_cmd)) [
            | inl e ↦
                let t = (==_iff message.type Kind.send_cmd).0 e in
                let (s', ran, kept, p) =
                  handle_send_lem s message incoming text v named (body_fits t) in
                (
                  s',
                  rw e ran,
                  kept,
                  ap (λ (r : ReplicaManager). r.returns) (post-quiet s s' incoming text p).0,
                )
            | inr e3 ↦ rw e3 (elim (Bool-cases (message.type == Kind.request_user_info)) [
              | inl e ↦ (s, rw e (handle_request_user_info_lem s incoming v), v, refl)
              | inr e4 ↦ rw e4 (elim (Bool-cases (message.type == Kind.confirm_state_change)) [
                | inl e ↦
                    let (s', ran, only) = handle_confirm_total s message now v.replica on in
                    (s', rw e ran, OnlyReplicas-IsServer s s' v only, only.returns)
                | inr e5 ↦
                    let (name, known) =
                      type_to_str_named message.type kind (λ q. cc (e4, (==_iff _ _).1 q)) in
                    (s, rw (e5, known), v, refl)
              ])
            ])
          ])
        ])
      ])
    ]

-- An event of a polite history never fails, and keeps the invariant.
pub step_total :
    (s : Server) (e : Event) (now : ℕ)
    → IsServer s
    → IsPolite e
    → s.replicas.returns ≡ true
    → (s' : Server) × (step s e now ≡ ok s')
      × IsServer s'
      × (s'.replicas.returns ≡ s.replicas.returns)
unfolding step
step_total s (receive message incoming) now v (packet message' incoming' text named kind fits body)
      on =
    message_handler_total s message incoming now text v named kind fits body on
step_total s round now v worker on = round_total s.notification_queue refl
  where
    round_total :
        (queue : List PendingNotification)
        → s.notification_queue ≡ queue
        → (s' : Server) × (pending_notification_worker s now ≡ ok s')
          × IsServer s'
          × (s'.replicas.returns ≡ s.replicas.returns)
    round_total [] e = (s, work_idle s now e, v, refl)
    round_total (n ∷ rest) e =
        let (s', ran, kept, w) = work_lem s n rest now v e in
        (s', ran, kept, ap (λ (r : ReplicaManager). r.returns) (work-quiet s s' n rest w))

-- A server that knows nobody satisfies the invariant, if its replicas do.
pub nobody-IsServer :
    (last_seqn : ℕ) (socket : Socket) (disk : Disk) (replicas : ReplicaManager)
    → IsReplica replicas
    → IsServer (record {
      last_seqn = last_seqn;
      socket = socket;
      notification_queue = [];
      profiles = record { profiles = []; disk = disk };
      sessions = no_sessions;
      replicas = replicas;
    })
unfolding find_key
nobody-IsServer last_seqn socket disk replicas v = record {
  store = record { pointers = λ i p e. cc; distinct = λ i p e. cc; unique = λ i j p q e f h. cc };
  valid = no_sessions-IsValid;
  connected = λ i p e. cc;
  owned = λ k x e. cc;
  handles = λ i p e. cc;
  queue = tt;
  replica = v;
}

bind-total :
    (socket : Socket) (address : Bytes) (port : ℤ)
    → (bound : Socket) × (bind true socket address port ≡ ok bound)
unfolding bind
bind-total socket address port = elim (Bool-cases socket.descriptor) [
  | inl e ↦ (
    record socket { bound_address = some (record { address = address; port = port }) },
    rw e refl,
  )
  | inr e ↦ (socket, rw e refl)
]

-- A server that starts with no file profiles.dat satisfies the invariant, if its peers can be read
-- and a secondary is told of a primary, in a build where a function that flows off its end returns.
pub new_server-IsServer :
    (returns : Bool) (address : Bytes) (port : ℤ) (peers_list : Bytes) (primary : Bool)
    (writable : Bool) (socket : Socket) (peers : List Peer)
    → parse_peers_argument peers_list ≡ ok peers
    → (primary ≡ false → (p : Peer) × (first_primary peers ≡ some p))
    → returns ≡ true
    → (s : Server) × (new_server returns address port peers_list primary
          (record { content = none; writable = writable })
          socket
        ≡ ok s)
      × IsServer s
      × (s.replicas.returns ≡ true)
unfolding new_server new_profile_manager new_replica_manager
new_server-IsServer returns address port peers_list primary writable socket peers parsed attached
      on =
    let this : Peer = record { address = address; port = port; primary = primary } in
    let (bound, ran) = bind-total socket address port in
    let s : Server = record {
      last_seqn = 0;
      socket = bound;
      notification_queue = [];
      profiles = record { profiles = []; disk = record { content = none; writable = writable } };
      sessions = no_sessions;
      replicas = record {
        this_peer = this;
        peers = peers;
        confirmation_buffer = if primary then some [] else none;
        returns = true;
      };
    } in
    (
      s,
      rw (on, parsed, ran) refl,
      nobody-IsServer 0 s.socket s.profiles.disk s.replicas
          (record { buffered = λ e. ([], rw e refl, tt); attached = attached }),
      refl,
    )

-- In a build where a function that flows off its end returns, a server under the invariant survives
-- every polite history: no handler and no round of the worker ends in a fault, and the invariant
-- holds at the end.
pub run_total :
    (es : List (Event × ℕ)) (s : Server)
    → IsServer s
    → All (λ e. IsPolite e.0) es
    → s.replicas.returns ≡ true
    → (s' : Server) × (run s es ≡ ok s') × IsServer s' × (s'.replicas.returns ≡ s.replicas.returns)
unfolding run
run_total [] s v h on = (s, refl, v, refl)
run_total ((e, now) ∷ es) s v h on =
    let (s', ran, kept, build) = step_total s e now v h.0 on in
    let (final, later, held, same_build) = run_total es s' kept h.1 (build ∙ on) in
    (final, rw ran later, held, same_build ∙ build)
