-- ===== src/Server/Connect.antt =====
-- source/server/server.cpp: CONNECT and DISCONNECT, and what both do to the table of sockets.
use piupiu.Common.{
  true, false, err, no_value, ℕ, ◌≤◌, ◌≡◌, refl, sym, inl, inr, List, none, some, Bytes, length,
  get_elem?, ok, All, All-imp, IsText, find_key, arith, Option-cases, from_c_array,
  from_c_array_text,
}
use piupiu.Messaging.{Packet}
use piupiu.Sessions.{SocketAddress, SessionManager}
use piupiu.Sessions.Invariant.{IsValid}
use piupiu.Sessions.View.{
  sockets_of, open_socket, close_socket, close_socket-absent, start_session_refines,
  end_session_refines,
}
use piupiu.Profiles.{Profile, ProfileManager, get_profile_by_name}
use piupiu.Profiles.Invariant.{get_profile_by_name_hit, get_profile_by_name_miss}
use piupiu.Replicas.Broadcast.{IsNamed}
use piupiu.Server.{Server, PendingNotification, handle_connect, handle_disconnect}
use piupiu.Server.Invariant.{IsServer, IsDeliverable, max_handle}
use piupiu.Server.Register.{profile_for_lem, store_session_lem, Stored}
use piupiu.Server.Replicate.{OnlyReplicas, replicate_connect_total, replicate_connect_flows_off}

-- What a CONNECT of `user` from `a` makes of a server.
pub record Connected (s s' : Server) (user : Bytes) (a : SocketAddress) : Type 0 where
  pub table : (k : Bytes) → sockets_of s'.sessions k ≡ open_socket (sockets_of s.sessions) user a k
  pub profiles_kept :
      (i : ℕ) (p : Profile)
      → get_elem? s.profiles.profiles i ≡ some p
      → (p' : Profile) × (get_elem? s'.profiles.profiles i ≡ some p')
        × (p'.handle ≡ p.handle)
        × (p'.followers ≡ p.followers)
  pub registered :
      (i : ℕ) × (p : Profile) × (get_elem? s'.profiles.profiles i ≡ some p) × (p.handle ≡ user)
  pub queue : s'.notification_queue ≡ s.notification_queue
  pub returns : s'.replicas.returns ≡ s.replicas.returns

IsDeliverable-mono :
    (n m : ℕ) (queue : List PendingNotification)
    → n ≤ m
    → All (IsDeliverable n) queue
    → All (IsDeliverable m) queue
IsDeliverable-mono n m queue h =
    All-imp (IsDeliverable n) (IsDeliverable m) queue (λ x d. (omega arith, d.1, d.2, d.3, d.4))

-- The server between the registration and the replication.
Stored-IsServer :
    (s : Server) (m : ProfileManager) (sm : SessionManager) (user : Bytes)
    → IsServer s
    → IsValid sm
    → Stored s.profiles.profiles m.profiles sm user
    → IsText user
    → length user ≤ max_handle
    → IsServer (record s { profiles = m; sessions = sm })
Stored-IsServer s m sm user v w t text short = record {
  store = t.store;
  valid = w;
  connected = t.connected;
  owned = t.owned;
  handles = λ i p e. elim (t.origin i p e) [
    | inl named ↦ rw named (text, short)
    | inr (q, old, named) ↦ rw named (v.handles i q old)
  ];
  queue =
      IsDeliverable-mono (length s.profiles.profiles) (length m.profiles) s.notification_queue
        t.longer v.queue;
  replica = v.replica;
}

-- A step that changes the replicas alone keeps the invariant.
pub OnlyReplicas-IsServer : (s s' : Server) → IsServer s → OnlyReplicas s s' → IsServer s'
OnlyReplicas-IsServer s s' v o = record {
  store = rw o.profiles v.store;
  valid = rw o.sessions v.valid;
  connected = rw (o.profiles, o.sessions) v.connected;
  owned = rw (o.profiles, o.sessions) v.owned;
  handles = rw o.profiles v.handles;
  queue = rw (o.profiles, o.queue) v.queue;
  replica = o.replica;
}

-- A CONNECT of a user whose handle leaves room for a message, in a packet of a type that has a name,
-- never fails under the invariant, in a build where a function that flows off its end returns. It
-- keeps it, opens the sender's socket in the table, makes sure that the user has a profile, and
-- changes neither the handles and followers that were there nor the queue.
pub handle_connect_lem :
    (s : Server) (message : Packet) (incoming : SocketAddress) (now : ℕ) (user : Bytes)
    → IsServer s
    → from_c_array message.payload ≡ ok user
    → length user ≤ max_handle
    → IsNamed message.type
    → s.replicas.returns ≡ true
    → (s' : Server) × (handle_connect s message incoming now ≡ ok s')
      × IsServer s'
      × Connected s s' user incoming
unfolding handle_connect
handle_connect_lem s message incoming now user v named short known on =
    let (m, i, p, found, g) = profile_for_lem s.profiles user v.store in
    let (r, started, rv, o) = start_session_refines s.sessions user incoming v.valid in
    let (m', stored, t) = store_session_lem s v user incoming m i p g r o rv in
    let middle : Server = record s { profiles = m'; sessions = r.0 } in
    let (s', ran, only) = replicate_connect_total middle message incoming now v.replica known on in
    let text = from_c_array_text message.payload user named in
    (
      s',
      rw (named, found, g.stored, g.named, started, stored) ran,
      OnlyReplicas-IsServer middle s' (Stored-IsServer s m' r.0 user v rv t text short) only,
      record {
        table = rw only.sessions o.table;
        profiles_kept = rw only.profiles t.kept;
        registered = rw only.profiles t.registered;
        queue = only.queue;
        returns = only.returns;
      },
    )

-- In a build where a function that flows off its end does not return, such a CONNECT always ends in that
-- fault: its last step is BroadcastToSecondaries or ConfirmMessage.
pub handle_connect_flows_off :
    (s : Server) (message : Packet) (incoming : SocketAddress) (now : ℕ) (user : Bytes)
    → IsServer s
    → from_c_array message.payload ≡ ok user
    → IsNamed message.type
    → s.replicas.returns ≡ false
    → handle_connect s message incoming now ≡ err no_value
unfolding handle_connect
handle_connect_flows_off s message incoming now user v named known off =
    let (m, i, p, found, g) = profile_for_lem s.profiles user v.store in
    let (r, started, rv, o) = start_session_refines s.sessions user incoming v.valid in
    let (m', stored, t) = store_session_lem s v user incoming m i p g r o rv in
    rw (named, found, g.stored, g.named, started, stored)
      (replicate_connect_flows_off (record s { profiles = m'; sessions = r.0 }) message incoming now
        v.replica known off)

-- A user with no profile has no session.
no_session :
    (s : Server) (user : Bytes)
    → IsServer s
    → get_profile_by_name s.profiles user ≡ none
    → find_key user s.sessions.sessions ≡ none
no_session s user v e = elim (Option-cases (find_key user s.sessions.sessions)) [
  | inl absent ↦ absent
  | inr (x, found) ↦
      let (i, p, stored, named, session) = v.owned user x found in
      absurd (get_profile_by_name_miss s.profiles user i p e stored named)
]

-- What a DISCONNECT of `user` from `a` makes of a server: only the table of sockets changes.
pub record Disconnected (s s' : Server) (user : Bytes) (a : SocketAddress) : Type 0 where
  pub table : (k : Bytes) → sockets_of s'.sessions k ≡ close_socket (sockets_of s.sessions) user a k
  pub profiles : s'.profiles ≡ s.profiles
  pub queue : s'.notification_queue ≡ s.notification_queue
  pub replicas : s'.replicas ≡ s.replicas
  pub socket : s'.socket ≡ s.socket

pub handle_disconnect_lem :
    (s : Server) (message : Packet) (incoming : SocketAddress) (user : Bytes)
    → IsServer s
    → from_c_array message.payload ≡ ok user
    → (s' : Server) × (handle_disconnect s message incoming ≡ ok s')
      × IsServer s'
      × Disconnected s s' user incoming
unfolding handle_disconnect
handle_disconnect_lem s message incoming user v named =
    elim (Option-cases (get_profile_by_name s.profiles user)) [
      | inl e ↦ (
        s,
        ground (arith, named, e),
        v,
        record {
          table = λ k. sym (close_socket-absent s.sessions user incoming k (no_session s user v e));
          profiles = refl;
          queue = refl;
          replicas = refl;
          socket = refl;
        },
      )
      | inr (i, e) ↦
          let (p, stored, owner) = get_profile_by_name_hit s.profiles user i e in
          let (r, ended, rv, c) = end_session_refines s.sessions user incoming v.valid in
          (
            record s { sessions = r.0 },
            ground (arith, named, e, stored, owner, ended),
            record {
              store = v.store;
              valid = rv;
              connected = rw c.kept v.connected;
              owned = rw c.kept v.owned;
              handles = v.handles;
              queue = v.queue;
              replica = v.replica;
            },
            record {
              table = c.table;
              profiles = refl;
              queue = refl;
              replicas = refl;
              socket = refl;
            },
          )
    ]
