-- ===== src/Server/Dispatch.antt =====
-- source/server/server.cpp: which branch of the handler a packet takes, and what comes last in a
-- CONNECT.
use piupiu.Common.{
  ℕ, ◌≡◌, ◌≢◌, inl, inr, true, Option, get_elem?, Result, ok, err, ◌>>=◌, >>=-eq-ok, arith,
  Bool-cases, from_c_array, ◌==◌, ==_iff, or_fail, dangling,
}
use piupiu.Messaging.Kind
use piupiu.Messaging.{Packet, type_to_str}
use piupiu.Sessions.{SocketAddress, SessionManager, start_session}
use piupiu.Profiles.{ProfileManager}
use piupiu.Server.{
  Server, handle_connect, handle_disconnect, handle_follow, handle_send, handle_request_user_info,
  handle_confirm, message_handler, replicate_connect, profile_for, store_session,
}

-- The branch of the handler that a packet took.
pub data Handled (s : Server) (message : Packet) (incoming : SocketAddress) (now : ℕ) (s' : Server)
    : Type 0 where
  connect_branch :
      message.type ≡ Kind.connect_cmd
      → handle_connect s message incoming now ≡ ok s'
      → Handled s message incoming now s'
  disconnect_branch :
      message.type ≡ Kind.disconnect_cmd
      → handle_disconnect s message incoming ≡ ok s'
      → Handled s message incoming now s'
  follow_branch :
      message.type ≡ Kind.follow_cmd
      → handle_follow s message incoming ≡ ok s'
      → Handled s message incoming now s'
  send_branch :
      message.type ≡ Kind.send_cmd
      → handle_send s message incoming ≡ ok s'
      → Handled s message incoming now s'
  info_branch :
      message.type ≡ Kind.request_user_info
      → handle_request_user_info s incoming ≡ ok s'
      → Handled s message incoming now s'
  confirm_branch :
      message.type ≡ Kind.confirm_state_change
      → handle_confirm s message now ≡ ok s'
      → Handled s message incoming now s'
  other_branch :
      message.type ≢ Kind.connect_cmd
      → message.type ≢ Kind.confirm_state_change
      → s' ≡ s
      → Handled s message incoming now s'

pub message_handler-Handled :
    (s : Server) (message : Packet) (incoming : SocketAddress) (now : ℕ) (s' : Server)
    → message_handler s message incoming now ≡ ok s'
    → Handled s message incoming now s'
unfolding message_handler
message_handler-Handled s message incoming now s' h =
    elim (Bool-cases (message.type == Kind.connect_cmd)) [
      | inl e ↦ connect_branch (is e) (rw e at h)
      | inr e0 ↦ elim (Bool-cases (message.type == Kind.disconnect_cmd)) [
        | inl e ↦ disconnect_branch (is e) (rw (e0, e) at h)
        | inr e1 ↦ elim (Bool-cases (message.type == Kind.follow_cmd)) [
          | inl e ↦ follow_branch (is e) (rw (e0, e1, e) at h)
          | inr e2 ↦ elim (Bool-cases (message.type == Kind.send_cmd)) [
            | inl e ↦ send_branch (is e) (rw (e0, e1, e2, e) at h)
            | inr e3 ↦ elim (Bool-cases (message.type == Kind.request_user_info)) [
              | inl e ↦ info_branch (is e) (rw (e0, e1, e2, e3, e) at h)
              | inr e4 ↦ elim (Bool-cases (message.type == Kind.confirm_state_change)) [
                | inl e ↦ confirm_branch (is e) (rw (e0, e1, e2, e3, e4, e) at h)
                | inr e5 ↦
                    let rest : (type_to_str message.type >>= λ name. ok s) ≡ ok s' =
                      rw (e0, e1, e2, e3, e4, e5) at h in
                    let (name, named, last) = >>=-eq-ok (type_to_str message.type) _ rest in
                    other_branch (λ q. cc (e0, (==_iff _ _).1 q)) (λ q. cc (e5, (==_iff _ _).1 q))
                      (ground (arith, last))
              ]
            ]
          ]
        ]
      ]
    ]
  where
    is : {kind : ℕ} → (message.type == kind) ≡ true → message.type ≡ kind
    is {kind} e = (==_iff message.type kind).0 e

-- What follows from the last step of a run that returns follows from the run.
then_last :
    {A B P : Type 0} (r : Result A) (f : A → Result B) (b : B)
    → ((a : A) → f a ≡ ok b → P)
    → (r >>= f) ≡ ok b
    → P
then_last (ok a) f b k e = k a e
then_last (err x) f b k e = cc

-- What follows from the replication at the end of a CONNECT follows from the CONNECT.
pub handle_connect_last :
    {P : Type 0} (s : Server) (message : Packet) (incoming : SocketAddress) (now : ℕ) (s' : Server)
    → ((m : ProfileManager) (sm : SessionManager)
        → replicate_connect (record s { profiles = m; sessions = sm }) message incoming now ≡ ok s'
        → P)
    → handle_connect s message incoming now ≡ ok s'
    → P
unfolding handle_connect
handle_connect_last s message incoming now s' k =
    then_last (from_c_array message.payload) _ s' (λ username.
      then_last (profile_for s.profiles username) _ s' (λ (found : ProfileManager × ℕ).
        then_last (or_fail (get_elem? found.0.profiles found.1) dangling) _ s' (λ p.
          then_last (start_session s.sessions p.handle incoming) _ s'
            (λ (started : SessionManager × Option ℕ).
              then_last (store_session found.0 started.0 found.1 started.1) _ s'
                (λ m. k m started.0)))))
