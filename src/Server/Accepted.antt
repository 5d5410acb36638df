-- ===== src/Server/Accepted.antt =====
-- source/server/server.cpp and ReplicaManager.cpp: a CONNECT that a primary broadcast, until its client
-- is accepted, whatever else happens to the server in between.
use piupiu.Common.{
  ℕ, ◌≤◌, ◌≡◌, ◌≢◌, refl, inl, inr, Bool, true, false, ◌&&◌, ◌||◌, List, [], ◌∷◌, Option, none,
  some, Bytes, length, ok, arith, Bool-cases, Option-cases, from_c_array, if◌then◌else◌, ◌==◌, All,
  Member, Member-append_right,
}
use piupiu.Messaging.Kind
use piupiu.Messaging.{Packet, make_accept_conn_command}
use piupiu.Sessions.{SocketAddress}
use piupiu.Confirmation.{
  ConfirmableItem, ConfirmableContainer, Buffer, push, confirm_container, confirm_items,
  container_confirmed, all_confirmed,
}
use piupiu.Replicas.{seqn_at, messages_for}
use piupiu.Server.{Server}
use piupiu.Server.Invariant.{IsServer, max_handle}
use piupiu.Server.Reachable.{Event, receive, run, IsPolite, packet}
use piupiu.Server.Effect.{confirms, Effect}
use piupiu.Server.Watch.{IsPrimary, step-Effect, Follows, Effect-Follows, run-sent}

-- The group of a CONNECT, with the items that are confirmed
module _ (message : Packet) (sender : SocketAddress) (last_seqn : ℕ) where
  abbrev item : ℕ → Bool → ConfirmableItem
  item k f = record {
    item = record { sequence_number = seqn_at last_seqn k; packet = message };
    confirmed = f;
  }

  abbrev group : Bool → Bool → Bool → ConfirmableContainer
  group f0 f1 f2 = record {
    content = item 0 f0 ∷ item 1 f1 ∷ item 2 f2 ∷ [];
    original_seqn = message.seqn;
    original_host = sender;
  }

  abbrev flag : ℕ → ℕ → Bool → Bool
  flag n k f = if seqn_at last_seqn k == n then true else f

  confirm-item :
      (n k : ℕ) (f : Bool)
      → (if seqn_at last_seqn k == n then record (item k f) { confirmed = true } else item k f)
        ≡ item k (flag n k f)
  confirm-item n k f = elim (Bool-cases (seqn_at last_seqn k == n)) [
    | inl e ↦ rw e refl
    | inr e ↦ rw e refl
  ]

  confirm-group :
      (n : ℕ) (f0 f1 f2 : Bool)
      → confirm_container n (group f0 f1 f2) ≡ group (flag n 0 f0) (flag n 1 f1) (flag n 2 f2)
  unfolding confirm_container confirm_items
  confirm-group n f0 f1 f2 = rw (confirm-item n 0 f0, confirm-item n 1 f1, confirm-item n 2 f2) refl

  group_pushed :
      (b : Buffer)
      → Member
          (group false false false)
          (push b (messages_for last_seqn message) message.seqn sender)
  unfolding push messages_for
  group_pushed b =
      Member-append_right (group false false false) b (group false false false ∷ []) (inl refl)

-- Whether some event of the history confirms the number
abbrev pub is_number : ℕ → Option ℕ → Bool
is_number n none = false
is_number n (some m) = n == m

unfoldable pub confirmed_in : ℕ → List (Event × ℕ) → Bool
confirmed_in n [] = false
confirmed_in n ((e, now) ∷ es) = is_number n (confirms e) || confirmed_in n es

nothing_left :
    (f0 f1 f2 : Bool)
    → (f0 || false) ≡ true
    → (f1 || false) ≡ true
    → (f2 || false) ≡ true
    → (f0 && (f1 && (f2 && true))) ≢ false
nothing_left true true true h0 h1 h2 e = cc
nothing_left false f1 f2 h0 h1 h2 e = cc
nothing_left true false f2 h0 h1 h2 e = cc
nothing_left true true false h0 h1 h2 e = cc

-- The group of `message` waits in the buffer, and is accepted in a history that confirms the items that
-- are not confirmed yet.
module _ (message : Packet) (sender : SocketAddress) (last_seqn : ℕ)
    (kind : message.type ≡ Kind.connect_cmd) where
  abbrev ConfirmedBy : List (Event × ℕ) → ℕ → Bool → Type 0
  ConfirmedBy es k f = (f || confirmed_in (seqn_at last_seqn k) es) ≡ true

  abbrev AcceptedIn : Server → List (Event × ℕ) → Type 0
  AcceptedIn s es =
      (s' : Server) × (time : ℕ) × (run s es ≡ ok s')
      × Member (record { to = sender; packet = make_accept_conn_command message.seqn time })
          s'.socket.sent

  flag_later :
      (n k : ℕ) (f : Bool) (es : List (Event × ℕ))
      → (f || (seqn_at last_seqn k == n || confirmed_in (seqn_at last_seqn k) es)) ≡ true
      → ConfirmedBy es k (flag message sender last_seqn n k f)
  flag_later n k f es h = elim (Bool-cases (seqn_at last_seqn k == n)) [
    | inl e ↦ rw e refl
    | inr e ↦ rw e (rw e at h)
  ]

  group-Accepted :
      (es : List (Event × ℕ)) (s : Server) (b : Buffer) (f0 f1 f2 : Bool)
      → IsPrimary s b
      → s.socket.descriptor ≡ true
      → All (λ e. IsPolite e.0) es
      → Member (group message sender last_seqn f0 f1 f2) b
      → container_confirmed (group message sender last_seqn f0 f1 f2) ≡ false
      → ConfirmedBy es 0 f0
      → ConfirmedBy es 1 f1
      → ConfirmedBy es 2 f2
      → AcceptedIn s es
  unfolding run confirmed_in container_confirmed all_confirmed
  group-Accepted [] s b f0 f1 f2 v opened polite waiting not_yet h0 h1 h2 =
      absurd (nothing_left f0 f1 f2 h0 h1 h2 not_yet)
  group-Accepted ((e, now) ∷ es) s b f0 f1 f2 v opened polite waiting not_yet h0 h1 h2 =
      let (s', ran, kept, effect) = step-Effect s b e now v polite.0 in
      let f = Effect-Follows s b e now s' v opened kept effect in
      elim (Option-cases (confirms e)) [
        | inl unconfirmed ↦
            let (final, time, later, there) =
              group-Accepted es s' f.buffer f0 f1 f2 f.valid f.opened polite.1
                (f.waits _ unconfirmed waiting) not_yet (rw unconfirmed at h0)
                (rw unconfirmed at h1) (rw unconfirmed at h2) in
            (final, time, rw ran later, there)
        | inr (n, is) ↦
            let same_group = confirm-group message sender last_seqn n f0 f1 f2 in
            let next =
              group message sender last_seqn (flag message sender last_seqn n 0 f0)
                (flag message sender last_seqn n 1 f1) (flag message sender last_seqn n 2 f2) in
            let marked : Member next f.buffer = rw same_group at (f.marks _ n is waiting) in
            elim (Bool-cases (container_confirmed next)) [
              | inl done ↦
                  let fired =
                    f.fires (group message sender last_seqn f0 f1 f2)
                      (item message sender last_seqn 0 (flag message sender last_seqn n 0 f0)) n is
                      waiting (rw same_group done) (rw same_group refl) kind in
                  let (final, later, there) =
                    run-sent es s' f.buffer _ f.valid f.opened polite.1 fired in
                  (final, now, rw ran later, there)
              | inr more ↦
                  let (final, time, later, there) =
                    group-Accepted es s' f.buffer _ _ _ f.valid f.opened polite.1 marked more
                      (flag_later n 0 f0 es (rw is at h0)) (flag_later n 1 f1 es (rw is at h1))
                      (flag_later n 2 f2 es (rw is at h2)) in
                  (final, time, rw ran later, there)
            ]
      ]

-- After a CONNECT its group waits.
connect-Follows :
    (s : Server) (b : Buffer) (message : Packet) (sender : SocketAddress) (now : ℕ) (s' : Server)
    → IsPrimary s b
    → s.socket.descriptor ≡ true
    → IsServer s'
    → message.type ≡ Kind.connect_cmd
    → Effect s b (receive message sender) now s'
    → (f : Follows s b (receive message sender) now s') × Member
        (group message sender s.last_seqn false false false)
        f.buffer
connect-Follows s b message sender now s' v opened kept kind effect =
    let f = Effect-Follows s b (receive message sender) now s' v opened kept effect in
    (f, f.pushes _ message sender refl kind (group_pushed message sender s.last_seqn b))

-- In a build where a function that flows off its end returns, a primary under its invariant, with an open
-- descriptor, handles the CONNECT of a user whose handle has
-- at most 380 bytes; in every history of polite events after it that brings a confirmation of each of
-- the three numbers behind the server's last one, in whatever order and with whatever else in between,
-- the client is sent its acceptance.
pub connect_accepted :
    (s : Server) (message : Packet) (sender : SocketAddress) (now : ℕ) (user : Bytes)
    (es : List (Event × ℕ))
    → IsServer s
    → s.replicas.this_peer.primary ≡ true
    → s.socket.descriptor ≡ true
    → s.replicas.returns ≡ true
    → from_c_array message.payload ≡ ok user
    → length user ≤ max_handle
    → message.type ≡ Kind.connect_cmd
    → All (λ e. IsPolite e.0) es
    → confirmed_in (seqn_at s.last_seqn 0) es ≡ true
    → confirmed_in (seqn_at s.last_seqn 1) es ≡ true
    → confirmed_in (seqn_at s.last_seqn 2) es ≡ true
    → (s' : Server) × (time : ℕ) × (run s ((receive message sender, now) ∷ es) ≡ ok s')
      × Member
          (record { to = sender; packet = make_accept_conn_command message.seqn time })
          s'.socket.sent
unfolding run container_confirmed all_confirmed
connect_accepted s message sender now user es v primary opened on named short kind polite h0 h1 h2 =
    let (b, stored, headed) = v.replica.buffered primary in
    let before : IsPrimary s b = record {
      valid = v;
      primary = primary;
      stored = stored;
      returns = on;
    } in
    let is_polite =
      packet message sender user named (omega (arith, kind)) (λ t. short)
        (λ t. absurd (omega (arith, kind, t))) in
    let (s1, ran, kept, effect) = step-Effect s b (receive message sender) now before is_polite in
    let f = connect-Follows s b message sender now s1 before opened kept kind effect in
    let (final, time, later, there) =
      group-Accepted message sender s.last_seqn kind es s1 f.0.buffer false false false f.0.valid
        f.0.opened polite f.1 refl h0 h1 h2 in
    (final, time, rw ran later, there)
