-- ===== src/Replicas/Acceptance.antt =====
-- source/server/ReplicaManager.cpp: the confirmations of the secondaries, and the acceptance of the
-- client whose CONNECT was broadcast.
use piupiu.Common.{
  off_end, ℕ, ◌<◌, ◌≡◌, ◌≢◌, refl, ap, ◌∙◌, inl, inr, true, false, ◌&&◌, List, [], ◌∷◌, ◌++◌, none,
  some, length, get_elem?, ==_iff, err, All, Member, Bool-cases, Option-cases, arith, All-append,
  All-imp, Member-append_right, uncaught, map,
}
use piupiu.Messaging.Kind
use piupiu.Messaging.{
  Packet, make_accept_conn_command, make_confirm_state_change_message, make_packet, type_to_str,
}
use piupiu.Sessions.{SocketAddress}
use piupiu.Confirmation.{
  BaseMessage, ConfirmableItem, ConfirmableContainer, Buffer, push, confirm, container_confirmed,
  confirm_container, confirm_items,
}
use piupiu.Confirmation.Progress.{confirm_all, contains, push_completes, complete, confirm_fires}
use piupiu.Replicas.{
  Datagram, Socket, Peer, get_socket_address, ReplicaManager, get_secondary_replicas, seqn_at,
  messages_for, confirm_message, get_primary_replica, first_primary,
}
use piupiu.Replicas.Broadcast.{
  after_sending, send_lem, broadcast_plan, IsHeaded, acceptance, acceptances, call_back_lem,
}

confirm_items_head :
    (n : ℕ) (l : List ConfirmableItem) (i : ConfirmableItem)
    → get_elem? l 0 ≡ some i
    → (j : ConfirmableItem) × (get_elem? (confirm_items n l) 0 ≡ some j)
unfolding confirm_items
confirm_items_head n [] i e = cc
confirm_items_head n (k ∷ l) i e = (_, refl)

confirm_container-IsHeaded :
    (n : ℕ) (c : ConfirmableContainer) → IsHeaded c → IsHeaded (confirm_container n c)
unfolding confirm_container
confirm_container-IsHeaded n c (i, e) = confirm_items_head n c.content i e

-- Confirming keeps every group, and calls back for groups of the buffer.
pub confirm-IsHeaded :
    (b : Buffer) (n : ℕ)
    → All IsHeaded b
    → All IsHeaded (confirm b n).buffer × All IsHeaded (confirm b n).fired
unfolding confirm
confirm-IsHeaded [] n h = (tt, tt)
confirm-IsHeaded (c ∷ cs) n (h, hs) =
    let here = confirm_container-IsHeaded n c h in
    let (kept, fired) = confirm-IsHeaded cs n hs in
    (
      (here, kept),
      elim (Bool-cases (container_confirmed (confirm_container n c))) [
        | inl e ↦ rw e (here, fired)
        | inr e ↦ rw e fired
      ],
    )

pub push-IsHeaded :
    (b : Buffer) (last_seqn seqn : ℕ) (message : Packet) (sender : SocketAddress)
    → All IsHeaded b
    → All IsHeaded (push b (messages_for last_seqn message) seqn sender)
unfolding push messages_for
push-IsHeaded b last_seqn seqn message sender h = All-append IsHeaded b _ h ((_, refl), tt)

-- A confirmation that reaches the primary is noted in its buffer, and the clients of the groups that
-- are then complete are accepted.
pub confirm_message_primary :
    (r : ReplicaManager) (b : Buffer) (seqn now : ℕ) (s : Socket)
    → r.this_peer.primary ≡ true
    → r.confirmation_buffer ≡ some b
    → All IsHeaded b
    → confirm_message r seqn now s
      ≡ off_end r.returns (
        record r { confirmation_buffer = some (confirm b seqn).buffer },
        after_sending s (acceptances (complete (confirm b seqn).buffer) now),
      )
unfolding confirm_message
confirm_message_primary r b seqn now s p e h = ground (
  arith,
  call_back_lem (confirm b seqn).fired now s (confirm-IsHeaded b seqn h).1,
  confirm_fires b seqn,
)

-- A secondary sends the confirmation to the first primary among its peers.
pub confirm_message_secondary :
    (r : ReplicaManager) (seqn now : ℕ) (s : Socket) (p : Peer)
    → r.this_peer.primary ≡ false
    → first_primary r.peers ≡ some p
    → confirm_message r seqn now s
      ≡ off_end r.returns (
        r,
        after_sending s (
            record {
              to = get_socket_address p;
              packet = make_confirm_state_change_message seqn now;
            }
            ∷ []),
      )
unfolding confirm_message get_primary_replica make_confirm_state_change_message make_packet
    type_to_str
confirm_message_secondary r seqn now s p h e = ground (
  arith,
  send_lem s (get_socket_address p) (make_confirm_state_change_message seqn now) (_, refl),
)

-- With no primary among its peers it ends in an exception that nobody catches.
pub confirm_message_orphan :
    (r : ReplicaManager) (seqn now : ℕ) (s : Socket)
    → r.this_peer.primary ≡ false
    → first_primary r.peers ≡ none
    → confirm_message r seqn now s ≡ err uncaught
unfolding confirm_message get_primary_replica
confirm_message_orphan r seqn now s h e = ground arith

confirm_all-append :
    (b : Buffer) (ns : List ℕ) (n : ℕ)
    → confirm_all b (ns ++ n ∷ []) ≡ (confirm (confirm_all b ns) n).buffer
unfolding confirm_all
confirm_all-append b [] n = refl
confirm_all-append b (m ∷ ns) n = confirm_all-append (confirm b m).buffer ns n

acceptances-cons :
    (d : Datagram) (c : ConfirmableContainer) (cs : List ConfirmableContainer) (now : ℕ)
    → Member d (acceptances cs now)
    → Member d (acceptances (c ∷ cs) now)
unfolding acceptances
acceptances-cons d c cs now h = elim (Option-cases (get_elem? c.content 0)) [
  | inl e ↦ rw (e, acceptances) h
  | inr (i, e) ↦
      rw (e, acceptances) (Member-append_right d (acceptance c i now) (acceptances cs now) h)
]

acceptances-last :
    (b : Buffer) (c : ConfirmableContainer) (i : ConfirmableItem) (now : ℕ)
    → container_confirmed c ≡ true
    → get_elem? c.content 0 ≡ some i
    → i.item.packet.type ≡ Kind.connect_cmd
    → Member
        (record { to = c.original_host; packet = make_accept_conn_command c.original_seqn now })
        (acceptances (complete (b ++ c ∷ [])) now)
unfolding complete acceptances acceptance
acceptances-last [] c i now done e t = rw (done, e, acceptances, (==_iff _ _).1 t) (inl refl)
acceptances-last (d ∷ b) c i now done e t =
    let rest = acceptances-last b c i now done e t in
    let accepted : Datagram = record {
      to = c.original_host;
      packet = make_accept_conn_command c.original_seqn now;
    } in
    elim (Bool-cases (container_confirmed d)) [
      | inl h ↦ rw h (acceptances-cons accepted d (complete (b ++ c ∷ [])) now rest)
      | inr h ↦ rw h rest
    ]

head_item :
    (l : List ConfirmableItem) (x : BaseMessage) (rest : List BaseMessage)
    → map (λ i. i.item) l ≡ x ∷ rest
    → (i : ConfirmableItem) × (get_elem? l 0 ≡ some i) × (i.item ≡ x)
head_item [] x rest e = cc
head_item (i ∷ l) x rest e = (i, refl, ground arith)

-- The group of a broadcast, after some confirmations.
broadcast_group :
    (b : Buffer) (message : Packet) (sender : SocketAddress) (last_seqn : ℕ) (ns : List ℕ)
    → (c : ConfirmableContainer) × (i : ConfirmableItem) × (confirm_all
          (push b (messages_for last_seqn message) message.seqn sender)
          ns
        ≡ confirm_all b ns ++ c ∷ [])
      × (c.original_seqn ≡ message.seqn)
      × (c.original_host ≡ sender)
      × (get_elem? c.content 0 ≡ some i)
      × (i.item.packet ≡ message)
      × (container_confirmed c ≡ (
          contains (seqn_at last_seqn 0) ns
          && contains (seqn_at last_seqn 1) ns
          && contains (seqn_at last_seqn 2) ns))
unfolding messages_for
broadcast_group b message sender last_seqn ns =
    let item = λ (k : ℕ).
      let m : BaseMessage = record { sequence_number = seqn_at last_seqn k; packet = message } in
      m in
    let (c, placed, number, host, items, done) =
      push_completes b (item 0) (item 1) (item 2) message.seqn sender ns in
    let (i, head, first) = head_item c.content (item 0) (item 1 ∷ item 2 ∷ []) items in
    (c, i, placed, number, host, head, ap (λ (m : BaseMessage). m.packet) first, done)

-- The client of a CONNECT that was broadcast is accepted, under the number behind that of its own
-- packet, by the confirmation after which all three numbers of the group have been confirmed.
pub broadcast_accepted :
    (b : Buffer) (message : Packet) (sender : SocketAddress) (last_seqn now n : ℕ) (ns : List ℕ)
    → message.type ≡ Kind.connect_cmd
    → contains (seqn_at last_seqn 0) (ns ++ n ∷ []) ≡ true
    → contains (seqn_at last_seqn 1) (ns ++ n ∷ []) ≡ true
    → contains (seqn_at last_seqn 2) (ns ++ n ∷ []) ≡ true
    → let pushed = push b (messages_for last_seqn message) message.seqn sender in
      Member
        (record { to = sender; packet = make_accept_conn_command message.seqn now })
        (acceptances (confirm (confirm_all pushed ns) n).fired now)
broadcast_accepted b message sender last_seqn now n ns t h0 h1 h2 =
    let pushed = push b (messages_for last_seqn message) message.seqn sender in
    let (c, i, placed, number, host, head, first, done) =
      broadcast_group b message sender last_seqn (ns ++ n ∷ []) in
    rw (confirm_fires (confirm_all pushed ns) n, ← confirm_all-append pushed ns n, placed)
      (rw (number, host) at
        (acceptances-last (confirm_all b (ns ++ n ∷ [])) c i now (rw (h0, h1, h2) at done) head
          (ap (λ (m : Packet). m.type) first ∙ t)))

-- The numbers that are sent to the secondaries
abbrev pub plan_numbers : List Datagram → List ℕ
plan_numbers [] = []
plan_numbers (d ∷ ds) = d.packet.seqn ∷ plan_numbers ds

contains-none : (n : ℕ) (ns : List ℕ) → All (λ m. m ≢ n) ns → contains n ns ≡ false
unfolding contains
contains-none n [] h = refl
contains-none n (m ∷ ns) h = ground (arith, contains-none n ns h.1, h.0)

plan_numbers_short :
    (ps : List Peer) (message : Packet) (last_seqn n : ℕ)
    → length ps < 3
    → Member n (plan_numbers (broadcast_plan ps 0 last_seqn message))
    → n ≢ seqn_at last_seqn 2
unfolding broadcast_plan seqn_at
plan_numbers_short [] message last_seqn n few m = elim m [ ]
plan_numbers_short (p ∷ []) message last_seqn n few m = elim m [
  | inl e ↦ omega arith
  | inr f ↦ elim f [ ]
]
plan_numbers_short (p ∷ q ∷ []) message last_seqn n few m = elim m [
  | inl e ↦ omega arith
  | inr f ↦ elim f [ inl e ↦ omega arith | inr g ↦ elim g [ ] ]
]
plan_numbers_short (p ∷ q ∷ r ∷ ps) message last_seqn n few m = absurd (omega arith)

-- With fewer than three secondaries, confirmations of the numbers that they were sent, however many
-- and in whatever order, never complete the group: its client is not accepted.
pub few_secondaries_incomplete :
    (r : ReplicaManager) (b : Buffer) (message : Packet) (sender : SocketAddress) (last_seqn : ℕ)
    (ns : List ℕ)
    → length (get_secondary_replicas r) < 3
    → All
        (λ n.
          Member n (plan_numbers (broadcast_plan (get_secondary_replicas r) 0 last_seqn message)))
        ns
    → (c : ConfirmableContainer) × (confirm_all
          (push b (messages_for last_seqn message) message.seqn sender)
          ns
        ≡ confirm_all b ns ++ c ∷ [])
      × (c.original_host ≡ sender)
      × (container_confirmed c ≡ false)
few_secondaries_incomplete r b message sender last_seqn ns few sent =
    let (c, i, placed, number, host, head, first, done) =
      broadcast_group b message sender last_seqn ns in
    let absent = contains-none (seqn_at last_seqn 2) ns (
      All-imp _ (λ m. m ≢ seqn_at last_seqn 2) ns
        (λ n h. plan_numbers_short (get_secondary_replicas r) message last_seqn n few h) sent) in
    (c, placed, host, ground (arith, done, absent))
