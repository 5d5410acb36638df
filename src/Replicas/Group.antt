-- ===== src/Replicas/Group.antt =====
-- source/server/ReplicaManager.cpp: BroadcastToSecondaries, written out.
use piupiu.Common.{
  ℕ, suc, ◌+◌, ◌%◌, ◌^◌, ◌≡◌, refl, ap, ◌∙◌, inl, inr, true, false, not, List, [], ◌∷◌, ◌++◌, some,
  ok, arith, Bool-cases, if◌then◌else◌,
}
use piupiu.Messaging.{Packet}
use piupiu.Sessions.{SocketAddress}
use piupiu.Confirmation.{Buffer, ConfirmableItem, push}
use piupiu.Replicas.{
  Peer, ReplicaManager, Datagram, Socket, secondaries, get_secondary_replicas, seqn_at,
  messages_for, broadcast_to_secondaries,
}
use piupiu.Replicas.Broadcast.{after_sending, broadcast_plan, broadcast_lem, IsNamed}

-- The peers that are no primary, in their order
unfoldable pub backups : List Peer → List Peer
backups [] = []
backups (p ∷ ps) = if not p.primary then p ∷ backups ps else backups ps

-- The datagrams to some peers: the message under the numbers from `n` on
unfoldable pub numbered_from : ℕ → Packet → List Peer → List Datagram
numbered_from n message [] = []
numbered_from n message (p ∷ ps) =
    record {
      to = record { address = p.address; port = p.port };
      packet = record message { seqn = n % 2 ^ 64 };
    }
    ∷ numbered_from (suc n) message ps

-- A message that waits for the confirmation of a number
abbrev pub waits_for : ℕ → Packet → ConfirmableItem
waits_for n message = record {
  item = record { sequence_number = n % 2 ^ 64; packet = message };
  confirmed = false;
}

secondaries-backups : (ps : List Peer) → secondaries ps ≡ backups ps
unfolding secondaries backups
secondaries-backups [] = refl
secondaries-backups (p ∷ ps) = elim (Bool-cases p.primary) [
  | inl e ↦ rw e (secondaries-backups ps)
  | inr e ↦ rw (e, secondaries-backups ps) refl
]

broadcast_plan-numbered_from :
    (ps : List Peer) (i last_seqn : ℕ) (message : Packet)
    → broadcast_plan ps i last_seqn message ≡ numbered_from (last_seqn + i) message ps
unfolding broadcast_plan numbered_from seqn_at
broadcast_plan-numbered_from [] i last_seqn message = refl
broadcast_plan-numbered_from (p ∷ ps) i last_seqn message =
    let next : last_seqn + suc i ≡ suc (last_seqn + i) = omega arith in
    let d : Datagram = record {
      to = record { address = p.address; port = p.port };
      packet = record message { seqn = (last_seqn + i) % 2 ^ 64 };
    } in
    ap (λ (l : List Datagram). d ∷ l)
      (broadcast_plan-numbered_from ps (suc i) last_seqn message
        ∙ ap (λ (n : ℕ). numbered_from n message ps) next)

-- In a build where a function that flows off its end returns, a broadcast of a primary puts one
-- group at the end of its buffer, which waits for a confirmation of the message under each of the
-- next three numbers and remembers the number of the message and its sender; it advances the number
-- by three, and hands the message to sendto() for each peer that is no primary, in order, under the
-- numbers from the old one on.
pub broadcast_pushes :
    (r : ReplicaManager) (b : Buffer) (message : Packet) (sender : SocketAddress) (last_seqn : ℕ)
    (s : Socket)
    → r.confirmation_buffer ≡ some b
    → IsNamed message.type
    → r.returns ≡ true
    → broadcast_to_secondaries r message sender last_seqn s
      ≡ ok (
        record r {
          confirmation_buffer = some (
              b
              ++ record {
                content =
                    waits_for last_seqn message
                    ∷ waits_for (last_seqn + 1) message
                    ∷ waits_for (last_seqn + 2) message
                    ∷ [];
                original_seqn = message.seqn;
                original_host = sender;
              }
                ∷ []);
        },
        (last_seqn + 3) % 2 ^ 64,
        after_sending s (numbered_from last_seqn message (backups r.peers)),
      )
unfolding get_secondary_replicas messages_for push seqn_at
broadcast_pushes r b message sender last_seqn s stored named on =
    let peers = secondaries-backups r.peers in
    let plan = broadcast_plan-numbered_from (backups r.peers) 0 last_seqn message in
    let zero_added : last_seqn + 0 ≡ last_seqn = omega arith in
    broadcast_lem r b message sender last_seqn s stored named
    ∙ rw (on, peers, plan, zero_added) refl
