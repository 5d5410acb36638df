-- ===== src/Server/Invariant.antt =====
-- The invariant of a server of source/server/server.cpp that started with no profiles on its disk.
use piupiu.Common.{
  ℕ, ◌<◌, ◌≤◌, ◌≡◌, true, false, List, some, Bytes, length, get_elem?, All, IsText, find_key,
}
use piupiu.Sessions.Invariant.{IsValid}
use piupiu.Profiles.{at, Profile}
use piupiu.Profiles.Invariant.{IsStore}
use piupiu.Replicas.{Peer, ReplicaManager, first_primary}
use piupiu.Replicas.Broadcast.{IsHeaded}
use piupiu.Confirmation.{Buffer}
use piupiu.Server.{PendingNotification, Server}

-- A handle that leaves room for a message of 128 bytes, the client's limit, in a notification.
abbrev pub max_handle : ℕ
max_handle = 380

abbrev pub max_body : ℕ
max_body = 128

-- The profile's session is the session of its user.
abbrev pub InSession : List (Bytes × ℕ) → Profile → Type 0
InSession sessions p = (x : ℕ) × (p.session ≡ at x) × (find_key p.handle sessions ≡ some x)

-- A user who has a session has a profile that leads to it.
abbrev pub HasProfile : List Profile → Bytes → ℕ → Type 0
HasProfile ps k x =
    (i : ℕ) × (p : Profile) × (get_elem? ps i ≡ some p) × (p.handle ≡ k) × (p.session ≡ at x)

-- A notification that can be delivered.
abbrev pub IsDeliverable : ℕ → PendingNotification → Type 0
IsDeliverable count n =
    (n.recipient < count)
    × IsText n.sender_username
    × IsText n.body
    × (length n.sender_username ≤ max_handle)
    × (length n.body ≤ max_body)

-- A primary has a buffer of groups, and a secondary knows a primary.
pub record IsReplica (r : ReplicaManager) : Type 0 where
  pub buffered :
      r.this_peer.primary ≡ true → (b : Buffer) × (r.confirmation_buffer ≡ some b) × All IsHeaded b
  pub attached : r.this_peer.primary ≡ false → (p : Peer) × (first_primary r.peers ≡ some p)

pub record IsServer (s : Server) : Type 0 where
  pub store : IsStore s.profiles.profiles
  pub valid : IsValid s.sessions
  pub connected :
      (i : ℕ) (p : Profile)
      → get_elem? s.profiles.profiles i ≡ some p
      → InSession s.sessions.sessions p
  pub owned :
      (k : Bytes) (x : ℕ)
      → find_key k s.sessions.sessions ≡ some x
      → HasProfile s.profiles.profiles k x
  pub handles :
      (i : ℕ) (p : Profile)
      → get_elem? s.profiles.profiles i ≡ some p
      → IsText p.handle × (length p.handle ≤ max_handle)
  pub queue : All (IsDeliverable (length s.profiles.profiles)) s.notification_queue
  pub replica : IsReplica s.replicas
