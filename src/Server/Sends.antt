-- ===== src/Server/Sends.antt =====
-- source/server/server.cpp: several SENDs at once, each in a thread of its own as `Listen` starts
-- them, and the worker. A step of a thread is GetUserNameByAddressAndIP, GetProfileByName, the copy
-- of the followers, or one push under the lock of the queue; the worker holds that lock for a whole
-- round.
mod Step
pub mod Turns
pub mod Conserved
use piupiu.Common.{
  ℕ, ◌≡◌, List, [], ◌∷◌, ◌++◌, map, Option, none, some, Bytes, get_elem?, set, Result, ok, err,
  ◌>>=◌, or_fail, dangling, from_c_array, c_str,
}
use piupiu.Messaging.{Packet}
use piupiu.Sessions.{SocketAddress, SessionManager, get_user_name_by_address_and_ip}
use piupiu.Profiles.{ProfileManager, get_profile_by_name}
use piupiu.Server.{Server, PendingNotification}
use piupiu.Server.Pending.{pending_notification_worker}
use piupiu.Server.Posting.{note}

-- Where a SEND stands: before the search for its user, before that for his profile, before the copy
-- of the followers of this profile, before the pushes for these followers, or behind it
pub data SendPhase : Type 0 where
  asking : SendPhase
  finding : Bytes → SendPhase
  copying : Bytes → ℕ → SendPhase
  pushing : Bytes → List ℕ → SendPhase
  sent : SendPhase

pub record Sending : Type 0 where
  pub message : Packet
  pub incoming : SocketAddress
  pub phase : SendPhase

-- One step of the thread that handles the SEND `message`
unfoldable pub advance_send :
    Server → Packet → SocketAddress → SendPhase → Result (Server × SendPhase)
advance_send s message incoming asking = do
  user ← get_user_name_by_address_and_ip s.sessions incoming
  elim user [ none ↦ ok (s, sent) | some username ↦ ok (s, finding username) ]
advance_send s message incoming (finding username) =
    elim (get_profile_by_name s.profiles username) [
      | none ↦ ok (s, sent)
      | some i ↦ ok (s, copying username i)
    ]
advance_send s message incoming (copying username i) = do
  p ← or_fail (get_elem? s.profiles.profiles i) dangling
  ok (s, pushing username p.followers)
advance_send s message incoming (pushing username []) = ok (s, sent)
advance_send s message incoming (pushing username (f ∷ fs)) = do
  body ← from_c_array message.payload
  ok (
    record s { notification_queue = s.notification_queue ++ note username body f ∷ [] },
    pushing username fs,
  )
advance_send s message incoming sent = ok (s, sent)

-- A turn is a step of the thread with this number, or a round of the worker.
pub data Turn : Type 0 where
  thread : ℕ → Turn
  worker : Turn

-- One turn; a number of no thread does nothing.
unfoldable pub take_turn : Server → ℕ → List Sending → Turn → Result (Server × List Sending)
take_turn s now ts (thread k) = elim (get_elem? ts k) [
  | none ↦ ok (s, ts)
  | some t ↦ do
    (s', phase) ← advance_send s t.message t.incoming t.phase
    ok (s', set ts k (record t { phase = phase }))
]
take_turn s now ts worker = do s' ← pending_notification_worker s now; ok (s', ts)

unfoldable pub take_turns : Server → ℕ → List Sending → List Turn → Result (Server × List Sending)
take_turns s now ts [] = ok (s, ts)
take_turns s now ts (turn ∷ turns) = do
  (s', ts') ← take_turn s now ts turn
  take_turns s' now ts' turns

-- What a thread has still to push
abbrev pub to_copy : ProfileManager → Bytes → Bytes → ℕ → List PendingNotification
to_copy m body username i = elim (get_elem? m.profiles i) [
  | none ↦ []
  | some p ↦ map (note username body) p.followers
]

abbrev pub to_find : ProfileManager → Bytes → Bytes → List PendingNotification
to_find m body username = elim (get_profile_by_name m username) [
  | none ↦ []
  | some i ↦ to_copy m body username i
]

abbrev pub to_ask : ProfileManager → Bytes → Result (Option Bytes) → List PendingNotification
to_ask m body (ok (some username)) = to_find m body username
to_ask m body (ok none) = []
to_ask m body (err f) = []

unfoldable pub remaining :
    ProfileManager → SessionManager → Packet → SocketAddress → SendPhase → List PendingNotification
remaining m sm message incoming asking =
    to_ask m (c_str message.payload) (get_user_name_by_address_and_ip sm incoming)
remaining m sm message incoming (finding username) = to_find m (c_str message.payload) username
remaining m sm message incoming (copying username i) = to_copy m (c_str message.payload) username i
remaining m sm message incoming (pushing username fs) =
    map (note username (c_str message.payload)) fs
remaining m sm message incoming sent = []

unfoldable pub all_remaining :
    ProfileManager → SessionManager → List Sending → List PendingNotification
all_remaining m sm [] = []
all_remaining m sm (t ∷ ts) = remaining m sm t.message t.incoming t.phase ++ all_remaining m sm ts
