-- ===== src/Server/Sends/Step.antt =====
-- source/server/server.cpp: one step of a thread that handles a SEND.
use mathlib.Core.List.{append-nil}
use piupiu.Common.{
  ℕ, ◌<◌, ◌≤◌, ◌≡◌, refl, sym, inl, inr, List, [], ◌∷◌, ◌++◌, Option, none, some, Bytes, length,
  get_elem?, ok, All, IsText, arith, Option-cases, from_c_array, c_str, IsText-c_str,
}
use piupiu.Messaging.{Packet}
use piupiu.Sessions.{SocketAddress, get_user_name_by_address_and_ip}
use piupiu.Sessions.Lookup.{get_user_name-Answers}
use piupiu.Profiles.{Profile, get_profile_by_name}
use piupiu.Profiles.Invariant.{get_profile_by_name_hit}
use piupiu.Server.{Server, PendingNotification}
use piupiu.Server.Invariant.{IsServer, IsDeliverable, max_handle, max_body}
use piupiu.Server.Posting.{note}
use piupiu.Server.Sends.{
  SendPhase, asking, finding, copying, pushing, sent, advance_send, remaining,
}

-- A phase whose profile is one of the user, and whose followers are profiles
abbrev pub IsPhase : List Profile → SendPhase → Type 0
IsPhase ps asking = Unit
IsPhase ps (finding username) = Unit
IsPhase ps (copying username i) = (p : Profile) × (get_elem? ps i ≡ some p) × (p.handle ≡ username)
IsPhase ps (pushing username fs) =
    IsText username × (length username ≤ max_handle) × All (λ f. f < length ps) fs
IsPhase ps sent = Unit

-- Where a step leads: it pushes some of what remained.
pub record Steps (s : Server) (message : Packet) (incoming : SocketAddress) (phase : SendPhase)
    (queue pushed : List PendingNotification) (phase' : SendPhase) : Type 0 where
  pub ran :
      advance_send s message incoming phase ≡ ok (record s { notification_queue = queue }, phase')
  pub queued : queue ≡ s.notification_queue ++ pushed
  pub rest :
      remaining s.profiles s.sessions message incoming phase
      ≡ pushed ++ remaining s.profiles s.sessions message incoming phase'
  pub deliverable : All (IsDeliverable (length s.profiles.profiles)) pushed
  pub phase_fits : IsPhase s.profiles.profiles phase'

module _ (s : Server) (message : Packet) (incoming : SocketAddress) (v : IsServer s)
    (text : from_c_array message.payload ≡ ok (c_str message.payload))
    (short : length (c_str message.payload) ≤ max_body) where
  -- A step that pushes nothing
  quiet :
      (phase phase' : SendPhase)
      → advance_send s message incoming phase ≡ ok (s, phase')
      → remaining s.profiles s.sessions message incoming phase
        ≡ remaining s.profiles s.sessions message incoming phase'
      → IsPhase s.profiles.profiles phase'
      → Steps s message incoming phase s.notification_queue [] phase'
  quiet phase phase' ran rest fits = record {
    ran = ran;
    queued = sym (append-nil s.notification_queue);
    rest = rest;
    deliverable = tt;
    phase_fits = fits;
  }

  asking-Steps :
      (phase' : SendPhase) × Steps s message incoming asking s.notification_queue [] phase'
  unfolding advance_send remaining
  asking-Steps =
      let (r, asked, _) = get_user_name-Answers s.sessions incoming v.valid in on_answer r asked
    where
      on_answer :
          (r : Option Bytes)
          → get_user_name_by_address_and_ip s.sessions incoming ≡ ok r
          → (phase' : SendPhase) × Steps s message incoming asking s.notification_queue [] phase'
      on_answer none e = (sent, quiet asking sent (rw e refl) (rw e refl) tt)
      on_answer (some u) e = (finding u, quiet asking (finding u) (rw e refl) (rw e refl) tt)

  finding-Steps :
      (username : Bytes)
      → (phase' : SendPhase) × Steps s message incoming
          (finding username)
          s.notification_queue
          []
          phase'
  unfolding advance_send remaining
  finding-Steps username = elim (Option-cases (get_profile_by_name s.profiles username)) [
    | inl e ↦ (sent, quiet (finding username) sent (ground (arith, e)) (ground (arith, e)) tt)
    | inr (i, e) ↦ (
      copying username i,
      quiet (finding username) (copying username i) (ground (arith, e)) (ground (arith, e))
          (get_profile_by_name_hit s.profiles username i e),
    )
  ]

  copying-Steps :
      (username : Bytes) (i : ℕ)
      → IsPhase s.profiles.profiles (copying username i)
      → (phase' : SendPhase) × Steps s message incoming
          (copying username i)
          s.notification_queue
          []
          phase'
  unfolding advance_send remaining
  copying-Steps username i (p, stored, named) =
      let (is_text, long) = v.handles i p stored in
      (
        pushing username p.followers,
        quiet (copying username i) (pushing username p.followers) (ground (arith, stored))
            (ground (arith, stored))
            (rw named at is_text, rw named at long, v.store.pointers i p stored),
      )

  pub advance_send-Steps :
      (phase : SendPhase)
      → IsPhase s.profiles.profiles phase
      → (queue pushed : List PendingNotification) × (phase' : SendPhase) × Steps s message incoming
          phase queue pushed phase'
  unfolding advance_send remaining
  advance_send-Steps asking fits =
      let (phase', steps) = asking-Steps in (s.notification_queue, [], phase', steps)
  advance_send-Steps (finding username) fits =
      let (phase', steps) = finding-Steps username in (s.notification_queue, [], phase', steps)
  advance_send-Steps (copying username i) fits =
      let (phase', steps) = copying-Steps username i fits in
      (s.notification_queue, [], phase', steps)
  advance_send-Steps (pushing username []) fits =
      (s.notification_queue, [], sent, quiet (pushing username []) sent refl refl tt)
  advance_send-Steps (pushing username (f ∷ fs)) (is_text, long, below) =
      let one = note username (c_str message.payload) f ∷ [] in
      (
        s.notification_queue ++ one,
        one,
        pushing username fs,
        record {
          ran = rw text refl;
          queued = refl;
          rest = refl;
          deliverable = ((below.0, is_text, IsText-c_str message.payload, long, short), tt);
          phase_fits = (is_text, long, below.1);
        },
      )
  advance_send-Steps sent fits = (s.notification_queue, [], sent, quiet sent sent refl refl tt)
