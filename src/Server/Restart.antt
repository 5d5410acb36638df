-- ===== src/Server/Restart.antt =====
-- A server of source/server/server.cpp that found profiles on its disk: their sessions are
-- indeterminate (source/server/Profile.cpp, the constructor with one argument).
use piupiu.Common.{
  ℕ, zero, suc, ◌+◌, ◌≡◌, ◌≢◌, refl, sym, ◌∙◌, inl, inr, false, List, [], ◌∷◌, none, some, Bytes,
  length, get_elem?, set, ok, err, indeterminate, find_key, arith, Bool-cases, ==_iff, ◌==◌,
  from_c_array, get_elem?-set_ne,
}
use piupiu.Messaging.{Packet}
use piupiu.Sessions.{SocketAddress, Session, no_sessions, start_session, new_session}
use piupiu.Profiles.{
  unset, at, Profile, connected_from, get_connected_users, set_session, get_profile_by_name,
  session_sockets,
}
use piupiu.Server.{Server, PendingNotification, handle_connect, profile_for, store_session}
use piupiu.Server.Pending.{work, pending_notification_worker}

-- Every profile but the one that is excluded has an indeterminate session.
abbrev pub IsUnset : ℕ → ℕ → List Profile → Type 0
IsUnset i k ps = (j : ℕ) (p : Profile) → get_elem? ps j ≡ some p → k + j ≢ i → p.session ≡ unset

ne-test : (k i : ℕ) → k ≢ i → (k == i) ≡ false
ne-test k i ne = ground (arith, ==_iff k i, ne)

connected_from-unset :
    (heap : List Session) (i k : ℕ) (ps : List Profile) (j : ℕ) (q : Profile)
    → IsUnset i k ps
    → get_elem? ps j ≡ some q
    → k + j ≢ i
    → connected_from heap (some i) k ps ≡ err indeterminate
unfolding connected_from session_sockets
connected_from-unset heap i k [] j q u e ne = cc
connected_from-unset heap i k (p ∷ ps) zero q u e ne =
    rw (ne-test k i (λ z. ne (omega (arith, z))), u 0 p refl ne)
connected_from-unset heap i k (p ∷ ps) (suc j) q u e ne =
    let later =
      connected_from-unset heap i (suc k) ps j q
        (λ m r f off. u (suc m) r f (λ z. off (omega (arith, z)))) e (λ z. ne (omega (arith, z))) in
    elim (Bool-cases (k == i)) [
      | inl t ↦ rw t later
      | inr t ↦ rw (t, u 0 p refl (λ z. absurd (ground (arith, t, z, ==_iff k i))))
    ]

-- After a start from a file that holds the connecting user's profile and another one, a CONNECT reads
-- the other profile's session, which was never set.
pub handle_connect_restarted :
    (s : Server) (message : Packet) (incoming : SocketAddress) (now : ℕ) (user : Bytes) (i j : ℕ)
    (p q : Profile)
    → s.sessions ≡ no_sessions
    → ((k : ℕ) (r : Profile) → get_elem? s.profiles.profiles k ≡ some r → r.session ≡ unset)
    → from_c_array message.payload ≡ ok user
    → get_profile_by_name s.profiles user ≡ some i
    → get_elem? s.profiles.profiles i ≡ some p
    → get_elem? s.profiles.profiles j ≡ some q
    → i ≢ j
    → handle_connect s message incoming now ≡ err indeterminate
unfolding handle_connect profile_for store_session start_session set_session get_connected_users
    find_key new_session
handle_connect_restarted s message incoming now user i j p q none_open all_unset named found here
      there other =
    rw (named, profile_for, found, here, start_session, absent, stored)
  where
    absent : find_key p.handle s.sessions.sessions ≡ none
    absent = rw none_open refl

    listed :
        connected_from
          (new_session s.sessions p.handle incoming).0.heap
          (some i)
          0
          (set s.profiles.profiles i (record p { session = at (length s.sessions.heap) }))
        ≡ err indeterminate
    listed =
        connected_from-unset _ i 0 _ j q
          (λ k r e off.
            all_unset k r
              (sym (get_elem?-set_ne s.profiles.profiles i k _ (λ z. off (omega (arith, z)))) ∙ e))
          (rw
            (get_elem?-set_ne s.profiles.profiles i j
              (record p { session = at (length s.sessions.heap) }) other)
            there)
          (λ z. other (omega (arith, z)))

    stored :
        store_session s.profiles
          (new_session s.sessions p.handle incoming).0
          i
          (new_session s.sessions p.handle incoming).1
        ≡ err indeterminate
    stored = rw (here, listed)

-- A notification for a profile that was read from the file, and has not connected since, makes the
-- worker read a session that was never set.
pub work_restarted :
    (s : Server) (n : PendingNotification) (rest : List PendingNotification) (now : ℕ) (p : Profile)
    → s.notification_queue ≡ n ∷ rest
    → get_elem? s.profiles.profiles n.recipient ≡ some p
    → p.session ≡ unset
    → pending_notification_worker s now ≡ err indeterminate
unfolding pending_notification_worker work session_sockets
work_restarted s n rest now p e f g = rw (e, f, g)
