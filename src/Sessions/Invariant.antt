-- ===== src/Sessions/Invariant.antt =====
-- The invariant of source/server/SessionManager.cpp and what keeps it.
use piupiu.Common.{
  ℕ, ◌≤◌, ◌≡◌, ◌∙◌, inl, inr, none, some, Bytes, same, same_iff, length, get_elem?, set, find_key,
  arith, Bool-cases, find_key-insert_key, get_elem?-append_new, get_elem?-append_left,
  get_elem?-append_cases, get_elem?-set_self, get_elem?-set_ne, get_elem?-set_cases, ==_iff, ◌==◌,
  length-append, IsOrdered, insert_key-IsOrdered, leb, List, ◌++◌, [], ◌∷◌,
}
use piupiu.Sessions.{
  SocketAddress, Session, SessionManager, max_sessions_per_user, no_sessions, new_session,
  join_session, leave_session, has_socket, erase_socket,
}

-- The session of the entry `(k, s)` of the map: cell `s` holds a session of user `k`.
pub record Linked (m : SessionManager) (k : Bytes) (s : ℕ) : Type 0 where
  pub session : Session
  pub stored : get_elem? m.heap s ≡ some session
  pub owner : session.user_handle ≡ k

pub record IsValid (m : SessionManager) : Type 0 where
  pub linked : (k : Bytes) (s : ℕ) → find_key k m.sessions ≡ some s → Linked m k s
  pub listed :
      (s : ℕ) (x : Session)
      → get_elem? m.heap s ≡ some x
      → find_key x.user_handle m.sessions ≡ some s
  pub bounded :
      (s : ℕ) (x : Session) → get_elem? m.heap s ≡ some x → length x.sockets ≤ max_sessions_per_user
  pub ordered : IsOrdered m.sessions

pub no_sessions-IsValid : IsValid no_sessions
unfolding find_key
no_sessions-IsValid = record {
  linked = λ k s h. cc;
  listed = λ s x h. cc;
  bounded = λ s x h. cc;
  ordered = tt;
}

module _ (m : SessionManager) (user : Bytes) (a : SocketAddress) (v : IsValid m)
    (fresh : find_key user m.sessions ≡ none) where
  new_session-Linked :
      (k : Bytes) (s : ℕ)
      → find_key k (new_session m user a).0.sessions ≡ some s
      → Linked (new_session m user a).0 k s
  unfolding new_session
  new_session-Linked k s h = elim (Bool-cases (same user k)) [
    | inl e ↦ record {
      session = record { session_id = 1; user_handle = user; sockets = a ∷ [] };
      stored =
          let here : length m.heap ≡ s =
            ground (arith, find_key-insert_key user k (length m.heap) m.sessions fresh) in
          rw (← here) (get_elem?-append_new m.heap _);
      owner = (same_iff user k).0 e;
    }
    | inr e ↦
        let old =
          v.linked k s
            (ground (arith, find_key-insert_key user k (length m.heap) m.sessions fresh)) in
        record {
          session = old.session;
          stored = get_elem?-append_left m.heap _ s old.session old.stored;
          owner = old.owner;
        }
  ]

  new_session-listed :
      (s : ℕ) (x : Session)
      → get_elem? (new_session m user a).0.heap s ≡ some x
      → find_key x.user_handle (new_session m user a).0.sessions ≡ some s
  unfolding new_session
  new_session-listed s x h = elim (get_elem?-append_cases m.heap _ x s h) [
    | inl old ↦ ground (
      arith,
      v.listed s x old,
      same_iff user x.user_handle,
      find_key-insert_key user x.user_handle (length m.heap) m.sessions fresh,
    )
    | inr (here, e) ↦ ground (
      arith,
      same_iff user x.user_handle,
      find_key-insert_key user x.user_handle (length m.heap) m.sessions fresh,
    )
  ]

  pub new_session-IsValid : IsValid (new_session m user a).0
  unfolding new_session
  new_session-IsValid = record {
    linked = new_session-Linked;
    listed = new_session-listed;
    bounded = λ s x h. elim (get_elem?-append_cases m.heap _ x s h) [
      | inl old ↦ v.bounded s x old
      | inr (_, e) ↦ rw e (omega arith)
    ];
    ordered = insert_key-IsOrdered user (length m.heap) m.sessions v.ordered;
  }

-- The sockets of one session are written.
abbrev pub put_sockets : SessionManager → ℕ → Session → List SocketAddress → SessionManager
put_sockets m s x sockets = record m { heap = set m.heap s (record x { sockets = sockets }) }

pub length-erase_socket-le :
    (a : SocketAddress) (l : List SocketAddress) → length (erase_socket a l) ≤ length l
unfolding erase_socket
length-erase_socket-le a [] = omega arith
length-erase_socket-le a (b ∷ l) = ground (arith, length-erase_socket-le a l)

module _ (m : SessionManager) (s : ℕ) (x : Session) (v : IsValid m)
    (stored : get_elem? m.heap s ≡ some x) where
  put_sockets-Linked :
      (sockets : List SocketAddress) (k : Bytes) (t : ℕ)
      → find_key k m.sessions ≡ some t
      → Linked (put_sockets m s x sockets) k t
  put_sockets-Linked sockets k t h =
      let old = v.linked k t h in
      elim (Bool-cases (s == t)) [
        | inl e ↦
            let same_cell = (==_iff s t).0 e in
            let same_session : old.session ≡ x = ground (arith, old.stored, stored) in
            record {
              session = record x { sockets = sockets };
              stored = rw (← same_cell) (get_elem?-set_self m.heap s _ x stored);
              owner = rw (← same_session) old.owner;
            }
        | inr e ↦ record {
          session = old.session;
          stored =
              get_elem?-set_ne m.heap s t _ (λ (q : s ≡ t). cc (e, (==_iff s t).1 q)) ∙ old.stored;
          owner = old.owner;
        }
      ]

  pub put_sockets-IsValid :
      (sockets : List SocketAddress)
      → length sockets ≤ max_sessions_per_user
      → IsValid (put_sockets m s x sockets)
  put_sockets-IsValid sockets few = record {
    linked = put_sockets-Linked sockets;
    listed = λ t y h. elim (get_elem?-set_cases m.heap s t _ y h) [
      | inl (e, f) ↦ rw (e, f) (v.listed s x stored)
      | inr (e, f) ↦ v.listed t y f
    ];
    bounded = λ t y h. elim (get_elem?-set_cases m.heap s t _ y h) [
      | inl (e, f) ↦ rw f few
      | inr (e, f) ↦ v.bounded t y f
    ];
    ordered = v.ordered;
  }

  pub join_session-IsValid : (a : SocketAddress) → IsValid (join_session m s x a).0
  unfolding join_session
  join_session-IsValid a = elim (Bool-cases (leb max_sessions_per_user (length x.sockets))) [
    | inl e ↦ rw e v
    | inr e ↦ rw e (
        put_sockets-IsValid (x.sockets ++ a ∷ [])
          (ground (arith, length-append x.sockets (a ∷ []))))
  ]

  pub leave_session-IsValid : (a : SocketAddress) → IsValid (leave_session m s x a).0
  unfolding leave_session
  leave_session-IsValid a = elim (Bool-cases (has_socket a x.sockets)) [
    | inl e ↦ rw e (
        put_sockets-IsValid (erase_socket a x.sockets)
          (omega (arith, length-erase_socket-le a x.sockets, v.bounded s x stored)))
    | inr e ↦ rw e v
  ]
