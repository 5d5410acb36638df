-- ===== src/Sessions/View.antt =====
-- source/server/SessionManager.cpp against an abstract table: each user's sockets, in the order in
-- which they were opened, with no sessions, cells or map.
use piupiu.Common.{
  ℕ, ◌<◌, ◌≡◌, ◌≢◌, refl, sym, ◌∙◌, ap, inl, inr, Bool, true, false, ◌&&◌, List, [], ◌∷◌, ◌++◌,
  Option, none, some, Bytes, same, same_iff, same_refl, length, get_elem?, ltb, if◌then◌else◌, ok,
  find_key, insert_key, arith, Bool-cases, Option-cases, find_key-insert_key, get_elem?-append_new,
  get_elem?-append_left, get_elem?-set_self, get_elem?-set_ne,
}
use piupiu.Sessions.{
  SocketAddress, Session, SessionManager, max_sessions_per_user, new_session, join_session,
  start_session, end_session, leave_session, has_socket, erase_socket, get_user_addresses,
}
use piupiu.Sessions.Invariant.{
  IsValid, new_session-IsValid, join_session-IsValid, leave_session-IsValid, put_sockets,
}

abbrev pub Table : Type 0
Table = Bytes → List SocketAddress

-- A user who may open one more socket has it at the end; another call changes nothing.
abbrev pub open_socket : Table → Bytes → SocketAddress → Table
open_socket t user a k =
    if same user k && ltb (length (t k)) max_sessions_per_user then t k ++ a ∷ [] else t k

abbrev pub close_socket : Table → Bytes → SocketAddress → Table
close_socket t user a k = if same user k then erase_socket a (t k) else t k

abbrev pub cell_sockets : Option Session → List SocketAddress
cell_sockets none = []
cell_sockets (some x) = x.sockets

abbrev pub entry_sockets : List Session → Option ℕ → List SocketAddress
entry_sockets heap none = []
entry_sockets heap (some s) = cell_sockets (get_elem? heap s)

-- The table that a session manager stands for.
unfoldable pub sockets_of : SessionManager → Table
sockets_of m k = entry_sockets m.heap (find_key k m.sessions)

abbrev pub is_some {ℓ} : {A : Type ℓ} → Option A → Bool
is_some none = false
is_some (some a) = true

-- `GetUserAddresses` returns the user's line of the table.
pub get_user_addresses_view :
    (m : SessionManager) (k : Bytes) → IsValid m → get_user_addresses m k ≡ ok (sockets_of m k)
unfolding get_user_addresses sockets_of
get_user_addresses_view m k v = elim (Option-cases (find_key k m.sessions)) [
  | inl e ↦ rw (e, get_user_addresses)
  | inr (s, e) ↦ let l = v.linked k s e in rw (e, get_user_addresses, l.stored)
]

pub sockets_of-absent :
    (m : SessionManager) (k : Bytes) → find_key k m.sessions ≡ none → sockets_of m k ≡ []
unfolding sockets_of
sockets_of-absent m k e = rw e

pub sockets_of-linked :
    (m : SessionManager) (k : Bytes) (s : ℕ) (x : Session)
    → find_key k m.sessions ≡ some s
    → get_elem? m.heap s ≡ some x
    → sockets_of m k ≡ x.sockets
unfolding sockets_of
sockets_of-linked m k s x e f = rw (e, f)

-- No user of a valid session manager has more than two sockets.
pub sockets_of-bounded : (m : SessionManager) (k : Bytes) → IsValid m → length (sockets_of m k) < 3
unfolding sockets_of
sockets_of-bounded m k v = elim (Option-cases (find_key k m.sessions)) [
  | inl e ↦ rw e (omega arith)
  | inr (s, e) ↦
      let l = v.linked k s e in rw (e, l.stored) (omega (arith, v.bounded s l.session l.stored))
]

-- Two users have two cells.
linked-ne :
    (m : SessionManager) (user k : Bytes) (s t : ℕ)
    → IsValid m
    → find_key user m.sessions ≡ some s
    → find_key k m.sessions ≡ some t
    → same user k ≡ false
    → s ≢ t
linked-ne m user k s t v e g q z =
    let lu = v.linked user s e in
    let l = v.linked k t g in
    let one : some lu.session ≡ some l.session =
      sym lu.stored ∙ ap (get_elem? m.heap) z ∙ l.stored in
    ground (arith, one, l.owner, lu.owner, same_iff user k)

-- The sockets of one user's session are written: only that user's line of the table changes.
sockets_of-put_sockets :
    (m : SessionManager) (user : Bytes) (s : ℕ) (x : Session) (sockets : List SocketAddress)
    (k : Bytes)
    → IsValid m
    → find_key user m.sessions ≡ some s
    → get_elem? m.heap s ≡ some x
    → sockets_of (put_sockets m s x sockets) k ≡ (if same user k then sockets else sockets_of m k)
unfolding sockets_of
sockets_of-put_sockets m user s x sockets k v e f = elim (Bool-cases (same user k)) [
  | inl q ↦ rw (
    q,
    ← (same_iff user k).0 q,
    e,
    get_elem?-set_self m.heap s (record x { sockets = sockets }) x f,
  )
  | inr q ↦ elim (Option-cases (find_key k m.sessions)) [
    | inl g ↦ rw (q, g)
    | inr (t, g) ↦ rw (
      q,
      g,
      get_elem?-set_ne m.heap s t (record x { sockets = sockets }) (linked-ne m user k s t v e g q),
    )
  ]
]

-- What `StartSession` makes of the table and of its own result.
pub record Opens (m : SessionManager) (user : Bytes) (a : SocketAddress)
    (r : SessionManager × Option ℕ) : Type 0 where
  pub table : (k : Bytes) → sockets_of r.0 k ≡ open_socket (sockets_of m) user a k
  pub result : is_some r.1 ≡ ltb (length (sockets_of m user)) max_sessions_per_user
  pub pointer : (s : ℕ) → r.1 ≡ some s → find_key user r.0.sessions ≡ some s
  pub kept : (k : Bytes) (s : ℕ) → find_key k m.sessions ≡ some s → find_key k r.0.sessions ≡ some s
  pub others : (k : Bytes) → same user k ≡ false → find_key k r.0.sessions ≡ find_key k m.sessions
  pub refused : r.1 ≡ none → r.0 ≡ m

module _ (m : SessionManager) (user : Bytes) (a : SocketAddress) where
  sockets_of-new_session :
      (k : Bytes)
      → IsValid m
      → find_key user m.sessions ≡ none
      → sockets_of (new_session m user a).0 k ≡ open_socket (sockets_of m) user a k
  unfolding new_session sockets_of
  sockets_of-new_session k v e = elim (Bool-cases (same user k)) [
    | inl q ↦ ground (
      arith,
      find_key-insert_key user k (length m.heap) m.sessions e,
      same_iff user k,
      get_elem?-append_new m.heap (record { session_id = 1; user_handle = user; sockets = a ∷ [] }),
    )
    | inr q ↦ elim (Option-cases (find_key k m.sessions)) [
      | inl g ↦ rw (q, g, find_key-insert_key user k (length m.heap) m.sessions e, q, g)
      | inr (t, g) ↦
          let l = v.linked k t g in
          rw (
            q,
            g,
            find_key-insert_key user k (length m.heap) m.sessions e,
            q,
            g,
            l.stored,
            get_elem?-append_left m.heap _ t l.session l.stored,
          )
    ]
  ]

  new_session-Opens :
      IsValid m → find_key user m.sessions ≡ none → Opens m user a (new_session m user a)
  unfolding new_session
  new_session-Opens v e = record {
    table = λ k. sockets_of-new_session k v e;
    result = rw (sockets_of-absent m user e);
    pointer = λ s h. ground (arith, inserted user, same_refl user);
    kept = λ k s h. ground (arith, inserted k, same_iff user k);
    others = λ k h. ground (arith, inserted k);
    refused = λ h. cc;
  }
    where
      inserted :
          (k : Bytes)
          → find_key k (insert_key user (length m.heap) m.sessions)
            ≡ (if same user k then some (length m.heap) else find_key k m.sessions)
      inserted k = find_key-insert_key user k (length m.heap) m.sessions e

  join_session-Opens :
      (s : ℕ) (x : Session)
      → IsValid m
      → find_key user m.sessions ≡ some s
      → get_elem? m.heap s ≡ some x
      → Opens m user a (join_session m s x a)
  unfolding join_session
  join_session-Opens s x v e f = record {
    table = λ k. ground (
      arith,
      same_iff user k,
      sockets_of-linked m user s x e f,
      sockets_of-put_sockets m user s x (x.sockets ++ a ∷ []) k v e f,
    );
    result = ground (arith, sockets_of-linked m user s x e f);
    pointer = λ t h. ground arith;
    kept = λ k t h. ground arith;
    others = λ k h. ground arith;
    refused = λ h. ground arith;
  }

-- `StartSession` always returns, keeps the invariant and opens the socket in the table. It returns
-- the user's session exactly when the user had fewer than two sockets.
pub start_session_refines :
    (m : SessionManager) (user : Bytes) (a : SocketAddress)
    → IsValid m
    → (r : SessionManager × Option ℕ) × (start_session m user a ≡ ok r)
      × IsValid r.0
      × Opens m user a r
unfolding start_session
start_session_refines m user a v = elim (Option-cases (find_key user m.sessions)) [
  | inl e ↦ (
    new_session m user a,
    rw (e, start_session),
    new_session-IsValid m user a v e,
    new_session-Opens m user a v e,
  )
  | inr (s, e) ↦
      let l = v.linked user s e in
      (
        join_session m s l.session a,
        rw (e, start_session, l.stored),
        join_session-IsValid m s l.session v l.stored a,
        join_session-Opens m user a s l.session v e l.stored,
      )
]

erase_socket-absent :
    (a : SocketAddress) (l : List SocketAddress) → has_socket a l ≡ false → erase_socket a l ≡ l
unfolding has_socket erase_socket
erase_socket-absent a [] h = refl
erase_socket-absent a (b ∷ l) h = ground (arith, erase_socket-absent a l)

-- A user with no session has no socket to close.
pub close_socket-absent :
    (m : SessionManager) (user : Bytes) (a : SocketAddress) (k : Bytes)
    → find_key user m.sessions ≡ none
    → close_socket (sockets_of m) user a k ≡ sockets_of m k
unfolding erase_socket
close_socket-absent m user a k e = ground (arith, same_iff user k, sockets_of-absent m user e)

-- What `EndSession` makes of the table and of its own result.
pub record Closes (m : SessionManager) (user : Bytes) (a : SocketAddress) (r : SessionManager × ℕ)
    : Type 0 where
  pub table : (k : Bytes) → sockets_of r.0 k ≡ close_socket (sockets_of m) user a k
  pub result : r.1 ≡ (if has_socket a (sockets_of m user) then 1 else 0)
  pub kept : r.0.sessions ≡ m.sessions

module _ (m : SessionManager) (user : Bytes) (a : SocketAddress) where
  no_session-Closes : find_key user m.sessions ≡ none → Closes m user a (m, 0)
  unfolding has_socket erase_socket
  no_session-Closes e = record {
    table = λ k. ground (arith, same_iff user k, sockets_of-absent m user e);
    result = rw (sockets_of-absent m user e);
    kept = refl;
  }

  leave_session-Closes :
      (s : ℕ) (x : Session)
      → IsValid m
      → find_key user m.sessions ≡ some s
      → get_elem? m.heap s ≡ some x
      → Closes m user a (leave_session m s x a)
  unfolding leave_session
  leave_session-Closes s x v e f = record {
    table = λ k. ground (
      arith,
      same_iff user k,
      sockets_of-linked m user s x e f,
      erase_socket-absent a x.sockets,
      sockets_of-put_sockets m user s x (erase_socket a x.sockets) k v e f,
    );
    result = ground (arith, sockets_of-linked m user s x e f);
    kept = ground arith;
  }

-- `EndSession` always returns, keeps the invariant and closes the first such socket of the user in
-- the table. It returns 1 exactly when there was one.
pub end_session_refines :
    (m : SessionManager) (user : Bytes) (a : SocketAddress)
    → IsValid m
    → (r : SessionManager × ℕ) × (end_session m user a ≡ ok r) × IsValid r.0 × Closes m user a r
unfolding end_session
end_session_refines m user a v = elim (Option-cases (find_key user m.sessions)) [
  | inl e ↦ ((m, 0), rw (e, end_session), v, no_session-Closes m user a e)
  | inr (s, e) ↦
      let l = v.linked user s e in
      (
        leave_session m s l.session a,
        rw (e, end_session, l.stored),
        leave_session-IsValid m s l.session v l.stored a,
        leave_session-Closes m user a s l.session v e l.stored,
      )
]
