-- ===== src/Sessions.antt =====
-- source/server/SessionManager.hpp, SessionManager.cpp, Session.hpp and the address of Socket.hpp.
-- A `Session*` is the number of a cell of `heap`, which holds what `new Session()` allocated; the
-- destructor alone frees it. The map `sessions` gives each user's cell. The fields of a session that
-- nothing sets or reads (address, sockAddress, lastAliveCheck, profile) are left out.
pub mod Invariant
pub mod View
pub mod Lookup
use piupiu.Common.{
  ℕ, ◌≡◌, Bool, true, false, ◌&&◌, List, [], ◌∷◌, ◌++◌, Option, none, some, Bytes, same, same_int,
  ℤ, length, get_elem?, set, leb, if◌then◌else◌, Result, ok, err, ◌>>=◌, or_fail, dangling,
  find_key, insert_key, same_iff, same_int_iff, ◌↔◌, arith,
}

pub record SocketAddress : Type 0 where
  pub address : Bytes
  pub port : ℤ

-- `a.address == b.address && a.port == b.port`
unfoldable pub same_address : SocketAddress → SocketAddress → Bool
same_address a b = same a.address b.address && same_int a.port b.port

pub same_address_iff : (a b : SocketAddress) → (same_address a b ≡ true) ↔ (a ≡ b)
unfolding same_address
same_address_iff a b = ground (arith, same_iff a.address b.address, same_int_iff a.port b.port)

pub record Session : Type 0 where
  pub session_id : ℕ
  pub user_handle : Bytes
  pub sockets : List SocketAddress

pub record SessionManager : Type 0 where
  pub heap : List Session
  pub sessions : List (Bytes × ℕ)

abbrev pub max_sessions_per_user : ℕ
max_sessions_per_user = 2

abbrev pub no_sessions : SessionManager
no_sessions = record { heap = []; sessions = [] }

-- `it == sessions.end()`: a new session with the sender's socket
unfoldable pub new_session : SessionManager → Bytes → SocketAddress → SessionManager × Option ℕ
new_session m user_handle sender = (
  record m {
    heap =
        m.heap ++ record { session_id = 1; user_handle = user_handle; sockets = sender ∷ [] } ∷ [];
    sessions = insert_key user_handle (length m.heap) m.sessions;
  },
  some (length m.heap),
)

-- the session exists, in cell `s`
unfoldable pub join_session :
    SessionManager → ℕ → Session → SocketAddress → SessionManager × Option ℕ
join_session m s x sender = if leb max_sessions_per_user (length x.sockets) then (m, none) else (
  record m { heap = set m.heap s (record x { sockets = x.sockets ++ sender ∷ [] }) },
  some s,
)

-- `none` is the null pointer.
unfoldable pub start_session :
    SessionManager → Bytes → SocketAddress → Result (SessionManager × Option ℕ)
start_session m user_handle sender = elim (find_key user_handle m.sessions) [
  | none ↦ ok (new_session m user_handle sender)
  | some s ↦ do x ← or_fail (get_elem? m.heap s) dangling; ok (join_session m s x sender)
]

-- `std::find_if` for the sender's socket
unfoldable pub has_socket : SocketAddress → List SocketAddress → Bool
has_socket a [] = false
has_socket a (b ∷ bs) = if same_address b a then true else has_socket a bs

-- `erase` of the socket that was found: the first one
unfoldable pub erase_socket : SocketAddress → List SocketAddress → List SocketAddress
erase_socket a [] = []
erase_socket a (b ∷ bs) = if same_address b a then bs else b ∷ erase_socket a bs

unfoldable pub leave_session : SessionManager → ℕ → Session → SocketAddress → SessionManager × ℕ
leave_session m s x sender =
    if has_socket sender x.sockets
    then (
      record m { heap = set m.heap s (record x { sockets = erase_socket sender x.sockets }) },
      1,
    )
    else (m, 0)

unfoldable pub end_session : SessionManager → Bytes → SocketAddress → Result (SessionManager × ℕ)
end_session m user_handle sender = elim (find_key user_handle m.sessions) [
  | none ↦ ok (m, 0)
  | some s ↦ do x ← or_fail (get_elem? m.heap s) dangling; ok (leave_session m s x sender)
]

-- the loop over the map, in the order of its keys
unfoldable pub user_name_in :
    List Session → List (Bytes × ℕ) → SocketAddress → Result (Option Bytes)
user_name_in heap [] address = ok none
user_name_in heap ((k, s) ∷ rest) address =
    let later = user_name_in heap rest address in
    do
      x ← or_fail (get_elem? heap s) dangling
      if has_socket address x.sockets then ok (some x.user_handle) else later

-- `some user` is a return of 1 with `out` set.
unfoldable pub get_user_name_by_address_and_ip :
    SessionManager → SocketAddress → Result (Option Bytes)
get_user_name_by_address_and_ip m = user_name_in m.heap m.sessions

unfoldable pub get_user_addresses : SessionManager → Bytes → Result (List SocketAddress)
get_user_addresses m handle = elim (find_key handle m.sessions) [
  | none ↦ ok []
  | some s ↦ do x ← or_fail (get_elem? m.heap s) dangling; ok x.sockets
]
