-- ===== src/Sessions/Lookup.antt =====
-- source/server/SessionManager.cpp, `GetUserNameByAddressAndIP`: who has the socket at an address.
use piupiu.Common.{
  ℕ, ◌≡◌, refl, inl, inr, true, false, List, [], ◌∷◌, Option, none, some, Bytes, same_iff,
  same_refl, get_elem?, ok, find_key, Above, IsOrdered, Above-trans, Above-IsOrdered, lex_lt_irrefl,
  find_key-Above, lex_lt, arith, Bool-cases,
}
use piupiu.Sessions.{
  SocketAddress, Session, SessionManager, has_socket, user_name_in, get_user_name_by_address_and_ip,
}
use piupiu.Sessions.Invariant.{IsValid}
use piupiu.Sessions.View.{Table, sockets_of, entry_sockets}

-- The right answer for a table of sockets: the first user, in the order of the handles, with a
-- socket at the address; or none when nobody has one.
pub data Answers (t : Table) (a : SocketAddress) : Option Bytes → Type 0 where
  first :
      (user : Bytes)
      → has_socket a (t user) ≡ true
      → ((k : Bytes) → lex_lt k user ≡ true → has_socket a (t k) ≡ false)
      → Answers t a (some user)
  nobody : ((k : Bytes) → has_socket a (t k) ≡ false) → Answers t a none

-- The table of some entries of the map.
abbrev entries_table : List Session → List (Bytes × ℕ) → Table
entries_table heap entries k = entry_sockets heap (find_key k entries)

-- Every entry leads to a session of its user.
abbrev AllLinked : List Session → List (Bytes × ℕ) → Type 0
AllLinked heap [] = Unit
AllLinked heap ((k, s) ∷ rest) =
    ((x : Session) × (get_elem? heap s ≡ some x) × (x.user_handle ≡ k)) × AllLinked heap rest

all_linked :
    (heap : List Session) (entries : List (Bytes × ℕ))
    → IsOrdered entries
    → ((k : Bytes) (s : ℕ)
        → find_key k entries ≡ some s
        → (x : Session) × (get_elem? heap s ≡ some x) × (x.user_handle ≡ k))
    → AllLinked heap entries
unfolding find_key
all_linked heap [] o f = tt
all_linked heap ((k, s) ∷ rest) o f = (
  f k s (rw (same_refl k)),
  all_linked heap rest (Above-IsOrdered k rest o)
      (λ j t g. f j t (ground (arith, g, same_iff k j, find_key-Above k rest o))),
)

-- The entry at the front has no such socket.
Answers-cons :
    (heap : List Session) (k : Bytes) (s : ℕ) (rest : List (Bytes × ℕ)) (a : SocketAddress)
    (x : Session)
    → Above k rest
    → get_elem? heap s ≡ some x
    → has_socket a x.sockets ≡ false
    → {r : Option Bytes} → Answers (entries_table heap rest) a r
    → Answers (entries_table heap ((k, s) ∷ rest)) a r
unfolding find_key has_socket
Answers-cons heap k s rest a x o stored h (first user held least) =
    first user (ground (arith, same_iff k user, find_key-Above k rest o))
      (λ j lt. ground (arith, same_iff k j, least j lt))
Answers-cons heap k s rest a x o stored h (nobody without) =
    nobody (λ j. ground (arith, same_iff k j, without j))

Answers-here :
    (heap : List Session) (k : Bytes) (s : ℕ) (rest : List (Bytes × ℕ)) (a : SocketAddress)
    (x : Session)
    → Above k rest
    → get_elem? heap s ≡ some x
    → x.user_handle ≡ k
    → has_socket a x.sockets ≡ true
    → Answers (entries_table heap ((k, s) ∷ rest)) a (some x.user_handle)
unfolding find_key has_socket
Answers-here heap k s rest a x o stored owner h =
    first x.user_handle (ground (arith, same_iff k x.user_handle)) (λ j lt.
      let below : lex_lt j k ≡ true = rw (← owner) lt in
      ground (
        arith,
        same_iff k j,
        lex_lt_irrefl k,
        find_key-Above j rest (Above-trans j k rest below o),
      ))

user_name_in-Answers :
    (heap : List Session) (entries : List (Bytes × ℕ)) (a : SocketAddress)
    → IsOrdered entries
    → AllLinked heap entries
    → (r : Option Bytes) × (user_name_in heap entries a ≡ ok r)
      × Answers (entries_table heap entries) a r
unfolding user_name_in find_key has_socket
user_name_in-Answers heap [] a o l = (none, refl, nobody (λ k. refl))
user_name_in-Answers heap ((k, s) ∷ rest) a o ((x, stored, owner), l) =
    let (r, e, answer) = user_name_in-Answers heap rest a (Above-IsOrdered k rest o) l in
    elim (Bool-cases (has_socket a x.sockets)) [
      | inl h ↦
          (some x.user_handle, rw (stored, h), Answers-here heap k s rest a x o stored owner h)
      | inr h ↦ (r, rw (stored, h) e, Answers-cons heap k s rest a x o stored h answer)
    ]

-- `GetUserNameByAddressAndIP` always returns. It names the first user, in the order of the handles,
-- who has a socket at the address, and fails only when no user has one.
pub get_user_name-Answers :
    (m : SessionManager) (a : SocketAddress)
    → IsValid m
    → (r : Option Bytes) × (get_user_name_by_address_and_ip m a ≡ ok r) × Answers (sockets_of m) a r
unfolding get_user_name_by_address_and_ip sockets_of
get_user_name-Answers m a v = user_name_in-Answers m.heap m.sessions a v.ordered (
    all_linked m.heap m.sessions v.ordered
      (λ k s e. let l = v.linked k s e in (l.session, l.stored, l.owner)))
