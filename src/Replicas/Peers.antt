-- ===== src/Replicas/Peers.antt =====
-- source/server/ReplicaManager.cpp: the list of peers, and what is asked of it.
use piupiu.Common.{
  ℕ, ◌≡◌, ◌≢◌, refl, List, [], ◌∷◌, ◌++◌, Bytes, codes, same, ok, err, out_of_range, All,
  All-append, arith, atoi, atoi_value, is_int, true, c_str, split_on, split_on-piece, split_on-last,
}
use piupiu.Replicas.{Peer, parse_peer, parse_peers_argument}

-- Neither a colon nor a comma
abbrev pub IsField : Bytes → Type 0
IsField = All (λ c. (c ≢ b':') × (c ≢ b','))

-- One entry of the argument, `ip:port:role`
pub record Entry : Type 0 where
  pub ip : Bytes
  pub port : Bytes
  pub role : Bytes

abbrev pub print_entry : Entry → Bytes
print_entry e = e.ip ++ (b':' ∷ (e.port ++ (b':' ∷ e.role)))

-- The argument PEERS: entries with commas between them
abbrev pub print_entries : Entry → List Entry → Bytes
print_entries e [] = print_entry e
print_entries e (f ∷ fs) = print_entry e ++ (b',' ∷ print_entries f fs)

abbrev pub peer_of : Entry → Peer
peer_of e = record {
  address = e.ip;
  port = atoi_value (c_str e.port);
  primary = same (c_str e.role) (codes "p");
}

pub record IsEntry (e : Entry) : Type 0 where
  pub ip_field : IsField e.ip
  pub port_field : IsField e.port
  pub port_int : is_int (atoi_value (c_str e.port)) ≡ true
  pub role_field : IsField e.role
  pub role_some : e.role ≢ []

no_colon : (s : Bytes) → IsField s → All (λ c. c ≢ b':') s
no_colon [] h = tt
no_colon (c ∷ s) h = (h.0.0, no_colon s h.1)

no_comma : (s : Bytes) → IsField s → All (λ c. c ≢ b',') s
no_comma [] h = tt
no_comma (c ∷ s) h = (h.0.1, no_comma s h.1)

split_on-All : (d : ℕ) (p : Bytes) → p ≢ [] → All (λ c. c ≢ d) p → split_on d p ≡ p ∷ []
split_on-All d [] n h = absurd (n refl)
split_on-All d (c ∷ p) n h = split_on-last d c p h

parse_peer-print_entry : (e : Entry) → IsEntry e → parse_peer (print_entry e) ≡ ok (peer_of e)
unfolding parse_peer atoi
parse_peer-print_entry e v = rw (
  split_on-piece b':' e.ip (e.port ++ (b':' ∷ e.role)) (no_colon e.ip v.ip_field),
  split_on-piece b':' e.port e.role (no_colon e.port v.port_field),
  split_on-All b':' e.role v.role_some (no_colon e.role v.role_field),
  v.port_int,
)

entry_no_comma : (e : Entry) → IsEntry e → All (λ c. c ≢ b',') (print_entry e)
entry_no_comma e v =
    All-append _ e.ip (b':' ∷ (e.port ++ (b':' ∷ e.role))) (no_comma e.ip v.ip_field) (
      omega arith,
      All-append _ e.port (b':' ∷ e.role) (no_comma e.port v.port_field)
          (omega arith, no_comma e.role v.role_field),
    )

entry_not_empty : (e : Entry) → print_entry e ≢ []
entry_not_empty e = not_empty e.ip
  where
    not_empty : (ip : Bytes) → (ip ++ (b':' ∷ (e.port ++ (b':' ∷ e.role)))) ≢ []
    not_empty [] q = cc
    not_empty (c ∷ ip) q = cc

abbrev pub AllEntries : Entry → List Entry → Type 0
AllEntries e [] = IsEntry e
AllEntries e (f ∷ fs) = IsEntry e × AllEntries f fs

abbrev pub map_peers : Entry → List Entry → List Peer
map_peers e [] = peer_of e ∷ []
map_peers e (f ∷ fs) = peer_of e ∷ map_peers f fs

-- The argument PEERS is read back: whatever well-formed entries were printed with commas between
-- them are the peers, in order. The role of a primary is "p".
pub parse_peers_argument-print_entries :
    (e : Entry) (es : List Entry)
    → AllEntries e es
    → parse_peers_argument (print_entries e es) ≡ ok (map_peers e es)
unfolding parse_peers_argument
parse_peers_argument-print_entries e [] v = rw (
  split_on-All b',' (print_entry e) (entry_not_empty e) (entry_no_comma e v),
  parse_peer-print_entry e v,
)
parse_peers_argument-print_entries e (f ∷ fs) v = rw (
  split_on-piece b',' (print_entry e) (print_entries f fs) (entry_no_comma e v.0),
  parse_peer-print_entry e v.0,
  parse_peers_argument-print_entries f fs v.1,
)

cons_not_empty : (p : Bytes) (c : ℕ) (rest : Bytes) → (p ++ (c ∷ rest)) ≢ []
cons_not_empty [] c rest q = cc
cons_not_empty (b ∷ p) c rest q = cc

-- One entry that has a single colon
parse_peer_short :
    (ip port : Bytes)
    → IsField ip
    → IsField port
    → port ≢ []
    → parse_peer (ip ++ (b':' ∷ port)) ≡ err out_of_range
unfolding parse_peer
parse_peer_short ip port hi hp some_port = rw (
  split_on-piece b':' ip port (no_colon ip hi),
  split_on-All b':' port some_port (no_colon port hp),
)

-- An entry with a single colon is read past its end: the handler for a malformed argument is never
-- reached.
pub parse_peers_argument_malformed :
    (ip port : Bytes)
    → IsField ip
    → IsField port
    → port ≢ []
    → parse_peers_argument (ip ++ (b':' ∷ port)) ≡ err out_of_range
unfolding parse_peers_argument
parse_peers_argument_malformed ip port hi hp some_port = rw (
  split_on-All b',' (ip ++ (b':' ∷ port)) (cons_not_empty ip b':' port)
      (All-append _ ip (b':' ∷ port) (no_comma ip hi) (omega arith, no_comma port hp)),
  parse_peer_short ip port hi hp some_port,
)
