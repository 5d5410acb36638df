-- ===== src/Tests/SessionRuns.antt =====
-- source/server/SessionManager.cpp on concrete inputs.
use piupiu.Common.{
  ◌<◌, ◌≡◌, refl, ℕ, List, [], ◌∷◌, Option, none, some, Bytes, length, Result, ok, find_key,
}
use piupiu.Sessions.{
  SocketAddress, Session, SessionManager, no_sessions, new_session, start_session, end_session,
  get_user_addresses, get_user_name_by_address_and_ip,
}
use piupiu.Sessions.Invariant.{IsValid, no_sessions-IsValid, new_session-IsValid}
use piupiu.Sessions.View.{sockets_of, Opens, Closes, start_session_refines, end_session_refines}
use piupiu.Sessions.Lookup.{Answers, get_user_name-Answers}
use piupiu.Tests.{alice, home, office}

-- alice is connected from home.
abbrev pub one_session : SessionManager
one_session = (new_session no_sessions alice home).0

pub one_session-IsValid : IsValid one_session
unfolding find_key
one_session-IsValid = new_session-IsValid no_sessions alice home no_sessions-IsValid refl

-- She connects from the office as well.
start_session_refines_example :
    (r : SessionManager × Option ℕ) × (start_session one_session alice office ≡ ok r)
    × IsValid r.0
    × Opens one_session alice office r
start_session_refines_example = start_session_refines one_session alice office one_session-IsValid

-- She disconnects.
end_session_refines_example :
    (r : SessionManager × ℕ) × (end_session one_session alice home ≡ ok r)
    × IsValid r.0
    × Closes one_session alice home r
end_session_refines_example = end_session_refines one_session alice home one_session-IsValid

get_user_name-Answers_example :
    (r : Option Bytes) × (get_user_name_by_address_and_ip one_session home ≡ ok r)
    × Answers (sockets_of one_session) home r
get_user_name-Answers_example = get_user_name-Answers one_session home one_session-IsValid

-- The sender of a packet is found by its address.
sender_found : get_user_name_by_address_and_ip one_session home ≡ ok (some alice)
unfolding get_user_name_by_address_and_ip piupiu.Sessions.user_name_in new_session
    piupiu.Common.insert_key piupiu.Sessions.has_socket piupiu.Sessions.same_address
    piupiu.Common.same
sender_found = refl
