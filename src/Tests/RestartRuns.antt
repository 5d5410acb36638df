-- ===== src/Tests/RestartRuns.antt =====
-- source/server/server.cpp after a start from a file that holds two profiles.
use piupiu.Common.{
  ℕ, zero, suc, ◌≡◌, refl, List, [], ◌∷◌, some, none, Bytes, codes, get_elem?, Result, ok, err,
  indeterminate, arith, pos, true,
}
use piupiu.Messaging.Kind
use piupiu.Sessions.{no_sessions}
use piupiu.Profiles.{unset, Profile, ProfileManager, get_profile_by_name}
use piupiu.Profiles.Storage.{new_profile_manager}
use piupiu.Server.{Server, handle_connect}
use piupiu.Server.Restart.{handle_connect_restarted}
use piupiu.Tests.{alice, bob, home, packet, open_socket, named}
use piupiu.Tests.ProfileRuns.{two_profiles, fresh_profile}

abbrev restarted : Server
restarted = record {
  last_seqn = 0;
  socket = open_socket;
  notification_queue = [];
  profiles = two_profiles;
  sessions = no_sessions;
  replicas = record {
    this_peer = record { address = codes "10.0.0.1"; port = pos 5000; primary = true };
    peers = [];
    confirmation_buffer = some [];
    returns = true;
  };
}

all_unset : (k : ℕ) (r : Profile) → get_elem? two_profiles.profiles k ≡ some r → r.session ≡ unset
all_unset zero r e = ground arith
all_unset (suc zero) r e = ground arith
all_unset (suc (suc k)) r e = cc

handle_connect_restarted_example :
    handle_connect restarted (packet Kind.connect_cmd 2 alice) home 0 ≡ err indeterminate
unfolding get_profile_by_name piupiu.Profiles.find_profile piupiu.Common.same
handle_connect_restarted_example =
    handle_connect_restarted restarted (packet Kind.connect_cmd 2 alice) home 0 alice 0 1
      (fresh_profile alice) (fresh_profile bob) refl all_unset (named alice refl) refl refl refl
      (λ e. omega (arith, e))

-- These are the profiles that such a file gives.
loaded :
    new_profile_manager (record { content = some (codes "2\nalice\nbob\n"); writable = true })
    ≡ ok (record {
      profiles = two_profiles.profiles;
      disk = record { content = some (codes "2\nalice\nbob\n"); writable = true };
    })
unfolding new_profile_manager piupiu.Common.is_space piupiu.Profiles.Storage.read_edges
    piupiu.Common.parse_digits piupiu.Common.skip_space
loaded = refl
