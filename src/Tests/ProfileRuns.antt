-- ===== src/Tests/ProfileRuns.antt =====
-- source/server/ProfileManager.cpp and Profile.cpp on concrete inputs.
use piupiu.Common.{
  ℕ, zero, suc, ◌≡◌, ◌≢◌, ◌⊎◌, refl, true, false, [], ◌∷◌, ◌++◌, none, some, Bytes, codes,
  get_elem?, ok, err, if◌then◌else◌, arith, same, diverged,
}
use piupiu.Profiles.{unset, Profile, ProfileManager, has_pointer, push_follower, sync}
use piupiu.Profiles.Invariant.{IsStore}
use piupiu.Profiles.Updates.{append-IsStore}
use piupiu.Profiles.Storage.{load_profiles}
use piupiu.Profiles.Loading.{load_profiles_ends}
use piupiu.Profiles.Reload.{sync_restarts}
use piupiu.Profiles.Storage.{new_profile_manager}
use piupiu.Profiles.Updates.{push_follower-IsStore}
use piupiu.Tests.{alice, bob}

abbrev pub fresh_profile : Bytes → Profile
fresh_profile handle = record { handle = handle; followers = []; session = unset }

abbrev pub two_profiles : ProfileManager
two_profiles = record {
  profiles = fresh_profile alice ∷ fresh_profile bob ∷ [];
  disk = record { content = none; writable = true };
}

no_profiles-IsStore : IsStore []
no_profiles-IsStore = record {
  pointers = λ i p e. cc;
  distinct = λ i p e. cc;
  unique = λ i j p q e f h. cc;
}

other_handle :
    (i : ℕ) (q : Profile) → get_elem? (fresh_profile alice ∷ []) i ≡ some q → q.handle ≢ bob
other_handle zero q e h = ground arith
other_handle (suc i) q e h = cc

two_profiles-IsStore : IsStore two_profiles.profiles
two_profiles-IsStore =
    append-IsStore (fresh_profile alice ∷ []) (fresh_profile bob)
      (append-IsStore [] (fresh_profile alice) no_profiles-IsStore (λ i q e h. cc) refl)
      other_handle refl

abbrev followed : ProfileManager
followed = push_follower two_profiles 0 (fresh_profile alice) 1

load_profiles_ends_example :
    load_profiles two_profiles.disk (codes "2\nalice\nbob\nalice,bob\n") ≢ err diverged
load_profiles_ends_example =
    load_profiles_ends two_profiles.disk (codes "2\nalice\nbob\nalice,bob\n")

-- alice, whom bob follows, comes back with bob.
sync_restarts_example :
    (m' : ProfileManager) × (sync followed ≡ ok m')
    × (new_profile_manager m'.disk ≡ ok (record { profiles = followed.profiles; disk = m'.disk }))
unfolding piupiu.Common.is_space push_follower has_pointer
sync_restarts_example =
    sync_restarts followed
      (push_follower-IsStore two_profiles 0 (fresh_profile alice) 1 two_profiles-IsStore refl
        (omega arith) refl)
      (omega arith)
      (
        (
          ((λ e. cc), (refl, (refl, (refl, (refl, (refl, tt)))))),
          (
            (λ e. omega (arith, e)),
            (
              (λ e. omega (arith, e)),
              ((λ e. omega (arith, e)), ((λ e. omega (arith, e)), ((λ e. omega (arith, e)), tt))),
            ),
          ),
        ),
        (
          (
            ((λ e. cc), (refl, (refl, (refl, tt)))),
            ((λ e. omega (arith, e)), ((λ e. omega (arith, e)), ((λ e. omega (arith, e)), tt))),
          ),
          tt,
        ),
      )
      refl
