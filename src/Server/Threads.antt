-- ===== src/Server/Threads.antt =====
-- source/server/server.cpp: several CONNECTs at once, each in a thread of its own as `Listen` starts
-- them. A step of a thread is one call that takes a lock or changes what the threads share:
-- GetProfileByName, NewProfile, StartSession, SetSession with the list of users behind it, and the
-- replication. The steps of the threads come in any order.
use piupiu.Common.{
  ℕ, zero, suc, ◌≡◌, refl, sym, ap, ◌∙◌, inl, inr, List, [], ◌∷◌, Option, none, some, Bytes,
  get_elem?, set, Result, ok, err, ◌>>=◌, or_fail, dangling, from_c_array, Option-cases, arith,
}
use piupiu.Messaging.{Packet}
use piupiu.Sessions.{SocketAddress, start_session}
use piupiu.Profiles.{ProfileManager, get_profile_by_name, new_profile}
use piupiu.Server.{Server, profile_for, store_session, replicate_connect, handle_connect}

-- Where a CONNECT stands: before the search for the profile of a user, before it is made, before its
-- session starts, before the session that was returned is stored, before the replication, or behind it
pub data Phase : Type 0 where
  looking creating : Bytes → Phase
  starting : ℕ → Phase
  storing : ℕ → Option ℕ → Phase
  replicating finished : Phase

-- One step of the thread that handles `message`
unfoldable pub advance : Server → Packet → SocketAddress → ℕ → Phase → Result (Server × Phase)
advance s message incoming now (looking user) = elim (get_profile_by_name s.profiles user) [
  | none ↦ ok (s, creating user)
  | some i ↦ ok (s, starting i)
]
advance s message incoming now (creating user) = do
  (profiles, i) ← new_profile s.profiles user
  ok (record s { profiles = profiles }, starting i)
advance s message incoming now (starting i) = do
  p ← or_fail (get_elem? s.profiles.profiles i) dangling
  (sessions, session) ← start_session s.sessions p.handle incoming
  ok (record s { sessions = sessions }, storing i session)
advance s message incoming now (storing i session) = do
  profiles ← store_session s.profiles s.sessions i session
  ok (record s { profiles = profiles }, replicating)
advance s message incoming now replicating = do
  s' ← replicate_connect s message incoming now
  ok (s', finished)
advance s message incoming now finished = ok (s, finished)

pub record Thread : Type 0 where
  pub message : Packet
  pub incoming : SocketAddress
  pub phase : Phase

-- The steps of the threads with these numbers, in this order; a number of no thread does nothing.
unfoldable pub interleave : Server → ℕ → List Thread → List ℕ → Result (Server × List Thread)
interleave s now threads [] = ok (s, threads)
interleave s now threads (k ∷ ks) = elim (get_elem? threads k) [
  | none ↦ interleave s now threads ks
  | some t ↦ do
    (s', phase) ← advance s t.message t.incoming now t.phase
    interleave s' now (set threads k (record t { phase = phase })) ks
]

-- `n` steps of one thread
unfoldable pub advance_times :
    ℕ → Server → Packet → SocketAddress → ℕ → Phase → Result (Server × Phase)
advance_times zero s message incoming now phase = ok (s, phase)
advance_times (suc n) s message incoming now phase = do
  (s', phase') ← advance s message incoming now phase
  advance_times n s' message incoming now phase'

pub >>=-assoc :
    {A B C : Type 0} (r : Result A) (f : A → Result B) (g : B → Result C)
    → ((r >>= f) >>= g) ≡ (r >>= λ a. f a >>= g)
>>=-assoc (ok a) f g = refl
>>=-assoc (err x) f g = refl

pub >>=-ext :
    {A B : Type 0} (r : Result A) (f g : A → Result B)
    → ((a : A) → f a ≡ g a)
    → (r >>= f) ≡ (r >>= g)
>>=-ext (ok a) f g h = h a
>>=-ext (err x) f g h = refl

-- A thread from each phase on, when it runs alone
module _ (message : Packet) (incoming : SocketAddress) (now : ℕ) where
  abbrev end : Server → Result (Server × Phase)
  end s = ok (s, finished)

  advance_times-finished :
      (n : ℕ) (s : Server) → advance_times n s message incoming now finished ≡ end s
  unfolding advance_times advance
  advance_times-finished zero s = refl
  advance_times-finished (suc n) s = advance_times-finished n s

  advance_times-replicating :
      (n : ℕ) (s : Server)
      → advance_times (suc n) s message incoming now replicating
        ≡ (replicate_connect s message incoming now >>= end)
  unfolding advance_times advance
  advance_times-replicating n s =
      >>=-assoc (replicate_connect s message incoming now) _ _
      ∙ >>=-ext (replicate_connect s message incoming now) _ _ (λ s'. advance_times-finished n s')

  advance_times-storing :
      (n : ℕ) (s : Server) (i : ℕ) (session : Option ℕ)
      → advance_times (suc (suc n)) s message incoming now (storing i session) ≡ (
          store_session s.profiles s.sessions i session >>= λ m.
          replicate_connect (record s { profiles = m }) message incoming now >>= end)
  unfolding advance_times advance
  advance_times-storing n s i session =
      >>=-assoc (store_session s.profiles s.sessions i session) _ _
      ∙ >>=-ext (store_session s.profiles s.sessions i session) _ _
          (λ m. advance_times-replicating n (record s { profiles = m }))

  -- The rest of the handler behind the search
  abbrev rest : Server → ℕ → Result (Server × Phase)
  rest s i = or_fail (get_elem? s.profiles.profiles i) dangling >>= λ p.
      start_session s.sessions p.handle incoming >>= λ r.
      store_session s.profiles r.0 i r.1 >>= λ m.
      replicate_connect (record s { profiles = m; sessions = r.0 }) message incoming now >>= end

  advance_times-starting :
      (n : ℕ) (s : Server) (i : ℕ)
      → advance_times (suc (suc (suc n))) s message incoming now (starting i) ≡ rest s i
  unfolding advance_times advance
  advance_times-starting n s i =
      >>=-assoc (or_fail (get_elem? s.profiles.profiles i) dangling) _ _
      ∙ >>=-ext (or_fail (get_elem? s.profiles.profiles i) dangling) _ _ (λ p.
        >>=-assoc (start_session s.sessions p.handle incoming) _ _
        ∙ >>=-ext (start_session s.sessions p.handle incoming) _ _
            (λ r. advance_times-storing n (record s { sessions = r.0 }) i r.1))

  advance_times-unknown :
      (n : ℕ) (s : Server) (user : Bytes)
      → get_profile_by_name s.profiles user ≡ none
      → advance_times (suc n) s message incoming now (looking user)
        ≡ advance_times n s message incoming now (creating user)
  unfolding advance_times advance
  advance_times-unknown n s user e = ground (arith, e)

  advance_times-known :
      (n : ℕ) (s : Server) (user : Bytes) (i : ℕ)
      → get_profile_by_name s.profiles user ≡ some i
      → advance_times (suc n) s message incoming now (looking user)
        ≡ advance_times n s message incoming now (starting i)
  unfolding advance_times advance
  advance_times-known n s user i e = ground (arith, e)

  advance_times-creating :
      (s : Server) (user : Bytes)
      → advance_times 4 s message incoming now (creating user)
        ≡ (new_profile s.profiles user >>= λ r. rest (record s { profiles = r.0 }) r.1)
  unfolding advance_times advance
  advance_times-creating s user =
      >>=-assoc (new_profile s.profiles user) _ _
      ∙ >>=-ext (new_profile s.profiles user) _ _
          (λ r. advance_times-starting 0 (record s { profiles = r.0 }) r.1)

  -- The handler from the profile on
  handle_connect-rest :
      (s : Server) (user : Bytes)
      → from_c_array message.payload ≡ ok user
      → (handle_connect s message incoming now >>= end)
        ≡ (profile_for s.profiles user >>= λ found. rest (record s { profiles = found.0 }) found.1)
  unfolding handle_connect
  handle_connect-rest s user named = rw named (
      >>=-assoc (profile_for s.profiles user) _ end
      ∙ >>=-ext (profile_for s.profiles user) _ _ (λ found.
        >>=-assoc (or_fail (get_elem? found.0.profiles found.1) dangling) _ end
        ∙ >>=-ext (or_fail (get_elem? found.0.profiles found.1) dangling) _ _ (λ p.
          >>=-assoc (start_session s.sessions p.handle incoming) _ end
          ∙ >>=-ext (start_session s.sessions p.handle incoming) _ _
              (λ r. >>=-assoc (store_session found.0 r.0 found.1 r.1) _ end))))

-- A thread that runs alone does what the handler of its CONNECT does, faults included: five steps take
-- it from the search to the end.
pub advance_times-handle_connect :
    (s : Server) (message : Packet) (incoming : SocketAddress) (now : ℕ) (user : Bytes)
    → from_c_array message.payload ≡ ok user
    → advance_times 5 s message incoming now (looking user)
      ≡ (handle_connect s message incoming now >>= λ s'. ok (s', finished))
unfolding profile_for
advance_times-handle_connect s message incoming now user named =
    sym (handle_connect-rest message incoming now s user named ∙ search_first)
  where
    profile_new :
        get_profile_by_name s.profiles user ≡ none
        → (profile_for s.profiles user >>= λ found.
            rest message incoming now (record s { profiles = found.0 }) found.1)
          ≡ (new_profile s.profiles user >>= λ found.
              rest message incoming now (record s { profiles = found.0 }) found.1)
    profile_new e =
        let found : profile_for s.profiles user ≡ new_profile s.profiles user =
          rw (e, profile_for) refl in
        ap
          (λ (r : Result (ProfileManager × ℕ)). r >>= λ (found : ProfileManager × ℕ).
            rest message incoming now (record s { profiles = found.0 }) found.1)
          found

    profile_old :
        (i : ℕ)
        → get_profile_by_name s.profiles user ≡ some i
        → (profile_for s.profiles user >>= λ found.
            rest message incoming now (record s { profiles = found.0 }) found.1)
          ≡ rest message incoming now s i
    profile_old i e =
        let found : profile_for s.profiles user ≡ ok (s.profiles, i) = rw (e, profile_for) refl in
        ap
          (λ (r : Result (ProfileManager × ℕ)). r >>= λ (found : ProfileManager × ℕ).
            rest message incoming now (record s { profiles = found.0 }) found.1)
          found

    search_first :
        (profile_for s.profiles user >>= λ found.
        rest message incoming now (record s { profiles = found.0 }) found.1)
        ≡ advance_times 5 s message incoming now (looking user)
    search_first = elim (Option-cases (get_profile_by_name s.profiles user)) [
      | inl e ↦
          profile_new e
          ∙ sym (
              advance_times-unknown message incoming now 4 s user e
              ∙ advance_times-creating message incoming now s user)
      | inr (i, e) ↦
          profile_old i e
          ∙ sym (
              advance_times-known message incoming now 4 s user i e
              ∙ advance_times-starting message incoming now 1 s i)
    ]
