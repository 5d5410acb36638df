-- ===== src/Server/Sends/Turns.antt =====
-- source/server/server.cpp: one turn of a thread that handles a SEND, or of the worker.
use mathlib.Core.List.{Permᴰ, append_assoc, append-nil}
use mathlib.Core.List.Permᴰ
use piupiu.Common.{
  ℕ, zero, suc, ◌≤◌, ◌≡◌, ◌≢◌, refl, sym, ap, ◌∙◌, subst, inl, inr, true, List, [], ◌∷◌, ◌++◌, some,
  length, get_elem?, set, ok, All, All-append, All-imp, Member, Member-append_left,
  Member-append_right, arith, Option-cases, from_c_array, c_str,
}
use piupiu.Sessions.{SessionManager}
use piupiu.Sessions.View.{sockets_of}
use piupiu.Profiles.{Profile, ProfileManager}
use piupiu.Replicas.{Datagram}
use piupiu.Replicas.Broadcast.{after_sending}
use piupiu.Server.{Server, PendingNotification}
use piupiu.Server.Invariant.{IsServer, max_body}
use piupiu.Server.Delivery.{
  Notices, WorkOutcome, delivered, postponed, work_lem, work_idle, queue-IsServer,
}
use piupiu.Server.Sends.{Sending, thread, worker, take_turn, remaining, all_remaining}
use piupiu.Server.Sends.Step.{IsPhase, advance_send-Steps}

-- A thread that handles a SEND of at most 128 bytes
pub record IsSending (ps : List Profile) (t : Sending) : Type 0 where
  pub text : from_c_array t.message.payload ≡ ok (c_str t.message.payload)
  pub short : length (c_str t.message.payload) ≤ max_body
  pub phase_fits : IsPhase ps t.phase

-- A notification whose datagrams, one for each socket of its recipient, who has one, are among the sent
abbrev pub IsDelivered : Server → PendingNotification → Type 0
IsDelivered s n =
    (p : Profile) × (ds : List Datagram) × (first last : ℕ) × (get_elem? s.profiles.profiles
        n.recipient
      ≡ some p)
    × (sockets_of s.sessions p.handle ≢ [])
    × Notices n first (sockets_of s.sessions p.handle) ds last
    × All (λ d. Member d s.socket.sent) ds

-- It stays so on a server that has sent more.
pub IsDelivered-kept :
    (s1 s2 : Server) (n : PendingNotification) (more : List Datagram)
    → s2.profiles ≡ s1.profiles
    → s2.sessions ≡ s1.sessions
    → s2.socket.sent ≡ s1.socket.sent ++ more
    → IsDelivered s1 n
    → IsDelivered s2 n
IsDelivered-kept s1 s2 n more profiles sessions grown
      (p, ds, first, last, stored, some_socket, notices, there) =
    let same_sockets : sockets_of s2.sessions p.handle ≡ sockets_of s1.sessions p.handle =
      ap (λ sm. sockets_of sm p.handle) sessions in
    let same_profile : get_elem? s2.profiles.profiles n.recipient
        ≡ get_elem? s1.profiles.profiles n.recipient =
      ap (λ (m : ProfileManager). get_elem? m.profiles n.recipient) profiles in
    (
      p,
      ds,
      first,
      last,
      same_profile ∙ stored,
      rw same_sockets some_socket,
      rw same_sockets notices,
      All-imp (λ d. Member d s1.socket.sent) (λ d. Member d s2.socket.sent) ds
          (λ d h. rw grown (Member-append_left d s1.socket.sent more h)) there,
    )

pub move {ℓ} : {A : Type ℓ} (xs ys zs : List A) → Permᴰ (xs ++ (ys ++ zs)) (ys ++ (xs ++ zs))
move xs ys zs =
    rw (← append_assoc xs ys zs, ← append_assoc ys xs zs)
      (Permᴰ.append_right zs (Permᴰ.append_comm xs ys))

-- What a thread pushed no longer remains.
all_remaining-set :
    (m : ProfileManager) (sm : SessionManager) (ts : List Sending) (k : ℕ) (t t' : Sending)
    (pushed : List PendingNotification)
    → get_elem? ts k ≡ some t
    → remaining m sm t.message t.incoming t.phase
      ≡ pushed ++ remaining m sm t'.message t'.incoming t'.phase
    → Permᴰ (pushed ++ all_remaining m sm (set ts k t')) (all_remaining m sm ts)
unfolding all_remaining
all_remaining-set m sm [] k t t' pushed e h = cc
all_remaining-set m sm (t0 ∷ ts) zero t t' pushed e h =
    let one : t0 ≡ t = ground (arith, e) in
    let split : remaining m sm t0.message t0.incoming t0.phase
        ≡ pushed ++ remaining m sm t'.message t'.incoming t'.phase =
      ap (λ (x : Sending). remaining m sm x.message x.incoming x.phase) one ∙ h in
    rw (split, append_assoc pushed _ (all_remaining m sm ts)) (Permᴰ.refl _)
all_remaining-set m sm (t0 ∷ ts) (suc k) t t' pushed e h =
    let front = remaining m sm t0.message t0.incoming t0.phase in
    Permᴰ.trans (move pushed front (all_remaining m sm (set ts k t')))
      (Permᴰ.append_left front (all_remaining-set m sm ts k t t' pushed e h))

All-set :
    (Q : Sending → Type 0) (ts : List Sending) (k : ℕ) (t : Sending)
    → All Q ts
    → Q t
    → All Q (set ts k t)
All-set Q [] k t h q = tt
All-set Q (t0 ∷ ts) zero t h q = (q, h.1)
All-set Q (t0 ∷ ts) (suc k) t h q = (h.0, All-set Q ts k t h.1 q)

All-get :
    (Q : Sending → Type 0) (ts : List Sending) (k : ℕ) (t : Sending)
    → All Q ts
    → get_elem? ts k ≡ some t
    → Q t
All-get Q [] k t h e = cc
All-get Q (t0 ∷ ts) zero t h e = let one : t0 ≡ t = ground (arith, e) in rw (← one) h.0
All-get Q (t0 ∷ ts) (suc k) t h e = All-get Q ts k t h.1 e

-- Where a turn, or several, lead: the server and its threads are well, and what is queued, gone from the
-- queue, and still to be pushed is what was queued or to be pushed before.
pub record Turns (s : Server) (ts : List Sending) (s' : Server) (ts' : List Sending)
    (gone : List PendingNotification) : Type 0 where
  pub server : IsServer s'
  pub sendings : All (IsSending s'.profiles.profiles) ts'
  pub profiles : s'.profiles ≡ s.profiles
  pub sessions : s'.sessions ≡ s.sessions
  pub opened : s'.socket.descriptor ≡ true
  pub kept :
      Permᴰ
        (s'.notification_queue ++ (gone ++ all_remaining s'.profiles s'.sessions ts'))
        (s.notification_queue ++ all_remaining s.profiles s.sessions ts)
  pub delivered : All (IsDelivered s') gone
  pub grows : (more : List Datagram) × (s'.socket.sent ≡ s.socket.sent ++ more)

pub idle-Turns :
    (s : Server) (ts : List Sending)
    → IsServer s
    → All (IsSending s.profiles.profiles) ts
    → s.socket.descriptor ≡ true
    → Turns s ts s ts []
idle-Turns s ts v fit can_send = record {
  server = v;
  sendings = fit;
  profiles = refl;
  sessions = refl;
  opened = can_send;
  kept = Permᴰ.refl _;
  delivered = tt;
  grows = ([], sym (append-nil s.socket.sent));
}

pub All-members : (xs ds : List Datagram) → All (λ d. Member d (xs ++ ds)) ds
All-members xs [] = tt
All-members xs (d ∷ ds) = (
  Member-append_right d xs (d ∷ ds) (inl refl),
  subst (λ (l : List Datagram). All (λ x. Member x l) ds) (append_assoc xs (d ∷ []) ds)
      (All-members (xs ++ d ∷ []) ds),
)

module _ (s : Server) (now : ℕ) (ts : List Sending) (v : IsServer s)
    (fit : All (IsSending s.profiles.profiles) ts) (can_send : s.socket.descriptor ≡ true) where
  -- A turn that pushes
  pub thread-Turns :
      (k : ℕ)
      → (s' : Server) × (ts' : List Sending) × (take_turn s now ts (thread k) ≡ ok (s', ts'))
        × Turns s ts s' ts' []
  unfolding take_turn
  thread-Turns k = elim (Option-cases (get_elem? ts k)) [
    | inl e ↦ (s, ts, ground (arith, e), idle-Turns s ts v fit can_send)
    | inr (t, e) ↦
        let one = All-get (IsSending s.profiles.profiles) ts k t fit e in
        let (queue, pushed, phase', steps) =
          advance_send-Steps s t.message t.incoming v one.text one.short t.phase one.phase_fits in
        let t' : Sending = record t { phase = phase' } in
        let q = s.notification_queue in
        let left = all_remaining s.profiles s.sessions (set ts k t') in
        (
          record s { notification_queue = queue },
          set ts k t',
          ground (arith, e, steps.ran),
          record {
            server =
                queue-IsServer s queue s.last_seqn s.socket v
                  (rw steps.queued (All-append _ q pushed v.queue steps.deliverable));
            sendings =
                All-set (IsSending s.profiles.profiles) ts k t' fit
                  (record { text = one.text; short = one.short; phase_fits = steps.phase_fits });
            profiles = refl;
            sessions = refl;
            opened = can_send;
            kept =
                rw (steps.queued, append_assoc q pushed left)
                  (Permᴰ.append_left q
                    (all_remaining-set s.profiles s.sessions ts k t t' pushed e steps.rest));
            delivered = tt;
            grows = ([], sym (append-nil s.socket.sent));
          },
        )
  ]

  -- A round of the worker
  pub worker-Turns :
      (s' : Server) × (gone : List PendingNotification) × (take_turn s now ts worker ≡ ok (s', ts))
      × Turns s ts s' ts gone
  unfolding take_turn
  worker-Turns = on_queue s.notification_queue refl
    where
      on_outcome :
          (n : PendingNotification) (rest : List PendingNotification) (s' : Server)
          → s.notification_queue ≡ n ∷ rest
          → IsServer s'
          → WorkOutcome s n rest s'
          → (gone : List PendingNotification) × Turns s ts s' ts gone
      on_outcome n rest s' e kept (delivered p ds final stored some_socket notices q) =
          let left = all_remaining s.profiles s.sessions ts in
          let sent_all : (after_sending s.socket ds).sent ≡ s.socket.sent ++ ds =
            ground (arith, can_send) in
          (
            n ∷ [],
            subst (λ x. Turns s ts x ts (n ∷ [])) (sym q)
                (record {
                  server = subst IsServer q kept;
                  sendings = fit;
                  profiles = refl;
                  sessions = refl;
                  opened = ground (arith, can_send);
                  kept = rw e (Permᴰ.middle n rest left);
                  delivered = (
                    (
                      p,
                      ds,
                      s.last_seqn,
                      final,
                      stored,
                      some_socket,
                      notices,
                      subst (λ (l : List Datagram). All (λ x. Member x l) ds) (sym sent_all)
                          (All-members s.socket.sent ds),
                    ),
                    tt,
                  );
                  grows = (ds, sent_all);
                }),
          )
      on_outcome n rest s' e kept (postponed p stored none_there q) =
          let left = all_remaining s.profiles s.sessions ts in
          (
            [],
            subst (λ x. Turns s ts x ts []) (sym q)
                (record {
                  server = subst IsServer q kept;
                  sendings = fit;
                  profiles = refl;
                  sessions = refl;
                  opened = can_send;
                  kept = rw (e, append_assoc rest (n ∷ []) left) (Permᴰ.middle n rest left);
                  delivered = tt;
                  grows = ([], sym (append-nil s.socket.sent));
                }),
          )

      on_queue :
          (q : List PendingNotification)
          → s.notification_queue ≡ q
          → (s' : Server) × (gone : List PendingNotification) × (take_turn s now ts worker
              ≡ ok (s', ts))
            × Turns s ts s' ts gone
      on_queue [] e = (s, [], rw (work_idle s now e) refl, idle-Turns s ts v fit can_send)
      on_queue (n ∷ rest) e =
          let (s', ran, kept, outcome) = work_lem s n rest now v e in
          let (gone, turns) = on_outcome n rest s' e kept outcome in (s', gone, rw ran refl, turns)
