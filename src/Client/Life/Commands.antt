-- ===== src/Client/Life/Commands.antt =====
-- source/client/client.cpp: the commands of a client that has connected, on an open and on a closed
-- descriptor.
use mathlib.Core.List.{Permᴰ}
use mathlib.Core.List.Permᴰ
use piupiu.Common.{
  ℕ, ◌≡◌, ◌≢◌, refl, inl, inr, false, List, [], ◌∷◌, ◌++◌, length, leb, ok, All, All-append, arith,
  Bool-cases,
}
use piupiu.Messaging.{Packet, next_seqn}
use piupiu.Client.{
  Client, Descriptor, unset, closed, opened, send_message_to_server, shutdown, follow_user, post,
  get_info,
}
use piupiu.Client.Packets.{
  IsWelcome, disconnect_packet, follow_packet, send_packet, info_packet, next_seqn_wide,
}
use piupiu.Client.Protocol.{Command, connect_to, follow_name, post_text, ask_info, leave, issue}
use piupiu.Client.Life.{
  IsClient, Leads, told, IsOrdinary, follows, posts, asks, leaves, listening_after,
}

-- A packet of the client's own is sent on an open descriptor, and dropped on a closed one.
pub send_kept :
    (c : Client) (p : Packet)
    → c.descriptor ≢ unset
    → All IsWelcome c.sent
    → IsWelcome p
    → (l : List Packet) × (send_message_to_server c p ≡ ok (record c { sent = l }))
      × All IsWelcome l
unfolding send_message_to_server
send_kept c p socket sent welcome = on_descriptor c.descriptor refl
  where
    on_descriptor :
        (d : Descriptor)
        → c.descriptor ≡ d
        → (l : List Packet) × (send_message_to_server c p ≡ ok (record c { sent = l }))
          × All IsWelcome l
    on_descriptor unset e = absurd (socket e)
    on_descriptor closed e = (c.sent, ground (arith, e), sent)
    on_descriptor opened e = (
      c.sent ++ p ∷ [],
      ground (arith, e),
      All-append IsWelcome c.sent (p ∷ []) sent (welcome, tt),
    )

pub nothing_new : (c : Client) → Permᴰ (told c) (told c ++ [])
nothing_new c = Permᴰ.symm (Permᴰ.append-nil (told c))

-- A command that sent leaves the rest alone.
pub Leads-sent :
    (c : Client) (l : List Packet) (n : ℕ)
    → IsClient c
    → All IsWelcome l
    → Leads c c.is_listening [] (record c { sent = l; last_sent_seqn = n })
Leads-sent c l n v h = record {
  client = record {
    socket = v.socket;
    handle = v.handle;
    short = v.short;
    texts = v.texts;
    welcome = h;
  };
  handler = refl;
  listens = refl;
  tells = nothing_new c;
}

pub shutdown-Leads :
    (c : Client) (now : ℕ)
    → IsClient c
    → (c' : Client) × (shutdown c now ≡ ok c') × Leads c false [] c'
unfolding shutdown
shutdown-Leads c now v =
    let (p, made, (seqn, welcome)) =
      disconnect_packet (next_seqn c.last_sent_seqn) now c.profile_handle (next_seqn_wide _)
        v.handle v.short in
    let (l, sent, all) =
      send_kept (record c { last_sent_seqn = next_seqn c.last_sent_seqn }) p v.socket v.welcome
        welcome in
    (
      record c {
        last_sent_seqn = next_seqn c.last_sent_seqn;
        sent = l;
        descriptor = closed;
        is_listening = false;
      },
      rw (made, sent) refl,
      record {
        client = record {
          socket = λ e. cc;
          handle = v.handle;
          short = v.short;
          texts = v.texts;
          welcome = all;
        };
        handler = refl;
        listens = refl;
        tells = nothing_new c;
      },
    )

pub command-Leads :
    (c : Client) (x : Command) (now : ℕ)
    → IsClient c
    → IsOrdinary x
    → (c' : Client) × (issue c x now ≡ ok c') × Leads c (listening_after x c.is_listening) [] c'
unfolding issue follow_user post get_info
command-Leads c (connect_to handle) now v x = elim x [ ]
command-Leads c (follow_name handle) now v (follows handle' text short) =
    let (p, made, (seqn, welcome)) =
      follow_packet (next_seqn c.last_sent_seqn) now handle (next_seqn_wide _) text short in
    let n = next_seqn c.last_sent_seqn in
    let (l, sent, all) = send_kept (record c { last_sent_seqn = n }) p v.socket v.welcome welcome in
    (record c { sent = l; last_sent_seqn = n }, rw (made, sent) refl, Leads-sent c l n v all)
command-Leads c (post_text text) now v (posts text' is_text) =
    elim (Bool-cases (leb (length text) 128)) [
      | inl small ↦
          let n = next_seqn c.last_sent_seqn in
          let (p, made, (seqn, welcome)) =
            send_packet n now text (next_seqn_wide _) is_text (ground (arith, small)) in
          let (l, sent, all) =
            send_kept (record c { last_sent_seqn = n }) p v.socket v.welcome welcome in
          (
            record c { sent = l; last_sent_seqn = n },
            rw (small, made, sent) refl,
            Leads-sent c l n v all,
          )
      | inr large ↦ (c, rw large refl, Leads-sent c c.sent c.last_sent_seqn v v.welcome)
    ]
command-Leads c ask_info now v asks =
    let n = next_seqn c.last_sent_seqn in
    let (p, made, (seqn, welcome)) = info_packet n now (next_seqn_wide _) in
    let (l, sent, all) = send_kept (record c { last_sent_seqn = n }) p v.socket v.welcome welcome in
    (record c { sent = l; last_sent_seqn = n }, ground (arith, made, sent), Leads-sent c l n v all)
command-Leads c leave now v leaves = shutdown-Leads c now v
