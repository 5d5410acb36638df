-- ===== src/Client/Life/History.antt =====
-- source/client/client.cpp: the whole life of a client that has connected.
use mathlib.Core.List.{Permᴰ, append_assoc, append-nil}
use mathlib.Core.List.Permᴰ
use piupiu.Common.{
  ◌&&◌, ℕ, ◌≡◌, refl, ap, ◌∙◌, Bool, true, false, List, [], ◌∷◌, ◌++◌, map, Bytes, length, ok,
  >>=-eq-ok, arith,
}
use piupiu.Messaging.{Packet}
use piupiu.Messaging.Memory.{IsPacket, packet_size, bytes_of}
use piupiu.Sessions.{SocketAddress}
use piupiu.Replicas.Arrivals.{Arrival, datagram, failure}
use piupiu.Client.{Client, MessageType, reorder}
use piupiu.Client.Protocol.{Command}
use piupiu.Client.Reorder.{HasText, handed, reorder_lem}
use piupiu.Client.Listening.{
  hear-on, hear-off, listen_round-failure, listen_round-empty, listen_round-whole,
}
use piupiu.Client.Life.{
  Happening, command, arrives, sorts, happen, live, IsClient, Leads, told, news, goes_on,
  IsOrdinary, listening_after,
}
use piupiu.Client.Life.Commands.{command-Leads, nothing_new, Leads-sent}
use piupiu.Client.Life.Told.{listen-Leads}

-- A round of `Reorder` hands over what waits.
reorder-Leads :
    (sort : List Packet → List Packet) (c : Client)
    → Permᴰ c.packet_list (sort c.packet_list)
    → IsClient c
    → c.has_handler ≡ true
    → (c' : Client) × (reorder sort c ≡ ok c')
      × Leads c c.is_listening [] c'
      × (c'.packet_list ≡ [])
reorder-Leads sort c permuted v handler =
    let c' : Client = record c {
      messages = c.messages ++ map handed (sort c.packet_list);
      packet_list = [];
    } in
    (
      c',
      reorder_lem sort c permuted v.texts ∙ rw handler refl,
      record {
        client = record {
          socket = v.socket;
          handle = v.handle;
          short = v.short;
          texts = tt;
          welcome = v.welcome;
        };
        handler = refl;
        listens = refl;
        tells = Permᴰ.trans (Permᴰ.append-nil c'.messages) (
            Permᴰ.trans (Permᴰ.append_left c.messages (Permᴰ.map handed (Permᴰ.symm permuted)))
              (nothing_new c));
      },
      refl,
    )

-- A life, from whether the loop of `Listen` waits and whether the client listens: what happens in
-- it, and the news in it. A packet comes whole and with a payload that ends. It is heard where the
-- loop waits, also the first one behind the end of listening; errors, empty datagrams, and whatever
-- arrives when the loop has ended are no news.
pub data Life : Bool → Bool → List (Happening × ℕ) → List (Bytes × MessageType) → Type 0 where
  over : {waiting listening : Bool} → Life waiting listening [] []
  commanded :
      {waiting listening : Bool} {hs : List (Happening × ℕ)} {ns : List (Bytes × MessageType)}
      (x : Command) (now : ℕ)
      → IsOrdinary x
      → Life waiting (listening_after x listening) hs ns
      → Life waiting listening ((command x, now) ∷ hs) ns
  sorted :
      {waiting listening : Bool} {hs : List (Happening × ℕ)} {ns : List (Bytes × MessageType)}
      (now : ℕ)
      → Life waiting listening hs ns
      → Life waiting listening ((sorts, now) ∷ hs) ns
  heard :
      {waiting listening : Bool} {hs : List (Happening × ℕ)} {ns : List (Bytes × MessageType)}
      (padding0 padding1 : ℕ) (p : Packet) (from : SocketAddress) (now : ℕ)
      → IsPacket p
      → HasText p
      → waiting ≡ true
      → Life (goes_on p && listening) (goes_on p && listening) hs ns
      → Life waiting listening
          ((arrives (datagram (bytes_of padding0 padding1 p) from), now) ∷ hs)
          (news p ++ ns)
  unheard :
      {waiting listening : Bool} {hs : List (Happening × ℕ)} {ns : List (Bytes × MessageType)}
      (a : Arrival) (now : ℕ)
      → waiting ≡ false
      → Life false listening hs ns
      → Life waiting listening ((arrives a, now) ∷ hs) ns
  lost :
      {waiting listening : Bool} {hs : List (Happening × ℕ)} {ns : List (Bytes × MessageType)}
      (now : ℕ)
      → waiting ≡ true
      → Life listening listening hs ns
      → Life waiting listening ((arrives failure, now) ∷ hs) ns
  empty :
      {waiting listening : Bool} {hs : List (Happening × ℕ)} {ns : List (Bytes × MessageType)}
      (from : SocketAddress) (now : ℕ)
      → waiting ≡ true
      → Life listening listening hs ns
      → Life waiting listening ((arrives (datagram [] from), now) ∷ hs) ns

-- Two steps, one behind the other
tells_more :
    (a b d : List (Bytes × MessageType)) (n m : List (Bytes × MessageType))
    → Permᴰ b (a ++ n)
    → Permᴰ d (b ++ m)
    → Permᴰ d (a ++ (n ++ m))
tells_more a b d n m first second =
    rw (← append_assoc a n m) (Permᴰ.trans second (Permᴰ.append_right m first))

module _ (sort : List Packet → List Packet) (permutes : (l : List Packet) → Permᴰ l (sort l)) where
  -- Where a life leads
  record Lived (c : Client) (memory : Bytes) (w : Bool) (hs : List (Happening × ℕ))
      (ns : List (Bytes × MessageType)) (c' : Client) (memory' : Bytes) (w' : Bool) : Type 0 where
    ran : live sort c memory w hs ≡ ok (c', memory', w')
    client : IsClient c'
    handler : c'.has_handler ≡ true
    tells : Permᴰ (told c') (told c ++ ns)

  abbrev Lives : Client → Bytes → Bool → List (Happening × ℕ) → List (Bytes × MessageType) → Type 0
  Lives c memory w hs ns =
      (c' : Client) × (memory' : Bytes) × (w' : Bool) × Lived c memory w hs ns c' memory' w'

  -- A step, and the life behind it
  then_Lived :
      (c c1 : Client) (memory memory1 : Bytes) (w w1 : Bool) (h : Happening) (now : ℕ)
      (hs : List (Happening × ℕ)) (b : Bool) (n ns : List (Bytes × MessageType))
      → happen sort c memory w h now ≡ ok (c1, memory1, w1)
      → Leads c b n c1
      → Lives c1 memory1 w1 hs ns
      → Lives c memory w ((h, now) ∷ hs) (n ++ ns)
  unfolding live
  then_Lived c c1 memory memory1 w w1 h now hs b n ns ran leads (c', memory', w', later) = (
    c',
    memory',
    w',
    record {
      ran = rw ran later.ran;
      client = later.client;
      handler = later.handler;
      tells = tells_more (told c) (told c1) (told c') n ns leads.tells later.tells;
    },
  )

  life_lem :
      {w listening : Bool} {hs : List (Happening × ℕ)} {ns : List (Bytes × MessageType)}
      (c : Client) (memory : Bytes)
      → Life w listening hs ns
      → IsClient c
      → c.has_handler ≡ true
      → c.is_listening ≡ listening
      → length memory ≡ packet_size
      → Lives c memory w hs ns
  unfolding live happen
  life_lem c memory (over {waiting = w}) v handler listens size =
      (c, memory, w, record { ran = refl; client = v; handler = handler; tells = nothing_new c })
  life_lem c memory
        (commanded {waiting = w} {listening = listening} {hs = hs} {ns = ns} x now usable rest) v
        handler listens size =
      let (c1, ran, leads) = command-Leads c x now v usable in
      then_Lived c c1 memory memory w w (command x) now hs _ [] ns (rw ran refl) leads (
        life_lem c1 memory rest leads.client (leads.handler ∙ handler)
          (leads.listens ∙ ap (listening_after x) listens) size)
  life_lem c memory (sorted {waiting = w} {listening = listening} {hs = hs} {ns = ns} now rest) v
        handler listens size =
      let (c1, ran, leads, _) = reorder-Leads sort c (permutes c.packet_list) v handler in
      then_Lived c c1 memory memory w w sorts now hs _ [] ns (rw ran refl) leads (
        life_lem c1 memory rest leads.client (leads.handler ∙ handler) (leads.listens ∙ listens)
          size)
  life_lem c memory
        (heard {waiting = w} {listening = listening} {hs = hs} {ns = ns} padding0 padding1 p from
          now fits text on rest)
        v handler listens size =
      let (c1, ran, leads) = listen-Leads c p now v text handler listens in
      let (after, kept, round) =
        listen_round-whole c memory padding0 padding1 p from now size fits in
      let heard_as =
        hear-on c c1 memory after w (datagram (bytes_of padding0 padding1 p) from) now on
          (round ∙ rw ran refl) in
      then_Lived c c1 memory after w (goes_on p && listening)
        (arrives (datagram (bytes_of padding0 padding1 p) from)) now hs _ (news p) ns
        (heard_as ∙ ap (λ (b : Bool). ok (c1, after, b)) leads.listens) leads
        (life_lem c1 after rest leads.client (leads.handler ∙ handler) leads.listens kept)
  life_lem c memory
        (unheard {waiting = w} {listening = listening} {hs = hs} {ns = ns} a now off rest) v handler
        listens size =
      then_Lived c c memory memory w false (arrives a) now hs _ [] ns
        (hear-off c memory w a now off) (Leads-sent c c.sent c.last_sent_seqn v v.welcome)
        (life_lem c memory rest v handler listens size)
  life_lem c memory (lost {waiting = w} {listening = listening} {hs = hs} {ns = ns} now on rest) v
        handler listens size =
      let heard_as =
        hear-on c c memory memory w failure now on (listen_round-failure c memory now) in
      then_Lived c c memory memory w listening (arrives failure) now hs _ [] ns
        (heard_as ∙ ap (λ (b : Bool). ok (c, memory, b)) listens)
        (Leads-sent c c.sent c.last_sent_seqn v v.welcome)
        (life_lem c memory rest v handler listens size)
  life_lem c memory
        (empty {waiting = w} {listening = listening} {hs = hs} {ns = ns} from now on rest) v handler
        listens size =
      let heard_as =
        hear-on c c memory memory w (datagram [] from) now on
          (listen_round-empty c memory from now) in
      then_Lived c c memory memory w listening (arrives (datagram [] from)) now hs _ [] ns
        (heard_as ∙ ap (λ (b : Bool). ok (c, memory, b)) listens)
        (Leads-sent c c.sent c.last_sent_seqn v v.welcome)
        (life_lem c memory rest v handler listens size)

  -- A last round of `Reorder`
  live-last :
      (c : Client) (memory : Bytes) (w : Bool) (hs : List (Happening × ℕ)) (now : ℕ)
      (c1 c2 : Client) (memory1 : Bytes) (w1 : Bool)
      → live sort c memory w hs ≡ ok (c1, memory1, w1)
      → reorder sort c1 ≡ ok c2
      → live sort c memory w (hs ++ (sorts, now) ∷ []) ≡ ok (c2, memory1, w1)
  unfolding live happen
  live-last c memory w [] now c1 c2 memory1 w1 ran last =
      let client : c ≡ c1 = ground (arith, ran) in
      let bytes : memory ≡ memory1 = ground (arith, ran) in
      let place : w ≡ w1 = ground (arith, ran) in rw (client, bytes, place) (rw last refl)
  live-last c memory w ((g, time) ∷ hs) now c1 c2 memory1 w1 ran last =
      let (r, first, later) =
        >>=-eq-ok (happen sort c memory w g time)
          (λ (r : Client × Bytes × Bool). live sort r.0 r.1 r.2 hs) ran in
      rw first (live-last r.0 r.1 r.2 hs now c1 c2 memory1 w1 later last)

  -- Where std::sort permutes, no life of a client that has connected, with a message handler, ends in a
  -- fault: names and the client's own handle have at most 380 bytes, no text has a NUL, and what arrives
  -- while the loop of `Listen` waits is a whole packet whose payload ends, an error or an empty datagram.
  -- All that it sent are packets that every server under its invariant handles. Behind a last round of
  -- `Reorder` the handler has been called with the news of that life, each once, after what it was called
  -- with before and what waited, in some order, and with nothing else. The first packet behind the end of
  -- listening is news, and what arrives after that is not.
  pub life_told :
      (c : Client) (memory : Bytes) (w : Bool) (hs : List (Happening × ℕ))
      (ns : List (Bytes × MessageType)) (now : ℕ)
      → IsClient c
      → c.has_handler ≡ true
      → length memory ≡ packet_size
      → Life w c.is_listening hs ns
      → (c' : Client) × (memory' : Bytes) × (w' : Bool) × (live sort c memory w
            (hs ++ (sorts, now) ∷ [])
          ≡ ok (c', memory', w'))
        × IsClient c'
        × Permᴰ c'.messages (told c ++ ns)
  life_told c memory w hs ns now v handler size life =
      let (c1, memory1, w1, lived) = life_lem c memory life v handler refl size in
      let (c2, ran, leads, none_left) =
        reorder-Leads sort c1 (permutes c1.packet_list) lived.client lived.handler in
      let all : told c2 ≡ c2.messages = rw none_left (append-nil c2.messages) in
      let both = tells_more (told c) (told c1) (told c2) ns [] lived.tells leads.tells in
      (
        c2,
        memory1,
        w1,
        live-last c memory w hs now c1 c2 memory1 w1 lived.ran ran,
        leads.client,
        rw (all, append-nil ns) at both,
      )
