-- ===== src/Tests/ClientRuns.antt =====
-- source/client/client.cpp on concrete inputs.
use mathlib.Core.List.{Permᴰ}
use mathlib.Core.List.Permᴰ
use piupiu.Common.{
  inl, inr, Bool-cases, Bytes, ℕ, ◌≡◌, refl, Bool, true, false, List, [], ◌∷◌, ◌++◌, map, codes,
  pos, leb, if◌then◌else◌, Result, ok, arith, All,
}
use piupiu.Messaging.{Packet}
use piupiu.Messaging.Kind
use piupiu.Client.{Client, opened, new_client, rtrim, trim_copy}
use piupiu.Client.Protocol.{post_text}
use piupiu.Messaging.Memory.{IsPacket, bytes_of}
use piupiu.Replicas.Arrivals.{datagram, failure}
use piupiu.Client.{error}
use piupiu.Client.Protocol.{leave}
use piupiu.Client.Life.{Happening, command, arrives, sorts, live, IsClient, posts, leaves}
use piupiu.Client.Life.History.{Life, over, commanded, sorted, heard, unheard, lost, life_told}
use piupiu.Client.Reorder.{handed}
use piupiu.Tests.{alice, home, text, packet, packet-IsPacket, blank_memory, length-blank_memory}

-- A client that has connected, with two notifications that arrived in the wrong order
abbrev pub late : Packet
late = packet Kind.notification 8 (codes "tchau")

abbrev pub early : Packet
early = packet Kind.notification 7 (codes "oi")

abbrev online : Client
online = record {
  profile_handle = alice;
  server_address = codes "10.0.0.1";
  server_port = pos 5000;
  descriptor = opened;
  last_sent_seqn = 1;
  connected = true;
  is_listening = true;
  has_handler = true;
  has_threads = true;
  packet_list = late ∷ early ∷ [];
  sent = [];
  messages = [];
}

-- Insertion sort by number
abbrev insert : Packet → List Packet → List Packet
insert p [] = p ∷ []
insert p (q ∷ qs) = if leb p.seqn q.seqn then p ∷ q ∷ qs else q ∷ insert p qs

abbrev pub insertion_sort : List Packet → List Packet
insertion_sort [] = []
insertion_sort (p ∷ ps) = insert p (insertion_sort ps)

-- The handle of a new client is trimmed.
trimmed : (new_client (codes "  alice ") (codes "10.0.0.1") (pos 5000)).profile_handle ≡ alice
unfolding new_client trim_copy rtrim piupiu.Common.skip_space piupiu.Common.is_space
trimmed = refl

-- A client without news, which posts, hears two notifications in the wrong order and an error, sorts, and
-- leaves; a notification that arrives then is still heard, and the next one by nobody.
abbrev idle : Client
idle = record online { packet_list = [] }

abbrev refusal : Packet
refusal = packet Kind.error 9 (codes "nao")

abbrev lived : List (Happening × ℕ)
lived =
    (command (post_text (codes "oi")), 1)
    ∷ (arrives (datagram (bytes_of 0 0 late) home), 2)
    ∷ (arrives failure, 3)
    ∷ (arrives (datagram (bytes_of 0 0 early) home), 4)
    ∷ (sorts, 5)
    ∷ (arrives (datagram (bytes_of 0 0 refusal) home), 6)
    ∷ (command leave, 7)
    ∷ (arrives (datagram (bytes_of 0 0 early) home), 8)
    ∷ (arrives (datagram (bytes_of 0 0 late) home), 8)
    ∷ []

pub late-IsPacket : IsPacket late
late-IsPacket = packet-IsPacket _ _ (codes "tchau") (omega arith) (omega arith) (omega arith)

pub early-IsPacket : IsPacket early
early-IsPacket = packet-IsPacket _ _ (codes "oi") (omega arith) (omega arith) (omega arith)

refusal-IsPacket : IsPacket refusal
refusal-IsPacket = packet-IsPacket _ _ (codes "nao") (omega arith) (omega arith) (omega arith)

idle-IsClient : IsClient idle
idle-IsClient = record {
  socket = λ e. cc;
  handle = text alice refl;
  short = omega arith;
  texts = tt;
  welcome = tt;
}

lived-Life :
    Life true true lived (handed late ∷ handed early ∷ (codes "nao", error) ∷ handed early ∷ [])
unfolding piupiu.Common.from_c_array piupiu.Common.c_str
lived-Life = commanded (post_text (codes "oi")) 1 (posts (codes "oi") (text (codes "oi") refl)) (
    heard 0 0 late home 2 late-IsPacket refl refl (
      lost 3 refl (
        heard 0 0 early home 4 early-IsPacket refl refl (
          sorted 5 (
            heard 0 0 refusal home 6 refusal-IsPacket refl refl (
              commanded leave 7 leaves
                (heard 0 0 early home 8 early-IsPacket refl refl (unheard _ 8 refl over))))))))

insert_permutes : (p : Packet) (l : List Packet) → Permᴰ (p ∷ l) (insert p l)
insert_permutes p [] = Permᴰ.cons refl Permᴰ.nil
insert_permutes p (q ∷ l) = elim (Bool-cases (leb p.seqn q.seqn)) [
  | inl e ↦ rw e (Permᴰ.refl (p ∷ q ∷ l))
  | inr e ↦ rw e (Permᴰ.trans (Permᴰ.swap refl refl) (Permᴰ.cons refl (insert_permutes p l)))
]

pub insertion_permutes : (l : List Packet) → Permᴰ l (insertion_sort l)
insertion_permutes [] = Permᴰ.nil
insertion_permutes (p ∷ l) =
    Permᴰ.trans (Permᴰ.cons refl (insertion_permutes l)) (insert_permutes p (insertion_sort l))

life_told_example :
    (c' : Client) × (memory' : Bytes) × (w' : Bool) × (live insertion_sort idle blank_memory true
        (lived ++ (sorts, 9) ∷ [])
      ≡ ok (c', memory', w'))
    × IsClient c'
    × Permᴰ c'.messages (handed late ∷ handed early ∷ (codes "nao", error) ∷ handed early ∷ [])
life_told_example =
    life_told insertion_sort insertion_permutes idle blank_memory true lived _ 9 idle-IsClient refl
      length-blank_memory lived-Life
