-- ===== src/Client/Life/Told.antt =====
-- source/client/client.cpp: what the user of a client is told in its life.
use mathlib.Core.List.{Permᴰ, append_assoc, map-append}
use mathlib.Core.List.Permᴰ
use piupiu.Common.{
  ◌&&◌, ℕ, ◌≡◌, refl, inl, inr, Bool, true, false, List, [], ◌∷◌, ◌++◌, map, Bytes, ◌==◌, ok,
  All-append, arith, Bool-cases, c_str,
}
use piupiu.Messaging.Kind
use piupiu.Messaging.{Packet}
use piupiu.Client.{Client, MessageType, error, info, hand_over, listen}
use piupiu.Client.Reorder.{HasText, handed}
use piupiu.Client.Life.{IsClient, Leads, told, news, goes_on}
use piupiu.Client.Life.Commands.{shutdown-Leads, nothing_new}

-- One thing more that was handed over
tells_one :
    (messages list : List (Bytes × MessageType)) (x : Bytes × MessageType)
    → Permᴰ ((messages ++ x ∷ []) ++ list) ((messages ++ list) ++ x ∷ [])
tells_one messages list x =
    rw (append_assoc messages (x ∷ []) list, append_assoc messages list (x ∷ []))
      (Permᴰ.append_left messages (Permᴰ.append_comm (x ∷ []) list))

hand_over-Leads :
    {b : Bool} (c : Client) (p : Packet) (type : MessageType)
    → IsClient c
    → HasText p
    → c.has_handler ≡ true
    → c.is_listening ≡ b
    → (c' : Client) × (hand_over c p type ≡ ok c') × Leads c b ((c_str p.payload, type) ∷ []) c'
unfolding hand_over
hand_over-Leads c p type v text handler listens = (
  record c { messages = c.messages ++ (c_str p.payload, type) ∷ [] },
  ground (arith, handler, text),
  record {
    client = record {
      socket = v.socket;
      handle = v.handle;
      short = v.short;
      texts = v.texts;
      welcome = v.welcome;
    };
    handler = refl;
    listens = listens;
    tells = tells_one c.messages (map handed c.packet_list) (c_str p.payload, type);
  },
)

notice-Leads :
    {b : Bool} (c : Client) (p : Packet)
    → IsClient c
    → HasText p
    → c.is_listening ≡ b
    → Leads c b (handed p ∷ []) (record c { packet_list = c.packet_list ++ p ∷ [] })
notice-Leads c p v text listens = record {
  client = record {
    socket = v.socket;
    handle = v.handle;
    short = v.short;
    texts = All-append HasText c.packet_list (p ∷ []) v.texts (text, tt);
    welcome = v.welcome;
  };
  handler = refl;
  listens = listens;
  tells =
      rw (map-append handed c.packet_list (p ∷ []), ← append_assoc)
        (Permᴰ.refl (told c ++ handed p ∷ []));
}

accept-Leads :
    {b : Bool} (c : Client)
    → IsClient c
    → c.is_listening ≡ b
    → Leads c b [] (record c { connected = true })
accept-Leads c v listens = record {
  client = record {
    socket = v.socket;
    handle = v.handle;
    short = v.short;
    texts = v.texts;
    welcome = v.welcome;
  };
  handler = refl;
  listens = listens;
  tells = nothing_new c;
}

-- What a packet leads to, from what its kind does
by_kind :
    (b : Bool) (c : Client) (p : Packet) (now : ℕ) (on : Bool) (ns : List (Bytes × MessageType))
    → goes_on p ≡ on
    → news p ≡ ns
    → (c' : Client) × (listen c p now ≡ ok c') × Leads c (on && b) ns c'
    → (c' : Client) × (listen c p now ≡ ok c') × Leads c (goes_on p && b) (news p) c'
by_kind b c p now on ns goes new (c', ran, leads) = (c', ran, rw (goes, new) leads)

pub listen-Leads :
    {b : Bool} (c : Client) (p : Packet) (now : ℕ)
    → IsClient c
    → HasText p
    → c.has_handler ≡ true
    → c.is_listening ≡ b
    → (c' : Client) × (listen c p now ≡ ok c') × Leads c (goes_on p && b) (news p) c'
unfolding listen
listen-Leads {b} c p now v text handler listens =
    elim (Bool-cases (p.type == Kind.accept_conn_cmd)) [
      | inl e ↦
          by_kind b c p now true [] (ground (arith, e)) (ground (arith, e))
            (record c { connected = true }, rw e refl, accept-Leads c v listens)
      | inr e0 ↦ elim (Bool-cases (p.type == Kind.reject_conn_cmd)) [
        | inl e ↦
            let (c', ran, leads) = shutdown-Leads c now v in
            by_kind b c p now false [] (ground (arith, e)) (ground (arith, e))
              (c', rw (e0, e) ran, leads)
        | inr e1 ↦ elim (Bool-cases (p.type == Kind.notification)) [
          | inl e ↦ by_kind b c p now true (handed p ∷ []) (ground (arith, e)) (ground (arith, e)) (
            record c { packet_list = c.packet_list ++ p ∷ [] },
            rw (e0, e1, e) refl,
            notice-Leads c p v text listens,
          )
          | inr e2 ↦ elim (Bool-cases (p.type == Kind.error)) [
            | inl e ↦
                let (c', ran, leads) = hand_over-Leads c p error v text handler listens in
                by_kind b c p now true ((c_str p.payload, error) ∷ []) (ground (arith, e))
                  (ground (arith, e)) (c', rw (e0, e1, e2, e) ran, leads)
            | inr e3 ↦ elim (Bool-cases (p.type == Kind.info)) [
              | inl e ↦
                  let (c', ran, leads) = hand_over-Leads c p info v text handler listens in
                  by_kind b c p now true ((c_str p.payload, info) ∷ []) (ground (arith, e))
                    (ground (arith, e)) (c', rw (e0, e1, e2, e3, e) ran, leads)
              | inr e4 ↦
                  let (c', ran, leads) = shutdown-Leads c now v in
                  by_kind b c p now false [] (ground (arith, e0, e2, e3, e4))
                    (ground (arith, e2, e3, e4)) (c', rw (e0, e1, e2, e3, e4) ran, leads)
            ]
          ]
        ]
      ]
    ]
