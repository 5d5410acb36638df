-- ===== src/Client/Reorder.antt =====
-- source/client/client.cpp, `Reorder`: the notifications that have arrived are handed over.
use mathlib.Core.List.{Permᴰ, append-nil, append_assoc}
use piupiu.Common.{
  ◌≡◌, subst, inl, inr, List, [], ◌∷◌, ◌++◌, map, Bytes, if◌then◌else◌, ok, All, arith, Bool-cases,
  from_c_array, c_str,
}
use piupiu.Messaging.{Packet}
use piupiu.Client.{Client, MessageType, notification, hand_over_all, reorder}

-- A payload that ends
abbrev pub HasText : Packet → Type 0
HasText p = from_c_array p.payload ≡ ok (c_str p.payload)

-- What the handler gets for a notification
abbrev pub handed : Packet → Bytes × MessageType
handed p = (c_str p.payload, notification)

All-Permᴰ : (l m : List Packet) → Permᴰ l m → All HasText l → All HasText m
All-Permᴰ l m Permᴰ.nil h = tt
All-Permᴰ (x ∷ l) (y ∷ m) (Permᴰ.cons e d) h = (subst HasText e h.0, All-Permᴰ _ _ d h.1)
All-Permᴰ (a ∷ b ∷ l) (a' ∷ b' ∷ _) (Permᴰ.swap e f) h =
    (subst HasText f h.1.0, (subst HasText e h.0, h.1.1))
All-Permᴰ l m (Permᴰ.trans d e) h = All-Permᴰ _ m e (All-Permᴰ l _ d h)

-- A list of packets is handed over in its order, or to nobody.
hand_over_all_lem :
    (c : Client) (ps : List Packet)
    → All HasText ps
    → hand_over_all c ps
      ≡ ok (if c.has_handler then record c { messages = c.messages ++ map handed ps } else c)
unfolding hand_over_all
hand_over_all_lem c [] h = elim (Bool-cases c.has_handler) [
  | inl e ↦ ground (arith, e, append-nil c.messages)
  | inr e ↦ ground (arith, e)
]
hand_over_all_lem c (p ∷ ps) h = elim (Bool-cases c.has_handler) [
  | inl e ↦ ground (
    arith,
    h.0,
    e,
    hand_over_all_lem (record c { messages = c.messages ++ handed p ∷ [] }) ps h.1,
    append_assoc c.messages (handed p ∷ []) (map handed ps),
  )
  | inr e ↦ ground (arith, h.0, e, hand_over_all_lem c ps h.1)
]

-- Where every payload ends, and `std::sort` returns a permutation of the packets that have arrived, a
-- round never fails: it hands the text of each of them to the handler once, in the order that the sort
-- gave, or drops them if there is no handler, and leaves no packet.
pub reorder_lem :
    (sort : List Packet → List Packet) (c : Client)
    → Permᴰ c.packet_list (sort c.packet_list)
    → All HasText c.packet_list
    → reorder sort c
      ≡ ok (
          if c.has_handler
          then record c {
            messages = c.messages ++ map handed (sort c.packet_list);
            packet_list = [];
          }
          else record c { packet_list = [] })
unfolding reorder
reorder_lem sort c permuted texts = elim (Bool-cases c.has_handler) [
  | inl e ↦
      ground (arith, e, hand_over_all_lem c (sort c.packet_list) (All-Permᴰ _ _ permuted texts))
  | inr e ↦
      ground (arith, e, hand_over_all_lem c (sort c.packet_list) (All-Permᴰ _ _ permuted texts))
]
