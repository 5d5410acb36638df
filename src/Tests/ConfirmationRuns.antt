-- ===== src/Tests/ConfirmationRuns.antt =====
-- source/client/confirmation-buffer.hpp on concrete inputs.
use piupiu.Common.{ℕ, ◌≡◌, refl, true, ◌&&◌, List, [], ◌∷◌, ◌++◌, map, inl, Member}
use piupiu.Messaging.{Packet}
use piupiu.Messaging.Kind
use piupiu.Confirmation.{
  BaseMessage, ConfirmableItem, ConfirmableContainer, Buffer, push, confirm, container_confirmed,
}
use piupiu.Confirmation.Progress.{confirm_all, contains, push_completes}
use piupiu.Tests.{alice, home, packet}

abbrev pub hello : Packet
hello = packet Kind.connect_cmd 2 alice

abbrev base_message : ℕ → BaseMessage
base_message n = record { sequence_number = n; packet = hello }

abbrev three : List BaseMessage
three = base_message 0 ∷ base_message 1 ∷ base_message 2 ∷ []

abbrev pending : Buffer
pending = push [] three 2 home

push_completes_example :
    (c : ConfirmableContainer) × (confirm_all
        (push pending (base_message 3 ∷ base_message 4 ∷ base_message 5 ∷ []) 7 home)
        (4 ∷ 3 ∷ [])
      ≡ confirm_all pending (4 ∷ 3 ∷ []) ++ c ∷ [])
    × (c.original_seqn ≡ 7)
    × (c.original_host ≡ home)
    × (map (λ i. i.item) c.content ≡ base_message 3 ∷ base_message 4 ∷ base_message 5 ∷ [])
    × (container_confirmed c
        ≡ (contains 3 (4 ∷ 3 ∷ []) && contains 4 (4 ∷ 3 ∷ []) && contains 5 (4 ∷ 3 ∷ [])))
push_completes_example =
    push_completes pending (base_message 3) (base_message 4) (base_message 5) 7 home (4 ∷ 3 ∷ [])

-- A group whose messages are all confirmed
abbrev finished : ConfirmableContainer
finished = record {
  content =
      record { item = base_message 0; confirmed = true }
      ∷ record { item = base_message 1; confirmed = true }
      ∷ record { item = base_message 2; confirmed = true }
      ∷ [];
  original_seqn = 2;
  original_host = home;
}

finished_fires : Member finished (confirm (finished ∷ []) 0).fired
unfolding confirm container_confirmed piupiu.Confirmation.all_confirmed
    piupiu.Confirmation.confirm_container piupiu.Confirmation.confirm_items
finished_fires = inl refl
