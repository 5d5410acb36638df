-- ===== src/Confirmation.antt =====
-- source/client/confirmation-buffer.hpp: groups of N messages that wait for N confirmations. A
-- `BaseMessage*` is held by one item only and never written, so an item holds the message itself. An
-- `std::array` of N items is a list; the callback is the caller's, who is handed the groups that
-- `confirm` calls it on, in order.
pub mod Progress
use piupiu.Common.{
  ℕ, suc, ◌+◌, Bool, true, false, ◌&&◌, List, [], ◌∷◌, ◌++◌, map, ◌==◌, if◌then◌else◌,
}
use piupiu.Messaging.{Packet}
use piupiu.Sessions.{SocketAddress}

pub record BaseMessage : Type 0 where
  pub sequence_number : ℕ
  pub packet : Packet

pub record ConfirmableItem : Type 0 where
  pub item : BaseMessage
  pub confirmed : Bool

pub record ConfirmableContainer : Type 0 where
  pub content : List ConfirmableItem
  pub original_seqn : ℕ
  pub original_host : SocketAddress

abbrev pub Buffer : Type 0
Buffer = List ConfirmableContainer

abbrev pub fresh_item : BaseMessage → ConfirmableItem
fresh_item message = record { item = message; confirmed = false }

-- The three-argument `Push`; `emplace_back` puts the group at the end.
unfoldable pub push : Buffer → List BaseMessage → ℕ → SocketAddress → Buffer
push buffer items original_seqn address =
    buffer
    ++ record {
      content = map fresh_item items;
      original_seqn = original_seqn;
      original_host = address;
    }
      ∷ []

-- The two shorter overloads of `Push`, which nothing calls: a group has the number 0 and the host
-- that the default constructor leaves, whose port is not set.
unfoldable pub push_items : Buffer → List BaseMessage → SocketAddress → Buffer
push_items buffer items unset =
    buffer
    ++ record { content = map fresh_item items; original_seqn = 0; original_host = unset } ∷ []

unfoldable pub push_numbered : Buffer → List BaseMessage → ℕ → SocketAddress → Buffer
push_numbered buffer items original_seqn unset =
    buffer
    ++ record {
      content = map fresh_item items;
      original_seqn = original_seqn;
      original_host = unset;
    }
      ∷ []

-- `item.Confirm()` for the items with this number
unfoldable pub confirm_items : ℕ → List ConfirmableItem → List ConfirmableItem
confirm_items seqn [] = []
confirm_items seqn (i ∷ is) =
    (if i.item.sequence_number == seqn then record i { confirmed = true } else i)
    ∷ confirm_items seqn is

-- `confirmed++` for the items with this number
unfoldable pub count_items : ℕ → List ConfirmableItem → ℕ
count_items seqn [] = 0
count_items seqn (i ∷ is) = (if i.item.sequence_number == seqn then 1 else 0) + count_items seqn is

unfoldable pub all_confirmed : List ConfirmableItem → Bool
all_confirmed [] = true
all_confirmed (i ∷ is) = i.confirmed && all_confirmed is

unfoldable pub container_confirmed : ConfirmableContainer → Bool
container_confirmed c = all_confirmed c.content

unfoldable pub confirm_container : ℕ → ConfirmableContainer → ConfirmableContainer
confirm_container seqn c = record c { content = confirm_items seqn c.content }

-- What `Confirm` leaves, whom it calls back, and what it returns.
pub record Confirmed : Type 0 where
  pub buffer : Buffer
  pub fired : List ConfirmableContainer
  pub count : ℕ

unfoldable pub confirm : Buffer → ℕ → Confirmed
confirm [] seqn = record { buffer = []; fired = []; count = 0 }
confirm (c ∷ cs) seqn =
    let rest = confirm cs seqn in
    let c' = confirm_container seqn c in
    record {
      buffer = c' ∷ rest.buffer;
      fired = if container_confirmed c' then c' ∷ rest.fired else rest.fired;
      count = count_items seqn c.content + rest.count;
    }
