-- ===== src/Confirmation/Progress.antt =====
-- What a sequence of confirmations does to the groups of source/client/confirmation-buffer.hpp.
use piupiu.Common.{
  ℕ, ◌≡◌, refl, sym, ◌∙◌, inl, inr, Bool, true, false, ◌&&◌, ◌||◌, List, [], ◌∷◌, ◌++◌, map, ◌==◌,
  if◌then◌else◌, arith, Bool-cases, Member,
}
use mathlib.Core.List.{map-append}
use piupiu.Sessions.{SocketAddress}
use piupiu.Confirmation.{
  BaseMessage, ConfirmableItem, ConfirmableContainer, Buffer, confirm_items, all_confirmed,
  container_confirmed, confirm_container, confirm, push, fresh_item,
}

-- The confirmations arrive in this order.
unfoldable pub confirm_all : Buffer → List ℕ → Buffer
confirm_all b [] = b
confirm_all b (n ∷ ns) = confirm_all (confirm b n).buffer ns

unfoldable pub contains : ℕ → List ℕ → Bool
contains n [] = false
contains n (m ∷ ms) = n == m || contains n ms

-- An item is confirmed when it was before, or when its number is among these.
abbrev pub mark_item : List ℕ → ConfirmableItem → ConfirmableItem
mark_item ns i = record i { confirmed = i.confirmed || contains i.item.sequence_number ns }

abbrev pub mark : List ℕ → ConfirmableContainer → ConfirmableContainer
mark ns c = record c { content = map (mark_item ns) c.content }

confirm_items-cons :
    (n : ℕ) (ns : List ℕ) (is : List ConfirmableItem)
    → map (mark_item ns) (confirm_items n is) ≡ map (mark_item (n ∷ ns)) is
unfolding confirm_items contains
confirm_items-cons n ns [] = refl
confirm_items-cons n ns (i ∷ is) = ground (arith, confirm_items-cons n ns is)

mark-cons :
    (n : ℕ) (ns : List ℕ) (b : Buffer) → map (mark ns) (confirm b n).buffer ≡ map (mark (n ∷ ns)) b
unfolding confirm confirm_container
mark-cons n ns [] = refl
mark-cons n ns (c ∷ cs) = ground (arith, confirm_items-cons n ns c.content, mark-cons n ns cs)

mark-nil : (is : List ConfirmableItem) → map (mark_item []) is ≡ is
unfolding contains
mark-nil [] = refl
mark-nil (i ∷ is) = ground (arith, mark-nil is)

mark-nil_all : (b : Buffer) → map (mark []) b ≡ b
mark-nil_all [] = refl
mark-nil_all (c ∷ cs) = ground (arith, mark-nil c.content, mark-nil_all cs)

-- After any confirmations an item is confirmed exactly when it was before or its number was
-- confirmed: neither the order of the numbers, nor a repetition, nor an unknown number matters.
pub confirm_all_marks : (b : Buffer) (ns : List ℕ) → confirm_all b ns ≡ map (mark ns) b
unfolding confirm_all
confirm_all_marks b [] = sym (mark-nil_all b)
confirm_all_marks b (n ∷ ns) = confirm_all_marks (confirm b n).buffer ns ∙ mark-cons n ns b

-- A group of three messages that is pushed stays the last one, with its messages, number and host. It
-- is complete exactly when all three numbers have been confirmed. The groups before it are what they
-- would be without it.
pub push_completes :
    (b : Buffer) (x y z : BaseMessage) (seqn : ℕ) (host : SocketAddress) (ns : List ℕ)
    → (c : ConfirmableContainer) × (confirm_all (push b (x ∷ y ∷ z ∷ []) seqn host) ns
        ≡ confirm_all b ns ++ c ∷ [])
      × (c.original_seqn ≡ seqn)
      × (c.original_host ≡ host)
      × (map (λ i. i.item) c.content ≡ x ∷ y ∷ z ∷ [])
      × (container_confirmed c ≡ (
          contains x.sequence_number ns
          && contains y.sequence_number ns
          && contains z.sequence_number ns))
unfolding push container_confirmed all_confirmed
push_completes b x y z seqn host ns =
    let group : ConfirmableContainer = record {
      content = map fresh_item (x ∷ y ∷ z ∷ []);
      original_seqn = seqn;
      original_host = host;
    } in
    (
      mark ns group,
      rw (confirm_all_marks, confirm_all_marks) (map-append (mark ns) b (group ∷ [])),
      refl,
      refl,
      refl,
      ground arith,
    )

-- The groups that are complete.
unfoldable pub complete : Buffer → Buffer
complete [] = []
complete (c ∷ cs) = if container_confirmed c then c ∷ complete cs else complete cs

-- `Confirm` calls back for every complete group that it leaves in the buffer, in their order, and
-- removes none of them.
pub confirm_fires : (b : Buffer) (n : ℕ) → (confirm b n).fired ≡ complete (confirm b n).buffer
unfolding confirm complete
confirm_fires [] n = refl
confirm_fires (c ∷ cs) n = ground (arith, confirm_fires cs n)

confirm_items-all_confirmed :
    (n : ℕ) (is : List ConfirmableItem) → all_confirmed is ≡ true → confirm_items n is ≡ is
unfolding confirm_items all_confirmed
confirm_items-all_confirmed n [] h = refl
confirm_items-all_confirmed n (i ∷ is) h = ground (arith, confirm_items-all_confirmed n is)

confirm_container_complete :
    (n : ℕ) (c : ConfirmableContainer) → container_confirmed c ≡ true → confirm_container n c ≡ c
unfolding confirm_container container_confirmed
confirm_container_complete n c h = ground (arith, confirm_items-all_confirmed n c.content h)

Member-cons_if :
    {A : Type 0} (t : Bool) (a x : A) (xs : List A)
    → Member a xs
    → Member a (if t then x ∷ xs else xs)
Member-cons_if true a x xs h = inr h
Member-cons_if false a x xs h = h

-- A complete group stays in the buffer as it is.
complete-confirm :
    (b : Buffer) (n : ℕ) (c : ConfirmableContainer)
    → Member c (complete b)
    → Member c (complete (confirm b n).buffer)
unfolding confirm complete
complete-confirm [] n c h = h
complete-confirm (d ∷ ds) n c h = elim (Bool-cases (container_confirmed d)) [
  | inl e ↦
      let later : Member c (d ∷ complete ds) = rw e at h in
      let same_group = confirm_container_complete n d e in
      rw (same_group, e) (elim later [ inl q ↦ inl q | inr q ↦ inr (complete-confirm ds n c q) ])
  | inr e ↦
      let later : Member c (complete ds) = rw e at h in
      Member-cons_if (container_confirmed (confirm_container n d)) c (confirm_container n d) _
        (complete-confirm ds n c later)
]

-- A group that one confirmation called back is called back again by the next one, of whatever
-- number.
pub confirm_fires_again :
    (b : Buffer) (n m : ℕ) (c : ConfirmableContainer)
    → Member c (confirm b n).fired
    → Member c (confirm (confirm b n).buffer m).fired
confirm_fires_again b n m c h =
    rw (confirm_fires (confirm b n).buffer m)
      (complete-confirm (confirm b n).buffer m c (rw (confirm_fires b n) at h))
