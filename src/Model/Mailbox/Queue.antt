-- ===== src/Model/Mailbox/Queue.antt =====
-- The mailbox of src/chibios_model.c is a bounded queue of messages.
use mathlib.Core.Path.{subst}
use chibios_smash.Base.{
  ℕ, ◌≡◌, refl, sym, ap, ◌∙◌, ℤ, pos, to_nat, true, not, none, some, Option, ◌==◌, if◌then◌else◌,
  Bool-cases, inl, inr, arith, List, [], ◌∷◌, ◌++◌,
}
use chibios_smash.Types.{is_mailbox, Resource, Engine}
use chibios_smash.Model.Queue.{set_resource, waiter_remove, waiter_add}
use chibios_smash.Model.Mailbox.{
  mb_is_full, mb_put, mb_put_front, mb_take, mb_block, mb_post, mb_post_front, mb_wake, mb_fetch,
}
use chibios_smash.Model.Mailbox.Window.{window}
use chibios_smash.Model.Mailbox.Buffer.{
  IsValid, contents, mb_put-IsValid, contents-mb_put, mb_put_front-IsValid, contents-mb_put_front,
  mb_take-IsValid, contents-mb_take,
}

-- Two mailboxes that differ in their wait queues at most.
record IsSameBox (mb mb' : Resource) : Type 0 where
  type : mb'.type ≡ mb.type
  capacity : mb'.mb_capacity ≡ mb.mb_capacity
  messages : mb'.mb_messages ≡ mb.mb_messages
  head : mb'.mb_head ≡ mb.mb_head
  tail : mb'.mb_tail ≡ mb.mb_tail
  count : mb'.mb_count ≡ mb.mb_count

IsSameBox-refl : (mb : Resource) → IsSameBox mb mb
IsSameBox-refl mb = record {
  type = refl;
  capacity = refl;
  messages = refl;
  head = refl;
  tail = refl;
  count = refl;
}

-- The mailbox `id` of the engine is valid and holds the messages `q`.
pub record Holds (e : Engine) (id : ℕ) (q : List ℤ) : Type 0 where
  pub valid : IsValid (e.resources id)
  pub messages : contents (e.resources id) ≡ q

IsSameBox-Holds :
    (e : Engine) (id : ℕ) (mb : Resource)
    → IsSameBox mb (e.resources id)
    → IsValid mb
    → Holds e id (contents mb)
unfolding contents
IsSameBox-Holds e id mb same v = record {
  valid = record {
    kind = ap is_mailbox same.type ∙ v.kind;
    capacity = ground (arith, same.capacity, v.capacity);
    fits = ground (arith, same.capacity, v.fits);
    head = ground (arith, same.capacity, same.head, v.head);
    count = ground (arith, same.capacity, same.count, v.count);
    tail = ground (arith, same.capacity, same.head, same.count, same.tail, v.tail);
  };
  messages = rw (same.messages, same.capacity, same.head, same.count) refl;
}

module _ (e : Engine) (tid id : ℕ) where
  mb_block-IsSameBox : (arg : ℤ) → IsSameBox (e.resources id) ((mb_block e tid id arg).resources id)
  unfolding mb_block waiter_add
  mb_block-IsSameBox arg = record {
    type = ground arith;
    capacity = ground arith;
    messages = ground arith;
    head = ground arith;
    tail = ground arith;
    count = ground arith;
  }

  mb_wake-IsSameBox : IsSameBox (e.resources id) ((mb_wake e id).resources id)
  unfolding mb_wake waiter_remove
  mb_wake-IsSameBox = record {
    type = ground arith;
    capacity = ground arith;
    messages = ground arith;
    head = ground arith;
    tail = ground arith;
    count = ground arith;
  }

Holds-of_eq :
    (e : Engine) (id : ℕ) (mb : Resource) (q : List ℤ)
    → e.resources id ≡ mb
    → IsValid mb
    → contents mb ≡ q
    → Holds e id q
Holds-of_eq e id mb q eq v holds = record { valid = rw eq v; messages = ap contents eq ∙ holds }

-- A post to a valid mailbox, whose capacity is at most 16, succeeds exactly if it is not full; it then puts its message behind those
-- that the mailbox holds, and else it leaves them. The mailbox stays valid.
pub mb_post-Holds :
    (e : Engine) (tid id : ℕ) (msg : ℤ)
    → IsValid (e.resources id)
    → ((mb_post e tid id msg).1 ≡ not (mb_is_full (e.resources id)))
      × Holds (mb_post e tid id msg).0 id (
          if mb_is_full (e.resources id)
          then contents (e.resources id)
          else contents (e.resources id) ++ (msg ∷ []))
unfolding mb_post
mb_post-Holds e tid id msg v = elim (Bool-cases (mb_is_full (e.resources id))) [
  | inl full ↦
      rw (v.kind, full)
        (
          refl,
          IsSameBox-Holds (mb_block e tid id msg) id (e.resources id)
              (mb_block-IsSameBox e tid id msg) v,
        )
  | inr room ↦
      rw (v.kind, room)
        (
          refl,
          Holds-of_eq _ id (mb_put (e.resources id) msg) _ (ground arith)
              (mb_put-IsValid (e.resources id) v msg room)
              (contents-mb_put (e.resources id) v msg room),
        )
]

-- A post at the front of a valid mailbox succeeds exactly if it is not full; it then puts its message
-- before those that the mailbox holds, and else it leaves them. The mailbox stays valid.
pub mb_post_front-Holds :
    (e : Engine) (tid id : ℕ) (msg : ℤ)
    → IsValid (e.resources id)
    → ((mb_post_front e tid id msg).1 ≡ not (mb_is_full (e.resources id)))
      × Holds (mb_post_front e tid id msg).0 id (
          if mb_is_full (e.resources id)
          then contents (e.resources id)
          else msg ∷ contents (e.resources id))
unfolding mb_post_front
mb_post_front-Holds e tid id msg v = elim (Bool-cases (mb_is_full (e.resources id))) [
  | inl full ↦
      rw (v.kind, full)
        (
          refl,
          IsSameBox-Holds (mb_block e tid id msg) id (e.resources id)
              (mb_block-IsSameBox e tid id msg) v,
        )
  | inr room ↦
      rw (v.kind, room)
        (
          refl,
          Holds-of_eq _ id (mb_put_front (e.resources id) msg) _ (ground arith)
              (mb_put_front-IsValid (e.resources id) v msg room)
              (contents-mb_put_front (e.resources id) v msg room),
        )
]

-- The specification of a fetch.
abbrev pub first : List ℤ → Option ℤ
first [] = none
first (m ∷ ms) = some m

abbrev pub others : List ℤ → List ℤ
others [] = []
others (m ∷ ms) = ms

contents-none : (mb : Resource) → (mb.mb_count == 0) ≡ true → contents mb ≡ []
unfolding contents window
contents-none mb empty =
    let count : mb.mb_count ≡ 0 = ground arith in
    ap (window mb.mb_messages (to_nat mb.mb_capacity) mb.mb_head) count

woken_box :
    (e : Engine) (id : ℕ) (mb : Resource)
    → IsSameBox mb ((mb_wake (set_resource e id mb) id).resources id)
woken_box e id mb =
    let placed : (set_resource e id mb).resources id ≡ mb = ground arith in
    subst (λ b. IsSameBox b ((mb_wake (set_resource e id mb) id).resources id)) placed
      (mb_wake-IsSameBox (set_resource e id mb) 0 id)

-- A fetch from a valid mailbox, whose capacity is at most 16, gives the first message, or none where the mailbox is empty, and
-- leaves a valid mailbox with the other messages.
pub mb_fetch-Holds :
    (e : Engine) (tid id : ℕ)
    → IsValid (e.resources id)
    → ((mb_fetch e tid id).1 ≡ first (contents (e.resources id)))
      × Holds (mb_fetch e tid id).0 id (others (contents (e.resources id)))
unfolding mb_fetch
mb_fetch-Holds e tid id v = elim (Bool-cases ((e.resources id).mb_count == 0)) [
  | inl empty ↦
      rw (v.kind, empty, contents-none (e.resources id) empty)
        (
          refl,
          rw (sym (contents-none (e.resources id) empty)) (
              IsSameBox-Holds (mb_block e tid id (pos 0)) id (e.resources id)
                (mb_block-IsSameBox e tid id (pos 0)) v),
        )
  | inr filled ↦
      rw (v.kind, filled, contents-mb_take (e.resources id) v filled)
        (
          refl,
          IsSameBox-Holds _ id (mb_take (e.resources id)).1
              (woken_box e id (mb_take (e.resources id)).1)
              (mb_take-IsValid (e.resources id) v filled),
        )
]
