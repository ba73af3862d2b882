-- ===== src/Model/Mailbox/Buffer.antt =====
-- The circular buffer of a mailbox of src/chibios_model.c: each operation on it as one on the list of
-- its messages.
use mathlib.Core.Path.{ap₂}
use chibios_smash.Base.{
  ◌+◌, ◌-◌, ◌<◌, ◌≤◌, ◌≡◌, sym, ap, ◌∙◌, suc, update, ◌%◌, ℤ, to_nat, true, false, ◌==◌, arith,
  List, [], ◌∷◌, ◌++◌,
}
use chibios_smash.Types.{max_waiters, is_mailbox, Resource}
use chibios_smash.Model.Mailbox.{mb_is_full, mb_put, mb_put_front, mb_take}
use chibios_smash.Model.Mailbox.Window.{
  wrap, mod-wrap, window, window-last, window-first, window-outside,
}

-- A mailbox whose buffer is within `mb_messages[SMASH_MAX_WAITERS]`.
pub record IsValid (mb : Resource) : Type 0 where
  pub kind : is_mailbox mb.type ≡ true
  pub capacity : 0 < to_nat mb.mb_capacity
  pub fits : to_nat mb.mb_capacity ≤ max_waiters
  pub head : mb.mb_head < to_nat mb.mb_capacity
  pub count : mb.mb_count ≤ to_nat mb.mb_capacity
  pub tail : mb.mb_tail ≡ wrap (to_nat mb.mb_capacity) (mb.mb_head + mb.mb_count)

-- The messages in the order in which they are fetched.
unfoldable pub contents : Resource → List ℤ
contents mb = window mb.mb_messages (to_nat mb.mb_capacity) mb.mb_head mb.mb_count

module _ (mb : Resource) (valid : IsValid mb) where
  capacity_room : mb_is_full mb ≡ false → mb.mb_count < to_nat mb.mb_capacity
  capacity_room room = ground (arith, valid.capacity)

  pub mb_put-IsValid : (msg : ℤ) → mb_is_full mb ≡ false → IsValid (mb_put mb msg)
  unfolding mb_put
  mb_put-IsValid msg room =
      let lt = capacity_room room in
      record {
        kind = valid.kind;
        capacity = valid.capacity;
        fits = valid.fits;
        head = valid.head;
        count = omega arith;
        tail =
            mod-wrap (to_nat mb.mb_capacity) (mb.mb_tail + 1)
              (ground (arith, valid.tail, valid.head))
            ∙ ground (arith, valid.tail, valid.head);
      }

  pub contents-mb_put :
      (msg : ℤ) → mb_is_full mb ≡ false → contents (mb_put mb msg) ≡ contents mb ++ (msg ∷ [])
  unfolding contents mb_put
  contents-mb_put msg room =
      let cap = to_nat mb.mb_capacity in
      let lt = capacity_room room in
      let before =
        window-outside mb.mb_messages cap mb.mb_head mb.mb_tail msg mb.mb_count
          (λ k k_in. ground (arith, valid.tail, valid.head)) in
      let last : update mb.mb_messages mb.mb_tail msg (wrap cap (mb.mb_head + mb.mb_count)) ≡ msg =
        ground (arith, valid.tail) in
      window-last (update mb.mb_messages mb.mb_tail msg) cap mb.mb_head mb.mb_count
      ∙ ap₂ (λ l m. l ++ (m ∷ [])) before last

  front_slot :
      (mb.mb_head + to_nat mb.mb_capacity - 1) % to_nat mb.mb_capacity
      ≡ wrap (to_nat mb.mb_capacity) (mb.mb_head + to_nat mb.mb_capacity - 1)
  front_slot =
      mod-wrap (to_nat mb.mb_capacity) (mb.mb_head + to_nat mb.mb_capacity - 1)
        (omega (arith, valid.head, valid.capacity))

  pub mb_put_front-IsValid : (msg : ℤ) → mb_is_full mb ≡ false → IsValid (mb_put_front mb msg)
  unfolding mb_put_front
  mb_put_front-IsValid msg room =
      let lt = capacity_room room in
      let at = front_slot in
      record {
        kind = valid.kind;
        capacity = valid.capacity;
        fits = valid.fits;
        head = ground (arith, valid.head, valid.capacity);
        count = omega arith;
        tail = ground (arith, valid.tail, valid.head, valid.capacity);
      }

  pub contents-mb_put_front :
      (msg : ℤ) → mb_is_full mb ≡ false → contents (mb_put_front mb msg) ≡ msg ∷ contents mb
  unfolding contents mb_put_front
  contents-mb_put_front msg room =
      let cap = to_nat mb.mb_capacity in
      let lt = capacity_room room in
      let slot = wrap cap (mb.mb_head + cap - 1) in
      let next : wrap cap (slot + 1) ≡ mb.mb_head = ground (arith, valid.head, valid.capacity) in
      let rest =
        window-outside mb.mb_messages cap mb.mb_head slot msg mb.mb_count
          (λ k k_in. ground (arith, valid.head)) in
      let first : update mb.mb_messages slot msg slot ≡ msg = ground arith in
      rw front_slot (
        ap (window (update mb.mb_messages slot msg) cap slot) (omega arith)
        ∙ window-first (update mb.mb_messages slot msg) cap slot mb.mb_count
            (ground (arith, valid.head, valid.capacity)) lt
        ∙ ap₂ ◌∷◌ first
            (ap (λ h. window (update mb.mb_messages slot msg) cap h mb.mb_count) next ∙ rest))

  pub mb_take-IsValid : (mb.mb_count == 0) ≡ false → IsValid (mb_take mb).1
  unfolding mb_take
  mb_take-IsValid some_in =
      let at =
        mod-wrap (to_nat mb.mb_capacity) (mb.mb_head + 1)
          (omega (arith, valid.head, valid.capacity)) in
      record {
        kind = valid.kind;
        capacity = valid.capacity;
        fits = valid.fits;
        head = ground (arith, valid.head, valid.capacity);
        count = omega (arith, valid.count);
        tail = ground (arith, valid.tail, valid.head, valid.count);
      }

  pub contents-mb_take :
      (mb.mb_count == 0) ≡ false → contents mb ≡ (mb_take mb).0 ∷ contents (mb_take mb).1
  unfolding contents mb_take
  contents-mb_take some_in =
      let cap = to_nat mb.mb_capacity in
      let at = mod-wrap cap (mb.mb_head + 1) (omega (arith, valid.head, valid.capacity)) in
      let some_count : mb.mb_count ≡ suc (mb.mb_count - 1) = ground arith in
      ap (window mb.mb_messages cap mb.mb_head) some_count
      ∙ window-first mb.mb_messages cap mb.mb_head (mb.mb_count - 1) valid.head
          (ground (arith, valid.count))
      ∙ ap (λ h. mb.mb_messages mb.mb_head ∷ window mb.mb_messages cap h (mb.mb_count - 1)) (sym at)
