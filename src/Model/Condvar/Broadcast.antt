-- ===== src/Model/Condvar/Broadcast.antt =====
-- What `smash_cond_broadcast` of src/chibios_model.c does to the waiters.
use chibios_smash.Base.{
  ℕ, zero, suc, ◌-◌, ◌≤◌, ◌<◌, ◌≡◌, refl, sym, ap, ◌∙◌, Bool, true, false, ◌||◌, ◌==◌, ltb,
  if◌then◌else◌, update, Bool-cases, inl, inr, arith,
}
use chibios_smash.Types.{is_condvar, Thread, Engine}
use chibios_smash.Model.Queue.{waiter_remove, resumed}
use chibios_smash.Model.Condvar.{cond_wake, cond_wake_all, cond_broadcast}

-- Is the thread among the first `n` entries of the queue?
unfoldable pub waits_in : (ℕ → ℕ) → ℕ → ℕ → Bool
waits_in ws zero t = false
waits_in ws (suc n) t = waits_in ws n t || ws n == t

-- A removal at index 0 by the last entry.
waits_in-update :
    (ws : ℕ → ℕ) (v n t : ℕ)
    → (waits_in (update ws 0 v) (suc n) t || ws 0 == t) ≡ (v == t || waits_in ws (suc n) t)
unfolding waits_in
waits_in-update ws v zero t = ground arith
waits_in-update ws v (suc n) t = ground (arith, waits_in-update ws v n t)

waits_in-remove :
    (ws : ℕ → ℕ) (n t : ℕ)
    → (waits_in (update ws 0 (ws n)) n t || ws 0 == t) ≡ waits_in ws (suc n) t
unfolding waits_in
waits_in-remove ws zero t = ground arith
waits_in-remove ws (suc n) t = ground (arith, waits_in-update ws (ws (suc n)) n t)

-- Two rounds that resume a thread or not resume it if either does.
resumed_twice :
    (a b c : Bool) (x y z : Thread)
    → (a || b) ≡ c
    → y ≡ (if b then resumed x else x)
    → z ≡ (if a then resumed y else y)
    → z ≡ (if c then resumed x else x)
resumed_twice true true c x y z either here later = rw (sym either) (later ∙ ap resumed here)
resumed_twice true false c x y z either here later = rw (sym either) (later ∙ ap resumed here)
resumed_twice false true c x y z either here later = rw (sym either) (later ∙ here)
resumed_twice false false c x y z either here later = rw (sym either) (later ∙ here)

module _ (cond : ℕ) (t : ℕ) where
  abbrev pub waits : Engine → Bool
  waits e = waits_in (e.resources cond).waiters (e.resources cond).waiter_count t

  cond_wake-thread :
      (e : Engine)
      → (cond_wake e cond 0).threads t
        ≡ (if (e.resources cond).waiters 0 == t then resumed (e.threads t) else e.threads t)
  unfolding cond_wake waiter_remove
  cond_wake-thread e = elim (Bool-cases ((e.resources cond).waiters 0 == t)) [
    | inl woken ↦ let eq : (e.resources cond).waiters 0 ≡ t = ground arith in rw eq refl
    | inr other ↦ rw other refl
  ]

  cond_wake-resource :
      (e : Engine) → (cond_wake e cond 0).resources cond ≡ waiter_remove (e.resources cond) 0
  unfolding cond_wake
  cond_wake-resource e = ground arith

  cond_wake-count :
      (e : Engine)
      → ((cond_wake e cond 0).resources cond).waiter_count ≡ (e.resources cond).waiter_count - 1
  unfolding waiter_remove
  cond_wake-count e = ap (λ r. r.waiter_count) (cond_wake-resource e)

  none_waits :
      (e : Engine)
      → (e.resources cond).waiter_count ≡ 0
      → e.threads t ≡ (if waits e then resumed (e.threads t) else e.threads t)
  unfolding waits_in
  none_waits e empty = rw empty refl

  cond_wake-waits :
      (e : Engine)
      → 0 < (e.resources cond).waiter_count
      → (waits (cond_wake e cond 0) || (e.resources cond).waiters 0 == t) ≡ waits e
  unfolding waiter_remove
  cond_wake-waits e some_wait =
      let r = e.resources cond in
      let last : r.waiter_count ≡ suc (r.waiter_count - 1) = omega arith in
      rw (cond_wake-resource e) (
        waits_in-remove r.waiters (r.waiter_count - 1) t
        ∙ ap (λ n. waits_in r.waiters n t) (sym last))

  wake_all-thread :
      (fuel : ℕ) (e : Engine)
      → (e.resources cond).waiter_count ≤ fuel
      → (((cond_wake_all fuel e cond).resources cond).waiter_count ≡ 0)
        × ((cond_wake_all fuel e cond).threads t
            ≡ (if waits e then resumed (e.threads t) else e.threads t))
  unfolding cond_wake_all
  wake_all-thread zero e enough = (omega arith, none_waits e (omega arith))
  wake_all-thread (suc fuel) e enough = elim (Bool-cases (ltb 0 (e.resources cond).waiter_count)) [
    | inr none_left ↦ rw none_left (ground arith, none_waits e (ground arith))
    | inl some_left ↦
        let e1 = cond_wake e cond 0 in
        let count : (e1.resources cond).waiter_count ≡ (e.resources cond).waiter_count - 1 =
          cond_wake-count e in
        let (empty, later) = wake_all-thread fuel e1 (omega arith) in
        let before = cond_wake-waits e (ground arith) in
        let here = cond_wake-thread e in
        rw some_left (empty, resumed_twice _ _ _ _ _ _ before here later)
  ]

-- A broadcast on a condition variable empties its queue; it makes each thread that was in the queue
-- ready and not blocked on anything, with nothing else of it changed, and leaves the other threads.
pub cond_broadcast-waits :
    (e : Engine) (tid cond t : ℕ)
    → is_condvar (e.resources cond).type ≡ true
    → (((cond_broadcast e tid cond).resources cond).waiter_count ≡ 0)
      × ((cond_broadcast e tid cond).threads t
          ≡ (if waits cond t e then resumed (e.threads t) else e.threads t))
unfolding cond_broadcast
cond_broadcast-waits e tid cond t condvar =
    rw condvar (wake_all-thread cond t (e.resources cond).waiter_count e (omega arith))
