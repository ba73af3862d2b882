-- ===== src/Model/Semaphore/Invariant.antt =====
-- `smash_sem_wait` and `smash_sem_signal` keep the invariant on every branch.
use chibios_smash.Base.{
  ℕ, ◌<◌, ◌≡◌, refl, ℤ, suc_ℤ, pred_ℤ, is_positive, is_negative, true, false, ltb, ltb→lt, update,
  arith, Bool-cases, inl, inr,
}
use chibios_smash.Types.{ResourceType, EventType, is_thread_ctx, Engine}
use chibios_smash.Trace.{log}
use chibios_smash.Model.Queue.{
  thread_count, resource_count, waiter_add, waiter_remove, best_waiter, is_full,
}
use chibios_smash.Model.Queue.Invariant.{Queues-resource, Queues-add, Queues-remove}
use chibios_smash.Model.Queue.Priority.{best_waiter-IsBest}
use chibios_smash.Model.Consistent.{Consistent, IsConsistent, CanUse}
use chibios_smash.Model.Semaphore.{
  sem_block, sem_take, sem_wait, sem_wake, sem_signal_rest, sem_signal,
}

module _ {e : Engine} {tid res : ℕ} (inv : IsConsistent e)
    (use_ : CanUse ResourceType.semaphore e tid res) where
  open inv use {few, queues, owners, ordered, stacks, semaphores}
  open use_ use {thread_in, runs, resource_in, kind}

  -- Any new count that is not negative, and is not positive while threads wait.
  counted-IsConsistent :
      (c : ℤ)
      → is_negative c ≡ false
      → (is_positive c ≡ true → (e.resources res).waiter_count ≡ 0)
      → Consistent
          (thread_count e)
          (resource_count e)
          e.threads
          (update e.resources res (record (e.resources res) { count = c }))
  counted-IsConsistent c no_debt no_waiter = record {
    few = few;
    queues = Queues-resource _ _ queues res _ refl refl (λ w. refl);
    owners = record {
      owner_in = λ r o lt own. ground (arith, owners.owner_in r o);
      held = λ r lt m own. ground (arith, owners.held r);
    };
    ordered = λ r o w lt m own wlt. ground (arith, ordered r o w);
    stacks = record { entry = λ t k lt klt. ground (arith, stacks.entry t k); once = stacks.once };
    semaphores = record {
      no_debt = λ r lt s. ground (arith, semaphores.no_debt r);
      no_lost_wakeup = λ r lt s p. ground (arith, semaphores.no_lost_wakeup r, no_waiter);
    };
  }

  sem_block-IsConsistent :
      is_positive (e.resources res).count ≡ false
      → is_full (e.resources res) ≡ false
      → IsConsistent (sem_block e tid res)
  unfolding sem_block waiter_add
  sem_block-IsConsistent none_left free = record {
    few = few;
    queues =
        Queues-add _ _ queues res _ refl tid _ thread_in runs free (rw kind) refl refl (λ w. refl);
    owners = record {
      owner_in = λ r o lt own. ground (arith, owners.owner_in r o);
      held = λ r lt m own. ground (arith, owners.held r);
    };
    ordered = λ r o w lt m own wlt. ground (arith, ordered r o w);
    stacks = record {
      entry = λ t k lt klt. ground (arith, stacks.entry t k);
      once = λ t k l lt klt llt same. ground (arith, stacks.once t k l);
    };
    semaphores = record {
      no_debt = λ r lt s. ground (arith, semaphores.no_debt r);
      no_lost_wakeup = λ r lt s p. ground (arith, semaphores.no_lost_wakeup r);
    };
  }

  sem_wake-IsConsistent : 0 < (e.resources res).waiter_count → IsConsistent (sem_wake e res)
  unfolding sem_wake waiter_remove
  sem_wake-IsConsistent waits = record {
    few = few;
    queues = Queues-remove _ _ queues res _ refl best _ resource_in found refl (λ w. refl);
    owners = record {
      owner_in = λ r o lt own. ground (arith, owners.owner_in r o);
      held = λ r lt m own. ground (arith, owners.held r);
    };
    ordered = λ r o w lt m own wlt. ground (arith, ordered r o w);
    stacks = record {
      entry = λ t k lt klt. ground (arith, stacks.entry t k);
      once = λ t k l lt klt llt same. ground (arith, stacks.once t k l);
    };
    semaphores = record {
      no_debt = λ r lt s. ground (arith, semaphores.no_debt r);
      no_lost_wakeup = λ r lt s p. ground (arith, semaphores.no_lost_wakeup r);
    };
  }
    where
      best : ℕ
      best = best_waiter e.threads (e.resources res)

      found : best < (e.resources res).waiter_count
      found = (best_waiter-IsBest e.threads (e.resources res) waits).0

  sem_take-IsConsistent : IsConsistent (sem_take e tid res).0
  unfolding sem_take
  sem_take-IsConsistent = elim (Bool-cases (is_positive (e.resources res).count)) [
    | inl some_left ↦ rw some_left (
        counted-IsConsistent (pred_ℤ (e.resources res).count) (ground arith)
          (λ p. ground (arith, semaphores.no_lost_wakeup res)))
    | inr none_left ↦ elim (Bool-cases (is_full (e.resources res))) [
      | inl full ↦ rw (none_left, full) inv
      | inr free ↦ rw (none_left, free) (sem_block-IsConsistent none_left free)
    ]
  ]

  sem_signal_rest-IsConsistent : IsConsistent (sem_signal_rest e tid res)
  unfolding sem_signal_rest sem_wake
  sem_signal_rest-IsConsistent = elim (Bool-cases (ltb 0 (e.resources res).waiter_count)) [
    | inl waits ↦ rw waits (sem_wake-IsConsistent (ltb→lt _ _ waits))
    | inr empty ↦ rw empty (
        counted-IsConsistent (suc_ℤ (e.resources res).count)
          (ground (arith, semaphores.no_debt res)) (λ p. ground arith))
  ]

module _ {e : Engine} {tid res : ℕ} where
  logged :
      (t : EventType) (a b c : ℤ)
      → CanUse ResourceType.semaphore e tid res
      → CanUse ResourceType.semaphore (log e t a b c) tid res
  logged t a b c use_ = record {
    thread_in = use_.thread_in;
    runs = use_.runs;
    resource_in = use_.resource_in;
    kind = use_.kind;
  }

  -- Waiting on a semaphore by a ready thread of the scenario keeps the invariant, whether it succeeds,
  -- blocks or fails.
  pub sem_wait-IsConsistent :
      IsConsistent e → CanUse ResourceType.semaphore e tid res → IsConsistent (sem_wait e tid res).0
  unfolding sem_wait
  sem_wait-IsConsistent inv use_ = elim (Bool-cases (e.resources res).alive) [
    | inr dead ↦ rw dead inv
    | inl alive ↦ elim (Bool-cases (is_thread_ctx (e.threads tid).exec_ctx)) [
      | inr wrong ↦ rw (alive, wrong) inv
      | inl right ↦ rw (alive, right) (sem_take-IsConsistent inv (logged _ _ _ _ use_))
    ]
  ]

  -- Signalling a semaphore by a ready thread of the scenario keeps the invariant on every branch.
  pub sem_signal-IsConsistent :
      IsConsistent e → CanUse ResourceType.semaphore e tid res → IsConsistent (sem_signal e tid res)
  unfolding sem_signal
  sem_signal-IsConsistent inv use_ = elim (Bool-cases (e.resources res).alive) [
    | inr dead ↦ rw dead inv
    | inl alive ↦ elim (Bool-cases (ltb 0 (e.resources res).waiter_count)) [
      | inl waits ↦
          rw (alive, waits) (sem_wake-IsConsistent inv (logged _ _ _ _ use_) (ltb→lt _ _ waits))
      | inr empty ↦ rw (alive, empty) (sem_signal_rest-IsConsistent inv (logged _ _ _ _ use_))
    ]
  ]
