-- ===== src/Model/Mutex/Lock.antt =====
-- `smash_mutex_lock` keeps the invariant on every branch.
use chibios_smash.Base.{
  ℕ, pos, ◌<◌, ◌≡◌, refl, inl, inr, false, Option, none, some, ◌==◌, update, arith, Bool-cases, ◌∙◌,
}
use chibios_smash.Types.{
  Thread, ThreadState, Resource, ResourceType, is_thread_ctx, EventType, Engine,
}
use chibios_smash.Trace.{log}
use chibios_smash.Model.Queue.{thread_count, resource_count, owned_push, waiter_add, is_full}
use chibios_smash.Model.Queue.Invariant.{
  wait_state-mutex, Queues, Queues-threads, Queues-resource, Queues-add, ready-not_waiting,
}
use chibios_smash.Model.Consistent.{IsOrdered, IsConsistent, CanUse}
use chibios_smash.Model.Mutex.{
  mutex_acquire, mutex_block, mutex_try, mutex_lock, boost_chain, boost_fuel,
}
use chibios_smash.Model.Mutex.Boost.{
  low_count-le, boost_chain-frame, boost_chain-IsCovered, IsCovered, AreBlocked,
}

Queues-AreBlocked :
    {n count : ℕ} {threads : ℕ → Thread} {rs : ℕ → Resource}
    → Queues n count threads rs
    → AreBlocked rs count threads
Queues-AreBlocked {rs = rs} q r w lt m wlt =
    ground (arith, q.waiting r w, wait_state-mutex (rs r).type)

module _ {e : Engine} {tid res : ℕ} (inv : IsConsistent e)
    (use_ : CanUse ResourceType.mutex e tid res) where
  open inv use {few, queues, owners, ordered, stacks, semaphores}
  open use_ use {thread_in, runs, resource_in, kind}

  mutex_acquire-IsConsistent :
      (e.resources res).owner ≡ none → IsConsistent (mutex_acquire e tid res)
  unfolding mutex_acquire owned_push
  mutex_acquire-IsConsistent free = record {
    few = few;
    queues =
        Queues-threads _ _ (Queues-resource _ _ queues res _ refl refl (λ w. refl)) _
          (λ j. ground arith);
    owners = record {
      owner_in = λ r o lt own. ground (arith, owners.owner_in r o);
      held = λ r lt m own. ground (arith, owners.held r);
    };
    ordered = λ r o w lt m own wlt. ground (arith, ordered r o w, owners.held res);
    stacks = record {
      entry = λ t k lt klt. ground (arith, stacks.entry t k);
      once = λ t k l lt klt llt same.
          ground (arith, stacks.once t k l, stacks.entry t k, stacks.entry t l);
    };
    semaphores = record {
      no_debt = λ r lt s. ground (arith, semaphores.no_debt r);
      no_lost_wakeup = λ r lt s p. ground (arith, semaphores.no_lost_wakeup r);
    };
  }

  module _ (owner : ℕ) (owned : (e.resources res).owner ≡ some owner) where
    queued : ℕ → Resource
    queued = update e.resources res (waiter_add (e.resources res) tid)

    asleep : ℕ → Thread
    asleep =
        update e.threads tid
          (record (e.threads tid) { state = ThreadState.blocked_mutex; blocked_on = some res })

    queued-Queues :
        is_full (e.resources res) ≡ false → Queues (thread_count e) (resource_count e) asleep queued
    unfolding queued asleep waiter_add
    queued-Queues free =
        Queues-add _ _ queues res _ refl tid _ thread_in runs free (rw kind) refl refl (λ w. refl)

    asleep-IsCovered :
        IsCovered queued (resource_count e) (e.threads tid).priority (some owner) asleep
    unfolding queued asleep waiter_add
    asleep-IsCovered r o w lt m own wlt =
        ground (arith, ordered r o w, ready-not_waiting _ _ queues tid r w runs)

    boosted : ℕ → Thread
    boosted =
        boost_chain boost_fuel queued (resource_count e) (e.threads tid).priority (some owner)
          asleep

    boosted-frame : (j : ℕ) → boosted j ≡ record (asleep j) { priority = (boosted j).priority }
    unfolding boosted
    boosted-frame j = boost_chain-frame queued _ _ boost_fuel _ asleep j

    queued_in : (r o : ℕ) → r < resource_count e → (queued r).owner ≡ some o → o < thread_count e
    unfolding queued waiter_add
    queued_in r o lt own = ground (arith, owners.owner_in r o)

    boosted-IsOrdered :
        is_full (e.resources res) ≡ false → IsOrdered (resource_count e) boosted queued
    unfolding boosted queued asleep waiter_add
    boosted-IsOrdered free r o w lt m own wlt =
        elim (boost_chain-IsCovered queued _ (e.threads tid).priority (thread_count e) queued_in
          boost_fuel (some owner) asleep
          (omega (arith, few, low_count-le (e.threads tid).priority asleep (thread_count e)))
          (λ c own. owners.owner_in res c resource_in (owned ∙ own))
          (Queues-AreBlocked (queued-Queues free)) asleep-IsCovered r o w lt m own wlt) [
            | inl h ↦ h
            | inr h ↦ cc h.0
          ]

    mutex_block-IsConsistent :
        is_full (e.resources res) ≡ false → IsConsistent (mutex_block e tid res owner)
    unfolding mutex_block boosted asleep queued waiter_add
    mutex_block-IsConsistent free = record {
      few = few;
      queues =
          Queues-threads _ _ (queued-Queues free) boosted (λ j. ground (arith, boosted-frame j));
      owners = record {
        owner_in = λ r o lt own. ground (arith, owners.owner_in r o);
        held = λ r lt m own. ground (arith, owners.held r);
      };
      ordered = boosted-IsOrdered free;
      stacks = record {
        entry = λ t k lt klt. ground (arith, stacks.entry t k, boosted-frame t);
        once = λ t k l lt klt llt same. ground (arith, stacks.once t k l, boosted-frame t);
      };
      semaphores = record {
        no_debt = λ r lt s. ground (arith, semaphores.no_debt r);
        no_lost_wakeup = λ r lt s p. ground (arith, semaphores.no_lost_wakeup r);
      };
    }

  mutex_try-IsConsistent :
      (owner : Option ℕ)
      → (e.resources res).owner ≡ owner
      → IsConsistent (mutex_try e tid res owner).0
  unfolding mutex_try
  mutex_try-IsConsistent none free = mutex_acquire-IsConsistent free
  mutex_try-IsConsistent (some owner) owned = elim (Bool-cases (owner == tid)) [
    | inl own ↦ rw own inv
    | inr other ↦ elim (Bool-cases (is_full (e.resources res))) [
      | inl full ↦ rw (other, full) inv
      | inr free ↦ rw (other, free) (mutex_block-IsConsistent owner owned free)
    ]
  ]

-- Locking a mutex by a ready thread of the scenario keeps the invariant, whether it succeeds, blocks or
-- fails.
pub mutex_lock-IsConsistent :
    {e : Engine} {tid res : ℕ}
    → IsConsistent e
    → CanUse ResourceType.mutex e tid res
    → IsConsistent (mutex_lock e tid res).0
unfolding mutex_lock
mutex_lock-IsConsistent {e} {tid} {res} inv use_ = elim (Bool-cases (e.resources res).alive) [
  | inr dead ↦ rw dead inv
  | inl alive ↦ elim (Bool-cases (is_thread_ctx (e.threads tid).exec_ctx)) [
    | inr wrong ↦ rw (alive, wrong) inv
    | inl right ↦ rw (alive, right) (mutex_try-IsConsistent inv at_attempt _ refl)
  ]
]
  where
    at_attempt :
        CanUse ResourceType.mutex
          (log e EventType.mutex_lock_attempt (pos tid) (pos res) (pos 0))
          tid
          res
    at_attempt = record {
      thread_in = use_.thread_in;
      runs = use_.runs;
      resource_in = use_.resource_in;
      kind = use_.kind;
    }
