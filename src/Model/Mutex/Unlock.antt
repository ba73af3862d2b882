-- ===== src/Model/Mutex/Unlock.antt =====
-- `smash_mutex_unlock` keeps the invariant on every branch.
use chibios_smash.Base.{
  ℕ, ℤ, pos, suc, ◌-◌, ◌≤◌, ◌<◌, ◌≡◌, ◌≢◌, refl, inl, inr, ◌≤ℤ◌, true, none, some, ltb, ◌==◌,
  ltb→lt, update, arith, Bool-cases, is_id, is_id→some,
}
use chibios_smash.Types.{ThreadState, ResourceType, EventType, is_mutex, Engine, max_threads}
use chibios_smash.Trace.{log}
use chibios_smash.Model.Queue.{
  thread_count, resource_count, owned_push, owned_pop, set_thread, waiter_remove, best_waiter,
  recalc_priority,
}
use chibios_smash.Model.Queue.Invariant.{
  Queues, Queues-threads, Queues-resource, Queues-remove, ready-not_waiting,
}
use chibios_smash.Model.Queue.Priority.{
  best_waiter-IsBest, IsRecalculated, recalc_priority-IsRecalculated,
}
use chibios_smash.Model.Consistent.{Consistent, Owners, Stacks, Semaphores, IsConsistent, CanUse}
use chibios_smash.Model.Mutex.{mutex_hand_over, mutex_release, mutex_unlock}

-- What holds between the pop of the mutex `res` of `tid` from the stack and its next owner.
record IsReleased (e : Engine) (tid res : ℕ) : Type 0 where
  few : thread_count e ≤ max_threads
  queues : Queues (thread_count e) (resource_count e) e.threads e.resources
  owners : Owners (thread_count e) (resource_count e) e.resources
  stacks : Stacks (thread_count e) (resource_count e) e.threads e.resources
  semaphores : Semaphores (resource_count e) e.resources
  owned : (e.resources res).owner ≡ some tid
  runs : (e.threads tid).state ≡ ThreadState.ready
  resource_in : res < resource_count e
  mutex : (e.resources res).type ≡ ResourceType.mutex
  gone :
      (t k : ℕ)
      → t < thread_count e
      → k < (e.threads t).owned_mutex_count
      → (e.threads t).owned_mutex_stack k ≢ res
  others :
      (r o w : ℕ)
      → r ≢ res
      → r < resource_count e
      → is_mutex (e.resources r).type ≡ true
      → (e.resources r).owner ≡ some o
      → w < (e.resources r).waiter_count
      → (e.threads ((e.resources r).waiters w)).priority ≤ℤ (e.threads o).priority

module _ {e : Engine} {tid res : ℕ} (rel : IsReleased e tid res) where
  open rel use {
    few, queues, owners, stacks, semaphores, owned, runs, resource_in, mutex, gone, others,
  }

  freed-IsConsistent :
      (e.resources res).waiter_count ≡ 0
      → Consistent
          (thread_count e)
          (resource_count e)
          e.threads
          (update e.resources res (record (e.resources res) { owner = none }))
  freed-IsConsistent empty = record {
    few = few;
    queues = Queues-resource _ _ queues res _ refl refl (λ w. refl);
    owners = record {
      owner_in = λ r o lt own. ground (arith, owners.owner_in r o);
      held = λ r lt m own. ground (arith, owners.held r);
    };
    ordered = λ r o w lt m own wlt. ground (arith, others r o w);
    stacks = record {
      entry = λ t k lt klt. ground (arith, stacks.entry t k, gone t k);
      once = λ t k l lt klt llt same. ground (arith, stacks.once t k l);
    };
    semaphores = record {
      no_debt = λ r lt s. ground (arith, semaphores.no_debt r);
      no_lost_wakeup = λ r lt s p. ground (arith, semaphores.no_lost_wakeup r);
    };
  }

  mutex_hand_over-IsConsistent :
      0 < (e.resources res).waiter_count → IsConsistent (mutex_hand_over e res)
  unfolding mutex_hand_over owned_push waiter_remove
  mutex_hand_over-IsConsistent waits = record {
    few = few;
    queues = Queues-remove _ _ queues res _ refl best _ resource_in found.0 refl (λ w. refl);
    owners = record {
      owner_in = λ r o lt own. ground (arith, owners.owner_in r o, queues.member res best, found.0);
      held = λ r lt m own. ground (arith, owners.held r);
    };
    ordered = λ r o w lt m own wlt. ground (
      arith,
      others r o w,
      owners.owner_in r o,
      found.1 w,
      found.1 (wc - 1),
      queues.waiting res best,
      queues.distinct res w best,
      queues.waiting r w,
    );
    stacks = record {
      entry = λ t k lt klt. ground (arith, stacks.entry t k, gone t k, queues.waiting res best);
      once = λ t k l lt klt llt same. ground (arith, stacks.once t k l, gone t k, gone t l);
    };
    semaphores = record {
      no_debt = λ r lt s. ground (arith, semaphores.no_debt r);
      no_lost_wakeup = λ r lt s p. ground (arith, semaphores.no_lost_wakeup r);
    };
  }
    where
      wc : ℕ
      wc = (e.resources res).waiter_count

      best : ℕ
      best = best_waiter e.threads (e.resources res)

      found :
          (best < (e.resources res).waiter_count)
          × ((w : ℕ)
              → w < (e.resources res).waiter_count
              → (e.threads ((e.resources res).waiters w)).priority
                ≤ℤ (e.threads ((e.resources res).waiters best)).priority)
      found = best_waiter-IsBest e.threads (e.resources res) waits

module _ {e : Engine} {tid res : ℕ} (inv : IsConsistent e)
    (use_ : CanUse ResourceType.mutex e tid res) where
  open inv use {few, queues, owners, ordered, stacks, semaphores}
  open use_ use {runs, resource_in, kind}

  -- The engine with `cnt` mutexes left on the stack of `tid`, the event logged, and a priority set.
  popped : ℕ → Engine
  popped cnt =
      log (set_thread e tid (record (e.threads tid) { owned_mutex_count = cnt }))
        EventType.mutex_unlock (pos tid) (pos res) (pos 0)

  relieved : ℕ → ℤ → Engine
  unfolding popped
  relieved cnt p =
      set_thread (popped cnt) tid (record (e.threads tid) { owned_mutex_count = cnt; priority = p })

  relieved-IsReleased :
      (cnt : ℕ) (p : ℤ)
      → (e.resources res).owner ≡ some tid
      → (e.threads tid).owned_mutex_count ≡ suc cnt
      → (e.threads tid).owned_mutex_stack cnt ≡ res
      → ((r w : ℕ)
          → r < resource_count e
          → r ≢ res
          → is_mutex (e.resources r).type ≡ true
          → (e.resources r).owner ≡ some tid
          → w < (e.resources r).waiter_count
          → (e.threads ((e.resources r).waiters w)).priority ≤ℤ p)
      → IsReleased (relieved cnt p) tid res
  unfolding relieved
  relieved-IsReleased cnt p owned len top above = record {
    few = few;
    queues = Queues-threads _ _ queues _ (λ j. ground arith);
    owners = owners;
    stacks = record {
      entry = λ t k lt klt. ground (arith, stacks.entry t k);
      once = λ t k l lt klt llt same. ground (arith, stacks.once t k l);
    };
    semaphores = semaphores;
    owned = owned;
    runs = ground arith;
    resource_in = resource_in;
    mutex = kind;
    gone = λ t k lt klt on. ground (arith, stacks.entry t k, stacks.once t k cnt);
    others = λ r o w other lt m own wlt.
        ground (arith, above r w, ordered r o w, ready-not_waiting _ _ queues tid r w runs);
  }

  mutex_release-IsConsistent :
      (cnt : ℕ)
      → (e.resources res).owner ≡ some tid
      → (e.threads tid).owned_mutex_count ≡ suc cnt
      → (e.threads tid).owned_mutex_stack cnt ≡ res
      → IsConsistent (mutex_release e tid res (record (e.threads tid) { owned_mutex_count = cnt }))
  unfolding mutex_release relieved
  mutex_release-IsConsistent cnt owned len top =
      elim (Bool-cases (ltb 0 (e.resources res).waiter_count)) [
        | inl waits ↦ rw waits (mutex_hand_over-IsConsistent released (ltb→lt _ _ waits))
        | inr empty ↦ rw empty (freed-IsConsistent released (ground arith))
      ]
    where
      p : ℤ
      p = recalc_priority (popped cnt) tid res

      recalculated :
          IsRecalculated
            (popped cnt).threads
            (popped cnt).resources
            tid
            res
            ((popped cnt).threads tid).base_priority
            (resource_count (popped cnt))
            p
      recalculated = recalc_priority-IsRecalculated (popped cnt) tid res

      released : IsReleased (relieved cnt p) tid res
      released = relieved-IsReleased cnt p owned len top (λ r w lt other m own wlt. ground (
        arith,
        recalculated.above r w lt (record { other = other; mutex = m; owned = own; waits = wlt }),
      ))

-- Unlocking a mutex by a ready thread of the scenario keeps the invariant on every branch: the three
-- failures, the release without a waiter, and the hand-over to a waiter.
pub mutex_unlock-IsConsistent :
    {e : Engine} {tid res : ℕ}
    → IsConsistent e
    → CanUse ResourceType.mutex e tid res
    → IsConsistent (mutex_unlock e tid res)
unfolding mutex_unlock owned_pop
mutex_unlock-IsConsistent {e} {tid} {res} inv use_ = elim (Bool-cases (e.resources res).alive) [
  | inr dead ↦ rw dead inv
  | inl alive ↦ elim (Bool-cases (is_id (e.resources res).owner tid)) [
    | inr foreign ↦ rw (alive, foreign) inv
    | inl owned ↦ elim (Bool-cases ((e.threads tid).owned_mutex_count == 0)) [
      | inl empty ↦ rw (alive, owned, empty) inv
      | inr some_left ↦ elim (Bool-cases ((e.threads tid).owned_mutex_stack cnt == res)) [
        | inr below ↦ rw (alive, owned, some_left, below) inv
        | inl top ↦
            rw (alive, owned, some_left, top)
              (mutex_release-IsConsistent inv use_ cnt (is_id→some _ tid owned) (ground arith)
                (ground arith))
      ]
    ]
  ]
]
  where
    cnt : ℕ
    cnt = (e.threads tid).owned_mutex_count - 1
