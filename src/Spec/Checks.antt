-- ===== src/Spec/Checks.antt =====
-- The checks of src/spec.c that are loops over threads and resources.
use chibios_smash.Base.{
  ℕ, pos, ltb_ℤ, is_positive, is_negative, Bool, true, not, ◌&&◌, Option, none, some, is_some,
  is_id, ltb, leb, ◌==◌, if◌then◌else◌, all_below,
}
use chibios_smash.Types.{
  max_threads, max_waiters, is_mutex, is_semaphore, is_done, ThreadState, is_blocked_mutex,
  is_blocked_sem, Resource, Engine,
}
use chibios_smash.Model.Queue.{thread_count, resource_count}
use chibios_smash.Engine.Threads.{length, collect_runnable, all_done}

unfoldable pub check_no_deadlock : Engine → Bool
check_no_deadlock e = if all_done e then true else ltb 0 (length (collect_runnable e max_threads))

-- "Every waiter must be a valid thread ID in a blocked state."
unfoldable pub waiters_valid : Engine → (ThreadState → Bool) → Resource → Bool
waiters_valid e blocked r =
    all_below r.waiter_count
      (λ w. ltb (r.waiters w) (thread_count e) && blocked (e.threads (r.waiters w)).state)

-- The two tests of the owner: a valid thread or -1, and not a thread that is done.
unfoldable pub owner_valid : Engine → Option ℕ → Bool
owner_valid e none = true
owner_valid e (some o) = ltb o (thread_count e) && not (is_done (e.threads o).state)

unfoldable pub mutex_valid : Engine → Resource → Bool
mutex_valid e r =
    if not (is_mutex r.type)
    then true
    else owner_valid e r.owner
      && (not (not (is_some r.owner) && ltb 0 r.waiter_count)
          && (leb r.waiter_count max_waiters && waiters_valid e is_blocked_mutex r))

unfoldable pub check_mutex_integrity : Engine → Bool
check_mutex_integrity e = all_below (resource_count e) (λ i. mutex_valid e (e.resources i))

unfoldable pub sem_valid : Engine → Resource → Bool
sem_valid e r =
    if not (is_semaphore r.type)
    then true
    else not (is_negative r.count)
      && (leb r.waiter_count max_waiters
          && (not (is_positive r.count && ltb 0 r.waiter_count)
              && waiters_valid e is_blocked_sem r))

unfoldable pub check_sem_integrity : Engine → Bool
check_sem_integrity e = all_below (resource_count e) (λ i. sem_valid e (e.resources i))

-- No waiter of an owned mutex has a higher priority than the owner.
unfoldable pub no_inversion : Engine → Resource → Option ℕ → Bool
no_inversion e r none = true
no_inversion e r (some o) =
    if not (is_mutex r.type)
    then true
    else all_below r.waiter_count
        (λ w. not (ltb_ℤ (e.threads o).priority (e.threads (r.waiters w)).priority))

unfoldable pub check_priority_inversion : Engine → Bool
check_priority_inversion e =
    all_below (resource_count e) (λ i. no_inversion e (e.resources i) (e.resources i).owner)

unfoldable pub check_owned_mutex_integrity : Engine → Bool
check_owned_mutex_integrity e = all_below (thread_count e) (λ t.
    all_below (e.threads t).owned_mutex_count (λ k.
      let res = (e.threads t).owned_mutex_stack k in
      ltb res (resource_count e) && is_id (e.resources res).owner t))

unfoldable pub check_context_safety : Engine → Bool
check_context_safety e = all_below (thread_count e) (λ i.
    if not (is_done (e.threads i).state)
    then true
    else (e.threads i).sys_lock_depth == 0 && (e.threads i).isr_depth == 0)

unfoldable pub check_stack_depth : Engine → Bool
check_stack_depth e = all_below (thread_count e) (λ i.
    if not (is_positive (e.scenario.stack_sizes i))
    then true
    else not (ltb_ℤ (e.scenario.stack_sizes i) (pos (e.threads i).stack_depth)))

unfoldable pub check_all : Engine → Bool
check_all e =
    check_mutex_integrity e
    && (check_sem_integrity e
        && (check_owned_mutex_integrity e
            && (check_priority_inversion e && (check_context_safety e && check_stack_depth e))))
