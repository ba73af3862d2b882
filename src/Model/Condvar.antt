-- ===== src/Model/Condvar.antt =====
-- `smash_cond_wait`, `smash_cond_signal` and `smash_cond_broadcast` of src/chibios_model.c.
pub mod Broadcast
use chibios_smash.Base.{
  ℕ, zero, suc, ℤ, pos, to_nat, is_negative, Bool, false, not, ◌||◌, none, some, is_id, ltb, leb,
  if◌then◌else◌,
}
use chibios_smash.Types.{is_condvar, ThreadState, Thread, EventType, Failure, Engine}
use chibios_smash.Trace.{log, fail}
use chibios_smash.Model.Queue.{
  set_thread, set_resource, resource_count, waiter_remove, waiter_add, owned_pop, best_waiter,
  resumed, is_full,
}

-- What follows a successful `owned_pop`, which leaves the thread `t`: release the mutex, then block.
unfoldable pub cond_block : Engine → ℕ → ℕ → ℕ → Thread → Engine
cond_block e tid cond mutex t =
    let e1 = set_thread e tid t in
    let e2 = set_resource e1 mutex (record (e1.resources mutex) { owner = none }) in
    if is_full (e2.resources cond)
    then fail e2 (Failure.queue_overflow cond)
    else let e3 = set_resource e2 cond (waiter_add (e2.resources cond) tid) in
      let e4 =
        set_thread e3 tid
          (record (e3.threads tid) { state = ThreadState.blocked_mutex; blocked_on = some cond }) in
      log e4 EventType.sem_wait_blocked (pos tid) (pos cond) (pos 0)

-- `mutex_id < 0 || mutex_id >= resource_count`
abbrev pub out_of_range : Engine → ℤ → Bool
out_of_range e rid = is_negative rid || leb (resource_count e) (to_nat rid)

unfoldable pub cond_wait : Engine → ℕ → ℕ → Engine × Bool
cond_wait e tid cond =
    let mutex_id = (e.resources cond).associated_mutex in
    let mutex = to_nat mutex_id in
    if not (is_condvar (e.resources cond).type)
    then (fail e (Failure.wrong_type tid cond), false)
    else if out_of_range e mutex_id
    then (fail e (Failure.bad_associated_mutex tid cond mutex_id), false)
    else if not (is_id (e.resources mutex).owner tid)
    then (fail e (Failure.not_owner tid mutex (e.resources mutex).owner), false)
    else elim (owned_pop (e.threads tid) mutex) [
      | none ↦ (fail e (Failure.lifo_violation tid mutex none), false)
      | some t ↦ (cond_block e tid cond mutex t, false)
    ]

-- Take waiter `idx` out of the queue, and make it ready with its `pc` unchanged.
unfoldable pub cond_wake : Engine → ℕ → ℕ → Engine
cond_wake e cond idx =
    let woken = (e.resources cond).waiters idx in
    let e1 = set_resource e cond (waiter_remove (e.resources cond) idx) in
    let e2 = set_thread e1 woken (resumed (e1.threads woken)) in
    log e2 EventType.sem_wakeup (pos woken) (pos cond) (pos 0)

unfoldable pub cond_signal : Engine → ℕ → ℕ → Engine
cond_signal e tid cond =
    if not (is_condvar (e.resources cond).type)
    then fail e (Failure.wrong_type tid cond)
    else if ltb 0 (e.resources cond).waiter_count
    then cond_wake e cond (best_waiter e.threads (e.resources cond))
    else e

-- `while (cnt->waiter_count > 0)`: each round takes one waiter, so the count is fuel enough.
unfoldable pub cond_wake_all : ℕ → Engine → ℕ → Engine
cond_wake_all zero e cond = e
cond_wake_all (suc fuel) e cond =
    let rest = cond_wake_all fuel (cond_wake e cond 0) cond in
    if ltb 0 (e.resources cond).waiter_count then rest else e

unfoldable pub cond_broadcast : Engine → ℕ → ℕ → Engine
cond_broadcast e tid cond =
    if not (is_condvar (e.resources cond).type)
    then fail e (Failure.wrong_type tid cond)
    else cond_wake_all (e.resources cond).waiter_count e cond
