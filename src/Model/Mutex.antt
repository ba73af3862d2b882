-- ===== src/Model/Mutex.antt =====
-- `smash_mutex_lock` and `smash_mutex_unlock` of src/chibios_model.c, with priority inheritance.
pub mod Boost
pub mod Lock
pub mod Unlock
pub mod Pair
use chibios_smash.Base.{
  ℕ, zero, suc, ◌+◌, ℤ, pos, ltb_ℤ, Bool, true, false, not, Option, none, some, is_id, ltb, ◌==◌,
  if◌then◌else◌, update,
}
use chibios_smash.Types.{
  max_threads, is_thread_ctx, ctx_code, ThreadState, is_blocked_mutex, Thread, Resource, EventType,
  Failure, Engine,
}
use chibios_smash.Trace.{log, fail}
use chibios_smash.Model.Queue.{
  set_thread, set_resource, resource_count, id_or_minus_one, waiter_remove, waiter_add, owned_push,
  owned_pop, owned_top, recalc_priority, best_waiter, advanced, is_full,
}

-- Where the chain of `smash_mutex_lock` goes on from a thread that it has boosted: the owner of the
-- resource that the thread is blocked on, -1 where the loop breaks.
unfoldable pub next_owner : (ℕ → Resource) → ℕ → Thread → Option ℕ
next_owner resources count cur =
    if is_blocked_mutex cur.state
    then elim cur.blocked_on [
      | none ↦ none
      | some m ↦ if ltb m count then (resources m).owner else none
    ]
    else none

-- The `while (cur_tid >= 0)` loop. Each round that goes on raises a priority below `prio` to `prio`,
-- so one round more than there are threads is enough.
unfoldable pub boost_chain : ℕ → (ℕ → Resource) → ℕ → ℤ → Option ℕ → (ℕ → Thread) → ℕ → Thread
boost_chain zero resources count prio cur threads = threads
boost_chain (suc fuel) resources count prio none threads = threads
boost_chain (suc fuel) resources count prio (some cur) threads =
    let boosted = update threads cur (record (threads cur) { priority = prio }) in
    let rest =
      boost_chain fuel resources count prio (next_owner resources count (threads cur)) boosted in
    if ltb_ℤ (threads cur).priority prio then rest else threads

abbrev pub boost_fuel : ℕ
boost_fuel = max_threads + 1

-- The free branch.
unfoldable pub mutex_acquire : Engine → ℕ → ℕ → Engine
mutex_acquire e tid res =
    let e1 = set_resource e res (record (e.resources res) { owner = some tid }) in
    let e2 = set_thread e1 tid (owned_push (e1.threads tid) res) in
    log e2 EventType.mutex_lock_acquired (pos tid) (pos res) (pos 0)

-- The blocking branch: queue up, and hand the priority on along the chain of owners.
unfoldable pub mutex_block : Engine → ℕ → ℕ → ℕ → Engine
mutex_block e tid res owner =
    let t = e.threads tid in
    let e1 = set_resource e res (waiter_add (e.resources res) tid) in
    let e2 =
      set_thread e1 tid (record t { state = ThreadState.blocked_mutex; blocked_on = some res }) in
    let e3 = record e2 {
      threads =
          boost_chain boost_fuel e2.resources (resource_count e2) t.priority (some owner)
            e2.threads;
    } in
    log e3 EventType.mutex_lock_blocked (pos tid) (pos res) (pos owner)

-- What follows the two checks and the event of the attempt.
unfoldable pub mutex_try : Engine → ℕ → ℕ → Option ℕ → Engine × Bool
mutex_try e tid res none = (mutex_acquire e tid res, true)
mutex_try e tid res (some owner) =
    if owner == tid
    then (
      log (fail e (Failure.relocked tid res)) EventType.invariant_fail (pos tid) (pos res) (pos 0),
      false,
    )
    else if is_full (e.resources res)
    then (
      log (fail e (Failure.queue_overflow res)) EventType.invariant_fail (pos tid) (pos res)
          (pos 0),
      false,
    )
    else (mutex_block e tid res owner, false)

unfoldable pub mutex_lock : Engine → ℕ → ℕ → Engine × Bool
mutex_lock e tid res =
    if not (e.resources res).alive
    then (
      log (fail e (Failure.use_after_free tid res)) EventType.use_after_free (pos tid) (pos res)
          (pos 0),
      false,
    )
    else if not (is_thread_ctx (e.threads tid).exec_ctx)
    then (
      log (fail e (Failure.wrong_context tid (e.threads tid).exec_ctx)) EventType.context_violation
          (pos tid) (pos res) (pos (ctx_code (e.threads tid).exec_ctx)),
      false,
    )
    else mutex_try (log e EventType.mutex_lock_attempt (pos tid) (pos res) (pos 0)) tid res
        (e.resources res).owner

-- The end of `smash_mutex_unlock`: the highest-priority waiter becomes the owner.
unfoldable pub mutex_hand_over : Engine → ℕ → Engine
mutex_hand_over e res =
    let mtx = e.resources res in
    let best = best_waiter e.threads mtx in
    let woken = mtx.waiters best in
    let e1 = set_resource e res (record (waiter_remove mtx best) { owner = some woken }) in
    let e2 = set_thread e1 woken (owned_push (advanced (e1.threads woken)) res) in
    log e2 EventType.mutex_lock_acquired (pos woken) (pos res) (pos 0)

-- What follows a successful `owned_pop`, which leaves the thread `t`.
unfoldable pub mutex_release : Engine → ℕ → ℕ → Thread → Engine
mutex_release e tid res t =
    let e1 = set_thread e tid t in
    let e2 = log e1 EventType.mutex_unlock (pos tid) (pos res) (pos 0) in
    let e3 = set_thread e2 tid (record t { priority = recalc_priority e2 tid res }) in
    if ltb 0 (e3.resources res).waiter_count
    then mutex_hand_over e3 res
    else set_resource e3 res (record (e3.resources res) { owner = none })

unfoldable pub mutex_unlock : Engine → ℕ → ℕ → Engine
mutex_unlock e tid res =
    if not (e.resources res).alive
    then log (fail e (Failure.use_after_free tid res)) EventType.use_after_free (pos tid) (pos res)
        (pos 0)
    else if not (is_id (e.resources res).owner tid)
    then log (fail e (Failure.not_owner tid res (e.resources res).owner)) EventType.invariant_fail
        (pos tid) (pos res) (id_or_minus_one (e.resources res).owner)
    else elim (owned_pop (e.threads tid) res) [
      | none ↦
          log (fail e (Failure.lifo_violation tid res (owned_top (e.threads tid))))
            EventType.invariant_fail (pos tid) (pos res)
            (id_or_minus_one (owned_top (e.threads tid)))
      | some t ↦ mutex_release e tid res t
    ]
