-- ===== src/Model/Semaphore.antt =====
-- `smash_sem_wait` and `smash_sem_signal` of src/chibios_model.c.
pub mod Invariant
use chibios_smash.Base.{
  ℕ, pos, suc_ℤ, pred_ℤ, is_positive, Bool, true, false, not, some, ltb, if◌then◌else◌,
}
use chibios_smash.Types.{is_thread_ctx, ctx_code, ThreadState, EventType, Failure, Engine}
use chibios_smash.Trace.{log, fail}
use chibios_smash.Model.Queue.{
  set_thread, set_resource, waiter_remove, waiter_add, best_waiter, advanced, is_full,
}

unfoldable pub sem_block : Engine → ℕ → ℕ → Engine
sem_block e tid res =
    let e1 = set_resource e res (waiter_add (e.resources res) tid) in
    let e2 =
      set_thread e1 tid
        (record (e1.threads tid) { state = ThreadState.blocked_sem; blocked_on = some res }) in
    log e2 EventType.sem_wait_blocked (pos tid) (pos res) (pos 0)

-- What follows the two checks and the event of the attempt.
unfoldable pub sem_take : Engine → ℕ → ℕ → Engine × Bool
sem_take e tid res =
    if is_positive (e.resources res).count
    then (
      set_resource e res (record (e.resources res) { count = pred_ℤ (e.resources res).count }),
      true,
    )
    else if is_full (e.resources res)
    then (
      log (fail e (Failure.queue_overflow res)) EventType.invariant_fail (pos tid) (pos res)
          (pos 0),
      false,
    )
    else (sem_block e tid res, false)

unfoldable pub sem_wait : Engine → ℕ → ℕ → Engine × Bool
sem_wait e tid res =
    if not (e.resources res).alive
    then (
      log (fail e (Failure.use_after_free tid res)) EventType.use_after_free (pos tid) (pos res)
          (pos 0),
      false,
    )
    else if not (is_thread_ctx (e.threads tid).exec_ctx)
    then (
      log (fail e (Failure.wrong_context tid (e.threads tid).exec_ctx)) EventType.context_violation
          (pos tid) (pos res) (pos (ctx_code (e.threads tid).exec_ctx)),
      false,
    )
    else sem_take (log e EventType.sem_wait (pos tid) (pos res) (e.resources res).count) tid res

-- The body of `if (sem->waiter_count > 0)` up to its event.
unfoldable pub sem_wake : Engine → ℕ → Engine
sem_wake e res =
    let sem = e.resources res in
    let best = best_waiter e.threads sem in
    let woken = sem.waiters best in
    let e1 = set_resource e res (waiter_remove sem best) in
    set_thread e1 woken (advanced (e1.threads woken))

-- The block stands twice in the source: the first copy logs a use after free and returns, so the
-- second never finds a waiter.
unfoldable pub sem_signal_rest : Engine → ℕ → ℕ → Engine
sem_signal_rest e tid res =
    let e1 = log e EventType.sem_signal (pos tid) (pos res) (e.resources res).count in
    let woken = (e1.resources res).waiters (best_waiter e1.threads (e1.resources res)) in
    if ltb 0 (e1.resources res).waiter_count
    then log (sem_wake e1 res) EventType.sem_wakeup (pos woken) (pos res) (pos 0)
    else set_resource e1 res (record (e1.resources res) { count = suc_ℤ (e1.resources res).count })

unfoldable pub sem_signal : Engine → ℕ → ℕ → Engine
sem_signal e tid res =
    if not (e.resources res).alive
    then log (fail e (Failure.use_after_free tid res)) EventType.use_after_free (pos tid) (pos res)
        (pos 0)
    else let e1 = log e EventType.sem_signal (pos tid) (pos res) (e.resources res).count in
      if ltb 0 (e1.resources res).waiter_count
      then log (sem_wake e1 res) EventType.use_after_free (pos tid) (pos res) (pos 0)
      else sem_signal_rest e1 tid res
