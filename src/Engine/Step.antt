-- ===== src/Engine/Step.antt =====
-- `smash_execute_step` of src/engine.c: the timeouts, the checks, the dispatch and the step counter.
pub mod Frame
pub mod Scenario
pub mod Plain
pub mod View
pub mod Errors
pub mod Progress
pub mod Invariant
use chibios_smash.Base.{
  ℕ, ◌+◌, ◌%◌, ◌^◌, ℤ, pos, negsuc, to_nat, ltb_ℤ, pred_ℤ, eqb_ℤ, is_positive, is_negative, is_some,
  Bool, true, false, not, ◌&&◌, ◌||◌, none, if◌then◌else◌, for_up,
}
use chibios_smash.Types.{
  no_resource, ThreadState, is_ready, is_blocked_mutex, is_blocked_sem, Thread, Action, ActionType,
  EventType, Failure, Engine,
}
use chibios_smash.Trace.{log, fail}
use chibios_smash.Model.Queue.{set_thread, thread_count}
use chibios_smash.Model.Mutex.{mutex_lock, mutex_unlock}
use chibios_smash.Model.Semaphore.{sem_wait, sem_signal}
use chibios_smash.Model.Condvar.{cond_wait, cond_signal, cond_broadcast}
use chibios_smash.Model.Mailbox.{mb_post, mb_post_front, mb_fetch}
use chibios_smash.Engine.Init.{bad_resource}
use chibios_smash.Engine.Handlers.{
  bump_pc, bump_if, do_mutex_timed_lock, do_sem_timed_wait, do_yield, do_finish, do_sys_lock,
  do_sys_unlock, do_isr_enter, do_isr_exit, do_object_init, do_object_destroy, do_call, do_return,
}

-- A thread whose timeout has come to its end.
unfoldable pub expired : Thread → Thread
expired t = record t {
  state = ThreadState.ready;
  blocked_on = none;
  pc = t.pc + 1;
  timeout_ticks = negsuc 0;
}

-- One round of the loop over the blocked threads. The event is chosen by the state after it has been
-- set to ready, as in the source.
unfoldable pub tick_thread : ℕ → Engine → Engine
tick_thread i e =
    let t = e.threads i in
    let ticks = pred_ℤ t.timeout_ticks in
    let event =
      if is_blocked_mutex (expired t).state
      then EventType.mutex_timeout_expired
      else EventType.sem_timeout_expired in
    if (is_blocked_mutex t.state || is_blocked_sem t.state) && is_positive t.timeout_ticks
    then if eqb_ℤ ticks (pos 0)
      then log (set_thread e i (expired t)) event (pos i) no_resource (pos 0)
      else set_thread e i (record t { timeout_ticks = ticks })
    else e

unfoldable pub tick_all : Engine → Engine
tick_all e = for_up (thread_count e) tick_thread e

-- An operation on the resource of an action. The check above the `switch` lets -1 through, and the
-- source then reads `resources[-1]`: that is the failure `undefined_access` here.
abbrev pub on_resource : Engine → ℕ → ℤ → (ℕ → Engine × Bool) → Engine × Bool
on_resource e tid rid op =
    if is_negative rid then (fail e (Failure.undefined_access tid), false) else op (to_nat rid)

-- The `switch`. The three actions at the end have no case in the source: nothing happens.
unfoldable pub dispatch : Engine → ℕ → Action → ActionType → Engine × Bool
dispatch e tid a ActionType.mutex_lock =
    on_resource e tid a.resource_id (λ r. bump_if (mutex_lock e tid r) tid)
dispatch e tid a ActionType.mutex_timed_lock =
    on_resource e tid a.resource_id (λ r. do_mutex_timed_lock e tid r a.arg)
dispatch e tid a ActionType.mutex_unlock =
    on_resource e tid a.resource_id (λ r. (bump_pc (mutex_unlock e tid r) tid, true))
dispatch e tid a ActionType.sem_wait =
    on_resource e tid a.resource_id (λ r. bump_if (sem_wait e tid r) tid)
dispatch e tid a ActionType.sem_timed_wait =
    on_resource e tid a.resource_id (λ r. do_sem_timed_wait e tid r a.arg)
dispatch e tid a ActionType.sem_signal =
    on_resource e tid a.resource_id (λ r. (bump_pc (sem_signal e tid r) tid, true))
dispatch e tid a ActionType.cond_wait =
    on_resource e tid a.resource_id (λ r. bump_if (cond_wait e tid r) tid)
dispatch e tid a ActionType.cond_signal =
    on_resource e tid a.resource_id (λ r. (bump_pc (cond_signal e tid r) tid, true))
dispatch e tid a ActionType.cond_broadcast =
    on_resource e tid a.resource_id (λ r. (bump_pc (cond_broadcast e tid r) tid, true))
dispatch e tid a ActionType.mb_post =
    on_resource e tid a.resource_id (λ r. bump_if (mb_post e tid r a.arg) tid)
dispatch e tid a ActionType.mb_post_front =
    on_resource e tid a.resource_id (λ r. bump_if (mb_post_front e tid r a.arg) tid)
dispatch e tid a ActionType.mb_fetch =
    on_resource e tid a.resource_id
      (λ r. let (e1, msg) = mb_fetch e tid r in bump_if (e1, is_some msg) tid)
dispatch e tid a ActionType.yield = do_yield e tid
dispatch e tid a ActionType.finish = do_finish e tid
dispatch e tid a ActionType.nop = (bump_pc e tid, true)
dispatch e tid a ActionType.sys_lock = do_sys_lock e tid
dispatch e tid a ActionType.sys_unlock = do_sys_unlock e tid
dispatch e tid a ActionType.isr_enter = do_isr_enter e tid
dispatch e tid a ActionType.isr_exit = do_isr_exit e tid
dispatch e tid a ActionType.object_init =
    on_resource e tid a.resource_id (λ r. do_object_init e tid r)
dispatch e tid a ActionType.object_destroy =
    on_resource e tid a.resource_id (λ r. do_object_destroy e tid r)
dispatch e tid a ActionType.call = do_call e tid a.arg
dispatch e tid a ActionType.return = do_return e tid a.arg
dispatch e tid a ActionType.cond_wait_timeout = (e, true)
dispatch e tid a ActionType.mb_post_timeout = (e, true)
dispatch e tid a ActionType.mb_fetch_timeout = (e, true)

-- The end of the function: `engine->step_counter++` in 32 bits, unless a case has returned.
abbrev pub count_step : Engine × Bool → Engine × Bool
count_step (e, ok) =
    ((if ok then record e { step_counter = (e.step_counter + 1) % 2 ^ 32 } else e), ok)

-- A step of a thread that is ready at a step of its scenario.
unfoldable pub perform : Engine → ℕ → Action → Engine × Bool
perform e tid a =
    if bad_resource e.scenario a.resource_id
    then (fail e (Failure.resource_out_of_range tid (e.threads tid).pc a.resource_id), false)
    else count_step (
        dispatch (log e EventType.schedule (pos tid) no_resource (e.threads tid).priority) tid a
          a.type)

-- What follows the timeouts.
unfoldable pub step_thread : Engine → ℕ → Engine × Bool
step_thread e tid =
    let t = e.threads tid in
    if not (is_ready t.state)
    then (e, false)
    else if not (ltb_ℤ (pos t.pc) (e.scenario.step_count tid))
    then (
      log (set_thread e tid (record t { state = ThreadState.done })) EventType.thread_done (pos tid)
          no_resource (pos 0),
      true,
    )
    else perform e tid (e.scenario.steps tid t.pc)

unfoldable pub execute_step : Engine → ℕ → Engine × Bool
execute_step e tid = step_thread (tick_all e) tid
