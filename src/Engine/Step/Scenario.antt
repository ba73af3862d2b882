-- ===== src/Engine/Step/Scenario.antt =====
-- No step changes the scenario or the recorded schedule.
use chibios_smash.Base.{
  ℕ, zero, suc, ℤ, pos, ◌≡◌, refl, ap, ◌∙◌, Bool, true, false, is_some, arith, for_up_inv,
  Bool-cases, inl, inr, is_negative, to_nat,
}
use chibios_smash.Types.{no_resource, Action, ActionType, EventType, Scenario, Engine}
use chibios_smash.Trace.{trace_log, log}
use chibios_smash.Model.Queue.{thread_count}
use chibios_smash.Model.Mutex.{mutex_lock, mutex_unlock}
use chibios_smash.Model.Semaphore.{sem_wait, sem_signal}
use chibios_smash.Model.Condvar.{
  cond_block, cond_wait, cond_wake, cond_signal, cond_wake_all, cond_broadcast,
}
use chibios_smash.Model.Mailbox.{mb_block, mb_post, mb_post_front, mb_wake, mb_fetch}
use chibios_smash.Engine.Handlers.{
  bump_pc, bump_if, do_mutex_timed_lock, do_sem_timed_wait, do_yield, do_finish, do_sys_lock,
  do_sys_unlock, do_isr_enter, do_isr_exit, do_object_init, do_object_destroy, do_call, do_return,
}
use chibios_smash.Engine.Step.{
  on_resource, tick_thread, tick_all, count_step, dispatch, perform, step_thread, execute_step,
}
use chibios_smash.Engine.Step.Frame.{
  IsFrame, choices, mutex_lock-IsFrame, mutex_unlock-IsFrame, sem_wait-IsFrame, sem_signal-IsFrame,
}

-- The scenario and the recorded schedule.
abbrev kept : Engine → Scenario × ((ℕ → ℕ) × ℕ)
kept e = (e.scenario, choices e.trace)

IsFrame-kept : (e e' : Engine) → IsFrame e e' → kept e' ≡ kept e
IsFrame-kept e e' f = λ i. (f.scenario i, f.recorded i)

record Keeps (e : Engine) (r : Engine × Bool) : Type 0 where
  same : kept r.0 ≡ kept e

bump_if-Keeps : (e : Engine) (r : Engine × Bool) (tid : ℕ) → Keeps e r → Keeps e (bump_if r tid)
bump_if-Keeps e (e1, true) tid h = record { same = h.same }
bump_if-Keeps e (e1, false) tid h = record { same = h.same }

on_resource-Keeps :
    (e : Engine) (tid : ℕ) (rid : ℤ) (op : ℕ → Engine × Bool)
    → ((r : ℕ) → Keeps e (op r))
    → Keeps e (on_resource e tid rid op)
on_resource-Keeps e tid rid op h = elim (Bool-cases (is_negative rid)) [
  | inl negative ↦ rw negative (record { same = refl })
  | inr proper ↦ rw proper (h (to_nat rid))
]

module _ (e : Engine) (tid res : ℕ) where
  timed-Keeps :
      (arg : ℤ)
      → Keeps e (do_mutex_timed_lock e tid res arg) × Keeps e (do_sem_timed_wait e tid res arg)
  unfolding do_mutex_timed_lock do_sem_timed_wait trace_log
  timed-Keeps arg = (
    record { same = ground (arith, IsFrame-kept e _ (mutex_lock-IsFrame e tid res)) },
    record { same = ground (arith, IsFrame-kept e _ (sem_wait-IsFrame e tid res)) },
  )

  cond_wait-Keeps : Keeps e (cond_wait e tid res)
  unfolding cond_wait cond_block trace_log
  cond_wait-Keeps = record { same = ground arith }

  cond_signal-Keeps : kept (cond_signal e tid res) ≡ kept e
  unfolding cond_signal cond_wake trace_log
  cond_signal-Keeps = ground arith

cond_wake_all-Keeps : (fuel : ℕ) (e : Engine) (cond : ℕ) → kept (cond_wake_all fuel e cond) ≡ kept e
unfolding cond_wake_all cond_wake trace_log
cond_wake_all-Keeps zero e cond = refl
cond_wake_all-Keeps (suc fuel) e cond =
    ground (arith, cond_wake_all-Keeps fuel (cond_wake e cond 0) cond)

module _ (e : Engine) (tid res : ℕ) where
  cond_broadcast-Keeps : kept (cond_broadcast e tid res) ≡ kept e
  unfolding cond_broadcast trace_log
  cond_broadcast-Keeps = ground (arith, cond_wake_all-Keeps (e.resources res).waiter_count e res)

  mb_post-Keeps :
      (msg : ℤ) → Keeps e (mb_post e tid res msg) × Keeps e (mb_post_front e tid res msg)
  unfolding mb_post mb_post_front mb_block trace_log
  mb_post-Keeps msg = (record { same = ground arith }, record { same = ground arith })

  mb_fetch-Keeps : kept (mb_fetch e tid res).0 ≡ kept e
  unfolding mb_fetch mb_block mb_wake trace_log
  mb_fetch-Keeps = ground arith

  lifecycle-Keeps : Keeps e (do_object_init e tid res) × Keeps e (do_object_destroy e tid res)
  unfolding do_object_init do_object_destroy trace_log
  lifecycle-Keeps = (record { same = ground arith }, record { same = ground arith })

module _ (e : Engine) (tid : ℕ) where
  contexts-Keep :
      Keeps e (do_sys_unlock e tid)
      × Keeps e (do_isr_enter e tid)
      × Keeps e (do_isr_exit e tid)
      × Keeps e (do_finish e tid)
      × ((arg : ℤ) → Keeps e (do_call e tid arg))
  unfolding do_sys_unlock do_isr_enter do_isr_exit do_finish do_call trace_log
  contexts-Keep = (
    record { same = ground arith },
    record { same = ground arith },
    record { same = ground arith },
    record { same = ground arith },
    λ arg. record { same = ground arith },
  )

  dispatch-Keeps : (a : Action) (ty : ActionType) → Keeps e (dispatch e tid a ty)
  unfolding dispatch do_yield do_sys_lock do_return trace_log
  dispatch-Keeps a ActionType.mutex_lock = on_resource-Keeps e tid a.resource_id _ (λ r.
      bump_if-Keeps e (mutex_lock e tid r) tid
        (record { same = IsFrame-kept e _ (mutex_lock-IsFrame e tid r) }))
  dispatch-Keeps a ActionType.mutex_timed_lock =
      on_resource-Keeps e tid a.resource_id _ (λ r. (timed-Keeps e tid r a.arg).0)
  dispatch-Keeps a ActionType.mutex_unlock =
      on_resource-Keeps e tid a.resource_id (λ r. (bump_pc (mutex_unlock e tid r) tid, true))
        (λ r. record { same = IsFrame-kept e _ (mutex_unlock-IsFrame e tid r) })
  dispatch-Keeps a ActionType.sem_wait = on_resource-Keeps e tid a.resource_id _ (λ r.
      bump_if-Keeps e (sem_wait e tid r) tid
        (record { same = IsFrame-kept e _ (sem_wait-IsFrame e tid r) }))
  dispatch-Keeps a ActionType.sem_timed_wait =
      on_resource-Keeps e tid a.resource_id _ (λ r. (timed-Keeps e tid r a.arg).1)
  dispatch-Keeps a ActionType.sem_signal =
      on_resource-Keeps e tid a.resource_id (λ r. (bump_pc (sem_signal e tid r) tid, true))
        (λ r. record { same = IsFrame-kept e _ (sem_signal-IsFrame e tid r) })
  dispatch-Keeps a ActionType.cond_wait =
      on_resource-Keeps e tid a.resource_id _
        (λ r. bump_if-Keeps e (cond_wait e tid r) tid (cond_wait-Keeps e tid r))
  dispatch-Keeps a ActionType.cond_signal =
      on_resource-Keeps e tid a.resource_id (λ r. (bump_pc (cond_signal e tid r) tid, true))
        (λ r. record { same = cond_signal-Keeps e tid r })
  dispatch-Keeps a ActionType.cond_broadcast =
      on_resource-Keeps e tid a.resource_id (λ r. (bump_pc (cond_broadcast e tid r) tid, true))
        (λ r. record { same = cond_broadcast-Keeps e tid r })
  dispatch-Keeps a ActionType.mb_post =
      on_resource-Keeps e tid a.resource_id _
        (λ r. bump_if-Keeps e (mb_post e tid r a.arg) tid (mb_post-Keeps e tid r a.arg).0)
  dispatch-Keeps a ActionType.mb_post_front =
      on_resource-Keeps e tid a.resource_id _
        (λ r. bump_if-Keeps e (mb_post_front e tid r a.arg) tid (mb_post-Keeps e tid r a.arg).1)
  dispatch-Keeps a ActionType.mb_fetch = on_resource-Keeps e tid a.resource_id _ (λ r.
      bump_if-Keeps e ((mb_fetch e tid r).0, is_some (mb_fetch e tid r).1) tid
        (record { same = mb_fetch-Keeps e tid r }))
  dispatch-Keeps a ActionType.yield = record { same = ground arith }
  dispatch-Keeps a ActionType.finish = contexts-Keep.3
  dispatch-Keeps a ActionType.nop = record { same = refl }
  dispatch-Keeps a ActionType.sys_lock = record { same = ground arith }
  dispatch-Keeps a ActionType.sys_unlock = contexts-Keep.0
  dispatch-Keeps a ActionType.isr_enter = contexts-Keep.1
  dispatch-Keeps a ActionType.isr_exit = contexts-Keep.2
  dispatch-Keeps a ActionType.object_init =
      on_resource-Keeps e tid a.resource_id _ (λ r. (lifecycle-Keeps e tid r).0)
  dispatch-Keeps a ActionType.object_destroy =
      on_resource-Keeps e tid a.resource_id _ (λ r. (lifecycle-Keeps e tid r).1)
  dispatch-Keeps a ActionType.call = contexts-Keep.4 a.arg
  dispatch-Keeps a ActionType.return = record { same = ground arith }
  dispatch-Keeps a ActionType.cond_wait_timeout = record { same = refl }
  dispatch-Keeps a ActionType.mb_post_timeout = record { same = refl }
  dispatch-Keeps a ActionType.mb_fetch_timeout = record { same = refl }

count_step-Keeps : (e : Engine) (r : Engine × Bool) → Keeps e r → Keeps e (count_step r)
count_step-Keeps e (e1, true) h = record { same = h.same }
count_step-Keeps e (e1, false) h = record { same = h.same }

tick_all-kept : (e : Engine) → kept (tick_all e) ≡ kept e
unfolding tick_all tick_thread trace_log
tick_all-kept e =
    for_up_inv (λ i s. kept s ≡ kept e) tick_thread e (thread_count e) refl
      (λ i s lt same. ground arith)

step_thread-kept : (e : Engine) (tid : ℕ) → kept (step_thread e tid).0 ≡ kept e
unfolding step_thread perform trace_log
step_thread-kept e tid = ground (arith, counted.same)
  where
    a : Action
    a = e.scenario.steps tid (e.threads tid).pc

    scheduled : Engine
    scheduled = log e EventType.schedule (pos tid) no_resource (e.threads tid).priority

    counted : Keeps scheduled (count_step (dispatch scheduled tid a a.type))
    counted =
        count_step-Keeps scheduled (dispatch scheduled tid a a.type)
          (dispatch-Keeps scheduled tid a a.type)

execute_step-kept : (e : Engine) (tid : ℕ) → kept (execute_step e tid).0 ≡ kept e
unfolding execute_step
execute_step-kept e tid = step_thread-kept (tick_all e) tid ∙ tick_all-kept e

-- A step of any thread, with any action and on any branch, leaves the scenario as it is.
pub execute_step-scenario : (e : Engine) (tid : ℕ) → (execute_step e tid).0.scenario ≡ e.scenario
execute_step-scenario e tid = ap (λ p. p.0) (execute_step-kept e tid)

-- It leaves the recorded schedule too.
pub execute_step-choices :
    (e : Engine) (tid : ℕ) → choices (execute_step e tid).0.trace ≡ choices e.trace
execute_step-choices e tid = ap (λ p. p.1) (execute_step-kept e tid)
