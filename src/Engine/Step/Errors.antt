-- ===== src/Engine/Step/Errors.antt =====
-- The result of `smash_execute_step` of src/engine.c: a step of a ready thread returns false only where
-- it raises a failure.
use chibios_smash.Base.{
  ℕ, ℤ, pos, ◌≡◌, refl, Bool, true, false, is_some, arith, for_up_inv, Bool-cases, inl, inr,
  is_negative, to_nat,
}
use chibios_smash.Types.{no_resource, Action, ActionType, EventType, Engine, failed, is_ready}
use chibios_smash.Trace.{log}
use chibios_smash.Model.Queue.{thread_count}
use chibios_smash.Model.Mutex.{mutex_lock, mutex_unlock}
use chibios_smash.Model.Semaphore.{sem_wait, sem_signal}
use chibios_smash.Model.Condvar.{cond_wait, cond_signal, cond_broadcast}
use chibios_smash.Model.Mailbox.{mb_post, mb_post_front, mb_fetch}
use chibios_smash.Engine.Handlers.{
  bump_pc, bump_if, do_mutex_timed_lock, do_sem_timed_wait, do_yield, do_finish, do_sys_lock,
  do_sys_unlock, do_isr_enter, do_isr_exit, do_object_init, do_object_destroy, do_call, do_return,
}
use chibios_smash.Engine.Init.{bad_resource}
use chibios_smash.Engine.Step.{
  on_resource, tick_thread, tick_all, count_step, dispatch, perform, step_thread, execute_step,
}

record IsReported (r : Engine × Bool) : Type 0 where
  fails : r.1 ≡ false → failed r.0 ≡ true

success : (e : Engine) → IsReported (e, true)
success e = record { fails = λ h. cc }

bump_if-IsReported : (r : Engine × Bool) (tid : ℕ) → IsReported (bump_if r tid)
bump_if-IsReported (e, ok) tid = record { fails = λ h. cc }

on_resource-IsReported :
    (e : Engine) (tid : ℕ) (rid : ℤ) (op : ℕ → Engine × Bool)
    → ((r : ℕ) → IsReported (op r))
    → IsReported (on_resource e tid rid op)
on_resource-IsReported e tid rid op h = elim (Bool-cases (is_negative rid)) [
  | inl negative ↦ rw negative (record { fails = λ _. refl })
  | inr proper ↦ rw proper (h (to_nat rid))
]

module _ (e : Engine) (tid : ℕ) where
  resource-IsReported :
      (res : ℕ) (arg : ℤ)
      → IsReported (do_mutex_timed_lock e tid res arg)
        × IsReported (do_sem_timed_wait e tid res arg)
        × IsReported (do_object_init e tid res)
        × IsReported (do_object_destroy e tid res)
  unfolding do_mutex_timed_lock do_sem_timed_wait do_object_init do_object_destroy
  resource-IsReported res arg = (
    record { fails = λ h. ground (arith, h) },
    record { fails = λ h. ground (arith, h) },
    record { fails = λ h. ground (arith, h) },
    record { fails = λ h. ground (arith, h) },
  )

  context-IsReported :
      IsReported (do_sys_unlock e tid)
      × IsReported (do_isr_enter e tid)
      × IsReported (do_isr_exit e tid)
      × IsReported (do_finish e tid)
      × ((arg : ℤ) → IsReported (do_call e tid arg))
  unfolding do_sys_unlock do_isr_enter do_isr_exit do_finish do_call
  context-IsReported = (
    record { fails = λ h. ground (arith, h) },
    record { fails = λ h. ground (arith, h) },
    record { fails = λ h. ground (arith, h) },
    record { fails = λ h. ground (arith, h) },
    λ arg. record { fails = λ h. ground (arith, h) },
  )

  dispatch-IsReported : (a : Action) (ty : ActionType) → IsReported (dispatch e tid a ty)
  unfolding dispatch do_yield do_sys_lock do_return
  dispatch-IsReported a ActionType.mutex_lock =
      on_resource-IsReported e tid a.resource_id (λ r. bump_if (mutex_lock e tid r) tid)
        (λ r. bump_if-IsReported (mutex_lock e tid r) tid)
  dispatch-IsReported a ActionType.mutex_timed_lock =
      on_resource-IsReported e tid a.resource_id _ (λ r. (resource-IsReported r a.arg).0)
  dispatch-IsReported a ActionType.mutex_unlock =
      on_resource-IsReported e tid a.resource_id (λ r. (bump_pc (mutex_unlock e tid r) tid, true))
        (λ r. success _)
  dispatch-IsReported a ActionType.sem_wait =
      on_resource-IsReported e tid a.resource_id (λ r. bump_if (sem_wait e tid r) tid)
        (λ r. bump_if-IsReported (sem_wait e tid r) tid)
  dispatch-IsReported a ActionType.sem_timed_wait =
      on_resource-IsReported e tid a.resource_id _ (λ r. (resource-IsReported r a.arg).1)
  dispatch-IsReported a ActionType.sem_signal =
      on_resource-IsReported e tid a.resource_id (λ r. (bump_pc (sem_signal e tid r) tid, true))
        (λ r. success _)
  dispatch-IsReported a ActionType.cond_wait =
      on_resource-IsReported e tid a.resource_id (λ r. bump_if (cond_wait e tid r) tid)
        (λ r. bump_if-IsReported (cond_wait e tid r) tid)
  dispatch-IsReported a ActionType.cond_signal =
      on_resource-IsReported e tid a.resource_id (λ r. (bump_pc (cond_signal e tid r) tid, true))
        (λ r. success _)
  dispatch-IsReported a ActionType.cond_broadcast =
      on_resource-IsReported e tid a.resource_id (λ r. (bump_pc (cond_broadcast e tid r) tid, true))
        (λ r. success _)
  dispatch-IsReported a ActionType.mb_post =
      on_resource-IsReported e tid a.resource_id (λ r. bump_if (mb_post e tid r a.arg) tid)
        (λ r. bump_if-IsReported (mb_post e tid r a.arg) tid)
  dispatch-IsReported a ActionType.mb_post_front =
      on_resource-IsReported e tid a.resource_id (λ r. bump_if (mb_post_front e tid r a.arg) tid)
        (λ r. bump_if-IsReported (mb_post_front e tid r a.arg) tid)
  dispatch-IsReported a ActionType.mb_fetch =
      on_resource-IsReported e tid a.resource_id
        (λ r. bump_if ((mb_fetch e tid r).0, is_some (mb_fetch e tid r).1) tid)
        (λ r. bump_if-IsReported ((mb_fetch e tid r).0, is_some (mb_fetch e tid r).1) tid)
  dispatch-IsReported a ActionType.yield = record { fails = λ h. cc }
  dispatch-IsReported a ActionType.finish = context-IsReported.3
  dispatch-IsReported a ActionType.nop = record { fails = λ h. cc }
  dispatch-IsReported a ActionType.sys_lock = record { fails = λ h. cc }
  dispatch-IsReported a ActionType.sys_unlock = context-IsReported.0
  dispatch-IsReported a ActionType.isr_enter = context-IsReported.1
  dispatch-IsReported a ActionType.isr_exit = context-IsReported.2
  dispatch-IsReported a ActionType.object_init =
      on_resource-IsReported e tid a.resource_id _ (λ r. (resource-IsReported r a.arg).2)
  dispatch-IsReported a ActionType.object_destroy =
      on_resource-IsReported e tid a.resource_id _ (λ r. (resource-IsReported r a.arg).3)
  dispatch-IsReported a ActionType.call = context-IsReported.4 a.arg
  dispatch-IsReported a ActionType.return = record { fails = λ h. ground (arith, h) }
  dispatch-IsReported a ActionType.cond_wait_timeout = record { fails = λ h. cc }
  dispatch-IsReported a ActionType.mb_post_timeout = record { fails = λ h. cc }
  dispatch-IsReported a ActionType.mb_fetch_timeout = record { fails = λ h. cc }

count_step-IsReported : (r : Engine × Bool) → IsReported r → IsReported (count_step r)
count_step-IsReported (e, true) h = record { fails = h.fails }
count_step-IsReported (e, false) h = record { fails = h.fails }

perform-IsReported : (e : Engine) (tid : ℕ) (a : Action) → IsReported (perform e tid a)
unfolding perform
perform-IsReported e tid a =
    let e1 = log e EventType.schedule (pos tid) no_resource (e.threads tid).priority in
    elim (Bool-cases (bad_resource e.scenario a.resource_id)) [
      | inl bad ↦ rw bad (record { fails = λ _. refl })
      | inr fine ↦
          rw fine
            (count_step-IsReported (dispatch e1 tid a a.type) (dispatch-IsReported e1 tid a a.type))
    ]

-- The timeouts leave a ready thread ready.
tick_all-ready :
    (e : Engine) (tid : ℕ)
    → is_ready (e.threads tid).state ≡ true
    → is_ready ((tick_all e).threads tid).state ≡ true
unfolding tick_all tick_thread
tick_all-ready e tid ready =
    for_up_inv (λ i s. is_ready (s.threads tid).state ≡ true) tick_thread e (thread_count e) ready
      (λ i s lt h. ground (arith, h))

-- A step of a ready thread, with any action, returns false only where it raises a failure.
pub execute_step-failed :
    (e : Engine) (tid : ℕ)
    → is_ready (e.threads tid).state ≡ true
    → (execute_step e tid).1 ≡ false
    → failed (execute_step e tid).0 ≡ true
unfolding execute_step step_thread
execute_step-failed e tid ready stopped =
    let e1 = tick_all e in
    let runs = tick_all-ready e tid ready in
    ground (
      arith,
      runs,
      stopped,
      (perform-IsReported e1 tid (e1.scenario.steps tid (e1.threads tid).pc)).fails,
    )
