-- ===== src/Engine/Step/View.antt =====
-- A step of src/engine.c reads and writes nothing of the bookkeeping of a search in the engine: the
-- greatest depth and the table of visited hashes.
pub mod Operations
use chibios_smash.Base.{
  ℕ, zero, suc, ℤ, pos, ◌≡◌, refl, ap, ◌∙◌, Bool, true, false, Option, none, some, Option-cases,
  is_some, is_negative, to_nat, for_up, arith, Bool-cases, inl, inr,
}
use chibios_smash.Types.{no_resource, Action, ActionType, EventType, Thread, Engine}
use chibios_smash.Trace.{log}
use chibios_smash.Model.Queue.{
  recalc_priority, recalc_round, max_waiter_priority, set_thread, owned_push, owned_pop, waiter_add,
  waiter_remove, thread_count,
}
use chibios_smash.Model.Mutex.{
  mutex_acquire, mutex_block, mutex_try, mutex_lock, mutex_hand_over, mutex_release, mutex_unlock,
}
use chibios_smash.Model.Semaphore.{
  sem_block, sem_take, sem_wait, sem_wake, sem_signal_rest, sem_signal,
}
use chibios_smash.Model.Condvar.{
  cond_block, cond_wait, cond_wake, cond_signal, cond_wake_all, cond_broadcast,
}
use chibios_smash.Model.Mailbox.{mb_block, mb_post, mb_post_front, mb_wake, mb_fetch}
use chibios_smash.Engine.Handlers.{
  bump_pc, bump_if, do_mutex_timed_lock, do_sem_timed_wait, do_yield, do_finish, do_sys_lock,
  do_sys_unlock, do_isr_enter, do_isr_exit, do_object_init, do_object_destroy, do_call, do_return,
}
use chibios_smash.Engine.Init.{bad_resource}
use chibios_smash.Engine.Step.{
  on_resource, tick_thread, tick_all, count_step, dispatch, perform, step_thread, execute_step,
}
pub use chibios_smash.Engine.Step.View.Operations.{Books, with_books, with_books_of}
use chibios_smash.Engine.Step.View.Operations.{
  mutex_try-with_books, sem_wait-with_books, sem_signal-with_books, recalc_priority-with_books,
  cond_signal-with_books, cond_wait-with_books, mb_post-with_books, mb_post_front-with_books,
  mb_fetch-with_books, lifecycle-with_books, mutex_release-with_books, mutex_unlock-with_books,
  mutex_lock-with_books, cond_wake_all-with_books, cond_broadcast-with_books, bump_if-with_books,
  timed-with_books, contexts-with_books,
}

on_resource-with_books :
    (b : Books) (e : Engine) (tid : ℕ) (rid : ℤ) (op : Engine → ℕ → Engine × Bool)
    → ((r : ℕ) → op (with_books b e) r ≡ with_books_of b (op e r))
    → on_resource (with_books b e) tid rid (op (with_books b e))
      ≡ with_books_of b (on_resource e tid rid (op e))
on_resource-with_books b e tid rid op h = elim (Bool-cases (is_negative rid)) [
  | inl negative ↦ rw negative refl
  | inr proper ↦ rw proper (h (to_nat rid))
]

bumped :
    (b : Books) (tid : ℕ) (r' r : Engine × Bool)
    → r' ≡ with_books_of b r
    → bump_if r' tid ≡ with_books_of b (bump_if r tid)
bumped b tid r' r h = ap (λ p. bump_if p tid) h ∙ bump_if-with_books b r tid

stepped :
    (b : Books) (tid : ℕ) (e' e : Engine)
    → e' ≡ with_books b e
    → (bump_pc e' tid, true) ≡ with_books_of b (bump_pc e tid, true)
stepped b tid e' e h = ap (λ x. (bump_pc x tid, true)) h

module _ (b : Books) (e : Engine) (tid : ℕ) where
  dispatch-with_books :
      (a : Action) (ty : ActionType)
      → dispatch (with_books b e) tid a ty ≡ with_books_of b (dispatch e tid a ty)
  unfolding dispatch do_yield do_sys_lock do_return
  dispatch-with_books a ActionType.mutex_lock =
      on_resource-with_books b e tid a.resource_id (λ x r. bump_if (mutex_lock x tid r) tid)
        (λ r. bumped b tid _ (mutex_lock e tid r) (mutex_lock-with_books b e tid r))
  dispatch-with_books a ActionType.mutex_timed_lock =
      on_resource-with_books b e tid a.resource_id (λ x r. do_mutex_timed_lock x tid r a.arg)
        (λ r. (timed-with_books b e tid r a.arg).0)
  dispatch-with_books a ActionType.mutex_unlock =
      on_resource-with_books b e tid a.resource_id
        (λ x r. (bump_pc (mutex_unlock x tid r) tid, true))
        (λ r. stepped b tid _ (mutex_unlock e tid r) (mutex_unlock-with_books b e tid r))
  dispatch-with_books a ActionType.sem_wait =
      on_resource-with_books b e tid a.resource_id (λ x r. bump_if (sem_wait x tid r) tid)
        (λ r. bumped b tid _ (sem_wait e tid r) (sem_wait-with_books b e tid r))
  dispatch-with_books a ActionType.sem_timed_wait =
      on_resource-with_books b e tid a.resource_id (λ x r. do_sem_timed_wait x tid r a.arg)
        (λ r. (timed-with_books b e tid r a.arg).1)
  dispatch-with_books a ActionType.sem_signal =
      on_resource-with_books b e tid a.resource_id (λ x r. (bump_pc (sem_signal x tid r) tid, true))
        (λ r. stepped b tid _ (sem_signal e tid r) (sem_signal-with_books b e tid r))
  dispatch-with_books a ActionType.cond_wait =
      on_resource-with_books b e tid a.resource_id (λ x r. bump_if (cond_wait x tid r) tid)
        (λ r. bumped b tid _ (cond_wait e tid r) (cond_wait-with_books b e tid r))
  dispatch-with_books a ActionType.cond_signal =
      on_resource-with_books b e tid a.resource_id
        (λ x r. (bump_pc (cond_signal x tid r) tid, true))
        (λ r. stepped b tid _ (cond_signal e tid r) (cond_signal-with_books b e tid r))
  dispatch-with_books a ActionType.cond_broadcast =
      on_resource-with_books b e tid a.resource_id
        (λ x r. (bump_pc (cond_broadcast x tid r) tid, true))
        (λ r. stepped b tid _ (cond_broadcast e tid r) (cond_broadcast-with_books b e tid r))
  dispatch-with_books a ActionType.mb_post =
      on_resource-with_books b e tid a.resource_id (λ x r. bump_if (mb_post x tid r a.arg) tid)
        (λ r. bumped b tid _ (mb_post e tid r a.arg) (mb_post-with_books b e tid r a.arg))
  dispatch-with_books a ActionType.mb_post_front =
      on_resource-with_books b e tid a.resource_id
        (λ x r. bump_if (mb_post_front x tid r a.arg) tid)
        (λ r.
          bumped b tid _ (mb_post_front e tid r a.arg) (mb_post_front-with_books b e tid r a.arg))
  dispatch-with_books a ActionType.mb_fetch =
      on_resource-with_books b e tid a.resource_id
        (λ x r. bump_if ((mb_fetch x tid r).0, is_some (mb_fetch x tid r).1) tid)
        (λ r.
          bumped b tid _ ((mb_fetch e tid r).0, is_some (mb_fetch e tid r).1)
            (ap (λ p. (p.0, is_some p.1)) (mb_fetch-with_books b e tid r)))
  dispatch-with_books a ActionType.yield = refl
  dispatch-with_books a ActionType.finish = (contexts-with_books b e tid).3
  dispatch-with_books a ActionType.nop = refl
  dispatch-with_books a ActionType.sys_lock = refl
  dispatch-with_books a ActionType.sys_unlock = (contexts-with_books b e tid).0
  dispatch-with_books a ActionType.isr_enter = (contexts-with_books b e tid).1
  dispatch-with_books a ActionType.isr_exit = (contexts-with_books b e tid).2
  dispatch-with_books a ActionType.object_init =
      on_resource-with_books b e tid a.resource_id (λ x r. do_object_init x tid r)
        (λ r. (lifecycle-with_books b e tid r).0)
  dispatch-with_books a ActionType.object_destroy =
      on_resource-with_books b e tid a.resource_id (λ x r. do_object_destroy x tid r)
        (λ r. (lifecycle-with_books b e tid r).1)
  dispatch-with_books a ActionType.call = (contexts-with_books b e tid).4 a.arg
  dispatch-with_books a ActionType.return = refl
  dispatch-with_books a ActionType.cond_wait_timeout = refl
  dispatch-with_books a ActionType.mb_post_timeout = refl
  dispatch-with_books a ActionType.mb_fetch_timeout = refl

count_step-with_books :
    (b : Books) (r : Engine × Bool)
    → count_step (with_books_of b r) ≡ with_books_of b (count_step r)
count_step-with_books b (e, true) = refl
count_step-with_books b (e, false) = refl

perform-with_books :
    (b : Books) (e : Engine) (tid : ℕ) (a : Action)
    → perform (with_books b e) tid a ≡ with_books_of b (perform e tid a)
unfolding perform
perform-with_books b e tid a =
    let e1 = log e EventType.schedule (pos tid) no_resource (e.threads tid).priority in
    let same =
      ap count_step (dispatch-with_books b e1 tid a a.type)
      ∙ count_step-with_books b (dispatch e1 tid a a.type) in
    elim (Bool-cases (bad_resource e.scenario a.resource_id)) [
      | inl bad ↦ rw bad refl
      | inr fine ↦ rw fine same
    ]

step_thread-with_books :
    (b : Books) (e : Engine) (tid : ℕ)
    → step_thread (with_books b e) tid ≡ with_books_of b (step_thread e tid)
unfolding step_thread
step_thread-with_books b e tid =
    ground (arith, perform-with_books b e tid (e.scenario.steps tid (e.threads tid).pc))

tick_thread-with_books :
    (b : Books) (i : ℕ) (e : Engine)
    → tick_thread i (with_books b e) ≡ with_books b (tick_thread i e)
unfolding tick_thread
tick_thread-with_books b i e = ground arith

ticks-with_books :
    (b : Books) (n : ℕ) (e : Engine)
    → for_up n tick_thread (with_books b e) ≡ with_books b (for_up n tick_thread e)
unfolding for_up
ticks-with_books b zero e = refl
ticks-with_books b (suc n) e =
    ap (tick_thread n) (ticks-with_books b n e)
    ∙ tick_thread-with_books b n (for_up n tick_thread e)

-- A step commutes with a change of the bookkeeping.
pub execute_step-with_books :
    (b : Books) (e : Engine) (tid : ℕ)
    → execute_step (with_books b e) tid ≡ with_books_of b (execute_step e tid)
unfolding execute_step tick_all
execute_step-with_books b e tid =
    ap (λ x. step_thread x tid) (ticks-with_books b (thread_count e) e)
    ∙ step_thread-with_books b (for_up (thread_count e) tick_thread e) tid
