-- ===== src/Engine/Step/Invariant.antt =====
-- `smash_execute_step` keeps the invariant of a plain scenario, action by action.
use chibios_smash.Base.{
  ℕ, ℤ, pos, to_nat, ltb_ℤ, ◌<◌, ◌≡◌, refl, ◌∙◌, ltb, is_negative, Bool, true, false, inl, inr,
  update, arith, Bool-cases,
}
use chibios_smash.Types.{
  ThreadState, ResourceType, Action, ActionType, EventType, is_ready, no_resource, Engine,
}
use chibios_smash.Trace.{log}
use chibios_smash.Model.Queue.{thread_count, resource_count, set_resource}
use chibios_smash.Model.Queue.Invariant.{Queues-resource, ready-not_waiting}
use chibios_smash.Model.Consistent.{CanUse}
use chibios_smash.Model.Mutex.{mutex_lock, mutex_unlock}
use chibios_smash.Model.Semaphore.{sem_wait, sem_signal}
use chibios_smash.Model.Mutex.Lock.{mutex_lock-IsConsistent}
use chibios_smash.Model.Mutex.Unlock.{mutex_unlock-IsConsistent}
use chibios_smash.Model.Semaphore.Invariant.{sem_wait-IsConsistent, sem_signal-IsConsistent}
use chibios_smash.Engine.Handlers.{
  bump_pc, bump_if, do_yield, do_finish, do_sys_lock, do_sys_unlock, do_isr_enter, do_isr_exit,
  do_object_init, do_object_destroy, do_call, do_return,
}
use chibios_smash.Engine.Init.{bad_resource}
use chibios_smash.Engine.Step.{count_step, dispatch, perform, step_thread, execute_step}
use chibios_smash.Engine.Step.Frame.{
  mutex_lock-IsFrame, mutex_unlock-IsFrame, sem_wait-IsFrame, sem_signal-IsFrame,
}
use chibios_smash.Engine.Step.Plain.{
  need, Fits, IsPlain, Running, IsRunning, Running-local, Running-frame, tick_all-idle,
}

is_ready→ready : (s : ThreadState) → is_ready s ≡ true → s ≡ ThreadState.ready
is_ready→ready ThreadState.ready h = refl
is_ready→ready _ h = cc

-- The handlers that change only what the invariant does not read.
module _ (e : Engine) (tid : ℕ) (run : IsRunning e) where
  bump_pc-IsRunning : IsRunning (bump_pc e tid)
  bump_pc-IsRunning = Running-local e (bump_pc e tid) run refl refl (λ j. ground arith)

  do_yield-IsRunning : IsRunning (do_yield e tid).0
  unfolding do_yield
  do_yield-IsRunning = Running-local e (do_yield e tid).0 run refl refl (λ j. ground arith)

  do_sys_lock-IsRunning : IsRunning (do_sys_lock e tid).0
  unfolding do_sys_lock
  do_sys_lock-IsRunning = Running-local e (do_sys_lock e tid).0 run refl refl (λ j. ground arith)

  do_sys_unlock-IsRunning : IsRunning (do_sys_unlock e tid).0
  unfolding do_sys_unlock
  do_sys_unlock-IsRunning =
      Running-local e (do_sys_unlock e tid).0 run (ground arith) (ground arith) (λ j. ground arith)

  do_isr_enter-IsRunning : IsRunning (do_isr_enter e tid).0
  unfolding do_isr_enter
  do_isr_enter-IsRunning =
      Running-local e (do_isr_enter e tid).0 run (ground arith) (ground arith) (λ j. ground arith)

  do_isr_exit-IsRunning : IsRunning (do_isr_exit e tid).0
  unfolding do_isr_exit
  do_isr_exit-IsRunning =
      Running-local e (do_isr_exit e tid).0 run (ground arith) (ground arith) (λ j. ground arith)

  do_call-IsRunning : (arg : ℤ) → IsRunning (do_call e tid arg).0
  unfolding do_call
  do_call-IsRunning arg =
      Running-local e (do_call e tid arg).0 run (ground arith) (ground arith) (λ j. ground arith)

  do_return-IsRunning : (arg : ℤ) → IsRunning (do_return e tid arg).0
  unfolding do_return
  do_return-IsRunning arg =
      Running-local e (do_return e tid arg).0 run refl refl (λ j. ground arith)

  -- A write of the lifecycle flag.
  alive-Running :
      (res : ℕ) (flag : Bool)
      → Running e.scenario e.threads
          (update e.resources res (record (e.resources res) { alive = flag }))
  alive-Running res flag = record {
    consistent = record {
      few = run.consistent.few;
      queues = Queues-resource _ _ run.consistent.queues res _ refl refl (λ w. refl);
      owners = record {
        owner_in = λ r o lt own. ground (arith, run.consistent.owners.owner_in r o);
        held = λ r lt m own. ground (arith, run.consistent.owners.held r);
      };
      ordered = λ r o w lt m own wlt. ground (arith, run.consistent.ordered r o w);
      stacks = record {
        entry = λ t k lt klt. ground (arith, run.consistent.stacks.entry t k);
        once = run.consistent.stacks.once;
      };
      semaphores = record {
        no_debt = λ r lt s. ground (arith, run.consistent.semaphores.no_debt r);
        no_lost_wakeup = λ r lt s p. ground (arith, run.consistent.semaphores.no_lost_wakeup r);
      };
    };
    typed = λ r lt. ground (arith, run.typed r);
    no_timer = run.no_timer;
  }

  -- A ready thread becomes done.
  done-Running :
      (e.threads tid).state ≡ ThreadState.ready
      → Running e.scenario
          (update e.threads tid (record (e.threads tid) { state = ThreadState.done }))
          e.resources
  done-Running runs = record {
    consistent = record {
      few = run.consistent.few;
      queues = record {
        member = run.consistent.queues.member;
        distinct = run.consistent.queues.distinct;
        waiting = λ r w lt wlt. ground (
          arith,
          run.consistent.queues.waiting r w,
          ready-not_waiting _ _ run.consistent.queues tid r w,
        );
        room = run.consistent.queues.room;
      };
      owners = run.consistent.owners;
      ordered = λ r o w lt m own wlt. ground (arith, run.consistent.ordered r o w);
      stacks = record {
        entry = λ t k lt klt. ground (arith, run.consistent.stacks.entry t k);
        once = λ t k l lt klt llt same. ground (arith, run.consistent.stacks.once t k l);
      };
      semaphores = run.consistent.semaphores;
    };
    typed = run.typed;
    no_timer = λ t lt. ground (arith, run.no_timer t);
  }

bump_if-IsRunning : (r : Engine × Bool) (tid : ℕ) → IsRunning r.0 → IsRunning (bump_if r tid).0
bump_if-IsRunning (e1, true) tid run = bump_pc-IsRunning e1 tid run
bump_if-IsRunning (e1, false) tid run = run

-- The operations, with the `pc++` that may follow.
module _ (e : Engine) (tid : ℕ) (run : IsRunning e) (lt : tid < thread_count e)
    (runs : (e.threads tid).state ≡ ThreadState.ready) where
  do_finish-IsRunning : IsRunning (do_finish e tid).0
  unfolding do_finish
  do_finish-IsRunning = elim (Bool-cases (ltb 0 (e.threads tid).owned_mutex_count)) [
    | inl holds ↦ rw holds (done-Running e tid run runs)
    | inr free ↦ rw free (done-Running e tid run runs)
  ]

  flagged : ℕ → Bool → Engine
  flagged r flag = set_resource e r (record (e.resources r) { alive = flag })

  lifecycle-IsRunning :
      (r : ℕ) → IsRunning (do_object_init e tid r).0 × IsRunning (do_object_destroy e tid r).0
  unfolding do_object_init do_object_destroy flagged
  lifecycle-IsRunning r = (
    bump_pc-IsRunning (flagged r true) tid (alive-Running e tid run r true),
    elim (Bool-cases (e.resources r).alive) [
      | inl alive ↦
          rw alive (bump_pc-IsRunning (flagged r false) tid (alive-Running e tid run r false))
      | inr dead ↦ rw dead run
    ],
  )

  module _ (k : ResourceType) (r : ℕ) where
    can_use : r < resource_count e → e.scenario.res_types r ≡ k → CanUse k e tid r
    can_use rlt e' = record {
      thread_in = lt;
      runs = runs;
      resource_in = rlt;
      kind = run.typed r rlt ∙ e';
    }

  dispatch-IsRunning :
      (a : Action) (ty : ActionType)
      → Fits e.scenario a (need ty)
      → IsRunning (dispatch e tid a ty).0
  unfolding dispatch
  dispatch-IsRunning a ActionType.mutex_lock (r, id, rlt, type) = rw id (
      bump_if-IsRunning (mutex_lock e tid r) tid (
        Running-frame run (mutex_lock-IsFrame e tid r)
          (mutex_lock-IsConsistent run.consistent (can_use _ r rlt type))))
  dispatch-IsRunning a ActionType.mutex_unlock (r, id, rlt, type) = rw id (
      bump_pc-IsRunning (mutex_unlock e tid r) tid (
        Running-frame run (mutex_unlock-IsFrame e tid r)
          (mutex_unlock-IsConsistent run.consistent (can_use _ r rlt type))))
  dispatch-IsRunning a ActionType.sem_wait (r, id, rlt, type) = rw id (
      bump_if-IsRunning (sem_wait e tid r) tid (
        Running-frame run (sem_wait-IsFrame e tid r)
          (sem_wait-IsConsistent run.consistent (can_use _ r rlt type))))
  dispatch-IsRunning a ActionType.sem_signal (r, id, rlt, type) = rw id (
      bump_pc-IsRunning (sem_signal e tid r) tid (
        Running-frame run (sem_signal-IsFrame e tid r)
          (sem_signal-IsConsistent run.consistent (can_use _ r rlt type))))
  dispatch-IsRunning a ActionType.nop fits = bump_pc-IsRunning e tid run
  dispatch-IsRunning a ActionType.yield fits = do_yield-IsRunning e tid run
  dispatch-IsRunning a ActionType.finish fits = do_finish-IsRunning
  dispatch-IsRunning a ActionType.sys_lock fits = do_sys_lock-IsRunning e tid run
  dispatch-IsRunning a ActionType.sys_unlock fits = do_sys_unlock-IsRunning e tid run
  dispatch-IsRunning a ActionType.isr_enter fits = do_isr_enter-IsRunning e tid run
  dispatch-IsRunning a ActionType.isr_exit fits = do_isr_exit-IsRunning e tid run
  dispatch-IsRunning a ActionType.object_init fits = elim (Bool-cases (is_negative a.resource_id)) [
    | inl negative ↦ rw negative run
    | inr proper ↦ rw proper (lifecycle-IsRunning (to_nat a.resource_id)).0
  ]
  dispatch-IsRunning a ActionType.object_destroy fits =
      elim (Bool-cases (is_negative a.resource_id)) [
        | inl negative ↦ rw negative run
        | inr proper ↦ rw proper (lifecycle-IsRunning (to_nat a.resource_id)).1
      ]
  dispatch-IsRunning a ActionType.call fits = do_call-IsRunning e tid run a.arg
  dispatch-IsRunning a ActionType.return fits = do_return-IsRunning e tid run a.arg
  dispatch-IsRunning a _ fits = absurd fits

count_step-IsRunning : (r : Engine × Bool) → IsRunning r.0 → IsRunning (count_step r).0
count_step-IsRunning (e, true) run = run
count_step-IsRunning (e, false) run = run

module _ (e : Engine) (tid : ℕ) (plain : IsPlain e.scenario) (lt : tid < thread_count e) where
  step_thread-IsRunning : IsRunning e → IsRunning (step_thread e tid).0
  unfolding step_thread perform
  step_thread-IsRunning run = elim (Bool-cases (is_ready (e.threads tid).state)) [
    | inr other ↦ rw other run
    | inl ready ↦ elim (Bool-cases (ltb_ℤ (pos (e.threads tid).pc) (e.scenario.step_count tid))) [
      | inr ended ↦ rw (ready, ended) (done-Running e tid run (is_ready→ready _ ready))
      | inl more ↦ elim (Bool-cases (bad_resource e.scenario a.resource_id)) [
        | inl bad ↦ rw (ready, more, bad) run
        | inr good ↦
            rw (ready, more, good)
              (count_step-IsRunning (dispatch scheduled tid a a.type) (
                dispatch-IsRunning scheduled tid run lt (is_ready→ready _ ready) a a.type
                  (plain tid (e.threads tid).pc lt more)))
      ]
    ]
  ]
    where
      scheduled : Engine
      scheduled = log e EventType.schedule (pos tid) no_resource (e.threads tid).priority

      a : Action
      a = e.scenario.steps tid (e.threads tid).pc

  -- A step of any thread of a plain scenario keeps the invariant of a running engine, whatever its
  -- action and whichever branch it takes.
  pub execute_step-IsRunning : IsRunning e → IsRunning (execute_step e tid).0
  unfolding execute_step
  execute_step-IsRunning run = rw (tick_all-idle e run.no_timer) (step_thread-IsRunning run)
