-- ===== src/Tests/Run.antt =====
-- Runs of the scenario.
use chibios_smash.Base.{
  refl, all_below, for_up, false, arith, ◌⊎◌, ℕ, ◌↔◌, pos, ◌≡◌, true, [], ◌∷◌, ◌<◌,
}
use chibios_smash.Spec.Checks.{
  check_no_deadlock, check_sem_integrity, check_owned_mutex_integrity, check_priority_inversion,
  check_mutex_integrity,
}
use chibios_smash.Types.{
  no_resource, ActionType, act, Scenario, failed, is_ready, is_mutex, is_semaphore,
}
use chibios_smash.Engine.Step.Errors.{execute_step-failed}
use chibios_smash.Engine.Step.{execute_step, step_thread, perform, dispatch, tick_all, tick_thread}
use chibios_smash.Engine.Init.{
  scenario_validate, thread_steps_valid, engine_init, engine_reset, reset_thread, reset_resource,
  zero_engine, zero_thread, zero_resource,
}
use chibios_smash.Model.Queue.{resource_count}
use chibios_smash.Spec.Meaning.{
  IsMutexValid, IsSemaphoreValid, check_mutex_integrity_iff, check_sem_integrity_iff,
}
use chibios_smash.Spec.Deadlock.{AreDone, HasReady, check_no_deadlock_iff}
use chibios_smash.Engine.Handlers.{do_isr_enter, do_isr_exit}
use chibios_smash.Engine.Handlers.Nesting.{IsBack, do_isr_exit-do_isr_enter}
use chibios_smash.Engine.Step.Plain.{IsRunning}
use chibios_smash.Engine.Step.Invariant.{execute_step-IsRunning}
use chibios_smash.Engine.Run.Safety.{run_schedule-checks_pass, run_schedule-check_mutex_integrity}
use chibios_smash.Tests.Data.{
  locked-IsLocked, locked, locked-OwnersLive, contenders, contenders-valid, contenders-IsPlain,
  contenders-HasNoDebt, after, after_none-IsPlain, after_none-CanUse, after-IsRunning,
}

run_schedule-checks_pass_example :
    (check_sem_integrity (after (pos 0 ∷ pos 1 ∷ [])) ≡ true)
    × (check_owned_mutex_integrity (after (pos 0 ∷ pos 1 ∷ [])) ≡ true)
    × (check_priority_inversion (after (pos 0 ∷ pos 1 ∷ [])) ≡ true)
run_schedule-checks_pass_example =
    run_schedule-checks_pass contenders (pos 0 ∷ pos 1 ∷ []) contenders-valid contenders-IsPlain
      contenders-HasNoDebt

execute_step-IsRunning_example : IsRunning (execute_step (after []) 0).0
execute_step-IsRunning_example =
    execute_step-IsRunning (after []) 0 after_none-IsPlain after_none-CanUse.thread_in
      (after-IsRunning [])

run_schedule-check_mutex_integrity_example : check_mutex_integrity locked ≡ true
run_schedule-check_mutex_integrity_example =
    run_schedule-check_mutex_integrity contenders (pos 0 ∷ []) contenders-valid contenders-IsPlain
      contenders-HasNoDebt locked-OwnersLive

check_mutex_integrity_iff_example : (check_mutex_integrity locked ≡ true) ↔ (
    (r : ℕ)
    → r < resource_count locked
    → is_mutex (locked.resources r).type ≡ true
    → IsMutexValid locked (locked.resources r))
check_mutex_integrity_iff_example = check_mutex_integrity_iff locked

check_sem_integrity_iff_example : (check_sem_integrity locked ≡ true) ↔ (
    (r : ℕ)
    → r < resource_count locked
    → is_semaphore (locked.resources r).type ≡ true
    → IsSemaphoreValid locked (locked.resources r))
check_sem_integrity_iff_example = check_sem_integrity_iff locked

check_no_deadlock_iff_example :
    (check_no_deadlock locked ≡ true) ↔ (AreDone locked ⊎ HasReady locked)
check_no_deadlock_iff_example =
    check_no_deadlock_iff locked (omega (arith, locked-IsLocked.threads))

do_isr_exit-do_isr_enter_example :
    ((do_isr_enter locked 0).1 ≡ true)
    × (((do_isr_exit (do_isr_enter locked 0).0 0).1 ≡ true)
        × IsBack (locked.threads 0) ((do_isr_exit (do_isr_enter locked 0).0 0).0.threads 0))
do_isr_exit-do_isr_enter_example =
    do_isr_exit-do_isr_enter locked 0 locked-IsLocked.context
      (omega (arith, locked-IsLocked.outside))

-- A thread that locks a mutex without naming one.
abbrev stray : Scenario
stray = record contenders { steps = λ _ _. act ActionType.mutex_lock no_resource }

stray-stops : (execute_step (engine_init stray) 0).1 ≡ false
unfolding scenario_validate thread_steps_valid all_below for_up engine_init engine_reset
    reset_thread reset_resource zero_engine zero_thread zero_resource execute_step step_thread
    perform dispatch tick_all tick_thread
stray-stops = refl

stray-ready : is_ready ((engine_init stray).threads 0).state ≡ true
unfolding scenario_validate thread_steps_valid all_below for_up engine_init engine_reset
    reset_thread reset_resource zero_engine zero_thread zero_resource
stray-ready = refl

execute_step-failed_example : failed (execute_step (engine_init stray) 0).0 ≡ true
execute_step-failed_example = execute_step-failed (engine_init stray) 0 stray-ready stray-stops
