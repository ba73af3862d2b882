-- ===== src/Tests/Data.antt =====
-- A scenario of two threads that lock a mutex, signal a semaphore and unlock the mutex.
use chibios_smash.Base.{
  all_below, for_up, some, ℕ, zero, suc, ℤ, pos, ◌≡◌, refl, true, arith, List, [], ◌∷◌,
}
use chibios_smash.Types.{
  no_resource, ThreadState, ResourceType, ActionType, Action, act, Scenario, Engine,
}
use chibios_smash.Trace.{trace_log, trace_init}
use chibios_smash.Model.Queue.{owned_push, resource_count, thread_count}
use chibios_smash.Model.Mutex.{mutex_lock, mutex_try, mutex_acquire}
use chibios_smash.Engine.Threads.{all_done}
use chibios_smash.Engine.Step.{execute_step, step_thread, perform, dispatch, tick_all, tick_thread}
use chibios_smash.Engine.Run.Safety.{OwnersLive}
use chibios_smash.Model.Mutex.Pair.{IsFree}
use chibios_smash.Engine.Handlers.Nesting.{HasContext}
use chibios_smash.Model.Consistent.{CanUse}
use chibios_smash.Engine.Init.{
  scenario_validate, thread_steps_valid, engine_init, engine_reset, reset_thread, reset_resource,
  zero_engine, zero_thread, zero_resource,
}
use chibios_smash.Engine.Run.{run_schedule, run_from}
use chibios_smash.Engine.Run.Plain.{HasNoDebt, run_schedule-IsRunning}
use chibios_smash.Engine.Step.Plain.{IsPlain, IsRunning}

abbrev pub contender_steps : ℕ → ℕ → Action
contender_steps t zero = act ActionType.mutex_lock (pos 0)
contender_steps t (suc zero) = act ActionType.sem_signal (pos 1)
contender_steps t (suc (suc zero)) = act ActionType.mutex_unlock (pos 0)
contender_steps t _ = act ActionType.nop no_resource

abbrev pub contender_types : ℕ → ResourceType
contender_types zero = ResourceType.mutex
contender_types _ = ResourceType.semaphore

abbrev pub contenders : Scenario
contenders = record {
  thread_count = pos 2;
  resource_count = pos 2;
  priorities = λ t. pos t;
  steps = contender_steps;
  step_count = λ _. pos 3;
  res_types = contender_types;
  sem_init = λ _. pos 1;
  associated_mutex = λ _. no_resource;
  mb_capacity = λ _. pos 0;
  stack_sizes = λ _. pos 0;
}

pub contenders-valid : scenario_validate contenders ≡ true
unfolding scenario_validate thread_steps_valid all_below
contenders-valid = refl

pub contenders-IsPlain : IsPlain contenders
contenders-IsPlain t zero t_in more = (0, refl, omega arith, refl)
contenders-IsPlain t (suc zero) t_in more = (1, refl, omega arith, refl)
contenders-IsPlain t (suc (suc zero)) t_in more = (0, refl, omega arith, refl)
contenders-IsPlain t (suc (suc (suc s))) t_in more = tt

pub contenders-HasNoDebt : HasNoDebt contenders
contenders-HasNoDebt r r_in is_sem = refl

-- The state after a schedule, in which thread 0 has locked the mutex for example.
abbrev pub after : List ℤ → Engine
after schedule = (run_schedule (engine_init contenders) schedule).0

-- Thread 0 can start, and owns the mutex then.
pub after_none-CanUse : CanUse ResourceType.mutex (after []) 0 0
unfolding run_schedule run_from engine_init engine_reset scenario_validate thread_steps_valid
    all_below for_up reset_thread reset_resource zero_engine zero_thread zero_resource
after_none-CanUse = record {
  thread_in = omega arith;
  runs = refl;
  resource_in = omega arith;
  kind = refl;
}

pub after_none-IsFree : IsFree (after []) 0 0
unfolding run_schedule run_from engine_init engine_reset scenario_validate thread_steps_valid
    all_below for_up reset_thread reset_resource zero_engine zero_thread zero_resource
after_none-IsFree = record {
  alive = refl;
  context = refl;
  owner = refl;
  waiters = refl;
  room = omega arith;
}

pub after_none-IsPlain : IsPlain (after []).scenario
unfolding run_schedule run_from engine_init engine_reset scenario_validate thread_steps_valid
    all_below zero_engine
after_none-IsPlain = contenders-IsPlain

-- The state after thread 0 has run once.
abbrev pub locked : Engine
locked = after (pos 0 ∷ [])

pub record IsLocked (e : Engine) : Type 0 where
  pub owner : (e.resources 0).owner ≡ some 0
  pub state : (e.threads 0).state ≡ ThreadState.ready
  pub first : (e.resources 0).type ≡ ResourceType.mutex
  pub second : (e.resources 1).type ≡ ResourceType.semaphore
  pub context : HasContext (e.threads 0)
  pub outside : (e.threads 0).isr_depth ≡ 0
  pub threads : thread_count e ≡ 2
  pub resources : resource_count e ≡ 2

pub locked-IsLocked : IsLocked locked
unfolding run_schedule run_from engine_init engine_reset scenario_validate thread_steps_valid
    all_below for_up reset_thread reset_resource zero_engine zero_thread zero_resource execute_step
    step_thread perform dispatch tick_all tick_thread mutex_lock mutex_try mutex_acquire owned_push
    trace_log trace_init all_done
locked-IsLocked = record {
  owner = refl;
  state = refl;
  first = refl;
  second = refl;
  context = refl;
  outside = refl;
  threads = refl;
  resources = refl;
}

pub locked-CanUse : CanUse ResourceType.mutex locked 0 0
locked-CanUse = record {
  thread_in = omega (arith, locked-IsLocked.threads);
  runs = locked-IsLocked.state;
  resource_in = omega (arith, locked-IsLocked.resources);
  kind = locked-IsLocked.first;
}

pub locked-CanSignal : CanUse ResourceType.semaphore locked 0 1
locked-CanSignal = record {
  thread_in = omega (arith, locked-IsLocked.threads);
  runs = locked-IsLocked.state;
  resource_in = omega (arith, locked-IsLocked.resources);
  kind = locked-IsLocked.second;
}

pub locked-OwnersLive : OwnersLive locked
locked-OwnersLive zero o r_in mutex own =
    let same : o ≡ 0 = ground (arith, locked-IsLocked.owner) in
    rw (same, locked-IsLocked.state) refl
locked-OwnersLive (suc zero) o r_in mutex own = ground (arith, locked-IsLocked.second)
locked-OwnersLive (suc (suc r)) o r_in mutex own = ground (arith, locked-IsLocked.resources)

pub after-IsRunning : (schedule : List ℤ) → IsRunning (after schedule)
after-IsRunning schedule =
    run_schedule-IsRunning contenders schedule contenders-valid contenders-IsPlain
      contenders-HasNoDebt
