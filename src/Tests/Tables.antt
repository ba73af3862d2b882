-- ===== src/Tests/Tables.antt =====
-- The table of visited states, the dependency test, the sleep sets and the backtrack points.
use chibios_smash.Base.{
  ◌↔◌, if◌then◌else◌, all_below, for_up, ℕ, pos, ◌≡◌, ◌<◌, ◌+◌, refl, true, some, arith, [], ◌∷◌,
  contains, ◌&&◌, ◌||◌, ◌==◌,
}
use chibios_smash.Types.{max_backtrack, ActionType, Engine}
use chibios_smash.State.Hash.{state_equal}
use chibios_smash.Engine.Threads.{Snapshot}
use chibios_smash.State.Table.{state_visited, mark_from, state_mark_visited}
use chibios_smash.State.Table.Set.{
  IsWellPlaced, state_mark_visited-IsWellPlaced, state_mark_visited-visited,
}
use chibios_smash.Trace.{trace_log, trace_init}
use chibios_smash.Model.Queue.{owned_push}
use chibios_smash.Model.Mutex.{mutex_lock, mutex_try, mutex_acquire}
use chibios_smash.Engine.Init.{
  scenario_validate, thread_steps_valid, engine_init, engine_reset, reset_thread, reset_resource,
  zero_engine, zero_thread, zero_resource,
}
use chibios_smash.Engine.Threads.{all_done}
use chibios_smash.Engine.Step.{execute_step, step_thread, perform, dispatch, tick_all, tick_thread}
use chibios_smash.Engine.Run.{run_schedule, run_from}
use chibios_smash.Dpor.{
  Dpor, analyze_thread, mask_bits, dpor_init, dpor_record, dependent, sleep_contains, sleep_add,
  sleep_propagate, dpor_analyze, next_backtrack,
}
use chibios_smash.Dpor.Sleep.{sleep_propagate-contains}
use chibios_smash.Dpor.Exhaustive.{IsListed, dpor_analyze_iff}
use chibios_smash.Dpor.Backtrack.{IsAlternative, IsAnalysis, dpor_analyze-IsAnalysis}
use chibios_smash.Tests.Data.{locked}

abbrev fresh : Engine
fresh = record locked { state_ht = λ _. 0; state_hash_count = 0 }

fresh-IsWellPlaced : IsWellPlaced fresh
fresh-IsWellPlaced s used = absurd (used refl)

fresh-marks : (state_mark_visited fresh 7).1 ≡ true
unfolding state_mark_visited mark_from
fresh-marks = refl

state_mark_visited-IsWellPlaced_example : IsWellPlaced (state_mark_visited fresh 7).0
state_mark_visited-IsWellPlaced_example =
    state_mark_visited-IsWellPlaced fresh 7 (λ h. omega arith) fresh-IsWellPlaced fresh-marks

state_mark_visited-visited_example :
    state_visited (state_mark_visited fresh 7).0 9 ≡ ((7 == 9) || state_visited fresh 9)
state_mark_visited-visited_example =
    state_mark_visited-visited fresh 7 9 (λ h. omega arith) fresh-IsWellPlaced fresh-marks

pair-small : (q : ℕ) → contains (0 ∷ 1 ∷ []) q ≡ true → q < mask_bits
unfolding contains
pair-small q q_in = ground arith

sleep_propagate-contains_example :
    sleep_contains (sleep_propagate (sleep_add dpor_init 2 1) 2 (0 ∷ 1 ∷ [])) 3 1 ≡ (
      (3 == (2 + 1) && (contains (0 ∷ 1 ∷ []) 1 && sleep_contains (sleep_add dpor_init 2 1) 2 1))
      || sleep_contains (sleep_add dpor_init 2 1) 3 1)
sleep_propagate-contains_example =
    sleep_propagate-contains (sleep_add dpor_init 2 1) 2 (0 ∷ 1 ∷ []) 3 1 (omega arith) pair-small

-- Thread 0 has locked the mutex, which thread 1 wants to lock.
abbrev recorded : Dpor
recorded = dpor_record dpor_init 0 (pos 0) ActionType.mutex_lock

recorded-fresh : recorded.backtrack_count ≡ 0
unfolding dpor_record dpor_init
recorded-fresh = refl

dpor_analyze-IsAnalysis_example : IsAnalysis recorded locked (dpor_analyze recorded locked)
dpor_analyze-IsAnalysis_example = dpor_analyze-IsAnalysis recorded locked recorded-fresh

recorded-point : (next_backtrack (dpor_analyze recorded locked)).1 ≡ some (0, 1)
unfolding run_schedule run_from engine_init engine_reset scenario_validate thread_steps_valid
    all_below for_up reset_thread reset_resource zero_engine zero_thread zero_resource execute_step
    step_thread perform dispatch tick_all tick_thread mutex_lock mutex_try mutex_acquire owned_push
    trace_log trace_init all_done dpor_init dpor_record dpor_analyze analyze_thread next_backtrack
    dependent
recorded-point = refl

recorded-room : (dpor_analyze recorded locked).backtrack_count < max_backtrack
unfolding run_schedule run_from engine_init engine_reset scenario_validate thread_steps_valid
    all_below for_up reset_thread reset_resource zero_engine zero_thread zero_resource execute_step
    step_thread perform dispatch tick_all tick_thread mutex_lock mutex_try mutex_acquire owned_push
    trace_log trace_init all_done dpor_init dpor_record dpor_analyze analyze_thread dependent
recorded-room = omega arith

dpor_analyze_iff_example :
    IsListed (dpor_analyze recorded locked) 0 1 ↔ IsAlternative recorded locked 0 1
dpor_analyze_iff_example = dpor_analyze_iff recorded locked recorded-fresh recorded-room 0 1

-- Two snapshots of two threads that differ beyond the count.
abbrev seen : Snapshot
seen = record {
  thread_states = λ _. 0;
  thread_pcs = λ i. i;
  thread_priorities = λ _. 3;
  thread_exec_ctx = λ _. 0;
  thread_sys_lock_depth = λ _. 0;
  mutex_owners = λ _. 255;
  sem_counts = λ _. 1;
  resource_alive = λ _. 1;
  thread_count = 2;
  resource_count = 1;
}

abbrev seen_again : Snapshot
seen_again = record seen { thread_states = λ i. if i == 2 then 7 else 0 }

seen-equal : state_equal seen seen_again ≡ true
unfolding state_equal all_below
seen-equal = refl
