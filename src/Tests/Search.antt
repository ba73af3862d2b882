-- ===== src/Tests/Search.antt =====
-- Searches.
use mathlib.Core.List.{Sublistᴰ}
use chibios_smash.Base.{
  ◌↔◌, ◌≤◌, ap, inl, inr, Option, some, Option-cases, refl, all_below, for_up, ◌+◌, ℕ, pos, ◌≡◌,
  ◌<◌, to_nat, false, is_some, true, none, arith, [], ◌∷◌, contains,
}
use chibios_smash.Types.{
  Engine, Trace, max_depth, no_resource, ResourceType, ActionType, act, Scenario,
}
use chibios_smash.Dpor.{mask_bits, dpor_init}
use chibios_smash.Explorer.Persistent.{mask_of, next_dependent, compute_persistent_set}
use chibios_smash.Explorer.Persistent.Closed.{IsPersistent, compute_persistent_set-IsPersistent}
use chibios_smash.Explorer.Search.{
  Config, Search, empty_result, explore_dfs, clamp_config, explore, search_from, prepare_dpor,
  explore_node, explore_runnable, explore_state, explore_set, explore_threads, explore_choice,
  explore_thread, report_violation, restore_engine, backtrack,
}
use chibios_smash.Explorer.Search.Sound.{HasBug, explore-HasBug}
use chibios_smash.Spec.Checks.{
  check_all, check_mutex_integrity, check_sem_integrity, check_priority_inversion,
  check_owned_mutex_integrity, check_context_safety, check_stack_depth, mutex_valid, sem_valid,
  no_inversion, owner_valid, waiters_valid,
}
use chibios_smash.Engine.Step.Plain.{IsPlain}
use chibios_smash.Engine.Step.Progress.{most_steps}
use chibios_smash.Engine.Run.Plain.{HasNoDebt}
use chibios_smash.Explorer.Search.Bounded.{Reaches-most_steps, explore_iff}
use chibios_smash.Explorer.Search.Replay.{
  recorded_schedule, explore-still_fails, trace_minimize-explore,
}
use chibios_smash.Explorer.Search.Reach.{stepped, Reaches, IsBug}
use chibios_smash.Explorer.Search.Complete.{explore-IsComplete}
use chibios_smash.Explorer.Search.Restore.{IsRestored, explore_dfs-IsRestored}
use chibios_smash.Explorer.Search.Report.{IsReport, explore-IsReport}
use chibios_smash.Explorer.Search.Fuel.{explore_dfs-fuel}
use chibios_smash.Trace.{trace_log, trace_init}
use chibios_smash.Model.Queue.{owned_push, owned_pop}
use chibios_smash.Model.Mutex.{mutex_unlock, mutex_lock, mutex_try, mutex_acquire}
use chibios_smash.Engine.Init.{
  scenario_validate, thread_steps_valid, engine_init, engine_reset, reset_thread, reset_resource,
  zero_engine, zero_thread, zero_resource, zero_trace,
}
use chibios_smash.Engine.Step.{execute_step, step_thread, perform, dispatch, tick_all, tick_thread}
use chibios_smash.Engine.Run.{run_schedule, run_from}
use chibios_smash.Engine.Threads.{length, all_done, collect_runnable}
use chibios_smash.Explorer.Minimize.{trial_run, still_fails, trace_minimize}
use chibios_smash.Explorer.Minimize.Shorter.{trace_minimize-sublist}
use chibios_smash.Tests.Data.{contenders, after}

both-small : (q : ℕ) → contains (0 ∷ 1 ∷ []) q ≡ true → q < mask_bits
unfolding contains
both-small q q_in = ground arith

compute_persistent_set-IsPersistent_example :
    IsPersistent
      (next_dependent (after []))
      0
      (0 ∷ 1 ∷ [])
      (compute_persistent_set (after []) (0 ∷ 1 ∷ []))
compute_persistent_set-IsPersistent_example =
    compute_persistent_set-IsPersistent (after []) 0 (1 ∷ []) both-small

abbrev default_config : Config
default_config = record {
  enable_dpor = true;
  enable_state_caching = true;
  max_depth = pos max_depth;
  max_interleavings = 0;
  stop_on_first_bug = true;
}

explore-IsReport_example :
    IsReport (clamp_config default_config) (explore contenders default_config none).0
explore-IsReport_example = explore-IsReport contenders default_config none

abbrev start : Search
start = record { engine = after []; result = empty_result; dpor = dpor_init }

explore_dfs-IsRestored_example : IsRestored (after []) (explore_dfs 3 default_config 0 start).engine
explore_dfs-IsRestored_example = explore_dfs-IsRestored 3 default_config 0 start

explore_dfs-fuel_example :
    explore_dfs 600 default_config 0 start ≡ explore_dfs max_depth default_config 0 start
explore_dfs-fuel_example =
    explore_dfs-fuel 600 max_depth default_config 0 start (omega arith) (omega arith)

trace_minimize-sublist_example :
    Sublistᴰ (trace_minimize contenders (after []) (0 ∷ 1 ∷ [])).0.schedule (0 ∷ 1 ∷ [])
    × (length (trace_minimize contenders (after []) (0 ∷ 1 ∷ [])).0.schedule
          + (trace_minimize contenders (after []) (0 ∷ 1 ∷ [])).1
        ≡ 2)
trace_minimize-sublist_example = trace_minimize-sublist contenders (after []) (0 ∷ 1 ∷ [])

-- A schedule with a thread that the scenario does not have fails.
outsider-fails : still_fails (trial_run contenders (0 ∷ 9 ∷ [])) ≡ true
unfolding still_fails trial_run run_schedule run_from engine_init engine_reset scenario_validate
    thread_steps_valid all_below for_up reset_thread reset_resource zero_engine zero_thread
    zero_resource execute_step step_thread perform dispatch tick_all tick_thread mutex_lock
    mutex_try mutex_acquire owned_push trace_log trace_init all_done
outsider-fails = refl

-- A thread that releases a mutex that it does not own.
abbrev intruder : Scenario
intruder = record {
  thread_count = pos 1;
  resource_count = pos 1;
  priorities = λ _. pos 1;
  steps = λ _ _. act ActionType.mutex_unlock (pos 0);
  step_count = λ _. pos 1;
  res_types = λ _. ResourceType.mutex;
  sem_init = λ _. pos 0;
  associated_mutex = λ _. no_resource;
  mb_capacity = λ _. pos 0;
  stack_sizes = λ _. pos 0;
}

abbrev plain_config : Config
plain_config = record {
  enable_dpor = false;
  enable_state_caching = false;
  max_depth = pos 1;
  max_interleavings = 5;
  stop_on_first_bug = true;
}

intruder-valid : scenario_validate intruder ≡ true
unfolding scenario_validate thread_steps_valid all_below
intruder-valid = refl

intruder-traced : is_some (explore intruder plain_config none).0.failing_trace ≡ true
unfolding explore search_from clamp_config prepare_dpor dpor_init explore_dfs explore_node
    explore_runnable explore_state explore_set explore_threads explore_choice explore_thread
    report_violation restore_engine backtrack mask_of collect_runnable scenario_validate
    thread_steps_valid all_below for_up engine_init engine_reset reset_thread reset_resource
    zero_engine zero_thread zero_resource execute_step step_thread perform dispatch tick_all
    tick_thread mutex_unlock owned_pop trace_log trace_init all_done
intruder-traced = refl

explore-HasBug_example : HasBug (engine_init intruder)
explore-HasBug_example = explore-HasBug intruder plain_config none intruder-valid intruder-traced

-- A thread that does nothing, in one step.
abbrev idler : Scenario
idler = record intruder { steps = λ _ _. act ActionType.nop no_resource }

idler-valid : scenario_validate idler ≡ true
unfolding scenario_validate thread_steps_valid all_below
idler-valid = refl

idler-untraced : (explore idler plain_config none).0.failing_trace ≡ none
unfolding explore search_from clamp_config prepare_dpor dpor_init explore_dfs explore_node
    explore_runnable explore_state explore_set explore_threads explore_choice explore_thread
    report_violation restore_engine backtrack mask_of collect_runnable scenario_validate
    thread_steps_valid all_below for_up engine_init engine_reset reset_thread reset_resource
    zero_engine zero_thread zero_resource execute_step step_thread perform dispatch tick_all
    tick_thread trace_log trace_init all_done check_all check_mutex_integrity check_sem_integrity
    check_priority_inversion check_owned_mutex_integrity check_context_safety check_stack_depth
    mutex_valid sem_valid no_inversion owner_valid waiters_valid
idler-untraced = refl

idler-room :
    (explore idler plain_config none).0.interleavings
    < (clamp_config plain_config).max_interleavings
unfolding explore search_from clamp_config prepare_dpor dpor_init explore_dfs explore_node
    explore_runnable explore_state explore_set explore_threads explore_choice explore_thread
    report_violation restore_engine backtrack mask_of collect_runnable scenario_validate
    thread_steps_valid all_below for_up engine_init engine_reset reset_thread reset_resource
    zero_engine zero_thread zero_resource execute_step step_thread perform dispatch tick_all
    tick_thread trace_log trace_init all_done check_all check_mutex_integrity check_sem_integrity
    check_priority_inversion check_owned_mutex_integrity check_context_safety check_stack_depth
    mutex_valid sem_valid no_inversion owner_valid waiters_valid
idler-room = omega arith

idler-depth : 0 < to_nat (clamp_config plain_config).max_depth
unfolding clamp_config
idler-depth = omega arith

explore-IsComplete_example : ¬ IsBug (engine_init idler)
explore-IsComplete_example =
    explore-IsComplete idler plain_config none idler-valid refl refl idler-untraced idler-room 0
      (engine_init idler) Reaches.start idler-depth

trace_or_zero : Option Trace → Trace
trace_or_zero o = elim o [ none ↦ zero_trace | some t ↦ t ]

intruder_trace : Trace
intruder_trace = trace_or_zero (explore intruder plain_config none).0.failing_trace

intruder-kept : (explore intruder plain_config none).0.failing_trace ≡ some intruder_trace
unfolding intruder_trace trace_or_zero
intruder-kept = elim (Option-cases (explore intruder plain_config none).0.failing_trace) [
  | inl empty ↦ absurd (ground (arith, ap is_some empty, intruder-traced))
  | inr (t, kept) ↦ rw kept refl
]

explore-still_fails_example :
    still_fails (trial_run intruder (recorded_schedule intruder_trace)) ≡ true
explore-still_fails_example =
    explore-still_fails intruder plain_config none intruder_trace intruder-valid intruder-kept

trace_minimize-explore_example :
    still_fails (
      trial_run intruder
        (trace_minimize intruder
          (engine_init intruder)
          (recorded_schedule intruder_trace)).0.schedule)
    ≡ true
trace_minimize-explore_example =
    trace_minimize-explore intruder plain_config none intruder_trace (engine_init intruder)
      intruder-valid intruder-kept

idler-IsPlain : IsPlain idler
idler-IsPlain t s t_in more = tt

idler-HasNoDebt : HasNoDebt idler
idler-HasNoDebt r r_in is_sem = refl

idler-moves : Reaches (engine_init idler) 1 (stepped (engine_init idler) 0)
unfolding explore search_from clamp_config prepare_dpor dpor_init explore_dfs explore_node
    explore_runnable explore_state explore_set explore_threads explore_choice explore_thread
    report_violation restore_engine backtrack mask_of collect_runnable scenario_validate
    thread_steps_valid all_below for_up engine_init engine_reset reset_thread reset_resource
    zero_engine zero_thread zero_resource execute_step step_thread perform dispatch tick_all
    tick_thread trace_log trace_init all_done check_all check_mutex_integrity check_sem_integrity
    check_priority_inversion check_owned_mutex_integrity check_context_safety check_stack_depth
    mutex_valid sem_valid no_inversion owner_valid waiters_valid contains
idler-moves = Reaches.next 0 Reaches.start refl refl refl refl

Reaches-most_steps_example : 1 ≤ most_steps idler
Reaches-most_steps_example =
    Reaches-most_steps idler idler-valid idler-IsPlain idler-HasNoDebt 1
      (stepped (engine_init idler) 0) idler-moves

-- A limit of depth above the five steps that the thread can take.
abbrev deep_config : Config
deep_config = record plain_config { max_depth = pos 10 }

idler-deep : most_steps idler < to_nat (clamp_config deep_config).max_depth
unfolding most_steps clamp_config
idler-deep = omega arith

idler-deep_room :
    (explore idler deep_config none).0.interleavings < (clamp_config deep_config).max_interleavings
unfolding explore search_from clamp_config prepare_dpor dpor_init explore_dfs explore_node
    explore_runnable explore_state explore_set explore_threads explore_choice explore_thread
    report_violation restore_engine backtrack mask_of collect_runnable scenario_validate
    thread_steps_valid all_below for_up engine_init engine_reset reset_thread reset_resource
    zero_engine zero_thread zero_resource execute_step step_thread perform dispatch tick_all
    tick_thread trace_log trace_init all_done check_all check_mutex_integrity check_sem_integrity
    check_priority_inversion check_owned_mutex_integrity check_context_safety check_stack_depth
    mutex_valid sem_valid no_inversion owner_valid waiters_valid
idler-deep_room = omega arith

explore_iff_example :
    ((explore idler deep_config none).0.failing_trace ≡ none)
    ↔ ((n : ℕ) (e : Engine) → Reaches (engine_init idler) n e → ¬ IsBug e)
explore_iff_example =
    explore_iff idler idler-valid idler-IsPlain idler-HasNoDebt deep_config none refl refl
      idler-deep idler-deep_room
