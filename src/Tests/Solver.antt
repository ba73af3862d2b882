-- ===== src/Tests/Solver.antt =====
-- A scenario with a critical section in each thread and a semaphore between them, a schedule of it, a
-- solver that guesses that schedule, and two threads that wait for each other.
use chibios_smash.Base.{
  count_of, ℕ, zero, suc, ◌+◌, ◌*◌, ◌-◌, ◌≡◌, ◌≢◌, ◌↔◌, refl, ℤ, pos, true, false, some, List, [],
  ◌∷◌, if◌then◌else◌, all_in, concat_below, concat_from, for_up, all_below, arith,
}
use chibios_smash.Types.{
  no_resource, ThreadState, ResourceType, ActionType, Action, act, Scenario, Engine,
}
use chibios_smash.Tests.Data.{after}
use chibios_smash.Engine.Init.{
  scenario_validate, thread_steps_valid, engine_init, engine_reset, reset_thread, reset_resource,
  zero_engine, zero_thread, zero_resource,
}
use chibios_smash.Engine.Run.{run_schedule, run_from}
use chibios_smash.Spec.Circular.{
  out_of_fuel, search_cycle, check_circular_wait, passed, from_starts, start_next, start_from,
  dfs_loop, while_top, continue, round, take, push, scan, waits_for, add_edge, waited_owner,
  owner_of_blocker,
}
use chibios_smash.Spec.Circular.Waiting.{Waits, check_circular_wait_iff, search_cycle-fuel}
use chibios_smash.Smt.{
  Name, step, prog_order, prog_order_next, Command, allows, formula_holds, atom_holds, any_holds,
  all_differ, differs, value,
}
use chibios_smash.Smt.Export.{
  smt_export, each_step, program_order, assert_all, exclusion, exclusive_with, matching_unlock,
  first_unlock, unlocks, apart, signal_order, wait_commands, after_signal, before, first_of,
  signals,
}
use chibios_smash.Smt.Signals.{IsSmall}
use chibios_smash.Smt.Meaning.{HasWaitIds, IsSchedule, smt_export_iff}
use chibios_smash.Sym.{Lbool, l_true, l_undef, Solver}
use chibios_smash.Sym.Encode.{
  sym_engine_init, encode_program_order, encode_mutex_exclusivity, encode_semaphore_ordering,
  add_assertions, sym_program_order, sym_exclusion, mutex_exclusion, sym_signal_order,
  sym_signalled, some_before, mk_or,
}
use chibios_smash.Sym.Check.{
  verify_no_deadlock_bmc, tids, extract, verify_from, encoded, sym_check, checked, bmc_report,
  schedule_of, sort, sort_from, exchange, count_placed, placed, min,
}

abbrev handover_steps : ℕ → ℕ → Action
handover_steps zero zero = act ActionType.mutex_lock (pos 0)
handover_steps zero (suc zero) = act ActionType.mutex_unlock (pos 0)
handover_steps zero (suc (suc zero)) = act ActionType.sem_signal (pos 1)
handover_steps (suc zero) zero = act ActionType.sem_wait (pos 1)
handover_steps (suc zero) (suc zero) = act ActionType.mutex_lock (pos 0)
handover_steps (suc zero) (suc (suc zero)) = act ActionType.mutex_unlock (pos 0)
handover_steps _ _ = act ActionType.nop no_resource

abbrev handover_types : ℕ → ResourceType
handover_types zero = ResourceType.mutex
handover_types _ = ResourceType.semaphore

abbrev handover : Scenario
handover = record {
  thread_count = pos 2;
  resource_count = pos 2;
  priorities = λ t. pos t;
  steps = handover_steps;
  step_count = λ _. pos 3;
  res_types = handover_types;
  sem_init = λ _. pos 0;
  associated_mutex = λ _. no_resource;
  mb_capacity = λ _. pos 0;
  stack_sizes = λ _. pos 0;
}

handover-IsSmall : IsSmall handover
handover-IsSmall = record { few_threads = omega arith; few_steps = λ t lt. omega arith }

handover-HasWaitIds : HasWaitIds handover
unfolding HasWaitIds
handover-HasWaitIds zero zero lt slt waits = cc
handover-HasWaitIds zero (suc zero) lt slt waits = cc
handover-HasWaitIds zero (suc (suc zero)) lt slt waits = cc
handover-HasWaitIds zero (suc (suc (suc s))) lt slt waits = cc
handover-HasWaitIds (suc zero) zero lt slt waits = refl
handover-HasWaitIds (suc zero) (suc zero) lt slt waits = cc
handover-HasWaitIds (suc zero) (suc (suc zero)) lt slt waits = cc
handover-HasWaitIds (suc zero) (suc (suc (suc s))) lt slt waits = cc
handover-HasWaitIds (suc (suc t)) s lt slt waits = cc

-- Thread 0 runs first.
abbrev first_then_second : Name → ℤ
first_then_second (step t s) = pos (3 * t + s)
first_then_second (prog_order t s) = pos 0
first_then_second (prog_order_next t s) = pos 1

smt_export_iff_example :
    (all_in (allows first_then_second) (smt_export handover) ≡ true)
    ↔ IsSchedule handover first_then_second
smt_export_iff_example =
    smt_export_iff handover first_then_second handover-IsSmall handover-HasWaitIds

guessed : List Command → Lbool
guessed cs = if all_in (allows first_then_second) cs then l_true else l_undef

abbrev guesser : Solver
guesser = record { check = guessed; get_model = λ _ x. some (first_then_second x) }

-- Each thread owns the mutex that the other is blocked on.
abbrev embrace : Engine
embrace = record (after []) {
  threads = λ t. record ((after []).threads t) {
    state = ThreadState.blocked_mutex;
    blocked_on = some (1 - t);
  };
  resources = λ r. record ((after []).resources r) { owner = some r };
}

check_circular_wait_iff_example :
    (check_circular_wait embrace ≡ true) ↔ ¬ ((t : ℕ) × Waits embrace t t)
check_circular_wait_iff_example = check_circular_wait_iff embrace

search_cycle-fuel_example : search_cycle embrace ≢ out_of_fuel
search_cycle-fuel_example = search_cycle-fuel embrace

embrace-check : check_circular_wait embrace ≡ false
unfolding check_circular_wait passed search_cycle from_starts start_next start_from dfs_loop
    while_top continue round take push scan waits_for add_edge waited_owner owner_of_blocker for_up
    run_schedule run_from engine_init engine_reset scenario_validate thread_steps_valid all_below
    reset_thread reset_resource zero_engine zero_thread zero_resource
embrace-check = refl

-- The positions of a run that ends are a schedule,
handover-allowed : all_in (allows first_then_second) (smt_export handover) ≡ true
unfolding all_in allows formula_holds atom_holds any_holds all_differ differs value smt_export
    each_step concat_below concat_from program_order assert_all exclusion exclusive_with
    matching_unlock first_unlock unlocks apart signal_order wait_commands after_signal before
    first_of signals
handover-allowed = refl

-- and the bounded check reports a deadlock for it.
handover-reported : (verify_no_deadlock_bmc guesser true handover (pos 10)).no_deadlock ≡ false
unfolding all_in allows formula_holds atom_holds any_holds value each_step concat_below concat_from
    assert_all exclusive_with matching_unlock first_unlock unlocks apart before signals guessed
    verify_no_deadlock_bmc verify_from sym_engine_init encoded encode_program_order
    encode_mutex_exclusivity encode_semaphore_ordering add_assertions sym_program_order
    sym_exclusion mutex_exclusion sym_signal_order sym_signalled some_before mk_or sym_check checked
    bmc_report count_of
handover-reported = refl

handover-counterexample :
    schedule_of handover (λ x. some (first_then_second x)) ≡ 0 ∷ 0 ∷ 0 ∷ 1 ∷ 1 ∷ 1 ∷ []
unfolding schedule_of tids sort sort_from exchange count_placed extract placed min concat_below
handover-counterexample = refl
