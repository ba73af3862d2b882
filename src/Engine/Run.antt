-- ===== src/Engine/Run.antt =====
-- `smash_run_schedule` of src/engine.c.
pub mod Plain
pub mod Safety
use chibios_smash.Base.{
  ℕ, ◌+◌, ℤ, to_nat, ltb_ℤ, is_negative, Bool, true, false, not, ◌||◌, if◌then◌else◌, update, List,
  [], ◌∷◌,
}
use chibios_smash.Types.{Failure, Engine, failed}
use chibios_smash.Trace.{fail}
use chibios_smash.Engine.Init.{engine_reset}
use chibios_smash.Engine.Threads.{all_done}
use chibios_smash.Engine.Step.{execute_step}

-- `engine->trace.schedule[engine->trace.schedule_len++] = tid`
abbrev pub record_choice : Engine → ℕ → Engine
record_choice e tid = record e {
  trace = record (e.trace) {
    schedule = update e.trace.schedule e.trace.schedule_len tid;
    schedule_len = e.trace.schedule_len + 1;
  };
}

-- The loop from index `i` on, over the rest of the schedule.
unfoldable pub run_from : Engine → ℕ → List ℤ → Engine × Bool
run_from e i [] = (e, true)
run_from e i (tid ∷ schedule) =
    let (e1, ok) = execute_step (record_choice e (to_nat tid)) (to_nat tid) in
    let rest = run_from e1 (i + 1) schedule in
    if all_done e
    then (e, true)
    else if is_negative tid || not (ltb_ℤ tid e.scenario.thread_count)
    then (fail e (Failure.schedule_out_of_range i tid), false)
    else if not ok
    then (e1, false)
    else if failed e1
    then (e1, false)
    else rest

unfoldable pub run_schedule : Engine → List ℤ → Engine × Bool
run_schedule e schedule = run_from (engine_reset e) 0 schedule
