-- ===== src/Explorer/Search/Replay.antt =====
-- A failing trace that a search of src/explorer.c keeps fails again when `smash_run_schedule` of
-- src/engine.c runs its schedule.
pub mod Way
use mathlib.Core.Path.{subst, fun_ext}
use chibios_smash.Base.{
  ℕ, zero, suc, ◌+◌, ◌≤◌, ◌<◌, ◌≡◌, refl, sym, ap, ◌∙◌, inl, inr, ◌⊎◌, ℤ, pos, to_nat, ltb_ℤ,
  is_negative, Bool, true, false, not, ◌&&◌, ◌||◌, Option, some, ltb, ◌==◌, if◌then◌else◌, update,
  Bool-cases, arith, List, [], ◌∷◌, ◌++◌, contains, for_up-update,
}
use chibios_smash.Types.{
  max_threads, max_depth, Scenario, Trace, Thread, Resource, Engine, failed, is_ready,
}
use chibios_smash.Trace.{trace_init}
use chibios_smash.Model.Queue.{thread_count, resource_count}
use chibios_smash.Engine.Init.{
  scenario_validate, engine_init, engine_reset, reset_thread, reset_resource, zero_engine,
}
use chibios_smash.Engine.Init.Start.{
  engine_init-valid, scenario_validate-few, engine_reset-thread, engine_reset-resource,
}
use chibios_smash.Engine.Threads.{length, collect_runnable, all_done}
use chibios_smash.Engine.Threads.Runnable.{contains-collect_runnable}
use chibios_smash.Engine.Step.{execute_step}
use chibios_smash.Engine.Step.Frame.{choices}
use chibios_smash.Engine.Step.Scenario.{execute_step-scenario, execute_step-choices}
use chibios_smash.Engine.Step.Errors.{execute_step-failed}
use chibios_smash.Engine.Run.{record_choice, run_from, run_schedule}
use chibios_smash.Spec.Checks.{check_all}
use chibios_smash.Dpor.{Dpor}
use chibios_smash.Explorer.Minimize.{ids, trial_run, still_fails, trace_minimize}
use chibios_smash.Explorer.Minimize.Shorter.{trace_minimize-still_fails}
use chibios_smash.Explorer.Search.{Config, record_bounded, explore}
use chibios_smash.Explorer.Search.Reach.{
  stepped, IsRunnable, Reaches, start, next, IsWayToBug, to_deadlock, to_failure, to_violation,
}
use chibios_smash.Explorer.Search.Sound.{HasWay, engine_init-fine, explore-HasWay}
unfoldable pub use chibios_smash.Explorer.Search.Replay.Way.{recorded_schedule}
use chibios_smash.Explorer.Search.Replay.Way.{
  entries, entries-record, ids-++, run_from-last, IsWay, stepped-IsStep, Reaches-IsWay,
}

ids-nil : (l : List ℕ) → ids l ++ [] ≡ ids l
ids-nil [] = refl
ids-nil (x ∷ l) = ap (λ r. pos x ∷ r) (ids-nil l)

-- A second reset changes nothing.
engine_reset-engine_init :
    (sc : Scenario) → scenario_validate sc ≡ true → engine_reset (engine_init sc) ≡ engine_init sc
unfolding engine_init engine_reset zero_engine trace_init reset_thread reset_resource
engine_reset-engine_init sc valid =
    let e0 = engine_reset (zero_engine sc) in
    let threads : (engine_reset e0).threads ≡ e0.threads =
      fun_ext
        (λ j. ground (arith, engine_reset-thread e0 j, engine_reset-thread (zero_engine sc) j)) in
    let resources : (engine_reset e0).resources ≡ e0.resources =
      fun_ext (λ j.
        ground (arith, engine_reset-resource e0 j, engine_reset-resource (zero_engine sc) j)) in
    let again : engine_reset e0 ≡ e0 =
      λ i. record e0 { threads = threads i; resources = resources i } in
    rw valid again

still_fails-deadlock :
    (e : Engine) → all_done e ≡ false → collect_runnable e max_threads ≡ [] → still_fails e ≡ true
unfolding still_fails
still_fails-deadlock e live empty = rw (live, empty) (ground arith)

still_fails-step : (e : Engine) → (failed e ≡ true) ⊎ (check_all e ≡ false) → still_fails e ≡ true
unfolding still_fails
still_fails-step e (inl fails) = ground (arith, fails)
still_fails-step e (inr broken) = ground (arith, broken)

module _ (origin : Engine) (few : thread_count origin ≤ max_threads) (n : ℕ) (e : Engine)
    (way : IsWay origin n e) where
  run-here :
      (t : Trace)
      → choices t ≡ choices e.trace
      → (run_from origin 0 (ids (recorded_schedule t))).0 ≡ e
  unfolding recorded_schedule run_from
  run-here t same =
      let list = entries e.trace.schedule n in
      ap (λ p. (run_from origin 0 (ids (entries p.0 p.1))).0) same
      ∙ (ap (λ k. (run_from origin 0 (ids (entries e.trace.schedule k))).0) way.count
          ∙ (ap (λ l. (run_from origin 0 l).0) (sym (ids-nil list)) ∙ ap (λ r. r.0) (way.runs [])))

  run-step :
      (tid : ℕ) (t : Trace)
      → n < max_depth
      → all_done e ≡ false
      → IsRunnable e tid
      → choices t ≡ choices (stepped e tid).trace
      → (run_from origin 0 (ids (recorded_schedule t))).0 ≡ stepped e tid
  unfolding recorded_schedule
  run-step tid t room live runs same =
      let step = stepped-IsStep origin few n e tid way room runs in
      let list = entries e.trace.schedule n in
      ap (λ p. (run_from origin 0 (ids (entries p.0 p.1))).0) (same ∙ step.recorded)
      ∙ (ap (λ l. (run_from origin 0 (ids l)).0) (entries-record e.trace.schedule n tid)
          ∙ (ap (λ l. (run_from origin 0 l).0)
                (sym (ids-nil (list ++ (tid ∷ []))) ∙ ids-++ list tid [])
              ∙ (ap (λ r. r.0) (way.runs (pos tid ∷ []))
                  ∙ (run_from-last e tid live step.inside n ∙ sym step.same))))

  run-still_fails :
      (t : Trace)
      → n < max_depth
      → IsWayToBug e t
      → still_fails (run_from origin 0 (ids (recorded_schedule t))).0 ≡ true
  run-still_fails t room (to_deadlock live empty same) =
      ap still_fails (run-here t same) ∙ still_fails-deadlock e live empty
  run-still_fails t room (to_failure tid live runs fails same) =
      ap still_fails (run-step tid t room live runs same)
      ∙ still_fails-step (stepped e tid) (inl fails)
  run-still_fails t room (to_violation tid live runs broken same) =
      ap still_fails (run-step tid t room live runs same)
      ∙ still_fails-step (stepped e tid) (inr broken)

engine_init-start :
    (sc : Scenario)
    → scenario_validate sc ≡ true
    → ((engine_init sc).trace.schedule_len ≡ 0) × (thread_count (engine_init sc) ≤ max_threads)
unfolding engine_init engine_reset zero_engine trace_init
engine_init-start sc valid = rw valid (refl, scenario_validate-few sc valid)

-- For a valid scenario and any configuration: a failing trace that the search keeps fails again when its
-- schedule is run from the start, by a failure, a check or a deadlock.
pub explore-still_fails :
    (sc : Scenario) (config : Config) (g_dpor : Option Dpor) (t : Trace)
    → scenario_validate sc ≡ true
    → (explore sc config g_dpor).0.failing_trace ≡ some t
    → still_fails (trial_run sc (recorded_schedule t)) ≡ true
unfolding HasWay trial_run run_schedule
explore-still_fails sc config g_dpor t valid kept =
    let (n, (e, (reached, (room, way)))) = explore-HasWay sc config g_dpor valid t kept in
    let (empty, few) = engine_init-start sc valid in
    let on_way = Reaches-IsWay (engine_init sc) few empty reached (omega (arith, room)) in
    ap (λ x. still_fails (run_from x 0 (ids (recorded_schedule t))).0)
      (engine_reset-engine_init sc valid)
    ∙ run-still_fails (engine_init sc) few n e on_way t room way

-- For a valid scenario and any configuration: the run of the schedule that the minimisation leaves of a
-- failing trace that the search keeps fails too, by a failure, a check or a deadlock.
pub trace_minimize-explore :
    (sc : Scenario) (config : Config) (g_dpor : Option Dpor) (t : Trace) (scratch : Engine)
    → scenario_validate sc ≡ true
    → (explore sc config g_dpor).0.failing_trace ≡ some t
    → still_fails (trial_run sc (trace_minimize sc scratch (recorded_schedule t)).0.schedule) ≡ true
trace_minimize-explore sc config g_dpor t scratch valid kept =
    trace_minimize-still_fails sc scratch (recorded_schedule t)
      (explore-still_fails sc config g_dpor t valid kept)
