-- ===== src/Explorer/Search/Report.antt =====
-- What the result of a search of src/explorer.c says: counters, the failing trace, and the stop at the
-- first bug.
use chibios_smash.Base.{
  ℕ, zero, suc, ◌+◌, ◌≤◌, ◌≡◌, refl, Bool, true, false, ◌&&◌, inl, inr, if◌then◌else◌, Bool-cases,
  arith, List, [], ◌∷◌, ltb, Option, is_some,
}
use chibios_smash.Types.{max_threads, max_depth, Scenario, Engine, failed}
use chibios_smash.Engine.Init.{scenario_validate, engine_init}
use chibios_smash.Engine.Step.{execute_step}
use chibios_smash.Engine.Threads.{capture_state, collect_runnable}
use chibios_smash.State.Hash.{state_hash}
use chibios_smash.State.Table.{state_mark_visited, state_visited}
use chibios_smash.Dpor.{Mask, Dpor, sleep_add}
use chibios_smash.Spec.Checks.{check_all}
use chibios_smash.Explorer.Search.{
  Config, Result, Search, should_stop, report_deadlock, report_violation, record_bounded,
  count_skip, backtrack, explore_thread, explore_choice, explore_threads, explore_set,
  explore_state, explore_runnable, explore_node, explore_dfs, empty_result, clamp_config,
  refused_result, prepare_dpor, search_from, explore,
}

-- The bugs of a result: deadlocks and violations.
abbrev pub bug_count : Result → ℕ
bug_count r = r.deadlocks + r.violations

pub record IsReport (cfg : Config) (r : Result) : Type 0 where
  -- A failing trace is kept exactly when a bug was counted.
  pub traced : is_some r.failing_trace ≡ ltb 0 (bug_count r)
  pub bounded : r.interleavings ≤ cfg.max_interleavings
  pub stopped : cfg.stop_on_first_bug ≡ true → bug_count r ≤ 1

-- What a round of the loop gives: a report, and a reason to go on.
record IsRound (cfg : Config) (r : Search × Bool) : Type 0 where
  report : IsReport cfg r.0.result
  going : r.1 ≡ true → should_stop cfg r.0.result ≡ false

module _ (cfg : Config) where
  report_deadlock-IsReport :
      (s : Search)
      → should_stop cfg s.result ≡ false
      → IsReport cfg s.result
      → IsReport cfg (report_deadlock s).result
  unfolding report_deadlock
  report_deadlock-IsReport s go h = record {
    traced = ground arith;
    bounded = h.bounded;
    stopped = λ stop. ground (arith, h.traced, h.stopped);
  }

  report_violation-IsReport :
      (saved : Engine) (s : Search)
      → should_stop cfg s.result ≡ false
      → IsReport cfg s.result
      → IsReport cfg (report_violation saved s).result
  unfolding report_violation
  report_violation-IsReport saved s go h = record {
    traced = ground arith;
    bounded = h.bounded;
    stopped = λ stop. ground (arith, h.traced, h.stopped);
  }

  module _ (below : Search → Search) (depth : ℕ) (runnable : List ℕ)
      (keeps : (s : Search) → IsReport cfg s.result → IsReport cfg (below s).result) where
    explore_thread-IsRound :
        (tid : ℕ) (s : Search)
        → should_stop cfg s.result ≡ false
        → IsReport cfg s.result
        → IsRound cfg (explore_thread below cfg depth runnable tid s)
    unfolding explore_thread backtrack
    explore_thread-IsRound tid s go h =
        let e1 = (execute_step (record_bounded s.engine tid) tid).0 in
        let s1 = record s {
          engine = e1;
          dpor = if cfg.enable_dpor then sleep_add s.dpor depth tid else s.dpor;
        } in
        let bug = report_violation-IsReport s.engine s1 go h in
        elim (Bool-cases (failed e1)) [
          | inl failing ↦ rw failing (record { report = bug; going = λ g. ground arith })
          | inr fine ↦ elim (Bool-cases (check_all e1)) [
            | inl passes ↦
                rw (fine, passes) (record { report = keeps s1 h; going = λ g. ground arith })
            | inr refuted ↦ rw (fine, refuted) (record { report = bug; going = λ g. ground arith })
          ]
        ]

    explore_choice-IsRound :
        (set : Mask) (tid : ℕ) (s : Search)
        → should_stop cfg s.result ≡ false
        → IsReport cfg s.result
        → IsRound cfg (explore_choice below cfg depth runnable set tid s)
    unfolding explore_choice count_skip
    explore_choice-IsRound set tid s go h = elim (Bool-cases (set tid)) [
      | inl chosen ↦ rw chosen (explore_thread-IsRound tid s go h)
      | inr skipped ↦ rw skipped (record {
        report = record {
          traced = ground (arith, h.traced);
          bounded = ground (arith, h.bounded);
          stopped = λ stop. ground (arith, h.stopped stop);
        };
        going = λ g. ground (arith, go);
      })
    ]

    explore_threads-IsReport :
        (set : Mask) (tids : List ℕ) (s : Search)
        → should_stop cfg s.result ≡ false
        → IsReport cfg s.result
        → IsReport cfg (explore_threads below cfg depth runnable set tids s).result
    unfolding explore_threads
    explore_threads-IsReport set [] s go h = h
    explore_threads-IsReport set (tid ∷ tids) s go h =
        let first = explore_choice below cfg depth runnable set tid s in
        let round = explore_choice-IsRound set tid s go h in
        elim (Bool-cases first.1) [
          | inl go_on ↦
              rw go_on (explore_threads-IsReport set tids first.0 (round.going go_on) round.report)
          | inr stop ↦ rw stop round.report
        ]

  explore_state-IsReport :
      (below : Search → Search) (depth : ℕ) (runnable : List ℕ)
      → ((s : Search) → IsReport cfg s.result → IsReport cfg (below s).result)
      → (s : Search) → should_stop cfg s.result ≡ false
      → IsReport cfg s.result
      → IsReport cfg (explore_state below cfg depth runnable s).result
  unfolding explore_state
  explore_state-IsReport below depth runnable keeps s go h =
      let hash = state_hash (capture_state s.engine) in
      let marked =
        if cfg.enable_state_caching then (state_mark_visited s.engine hash).0 else s.engine in
      let s1 = record s {
        engine = marked;
        result = record (s.result) { states = s.result.states + 1 };
      } in
      let counted : IsReport cfg s1.result = record {
        traced = h.traced;
        bounded = h.bounded;
        stopped = h.stopped;
      } in
      elim (Bool-cases (cfg.enable_state_caching && state_visited s.engine hash)) [
        | inl seen ↦
            rw seen (record { traced = h.traced; bounded = h.bounded; stopped = h.stopped })
        | inr new ↦ rw new (
            explore_threads-IsReport below depth runnable keeps (explore_set cfg depth runnable s1)
              runnable s1 go counted)
      ]

  explore_runnable-IsReport :
      (below : Search → Search) (depth : ℕ) (runnable : List ℕ)
      → ((s : Search) → IsReport cfg s.result → IsReport cfg (below s).result)
      → (s : Search) → should_stop cfg s.result ≡ false
      → IsReport cfg s.result
      → IsReport cfg (explore_runnable below cfg depth runnable s).result
  unfolding explore_runnable
  explore_runnable-IsReport below depth [] keeps s go h = report_deadlock-IsReport s go h
  explore_runnable-IsReport below depth (t ∷ ts) keeps s go h =
      explore_state-IsReport below depth (t ∷ ts) keeps s go h

  explore_node-IsReport :
      (below : Search → Search) (depth : ℕ)
      → ((s : Search) → IsReport cfg s.result → IsReport cfg (below s).result)
      → (s : Search) → IsReport cfg s.result
      → IsReport cfg (explore_node below cfg depth s).result
  unfolding explore_node
  explore_node-IsReport below depth keeps s h = elim (Bool-cases (should_stop cfg s.result)) [
    | inl stop ↦ rw stop h
    | inr go ↦
        let run =
          explore_runnable-IsReport below depth (collect_runnable s.engine max_threads) keeps s go
            h in
        record {
          traced = ground (arith, h.traced, run.traced);
          bounded = ground (arith, h.bounded, run.bounded);
          stopped = λ first. ground (arith, h.stopped first, run.stopped first);
        }
  ]

  explore_dfs-IsReport :
      (fuel depth : ℕ) (s : Search)
      → IsReport cfg s.result
      → IsReport cfg (explore_dfs fuel cfg depth s).result
  unfolding explore_dfs
  explore_dfs-IsReport zero depth s h = h
  explore_dfs-IsReport (suc fuel) depth s h =
      explore_node-IsReport (explore_dfs fuel cfg (depth + 1)) depth
        (explore_dfs-IsReport fuel (depth + 1)) s h

-- The result of a search, of a valid scenario or not, keeps a failing trace exactly when it counts a
-- deadlock or a violation; it counts no more interleavings than the limit of the clamped
-- configuration; and with `stop_on_first_bug` it counts at most one bug.
pub explore-IsReport :
    (sc : Scenario) (config : Config) (g_dpor : Option Dpor)
    → IsReport (clamp_config config) (explore sc config g_dpor).0
unfolding explore search_from refused_result
explore-IsReport sc config g_dpor =
    let cfg = clamp_config config in
    let run =
      explore_dfs-IsReport cfg max_depth 0
        (record { engine = engine_init sc; result = empty_result; dpor = prepare_dpor g_dpor })
        (record { traced = refl; bounded = omega arith; stopped = λ first. omega arith }) in
    elim (Bool-cases (scenario_validate sc)) [
      | inl valid ↦
          rw valid (record { traced = run.traced; bounded = run.bounded; stopped = run.stopped })
      | inr refused ↦
          rw refused
            (record { traced = refl; bounded = omega arith; stopped = λ first. omega arith })
    ]
