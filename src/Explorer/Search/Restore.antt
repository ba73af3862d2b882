-- ===== src/Explorer/Search/Restore.antt =====
-- `explore_dfs` of src/explorer.c backtracks exactly.
use chibios_smash.Base.{
  ℕ, zero, suc, ◌+◌, ◌≡◌, refl, ◌∙◌, inl, inr, if◌then◌else◌, Bool-cases, arith, List, [], ◌∷◌,
}
use chibios_smash.Types.{max_threads, state_ht_size, Engine, failed}
use chibios_smash.Engine.Step.{execute_step}
use chibios_smash.Engine.Step.Scenario.{execute_step-scenario}
use chibios_smash.Dpor.{Mask, sleep_add}
use chibios_smash.State.Hash.{state_hash}
use chibios_smash.State.Table.{mark_from, state_mark_visited}
use chibios_smash.Engine.Threads.{capture_state, collect_runnable}
use chibios_smash.Spec.Checks.{check_all}
use chibios_smash.Explorer.Search.{
  Config, Search, restore_engine, report_deadlock, report_violation, record_bounded, count_skip,
  backtrack, explore_thread, explore_choice, explore_threads, explore_set, explore_state,
  explore_runnable, explore_node, explore_dfs,
}

-- The model state is the same: threads, resources, scenario and step counter.
pub record IsRestored (e e' : Engine) : Type 0 where
  pub scenario : e'.scenario ≡ e.scenario
  pub threads : e'.threads ≡ e.threads
  pub resources : e'.resources ≡ e.resources
  pub step_counter : e'.step_counter ≡ e.step_counter

IsRestored-trans : (a b c : Engine) → IsRestored a b → IsRestored b c → IsRestored a c
IsRestored-trans a b c h k = record {
  scenario = k.scenario ∙ h.scenario;
  threads = k.threads ∙ h.threads;
  resources = k.resources ∙ h.resources;
  step_counter = k.step_counter ∙ h.step_counter;
}

mark_from-IsRestored :
    (e : Engine) (size hash rounds i : ℕ) → IsRestored e (mark_from e size hash rounds i).0
unfolding mark_from
mark_from-IsRestored e size hash zero i = record {
  scenario = refl;
  threads = refl;
  resources = refl;
  step_counter = refl;
}
mark_from-IsRestored e size hash (suc rounds) i =
    let ih = mark_from-IsRestored e size hash rounds (i + 1) in
    record {
      scenario = ground (arith, ih.scenario);
      threads = ground (arith, ih.threads);
      resources = ground (arith, ih.resources);
      step_counter = ground (arith, ih.step_counter);
    }

-- What the recursive call at the next depth keeps, of the scenario alone.
abbrev pub KeepsScenario : (Search → Search) → Type 0
KeepsScenario below = (s : Search) → (below s).engine.scenario ≡ s.engine.scenario

module _ (below : Search → Search) (keeps : KeepsScenario below) (cfg : Config) (depth : ℕ) where
  explore_thread-IsRestored :
      (runnable : List ℕ) (tid : ℕ) (s : Search)
      → IsRestored s.engine (explore_thread below cfg depth runnable tid s).0.engine
  unfolding explore_thread report_violation backtrack restore_engine
  explore_thread-IsRestored runnable tid s =
      let step = execute_step-scenario (record_bounded s.engine tid) tid in
      let e1 = (execute_step (record_bounded s.engine tid) tid).0 in
      let deep = keeps (record s {
        engine = e1;
        dpor = if cfg.enable_dpor then sleep_add s.dpor depth tid else s.dpor;
      }) in
      elim (Bool-cases (failed e1)) [
        | inl failing ↦ rw failing (record {
          scenario = ground (arith, step);
          threads = refl;
          resources = refl;
          step_counter = refl;
        })
        | inr fine ↦ elim (Bool-cases (check_all e1)) [
          | inl passes ↦
              rw (fine, passes)
                (record {
                  scenario = ground (arith, step, deep);
                  threads = refl;
                  resources = refl;
                  step_counter = refl;
                })
          | inr refuted ↦
              rw (fine, refuted)
                (record {
                  scenario = ground (arith, step);
                  threads = refl;
                  resources = refl;
                  step_counter = refl;
                })
        ]
      ]

  explore_choice-IsRestored :
      (runnable : List ℕ) (set : Mask) (tid : ℕ) (s : Search)
      → IsRestored s.engine (explore_choice below cfg depth runnable set tid s).0.engine
  unfolding explore_choice count_skip
  explore_choice-IsRestored runnable set tid s = elim (Bool-cases (set tid)) [
    | inl chosen ↦ rw chosen (explore_thread-IsRestored runnable tid s)
    | inr skipped ↦ rw skipped (record {
      scenario = ground arith;
      threads = ground arith;
      resources = ground arith;
      step_counter = ground arith;
    })
  ]

  explore_threads-IsRestored :
      (runnable : List ℕ) (set : Mask) (tids : List ℕ) (s : Search)
      → IsRestored s.engine (explore_threads below cfg depth runnable set tids s).engine
  unfolding explore_threads
  explore_threads-IsRestored runnable set [] s = record {
    scenario = refl;
    threads = refl;
    resources = refl;
    step_counter = refl;
  }
  explore_threads-IsRestored runnable set (tid ∷ tids) s =
      let first = explore_choice below cfg depth runnable set tid s in
      let here = explore_choice-IsRestored runnable set tid s in
      elim (Bool-cases first.1) [
        | inl go_on ↦ rw go_on (
            IsRestored-trans s.engine first.0.engine
              (explore_threads below cfg depth runnable set tids first.0).engine here
              (explore_threads-IsRestored runnable set tids first.0))
        | inr stop ↦ rw stop here
      ]

  explore_state-IsRestored :
      (runnable : List ℕ) (s : Search)
      → IsRestored s.engine (explore_state below cfg depth runnable s).engine
  unfolding explore_state state_mark_visited
  explore_state-IsRestored runnable s =
      let hash = state_hash (capture_state s.engine) in
      let marked =
        if cfg.enable_state_caching then (state_mark_visited s.engine hash).0 else s.engine in
      let s1 = record s {
        engine = marked;
        result = record (s.result) { states = s.result.states + 1 };
      } in
      let mark = mark_from-IsRestored s.engine state_ht_size hash state_ht_size 0 in
      let loop =
        explore_threads-IsRestored runnable (explore_set cfg depth runnable s1) runnable s1 in
      record {
        scenario = ground (arith, loop.scenario, mark.scenario);
        threads = ground (arith, loop.threads, mark.threads);
        resources = ground (arith, loop.resources, mark.resources);
        step_counter = ground (arith, loop.step_counter, mark.step_counter);
      }

  explore_runnable-IsRestored :
      (runnable : List ℕ) (s : Search)
      → IsRestored s.engine (explore_runnable below cfg depth runnable s).engine
  unfolding explore_runnable report_deadlock
  explore_runnable-IsRestored [] s = record {
    scenario = refl;
    threads = refl;
    resources = refl;
    step_counter = refl;
  }
  explore_runnable-IsRestored (t ∷ ts) s = explore_state-IsRestored (t ∷ ts) s

  explore_node-IsRestored :
      (s : Search) → IsRestored s.engine (explore_node below cfg depth s).engine
  unfolding explore_node
  explore_node-IsRestored s =
      let run = explore_runnable-IsRestored (collect_runnable s.engine max_threads) s in
      record {
        scenario = ground (arith, run.scenario);
        threads = ground (arith, run.threads);
        resources = ground (arith, run.resources);
        step_counter = ground (arith, run.step_counter);
      }

-- A call of the search at any depth leaves the scenario, the threads, the resources and the step
-- counter as it found them, whatever it explores and however it ends.
pub explore_dfs-IsRestored :
    (fuel : ℕ) (cfg : Config) (depth : ℕ) (s : Search)
    → IsRestored s.engine (explore_dfs fuel cfg depth s).engine
unfolding explore_dfs
explore_dfs-IsRestored zero cfg depth s = record {
  scenario = refl;
  threads = refl;
  resources = refl;
  step_counter = refl;
}
explore_dfs-IsRestored (suc fuel) cfg depth s =
    explore_node-IsRestored (explore_dfs fuel cfg (depth + 1))
      (λ s'. (explore_dfs-IsRestored fuel cfg (depth + 1) s').scenario) cfg depth s
