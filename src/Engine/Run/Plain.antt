-- ===== src/Engine/Run/Plain.antt =====
-- Runs of plain scenarios: whatever the schedule, the structural checks pass in the state that
-- `smash_run_schedule` leaves.
use chibios_smash.Base.{
  ℕ, ◌+◌, ℤ, to_nat, ltb_ℤ, is_negative, ◌≤◌, ◌<◌, ◌≡◌, true, false, not, ◌||◌, arith, Bool-cases,
  inl, inr, List, [], ◌∷◌,
}
use chibios_smash.Types.{max_threads, Scenario, is_semaphore, Engine, failed}
use chibios_smash.Model.Queue.{thread_count}
use chibios_smash.Engine.Init.{
  scenario_validate, reset_thread, reset_resource, engine_reset, zero_engine, engine_init,
}
use chibios_smash.Engine.Init.Start.{
  engine_init-valid, scenario_validate-few, engine_reset-thread, engine_reset-resource,
}
use chibios_smash.Engine.Threads.{all_done}
use chibios_smash.Engine.Step.{execute_step}
use chibios_smash.Engine.Step.Plain.{IsPlain, Running, IsRunning}
use chibios_smash.Engine.Step.Scenario.{execute_step-scenario}
use chibios_smash.Engine.Step.Invariant.{execute_step-IsRunning}
use chibios_smash.Engine.Run.{record_choice, run_from, run_schedule}

-- No semaphore starts with a negative count.
abbrev pub HasNoDebt : Scenario → Type 0
HasNoDebt sc =
    (r : ℕ)
    → r < to_nat sc.resource_count
    → is_semaphore (sc.res_types r) ≡ true
    → is_negative (sc.sem_init r) ≡ false

-- A reset engine satisfies the invariant.
module _ (e : Engine) (few : thread_count e ≤ max_threads) (no_debt : HasNoDebt e.scenario) where
  reset-Running : Running e.scenario (engine_reset e).threads (engine_reset e).resources
  unfolding reset_thread reset_resource
  reset-Running = record {
    consistent = record {
      few = few;
      queues = record {
        member = λ r w lt wlt. ground (arith, engine_reset-resource e r);
        distinct = λ r w v lt wlt vlt same. ground (arith, engine_reset-resource e r);
        waiting = λ r w lt wlt. ground (arith, engine_reset-resource e r);
        room = λ r lt. ground (arith, engine_reset-resource e r);
      };
      owners = record {
        owner_in = λ r o lt own. ground (arith, engine_reset-resource e r);
        held = λ r lt m own. ground (arith, engine_reset-resource e r);
      };
      ordered = λ r o w lt m own wlt. ground (arith, engine_reset-resource e r);
      stacks = record {
        entry = λ t k lt klt. ground (arith, engine_reset-thread e t);
        once = λ t k l lt klt llt same. ground (arith, engine_reset-thread e t);
      };
      semaphores = record {
        no_debt = λ r lt s. ground (arith, engine_reset-resource e r, no_debt r);
        no_lost_wakeup = λ r lt s p. ground (arith, engine_reset-resource e r);
      };
    };
    typed = λ r lt. ground (arith, engine_reset-resource e r);
    no_timer = λ t lt. ground (arith, engine_reset-thread e t);
  }

  pub engine_reset-IsRunning : IsRunning (engine_reset e)
  unfolding engine_reset
  engine_reset-IsRunning = reset-Running

in_range : (tid n : ℤ) → (is_negative tid || not (ltb_ℤ tid n)) ≡ false → to_nat tid < to_nat n
in_range tid n h = ground arith

run_from-IsRunning :
    (schedule : List ℤ) (e : Engine) (i : ℕ)
    → IsPlain e.scenario
    → IsRunning e
    → IsRunning (run_from e i schedule).0
unfolding run_from
run_from-IsRunning [] e i plain run = run
run_from-IsRunning (tid ∷ schedule) e i plain run = elim (Bool-cases (all_done e)) [
  | inl finished ↦ rw finished run
  | inr unfinished ↦
      elim (Bool-cases (is_negative tid || not (ltb_ℤ tid e.scenario.thread_count))) [
        | inl outside ↦ rw (unfinished, outside) run
        | inr inside ↦ elim (Bool-cases (execute_step chosen (to_nat tid)).1) [
          | inr stuck ↦
              rw (unfinished, inside, stuck) (stepped (in_range tid e.scenario.thread_count inside))
          | inl moved ↦ elim (Bool-cases (failed (execute_step chosen (to_nat tid)).0)) [
            | inl failure ↦
                rw (unfinished, inside, moved, failure)
                  (stepped (in_range tid e.scenario.thread_count inside))
            | inr fine ↦
                rw (unfinished, inside, moved, fine)
                  (run_from-IsRunning schedule (execute_step chosen (to_nat tid)).0 (i + 1)
                    (rw (execute_step-scenario chosen (to_nat tid)) plain)
                    (stepped (in_range tid e.scenario.thread_count inside)))
          ]
        ]
      ]
]
  where
    chosen : Engine
    chosen = record_choice e (to_nat tid)

    stepped : to_nat tid < thread_count e → IsRunning (execute_step chosen (to_nat tid)).0
    stepped lt = execute_step-IsRunning chosen (to_nat tid) plain lt run

-- The state after any schedule from the start of a valid plain scenario satisfies the invariant.
pub run_schedule-IsRunning :
    (sc : Scenario) (schedule : List ℤ)
    → scenario_validate sc ≡ true
    → IsPlain sc
    → HasNoDebt sc
    → IsRunning (run_schedule (engine_init sc) schedule).0
unfolding run_schedule engine_reset zero_engine
run_schedule-IsRunning sc schedule valid plain no_debt = rw (engine_init-valid sc valid) (
    run_from-IsRunning schedule (engine_reset started) 0 plain
      (engine_reset-IsRunning started (scenario_validate-few sc valid) no_debt))
  where
    started : Engine
    started = engine_reset (zero_engine sc)
