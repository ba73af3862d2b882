-- ===== src/Engine/Init/Start.antt =====
-- What `smash_engine_init` leaves of a valid scenario.
use chibios_smash.Base.{ℕ, to_nat, ◌≤◌, ◌≡◌, true, arith, if◌then◌else◌, ltb, for_up-update}
use chibios_smash.Types.{max_threads, Scenario, Engine}
use chibios_smash.Model.Queue.{thread_count, resource_count}
use chibios_smash.Engine.Init.{
  scenario_validate, reset_thread, reset_resource, engine_reset, zero_engine, engine_init,
}

-- On a valid scenario the engine is the reset one.
pub engine_init-valid :
    (sc : Scenario) → scenario_validate sc ≡ true → engine_init sc ≡ engine_reset (zero_engine sc)
unfolding engine_init
engine_init-valid sc valid = rw valid

pub scenario_validate-few :
    (sc : Scenario) → scenario_validate sc ≡ true → to_nat sc.thread_count ≤ max_threads
unfolding scenario_validate
scenario_validate-few sc valid = ground arith

module _ (e : Engine) where
  pub engine_reset-thread :
      (j : ℕ)
      → (engine_reset e).threads j
        ≡ (if ltb j (thread_count e) then reset_thread e.scenario j (e.threads j) else e.threads j)
  unfolding engine_reset
  engine_reset-thread j = for_up-update (thread_count e) (reset_thread e.scenario) e.threads j

  pub engine_reset-resource :
      (j : ℕ)
      → (engine_reset e).resources j ≡ (
          if ltb j (resource_count e)
          then reset_resource e.scenario j (e.resources j)
          else e.resources j)
  unfolding engine_reset
  engine_reset-resource j =
      for_up-update (resource_count e) (reset_resource e.scenario) e.resources j
