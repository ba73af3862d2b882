-- ===== src/Engine/Run/Safety.antt =====
-- The structural checks of src/spec.c never fail on a plain scenario.
use chibios_smash.Base.{ℕ, ℤ, ◌<◌, ◌≡◌, true, false, arith, List, some}
use chibios_smash.Types.{Scenario, is_mutex, is_done, Engine}
use chibios_smash.Model.Queue.{resource_count}
use chibios_smash.Model.Queue.Invariant.{wait_state-mutex, wait_state-semaphore}
use chibios_smash.Spec.Checks.{
  check_mutex_integrity, check_sem_integrity, check_priority_inversion, check_owned_mutex_integrity,
}
use chibios_smash.Spec.Meaning.{
  check_mutex_integrity_iff, check_sem_integrity_iff, check_priority_inversion_iff,
  check_owned_mutex_integrity_complete,
}
use chibios_smash.Engine.Init.{scenario_validate, engine_init}
use chibios_smash.Engine.Step.Plain.{IsPlain, IsRunning}
use chibios_smash.Engine.Run.{run_schedule}
use chibios_smash.Engine.Run.Plain.{HasNoDebt, run_schedule-IsRunning}

-- No owner of a mutex of the scenario is done.
abbrev pub OwnersLive : Engine → Type 0
OwnersLive e =
    (r o : ℕ)
    → r < resource_count e
    → is_mutex (e.resources r).type ≡ true
    → (e.resources r).owner ≡ some o
    → is_done (e.threads o).state ≡ false

-- What a state of the invariant means for the checks.
module _ (e : Engine) (run : IsRunning e) where
  open (run.consistent) use {queues, owners, ordered, stacks, semaphores}

  check_sem_integrity-passes : check_sem_integrity e ≡ true
  check_sem_integrity-passes = (check_sem_integrity_iff e).1 (λ r lt s. record {
    no_debt = semaphores.no_debt r lt s;
    room = queues.room r lt;
    no_lost_wakeup = semaphores.no_lost_wakeup r lt s;
    waiters = λ w wlt.
        ground
          (arith, queues.member r w, queues.waiting r w, wait_state-semaphore (e.resources r).type);
  })

  check_mutex_integrity-passes : OwnersLive e → check_mutex_integrity e ≡ true
  check_mutex_integrity-passes live = (check_mutex_integrity_iff e).1 (λ r lt m. record {
    owner_in = λ o own. owners.owner_in r o lt own;
    owner_lives = λ o own. live r o lt m own;
    held = owners.held r lt m;
    room = queues.room r lt;
    waiters = λ w wlt.
        ground
          (arith, queues.member r w, queues.waiting r w, wait_state-mutex (e.resources r).type);
  })

  checks_pass :
      (check_sem_integrity e ≡ true)
      × (check_owned_mutex_integrity e ≡ true)
      × (check_priority_inversion e ≡ true)
  checks_pass = (
    check_sem_integrity-passes,
    check_owned_mutex_integrity_complete e stacks.entry,
    (check_priority_inversion_iff e).1 ordered,
  )

-- Take a valid scenario that uses only untimed operations on mutexes and semaphores (each on a
-- resource of its type), contexts, object lifecycles and calls, and no negative initial semaphore
-- count. In the state that a run along any schedule leaves, the checks of semaphores, of
-- owned-mutex stacks and of priority inversion pass.
pub run_schedule-checks_pass :
    (sc : Scenario) (schedule : List ℤ)
    → scenario_validate sc ≡ true
    → IsPlain sc
    → HasNoDebt sc
    → let e = (run_schedule (engine_init sc) schedule).0 in
      (check_sem_integrity e ≡ true)
      × (check_owned_mutex_integrity e ≡ true)
      × (check_priority_inversion e ≡ true)
run_schedule-checks_pass sc schedule valid plain no_debt =
    checks_pass (run_schedule (engine_init sc) schedule).0
      (run_schedule-IsRunning sc schedule valid plain no_debt)

-- For such a scenario, the check of mutexes also passes in the state that a run leaves, if no thread
-- that is done there still owns a mutex.
pub run_schedule-check_mutex_integrity :
    (sc : Scenario) (schedule : List ℤ)
    → scenario_validate sc ≡ true
    → IsPlain sc
    → HasNoDebt sc
    → OwnersLive (run_schedule (engine_init sc) schedule).0
    → check_mutex_integrity (run_schedule (engine_init sc) schedule).0 ≡ true
run_schedule-check_mutex_integrity sc schedule valid plain no_debt live =
    check_mutex_integrity-passes (run_schedule (engine_init sc) schedule).0
      (run_schedule-IsRunning sc schedule valid plain no_debt) live
