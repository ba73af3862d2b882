-- ===== src/Engine/Step/Plain.antt =====
-- Steps of scenarios that use only untimed operations on mutexes and semaphores, contexts, object
-- lifecycles and calls: `smash_execute_step` keeps the invariant.
use chibios_smash.Base.{
  ℕ, pos, to_nat, ltb_ℤ, is_positive, ◌<◌, ◌≡◌, refl, true, false, ap, arith, for_up_inv, Option,
  none, some,
}
use chibios_smash.Types.{Thread, ResourceType, Resource, Action, ActionType, Scenario, Engine}
use chibios_smash.Model.Queue.{thread_count}
use chibios_smash.Model.Consistent.{Consistent, IsConsistent, Consistent-threads}
use chibios_smash.Engine.Step.Frame.{IsFrame}
use chibios_smash.Engine.Step.{tick_thread, tick_all}

-- What an action needs of its resource.
pub data Need : Type 0 where
  nothing : Need
  some_resource : Need
  of_type : ResourceType → Need

-- `none` for the actions that the theorem leaves out: timed ones, condition variables, mailboxes.
abbrev pub need : ActionType → Option Need
need ActionType.nop = some Need.nothing
need ActionType.mutex_lock = some (Need.of_type ResourceType.mutex)
need ActionType.mutex_unlock = some (Need.of_type ResourceType.mutex)
need ActionType.sem_wait = some (Need.of_type ResourceType.semaphore)
need ActionType.sem_signal = some (Need.of_type ResourceType.semaphore)
need ActionType.yield = some Need.nothing
need ActionType.finish = some Need.nothing
need ActionType.sys_lock = some Need.nothing
need ActionType.sys_unlock = some Need.nothing
need ActionType.isr_enter = some Need.nothing
need ActionType.isr_exit = some Need.nothing
need ActionType.object_init = some Need.some_resource
need ActionType.object_destroy = some Need.some_resource
need ActionType.call = some Need.nothing
need ActionType.return = some Need.nothing
need _ = none

-- The action names a resource of the scenario, of the type that it needs.
abbrev pub Fits : Scenario → Action → Option Need → Type 0
Fits sc a none = ⊥
Fits sc a (some Need.nothing) = Unit
Fits sc a (some Need.some_resource) = Unit
Fits sc a (some (Need.of_type k)) =
    (r : ℕ) × (a.resource_id ≡ pos r) × (r < to_nat sc.resource_count) × (sc.res_types r ≡ k)

abbrev pub IsPlain : Scenario → Type 0
IsPlain sc =
    (t s : ℕ)
    → t < to_nat sc.thread_count
    → ltb_ℤ (pos s) (sc.step_count t) ≡ true
    → Fits sc (sc.steps t s) (need (sc.steps t s).type)

-- The invariant of an engine that runs a plain scenario.
pub record Running (sc : Scenario) (threads : ℕ → Thread) (rs : ℕ → Resource) : Type 0 where
  pub consistent : Consistent (to_nat sc.thread_count) (to_nat sc.resource_count) threads rs
  pub typed : (r : ℕ) → r < to_nat sc.resource_count → (rs r).type ≡ sc.res_types r
  pub no_timer :
      (t : ℕ) → t < to_nat sc.thread_count → is_positive (threads t).timeout_ticks ≡ false

abbrev pub IsRunning : Engine → Type 0
IsRunning e = Running e.scenario e.threads e.resources

-- A thread with the fields that the invariant reads unchanged.
pub record IsLocal (t t' : Thread) : Type 0 where
  pub state : t'.state ≡ t.state
  pub blocked_on : t'.blocked_on ≡ t.blocked_on
  pub priority : t'.priority ≡ t.priority
  pub owned_count : t'.owned_mutex_count ≡ t.owned_mutex_count
  pub owned_stack : t'.owned_mutex_stack ≡ t.owned_mutex_stack
  pub timer : t'.timeout_ticks ≡ t.timeout_ticks

pub Running-local :
    (e e' : Engine)
    → IsRunning e
    → e'.scenario ≡ e.scenario
    → e'.resources ≡ e.resources
    → ((j : ℕ) → IsLocal (e.threads j) (e'.threads j))
    → IsRunning e'
Running-local e e' run same_scenario same_resources local =
    rw (same_scenario, same_resources)
      (record {
        consistent =
            Consistent-threads run.consistent e'.threads
              (λ j. ((local j).state, (local j).blocked_on)) (λ j. (local j).priority)
              (λ j. ((local j).owned_count, (local j).owned_stack));
        typed = run.typed;
        no_timer = λ t lt. ground (arith, run.no_timer t, local t);
      })

pub Running-frame : {e e' : Engine} → IsRunning e → IsFrame e e' → IsConsistent e' → IsRunning e'
Running-frame {e} {e'} run frame inv = record {
  consistent = inv;
  typed = λ r lt. ground (
    arith,
    run.typed r,
    frame.types r,
    ap (λ (sc : Scenario). sc.res_types r) frame.scenario,
    ap (λ (sc : Scenario). sc.resource_count) frame.scenario,
  );
  no_timer = λ t lt. ground (
    arith,
    run.no_timer t,
    frame.timers t,
    ap (λ (sc : Scenario). sc.thread_count) frame.scenario,
  );
}

pub tick_all-idle :
    (e : Engine)
    → ((t : ℕ) → t < thread_count e → is_positive (e.threads t).timeout_ticks ≡ false)
    → tick_all e ≡ e
unfolding tick_all tick_thread
tick_all-idle e idle =
    for_up_inv (λ i s. s ≡ e) tick_thread e (thread_count e) refl
      (λ i s lt same. rw same (ground (arith, idle i lt)))
