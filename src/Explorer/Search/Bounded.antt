-- ===== src/Explorer/Search/Bounded.antt =====
-- Runs of plain scenarios end, so a search of src/explorer.c with a limit of depth above their length
-- sees all of them.
use chibios_smash.Base.{
  ℕ, suc, ◌+◌, ◌≤◌, ◌<◌, ◌≡◌, sym, ap, ◌∙◌, refl, to_nat, Bool-cases, inl, inr, true, false, Option,
  none, is_some, Option-cases, ◌↔◌, ltb, arith,
}
use mathlib.Core.Path.{subst}
use chibios_smash.Types.{max_threads, max_depth, Scenario, Engine, is_ready, failed}
use chibios_smash.Model.Queue.{thread_count}
use chibios_smash.Dpor.{Dpor}
use chibios_smash.Engine.Init.{scenario_validate, engine_init, engine_reset, zero_engine}
use chibios_smash.Engine.Init.Start.{engine_init-valid, scenario_validate-few}
use chibios_smash.Engine.Threads.Runnable.{contains-collect_runnable}
use chibios_smash.Engine.Step.Scenario.{execute_step-scenario}
use chibios_smash.Engine.Step.Plain.{IsPlain, IsRunning}
use chibios_smash.Engine.Step.Invariant.{execute_step-IsRunning}
use chibios_smash.Engine.Step.Progress.{
  remaining, most_steps, execute_step-remaining, remaining-engine_init,
}
use chibios_smash.Engine.Run.Plain.{HasNoDebt, engine_reset-IsRunning}
use chibios_smash.Explorer.Search.{Config, record_bounded, clamp_config, explore}
use chibios_smash.Explorer.Search.Reach.{stepped, IsRunnable, Reaches, start, next, IsBug}
use chibios_smash.Explorer.Search.Sound.{HasBug, explore-HasBug}
use chibios_smash.Explorer.Search.Complete.{explore-IsComplete}

-- A state on a run of a plain scenario, after `n` steps.
record IsOnRun (sc : Scenario) (n : ℕ) (e : Engine) : Type 0 where
  scenario : e.scenario ≡ sc
  runs : IsRunning e
  bound : n + remaining e ≤ most_steps sc

record_bounded-IsRunning :
    (e : Engine) (tid : ℕ)
    → IsRunning e
    → IsRunning (record_bounded e tid)
      × ((remaining (record_bounded e tid) ≡ remaining e)
          × ((record_bounded e tid).scenario ≡ e.scenario))
unfolding remaining
record_bounded-IsRunning e tid run = elim (Bool-cases (ltb e.trace.schedule_len max_depth)) [
  | inl room ↦ rw room (run, (refl, refl))
  | inr full ↦ rw full (run, (refl, refl))
]

module _ (sc : Scenario) (valid : scenario_validate sc ≡ true) (plain : IsPlain sc)
    (no_debt : HasNoDebt sc) where
  start-IsOnRun : IsOnRun sc 0 (engine_init sc)
  unfolding engine_reset zero_engine
  start-IsOnRun =
      let first = engine_init-valid sc valid in
      record {
        scenario = ap (λ (x : Engine). x.scenario) first;
        runs =
            subst IsRunning (sym first)
              (engine_reset-IsRunning (zero_engine sc) (scenario_validate-few sc valid) no_debt);
        bound = let same = remaining-engine_init sc valid in omega (arith, same);
      }

  stepped-IsOnRun :
      (n : ℕ) (e : Engine) (tid : ℕ)
      → IsOnRun sc n e
      → IsRunnable e tid
      → failed (stepped e tid) ≡ false
      → IsOnRun sc (suc n) (stepped e tid)
  stepped-IsOnRun n e tid on runs fine =
      let few : thread_count e ≤ max_threads =
        let same = ap (λ (x : Scenario). to_nat x.thread_count) on.scenario in
        let most = scenario_validate-few sc valid in omega (arith, same, most) in
      let listed = contains-collect_runnable e max_threads tid few in
      let e1 = record_bounded e tid in
      let (run1, (left1, scenario1)) = record_bounded-IsRunning e tid on.runs in
      let scenario : e1.scenario ≡ sc = scenario1 ∙ on.scenario in
      let plain1 : IsPlain e1.scenario = subst IsPlain (sym scenario) plain in
      let inside : tid < thread_count e1 =
        subst (λ (x : Scenario). tid < to_nat x.thread_count) (sym scenario1)
          (ground (arith, listed, runs)) in
      let ready : is_ready (e1.threads tid).state ≡ true = ground (arith, listed, runs) in
      let less = execute_step-remaining e1 tid plain1 inside run1 ready fine in
      let bound = on.bound in
      record {
        scenario = execute_step-scenario e1 tid ∙ scenario;
        runs = execute_step-IsRunning e1 tid plain1 inside run1;
        bound = omega (arith, less, left1, bound);
      }

  Reaches-IsOnRun : {n : ℕ} {e : Engine} → Reaches (engine_init sc) n e → IsOnRun sc n e
  Reaches-IsOnRun start = start-IsOnRun
  Reaches-IsOnRun (next {n = n} {e = e} tid before live runs fine passes) =
      stepped-IsOnRun n e tid (Reaches-IsOnRun before) runs fine

  -- No run of a valid plain scenario without a negative semaphore count, along any steps of runnable
  -- threads that neither fail nor break a check, has more than three steps for each step of a thread
  -- and two for each thread.
  pub Reaches-most_steps : (n : ℕ) (e : Engine) → Reaches (engine_init sc) n e → n ≤ most_steps sc
  Reaches-most_steps n e reached =
      let bound = (Reaches-IsOnRun reached).bound in omega (arith, bound)

  -- For a valid plain scenario without a negative semaphore count and a search without partial-order
  -- reduction and without the cache of states, whose limit of depth is above three for each step
  -- of a thread and two for each thread, and which counts fewer interleavings than its limit: the search
  -- keeps no failing trace exactly if no state that the program reaches has a bug.
  pub explore_iff :
      (config : Config) (g_dpor : Option Dpor)
      → config.enable_dpor ≡ false
      → config.enable_state_caching ≡ false
      → most_steps sc < to_nat (clamp_config config).max_depth
      → (explore sc config g_dpor).0.interleavings < (clamp_config config).max_interleavings
      → ((explore sc config g_dpor).0.failing_trace ≡ none)
        ↔ ((n : ℕ) (e : Engine) → Reaches (engine_init sc) n e → ¬ IsBug e)
  unfolding HasBug
  explore_iff config g_dpor no_dpor no_cache deep room = (
    (λ untraced n e reached.
        let most = Reaches-most_steps n e reached in
        explore-IsComplete sc config g_dpor valid no_dpor no_cache untraced room n e reached
          (omega (arith, most, deep))),
    (λ no_bug. elim (Option-cases (explore sc config g_dpor).0.failing_trace) [
      | inl empty ↦ empty
      | inr (t, kept) ↦
          let (n, (e, (reached, bug))) = explore-HasBug sc config g_dpor valid (ap is_some kept) in
          absurd (no_bug n e reached bug)
    ]),
  )
