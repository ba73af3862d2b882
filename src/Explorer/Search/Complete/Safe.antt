-- ===== src/Explorer/Search/Complete/Safe.antt =====
-- A search of src/explorer.c without pruning: what a safe state is, and what is asked of a call.
use mathlib.Core.Path.{subst}
use chibios_smash.Base.{
  ℕ, zero, suc, ◌+◌, ◌≡◌, ◌≢◌, inl, inr, ◌⊎◌, true, false, none, Option-cases, leb, arith, List, [],
  contains,
}
use chibios_smash.Types.{max_threads, Trace, Engine, failed}
use chibios_smash.Engine.Threads.{collect_runnable, all_done}
use chibios_smash.Dpor.{empty_mask}
use chibios_smash.Spec.Checks.{check_all}
use chibios_smash.Explorer.Persistent.{mask_of}
use chibios_smash.Explorer.Persistent.Round.{mask_of-adds}
use chibios_smash.Explorer.Search.{Config, Result, Search, keep_trace, report_violation}
use chibios_smash.Explorer.Search.Reach.{
  stepped, IsRunnable, Reaches, start, next, IsBug, deadlock, failure, violation, IsView,
}

-- All steps from the state, for a number of levels, are free of bugs.
abbrev pub IsSafe : ℕ → Engine → Type 0
IsSafe zero e = Unit
IsSafe (suc k) e =
    (all_done e ≡ true)
    ⊎ ((collect_runnable e max_threads ≢ [])
        × ((tid : ℕ)
            → IsRunnable e tid
            → (failed (stepped e tid) ≡ false)
              × ((check_all (stepped e tid) ≡ true) × IsSafe k (stepped e tid))))

pub IsSafe-Reaches :
    {origin e : Engine} {n : ℕ} (levels k : ℕ)
    → Reaches origin n e
    → levels ≡ n + k
    → IsSafe levels origin
    → IsSafe k e
IsSafe-Reaches {origin = origin} levels k start sum safe =
    let same : levels ≡ k = omega arith in subst (λ l. IsSafe l origin) same safe
IsSafe-Reaches levels k (next tid before live runs ok passes) sum safe =
    elim (IsSafe-Reaches levels (suc k) before (omega arith) safe) [
      | inl done ↦ cc
      | inr (some_run, steps) ↦ (steps tid runs).1.1
    ]

pub IsSafe-IsBug : (k : ℕ) (e : Engine) → IsSafe (suc k) e → ¬ IsBug e
IsSafe-IsBug k e (inl done) (deadlock live empty) = cc
IsSafe-IsBug k e (inl done) (failure tid live runs fails) = cc
IsSafe-IsBug k e (inl done) (violation tid live runs broken) = cc
IsSafe-IsBug k e (inr (some_run, steps)) (deadlock live empty) = some_run empty
IsSafe-IsBug k e (inr (some_run, steps)) (failure tid live runs fails) =
    ground (arith, fails, (steps tid runs).0)
IsSafe-IsBug k e (inr (some_run, steps)) (violation tid live runs broken) =
    ground (arith, broken, (steps tid runs).1.0)

-- No bug was found and the limit of interleavings is not reached.
pub record IsOpen (cfg : Config) (r : Result) : Type 0 where
  pub untraced : r.failing_trace ≡ none
  pub room : leb cfg.max_interleavings r.interleavings ≡ false

pub keep_trace-some : (r : Result) (t : Trace) → keep_trace r t ≢ none
keep_trace-some r t h = elim (Option-cases r.failing_trace) [
  | inl e ↦ cc (rw e at h)
  | inr (old, e) ↦ cc (rw e at h)
]

pub mask_of-all : (l : List ℕ) (t : ℕ) → contains l t ≡ true → mask_of l t ≡ true
unfolding mask_of
mask_of-all l t t_in = mask_of-adds l empty_mask t (inr t_in)

pub report_violation-closed {ℓ} :
    {cfg : Config} {A : Type ℓ} (saved : Engine) (s : Search)
    → IsOpen cfg (report_violation saved s).result
    → A
unfolding report_violation
report_violation-closed saved s opened =
    absurd (keep_trace-some s.result s.engine.trace opened.untraced)

-- What is asked of the recursive call, for `k` levels below it.
pub record IsThorough (cfg : Config) (k : ℕ) (below : Search → Search) : Type 0 where
  pub keeps : (s : Search) → (below s).engine.scenario ≡ s.engine.scenario
  pub opened : (s : Search) → IsOpen cfg (below s).result → IsOpen cfg s.result
  pub thorough :
      (e : Engine) (s : Search)
      → e.fail_msg ≡ none
      → IsView e s.engine
      → IsOpen cfg (below s).result
      → IsSafe k e

-- A step that the search has followed for `k` levels.
abbrev pub IsFollowed : ℕ → Engine → ℕ → Type 0
IsFollowed k e tid =
    (failed (stepped e tid) ≡ false)
    × ((check_all (stepped e tid) ≡ true) × IsSafe k (stepped e tid))
