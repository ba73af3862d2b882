-- ===== src/Explorer/Minimize.antt =====
-- `smash_trace_minimize` of src/trace.c. The schedule array up to `schedule_len` is a list.
pub mod Shorter
use chibios_smash.Base.{
  ℕ, zero, suc, ◌+◌, ◌-◌, ◌/◌, ℤ, pos, Bool, true, false, not, ◌&&◌, ◌||◌, ltb, leb, ◌==◌,
  if◌then◌else◌, List, [], ◌∷◌,
}
use chibios_smash.Types.{max_threads, Scenario, Engine, failed}
use chibios_smash.Engine.Init.{engine_init}
use chibios_smash.Engine.Threads.{length, collect_runnable, all_done}
use chibios_smash.Engine.Run.{run_schedule}
use chibios_smash.Spec.Checks.{check_all}

-- The loop over `i` that copies every entry outside the chunk.
unfoldable pub without : ℕ → ℕ → ℕ → List ℕ → List ℕ
without start chunk i [] = []
without start chunk i (t ∷ ts) =
    let rest = without start chunk (i + 1) ts in
    if ltb i start || leb (start + chunk) i then t ∷ rest else rest

abbrev pub ids : List ℕ → List ℤ
ids [] = []
ids (t ∷ ts) = pos t ∷ ids ts

-- The engine after a run of the trial.
unfoldable pub trial_run : Scenario → List ℕ → Engine
trial_run sc trial = (run_schedule (engine_init sc) (ids trial)).0

unfoldable pub still_fails : Engine → Bool
still_fails e =
    if failed e
    then true
    else if not (check_all e)
    then true
    else not (all_done e) && length (collect_runnable e max_threads) == 0

-- The engine is scratch: each trial sets it up again.
pub record Minimizer : Type 0 where
  pub engine : Engine
  pub schedule : List ℕ

-- The loop over `start`. A round shortens the schedule or moves `start` on, so one round more than
-- there are entries after `start` is enough.
unfoldable pub try_chunks : ℕ → Scenario → ℕ → ℕ → Minimizer → Minimizer
try_chunks zero sc chunk start m = m
try_chunks (suc fuel) sc chunk start m =
    let trial = without start chunk 0 m.schedule in
    let e = trial_run sc trial in
    let keep = still_fails e in
    let rest =
      try_chunks fuel sc chunk (if keep then start else start + chunk)
        (record { engine = e; schedule = if keep then trial else m.schedule }) in
    if leb (start + chunk) (length m.schedule) then rest else m

-- The loop over `chunk`, which is halved in each round.
unfoldable pub try_sizes : ℕ → Scenario → ℕ → Minimizer → Minimizer
try_sizes zero sc chunk m = m
try_sizes (suc fuel) sc chunk m =
    let rest = try_sizes fuel sc (chunk / 2) (try_chunks (length m.schedule + 1) sc chunk 0 m) in
    if leb 1 chunk then rest else m

-- The shortened schedule with the engine, and the number of entries that were removed.
unfoldable pub trace_minimize : Scenario → Engine → List ℕ → Minimizer × ℕ
trace_minimize sc e schedule =
    let start : Minimizer = record { engine = e; schedule = schedule } in
    let end = try_sizes (length schedule + 1) sc (length schedule / 2) start in
    if length schedule == 0 then (start, 0) else (end, length schedule - length end.schedule)
