-- ===== src/Explorer/Search/Replay/Way.antt =====
-- The schedule that the trace of an engine records, when src/explorer.c takes a step, leads a run of
-- `smash_run_schedule` of src/engine.c to the same state.
use chibios_smash.Base.{
  ℕ, zero, suc, ◌+◌, ◌≤◌, ◌<◌, ◌≡◌, refl, sym, ap, ◌∙◌, inl, inr, ℤ, pos, ltb_ℤ, is_negative, Bool,
  true, false, not, ◌||◌, update, Bool-cases, arith, List, [], ◌∷◌, ◌++◌,
}
use chibios_smash.Types.{max_threads, max_depth, Trace, Engine, failed, is_ready}
use chibios_smash.Model.Queue.{thread_count}
use chibios_smash.Engine.Threads.{all_done}
use chibios_smash.Engine.Threads.Runnable.{contains-collect_runnable}
use chibios_smash.Engine.Step.{execute_step}
use chibios_smash.Engine.Step.Frame.{choices}
use chibios_smash.Engine.Step.Scenario.{execute_step-scenario, execute_step-choices}
use chibios_smash.Engine.Step.Errors.{execute_step-failed}
use chibios_smash.Engine.Run.{record_choice, run_from}
use chibios_smash.Explorer.Minimize.{ids}
use chibios_smash.Explorer.Search.{record_bounded}
use chibios_smash.Explorer.Search.Reach.{stepped, IsRunnable, Reaches, start, next}

-- The first entries of an array as a list.
abbrev pub entries : (ℕ → ℕ) → ℕ → List ℕ
entries f zero = []
entries f (suc n) = entries f n ++ (f n ∷ [])

-- The schedule of a trace as a list.
unfoldable pub recorded_schedule : Trace → List ℕ
recorded_schedule t = entries t.schedule t.schedule_len

entries-update : (f : ℕ → ℕ) (k n x : ℕ) → k ≤ n → entries (update f n x) k ≡ entries f k
entries-update f zero n x le = refl
entries-update f (suc k) n x le =
    let same : update f n x k ≡ f k = ground arith in
    rw (entries-update f k n x (omega arith), same) refl

pub entries-record :
    (f : ℕ → ℕ) (n x : ℕ) → entries (update f n x) (suc n) ≡ entries f n ++ (x ∷ [])
entries-record f n x =
    let same : update f n x n ≡ x = ground arith in
    rw (entries-update f n n x (omega arith), same) refl

pub ids-++ : (l : List ℕ) (x : ℕ) (m : List ℤ) → ids (l ++ (x ∷ [])) ++ m ≡ ids l ++ (pos x ∷ m)
ids-++ [] x m = refl
ids-++ (y ∷ l) x m = ap (λ r. pos y ∷ r) (ids-++ l x m)

-- One round of a run, and a run of one round.
module _ (e : Engine) (tid : ℕ) (live : all_done e ≡ false) (inside : tid < thread_count e) where
  abbrev pub chosen_step : Engine × Bool
  chosen_step = execute_step (record_choice e tid) tid

  in_range : (is_negative (pos tid) || not (ltb_ℤ (pos tid) e.scenario.thread_count)) ≡ false
  in_range = ground (arith, inside)

  run_from-next :
      (i : ℕ) (m : List ℤ)
      → chosen_step.1 ≡ true
      → failed chosen_step.0 ≡ false
      → run_from e i (pos tid ∷ m) ≡ run_from chosen_step.0 (i + 1) m
  unfolding run_from
  run_from-next i m ok fine = rw (live, in_range, ok, fine) refl

  pub run_from-last : (i : ℕ) → (run_from e i (pos tid ∷ [])).0 ≡ chosen_step.0
  unfolding run_from
  run_from-last i = elim (Bool-cases chosen_step.1) [
    | inr stopped ↦ rw (live, in_range, stopped) refl
    | inl ok ↦ elim (Bool-cases (failed chosen_step.0)) [
      | inl fails ↦ rw (live, in_range, ok, fails) refl
      | inr fine ↦ rw (live, in_range, ok, fine) refl
    ]
  ]

-- A state that steps reach, with the schedule that the trace records on the way.
pub record IsWay (origin : Engine) (n : ℕ) (e : Engine) : Type 0 where
  pub scenario : e.scenario ≡ origin.scenario
  pub count : e.trace.schedule_len ≡ n
  pub runs :
      (m : List ℤ) → run_from origin 0 (ids (entries e.trace.schedule n) ++ m) ≡ run_from e n m

record_bounded-room :
    (e : Engine) (tid : ℕ)
    → e.trace.schedule_len < max_depth
    → record_bounded e tid ≡ record_choice e tid
record_bounded-room e tid room = ground (arith, room)

module _ (origin : Engine) (few : thread_count origin ≤ max_threads) where
  -- A step of a runnable thread, as a run takes it.
  pub record IsStep (n : ℕ) (e : Engine) (tid : ℕ) : Type 0 where
    pub inside : tid < thread_count e
    pub same : stepped e tid ≡ (execute_step (record_choice e tid) tid).0
    pub recorded : choices (stepped e tid).trace ≡ (update e.trace.schedule n tid, suc n)

  pub stepped-IsStep :
      (n : ℕ) (e : Engine) (tid : ℕ)
      → IsWay origin n e
      → n < max_depth
      → IsRunnable e tid
      → IsStep n e tid
  stepped-IsStep n e tid way room runs =
      let few' : thread_count e ≤ max_threads = ground (arith, few, way.scenario) in
      let listed = contains-collect_runnable e max_threads tid few' in
      let same = record_bounded-room e tid (ground (arith, way.count, room)) in
      let index : n + 1 ≡ suc n = omega arith in
      record {
        inside = ground (arith, listed, runs);
        same = ap (λ x. (execute_step x tid).0) same;
        recorded =
            execute_step-choices (record_bounded e tid) tid
            ∙ (ap (λ (x : Engine). choices x.trace) same
                ∙ ((λ i. (update e.trace.schedule (way.count i) tid, way.count i + 1))
                    ∙ (λ i. (update e.trace.schedule n tid, index i))));
      }

  next-IsWay :
      (n : ℕ) (e : Engine) (tid : ℕ)
      → IsWay origin n e
      → n < max_depth
      → all_done e ≡ false
      → IsRunnable e tid
      → failed (stepped e tid) ≡ false
      → IsWay origin (suc n) (stepped e tid)
  next-IsWay n e tid way room live runs fine =
      let step = stepped-IsStep n e tid way room runs in
      let e1 = execute_step (record_choice e tid) tid in
      let few' : thread_count e ≤ max_threads = ground (arith, few, way.scenario) in
      let listed = contains-collect_runnable e max_threads tid few' in
      let ready : is_ready (e.threads tid).state ≡ true = ground (arith, listed, runs) in
      let fine' : failed e1.0 ≡ false = sym (ap failed step.same) ∙ fine in
      let ok : e1.1 ≡ true = elim (Bool-cases e1.1) [
        | inl ok ↦ ok
        | inr stopped ↦
            let fails = execute_step-failed (record_choice e tid) tid ready stopped in
            absurd (ground (arith, fails, fine'))
      ] in
      let schedule = ap (λ p. p.0) step.recorded in
      let list : entries (stepped e tid).trace.schedule (suc n)
          ≡ entries e.trace.schedule n ++ (tid ∷ []) =
        ap (λ f. entries f (suc n)) schedule ∙ entries-record e.trace.schedule n tid in
      let index : n + 1 ≡ suc n = omega arith in
      record {
        scenario =
            ap (λ (x : Engine). x.scenario) step.same
            ∙ (execute_step-scenario (record_choice e tid) tid ∙ way.scenario);
        count = ap (λ p. p.1) step.recorded;
        runs = λ m.
            ap (λ l. run_from origin 0 (ids l ++ m)) list
            ∙ (ap (run_from origin 0) (ids-++ (entries e.trace.schedule n) tid m)
                ∙ (way.runs (pos tid ∷ m)
                    ∙ (run_from-next e tid live step.inside n m ok fine'
                        ∙ (ap (λ k. run_from e1.0 k m) index
                            ∙ ap (λ x. run_from x (suc n) m) (sym step.same)))));
      }

  pub Reaches-IsWay :
      {n : ℕ} {e : Engine}
      → origin.trace.schedule_len ≡ 0
      → Reaches origin n e
      → n ≤ max_depth
      → IsWay origin n e
  Reaches-IsWay empty start le = record { scenario = refl; count = empty; runs = λ m. refl }
  Reaches-IsWay empty (next {n = n} {e = e} tid before live runs fine passes) le =
      next-IsWay n e tid (Reaches-IsWay empty before (omega arith)) (omega arith) live runs fine
