-- ===== src/Explorer/Search/Sound/Rounds.antt =====
-- The loop over the runnable threads of src/explorer.c keeps a failing trace only for a bug of a
-- reachable state.
use mathlib.Core.Path.{subst}
use chibios_smash.Base.{
  Option-cases, some, ◌<◌, pos, negsuc, ℕ, suc, ◌≡◌, sym, ap, ◌∙◌, inl, inr, Bool, true, false,
  ◌&&◌, none, if◌then◌else◌, Bool-cases, arith, List, [], ◌∷◌, contains,
}
use chibios_smash.Types.{max_depth, Trace, EventType, Engine, failed}
use chibios_smash.Trace.{trace_log, log}
use chibios_smash.Engine.Step.Frame.{choices}
use chibios_smash.Engine.Threads.{all_done}
use chibios_smash.Engine.Step.Scenario.{execute_step-scenario}
use chibios_smash.Dpor.{Mask, sleep_add, sleep_contains}
use chibios_smash.Spec.Checks.{check_all}
use chibios_smash.Explorer.Search.{
  Config, Result, Search, keep_trace, report_violation, record_bounded, count_skip, backtrack,
  explore_thread, explore_choice, explore_threads,
}
use chibios_smash.Explorer.Search.Reach.{
  stepped, IsRunnable, Reaches, next, IsWayToBug, to_failure, to_violation, IsView, failed-IsView,
  check_all-IsView, stepped-IsView, restore_engine-IsView, not_failed,
}

pub record_bounded-scenario : (e : Engine) (tid : ℕ) → (record_bounded e tid).scenario ≡ e.scenario
record_bounded-scenario e tid = ground arith

pub trace_of : {e e' : Engine} → IsView e e' → choices e'.trace ≡ choices e.trace
trace_of view = ap (λ (x : Engine). choices x.trace) view.same

pub log-choices :
    (e : Engine)
    → choices (log e EventType.deadlock (negsuc 0) (negsuc 0) (pos 0)).trace ≡ choices e.trace
unfolding trace_log
log-choices e = ground arith

module _ (origin : Engine) where
  -- The trace records the way to a bug of a state that is reached above the limit of depth.
  unfoldable pub HasWay : Trace → Type 0
  HasWay t = (n : ℕ) × ((e : Engine) × (Reaches origin n e × ((n < max_depth) × IsWayToBug e t)))

  -- What the search knows at a state: a trace that it keeps is of a bug.
  abbrev pub IsTraced : Search → Type 0
  IsTraced s = (t : Trace) → s.result.failing_trace ≡ some t → HasWay t

  -- A search that shows the state `e` and keeps its promise.
  pub record IsAt (n : ℕ) (e : Engine) (s : Search) : Type 0 where
    pub reached : Reaches origin n e
    pub fine : e.fail_msg ≡ none
    pub view : IsView e s.engine
    pub traced : IsTraced s

  -- What is asked of the recursive call.
  pub record IsHonest (depth : ℕ) (below : Search → Search) : Type 0 where
    pub keeps : (s : Search) → (below s).engine.scenario ≡ s.engine.scenario
    pub honest : (e : Engine) (s : Search) → IsAt depth e s → IsTraced (below s)

  pub keep_trace-HasWay :
      (r : Result) (x t : Trace)
      → ((u : Trace) → r.failing_trace ≡ some u → HasWay u)
      → HasWay x
      → keep_trace r x ≡ some t
      → HasWay t
  keep_trace-HasWay r x t old new kept = elim (Option-cases r.failing_trace) [
    | inl empty ↦ let same : x ≡ t = cc (rw empty at kept) in subst HasWay same new
    | inr (u, filled) ↦ old t (filled ∙ (rw filled at kept))
  ]

  pub if-IsTraced :
      (test : Bool) (s t : Search) → IsTraced s → IsTraced t → IsTraced (if test then s else t)
  if-IsTraced true s t h k = h
  if-IsTraced false s t h k = k

  count_skip-IsAt :
      (cfg : Config) (depth tid n : ℕ) (e : Engine) (s : Search)
      → IsAt n e s
      → IsAt n e (count_skip cfg depth tid s)
  unfolding count_skip
  count_skip-IsAt cfg depth tid n e s at =
      elim (Bool-cases (cfg.enable_dpor && sleep_contains s.dpor depth tid)) [
        | inl slept ↦
            rw slept
              (record { reached = at.reached; fine = at.fine; view = at.view; traced = at.traced })
        | inr awake ↦
            rw awake
              (record { reached = at.reached; fine = at.fine; view = at.view; traced = at.traced })
      ]

  module _ (below : Search → Search) (cfg : Config) (depth : ℕ) (call : IsHonest (suc depth) below)
      (shallow : depth < max_depth) where
    explore_thread-IsAt :
        (runnable : List ℕ) (tid : ℕ) (e : Engine) (s : Search)
        → all_done e ≡ false
        → IsRunnable e tid
        → IsAt depth e s
        → IsAt depth e (explore_thread below cfg depth runnable tid s).0
    unfolding explore_thread report_violation backtrack HasWay
    explore_thread-IsAt runnable tid e s live runs at =
        let e1 = stepped s.engine tid in
        let view1 = stepped-IsView e s.engine at.view tid in
        let s1 = record s {
          engine = e1;
          dpor = if cfg.enable_dpor then sleep_add s.dpor depth tid else s.dpor;
        } in
        let same = ap (λ (x : Engine). x.scenario) at.view.same in
        let scenario =
          execute_step-scenario (record_bounded s.engine tid) tid
          ∙ (record_bounded-scenario s.engine tid ∙ same) in
        elim (Bool-cases (failed e1)) [
          | inl failing ↦ rw failing (record {
            reached = at.reached;
            fine = at.fine;
            view = restore_engine-IsView e s.engine at.view e1 at.fine scenario;
            traced = λ t kept.
                keep_trace-HasWay s.result e1.trace t at.traced
                  (
                    depth,
                    (
                      e,
                      (
                        at.reached,
                        (
                          shallow,
                          to_failure tid live runs (sym (failed-IsView _ _ view1) ∙ failing)
                              (trace_of view1),
                        ),
                      ),
                    ),
                  )
                  kept;
          })
          | inr ok ↦ elim (Bool-cases (check_all e1)) [
            | inr refuted ↦
                rw (ok, refuted)
                  (record {
                    reached = at.reached;
                    fine = at.fine;
                    view = restore_engine-IsView e s.engine at.view e1 at.fine scenario;
                    traced = λ t kept.
                        keep_trace-HasWay s.result e1.trace t at.traced
                          (
                            depth,
                            (
                              e,
                              (
                                at.reached,
                                (
                                  shallow,
                                  to_violation tid live runs
                                      (sym (check_all-IsView _ _ view1) ∙ refuted) (trace_of view1),
                                ),
                              ),
                            ),
                          )
                          kept;
                  })
            | inl passes ↦
                let ok' = sym (failed-IsView _ _ view1) ∙ ok in
                let passes' = sym (check_all-IsView _ _ view1) ∙ passes in
                let deep = call.honest (stepped e tid) s1 (record {
                  reached = next tid at.reached live runs ok' passes';
                  fine = not_failed (stepped e tid) ok';
                  view = view1;
                  traced = at.traced;
                }) in
                rw (ok, passes)
                  (record {
                    reached = at.reached;
                    fine = at.fine;
                    view =
                        restore_engine-IsView e s.engine at.view (below s1).engine at.fine
                          (call.keeps s1 ∙ scenario);
                    traced = deep;
                  })
          ]
        ]

    explore_choice-IsAt :
        (runnable : List ℕ) (set : Mask) (tid : ℕ) (e : Engine) (s : Search)
        → all_done e ≡ false
        → IsRunnable e tid
        → IsAt depth e s
        → IsAt depth e (explore_choice below cfg depth runnable set tid s).0
    unfolding explore_choice count_skip
    explore_choice-IsAt runnable set tid e s live runs at = elim (Bool-cases (set tid)) [
      | inl chosen ↦ rw chosen (explore_thread-IsAt runnable tid e s live runs at)
      | inr skipped ↦ rw skipped (count_skip-IsAt cfg depth tid depth e s at)
    ]

    pub explore_threads-IsAt :
        (runnable : List ℕ) (set : Mask) (tids : List ℕ) (e : Engine) (s : Search)
        → all_done e ≡ false
        → ((t : ℕ) → contains tids t ≡ true → IsRunnable e t)
        → IsAt depth e s
        → IsAt depth e (explore_threads below cfg depth runnable set tids s)
    unfolding explore_threads contains
    explore_threads-IsAt runnable set [] e s live run at = at
    explore_threads-IsAt runnable set (tid ∷ tids) e s live run at =
        let first = explore_choice below cfg depth runnable set tid s in
        let here = explore_choice-IsAt runnable set tid e s live (run tid (ground arith)) at in
        elim (Bool-cases first.1) [
          | inl go_on ↦ rw go_on (
              explore_threads-IsAt runnable set tids e first.0 live
                (λ t t_in. run t (ground (arith, t_in))) here)
          | inr stop ↦ rw stop here
        ]
