-- ===== src/Explorer/Search/Sound.antt =====
-- Every failing trace that a search of src/explorer.c keeps comes from a bug of a reachable state,
-- whatever it prunes.
pub mod Rounds
use mathlib.Core.Path.{subst}
use chibios_smash.Base.{
  ℕ, zero, suc, ◌+◌, ◌≡◌, refl, sym, ap, ◌∙◌, inl, inr, ◌⊎◌, Bool, true, false, not, ◌&&◌, Option,
  none, some, is_some, if◌then◌else◌, ltb, leb, ltb_ℤ, pos, Bool-cases, arith, List, [], ◌∷◌,
  Option-cases, negsuc, ◌<◌, List-cases, contains, ◌==◌, ◌||◌,
}
use chibios_smash.Trace.{log}
use chibios_smash.Types.{EventType, Trace, max_threads, max_depth, Scenario, Engine, failed}
use chibios_smash.Engine.Init.{scenario_validate, engine_init, engine_reset}
use chibios_smash.Engine.Threads.{capture_state, collect_runnable, all_done}
use chibios_smash.Engine.Step.Scenario.{execute_step-scenario}
use chibios_smash.Engine.Step.View.{Books}
use chibios_smash.State.Hash.{state_hash}
use chibios_smash.State.Table.{state_mark_visited, state_visited}
use chibios_smash.Dpor.{Mask, Dpor, sleep_add, sleep_contains}
use chibios_smash.Spec.Checks.{check_all}
use chibios_smash.Explorer.Search.{
  Config, Result, Search, should_stop, report_deadlock, report_violation, record_bounded,
  restore_engine, count_skip, backtrack, explore_thread, explore_choice, explore_threads,
  explore_set, explore_state, explore_runnable, explore_node, reach_depth, explore_dfs,
  empty_result, clamp_config, refused_result, prepare_dpor, search_from, explore,
}
use chibios_smash.Explorer.Search.Restore.{explore_dfs-IsRestored}
use chibios_smash.Explorer.Search.Reach.{
  stepped, IsRunnable, Reaches, start, next, IsBug, IsWayToBug, to_deadlock, IsWayToBug-IsBug,
  IsView, IsView-refl, all_done-IsView, collect_runnable-IsView, failed-IsView, check_all-IsView,
  stepped-IsView, restore_engine-IsView, with_books-IsView, state_mark_visited-IsView, not_failed,
}
unfoldable pub use chibios_smash.Explorer.Search.Sound.Rounds.{HasWay}
pub use chibios_smash.Explorer.Search.Sound.Rounds.{record_bounded-scenario}
use chibios_smash.Explorer.Search.Sound.Rounds.{
  IsTraced, IsAt, IsHonest, keep_trace-HasWay, trace_of, log-choices, if-IsTraced,
  explore_threads-IsAt,
}

module _ (origin : Engine) where
  module _ (below : Search → Search) (cfg : Config) (depth : ℕ)
      (call : IsHonest origin (suc depth) below) (shallow : depth < max_depth) where
    explore_state-IsAt :
        (runnable : List ℕ) (e : Engine) (s : Search)
        → all_done e ≡ false
        → runnable ≡ collect_runnable e max_threads
        → IsAt origin depth e s
        → IsAt origin depth e (explore_state below cfg depth runnable s)
    unfolding explore_state
    explore_state-IsAt runnable e s live all at =
        let hash = state_hash (capture_state s.engine) in
        let marked =
          if cfg.enable_state_caching then (state_mark_visited s.engine hash).0 else s.engine in
        let s1 = record s {
          engine = marked;
          result = record (s.result) { states = s.result.states + 1 };
        } in
        let marked_view : IsView e marked = elim (Bool-cases cfg.enable_state_caching) [
          | inl on ↦ rw on (state_mark_visited-IsView e s.engine hash at.view)
          | inr off ↦ rw off at.view
        ] in
        elim (Bool-cases (cfg.enable_state_caching && state_visited s.engine hash)) [
          | inl known ↦
              rw known (record {
                reached = at.reached;
                fine = at.fine;
                view = at.view;
                traced = at.traced;
              })
          | inr new ↦ rw new (
              explore_threads-IsAt origin below cfg depth call shallow runnable
                (explore_set cfg depth runnable s1) runnable e s1 live
                (λ t t_in. subst (λ l. contains l t ≡ true) all t_in)
                (record {
                  reached = at.reached;
                  fine = at.fine;
                  view = marked_view;
                  traced = at.traced;
                }))
        ]

    explore_runnable-IsTraced :
        (runnable : List ℕ) (e : Engine) (s : Search)
        → all_done e ≡ false
        → runnable ≡ collect_runnable e max_threads
        → IsAt origin depth e s
        → IsTraced origin (explore_runnable below cfg depth runnable s)
    unfolding explore_runnable HasWay report_deadlock
    explore_runnable-IsTraced [] e s live all at = λ t kept.
        let logged = log s.engine EventType.deadlock (negsuc 0) (negsuc 0) (pos 0) in
        keep_trace-HasWay origin s.result logged.trace t at.traced
          (
            depth,
            (
              e,
              (
                at.reached,
                (shallow, to_deadlock live (sym all) (log-choices s.engine ∙ trace_of at.view)),
              ),
            ),
          )
          kept
    explore_runnable-IsTraced (t ∷ ts) e s live all at =
        (explore_state-IsAt (t ∷ ts) e s live all at).traced

  explore_node-IsTraced :
      (below : Search → Search) (cfg : Config) (depth : ℕ)
      → IsHonest origin (suc depth) below
      → (e : Engine) (s : Search) → IsAt origin depth e s
      → IsTraced origin (explore_node below cfg depth s)
  unfolding explore_node
  explore_node-IsTraced below cfg depth call e s at =
      if-IsTraced origin (should_stop cfg s.result) s _ at.traced (
        if-IsTraced origin (leb cfg.max_interleavings s.result.interleavings) s _ at.traced
          (elim (Bool-cases (leb max_depth depth)) [
            | inl full ↦ rw full at.traced
            | inr room ↦ rw room (
                if-IsTraced origin (not (ltb_ℤ (pos depth) cfg.max_depth)) (reach_depth s depth) _
                  at.traced
                  (elim (Bool-cases (all_done s.engine)) [
                    | inl done ↦ rw done at.traced
                    | inr live ↦ rw live (
                        explore_runnable-IsTraced below cfg depth call (ground (arith, room))
                          (collect_runnable s.engine max_threads) e s
                          (sym (all_done-IsView e s.engine at.view) ∙ live)
                          (collect_runnable-IsView e s.engine at.view) at)
                  ]))
          ]))

  pub explore_dfs-IsHonest :
      (fuel : ℕ) (cfg : Config) (depth : ℕ) → IsHonest origin depth (explore_dfs fuel cfg depth)
  unfolding explore_dfs
  explore_dfs-IsHonest zero cfg depth = record { keeps = λ s. refl; honest = λ e s at. at.traced }
  explore_dfs-IsHonest (suc fuel) cfg depth =
      let deeper : depth + 1 ≡ suc depth = omega arith in
      let next_call =
        subst (λ k. IsHonest origin k (explore_dfs fuel cfg (depth + 1))) deeper
          (explore_dfs-IsHonest fuel cfg (depth + 1)) in
      record {
        keeps = λ s. (explore_dfs-IsRestored (suc fuel) cfg depth s).scenario;
        honest = explore_node-IsTraced (explore_dfs fuel cfg (depth + 1)) cfg depth next_call;
      }

pub engine_init-fine :
    (sc : Scenario) → scenario_validate sc ≡ true → (engine_init sc).fail_msg ≡ none
unfolding engine_init engine_reset
engine_init-fine sc valid = rw valid refl

-- Any failing trace that is kept records the way to a bug.
pub explore-HasWay :
    (sc : Scenario) (config : Config) (g_dpor : Option Dpor)
    → scenario_validate sc ≡ true
    → (t : Trace) → (explore sc config g_dpor).0.failing_trace ≡ some t
    → HasWay (engine_init sc) t
unfolding explore search_from
explore-HasWay sc config g_dpor valid t traced =
    let cfg = clamp_config config in
    let s0 : Search = record {
      engine = engine_init sc;
      result = empty_result;
      dpor = prepare_dpor g_dpor;
    } in
    let at : IsAt (engine_init sc) 0 (engine_init sc) s0 = record {
      reached = start;
      fine = engine_init-fine sc valid;
      view = IsView-refl (engine_init sc);
      traced = λ u kept. cc;
    } in
    (explore_dfs-IsHonest (engine_init sc) max_depth cfg 0).honest (engine_init sc) s0 at t
      (rw valid at traced)

-- Some reachable state has a bug.
unfoldable pub HasBug : Engine → Type 0
HasBug origin = (n : ℕ) × ((e : Engine) × (Reaches origin n e × IsBug e))

-- For a valid scenario and any configuration: if the search keeps a failing trace, then the program
-- reaches a state that is a deadlock, or from which a step fails or breaks a check.
pub explore-HasBug :
    (sc : Scenario) (config : Config) (g_dpor : Option Dpor)
    → scenario_validate sc ≡ true
    → is_some (explore sc config g_dpor).0.failing_trace ≡ true
    → HasBug (engine_init sc)
unfolding HasBug HasWay
explore-HasBug sc config g_dpor valid traced =
    elim (Option-cases (explore sc config g_dpor).0.failing_trace) [
      | inl empty ↦ absurd (ground (arith, ap is_some empty, traced))
      | inr (t, kept) ↦
          let (n, (e, (reached, (shallow, way)))) = explore-HasWay sc config g_dpor valid t kept in
          (n, (e, (reached, IsWayToBug-IsBug e t way)))
    ]
