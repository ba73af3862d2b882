-- ===== src/Explorer/Search/Complete.antt =====
-- A search of src/explorer.c without pruning misses no bug within its depth.
pub mod Safe
pub mod Rounds
pub mod Nodes
use mathlib.Core.Path.{subst}
use chibios_smash.Base.{
  ℕ, zero, suc, ◌+◌, ◌-◌, ◌≤◌, ◌<◌, ◌≡◌, ◌≢◌, refl, sym, ap, ◌∙◌, inl, inr, ◌⊎◌, ℤ, to_nat, Bool,
  true, false, not, ◌&&◌, ◌||◌, Option, none, some, Option-cases, is_some, if◌then◌else◌, ltb, leb,
  ltb_ℤ, pos, is_positive, Bool-cases, arith, List, [], ◌∷◌, contains, ℕ_discrete, dec_lt,
}
use chibios_smash.Types.{max_threads, max_depth, Scenario, Trace, Engine, failed}
use chibios_smash.Engine.Init.{scenario_validate, engine_init}
use chibios_smash.Engine.Threads.{capture_state, collect_runnable, all_done}
use chibios_smash.Engine.Step.Scenario.{execute_step-scenario}
use chibios_smash.State.Hash.{state_hash}
use chibios_smash.State.Table.{state_mark_visited, state_visited}
use chibios_smash.Dpor.{Mask, Dpor, sleep_add, empty_mask}
use chibios_smash.Spec.Checks.{check_all}
use chibios_smash.Explorer.Persistent.{mask_of}
use chibios_smash.Explorer.Persistent.Round.{mask_of-adds}
use chibios_smash.Explorer.Search.{
  Config, Result, Search, keep_trace, should_stop, report_deadlock, report_violation,
  record_bounded, restore_engine, count_skip, backtrack, explore_thread, explore_choice,
  explore_threads, explore_set, explore_state, explore_runnable, explore_node, reach_depth,
  explore_dfs, empty_result, clamp_config, refused_result, prepare_dpor, search_from, explore,
}
use chibios_smash.Explorer.Search.Restore.{explore_dfs-IsRestored}
use chibios_smash.Explorer.Search.Sound.{engine_init-fine, record_bounded-scenario}
use chibios_smash.Explorer.Search.Reach.{
  stepped, IsRunnable, Reaches, start, next, IsBug, deadlock, failure, violation, IsView,
  IsView-refl, all_done-IsView, collect_runnable-IsView, failed-IsView, check_all-IsView,
  stepped-IsView, restore_engine-IsView, not_failed,
}
use chibios_smash.Explorer.Search.Complete.Safe.{
  IsSafe, IsOpen, IsThorough, IsFollowed, report_violation-closed, keep_trace-some, mask_of-all,
  IsSafe-Reaches, IsSafe-IsBug,
}
use chibios_smash.Explorer.Search.Complete.Nodes.{explore_node-IsSearched, explore_node-below}

module _ (cfg : Config) (plain : cfg.enable_dpor ≡ false)
    (uncached : cfg.enable_state_caching ≡ false) where
  explore_dfs-IsThorough :
      (limit fuel depth : ℕ)
      → cfg.max_depth ≡ pos limit
      → limit ≤ max_depth
      → max_depth ≤ fuel + depth
      → IsThorough cfg (limit - depth) (explore_dfs fuel cfg depth)
  unfolding explore_dfs
  explore_dfs-IsThorough limit zero depth is_limit small enough =
      let last : 0 ≡ limit - depth = omega arith in
      record {
        keeps = λ s. refl;
        opened = λ s o. o;
        thorough = λ e s fine view o. subst (λ k. IsSafe k e) last tt;
      }
  explore_dfs-IsThorough limit (suc fuel) depth is_limit small enough =
      let next_call = explore_dfs-IsThorough limit fuel (depth + 1) is_limit small (omega arith) in
      let below = explore_dfs fuel cfg (depth + 1) in
      elim (dec_lt depth limit) [
        | yes above ↦
            let more : suc (limit - (depth + 1)) ≡ limit - depth = omega arith in
            let in_limit : ltb_ℤ (pos depth) cfg.max_depth ≡ true = rw is_limit (ground arith) in
            let shallow : leb max_depth depth ≡ false = ground arith in
            record {
              keeps = λ s. (explore_dfs-IsRestored (suc fuel) cfg depth s).scenario;
              opened = λ s o.
                  (explore_node-IsSearched cfg plain uncached below (limit - (depth + 1)) next_call
                    depth (record (s.engine) { fail_msg = none }) refl s shallow in_limit
                    o).was_open;
              thorough = λ e s fine view o.
                  subst (λ k. IsSafe k e) more
                    ((explore_node-IsSearched cfg plain uncached below (limit - (depth + 1))
                        next_call depth e fine s shallow in_limit o).safe
                      view);
            }
        | no deep ↦
            let last : 0 ≡ limit - depth = omega arith in
            let out : ltb_ℤ (pos depth) cfg.max_depth ≡ false = rw is_limit (ground arith) in
            record {
              keeps = λ s. (explore_dfs-IsRestored (suc fuel) cfg depth s).scenario;
              opened = λ s o.
                  subst (IsOpen cfg) (explore_node-below cfg plain uncached below depth s out) o;
              thorough = λ e s fine view o. subst (λ k. IsSafe k e) last tt;
            }
      ]

clamp_config-limit :
    (config : Config)
    → ((clamp_config config).max_depth ≡ pos (to_nat (clamp_config config).max_depth))
      × (to_nat (clamp_config config).max_depth ≤ max_depth)
unfolding clamp_config
clamp_config-limit config = ground arith

-- For a valid scenario and a search without partial-order reduction and without the cache of states:
-- if it keeps no failing trace and counts fewer interleavings than its limit, then no state that the
-- program reaches in fewer steps than the limit of depth has a bug.
pub explore-IsComplete :
    (sc : Scenario) (config : Config) (g_dpor : Option Dpor)
    → scenario_validate sc ≡ true
    → config.enable_dpor ≡ false
    → config.enable_state_caching ≡ false
    → (explore sc config g_dpor).0.failing_trace ≡ none
    → (explore sc config g_dpor).0.interleavings < (clamp_config config).max_interleavings
    → (n : ℕ) (e : Engine) → Reaches (engine_init sc) n e
    → n < to_nat (clamp_config config).max_depth
    → ¬ IsBug e
unfolding explore search_from clamp_config
explore-IsComplete sc config g_dpor valid plain uncached untraced room n e reached shallow =
    let cfg = clamp_config config in
    let limit = to_nat cfg.max_depth in
    let (is_limit, small) = clamp_config-limit config in
    let s0 : Search = record {
      engine = engine_init sc;
      result = empty_result;
      dpor = prepare_dpor g_dpor;
    } in
    let opened : IsOpen cfg (explore_dfs max_depth cfg 0 s0).result = record {
      untraced = rw valid at untraced;
      room = let less = rw valid at room in ground (arith, less);
    } in
    let safe =
      (explore_dfs-IsThorough cfg plain uncached limit max_depth 0 is_limit small
          (omega arith)).thorough
        (engine_init sc) s0 (engine_init-fine sc valid) (IsView-refl (engine_init sc)) opened in
    let left : limit - 0 ≡ n + suc (limit - suc n) = omega arith in
    IsSafe-IsBug (limit - suc n) e
      (IsSafe-Reaches (limit - 0) (suc (limit - suc n)) reached left safe)
