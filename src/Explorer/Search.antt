-- ===== src/Explorer/Search.antt =====
-- `explore_dfs` and `smash_explore` of src/explorer.c. The store that the C code shares (the engine,
-- the result and the global `g_dpor`) is passed along in one record. The counters are `uint64_t` and
-- count events of one run, so their wrap-around is not modelled; `malloc` is taken to succeed; the
-- clock and the text that `verbose` prints are left out.
pub mod Reach
pub mod Sound
pub mod Complete
pub mod Replay
pub mod Bounded
pub mod Restore
pub mod Report
pub mod Fuel
use mathlib.Core.List.{foldl}
use chibios_smash.Base.{
  ℕ, zero, suc, ◌+◌, ◌-◌, ◌^◌, ℤ, pos, negsuc, to_nat, ltb_ℤ, is_positive, Bool, true, false, not,
  ◌&&◌, ◌||◌, Option, none, some, is_some, ltb, leb, ◌==◌, if◌then◌else◌, update, List, [], ◌∷◌,
}
use chibios_smash.Types.{
  max_threads, max_depth, no_resource, Scenario, EventType, Trace, Failure, Engine, failed,
}
use chibios_smash.Trace.{trace_init, trace_log, log}
use chibios_smash.Engine.Init.{scenario_validate, zero_trace, engine_init}
use chibios_smash.Engine.Threads.{collect_runnable, all_done, capture_state}
use chibios_smash.Engine.Step.{execute_step}
use chibios_smash.Engine.Run.{record_choice}
use chibios_smash.State.Hash.{state_hash}
use chibios_smash.State.Table.{state_visited, state_mark_visited}
use chibios_smash.Dpor.{
  Mask, Dpor, dpor_init, dpor_reset, sleep_contains, sleep_add, sleep_propagate,
}
use chibios_smash.Spec.Checks.{check_all}
use chibios_smash.Explorer.Persistent.{mask_of, compute_persistent_set}

pub record Config : Type 0 where
  pub enable_dpor : Bool
  pub enable_state_caching : Bool
  pub max_depth : ℤ
  pub max_interleavings : ℕ
  pub stop_on_first_bug : Bool

pub record Result : Type 0 where
  pub interleavings : ℕ
  pub states : ℕ
  pub cache_pruned : ℕ
  pub dpor_pruned : ℕ
  pub sleep_pruned : ℕ
  pub deadlocks : ℕ
  pub violations : ℕ
  pub failing_trace : Option Trace
  pub max_depth_reached : ℕ

pub record Search : Type 0 where
  pub engine : Engine
  pub result : Result
  pub dpor : Dpor

-- `restore_engine` to what `save_engine` stored. A call at a depth is the only writer of the slot of
-- `save_stack` at that depth, so the saved state is a value here.
unfoldable pub restore_engine : Engine → Engine → Engine
restore_engine saved e = record e {
  threads = saved.threads;
  resources = saved.resources;
  trace = saved.trace;
  step_counter = saved.step_counter;
  fail_msg = none;
}

-- `if (!result->failing_trace) ... = engine->trace`
abbrev pub keep_trace : Result → Trace → Option Trace
keep_trace r t = elim r.failing_trace [ none ↦ some t | some old ↦ some old ]

abbrev pub should_stop : Config → Result → Bool
should_stop cfg r = is_some r.failing_trace && cfg.stop_on_first_bug

unfoldable pub report_deadlock : Search → Search
report_deadlock s =
    let e = log s.engine EventType.deadlock (negsuc 0) (negsuc 0) (pos 0) in
    record s {
      engine = e;
      result = record (s.result) {
        deadlocks = s.result.deadlocks + 1;
        failing_trace = keep_trace s.result e.trace;
      };
    }

-- The engine is put back to `saved`, after its trace was kept.
unfoldable pub report_violation : Engine → Search → Search
report_violation saved s = record s {
  engine = restore_engine saved s.engine;
  result = record (s.result) {
    violations = s.result.violations + 1;
    failing_trace = keep_trace s.result s.engine.trace;
  };
}

-- The choice is recorded where the schedule has room.
abbrev pub record_bounded : Engine → ℕ → Engine
record_bounded e tid = if ltb e.trace.schedule_len max_depth then record_choice e tid else e

unfoldable pub count_skip : Config → ℕ → ℕ → Search → Search
count_skip cfg depth tid s =
    if cfg.enable_dpor && sleep_contains s.dpor depth tid
    then record s { result = record (s.result) { sleep_pruned = s.result.sleep_pruned + 1 } }
    else record s { result = record (s.result) { dpor_pruned = s.result.dpor_pruned + 1 } }

-- After the recursive call: pass the sleep set on, and go back.
unfoldable pub backtrack : Config → ℕ → List ℕ → Engine → Search → Search
backtrack cfg depth runnable saved s = record s {
  engine = restore_engine saved s.engine;
  dpor = if cfg.enable_dpor then sleep_propagate s.dpor depth runnable else s.dpor;
}

-- The step of one chosen thread, its checks, and the recursive call `below`. The Boolean is false
-- where the loop returns.
unfoldable pub explore_thread : (Search → Search) → Config → ℕ → List ℕ → ℕ → Search → Search × Bool
explore_thread below cfg depth runnable tid s =
    let slept = if cfg.enable_dpor then sleep_add s.dpor depth tid else s.dpor in
    let e1 = (execute_step (record_bounded s.engine tid) tid).0 in
    let s1 = record s { engine = e1; dpor = slept } in
    if failed e1
    then (report_violation s.engine s1, not cfg.stop_on_first_bug)
    else if not (check_all e1)
    then (report_violation s.engine s1, not cfg.stop_on_first_bug)
    else let s2 = backtrack cfg depth runnable s.engine (below s1) in
      (s2, not (should_stop cfg s2.result))

-- One round of the loop.
unfoldable pub explore_choice :
    (Search → Search) → Config → ℕ → List ℕ → Mask → ℕ → Search → Search × Bool
explore_choice below cfg depth runnable set tid s =
    if set tid
    then explore_thread below cfg depth runnable tid s
    else (count_skip cfg depth tid s, true)

-- The loop over the runnable threads that are left.
unfoldable pub explore_threads :
    (Search → Search) → Config → ℕ → List ℕ → Mask → List ℕ → Search → Search
explore_threads below cfg depth runnable set [] s = s
explore_threads below cfg depth runnable set (tid ∷ tids) s =
    let (s', go_on) = explore_choice below cfg depth runnable set tid s in
    let rest = explore_threads below cfg depth runnable set tids s' in if go_on then rest else s'

-- The persistent set less the sleeping threads, or every runnable thread.
unfoldable pub explore_set : Config → ℕ → List ℕ → Search → Mask
explore_set cfg depth runnable s =
    if cfg.enable_dpor
    then foldl (λ set tid. if sleep_contains s.dpor depth tid then update set tid false else set)
        (compute_persistent_set s.engine runnable) runnable
    else mask_of runnable

-- From the state cache on: the Boolean of the cache says whether the state is new.
unfoldable pub explore_state : (Search → Search) → Config → ℕ → List ℕ → Search → Search
explore_state below cfg depth runnable s =
    let hash = state_hash (capture_state s.engine) in
    let marked =
      if cfg.enable_state_caching then (state_mark_visited s.engine hash).0 else s.engine in
    let s1 = record s {
      engine = marked;
      result = record (s.result) { states = s.result.states + 1 };
    } in
    if cfg.enable_state_caching && state_visited s.engine hash
    then record s { result = record (s.result) { cache_pruned = s.result.cache_pruned + 1 } }
    else explore_threads below cfg depth runnable (explore_set cfg depth runnable s1) runnable s1

unfoldable pub explore_runnable : (Search → Search) → Config → ℕ → List ℕ → Search → Search
explore_runnable below cfg depth [] s = report_deadlock s
explore_runnable below cfg depth (t ∷ ts) s = explore_state below cfg depth (t ∷ ts) s

-- `depth > max_depth_reached` as `uint64_t`.
abbrev pub reach_depth : Search → ℕ → Search
reach_depth s depth = record s {
  engine = record (s.engine) {
    max_depth_reached =
        if ltb s.engine.max_depth_reached depth then depth else s.engine.max_depth_reached;
  };
}

-- The body of `explore_dfs`, with `below` for its recursive call at the next depth.
unfoldable pub explore_node : (Search → Search) → Config → ℕ → Search → Search
explore_node below cfg depth s =
    if should_stop cfg s.result
    then s
    else if leb cfg.max_interleavings s.result.interleavings
    then s
    else if leb max_depth depth
    then s
    else if not (ltb_ℤ (pos depth) cfg.max_depth)
    then reach_depth s depth
    else if all_done s.engine
    then record s { result = record (s.result) { interleavings = s.result.interleavings + 1 } }
    else explore_runnable below cfg depth (collect_runnable s.engine max_threads) s

-- The fuel bounds the depth; at depth `max_depth` the source returns at once.
unfoldable pub explore_dfs : ℕ → Config → ℕ → Search → Search
explore_dfs zero cfg depth s = s
explore_dfs (suc fuel) cfg depth s = explore_node (explore_dfs fuel cfg (depth + 1)) cfg depth s

abbrev pub empty_result : Result
empty_result = record {
  interleavings = 0;
  states = 0;
  cache_pruned = 0;
  dpor_pruned = 0;
  sleep_pruned = 0;
  deadlocks = 0;
  violations = 0;
  failing_trace = none;
  max_depth_reached = 0;
}

-- The result for a scenario that is refused.
unfoldable pub refused_result : Result
refused_result = record empty_result {
  violations = 1;
  failing_trace =
      some (
        trace_log (trace_init zero_trace) 0 EventType.invariant_fail (negsuc 0) (negsuc 0) (pos 0));
}

unfoldable pub clamp_config : Config → Config
clamp_config cfg = record cfg {
  max_depth =
      if not (is_positive cfg.max_depth) || ltb_ℤ (pos max_depth) cfg.max_depth
      then pos max_depth
      else cfg.max_depth;
  max_interleavings = if cfg.max_interleavings == 0 then 2 ^ 64 - 1 else cfg.max_interleavings;
}

-- `g_dpor` at the start of a search; `none` is the context before its first use. Without DPOR the
-- search does not touch it.
unfoldable pub prepare_dpor : Option Dpor → Dpor
prepare_dpor none = dpor_init
prepare_dpor (some d) = dpor_reset d

-- The search from the initial engine, and the store that it leaves.
unfoldable pub search_from : Config → Scenario → Dpor → Search
search_from cfg sc d =
    explore_dfs max_depth cfg 0
      (record { engine = engine_init sc; result = empty_result; dpor = d })

unfoldable pub explore : Scenario → Config → Option Dpor → Result × Option Dpor
explore sc config g_dpor =
    let cfg = clamp_config config in
    let end = search_from cfg sc (prepare_dpor g_dpor) in
    if not (scenario_validate sc) then (refused_result, g_dpor) else (
      record (end.result) { max_depth_reached = end.engine.max_depth_reached },
      if cfg.enable_dpor then some end.dpor else g_dpor,
    )
