-- ===== src/Engine/Init.antt =====
-- `smash_scenario_validate`, `smash_engine_init` and `smash_engine_reset` of src/engine.c.
pub mod Start
use chibios_smash.Base.{
  ℕ, ℤ, pos, negsuc, to_nat, ltb_ℤ, eqb_ℤ, Bool, true, false, not, ◌&&◌, ◌||◌, none, some,
  if◌then◌else◌, update, for_up, all_below,
}
use chibios_smash.Types.{
  max_threads, max_resources, max_steps, no_resource, ExecCtx, Thread, ThreadState, Resource,
  ResourceType, EventType, Trace, Scenario, Failure, Engine,
}
use chibios_smash.Trace.{trace_init, fail}

-- `z <= 0 || z > hi` and `z < 0 || z > hi`, negated
abbrev pub within : ℤ → ℤ → ℤ → Bool
within lo hi z = not (ltb_ℤ z lo || ltb_ℤ hi z)

-- `rid != SMASH_NO_RESOURCE && (rid < 0 || rid >= resource_count)`
abbrev pub bad_resource : Scenario → ℤ → Bool
bad_resource sc rid =
    not (eqb_ℤ rid no_resource) && (ltb_ℤ rid (pos 0) || not (ltb_ℤ rid sc.resource_count))

unfoldable pub thread_steps_valid : Scenario → ℕ → Bool
thread_steps_valid sc t =
    within (pos 0) (pos max_steps) (sc.step_count t)
    && all_below (to_nat (sc.step_count t)) (λ s. not (bad_resource sc (sc.steps t s).resource_id))

unfoldable pub scenario_validate : Scenario → Bool
scenario_validate sc =
    within (pos 1) (pos max_threads) sc.thread_count
    && (within (pos 0) (pos max_resources) sc.resource_count
        && all_below (to_nat sc.thread_count) (thread_steps_valid sc))

-- What the loop of `smash_engine_reset` leaves of thread `i`; the owned-mutex array keeps its content.
unfoldable pub reset_thread : Scenario → ℕ → Thread → Thread
reset_thread sc i t = record t {
  id = i;
  base_priority = sc.priorities i;
  priority = sc.priorities i;
  state = ThreadState.ready;
  pc = 0;
  blocked_on = none;
  timeout_ticks = negsuc 0;
  owned_mutex_count = 0;
  exec_ctx = ExecCtx.thread_ctx;
  sys_lock_depth = 0;
  isr_depth = 0;
  stack_depth = 0;
  stack_watermark = 0;
}

unfoldable pub reset_resource : Scenario → ℕ → Resource → Resource
reset_resource sc i r = record r {
  type = sc.res_types i;
  id = i;
  owner = none;
  count = sc.sem_init i;
  associated_mutex = sc.associated_mutex i;
  mb_capacity = sc.mb_capacity i;
  mb_head = 0;
  mb_tail = 0;
  mb_count = 0;
  waiter_count = 0;
  alive = true;
}

unfoldable pub engine_reset : Engine → Engine
engine_reset e = record e {
  threads =
      for_up (to_nat e.scenario.thread_count)
        (λ i th. update th i (reset_thread e.scenario i (th i))) e.threads;
  resources =
      for_up (to_nat e.scenario.resource_count)
        (λ i rs. update rs i (reset_resource e.scenario i (rs i))) e.resources;
  trace = trace_init e.trace;
  step_counter = 0;
  fail_msg = none;
  state_ht = λ _. 0;
  state_hash_count = 0;
}

-- All bytes 0: an `int` that is -1 or an id is then the id 0.
unfoldable pub zero_thread : Thread
zero_thread = record {
  id = 0;
  base_priority = pos 0;
  priority = pos 0;
  state = ThreadState.ready;
  pc = 0;
  blocked_on = some 0;
  timeout_ticks = pos 0;
  owned_mutex_stack = λ _. 0;
  owned_mutex_count = 0;
  exec_ctx = ExecCtx.thread_ctx;
  sys_lock_depth = 0;
  isr_depth = 0;
  stack_depth = 0;
  stack_watermark = 0;
}

unfoldable pub zero_resource : Resource
zero_resource = record {
  type = ResourceType.mutex;
  id = 0;
  owner = some 0;
  count = pos 0;
  associated_mutex = pos 0;
  mb_capacity = pos 0;
  mb_messages = λ _. pos 0;
  mb_head = 0;
  mb_tail = 0;
  mb_count = 0;
  waiters = λ _. 0;
  waiter_count = 0;
  alive = false;
}

unfoldable pub zero_trace : Trace
zero_trace = record {
  events = λ _. record {
    step = 0;
    type = EventType.schedule;
    tid = pos 0;
    resource_id = pos 0;
    arg = pos 0;
  };
  count = 0;
  truncated = false;
  schedule = λ _. 0;
  schedule_len = 0;
}

-- `memset(engine, 0, sizeof(*engine)); engine->scenario = scenario;`
unfoldable pub zero_engine : Scenario → Engine
unfolding zero_thread zero_resource zero_trace
zero_engine sc = record {
  scenario = sc;
  threads = λ _. zero_thread;
  resources = λ _. zero_resource;
  trace = zero_trace;
  max_depth_reached = 0;
  state_ht = λ _. 0;
  state_hash_count = 0;
  step_counter = 0;
  fail_msg = none;
}

-- On an invalid scenario the source leaves the scenario pointer null; here the failed engine keeps it.
unfoldable pub engine_init : Scenario → Engine
engine_init sc =
    if not (scenario_validate sc)
    then fail (zero_engine sc) Failure.invalid_scenario
    else engine_reset (zero_engine sc)
