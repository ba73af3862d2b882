-- ===== src/Types.antt =====
-- The data of include/smash.h: limits, enumerations, threads, resources, actions, scenarios, traces
-- and the engine. An `int` that is -1 or an id is an `Option ℕ`; an `int` that a scenario gives is a
-- `ℤ`; a counter that never falls below 0 is an `ℕ`; an array is a function of its index.
use chibios_smash.Base.{ℕ, ℤ, pos, negsuc, ◌*◌, Bool, true, false, Option, is_some}

abbrev pub max_threads : ℕ
max_threads = 16

abbrev pub max_resources : ℕ
max_resources = 16

abbrev pub max_steps : ℕ
max_steps = 255

abbrev pub max_trace : ℕ
max_trace = 65536

abbrev pub max_depth : ℕ
max_depth = 512

abbrev pub max_backtrack : ℕ
max_backtrack = 4096

abbrev pub max_states : ℕ
max_states = 65536

abbrev pub state_ht_size : ℕ
state_ht_size = max_states * 2

abbrev pub max_waiters : ℕ
max_waiters = max_threads

abbrev pub max_isr_depth : ℕ
max_isr_depth = 8

-- `SMASH_NO_RESOURCE`
abbrev pub no_resource : ℤ
no_resource = negsuc 0

pub data ExecCtx : Type 0 where
  thread_ctx sys_lock_ctx isr_ctx : ExecCtx

abbrev pub is_thread_ctx : ExecCtx → Bool
is_thread_ctx ExecCtx.thread_ctx = true
is_thread_ctx _ = false

-- The numeric value of the enumeration.
abbrev pub ctx_code : ExecCtx → ℕ
ctx_code ExecCtx.thread_ctx = 0
ctx_code ExecCtx.sys_lock_ctx = 1
ctx_code ExecCtx.isr_ctx = 2

pub data ThreadState : Type 0 where
  ready blocked_mutex blocked_sem done : ThreadState

abbrev pub is_ready : ThreadState → Bool
is_ready ThreadState.ready = true
is_ready _ = false

abbrev pub is_blocked_mutex : ThreadState → Bool
is_blocked_mutex ThreadState.blocked_mutex = true
is_blocked_mutex _ = false

abbrev pub is_blocked_sem : ThreadState → Bool
is_blocked_sem ThreadState.blocked_sem = true
is_blocked_sem _ = false

abbrev pub is_done : ThreadState → Bool
is_done ThreadState.done = true
is_done _ = false

abbrev pub state_code : ThreadState → ℕ
state_code ThreadState.ready = 0
state_code ThreadState.blocked_mutex = 1
state_code ThreadState.blocked_sem = 2
state_code ThreadState.done = 3

pub record Thread : Type 0 where
  pub id : ℕ
  pub base_priority : ℤ
  pub priority : ℤ
  pub state : ThreadState
  pub pc : ℕ
  pub blocked_on : Option ℕ
  pub timeout_ticks : ℤ
  pub owned_mutex_stack : ℕ → ℕ
  pub owned_mutex_count : ℕ
  pub exec_ctx : ExecCtx
  pub sys_lock_depth : ℕ
  pub isr_depth : ℕ
  pub stack_depth : ℕ
  pub stack_watermark : ℕ

pub data ResourceType : Type 0 where
  mutex semaphore condvar mailbox : ResourceType

abbrev pub is_mutex : ResourceType → Bool
is_mutex ResourceType.mutex = true
is_mutex _ = false

abbrev pub is_semaphore : ResourceType → Bool
is_semaphore ResourceType.semaphore = true
is_semaphore _ = false

abbrev pub is_condvar : ResourceType → Bool
is_condvar ResourceType.condvar = true
is_condvar _ = false

abbrev pub is_mailbox : ResourceType → Bool
is_mailbox ResourceType.mailbox = true
is_mailbox _ = false

pub record Resource : Type 0 where
  pub type : ResourceType
  pub id : ℕ
  pub owner : Option ℕ
  pub count : ℤ
  pub associated_mutex : ℤ
  pub mb_capacity : ℤ
  pub mb_messages : ℕ → ℤ
  pub mb_head : ℕ
  pub mb_tail : ℕ
  pub mb_count : ℕ
  pub waiters : ℕ → ℕ
  pub waiter_count : ℕ
  pub alive : Bool

pub data ActionType : Type 0 where
  nop mutex_lock mutex_unlock sem_wait sem_signal yield finish : ActionType
  mutex_timed_lock sem_timed_wait : ActionType
  sys_lock sys_unlock isr_enter isr_exit : ActionType
  object_init object_destroy call return : ActionType
  cond_wait cond_signal cond_broadcast cond_wait_timeout : ActionType
  mb_post mb_post_front mb_fetch mb_post_timeout mb_fetch_timeout : ActionType

pub record Action : Type 0 where
  pub type : ActionType
  pub resource_id : ℤ
  pub arg : ℤ

-- `SMASH_ACT` and `SMASH_ACT_ARG`
abbrev pub act : ActionType → ℤ → Action
act t rid = record { type = t; resource_id = rid; arg = pos 0 }

abbrev pub act_arg : ActionType → ℤ → ℤ → Action
act_arg t rid a = record { type = t; resource_id = rid; arg = a }

pub record Scenario : Type 0 where
  pub thread_count : ℤ
  pub resource_count : ℤ
  pub priorities : ℕ → ℤ
  pub steps : ℕ → ℕ → Action
  pub step_count : ℕ → ℤ
  pub res_types : ℕ → ResourceType
  pub sem_init : ℕ → ℤ
  pub associated_mutex : ℕ → ℤ
  pub mb_capacity : ℕ → ℤ
  pub stack_sizes : ℕ → ℤ

pub data EventType : Type 0 where
  schedule mutex_lock_attempt mutex_lock_acquired mutex_lock_blocked mutex_unlock : EventType
  sem_wait sem_wait_blocked sem_signal sem_wakeup yield thread_done deadlock : EventType
  invariant_fail : EventType
  mutex_timed_lock_attempt mutex_timed_lock_blocked mutex_timeout_expired : EventType
  sem_timed_wait_blocked sem_timeout_expired : EventType
  sys_lock sys_unlock isr_enter isr_exit : EventType
  object_init object_destroy use_after_free : EventType
  call return stack_overflow context_violation : EventType

pub record Event : Type 0 where
  pub step : ℕ
  pub type : EventType
  pub tid : ℤ
  pub resource_id : ℤ
  pub arg : ℤ

pub record Trace : Type 0 where
  pub events : ℕ → Event
  pub count : ℕ
  pub truncated : Bool
  pub schedule : ℕ → ℕ
  pub schedule_len : ℕ

-- The error messages, one constructor for each format string, with the values that it prints.
-- `undefined_access` is the model's own: the code would index an array out of its bounds.
pub data Failure : Type 0 where
  use_after_free : (tid res : ℕ) → Failure
  wrong_context : (tid : ℕ) → ExecCtx → Failure
  relocked : (tid res : ℕ) → Failure
  queue_overflow : (res : ℕ) → Failure
  not_owner : (tid res : ℕ) → Option ℕ → Failure
  lifo_violation : (tid res : ℕ) → Option ℕ → Failure
  wrong_type : (tid res : ℕ) → Failure
  bad_associated_mutex : (tid res : ℕ) → ℤ → Failure
  resource_out_of_range : (tid pc : ℕ) → ℤ → Failure
  exited_holding : (tid count : ℕ) → Failure
  unbalanced_sys_unlock : (tid : ℕ) → Failure
  isr_too_deep : (tid depth : ℕ) → Failure
  unbalanced_isr_exit : (tid : ℕ) → Failure
  already_dead : (tid res : ℕ) → Failure
  stack_overflow : (tid depth : ℕ) → ℤ → Failure
  schedule_out_of_range : (index : ℕ) → ℤ → Failure
  invalid_scenario : Failure
  undefined_access : (tid : ℕ) → Failure

pub record Engine : Type 0 where
  pub scenario : Scenario
  pub threads : ℕ → Thread
  pub resources : ℕ → Resource
  pub trace : Trace
  pub max_depth_reached : ℕ
  pub state_ht : ℕ → ℕ
  pub state_hash_count : ℕ
  pub step_counter : ℕ
  pub fail_msg : Option Failure

-- `failed` is set exactly where `fail_msg` is written, and cleared where that is emptied.
abbrev pub failed : Engine → Bool
failed e = is_some e.fail_msg
