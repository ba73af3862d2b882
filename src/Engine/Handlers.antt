-- ===== src/Engine/Handlers.antt =====
-- The cases of the `switch` of `smash_execute_step` in src/engine.c, one function each. The Boolean is
-- false where the case returns early with false.
pub mod Nesting
use chibios_smash.Base.{
  ℕ, ◌+◌, ◌-◌, ℤ, pos, to_nat, ltb_ℤ, is_positive, Bool, true, false, not, ◌&&◌, ltb, leb, ◌==◌,
  if◌then◌else◌,
}
use chibios_smash.Types.{
  no_resource, max_isr_depth, ExecCtx, ThreadState, is_blocked_mutex, is_blocked_sem, EventType,
  Failure, Engine,
}
use chibios_smash.Trace.{log, fail}
use chibios_smash.Model.Queue.{set_thread, set_resource}
use chibios_smash.Model.Mutex.{mutex_lock}
use chibios_smash.Model.Semaphore.{sem_wait}

-- `t->pc++`
abbrev pub bump_pc : Engine → ℕ → Engine
bump_pc e tid = set_thread e tid (record (e.threads tid) { pc = (e.threads tid).pc + 1 })

-- `if (call) t->pc++;`
abbrev pub bump_if : Engine × Bool → ℕ → Engine × Bool
bump_if (e, ok) tid = ((if ok then bump_pc e tid else e), true)

-- `(act.arg > 0) ? act.arg : dflt`
abbrev pub arg_or : ℤ → ℤ → ℤ
arg_or arg dflt = if is_positive arg then arg else dflt

unfoldable pub do_mutex_timed_lock : Engine → ℕ → ℕ → ℤ → Engine × Bool
do_mutex_timed_lock e tid res arg =
    let (e1, ok) = mutex_lock e tid res in
    (
      (if ok
          then bump_pc e1 tid
          else if is_blocked_mutex (e1.threads tid).state
          then set_thread e1 tid (record (e1.threads tid) { timeout_ticks = arg_or arg (pos 10) })
          else e1),
      true,
    )

unfoldable pub do_sem_timed_wait : Engine → ℕ → ℕ → ℤ → Engine × Bool
do_sem_timed_wait e tid res arg =
    let (e1, ok) = sem_wait e tid res in
    (
      (if ok
          then bump_pc e1 tid
          else if is_blocked_sem (e1.threads tid).state
          then set_thread e1 tid (record (e1.threads tid) { timeout_ticks = arg_or arg (pos 10) })
          else e1),
      true,
    )

unfoldable pub do_yield : Engine → ℕ → Engine × Bool
do_yield e tid = (bump_pc (log e EventType.yield (pos tid) no_resource (pos 0)) tid, true)

-- `ACT_DONE`: holding a mutex is a failure, and the thread is done all the same.
unfoldable pub do_finish : Engine → ℕ → Engine × Bool
do_finish e tid =
    let held = (e.threads tid).owned_mutex_count in
    let e1 =
      if ltb 0 held
      then log (fail e (Failure.exited_holding tid held)) EventType.invariant_fail (pos tid)
          no_resource (pos held)
      else e in
    let e2 = set_thread e1 tid (record (e1.threads tid) { state = ThreadState.done }) in
    (log e2 EventType.thread_done (pos tid) no_resource (pos 0), true)

-- The context outside any ISR.
abbrev pub outer_ctx : ℕ → ExecCtx
outer_ctx depth = if ltb 0 depth then ExecCtx.sys_lock_ctx else ExecCtx.thread_ctx

unfoldable pub do_sys_lock : Engine → ℕ → Engine × Bool
do_sys_lock e tid =
    let t = e.threads tid in
    let depth = t.sys_lock_depth + 1 in
    let e1 =
      set_thread e tid (record t { sys_lock_depth = depth; exec_ctx = ExecCtx.sys_lock_ctx }) in
    (bump_pc (log e1 EventType.sys_lock (pos tid) no_resource (pos depth)) tid, true)

unfoldable pub do_sys_unlock : Engine → ℕ → Engine × Bool
do_sys_unlock e tid =
    let t = e.threads tid in
    let depth = t.sys_lock_depth - 1 in
    let e1 = set_thread e tid (record t { sys_lock_depth = depth; exec_ctx = outer_ctx depth }) in
    if t.sys_lock_depth == 0
    then (
      log (fail e (Failure.unbalanced_sys_unlock tid)) EventType.context_violation (pos tid)
          no_resource (pos 0),
      false,
    )
    else (bump_pc (log e1 EventType.sys_unlock (pos tid) no_resource (pos depth)) tid, true)

unfoldable pub do_isr_enter : Engine → ℕ → Engine × Bool
do_isr_enter e tid =
    let t = e.threads tid in
    let depth = t.isr_depth + 1 in
    let e1 = set_thread e tid (record t { isr_depth = depth; exec_ctx = ExecCtx.isr_ctx }) in
    if leb max_isr_depth t.isr_depth
    then (fail e (Failure.isr_too_deep tid t.isr_depth), false)
    else (bump_pc (log e1 EventType.isr_enter (pos tid) no_resource (pos depth)) tid, true)

unfoldable pub do_isr_exit : Engine → ℕ → Engine × Bool
do_isr_exit e tid =
    let t = e.threads tid in
    let depth = t.isr_depth - 1 in
    let ctx = if depth == 0 then outer_ctx t.sys_lock_depth else t.exec_ctx in
    let e1 = set_thread e tid (record t { isr_depth = depth; exec_ctx = ctx }) in
    if t.isr_depth == 0
    then (
      log (fail e (Failure.unbalanced_isr_exit tid)) EventType.context_violation (pos tid)
          no_resource (pos 0),
      false,
    )
    else (bump_pc (log e1 EventType.isr_exit (pos tid) no_resource (pos depth)) tid, true)

unfoldable pub do_object_init : Engine → ℕ → ℕ → Engine × Bool
do_object_init e tid res =
    let e1 = set_resource e res (record (e.resources res) { alive = true }) in
    (bump_pc (log e1 EventType.object_init (pos tid) (pos res) (pos 0)) tid, true)

unfoldable pub do_object_destroy : Engine → ℕ → ℕ → Engine × Bool
do_object_destroy e tid res =
    let e1 = set_resource e res (record (e.resources res) { alive = false }) in
    if not (e.resources res).alive
    then (
      log (fail e (Failure.already_dead tid res)) EventType.context_violation (pos tid) (pos res)
          (pos 0),
      false,
    )
    else (bump_pc (log e1 EventType.object_destroy (pos tid) (pos res) (pos 0)) tid, true)

-- A call uses `units` of stack, and fails where a positive limit is exceeded; depth and watermark are
-- written before that.
unfoldable pub do_call : Engine → ℕ → ℤ → Engine × Bool
do_call e tid arg =
    let t = e.threads tid in
    let depth = t.stack_depth + to_nat (arg_or arg (pos 1)) in
    let mark = if ltb t.stack_watermark depth then depth else t.stack_watermark in
    let e1 = set_thread e tid (record t { stack_depth = depth; stack_watermark = mark }) in
    let limit = e.scenario.stack_sizes tid in
    if is_positive limit && ltb_ℤ limit (pos depth)
    then (
      log (fail e1 (Failure.stack_overflow tid depth limit)) EventType.stack_overflow (pos tid)
          no_resource (pos depth),
      false,
    )
    else (bump_pc (log e1 EventType.call (pos tid) no_resource (pos depth)) tid, true)

-- `-` stops at 0, which is where the source clamps the depth.
unfoldable pub do_return : Engine → ℕ → ℤ → Engine × Bool
do_return e tid arg =
    let t = e.threads tid in
    let depth = t.stack_depth - to_nat (arg_or arg (pos 1)) in
    let e1 = set_thread e tid (record t { stack_depth = depth }) in
    (bump_pc (log e1 EventType.return (pos tid) no_resource (pos depth)) tid, true)
