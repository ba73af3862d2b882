-- ===== src/Engine/Handlers/Nesting.antt =====
-- The contexts of `smash_execute_step` in src/engine.c nest: leaving one restores the one before.
use chibios_smash.Base.{ℕ, ◌<◌, ◌≡◌, true, ◌==◌, if◌then◌else◌, arith}
use chibios_smash.Types.{max_isr_depth, ExecCtx, Thread, Engine}
use chibios_smash.Engine.Handlers.{outer_ctx, do_isr_enter, do_isr_exit}

-- The context agrees with the two depths.
abbrev pub HasContext : Thread → Type 0
HasContext t =
    t.exec_ctx ≡ (if t.isr_depth == 0 then outer_ctx t.sys_lock_depth else ExecCtx.isr_ctx)

-- The context and both depths are the same.
pub record IsBack (t t' : Thread) : Type 0 where
  context : t'.exec_ctx ≡ t.exec_ctx
  isr_depth : t'.isr_depth ≡ t.isr_depth
  sys_lock_depth : t'.sys_lock_depth ≡ t.sys_lock_depth

-- Entering an ISR below the limit of nesting and leaving it again restores the context and both
-- depths, and both succeed, if the context agrees with the depths.
pub do_isr_exit-do_isr_enter :
    (e : Engine) (tid : ℕ)
    → HasContext (e.threads tid)
    → (e.threads tid).isr_depth < max_isr_depth
    → let (inside, entered) = do_isr_enter e tid in
      let (after, left) = do_isr_exit inside tid in
      (entered ≡ true) × ((left ≡ true) × IsBack (e.threads tid) (after.threads tid))
unfolding do_isr_enter do_isr_exit
do_isr_exit-do_isr_enter e tid context lt = (
  ground arith,
  (
    ground arith,
    record { context = ground arith; isr_depth = ground arith; sys_lock_depth = ground arith },
  ),
)
