-- ===== src/Dpor.antt =====
-- src/dpor.c: the dependency test, the history with its backtrack points, and the sleep sets.
-- A `uint32_t` bit mask over thread ids is the function that gives each bit.
pub mod Dependence
pub mod Sleep
pub mod Backtrack
pub mod Exhaustive
use mathlib.Core.List.{foldl}
use chibios_smash.Base.{
  ℕ, ◌+◌, ◌-◌, ℤ, pos, ltb_ℤ, eqb_ℤ, is_negative, Bool, true, false, not, ◌&&◌, ◌||◌, Option, none,
  some, ltb, leb, ◌==◌, if◌then◌else◌, update, for_up, all_below, List,
}
use chibios_smash.Types.{
  max_depth, max_backtrack, ActionType, is_blocked_mutex, is_blocked_sem, Engine,
}
use chibios_smash.Model.Queue.{thread_count}

abbrev pub Mask : Type 0
Mask = ℕ → Bool

abbrev pub empty_mask : Mask
empty_mask _ = false

-- `mask |= 1U << tid`
abbrev pub mask_add : Mask → ℕ → Mask
mask_add m tid = update m tid true

abbrev pub mask_bits : ℕ
mask_bits = 32

-- `mask == 0`
unfoldable pub mask_is_zero : Mask → Bool
mask_is_zero m = all_below mask_bits (λ b. not (m b))

pub record Dpor : Type 0 where
  pub backtrack_depth : ℕ → ℕ
  pub backtrack_tid : ℕ → ℕ
  pub backtrack_count : ℕ
  pub history_tid : ℕ → ℕ
  pub history_resource : ℕ → ℤ
  pub history_type : ℕ → ActionType
  pub history_len : ℕ
  pub sleep_set : ℕ → Mask
  pub sleep_set_max_depth : ℕ

unfoldable pub dpor_init : Dpor
dpor_init = record {
  backtrack_depth = λ _. 0;
  backtrack_tid = λ _. 0;
  backtrack_count = 0;
  history_tid = λ _. 0;
  history_resource = λ _. pos 0;
  history_type = λ _. ActionType.nop;
  history_len = 0;
  sleep_set = λ _. empty_mask;
  sleep_set_max_depth = 0;
}

unfoldable pub dpor_reset : Dpor → Dpor
dpor_reset d = record d {
  history_len = 0;
  backtrack_count = 0;
  sleep_set_max_depth = 0;
  sleep_set = λ _. empty_mask;
}

abbrev pub is_idle_action : ActionType → Bool
is_idle_action ActionType.yield = true
is_idle_action ActionType.nop = true
is_idle_action _ = false

unfoldable pub dependent : ActionType → ℤ → ActionType → ℤ → Bool
dependent a_type a_res b_type b_res =
    if not (eqb_ℤ a_res b_res) || is_negative a_res
    then false
    else if is_idle_action a_type && is_idle_action b_type
    then false
    else true

unfoldable pub dpor_record : Dpor → ℕ → ℤ → ActionType → Dpor
dpor_record d tid res type = if leb max_depth d.history_len then d else record d {
  history_tid = update d.history_tid d.history_len tid;
  history_resource = update d.history_resource d.history_len res;
  history_type = update d.history_type d.history_len type;
  history_len = d.history_len + 1;
}

-- The inner loop body of `smash_dpor_analyze`, for history entry `i` and thread `t`.
unfoldable pub analyze_thread : Engine → ℕ → ℕ → Dpor → Dpor
analyze_thread e i t d =
    let th = e.threads t in
    let alt = e.scenario.steps t th.pc in
    if t == d.history_tid i
    then d
    else if is_blocked_mutex th.state || is_blocked_sem th.state
    then d
    else if not (ltb_ℤ (pos th.pc) (e.scenario.step_count t))
    then d
    else if dependent (d.history_type i) (d.history_resource i) alt.type alt.resource_id
    then if ltb d.backtrack_count max_backtrack
      then record d {
        backtrack_depth = update d.backtrack_depth d.backtrack_count i;
        backtrack_tid = update d.backtrack_tid d.backtrack_count t;
        backtrack_count = d.backtrack_count + 1;
      }
      else d
    else d

-- The history backwards: round `k` looks at entry `history_len - 1 - k`.
unfoldable pub dpor_analyze : Dpor → Engine → Dpor
dpor_analyze d e =
    for_up d.history_len
      (λ k d'. for_up (thread_count e) (analyze_thread e (d.history_len - 1 - k)) d') d

-- `none` where the source returns false; else the depth and the thread.
unfoldable pub next_backtrack : Dpor → Dpor × Option (ℕ × ℕ)
next_backtrack d =
    let last = d.backtrack_count - 1 in
    if d.backtrack_count == 0
    then (d, none)
    else (record d { backtrack_count = last }, some (d.backtrack_depth last, d.backtrack_tid last))

-- Depths are never negative in the model.
unfoldable pub sleep_contains : Dpor → ℕ → ℕ → Bool
sleep_contains d depth tid = if leb max_depth depth then false else d.sleep_set depth tid

unfoldable pub sleep_add : Dpor → ℕ → ℕ → Dpor
sleep_add d depth tid = if leb max_depth depth then d else record d {
  sleep_set = update d.sleep_set depth (mask_add (d.sleep_set depth) tid);
  sleep_set_max_depth = if ltb d.sleep_set_max_depth depth then depth else d.sleep_set_max_depth;
}

-- The loop over the runnable threads, with `prev_sleep` read before it.
unfoldable pub propagate_from : Mask → ℕ → Dpor → List ℕ → Dpor
propagate_from prev depth = foldl (λ d tid. if prev tid then sleep_add d (depth + 1) tid else d)

unfoldable pub sleep_propagate : Dpor → ℕ → List ℕ → Dpor
sleep_propagate d depth runnable =
    if leb (max_depth - 1) depth
    then d
    else if mask_is_zero (d.sleep_set depth)
    then d
    else propagate_from (d.sleep_set depth) depth d runnable
