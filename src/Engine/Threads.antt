-- ===== src/Engine/Threads.antt =====
-- `smash_collect_runnable`, `smash_all_done` and `smash_capture_state` of src/engine.c.
pub mod Runnable
use chibios_smash.Base.{
  ℕ, suc, pos, u8, Bool, ◌&&◌, ltb, if◌then◌else◌, for_up, all_below, List, [], ◌∷◌, ◌++◌,
}
use chibios_smash.Types.{is_ready, is_done, state_code, ctx_code, Engine}
use chibios_smash.Model.Queue.{thread_count, resource_count, id_or_minus_one}

abbrev pub length {ℓ} : {A : Type ℓ} → List A → ℕ
length [] = 0
length (x ∷ xs) = suc (length xs)

-- `out[0..n)` as a list; a round with `n >= max` ends the loop in the source and changes nothing here.
unfoldable pub collect_runnable : Engine → ℕ → List ℕ
collect_runnable e max =
    for_up (thread_count e)
      (λ i out.
        if ltb (length out) max && is_ready (e.threads i).state then out ++ (i ∷ []) else out)
      []

unfoldable pub all_done : Engine → Bool
all_done e = all_below (thread_count e) (λ i. is_done (e.threads i).state)

-- Bytes as numbers below 256; an entry beyond the counts is 0 in the source and is not used.
pub record Snapshot : Type 0 where
  pub thread_states : ℕ → ℕ
  pub thread_pcs : ℕ → ℕ
  pub thread_priorities : ℕ → ℕ
  pub thread_exec_ctx : ℕ → ℕ
  pub thread_sys_lock_depth : ℕ → ℕ
  pub mutex_owners : ℕ → ℕ
  pub sem_counts : ℕ → ℕ
  pub resource_alive : ℕ → ℕ
  pub thread_count : ℕ
  pub resource_count : ℕ

-- An array that is filled up to `n` and 0 from there on.
abbrev pub filled : ℕ → (ℕ → ℕ) → ℕ → ℕ
filled n f i = if ltb i n then f i else 0

unfoldable pub capture_state : Engine → Snapshot
capture_state e = record {
  thread_states = filled (thread_count e) (λ i. state_code (e.threads i).state);
  thread_pcs = filled (thread_count e) (λ i. u8 (pos (e.threads i).pc));
  thread_priorities = filled (thread_count e) (λ i. u8 (e.threads i).priority);
  thread_exec_ctx = filled (thread_count e) (λ i. ctx_code (e.threads i).exec_ctx);
  thread_sys_lock_depth = filled (thread_count e) (λ i. u8 (pos (e.threads i).sys_lock_depth));
  mutex_owners = filled (resource_count e) (λ i. u8 (id_or_minus_one (e.resources i).owner));
  sem_counts = filled (resource_count e) (λ i. u8 (e.resources i).count);
  resource_alive = filled (resource_count e) (λ i. if (e.resources i).alive then 1 else 0);
  thread_count = thread_count e;
  resource_count = resource_count e;
}
