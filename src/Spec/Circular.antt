-- ===== src/Spec/Circular.antt =====
-- `smash_check_circular_wait` of src/spec.c: the depth-first search of the wait-for graph. The arrays
-- `dfs_stack` and `dfs_ptr` up to `top` are a list of frames, the top first; `cycle_path` repeats
-- `dfs_stack` and is read for the message only. Each round of the loop marks a thread or takes a frame
-- off, so `2 * thread_count` rounds are enough, which `Circular/Ends` proves.
pub mod Walks
pub mod Ends
pub mod Invariant
pub mod Decides
pub mod Waiting
use chibios_smash.Base.{
  ℕ, zero, suc, ◌-◌, ◌*◌, Bool, true, false, not, ◌&&◌, ◌||◌, Option, none, some, List, [], ◌∷◌,
  ltb, ◌==◌, if◌then◌else◌, update, for_up,
}
use chibios_smash.Types.{is_blocked_mutex, Thread, Engine}
use chibios_smash.Model.Queue.{thread_count, resource_count}

-- The owner of the resource that the thread is blocked on; `owner >= 0 && owner != t`.
unfoldable pub owner_of_blocker : Engine → ℕ → Option ℕ → Option ℕ
owner_of_blocker e t none = none
owner_of_blocker e t (some r) =
    if not (ltb r (resource_count e))
    then none
    else elim (e.resources r).owner [ none ↦ none | some o ↦ if o == t then none else some o ]

unfoldable pub waited_owner : Engine → ℕ → Option ℕ
waited_owner e t =
    if not (is_blocked_mutex (e.threads t).state)
    then none
    else owner_of_blocker e t (e.threads t).blocked_on

-- `waits_for[t][owner] = true`
unfoldable pub add_edge : Option ℕ → (ℕ → Bool) → ℕ → Bool
add_edge none row = row
add_edge (some o) row = update row o true

unfoldable pub waits_for : Engine → ℕ → ℕ → Bool
waits_for e =
    for_up (thread_count e) (λ t m. update m t (add_edge (waited_owner e t) (m t))) (λ _ _. false)

pub record Frame : Type 0 where
  pub node : ℕ
  pub ptr : ℕ

pub record Dfs : Type 0 where
  pub visited : ℕ → Bool
  pub in_stack : ℕ → Bool
  pub stack : List Frame

pub data Found : Type 0 where
  back_edge descend : ℕ → Found
  exhausted : Found

pub data Outcome : Type 0 where
  acyclic : Dfs → Outcome
  cycle out_of_fuel : Outcome

module _ (n : ℕ) (edge : ℕ → ℕ → Bool) where
  -- The `for` loop over `next`, with `k` rounds left.
  unfoldable pub scan : Dfs → ℕ → ℕ → ℕ → Found
  scan s cur zero next = exhausted
  scan s cur (suc k) next =
      let rest = scan s cur k (suc next) in
      if not (edge cur next)
      then rest
      else if s.in_stack next
      then back_edge next
      else if not (s.visited next)
      then descend next
      else rest

  unfoldable pub push : ℕ → Dfs → Dfs
  push v s = record {
    visited = update s.visited v true;
    in_stack = update s.in_stack v true;
    stack = record { node = v; ptr = 0 } ∷ s.stack;
  }

  -- What the `while` loop does with what the scan of the top frame `f` finds; `none` is a cycle.
  unfoldable pub take : Dfs → Frame → List Frame → Found → Option Dfs
  take s f below (back_edge v) = none
  take s f below (descend v) = some (push v (record s { stack = record f { ptr = suc v } ∷ below }))
  take s f below exhausted =
      some (record s { in_stack = update s.in_stack f.node false; stack = below })

  unfoldable pub round : Dfs → Frame → List Frame → Option Dfs
  round s f below = take s f below (scan s f.node (n - f.ptr) f.ptr)

  unfoldable pub continue : (Dfs → Outcome) → Option Dfs → Outcome
  continue rest none = cycle
  continue rest (some t) = rest t

  -- `while (top >= 0)`
  unfoldable pub while_top : (Frame → List Frame → Outcome) → Dfs → List Frame → Outcome
  while_top body s [] = acyclic s
  while_top body s (f ∷ below) = body f below

  unfoldable pub dfs_loop : ℕ → Dfs → Outcome
  dfs_loop zero s = while_top (λ _ _. out_of_fuel) s s.stack
  dfs_loop (suc fuel) s =
      while_top (λ f below. continue (dfs_loop fuel) (round s f below)) s s.stack

  unfoldable pub start_from : (ℕ → Bool) → ℕ → Dfs → Outcome
  start_from blocked start s =
      if s.visited start || not (blocked start) then acyclic s else dfs_loop (2 * n) (push start s)

  unfoldable pub start_next : (Dfs → Outcome) → Outcome → Outcome
  start_next start (acyclic s) = start s
  start_next start cycle = cycle
  start_next start out_of_fuel = out_of_fuel

  -- The loop over `start`, below the second argument.
  unfoldable pub from_starts : (ℕ → Bool) → ℕ → Outcome
  from_starts blocked zero =
      acyclic (record { visited = λ _. false; in_stack = λ _. false; stack = [] })
  from_starts blocked (suc start) =
      start_next (start_from blocked start) (from_starts blocked start)

unfoldable pub search_cycle : Engine → Outcome
search_cycle e =
    from_starts (thread_count e) (waits_for e) (λ t. is_blocked_mutex (e.threads t).state)
      (thread_count e)

unfoldable pub passed : Outcome → Bool
passed (acyclic _) = true
passed cycle = false
passed out_of_fuel = false

unfoldable pub check_circular_wait : Engine → Bool
check_circular_wait e = passed (search_cycle e)
