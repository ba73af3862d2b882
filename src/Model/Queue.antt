-- ===== src/Model/Queue.antt =====
-- The helpers of src/chibios_model.c: wait queues, the stack of owned mutexes, and the choice of the
-- waiter to wake.
pub mod Invariant
pub mod Priority
use chibios_smash.Base.{
  ℕ, ◌+◌, ◌-◌, ℤ, pos, negsuc, to_nat, ltb_ℤ, Bool, not, Option, none, some, is_id, ltb, leb, ◌==◌,
  if◌then◌else◌, update, for_up,
}
use chibios_smash.Types.{
  max_resources, max_waiters, is_mutex, Thread, ThreadState, Resource, Engine,
}

-- `&engine->threads[tid]` and `&engine->resources[res]` as targets of a write
abbrev pub set_thread : Engine → ℕ → Thread → Engine
set_thread e tid t = record e { threads = update e.threads tid t }

abbrev pub set_resource : Engine → ℕ → Resource → Engine
set_resource e res r = record e { resources = update e.resources res r }

abbrev pub resource_count : Engine → ℕ
resource_count e = to_nat e.scenario.resource_count

abbrev pub thread_count : Engine → ℕ
thread_count e = to_nat e.scenario.thread_count

-- An id or -1, as the `int` that is logged.
abbrev pub id_or_minus_one : Option ℕ → ℤ
id_or_minus_one none = negsuc 0
id_or_minus_one (some i) = pos i

unfoldable pub waiter_remove : Resource → ℕ → Resource
waiter_remove res idx = record res {
  waiters = update res.waiters idx (res.waiters (res.waiter_count - 1));
  waiter_count = res.waiter_count - 1;
}

-- `res->waiters[res->waiter_count++] = tid`
unfoldable pub waiter_add : Resource → ℕ → Resource
waiter_add res tid = record res {
  waiters = update res.waiters res.waiter_count tid;
  waiter_count = res.waiter_count + 1;
}

unfoldable pub owned_push : Thread → ℕ → Thread
owned_push t res =
    if ltb t.owned_mutex_count max_resources
    then record t {
      owned_mutex_stack = update t.owned_mutex_stack t.owned_mutex_count res;
      owned_mutex_count = t.owned_mutex_count + 1;
    }
    else t

-- The top of the stack, -1 if it is empty.
abbrev pub owned_top : Thread → Option ℕ
owned_top t =
    if t.owned_mutex_count == 0 then none else some (t.owned_mutex_stack (t.owned_mutex_count - 1))

-- `none` where the source returns false.
unfoldable pub owned_pop : Thread → ℕ → Option Thread
owned_pop t res =
    if t.owned_mutex_count == 0
    then none
    else if t.owned_mutex_stack (t.owned_mutex_count - 1) == res
    then some (record t { owned_mutex_count = t.owned_mutex_count - 1 })
    else none

-- The inner loop of `recalc_priority`: the highest of `p` and the priorities of the waiters of `m`.
unfoldable pub max_waiter_priority : (ℕ → Thread) → Resource → ℤ → ℤ
max_waiter_priority threads m p =
    for_up m.waiter_count
      (λ w q.
        if ltb_ℤ q (threads (m.waiters w)).priority then (threads (m.waiters w)).priority else q)
      p

-- One round of the outer loop: skip the released resource, what is no mutex, and what `tid` does
-- not own.
unfoldable pub recalc_round : (ℕ → Thread) → (ℕ → Resource) → ℕ → ℕ → ℕ → ℤ → ℤ
recalc_round threads resources tid released r p =
    if r == released
    then p
    else if not (is_mutex (resources r).type)
    then p
    else if not (is_id (resources r).owner tid)
    then p
    else max_waiter_priority threads (resources r) p

unfoldable pub recalc_priority : Engine → ℕ → ℕ → ℤ
recalc_priority e tid released =
    for_up (resource_count e) (recalc_round e.threads e.resources tid released)
      (e.threads tid).base_priority

-- `best` after the rounds of `for (i = 1; i < waiter_count; i++)`.
unfoldable pub best_waiter : (ℕ → Thread) → Resource → ℕ
best_waiter threads r =
    for_up (r.waiter_count - 1)
      (λ k best.
        if ltb_ℤ (threads (r.waiters best)).priority (threads (r.waiters (k + 1))).priority
        then k + 1
        else best)
      0

-- `state = THREAD_READY; blocked_on = -1`
abbrev pub resumed : Thread → Thread
resumed t = record t { state = ThreadState.ready; blocked_on = none }

-- The same, with `pc++`.
abbrev pub advanced : Thread → Thread
advanced t = record t { state = ThreadState.ready; blocked_on = none; pc = t.pc + 1 }

abbrev pub is_full : Resource → Bool
is_full r = leb max_waiters r.waiter_count
