-- ===== src/Explorer/Persistent.antt =====
-- `thread_next_action` and `compute_persistent_set` of src/explorer.c.
pub mod Round
pub mod Closed
use mathlib.Core.List.{foldl}
use chibios_smash.Base.{
  ℕ, zero, suc, ◌+◌, pos, ltb_ℤ, Bool, true, false, not, ◌&&◌, if◌then◌else◌, all_below, List, [],
  ◌∷◌,
}
use chibios_smash.Types.{no_resource, ActionType, Action, act, Engine}
use chibios_smash.Engine.Threads.{length}
use chibios_smash.Dpor.{Mask, empty_mask, mask_add, mask_bits, dependent}

unfoldable pub thread_next_action : Engine → ℕ → Action
thread_next_action e tid =
    if ltb_ℤ (pos (e.threads tid).pc) (e.scenario.step_count tid)
    then e.scenario.steps tid (e.threads tid).pc
    else act ActionType.finish no_resource

-- `set == full_set` as 32-bit words
unfoldable pub mask_eq : Mask → Mask → Bool
mask_eq a b = all_below mask_bits (λ i. if a i then b i else not (b i))

-- `set |= 1U << t` for each thread of the list
unfoldable pub mask_of : List ℕ → Mask
mask_of = foldl mask_add empty_mask

-- The loop over `j`: is `q` dependent on a runnable thread that is in the set?
unfoldable pub depends_on_set : (ℕ → ℕ → Bool) → Mask → ℕ → List ℕ → Bool
depends_on_set dep set q [] = false
depends_on_set dep set q (p ∷ ps) =
    let rest = depends_on_set dep set q ps in if set p && dep p q then true else rest

-- The loop over `i`, over the runnable threads that are left; the flag is `changed`.
unfoldable pub persistent_round : (ℕ → ℕ → Bool) → List ℕ → List ℕ → Mask → Bool → Mask × Bool
persistent_round dep runnable [] set changed = (set, changed)
persistent_round dep runnable (q ∷ qs) set changed =
    let grow = not (set q) && depends_on_set dep set q runnable in
    persistent_round dep runnable qs (if grow then mask_add set q else set)
      (if grow then true else changed)

-- The `while` loop. Each round but the last adds a thread, so one round more than there are threads
-- is enough.
unfoldable pub persistent_loop : ℕ → (ℕ → ℕ → Bool) → List ℕ → Mask → Bool → Mask
persistent_loop zero dep runnable set changed = set
persistent_loop (suc fuel) dep runnable set changed =
    let (set', changed') = persistent_round dep runnable runnable set false in
    let rest = persistent_loop fuel dep runnable set' changed' in
    if changed && not (mask_eq set (mask_of runnable)) then rest else set

-- `smash_dpor_dependent` on the next actions of `p` and `q`
unfoldable pub next_dependent : Engine → ℕ → ℕ → Bool
next_dependent e p q =
    dependent (thread_next_action e p).type (thread_next_action e p).resource_id
      (thread_next_action e q).type (thread_next_action e q).resource_id

-- It is called with at least one runnable thread, the first of which is the seed.
unfoldable pub compute_persistent_set : Engine → List ℕ → Mask
compute_persistent_set e [] = empty_mask
compute_persistent_set e (t ∷ ts) =
    persistent_loop (length (t ∷ ts) + 1) (next_dependent e) (t ∷ ts) (mask_add empty_mask t) true
