-- ===== src/Smt/Export.antt =====
-- `smash_smt_export` of src/smt.c: the list of the commands that it prints. Comments and empty lines
-- of the file are left out.
use chibios_smash.Base.{
  ℕ, zero, suc, ◌+◌, ◌-◌, ◌*◌, ℤ, pos, negsuc, to_nat, eqb_ℤ, is_positive, Bool, not, ◌&&◌, Option,
  true, false, none, some, List, [], ◌∷◌, ◌++◌, if◌then◌else◌, concat_below, concat_from,
}
use chibios_smash.Types.{max_threads, max_steps, ActionType, Scenario}
use chibios_smash.Smt.{
  Name, Term, Atom, Formula, Command, step, const, number, less, at_least, atom, any, distinct,
  set_logic, check_sat, get_model, out_of_bounds, declare_const, assert,
}

abbrev pub threads_of : Scenario → ℕ
threads_of sc = to_nat sc.thread_count

abbrev pub steps_of : Scenario → ℕ → ℕ
steps_of sc t = to_nat (sc.step_count t)

-- The kinds of action that the constraints are about.
abbrev pub is_lock : ActionType → Bool
is_lock ActionType.mutex_lock = true
is_lock _ = false

abbrev pub is_unlock : ActionType → Bool
is_unlock ActionType.mutex_unlock = true
is_unlock _ = false

abbrev pub is_wait : ActionType → Bool
is_wait ActionType.sem_wait = true
is_wait _ = false

abbrev pub is_signal : ActionType → Bool
is_signal ActionType.sem_signal = true
is_signal _ = false

abbrev pub at_step : ℕ → ℕ → Term
at_step t s = const (step t s)

-- The loops over the threads and their steps.
unfoldable pub each_step {ℓ} : {A : Type ℓ} → Scenario → (ℕ → ℕ → List A) → List A
each_step sc f = concat_below (threads_of sc) (λ t. concat_below (steps_of sc t) (f t))

unfoldable pub program_order : Scenario → List Command
program_order sc = concat_below (threads_of sc) (λ t.
    concat_below (steps_of sc t - 1)
      (λ s. assert (atom (less (at_step t s) (at_step t (s + 1)))) ∷ []))

unfoldable pub unlocks : Scenario → ℤ → ℕ → ℕ → Bool
unlocks sc m t k = is_unlock (sc.steps t k).type && eqb_ℤ (sc.steps t k).resource_id m

-- The first step from `k` on that unlocks the mutex, with that many rounds left.
unfoldable pub first_unlock : Scenario → ℤ → ℕ → ℕ → ℕ → Option ℕ
first_unlock sc m t zero k = none
first_unlock sc m t (suc rounds) k =
    let rest = first_unlock sc m t rounds (suc k) in if unlocks sc m t k then some k else rest

-- "Find matching unlock."
unfoldable pub matching_unlock : Scenario → ℤ → ℕ → ℕ → Option ℕ
matching_unlock sc m t s = first_unlock sc m t (steps_of sc t - suc s) (suc s)

-- T1 unlocks before T2 locks, or T2 unlocks before T1 locks; nothing where a mutex stays locked.
unfoldable pub apart : (t1 s1 t2 s2 : ℕ) → Option ℕ → Option ℕ → List Formula
apart t1 s1 t2 s2 none _ = []
apart t1 s1 t2 s2 (some u1) none = []
apart t1 s1 t2 s2 (some u1) (some u2) =
    any (less (at_step t1 u1) (at_step t2 s2) ∷ less (at_step t2 u2) (at_step t1 s1) ∷ []) ∷ []

-- "For every other thread's lock of the same mutex": the constraints for the lock `s1` of `t1`.
unfoldable pub exclusive_with : Scenario → ℤ → (t1 s1 : ℕ) → Option ℕ → List Formula
exclusive_with sc m t1 s1 u1 = concat_from (t1 + 1) (threads_of sc) (λ t2.
    concat_below (steps_of sc t2) (λ s2.
      if not (is_lock (sc.steps t2 s2).type)
      then []
      else if not (eqb_ℤ (sc.steps t2 s2).resource_id m)
      then []
      else apart t1 s1 t2 s2 u1 (matching_unlock sc m t2 s2)))

unfoldable pub exclusion : Scenario → List Formula
exclusion sc = each_step sc (λ t1 s1.
    if not (is_lock (sc.steps t1 s1).type)
    then []
    else exclusive_with sc (sc.steps t1 s1).resource_id t1 s1
        (matching_unlock sc (sc.steps t1 s1).resource_id t1 s1))

-- "Collect all signals for this semaphore."
unfoldable pub signals : Scenario → ℤ → List Name
signals sc r = each_step sc (λ t s.
    if not (is_signal (sc.steps t s).type)
    then []
    else if not (eqb_ℤ (sc.steps t s).resource_id r)
    then []
    else step t s ∷ [])

-- `signals[t][2]` has room for that many.
abbrev pub max_signals : ℕ
max_signals = max_threads * max_steps

unfoldable pub first_of {ℓ} : {A : Type ℓ} → ℕ → List A → List A
first_of zero l = []
first_of (suc k) [] = []
first_of (suc k) (a ∷ l) = a ∷ first_of k l

unfoldable pub before : Term → List Name → List Atom
before wait [] = []
before wait (x ∷ l) = less (const x) wait ∷ before wait l

-- Nothing where no step signals the semaphore.
unfoldable pub after_signal : Term → List Name → List Formula
after_signal wait [] = []
after_signal wait (x ∷ l) = any (before wait (x ∷ l)) ∷ []

unfoldable pub assert_all : List Formula → List Command
assert_all [] = []
assert_all (f ∷ l) = assert f ∷ assert_all l

-- A negative id would read `sem_init` before its start.
unfoldable pub wait_commands : Scenario → (t1 s1 : ℕ) → ℤ → List Command
wait_commands sc t1 s1 (negsuc n) = out_of_bounds ∷ []
wait_commands sc t1 s1 (pos r) =
    if is_positive (sc.sem_init r)
    then []
    else assert_all (after_signal (at_step t1 s1) (first_of max_signals (signals sc (pos r))))

unfoldable pub signal_order : Scenario → List Command
signal_order sc = each_step sc (λ t1 s1.
    if not (is_wait (sc.steps t1 s1).type)
    then []
    else wait_commands sc t1 s1 (sc.steps t1 s1).resource_id)

unfoldable pub smt_export : Scenario → List Command
smt_export sc =
    (set_logic ∷ each_step sc (λ t s. declare_const (step t s) ∷ []))
    ++ (each_step sc (λ t s. assert (atom (at_least (at_step t s) (number (pos 0)))) ∷ [])
        ++ (program_order sc
            ++ ((assert (distinct (each_step sc (λ t s. at_step t s ∷ []))) ∷ [])
                ++ (assert_all (exclusion sc)
                    ++ (signal_order sc ++ (check_sat ∷ get_model ∷ []))))))
