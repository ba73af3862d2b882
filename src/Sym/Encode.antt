-- ===== src/Sym/Encode.antt =====
-- The initialisation and the encoders of src/sym_engine.c. An array of the commands that a `for` loop
-- asserts is a list. `smash_sym_encode_priority_inheritance` asserts nothing.
use chibios_smash.Base.{
  ℕ, zero, suc, ◌+◌, ◌-◌, ℤ, pos, negsuc, to_nat, ltb, ltb_ℤ, is_positive, Bool, false, not, ◌||◌,
  Option, none, some, List, [], ◌∷◌, ◌++◌, if◌then◌else◌, concat_below, count_of,
}
use chibios_smash.Types.{is_mutex, Scenario}
use chibios_smash.Smt.{
  Name, Term, Atom, Formula, Command, prog_order, prog_order_next, const, number, less, greater,
  atom, any, out_of_bounds, assert,
}
use chibios_smash.Smt.Export.{
  threads_of, steps_of, is_lock, is_wait, at_step, each_step, matching_unlock, exclusive_with,
  signals, before, assert_all,
}
use chibios_smash.Sym.{
  sym_max_signals, sym_max_steps, sym_max_threads, sym_max_resources, SymEngine,
}

-- `created` says whether the context could be allocated and created; `none` is false.
unfoldable pub sym_engine_init : Bool → Scenario → ℤ → Option SymEngine
sym_engine_init created sc max_bound =
    if ltb_ℤ (pos sym_max_threads) sc.thread_count
      || (ltb_ℤ (pos sym_max_resources) sc.resource_count || not created)
    then none
    else some (record {
      scenario = sc;
      assertions = [];
      assertion_count = 0;
      max_bound = if is_positive max_bound then max_bound else pos sym_max_steps;
      bound_k = pos 0;
      is_sat = false;
      model = none;
      counterexample = [];
      checks_performed = 0;
      error_msg = none;
    })

unfoldable pub sym_engine_reset : SymEngine → SymEngine
sym_engine_reset e = record e {
  assertions = [];
  model = none;
  assertion_count = 0;
  is_sat = false;
  counterexample = [];
  error_msg = none;
}

-- `z3_assert(...); engine->assertion_count++;` for each command
unfoldable pub add_assertions : List Command → SymEngine → SymEngine
add_assertions cs e = record e {
  assertions = e.assertions ++ cs;
  assertion_count = e.assertion_count + count_of cs;
}

-- `mk_or`
unfoldable pub mk_or : List Atom → Formula
mk_or (a ∷ []) = atom a
mk_or l = any l

unfoldable pub sym_program_order : Scenario → List Command
sym_program_order sc = concat_below (threads_of sc) (λ t.
    concat_below (steps_of sc t - 1)
      (λ s. assert (atom (less (const (prog_order t s)) (const (prog_order_next t s)))) ∷ []))

unfoldable pub encode_program_order : SymEngine → SymEngine
encode_program_order e = add_assertions (sym_program_order e.scenario) e

-- The lock `s1` is not asked for its mutex.
unfoldable pub mutex_exclusion : Scenario → ℕ → List Formula
mutex_exclusion sc m = each_step sc (λ t1 s1.
    if not (is_lock (sc.steps t1 s1).type)
    then []
    else exclusive_with sc (pos m) t1 s1 (matching_unlock sc (pos m) t1 s1))

unfoldable pub sym_exclusion : Scenario → List Command
sym_exclusion sc =
    concat_below (to_nat sc.resource_count)
      (λ m. if not (is_mutex (sc.res_types m)) then [] else assert_all (mutex_exclusion sc m))

unfoldable pub encode_mutex_exclusivity : SymEngine → SymEngine
encode_mutex_exclusivity e = add_assertions (sym_exclusion e.scenario) e

-- Nothing where no step signals the semaphore.
unfoldable pub some_before : Term → List Name → List Formula
some_before wait [] = []
some_before wait (x ∷ l) = mk_or (before wait (x ∷ l)) ∷ []

-- A negative id would read `sem_init` before its start, and the loop over the signals writes `signals`
-- without a test, so more signals than it has room for run over its end.
unfoldable pub sym_signalled : Scenario → (t1 s1 : ℕ) → ℤ → List Command
sym_signalled sc t1 s1 (negsuc n) = out_of_bounds ∷ []
sym_signalled sc t1 s1 (pos r) =
    if is_positive (sc.sem_init r)
    then []
    else if ltb sym_max_signals (count_of (signals sc (pos r)))
    then out_of_bounds ∷ []
    else assert_all (some_before (at_step t1 s1) (signals sc (pos r)))

unfoldable pub sym_signal_order : Scenario → List Command
sym_signal_order sc = each_step sc (λ t1 s1.
    if not (is_wait (sc.steps t1 s1).type)
    then []
    else sym_signalled sc t1 s1 (sc.steps t1 s1).resource_id)

unfoldable pub encode_semaphore_ordering : SymEngine → SymEngine
encode_semaphore_ordering e = add_assertions (sym_signal_order e.scenario) e

-- "Last step must have a finite position"
unfoldable pub finite_last : ℕ → ℕ → List Command
finite_last t zero = []
finite_last t (suc last) = assert (atom (greater (at_step t last) (number (negsuc 0)))) ∷ []

unfoldable pub sym_no_deadlock : Scenario → List Command
sym_no_deadlock sc = concat_below (threads_of sc) (λ t. finite_last t (steps_of sc t))

unfoldable pub encode_no_deadlock : SymEngine → SymEngine
encode_no_deadlock e = add_assertions (sym_no_deadlock e.scenario) e
