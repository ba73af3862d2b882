-- ===== src/Sym/Check.antt =====
-- The solver call, the counterexample and the entry points of src/sym_engine.c.
use chibios_smash.Base.{
  ℕ, zero, suc, ◌+◌, ℤ, ltb_ℤ, Bool, true, false, not, Option, none, some, List, [], ◌∷◌,
  if◌then◌else◌, ltb, concat_below,
}
use chibios_smash.Types.{Scenario}
use chibios_smash.Smt.{step}
use chibios_smash.Smt.Export.{threads_of, steps_of}
use chibios_smash.Sym.{
  sym_max_steps, Lbool, l_true, l_false, l_undef, Z3Model, Solver, SymError, init_failed, unknown,
  deadlock_found, SymEngine,
}
use chibios_smash.Sym.Encode.{
  sym_engine_init, encode_program_order, encode_mutex_exclusivity, encode_semaphore_ordering,
}

unfoldable pub checked : Solver → SymEngine → Lbool → SymEngine × Bool
checked z e l_true = (record e { is_sat = true; model = some (z.get_model e.assertions) }, true)
checked z e l_false = (record e { is_sat = false }, false)
checked z e l_undef = (record e { error_msg = some unknown }, false)

unfoldable pub sym_check : Solver → SymEngine → SymEngine × Bool
sym_check z e =
    checked z (record e { checks_performed = e.checks_performed + 1 }) (z.check e.assertions)

pub record Placed : Type 0 where
  pub tid : ℕ
  pub step_idx : ℕ
  pub position : ℤ

-- A step without a value is left out. The source gives the calls of Z3 arguments that they do not take;
-- they are read as a lookup of the constant in the model, with a value that fits an `int`.
unfoldable pub placed : Z3Model → ℕ → ℕ → List Placed
placed m t s = elim (m (step t s)) [
  | none ↦ []
  | some z ↦ record { tid = t; step_idx = s; position = z } ∷ []
]

unfoldable pub min : ℕ → ℕ → ℕ
min a b = if ltb a b then a else b

unfoldable pub extract : Scenario → Z3Model → List Placed
extract sc m =
    concat_below (threads_of sc)
      (λ t. concat_below (min (steps_of sc t) sym_max_steps) (placed m t))

-- The loop over `j`: the entry at `i` is exchanged with each later one that is smaller.
unfoldable pub exchange : Placed → List Placed → Placed × List Placed
exchange x [] = (x, [])
exchange x (y ∷ l) =
    let smaller = ltb_ℤ y.position x.position in
    let (least, rest) = exchange (if smaller then y else x) l in
    (least, (if smaller then x else y) ∷ rest)

-- The loop over `i`, with a round for each entry.
unfoldable pub sort_from : ℕ → List Placed → List Placed
sort_from zero l = l
sort_from (suc rounds) [] = []
sort_from (suc rounds) (x ∷ l) = let (least, rest) = exchange x l in least ∷ sort_from rounds rest

unfoldable pub count_placed : List Placed → ℕ
count_placed [] = 0
count_placed (_ ∷ l) = 1 + count_placed l

unfoldable pub sort : List Placed → List Placed
sort l = sort_from (count_placed l) l

unfoldable pub tids : List Placed → List ℕ
tids [] = []
tids (x ∷ l) = x.tid ∷ tids l

unfoldable pub schedule_of : Scenario → Z3Model → List ℕ
schedule_of sc m = tids (sort (extract sc m))

-- `none` is the null pointer.
unfoldable pub get_counterexample : SymEngine → SymEngine × Option (List ℕ)
get_counterexample e = if not e.is_sat then (e, none) else elim e.model [
  | none ↦ (e, none)
  | some m ↦
      (record e { counterexample = schedule_of e.scenario m }, some (schedule_of e.scenario m))
]

pub record BmcResult : Type 0 where
  pub no_deadlock : Bool
  pub schedule : Option (List ℕ)
  pub error : Option SymError

unfoldable pub encoded : SymEngine → SymEngine
encoded e = encode_semaphore_ordering (encode_mutex_exclusivity (encode_program_order e))

-- A schedule of no steps is not copied out.
unfoldable pub copied : Option (List ℕ) → Option (List ℕ)
copied (some (t ∷ l)) = some (t ∷ l)
copied _ = none

unfoldable pub bmc_report : SymEngine × Bool → BmcResult
bmc_report (e, true) = record {
  no_deadlock = false;
  schedule = copied (get_counterexample e).1;
  error = some deadlock_found;
}
bmc_report (e, false) = record { no_deadlock = true; schedule = none; error = none }

unfoldable pub verify_from : Solver → Option SymEngine → BmcResult
verify_from z none = record { no_deadlock = false; schedule = none; error = some init_failed }
verify_from z (some e) = bmc_report (sym_check z (encoded e))

unfoldable pub verify_no_deadlock_bmc : Solver → Bool → Scenario → ℤ → BmcResult
verify_no_deadlock_bmc z created sc bound_k = verify_from z (sym_engine_init created sc bound_k)

unfoldable pub verify_all_bmc : Solver → Bool → Scenario → ℤ → BmcResult
verify_all_bmc z created sc bound_k = verify_no_deadlock_bmc z created sc bound_k
