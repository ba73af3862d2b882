-- ===== src/Sym.antt =====
-- src/sym_engine.c and include/smash_sym.h: bounded model checking by the Z3 solver, which is a
-- parameter. The engine is one record; its Z3 context holds the list of the assertions. Engines are
-- never null here, and memory and files are not modelled. The constructors of terms are those of
-- `Smt`; the arrays of symbolic variables are written by the initialisation and never read, and are
-- left out.
pub mod Encode
pub mod Check
pub mod Orderings
pub mod Verdicts
use chibios_smash.Base.{◌*◌, ℕ, ℤ, Bool, Option, List}
use chibios_smash.Types.{Scenario}
use chibios_smash.Smt.{Name, Command}

abbrev pub sym_max_steps : ℕ
sym_max_steps = 100

abbrev pub sym_max_threads : ℕ
sym_max_threads = 16

-- `signals[SMASH_SYM_MAX_THREADS * SMASH_SYM_MAX_STEPS]`
abbrev pub sym_max_signals : ℕ
sym_max_signals = sym_max_threads * sym_max_steps

abbrev pub sym_max_resources : ℕ
sym_max_resources = 16

pub data Lbool : Type 0 where
  l_true l_false l_undef : Lbool

-- A model may leave a constant without a value.
abbrev pub Z3Model : Type 0
Z3Model = Name → Option ℤ

-- `Z3_solver_check` and `Z3_solver_get_model` on the assertions.
pub record Solver : Type 0 where
  pub check : List Command → Lbool
  pub get_model : List Command → Z3Model

pub data SymError : Type 0 where
  init_failed unknown deadlock_found : SymError

-- `assertions` is the content of `ctx->solver`, `model` is `ctx->model`.
pub record SymEngine : Type 0 where
  pub scenario : Scenario
  pub assertions : List Command
  pub assertion_count : ℕ
  pub max_bound : ℤ
  pub bound_k : ℤ
  pub is_sat : Bool
  pub model : Option Z3Model
  pub counterexample : List ℕ
  pub checks_performed : ℕ
  pub error_msg : Option SymError
