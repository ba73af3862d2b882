-- ===== src/Sym/Verdicts.antt =====
-- What `smash_verify_no_deadlock_bmc` of src/sym_engine.c answers, for a solver that keeps its word.
use chibios_smash.Base.{◌≡◌, ℤ, pos, ltb_ℤ, Bool, true, false, Option, none, some, List, all_in}
use chibios_smash.Types.{Scenario}
use chibios_smash.Smt.{Name, Command, allows}
use chibios_smash.Sym.{sym_max_threads, sym_max_resources, Lbool, l_true, l_false, l_undef, Solver}
use chibios_smash.Sym.Orderings.{HasRoom}

-- The documented answers of the solver: every completion of a model satisfies the assertions, and no
-- assignment satisfies assertions that are found unsatisfiable.
pub record IsSolver (z : Solver) : Type 0 where
  pub sat :
      (cs : List Command) (v : Name → ℤ)
      → z.check cs ≡ l_true
      → ((x : Name) (n : ℤ) → z.get_model cs x ≡ some n → v x ≡ n)
      → all_in (allows v) cs ≡ true
  pub unsat :
      (cs : List Command) (v : Name → ℤ) → z.check cs ≡ l_false → all_in (allows v) cs ≡ false

-- No more threads and resources than the engine takes, and no more signals of one semaphore than the
-- array of the encoder has room for.
pub record FitsEngine (sc : Scenario) : Type 0 where
  pub few_threads : ltb_ℤ (pos sym_max_threads) sc.thread_count ≡ false
  pub few_resources : ltb_ℤ (pos sym_max_resources) sc.resource_count ≡ false
  pub few_signals : HasRoom sc

module _ (z : Solver) (sc : Scenario) (fits : FitsEngine sc) (bound_k : ℤ) where
  verdict_of : Lbool → Bool
  verdict_of l_true = false
  verdict_of l_false = true
  verdict_of l_undef = true

  completion : Option ℤ → ℤ
  completion none = pos 0
  completion (some n) = n
