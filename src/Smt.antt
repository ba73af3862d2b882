-- ===== src/Smt.antt =====
-- src/smt.c: the constraints on schedules that are exported for an SMT solver, here the terms and
-- formulas that it prints and their meaning. The same terms are built by src/sym_engine.c.
pub mod Export
pub mod Sections
pub mod Signals
pub mod Distinct
pub mod Meaning
use chibios_smash.Base.{
  ℕ, ℤ, ltb_ℤ, eqb_ℤ, Bool, true, false, not, ◌&&◌, ◌||◌, List, [], ◌∷◌, all_in,
}

-- The names of integer constants, one constructor for each format string.
pub data Name : Type 0 where
  step : (t s : ℕ) → Name
  prog_order prog_order_next : (t s : ℕ) → Name

pub data Term : Type 0 where
  const : Name → Term
  number : ℤ → Term

pub data Atom : Type 0 where
  less : Term → Term → Atom
  at_least : Term → Term → Atom
  greater : Term → Term → Atom

pub data Formula : Type 0 where
  atom : Atom → Formula
  any : List Atom → Formula
  distinct : List Term → Formula

-- `out_of_bounds` is the model's own: the code would read or write an array out of its
-- bounds.
pub data Command : Type 0 where
  set_logic check_sat get_model out_of_bounds : Command
  declare_const : Name → Command
  assert : Formula → Command

unfoldable pub value : (Name → ℤ) → Term → ℤ
value v (const x) = v x
value v (number z) = z

unfoldable pub atom_holds : (Name → ℤ) → Atom → Bool
atom_holds v (less a b) = ltb_ℤ (value v a) (value v b)
atom_holds v (at_least a b) = not (ltb_ℤ (value v a) (value v b))
atom_holds v (greater a b) = ltb_ℤ (value v b) (value v a)

unfoldable pub any_holds : (Name → ℤ) → List Atom → Bool
any_holds v [] = false
any_holds v (a ∷ l) = atom_holds v a || any_holds v l

unfoldable pub differs : (Name → ℤ) → Term → Term → Bool
differs v a b = not (eqb_ℤ (value v a) (value v b))

unfoldable pub all_differ : (Name → ℤ) → List Term → Bool
all_differ v [] = true
all_differ v (a ∷ l) = all_in (differs v a) l && all_differ v l

unfoldable pub formula_holds : (Name → ℤ) → Formula → Bool
formula_holds v (atom a) = atom_holds v a
formula_holds v (any l) = any_holds v l
formula_holds v (distinct l) = all_differ v l

-- A command that is no assertion leaves every assignment.
unfoldable pub allows : (Name → ℤ) → Command → Bool
allows v (assert f) = formula_holds v f
allows v out_of_bounds = false
allows v set_logic = true
allows v check_sat = true
allows v get_model = true
allows v (declare_const x) = true
