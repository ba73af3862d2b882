-- ===== src/Lib.antt =====
-- A model of chibios-smash, a model checker for programs on the ChibiOS kernel, with theorems on what
-- its parts do.
--
-- The program runs scenarios: a few threads, each with a list of actions on shared resources. An engine
-- holds the threads and the resources; a step runs one action of one thread through a model of the
-- kernel's mutexes, semaphores, condition variables and mailboxes, and records events in a trace. The
-- explorer searches the orders of steps depth first, prunes by a table of state hashes, by persistent
-- sets and by sleep sets, and checks the state after each step. Two more parts turn a scenario into
-- constraints on the order of its steps: one prints them for an SMT solver, the other gives them to Z3.
--
-- The files and the code they model, with paths from the root of the repository:
-- - Base: Booleans, signed integers, C arrays and `for` loops, lists.
-- - Types: the limits, enumerations and structs of include/smash.h.
-- - Trace: `smash_trace_init` and `smash_trace_log` of src/trace.c.
-- - Model: src/chibios_model.c. Model.Queue has `waiter_remove`, `owned_push`, `owned_pop`,
--   `recalc_priority` and the choice of a waiter; Model.Mutex, Model.Semaphore, Model.Condvar and
--   Model.Mailbox have the operations, under their names without `smash_`. Model.Consistent states the
--   invariant of mutexes and semaphores; Lock, Unlock and Invariant below the operations prove it.
-- - Engine: src/engine.c. Engine.Init has `smash_scenario_validate`, `smash_engine_init` and
--   `smash_engine_reset`; Engine.Threads `smash_collect_runnable`, `smash_all_done` and
--   `smash_capture_state`; Engine.Handlers the cases of the `switch` of `smash_execute_step`, and
--   Engine.Step that function; Engine.Run `smash_run_schedule`. Engine.Step.View has what a step
--   leaves out of account, the bookkeeping of a search, Engine.Step.Errors what its result says, and
--   Engine.Step.Progress how a step of a plain scenario brings the run nearer its end. A plain scenario
--   has untimed mutex, semaphore, context, lifecycle and call actions only, each on a resource of its
--   type.
-- - State: src/state.c, the hash of a snapshot and the table of visited hashes.
-- - Dpor: src/dpor.c, the dependency test, the history with its backtrack points, the sleep sets.
-- - Spec: the checks of src/spec.c, and what each of them means. Spec.Circular has
--   `smash_check_circular_wait`, the depth-first search of the wait-for graph.
-- - Explorer: src/explorer.c. Explorer.Persistent has `compute_persistent_set`, Explorer.Search
--   `explore_dfs` and `smash_explore`, and Explorer.Minimize `smash_trace_minimize` of src/trace.c.
--   Explorer.Search.Reach is the independent description that a search is compared with: the states
--   that steps of runnable threads reach, and which of them have a bug. Explorer.Search.Replay joins
--   the search, the run of a schedule and the minimisation, Explorer.Search.Bounded the search and the
--   length of runs.
-- - Smt: src/smt.c. `Smt` has the terms and formulas with their meaning, Smt.Export
--   `smash_smt_export`, Smt.Sections, Smt.Signals and Smt.Distinct what its parts say.
-- - Sym: src/sym_engine.c and include/smash_sym.h. Sym.Encode has the encoders, Sym.Check the solver
--   call, the counterexample and `smash_verify_no_deadlock_bmc`. The Z3 solver is the parameter
--   `Solver`, and `IsSolver` is what is assumed of its answers. The file does not compile as it stands:
--   the calls of Z3 for a counterexample are read as a lookup of a value in the model.
-- - Tests: concrete scenarios and states, with the theorems applied to them.
--
-- State is passed explicitly: an operation takes an engine and gives the engine that it leaves, with a
-- Boolean where the code returns one. An array is a function of its index with a count beside it. An
-- `int` that is -1 or an id is an `Option ℕ`; an `int` of a scenario is an `ℤ`; a counter that never
-- falls below 0 is an `ℕ`. `failed` and `fail_msg` are one field, which has a constructor for each format
-- string. An action on the resource -1 fails with `undefined_access`. A write beyond the end of an
-- array, as of a schedule longer than `max_depth` or of a mailbox with a capacity above the limit,
-- extends the function instead. More signals of a semaphore than the array of src/sym_engine.c holds
-- give the command `out_of_bounds`.
--
-- Loops over indices are `for_up` and `all_below`. The chain of priority inheritance has fuel for
-- one round more than there can be threads, since each round raises a thread that was below. The
-- loop of the persistent set has fuel for one round more than there are runnable threads, since
-- each round but the last adds one. The minimisation has fuel for one round more than there are
-- entries, since each round shortens the schedule or moves on in it. The search has fuel for
-- `max_depth` levels, at which the code stops by itself. The search of the wait-for graph has fuel for
-- twice as many rounds as there are threads, since a round marks a thread or takes one off the stack.
--
-- Not modelled: the text of messages and all output; of src/sym_engine.c the encoder
-- `smash_sym_encode_priority_inheritance`, which asserts nothing, the encoder
-- `smash_sym_encode_no_circular_wait`, whose calls do not compile,
-- `smash_verify_no_priority_inversion_bmc`, which gives a constant, `smash_sym_export_smt2`, which
-- prints terms of Z3, and the freeing of memory; the clock, and the failure of `malloc`. The 64-bit
-- counters of a result are not wrapped.
pub mod Base
pub mod Types
pub mod Trace
pub mod Model
pub mod Engine
pub mod State
pub mod Dpor
pub mod Spec
pub mod Explorer
pub mod Smt
pub mod Sym
pub mod Tests
