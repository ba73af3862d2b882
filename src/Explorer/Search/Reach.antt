-- ===== src/Explorer/Search/Reach.antt =====
-- The states that the program under test can reach, and how the engine of a search shows one of them:
-- all but its bookkeeping is equal.
use mathlib.Core.Path.{subst}
use chibios_smash.Base.{
  leb, Option-cases, ℕ, zero, suc, ◌+◌, ◌≡◌, refl, sym, ap, ◌∙◌, inl, inr, true, false, none,
  Bool-cases, arith, [], contains,
}
use chibios_smash.Types.{max_threads, max_states, state_ht_size, Trace, Engine, failed}
use chibios_smash.Engine.Threads.{collect_runnable, all_done}
use chibios_smash.Engine.Step.{execute_step}
use chibios_smash.Engine.Step.Frame.{choices}
use chibios_smash.Engine.Step.View.{Books, with_books, execute_step-with_books}
use chibios_smash.State.Table.{mark_from, state_mark_visited}
use chibios_smash.Spec.Checks.{
  waiters_valid, owner_valid, mutex_valid, check_mutex_integrity, sem_valid, check_sem_integrity,
  no_inversion, check_priority_inversion, check_owned_mutex_integrity, check_context_safety,
  check_stack_depth, check_all,
}
use chibios_smash.Explorer.Search.{restore_engine, record_bounded}

-- The state after a step of the thread, with the choice recorded.
abbrev pub stepped : Engine → ℕ → Engine
stepped e tid = (execute_step (record_bounded e tid) tid).0

abbrev pub IsRunnable : Engine → ℕ → Type 0
IsRunnable e tid = contains (collect_runnable e max_threads) tid ≡ true

-- The states after a number of steps of runnable threads that neither fail nor break a check.
pub data Reaches (origin : Engine) : ℕ → Engine → Type 0 where
  start : Reaches origin 0 origin
  next :
      {n : ℕ} {e : Engine} (tid : ℕ)
      → Reaches origin n e
      → all_done e ≡ false
      → IsRunnable e tid
      → failed (stepped e tid) ≡ false
      → check_all (stepped e tid) ≡ true
      → Reaches origin (suc n) (stepped e tid)

-- A state with threads left that is a deadlock, or from which a step fails or breaks a check.
pub data IsBug (e : Engine) : Type 0 where
  deadlock : all_done e ≡ false → collect_runnable e max_threads ≡ [] → IsBug e
  failure :
      (tid : ℕ) → all_done e ≡ false → IsRunnable e tid → failed (stepped e tid) ≡ true → IsBug e
  violation :
      (tid : ℕ)
      → all_done e ≡ false
      → IsRunnable e tid
      → check_all (stepped e tid) ≡ false
      → IsBug e

-- The trace records the way to a bug of the state: to the state itself where that is a deadlock, and to
-- the step that fails or breaks a check otherwise.
pub data IsWayToBug (e : Engine) (t : Trace) : Type 0 where
  to_deadlock :
      all_done e ≡ false
      → collect_runnable e max_threads ≡ []
      → choices t ≡ choices e.trace
      → IsWayToBug e t
  to_failure :
      (tid : ℕ)
      → all_done e ≡ false
      → IsRunnable e tid
      → failed (stepped e tid) ≡ true
      → choices t ≡ choices (stepped e tid).trace
      → IsWayToBug e t
  to_violation :
      (tid : ℕ)
      → all_done e ≡ false
      → IsRunnable e tid
      → check_all (stepped e tid) ≡ false
      → choices t ≡ choices (stepped e tid).trace
      → IsWayToBug e t

pub IsWayToBug-IsBug : (e : Engine) (t : Trace) → IsWayToBug e t → IsBug e
IsWayToBug-IsBug e t (to_deadlock live empty same) = deadlock live empty
IsWayToBug-IsBug e t (to_failure tid live runs fails same) = failure tid live runs fails
IsWayToBug-IsBug e t (to_violation tid live runs broken same) = violation tid live runs broken

pub record IsView (e e' : Engine) : Type 0 where
  pub books : Books
  pub same : e' ≡ with_books books e

books_of : Engine → Books
books_of e = record { depth = e.max_depth_reached; table = e.state_ht; count = e.state_hash_count }

pub IsView-refl : (e : Engine) → IsView e e
unfolding books_of
IsView-refl e = record { books = books_of e; same = refl }

module _ (e e' : Engine) (view : IsView e e') where
  pub all_done-IsView : all_done e' ≡ all_done e
  unfolding all_done
  all_done-IsView = ap all_done view.same

  pub collect_runnable-IsView : collect_runnable e' max_threads ≡ collect_runnable e max_threads
  unfolding collect_runnable
  collect_runnable-IsView = ap (λ x. collect_runnable x max_threads) view.same

  pub failed-IsView : failed e' ≡ failed e
  failed-IsView = ap failed view.same

  pub check_all-IsView : check_all e' ≡ check_all e
  unfolding waiters_valid owner_valid mutex_valid check_mutex_integrity sem_valid
      check_sem_integrity no_inversion check_priority_inversion check_owned_mutex_integrity
      check_context_safety check_stack_depth check_all
  check_all-IsView = ap check_all view.same

  record_bounded-IsView :
      (tid : ℕ) → record_bounded e' tid ≡ with_books view.books (record_bounded e tid)
  record_bounded-IsView tid = ap (λ x. record_bounded x tid) view.same ∙ ground arith

  pub stepped-IsView : (tid : ℕ) → IsView (stepped e tid) (stepped e' tid)
  stepped-IsView tid = record {
    books = view.books;
    same =
        ap (λ x. (execute_step x tid).0) (record_bounded-IsView tid)
        ∙ ap (λ r. r.0) (execute_step-with_books view.books (record_bounded e tid) tid);
  }

  -- Backtracking shows the same state again.
  pub restore_engine-IsView :
      (x : Engine) → e.fail_msg ≡ none → x.scenario ≡ e.scenario → IsView e (restore_engine e' x)
  unfolding restore_engine books_of
  restore_engine-IsView x fine scenario = record {
    books = books_of x;
    same = λ i. record {
      scenario = scenario i;
      threads = (view.same i).threads;
      resources = (view.same i).resources;
      trace = (view.same i).trace;
      max_depth_reached = x.max_depth_reached;
      state_ht = x.state_ht;
      state_hash_count = x.state_hash_count;
      step_counter = (view.same i).step_counter;
      fail_msg = sym fine i;
    };
  }

  pub with_books-IsView : (b : Books) → IsView e (with_books b e')
  with_books-IsView b = record { books = b; same = ap (with_books b) view.same }

mark_from-with_books :
    (e : Engine) (size hash rounds i : ℕ)
    → (mark_from e size hash rounds i).0
      ≡ with_books (books_of (mark_from e size hash rounds i).0) e
unfolding mark_from books_of
mark_from-with_books e size hash zero i = refl
mark_from-with_books e size hash (suc rounds) i =
    ground (arith, mark_from-with_books e size hash rounds (i + 1))

pub state_mark_visited-IsView :
    (e e' : Engine) (hash : ℕ) → IsView e e' → IsView e (state_mark_visited e' hash).0
unfolding state_mark_visited
state_mark_visited-IsView e e' hash view = elim (Bool-cases (leb max_states e'.state_hash_count)) [
  | inl full ↦ rw full view
  | inr room ↦ rw room (
      subst (IsView e) (sym (mark_from-with_books e' state_ht_size hash state_ht_size 0))
        (with_books-IsView e e' view _))
]

pub not_failed : (e : Engine) → failed e ≡ false → e.fail_msg ≡ none
not_failed e h = elim (Option-cases e.fail_msg) [
  | inl fine ↦ fine
  | inr (f, is_f) ↦ ground (arith, h, is_f)
]
