-- ===== src/Spec/Deadlock.antt =====
-- What `smash_check_no_deadlock` of src/spec.c decides.
use chibios_smash.Base.{
  ℕ, ◌≤◌, ◌<◌, ◌≡◌, ◌↔◌, ◌⊎◌, refl, inl, inr, true, Bool-cases, all_below_sound, all_below_complete,
  arith, ltb→lt,
}
use chibios_smash.Types.{max_threads, is_ready, is_done, Engine}
use chibios_smash.Model.Queue.{thread_count}
use chibios_smash.Engine.Threads.{length, collect_runnable, all_done}
use chibios_smash.Engine.Threads.Runnable.{
  contains-collect_runnable, contains-nonempty, nonempty-contains,
}
use chibios_smash.Spec.Checks.{check_no_deadlock}

-- Every thread of the scenario is done.
abbrev pub AreDone : Engine → Type 0
AreDone e = (t : ℕ) → t < thread_count e → is_done (e.threads t).state ≡ true

-- Some thread of the scenario is ready.
abbrev pub HasReady : Engine → Type 0
HasReady e = (t : ℕ) × ((t < thread_count e) × (is_ready (e.threads t).state ≡ true))

module _ (e : Engine) (few : thread_count e ≤ max_threads) where
  collected-HasReady : 0 < length (collect_runnable e max_threads) → HasReady e
  collected-HasReady some_in =
      let (t, t_in) = nonempty-contains (collect_runnable e max_threads) some_in in
      let ready = contains-collect_runnable e max_threads t few in
      (t, (ground (arith, t_in, ready), ground (arith, t_in, ready)))

  HasReady-collected : HasReady e → 0 < length (collect_runnable e max_threads)
  HasReady-collected (t, (lt, ready)) =
      contains-nonempty (collect_runnable e max_threads) t
        (ground (arith, contains-collect_runnable e max_threads t few))

  AreDone-all_done : (all_done e ≡ true) ↔ AreDone e
  unfolding all_done
  AreDone-all_done = (
    λ h t lt. all_below_sound (thread_count e) (λ i. is_done (e.threads i).state) h t lt,
    λ h. all_below_complete (thread_count e) (λ i. is_done (e.threads i).state) h,
  )

  -- With no more threads than the limit, the check of deadlocks passes exactly when every thread of the
  -- scenario is done or some thread of it is ready.
  pub check_no_deadlock_iff : (check_no_deadlock e ≡ true) ↔ (AreDone e ⊎ HasReady e)
  unfolding check_no_deadlock
  check_no_deadlock_iff = elim (Bool-cases (all_done e)) [
    | inl done ↦ rw done ((λ h. inl (AreDone-all_done.0 done)), (λ h. refl))
    | inr live ↦ rw live (
      (λ h. inr (collected-HasReady (ltb→lt _ _ h))),
      (λ h. elim h [
        | inl done ↦ let all = AreDone-all_done.1 done in cc
        | inr ready ↦ ground (arith, HasReady-collected ready)
      ]),
    )
  ]
