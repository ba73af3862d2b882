-- ===== src/Spec/Meaning.antt =====
-- What the checks of src/spec.c decide, in terms of threads, owners and queues.
use chibios_smash.Base.{
  ℕ, ◌≤ℤ◌, is_negative, is_positive, ◌≤◌, ◌<◌, ◌≡◌, ◌↔◌, inl, inr, refl, Bool, true, false, Option,
  none, some, all_below_sound, all_below_complete, arith, Bool-cases,
}
use chibios_smash.Types.{
  max_waiters, ThreadState, is_mutex, is_semaphore, is_done, is_blocked_mutex, is_blocked_sem,
  Resource, Engine,
}
use chibios_smash.Model.Queue.{thread_count, resource_count}
use chibios_smash.Model.Consistent.{IsOrdered}
use chibios_smash.Spec.Checks.{
  waiters_valid, owner_valid, mutex_valid, check_mutex_integrity, sem_valid, check_sem_integrity,
  no_inversion, check_priority_inversion, check_owned_mutex_integrity,
}

no_inversion_sound :
    (e : Engine) (r : Resource) (owner : Option ℕ)
    → no_inversion e r owner ≡ true
    → (o w : ℕ) → is_mutex r.type ≡ true
    → owner ≡ some o
    → w < r.waiter_count
    → (e.threads (r.waiters w)).priority ≤ℤ (e.threads o).priority
unfolding no_inversion
no_inversion_sound e r none h o w m own lt = cc
no_inversion_sound e r (some o') h o w m own lt =
    ground (arith, all_below_sound r.waiter_count _ (rw m at h) w lt)

no_inversion_complete :
    (e : Engine) (r : Resource) (owner : Option ℕ)
    → ((o w : ℕ)
        → is_mutex r.type ≡ true
        → owner ≡ some o
        → w < r.waiter_count
        → (e.threads (r.waiters w)).priority ≤ℤ (e.threads o).priority)
    → no_inversion e r owner ≡ true
unfolding no_inversion
no_inversion_complete e r none h = refl
no_inversion_complete e r (some o) h = elim (Bool-cases (is_mutex r.type)) [
  | inr other ↦ rw other
  | inl m ↦ rw m (all_below_complete r.waiter_count _ (λ w lt. ground (arith, h o w m refl lt)))
]

-- The check of priority inversion passes exactly when no waiter of an owned mutex has a higher
-- priority than the owner.
pub check_priority_inversion_iff :
    (e : Engine)
    → (check_priority_inversion e ≡ true) ↔ IsOrdered (resource_count e) e.threads e.resources
unfolding check_priority_inversion
check_priority_inversion_iff e = (sound, complete)
  where
    sound : check_priority_inversion e ≡ true → IsOrdered (resource_count e) e.threads e.resources
    sound h r o w lt m own wlt =
        no_inversion_sound e (e.resources r) (e.resources r).owner
          (all_below_sound (resource_count e) _ h r lt) o w m own wlt

    complete :
        IsOrdered (resource_count e) e.threads e.resources → check_priority_inversion e ≡ true
    complete h = all_below_complete (resource_count e) _ (λ r lt.
        no_inversion_complete e (e.resources r) (e.resources r).owner
          (λ o w m own wlt. h r o w lt m own wlt))

-- A waiter of the queue is a thread of the scenario in the blocked state.
abbrev pub AreValid : Engine → (ThreadState → Bool) → Resource → Type 0
AreValid e blocked r =
    (w : ℕ)
    → w < r.waiter_count
    → (r.waiters w < thread_count e) × (blocked (e.threads (r.waiters w)).state ≡ true)

waiters_valid_sound :
    (e : Engine) (blocked : ThreadState → Bool) (r : Resource)
    → waiters_valid e blocked r ≡ true
    → AreValid e blocked r
unfolding waiters_valid
waiters_valid_sound e blocked r h w lt = ground (arith, all_below_sound r.waiter_count _ h w lt)

waiters_valid_complete :
    (e : Engine) (blocked : ThreadState → Bool) (r : Resource)
    → AreValid e blocked r
    → waiters_valid e blocked r ≡ true
unfolding waiters_valid
waiters_valid_complete e blocked r h =
    all_below_complete r.waiter_count _ (λ w lt. ground (arith, h w lt))

-- What the source asks of a semaphore.
pub record IsSemaphoreValid (e : Engine) (r : Resource) : Type 0 where
  pub no_debt : is_negative r.count ≡ false
  pub room : r.waiter_count ≤ max_waiters
  pub no_lost_wakeup : is_positive r.count ≡ true → r.waiter_count ≡ 0
  pub waiters : AreValid e is_blocked_sem r

sem_valid_complete :
    (e : Engine) (r : Resource)
    → (is_semaphore r.type ≡ true → IsSemaphoreValid e r)
    → sem_valid e r ≡ true
unfolding sem_valid
sem_valid_complete e r h = elim (Bool-cases (is_semaphore r.type)) [
  | inr other ↦ rw other
  | inl s ↦ rw s (
      ground (
        arith,
        (h s).no_debt,
        (h s).room,
        (h s).no_lost_wakeup,
        waiters_valid_complete e is_blocked_sem r (h s).waiters,
      ))
]

sem_valid_sound :
    (e : Engine) (r : Resource)
    → sem_valid e r ≡ true
    → is_semaphore r.type ≡ true
    → IsSemaphoreValid e r
unfolding sem_valid
sem_valid_sound e r h s = record {
  no_debt = ground arith;
  room = ground arith;
  no_lost_wakeup = λ p. ground arith;
  waiters = waiters_valid_sound e is_blocked_sem r (ground arith);
}

-- The check of the semaphores passes exactly when each semaphore has no negative count, no more
-- waiters than the queue holds, no waiter while the count is positive, and only waiters that are
-- threads of the scenario blocked on a semaphore.
pub check_sem_integrity_iff :
    (e : Engine)
    → (check_sem_integrity e ≡ true) ↔ (
        (r : ℕ)
        → r < resource_count e
        → is_semaphore (e.resources r).type ≡ true
        → IsSemaphoreValid e (e.resources r))
unfolding check_sem_integrity
check_sem_integrity_iff e = (
  (λ h r lt. sem_valid_sound e (e.resources r) (all_below_sound (resource_count e) _ h r lt)),
  (λ h.
      all_below_complete (resource_count e) _
        (λ r lt. sem_valid_complete e (e.resources r) (h r lt))),
)

-- What the source asks of a mutex: an owner that is a thread of the scenario and is not done, no
-- waiter without an owner, and waiters that are blocked threads.
pub record IsMutexValid (e : Engine) (r : Resource) : Type 0 where
  pub owner_in : (o : ℕ) → r.owner ≡ some o → o < thread_count e
  pub owner_lives : (o : ℕ) → r.owner ≡ some o → is_done (e.threads o).state ≡ false
  pub held : r.owner ≡ none → r.waiter_count ≡ 0
  pub room : r.waiter_count ≤ max_waiters
  pub waiters : AreValid e is_blocked_mutex r

owner_valid_complete :
    (e : Engine) (owner : Option ℕ)
    → ((o : ℕ) → owner ≡ some o → (o < thread_count e) × (is_done (e.threads o).state ≡ false))
    → owner_valid e owner ≡ true
unfolding owner_valid
owner_valid_complete e none h = refl
owner_valid_complete e (some o) h = ground (arith, h o refl)

mutex_valid_complete :
    (e : Engine) (r : Resource)
    → (is_mutex r.type ≡ true → IsMutexValid e r)
    → mutex_valid e r ≡ true
unfolding mutex_valid
mutex_valid_complete e r h = elim (Bool-cases (is_mutex r.type)) [
  | inr other ↦ rw other
  | inl m ↦ rw m (
      ground (
        arith,
        (h m).held,
        (h m).room,
        owner_valid_complete e r.owner (λ o own. ((h m).owner_in o own, (h m).owner_lives o own)),
        waiters_valid_complete e is_blocked_mutex r (h m).waiters,
      ))
]

mutex_valid_sound :
    (e : Engine) (r : Resource) → mutex_valid e r ≡ true → is_mutex r.type ≡ true → IsMutexValid e r
unfolding mutex_valid owner_valid
mutex_valid_sound e r h m = record {
  owner_in = λ o own. ground arith;
  owner_lives = λ o own. ground arith;
  held = λ free. ground arith;
  room = ground arith;
  waiters = waiters_valid_sound e is_blocked_mutex r (ground arith);
}

-- The check of the mutexes passes exactly when each mutex has an owner that is a thread of the
-- scenario and not done, or none and then no waiter, no more waiters than the queue holds, and only
-- waiters that are threads of the scenario blocked on a mutex.
pub check_mutex_integrity_iff :
    (e : Engine)
    → (check_mutex_integrity e ≡ true) ↔ (
        (r : ℕ)
        → r < resource_count e
        → is_mutex (e.resources r).type ≡ true
        → IsMutexValid e (e.resources r))
unfolding check_mutex_integrity
check_mutex_integrity_iff e = (
  (λ h r lt. mutex_valid_sound e (e.resources r) (all_below_sound (resource_count e) _ h r lt)),
  (λ h.
      all_below_complete (resource_count e) _
        (λ r lt. mutex_valid_complete e (e.resources r) (h r lt))),
)

-- The check of the stacks passes when every entry is a resource of the scenario that the thread owns.
pub check_owned_mutex_integrity_complete :
    (e : Engine)
    → ((t k : ℕ)
        → t < thread_count e
        → k < (e.threads t).owned_mutex_count
        → ((e.threads t).owned_mutex_stack k < resource_count e)
          × ((e.resources ((e.threads t).owned_mutex_stack k)).owner ≡ some t))
    → check_owned_mutex_integrity e ≡ true
unfolding check_owned_mutex_integrity
check_owned_mutex_integrity_complete e h = all_below_complete (thread_count e) _ (λ t lt.
    all_below_complete (e.threads t).owned_mutex_count _ (λ k klt. ground (arith, h t k lt klt)))
