-- ===== src/Model/Consistent.antt =====
-- The invariant that the operations on mutexes and semaphores of src/chibios_model.c keep: queues,
-- owners, priorities, stacks of owned mutexes and semaphore counts agree with one another.
use chibios_smash.Base.{
  ℕ, ◌≤◌, ◌<◌, ◌≡◌, ◌≤ℤ◌, is_negative, is_positive, true, false, none, some, arith,
}
use chibios_smash.Types.{
  max_threads, Thread, ThreadState, ResourceType, Resource, Engine, is_mutex, is_semaphore,
}
use chibios_smash.Model.Queue.{thread_count, resource_count}
use chibios_smash.Model.Queue.Invariant.{Queues, Queues-threads}

-- No waiter of a mutex has a higher priority than the owner.
abbrev pub IsOrdered : ℕ → (ℕ → Thread) → (ℕ → Resource) → Type 0
IsOrdered count threads rs =
    (r o w : ℕ)
    → r < count
    → is_mutex (rs r).type ≡ true
    → (rs r).owner ≡ some o
    → w < (rs r).waiter_count
    → (threads ((rs r).waiters w)).priority ≤ℤ (threads o).priority

module _ (n count : ℕ) (rs : ℕ → Resource) where
  pub record Owners : Type 0 where
    pub owner_in : (r o : ℕ) → r < count → (rs r).owner ≡ some o → o < n
    pub held :
        (r : ℕ)
        → r < count
        → is_mutex (rs r).type ≡ true
        → (rs r).owner ≡ none
        → (rs r).waiter_count ≡ 0

module _ (count : ℕ) (rs : ℕ → Resource) where
  -- A semaphore has no negative count, and no waiter while its count is positive.
  pub record Semaphores : Type 0 where
    pub no_debt :
        (r : ℕ) → r < count → is_semaphore (rs r).type ≡ true → is_negative (rs r).count ≡ false
    pub no_lost_wakeup :
        (r : ℕ)
        → r < count
        → is_semaphore (rs r).type ≡ true
        → is_positive (rs r).count ≡ true
        → (rs r).waiter_count ≡ 0

module _ (n count : ℕ) (threads : ℕ → Thread) (rs : ℕ → Resource) where
  -- A mutex on a thread's stack is owned by the thread, and stands there once.
  pub record Stacks : Type 0 where
    pub entry :
        (t k : ℕ)
        → t < n
        → k < (threads t).owned_mutex_count
        → ((threads t).owned_mutex_stack k < count)
          × ((rs ((threads t).owned_mutex_stack k)).owner ≡ some t)
    pub once :
        (t k l : ℕ)
        → t < n
        → k < (threads t).owned_mutex_count
        → l < (threads t).owned_mutex_count
        → (threads t).owned_mutex_stack k ≡ (threads t).owned_mutex_stack l
        → k ≡ l

  pub record Consistent : Type 0 where
    pub few : n ≤ max_threads
    pub queues : Queues n count threads rs
    pub owners : Owners n count rs
    pub ordered : IsOrdered count threads rs
    pub stacks : Stacks
    pub semaphores : Semaphores count rs

abbrev pub IsConsistent : Engine → Type 0
IsConsistent e = Consistent (thread_count e) (resource_count e) e.threads e.resources

-- A running thread and a resource of a type, both of the scenario.
pub record CanUse (k : ResourceType) (e : Engine) (tid res : ℕ) : Type 0 where
  pub thread_in : tid < thread_count e
  pub runs : (e.threads tid).state ≡ ThreadState.ready
  pub resource_in : res < resource_count e
  pub kind : (e.resources res).type ≡ k

-- A change of threads that leaves alone what the invariant speaks of.
pub Consistent-threads :
    {n count : ℕ} {threads : ℕ → Thread} {rs : ℕ → Resource}
    → Consistent n count threads rs
    → (th : ℕ → Thread)
    → ((j : ℕ) → ((th j).state ≡ (threads j).state) × ((th j).blocked_on ≡ (threads j).blocked_on))
    → ((j : ℕ) → (th j).priority ≡ (threads j).priority)
    → ((j : ℕ)
        → ((th j).owned_mutex_count ≡ (threads j).owned_mutex_count)
          × ((th j).owned_mutex_stack ≡ (threads j).owned_mutex_stack))
    → Consistent n count th rs
Consistent-threads {rs = rs} inv th waits priority owns = record {
  few = inv.few;
  queues = Queues-threads _ _ inv.queues th waits;
  owners = inv.owners;
  ordered = λ r o w lt m own wlt.
      ground (arith, inv.ordered r o w, priority o, priority ((rs r).waiters w));
  stacks = record {
    entry = λ t k lt klt. ground (arith, inv.stacks.entry t k, owns t);
    once = λ t k l lt klt llt same. ground (arith, inv.stacks.once t k l, owns t);
  };
  semaphores = inv.semaphores;
}
