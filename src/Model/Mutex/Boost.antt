-- ===== src/Model/Mutex/Boost.antt =====
-- The boosting loop of `smash_mutex_lock`: what it leaves alone, that its fuel is enough, and that it
-- repairs the priorities along the chain of owners.
use chibios_smash.Base.{
  ℕ, zero, suc, ◌+◌, ◌≤◌, ◌<◌, ◌≡◌, refl, ◌⊎◌, inl, inr, ℤ, ltb_ℤ, ◌≤ℤ◌, true, false, Option, none,
  some, if◌then◌else◌, update, arith, dec_lt, Bool-cases, Option-cases,
}
use chibios_smash.Types.{Thread, ThreadState, Resource, is_mutex}
use chibios_smash.Model.Mutex.{next_owner, boost_chain}

-- The number of threads below `n` whose priority is below `prio`.
pub low_count : ℤ → (ℕ → Thread) → ℕ → ℕ
low_count prio threads zero = 0
low_count prio threads (suc n) =
    low_count prio threads n + (if ltb_ℤ (threads n).priority prio then 1 else 0)

pub low_count-le : (prio : ℤ) (threads : ℕ → Thread) (n : ℕ) → low_count prio threads n ≤ n
unfolding low_count
low_count-le prio threads zero = omega arith
low_count-le prio threads (suc n) = ground (arith, low_count-le prio threads n)

module _ (prio : ℤ) (threads : ℕ → Thread) (cur : ℕ) (t : Thread) where
  low_count-update_of_le :
      (n : ℕ) → n ≤ cur → low_count prio (update threads cur t) n ≡ low_count prio threads n
  unfolding low_count
  low_count-update_of_le zero h = refl
  low_count-update_of_le (suc n) h = ground (arith, low_count-update_of_le n)

  -- Raising a low thread to `prio` leaves one low thread fewer.
  pub low_count-raise :
      (n : ℕ)
      → cur < n
      → ltb_ℤ (threads cur).priority prio ≡ true
      → t.priority ≡ prio
      → low_count prio (update threads cur t) n + 1 ≡ low_count prio threads n
  unfolding low_count
  low_count-raise zero h low e = elim h [ ]
  low_count-raise (suc n) h low e = elim (dec_lt cur n) [
    | yes below ↦ ground (arith, low_count-raise n below low e)
    | no last ↦
        let same : cur ≡ n = omega arith in ground (arith, low_count-update_of_le n (omega arith))
  ]

-- Every waiter of a mutex is blocked on it.
abbrev pub AreBlocked : (ℕ → Resource) → ℕ → (ℕ → Thread) → Type 0
AreBlocked resources count threads =
    (r w : ℕ)
    → r < count
    → is_mutex (resources r).type ≡ true
    → w < (resources r).waiter_count
    → ((threads ((resources r).waiters w)).state ≡ ThreadState.blocked_mutex)
      × ((threads ((resources r).waiters w)).blocked_on ≡ some r)

module _ (resources : ℕ → Resource) (count : ℕ) (prio : ℤ) where
  -- Only priorities change.
  pub boost_chain-frame :
      (fuel : ℕ) (cur : Option ℕ) (threads : ℕ → Thread) (j : ℕ)
      → let th = boost_chain fuel resources count prio cur threads in
        th j ≡ record (threads j) { priority = (th j).priority }
  unfolding boost_chain
  boost_chain-frame zero cur threads j = refl
  boost_chain-frame (suc fuel) none threads j = refl
  boost_chain-frame (suc fuel) (some c) threads j = ground (
    arith,
    boost_chain-frame fuel (next_owner resources count (threads c))
        (update threads c (record (threads c) { priority = prio })) j,
  )

  -- Every pair of an owner and a waiter of its mutex is in order, but for those of the owner `cur`,
  -- whose waiters have at most the priority that is handed on.
  abbrev pub IsCovered : Option ℕ → (ℕ → Thread) → Type 0
  IsCovered cur threads =
      (r o w : ℕ)
      → r < count
      → is_mutex (resources r).type ≡ true
      → (resources r).owner ≡ some o
      → w < (resources r).waiter_count
      → ((threads ((resources r).waiters w)).priority ≤ℤ (threads o).priority)
        ⊎ ((cur ≡ some o) × ((threads ((resources r).waiters w)).priority ≤ℤ prio))

  module _ (n : ℕ) (owner_in : (r o : ℕ) → r < count → (resources r).owner ≡ some o → o < n) where
    abbrev IsThread : Option ℕ → Type 0
    IsThread cur = (c : ℕ) → cur ≡ some c → c < n

    next_owner-IsThread : (t : Thread) → IsThread (next_owner resources count t)
    unfolding next_owner
    next_owner-IsThread t c e = elim (Option-cases t.blocked_on) [
      | inl nothing ↦ ground arith
      | inr (m, on) ↦ ground (arith, owner_in m c)
    ]

    IsCovered-step :
        (c : ℕ) (threads : ℕ → Thread)
        → AreBlocked resources count threads
        → IsCovered (some c) threads
        → ltb_ℤ (threads c).priority prio ≡ true
        → IsCovered
            (next_owner resources count (threads c))
            (update threads c (record (threads c) { priority = prio }))
    unfolding next_owner
    IsCovered-step c threads blocked cov low r o w lt m own wlt =
        ground (arith, cov r o w, blocked r w)

    IsCovered-stop :
        (c : ℕ) (threads : ℕ → Thread)
        → IsCovered (some c) threads
        → ltb_ℤ (threads c).priority prio ≡ false
        → IsCovered none threads
    IsCovered-stop c threads cov high r o w lt m own wlt = ground (arith, cov r o w)

    -- With more fuel than there are threads below the priority that is handed on, the loop leaves every
    -- owner of a mutex at or above its waiters, if the waiters of mutexes are blocked on them, and if
    -- before it only the waiters of the first owner of the chain may be out of order, each with at most
    -- the priority that is handed on.
    pub boost_chain-IsCovered :
        (fuel : ℕ) (cur : Option ℕ) (threads : ℕ → Thread)
        → low_count prio threads n < fuel
        → IsThread cur
        → AreBlocked resources count threads
        → IsCovered cur threads
        → IsCovered none (boost_chain fuel resources count prio cur threads)
    unfolding boost_chain
    boost_chain-IsCovered zero cur threads enough lt blocked cov = absurd (omega arith)
    boost_chain-IsCovered (suc fuel) none threads enough lt blocked cov = cov
    boost_chain-IsCovered (suc fuel) (some c) threads enough lt blocked cov =
        elim (Bool-cases (ltb_ℤ (threads c).priority prio)) [
          | inl low ↦ rw low (
              boost_chain-IsCovered fuel (next_owner resources count (threads c))
                (update threads c raised)
                (omega (arith, low_count-raise prio threads c raised n (lt c refl) low refl))
                (next_owner-IsThread (threads c)) (λ r w rlt m wlt. ground (arith, blocked r w))
                (IsCovered-step c threads blocked cov low))
          | inr high ↦ rw high (IsCovered-stop c threads cov high)
        ]
      where
        raised : Thread
        raised = record (threads c) { priority = prio }

    -- With more fuel than there are threads below the priority that is handed on, still more fuel
    -- changes nothing: the loop ends by one of its own tests.
    pub boost_chain-fuel :
        (fuel more : ℕ) (cur : Option ℕ) (threads : ℕ → Thread)
        → fuel ≤ more
        → low_count prio threads n < fuel
        → IsThread cur
        → boost_chain more resources count prio cur threads
          ≡ boost_chain fuel resources count prio cur threads
    unfolding boost_chain
    boost_chain-fuel zero more cur threads le enough lt = absurd (omega arith)
    boost_chain-fuel (suc fuel) zero cur threads le enough lt = absurd (omega arith)
    boost_chain-fuel (suc fuel) (suc more) none threads le enough lt = refl
    boost_chain-fuel (suc fuel) (suc more) (some c) threads le enough lt =
        elim (Bool-cases (ltb_ℤ (threads c).priority prio)) [
          | inl low ↦ rw low (
              boost_chain-fuel fuel more (next_owner resources count (threads c))
                (update threads c raised) (omega arith)
                (omega (arith, low_count-raise prio threads c raised n (lt c refl) low refl))
                (next_owner-IsThread (threads c)))
          | inr high ↦ rw high
        ]
      where
        raised : Thread
        raised = record (threads c) { priority = prio }
