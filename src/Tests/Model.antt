-- ===== src/Tests/Model.antt =====
-- Operations on mutexes, semaphores and mailboxes.
use chibios_smash.Base.{
  ℕ, pos, ◌≡◌, refl, true, arith, [], ◌∷◌, ◌++◌, some, if◌then◌else◌, ◌<◌, ◌+◌, ◌==◌, zero, suc,
  none, inr,
}
use chibios_smash.Types.{ThreadState, ResourceType, Resource, Engine, Thread}
use chibios_smash.Model.Queue.{resumed, recalc_priority, resource_count}
use chibios_smash.Model.Queue.Priority.{IsRecalculated, recalc_priority-IsRecalculated}
use chibios_smash.Model.Consistent.{IsConsistent}
use chibios_smash.Model.Mutex.{mutex_lock, mutex_unlock, boost_chain}
use chibios_smash.Model.Mutex.Boost.{
  low_count-le, AreBlocked, IsCovered, boost_chain-IsCovered, boost_chain-fuel,
}
use chibios_smash.Model.Mutex.Lock.{mutex_lock-IsConsistent}
use chibios_smash.Model.Mutex.Pair.{mutex_unlock-mutex_lock}
use chibios_smash.Model.Mutex.Unlock.{mutex_unlock-IsConsistent}
use chibios_smash.Model.Semaphore.{sem_wait, sem_signal}
use chibios_smash.Model.Semaphore.Invariant.{sem_wait-IsConsistent, sem_signal-IsConsistent}
use chibios_smash.Model.Condvar.{cond_broadcast}
use chibios_smash.Model.Condvar.Broadcast.{waits, cond_broadcast-waits}
use chibios_smash.Model.Mailbox.{mb_post, mb_fetch}
use chibios_smash.Model.Mailbox.Buffer.{IsValid, contents}
use chibios_smash.Model.Mailbox.Queue.{Holds, first, others, mb_post-Holds, mb_fetch-Holds}
use chibios_smash.Tests.Data.{
  after, after_none-CanUse, after_none-IsFree, after-IsRunning, locked, locked-CanUse,
  locked-CanSignal,
}

mutex_lock-IsConsistent_example : IsConsistent (mutex_lock (after []) 0 0).0
mutex_lock-IsConsistent_example =
    mutex_lock-IsConsistent {e = after []} {tid = 0} {res = 0} (after-IsRunning []).consistent
      after_none-CanUse

mutex_unlock-IsConsistent_example : IsConsistent (mutex_unlock locked 0 0)
mutex_unlock-IsConsistent_example =
    mutex_unlock-IsConsistent {e = locked} {tid = 0} {res = 0}
      (after-IsRunning (pos 0 ∷ [])).consistent locked-CanUse

sem_wait-IsConsistent_example : IsConsistent (sem_wait locked 0 1).0
sem_wait-IsConsistent_example =
    sem_wait-IsConsistent {e = locked} {tid = 0} {res = 1} (after-IsRunning (pos 0 ∷ [])).consistent
      locked-CanSignal

sem_signal-IsConsistent_example : IsConsistent (sem_signal locked 0 1)
sem_signal-IsConsistent_example =
    sem_signal-IsConsistent {e = locked} {tid = 0} {res = 1}
      (after-IsRunning (pos 0 ∷ [])).consistent locked-CanSignal

recalc_priority-IsRecalculated_example :
    IsRecalculated locked.threads locked.resources 0 1
      (locked.threads 0).base_priority
      (resource_count locked)
      (recalc_priority locked 0 1)
recalc_priority-IsRecalculated_example = recalc_priority-IsRecalculated locked 0 1

-- A mutex that thread 1 owns and threads 0 and 2 wait for.
abbrev waited : Resource
waited = record (locked.resources 0) {
  type = ResourceType.mutex;
  owner = some 1;
  waiters = λ w. w + w;
  waiter_count = 2;
}

abbrev waiting : ℕ → Thread
waiting t = record (locked.threads 0) {
  priority = if t == 1 then pos 3 else pos (5 + t);
  state = if t == 1 then ThreadState.ready else ThreadState.blocked_mutex;
  blocked_on = if t == 1 then none else some 0;
}

waited-owner_in : (r o : ℕ) → r < 1 → waited.owner ≡ some o → o < 3
waited-owner_in r o r_in own = ground arith

waiting-AreBlocked : AreBlocked (λ _. waited) 1 waiting
waiting-AreBlocked r zero r_in mutex w_in = (refl, ground arith)
waiting-AreBlocked r (suc zero) r_in mutex w_in = (refl, ground arith)
waiting-AreBlocked r (suc (suc w)) r_in mutex w_in = absurd (omega arith)

waiting-IsCovered : IsCovered (λ _. waited) 1 (pos 7) (some 1) waiting
waiting-IsCovered r o w r_in mutex own w_in = inr (own, ground arith)

boost_chain-IsCovered_example :
    IsCovered (λ _. waited) 1 (pos 7) none (boost_chain 4 (λ _. waited) 1 (pos 7) (some 1) waiting)
boost_chain-IsCovered_example =
    boost_chain-IsCovered (λ _. waited) 1 (pos 7) 3 waited-owner_in 4 (some 1) waiting
      (omega (arith, low_count-le (pos 7) waiting 3)) (λ c e. ground arith) waiting-AreBlocked
      waiting-IsCovered

boost_chain-fuel_example :
    boost_chain 9 (λ _. waited) 1 (pos 7) (some 1) waiting
    ≡ boost_chain 4 (λ _. waited) 1 (pos 7) (some 1) waiting
boost_chain-fuel_example =
    boost_chain-fuel (λ _. waited) 1 (pos 7) 3 waited-owner_in 4 9 (some 1) waiting (omega arith)
      (omega (arith, low_count-le (pos 7) waiting 3)) (λ c e. ground arith)

-- A mailbox of capacity 2 that holds one message.
abbrev box : Resource
box = record (locked.resources 0) {
  type = ResourceType.mailbox;
  mb_capacity = pos 2;
  mb_messages = λ _. pos 9;
  mb_head = 1;
  mb_tail = 0;
  mb_count = 1;
  waiter_count = 0;
}

box-IsValid : IsValid box
box-IsValid = record {
  kind = refl;
  capacity = omega arith;
  fits = omega arith;
  head = omega arith;
  count = omega arith;
  tail = refl;
}

abbrev posting : Engine
posting = record locked { resources = λ _. box }

mb_post-Holds_example :
    ((mb_post posting 0 1 (pos 4)).1 ≡ true)
    × Holds (mb_post posting 0 1 (pos 4)).0 1 (contents box ++ (pos 4 ∷ []))
mb_post-Holds_example = mb_post-Holds posting 0 1 (pos 4) box-IsValid

mb_fetch-Holds_example :
    ((mb_fetch posting 0 1).1 ≡ first (contents box))
    × Holds (mb_fetch posting 0 1).0 1 (others (contents box))
mb_fetch-Holds_example = mb_fetch-Holds posting 0 1 box-IsValid

-- A condition variable that threads 0 and 2 wait for.
abbrev signalled : Engine
signalled = record locked {
  resources = λ _. record waited { type = ResourceType.condvar };
  threads = waiting;
}

cond_broadcast-waits_example :
    (((cond_broadcast signalled 1 0).resources 0).waiter_count ≡ 0)
    × ((cond_broadcast signalled 1 0).threads 2
        ≡ (if waits 0 2 signalled then resumed (waiting 2) else waiting 2))
cond_broadcast-waits_example = cond_broadcast-waits signalled 1 0 2 refl

mutex_unlock-mutex_lock_example :
    ((mutex_lock (after []) 0 0).1 ≡ true)
    × (((mutex_unlock (mutex_lock (after []) 0 0).0 0 0).fail_msg ≡ (after []).fail_msg)
        × ((((mutex_unlock (mutex_lock (after []) 0 0).0 0 0).resources 0).owner ≡ none)
            × (((mutex_unlock (mutex_lock (after []) 0 0).0 0 0).threads 0).owned_mutex_count
                ≡ ((after []).threads 0).owned_mutex_count)))
mutex_unlock-mutex_lock_example = mutex_unlock-mutex_lock (after []) 0 0 after_none-IsFree
