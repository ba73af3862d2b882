-- ===== src/Engine/Step/Frame.antt =====
-- What no operation on a mutex or a semaphore changes: the scenario, the recorded schedule, the types
-- of resources and the timers of threads.
use chibios_smash.Base.{ℕ, pos, ◌≡◌, refl, update, Option, none, some, arith}
use chibios_smash.Types.{ThreadState, EventType, Trace, Engine}
use chibios_smash.Trace.{trace_log, log}
use chibios_smash.Model.Queue.{resource_count, owned_push, owned_pop, waiter_add, waiter_remove}
use chibios_smash.Model.Mutex.{
  boost_fuel, mutex_acquire, mutex_block, mutex_try, mutex_lock, mutex_hand_over, mutex_release,
  mutex_unlock,
}
use chibios_smash.Model.Mutex.Boost.{boost_chain-frame}
use chibios_smash.Model.Semaphore.{
  sem_block, sem_take, sem_wait, sem_wake, sem_signal_rest, sem_signal,
}

-- The schedule that a trace records.
abbrev pub choices : Trace → (ℕ → ℕ) × ℕ
choices t = (t.schedule, t.schedule_len)

pub record IsFrame (e e' : Engine) : Type 0 where
  pub scenario : e'.scenario ≡ e.scenario
  pub recorded : choices e'.trace ≡ choices e.trace
  pub types : (r : ℕ) → (e'.resources r).type ≡ (e.resources r).type
  pub timers : (t : ℕ) → (e'.threads t).timeout_ticks ≡ (e.threads t).timeout_ticks

module _ (e : Engine) (tid res : ℕ) where
  mutex_acquire-IsFrame : IsFrame e (mutex_acquire e tid res)
  unfolding mutex_acquire owned_push trace_log
  mutex_acquire-IsFrame = record {
    scenario = refl;
    recorded = ground arith;
    types = λ r. ground arith;
    timers = λ t. ground arith;
  }

  mutex_block-IsFrame : (owner : ℕ) → IsFrame e (mutex_block e tid res owner)
  unfolding mutex_block waiter_add trace_log
  mutex_block-IsFrame owner = record {
    scenario = refl;
    recorded = ground arith;
    types = λ r. ground arith;
    timers = λ t. ground (
      arith,
      boost_chain-frame (update e.resources res (waiter_add (e.resources res) tid))
          (resource_count e) (e.threads tid).priority boost_fuel (some owner)
          (update e.threads tid
            (record (e.threads tid) { state = ThreadState.blocked_mutex; blocked_on = some res }))
          t,
    );
  }

  mutex_try-IsFrame : (owner : Option ℕ) → IsFrame e (mutex_try e tid res owner).0
  unfolding mutex_try trace_log
  mutex_try-IsFrame none = mutex_acquire-IsFrame
  mutex_try-IsFrame (some owner) = record {
    scenario = ground (arith, (mutex_block-IsFrame owner).scenario);
    recorded = ground (arith, (mutex_block-IsFrame owner).recorded, mutex_acquire-IsFrame.recorded);
    types = λ r. ground (arith, (mutex_block-IsFrame owner).types r);
    timers = λ t. ground (arith, (mutex_block-IsFrame owner).timers t);
  }

  pub mutex_unlock-IsFrame : IsFrame e (mutex_unlock e tid res)
  unfolding mutex_unlock owned_pop mutex_release mutex_hand_over owned_push waiter_remove trace_log
  mutex_unlock-IsFrame = record {
    scenario = ground arith;
    recorded = ground arith;
    types = λ r. ground arith;
    timers = λ t. ground arith;
  }

  pub sem_wait-IsFrame : IsFrame e (sem_wait e tid res).0
  unfolding sem_wait sem_take sem_block waiter_add trace_log
  sem_wait-IsFrame = record {
    scenario = ground arith;
    recorded = ground arith;
    types = λ r. ground arith;
    timers = λ t. ground arith;
  }

  pub sem_signal-IsFrame : IsFrame e (sem_signal e tid res)
  unfolding sem_signal sem_wake sem_signal_rest waiter_remove trace_log
  sem_signal-IsFrame = record {
    scenario = ground arith;
    recorded = ground arith;
    types = λ r. ground arith;
    timers = λ t. ground arith;
  }

pub mutex_lock-IsFrame : (e : Engine) (tid res : ℕ) → IsFrame e (mutex_lock e tid res).0
unfolding mutex_lock trace_log
mutex_lock-IsFrame e tid res = record {
  scenario = ground (arith, attempt.scenario);
  recorded = ground (arith, attempt.recorded);
  types = λ r. ground (arith, attempt.types r);
  timers = λ t. ground (arith, attempt.timers t);
}
  where
    e' : Engine
    e' = log e EventType.mutex_lock_attempt (pos tid) (pos res) (pos 0)

    attempt : IsFrame e' (mutex_try e' tid res (e.resources res).owner).0
    attempt = mutex_try-IsFrame e' tid res (e.resources res).owner
