-- ===== src/Engine/Step/Progress/Operations.antt =====
-- How far the operations on mutexes and semaphores of src/chibios_model.c move the threads: a wait keeps
-- every position and blocks at most the calling thread, and a release wakes at most one.
use chibios_smash.Base.{
  Bool-cases, is_id, ℕ, pos, ◌≤◌, ◌≡◌, ◌≢◌, refl, ap, Bool, true, false, Option, none, some,
  Option-cases, inl, inr, update, arith, if◌then◌else◌,
}
use chibios_smash.Types.{ThreadState, is_ready, is_done, EventType, Engine, Thread, failed}
use chibios_smash.Trace.{log}
use chibios_smash.Model.Queue.{
  resource_count, owned_push, owned_pop, waiter_add, waiter_remove, set_thread, best_waiter,
  recalc_priority,
}
use chibios_smash.Model.Mutex.{
  boost_fuel, mutex_acquire, mutex_block, mutex_try, mutex_lock, mutex_hand_over, mutex_release,
  mutex_unlock,
}
use chibios_smash.Model.Mutex.Boost.{boost_chain-frame}
use chibios_smash.Model.Semaphore.{
  sem_block, sem_take, sem_wait, sem_wake, sem_signal_rest, sem_signal,
}

-- 2 for a thread that is ready, 1 for one that is blocked, 0 for one that is done.
abbrev pub rank : ThreadState → ℕ
rank s = if is_done s then 0 else if is_ready s then 2 else 1

pub record IsWait (e : Engine) (tid : ℕ) (r : Engine × Bool) : Type 0 where
  pub pc : (u : ℕ) → (r.0.threads u).pc ≡ (e.threads u).pc
  pub others : (u : ℕ) → u ≢ tid → (r.0.threads u).state ≡ (e.threads u).state
  pub granted : r.1 ≡ true → (r.0.threads tid).state ≡ (e.threads tid).state
  pub blocked : r.1 ≡ false → failed r.0 ≡ false → rank (r.0.threads tid).state ≡ 1

pub record IsWake (e e' : Engine) : Type 0 where
  pub woken : ℕ
  pub pc : (u : ℕ) → u ≢ woken → (e'.threads u).pc ≡ (e.threads u).pc
  pub state : (u : ℕ) → u ≢ woken → (e'.threads u).state ≡ (e.threads u).state
  pub woken_pc : (e.threads woken).pc ≤ (e'.threads woken).pc

module _ (e : Engine) (tid res : ℕ) where
  mutex_block-IsWait : (owner : ℕ) → IsWait e tid (mutex_block e tid res owner, false)
  unfolding mutex_block waiter_add
  mutex_block-IsWait owner =
      let blocked =
        update e.threads tid
          (record (e.threads tid) { state = ThreadState.blocked_mutex; blocked_on = some res }) in
      let frame =
        boost_chain-frame (update e.resources res (waiter_add (e.resources res) tid))
          (resource_count e) (e.threads tid).priority boost_fuel (some owner) blocked in
      record {
        pc = λ u. ground (arith, frame u);
        others = λ u other. ground (arith, frame u, other);
        granted = λ h. cc;
        blocked = λ h fine. ground (arith, frame tid);
      }

  mutex_try-IsWait : (owner : Option ℕ) → IsWait e tid (mutex_try e tid res owner)
  unfolding mutex_try mutex_acquire owned_push
  mutex_try-IsWait none = record {
    pc = λ u. ground arith;
    others = λ u other. ground arith;
    granted = λ h. ground arith;
    blocked = λ h. cc;
  }
  mutex_try-IsWait (some owner) =
      let block = mutex_block-IsWait owner in
      record {
        pc = λ u. ground (arith, block.pc u);
        others = λ u other. ground (arith, block.others u other);
        granted = λ h. ground (arith, h);
        blocked = λ h fine. ground (arith, fine, block.blocked);
      }

  pub sem_wait-IsWait : IsWait e tid (sem_wait e tid res)
  unfolding sem_wait sem_take sem_block waiter_add
  sem_wait-IsWait = record {
    pc = λ u. ground arith;
    others = λ u other. ground (arith, other);
    granted = λ h. ground (arith, h);
    blocked = λ h fine. ground (arith, h, fine);
  }

pub mutex_lock-IsWait : (e : Engine) (tid res : ℕ) → IsWait e tid (mutex_lock e tid res)
unfolding mutex_lock
mutex_lock-IsWait e tid res =
    let e1 = log e EventType.mutex_lock_attempt (pos tid) (pos res) (pos 0) in
    let attempt = mutex_try-IsWait e1 tid res (e.resources res).owner in
    record {
      pc = λ u. ground (arith, attempt.pc u);
      others = λ u other. ground (arith, attempt.others u other);
      granted = λ h. ground (arith, h, attempt.granted);
      blocked = λ h fine. ground (arith, h, fine, attempt.blocked);
    }

module _ (e : Engine) (tid res : ℕ) where
  pub sem_signal-IsWake : IsWake e (sem_signal e tid res)
  unfolding sem_signal sem_wake sem_signal_rest waiter_remove
  sem_signal-IsWake = record {
    woken = (e.resources res).waiters (best_waiter e.threads (e.resources res));
    pc = λ u other. ground (arith, other);
    state = λ u other. ground (arith, other);
    woken_pc = ground arith;
  }

  mutex_hand_over-IsWake : IsWake e (mutex_hand_over e res)
  unfolding mutex_hand_over owned_push waiter_remove
  mutex_hand_over-IsWake = record {
    woken = (e.resources res).waiters (best_waiter e.threads (e.resources res));
    pc = λ u other. ground (arith, other);
    state = λ u other. ground (arith, other);
    woken_pc = ground arith;
  }

  unmoved-IsWake : (e' : Engine) → e'.threads ≡ e.threads → IsWake e e'
  unmoved-IsWake e' same = record {
    woken = 0;
    pc = λ u other. ap (λ th. (th u).pc) same;
    state = λ u other. ap (λ th. (th u).state) same;
    woken_pc = let pc = ap (λ th. (th 0).pc) same in omega (arith, pc);
  }

  mutex_release-IsWake :
      (t : Thread)
      → t.pc ≡ (e.threads tid).pc
      → t.state ≡ (e.threads tid).state
      → IsWake e (mutex_release e tid res t)
  unfolding mutex_release mutex_hand_over owned_push waiter_remove
  mutex_release-IsWake t same_pc same_state =
      let e2 = log (set_thread e tid t) EventType.mutex_unlock (pos tid) (pos res) (pos 0) in
      let e3 = set_thread e2 tid (record t { priority = recalc_priority e2 tid res }) in
      record {
        woken = (e.resources res).waiters (best_waiter e3.threads (e.resources res));
        pc = λ u other. ground (arith, other, same_pc);
        state = λ u other. ground (arith, other, same_state);
        woken_pc = ground (arith, same_pc);
      }

  pub mutex_unlock-IsWake : IsWake e (mutex_unlock e tid res)
  unfolding mutex_unlock owned_pop
  mutex_unlock-IsWake = elim (Bool-cases ((e.resources res).alive)) [
    | inr dead ↦ rw dead (unmoved-IsWake _ refl)
    | inl alive ↦ elim (Bool-cases (is_id (e.resources res).owner tid)) [
      | inr other ↦ rw (alive, other) (unmoved-IsWake _ refl)
      | inl owner ↦ elim (Option-cases (owned_pop (e.threads tid) res)) [
        | inl empty ↦ rw (alive, owner, empty) (unmoved-IsWake _ refl)
        | inr (t, top) ↦
            rw (alive, owner, top)
              (mutex_release-IsWake t (ground (arith, top)) (ground (arith, top)))
      ]
    ]
  ]
