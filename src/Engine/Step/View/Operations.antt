-- ===== src/Engine/Step/View/Operations.antt =====
-- The operations of src/chibios_model.c and the handlers of src/engine.c commute with a change of the
-- bookkeeping of a search: the greatest depth and the table of visited hashes.
use chibios_smash.Base.{
  ℕ, zero, suc, ℤ, pos, ◌≡◌, refl, Bool, true, false, Option, none, some, Option-cases, arith, inl,
  inr,
}
use chibios_smash.Types.{EventType, Thread, Engine}
use chibios_smash.Trace.{log}
use chibios_smash.Model.Queue.{
  recalc_priority, recalc_round, max_waiter_priority, set_thread, owned_pop,
}
use chibios_smash.Model.Mutex.{
  mutex_acquire, mutex_block, mutex_try, mutex_lock, mutex_hand_over, mutex_release, mutex_unlock,
}
use chibios_smash.Model.Semaphore.{
  sem_block, sem_take, sem_wait, sem_wake, sem_signal_rest, sem_signal,
}
use chibios_smash.Model.Condvar.{
  cond_block, cond_wait, cond_wake, cond_signal, cond_wake_all, cond_broadcast,
}
use chibios_smash.Model.Mailbox.{mb_block, mb_post, mb_post_front, mb_wake, mb_fetch}
use chibios_smash.Engine.Handlers.{
  bump_if, do_mutex_timed_lock, do_sem_timed_wait, do_finish, do_sys_unlock, do_isr_enter,
  do_isr_exit, do_object_init, do_object_destroy, do_call,
}

pub record Books : Type 0 where
  pub depth : ℕ
  pub table : ℕ → ℕ
  pub count : ℕ

abbrev pub with_books : Books → Engine → Engine
with_books b e = record e {
  max_depth_reached = b.depth;
  state_ht = b.table;
  state_hash_count = b.count;
}

abbrev pub with_books_of {ℓ} : {A : Type ℓ} → Books → Engine × A → Engine × A
with_books_of b (e, a) = (with_books b e, a)

module _ (b : Books) (e : Engine) (tid res : ℕ) where
  pub mutex_try-with_books :
      (owner : Option ℕ)
      → mutex_try (with_books b e) tid res owner ≡ with_books_of b (mutex_try e tid res owner)
  unfolding mutex_try mutex_acquire mutex_block
  mutex_try-with_books none = refl
  mutex_try-with_books (some owner) = ground arith

  pub sem_wait-with_books : sem_wait (with_books b e) tid res ≡ with_books_of b (sem_wait e tid res)
  unfolding sem_wait sem_take sem_block
  sem_wait-with_books = ground arith

  pub sem_signal-with_books :
      sem_signal (with_books b e) tid res ≡ with_books b (sem_signal e tid res)
  unfolding sem_signal sem_signal_rest sem_wake
  sem_signal-with_books = ground arith

  pub recalc_priority-with_books :
      recalc_priority (with_books b e) tid res ≡ recalc_priority e tid res
  unfolding recalc_priority recalc_round max_waiter_priority
  recalc_priority-with_books = refl

  pub cond_signal-with_books :
      cond_signal (with_books b e) tid res ≡ with_books b (cond_signal e tid res)
  unfolding cond_signal cond_wake
  cond_signal-with_books = ground arith

  pub cond_wait-with_books :
      cond_wait (with_books b e) tid res ≡ with_books_of b (cond_wait e tid res)
  unfolding cond_wait cond_block
  cond_wait-with_books = ground arith

  pub mb_post-with_books :
      (msg : ℤ) → mb_post (with_books b e) tid res msg ≡ with_books_of b (mb_post e tid res msg)
  unfolding mb_post mb_block
  mb_post-with_books msg = ground arith

  pub mb_post_front-with_books :
      (msg : ℤ)
      → mb_post_front (with_books b e) tid res msg ≡ with_books_of b (mb_post_front e tid res msg)
  unfolding mb_post_front mb_block
  mb_post_front-with_books msg = ground arith

  pub mb_fetch-with_books : mb_fetch (with_books b e) tid res ≡ with_books_of b (mb_fetch e tid res)
  unfolding mb_fetch mb_block mb_wake
  mb_fetch-with_books = ground arith

  pub lifecycle-with_books :
      (do_object_init (with_books b e) tid res ≡ with_books_of b (do_object_init e tid res))
      × (do_object_destroy (with_books b e) tid res ≡ with_books_of b (do_object_destroy e tid res))
  unfolding do_object_init do_object_destroy
  lifecycle-with_books = (refl, ground arith)

pub mutex_release-with_books :
    (b : Books) (e : Engine) (tid res : ℕ) (t : Thread)
    → mutex_release (with_books b e) tid res t ≡ with_books b (mutex_release e tid res t)
unfolding mutex_release mutex_hand_over
mutex_release-with_books b e tid res t =
    let e2 = log (set_thread e tid t) EventType.mutex_unlock (pos tid) (pos res) (pos 0) in
    rw (recalc_priority-with_books b e2 tid res) (ground arith)

pub mutex_unlock-with_books :
    (b : Books) (e : Engine) (tid res : ℕ)
    → mutex_unlock (with_books b e) tid res ≡ with_books b (mutex_unlock e tid res)
unfolding mutex_unlock
mutex_unlock-with_books b e tid res = elim (Option-cases (owned_pop (e.threads tid) res)) [
  | inl empty ↦ rw empty (ground arith)
  | inr (t, top) ↦ rw top (ground (arith, mutex_release-with_books b e tid res t))
]

pub mutex_lock-with_books :
    (b : Books) (e : Engine) (tid res : ℕ)
    → mutex_lock (with_books b e) tid res ≡ with_books_of b (mutex_lock e tid res)
unfolding mutex_lock
mutex_lock-with_books b e tid res = ground (
  arith,
  mutex_try-with_books b (log e EventType.mutex_lock_attempt (pos tid) (pos res) (pos 0)) tid res
      (e.resources res).owner,
)

pub cond_wake_all-with_books :
    (b : Books) (fuel : ℕ) (e : Engine) (cond : ℕ)
    → cond_wake_all fuel (with_books b e) cond ≡ with_books b (cond_wake_all fuel e cond)
unfolding cond_wake_all cond_wake
cond_wake_all-with_books b zero e cond = refl
cond_wake_all-with_books b (suc fuel) e cond =
    ground (arith, cond_wake_all-with_books b fuel (cond_wake e cond 0) cond)

pub cond_broadcast-with_books :
    (b : Books) (e : Engine) (tid res : ℕ)
    → cond_broadcast (with_books b e) tid res ≡ with_books b (cond_broadcast e tid res)
unfolding cond_broadcast
cond_broadcast-with_books b e tid res =
    ground (arith, cond_wake_all-with_books b (e.resources res).waiter_count e res)

pub bump_if-with_books :
    (b : Books) (r : Engine × Bool) (tid : ℕ)
    → bump_if (with_books_of b r) tid ≡ with_books_of b (bump_if r tid)
bump_if-with_books b (e, true) tid = refl
bump_if-with_books b (e, false) tid = refl

pub timed-with_books :
    (b : Books) (e : Engine) (tid res : ℕ) (arg : ℤ)
    → (do_mutex_timed_lock (with_books b e) tid res arg
        ≡ with_books_of b (do_mutex_timed_lock e tid res arg))
      × (do_sem_timed_wait (with_books b e) tid res arg
          ≡ with_books_of b (do_sem_timed_wait e tid res arg))
unfolding do_mutex_timed_lock do_sem_timed_wait
timed-with_books b e tid res arg = (
  rw (mutex_lock-with_books b e tid res) (ground arith),
  rw (sem_wait-with_books b e tid res) (ground arith),
)

pub contexts-with_books :
    (b : Books) (e : Engine) (tid : ℕ)
    → (do_sys_unlock (with_books b e) tid ≡ with_books_of b (do_sys_unlock e tid))
      × (do_isr_enter (with_books b e) tid ≡ with_books_of b (do_isr_enter e tid))
      × (do_isr_exit (with_books b e) tid ≡ with_books_of b (do_isr_exit e tid))
      × (do_finish (with_books b e) tid ≡ with_books_of b (do_finish e tid))
      × ((arg : ℤ) → do_call (with_books b e) tid arg ≡ with_books_of b (do_call e tid arg))
unfolding do_sys_unlock do_isr_enter do_isr_exit do_finish do_call
contexts-with_books b e tid =
    (ground arith, ground arith, ground arith, ground arith, λ arg. ground arith)
