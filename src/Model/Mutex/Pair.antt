-- ===== src/Model/Mutex/Pair.antt =====
-- A lock and an unlock of the same mutex by one thread, in src/chibios_model.c.
use chibios_smash.Base.{
  ℕ, ◌+◌, ◌-◌, ◌<◌, ◌≡◌, refl, ◌∙◌, ap, true, false, none, some, ltb, ◌==◌, arith, is_id, pos,
  update,
}
use chibios_smash.Types.{max_resources, is_thread_ctx, EventType, Thread, Resource, Engine}
use chibios_smash.Trace.{log}
use chibios_smash.Model.Queue.{owned_push, owned_pop}
use chibios_smash.Model.Mutex.{mutex_acquire, mutex_try, mutex_lock, mutex_release, mutex_unlock}

-- A free mutex without waiters that the thread may lock.
pub record IsFree (e : Engine) (tid res : ℕ) : Type 0 where
  pub alive : (e.resources res).alive ≡ true
  pub context : is_thread_ctx (e.threads tid).exec_ctx ≡ true
  pub owner : (e.resources res).owner ≡ none
  pub waiters : (e.resources res).waiter_count ≡ 0
  pub room : (e.threads tid).owned_mutex_count < max_resources

module _ (e : Engine) (tid res : ℕ) (free : IsFree e tid res) where
  abbrev attempt : Engine
  attempt = log e EventType.mutex_lock_attempt (pos tid) (pos res) (pos 0)

  lock_free : mutex_lock e tid res ≡ (mutex_acquire attempt tid res, true)
  unfolding mutex_lock mutex_try
  lock_free = rw (free.alive, free.context, free.owner) refl

  abbrev owning : Engine
  owning = mutex_acquire attempt tid res

  owning-resource : owning.resources res ≡ record (e.resources res) { owner = some tid }
  unfolding mutex_acquire
  owning-resource = ground arith

  owning-thread : owning.threads tid ≡ owned_push (e.threads tid) res
  unfolding mutex_acquire
  owning-thread = ground arith

  popped :
      owned_pop (owned_push (e.threads tid) res) res
      ≡ some (record (owned_push (e.threads tid) res) {
        owned_mutex_count = (e.threads tid).owned_mutex_count;
      })
  unfolding owned_pop owned_push
  popped =
      let c = (e.threads tid).owned_mutex_count in
      let room : ltb c max_resources ≡ true = ground (arith, free.room) in
      let filled : ((c + 1) == 0) ≡ false = ground arith in
      let back : c + 1 - 1 ≡ c = omega arith in
      let top : (update (e.threads tid).owned_mutex_stack c res c == res) ≡ true = ground arith in
      rw (room, filled, back, top) refl

  unlock_owning :
      mutex_unlock owning tid res
      ≡ mutex_release owning tid res (record (owned_push (e.threads tid) res) {
        owned_mutex_count = (e.threads tid).owned_mutex_count;
      })
  unfolding mutex_unlock
  unlock_owning =
      let itself : (tid == tid) ≡ true = ground arith in
      let alive : (owning.resources res).alive ≡ true =
        ap (λ (r : Resource). r.alive) owning-resource ∙ free.alive in
      let owned : is_id (owning.resources res).owner tid ≡ true =
        ap (λ (r : Resource). is_id r.owner tid) owning-resource ∙ itself in
      rw (alive, owned, owning-thread, popped) refl

  owning-fail_msg : owning.fail_msg ≡ e.fail_msg
  unfolding mutex_acquire
  owning-fail_msg = refl

  release_end :
      (t : Thread)
      → let after = mutex_release owning tid res t in
        (after.fail_msg ≡ e.fail_msg)
        × (((after.resources res).owner ≡ none)
            × ((after.threads tid).owned_mutex_count ≡ t.owned_mutex_count))
  unfolding mutex_release
  release_end t =
      let no_waiter : ltb 0 (owning.resources res).waiter_count ≡ false =
        ap (λ (r : Resource). ltb 0 r.waiter_count) owning-resource
        ∙ ground (arith, free.waiters) in
      rw no_waiter (owning-fail_msg, (ground arith, ground arith))

  -- For a mutex that is alive, has no owner and no waiters, and a thread in the thread context with room
  -- on its stack of owned mutexes: locking the mutex and unlocking it again succeeds, frees the mutex and
  -- leaves the number of mutexes that the thread owns.
  pub mutex_unlock-mutex_lock :
      let (locked, ok) = mutex_lock e tid res in
      let after = mutex_unlock locked tid res in
      (ok ≡ true)
      × ((after.fail_msg ≡ e.fail_msg)
          × (((after.resources res).owner ≡ none)
              × ((after.threads tid).owned_mutex_count ≡ (e.threads tid).owned_mutex_count)))
  mutex_unlock-mutex_lock = rw (lock_free, unlock_owning) (refl, release_end _)
