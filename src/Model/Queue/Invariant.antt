-- ===== src/Model/Queue/Invariant.antt =====
-- The wait queues of all resources, as the array prefixes of src/chibios_model.c: no thread waits
-- twice, and every waiter is blocked on the resource in whose queue it stands.
use chibios_smash.Base.{refl, true, ℕ, ◌+◌, ◌-◌, ◌≤◌, ◌<◌, ◌≡◌, ◌≢◌, false, some, update, arith}
use chibios_smash.Types.{
  is_mutex, is_semaphore, max_waiters, Thread, ThreadState, ResourceType, Resource,
}
use chibios_smash.Model.Queue.{waiter_add, waiter_remove, is_full}

-- The state of a thread in the queue of a resource of a type.
abbrev pub wait_state : ResourceType → ThreadState
wait_state ResourceType.mutex = ThreadState.blocked_mutex
wait_state ResourceType.condvar = ThreadState.blocked_mutex
wait_state ResourceType.semaphore = ThreadState.blocked_sem
wait_state ResourceType.mailbox = ThreadState.blocked_sem

wait_state-ne-ready : (k : ResourceType) → wait_state k ≢ ThreadState.ready
wait_state-ne-ready ResourceType.mutex e = cc
wait_state-ne-ready _ e = cc

pub wait_state-mutex :
    (k : ResourceType) → is_mutex k ≡ true → wait_state k ≡ ThreadState.blocked_mutex
wait_state-mutex ResourceType.mutex h = refl
wait_state-mutex _ h = cc

pub wait_state-semaphore :
    (k : ResourceType) → is_semaphore k ≡ true → wait_state k ≡ ThreadState.blocked_sem
wait_state-semaphore ResourceType.semaphore h = refl
wait_state-semaphore _ h = cc

module _ (n count : ℕ) where
  pub record Queues (threads : ℕ → Thread) (rs : ℕ → Resource) : Type 0 where
    pub member : (r w : ℕ) → r < count → w < (rs r).waiter_count → (rs r).waiters w < n
    pub distinct :
        (r w v : ℕ)
        → r < count
        → w < (rs r).waiter_count
        → v < (rs r).waiter_count
        → (rs r).waiters w ≡ (rs r).waiters v
        → w ≡ v
    pub waiting :
        (r w : ℕ)
        → r < count
        → w < (rs r).waiter_count
        → ((threads ((rs r).waiters w)).state ≡ wait_state (rs r).type)
          × ((threads ((rs r).waiters w)).blocked_on ≡ some r)
    pub room : (r : ℕ) → r < count → (rs r).waiter_count ≤ max_waiters

  module _ {threads : ℕ → Thread} {rs : ℕ → Resource} (q : Queues threads rs) where
    open q use {member, distinct, waiting, room}

    -- A ready thread stands in no queue.
    pub ready-not_waiting :
        (tid r w : ℕ)
        → (threads tid).state ≡ ThreadState.ready
        → r < count
        → w < (rs r).waiter_count
        → (rs r).waiters w ≢ tid
    ready-not_waiting tid r w runs lt wlt e =
        ground (arith, waiting r w, wait_state-ne-ready (rs r).type)

    -- A change of threads that leaves states and `blocked_on` alone.
    pub Queues-threads :
        (th : ℕ → Thread)
        → ((j : ℕ)
            → ((th j).state ≡ (threads j).state) × ((th j).blocked_on ≡ (threads j).blocked_on))
        → Queues th rs
    Queues-threads th same = record {
      member = member;
      distinct = distinct;
      waiting = λ r w lt wlt. ground (arith, waiting r w, same ((rs r).waiters w));
      room = room;
    }

    module _ (res : ℕ) (r' : Resource) (type : r'.type ≡ (rs res).type) where
      -- A change of a resource that leaves its queue alone.
      pub Queues-resource :
          r'.waiter_count ≡ (rs res).waiter_count
          → ((w : ℕ) → r'.waiters w ≡ (rs res).waiters w)
          → Queues threads (update rs res r')
      Queues-resource len same = record {
        member = λ r w lt wlt. ground (arith, member r w, same w);
        distinct = λ r w v lt wlt vlt e. ground (arith, distinct r w v, same w, same v);
        waiting = λ r w lt wlt. ground (arith, waiting r w, same w);
        room = λ r lt. ground (arith, room r);
      }

      -- A ready thread joins the queue, and is blocked on the resource.
      pub Queues-add :
          (tid : ℕ) (t : Thread)
          → tid < n
          → (threads tid).state ≡ ThreadState.ready
          → is_full (rs res) ≡ false
          → t.state ≡ wait_state (rs res).type
          → t.blocked_on ≡ some res
          → r'.waiter_count ≡ (rs res).waiter_count + 1
          → ((w : ℕ) → r'.waiters w ≡ (waiter_add (rs res) tid).waiters w)
          → Queues (update threads tid t) (update rs res r')
      unfolding waiter_add
      Queues-add tid t lt runs free st on len same = record {
        member = λ r w rlt wlt. ground (arith, member r w, same w);
        distinct = λ r w v rlt wlt vlt e. ground (
          arith,
          distinct r w v,
          same w,
          same v,
          ready-not_waiting tid r w,
          ready-not_waiting tid r v,
        );
        waiting = λ r w rlt wlt. ground (arith, waiting r w, same w, ready-not_waiting tid r w);
        room = λ r rlt. ground (arith, room r);
      }

      -- A waiter leaves the queue, and may then be any thread.
      pub Queues-remove :
          (idx : ℕ) (t : Thread)
          → res < count
          → idx < (rs res).waiter_count
          → r'.waiter_count ≡ (rs res).waiter_count - 1
          → ((w : ℕ) → r'.waiters w ≡ (waiter_remove (rs res) idx).waiters w)
          → Queues (update threads ((rs res).waiters idx) t) (update rs res r')
      unfolding waiter_remove
      Queues-remove idx t lt ilt len same = record {
        member = λ r w rlt wlt. ground (arith, member r w, same w, member r (r'.waiter_count));
        distinct = λ r w v rlt wlt vlt e. ground (
          arith,
          distinct r w v,
          same w,
          same v,
          distinct r w (r'.waiter_count),
          distinct r v (r'.waiter_count),
        );
        waiting = λ r w rlt wlt. ground (
          arith,
          waiting r w,
          same w,
          waiting res idx,
          distinct res w idx,
          waiting r r'.waiter_count,
          distinct res r'.waiter_count idx,
        );
        room = λ r rlt. ground (arith, room r);
      }
