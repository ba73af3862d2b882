-- ===== src/Model/Mailbox.antt =====
-- `smash_mb_post`, `smash_mb_post_front` and `smash_mb_fetch` of src/chibios_model.c.
pub mod Window
pub mod Buffer
pub mod Queue
use chibios_smash.Base.{
  ℕ, ◌+◌, ◌-◌, ◌%◌, ℤ, pos, to_nat, ltb_ℤ, Bool, true, false, not, none, some, Option, ltb, ◌==◌,
  if◌then◌else◌, update,
}
use chibios_smash.Types.{is_mailbox, ThreadState, Resource, EventType, Failure, Engine}
use chibios_smash.Trace.{log, fail}
use chibios_smash.Model.Queue.{
  set_thread, set_resource, waiter_remove, waiter_add, resumed, is_full,
}

-- `mb_count >= mb_capacity`; the capacity is any `int` of the scenario.
abbrev pub mb_is_full : Resource → Bool
mb_is_full mb = not (ltb_ℤ (pos mb.mb_count) mb.mb_capacity)

-- The messages part of a post. The entries are those of `mb_messages` for a capacity of at most
-- `max_waiters`, its size, which the code does not ask for. The post runs only where `mb_count < mb_capacity`, so the capacity is
-- positive there.
unfoldable pub mb_put : Resource → ℤ → Resource
mb_put mb msg = record mb {
  mb_messages = update mb.mb_messages mb.mb_tail msg;
  mb_tail = (mb.mb_tail + 1) % to_nat mb.mb_capacity;
  mb_count = mb.mb_count + 1;
}

-- `(mb_head - 1 + capacity) % capacity`, with the capacity added first, since `-` stops at 0.
unfoldable pub mb_put_front : Resource → ℤ → Resource
mb_put_front mb msg =
    let head = (mb.mb_head + to_nat mb.mb_capacity - 1) % to_nat mb.mb_capacity in
    record mb {
      mb_head = head;
      mb_messages = update mb.mb_messages head msg;
      mb_count = mb.mb_count + 1;
    }

unfoldable pub mb_take : Resource → ℤ × Resource
mb_take mb = (
  mb.mb_messages mb.mb_head,
  record mb { mb_head = (mb.mb_head + 1) % to_nat mb.mb_capacity; mb_count = mb.mb_count - 1 },
)

-- Queue up, or fail where the queue is full. The event carries `arg`.
unfoldable pub mb_block : Engine → ℕ → ℕ → ℤ → Engine
mb_block e tid mb arg =
    if is_full (e.resources mb)
    then fail e (Failure.queue_overflow mb)
    else let e1 = set_resource e mb (waiter_add (e.resources mb) tid) in
      let e2 =
        set_thread e1 tid
          (record (e1.threads tid) { state = ThreadState.blocked_sem; blocked_on = some mb }) in
      log e2 EventType.sem_wait_blocked (pos tid) (pos mb) arg

unfoldable pub mb_post : Engine → ℕ → ℕ → ℤ → Engine × Bool
mb_post e tid mb msg =
    if not (is_mailbox (e.resources mb).type)
    then (fail e (Failure.wrong_type tid mb), false)
    else if mb_is_full (e.resources mb)
    then (mb_block e tid mb msg, false)
    else (
      log (set_resource e mb (mb_put (e.resources mb) msg)) EventType.sem_signal (pos tid) (pos mb)
          msg,
      true,
    )

unfoldable pub mb_post_front : Engine → ℕ → ℕ → ℤ → Engine × Bool
mb_post_front e tid mb msg =
    if not (is_mailbox (e.resources mb).type)
    then (fail e (Failure.wrong_type tid mb), false)
    else if mb_is_full (e.resources mb)
    then (mb_block e tid mb msg, false)
    else (
      log (set_resource e mb (mb_put_front (e.resources mb) msg)) EventType.sem_signal (pos tid)
          (pos mb) msg,
      true,
    )

-- "Wake blocked sender if any": the first of the queue, with its `pc` unchanged.
unfoldable pub mb_wake : Engine → ℕ → Engine
mb_wake e mb =
    let woken = (e.resources mb).waiters 0 in
    let e1 = set_resource e mb (waiter_remove (e.resources mb) 0) in
    let e2 = set_thread e1 woken (resumed (e1.threads woken)) in
    if ltb 0 (e.resources mb).waiter_count
    then log e2 EventType.sem_wakeup (pos woken) (pos mb) (pos 0)
    else e

-- The message goes through `out_msg`; `none` where the call returns false.
unfoldable pub mb_fetch : Engine → ℕ → ℕ → Engine × Option ℤ
mb_fetch e tid mb =
    if not (is_mailbox (e.resources mb).type)
    then (fail e (Failure.wrong_type tid mb), none)
    else if (e.resources mb).mb_count == 0
    then (mb_block e tid mb (pos 0), none)
    else let (msg, taken) = mb_take (e.resources mb) in
      let e1 = mb_wake (set_resource e mb taken) mb in
      (log e1 EventType.sem_wakeup (pos tid) (pos mb) msg, some msg)
