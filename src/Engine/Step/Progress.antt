-- ===== src/Engine/Step/Progress.antt =====
-- A step of `smash_execute_step` of src/engine.c in a plain scenario makes progress: of the steps that are
-- left and the states of the threads, a sum falls, unless the step fails.
pub mod Operations
use mathlib.Core.Path.{subst}
use chibios_smash.Base.{
  ℕ, zero, suc, ℤ, pos, to_nat, ltb_ℤ, ◌+◌, ◌-◌, ◌*◌, ◌≤◌, ◌<◌, ◌≡◌, ◌≢◌, refl, ap, ◌∙◌, sym, Bool,
  true, false, not, inl, inr, Bool-cases, ltb, ◌==◌, is_negative, if◌then◌else◌, arith, ℕ_discrete,
}
use chibios_smash.Types.{
  ThreadState, Thread, Action, ActionType, EventType, Scenario, Engine, failed, is_ready,
  no_resource,
}
use chibios_smash.Trace.{log}
use chibios_smash.Model.Queue.{thread_count}
use chibios_smash.Model.Mutex.{mutex_lock, mutex_unlock}
use chibios_smash.Model.Semaphore.{sem_wait, sem_signal}
use chibios_smash.Engine.Handlers.{
  bump_pc, bump_if, do_yield, do_finish, do_sys_lock, do_sys_unlock, do_isr_enter, do_isr_exit,
  do_object_init, do_object_destroy, do_call, do_return,
}
use chibios_smash.Engine.Init.{
  bad_resource, scenario_validate, reset_thread, engine_reset, zero_engine, engine_init,
}
use chibios_smash.Engine.Init.Start.{engine_init-valid, engine_reset-thread}
use chibios_smash.Engine.Step.Scenario.{execute_step-scenario}
use chibios_smash.Engine.Step.{
  on_resource, count_step, dispatch, perform, step_thread, execute_step,
}
use chibios_smash.Engine.Step.Plain.{need, Fits, IsPlain, IsRunning, tick_all-idle}
use chibios_smash.Engine.Step.Progress.Operations.{
  rank, IsWait, IsWake, mutex_lock-IsWait, sem_wait-IsWait, mutex_unlock-IsWake, sem_signal-IsWake,
}

total : ℕ → (ℕ → ℕ) → ℕ
total zero f = 0
total (suc n) f = total n f + f n

-- What the thread has left: three for each step, and its rank.
abbrev pub left : Scenario → ℕ → Thread → ℕ
left sc u t = 3 * (to_nat (sc.step_count u) - t.pc) + rank t.state

unfoldable pub remaining : Engine → ℕ
unfolding total
remaining e = total (thread_count e) (λ u. left e.scenario u (e.threads u))

-- One thread pays for what another one gains, and for one more.
record IsPaid (f g : ℕ → ℕ) (tid : ℕ) : Type 0 where
  woken : ℕ
  gain : ℕ
  own : f tid + gain + 1 ≤ g tid
  others : (u : ℕ) → u ≢ tid → f u ≤ g u + (if u == woken then gain else 0)

total-IsPaid :
    (n : ℕ) (f g : ℕ → ℕ) (tid : ℕ) (paid : IsPaid f g tid)
    → total n f + (if ltb tid n then paid.gain + 1 else 0)
      ≤ total n g + (if ltb paid.woken n then paid.gain else 0)
unfolding total
total-IsPaid zero f g tid paid = ground arith
total-IsPaid (suc n) f g tid paid =
    let before = total-IsPaid n f g tid paid in
    elim (ℕ_discrete n tid) [
      | yes here ↦
          let own : f n + paid.gain + 1 ≤ g n = rw here paid.own in ground (arith, before, own)
      | no there ↦ ground (arith, before, paid.others n there)
    ]

total-less : (n : ℕ) (f g : ℕ → ℕ) (tid : ℕ) → tid < n → IsPaid f g tid → total n f < total n g
total-less n f g tid lt paid = ground (arith, total-IsPaid n f g tid paid)

module _ (e : Engine) (tid : ℕ) (ready : is_ready (e.threads tid).state ≡ true)
    (more : (e.threads tid).pc < to_nat (e.scenario.step_count tid)) where
  -- The result of a handler that fails, or has made progress.
  record IsAdvance (r : Engine × Bool) : Type 0 where
    paid :
        failed r.0 ≡ false
        → IsPaid (λ u. left e.scenario u (r.0.threads u)) (λ u. left e.scenario u (e.threads u)) tid

  wait-IsAdvance : (r : Engine × Bool) → IsWait e tid r → IsAdvance (bump_if r tid)
  wait-IsAdvance (e1, true) w = record {
    paid = λ fine. record {
      woken = 0;
      gain = 0;
      own = ground (arith, w.pc tid, w.granted refl, more);
      others = λ u other. ground (arith, w.pc u, w.others u other, other);
    };
  }
  wait-IsAdvance (e1, false) w = record {
    paid = λ fine. record {
      woken = 0;
      gain = 0;
      own = ground (arith, w.pc tid, w.blocked refl fine, ready);
      others = λ u other. ground (arith, w.pc u, w.others u other);
    };
  }

  wake-IsAdvance : (e1 : Engine) → IsWake e e1 → IsAdvance (bump_pc e1 tid, true)
  wake-IsAdvance e1 w = record {
    paid = λ fine. record {
      woken = w.woken;
      gain = 2;
      own = elim (ℕ_discrete tid w.woken) [
        | yes here ↦
            let pc : (e.threads tid).pc ≤ (e1.threads tid).pc = rw here w.woken_pc in
            ground (arith, ready, more, pc)
        | no there ↦ ground (arith, ready, more, w.pc tid there, w.state tid there)
      ];
      others = λ u other. elim (ℕ_discrete u w.woken) [
        | yes here ↦
            let pc : (e.threads u).pc ≤ (e1.threads u).pc = rw here w.woken_pc in
            ground (arith, other, here, pc)
        | no there ↦ ground (arith, other, w.pc u there, w.state u there)
      ];
    };
  }

  -- A handler that moves the calling thread only.
  local_step :
      (r : Engine × Bool)
      → (failed r.0 ≡ false
          → left e.scenario tid (r.0.threads tid) + 1 ≤ left e.scenario tid (e.threads tid))
      → (failed r.0 ≡ false → (u : ℕ) → u ≢ tid → r.0.threads u ≡ e.threads u)
      → IsAdvance r
  local_step r own others = record {
    paid = λ fine. record {
      woken = 0;
      gain = 0;
      own = let less = own fine in omega (arith, less);
      others = λ u other. ground (arith, others fine u other);
    };
  }

  on_resource-IsAdvance :
      (rid : ℤ) (op : ℕ → Engine × Bool)
      → ((r : ℕ) → IsAdvance (op r))
      → IsAdvance (on_resource e tid rid op)
  on_resource-IsAdvance rid op h = elim (Bool-cases (is_negative rid)) [
    | inl negative ↦ rw negative (record { paid = λ fine. cc })
    | inr proper ↦ rw proper (h (to_nat rid))
  ]

  context-IsAdvance :
      IsAdvance (do_yield e tid)
      × IsAdvance (do_finish e tid)
      × IsAdvance (do_sys_lock e tid)
      × IsAdvance (do_sys_unlock e tid)
      × IsAdvance (do_isr_enter e tid)
      × IsAdvance (do_isr_exit e tid)
  unfolding do_yield do_finish do_sys_lock do_sys_unlock do_isr_enter do_isr_exit
  context-IsAdvance = (
    local_step (do_yield e tid) (λ fine. ground (arith, fine, more))
        (λ fine u other. ground (arith, fine, other)),
    record {
      paid = λ fine. record {
        woken = 0;
        gain = 0;
        own = ground (arith, ready);
        others = λ u other. ground (arith, other);
      };
    },
    local_step (do_sys_lock e tid) (λ fine. ground (arith, fine, more))
        (λ fine u other. ground (arith, fine, other)),
    local_step (do_sys_unlock e tid) (λ fine. ground (arith, fine, more))
        (λ fine u other. ground (arith, fine, other)),
    local_step (do_isr_enter e tid) (λ fine. ground (arith, fine, more))
        (λ fine u other. ground (arith, fine, other)),
    local_step (do_isr_exit e tid) (λ fine. ground (arith, fine, more))
        (λ fine u other. ground (arith, fine, other)),
  )

  object-IsAdvance :
      (res : ℕ) → IsAdvance (do_object_init e tid res) × IsAdvance (do_object_destroy e tid res)
  unfolding do_object_init do_object_destroy
  object-IsAdvance res = (
    local_step (do_object_init e tid res) (λ fine. ground (arith, fine, more))
        (λ fine u other. ground (arith, fine, other)),
    local_step (do_object_destroy e tid res) (λ fine. ground (arith, fine, more))
        (λ fine u other. ground (arith, fine, other)),
  )

  call-IsAdvance : (arg : ℤ) → IsAdvance (do_call e tid arg) × IsAdvance (do_return e tid arg)
  unfolding do_call do_return
  call-IsAdvance arg = (
    local_step (do_call e tid arg) (λ fine. ground (arith, fine, more))
        (λ fine u other. ground (arith, fine, other)),
    local_step (do_return e tid arg) (λ fine. ground (arith, fine, more))
        (λ fine u other. ground (arith, fine, other)),
  )

  dispatch-IsAdvance :
      (a : Action) (ty : ActionType) → Fits e.scenario a (need ty) → IsAdvance (dispatch e tid a ty)
  unfolding dispatch
  dispatch-IsAdvance a ActionType.nop fits =
      local_step (bump_pc e tid, true) (λ fine. ground (arith, fine, more))
        (λ fine u other. ground (arith, fine, other))
  dispatch-IsAdvance a ActionType.mutex_lock fits =
      on_resource-IsAdvance a.resource_id (λ r. bump_if (mutex_lock e tid r) tid)
        (λ r. wait-IsAdvance (mutex_lock e tid r) (mutex_lock-IsWait e tid r))
  dispatch-IsAdvance a ActionType.mutex_unlock fits =
      on_resource-IsAdvance a.resource_id (λ r. (bump_pc (mutex_unlock e tid r) tid, true))
        (λ r. wake-IsAdvance (mutex_unlock e tid r) (mutex_unlock-IsWake e tid r))
  dispatch-IsAdvance a ActionType.sem_wait fits =
      on_resource-IsAdvance a.resource_id (λ r. bump_if (sem_wait e tid r) tid)
        (λ r. wait-IsAdvance (sem_wait e tid r) (sem_wait-IsWait e tid r))
  dispatch-IsAdvance a ActionType.sem_signal fits =
      on_resource-IsAdvance a.resource_id (λ r. (bump_pc (sem_signal e tid r) tid, true))
        (λ r. wake-IsAdvance (sem_signal e tid r) (sem_signal-IsWake e tid r))
  dispatch-IsAdvance a ActionType.yield fits = context-IsAdvance.0
  dispatch-IsAdvance a ActionType.finish fits = context-IsAdvance.1
  dispatch-IsAdvance a ActionType.sys_lock fits = context-IsAdvance.2
  dispatch-IsAdvance a ActionType.sys_unlock fits = context-IsAdvance.3
  dispatch-IsAdvance a ActionType.isr_enter fits = context-IsAdvance.4
  dispatch-IsAdvance a ActionType.isr_exit fits = context-IsAdvance.5
  dispatch-IsAdvance a ActionType.object_init fits =
      on_resource-IsAdvance a.resource_id _ (λ r. (object-IsAdvance r).0)
  dispatch-IsAdvance a ActionType.object_destroy fits =
      on_resource-IsAdvance a.resource_id _ (λ r. (object-IsAdvance r).1)
  dispatch-IsAdvance a ActionType.call fits = (call-IsAdvance a.arg).0
  dispatch-IsAdvance a ActionType.return fits = (call-IsAdvance a.arg).1
  dispatch-IsAdvance a _ fits = absurd fits

  count_step-IsAdvance : (r : Engine × Bool) → IsAdvance r → IsAdvance (count_step r)
  count_step-IsAdvance (e1, true) h = record { paid = h.paid }
  count_step-IsAdvance (e1, false) h = record { paid = h.paid }

module _ (e : Engine) (tid : ℕ) (plain : IsPlain e.scenario) (lt : tid < thread_count e) where
  step_thread-IsPaid :
      is_ready (e.threads tid).state ≡ true
      → failed (step_thread e tid).0 ≡ false
      → IsPaid
          (λ u. left e.scenario u ((step_thread e tid).0.threads u))
          (λ u. left e.scenario u (e.threads u))
          tid
  unfolding step_thread perform
  step_thread-IsPaid ready fine =
      elim (Bool-cases (ltb_ℤ (pos (e.threads tid).pc) (e.scenario.step_count tid))) [
        | inr ended ↦
            rw (ready, ended)
              (record {
                woken = 0;
                gain = 0;
                own = ground (arith, ready);
                others = λ u other. ground (arith, other);
              })
        | inl more ↦ elim (Bool-cases (bad_resource e.scenario a.resource_id)) [
          | inl bad ↦ cc (rw (ready, more, bad) at fine)
          | inr good ↦
              rw (ready, more, good)
                ((count_step-IsAdvance scheduled tid ready (ground (arith, more))
                    (dispatch scheduled tid a a.type)
                    (dispatch-IsAdvance scheduled tid ready (ground (arith, more)) a a.type
                      (plain tid (e.threads tid).pc lt more))).paid
                  (rw (ready, more, good) at fine))
        ]
      ]
    where
      scheduled : Engine
      scheduled = log e EventType.schedule (pos tid) no_resource (e.threads tid).priority

      a : Action
      a = e.scenario.steps tid (e.threads tid).pc

  -- A step of a ready thread in a plain scenario that does not fail leaves less to do.
  pub execute_step-remaining :
      IsRunning e
      → is_ready (e.threads tid).state ≡ true
      → failed (execute_step e tid).0 ≡ false
      → remaining (execute_step e tid).0 < remaining e
  unfolding remaining execute_step
  execute_step-remaining run ready fine =
      let idle = tick_all-idle e run.no_timer in
      let e1 = (step_thread e tid).0 in
      let fine' : failed e1 ≡ false = rw idle at fine in
      let less =
        total-less (thread_count e) (λ u. left e.scenario u (e1.threads u))
          (λ u. left e.scenario u (e.threads u)) tid lt (step_thread-IsPaid ready fine') in
      let scenario : e1.scenario ≡ e.scenario =
        ap (λ x. (step_thread x tid).0.scenario) (sym idle) ∙ execute_step-scenario e tid in
      let same =
        ap (λ sc. total (to_nat sc.thread_count) (λ u. left sc u (e1.threads u))) scenario in
      subst (λ x. remaining (step_thread x tid).0 < remaining e) (sym idle)
        (subst (λ k. k < remaining e) (sym same) less)

-- The most steps that a run can take: three for each step of a thread, and two for each thread.
unfoldable pub most_steps : Scenario → ℕ
unfolding total
most_steps sc = total (to_nat sc.thread_count) (λ u. 3 * to_nat (sc.step_count u) + 2)

total-same : (n : ℕ) (f g : ℕ → ℕ) → ((u : ℕ) → u < n → f u ≡ g u) → total n f ≡ total n g
unfolding total
total-same zero f g same = refl
total-same (suc n) f g same =
    rw (total-same n f g (λ u lt. same u (omega arith)), same n (omega arith)) refl

pub remaining-engine_init :
    (sc : Scenario) → scenario_validate sc ≡ true → remaining (engine_init sc) ≡ most_steps sc
unfolding remaining most_steps reset_thread zero_engine engine_reset
remaining-engine_init sc valid =
    let e0 = engine_reset (zero_engine sc) in
    ap remaining (engine_init-valid sc valid)
    ∙ total-same (to_nat sc.thread_count) (λ u. left sc u (e0.threads u))
        (λ u. 3 * to_nat (sc.step_count u) + 2)
        (λ u lt. ground (arith, engine_reset-thread (zero_engine sc) u, lt))
