-- ===== src/Dpor/Backtrack.antt =====
-- The backtrack points of src/dpor.c.
use chibios_smash.Base.{
  ℕ, ◌+◌, ◌-◌, ◌<◌, ◌≤◌, ◌≡◌, ◌≢◌, refl, sym, ap, pos, ltb_ℤ, true, false, ◌||◌, inl, inr,
  if◌then◌else◌, Bool-cases, arith, ltb, ◌==◌, for_up, for_up_inv, update,
}
use chibios_smash.Types.{max_backtrack, Engine, is_blocked_mutex, is_blocked_sem}
use chibios_smash.Model.Queue.{thread_count}
use chibios_smash.Dpor.{Dpor, dependent, analyze_thread, dpor_analyze}

-- A backtrack point of the history `d` in the state `e` after it: entry `i` is of another thread than
-- `t`, which is not blocked on a mutex or a semaphore in the state and has an action left there, and that
-- action depends on the one of the entry. Whether `t` could have run at the entry is not asked: the
-- source keeps no runnable threads of a step.
pub record IsAlternative (d : Dpor) (e : Engine) (i t : ℕ) : Type 0 where
  pub recorded : i < d.history_len
  pub in_range : t < thread_count e
  pub other : t ≢ d.history_tid i
  pub not_blocked :
      (is_blocked_mutex (e.threads t).state || is_blocked_sem (e.threads t).state) ≡ false
  pub has_action : ltb_ℤ (pos (e.threads t).pc) (e.scenario.step_count t) ≡ true
  pub conflicts :
      dependent
        (d.history_type i)
        (d.history_resource i)
        (e.scenario.steps t (e.threads t).pc).type
        (e.scenario.steps t (e.threads t).pc).resource_id
      ≡ true

-- What the analysis keeps, from a history without points.
pub record IsAnalysis (d : Dpor) (e : Engine) (d' : Dpor) : Type 0 where
  pub history_len : d'.history_len ≡ d.history_len
  pub history_tid : d'.history_tid ≡ d.history_tid
  pub history_resource : d'.history_resource ≡ d.history_resource
  pub history_type : d'.history_type ≡ d.history_type
  pub bounded : d'.backtrack_count ≤ max_backtrack
  pub points :
      (j : ℕ)
      → j < d'.backtrack_count
      → IsAlternative d e (d'.backtrack_depth j) (d'.backtrack_tid j)

-- The push of `analyze_thread`.
abbrev pub pushed : Dpor → ℕ → ℕ → Dpor
pushed d i t = record d {
  backtrack_depth = update d.backtrack_depth d.backtrack_count i;
  backtrack_tid = update d.backtrack_tid d.backtrack_count t;
  backtrack_count = d.backtrack_count + 1;
}

push-IsAnalysis :
    (d : Dpor) (e : Engine) (i t : ℕ) (d' : Dpor)
    → IsAnalysis d e d'
    → IsAlternative d e i t
    → IsAnalysis d e (if ltb d'.backtrack_count max_backtrack then pushed d' i t else d')
push-IsAnalysis d e i t d' h alternative =
    elim (Bool-cases (ltb d'.backtrack_count max_backtrack)) [
      | inr full ↦ rw full h
      | inl room ↦ rw room (record {
        history_len = h.history_len;
        history_tid = h.history_tid;
        history_resource = h.history_resource;
        history_type = h.history_type;
        bounded = ground arith;
        points = λ j lt. elim (Bool-cases (d'.backtrack_count == j)) [
          | inl last ↦ rw last alternative
          | inr before ↦ rw before (h.points j (ground arith))
        ];
      })
    ]

pub analyze_thread-IsAnalysis :
    (d : Dpor) (e : Engine) (i t : ℕ) (d' : Dpor)
    → i < d.history_len
    → t < thread_count e
    → IsAnalysis d e d'
    → IsAnalysis d e (analyze_thread e i t d')
unfolding analyze_thread
analyze_thread-IsAnalysis d e i t d' i_in t_in h =
    let th = e.threads t in
    let alt = e.scenario.steps t th.pc in
    elim (Bool-cases (t == d'.history_tid i)) [
      | inl same ↦ rw same h
      | inr other ↦ elim (Bool-cases (is_blocked_mutex th.state || is_blocked_sem th.state)) [
        | inl blocked ↦ rw (other, blocked) h
        | inr free ↦ elim (Bool-cases (ltb_ℤ (pos th.pc) (e.scenario.step_count t))) [
          | inr at_end ↦ rw (other, free, at_end) h
          | inl has_action ↦
              elim (Bool-cases
                (dependent (d'.history_type i) (d'.history_resource i) alt.type alt.resource_id)) [
                  | inr independent ↦ rw (other, free, has_action, independent) h
                  | inl conflicts ↦
                      rw (other, free, has_action, conflicts)
                        (push-IsAnalysis d e i t d' h (record {
                          recorded = i_in;
                          in_range = t_in;
                          other = λ eq. ground (arith, ap (λ f. f i) h.history_tid);
                          not_blocked = free;
                          has_action = has_action;
                          conflicts =
                              rw
                                (
                                  sym (ap (λ f. f i) h.history_type),
                                  sym (ap (λ f. f i) h.history_resource),
                                )
                                conflicts;
                        }))
                ]
        ]
      ]
    ]

pub fresh-IsAnalysis : (d : Dpor) (e : Engine) → d.backtrack_count ≡ 0 → IsAnalysis d e d
fresh-IsAnalysis d e fresh = record {
  history_len = refl;
  history_tid = refl;
  history_resource = refl;
  history_type = refl;
  bounded = omega arith;
  points = λ j lt. let none_yet : ⊥ = omega arith in elim none_yet [ ];
}

-- For a history without backtrack points, the analysis leaves at most `max_backtrack`, and each names a
-- recorded step and another thread that, in the state of the analysis, is not blocked on a mutex or a
-- semaphore, is not at its end, and whose next action depends on that step. The history stays as it is.
pub dpor_analyze-IsAnalysis :
    (d : Dpor) (e : Engine) → d.backtrack_count ≡ 0 → IsAnalysis d e (dpor_analyze d e)
unfolding dpor_analyze
dpor_analyze-IsAnalysis d e fresh =
    for_up_inv (λ _. IsAnalysis d e)
      (λ k d'. for_up (thread_count e) (analyze_thread e (d.history_len - 1 - k)) d') d
      d.history_len (fresh-IsAnalysis d e fresh)
      (λ k d' lt h.
        for_up_inv (λ _. IsAnalysis d e) (analyze_thread e (d.history_len - 1 - k)) d'
          (thread_count e) h
          (λ t d'' t_in h'.
            analyze_thread-IsAnalysis d e (d.history_len - 1 - k) t d'' (omega arith) t_in h'))
