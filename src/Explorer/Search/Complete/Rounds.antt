-- ===== src/Explorer/Search/Complete/Rounds.antt =====
-- The loop over the runnable threads of src/explorer.c in a search without pruning: if it leaves the
-- search open, it has followed the step of each thread.
use mathlib.Core.Path.{subst}
use chibios_smash.Base.{
  ℕ, ◌≡◌, refl, sym, ap, ◌∙◌, inl, inr, Bool, true, none, if◌then◌else◌, Bool-cases, arith, List,
  [], ◌∷◌, contains, ℕ_discrete,
}
use chibios_smash.Types.{Engine, failed}
use chibios_smash.Engine.Step.Scenario.{execute_step-scenario}
use chibios_smash.Dpor.{Mask, sleep_add}
use chibios_smash.Spec.Checks.{check_all}
use chibios_smash.Explorer.Search.{
  Config, Search, report_violation, record_bounded, backtrack, explore_thread, explore_choice,
  explore_threads,
}
use chibios_smash.Explorer.Search.Sound.{record_bounded-scenario}
use chibios_smash.Explorer.Search.Reach.{
  stepped, IsView, failed-IsView, check_all-IsView, stepped-IsView, restore_engine-IsView,
  not_failed,
}
use chibios_smash.Explorer.Search.Complete.Safe.{
  IsOpen, IsThorough, IsFollowed, report_violation-closed,
}

module _ (cfg : Config) where
  module _ (below : Search → Search)
      (opened_before : (s : Search) → IsOpen cfg (below s).result → IsOpen cfg s.result)
      (depth : ℕ) where
    pub explore_thread-IsOpen :
        (runnable : List ℕ) (tid : ℕ) (s : Search)
        → IsOpen cfg (explore_thread below cfg depth runnable tid s).0.result
        → IsOpen cfg s.result
    unfolding explore_thread report_violation backtrack
    explore_thread-IsOpen runnable tid s opened =
        let e1 = stepped s.engine tid in
        let s1 : Search = record s {
          engine = e1;
          dpor = if cfg.enable_dpor then sleep_add s.dpor depth tid else s.dpor;
        } in
        elim (Bool-cases (failed e1)) [
          | inl failing ↦ report_violation-closed s.engine s1 (rw failing at opened)
          | inr ok ↦ elim (Bool-cases (check_all e1)) [
            | inr refuted ↦ report_violation-closed s.engine s1 (rw (ok, refuted) at opened)
            | inl passes ↦ opened_before s1 (rw (ok, passes) at opened)
          ]
        ]

    pub explore_threads-IsOpen :
        (runnable : List ℕ) (set : Mask) (tids : List ℕ) (s : Search)
        → ((t : ℕ) → contains tids t ≡ true → set t ≡ true)
        → IsOpen cfg (explore_threads below cfg depth runnable set tids s).result
        → IsOpen cfg s.result
    unfolding explore_threads explore_choice contains
    explore_threads-IsOpen runnable set [] s all opened = opened
    explore_threads-IsOpen runnable set (tid ∷ tids) s all opened =
        let chosen = all tid (ground arith) in
        let first = explore_thread below cfg depth runnable tid s in
        elim (Bool-cases first.1) [
          | inr stop ↦ explore_thread-IsOpen runnable tid s (rw (chosen, stop) at opened)
          | inl go_on ↦ explore_thread-IsOpen runnable tid s (
              explore_threads-IsOpen runnable set tids first.0
                (λ t t_in. all t (ground (arith, t_in))) (rw (chosen, go_on) at opened))
        ]

  module _ (below : Search → Search) (k : ℕ) (call : IsThorough cfg k below) (depth : ℕ)
      (e : Engine) (fine : e.fail_msg ≡ none) where
    -- A round that leaves the search open has followed its step, and goes on from the same state.
    record IsRoundOf (tid : ℕ) (s : Search) (r : Search × Bool) : Type 0 where
      was_open : IsOpen cfg s.result
      followed : IsFollowed k e tid
      going : r.1 ≡ true
      view : IsView e r.0.engine

    explore_thread-IsRoundOf :
        (runnable : List ℕ) (tid : ℕ) (s : Search)
        → IsView e s.engine
        → IsOpen cfg (explore_thread below cfg depth runnable tid s).0.result
        → IsRoundOf tid s (explore_thread below cfg depth runnable tid s)
    unfolding explore_thread report_violation backtrack
    explore_thread-IsRoundOf runnable tid s view opened =
        let e1 = stepped s.engine tid in
        let view1 = stepped-IsView e s.engine view tid in
        let s1 : Search = record s {
          engine = e1;
          dpor = if cfg.enable_dpor then sleep_add s.dpor depth tid else s.dpor;
        } in
        let same = ap (λ (x : Engine). x.scenario) view.same in
        let scenario =
          execute_step-scenario (record_bounded s.engine tid) tid
          ∙ (record_bounded-scenario s.engine tid ∙ same) in
        elim (Bool-cases (failed e1)) [
          | inl failing ↦ report_violation-closed s.engine s1 (rw failing at opened)
          | inr ok ↦ elim (Bool-cases (check_all e1)) [
            | inr refuted ↦ report_violation-closed s.engine s1 (rw (ok, refuted) at opened)
            | inl passes ↦
                let open1 : IsOpen cfg (below s1).result = rw (ok, passes) at opened in
                let ok' = sym (failed-IsView _ _ view1) ∙ ok in
                let passes' = sym (check_all-IsView _ _ view1) ∙ passes in
                rw (ok, passes)
                  (record {
                    was_open = call.opened s1 open1;
                    followed = (
                      ok',
                      (
                        passes',
                        call.thorough (stepped e tid) s1 (not_failed (stepped e tid) ok') view1
                            open1,
                      ),
                    );
                    going = rw open1.untraced refl;
                    view =
                        restore_engine-IsView e s.engine view (below s1).engine fine
                          (call.keeps s1 ∙ scenario);
                  })
          ]
        ]

    -- The loop, if it leaves the search open, has followed the step of each thread of the list.
    pub explore_threads-IsFollowed :
        (runnable : List ℕ) (set : Mask) (tids : List ℕ) (s : Search)
        → ((t : ℕ) → contains tids t ≡ true → set t ≡ true)
        → IsView e s.engine
        → IsOpen cfg (explore_threads below cfg depth runnable set tids s).result
        → (t : ℕ) → contains tids t ≡ true
        → IsFollowed k e t
    unfolding explore_threads explore_choice contains
    explore_threads-IsFollowed runnable set [] s all view opened t t_in = cc
    explore_threads-IsFollowed runnable set (tid ∷ tids) s all view opened t t_in =
        let chosen = all tid (ground arith) in
        let first = explore_thread below cfg depth runnable tid s in
        let all' = λ (u : ℕ) (u_in : contains tids u ≡ true). all u (ground (arith, u_in)) in
        elim (Bool-cases first.1) [
          | inr stop ↦
              let round =
                explore_thread-IsRoundOf runnable tid s view (rw (chosen, stop) at opened) in
              absurd (ground (arith, round.going, stop))
          | inl go_on ↦
              let after : IsOpen cfg
                  (explore_threads below cfg depth runnable set tids first.0).result =
                rw (chosen, go_on) at opened in
              let round = explore_thread-IsRoundOf runnable tid s view (
                explore_threads-IsOpen below call.opened depth runnable set tids first.0 all'
                  after) in
              elim (ℕ_discrete tid t) [
                | yes here ↦ subst (IsFollowed k e) here round.followed
                | no later ↦
                    explore_threads-IsFollowed runnable set tids first.0 all' round.view after t
                      (ground (arith, t_in, later))
              ]
        ]
