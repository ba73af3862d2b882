-- ===== src/Smt/Meaning.antt =====
-- What the export of src/smt.c says: its assertions hold of the positions of the steps exactly if
-- these are a schedule.
use mathlib.Core.Path.{subst}
use chibios_smash.Base.{
  ℕ, zero, suc, ◌+◌, ◌-◌, ◌<◌, ◌≡◌, ◌≢◌, ◌↔◌, refl, sym, ap, ◌∙◌, inl, inr, ℤ, pos, negsuc,
  pos_part, ltb_ℤ→lt, ltb_ℤ→le, lt→ltb_ℤ, ◌<ℤ◌, ◌≤ℤ◌, is_negative, is_positive, true, false, ◌&&◌,
  List, [], ◌∷◌, ◌++◌, Bool-cases, all_in, all_in-append, concat_below-all_in, arith, ℕ_discrete,
  dec_lt,
}
use chibios_smash.Types.{Scenario}
use chibios_smash.Smt.{
  Name, Command, declare_const, distinct, check_sat, get_model, assert, atom, at_least, number,
  step, value, formula_holds, atom_holds, allows, all_differ,
}
use chibios_smash.Smt.Export.{
  threads_of, steps_of, at_step, is_wait, each_step, program_order, exclusion, wait_commands,
  signal_order, assert_all, smt_export, signals, after_signal,
}
use chibios_smash.Smt.Sections.{
  IsSection, Apart, Apart-swap, each_step-all_in, exclusion_sound, exclusion_complete,
}
use chibios_smash.Smt.Signals.{
  IsSmall, IsSignalled, allows-assert_all, signals-few, after_signal-IsSignalled,
}
use chibios_smash.Smt.Distinct.{IsInjective, all_differ_iff}

-- Every wait names a semaphore.
unfoldable pub HasWaitIds : Scenario → Type 0
HasWaitIds sc =
    (t s : ℕ)
    → t < threads_of sc
    → s < steps_of sc t
    → is_wait (sc.steps t s).type ≡ true
    → is_negative (sc.steps t s).resource_id ≡ false

module _ (sc : Scenario) (v : Name → ℤ) where
  -- The positions of the steps of all threads are a schedule: not negative, in program order, no two
  -- the same, with critical sections of one mutex apart, and with a signal before each wait on an empty
  -- semaphore that is signalled at all.
  pub record IsSchedule : Type 0 where
    pub starts : (t s : ℕ) → t < threads_of sc → s < steps_of sc t → pos 0 ≤ℤ v (step t s)
    pub in_order :
        (t s s' : ℕ)
        → t < threads_of sc
        → s < s'
        → s' < steps_of sc t
        → v (step t s) <ℤ v (step t s')
    pub injective : IsInjective v sc
    pub exclusive :
        (m : ℤ) (t1 s1 u1 t2 s2 u2 : ℕ)
        → t1 ≢ t2
        → t1 < threads_of sc
        → t2 < threads_of sc
        → IsSection sc m t1 s1 u1
        → IsSection sc m t2 s2 u2
        → Apart v t1 s1 u1 t2 s2 u2
    pub signalled_first :
        (t s r : ℕ)
        → t < threads_of sc
        → s < steps_of sc t
        → is_wait (sc.steps t s).type ≡ true
        → (sc.steps t s).resource_id ≡ pos r
        → is_positive (sc.sem_init r) ≡ false
        → IsSignalled sc v (pos r) (at_step t s)

  -- Consecutive steps in order put all steps of a thread in order.
  in_order-chain :
      (t : ℕ)
      → ((s : ℕ) → suc s < steps_of sc t → v (step t s) <ℤ v (step t (suc s)))
      → (s s' : ℕ) → s < s'
      → s' < steps_of sc t
      → v (step t s) <ℤ v (step t s')
  in_order-chain t next s zero lt in_s' = absurd (omega arith)
  in_order-chain t next s (suc s') lt in_s' = elim (ℕ_discrete s s') [
    | yes here ↦
        let e : suc s ≡ suc s' = omega arith in
        subst (λ x. v (step t s) <ℤ v (step t x)) e (next s (omega arith))
    | no further ↦
        omega (arith, in_order-chain t next s s' (omega arith) (omega arith), next s' in_s')
  ]

  program_order_iff : (all_in (allows v) (program_order sc) ≡ true) ↔ (
      (t s s' : ℕ)
      → t < threads_of sc
      → s < s'
      → s' < steps_of sc t
      → v (step t s) <ℤ v (step t s'))
  unfolding program_order all_in allows formula_holds atom_holds value
  program_order_iff = (
    λ h t s s' lt.
        in_order-chain t
          (λ s slt.
            let row = (concat_below-all_in (allows v) (threads_of sc) _).0 h t lt in
            let entry =
              (concat_below-all_in (allows v) (steps_of sc t - 1) _).0 row s (omega arith) in
            let e : s + 1 ≡ suc s = omega arith in
            subst (λ x. v (step t s) <ℤ v (step t x)) e
              (ltb_ℤ→lt (v (step t s)) (v (step t (s + 1))) (ground arith)))
          s s',
    λ h. (concat_below-all_in (allows v) (threads_of sc) _).1 (λ t lt.
        (concat_below-all_in (allows v) (steps_of sc t - 1) _).1 (λ s slt.
          rw
            (lt→ltb_ℤ (v (step t s)) (v (step t (s + 1)))
              (h t s (s + 1) lt (omega arith) (omega arith)))
            refl)),
  )

  starts_iff :
      (all_in
          (allows v)
          (each_step sc (λ t s. assert (atom (at_least (at_step t s) (number (pos 0)))) ∷ []))
        ≡ true)
      ↔ ((t s : ℕ) → t < threads_of sc → s < steps_of sc t → pos 0 ≤ℤ v (step t s))
  unfolding all_in allows formula_holds atom_holds value
  starts_iff = (
    λ h t s lt slt.
        ltb_ℤ→le (v (step t s)) (pos 0)
          (let entry = (each_step-all_in sc v (allows v) _).0 h t s lt slt in ground arith),
    λ h.
        (each_step-all_in sc v (allows v) _).1
          (λ t s lt slt. let le = h t s lt slt in ground arith),
  )

  exclusion_iff : (all_in (allows v) (assert_all (exclusion sc)) ≡ true) ↔ (
      (m : ℤ) (t1 s1 u1 t2 s2 u2 : ℕ)
      → t1 ≢ t2
      → t1 < threads_of sc
      → t2 < threads_of sc
      → IsSection sc m t1 s1 u1
      → IsSection sc m t2 s2 u2
      → Apart v t1 s1 u1 t2 s2 u2)
  exclusion_iff = (
    λ h m t1 s1 u1 t2 s2 u2 apart in1 in2 c d.
        let f = sym (allows-assert_all v (exclusion sc)) ∙ h in
        elim (dec_lt t1 t2) [
          | yes lower ↦ exclusion_sound sc v f m t1 s1 u1 t2 s2 u2 lower in2 c d
          | no higher ↦
              Apart-swap v t2 s2 u2 t1 s1 u1
                (exclusion_sound sc v f m t2 s2 u2 t1 s1 u1 (omega arith) in1 d c)
        ],
    λ h.
        allows-assert_all v (exclusion sc)
        ∙ exclusion_complete sc v (λ m t1 s1 u1 t2 s2 u2 lt in2 c d.
          h m t1 s1 u1 t2 s2 u2 (omega arith) (omega arith) in2 c d),
  )

  wait_commands_iff :
      IsSmall sc
      → (t s : ℕ) (z : ℤ) → is_negative z ≡ false
      → (all_in (allows v) (wait_commands sc t s z) ≡ true) ↔ (
          (r : ℕ)
          → z ≡ pos r
          → is_positive (sc.sem_init r) ≡ false
          → IsSignalled sc v (pos r) (at_step t s))
  unfolding wait_commands all_in
  wait_commands_iff small t s (negsuc n) known = cc
  wait_commands_iff small t s (pos r) known =
      let meaning = after_signal-IsSignalled sc v (pos r) (at_step t s) in
      let asserted = allows-assert_all v (after_signal (at_step t s) (signals sc (pos r))) in
      elim (Bool-cases (is_positive (sc.sem_init r))) [
        | inl full ↦
            rw full ((λ h r' same empty. let e : r ≡ r' = ap pos_part same in cc), λ h. refl)
        | inr empty ↦
            rw (empty, signals-few sc small (pos r))
              (
                (λ h r' same _.
                    subst (λ x. IsSignalled sc v x (at_step t s)) same
                      (meaning.0 (sym asserted ∙ h))),
                (λ h. asserted ∙ meaning.1 (h r refl empty)),
              )
      ]

  signal_order_iff :
      IsSmall sc
      → HasWaitIds sc
      → (all_in (allows v) (signal_order sc) ≡ true) ↔ (
          (t s r : ℕ)
          → t < threads_of sc
          → s < steps_of sc t
          → is_wait (sc.steps t s).type ≡ true
          → (sc.steps t s).resource_id ≡ pos r
          → is_positive (sc.sem_init r) ≡ false
          → IsSignalled sc v (pos r) (at_step t s))
  unfolding signal_order all_in HasWaitIds
  signal_order_iff small ids = (
    λ h t s r lt slt waits on empty.
        let entry = (each_step-all_in sc v (allows v) _).0 h t s lt slt in
        (wait_commands_iff small t s (sc.steps t s).resource_id (ids t s lt slt waits)).0
          (rw waits at entry) r on empty,
    λ h. (each_step-all_in sc v (allows v) _).1 (λ t s lt slt.
        elim (Bool-cases (is_wait (sc.steps t s).type)) [
          | inr other ↦ rw other refl
          | inl waits ↦ rw waits (
              (wait_commands_iff small t s (sc.steps t s).resource_id (ids t s lt slt waits)).1
                (λ r on empty. h t s r lt slt waits on empty))
        ]),
  )

  abbrev declarations : List Command
  declarations = each_step sc (λ t s. declare_const (step t s) ∷ [])

  abbrev not_negative : List Command
  not_negative = each_step sc (λ t s. assert (atom (at_least (at_step t s) (number (pos 0)))) ∷ [])

  declarations-allowed : all_in (allows v) declarations ≡ true
  unfolding all_in allows
  declarations-allowed = (each_step-all_in sc v (allows v) _).1 (λ t s lt slt. refl)

  -- The parts of the export.
  smt_export-parts : all_in (allows v) (smt_export sc) ≡ (
      all_in (allows v) not_negative
      && (all_in (allows v) (program_order sc)
          && (all_differ v (each_step sc (λ t s. at_step t s ∷ []))
              && (all_in (allows v) (assert_all (exclusion sc))
                  && all_in (allows v) (signal_order sc)))))
  unfolding smt_export all_in allows formula_holds
  smt_export-parts =
      let last = check_sat ∷ get_model ∷ [] in
      let sixth = signal_order sc ++ last in
      let fifth = assert_all (exclusion sc) ++ sixth in
      let fourth = (assert (distinct (each_step sc (λ t s. at_step t s ∷ []))) ∷ []) ++ fifth in
      let third = program_order sc ++ fourth in
      let a = all_in-append (allows v) declarations (not_negative ++ third) in
      let b = all_in-append (allows v) not_negative third in
      let c = all_in-append (allows v) (program_order sc) fourth in
      let d = all_in-append (allows v) (assert_all (exclusion sc)) sixth in
      let e = all_in-append (allows v) (signal_order sc) last in
      let f = declarations-allowed in ground (arith, a, b, c, d, e, f)

  -- With room for its signals, and a semaphore for each wait: the exported assertions hold of the
  -- positions exactly if these are a schedule.
  pub smt_export_iff :
      IsSmall sc → HasWaitIds sc → (all_in (allows v) (smt_export sc) ≡ true) ↔ IsSchedule
  smt_export_iff small ids =
      let parts = smt_export-parts in
      (
        λ h. record {
          starts = starts_iff.0 (ground (arith, parts, h));
          in_order = program_order_iff.0 (ground (arith, parts, h));
          injective = (all_differ_iff v sc).0 (ground (arith, parts, h));
          exclusive = exclusion_iff.0 (ground (arith, parts, h));
          signalled_first = (signal_order_iff small ids).0 (ground (arith, parts, h));
        },
        λ s.
            let a = starts_iff.1 s.starts in
            let b = program_order_iff.1 s.in_order in
            let c = (all_differ_iff v sc).1 s.injective in
            let d = exclusion_iff.1 s.exclusive in
            let e = (signal_order_iff small ids).1 s.signalled_first in
            ground (arith, parts, a, b, c, d, e),
      )
