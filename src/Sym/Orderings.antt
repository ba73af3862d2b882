-- ===== src/Sym/Orderings.antt =====
-- What the constraints of src/sym_engine.c say of the positions of the steps.
use mathlib.Core.Path.{subst}
use chibios_smash.Sym.{sym_max_signals}
use chibios_smash.Base.{
  ◌≤◌, false, ltb, count_of, ℕ, ◌-◌, ◌<◌, ◌≡◌, ◌↔◌, refl, sym, ap, ◌∙◌, inl, inr, ℤ, pos, negsuc,
  pos_part, to_nat, is_negative, is_positive, true, false, ◌&&◌, some, List, [], ◌∷◌, ◌++◌,
  Bool-cases, all_in, all_in-append, concat_below-all_in, arith,
}
use chibios_smash.Types.{is_mutex, Scenario}
use chibios_smash.Smt.{
  Name, Term, Atom, Command, step, prog_order, prog_order_next, value, formula_holds, any_holds,
  atom_holds, allows,
}
use chibios_smash.Smt.Export.{
  threads_of, steps_of, at_step, is_lock, is_wait, matching_unlock, signals, before, after_signal,
}
use chibios_smash.Smt.Sections.{
  IsSection, Apart, each_step-all_in, exclusive_with_sound, exclusive_with_complete,
}
use chibios_smash.Smt.Signals.{IsSignalled, allows-assert_all, after_signal-IsSignalled}
use chibios_smash.Smt.Meaning.{HasWaitIds}
use chibios_smash.Sym.Encode.{
  mk_or, sym_program_order, mutex_exclusion, sym_exclusion, some_before, sym_signalled,
  sym_signal_order,
}

-- Some lock of the thread at step `s`, of any mutex, and the first unlock of the mutex after it.
pub record IsSpan (sc : Scenario) (m : ℤ) (t s u : ℕ) : Type 0 where
  pub lock_in : s < steps_of sc t
  pub locks : is_lock (sc.steps t s).type ≡ true
  pub unlock : matching_unlock sc m t s ≡ some u

module _ (sc : Scenario) where
  unfoldable pub constraints : List Command
  constraints = (sym_program_order sc ++ sym_exclusion sc) ++ sym_signal_order sc

  -- The positions keep each span of a thread apart from the sections of the higher threads, and put a
  -- signal before each wait on an empty semaphore that is signalled at all.
  pub record IsOrdering (v : Name → ℤ) : Type 0 where
    pub exclusive :
        (m t1 s1 u1 t2 s2 u2 : ℕ)
        → m < to_nat sc.resource_count
        → is_mutex (sc.res_types m) ≡ true
        → t1 < t2
        → t2 < threads_of sc
        → IsSpan sc (pos m) t1 s1 u1
        → IsSection sc (pos m) t2 s2 u2
        → Apart v t1 s1 u1 t2 s2 u2
    pub signalled_first :
        (t s r : ℕ)
        → t < threads_of sc
        → s < steps_of sc t
        → is_wait (sc.steps t s).type ≡ true
        → (sc.steps t s).resource_id ≡ pos r
        → is_positive (sc.sem_init r) ≡ false
        → IsSignalled sc v (pos r) (at_step t s)

  -- The positions, with other values for the constants of the program order.
  with_order : (Name → ℤ) → Name → ℤ
  with_order v (step t s) = v (step t s)
  with_order v (prog_order t s) = pos 0
  with_order v (prog_order_next t s) = pos 1

  sym_program_order-with_order :
      (v : Name → ℤ) → all_in (allows (with_order v)) (sym_program_order sc) ≡ true
  unfolding sym_program_order all_in allows formula_holds atom_holds value with_order
  sym_program_order-with_order v =
      (concat_below-all_in (allows (with_order v)) (threads_of sc) _).1 (λ t lt.
        (concat_below-all_in (allows (with_order v)) (steps_of sc t - 1) _).1 (λ s slt. refl))

  IsOrdering-with_order : (v : Name → ℤ) → IsOrdering v → IsOrdering (with_order v)
  unfolding with_order Apart IsSignalled value
  IsOrdering-with_order v o = record {
    exclusive = o.exclusive;
    signalled_first = o.signalled_first;
  }

-- `signals` has room for the signals of each semaphore.
unfoldable pub HasRoom : Scenario → Type 0
HasRoom sc = (r : ℕ) → count_of (signals sc (pos r)) ≤ sym_max_signals

module _ (sc : Scenario) (v : Name → ℤ) where
  formula_holds-mk_or : (l : List Atom) → formula_holds v (mk_or l) ≡ any_holds v l
  unfolding formula_holds mk_or any_holds
  formula_holds-mk_or [] = refl
  formula_holds-mk_or (a ∷ []) = ground arith
  formula_holds-mk_or (a ∷ b ∷ l) = refl

  some_before-after_signal :
      (wait : Term) (l : List Name)
      → all_in (formula_holds v) (some_before wait l)
        ≡ all_in (formula_holds v) (after_signal wait l)
  unfolding some_before after_signal all_in formula_holds
  some_before-after_signal wait [] = refl
  some_before-after_signal wait (x ∷ l) =
      ap (λ b. b && true) (formula_holds-mk_or (before wait (x ∷ l)))

  sym_signalled_iff :
      HasRoom sc
      → (t s : ℕ) (z : ℤ) → is_negative z ≡ false
      → (all_in (allows v) (sym_signalled sc t s z) ≡ true) ↔ (
          (r : ℕ)
          → z ≡ pos r
          → is_positive (sc.sem_init r) ≡ false
          → IsSignalled sc v (pos r) (at_step t s))
  unfolding sym_signalled all_in HasRoom
  sym_signalled_iff room t s (negsuc n) known = cc
  sym_signalled_iff room t s (pos r) known =
      let wait = at_step t s in
      let fits : ltb sym_max_signals (count_of (signals sc (pos r))) ≡ false =
        ground (arith, room r) in
      let meaning = after_signal-IsSignalled sc v (pos r) wait in
      let asserted =
        allows-assert_all v (some_before wait (signals sc (pos r)))
        ∙ some_before-after_signal wait (signals sc (pos r)) in
      elim (Bool-cases (is_positive (sc.sem_init r))) [
        | inl full ↦
            rw full ((λ h r' same empty. let e : r ≡ r' = ap pos_part same in cc), λ h. refl)
        | inr empty ↦
            rw (empty, fits)
              (
                (λ h r' same _.
                    subst (λ x. IsSignalled sc v x wait) same (meaning.0 (sym asserted ∙ h))),
                (λ h. asserted ∙ meaning.1 (h r refl empty)),
              )
      ]

  sym_signal_order_iff :
      HasRoom sc
      → HasWaitIds sc
      → (all_in (allows v) (sym_signal_order sc) ≡ true) ↔ (
          (t s r : ℕ)
          → t < threads_of sc
          → s < steps_of sc t
          → is_wait (sc.steps t s).type ≡ true
          → (sc.steps t s).resource_id ≡ pos r
          → is_positive (sc.sem_init r) ≡ false
          → IsSignalled sc v (pos r) (at_step t s))
  unfolding sym_signal_order all_in HasWaitIds
  sym_signal_order_iff room ids = (
    λ h t s r lt slt waits on empty.
        let entry = (each_step-all_in sc v (allows v) _).0 h t s lt slt in
        (sym_signalled_iff room t s (sc.steps t s).resource_id (ids t s lt slt waits)).0
          (rw waits at entry) r on empty,
    λ h. (each_step-all_in sc v (allows v) _).1 (λ t s lt slt.
        elim (Bool-cases (is_wait (sc.steps t s).type)) [
          | inr other ↦ rw other refl
          | inl waits ↦ rw waits (
              (sym_signalled_iff room t s (sc.steps t s).resource_id (ids t s lt slt waits)).1
                (λ r on empty. h t s r lt slt waits on empty))
        ]),
  )

  mutex_exclusion_iff :
      (m : ℕ)
      → (all_in (formula_holds v) (mutex_exclusion sc m) ≡ true) ↔ (
          (t1 s1 u1 t2 s2 u2 : ℕ)
          → t1 < t2
          → t2 < threads_of sc
          → IsSpan sc (pos m) t1 s1 u1
          → IsSection sc (pos m) t2 s2 u2
          → Apart v t1 s1 u1 t2 s2 u2)
  unfolding mutex_exclusion all_in
  mutex_exclusion_iff m = (
    λ h t1 s1 u1 t2 s2 u2 lt in2 c d.
        let entry = (each_step-all_in sc v (formula_holds v) _).0 h t1 s1 (omega arith) c.lock_in in
        exclusive_with_sound sc v (pos m) t1 s1 u1 (rw (c.locks, c.unlock) at entry) t2 s2 u2 lt in2
          d,
    λ h. (each_step-all_in sc v (formula_holds v) _).1 (λ t1 s1 lt slt.
        elim (Bool-cases (is_lock (sc.steps t1 s1).type)) [
          | inr other ↦ rw other refl
          | inl locks ↦ rw locks (
              exclusive_with_complete sc v (pos m) t1 s1 _ (λ u1 t2 s2 u2 e lower in2 d.
                h t1 s1 u1 t2 s2 u2 lower in2 (record { lock_in = slt; locks = locks; unlock = e })
                  d))
        ]),
  )

  sym_exclusion_iff : (all_in (allows v) (sym_exclusion sc) ≡ true) ↔ (
      (m t1 s1 u1 t2 s2 u2 : ℕ)
      → m < to_nat sc.resource_count
      → is_mutex (sc.res_types m) ≡ true
      → t1 < t2
      → t2 < threads_of sc
      → IsSpan sc (pos m) t1 s1 u1
      → IsSection sc (pos m) t2 s2 u2
      → Apart v t1 s1 u1 t2 s2 u2)
  unfolding sym_exclusion all_in
  sym_exclusion_iff = (
    λ h m t1 s1 u1 t2 s2 u2 mlt is_m.
        let entry = (concat_below-all_in (allows v) (to_nat sc.resource_count) _).0 h m mlt in
        (mutex_exclusion_iff m).0
          (sym (allows-assert_all v (mutex_exclusion sc m)) ∙ (rw is_m at entry)) t1 s1 u1 t2 s2 u2,
    λ h. (concat_below-all_in (allows v) (to_nat sc.resource_count) _).1 (λ m mlt.
        elim (Bool-cases (is_mutex (sc.res_types m))) [
          | inr other ↦ rw other refl
          | inl is_m ↦ rw is_m (
              allows-assert_all v (mutex_exclusion sc m)
              ∙ (mutex_exclusion_iff m).1 (λ t1 s1 u1 t2 s2 u2. h m t1 s1 u1 t2 s2 u2 mlt is_m))
        ]),
  )

  -- Where the waits name semaphores, the constraints hold exactly of an ordering whose constants of the
  -- program order are in order.
  pub constraints_iff :
      HasRoom sc
      → HasWaitIds sc
      → (all_in (allows v) (constraints sc) ≡ true)
        ↔ ((all_in (allows v) (sym_program_order sc) ≡ true) × IsOrdering sc v)
  unfolding constraints
  constraints_iff room ids =
      let a =
        all_in-append (allows v) (sym_program_order sc ++ sym_exclusion sc) (sym_signal_order sc) in
      let b = all_in-append (allows v) (sym_program_order sc) (sym_exclusion sc) in
      (
        λ h. (
          ground (arith, a, b, h),
          record {
            exclusive = sym_exclusion_iff.0 (ground (arith, a, b, h));
            signalled_first = (sym_signal_order_iff room ids).0 (ground (arith, a, b, h));
          },
        ),
        λ (order, o).
            let c = sym_exclusion_iff.1 o.exclusive in
            let d = (sym_signal_order_iff room ids).1 o.signalled_first in
            ground (arith, a, b, c, d, order),
      )

-- An ordering can be completed to an assignment that satisfies the constraints, since the constants of
-- the program order are not the positions of steps.
pub IsOrdering-constraints :
    (sc : Scenario) (v : Name → ℤ)
    → HasRoom sc
    → HasWaitIds sc
    → IsOrdering sc v
    → (w : Name → ℤ) × (all_in (allows w) (constraints sc) ≡ true)
IsOrdering-constraints sc v room ids o = (
  with_order sc v,
  (constraints_iff sc (with_order sc v) room ids).1
      (sym_program_order-with_order sc v, IsOrdering-with_order sc v o),
)
