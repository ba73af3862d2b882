-- ===== src/Smt/Distinct.antt =====
-- What a distinctness constraint on the positions of all steps says.
use mathlib.Core.Path.{subst}
use chibios_smash.Base.{
  ℕ, zero, suc, ◌<◌, ◌≡◌, ◌≢◌, ◌↔◌, refl, sym, inl, inr, ℤ, eqb_ℤ, eqb_ℤ→eq, Bool, true, ◌&&◌, List,
  [], ◌∷◌, ◌++◌, Bool-cases, all_in, all_in-append, concat_below, concat_below-all_in, arith,
  ℕ_discrete, dec_lt,
}
use chibios_smash.Types.{Scenario}
use chibios_smash.Smt.{Name, Term, step, value, differs, all_differ}
use chibios_smash.Smt.Export.{threads_of, steps_of, at_step, each_step}
use chibios_smash.Smt.Sections.{eqb_ℤ-refl}

module _ (v : Name → ℤ) where
  -- Each entry of one list differs from each of the other.
  unfoldable pub cross : List Term → List Term → Bool
  cross l m = all_in (λ a. all_in (differs v a) m) l

  all_differ-append :
      (l m : List Term) → all_differ v (l ++ m) ≡ (all_differ v l && (all_differ v m && cross l m))
  unfolding all_differ cross all_in
  all_differ-append [] m = ground arith
  all_differ-append (a ∷ l) m =
      let rest = all_differ-append l m in
      let here = all_in-append (differs v a) l m in ground (arith, rest, here)

  record IsDistinct (n : ℕ) (f : ℕ → List Term) : Type 0 where
    each : (i : ℕ) → i < n → all_differ v (f i) ≡ true
    across : (i j : ℕ) → i < j → j < n → cross (f i) (f j) ≡ true

  all_differ_sound :
      (n : ℕ) (f : ℕ → List Term) → all_differ v (concat_below n f) ≡ true → IsDistinct n f
  unfolding concat_below cross
  all_differ_sound zero f h = record {
    each = λ i lt. absurd (omega arith);
    across = λ i j lt lt'. absurd (omega arith);
  }
  all_differ_sound (suc n) f h =
      let split = all_differ-append (concat_below n f) (f n) in
      let front : all_differ v (concat_below n f) ≡ true = ground (arith, split, h) in
      let last : all_differ v (f n) ≡ true = ground (arith, split, h) in
      let apart : cross (concat_below n f) (f n) ≡ true = ground (arith, split, h) in
      let rest = all_differ_sound n f front in
      record {
        each = λ i lt. elim (ℕ_discrete n i) [
          | yes here ↦ subst (λ x. all_differ v (f x) ≡ true) here last
          | no before ↦ rest.each i (omega arith)
        ];
        across = λ i j lt lt'. elim (ℕ_discrete n j) [
          | yes here ↦
              subst (λ x. cross (f i) (f x) ≡ true) here
                ((concat_below-all_in (λ a. all_in (differs v a) (f n)) n f).0 apart i
                  (omega arith))
          | no before ↦ rest.across i j lt (omega arith)
        ];
      }

  all_differ_complete :
      (n : ℕ) (f : ℕ → List Term) → IsDistinct n f → all_differ v (concat_below n f) ≡ true
  unfolding concat_below cross all_differ
  all_differ_complete zero f h = refl
  all_differ_complete (suc n) f h =
      let front = all_differ_complete n f (record {
        each = λ i lt. h.each i (omega arith);
        across = λ i j lt lt'. h.across i j lt (omega arith);
      }) in
      let last = h.each n (omega arith) in
      let apart =
        (concat_below-all_in (λ a. all_in (differs v a) (f n)) n f).1
          (λ i lt. h.across i n lt (omega arith)) in
      ground (arith, all_differ-append (concat_below n f) (f n), front, last, apart)

  differs_iff :
      (t s t' s' : ℕ)
      → (differs v (at_step t s) (at_step t' s') ≡ true) ↔ (v (step t s) ≢ v (step t' s'))
  unfolding differs value
  differs_iff t s t' s' = (
    λ h same.
        let e : eqb_ℤ (v (step t s)) (v (step t' s')) ≡ true =
          rw same (eqb_ℤ-refl (v (step t' s'))) in
        ground arith,
    λ apart. elim (Bool-cases (eqb_ℤ (v (step t s)) (v (step t' s')))) [
      | inl same ↦ absurd (apart (eqb_ℤ→eq (v (step t s)) (v (step t' s')) same))
      | inr other ↦ rw other refl
    ],
  )

  module _ (sc : Scenario) where
    row : ℕ → List Term
    row t = concat_below (steps_of sc t) (λ s. at_step t s ∷ [])

    -- `differs` for two steps in the order in which they are listed.
    record Differ : Type 0 where
      in_thread :
          (t s s' : ℕ)
          → t < threads_of sc
          → s < s'
          → s' < steps_of sc t
          → differs v (at_step t s) (at_step t s') ≡ true
      in_threads :
          (t s t' s' : ℕ)
          → t < t'
          → t' < threads_of sc
          → s < steps_of sc t
          → s' < steps_of sc t'
          → differs v (at_step t s) (at_step t' s') ≡ true

    all_differ-Differ : all_differ v (each_step sc (λ t s. at_step t s ∷ [])) ≡ true → Differ
    unfolding each_step all_in cross row
    all_differ-Differ h =
        let rows = all_differ_sound (threads_of sc) row h in
        record {
          in_thread = λ t s s' lt slt slt'.
              let pair =
                (all_differ_sound (steps_of sc t) (λ s. at_step t s ∷ []) (rows.each t lt)).across s
                  s' slt slt' in
              ground arith;
          in_threads = λ t s t' s' lt lt' slt slt'.
              let from =
                (concat_below-all_in (λ a. all_in (differs v a) (row t')) (steps_of sc t)
                    (λ s. at_step t s ∷ [])).0
                  (rows.across t t' lt lt') s slt in
              let to =
                (concat_below-all_in (differs v (at_step t s)) (steps_of sc t')
                    (λ s. at_step t' s ∷ [])).0
                  (ground (arith, from)) s' slt' in
              ground (arith, to);
        }

    Differ-all_differ : Differ → all_differ v (each_step sc (λ t s. at_step t s ∷ [])) ≡ true
    unfolding each_step all_in cross all_differ row
    Differ-all_differ d = all_differ_complete (threads_of sc) row (record {
      each = λ t lt.
          all_differ_complete (steps_of sc t) (λ s. at_step t s ∷ [])
            (record {
              each = λ s slt. refl;
              across = λ s s' slt slt'. rw (d.in_thread t s s' lt slt slt') refl;
            });
      across = λ t t' lt lt'.
          (concat_below-all_in (λ a. all_in (differs v a) (row t')) (steps_of sc t)
              (λ s. at_step t s ∷ [])).1
            (λ s slt. ground (
              arith,
              (concat_below-all_in (differs v (at_step t s)) (steps_of sc t')
                    (λ s. at_step t' s ∷ [])).1
                  (λ s' slt'. rw (d.in_threads t s t' s' lt lt' slt slt') refl),
            ));
    })

    -- All positions differ exactly if two steps at one position are one step.
    pub IsInjective : Type 0
    IsInjective =
        (t s t' s' : ℕ)
        → t < threads_of sc
        → s < steps_of sc t
        → t' < threads_of sc
        → s' < steps_of sc t'
        → v (step t s) ≡ v (step t' s')
        → (t ≡ t') × (s ≡ s')

    Differ-same_step :
        Differ
        → (t s s' : ℕ) → t < threads_of sc
        → s < steps_of sc t
        → s' < steps_of sc t
        → v (step t s) ≡ v (step t s')
        → s ≡ s'
    Differ-same_step d t s s' lt slt slt' same = elim (dec_lt s s') [
      | yes lower ↦ absurd ((differs_iff t s t s').0 (d.in_thread t s s' lt lower slt') same)
      | no not_lower ↦ elim (dec_lt s' s) [
        | yes higher ↦
            absurd ((differs_iff t s' t s).0 (d.in_thread t s' s lt higher slt) (sym same))
        | no not_higher ↦ omega arith
      ]
    ]

    Differ-IsInjective : Differ → IsInjective
    unfolding IsInjective
    Differ-IsInjective d t s t' s' lt slt lt' slt' same = elim (dec_lt t t') [
      | yes lower ↦
          absurd ((differs_iff t s t' s').0 (d.in_threads t s t' s' lower lt' slt slt') same)
      | no not_lower ↦ elim (dec_lt t' t) [
        | yes higher ↦
            absurd
              ((differs_iff t' s' t s).0 (d.in_threads t' s' t s higher lt slt' slt) (sym same))
        | no not_higher ↦
            let e : t ≡ t' = omega arith in
            (
              e,
              Differ-same_step d t s s' lt slt (subst (λ x. s' < steps_of sc x) (sym e) slt')
                  (subst (λ x. v (step t s) ≡ v (step x s')) (sym e) same),
            )
      ]
    ]

    IsInjective-Differ : IsInjective → Differ
    unfolding IsInjective
    IsInjective-Differ i = record {
      in_thread = λ t s s' lt slt slt'.
          (differs_iff t s t s').1
            (λ same. omega (arith, i t s t s' lt (omega arith) lt slt' same));
      in_threads = λ t s t' s' lt lt' slt slt'.
          (differs_iff t s t' s').1
            (λ same. omega (arith, i t s t' s' (omega arith) slt lt' slt' same));
    }

    pub all_differ_iff :
        (all_differ v (each_step sc (λ t s. at_step t s ∷ [])) ≡ true) ↔ IsInjective
    all_differ_iff = (
      λ h. Differ-IsInjective (all_differ-Differ h),
      λ i. Differ-all_differ (IsInjective-Differ i),
    )
