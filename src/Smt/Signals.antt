-- ===== src/Smt/Signals.antt =====
-- What the constraints of src/smt.c on semaphores say.
use chibios_smash.Base.{
  ℕ, zero, suc, ◌*◌, ◌≤◌, ◌<◌, ◌≡◌, ◌↔◌, refl, ap, ℤ, eqb_ℤ, eqb_ℤ→eq, ltb_ℤ, ltb_ℤ→lt, lt→ltb_ℤ,
  ◌<ℤ◌, Bool, true, not, ◌&&◌, ◌||◌, List, [], ◌∷◌, if◌then◌else◌, Bool-cases, inl, inr, all_in,
  any_in, count_of, concat_below, concat_below-any_in, any_in-concat_below, count_of-concat_below,
  arith,
}
use chibios_smash.Types.{max_threads, max_steps, Scenario}
use chibios_smash.Smt.{
  Name, Term, Formula, step, formula_holds, any_holds, atom_holds, value, allows,
}
use chibios_smash.Smt.Export.{
  threads_of, steps_of, is_signal, each_step, signals, max_signals, first_of, before, after_signal,
  assert_all,
}
use chibios_smash.Smt.Sections.{eqb_ℤ-refl}

pub record IsSignal (sc : Scenario) (r : ℤ) (t s : ℕ) : Type 0 where
  pub thread_in : t < threads_of sc
  pub step_in : s < steps_of sc t
  pub sends : is_signal (sc.steps t s).type ≡ true
  pub on : (sc.steps t s).resource_id ≡ r

-- No more threads and steps than `signals` has room for.
pub record IsSmall (sc : Scenario) : Type 0 where
  pub few_threads : threads_of sc ≤ max_threads
  pub few_steps : (t : ℕ) → t < threads_of sc → steps_of sc t ≤ max_steps

pub allows-assert_all :
    (v : Name → ℤ) (l : List Formula)
    → all_in (allows v) (assert_all l) ≡ all_in (formula_holds v) l
unfolding all_in assert_all allows
allows-assert_all v [] = refl
allows-assert_all v (f ∷ l) = ap (λ b. formula_holds v f && b) (allows-assert_all v l)

any_holds-before :
    (v : Name → ℤ) (wait : Term) (l : List Name)
    → any_holds v (before wait l) ≡ any_in (λ x. ltb_ℤ (v x) (value v wait)) l
unfolding any_holds before any_in atom_holds value
any_holds-before v wait [] = refl
any_holds-before v wait (x ∷ l) =
    ap (λ b. ltb_ℤ (v x) (value v wait) || b) (any_holds-before v wait l)

first_of-all {ℓ} : {A : Type ℓ} (k : ℕ) (l : List A) → count_of l ≤ k → first_of k l ≡ l
unfolding first_of count_of
first_of-all zero [] few = refl
first_of-all zero (a ∷ l) few = absurd (omega arith)
first_of-all (suc k) [] few = refl
first_of-all (suc k) (a ∷ l) few = ap (λ m. a ∷ m) (first_of-all k l (omega arith))

module _ (sc : Scenario) where
  signal_at : ℤ → ℕ → ℕ → List Name
  signal_at r t s =
      if not (is_signal (sc.steps t s).type)
      then []
      else if not (eqb_ℤ (sc.steps t s).resource_id r)
      then []
      else step t s ∷ []

  count_of-signal_at : (r : ℤ) (t s : ℕ) → count_of (signal_at r t s) ≤ 1
  unfolding count_of signal_at
  count_of-signal_at r t s = ground arith

  signals_of-few :
      (r : ℤ) (t : ℕ) → count_of (concat_below (steps_of sc t) (signal_at r t)) ≤ steps_of sc t
  signals_of-few r t = omega (
    arith,
    count_of-concat_below (steps_of sc t) 1 (signal_at r t) (λ s _. count_of-signal_at r t s),
  )

  signals-count : IsSmall sc → (r : ℤ) → count_of (signals sc r) ≤ threads_of sc * max_steps
  unfolding signals each_step signal_at
  signals-count small r =
      count_of-concat_below (threads_of sc) max_steps
        (λ t. concat_below (steps_of sc t) (signal_at r t))
        (λ t lt. omega (arith, small.few_steps t lt, signals_of-few r t))

  pub signals-few : IsSmall sc → (r : ℤ) → first_of max_signals (signals sc r) ≡ signals sc r
  signals-few small r =
      first_of-all max_signals (signals sc r)
        (omega (arith, small.few_threads, signals-count small r))

  any_in-signal_at :
      (test : Name → Bool) (r : ℤ) (t s : ℕ)
      → t < threads_of sc
      → s < steps_of sc t
      → any_in test (signal_at r t s) ≡ true
      → IsSignal sc r t s × (test (step t s) ≡ true)
  unfolding any_in signal_at
  any_in-signal_at test r t s t_in s_in h = elim (Bool-cases (is_signal (sc.steps t s).type)) [
    | inr other ↦ cc (rw other at h)
    | inl sig ↦ elim (Bool-cases (eqb_ℤ (sc.steps t s).resource_id r)) [
      | inr other ↦ cc (rw (sig, other) at h)
      | inl same ↦ (
        record { thread_in = t_in; step_in = s_in; sends = sig; on = eqb_ℤ→eq _ _ same },
        ground (arith, rw (sig, same) at h),
      )
    ]
  ]

  -- An entry of the list of signals that passes a test is a step that signals,
  any_in-signals :
      (test : Name → Bool) (r : ℤ)
      → any_in test (signals sc r) ≡ true
      → (t : ℕ) × ((s : ℕ) × (IsSignal sc r t s × (test (step t s) ≡ true)))
  unfolding signals each_step signal_at
  any_in-signals test r h =
      let (t, (t_in, row)) = concat_below-any_in test (threads_of sc) _ h in
      let (s, (s_in, entry)) = concat_below-any_in test (steps_of sc t) _ row in
      (t, (s, any_in-signal_at test r t s t_in s_in entry))

  -- and conversely.
  signals-any_in :
      (test : Name → Bool) (r : ℤ) (t s : ℕ)
      → IsSignal sc r t s
      → test (step t s) ≡ true
      → any_in test (signals sc r) ≡ true
  unfolding signals each_step any_in
  signals-any_in test r t s sig h =
      let same : eqb_ℤ (sc.steps t s).resource_id r ≡ true = rw sig.on (eqb_ℤ-refl r) in
      any_in-concat_below test (threads_of sc) _ t sig.thread_in
        (any_in-concat_below test (steps_of sc t) _ s sig.step_in (rw (sig.sends, same, h)))

module _ (sc : Scenario) (v : Name → ℤ) where
  -- A signal that comes before the wait, where there is a signal at all.
  unfoldable pub IsSignalled : ℤ → Term → Type 0
  IsSignalled r wait =
      (t' s' : ℕ)
      → IsSignal sc r t' s'
      → (t : ℕ) × ((s : ℕ) × (IsSignal sc r t s × (v (step t s) <ℤ value v wait)))

  after_signal-any_in :
      (wait : Term) (l : List Name)
      → (all_in (formula_holds v) (after_signal wait l) ≡ true)
        ↔ (any_in (λ _. true) l ≡ true → any_in (λ x. ltb_ℤ (v x) (value v wait)) l ≡ true)
  unfolding all_in any_in after_signal formula_holds
  after_signal-any_in wait [] = (λ h some_in. some_in, λ h. refl)
  after_signal-any_in wait (x ∷ l) =
      let e = any_holds-before v wait (x ∷ l) in
      (λ h some_in. ground (arith, e, h), λ h. let g = h refl in ground (arith, e, g))

  pub after_signal-IsSignalled :
      (r : ℤ) (wait : Term)
      → (all_in (formula_holds v) (after_signal wait (signals sc r)) ≡ true) ↔ IsSignalled r wait
  unfolding IsSignalled
  after_signal-IsSignalled r wait =
      let (to, back) = after_signal-any_in wait (signals sc r) in
      (
        λ h t' s' sig.
            let found = to h (signals-any_in sc (λ _. true) r t' s' sig refl) in
            let (t, (s, (sig', lt))) = any_in-signals sc _ r found in
            (t, (s, (sig', ltb_ℤ→lt (v (step t s)) (value v wait) lt))),
        λ h. back (λ some_in.
            let (t', (s', (sig, _))) = any_in-signals sc (λ _. true) r some_in in
            let (t, (s, (sig', lt))) = h t' s' sig in
            signals-any_in sc _ r t s sig' (lt→ltb_ℤ (v (step t s)) (value v wait) lt)),
      )
