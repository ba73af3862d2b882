-- ===== src/Smt/Sections.antt =====
-- The critical sections of a scenario, and what the exclusion constraints of src/smt.c say of them.
use chibios_smash.Base.{
  ℕ, zero, suc, ◌+◌, ◌-◌, ◌≤◌, ◌<◌, ◌≡◌, ◌↔◌, ◌⊎◌, refl, inl, inr, ℤ, eqb_ℤ, eqb_ℤ→eq, ◌<ℤ◌, Bool,
  true, false, Option, none, some, List, Bool-cases, concat_below-all_in, concat_from-all_in,
  all_in, arith, ℕ_discrete, sym, ap,
}
use chibios_smash.Types.{Scenario}
use chibios_smash.Smt.{Name, step, formula_holds, any_holds, atom_holds, value}
use chibios_smash.Smt.Export.{
  threads_of, steps_of, is_lock, unlocks, first_unlock, matching_unlock, each_step, apart,
  exclusive_with, exclusion,
}

-- The thread locks the mutex at step `s` and unlocks it at step `u`, and not in between.
pub record IsSection (sc : Scenario) (m : ℤ) (t s u : ℕ) : Type 0 where
  pub lock_in : s < steps_of sc t
  pub locks : is_lock (sc.steps t s).type ≡ true
  pub on : (sc.steps t s).resource_id ≡ m
  pub later : s < u
  pub unlock_in : u < steps_of sc t
  pub releases : unlocks sc m t u ≡ true
  pub between : (k : ℕ) → s < k → k < u → unlocks sc m t k ≡ false

first_unlock-some :
    (sc : Scenario) (m : ℤ) (t rounds k u : ℕ)
    → first_unlock sc m t rounds k ≡ some u
    → (k ≤ u) × ((u < k + rounds) × (unlocks sc m t u ≡ true))
unfolding first_unlock
first_unlock-some sc m t zero k u h = cc
first_unlock-some sc m t (suc rounds) k u h = elim (Bool-cases (unlocks sc m t k)) [
  | inl now ↦ ground (arith, now, h)
  | inr other ↦
      let ih = first_unlock-some sc m t rounds (suc k) u (rw other at h) in
      (omega (arith, ih), (omega (arith, ih), ih.1.1))
]

first_unlock-first :
    (sc : Scenario) (m : ℤ) (t rounds k u j : ℕ)
    → first_unlock sc m t rounds k ≡ some u
    → k ≤ j
    → j < u
    → unlocks sc m t j ≡ false
unfolding first_unlock
first_unlock-first sc m t zero k u j h le lt = cc
first_unlock-first sc m t (suc rounds) k u j h le lt = elim (Bool-cases (unlocks sc m t k)) [
  | inl now ↦ ground (arith, now, h)
  | inr other ↦ elim (ℕ_discrete k j) [
    | yes here ↦ rw (sym here) other
    | no further ↦ first_unlock-first sc m t rounds (suc k) u j (rw other at h) (omega arith) lt
  ]
]

first_unlock-found :
    (sc : Scenario) (m : ℤ) (t rounds k u : ℕ)
    → k ≤ u
    → u < k + rounds
    → unlocks sc m t u ≡ true
    → ((j : ℕ) → k ≤ j → j < u → unlocks sc m t j ≡ false)
    → first_unlock sc m t rounds k ≡ some u
unfolding first_unlock
first_unlock-found sc m t zero k u le lt here none_before = absurd (omega arith)
first_unlock-found sc m t (suc rounds) k u le lt here none_before = elim (ℕ_discrete k u) [
  | yes now ↦ let here' : unlocks sc m t k ≡ true = rw now here in rw here' (ap some now)
  | no later ↦
      let other = none_before k (omega arith) (omega arith) in
      rw other (
        first_unlock-found sc m t rounds (suc k) u (omega arith) (omega arith) here
          (λ j le' lt'. none_before j (omega arith) lt'))
]

pub eqb_ℤ-refl : (z : ℤ) → eqb_ℤ z z ≡ true
eqb_ℤ-refl z = ground arith

pub matching_unlock-IsSection :
    (sc : Scenario) (m : ℤ) (t s u : ℕ)
    → s < steps_of sc t
    → is_lock (sc.steps t s).type ≡ true
    → (sc.steps t s).resource_id ≡ m
    → matching_unlock sc m t s ≡ some u
    → IsSection sc m t s u
unfolding matching_unlock
matching_unlock-IsSection sc m t s u lt locks on h =
    let found = first_unlock-some sc m t (steps_of sc t - suc s) (suc s) u h in
    record {
      lock_in = lt;
      locks = locks;
      on = on;
      later = omega (arith, found);
      unlock_in = omega (arith, found);
      releases = found.1.1;
      between = λ k after_lock before_unlock.
          first_unlock-first sc m t (steps_of sc t - suc s) (suc s) u k h (omega arith)
            before_unlock;
    }

pub IsSection-matching_unlock :
    (sc : Scenario) (m : ℤ) (t s u : ℕ) → IsSection sc m t s u → matching_unlock sc m t s ≡ some u
unfolding matching_unlock
IsSection-matching_unlock sc m t s u c =
    first_unlock-found sc m t (steps_of sc t - suc s) (suc s) u (omega (arith, c.later))
      (omega (arith, c.later, c.unlock_in)) c.releases (λ j le lt. c.between j (omega arith) lt)

-- The exclusion of two critical sections.
unfoldable pub Apart : (Name → ℤ) → (t1 s1 u1 t2 s2 u2 : ℕ) → Type 0
Apart v t1 s1 u1 t2 s2 u2 = (v (step t1 u1) <ℤ v (step t2 s2)) ⊎ (v (step t2 u2) <ℤ v (step t1 s1))

pub Apart-swap :
    (v : Name → ℤ) (t1 s1 u1 t2 s2 u2 : ℕ) → Apart v t1 s1 u1 t2 s2 u2 → Apart v t2 s2 u2 t1 s1 u1
unfolding Apart
Apart-swap v t1 s1 u1 t2 s2 u2 (inl first) = inr first
Apart-swap v t1 s1 u1 t2 s2 u2 (inr second) = inl second

apart-formula_holds :
    (v : Name → ℤ) (t1 s1 u1 t2 s2 u2 : ℕ)
    → (all_in (formula_holds v) (apart t1 s1 t2 s2 (some u1) (some u2)) ≡ true)
      ↔ Apart v t1 s1 u1 t2 s2 u2
unfolding apart all_in formula_holds any_holds atom_holds value Apart
apart-formula_holds v t1 s1 u1 t2 s2 u2 = (λ h. ground arith, λ h. ground arith)

module _ (sc : Scenario) (v : Name → ℤ) where
  pub each_step-all_in {ℓ} :
      {A : Type ℓ} (test : A → Bool) (f : ℕ → ℕ → List A)
      → (all_in test (each_step sc f) ≡ true)
        ↔ ((t s : ℕ) → t < threads_of sc → s < steps_of sc t → all_in test (f t s) ≡ true)
  unfolding each_step
  each_step-all_in test f = (
    λ h t s lt slt.
        (concat_below-all_in test (steps_of sc t) (f t)).0
          ((concat_below-all_in test (threads_of sc) _).0 h t lt) s slt,
    λ h.
        (concat_below-all_in test (threads_of sc) _).1
          (λ t lt. (concat_below-all_in test (steps_of sc t) (f t)).1 (λ s slt. h t s lt slt)),
  )

  -- The constraints between one section and the sections of higher threads.
  pub exclusive_with_sound :
      (m : ℤ) (t1 s1 u1 : ℕ)
      → all_in (formula_holds v) (exclusive_with sc m t1 s1 (some u1)) ≡ true
      → (t2 s2 u2 : ℕ) → t1 < t2
      → t2 < threads_of sc
      → IsSection sc m t2 s2 u2
      → Apart v t1 s1 u1 t2 s2 u2
  unfolding exclusive_with
  exclusive_with_sound m t1 s1 u1 h t2 s2 u2 lt in2 d =
      let row =
        (concat_from-all_in (formula_holds v) (t1 + 1) (threads_of sc) _).0 h t2 (omega arith)
          in2 in
      let entry = (concat_below-all_in (formula_holds v) (steps_of sc t2) _).0 row s2 d.lock_in in
      let same : eqb_ℤ (sc.steps t2 s2).resource_id m ≡ true = rw d.on (eqb_ℤ-refl m) in
      (apart-formula_holds v t1 s1 u1 t2 s2 u2).0
        (rw (d.locks, same, IsSection-matching_unlock sc m t2 s2 u2 d) at entry)

  pub exclusive_with_complete :
      (m : ℤ) (t1 s1 : ℕ) (u1 : Option ℕ)
      → ((u t2 s2 u2 : ℕ)
          → u1 ≡ some u
          → t1 < t2
          → t2 < threads_of sc
          → IsSection sc m t2 s2 u2
          → Apart v t1 s1 u t2 s2 u2)
      → all_in (formula_holds v) (exclusive_with sc m t1 s1 u1) ≡ true
  unfolding exclusive_with all_in apart
  exclusive_with_complete m t1 s1 u1 h =
      (concat_from-all_in (formula_holds v) (t1 + 1) (threads_of sc) _).1 (λ t2 le in2.
        (concat_below-all_in (formula_holds v) (steps_of sc t2) _).1 (λ s2 in_s2.
          elim (Bool-cases (is_lock (sc.steps t2 s2).type)) [
            | inr other ↦ rw other refl
            | inl locks ↦ elim (Bool-cases (eqb_ℤ (sc.steps t2 s2).resource_id m)) [
              | inr other ↦ rw (locks, other) refl
              | inl same ↦
                  rw (locks, same)
                    (pair m t1 s1 u1 t2 s2 h (omega arith) in2 in_s2 locks (eqb_ℤ→eq _ _ same)
                      (matching_unlock sc m t2 s2) refl)
            ]
          ]))
    where
      pair :
          (m : ℤ) (t1 s1 : ℕ) (u1 : Option ℕ) (t2 s2 : ℕ)
          → ((u t2 s2 u2 : ℕ)
              → u1 ≡ some u
              → t1 < t2
              → t2 < threads_of sc
              → IsSection sc m t2 s2 u2
              → Apart v t1 s1 u t2 s2 u2)
          → t1 < t2
          → t2 < threads_of sc
          → s2 < steps_of sc t2
          → is_lock (sc.steps t2 s2).type ≡ true
          → (sc.steps t2 s2).resource_id ≡ m
          → (u2 : Option ℕ) → matching_unlock sc m t2 s2 ≡ u2
          → all_in (formula_holds v) (apart t1 s1 t2 s2 u1 u2) ≡ true
      pair m t1 s1 none t2 s2 h lt in2 in_s2 locks on u2 e = refl
      pair m t1 s1 (some u) t2 s2 h lt in2 in_s2 locks on none e = refl
      pair m t1 s1 (some u) t2 s2 h lt in2 in_s2 locks on (some u2) e =
          (apart-formula_holds v t1 s1 u t2 s2 u2).1
            (h u t2 s2 u2 refl lt in2 (matching_unlock-IsSection sc m t2 s2 u2 in_s2 locks on e))

  -- The constraints of all pairs of sections of one mutex, each pair with the lower thread first.
  pub exclusion_sound :
      all_in (formula_holds v) (exclusion sc) ≡ true
      → (m : ℤ) (t1 s1 u1 t2 s2 u2 : ℕ) → t1 < t2
      → t2 < threads_of sc
      → IsSection sc m t1 s1 u1
      → IsSection sc m t2 s2 u2
      → Apart v t1 s1 u1 t2 s2 u2
  unfolding exclusion
  exclusion_sound h m t1 s1 u1 t2 s2 u2 lt in2 c d =
      let entry = (each_step-all_in (formula_holds v) _).0 h t1 s1 (omega arith) c.lock_in in
      exclusive_with_sound m t1 s1 u1
        (rw (c.locks, c.on, IsSection-matching_unlock sc m t1 s1 u1 c) at entry) t2 s2 u2 lt in2 d

  pub exclusion_complete :
      ((m : ℤ) (t1 s1 u1 t2 s2 u2 : ℕ)
        → t1 < t2
        → t2 < threads_of sc
        → IsSection sc m t1 s1 u1
        → IsSection sc m t2 s2 u2
        → Apart v t1 s1 u1 t2 s2 u2)
      → all_in (formula_holds v) (exclusion sc) ≡ true
  unfolding exclusion all_in
  exclusion_complete h = (each_step-all_in (formula_holds v) _).1 (λ t1 s1 in1 in_s1.
      elim (Bool-cases (is_lock (sc.steps t1 s1).type)) [
        | inr other ↦ rw other refl
        | inl locks ↦ rw locks (
            exclusive_with_complete (sc.steps t1 s1).resource_id t1 s1 _ (λ u1 t2 s2 u2 e lt in2 d.
              h _ t1 s1 u1 t2 s2 u2 lt in2
                (matching_unlock-IsSection sc _ t1 s1 u1 in_s1 locks refl e) d))
      ])
