-- ===== src/Base/Concat.antt =====
-- Loops that add to a list, tests of all entries, and prefixes.
use Prim.Native.Nat.{ℕ, zero, suc, ◌+◌, ◌-◌, ◌*◌, ◌≤◌, ◌<◌}
use mathlib.Core.Path.{◌≡◌, refl, ap, sym, ◌∙◌}
use mathlib.Core.Logic.{inl, inr, ◌↔◌}
use mathlib.Core.Bool.{Bool, true, false, ◌&&◌, ◌||◌}
use mathlib.Core.List.{List, [], ◌∷◌, ◌++◌}
use native.Mathlib.Omega.{arith}
use native.Mathlib.Decide.{ℕ_discrete}
use chibios_smash.Base.Tests.{Bool-cases}
use chibios_smash.Base.Arrays.{all_below, all_below_sound, all_below_complete}

-- `for (i = 0; i < n; i++) add f(i)`
unfoldable pub concat_below {ℓ} : {A : Type ℓ} → ℕ → (ℕ → List A) → List A
concat_below zero f = []
concat_below (suc n) f = concat_below n f ++ f n

-- `for (i = from; i < n; i++) add f(i)`
unfoldable pub concat_from {ℓ} : {A : Type ℓ} → ℕ → ℕ → (ℕ → List A) → List A
concat_from from n f = concat_below (n - from) (λ i. f (from + i))

unfoldable pub all_in {ℓ} : {A : Type ℓ} → (A → Bool) → List A → Bool
all_in test [] = true
all_in test (a ∷ l) = test a && all_in test l

pub all_in-append {ℓ} :
    {A : Type ℓ} (test : A → Bool) (l m : List A)
    → all_in test (l ++ m) ≡ (all_in test l && all_in test m)
unfolding all_in
all_in-append test [] m = refl
all_in-append test (a ∷ l) m = ground (arith, all_in-append test l m)

pub all_in-concat_below {ℓ} :
    {A : Type ℓ} (test : A → Bool) (n : ℕ) (f : ℕ → List A)
    → all_in test (concat_below n f) ≡ all_below n (λ i. all_in test (f i))
unfolding all_in concat_below all_below
all_in-concat_below test zero f = refl
all_in-concat_below test (suc n) f =
    all_in-append test (concat_below n f) (f n)
    ∙ ap (λ b. b && all_in test (f n)) (all_in-concat_below test n f)

-- Each entry that the loop adds passes the test, and conversely.
pub concat_below-all_in {ℓ} :
    {A : Type ℓ} (test : A → Bool) (n : ℕ) (f : ℕ → List A)
    → (all_in test (concat_below n f) ≡ true) ↔ ((i : ℕ) → i < n → all_in test (f i) ≡ true)
concat_below-all_in test n f = (
  λ h. all_below_sound n _ (sym (all_in-concat_below test n f) ∙ h),
  λ h. all_in-concat_below test n f ∙ all_below_complete n _ h,
)

pub concat_from-all_in {ℓ} :
    {A : Type ℓ} (test : A → Bool) (from n : ℕ) (f : ℕ → List A)
    → (all_in test (concat_from from n f) ≡ true)
      ↔ ((i : ℕ) → from ≤ i → i < n → all_in test (f i) ≡ true)
unfolding concat_from
concat_from-all_in test from n f = (to, back)
  where
    to :
        all_in test (concat_below (n - from) (λ i. f (from + i))) ≡ true
        → (i : ℕ) → from ≤ i
        → i < n
        → all_in test (f i) ≡ true
    to h i le lt =
        let here =
          (concat_below-all_in test (n - from) (λ i. f (from + i))).0 h (i - from) (omega arith) in
        let e : from + (i - from) ≡ i = omega arith in ap (λ j. all_in test (f j)) (sym e) ∙ here

    back :
        ((i : ℕ) → from ≤ i → i < n → all_in test (f i) ≡ true)
        → all_in test (concat_below (n - from) (λ i. f (from + i))) ≡ true
    back h =
        (concat_below-all_in test (n - from) (λ i. f (from + i))).1
          (λ i lt. h (from + i) (omega arith) (omega arith))

unfoldable pub any_in {ℓ} : {A : Type ℓ} → (A → Bool) → List A → Bool
any_in test [] = false
any_in test (a ∷ l) = test a || any_in test l

pub any_in-append {ℓ} :
    {A : Type ℓ} (test : A → Bool) (l m : List A)
    → any_in test (l ++ m) ≡ (any_in test l || any_in test m)
unfolding any_in
any_in-append test [] m = refl
any_in-append test (a ∷ l) m = ground (arith, any_in-append test l m)

-- Some entry that the loop adds passes the test, and conversely.
pub concat_below-any_in {ℓ} :
    {A : Type ℓ} (test : A → Bool) (n : ℕ) (f : ℕ → List A)
    → any_in test (concat_below n f) ≡ true
    → (i : ℕ) × ((i < n) × (any_in test (f i) ≡ true))
unfolding any_in concat_below
concat_below-any_in test zero f h = cc
concat_below-any_in test (suc n) f h =
    let split = any_in-append test (concat_below n f) (f n) in
    elim (Bool-cases (any_in test (f n))) [
      | inl last ↦ (n, (omega arith, last))
      | inr other ↦
          let (i, (lt, here)) = concat_below-any_in test n f (ground (arith, split, other, h)) in
          (i, (omega (arith, lt), here))
    ]

pub any_in-concat_below {ℓ} :
    {A : Type ℓ} (test : A → Bool) (n : ℕ) (f : ℕ → List A) (i : ℕ)
    → i < n
    → any_in test (f i) ≡ true
    → any_in test (concat_below n f) ≡ true
unfolding any_in concat_below
any_in-concat_below test zero f i lt here = absurd (omega arith)
any_in-concat_below test (suc n) f i lt here =
    let split = any_in-append test (concat_below n f) (f n) in
    elim (ℕ_discrete n i) [
      | yes last ↦
          let here' : any_in test (f n) ≡ true = rw last here in ground (arith, split, here')
      | no before ↦
          let rest = any_in-concat_below test n f i (omega arith) here in
          ground (arith, split, rest)
    ]

unfoldable pub count_of {ℓ} : {A : Type ℓ} → List A → ℕ
count_of [] = 0
count_of (_ ∷ l) = 1 + count_of l

count_of-append {ℓ} : {A : Type ℓ} (l m : List A) → count_of (l ++ m) ≡ count_of l + count_of m
unfolding count_of
count_of-append [] m = omega arith
count_of-append (a ∷ l) m = omega (arith, count_of-append l m)

-- A loop of few rounds that add few entries each adds few.
pub count_of-concat_below {ℓ} :
    {A : Type ℓ} (n k : ℕ) (f : ℕ → List A)
    → ((i : ℕ) → i < n → count_of (f i) ≤ k)
    → count_of (concat_below n f) ≤ n * k
unfolding count_of concat_below
count_of-concat_below zero k f few = omega arith
count_of-concat_below (suc n) k f few = omega (
  arith,
  count_of-append (concat_below n f) (f n),
  few n (omega arith),
  count_of-concat_below n k f (λ i lt. few i (omega arith)),
)
