-- ===== src/Base/Lists.antt =====
-- Membership of a number in a list as a Boolean test, and counting.
use Prim.Native.Nat.{ℕ, ◌+◌, ◌≤◌, ◌<◌}
use mathlib.Core.Path.{◌≡◌, refl}
use mathlib.Core.Logic.{◌⊎◌, inl, inr}
use mathlib.Core.Bool.{Bool, true, false, ◌||◌}
use mathlib.Core.List.{List, [], ◌∷◌}
use native.Mathlib.Omega.{arith}
use chibios_smash.Base.Tests.{◌==◌, if◌then◌else◌}

unfoldable pub contains : List ℕ → ℕ → Bool
contains [] q = false
contains (p ∷ ps) q = (p == q) || contains ps q

-- The number of entries of a list that the test rejects.
unfoldable pub count_not : (ℕ → Bool) → List ℕ → ℕ
count_not test [] = 0
count_not test (p ∷ ps) = (if test p then 0 else 1) + count_not test ps

-- A test that accepts at least as much rejects at most as many entries,
pub count_not_mono :
    (a b : ℕ → Bool) (l : List ℕ)
    → ((q : ℕ) → a q ≡ true → b q ≡ true)
    → count_not b l ≤ count_not a l
unfolding count_not
count_not_mono a b [] more = omega arith
count_not_mono a b (p ∷ ps) more =
    let ih = count_not_mono a b ps more in let here = more p in ground arith

-- and fewer if it accepts one more of them.
pub count_not-less :
    (a b : ℕ → Bool) (l : List ℕ)
    → ((q : ℕ) → a q ≡ true → b q ≡ true)
    → (q : ℕ) → contains l q ≡ true
    → a q ≡ false
    → b q ≡ true
    → count_not b l < count_not a l
unfolding count_not contains
count_not-less a b [] more q in_l out_a in_b = cc
count_not-less a b (p ∷ ps) more q in_l out_a in_b =
    let le = count_not_mono a b ps more in
    let here = more p in let ih = count_not-less a b ps more q in ground arith

pub List-cases {ℓ} :
    {A : Type ℓ} (l : List A) → (l ≡ []) ⊎ ((a : A) × (rest : List A) × (l ≡ a ∷ rest))
List-cases [] = inl refl
List-cases (a ∷ rest) = inr (a, rest, refl)
