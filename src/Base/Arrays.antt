-- ===== src/Base/Arrays.antt =====
-- C arrays as functions of the index, and the `for` loops over them.
use Prim.Native.Nat.{ℕ, zero, suc, ◌<◌}
use mathlib.Core.Path.{◌≡◌, refl}
use mathlib.Core.Bool.{Bool, true, ◌&&◌}
use native.Mathlib.Decide.{dec_lt}
use native.Mathlib.Omega.{arith}
use chibios_smash.Base.Tests.{◌==◌, ltb, if◌then◌else◌}

-- `a[i] = v`
abbrev pub update {ℓ} : {A : Type ℓ} → (ℕ → A) → ℕ → A → ℕ → A
update f i v j = if i == j then v else f j

-- `for (i = 0; i < n; i++) s = body(i, s);`
unfoldable pub for_up {ℓ} : {S : Type ℓ} → ℕ → (ℕ → S → S) → S → S
for_up zero body s = s
for_up (suc n) body s = body n (for_up n body s)

-- `for (i = 0; i < n; i++) if (!test(i)) return false; return true;`
unfoldable pub all_below : ℕ → (ℕ → Bool) → Bool
all_below zero test = true
all_below (suc n) test = all_below n test && test n

-- The invariant rule: what holds before the loop, and is kept by each round below `n`, holds after it.
pub for_up_inv {ℓ κ} :
    {S : Type ℓ} (P : ℕ → S → Type κ) (body : ℕ → S → S) (s : S) (n : ℕ)
    → P 0 s
    → ((i : ℕ) (t : S) → i < n → P i t → P (suc i) (body i t))
    → P n (for_up n body s)
unfolding for_up
for_up_inv P body s zero start keep = start
for_up_inv P body s (suc n) start keep =
    keep n _ (omega arith) (for_up_inv P body s n start (λ i t h. keep i t (omega arith)))

pub all_below_sound :
    (n : ℕ) (test : ℕ → Bool) → all_below n test ≡ true → (i : ℕ) → i < n → test i ≡ true
unfolding all_below
all_below_sound zero test h i lt = elim lt [ ]
all_below_sound (suc n) test h i lt = elim (dec_lt i n) [
  | yes below ↦ all_below_sound n test (ground arith) i below
  | no last ↦ let e : i ≡ n = omega arith in rw e (ground arith)
]

pub all_below_complete :
    (n : ℕ) (test : ℕ → Bool) → ((i : ℕ) → i < n → test i ≡ true) → all_below n test ≡ true
unfolding all_below
all_below_complete zero test h = refl
all_below_complete (suc n) test h =
    ground (arith, h n, all_below_complete n test (λ i lt. h i (omega arith)))

-- A loop that rewrites each entry below `n` from its own old value.
pub for_up-update {ℓ} :
    {A : Type ℓ} (n : ℕ) (g : ℕ → A → A) (f : ℕ → A) (j : ℕ)
    → for_up n (λ i f'. update f' i (g i (f' i))) f j ≡ (if ltb j n then g j (f j) else f j)
unfolding for_up
for_up-update zero g f j = ground arith
for_up-update (suc n) g f j = ground (arith, for_up-update n g f j, for_up-update n g f n)
