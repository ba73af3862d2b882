-- ===== src/Model/Mailbox/Window.antt =====
-- The messages of a circular buffer, from an index on, as a list.
use native.Mathlib.Nat.{mod-eq_of_lt, mod-eq-sub-mod}
use chibios_smash.Base.{
  ℕ, zero, suc, ◌+◌, ◌-◌, ◌%◌, ◌<◌, ◌≡◌, ◌≢◌, refl, sym, ap, ◌∙◌, ℤ, ltb, if◌then◌else◌, update,
  Bool-cases, inl, inr, arith, List, [], ◌∷◌, ◌++◌,
}

-- An index below `2 * cap`, brought below `cap`.
abbrev pub wrap : ℕ → ℕ → ℕ
wrap cap i = if ltb i cap then i else i - cap

pub mod-wrap : (cap i : ℕ) → i < cap + cap → i % cap ≡ wrap cap i
mod-wrap cap i lt = elim (Bool-cases (ltb i cap)) [
  | inl below ↦ rw below (mod-eq_of_lt (ground arith))
  | inr over ↦ rw over (
      mod-eq-sub-mod {n = i} {m = cap} (ground arith)
      ∙ mod-eq_of_lt {n = i - cap} {m = cap} (ground arith))
]

-- `n` messages from index `h` on.
unfoldable pub window : (ℕ → ℤ) → ℕ → ℕ → ℕ → List ℤ
window ms cap h zero = []
window ms cap h (suc n) = window ms cap h n ++ (ms (wrap cap (h + n)) ∷ [])

-- The last message and those before it.
pub window-last :
    (ms : ℕ → ℤ) (cap h n : ℕ)
    → window ms cap h (n + 1) ≡ window ms cap h n ++ (ms (wrap cap (h + n)) ∷ [])
unfolding window
window-last ms cap h n = let next : n + 1 ≡ suc n = omega arith in ap (window ms cap h) next

-- The first message and the rest.
pub window-first :
    (ms : ℕ → ℤ) (cap h n : ℕ)
    → h < cap
    → n < cap
    → window ms cap h (suc n) ≡ ms h ∷ window ms cap (wrap cap (h + 1)) n
unfolding window
window-first ms cap h zero h_in n_in = ap (λ i. ms i ∷ []) (ground arith)
window-first ms cap h (suc n) h_in n_in =
    let same : wrap cap (wrap cap (h + 1) + n) ≡ wrap cap (h + suc n) = ground arith in
    ap (λ l. l ++ (ms (wrap cap (h + suc n)) ∷ [])) (window-first ms cap h n h_in (omega arith))
    ∙ ap (λ i. ms h ∷ (window ms cap (wrap cap (h + 1)) n ++ (ms i ∷ []))) (sym same)

-- A write outside the window does not change it.
pub window-outside :
    (ms : ℕ → ℤ) (cap h i : ℕ) (msg : ℤ) (n : ℕ)
    → ((k : ℕ) → k < n → wrap cap (h + k) ≢ i)
    → window (update ms i msg) cap h n ≡ window ms cap h n
unfolding window
window-outside ms cap h i msg zero outside = refl
window-outside ms cap h i msg (suc n) outside =
    let before = window-outside ms cap h i msg n (λ k lt. outside k (omega arith)) in
    let last = outside n (omega arith) in
    let kept : update ms i msg (wrap cap (h + n)) ≡ ms (wrap cap (h + n)) = ground arith in
    rw (before, kept) refl
