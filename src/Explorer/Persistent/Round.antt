-- ===== src/Explorer/Persistent/Round.antt =====
-- One round of the loop of `compute_persistent_set` in src/explorer.c: it grows the set, within the
-- runnable threads, and its flag says whether it did.
use mathlib.Core.List.{foldl}
use chibios_smash.Base.{
  ℕ, ◌<◌, ◌≡◌, refl, sym, ap, ◌∙◌, Bool, true, false, not, ◌&&◌, ◌⊎◌, inl, inr, if◌then◌else◌,
  Bool-cases, arith, ◌==◌, List, [], ◌∷◌, contains, count_not, count_not-less,
}
use chibios_smash.Dpor.{Mask, mask_add}
use chibios_smash.Explorer.Persistent.{depends_on_set, persistent_round}

-- No runnable thread outside the set depends on one in it.
abbrev pub IsClosed : (ℕ → ℕ → Bool) → List ℕ → Mask → Type 0
IsClosed dep runnable set =
    (q p : ℕ)
    → contains runnable q ≡ true
    → set q ≡ false
    → contains runnable p ≡ true
    → set p ≡ true
    → dep p q ≡ false

depends_on_set-none :
    (dep : ℕ → ℕ → Bool) (set : Mask) (q : ℕ) (l : List ℕ)
    → depends_on_set dep set q l ≡ false
    → (p : ℕ) → contains l p ≡ true
    → set p ≡ true
    → dep p q ≡ false
unfolding depends_on_set contains
depends_on_set-none dep set q [] none p in_l in_set = cc
depends_on_set-none dep set q (x ∷ xs) none p in_l in_set =
    let ih : (depends_on_set dep set q xs ≡ false → contains xs p ≡ true → dep p q ≡ false) =
      λ h c. depends_on_set-none dep set q xs h p c in_set in
    elim (Bool-cases (x == p)) [
      | inl here ↦
          let eq : p ≡ x = ground arith in
          rw eq (let in_set' = ap set (sym eq) ∙ in_set in ground arith)
      | inr later ↦ ground (arith, ih)
    ]

pub mask_of-adds :
    (l : List ℕ) (set : Mask) (q : ℕ)
    → (set q ≡ true) ⊎ (contains l q ≡ true)
    → foldl mask_add set l q ≡ true
unfolding contains
mask_of-adds [] set q h = ground arith
mask_of-adds (x ∷ xs) set q h = mask_of-adds xs (mask_add set x) q (ground arith)

module _ (dep : ℕ → ℕ → Bool) (runnable : List ℕ) where
  pub round-more :
      (qs : List ℕ) (set : Mask) (changed : Bool) (q : ℕ)
      → set q ≡ true
      → (persistent_round dep runnable qs set changed).0 q ≡ true
  unfolding persistent_round
  round-more [] set changed q h = h
  round-more (x ∷ qs) set changed q h = round-more qs _ _ q (ground arith)

  -- A round adds only threads of the list.
  pub round-within :
      (qs : List ℕ) (set : Mask) (changed : Bool) (q : ℕ)
      → (persistent_round dep runnable qs set changed).0 q ≡ true
      → (set q ≡ true) ⊎ (contains qs q ≡ true)
  unfolding persistent_round contains
  round-within [] set changed q h = inl h
  round-within (x ∷ qs) set changed q h = let ih = round-within qs _ _ q h in ground arith

  round-grow :
      (x : ℕ) (qs : List ℕ) (set : Mask) (changed : Bool)
      → (not (set x) && depends_on_set dep set x runnable) ≡ true
      → persistent_round dep runnable (x ∷ qs) set changed
        ≡ persistent_round dep runnable qs (mask_add set x) true
  unfolding persistent_round
  round-grow x qs set changed h =
      ap
        (λ g.
          persistent_round dep runnable qs (if g then mask_add set x else set)
            (if g then true else changed))
        h

  round-stay :
      (x : ℕ) (qs : List ℕ) (set : Mask) (changed : Bool)
      → (not (set x) && depends_on_set dep set x runnable) ≡ false
      → persistent_round dep runnable (x ∷ qs) set changed
        ≡ persistent_round dep runnable qs set changed
  unfolding persistent_round
  round-stay x qs set changed h =
      ap
        (λ g.
          persistent_round dep runnable qs (if g then mask_add set x else set)
            (if g then true else changed))
        h

  round-flag : (qs : List ℕ) (set : Mask) → (persistent_round dep runnable qs set true).1 ≡ true
  unfolding persistent_round
  round-flag [] set = refl
  round-flag (x ∷ qs) set = elim (Bool-cases (not (set x) && depends_on_set dep set x runnable)) [
    | inl grow ↦ rw (round-grow x qs set true grow) (round-flag qs (mask_add set x))
    | inr stay ↦ rw (round-stay x qs set true stay) (round-flag qs set)
  ]

  -- A round that reports no change leaves the set as it is, and no thread depended on it.
  round-unchanged :
      (qs : List ℕ) (set : Mask)
      → (persistent_round dep runnable qs set false).1 ≡ false
      → ((persistent_round dep runnable qs set false).0 ≡ set)
        × ((q : ℕ)
            → contains qs q ≡ true
            → set q ≡ false
            → depends_on_set dep set q runnable ≡ false)
  unfolding persistent_round contains
  round-unchanged [] set h = (refl, λ q in_l out. cc)
  round-unchanged (x ∷ qs) set h =
      elim (Bool-cases (not (set x) && depends_on_set dep set x runnable)) [
        | inl grow ↦
            let next = round-grow x qs set false grow in
            let flag = round-flag qs (mask_add set x) in
            let clash : true ≡ false = sym flag ∙ sym (ap (λ m. m.1) next) ∙ h in cc
        | inr stay ↦
            let next = round-stay x qs set false stay in
            let (same, none) = round-unchanged qs set (sym (ap (λ m. m.1) next) ∙ h) in
            (
              ap (λ m. m.0) next ∙ same,
              λ q in_l out. elim (Bool-cases (x == q)) [
                | inl here ↦
                    let eq : q ≡ x = ground arith in
                    rw eq (let out' = ap set (sym eq) ∙ out in ground arith)
                | inr later ↦ none q (ground arith) out
              ],
            )
      ]

  -- A round that reports a change adds a thread.
  round-changed :
      (qs : List ℕ) (set : Mask)
      → (persistent_round dep runnable qs set false).1 ≡ true
      → (q : ℕ) × ((contains qs q ≡ true)
          × ((set q ≡ false) × ((persistent_round dep runnable qs set false).0 q ≡ true)))
  unfolding persistent_round contains
  round-changed [] set h = cc
  round-changed (x ∷ qs) set h =
      elim (Bool-cases (not (set x) && depends_on_set dep set x runnable)) [
        | inl grow ↦ (
          x,
          (
            ground arith,
            (
              ground arith,
              ap (λ m. m.0 x) (round-grow x qs set false grow)
                  ∙ round-more qs (mask_add set x) true x (ground arith),
            ),
          ),
        )
        | inr stay ↦
            let next = round-stay x qs set false stay in
            let (q, (in_l, (out, into))) = round-changed qs set (sym (ap (λ m. m.1) next) ∙ h) in
            (q, (ground arith, (out, ap (λ m. m.0 q) next ∙ into)))
      ]

  pub round-IsClosed :
      (set : Mask)
      → (persistent_round dep runnable runnable set false).1 ≡ false
      → IsClosed dep runnable (persistent_round dep runnable runnable set false).0
  round-IsClosed set h =
      let (same, none) = round-unchanged runnable set h in
      rw same (λ q p q_in q_out p_in p_set.
        depends_on_set-none dep set q runnable (none q q_in q_out) p p_in p_set)

  pub round-less :
      (set : Mask)
      → (persistent_round dep runnable runnable set false).1 ≡ true
      → count_not (persistent_round dep runnable runnable set false).0 runnable
        < count_not set runnable
  round-less set h =
      let (q, (q_in, (q_out, q_set))) = round-changed runnable set h in
      count_not-less set (persistent_round dep runnable runnable set false).0 runnable
        (round-more runnable set false) q q_in q_out q_set
