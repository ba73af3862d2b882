-- ===== src/Dpor/Sleep.antt =====
-- The sleep sets of src/dpor.c.
use chibios_smash.Base.{
  ℕ, ◌+◌, ◌<◌, ◌≡◌, refl, ap, ◌∙◌, true, false, not, ◌&&◌, ◌||◌, inl, inr, Bool-cases, arith, ◌==◌,
  all_below_sound, List, [], ◌∷◌, contains,
}
use chibios_smash.Types.{max_depth}
use chibios_smash.Dpor.{
  Mask, Dpor, mask_bits, mask_is_zero, sleep_contains, sleep_add, propagate_from, sleep_propagate,
}

-- Adding a thread at a depth within the limit makes it sleep at that depth, and changes no other
-- depth and no other thread.
pub sleep_contains-sleep_add :
    (d : Dpor) (depth tid at t : ℕ)
    → depth < max_depth
    → sleep_contains (sleep_add d depth tid) at t
      ≡ ((at == depth && t == tid) || sleep_contains d at t)
unfolding sleep_contains sleep_add
sleep_contains-sleep_add d depth tid at t lt = ground arith

-- One round of the loop.
propagate_from-sleeps :
    (prev : Mask) (depth x : ℕ) (xs : List ℕ) (d : Dpor)
    → prev x ≡ true
    → propagate_from prev depth d (x ∷ xs)
      ≡ propagate_from prev depth (sleep_add d (depth + 1) x) xs
unfolding propagate_from
propagate_from-sleeps prev depth x xs d sleeps = rw sleeps refl

propagate_from-wakes :
    (prev : Mask) (depth x : ℕ) (xs : List ℕ) (d : Dpor)
    → prev x ≡ false
    → propagate_from prev depth d (x ∷ xs) ≡ propagate_from prev depth d xs
unfolding propagate_from
propagate_from-wakes prev depth x xs d wakes = rw wakes refl

propagate_from-nil :
    (prev : Mask) (depth : ℕ) (d : Dpor) (at t : ℕ)
    → sleep_contains (propagate_from prev depth d []) at t
      ≡ ((at == (depth + 1) && (false && prev t)) || sleep_contains d at t)
unfolding propagate_from
propagate_from-nil prev depth d at t = ground arith

sleep_contains-at :
    (d : Dpor) (depth t : ℕ) → depth < max_depth → sleep_contains d depth t ≡ d.sleep_set depth t
unfolding sleep_contains
sleep_contains-at d depth t lt = ground arith

mask_is_zero-bit : (m : Mask) → mask_is_zero m ≡ true → (b : ℕ) → b < mask_bits → m b ≡ false
unfolding mask_is_zero
mask_is_zero-bit m h b lt =
    let bit = all_below_sound mask_bits (λ i. not (m i)) h b lt in ground arith

propagate_from-contains :
    (prev : Mask) (depth : ℕ) (runnable : List ℕ) (d : Dpor) (at t : ℕ)
    → depth + 1 < max_depth
    → sleep_contains (propagate_from prev depth d runnable) at t
      ≡ ((at == (depth + 1) && (contains runnable t && prev t)) || sleep_contains d at t)
unfolding contains
propagate_from-contains prev depth [] d at t lt = propagate_from-nil prev depth d at t
propagate_from-contains prev depth (x ∷ xs) d at t lt = elim (Bool-cases (prev x)) [
  | inl sleeps ↦
      let add = sleep_contains-sleep_add d (depth + 1) x at t lt in
      let ih = propagate_from-contains prev depth xs (sleep_add d (depth + 1) x) at t lt in
      rw (propagate_from-sleeps prev depth x xs d sleeps) (elim (Bool-cases (x == t)) [
        | inl same ↦
            let eq : t ≡ x = ground arith in
            let sleeps' = ap prev eq ∙ sleeps in rw same (ground (arith, ih, add))
        | inr ne ↦ rw ne (ground (arith, ih, add))
      ])
  | inr wakes ↦
      let ih = propagate_from-contains prev depth xs d at t lt in
      rw (propagate_from-wakes prev depth x xs d wakes) (elim (Bool-cases (x == t)) [
        | inl same ↦
            let eq : t ≡ x = ground arith in
            let wakes' = ap prev eq ∙ wakes in rw same (ground (arith, ih))
        | inr ne ↦ rw ne (ground (arith, ih))
      ])
]

-- For runnable threads with ids below 32 and a depth that is not the last one, the threads that
-- sleep at the next depth after the propagation are those that slept there before, and the runnable
-- ones that sleep at this depth; at any other depth nothing changes.
pub sleep_propagate-contains :
    (d : Dpor) (depth : ℕ) (runnable : List ℕ) (at t : ℕ)
    → depth + 1 < max_depth
    → ((q : ℕ) → contains runnable q ≡ true → q < mask_bits)
    → sleep_contains (sleep_propagate d depth runnable) at t ≡ (
        (at == (depth + 1) && (contains runnable t && sleep_contains d depth t))
        || sleep_contains d at t)
unfolding sleep_propagate
sleep_propagate-contains d depth runnable at t lt small =
    let run = propagate_from-contains (d.sleep_set depth) depth runnable d at t lt in
    let here = sleep_contains-at d depth t (omega arith) in
    elim (Bool-cases (mask_is_zero (d.sleep_set depth))) [
      | inl none_sleeps ↦
          let zero_bit = mask_is_zero-bit (d.sleep_set depth) none_sleeps t in
          let in_word = small t in ground (arith, here, zero_bit, in_word)
      | inr some_sleep ↦ ground (arith, run, here)
    ]
