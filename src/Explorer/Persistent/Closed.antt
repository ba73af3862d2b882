-- ===== src/Explorer/Persistent/Closed.antt =====
-- The fixed point that `compute_persistent_set` of src/explorer.c reaches.
use chibios_smash.Base.{
  ℕ, zero, suc, ◌+◌, ◌<◌, ◌≤◌, ◌≡◌, refl, Bool, true, false, not, ◌&&◌, inl, inr, if◌then◌else◌,
  Bool-cases, arith, List, [], ◌∷◌, contains, count_not, all_below_sound,
}
use chibios_smash.Types.{Engine}
use chibios_smash.Engine.Threads.{length}
use chibios_smash.Dpor.{Mask, empty_mask, mask_add, mask_bits}
use chibios_smash.Explorer.Persistent.{
  mask_eq, mask_of, persistent_round, persistent_loop, next_dependent, compute_persistent_set,
}
use chibios_smash.Explorer.Persistent.Round.{
  IsClosed, mask_of-adds, round-more, round-within, round-IsClosed, round-less,
}

module _ (dep : ℕ → ℕ → Bool) (runnable : List ℕ) where
  mask_of-runnable : (q : ℕ) → contains runnable q ≡ true → mask_of runnable q ≡ true
  unfolding mask_of
  mask_of-runnable q q_in = mask_of-adds runnable empty_mask q (inr q_in)

  full-IsClosed :
      (set : Mask)
      → ((q : ℕ) → contains runnable q ≡ true → q < mask_bits)
      → mask_eq set (mask_of runnable) ≡ true
      → IsClosed dep runnable set
  unfolding mask_eq
  full-IsClosed set small full q p q_in q_out p_in p_set =
      let bit =
        all_below_sound mask_bits
          (λ i. if set i then mask_of runnable i else not (mask_of runnable i)) full q
          (small q q_in) in
      let in_full = mask_of-runnable q q_in in ground arith

  -- What the loop needs: the flag says whether the last round added a thread, and then the fuel
  -- exceeds the number of threads that are left.
  loop-IsClosed :
      (fuel : ℕ) (set : Mask) (changed : Bool)
      → ((q : ℕ) → contains runnable q ≡ true → q < mask_bits)
      → (changed ≡ false → IsClosed dep runnable set)
      → (changed ≡ true → count_not set runnable < fuel)
      → IsClosed dep runnable (persistent_loop fuel dep runnable set changed)
  unfolding persistent_loop
  loop-IsClosed zero set false small closed enough = closed refl
  loop-IsClosed zero set true small closed enough = elim (enough refl) [ ]
  loop-IsClosed (suc fuel) set false small closed enough = closed refl
  loop-IsClosed (suc fuel) set true small closed enough =
      elim (Bool-cases (mask_eq set (mask_of runnable))) [
        | inl full ↦ rw full (full-IsClosed set small full)
        | inr part ↦ rw part (
            loop-IsClosed fuel (persistent_round dep runnable runnable set false).0
              (persistent_round dep runnable runnable set false).1 small
              (round-IsClosed dep runnable set)
              (λ h.
                let less = round-less dep runnable set h in let room = enough refl in omega arith))
      ]

  loop-more :
      (fuel : ℕ) (set : Mask) (changed : Bool) (q : ℕ)
      → set q ≡ true
      → persistent_loop fuel dep runnable set changed q ≡ true
  unfolding persistent_loop
  loop-more zero set changed q h = h
  loop-more (suc fuel) set changed q h =
      let ih =
        loop-more fuel (persistent_round dep runnable runnable set false).0
          (persistent_round dep runnable runnable set false).1 q
          (round-more dep runnable runnable set false q h) in
      elim (Bool-cases (changed && not (mask_eq set (mask_of runnable)))) [
        | inl more ↦ rw more ih
        | inr stop ↦ rw stop h
      ]

  loop-within :
      (fuel : ℕ) (set : Mask) (changed : Bool)
      → ((q : ℕ) → set q ≡ true → contains runnable q ≡ true)
      → (q : ℕ) → persistent_loop fuel dep runnable set changed q ≡ true
      → contains runnable q ≡ true
  unfolding persistent_loop
  loop-within zero set changed within q h = within q h
  loop-within (suc fuel) set changed within q h =
      elim (Bool-cases (changed && not (mask_eq set (mask_of runnable)))) [
        | inl more ↦
            loop-within fuel (persistent_round dep runnable runnable set false).0
              (persistent_round dep runnable runnable set false).1
              (λ t t_set. elim (round-within dep runnable runnable set false t t_set) [
                | inl old ↦ within t old
                | inr new ↦ new
              ])
              q (ground arith)
        | inr stop ↦ within q (ground arith)
      ]

seed-within :
    (t : ℕ) (ts : List ℕ) (q : ℕ) → mask_add empty_mask t q ≡ true → contains (t ∷ ts) q ≡ true
unfolding contains
seed-within t ts q h = ground arith

count_not-length : (set : Mask) (l : List ℕ) → count_not set l ≤ length l
unfolding count_not
count_not-length set [] = omega arith
count_not-length set (x ∷ xs) = let ih = count_not-length set xs in ground arith

-- A set of runnable threads, with the first one, on which no other runnable thread depends.
pub record IsPersistent (dep : ℕ → ℕ → Bool) (first : ℕ) (runnable : List ℕ) (set : Mask)
    : Type 0 where
  seed : set first ≡ true
  runnable_only : (q : ℕ) → set q ≡ true → contains runnable q ≡ true
  closed : IsClosed dep runnable set

-- For a list of runnable threads with ids below 32, the loop of the source reaches its fixed point:
-- the set it returns holds the first runnable thread and only runnable ones, and the next action of
-- a runnable thread outside it is independent of the next action of each thread in it.
pub compute_persistent_set-IsPersistent :
    (e : Engine) (t : ℕ) (ts : List ℕ)
    → ((q : ℕ) → contains (t ∷ ts) q ≡ true → q < mask_bits)
    → IsPersistent (next_dependent e) t (t ∷ ts) (compute_persistent_set e (t ∷ ts))
unfolding compute_persistent_set
compute_persistent_set-IsPersistent e t ts small = record {
  seed =
      loop-more (next_dependent e) (t ∷ ts) (length (t ∷ ts) + 1) (mask_add empty_mask t) true t
        (ground arith);
  runnable_only =
      loop-within (next_dependent e) (t ∷ ts) (length (t ∷ ts) + 1) (mask_add empty_mask t) true
        (λ q h. seed-within t ts q h);
  closed =
      loop-IsClosed (next_dependent e) (t ∷ ts) (length (t ∷ ts) + 1) (mask_add empty_mask t) true
        small (λ h. cc)
        (λ h. let few = count_not-length (mask_add empty_mask t) (t ∷ ts) in omega arith);
}
