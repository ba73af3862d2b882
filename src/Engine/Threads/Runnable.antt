-- ===== src/Engine/Threads/Runnable.antt =====
-- The list of runnable threads of src/engine.c is complete, and what its emptiness means.
use chibios_smash.Base.{
  ℕ, suc, ◌+◌, ◌≤◌, ◌<◌, ◌≡◌, true, ◌&&◌, ◌||◌, ltb, ◌==◌, if◌then◌else◌, for_up_inv, Bool-cases,
  inl, inr, arith, List, [], ◌∷◌, ◌++◌, contains,
}
use chibios_smash.Types.{is_ready, Engine}
use chibios_smash.Model.Queue.{thread_count}
use chibios_smash.Engine.Threads.{length, collect_runnable}

contains-++ : (l : List ℕ) (i q : ℕ) → contains (l ++ (i ∷ [])) q ≡ (contains l q || (i == q))
unfolding contains
contains-++ [] i q = ground arith
contains-++ (x ∷ xs) i q = ground (arith, contains-++ xs i q)

length-++ : (l : List ℕ) (i : ℕ) → length (l ++ (i ∷ [])) ≡ length l + 1
length-++ [] i = omega arith
length-++ (x ∷ xs) i = ground (arith, length-++ xs i)

-- After `i` rounds the list holds the ready threads below `i`.
record IsCollected (e : Engine) (i : ℕ) (out : List ℕ) : Type 0 where
  short : length out ≤ i
  holds : (q : ℕ) → contains out q ≡ (ltb q i && is_ready (e.threads q).state)

start_holds : (e : Engine) (q : ℕ) → contains [] q ≡ (ltb q 0 && is_ready (e.threads q).state)
unfolding contains
start_holds e q = ground arith

IsCollected-step :
    (e : Engine) (max i : ℕ) (out : List ℕ)
    → i < max
    → IsCollected e i out
    → IsCollected e
        (suc i)
        (if ltb (length out) max && is_ready (e.threads i).state then out ++ (i ∷ []) else out)
IsCollected-step e max i out lt h = elim (Bool-cases (is_ready (e.threads i).state)) [
  | inl ready ↦
      let room : ltb (length out) max ≡ true = ground (arith, h.short) in
      rw (room, ready)
        (record {
          short = omega (arith, h.short, length-++ out i);
          holds = λ q. elim (Bool-cases (i == q)) [
            | inl here ↦
                let eq : q ≡ i = ground arith in rw eq (ground (arith, contains-++ out i i, ready))
            | inr other ↦ ground (arith, contains-++ out i q, h.holds q)
          ];
        })
  | inr other ↦ rw other (record {
    short = ground (arith, h.short);
    holds = λ q. elim (Bool-cases (i == q)) [
      | inl here ↦ let eq : q ≡ i = ground arith in rw eq (ground (arith, h.holds i, other))
      | inr ne ↦ ground (arith, h.holds q)
    ];
  })
]

pub contains-nonempty : (l : List ℕ) (q : ℕ) → contains l q ≡ true → 0 < length l
unfolding contains
contains-nonempty [] q h = cc
contains-nonempty (x ∷ xs) q h = omega arith

pub nonempty-contains : (l : List ℕ) → 0 < length l → (q : ℕ) × (contains l q ≡ true)
unfolding contains
nonempty-contains [] h = elim h [ ]
nonempty-contains (x ∷ xs) h = (x, ground arith)

-- If the list has room for every thread, it holds exactly the threads of the scenario that are ready.
pub contains-collect_runnable :
    (e : Engine) (max q : ℕ)
    → thread_count e ≤ max
    → contains (collect_runnable e max) q ≡ (ltb q (thread_count e) && is_ready (e.threads q).state)
unfolding collect_runnable
contains-collect_runnable e max q room =
    (for_up_inv (IsCollected e) _ [] (thread_count e)
        (record { short = omega arith; holds = λ t. start_holds e t })
        (λ i out lt h. IsCollected-step e max i out (omega arith) h)).holds
      q
