-- ===== src/Explorer/Minimize/Shorter.antt =====
-- What the minimisation of src/trace.c returns, and that its loops end.
use mathlib.Core.List.{Sublistᴰ}
use mathlib.Core.List.Sublistᴰ
use chibios_smash.Base.{
  ℕ, zero, suc, ◌+◌, ◌/◌, ◌≤◌, ◌<◌, ◌≡◌, refl, true, false, ◌||◌, ltb, leb, ◌==◌, Bool-cases, inl,
  inr, arith, List, [], ◌∷◌,
}
use chibios_smash.Types.{Scenario, Engine}
use chibios_smash.Engine.Threads.{length}
use chibios_smash.Explorer.Minimize.{
  without, trial_run, still_fails, Minimizer, try_chunks, try_sizes, trace_minimize,
}

length_of_sublist : {a b : List ℕ} → Sublistᴰ a b → length a ≤ length b
length_of_sublist Sublistᴰ.slnil = omega arith
length_of_sublist (Sublistᴰ.cons s) = let ih = length_of_sublist s in omega arith
length_of_sublist (Sublistᴰ.cons-cons e s) = let ih = length_of_sublist s in omega arith

without-sublist : (start chunk i : ℕ) (l : List ℕ) → Sublistᴰ (without start chunk i l) l
unfolding without
without-sublist start chunk i [] = Sublistᴰ.slnil
without-sublist start chunk i (t ∷ ts) = elim (Bool-cases (ltb i start || leb (start + chunk) i)) [
  | inl kept ↦ rw kept (Sublistᴰ.cons-cons refl (without-sublist start chunk (i + 1) ts))
  | inr dropped ↦ rw dropped (Sublistᴰ.cons (without-sublist start chunk (i + 1) ts))
]

-- A trial leaves out at least one entry if the chunk is not empty and begins in the list.
without-shorter :
    (start chunk i : ℕ) (l : List ℕ)
    → i ≤ start
    → start < i + length l
    → 0 < chunk
    → length (without start chunk i l) < length l
unfolding without
without-shorter start chunk i [] before inside some_in = absurd (omega arith)
without-shorter start chunk i (t ∷ ts) before inside some_in =
    let le = length_of_sublist (without-sublist start chunk (i + 1) ts) in
    elim (Bool-cases (ltb i start || leb (start + chunk) i)) [
      | inl kept ↦
          let ih = without-shorter start chunk (i + 1) ts (ground arith) (omega arith) some_in in
          rw kept (omega arith)
      | inr dropped ↦ rw dropped (omega arith)
    ]

-- The loop that moves `start` ends by its own test where the fuel exceeds the rest of the schedule.
try_chunks-fuel :
    (fuel more : ℕ) (sc : Scenario) (chunk start : ℕ) (m : Minimizer)
    → fuel ≤ more
    → 0 < chunk
    → length m.schedule < fuel + start
    → try_chunks more sc chunk start m ≡ try_chunks fuel sc chunk start m
unfolding try_chunks
try_chunks-fuel zero zero sc chunk start m le some_in enough = refl
try_chunks-fuel zero (suc more) sc chunk start m le some_in enough =
    let past : leb (start + chunk) (length m.schedule) ≡ false = ground arith in rw past refl
try_chunks-fuel (suc fuel) zero sc chunk start m le some_in enough = elim le [ ]
try_chunks-fuel (suc fuel) (suc more) sc chunk start m le some_in enough =
    elim (Bool-cases (leb (start + chunk) (length m.schedule))) [
      | inr past ↦ rw past refl
      | inl inside ↦
          let trial = without start chunk 0 m.schedule in
          let shorter =
            without-shorter start chunk 0 m.schedule (omega arith) (ground arith) some_in in
          elim (Bool-cases (still_fails (trial_run sc trial))) [
            | inl keep ↦
                rw (inside, keep)
                  (try_chunks-fuel fuel more sc chunk start
                    (record { engine = trial_run sc trial; schedule = trial }) (omega arith) some_in
                    (omega arith))
            | inr drop ↦
                rw (inside, drop)
                  (try_chunks-fuel fuel more sc chunk (start + chunk)
                    (record { engine = trial_run sc trial; schedule = m.schedule }) (omega arith)
                    some_in (omega arith))
          ]
    ]

-- The schedule was shortened from `old` by leaving out entries, and its run fails if that of `old` does.
record IsReduction (sc : Scenario) (old new : List ℕ) : Type 0 where
  sublist : Sublistᴰ new old
  fails : still_fails (trial_run sc old) ≡ true → still_fails (trial_run sc new) ≡ true

IsReduction-refl : (sc : Scenario) (l : List ℕ) → IsReduction sc l l
IsReduction-refl sc l = record { sublist = Sublistᴰ.refl l; fails = λ h. h }

IsReduction-trans :
    (sc : Scenario) (a b c : List ℕ) → IsReduction sc a b → IsReduction sc b c → IsReduction sc a c
IsReduction-trans sc a b c h k = record {
  sublist = Sublistᴰ.trans k.sublist h.sublist;
  fails = λ f. k.fails (h.fails f);
}

try_chunks-IsReduction :
    (fuel : ℕ) (sc : Scenario) (chunk start : ℕ) (m : Minimizer)
    → IsReduction sc m.schedule (try_chunks fuel sc chunk start m).schedule
unfolding try_chunks
try_chunks-IsReduction zero sc chunk start m = IsReduction-refl sc m.schedule
try_chunks-IsReduction (suc fuel) sc chunk start m =
    let trial = without start chunk 0 m.schedule in
    let e = trial_run sc trial in
    elim (Bool-cases (leb (start + chunk) (length m.schedule))) [
      | inr past ↦ rw past (IsReduction-refl sc m.schedule)
      | inl inside ↦ elim (Bool-cases (still_fails e)) [
        | inl keep ↦
            rw (inside, keep)
              (IsReduction-trans sc m.schedule trial _
                (record { sublist = without-sublist start chunk 0 m.schedule; fails = λ f. keep })
                (try_chunks-IsReduction fuel sc chunk start
                  (record { engine = e; schedule = trial })))
        | inr drop ↦
            rw (inside, drop)
              (try_chunks-IsReduction fuel sc chunk (start + chunk)
                (record { engine = e; schedule = m.schedule }))
      ]
    ]

try_sizes-IsReduction :
    (fuel : ℕ) (sc : Scenario) (chunk : ℕ) (m : Minimizer)
    → IsReduction sc m.schedule (try_sizes fuel sc chunk m).schedule
unfolding try_sizes
try_sizes-IsReduction zero sc chunk m = IsReduction-refl sc m.schedule
try_sizes-IsReduction (suc fuel) sc chunk m =
    let once = try_chunks (length m.schedule + 1) sc chunk 0 m in
    elim (Bool-cases (leb 1 chunk)) [
      | inr small ↦ rw small (IsReduction-refl sc m.schedule)
      | inl more ↦ rw more (
          IsReduction-trans sc m.schedule once.schedule _
            (try_chunks-IsReduction (length m.schedule + 1) sc chunk 0 m)
            (try_sizes-IsReduction fuel sc (chunk / 2) once))
    ]

module _ (sc : Scenario) (e : Engine) (schedule : List ℕ) where
  trace_minimize-IsReduction : IsReduction sc schedule (trace_minimize sc e schedule).0.schedule
  unfolding trace_minimize
  trace_minimize-IsReduction =
      let reduced =
        try_sizes-IsReduction (length schedule + 1) sc (length schedule / 2)
          (record { engine = e; schedule = schedule }) in
      elim (Bool-cases (length schedule == 0)) [
        | inl empty ↦ rw empty (IsReduction-refl sc schedule)
        | inr filled ↦ rw filled reduced
      ]

  -- The minimised schedule is the given one with entries left out, as many as the number that is
  -- returned.
  pub trace_minimize-sublist :
      let (end, removed) = trace_minimize sc e schedule in
      Sublistᴰ end.schedule schedule × (length end.schedule + removed ≡ length schedule)
  unfolding trace_minimize
  trace_minimize-sublist =
      let reduced =
        try_sizes-IsReduction (length schedule + 1) sc (length schedule / 2)
          (record { engine = e; schedule = schedule }) in
      let le = length_of_sublist reduced.sublist in
      elim (Bool-cases (length schedule == 0)) [
        | inl empty ↦ rw empty (Sublistᴰ.refl schedule, omega arith)
        | inr filled ↦ rw filled (reduced.sublist, omega arith)
      ]

  -- If the run of the given schedule fails, by a failure, a check or a deadlock, then so does the run
  -- of the minimised one.
  pub trace_minimize-still_fails :
      still_fails (trial_run sc schedule) ≡ true
      → still_fails (trial_run sc (trace_minimize sc e schedule).0.schedule) ≡ true
  trace_minimize-still_fails = trace_minimize-IsReduction.fails
