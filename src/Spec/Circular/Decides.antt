-- ===== src/Spec/Circular/Decides.antt =====
-- What the circular-wait check decides.
use mathlib.Core.Path.{subst}
use mathlib.Core.Option.{some_inj}
use chibios_smash.Base.{
  ℕ, zero, suc, ◌-◌, ◌*◌, ◌≤◌, ◌<◌, ◌≡◌, ◌≢◌, ◌↔◌, refl, sym, inl, inr, Bool, true, false, not,
  ◌||◌, none, some, List, [], ◌∷◌, contains, Bool-cases, ap, ◌∙◌, arith, ℕ_discrete,
}
use chibios_smash.Spec.Circular.{
  Frame, Dfs, Found, back_edge, descend, exhausted, Outcome, acyclic, cycle, out_of_fuel, scan,
  push, take, round, start_from, start_next, from_starts, passed,
}
use chibios_smash.Spec.Circular.Walks.{Walk, one, more, nodes, finished, scan-descend}
use chibios_smash.Spec.Circular.Ends.{
  depth, work, take-work, Ended, at_end, at_cycle, at_zero, dfs_loop_rule, work-push,
}
use chibios_smash.Spec.Circular.Invariant.{
  IsSearch, back_edge-Walk, advance-IsSearch, push-IsSearch, pop-IsSearch, IsSearch-start, bottom,
}

first : {edge : ℕ → ℕ → Bool} {a b : ℕ} → Walk edge a b → (c : ℕ) × (edge a c ≡ true)
first (one {b = b} e) = (b, e)
first (more {b = b} e w) = (b, e)

module _ (n : ℕ) (edge : ℕ → ℕ → Bool) (bounded : (v w : ℕ) → edge v w ≡ true → v < n) where
  take-IsSearch :
      (s t : Dfs) (f : Frame) (below : List Frame) (found : Found)
      → IsSearch n edge none s
      → s.stack ≡ f ∷ below
      → scan n edge s f.node (n - f.ptr) f.ptr ≡ found
      → take n edge s f below found ≡ some t
      → IsSearch n edge none t
  unfolding take
  take-IsSearch s t f below (back_edge v) ok top e h = cc
  take-IsSearch s t f below (descend v) ok top e h =
      let (_, new, _, _) = scan-descend n edge s f.node (n - f.ptr) f.ptr v e in
      subst (IsSearch n edge none) (some_inj.0 h)
        (push-IsSearch n edge _ v (advance-IsSearch n edge s f below v ok top e) new)
  take-IsSearch s t f below exhausted ok top e h =
      subst (IsSearch n edge none) (some_inj.0 h) (pop-IsSearch n edge s f below bounded ok top e)

  take-visited :
      (s t : Dfs) (f : Frame) (below : List Frame) (found : Found)
      → take n edge s f below found ≡ some t
      → (v : ℕ) → s.visited v ≡ true
      → t.visited v ≡ true
  unfolding take push
  take-visited s t f below (back_edge v) h w seen = cc
  take-visited s t f below (descend v) h w seen = ground arith
  take-visited s t f below exhausted h w seen = ground arith

  take-none :
      (s : Dfs) (f : Frame) (below : List Frame) (found : Found)
      → IsSearch n edge none s
      → s.stack ≡ f ∷ below
      → scan n edge s f.node (n - f.ptr) f.ptr ≡ found
      → take n edge s f below found ≡ none
      → (v : ℕ) × Walk edge v v
  unfolding take
  take-none s f below (back_edge v) ok top e h = (v, back_edge-Walk n edge s f below v ok top e)
  take-none s f below (descend v) ok top e h = cc
  take-none s f below exhausted ok top e h = cc

  -- A run from `start`, with the fuel that is left.
  record IsRun (start : Dfs) (fuel : ℕ) (s : Dfs) : Type 0 where
    searching : IsSearch n edge none s
    enough : work n edge s ≤ fuel
    more_seen : (v : ℕ) → start.visited v ≡ true → s.visited v ≡ true

  round-IsRun :
      (start : Dfs) (fuel : ℕ) (s t : Dfs) (f : Frame) (below : List Frame)
      → s.stack ≡ f ∷ below
      → round n edge s f below ≡ some t
      → IsRun start (suc fuel) s
      → IsRun start fuel t
  unfolding round
  round-IsRun start fuel s t f below top go ok = record {
    searching = take-IsSearch s t f below _ ok.searching top refl go;
    enough = omega (arith, ok.enough, take-work n edge s t f below _ top refl go);
    more_seen = λ v seen. take-visited s t f below _ go v (ok.more_seen v seen);
  }

  -- The verdict of the starts below a number.
  pub data Verdict (blocked : ℕ → Bool) (start : ℕ) : Outcome → Type 0 where
    passes :
        {s : Dfs}
        → IsSearch n edge none s
        → s.stack ≡ []
        → ((v : ℕ) → v < start → blocked v ≡ true → s.visited v ≡ true)
        → Verdict blocked start (acyclic s)
    finds : {v : ℕ} → Walk edge v v → Verdict blocked start cycle

  Ended-Verdict :
      (blocked : ℕ → Bool) (start : ℕ) (from : Dfs) {o : Outcome}
      → ((v : ℕ) → v < start → blocked v ≡ true → from.visited v ≡ true)
      → Ended n edge (IsRun from) o
      → Verdict blocked start o
  unfolding round work depth
  Ended-Verdict blocked start from seen (at_end run top) =
      passes run.searching top (λ v lt b. run.more_seen v (seen v lt b))
  Ended-Verdict blocked start from seen (at_cycle {t = t} {f = f} {below = below} run top stop) =
      let (v, w) = take-none t f below _ run.searching top refl stop in finds w
  Ended-Verdict blocked start from seen (at_zero run top) =
      absurd (omega (arith, run.enough, ap depth top))

  start_from-Verdict :
      (blocked : ℕ → Bool) (start : ℕ) (s : Dfs)
      → start < n
      → IsSearch n edge none s
      → s.stack ≡ []
      → ((v : ℕ) → v < start → blocked v ≡ true → s.visited v ≡ true)
      → Verdict blocked (suc start) (start_from n edge blocked start s)
  unfolding start_from push
  start_from-Verdict blocked start s lt ok empty seen =
      elim (Bool-cases (s.visited start || not (blocked start))) [
        | inl skip ↦ rw skip (
            passes ok empty (λ v lt' b. elim (ℕ_discrete v start) [
              | yes here ↦
                  subst (λ x. s.visited x ≡ true) (sym here)
                    (let b' = subst (λ x. blocked x ≡ true) here b in ground arith)
              | no below ↦ seen v (omega arith) b
            ]))
        | inr go ↦
            let new : s.visited start ≡ false = ground arith in
            let from = push n edge start s in
            let pushed =
              push-IsSearch n edge s start (IsSearch-start n edge s start ok empty) new in
            let run : IsRun from (2 * n) from = record {
              searching = pushed;
              enough = work-push n edge s start lt new empty;
              more_seen = λ v seen. seen;
            } in
            rw go (
              Ended-Verdict blocked (suc start) from
                (λ v lt' b. elim (ℕ_discrete v start) [
                  | yes here ↦ ground (arith, here)
                  | no below ↦ let old = seen v (omega arith) b in ground (arith, old)
                ])
                (dfs_loop_rule n edge (IsRun from) (round-IsRun from) (2 * n) from run))
      ]

  start_next-Verdict :
      (blocked : ℕ → Bool) (start : ℕ) (o : Outcome)
      → start < n
      → Verdict blocked start o
      → Verdict blocked (suc start) (start_next n edge (start_from n edge blocked start) o)
  unfolding start_next
  start_next-Verdict blocked start (acyclic s) lt (passes ok empty seen) =
      start_from-Verdict blocked start s lt ok empty seen
  start_next-Verdict blocked start cycle lt (finds w) = finds w
  start_next-Verdict blocked start out_of_fuel lt v = elim v [ ]

  pub from_starts-Verdict :
      (blocked : ℕ → Bool) (start : ℕ)
      → start ≤ n
      → Verdict blocked start (from_starts n edge blocked start)
  unfolding from_starts finished contains nodes
  from_starts-Verdict blocked zero le =
      passes (record { held = λ v. refl; seen = λ v h. h; framed = bottom; clear = λ v h. cc }) refl
        (λ v lt. absurd (omega arith))
  from_starts-Verdict blocked (suc start) le =
      start_next-Verdict blocked start (from_starts n edge blocked start) le
        (from_starts-Verdict blocked start (omega arith))

  -- A search of all threads passes exactly when there is no cycle.
  pub Verdict-iff :
      (blocked : ℕ → Bool) (o : Outcome)
      → ((v w : ℕ) → edge v w ≡ true → blocked v ≡ true)
      → Verdict blocked n o
      → (passed o ≡ true) ↔ ¬ ((v : ℕ) × Walk edge v v)
  unfolding passed finished contains nodes
  Verdict-iff blocked (acyclic s) sources (passes ok empty seen) = (λ _. acyclic_all, λ _. refl)
    where
      left : (v : ℕ) → v < n → blocked v ≡ true → finished s v ≡ true
      left v lt b =
          let h = ok.held v ∙ ap (λ l. contains (nodes l) v) empty in
          let i = seen v lt b in ground (arith, h, i)

      acyclic_all : ¬ ((v : ℕ) × Walk edge v v)
      acyclic_all (v, w) =
          let (u, e) = first w in ok.clear v (left v (bounded v u e) (sources v u e)) w
  Verdict-iff blocked cycle sources (finds {v = v} w) =
      (λ h. cc, λ none_at. absurd (none_at (v, w)))
  Verdict-iff blocked out_of_fuel sources v = elim v [ ]

  pub Verdict-ends :
      (blocked : ℕ → Bool) (start : ℕ) (o : Outcome) → Verdict blocked start o → o ≢ out_of_fuel
  Verdict-ends blocked start (acyclic s) v h = cc
  Verdict-ends blocked start cycle v h = cc
  Verdict-ends blocked start out_of_fuel v h = elim v [ ]
