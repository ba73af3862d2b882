-- ===== src/Spec/Circular/Ends.antt =====
-- The search of the wait-for graph ends: each round marks a thread or takes a frame off the stack.
use chibios_smash.Base.{
  ℕ, zero, suc, ◌+◌, ◌-◌, ◌*◌, ◌≤◌, ◌<◌, ◌≡◌, refl, Bool, true, false, Option, none, some, List, [],
  ◌∷◌, ap, if◌then◌else◌, update, arith, ℕ_discrete,
}
use chibios_smash.Spec.Circular.{
  Frame, Dfs, Found, back_edge, descend, exhausted, Outcome, acyclic, cycle, out_of_fuel, scan,
  push, take, round, continue, while_top, dfs_loop,
}
use chibios_smash.Spec.Circular.Walks.{scan-descend, scan-descend_lt}

unfoldable pub depth : List Frame → ℕ
depth [] = 0
depth (_ ∷ fs) = 1 + depth fs

-- The threads below `n` that are not yet visited.
unfoldable pub unvisited : ℕ → (ℕ → Bool) → ℕ
unvisited zero visited = 0
unvisited (suc n) visited = (if visited n then 0 else 1) + unvisited n visited

unvisited-update_above :
    (n v : ℕ) (visited : ℕ → Bool)
    → n ≤ v
    → unvisited n (update visited v true) ≡ unvisited n visited
unfolding unvisited
unvisited-update_above zero v visited above = refl
unvisited-update_above (suc n) v visited above = ground (arith, unvisited-update_above n v visited)

unvisited-update :
    (n v : ℕ) (visited : ℕ → Bool)
    → v < n
    → visited v ≡ false
    → 1 + unvisited n (update visited v true) ≡ unvisited n visited
unfolding unvisited
unvisited-update zero v visited lt new = omega arith
unvisited-update (suc n) v visited lt new = elim (ℕ_discrete n v) [
  | yes here ↦
      let rest = unvisited-update_above n v visited (omega arith) in
      let now : visited n ≡ false = rw here new in ground arith
  | no later ↦ let rest = unvisited-update n v visited (omega arith) new in ground arith
]

unvisited-le : (n : ℕ) (visited : ℕ → Bool) → unvisited n visited ≤ n
unfolding unvisited
unvisited-le zero visited = omega arith
unvisited-le (suc n) visited = let ih = unvisited-le n visited in ground arith

module _ (n : ℕ) (edge : ℕ → ℕ → Bool) where
  unfoldable pub work : Dfs → ℕ
  work s = 2 * unvisited n s.visited + depth s.stack

  pub take-work :
      (s t : Dfs) (f : Frame) (below : List Frame) (found : Found)
      → s.stack ≡ f ∷ below
      → scan n edge s f.node (n - f.ptr) f.ptr ≡ found
      → take n edge s f below found ≡ some t
      → work t < work s
  unfolding take push work depth
  take-work s t f below (back_edge v) top e h = cc
  take-work s t f below (descend v) top e h =
      let lt = scan-descend_lt n edge s f.node f.ptr v e in
      let (_, new, _, _) = scan-descend n edge s f.node (n - f.ptr) f.ptr v e in
      let fewer = unvisited-update n v s.visited lt new in ground arith
  take-work s t f below exhausted top e h = ground arith

  -- Twice the threads are enough for a search from a new thread.
  pub work-push :
      (s : Dfs) (v : ℕ)
      → v < n
      → s.visited v ≡ false
      → s.stack ≡ []
      → work (push n edge v s) ≤ 2 * n
  unfolding work push depth
  work-push s v lt new empty =
      let fewer = unvisited-update n v s.visited lt new in
      let few = unvisited-le n s.visited in omega (arith, ap depth empty)

  -- How a run of the loop ends, for a property of the fuel and the state that each round keeps.
  pub data Ended {ℓ} (P : ℕ → Dfs → Type ℓ) : Outcome → Type ℓ where
    at_end : {fuel : ℕ} {t : Dfs} → P fuel t → t.stack ≡ [] → Ended P (acyclic t)
    at_cycle :
        {fuel : ℕ} {t : Dfs} {f : Frame} {below : List Frame}
        → P fuel t
        → t.stack ≡ f ∷ below
        → round n edge t f below ≡ none
        → Ended P cycle
    at_zero :
        {t : Dfs} {f : Frame} {below : List Frame}
        → P 0 t
        → t.stack ≡ f ∷ below
        → Ended P out_of_fuel

  module _ {ℓ} (P : ℕ → Dfs → Type ℓ)
      (keep : (fuel : ℕ) (s t : Dfs) (f : Frame) (below : List Frame)
        → s.stack ≡ f ∷ below
        → round n edge s f below ≡ some t
        → P (suc fuel) s
        → P fuel t) where
    Ended-continue :
        (fuel : ℕ) (s : Dfs) (f : Frame) (below : List Frame) (rest : Dfs → Outcome)
        → s.stack ≡ f ∷ below
        → P (suc fuel) s
        → ((t : Dfs) → P fuel t → Ended P (rest t))
        → (next : Option Dfs) → round n edge s f below ≡ next
        → Ended P (continue n edge rest next)
    unfolding continue
    Ended-continue fuel s f below rest top p ends none stop = at_cycle p top stop
    Ended-continue fuel s f below rest top p ends (some t) go =
        ends t (keep fuel s t f below top go p)

    Ended-while_top :
        (fuel : ℕ) (s : Dfs) (body : Frame → List Frame → Outcome)
        → P fuel s
        → ((f : Frame) (below : List Frame) → s.stack ≡ f ∷ below → Ended P (body f below))
        → (stack : List Frame) → s.stack ≡ stack
        → Ended P (while_top n edge body s stack)
    unfolding while_top
    Ended-while_top fuel s body p ends [] top = at_end p top
    Ended-while_top fuel s body p ends (f ∷ below) top = ends f below top

    -- The rule of the loop.
    pub dfs_loop_rule : (fuel : ℕ) (s : Dfs) → P fuel s → Ended P (dfs_loop n edge fuel s)
    unfolding dfs_loop
    dfs_loop_rule zero s p =
        Ended-while_top zero s (λ _ _. out_of_fuel) p (λ f below top. at_zero p top) s.stack refl
    dfs_loop_rule (suc fuel) s p =
        Ended-while_top (suc fuel) s
          (λ f below. continue n edge (dfs_loop n edge fuel) (round n edge s f below)) p
          (λ f below top.
            Ended-continue fuel s f below (dfs_loop n edge fuel) top p (dfs_loop_rule fuel)
              (round n edge s f below) refl)
          s.stack refl
