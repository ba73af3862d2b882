-- ===== src/Spec/Circular/Walks.antt =====
-- The walks of a wait-for graph, what a scan of the neighbours finds, and the invariant of the search.
use chibios_smash.Base.{
  ℕ, zero, suc, ◌+◌, ◌-◌, ◌≤◌, ◌<◌, ◌≡◌, sym, Bool, true, false, not, ◌&&◌, List, [], ◌∷◌, arith,
  ℕ_discrete, dec_lt,
}
use chibios_smash.Spec.Circular.{Frame, Dfs, back_edge, descend, exhausted, scan}

-- A nonempty walk along the edges.
pub data Walk (edge : ℕ → ℕ → Bool) : ℕ → ℕ → Type 0 where
  one : {a b : ℕ} → edge a b ≡ true → Walk edge a b
  more : {a b c : ℕ} → edge a b ≡ true → Walk edge b c → Walk edge a c

pub snoc : {edge : ℕ → ℕ → Bool} {a b c : ℕ} → Walk edge a b → edge b c ≡ true → Walk edge a c
snoc (one e) last = more e (one last)
snoc (more e w) last = more e (snoc w last)

unfoldable pub nodes : List Frame → List ℕ
nodes [] = []
nodes (f ∷ fs) = f.node ∷ nodes fs

-- The search has left the thread for good.
unfoldable pub finished : Dfs → ℕ → Bool
finished s v = s.visited v && not (s.in_stack v)

-- What a scan of the neighbours from `next` on finds: an edge to a thread on the stack,
pub scan-back_edge :
    (n : ℕ) (edge : ℕ → ℕ → Bool) (s : Dfs) (cur k next v : ℕ)
    → scan n edge s cur k next ≡ back_edge v
    → (edge cur v ≡ true) × (s.in_stack v ≡ true)
unfolding scan
scan-back_edge n edge s cur zero next v h = cc
scan-back_edge n edge s cur (suc k) next v h =
    let ih = scan-back_edge n edge s cur k (suc next) v in ground arith

-- an edge to a new thread, after finished ones,
pub scan-descend :
    (n : ℕ) (edge : ℕ → ℕ → Bool) (s : Dfs) (cur k next v : ℕ)
    → scan n edge s cur k next ≡ descend v
    → (edge cur v ≡ true) × (s.visited v ≡ false) × (s.in_stack v ≡ false) × (v < k + next)
unfolding scan
scan-descend n edge s cur zero next v h = cc
scan-descend n edge s cur (suc k) next v h =
    let ih = scan-descend n edge s cur k (suc next) v in ground arith

pub scan-descend_lt :
    (n : ℕ) (edge : ℕ → ℕ → Bool) (s : Dfs) (cur ptr v : ℕ)
    → scan n edge s cur (n - ptr) ptr ≡ descend v
    → v < n
unfolding scan
scan-descend_lt n edge s cur ptr v h = elim (dec_lt ptr n) [
  | yes some_left ↦ omega (arith, scan-descend n edge s cur (n - ptr) ptr v h)
  | no over ↦ let none_left : n - ptr ≡ 0 = omega arith in cc (rw none_left at h)
]

pub scan-descend_after :
    (n : ℕ) (edge : ℕ → ℕ → Bool) (s : Dfs) (cur k next v : ℕ)
    → scan n edge s cur k next ≡ descend v
    → (w : ℕ) → next ≤ w
    → w < v
    → edge cur w ≡ true
    → finished s w ≡ true
unfolding scan finished
scan-descend_after n edge s cur zero next v h w from lt e = cc
scan-descend_after n edge s cur (suc k) next v h w from lt e = elim (ℕ_discrete next w) [
  | yes here ↦
      let e' : edge cur next ≡ true = rw here e in
      let late : next < v = omega arith in
      let ih = scan-descend_after n edge s cur k (suc next) v in rw (sym here) (ground arith)
  | no later ↦
      let ih = λ (h' : scan n edge s cur k (suc next) ≡ descend v).
        scan-descend_after n edge s cur k (suc next) v h' w (omega arith) lt e in
      ground arith
]

-- or finished ones only.
pub scan-exhausted :
    (n : ℕ) (edge : ℕ → ℕ → Bool) (s : Dfs) (cur k next : ℕ)
    → scan n edge s cur k next ≡ exhausted
    → (w : ℕ) → next ≤ w
    → w < k + next
    → edge cur w ≡ true
    → finished s w ≡ true
unfolding scan finished
scan-exhausted n edge s cur zero next h w from lt e = ground arith
scan-exhausted n edge s cur (suc k) next h w from lt e = elim (ℕ_discrete next w) [
  | yes here ↦ let e' : edge cur next ≡ true = rw here e in rw (sym here) (ground arith)
  | no later ↦
      let ih = λ (h' : scan n edge s cur k (suc next) ≡ exhausted).
        scan-exhausted n edge s cur k (suc next) h' w (omega arith) (omega arith) e in
      ground arith
]
