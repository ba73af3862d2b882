-- ===== src/Spec/Circular/Invariant.antt =====
-- The invariant of the search of the wait-for graph, and that each round keeps it.
use chibios_smash.Base.{
  ℕ, suc, ◌-◌, ◌<◌, ◌≡◌, ◌⊎◌, refl, sym, inl, inr, Bool, true, false, Option, none, some, List, [],
  ◌∷◌, contains, update, ap, ◌∙◌, arith, ℕ_discrete, dec_lt,
}
use mathlib.Core.Path.{subst}
use chibios_smash.Spec.Circular.{Frame, Dfs, back_edge, descend, exhausted, scan, push}
use chibios_smash.Spec.Circular.Walks.{
  Walk, one, more, snoc, nodes, finished, scan-back_edge, scan-descend, scan-descend_after,
  scan-exhausted,
}

-- A stack whose threads form a walk that ends in `child`, if there is one, in which each frame has
-- looked at its neighbours below `ptr`: they are finished or the child of the frame.
pub data Framed (edge : ℕ → ℕ → Bool) (fin : ℕ → Bool) : Option ℕ → List Frame → Type 0 where
  bottom : {child : Option ℕ} → Framed edge fin child []
  frame :
      {child : Option ℕ} {f : Frame} {below : List Frame}
      → ((c : ℕ) → child ≡ some c → edge f.node c ≡ true)
      → ((w : ℕ) → w < f.ptr → edge f.node w ≡ true → (fin w ≡ true) ⊎ (child ≡ some w))
      → contains (nodes below) f.node ≡ false
      → Framed edge fin (some f.node) below
      → Framed edge fin child (f ∷ below)

module _ (edge : ℕ → ℕ → Bool) where
  Framed-mono :
      {fin fin' : ℕ → Bool} {child : Option ℕ} (l : List Frame)
      → ((v : ℕ) → fin v ≡ true → fin' v ≡ true)
      → Framed edge fin child l
      → Framed edge fin' child l
  Framed-mono [] more_fin bottom = bottom
  Framed-mono (f ∷ below) more_fin (frame path done apart rest) =
      frame path (λ w lt e. elim (done w lt e) [ inl d ↦ inl (more_fin w d) | inr c ↦ inr c ]) apart
        (Framed-mono below more_fin rest)

  -- The child leaves the stack when it is finished.
  Framed-none :
      {fin : ℕ → Bool} {v : ℕ} (l : List Frame)
      → fin v ≡ true
      → Framed edge fin (some v) l
      → Framed edge fin none l
  Framed-none [] left bottom = bottom
  Framed-none {fin} {v} (f ∷ below) left (frame path done apart rest) =
      frame (λ c h. cc)
        (λ w lt e. elim (done w lt e) [ inl d ↦ inl d | inr c ↦ inl (ground (arith, left)) ]) apart
        rest

  -- Each thread of the stack has a walk to the child.
  Framed-Walk :
      {fin : ℕ → Bool} {v : ℕ} (l : List Frame) (w : ℕ)
      → Framed edge fin (some v) l
      → contains (nodes l) w ≡ true
      → Walk edge w v
  unfolding contains nodes
  Framed-Walk [] w bottom h = cc
  Framed-Walk {fin} {v} (f ∷ below) w (frame path done apart rest) h = elim (ℕ_discrete f.node w) [
    | yes here ↦ one (rw (sym here) (path v refl))
    | no lower ↦ snoc (Framed-Walk below w rest (ground arith)) (path v refl)
  ]

module _ (n : ℕ) (edge : ℕ → ℕ → Bool) where
  pub record IsSearch (child : Option ℕ) (s : Dfs) : Type 0 where
    pub held : (v : ℕ) → s.in_stack v ≡ contains (nodes s.stack) v
    pub seen : (v : ℕ) → s.in_stack v ≡ true → s.visited v ≡ true
    pub framed : Framed edge (finished s) child s.stack
    pub clear : (v : ℕ) → finished s v ≡ true → ¬ Walk edge v v

  top-Framed :
      {child : Option ℕ} (s : Dfs) (f : Frame) (below : List Frame)
      → IsSearch child s
      → s.stack ≡ f ∷ below
      → Framed edge (finished s) child (f ∷ below)
  top-Framed {child} s f below ok top = subst (Framed edge (finished s) child) top ok.framed

  -- A scan that ends at a thread on the stack has found a cycle.
  pub back_edge-Walk :
      (s : Dfs) (f : Frame) (below : List Frame) (v : ℕ)
      → IsSearch none s
      → s.stack ≡ f ∷ below
      → scan n edge s f.node (n - f.ptr) f.ptr ≡ back_edge v
      → Walk edge v v
  unfolding contains nodes
  back_edge-Walk s f below v ok top e =
      let (last, on_stack) = scan-back_edge n edge s f.node (n - f.ptr) f.ptr v e in
      let among : contains (nodes (f ∷ below)) v ≡ true =
        subst (λ l. contains (nodes l) v ≡ true) top (sym (ok.held v) ∙ on_stack) in
      elim (top-Framed s f below ok top) [
        | frame path done apart rest ↦ elim (ℕ_discrete f.node v) [
          | yes here ↦ one (subst (λ x. edge x v ≡ true) here last)
          | no lower ↦ snoc (Framed-Walk edge below v rest (ground arith)) last
        ]
      ]

  pub advance-IsSearch :
      (s : Dfs) (f : Frame) (below : List Frame) (v : ℕ)
      → IsSearch none s
      → s.stack ≡ f ∷ below
      → scan n edge s f.node (n - f.ptr) f.ptr ≡ descend v
      → IsSearch (some v) (record s { stack = record f { ptr = suc v } ∷ below })
  unfolding contains nodes finished
  advance-IsSearch s f below v ok top e = record {
    held = λ w. ok.held w ∙ ap (λ l. contains (nodes l) w) top;
    seen = ok.seen;
    framed = elim (top-Framed s f below ok top) [
      | frame path done apart rest ↦
          frame {child = some v} {f = record f { ptr = suc v }}
            (λ c h. ground (arith, h, scan-descend n edge s f.node (n - f.ptr) f.ptr v e))
            (λ w lt e'. elim (dec_lt w f.ptr) [
              | yes early ↦ elim (done w early e') [ inl d ↦ inl d | inr c ↦ cc ]
              | no late ↦ elim (dec_lt w v) [
                | yes between ↦ inl (
                    scan-descend_after n edge s f.node (n - f.ptr) f.ptr v e w (omega arith) between
                      e')
                | no last ↦ let same : v ≡ w = omega arith in inr (ap some same)
              ]
            ])
            apart rest
    ];
    clear = ok.clear;
  }

  -- On an empty stack any thread may start.
  pub IsSearch-start : (s : Dfs) (v : ℕ) → IsSearch none s → s.stack ≡ [] → IsSearch (some v) s
  IsSearch-start s v ok empty = record {
    held = ok.held;
    seen = ok.seen;
    framed = subst (Framed edge (finished s) (some v)) (sym empty) bottom;
    clear = ok.clear;
  }

  pub push-IsSearch :
      (s : Dfs) (v : ℕ)
      → IsSearch (some v) s
      → s.visited v ≡ false
      → IsSearch none (push n edge v s)
  unfolding push contains nodes finished
  push-IsSearch s v ok new = record {
    held = λ w. let h = ok.held w in ground arith;
    seen = λ w. let h = ok.seen w in ground arith;
    framed =
        frame (λ c h. cc) (λ w lt e'. absurd (ground arith))
          (let h = ok.held v in let i = ok.seen v in ground arith)
          (Framed-mono edge s.stack (λ w fin. ground (arith, fin, new)) ok.framed);
    clear = λ w h. ok.clear w (ground arith);
  }

  -- All that the thread on the top waits for is finished when its scan is exhausted.
  exhausted-finished :
      (s : Dfs) (f : Frame) (below : List Frame)
      → IsSearch none s
      → s.stack ≡ f ∷ below
      → scan n edge s f.node (n - f.ptr) f.ptr ≡ exhausted
      → (w : ℕ) → w < n
      → edge f.node w ≡ true
      → finished s w ≡ true
  exhausted-finished s f below ok top e w lt e' = elim (dec_lt w f.ptr) [
    | no later ↦ scan-exhausted n edge s f.node (n - f.ptr) f.ptr e w (omega arith) (omega arith) e'
    | yes earlier ↦ elim (top-Framed s f below ok top) [
      | frame path done apart rest ↦ elim (done w earlier e') [ inl d ↦ d | inr c ↦ cc ]
    ]
  ]

  Walk-source : (bounded : (v w : ℕ) → edge v w ≡ true → v < n) {a b : ℕ} → Walk edge a b → a < n
  Walk-source bounded (one e) = bounded _ _ e
  Walk-source bounded (more e w) = bounded _ _ e

  exhausted-clear :
      (s : Dfs) (f : Frame) (below : List Frame)
      → ((v w : ℕ) → edge v w ≡ true → v < n)
      → IsSearch none s
      → s.in_stack f.node ≡ true
      → ((w : ℕ) → w < n → edge f.node w ≡ true → finished s w ≡ true)
      → ¬ Walk edge f.node f.node
  unfolding finished
  exhausted-clear s f below bounded ok held all_done (one e) =
      ground (arith, all_done f.node (bounded _ _ e) e)
  exhausted-clear s f below bounded ok held all_done (more {b = b} e w) =
      ok.clear b (all_done b (Walk-source bounded w) e) (snoc w e)

  pub pop-IsSearch :
      (s : Dfs) (f : Frame) (below : List Frame)
      → ((v w : ℕ) → edge v w ≡ true → v < n)
      → IsSearch none s
      → s.stack ≡ f ∷ below
      → scan n edge s f.node (n - f.ptr) f.ptr ≡ exhausted
      → IsSearch none (record s { in_stack = update s.in_stack f.node false; stack = below })
  unfolding contains nodes finished
  pop-IsSearch s f below bounded ok top e =
      let on_top : s.in_stack f.node ≡ true =
        ok.held f.node ∙ ap (λ l. contains (nodes l) f.node) top ∙ ground arith in
      let left =
        exhausted-clear s f below bounded ok on_top (exhausted-finished s f below ok top e) in
      elim (top-Framed s f below ok top) [
        | frame path done apart rest ↦ record {
          held = λ w.
              let h = ok.held w ∙ ap (λ l. contains (nodes l) w) top in ground (arith, h, apart);
          seen = λ w. let h = ok.seen w in ground arith;
          framed =
              Framed-none edge below (let h = ok.seen f.node on_top in ground (arith, h))
                (Framed-mono edge below (λ w h. ground (arith, h)) rest);
          clear = λ w h. elim (ℕ_discrete f.node w) [
            | yes here ↦ subst (λ x. ¬ Walk edge x x) here left
            | no other ↦ ok.clear w (ground (arith, h))
          ];
        }
      ]
