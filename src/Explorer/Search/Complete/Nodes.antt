-- ===== src/Explorer/Search/Complete/Nodes.antt =====
-- A call of `explore_dfs` of src/explorer.c at one state, in a search without pruning.
use mathlib.Core.Path.{subst}
use chibios_smash.Base.{
  ℕ, suc, ◌+◌, ◌≡◌, refl, sym, ap, ◌∙◌, inl, inr, true, false, none, is_some, leb, ltb_ℤ, pos,
  Bool-cases, arith, List, [], ◌∷◌, contains,
}
use chibios_smash.Types.{max_threads, max_depth, Engine}
use chibios_smash.Engine.Threads.{collect_runnable, all_done}
use chibios_smash.Explorer.Persistent.{mask_of}
use chibios_smash.Explorer.Search.{
  Config, Search, should_stop, report_deadlock, explore_threads, explore_set, explore_state,
  explore_runnable, explore_node,
}
use chibios_smash.Explorer.Search.Reach.{IsView, all_done-IsView, collect_runnable-IsView}
use chibios_smash.Explorer.Search.Complete.Safe.{
  IsSafe, IsOpen, IsThorough, keep_trace-some, mask_of-all,
}
use chibios_smash.Explorer.Search.Complete.Rounds.{
  explore_threads-IsOpen, explore_threads-IsFollowed,
}

-- The state is counted.
abbrev counted : Search → Search
counted s = record s { result = record (s.result) { states = s.result.states + 1 } }

module _ (cfg : Config) (plain : cfg.enable_dpor ≡ false)
    (uncached : cfg.enable_state_caching ≡ false) where
  module _ (below : Search → Search) (k : ℕ) (call : IsThorough cfg k below) (depth : ℕ)
      (e : Engine) (fine : e.fail_msg ≡ none) where
    explore_state-plain :
        (runnable : List ℕ) (s : Search)
        → explore_state below cfg depth runnable s
          ≡ explore_threads below cfg depth runnable (mask_of runnable) runnable (counted s)
    unfolding explore_state explore_set
    explore_state-plain runnable s = rw (plain, uncached) refl

    -- What a call at a state says: it was open before, and the state is safe for one level more.
    pub record IsSearched (levels : ℕ) (s : Search) : Type 0 where
      pub was_open : IsOpen cfg s.result
      pub safe : IsView e s.engine → IsSafe levels e

    explore_runnable-IsSearched :
        (runnable : List ℕ) (s : Search)
        → (IsView e s.engine → runnable ≡ collect_runnable e max_threads)
        → IsOpen cfg (explore_runnable below cfg depth runnable s).result
        → IsSearched (suc k) s
    unfolding explore_runnable report_deadlock
    explore_runnable-IsSearched [] s all opened =
        absurd (keep_trace-some s.result _ opened.untraced)
    explore_runnable-IsSearched (t ∷ ts) s all opened =
        let loop : IsOpen cfg
            (explore_threads below cfg depth (t ∷ ts) (mask_of (t ∷ ts)) (t ∷ ts)
              (counted s)).result =
          subst (λ (x : Search). IsOpen cfg x.result) (explore_state-plain (t ∷ ts) s) opened in
        let was_open =
          explore_threads-IsOpen cfg below call.opened depth (t ∷ ts) (mask_of (t ∷ ts)) (t ∷ ts)
            (counted s) (mask_of-all (t ∷ ts)) loop in
        record {
          was_open = record { untraced = was_open.untraced; room = was_open.room };
          safe = λ view. inr (
            (λ empty. let e' = all view ∙ empty in cc),
            (λ tid runs.
                explore_threads-IsFollowed cfg below k call depth e fine (t ∷ ts) (mask_of (t ∷ ts))
                  (t ∷ ts) (counted s) (mask_of-all (t ∷ ts)) view loop tid
                  (subst (λ l. contains l tid ≡ true) (sym (all view)) runs)),
          );
        }

    pub explore_node-IsSearched :
        (s : Search)
        → leb max_depth depth ≡ false
        → ltb_ℤ (pos depth) cfg.max_depth ≡ true
        → IsOpen cfg (explore_node below cfg depth s).result
        → IsSearched (suc k) s
    unfolding explore_node
    explore_node-IsSearched s shallow above opened = elim (Bool-cases (should_stop cfg s.result)) [
      | inl stop ↦
          let o : IsOpen cfg s.result = rw stop at opened in
          absurd (ground (arith, stop, ap is_some o.untraced))
      | inr go ↦ elim (Bool-cases (leb cfg.max_interleavings s.result.interleavings)) [
        | inl over ↦
            let o : IsOpen cfg s.result = rw (go, over) at opened in
            absurd (ground (arith, over, o.room))
        | inr under ↦ elim (Bool-cases (all_done s.engine)) [
          | inl done ↦
              let o : IsOpen cfg
                  (record (s.result) { interleavings = s.result.interleavings + 1 }) =
                rw (go, under, shallow, above, done) at opened in
              record {
                was_open = record { untraced = o.untraced; room = under };
                safe = λ view. inl (sym (all_done-IsView e s.engine view) ∙ done);
              }
          | inr live ↦
              explore_runnable-IsSearched (collect_runnable s.engine max_threads) s
                (λ view. collect_runnable-IsView e s.engine view)
                (rw (go, under, shallow, above, live) at opened)
        ]
      ]
    ]

  pub explore_node-below :
      (below : Search → Search) (depth : ℕ) (s : Search)
      → ltb_ℤ (pos depth) cfg.max_depth ≡ false
      → (explore_node below cfg depth s).result ≡ s.result
  unfolding explore_node
  explore_node-below below depth s deep = elim (Bool-cases (should_stop cfg s.result)) [
    | inl stop ↦ rw stop refl
    | inr go ↦ elim (Bool-cases (leb cfg.max_interleavings s.result.interleavings)) [
      | inl over ↦ rw (go, over) refl
      | inr under ↦ elim (Bool-cases (leb max_depth depth)) [
        | inl full ↦ rw (go, under, full) refl
        | inr shallow ↦ rw (go, under, shallow, deep) refl
      ]
    ]
  ]
