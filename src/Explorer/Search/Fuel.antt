-- ===== src/Explorer/Search/Fuel.antt =====
-- The fuel of `explore_dfs` never runs out.
use chibios_smash.Base.{
  ℕ, zero, suc, ◌+◌, ◌≤◌, ◌≡◌, refl, sym, ap, leb, arith, true, Bool-cases, inl, inr,
}
use chibios_smash.Types.{max_depth}
use chibios_smash.Explorer.Search.{Config, Search, should_stop, explore_node, explore_dfs}

explore_node-deep :
    (below : Search → Search) (cfg : Config) (depth : ℕ) (s : Search)
    → max_depth ≤ depth
    → explore_node below cfg depth s ≡ s
unfolding explore_node
explore_node-deep below cfg depth s deep =
    let full : leb max_depth depth ≡ true = ground arith in
    elim (Bool-cases (should_stop cfg s.result)) [
      | inl stop ↦ rw stop refl
      | inr go ↦ elim (Bool-cases (leb cfg.max_interleavings s.result.interleavings)) [
        | inl over ↦ rw (go, over) refl
        | inr under ↦ rw (go, under, full) refl
      ]
    ]

-- Any two amounts of fuel that cover the rest of the depth limit give the same search, so the search
-- ends by its own guards and not for want of fuel.
pub explore_dfs-fuel :
    (fuel fuel' : ℕ) (cfg : Config) (depth : ℕ) (s : Search)
    → max_depth ≤ fuel + depth
    → max_depth ≤ fuel' + depth
    → explore_dfs fuel cfg depth s ≡ explore_dfs fuel' cfg depth s
unfolding explore_dfs
explore_dfs-fuel zero zero cfg depth s enough enough' = refl
explore_dfs-fuel zero (suc fuel') cfg depth s enough enough' =
    sym (explore_node-deep (explore_dfs fuel' cfg (depth + 1)) cfg depth s (omega arith))
explore_dfs-fuel (suc fuel) zero cfg depth s enough enough' =
    explore_node-deep (explore_dfs fuel cfg (depth + 1)) cfg depth s (omega arith)
explore_dfs-fuel (suc fuel) (suc fuel') cfg depth s enough enough' =
    ap (λ below. explore_node below cfg depth s)
      (λ i t. explore_dfs-fuel fuel fuel' cfg (depth + 1) t (omega arith) (omega arith) i)
