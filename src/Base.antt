-- ===== src/Base.antt =====
-- The names that the other modules share: numbers, paths, Booleans, tests, C arrays and C loops.
mod Tests
mod Int
mod Arrays
mod Lists
mod Concat
pub use Tests.*
pub use Int.*
pub use Arrays.*
unfoldable pub use Arrays.{for_up, all_below}
pub use Lists.{List-cases, count_not_mono, count_not-less}
pub use Concat.{
  all_in-append, all_in-concat_below, concat_below-all_in, concat_from-all_in, concat_below-any_in,
  any_in-concat_below, count_of-concat_below,
}
unfoldable pub use Concat.{concat_below, concat_from, all_in, any_in, count_of}
unfoldable pub use Lists.{contains, count_not}
pub use Prim.Native.Nat.{ℕ, zero, suc, ◌+◌, ◌-◌, ◌*◌, ◌/◌, ◌%◌, ◌^◌, ◌≤◌, ◌<◌}
pub use mathlib.Core.Path.{◌≡◌, refl, sym, ap, ◌∙◌}
pub use mathlib.Core.Logic.{◌≢◌, ◌↔◌, ◌⊎◌, inl, inr}
pub use mathlib.Core.Bool.{Bool, true, false, not, ◌&&◌, ◌||◌}
pub use mathlib.Core.Option.{Option, none, some}
pub use mathlib.Core.List.{List, [], ◌∷◌, ◌++◌}
pub use native.Mathlib.Omega.{arith}
unfoldable pub use native.Mathlib.Decide.{dec_lt, ℕ_discrete}
