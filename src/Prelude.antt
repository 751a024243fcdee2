-- ===== src/Prelude.antt =====
-- The names that the other modules share: the libraries', passed on, and those of the children.
pub mod Tests
pub mod Lists
pub mod Strings
pub mod Split
pub mod Keyed
pub mod Table
pub mod Int
pub mod Sort
pub mod Distinct
pub mod Subsequence
pub mod Trim
pub use Tests.*
pub use Lists.*
unfoldable pub use Strings.{text_beq, starts_with, split_on, join_with}
pub use Strings.{
  Equality, ◌==◌, nat_eq, extend_first, Text, codes, text_beq_iff, text_eq, starts_with-append,
  is_space,
}
pub use Prim.Native.Nat.{ℕ, zero, suc, ◌+◌, ◌-◌, ◌*◌, ◌/◌, ◌%◌, ◌^◌, ◌≤◌, ◌<◌, min, max}
pub use mathlib.Core.Path.{◌≡◌, refl, sym, ap, ◌∙◌}
pub use mathlib.Core.Logic.{◌≢◌, ◌↔◌, ◌⊎◌, inl, inr}
pub use mathlib.Core.Bool.{Bool, true, false, not, ◌&&◌, ◌||◌}
pub use mathlib.Core.Option.{Option, none, some}
pub use mathlib.Core.List.{List, [], ◌∷◌, ◌++◌, map, reverse, append_assoc, append-nil}
pub use native.Mathlib.Omega.{arith}
