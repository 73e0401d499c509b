-- ===== src/Prelude.antt =====
-- Names that every module of the development shares: library names passed on, Boolean tests,
-- byte texts, signed integers, lists counted by native numbers, and maps.
mod Tests
mod Bytes
mod Lists
pub mod Int
pub mod Maps
pub mod Counting
pub mod Strings
pub mod Outcome
mod Sorting
pub use Tests.*
pub use Bytes.{Text, codes, ◌==◌, ==_refl, ==→eq, eq→==}
unfoldable pub use Bytes.{text_discrete}
pub use Lists.*
unfoldable pub use Counting.{contains}
pub use Counting.{contains-count}
unfoldable pub use Sorting.{sort}
pub use Sorting.{count-sort, any-sort}
pub use Prim.Native.Nat.{ℕ, zero, suc, ◌+◌, ◌-◌, ◌*◌, ◌/◌, ◌%◌, ◌^◌, ◌≤◌, ◌<◌}
pub use mathlib.Core.Path.{◌≡◌, refl, sym, ap, ◌∙◌, subst}
pub use mathlib.Core.Logic.{◌≢◌, ◌↔◌, ◌⊎◌, inl, inr}
pub use mathlib.Core.Bool.{Bool, true, false, ◌&&◌, ◌||◌, not}
pub use mathlib.Core.Option.{Option, none, some}
pub use mathlib.Core.List.{List, [], ◌∷◌, ◌++◌, map}
pub use native.Mathlib.Omega.{arith}
