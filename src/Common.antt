-- ===== src/Common.antt =====
-- The names that the modules of the development share: the libraries', passed on, and those of
-- the children (tests, lists, results, machine words, text, decidable equality).
mod Tests
mod Lists
mod Results
mod Words
mod Strings
mod Split
mod Classes
mod Orders
mod Sorting
mod Floats
mod Inserting
mod Adjacent
pub use Tests.*
pub use Lists.*
pub use Results.*
unfoldable pub use Results.{for_each}
pub use Words.*
pub use Strings.*
pub use Split.*
unfoldable pub use Split.{split}
unfoldable pub use Strings.{trim_start, trim, split_whitespace}
pub use Classes.*
pub use Orders.*
pub use Sorting.*
pub use Floats.*
pub use Inserting.*
pub use Adjacent.*
unfoldable pub use Sorting.{sort, dedup}
unfoldable pub use Inserting.{insert_all}
pub use Prim.Native.Nat.{ℕ, zero, suc, ◌+◌, ◌-◌, ◌*◌, ◌/◌, ◌%◌, ◌^◌, ◌≤◌, ◌<◌}
pub use Prim.Native.String.{String}
pub use mathlib.Core.Path.{◌≡◌, refl, sym, ap, ◌∙◌, subst}
pub use mathlib.Core.Logic.{◌≢◌, ◌↔◌, ◌⊎◌, inl, inr}
pub use mathlib.Core.Bool.{Bool, true, false, not, ◌&&◌, ◌||◌}
pub use mathlib.Core.Option.{Option, none, some}
pub use mathlib.Core.List.{List, [], ◌∷◌, ◌++◌, map, Memᴰ}
pub use native.Mathlib.Omega.{arith}
