-- ===== src/Common.antt =====
-- Names that every part shares: the libraries', passed on, and those of the children, which
-- hold what the program takes from Python (tests, lists, dictionaries, methods that may raise).
mod Tests
mod Lists
mod Members
mod Indexing
mod Dicts
mod Texts
mod Sorting
mod Actions
pub use Tests.*
pub use Lists.*
pub use Members.*
pub use Indexing.*
unfoldable pub use Dicts.{lookup, insert, erase}
pub use Dicts.*
pub use Texts.*
unfoldable pub use Sorting.{sort_by, insert_by}
pub use Sorting.*
unfoldable pub use Actions.{◌>>=◌}
pub use Actions.*
pub use Prim.Native.Nat.{ℕ, zero, suc, ◌+◌, ◌-◌, ◌*◌, ◌/◌, ◌%◌, ◌≤◌, ◌<◌}
pub use Prim.Native.String.{String}
pub use mathlib.Core.Path.{◌≡◌, refl, sym, ap, ◌∙◌}
pub use mathlib.Core.Logic.{◌≢◌, ◌↔◌, ◌⊎◌, inl, inr}
pub use mathlib.Core.Bool.{Bool, true, false, not, ◌&&◌, ◌||◌}
pub use mathlib.Core.Option.{Option, none, some}
pub use mathlib.Core.List.{map-append}
pub use mathlib.Core.List.{List, [], ◌∷◌, ◌++◌, map}
pub use native.Mathlib.Omega.{arith}
