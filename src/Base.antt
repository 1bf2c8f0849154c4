-- ===== src/Base.antt =====
-- The names that the other modules share: the libraries' names, passed on, and the tests, lists,
-- texts, integers and table rows of the modules below. It models no code of its own.
mod Tests
mod Lists
mod Texts
mod Int
mod Rows
mod RowPairs
mod RowKeys
mod Results
pub use Tests.*
pub use Lists.*
unfoldable pub use Texts.*
pub use Int.*
pub use RowKeys.*
pub use RowPairs.*
unfoldable pub use Rows.*
pub use Results.*
pub use Prim.Native.Nat.{ℕ, zero, suc, ◌+◌, ◌-◌, ◌*◌, ◌/◌, ◌%◌, ◌^◌, ◌≤◌, ◌<◌, max, min}
pub use mathlib.Core.Path.{◌≡◌, refl, sym, ap, ◌∙◌, subst}
pub use mathlib.Core.Logic.{◌≢◌, ◌↔◌, ◌⊎◌, inl, inr}
pub use mathlib.Core.Bool.{Bool, true, false, not, ◌&&◌, ◌||◌}
pub use mathlib.Core.Option.{Option, none, some}
pub use mathlib.Core.List.{List, [], ◌∷◌, ◌++◌, map}
pub use native.Mathlib.Omega.{arith}
